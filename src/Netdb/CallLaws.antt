-- ===== src/Netdb/CallLaws.antt =====
-- Name lookup as the program sees it.
use libc6_shim.Prelude.{ℕ, ◌<◌, ◌≡◌, refl, List, ◌∷◌, Option, some, length}
use libc6_shim.CString.{CString}
use libc6_shim.Outcome.{ok}
use libc6_shim.Process.{Process}
use libc6_shim.Memory.{Memory, IsFresh}
use libc6_shim.Linked.Layout.{IsChain, Converts}
use libc6_shim.Linked.Laws.{free-copy}
use libc6_shim.Socket.{SocketNumbers}
use libc6_shim.Netdb.{NetdbNumbers, Hints, Addrinfo, native_hints}
use libc6_shim.Netdb.Copy.{Cell}
use libc6_shim.Netdb.NodeLayout.{LinuxAddrinfo, to_linux_addrinfo, addrinfo_layout}
use libc6_shim.Netdb.CopyLaws.{addrinfo-IsNodeOps}
use libc6_shim.Netdb.Calls.{Resolver, shim_getaddrinfo, shim_freeaddrinfo}

-- If the hints can be converted, and the native call succeeds with a list of at least one entry that
-- can all be converted, then getaddrinfo gives the program the list of the converted entries in
-- their order, behind what the memory held before, and releases the native list. When the program
-- hands it to freeaddrinfo, the loop there ends, with any fuel above the number of entries, nothing
-- aborts, and every address holds again what it held before the two calls.
pub getaddrinfo_then_freeaddrinfo :
    {W : Type 0} (s : SocketNumbers) (c : NetdbNumbers) (host : Resolver W) (garbage : ℕ)
    (scratch : List ℕ) (hostname servname : Option CString) (linux_hints : Option Hints)
    (hints : Hints) (n : Addrinfo) (ns : List Addrinfo) (v : LinuxAddrinfo)
    (vs : List LinuxAddrinfo) (res fuel : ℕ) (m : Memory Cell) (p p1 : Process W)
    → IsFresh m
    → native_hints s c linux_hints ≡ ok hints
    → host.getaddrinfo hostname servname hints p ≡ (0, n ∷ ns, p1)
    → Converts (to_linux_addrinfo s) (n ∷ ns) (v ∷ vs)
    → length (v ∷ vs) < fuel
    → (head : ℕ) × (m1 : Memory Cell) × (m2 : Memory Cell) × (shim_getaddrinfo s c host garbage
          scratch hostname servname linux_hints res m p
        ≡ ok (record { err = 0; res = head; memory = m1; process = host.freeaddrinfo (n ∷ ns) p1 }))
      × IsChain addrinfo_layout m1 m.last m1.last head (v ∷ vs)
      × (shim_freeaddrinfo s c host garbage scratch fuel head m1 ≡ some (ok m2))
      × ((a : ℕ) → m2.cells a ≡ m.cells a)
unfolding shim_getaddrinfo shim_freeaddrinfo
getaddrinfo_then_freeaddrinfo s c host garbage scratch hostname servname linux_hints hints n ns v vs
      res fuel m p p1 fresh hinted found converts enough =
    let (head, m1, m2, copies, chain, frees, same) =
      free-copy _ addrinfo_layout (to_linux_addrinfo s) (addrinfo-IsNodeOps s garbage) ns vs v n m
        fuel converts fresh enough in
    (head, m1, m2, rw (hinted, found, copies) refl, chain, frees, same)
