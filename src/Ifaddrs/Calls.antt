-- ===== src/Ifaddrs/Calls.antt =====
-- src/libc/ifaddrs.c: `shim_getifaddrs` and `shim_freeifaddrs`, and what the program sees of them.
use libc6_shim.Prelude.{ℕ, ◌<◌, ◌≡◌, refl, List, ◌∷◌, Option, some, length, ◌==◌, if◌then◌else◌}
use libc6_shim.Outcome.{Outcome, ok, ◌>>=◌}
use libc6_shim.Process.{Process}
use libc6_shim.Memory.{Memory, IsFresh}
use libc6_shim.Linked.{copy_list, free_list}
use libc6_shim.Linked.Layout.{IsChain, Converts}
use libc6_shim.Linked.Laws.{free-copy}
use libc6_shim.Ifaddrs.{InterfaceNumbers, Ifaddrs}
use libc6_shim.Ifaddrs.Copy.{Cell, ifaddrs_ops}
use libc6_shim.Ifaddrs.NodeLayout.{LinuxIfaddrs, to_linux_ifaddrs, ifaddrs_layout}
use libc6_shim.Ifaddrs.CopyLaws.{ifaddrs-IsNodeOps}

pub record Interfaces (W : Type 0) : Type 0 where
  pub getifaddrs : Process W → ℕ × List Ifaddrs × Process W
  pub freeifaddrs : List Ifaddrs → Process W → Process W

-- What `shim_getifaddrs` leaves: its result, `*res`, and the state.
pub record Listed (W : Type 0) : Type 0 where
  pub err : ℕ
  pub res : ℕ
  pub memory : Memory Cell
  pub process : Process W

module _ {W : Type 0} (c : InterfaceNumbers) (host : Interfaces W) (garbage : ℕ) where
  unfoldable pub shim_getifaddrs : ℕ → Memory Cell → Process W → Outcome (Listed W)
  shim_getifaddrs res m p =
      let (err, list_head, p1) = host.getifaddrs p in
      if err == 0
      then (do
        (head, m1) ← copy_list (ifaddrs_ops c garbage) list_head m
        ok (record { err = err; res = head; memory = m1; process = host.freeifaddrs list_head p1 }))
      else ok (record { err = err; res = res; memory = m; process = p1 })

  -- `none` when the fuel runs out.
  unfoldable pub shim_freeifaddrs : ℕ → ℕ → Memory Cell → Option (Outcome (Memory Cell))
  shim_freeifaddrs fuel ifa m = free_list (ifaddrs_ops c garbage) fuel ifa m

-- If the native call succeeds with a list of at least one entry that can all be converted, then
-- getifaddrs gives the program the list of the converted entries in their order, behind what the
-- memory held before, and releases the native list. When the program hands it to freeifaddrs, the
-- loop there ends, with any fuel above the number of entries, nothing aborts, and every address holds
-- again what it held before the two calls.
pub getifaddrs_then_freeifaddrs :
    {W : Type 0} (c : InterfaceNumbers) (host : Interfaces W) (garbage : ℕ) (n : Ifaddrs)
    (ns : List Ifaddrs) (v : LinuxIfaddrs) (vs : List LinuxIfaddrs) (res fuel : ℕ) (m : Memory Cell)
    (p p1 : Process W)
    → IsFresh m
    → host.getifaddrs p ≡ (0, n ∷ ns, p1)
    → Converts (to_linux_ifaddrs c) (n ∷ ns) (v ∷ vs)
    → length (v ∷ vs) < fuel
    → (head : ℕ) × (m1 : Memory Cell) × (m2 : Memory Cell) × (shim_getifaddrs c host garbage res m p
        ≡ ok (record { err = 0; res = head; memory = m1; process = host.freeifaddrs (n ∷ ns) p1 }))
      × IsChain ifaddrs_layout m1 m.last m1.last head (v ∷ vs)
      × (shim_freeifaddrs c host garbage fuel head m1 ≡ some (ok m2))
      × ((a : ℕ) → m2.cells a ≡ m.cells a)
unfolding shim_getifaddrs shim_freeifaddrs
getifaddrs_then_freeifaddrs c host garbage n ns v vs res fuel m p p1 fresh found converts enough =
    let (head, m1, m2, copies, chain, frees, same) =
      free-copy _ ifaddrs_layout (to_linux_ifaddrs c) (ifaddrs-IsNodeOps c garbage) ns vs v n m fuel
        converts fresh enough in
    (head, m1, m2, rw (found, copies) refl, chain, frees, same)
