-- ===== src/Sysinfo/Laws.antt =====
-- What uname leaves for the program, and which words of a set of descriptors are reached.
use libc6_shim.Prelude.{
  ℕ, zero, suc, ◌+◌, ◌*◌, ◌/◌, ◌≤◌, ◌<◌, ◌≡◌, ◌≢◌, ◌⊎◌, inl, inr, refl, List, [], ◌∷◌, take, length,
  length-take, replicate, ltb, Bool-cases, ==-cases, arith,
}
use libc6_shim.CString.{CString, codes}
use libc6_shim.CArray.{c_str, IsString, copy_bounded, c_str-overwrite, length-copy_bounded}
use libc6_shim.Outcome.{ok, abort}
use libc6_shim.Process.{Process}
use libc6_shim.Sysinfo.{
  Utsname, LinuxUtsname, copy_field, copy_utsname, SystemNumbers, SystemHost, shim_uname,
  shim_fdelt_chk,
}

take-IsString : (n : ℕ) (s : CString) → IsString s → IsString (take n s)
take-IsString zero s h = tt
take-IsString (suc n) [] h = tt
take-IsString (suc n) (x ∷ s) h = (h.0, take-IsString n s h.1)

-- An array of 65 characters that holds the first 64 of the string.
abbrev pub HoldsStart : List ℕ → CString → Type 0
HoldsStart field s = (length field ≡ 65) × (c_str field ≡ take 64 s)

copy_field-HoldsStart : (s : CString) → IsString s → HoldsStart (copy_field s) s
unfolding copy_bounded
copy_field-HoldsStart s h = (
  length-copy_bounded (replicate 65 0) s,
  c_str-overwrite (replicate 65 0) (take 64 s) (take-IsString 64 s h)
      (omega (arith, length-take 64 s)),
)

-- Each field of a name from the system is a string.
pub record AreStrings (name : Utsname) : Type 0 where
  pub sysname : IsString name.sysname
  pub nodename : IsString name.nodename
  pub release : IsString name.release
  pub version : IsString name.version

-- The arrays hold the start of the system's names; the machine is x86_64.
pub record Tells (name : Utsname) (n : LinuxUtsname) : Type 0 where
  pub sysname : HoldsStart n.sysname name.sysname
  pub nodename : HoldsStart n.nodename name.nodename
  pub release : HoldsStart n.release name.release
  pub version : HoldsStart n.version name.version
  pub machine : HoldsStart n.machine (codes "x86_64")
  pub domainname : HoldsStart n.domainname []

copy_utsname-Tells : (name : Utsname) → AreStrings name → Tells name (copy_utsname name)
unfolding copy_utsname
copy_utsname-Tells name v = record {
  sysname = copy_field-HoldsStart name.sysname v.sysname;
  nodename = copy_field-HoldsStart name.nodename v.nodename;
  release = copy_field-HoldsStart name.release v.release;
  version = copy_field-HoldsStart name.version v.version;
  machine = copy_field-HoldsStart (codes "x86_64") (omega arith);
  domainname = copy_field-HoldsStart [] tt;
}

-- Where the native uname gives strings: if the call succeeds, every array that the program sees has
-- 65 characters and holds the first 64 of the system's name, with a nul behind them, the machine
-- being x86_64; if it fails the object is as it was.
pub uname_lem :
    {W : Type 0} (c : SystemNumbers) (host : SystemHost W) (linux_name : LinuxUtsname)
    (p : Process W)
    → AreStrings (host.uname p).1
    → (((shim_uname c host linux_name p).0 ≡ 0)
        × Tells (host.uname p).1 (shim_uname c host linux_name p).1)
      ⊎ (((shim_uname c host linux_name p).0 ≢ 0)
          × ((shim_uname c host linux_name p).1 ≡ linux_name))
unfolding shim_uname
uname_lem c host linux_name p v = elim (==-cases (host.uname p).0 0) [
  | inl done ↦ inl (done.0, rw done.1 (copy_utsname-Tells (host.uname p).1 v))
  | inr failed ↦ inr (failed.0, rw failed.1 refl)
]

-- The word of a descriptor lies in a set of 1024 bits, in words of 64; other descriptors abort.
pub fdelt_chk_stays :
    (d : ℕ)
    → ((w : ℕ) × (shim_fdelt_chk d ≡ ok w) × (w < 16) × (w * 64 ≤ d) × (d < (w + 1) * 64))
      ⊎ ((1024 ≤ d) × (shim_fdelt_chk d ≡ abort))
unfolding shim_fdelt_chk
fdelt_chk_stays d = elim (Bool-cases (ltb d 1024)) [
  | inl small ↦ inl (d / 64, rw small refl, ground arith, omega arith, omega arith)
  | inr large ↦ inr (ground arith, rw large refl)
]
