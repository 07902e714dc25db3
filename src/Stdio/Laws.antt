-- ===== src/Stdio/Laws.antt =====
-- What fopen and the checked printing guarantee.
use libc6_shim.Prelude.{
  ℕ, ◌≤◌, ◌<◌, ◌≡◌, ◌≢◌, ◌⊎◌, inl, inr, refl, List, length, Bool-cases, ◌&&◌, ◌==◌, leb, arith,
}
use libc6_shim.Outcome.{ok, abort}
use libc6_shim.Stdio.{StdioHost, shim_snprintf_chk}

module _ {W : Type 0} (host : StdioHost W) where
  -- Where the native vsnprintf writes no more bytes than it is told, a checked print that returns
  -- writes no more than the destination holds; one that is told of more than that, or called without the
  -- flag, ends the process.
  pub snprintf_chk_stays :
      (maxlen flag strlen format : ℕ)
      → length (host.vsnprintf maxlen format).1 ≤ maxlen
      → ((r : ℕ) × (bytes : List ℕ) × (shim_snprintf_chk host maxlen flag strlen format
            ≡ ok (r, bytes))
          × (flag ≡ 1)
          × (length bytes ≤ strlen))
        ⊎ ((shim_snprintf_chk host maxlen flag strlen format ≡ abort)
            × ((flag ≢ 1) ⊎ (strlen < maxlen)))
  unfolding shim_snprintf_chk
  snprintf_chk_stays maxlen flag strlen format h =
      elim (Bool-cases (flag == 1 && leb maxlen strlen)) [
        | inl e ↦ inl (
          (host.vsnprintf maxlen format).0,
          (host.vsnprintf maxlen format).1,
          rw e refl,
          ground arith,
          ground arith,
        )
        | inr e ↦ inr (rw e refl, ground arith)
      ]
