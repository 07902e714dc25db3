-- ===== src/Signal/Query.antt =====
-- What a program that installs a signal action gets back when it asks for it.
use libc6_shim.Prelude.{
  subst, false, ◌+◌, ◌^◌, bit_and, ℕ, ◌⊎◌, inl, inr, ==-cases, ◌≡◌, ◌≢◌, Option, none, some, refl,
  arith, ◌∙◌,
}
use libc6_shim.Outcome.{ok, ok_unique}
use libc6_shim.Flags.{has, translate}
use libc6_shim.Flags.Each.{EachFlag, translate-EachFlag}
use libc6_shim.Signal.{SignalNumbers, LinuxSigaction, Sigaction, minus_one, linux_to_freebsd_signo}
use libc6_shim.Signal.Convert.{
  sigaction_entries, linux_to_freebsd_sigaction_flags, linux_to_native_sigaction,
  native_to_linux_sigaction,
}
use libc6_shim.Signal.Calls.{Host, ShimSigactionResult, write_oact, sigaction_call, shim_sigaction}
use libc6_shim.Signal.Actions.{IsSigactionFlags, IsKnown, sigaction_flags_round_trip}

-- The action as it is read back: the bytes of the mask that no native set has are those of the
-- buffer.
abbrev pub read_back : LinuxSigaction → LinuxSigaction → LinuxSigaction
read_back act dst = record act {
  sa_mask = record { head = act.sa_mask.head; rest = dst.sa_mask.rest };
}

-- What the system keeps of an action as it is: a mask without SIGKILL and SIGSTOP, 9 and 17, which it
-- takes out of any mask, and flags without the two that it keeps for SIGCHLD only.
pub record IsStorable (c : SignalNumbers) (a : Sigaction) : Type 0 where
  pub mask : bit_and a.sa_mask (2 ^ 8 + 2 ^ 16) ≡ 0
  pub nocldstop : has a.sa_flags c.sa_nocldstop ≡ false
  pub nocldwait : has a.sa_flags c.sa_nocldwait ≡ false

-- What sigaction(2) documents: where it does not fail it installs the action, and a query that
-- follows succeeds and returns that action, if it is one that can be stored.
abbrev pub StoresActions : {W : Type 0} → SignalNumbers → Host W → Type 0
StoresActions {W} c host =
    (sig : ℕ) (a : Sigaction) (w : W)
    → IsStorable c a
    → (host.sigaction sig (some a) w).err ≢ minus_one
    → ((host.sigaction sig none (host.sigaction sig (some a) w).world).err ≢ minus_one)
      × ((host.sigaction sig none (host.sigaction sig (some a) w).world).old ≡ a)

sigaction_round_trip :
    (c : SignalNumbers) (act dst : LinuxSigaction)
    → IsSigactionFlags c
    → IsKnown act.sa_flags
    → bit_and act.sa_mask.head (2 ^ 8 + 2 ^ 16) ≡ 0
    → has act.sa_flags 1 ≡ false
    → has act.sa_flags 2 ≡ false
    → (a : Sigaction) × IsStorable c a
      × (linux_to_native_sigaction c act ≡ ok a)
      × (native_to_linux_sigaction c dst a ≡ ok (read_back act dst))
unfolding linux_to_native_sigaction native_to_linux_sigaction linux_to_freebsd_sigaction_flags
sigaction_round_trip c act dst h k unmasked no_stop no_wait =
    let (flags, there, back) = sigaction_flags_round_trip c act.sa_flags h k in
    let converted : linux_to_freebsd_sigaction_flags c act.sa_flags
        ≡ ok (translate (sigaction_entries c) act.sa_flags 0) =
      rw k.1 refl in
    let same : translate (sigaction_entries c) act.sa_flags 0 ≡ flags = ok_unique converted there in
    let each : EachFlag (sigaction_entries c) act.sa_flags flags =
      subst (EachFlag (sigaction_entries c) act.sa_flags) same
        (translate-EachFlag (sigaction_entries c) act.sa_flags h.separate) in
    (
      record { sa_handler = act.linux_sa_handler; sa_mask = act.sa_mask.head; sa_flags = flags },
      record { mask = unmasked; nocldstop = each.0 ∙ no_stop; nocldwait = each.1.0 ∙ no_wait },
      rw there refl,
      rw back refl,
    )

module _ {W : Type 0} (c : SignalNumbers) (host : Host W) where
  -- A signal that is neither refused nor one of the two whose handlers are kept from the program
  -- reaches the native call.
  reaches_native :
      (s : ℕ) (act oact : Option LinuxSigaction) (w : W)
      → linux_to_freebsd_signo c s ≢ minus_one
      → s ≢ 6
      → s ≢ 7
      → s ≢ 11
      → s ≢ 31
      → shim_sigaction c host s act oact w
        ≡ sigaction_call c host (linux_to_freebsd_signo c s) act oact w
  unfolding shim_sigaction
  reaches_native s act oact w h h₆ h₇ h₁₁ h₃₁ = ground arith

-- Where the native call keeps the actions that it accepts and can store: for a supported signal other
-- than SIGABRT, SIGBUS, SIGSEGV and SIGSYS, and an action with known flags, of which SA_NOCLDSTOP and
-- SA_NOCLDWAIT are not set, and a mask without the native SIGKILL and SIGSTOP, installing the action
-- does not abort; and unless it fails, a query that follows returns the handler, the flags and the
-- native part of the mask as the program gave them.
pub install_then_query :
    {W : Type 0} (c : SignalNumbers) (host : Host W) (s : ℕ) (act dst : LinuxSigaction) (w : W)
    → IsSigactionFlags c
    → StoresActions c host
    → IsKnown act.sa_flags
    → bit_and act.sa_mask.head (2 ^ 8 + 2 ^ 16) ≡ 0
    → has act.sa_flags 1 ≡ false
    → has act.sa_flags 2 ≡ false
    → linux_to_freebsd_signo c s ≢ minus_one
    → s ≢ 6
    → s ≢ 7
    → s ≢ 11
    → s ≢ 31
    → (r : ShimSigactionResult W) × (shim_sigaction c host s (some act) none w ≡ ok r)
      × ((r.err ≡ minus_one)
          ⊎ ((q : ShimSigactionResult W) × (shim_sigaction c host s none (some dst) r.world ≡ ok q)
              × (q.err ≢ minus_one)
              × (q.oact ≡ some (read_back act dst))))
install_then_query {W} c host s act dst w flags stores known unmasked no_stop no_wait supported h₆
      h₇ h₁₁ h₃₁ =
    let (a, storable, there, back) =
      sigaction_round_trip c act dst flags known unmasked no_stop no_wait in
    let sig = linux_to_freebsd_signo c s in
    let r = host.sigaction sig (some a) w in
    (
      record { err = r.err; oact = none; world = r.world },
      reaches_native c host s (some act) none w supported h₆ h₇ h₁₁ h₃₁ ∙ installed sig a there,
      elim (==-cases r.err minus_one) [
        | inl failed ↦ inl failed.0
        | inr accepted ↦ inr (
          record {
            err = (host.sigaction sig none r.world).err;
            oact = some (read_back act dst);
            world = (host.sigaction sig none r.world).world;
          },
          reaches_native c host s none (some dst) r.world supported h₆ h₇ h₁₁ h₃₁
              ∙ queried sig a r.world (stores sig a w storable accepted.0).0
                  (stores sig a w storable accepted.0).1 back,
          (stores sig a w storable accepted.0).0,
          refl,
        )
      ],
    )
  where
    installed :
        (sig : ℕ) (a : Sigaction)
        → linux_to_native_sigaction c act ≡ ok a
        → sigaction_call c host sig (some act) none w
          ≡ ok (record {
            err = (host.sigaction sig (some a) w).err;
            oact = none;
            world = (host.sigaction sig (some a) w).world;
          })
    installed sig a there = unfold sigaction_call write_oact in rw there refl

    queried :
        (sig : ℕ) (a : Sigaction) (w' : W)
        → (host.sigaction sig none w').err ≢ minus_one
        → (host.sigaction sig none w').old ≡ a
        → native_to_linux_sigaction c dst a ≡ ok (read_back act dst)
        → sigaction_call c host sig none (some dst) w'
          ≡ ok (record {
            err = (host.sigaction sig none w').err;
            oact = some (read_back act dst);
            world = (host.sigaction sig none w').world;
          })
    queried sig a w' fine old back = unfold sigaction_call write_oact in ground (arith, old, back)
