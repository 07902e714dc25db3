-- ===== src/Syscall/Laws.antt =====
-- What programs see of the futex system call.
use libc6_shim.Prelude.{
  ℕ, ◌%◌, ◌^◌, ◌<◌, ◌≡◌, ◌≢◌, ◌⊎◌, inl, inr, refl, ==-cases, ltb, Bool-cases, arith,
}
use libc6_shim.Outcome.{ok}
use libc6_shim.Errno.{native_to_linux_errno}
use libc6_shim.Process.{
  Process, minus_one, minus_one_ssize, sign_extend, report_error, convert_errno,
}
use libc6_shim.Syscall.{
  Environment, Returned, int_arg, int_result, futex_call, syscall_futex, shim_syscall,
}

-- An `int` other than -1 is not -1 as a `long` either, and its low word is the `int`.
sign_extend-ne :
    (r : ℕ)
    → r < 2 ^ 32
    → r ≢ minus_one
    → (sign_extend r ≢ minus_one_ssize) × (sign_extend r % 2 ^ 32 ≡ r)
sign_extend-ne r h ne = elim (Bool-cases (ltb r (2 ^ 31))) [
  | inl low ↦ rw low (omega (arith, h), omega (arith, h))
  | inr high ↦ rw high (omega (arith, h, ne), omega (arith, h))
]

-- What the program gets for the result and the state of a native call of type `int`: a failure as -1
-- with the Linux number of the error, or a number whose low word is the result, and the state.
abbrev pub Answers : {W : Type 0} → Environment W → ℕ × Process W → Returned W → Type 0
Answers env (r, q) got =
    ((r ≡ minus_one)
      × (got.value ≡ minus_one_ssize)
      × (got.process ≡ record q { errno = native_to_linux_errno env.errnos q.errno }))
    ⊎ ((r ≢ minus_one)
        × (got.value ≢ minus_one_ssize)
        × (got.value % 2 ^ 32 ≡ r)
        × (got.process ≡ q))

module _ {W : Type 0} (env : Environment W) where
  report_error-Answers :
      (r : ℕ) (q : Process W)
      → r < 2 ^ 32
      → Answers env (r, q) (int_result (report_error env.errnos minus_one (r, q)))
  unfolding report_error convert_errno
  report_error-Answers r q h = elim (==-cases r minus_one) [
    | inl (e, test) ↦ inl (e, rw e refl, rw test refl)
    | inr (ne, test) ↦
        let (value, low) = sign_extend-ne r h ne in inr (ne, value, low, rw test refl)
  ]

  -- The system call futex, where the native call returns an `int`: the operations
  -- FUTEX_WAIT_PRIVATE and FUTEX_WAKE_PRIVATE are the native wait and wake on the same address and
  -- value, the wait with the program's timeout; every other operation fails with ENOSYS, and makes no
  -- native call. A failure is reported as -1 with the Linux number of the error, and any other result
  -- as it is. Nothing aborts.
  pub futex-Answers :
      (args : ℕ → ℕ) (p : Process W)
      → (futex_call env (args 0) (int_arg (args 1)) (args 2 % 2 ^ 32) (args 3) p).0 < 2 ^ 32
      → (r : ℕ) × (q : Process W) × (got : Returned W) × (shim_syscall env 202 args p ≡ ok got)
        × Answers env (r, q) got
        × (((int_arg (args 1) ≡ 0x80)
              × (env.host.umtx_op
                    (args 0)
                    env.numbers.umtx_op_wait
                    (args 2 % 2 ^ 32)
                    env.numbers.sizeof_timespec
                    (args 3)
                    p
                  ≡ (r, q)))
            ⊎ (((int_arg (args 1) ≡ 0x81)
                  × (env.host.umtx_op (args 0) env.numbers.umtx_op_wake (args 2 % 2 ^ 32) 0 0 p
                      ≡ (r, q)))
                ⊎ ((int_arg (args 1) ≢ 0x80)
                    × (int_arg (args 1) ≢ 0x81)
                    × (r ≡ minus_one)
                    × (q ≡ record p { errno = env.numbers.enosys }))))
  unfolding shim_syscall syscall_futex futex_call
  futex-Answers args p h =
      let native = futex_call env (args 0) (int_arg (args 1)) (args 2 % 2 ^ 32) (args 3) p in
      (
        native.0,
        native.1,
        int_result (report_error env.errnos minus_one native),
        refl,
        report_error-Answers native.0 native.1 h,
        elim (==-cases (int_arg (args 1)) 0x80) [
          | inl (e, test) ↦ inl (e, rw test refl)
          | inr (ne, test) ↦ elim (==-cases (int_arg (args 1)) 0x81) [
            | inl (e, test2) ↦ inr (inl (e, rw (test, test2) refl))
            | inr (ne2, test2) ↦ inr (inr (ne, ne2, rw (test, test2) refl, rw (test, test2) refl))
          ]
        ],
      )
