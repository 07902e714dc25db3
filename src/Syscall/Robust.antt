-- ===== src/Syscall/Robust.antt =====
-- src/futexes.c: the list of robust mutexes of a thread, which is always empty.
use libc6_shim.Prelude.{ℕ, ◌-◌, ◌^◌, ◌==◌, ◌||◌, if◌then◌else◌}
use libc6_shim.Outcome.{Outcome, ok, ◌>>◌, assert}
use libc6_shim.Process.{minus_one_ssize}

-- `struct fake_pthread` of the calling thread, flat.
pub record FakePthread : Type 0 where
  pub robust_prev : ℕ
  pub list : ℕ
  pub futex_offset : ℕ
  pub list_op_pending : ℕ

-- The result, `*list_head` and `*struct_len`, and the variable of the thread.
pub record RobustList : Type 0 where
  pub result : ℕ
  pub list_head : ℕ
  pub struct_len : ℕ
  pub pthread : FakePthread

-- FUTEX_OFFSET of the 64-bit build, -32.
abbrev pub futex_offset : ℕ
futex_offset = 2 ^ 64 - 32

-- `here` is the address of `pthread.list`; `head` and `len` are the arguments, and what they point to.
unfoldable pub get_robust_list : ℕ → ℕ → ℕ → ℕ → RobustList → Outcome RobustList
get_robust_list here pid head len r =
    if head == 0 || len == 0 then ok (record r { result = minus_one_ssize }) else (do
      assert (pid == 0)
      ok (record {
        result = 0;
        list_head = here;
        struct_len = 24;
        pthread = record {
          robust_prev = here;
          list = here;
          futex_offset = futex_offset;
          list_op_pending = 0;
        };
      }))
