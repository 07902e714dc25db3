-- ===== src/Pthread/ThreadLaws.antt =====
-- A thread from its creation to what the program gets when it joins it.
use libc6_shim.Prelude.{
  ◌-◌, ◌^◌, ℕ, suc, ◌≡◌, ◌≢◌, ◌∙◌, refl, true, none, some, ◌==◌, ne→==, eq→==, if◌then◌else◌, arith,
}
use libc6_shim.Outcome.{ok}
use libc6_shim.Errno.{Errnos}
use libc6_shim.Memory.{Memory, put}
use libc6_shim.Pthread.{PthreadNumbers}
use libc6_shim.Pthread.Threads.{
  WrapperArgs, ThreadNumbers, ThreadHost, thread_create, start_routine_wrapper, thread_join,
}

-- In the 32-bit build the native thread is given an argument behind the heap of the creator, where the function and its
-- argument lie. If they still do when the thread runs, in whatever state, and the function does not
-- free them, the thread calls that function with that argument, returns what it returns, and gives the
-- allocation back and nothing else. If the program then joins the thread, and the native call
-- succeeds with that value, it gets the value, or the pointer -1 if the value is the number of
-- FreeBSD's PTHREAD_CANCELED, whether the thread was cancelled or returned that number.
pub thread_runs :
    {W : Type 0} (e : Errnos) (c : PthreadNumbers) (n : ThreadNumbers) (host : ThreadHost W)
    (attr start_routine arg thread ret old : ℕ) (m m1 m2 : Memory WrapperArgs) (w w1 w2 w3 w4 : W)
    → host.pthread_create attr (suc m.last) w ≡ (0, thread, w1)
    → m1.cells (suc m.last)
      ≡ (thread_create e c n host attr start_routine arg m w).memory.cells (suc m.last)
    → host.call start_routine arg m1 w2 ≡ (ret, m2, w3)
    → m2.cells (suc m.last) ≡ m1.cells (suc m.last)
    → host.pthread_join thread w3 ≡ (0, ret, w4)
    → (m3 : Memory WrapperArgs) × ((thread_create e c n host attr start_routine arg m w).thread
        ≡ thread)
      × (start_routine_wrapper e c n host (suc m.last) m1 w2
          ≡ ok (record { ret = ret; memory = m3; world = w3 }))
      × (m3.cells (suc m.last) ≡ none)
      × ((a : ℕ) → a ≢ suc m.last → m3.cells a ≡ m2.cells a)
      × (thread_join e c n host thread (some old) w3
          ≡ (0, some (if ret == n.canceled then 2 ^ n.pointer_bits - 1 else ret), w4))
unfolding thread_create start_routine_wrapper thread_join
thread_runs e c n host attr start_routine arg thread ret old m m1 m2 w w1 w2 w3 w4 creates kept
      calls not_freed joins =
    let fresh_address : (suc m.last == suc m.last) ≡ true = eq→== (suc m.last) (suc m.last) refl in
    let here : m1.cells (suc m.last) ≡ some (record { start_routine = start_routine; arg = arg }) =
      kept ∙ rw fresh_address refl in
    let not_null = ne→== (suc m.last) 0 (omega arith) in
    (
      put (suc m.last) none m2,
      rw creates refl,
      rw (not_null, here, calls, not_freed, here, calls) refl,
      rw fresh_address refl,
      λ a other. rw (ne→== a (suc m.last) other) refl,
      rw joins refl,
    )
