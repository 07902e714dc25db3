-- ===== src/Pthread/MutexAttr.antt =====
-- Mutex attributes: a struct of bit fields, read and written by one call for each.
use libc6_shim.Prelude.{ℕ, ◌^◌, ltb}
use libc6_shim.Outcome.{Outcome, ok, ◌>>◌, assert}

-- The widths SHIM_MUTEXATTR_*_NBITS.
abbrev pub kind_nbits : ℕ
kind_nbits = 2

abbrev pub prioceil_nbits : ℕ
prioceil_nbits = 2

abbrev pub protocol_nbits : ℕ
protocol_nbits = 1

abbrev pub pshared_nbits : ℕ
pshared_nbits = 1

abbrev pub robust_nbits : ℕ
robust_nbits = 1

pub record MutexAttr : Type 0 where
  pub linux_kind : ℕ
  pub linux_prioceiling : ℕ
  pub linux_protocol : ℕ
  pub linux_pshared : ℕ
  pub linux_robust : ℕ

-- PTHREAD_MUTEX_NORMAL, PRIO_NONE, PROCESS_PRIVATE and MUTEX_STALLED, which are all 0.
abbrev pub default_mutexattr : MutexAttr
default_mutexattr = record {
  linux_kind = 0;
  linux_prioceiling = 0;
  linux_protocol = 0;
  linux_pshared = 0;
  linux_robust = 0;
}

-- Every setter returns 0, and every getter the field; the object is passed back.
unfoldable pub mutexattr_init : MutexAttr → MutexAttr
mutexattr_init attr = default_mutexattr

unfoldable pub mutexattr_getprioceiling : MutexAttr → ℕ
mutexattr_getprioceiling attr = attr.linux_prioceiling

unfoldable pub mutexattr_setprioceiling : MutexAttr → ℕ → Outcome MutexAttr
mutexattr_setprioceiling attr v = do
  assert (ltb v (2 ^ prioceil_nbits))
  ok (record attr { linux_prioceiling = v })

unfoldable pub mutexattr_getprotocol : MutexAttr → ℕ
mutexattr_getprotocol attr = attr.linux_protocol

unfoldable pub mutexattr_setprotocol : MutexAttr → ℕ → Outcome MutexAttr
mutexattr_setprotocol attr v = do
  assert (ltb v (2 ^ protocol_nbits))
  ok (record attr { linux_protocol = v })

unfoldable pub mutexattr_getpshared : MutexAttr → ℕ
mutexattr_getpshared attr = attr.linux_pshared

unfoldable pub mutexattr_setpshared : MutexAttr → ℕ → Outcome MutexAttr
mutexattr_setpshared attr v = do
  assert (ltb v (2 ^ pshared_nbits))
  ok (record attr { linux_pshared = v })

unfoldable pub mutexattr_getrobust : MutexAttr → ℕ
mutexattr_getrobust attr = attr.linux_robust

unfoldable pub mutexattr_setrobust : MutexAttr → ℕ → Outcome MutexAttr
mutexattr_setrobust attr v = do
  assert (ltb v (2 ^ robust_nbits))
  ok (record attr { linux_robust = v })

unfoldable pub mutexattr_gettype : MutexAttr → ℕ
mutexattr_gettype attr = attr.linux_kind

unfoldable pub mutexattr_settype : MutexAttr → ℕ → Outcome MutexAttr
mutexattr_settype attr v = do assert (ltb v (2 ^ kind_nbits)); ok (record attr { linux_kind = v })

unfoldable pub mutexattr_setkind_np : MutexAttr → ℕ → Outcome MutexAttr
unfolding mutexattr_settype
mutexattr_setkind_np attr v = mutexattr_settype attr v
