-- ===== src/Linked.antt =====
-- The linked lists that getaddrinfo and getifaddrs copy node by node, and that the program gives
-- back: the loops, over the operations on one node.
pub mod Layout
pub mod Laws
use libc6_shim.Prelude.{ℕ, zero, suc, List, [], ◌∷◌, Option, none, some, ◌==◌, if◌then◌else◌}
use libc6_shim.Outcome.{Outcome, ok, abort, ◌>>=◌}
use libc6_shim.Memory.{Memory}

-- On a heap with cells of type `C`, for nodes that are copied from native items of type `N`: the
-- copy of one node, the write of its pointer to the next, and the body of the loop that frees, which
-- gives the next pointer.
pub record NodeOps (N C : Type 0) : Type 0 where
  pub copy : N → Memory C → Outcome (ℕ × Memory C)
  pub set_next : ℕ → ℕ → Memory C → Outcome (Memory C)
  pub free_node : ℕ → Memory C → Outcome (ℕ × Memory C)

module _ {N C : Type 0} (ops : NodeOps N C) where
  -- The loop over the native items behind the first, from the node that was copied last.
  unfoldable pub copy_rest : ℕ → List N → Memory C → Outcome (Memory C)
  copy_rest node [] m = ops.set_next node 0 m
  copy_rest node (n ∷ ns) m = do
    (copied, m1) ← ops.copy n m
    m2 ← ops.set_next node copied m1
    copy_rest copied ns m2

  -- The head of the native list is read before anything else: an empty list is a NULL pointer.
  unfoldable pub copy_list : List N → Memory C → Outcome (ℕ × Memory C)
  copy_list [] m = abort
  copy_list (n ∷ ns) m = do (head, m1) ← ops.copy n m; m2 ← copy_rest head ns m1; ok (head, m2)

  -- `while (p != NULL)`, on fuel; `none` when that runs out.
  unfoldable pub free_list : ℕ → ℕ → Memory C → Option (Outcome (Memory C))
  free_list zero p m = none
  free_list (suc fuel) p m =
      if p == 0
      then some (ok m)
      else elim (ops.free_node p m) [ abort ↦ some abort | ok (next, m1) ↦ free_list fuel next m1 ]
