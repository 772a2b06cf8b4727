-- ===== src/TaskScheduler/Node/Queue.antt =====
-- One node's queue: receiving a task and removing it, and copying the queue of another node;
-- mcvirt/task_scheduler/scheduler.py.
use mcvirt.Base.{
  ℕ, ◌<◌, String, ◌≡◌, refl, true, false, Option, none, some, List, [], ◌∷◌, ◌++◌, arith, eq_iff,
  eq_refl,
}
use mcvirt.Base.Lists.{remove_ref, mem_ref}
use mcvirt.Base.Dict.{lookup, insert, delete, dict_laws, lookup-delete}
use mcvirt.Base.Exec.{ok}
use mcvirt.TaskScheduler.Node.{
  TaskPointer, Scheduler, new_pointer, append_pointer, get_latest_task_id, same_id, receive_task,
  remove_pointer, remove_local, remove_task,
}

abbrev pub IsBelow : ℕ → List ℕ → Type 0
IsBelow next [] = Unit
IsBelow next (ref ∷ refs) = (ref < next) × IsBelow next refs

-- The queue's objects have been allocated, and the task is not known to the node.
pub record IsReady (task_id : String) (s : Scheduler) : Type 0 where
  pub allocated : IsBelow s.next_ref s.task_queue
  pub unknown : lookup task_id s.task_pointers ≡ none

-- The queue, the pointers in it and the lookup table are those of `s`.
pub record IsRestored (s t : Scheduler) : Type 0 where
  pub queue : t.task_queue ≡ s.task_queue
  pub objects : (ref : ℕ) → ref < s.next_ref → t.heap ref ≡ s.heap ref
  pub pointers : (k : String) → lookup k t.task_pointers ≡ lookup k s.task_pointers

pub IsRestored-refl : (s : Scheduler) → IsRestored s s
IsRestored-refl s = record { queue = refl; objects = λ _ _. refl; pointers = λ _. refl }

mem_ref-append : (queue : List ℕ) (n : ℕ) → mem_ref (queue ++ n ∷ []) n ≡ true
unfolding mem_ref
mem_ref-append [] n = ground arith
mem_ref-append (x ∷ queue) n = ground (arith, mem_ref-append queue n)

remove_ref-append :
    (queue : List ℕ) (n : ℕ) → IsBelow n queue → remove_ref (queue ++ n ∷ []) n ≡ queue
unfolding remove_ref
remove_ref-append [] n below = ground arith
remove_ref-append (x ∷ queue) n below = ground (arith, remove_ref-append queue n below.1)

module _ (p : TaskPointer) (s : Scheduler) (ready : IsReady p.task_id s) where
  remove_pointer-append : remove_pointer (some s.next_ref) p.task_id (append_pointer p s) ≡ (
    ok tt,
    record (append_pointer p s) {
      task_queue = s.task_queue;
      task_pointers = delete p.task_id (append_pointer p s).task_pointers;
    },
  )
  unfolding remove_pointer append_pointer
  remove_pointer-append =
      rw (mem_ref-append s.task_queue s.next_ref)
        (rw (remove_ref-append s.task_queue s.next_ref ready.allocated))

  -- On a node that does not know a task, removing its pointer when that was just appended succeeds
  -- and restores the queue, the pointers and the lookup table; the task object itself is gone.
  pub remove-append :
      ((remove_task p.task_id (append_pointer p s)).0 ≡ ok tt)
      × IsRestored s (remove_task p.task_id (append_pointer p s)).1
      × (lookup p.task_id (remove_task p.task_id (append_pointer p s)).1.tasks ≡ none)
  unfolding remove_task
  remove-append = rw found (
      rw remove_pointer-append (
        refl,
        record { queue = refl; objects = kept; pointers = λ k. unfold append_pointer in same k },
        unfold remove_local in simp (lookup-delete, eq_refl),
      ))
    where
      found : lookup p.task_id (append_pointer p s).task_pointers ≡ some s.next_ref
      found = unfold append_pointer in simp (dict_laws, eq_refl)

      kept : (ref : ℕ) → ref < s.next_ref → (append_pointer p s).heap ref ≡ s.heap ref
      kept ref below = unfold append_pointer in ground arith

      same :
          (k : String)
          → lookup k (delete p.task_id (insert p.task_id s.next_ref s.task_pointers))
            ≡ lookup k s.task_pointers
      same k = simp dict_laws (ground (arith, eq_iff p.task_id k, ready.unknown))

-- The answer of a node to `receive_task`, and what it then holds.
pub receive_task_accepts :
    (execution_node task_id : String) (latest : Option String) (s : Scheduler)
    → same_id (get_latest_task_id s) latest ≡ true
    → receive_task execution_node task_id latest s
      ≡ (true, append_pointer (new_pointer task_id execution_node) s)
unfolding receive_task
receive_task_accepts execution_node task_id latest s same = rw same

pub receive_task_refuses :
    (execution_node task_id : String) (latest : Option String) (s : Scheduler)
    → same_id (get_latest_task_id s) latest ≡ false
    → receive_task execution_node task_id latest s ≡ (false, s)
unfolding receive_task
receive_task_refuses execution_node task_id latest s other = rw other

pub same_id_refl : (o : Option String) → same_id o o ≡ true
same_id_refl none = refl
same_id_refl (some id) = eq_refl id
