-- ===== src/TaskScheduler/Node/Copy.antt =====
-- Copying the queue of another node at start-up: `dump_task_pointer_queue` and `import_tasks` of
-- mcvirt/task_scheduler/scheduler.py.
use mcvirt.Base.{
  ℕ, ◌+◌, String, false, List, [], ◌∷◌, ◌++◌, ◌≡◌, refl, sym, ap, ◌∙◌, arith, ◌==◌, nat_eq,
}
use mathlib.Core.List.{append_assoc}
use mcvirt.Base.Lists.{append_nil}
use mcvirt.Base.Exec.{ok}
use mcvirt.Rpc.State.{update, update_self}
use mcvirt.TaskScheduler.Node.{
  TaskPointer, Scheduler, is_local, set_status, append_pointer, dump_pointers,
  dump_task_pointer_queue, import_task, import_tasks,
}
use mcvirt.TaskScheduler.Node.Queue.{IsBelow}

-- None of the tasks is to be executed on the node.
abbrev pub NoneLocal : String → List TaskPointer → Type 0
NoneLocal hostname [] = Unit
NoneLocal hostname (p ∷ ps) = ((p.execution_node == hostname) ≡ false) × NoneLocal hostname ps

dump_pointers-update :
    (heap : ℕ → TaskPointer) (n : ℕ) (p : TaskPointer) (queue : List ℕ)
    → IsBelow n queue
    → dump_pointers (update heap n p) queue ≡ dump_pointers heap queue
unfolding dump_pointers
dump_pointers-update heap n p [] below = refl
dump_pointers-update heap n p (ref ∷ queue) below =
    let other : nat_eq n ref ≡ false = ground (arith, below.0) in
    rw (dump_pointers-update heap n p queue below.1, other) refl

dump_pointers-append :
    (heap : ℕ → TaskPointer) (queue : List ℕ) (n : ℕ)
    → dump_pointers heap (queue ++ (n ∷ [])) ≡ dump_pointers heap queue ++ (heap n ∷ [])
unfolding dump_pointers
dump_pointers-append heap [] n = refl
dump_pointers-append heap (ref ∷ queue) n =
    ap (λ l. heap ref ∷ l) (dump_pointers-append heap queue n)

dump-append_pointer :
    (p : TaskPointer) (s : Scheduler)
    → IsBelow s.next_ref s.task_queue
    → dump_task_pointer_queue (append_pointer p s) ≡ dump_task_pointer_queue s ++ (p ∷ [])
unfolding dump_task_pointer_queue append_pointer
dump-append_pointer p s below =
    rw
      (
        dump_pointers-append (update s.heap s.next_ref p) s.task_queue s.next_ref,
        dump_pointers-update s.heap s.next_ref p s.task_queue below,
        update_self s.heap s.next_ref p,
      )
      refl

IsBelow-append : (n : ℕ) (queue : List ℕ) → IsBelow n queue → IsBelow (n + 1) (queue ++ (n ∷ []))
IsBelow-append n [] below = (omega arith, tt)
IsBelow-append n (ref ∷ queue) below = (omega (arith, below.0), IsBelow-append n queue below.1)

import_task_remote :
    (p : TaskPointer) (s : Scheduler)
    → (p.execution_node == s.hostname) ≡ false
    → import_task p s ≡ (ok tt, append_pointer p s)
unfolding import_task is_local set_status
import_task_remote p s remote = simp remote

-- If none of the tasks in the dump of a queue is to be executed on this node, importing the dump
-- succeeds, and the node's queue is then the one that it had, followed by the dumped one, with the
-- same flags in the same order.
pub import_tasks-dump :
    (ps : List TaskPointer) (s : Scheduler)
    → IsBelow s.next_ref s.task_queue
    → NoneLocal s.hostname ps
    → ((import_tasks ps s).0 ≡ ok tt)
      × (dump_task_pointer_queue (import_tasks ps s).1 ≡ dump_task_pointer_queue s ++ ps)
unfolding import_tasks
import_tasks-dump [] s below remote = (refl, sym (append_nil (dump_task_pointer_queue s)))
import_tasks-dump (p ∷ ps) s below remote =
    let t = append_pointer p s in
    let rest =
      import_tasks-dump ps t (unfold append_pointer in IsBelow-append s.next_ref s.task_queue below)
        (unfold append_pointer in remote.1) in
    rw (import_task_remote p s remote.0) (
      rest.0,
      rest.1
          ∙ ap (λ l. l ++ ps) (dump-append_pointer p s below)
          ∙ append_assoc (dump_task_pointer_queue s) (p ∷ []) ps,
    )
