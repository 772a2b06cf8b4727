-- ===== src/TaskScheduler/Completion/Next.antt =====
-- The end of a task starts the next one in the queue.
use mcvirt.Base.{ℕ, String, true, false, some, List, ◌∷◌, ◌==◌, ◌≡◌, refl, ap, ◌∙◌, arith, eq_refl}
use mcvirt.Base.Lists.{remove_ref, mem_ref}
use mcvirt.Base.Dict.{lookup, insert, delete, lookup-insert, lookup-delete}
use mcvirt.Base.Exec.{ok}
use mcvirt.TaskScheduler.Node.{
  TaskPointer, Task, Scheduler, find_running, get_current_running_task_pointer, remove_pointer,
  remove_local, remove_task, start_found, start_task,
}
use mcvirt.TaskScheduler.Cluster.{Cluster, each_remote, on_all}
use mcvirt.TaskScheduler.Completion.{
  on_member, start_pointer, start_running, next_task, on_completion,
}

module _ (task_id : String) (c : Cluster) (first second : ℕ) (rest : List ℕ)
    (queue : c.local.task_queue ≡ first ∷ second ∷ rest)
    (known : lookup task_id c.local.task_pointers ≡ some first) where
  -- The local node without the task.
  abbrev without : Scheduler
  without = record c.local {
    task_queue = second ∷ rest;
    task_pointers = delete task_id c.local.task_pointers;
    tasks = delete task_id c.local.tasks;
  }

  remove_lem : remove_task task_id c.local ≡ (ok tt, without)
  unfolding remove_task remove_pointer remove_local
  remove_lem =
      let present : mem_ref c.local.task_queue first ≡ true =
        ap (λ q. mem_ref q first) queue ∙ (unfold mem_ref in ground arith) in
      let left : remove_ref c.local.task_queue first ≡ second ∷ rest =
        ap (λ q. remove_ref q first) queue ∙ (unfold remove_ref in ground arith) in
      simp (known, present, left)

  -- The pointer behind it, to a task that waits on the local node.
  abbrev next : TaskPointer
  next = c.local.heap second

  abbrev left_cluster : Cluster
  left_cluster = record {
    local = without;
    remotes = (each_remote (remove_task task_id) c.remotes).1;
  }

  removed_all :
      (values : List (Unit {0}))
      → (each_remote (remove_task task_id) c.remotes).0 ≡ ok values
      → on_all (remove_task task_id) c ≡ (ok tt, left_cluster)
  unfolding on_all
  removed_all values reached = simp (remove_lem, reached)

  running_next :
      next.provisional ≡ false
      → next.cancelled ≡ false
      → get_current_running_task_pointer false false without ≡ some second
  unfolding get_current_running_task_pointer find_running
  running_next confirmed wanted = simp (confirmed, wanted)

  start_next :
      (task : Task)
      → (task_id == next.task_id) ≡ false
      → lookup next.task_id c.local.tasks ≡ some task
      → start_task next.task_id without ≡ (
        ok tt,
        record without {
          tasks = insert next.task_id (record task { started = true }) without.tasks;
        },
      )
  unfolding start_task start_found
  start_next task other waiting = simp (lookup-delete, other, waiting)

  abbrev with_next : Task → Cluster
  with_next task = record left_cluster {
    local = record without {
      tasks = insert next.task_id (record task { started = true }) without.tasks;
    };
  }

  start_pointer-next :
      (task : Task)
      → (next.execution_node == c.local.hostname) ≡ true
      → (task_id == next.task_id) ≡ false
      → lookup next.task_id c.local.tasks ≡ some task
      → start_pointer next left_cluster ≡ (ok tt, with_next task)
  unfolding start_pointer on_member
  start_pointer-next task here other waiting = simp (here, start_next task other waiting)

  -- When a task ends that is first in the queue of its node, and every other node can remove it,
  -- the task behind it is started, if that is another task, which is confirmed, not cancelled, and
  -- waits on the same node.
  pub on_completion_starts :
      (task : Task) (values : List (Unit {0}))
      → (each_remote (remove_task task_id) c.remotes).0 ≡ ok values
      → next.provisional ≡ false
      → next.cancelled ≡ false
      → next.execution_node ≡ c.local.hostname
      → (task_id == next.task_id) ≡ false
      → lookup next.task_id c.local.tasks ≡ some task
      → ((on_completion task_id c).0 ≡ ok tt)
        × ((on_completion task_id c).1.local.task_queue ≡ second ∷ rest)
        × (lookup next.task_id (on_completion task_id c).1.local.tasks
            ≡ some (record task { started = true }))
  unfolding on_completion next_task start_running
  on_completion_starts task values reached confirmed wanted here other waiting =
      let local_node : (next.execution_node == c.local.hostname) ≡ true =
        rw here (eq_refl c.local.hostname) in
      rw (removed_all values reached) (
        rw (running_next confirmed wanted) (
          rw (start_pointer-next task local_node other waiting)
            (refl, refl, simp (lookup-insert, eq_refl))))
