-- ===== src/TaskScheduler/Completion.antt =====
-- How a task ends and the next one starts: `TaskPointer.start` and `get_task` of
-- mcvirt/task_scheduler/pointer.py, `Task.on_completion` of task.py, and `next_task` and
-- `cancel_current_task` of scheduler.py.
pub mod Next
mod Tests
use mcvirt.Base.{
  ℕ, String, Bool, true, false, not, Option, none, some, List, [], ◌∷◌, ◌==◌, if◌then◌else◌,
}
use mcvirt.Base.Exec.{Result, ok, err, Exec, and_then, ◌>>◌}
use mcvirt.Exceptions.{Exception, inaccessible_node}
use mcvirt.TaskScheduler.Node.{
  TaskPointer, Scheduler, is_local, get_current_running_task_pointer, remove_task,
  cancel_task_pointer, start_task,
}
use mcvirt.TaskScheduler.Cluster.{Remote, Cluster, on_remote, on_all, then_rest}

-- A call of the remote node of a name; a node that is not in the cluster cannot be reached.
unfoldable pub on_named :
    (Scheduler → Result Exception (Unit {0}) × Scheduler)
    → String
    → List Remote
    → Result Exception (Unit {0}) × List Remote
unfolding on_remote
on_named m node [] = (err inaccessible_node, [])
on_named m node (r ∷ rs) =
    let rest = on_named m node rs in
    if r.scheduler.hostname == node
    then (let called = on_remote m r in (called.0, called.1 ∷ rs))
    else (rest.0, r ∷ rest.1)

-- A call of one node, the local one included.
unfoldable pub on_member :
    (Scheduler → Result Exception (Unit {0}) × Scheduler)
    → String
    → Exec Exception Cluster (Unit {0})
unfolding on_named
on_member m node c =
    if node == c.local.hostname
    then (let called = m c.local in (called.0, record c { local = called.1 }))
    else (let called = on_named m node c.remotes in (called.0, record c { remotes = called.1 }))

-- TaskPointer.start, on the node that is to execute the task.
unfoldable pub start_pointer : TaskPointer → Exec Exception Cluster (Unit {0})
unfolding on_member start_task
start_pointer p = on_member (start_task p.task_id) p.execution_node

start_running : Option ℕ → Exec Exception Cluster (Unit {0})
unfolding start_pointer
start_running none c = (ok tt, c)
start_running (some ref) c = start_pointer (c.local.heap ref) c

unfoldable pub next_task : Exec Exception Cluster (Unit {0})
unfolding start_running get_current_running_task_pointer
next_task c = start_running (get_current_running_task_pointer false false c.local) c

-- Task.on_completion of the task of an id, without the context of the thread.
unfoldable pub on_completion : String → Exec Exception Cluster (Unit {0})
unfolding on_all remove_task next_task
on_completion task_id = on_all (remove_task task_id) >> next_task

-- `cancel` on every node of a list but those that execute the task.
cancel_elsewhere : String → String → List Remote → Result Exception (Unit {0}) × List Remote
unfolding then_rest on_remote cancel_task_pointer
cancel_elsewhere task_id execution_node [] = (ok tt, [])
cancel_elsewhere task_id execution_node (r ∷ rs) =
    then_rest
      (if r.scheduler.hostname == execution_node
        then (ok tt, r)
        else on_remote (cancel_task_pointer task_id) r)
      rs (cancel_elsewhere task_id execution_node rs)

-- task_p.cancel(nodes=non_task_nodes): the local node first, unless it executes the task.
cancel_first : TaskPointer → Exec Exception Cluster (Unit {0})
unfolding cancel_elsewhere is_local cancel_task_pointer
cancel_first p c =
    let called =
      (if is_local c.local p then (ok tt, c.local) else cancel_task_pointer p.task_id c.local) in
    and_then (called.0, record c { local = called.1 })
      (λ _ c1.
        let others = cancel_elsewhere p.task_id p.execution_node c1.remotes in
        (others.0, record c1 { remotes = others.1 }))

cancel_running : Option ℕ → Exec Exception Cluster Bool
unfolding cancel_first on_member cancel_task_pointer
cancel_running none c = (ok false, c)
cancel_running (some ref) c =
    let p = c.local.heap ref in
    and_then (cancel_first p c) (λ _ c1.
      and_then (on_member (cancel_task_pointer p.task_id) p.execution_node c1)
        (λ _ c2. (ok true, c2)))

unfoldable pub cancel_current_task : Exec Exception Cluster Bool
unfolding cancel_running get_current_running_task_pointer
cancel_current_task c = cancel_running (get_current_running_task_pointer false false c.local) c
