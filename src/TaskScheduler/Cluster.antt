-- ===== src/TaskScheduler/Cluster.antt =====
-- How a task is added to the queues of the whole cluster: mcvirt/task_scheduler/scheduler.py, as the
-- node that adds it sees it. A call on all nodes runs on the local node first and then on the others,
-- and stops at the first that raises.
pub mod Consensus
pub mod Adding
mod Tests
use mcvirt.Base.{
  ℕ, zero, suc, String, Bool, true, false, not, ◌&&◌, ◌||◌, Option, none, some, List, [], ◌∷◌, ◌==◌,
  if◌then◌else◌,
}
use mcvirt.Base.Dict.{insert}
use mcvirt.Base.Exec.{Result, ok, err, Exec, and_then}
use mcvirt.Exceptions.{
  Exception, inaccessible_node, task_scheduler_conflict, value_error, attribute_error,
}
use mcvirt.TaskScheduler.Node.{
  TaskPointer, Task, Scheduler, get_current_running_task_pointer, get_latest_task_id, receive_task,
  remove_task, confirm_task_pointer, cancel_task_pointer, start_task, is_local,
}

pub record Remote : Type 0 where
  pub scheduler : Scheduler
  -- whether the node answers
  pub reachable : Bool

pub record Cluster : Type 0 where
  pub local : Scheduler
  pub remotes : List Remote

-- What a call on one remote node and the same call on the nodes behind it, `rs`, come to together.
unfoldable pub push :
    {A : Type 0}
    → Result Exception A × Remote
    → List Remote
    → Result Exception (List A) × List Remote
    → Result Exception (List A) × List Remote
push (ok a, r) rs (ok values, rs') = (ok (a ∷ values), r ∷ rs')
push (ok a, r) rs (err e, rs') = (err e, r ∷ rs')
push (err e, r) rs rest = (err e, r ∷ rs)

unfoldable pub on_remote :
    {A : Type 0}
    → (Scheduler → Result Exception A × Scheduler)
    → Remote
    → Result Exception A × Remote
on_remote m r =
    let (result, s) = m r.scheduler in
    if r.reachable then (result, record r { scheduler = s }) else (err inaccessible_node, r)

-- Runs a call on each remote node.
unfoldable pub each_remote :
    {A : Type 0}
    → (Scheduler → Result Exception A × Scheduler)
    → List Remote
    → Result Exception (List A) × List Remote
unfolding on_remote push
each_remote m [] = (ok [], [])
each_remote m (r ∷ rs) = push (on_remote m r) rs (each_remote m rs)

-- Runs a call on the local node, and then on the others.
unfoldable pub on_all :
    (Scheduler → Result Exception (Unit {0}) × Scheduler) → Exec Exception Cluster (Unit {0})
unfolding each_remote
on_all m c =
    let (result, s) = m c.local in
    and_then (result, record c { local = s })
      (λ _ c1.
        let (results, rs) = each_remote m c1.remotes in
        and_then (results, record c1 { remotes = rs }) (λ _ c2. (ok tt, c2)))

pub receive : String → String → Option String → Scheduler → Result Exception Bool × Scheduler
receive execution_node task_id latest s =
    let (accepted, t) = receive_task execution_node task_id latest s in (ok accepted, t)

-- `push` for calls that return nothing.
unfoldable pub then_rest :
    Result Exception (Unit {0}) × Remote
    → List Remote
    → Result Exception (Unit {0}) × List Remote
    → Result Exception (Unit {0}) × List Remote
then_rest (ok _, r) rs (result, rs') = (result, r ∷ rs')
then_rest (err e, r) rs rest = (err e, r ∷ rs)

pub remove_from : Bool → String → Remote → Result Exception (Unit {0}) × Remote
unfolding on_remote
remove_from true task_id r = on_remote (remove_task task_id) r
remove_from false task_id r = (ok tt, r)

-- Removes the task from the remote nodes that accepted it.
pub revert_remotes : String → List Bool → List Remote → Result Exception (Unit {0}) × List Remote
unfolding then_rest remove_from
revert_remotes task_id [] rs = (ok tt, rs)
revert_remotes task_id (accepted ∷ rest) [] = (ok tt, [])
revert_remotes task_id (accepted ∷ rest) (r ∷ rs) =
    then_rest (remove_from accepted task_id r) rs (revert_remotes task_id rest rs)

-- self.remove_task(nodes=s_nodes, task_id=task.id_)
pub revert : String → Bool → List Bool → Exec Exception Cluster (Unit {0})
unfolding revert_remotes
revert task_id accepted_locally accepted c =
    let (result, s) = if accepted_locally then remove_task task_id c.local else (ok tt, c.local) in
    and_then (result, record c { local = s })
      (λ _ c1.
        let (results, rs) = revert_remotes task_id accepted c1.remotes in
        (results, record c1 { remotes = rs }))

pub all_true : List Bool → Bool
all_true [] = true
all_true (b ∷ bs) = b && all_true bs

-- The latter half of `distribute_task`, with what the nodes answered.
pub settle :
    String
    → Option String
    → Bool
    → Scheduler
    → Result Exception (List Bool) × List Remote
    → Result Exception (Option (Option String)) × Cluster
unfolding revert all_true
settle task_id latest accepted_locally s (err e, rs) = (err e, record { local = s; remotes = rs })
settle task_id latest accepted_locally s (ok accepted, rs) =
    let c : Cluster = record { local = s; remotes = rs } in
    if accepted_locally && all_true accepted
    then (ok (some latest), c)
    else and_then (revert task_id accepted_locally accepted c) (λ _ c1. (ok none, c1))

-- The result `none` is Python's False, and `some latest` the id at the head of the queue, or None.
pub distribute_task : String → Exec Exception Cluster (Option (Option String))
unfolding each_remote receive settle
distribute_task task_id c =
    let latest = get_latest_task_id c.local in
    let (accepted, s) = receive_task c.local.hostname task_id latest c.local in
    settle task_id latest accepted s
      (each_remote (receive c.local.hostname task_id latest) c.remotes)

-- What happens in the cluster while `add_task` sleeps.
abbrev pub Meanwhile : Type 0
Meanwhile = ℕ → Cluster → Cluster

-- The attempts of `add_task`, `attempts` of them being left.
pub negotiate : Meanwhile → String → ℕ → Exec Exception Cluster (Option String)
unfolding distribute_task
negotiate meanwhile task_id zero c = (err task_scheduler_conflict, c)
negotiate meanwhile task_id (suc attempts) c = and_then (distribute_task task_id c) (λ previous c1.
    elim previous [
      | some latest ↦ (ok latest, c1)
      | none ↦ negotiate meanwhile task_id attempts (meanwhile attempts c1)
    ])

abbrev pub task_distribute_attempts : ℕ
task_distribute_attempts = 5

on_local : (Scheduler → Result Exception (Unit {0}) × Scheduler) → Exec Exception Cluster (Unit {0})
on_local m c = let (result, s) = m c.local in (result, record c { local = s })

-- The task is started where no other is queued before it.
start_first : String → Option String → Exec Exception Cluster (Unit {0})
unfolding on_local
start_first task_id none c = on_local (start_task task_id) c
start_first task_id (some _) c = (ok tt, c)

-- self._TASKS[task.id_] = task
register_task : String → Cluster → Cluster
register_task task_id c = record c {
  local = record (c.local) { tasks = insert task_id (record { started = false }) c.local.tasks };
}

pub add_task : Meanwhile → String → Exec Exception Cluster (Unit {0})
unfolding negotiate on_all start_first register_task
add_task meanwhile task_id c =
    and_then (negotiate meanwhile task_id task_distribute_attempts (register_task task_id c))
      (λ previous c1.
        and_then (on_all (confirm_task_pointer task_id) c1) (λ _. start_first task_id previous))
