-- ===== src/TaskScheduler/Cluster/Tests.antt =====
-- Concrete clusters: nodes with an empty queue, and one with a task that the others do not have.
use mcvirt.Base.{String, true, false, none, some, List, [], ◌∷◌, ◌++◌, ◌≡◌, refl, arith}
use mcvirt.Base.Lists.{All}
use mcvirt.Base.Dict.{lookup}
use mcvirt.Base.Exec.{ok, err}
use mcvirt.Exceptions.{inaccessible_node, attribute_error}
use mcvirt.TaskScheduler.Node.Copy.{import_tasks-dump}
use mcvirt.TaskScheduler.Node.{
  dump_task_pointer_queue, dump_pointers, import_tasks, Scheduler, same_id, new_pointer,
  append_pointer, get_latest_task_id, find_running, get_current_running_task_pointer, remove_task,
  start_task,
}
use mcvirt.TaskScheduler.Node.Queue.{IsReady, IsRestored, remove-append}
use mcvirt.TaskScheduler.Cluster.Adding.{IsConfirmed, add_task_agreed}
use mcvirt.TaskScheduler.Cluster.{add_task, Remote, Cluster, all_true, distribute_task}
use mcvirt.TaskScheduler.Cluster.Consensus.{
  IsQuiet, AllRestored, answers, received, distribute_task_queues, distribute_task_reverts,
  conflict_loses_task, distribute_task_unreachable,
}

abbrev idle : String → Scheduler
idle hostname = record {
  hostname = hostname;
  heap = λ _. record { task_id = ""; execution_node = ""; provisional = false; cancelled = false };
  next_ref = 0;
  task_queue = [];
  task_pointers = [];
  tasks = [];
}

-- A node with the task `t0` in its queue.
abbrev busy : String → Scheduler
busy hostname = record {
  hostname = hostname;
  heap =
      λ _. record { task_id = "t0"; execution_node = "b"; provisional = false; cancelled = false };
  next_ref = 1;
  task_queue = 0 ∷ [];
  task_pointers = ("t0", 0) ∷ [];
  tasks = [];
}

abbrev reached : Scheduler → Remote
reached s = record { scheduler = s; reachable = true }

abbrev cluster_of : List Remote → Cluster
cluster_of remotes = record { local = idle "a"; remotes = remotes }

idle-IsReady : (hostname : String) → IsReady "t1" (idle hostname)
unfolding lookup
idle-IsReady hostname = record { allocated = tt; unknown = refl }

busy-IsReady : IsReady "t1" (busy "b")
unfolding lookup
busy-IsReady = record { allocated = (omega arith, tt); unknown = refl }

remove-append_example :
    ((remove_task "t1" (append_pointer (new_pointer "t1" "a") (busy "b"))).0 ≡ ok tt)
    × IsRestored (busy "b") (remove_task "t1" (append_pointer (new_pointer "t1" "a") (busy "b"))).1
    × (lookup "t1" (remove_task "t1" (append_pointer (new_pointer "t1" "a") (busy "b"))).1.tasks
        ≡ none)
remove-append_example = remove-append (new_pointer "t1" "a") (busy "b") busy-IsReady

agreeing : IsQuiet "t1" (cluster_of (reached (idle "b") ∷ []))
agreeing = record { local = idle-IsReady "a"; remotes = (refl, idle-IsReady "b", tt) }

differing : IsQuiet "t1" (cluster_of (reached (busy "b") ∷ []))
differing = record { local = idle-IsReady "a"; remotes = (refl, busy-IsReady, tt) }

all_agree : all_true (answers (get_latest_task_id (idle "a")) (reached (idle "b") ∷ [])) ≡ true
unfolding all_true answers get_latest_task_id get_current_running_task_pointer find_running
all_agree = refl

queues_example : distribute_task "t1" (cluster_of (reached (idle "b") ∷ [])) ≡ (
  ok (some (get_latest_task_id (idle "a"))),
  record {
    local = append_pointer (new_pointer "t1" "a") (idle "a");
    remotes =
        received (new_pointer "t1" "a") (get_latest_task_id (idle "a")) (reached (idle "b") ∷ []);
  },
)
queues_example =
    distribute_task_queues "t1" (cluster_of (reached (idle "b") ∷ [])) agreeing all_agree

all_differ : all_true (answers (get_latest_task_id (idle "a")) (reached (busy "b") ∷ [])) ≡ false
unfolding all_true answers get_latest_task_id get_current_running_task_pointer find_running
all_differ = refl

reverts_example :
    ((distribute_task "t1" (cluster_of (reached (busy "b") ∷ []))).0 ≡ ok none)
    × IsRestored (idle "a") (distribute_task "t1" (cluster_of (reached (busy "b") ∷ []))).1.local
    × AllRestored
        (reached (busy "b") ∷ [])
        (distribute_task "t1" (cluster_of (reached (busy "b") ∷ []))).1.remotes
    × (lookup "t1" (distribute_task "t1" (cluster_of (reached (busy "b") ∷ []))).1.local.tasks
        ≡ none)
reverts_example =
    distribute_task_reverts "t1" (cluster_of (reached (busy "b") ∷ [])) differing all_differ

loses_example :
    (start_task "t1" (distribute_task "t1" (cluster_of (reached (busy "b") ∷ []))).1.local).0
    ≡ err attribute_error
loses_example = conflict_loses_task "t1" (cluster_of (reached (busy "b") ∷ [])) differing all_differ

unreachable_example :
    distribute_task "t1" (
      cluster_of
        ((reached (idle "b") ∷ []) ++ (record { scheduler = idle "c"; reachable = false } ∷ [])))
    ≡ (
      err inaccessible_node,
      record {
        local = append_pointer (new_pointer "t1" "a") (idle "a");
        remotes =
            received
              (new_pointer "t1" "a")
              (get_latest_task_id (idle "a"))
              (reached (idle "b") ∷ [])
            ++ (record { scheduler = idle "c"; reachable = false } ∷ []);
      },
    )
unreachable_example =
    distribute_task_unreachable "t1" (idle "a") (record { scheduler = idle "c"; reachable = false })
      [] (reached (idle "b") ∷ []) (refl, idle-IsReady "b", tt) refl

adding_example :
    ((add_task (λ _ d. d) "t1" (cluster_of (reached (idle "b") ∷ []))).0 ≡ ok tt)
    × IsConfirmed "t1" (add_task (λ _ d. d) "t1" (cluster_of (reached (idle "b") ∷ []))).1.local
    × All
        (λ r. IsConfirmed "t1" r.scheduler)
        (add_task (λ _ d. d) "t1" (cluster_of (reached (idle "b") ∷ []))).1.remotes
    × (lookup "t1" (add_task (λ _ d. d) "t1" (cluster_of (reached (idle "b") ∷ []))).1.local.tasks
        ≡ some (record { started = same_id (get_latest_task_id (idle "a")) none }))
adding_example =
    add_task_agreed (λ _ d. d) "t1" (cluster_of (reached (idle "b") ∷ [])) agreeing all_agree

copied_example :
    ((import_tasks (dump_task_pointer_queue (busy "b")) (idle "a")).0 ≡ ok tt)
    × (dump_task_pointer_queue (import_tasks (dump_task_pointer_queue (busy "b")) (idle "a")).1
        ≡ dump_task_pointer_queue (idle "a") ++ dump_task_pointer_queue (busy "b"))
copied_example =
    import_tasks-dump (dump_task_pointer_queue (busy "b")) (idle "a") tt
      (unfold dump_task_pointer_queue dump_pointers in (refl, tt))
