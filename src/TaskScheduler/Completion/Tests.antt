-- ===== src/TaskScheduler/Completion/Tests.antt =====
-- A concrete node with two of its own tasks in the queue, of which the first ends.
use mcvirt.Base.{true, false, some, nat_eq, if◌then◌else◌, [], ◌∷◌, ◌≡◌, refl}
use mcvirt.Base.Dict.{lookup}
use mcvirt.Base.Exec.{ok}
use mcvirt.TaskScheduler.Cluster.{Cluster, each_remote}
use mcvirt.TaskScheduler.Completion.{on_completion}
use mcvirt.TaskScheduler.Completion.Next.{on_completion_starts}

abbrev two_tasks : Cluster
two_tasks = record {
  local = record {
    hostname = "a";
    heap = λ ref. record {
      task_id = if nat_eq ref 0 then "t0" else "t1";
      execution_node = "a";
      provisional = false;
      cancelled = false;
    };
    next_ref = 2;
    task_queue = 0 ∷ 1 ∷ [];
    task_pointers = ("t0", 0) ∷ ("t1", 1) ∷ [];
    tasks = ("t0", record { started = true }) ∷ ("t1", record { started = false }) ∷ [];
  };
  remotes = [];
}

completion_example :
    ((on_completion "t0" two_tasks).0 ≡ ok tt)
    × ((on_completion "t0" two_tasks).1.local.task_queue ≡ 1 ∷ [])
    × (lookup "t1" (on_completion "t0" two_tasks).1.local.tasks ≡ some (record { started = true }))
completion_example =
    on_completion_starts "t0" two_tasks 0 1 [] refl (unfold lookup in refl)
      (record { started = false }) [] (unfold each_remote in refl) refl refl refl refl
      (unfold lookup in refl)
