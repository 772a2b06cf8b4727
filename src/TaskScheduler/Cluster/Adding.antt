-- ===== src/TaskScheduler/Cluster/Adding.antt =====
-- A task that `add_task` of mcvirt/task_scheduler/scheduler.py adds to a cluster that agrees.
use mcvirt.Base.{
  ℕ, String, true, false, both_true, Option, none, some, List, [], ◌∷◌, ◌≡◌, refl, ap, ◌∙◌, eq_refl,
}
use mcvirt.Base.Lists.{All}
use mcvirt.Base.Dict.{lookup, dict_laws}
use mcvirt.Base.Exec.{ok, and_then}
use mcvirt.Rpc.State.{update, update_self}
use mcvirt.TaskScheduler.Node.{
  Scheduler, new_pointer, append_pointer, get_latest_task_id, get_current_running_task_pointer,
  change_pointer, confirm, same_id, confirm_task_pointer, start_task, start_found,
}
use mcvirt.TaskScheduler.Cluster.{
  Remote, Cluster, Meanwhile, push, on_remote, each_remote, on_all, all_true, negotiate,
  task_distribute_attempts, on_local, start_first, register_task, add_task,
}
use mcvirt.TaskScheduler.Cluster.Consensus.{
  IsUp, IsQuiet, agrees, answers, received, distribute_task_queues,
}

-- The node has a pointer to the task that is no longer provisional.
pub record IsConfirmed (task_id : String) (s : Scheduler) : Type 0 where
  pub ref : ℕ
  pub known : lookup task_id s.task_pointers ≡ some ref
  pub confirmed : (s.heap ref).provisional ≡ false

confirmed_pointer : String → String → Scheduler → Scheduler
confirmed_pointer task_id node s =
    let t = append_pointer (new_pointer task_id node) s in
    record t { heap = update t.heap s.next_ref (confirm (new_pointer task_id node)) }

confirm_appended :
    (task_id node : String) (s : Scheduler)
    → confirm_task_pointer task_id (append_pointer (new_pointer task_id node) s)
      ≡ (ok tt, confirmed_pointer task_id node s)
unfolding confirm_task_pointer append_pointer change_pointer confirmed_pointer
confirm_appended task_id node s =
    let t = append_pointer (new_pointer task_id node) s in
    simp (dict_laws, eq_refl)
      (ap (λ p. (ok tt, record t { heap = update t.heap s.next_ref (confirm p) }))
        (update_self s.heap s.next_ref (new_pointer task_id node)))

confirmed_pointer-IsConfirmed :
    (task_id node : String) (s : Scheduler) → IsConfirmed task_id (confirmed_pointer task_id node s)
unfolding confirmed_pointer append_pointer confirm
confirmed_pointer-IsConfirmed task_id node s = record {
  ref = s.next_ref;
  known = simp (dict_laws, eq_refl);
  confirmed =
      rw
        (update_self (append_pointer (new_pointer task_id node) s).heap s.next_ref
          (confirm (new_pointer task_id node)))
        refl;
}

confirmed_remotes : String → String → List Remote → List Remote
unfolding confirmed_pointer
confirmed_remotes task_id node [] = []
confirmed_remotes task_id node (r ∷ rs) =
    record r { scheduler = confirmed_pointer task_id node r.scheduler }
    ∷ confirmed_remotes task_id node rs

units : List Remote → List (Unit {0})
units [] = []
units (r ∷ rs) = tt ∷ units rs

confirm_received :
    (task_id node : String) (latest : Option String) (rs : List Remote)
    → IsUp task_id rs
    → all_true (answers latest rs) ≡ true
    → each_remote (confirm_task_pointer task_id) (received (new_pointer task_id node) latest rs)
      ≡ (ok (units rs), confirmed_remotes task_id node rs)
unfolding each_remote on_remote push received answers all_true confirmed_remotes units
confirm_received task_id node latest [] up agree = refl
confirm_received task_id node latest (r ∷ rs) up agree =
    let (first, rest) = both_true (agrees latest r) (all_true (answers latest rs)) agree in
    simp (
      first,
      up.0,
      confirm_appended task_id node r.scheduler,
      confirm_received task_id node latest rs up.2 rest,
    )

confirmed_remotes-IsConfirmed :
    (task_id node : String) (rs : List Remote)
    → All (λ r. IsConfirmed task_id r.scheduler) (confirmed_remotes task_id node rs)
unfolding confirmed_remotes
confirmed_remotes-IsConfirmed task_id node [] = tt
confirmed_remotes-IsConfirmed task_id node (r ∷ rs) = (
  confirmed_pointer-IsConfirmed task_id node r.scheduler,
  confirmed_remotes-IsConfirmed task_id node rs,
)

module _ (meanwhile : Meanwhile) (task_id : String) (c : Cluster) (quiet : IsQuiet task_id c)
    (agree : all_true (answers (get_latest_task_id c.local) c.remotes) ≡ true) where
  abbrev start_cluster : Cluster
  start_cluster = register_task task_id c

  start-IsQuiet : IsQuiet task_id start_cluster
  unfolding register_task
  start-IsQuiet = record {
    local = record { allocated = quiet.local.allocated; unknown = quiet.local.unknown };
    remotes = quiet.remotes;
  }

  negotiated : negotiate meanwhile task_id task_distribute_attempts start_cluster ≡ (
    ok (get_latest_task_id c.local),
    record {
      local = append_pointer (new_pointer task_id c.local.hostname) start_cluster.local;
      remotes =
          received (new_pointer task_id c.local.hostname) (get_latest_task_id c.local) c.remotes;
    },
  )
  unfolding negotiate register_task get_latest_task_id get_current_running_task_pointer
  negotiated = rw (distribute_task_queues task_id start_cluster start-IsQuiet agree) refl

  -- The cluster once every node has confirmed the task.
  abbrev agreed : Cluster
  agreed = record {
    local = confirmed_pointer task_id c.local.hostname start_cluster.local;
    remotes = confirmed_remotes task_id c.local.hostname c.remotes;
  }

  confirmed_all :
      on_all (confirm_task_pointer task_id) (record {
        local = append_pointer (new_pointer task_id c.local.hostname) start_cluster.local;
        remotes =
            received (new_pointer task_id c.local.hostname) (get_latest_task_id c.local) c.remotes;
      })
      ≡ (ok tt, agreed)
  unfolding on_all
  confirmed_all = simp (
    confirm_appended task_id c.local.hostname start_cluster.local,
    confirm_received task_id c.local.hostname (get_latest_task_id c.local) c.remotes quiet.remotes
        agree,
  )

  added : add_task meanwhile task_id c ≡ start_first task_id (get_latest_task_id c.local) agreed
  unfolding add_task
  added =
      ap
        (λ r. and_then r (λ previous c1.
          and_then (on_all (confirm_task_pointer task_id) c1) (λ _. start_first task_id previous)))
        negotiated
      ∙ ap (λ r. and_then r (λ _. start_first task_id (get_latest_task_id c.local))) confirmed_all

  start_lem :
      (latest : Option String)
      → ((start_first task_id latest agreed).0 ≡ ok tt)
        × IsConfirmed task_id (start_first task_id latest agreed).1.local
        × All (λ r. IsConfirmed task_id r.scheduler) (start_first task_id latest agreed).1.remotes
        × (lookup task_id (start_first task_id latest agreed).1.local.tasks
            ≡ some (record { started = same_id latest none }))
  unfolding start_first on_local start_task start_found confirmed_pointer append_pointer
      register_task
  start_lem none =
      let confirmed = confirmed_pointer-IsConfirmed task_id c.local.hostname start_cluster.local in
      simp (dict_laws, eq_refl)
        (
          refl,
          record { ref = confirmed.ref; known = confirmed.known; confirmed = confirmed.confirmed },
          confirmed_remotes-IsConfirmed task_id c.local.hostname c.remotes,
          refl,
        )
  start_lem (some other) = (
    refl,
    confirmed_pointer-IsConfirmed task_id c.local.hostname start_cluster.local,
    confirmed_remotes-IsConfirmed task_id c.local.hostname c.remotes,
    simp (dict_laws, eq_refl),
  )

  -- If every node answers, does not know the task, and has the same task at the head of its queue,
  -- or none, adding the task succeeds at the first attempt: each node then has a pointer to it that
  -- is confirmed, and the task is started at once exactly if the queue was empty.
  pub add_task_agreed :
      ((add_task meanwhile task_id c).0 ≡ ok tt)
      × IsConfirmed task_id (add_task meanwhile task_id c).1.local
      × All (λ r. IsConfirmed task_id r.scheduler) (add_task meanwhile task_id c).1.remotes
      × (lookup task_id (add_task meanwhile task_id c).1.local.tasks
          ≡ some (record { started = same_id (get_latest_task_id c.local) none }))
  add_task_agreed = rw added (start_lem (get_latest_task_id c.local))
