-- ===== src/TaskScheduler/Cluster/Consensus.antt =====
-- How `distribute_task` of mcvirt/task_scheduler/scheduler.py queues a new task on the nodes, takes it
-- back after a conflict, and leaves it where a node cannot be reached.
use mcvirt.Base.{
  String, ◌≡◌, refl, Bool, true, false, Option, none, some, List, [], ◌∷◌, ◌++◌, if◌then◌else◌,
  arith, Bool-cases, inl, inr,
}
use mcvirt.Base.Dict.{lookup}
use mcvirt.Base.Exec.{Result, ok, err, and_then-eq_ok}
use mcvirt.Exceptions.{Exception, inaccessible_node, attribute_error}
use mcvirt.TaskScheduler.Node.{
  TaskPointer, Scheduler, new_pointer, append_pointer, get_latest_task_id, same_id, remove_task,
  start_task,
}
use mcvirt.TaskScheduler.Node.Queue.{
  IsReady, IsRestored, IsRestored-refl, remove-append, receive_task_accepts, receive_task_refuses,
  same_id_refl,
}
use mcvirt.TaskScheduler.Cluster.{
  Remote, Cluster, push, on_remote, each_remote, receive, then_rest, remove_from, revert_remotes,
  revert, all_true, settle, distribute_task,
}

abbrev Each : (Remote → Type 0) → List Remote → Type 0
Each P [] = Unit
Each P (r ∷ rs) = P r × Each P rs

-- Every remote node answers, and does not know the task yet.
abbrev pub IsUp : String → List Remote → Type 0
IsUp task_id [] = Unit
IsUp task_id (r ∷ rs) = (r.reachable ≡ true) × IsReady task_id r.scheduler × IsUp task_id rs

-- Whether a node's queue has the given task at its head.
abbrev pub agrees : Option String → Remote → Bool
agrees latest r = same_id (get_latest_task_id r.scheduler) latest

unfoldable pub answers : Option String → List Remote → List Bool
answers latest [] = []
answers latest (r ∷ rs) = agrees latest r ∷ answers latest rs

abbrev with_task : TaskPointer → Remote → Remote
with_task p r = record r { scheduler = append_pointer p r.scheduler }

-- The remote nodes once each has taken its decision.
unfoldable pub received : TaskPointer → Option String → List Remote → List Remote
received p latest [] = []
received p latest (r ∷ rs) = (if agrees latest r then with_task p r else r) ∷ received p latest rs

-- The same nodes, with their queues and pointers as they were.
abbrev pub AllRestored : List Remote → List Remote → Type 0
AllRestored [] [] = Unit
AllRestored (r ∷ rs) (r' ∷ rs') = IsRestored r.scheduler r'.scheduler × AllRestored rs rs'
AllRestored _ _ = ⊥

then_rest_lem :
    (x : Result Exception (Unit {0}) × Remote) (behind : List Remote)
    (y : Result Exception (Unit {0}) × List Remote) (r : Remote) (rs : List Remote)
    → x.0 ≡ ok tt
    → IsRestored r.scheduler x.1.scheduler
    → y.0 ≡ ok tt
    → AllRestored rs y.1
    → ((then_rest x behind y).0 ≡ ok tt) × AllRestored (r ∷ rs) (then_rest x behind y).1
unfolding then_rest
then_rest_lem (ok _, r') behind y r rs done restored rest rest_restored =
    (rest, (restored, rest_restored))
then_rest_lem (err e, r') behind y r rs done restored rest rest_restored = absurd (cc)

module _ (execution_node task_id : String) (latest : Option String) where
  abbrev pointer : TaskPointer
  pointer = new_pointer task_id execution_node

  on_remote-receive :
      (r : Remote)
      → r.reachable ≡ true
      → on_remote (receive execution_node task_id latest) r
        ≡ (ok (agrees latest r), if agrees latest r then with_task pointer r else r)
  unfolding on_remote receive
  on_remote-receive r up = elim (Bool-cases (agrees latest r)) [
    | inl same ↦
        rw (receive_task_accepts execution_node task_id latest r.scheduler same) (simp (up, same))
    | inr other ↦
        rw (receive_task_refuses execution_node task_id latest r.scheduler other)
          (simp other (ground (arith, up)))
  ]

  each_remote-receive :
      (rs : List Remote)
      → IsUp task_id rs
      → each_remote (receive execution_node task_id latest) rs
        ≡ (ok (answers latest rs), received pointer latest rs)
  unfolding each_remote answers received push
  each_remote-receive [] up = refl
  each_remote-receive (r ∷ rs) up = rw (on_remote-receive r up.0) (rw (each_remote-receive rs up.2))

  remove_from_lem :
      (r : Remote)
      → r.reachable ≡ true
      → IsReady task_id r.scheduler
      → (b : Bool)
      → ((remove_from b task_id (if b then with_task pointer r else r)).0 ≡ ok tt)
        × IsRestored r.scheduler
            (remove_from b task_id (if b then with_task pointer r else r)).1.scheduler
  unfolding remove_from on_remote
  remove_from_lem r up ready false = (refl, IsRestored-refl r.scheduler)
  remove_from_lem r up ready true =
      let (done, restored, _) = remove-append pointer r.scheduler ready in rw up (done, restored)

  revert_received :
      (rs : List Remote)
      → IsUp task_id rs
      → ((revert_remotes task_id (answers latest rs) (received pointer latest rs)).0 ≡ ok tt)
        × AllRestored rs (revert_remotes task_id (answers latest rs) (received pointer latest rs)).1
  unfolding revert_remotes answers received
  revert_received [] up = (refl, tt)
  revert_received (r ∷ rs) up =
      let (done, restored) = remove_from_lem r up.0 up.1 (agrees latest r) in
      let (rest_done, rest_restored) = revert_received rs up.2 in
      then_rest_lem
        (remove_from (agrees latest r) task_id (if agrees latest r then with_task pointer r else r))
        (received pointer latest rs)
        (revert_remotes task_id (answers latest rs) (received pointer latest rs)) r rs done restored
        rest_done rest_restored

-- The whole cluster: its nodes answer, do not know the task, and have sound queues.
pub record IsQuiet (task_id : String) (c : Cluster) : Type 0 where
  pub local : IsReady task_id c.local
  pub remotes : IsUp task_id c.remotes

module _ (task_id : String) (c : Cluster) (quiet : IsQuiet task_id c) where
  abbrev head : Option String
  head = get_latest_task_id c.local

  abbrev new : TaskPointer
  new = new_pointer task_id c.local.hostname

  distribute_lem :
      distribute_task task_id c
      ≡ settle task_id head true
          (append_pointer new c.local)
          (ok (answers head c.remotes), received new head c.remotes)
  unfolding distribute_task
  distribute_lem =
      rw (receive_task_accepts c.local.hostname task_id head c.local (same_id_refl head))
        (rw (each_remote-receive c.local.hostname task_id head c.remotes quiet.remotes))

  -- If every node answers, does not know the task, and has the same task at the head of its queue
  -- as the local node, the task is queued at the end of every queue, and the result is the task at
  -- the head.
  pub distribute_task_queues :
      all_true (answers head c.remotes) ≡ true
      → distribute_task task_id c ≡ (
        ok (some head),
        record { local = append_pointer new c.local; remotes = received new head c.remotes },
      )
  distribute_task_queues agree = rw distribute_lem (unfold settle in rw agree)

  abbrev undone_local : Result Exception (Unit {0}) × Scheduler
  undone_local = remove_task task_id (append_pointer new c.local)

  abbrev undone_remotes : Result Exception (Unit {0}) × List Remote
  undone_remotes = revert_remotes task_id (answers head c.remotes) (received new head c.remotes)

  revert_lem :
      undone_local.0 ≡ ok tt
      → revert task_id true
          (answers head c.remotes)
          (record { local = append_pointer new c.local; remotes = received new head c.remotes })
        ≡ (undone_remotes.0, record { local = undone_local.1; remotes = undone_remotes.1 })
  unfolding revert
  revert_lem done = and_then-eq_ok (undone_local.0, _) _ tt done

  -- If every node answers and does not know the task, but some node has another task at the head of
  -- its queue, the result is False, the queue, the pointers and the lookup table of every node are
  -- as they were, and the local node has forgotten the task itself.
  pub distribute_task_reverts :
      all_true (answers head c.remotes) ≡ false
      → ((distribute_task task_id c).0 ≡ ok none)
        × IsRestored c.local (distribute_task task_id c).1.local
        × AllRestored c.remotes (distribute_task task_id c).1.remotes
        × (lookup task_id (distribute_task task_id c).1.local.tasks ≡ none)
  distribute_task_reverts differ =
      let (done, restored, forgotten) = remove-append new c.local quiet.local in
      let (done_remotes, restored_remotes) =
        revert_received c.local.hostname task_id head c.remotes quiet.remotes in
      rw distribute_lem (
        unfold settle in
        rw differ
          (rw (revert_lem done) (rw done_remotes (refl, restored, restored_remotes, forgotten))))

  -- If every node answers and does not know the task, but some node has another task at the head of
  -- its queue, then after the attempt, which fails, starting the task on the local node raises an
  -- AttributeError, since the node has forgotten it.
  pub conflict_loses_task :
      all_true (answers head c.remotes) ≡ false
      → (start_task task_id (distribute_task task_id c).1.local).0 ≡ err attribute_error
  unfolding start_task
  conflict_loses_task differ = rw (distribute_task_reverts differ).3

unreachable_lem :
    (execution_node task_id : String) (latest : Option String) (r : Remote)
    (behind rs : List Remote)
    → IsUp task_id rs
    → r.reachable ≡ false
    → each_remote (receive execution_node task_id latest) (rs ++ r ∷ behind) ≡ (
      err inaccessible_node,
      received (new_pointer task_id execution_node) latest rs ++ r ∷ behind,
    )
unfolding each_remote received push on_remote
unreachable_lem execution_node task_id latest r behind [] up down = ground (arith, down)
unreachable_lem execution_node task_id latest r behind (r' ∷ rs) up down =
    rw (on_remote-receive execution_node task_id latest r' up.0)
      (rw (unreachable_lem execution_node task_id latest r behind rs up.2 down))

-- If a node does not answer, while those asked before it do and do not know the task,
-- InaccessibleNodeException is raised and nothing is reverted: the local node, and those of the
-- nodes asked before that accepted, keep the task in their queues, still provisional.
pub distribute_task_unreachable :
    (task_id : String) (s : Scheduler) (r : Remote) (behind rs : List Remote)
    → IsUp task_id rs
    → r.reachable ≡ false
    → distribute_task task_id (record { local = s; remotes = rs ++ r ∷ behind }) ≡ (
      err inaccessible_node,
      record {
        local = append_pointer (new_pointer task_id s.hostname) s;
        remotes = received (new_pointer task_id s.hostname) (get_latest_task_id s) rs ++ r ∷ behind;
      },
    )
unfolding distribute_task settle
distribute_task_unreachable task_id s r behind rs up down =
    rw
      (receive_task_accepts s.hostname task_id (get_latest_task_id s) s
        (same_id_refl (get_latest_task_id s)))
      (rw (unreachable_lem s.hostname task_id (get_latest_task_id s) r behind rs up down))
