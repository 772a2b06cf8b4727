-- ===== src/Rpc/Function/Undo.antt =====
-- Rolling back exposed methods: `Function.undo` and `Transaction.on_function_fail` together, of
-- mcvirt/rpc/expose_method.py.
use mcvirt.Base.{
  ℕ, List, ap, ◌∙◌, String, ◌≡◌, ◌≢◌, refl, true, false, not, ◌&&◌, ◌||◌, some, [], ◌∷◌, ◌==◌,
  if◌then◌else◌, Bool-cases, Option-cases, inl, inr, arith,
}
use mcvirt.Base.Dict.{Dict, lookup}
use mcvirt.Base.Exec.{ok}
use mcvirt.Rpc.State.{NodeStatus, Saga, World, transactions}
use mcvirt.Rpc.Transaction.{set_undo_state, undo_all, on_function_fail}
use mcvirt.Rpc.Transaction.Invariant.{IsWellFormed}
use mcvirt.Rpc.Transaction.Rollback.{Keeps, on_function_fail_resets}
use mcvirt.Rpc.Transaction.History.{
  History, History-Holds, undone_from_newest, AllReturn, undo_all-newest_first,
}
use mcvirt.Rpc.Transaction.Order.{
  SameTransactions, IsQuiet, and_then-Quiet, IsQuiet-Keeps, on_function_fail_single,
  on_function_fail_nested,
}
use mcvirt.Rpc.Function.{
  on_env, set_current_node, undo_remote, undo_nodes, undo_local, undo, undo_function_name,
}

same : {Env V : Type 0} (s : Saga Env V) → SameTransactions s s
same s = record { heap = refl; lists = refl; current = refl; next_ref = refl }

module _ {Env V : Type 0} (w : World Env V) where
  undo_local-Quiet : (f : ℕ) → IsQuiet (undo_local w f)
  unfolding undo_local set_current_node
  undo_local-Quiet f s = elim (Option-cases (lookup w.hostname (s.functions f).nodes)) [
    | inl e ↦ rw (e, undo_local) (same s)
    | inr (status, e) ↦
        rw (e, undo_local)
          (elim (Bool-cases
            (status.complete && w.has_method f w.hostname (undo_function_name w (s.functions f)))) [
              | inl calls ↦
                  rw calls (record { heap = refl; lists = refl; current = refl; next_ref = refl })
              | inr skips ↦ rw skips (same s)
            ])
  ]

  undo_remote-Quiet :
      (f : ℕ) (node : String) (status : NodeStatus V) → IsQuiet (undo_remote w f node status)
  unfolding undo_remote
  undo_remote-Quiet f node status s =
      let s1 = set_current_node f node s in
      let name = undo_function_name w (s1.functions f) in
      and_then-Quiet s (on_env w (w.get_remote_object f node) s1) _
        (unfold set_current_node in
          record { heap = refl; lists = refl; current = refl; next_ref = refl })
        (λ _ s2. elim (Bool-cases (w.has_method f node name)) [
          | inl has_it ↦
              rw has_it (record { heap = refl; lists = refl; current = refl; next_ref = refl })
          | inr lacks ↦ rw lacks (same s2)
        ])

  undo_nodes-Quiet : (f : ℕ) (nodes : Dict (NodeStatus V)) → IsQuiet (undo_nodes w f nodes)
  unfolding undo_nodes
  undo_nodes-Quiet f [] s = same s
  undo_nodes-Quiet f ((node, status) ∷ nodes) s =
      and_then-Quiet s
        (if node == w.hostname || not status.complete
          then (ok tt, s)
          else undo_remote w f node status s)
        (λ _. undo_nodes w f nodes)
        (elim (Bool-cases (node == w.hostname || not status.complete)) [
          | inl skips ↦ rw skips (same s)
          | inr calls ↦ rw calls (undo_remote-Quiet f node status s)
        ])
        (λ _. undo_nodes-Quiet f nodes)

  pub undo-Quiet : (f : ℕ) → IsQuiet (undo w f)
  unfolding undo
  undo-Quiet f s =
      and_then-Quiet s (undo_local w f s) (λ _ s1. undo_nodes w f (s1.functions f).nodes s1)
        (undo_local-Quiet f s) (λ _ s1. undo_nodes-Quiet f (s1.functions f).nodes s1)

  undo-Keeps : (f : ℕ) → Keeps (undo w f)
  undo-Keeps f = IsQuiet-Keeps (undo w f) (undo-Quiet f)

  -- Outside of an undo, and however the undo methods end, a rollback leaves the open transactions
  -- well formed and the undo state reset, if they were well formed before.
  pub rollback_resets :
      (f : ℕ) (s : Saga Env V)
      → IsWellFormed s
      → s.undo_state ≡ false
      → IsWellFormed (on_function_fail (undo w) f s).1
        × ((on_function_fail (undo w) f s).1.undo_state ≡ false)
  rollback_resets = on_function_fail_resets (undo w) undo-Keeps

  -- When a transaction is opened outside of an undo and with no other one open, functions are
  -- registered in it, the system changing in between but not its transactions, and a function
  -- fails, then the rollback returns, the registered functions are undone from the newest to the
  -- oldest, each in the state that the undo of the newer ones left, and no transaction is open
  -- afterwards, if none of these undos raises.
  pub rollback_single :
      (f : ℕ) (fs : List ℕ) (s t : Saga Env V)
      → s.undo_state ≡ false
      → transactions s ≡ []
      → History s fs t
      → AllReturn (undo w) fs (set_undo_state true t)
      → ((on_function_fail (undo w) f t).0 ≡ ok tt)
        × (transactions (on_function_fail (undo w) f t).1 ≡ [])
        × ((on_function_fail (undo w) f t).1.env
            ≡ (undone_from_newest (undo w) fs (set_undo_state true t)).env)
  rollback_single f fs s t normal idle history all =
      let holds = History-Holds normal idle history in
      let s0 = set_undo_state true t in
      let undone : undo_all (undo w) (t.heap s.next_ref).functions s0
          ≡ (ok tt, undone_from_newest (undo w) fs s0) =
        ap (λ l. undo_all (undo w) l s0) holds.functions_are
        ∙ undo_all-newest_first (undo w) fs s0 all in
      let (returns, none_open, env) =
        on_function_fail_single (undo w) undo-Quiet f s.next_ref t holds.normal holds.open_
          (ap (λ r. r.0) undone) in
      (returns, none_open, env ∙ ap (λ r. r.1.env) undone)

  -- Outside of an undo and with two open transactions of different ids, a failure undoes only the
  -- functions of the newer one, if no undo method raises: the older transaction stays open.
  pub rollback_nested :
      (f inner outer : ℕ) (s : Saga Env V)
      → s.undo_state ≡ false
      → transactions s ≡ inner ∷ outer ∷ []
      → (s.heap inner).id_ ≢ (s.heap outer).id_
      → (undo_all (undo w) (s.heap inner).functions (set_undo_state true s)).0 ≡ ok tt
      → ((on_function_fail (undo w) f s).0 ≡ ok tt)
        × (transactions (on_function_fail (undo w) f s).1 ≡ outer ∷ [])
        × ((on_function_fail (undo w) f s).1.env
            ≡ (undo_all (undo w) (s.heap inner).functions (set_undo_state true s)).1.env)
  rollback_nested = on_function_fail_nested (undo w) undo-Quiet

  abbrev pub NoneComplete : Dict (NodeStatus V) → Type 0
  NoneComplete [] = Unit
  NoneComplete ((_, status) ∷ nodes) = (status.complete ≡ false) × NoneComplete nodes

  undo_nodes_nothing :
      (f : ℕ) (nodes : Dict (NodeStatus V)) (s : Saga Env V)
      → NoneComplete nodes
      → undo_nodes w f nodes s ≡ (ok tt, s)
  unfolding undo_nodes
  undo_nodes_nothing f [] s none_done = refl
  undo_nodes_nothing f ((node, status) ∷ nodes) s none_done =
      let skips : (node == w.hostname || not status.complete) ≡ true =
        ground (arith, none_done.0) in
      rw skips (undo_nodes_nothing f nodes s none_done.1)

  lookup-NoneComplete :
      (k : String) (nodes : Dict (NodeStatus V)) (status : NodeStatus V)
      → NoneComplete nodes
      → lookup k nodes ≡ some status
      → status.complete ≡ false
  unfolding lookup
  lookup-NoneComplete k [] status none_done e = cc
  lookup-NoneComplete k ((j, st) ∷ nodes) status none_done e =
      ground (arith, lookup-NoneComplete k nodes status none_done.1)

  undo_local_nothing :
      (f : ℕ) (s : Saga Env V) → NoneComplete (s.functions f).nodes → undo_local w f s ≡ (ok tt, s)
  unfolding undo_local
  undo_local_nothing f s none_done = elim (Option-cases (lookup w.hostname (s.functions f).nodes)) [
    | inl e ↦ rw (e, undo_local)
    | inr (status, e) ↦
        let idle = lookup-NoneComplete w.hostname (s.functions f).nodes status none_done e in
        let skips : (status.complete
              && w.has_method f w.hostname (undo_function_name w (s.functions f)))
            ≡ false =
          ground (arith, idle) in
        rw (e, undo_local) (rw skips)
  ]

  -- A function that completed on no node is not undone anywhere: nothing at all changes.
  pub undo_nothing :
      (f : ℕ) (s : Saga Env V) → NoneComplete (s.functions f).nodes → undo w f s ≡ (ok tt, s)
  unfolding undo
  undo_nothing f s none_done =
      rw (undo_local_nothing f s none_done) (undo_nodes_nothing f (s.functions f).nodes s none_done)
