-- ===== src/Rpc/Transaction/Rollback.antt =====
-- What `on_function_fail` of mcvirt/rpc/expose_method.py leaves behind, and whom it undoes.
use mcvirt.Base.{
  ℕ, zero, suc, ◌≡◌, refl, sym, ap, ◌∙◌, ◌⊎◌, inl, inr, Bool, true, false, none, some, List, [],
  ◌∷◌, nat_eq, if◌then◌else◌, arith, Bool-cases, Option-cases,
}
use mcvirt.Base.Lists.{length, get_elem?}
use mcvirt.Base.Exec.{Result, ok, err, Exec, and_then, and_then-eq_ok}
use mcvirt.Exceptions.{Exception}
use mcvirt.Rpc.State.{Saga, transactions}
use mcvirt.Rpc.Transaction.{
  in_transaction, get_last, clear_functions, clear_all, reset_transactions, remove_transaction,
  complete_above, set_complete, each_transaction, for_transactions, set_undo_state, abandon,
  finish_rollback, undo_all, roll_back, on_function_fail,
}
use mcvirt.Rpc.Transaction.Invariant.{
  IsWellFormed, set_complete-IsWellFormed, set_complete-ok, get_elem?_after_last, get_last_id,
  get_last-some,
}

-- An action that leaves the open transactions well formed.
abbrev pub Keeps : {Env V A : Type 0} → Exec Exception (Saga Env V) A → Type 0
Keeps {Env} {V} m = (s : Saga Env V) → IsWellFormed s → IsWellFormed (m s).1

get_elem?-cons :
    {A : Type 0} (l : List A) (i : ℕ) (x : A)
    → get_elem? l i ≡ some x
    → (y : A) × (r : List A) × (l ≡ y ∷ r)
get_elem?-cons [] i x e = cc
get_elem?-cons (y ∷ r) i x e = (y, r, refl)

module _ {Env V : Type 0} where
  set_undo_state-IsWellFormed :
      (b : Bool) (s : Saga Env V) → IsWellFormed s → IsWellFormed (set_undo_state b s)
  unfolding set_undo_state
  set_undo_state-IsWellFormed b s wf = record { stack = wf.stack; allocated = wf.allocated }

  and_then-Keeps :
      {A B : Type 0} (r : Result Exception A × Saga Env V) (f : A → Exec Exception (Saga Env V) B)
      → IsWellFormed r.1
      → ((a : A) → Keeps (f a))
      → IsWellFormed (and_then r f).1
  and_then-Keeps (ok a, s) f wf keep = keep a s wf
  and_then-Keeps (err e, s) f wf keep = wf

  each_transaction-Keeps :
      (body : ℕ → Exec Exception (Saga Env V) (Unit {0}))
      → ((ref : ℕ) → Keeps (body ref))
      → (fuel list i : ℕ) → Keeps (each_transaction body fuel list i)
  unfolding each_transaction
  each_transaction-Keeps body keep zero list i s wf = wf
  each_transaction-Keeps body keep (suc fuel) list i s wf =
      elim (Option-cases (get_elem? (s.lists list) i)) [
        | inl e ↦ rw (e, each_transaction) wf
        | inr (ref, e) ↦
            rw (e, each_transaction)
              (and_then-Keeps (body ref s) (λ _. each_transaction body fuel list (suc i))
                (keep ref s wf) (λ _. each_transaction-Keeps body keep fuel list (suc i)))
      ]

  for_transactions-Keeps :
      (body : ℕ → Exec Exception (Saga Env V) (Unit {0}))
      → ((ref : ℕ) → Keeps (body ref))
      → Keeps (for_transactions body)
  unfolding for_transactions
  for_transactions-Keeps body keep s wf =
      each_transaction-Keeps body keep (length (transactions s)) s.current 0 s wf

  clear_all-lists :
      (refs : List ℕ) (s : Saga Env V)
      → ((clear_all refs s).lists ≡ s.lists) × ((clear_all refs s).current ≡ s.current)
  unfolding clear_all clear_functions
  clear_all-lists [] s = (refl, refl)
  clear_all-lists (ref ∷ refs) s = clear_all-lists refs (clear_functions ref s)

  remove_transaction-current :
      (ref : ℕ) (s : Saga Env V)
      → (remove_transaction ref (clear_functions ref s)).current ≡ s.current
  unfolding remove_transaction clear_functions
  remove_transaction-current ref s = ground arith

  -- What completing a transaction does to the list object that a loop runs over.
  abbrev Moves : ℕ → Saga Env V → Saga Env V → Type 0
  Moves ref s s' =
      (s'.current ≡ s.current) ⊎ (((s.heap ref).id_ ≡ 0) × (s'.lists s.current ≡ s.lists s.current))

  set_complete-Moves :
      (ref x : ℕ) (l : List ℕ) (s : Saga Env V)
      → IsWellFormed s
      → transactions s ≡ x ∷ l
      → Moves ref s (set_complete ref s).1
  unfolding set_complete complete_above reset_transactions
  set_complete-Moves ref x l s wf open_ =
      let (last, e) = get_last-some x l in
      let e' : get_last (transactions s) ≡ some last = ap get_last open_ ∙ e in
      let zero_id = get_last_id s.heap (transactions s) last wf.stack e' in
      rw e' (elim (Bool-cases (nat_eq (s.heap ref).id_ (s.heap last).id_)) [
        | inl oldest ↦
            rw oldest (inr (ground arith, ground (arith, clear_all-lists (transactions s) s)))
        | inr other ↦ rw other (inl (remove_transaction-current ref s))
      ])

  -- The loop either runs over the list that is still bound, or has come to its end.
  abbrev Runs : ℕ → ℕ → Saga Env V → Type 0
  Runs list i s = (list ≡ s.current) ⊎ (get_elem? (s.lists list) i ≡ none)

  complete_all-ok :
      (fuel list i : ℕ) (s : Saga Env V)
      → IsWellFormed s
      → Runs list i s
      → (each_transaction set_complete fuel list i s).0 ≡ ok tt
  unfolding each_transaction
  complete_all-ok zero list i s wf runs = refl
  complete_all-ok (suc fuel) list i s wf (inr ended) = rw (ended, each_transaction)
  complete_all-ok (suc fuel) list i s wf (inl bound) =
      elim (Option-cases (get_elem? (s.lists list) i)) [
        | inl e ↦ rw (e, each_transaction)
        | inr (ref, e) ↦
            let here : get_elem? (transactions s) i ≡ some ref = rw (← bound) e in
            let (x, l, open_) = get_elem?-cons (transactions s) i ref here in
            rw (e, each_transaction)
              (ap (λ (o : Result Exception (Unit {0}) × Saga Env V). o.0)
                  (and_then-eq_ok (set_complete ref s)
                    (λ _. each_transaction set_complete fuel list (suc i)) tt
                    (set_complete-ok ref x s l wf open_))
                ∙ complete_all-ok fuel list (suc i) (set_complete ref s).1
                    (set_complete-IsWellFormed ref s wf)
                    (elim (set_complete-Moves ref x l s wf open_) [
                      | inl same ↦ inl (bound ∙ sym same)
                      | inr (oldest, kept) ↦ inr (
                          rw bound (
                            rw kept (
                              get_elem?_after_last s.heap (transactions s) i ref wf.stack here
                                oldest)))
                    ]))
      ]

  -- The handler for a failed undo always gets to its end: it raises the exception of the undo, with
  -- the undo state reset.
  abandon_lem :
      (exc : Exception) (s : Saga Env V)
      → IsWellFormed s
      → ((abandon exc s).0 ≡ err exc)
        × ((abandon exc s).1.undo_state ≡ false)
        × IsWellFormed (abandon exc s).1
  unfolding abandon
  abandon_lem exc s wf =
      let done : (for_transactions set_complete s).0 ≡ ok tt =
        unfold for_transactions in
        complete_all-ok (length (transactions s)) s.current 0 s wf (inl refl) in
      rw
        (and_then-eq_ok (for_transactions set_complete s)
          (λ _ s'. (err exc, set_undo_state false s')) tt done)
        (
          refl,
          unfold set_undo_state in refl,
          set_undo_state-IsWellFormed false _
              (for_transactions-Keeps set_complete set_complete-IsWellFormed s wf),
        )

  finish_rollback_lem :
      (r : Result Exception (Unit {0}) × Saga Env V)
      → IsWellFormed r.1
      → ((finish_rollback r).0 ≡ r.0)
        × ((finish_rollback r).1.undo_state ≡ false)
        × IsWellFormed (finish_rollback r).1
  unfolding finish_rollback
  finish_rollback_lem (ok tt, s) wf =
      (refl, unfold set_undo_state in refl, set_undo_state-IsWellFormed false s wf)
  finish_rollback_lem (err exc, s) wf = abandon_lem exc s wf

module _ {Env V : Type 0} (undo : ℕ → Exec Exception (Saga Env V) (Unit {0}))
    (undo-Keeps : (function : ℕ) → Keeps (undo function)) where
  undo_all-Keeps : (functions : List ℕ) → Keeps (undo_all undo functions)
  unfolding undo_all
  undo_all-Keeps [] s wf = wf
  undo_all-Keeps (function ∷ functions) s wf =
      and_then-Keeps (undo function s) (λ _. undo_all undo functions) (undo-Keeps function s wf)
        (λ _. undo_all-Keeps functions)

  roll_back-Keeps : (ref : ℕ) → Keeps (roll_back undo ref)
  unfolding roll_back
  roll_back-Keeps ref s wf =
      and_then-Keeps (undo_all undo (s.heap ref).functions s) (λ _. set_complete ref)
        (undo_all-Keeps (s.heap ref).functions s wf) (λ _. set_complete-IsWellFormed ref)

  -- However the undos end, `on_function_fail` leaves the open transactions well formed, and outside
  -- of an undo it leaves the undo state reset.
  pub on_function_fail_resets :
      (function : ℕ) (s : Saga Env V)
      → IsWellFormed s
      → s.undo_state ≡ false
      → IsWellFormed (on_function_fail undo function s).1
        × ((on_function_fail undo function s).1.undo_state ≡ false)
  unfolding on_function_fail
  on_function_fail_resets function s wf idle =
      let s' = set_undo_state true s in
      let wf' = set_undo_state-IsWellFormed true s wf in
      let (_, reset, kept) = finish_rollback_lem _ (started s' wf') in rw idle (kept, reset)
    where
      started :
          (t : Saga Env V)
          → IsWellFormed t
          → IsWellFormed
              (if in_transaction s then for_transactions (roll_back undo) t else undo function t).1
      started t wt = elim (Bool-cases (in_transaction s)) [
        | inl open_ ↦ rw open_ (for_transactions-Keeps (roll_back undo) roll_back-Keeps t wt)
        | inr closed ↦ rw closed (undo-Keeps function t wt)
      ]
