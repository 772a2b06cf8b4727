-- ===== src/Rpc/Function/Run.antt =====
-- What a call of an exposed method leaves behind, however it ends: mcvirt/rpc/expose_method.py.
use mcvirt.Base.{
  ℕ, ◌+◌, String, ◌≡◌, ◌≢◌, refl, ap, false, Option, none, some, if◌then◌else◌, Option-cases, inl,
  inr, eq_refl,
}
use mcvirt.Base.Dict.{lookup, insert, dict_laws}
use mcvirt.Base.Exec.{Result, ok, err, and_then}
use mcvirt.Exceptions.{Exception, key_error}
use mcvirt.Auth.Session.{SessionInfo, Sessions, disable, get_timeout, renew}
use mcvirt.Rpc.State.{Saga, World}
use mcvirt.Rpc.Transaction.{register_function}
use mcvirt.Rpc.Function.{
  Response, run_nodes, change_found, change_session, pause_user_session, reset_user_session,
  get_response_data, reset_and_raise, handle_failure, finish_run, run,
}

change_found_only :
    {Env V : Type 0} (found : Option SessionInfo) (id : String)
    (g : Sessions → SessionInfo → SessionInfo) (s : Saga Env V) (e : Exception)
    → (change_found found id g s).0 ≡ err e
    → e ≡ key_error
unfolding change_found
change_found_only none id g s e raised = cc
change_found_only (some info) id g s e raised = cc

change_session_only :
    {Env V : Type 0} (session : Option String) (g : Sessions → SessionInfo → SessionInfo)
    (s : Saga Env V) (e : Exception)
    → (change_session session g s).0 ≡ err e
    → e ≡ key_error
unfolding change_session change_found
change_session_only none g s e raised = cc
change_session_only (some id) g s e raised =
    change_found_only (lookup id s.sessions.user_sessions) id g s e raised

module _ {Env V : Type 0} (w : World Env V) (id : String)
    (in_session : w.session_id ≡ some id) where
  -- The session is there, with the expiry time that a renewal now gives it.
  abbrev pub IsRenewed : Saga Env V → Type 0
  IsRenewed s =
      (info : SessionInfo) × (lookup id s.sessions.user_sessions ≡ some info)
      × (info.expires
          ≡ (if info.disabled then none else some (s.sessions.time + get_timeout s.sessions)))

  abbrev pub RenewedUnlessMissing : {A : Type 0} → Result Exception A × Saga Env V → Type 0
  RenewedUnlessMissing r = (r.0 ≢ err key_error) → IsRenewed r.1

  reset_missing :
      (s : Saga Env V)
      → lookup id s.sessions.user_sessions ≡ none
      → reset_user_session w s ≡ (err key_error, s)
  unfolding reset_user_session change_session
  reset_missing s e = rw in_session (rw e)

  reset_found :
      (s : Saga Env V) (info : SessionInfo)
      → lookup id s.sessions.user_sessions ≡ some info
      → reset_user_session w s ≡ (
        ok tt,
        record s {
          sessions = record (s.sessions) {
            user_sessions = insert id (renew s.sessions info) s.sessions.user_sessions;
          };
        },
      )
  unfolding reset_user_session change_session
  reset_found s info e = rw in_session (rw e)

  -- A last step that renews the session.
  reset_last :
      {A : Type 0} (a : Saga Env V → Result Exception A) (s : Saga Env V)
      → RenewedUnlessMissing (and_then (reset_user_session w s) (λ _ t. (a t, t)))
  reset_last a s = elim (Option-cases (lookup id s.sessions.user_sessions)) [
    | inl e ↦ λ h. absurd (h (rw (reset_missing s e)))
    | inr (info, e) ↦ λ h.
        rw (reset_found s info e)
          (renew s.sessions info, simp (dict_laws, eq_refl), unfold renew in refl)
  ]

  reset_and_raise-Renewed :
      (exc : Exception) (r : Result Exception (Unit {0}) × Saga Env V)
      → RenewedUnlessMissing (reset_and_raise w exc r)
  unfolding reset_and_raise
  reset_and_raise-Renewed exc (ok _, s) = reset_last (λ _. err exc) s
  reset_and_raise-Renewed exc (err exc2, s) = reset_last (λ _. err exc2) s

  finish_run-Renewed :
      (f : ℕ) (r : Result Exception (Unit {0}) × Saga Env V)
      → RenewedUnlessMissing (finish_run w f r)
  unfolding finish_run handle_failure
  finish_run-Renewed f (ok _, s) = reset_last (λ t. ok (get_response_data w (t.functions f))) s
  finish_run-Renewed f (err exc, s) = reset_and_raise-Renewed exc _

  start_then :
      (r : Result Exception (Unit {0}) × Saga Env V)
      (k : Saga Env V → Result Exception (Response V) × Saga Env V)
      → ((e : Exception) → r.0 ≡ err e → e ≡ key_error)
      → ((t : Saga Env V) → RenewedUnlessMissing (k t))
      → RenewedUnlessMissing (and_then r (λ _ t. k t))
  start_then (ok _, s) k only renewed = renewed s
  start_then (err e, s) k only renewed = λ h. absurd (h (ap err (only e refl)))

  pause_only : (s : Saga Env V) (e : Exception) → (pause_user_session w s).0 ≡ err e → e ≡ key_error
  unfolding pause_user_session
  pause_only s e raised = change_session_only w.session_id (λ _. disable) s e raised

  -- Whatever the method does, and whether it returns, raises or is rolled back, the session of the
  -- request has a full timeout ahead of it when the call ends: it is in the session table with an
  -- expiry that is the configured timeout from the present time, or with none if its expiry is
  -- disabled. The exceptions are a call whose task was cancelled, and one that
  -- ends with a KeyError, as when the session has been deleted.
  pub run_renews_session :
      (f : ℕ) (s : Saga Env V)
      → w.task_cancelled s.env ≡ false
      → (run w f s).0 ≢ err key_error
      → IsRenewed (run w f s).1
  unfolding run
  run_renews_session f s goes ok_ = renewed ok_
    where
      renewed : RenewedUnlessMissing (run w f s)
      renewed = rw goes (
          start_then (pause_user_session w s)
            (λ s1.
              finish_run w f
                (run_nodes w f (if w.is_cluster_master then register_function f s1 else s1)))
            (pause_only s) (λ s1. finish_run-Renewed f _))
