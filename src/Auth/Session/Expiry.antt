-- ===== src/Auth/Session/Expiry.antt =====
-- How long a session lives: mcvirt/auth/session.py.
use mcvirt.Base.{ℕ, ◌+◌, ◌≤◌, String, ◌≡◌, refl, Bool, true, false, none, some, ltb, arith, eq_refl}
use mcvirt.Base.Dict.{lookup, insert, delete, dict_laws}
use mcvirt.Base.Exec.{Result, ok, err}
use mcvirt.Exceptions.{Exception, authentication_error}
use mcvirt.Auth.Session.{
  SessionInfo, Sessions, get_timeout, is_valid, renew, new_session_info, authenticate_user,
  authenticate_session,
}

-- The clock moves on.
abbrev pub later : ℕ → Sessions → Sessions
later seconds s = record s { time = s.time + seconds }

-- What a request with a session id gets, by whether the session is still valid.
abbrev pub outcome : Bool → String → Result Exception String
outcome true username = ok username
outcome false username = err authentication_error

-- What `authenticate_session` does to a session of the given user that it finds.
pub authenticate_valid :
    (username session : String) (s : Sessions) (info : SessionInfo)
    → lookup session s.user_sessions ≡ some info
    → info.username ≡ username
    → is_valid s info ≡ true
    → authenticate_session username session s
      ≡ (ok username, record s { user_sessions = insert session (renew s info) s.user_sessions })
unfolding authenticate_session
authenticate_valid username session s info found named valid =
    rw found (rw named (rw (eq_refl, valid)))

pub authenticate_expired :
    (username session : String) (s : Sessions) (info : SessionInfo)
    → lookup session s.user_sessions ≡ some info
    → info.username ≡ username
    → is_valid s info ≡ false
    → authenticate_session username session s
      ≡ (err authentication_error, record s { user_sessions = delete session s.user_sessions })
unfolding authenticate_session
authenticate_expired username session s info found named late =
    rw found (rw named (rw (eq_refl, late)))

-- After a login of a user whose class expires sessions, a request with the new session id that comes
-- `n` seconds later succeeds exactly while `n` is less than the configured timeout; one that comes
-- later is refused, and the session is then gone.
pub login_lifetime :
    (username session_id : String) (s : Sessions) (n : ℕ)
    → ((authenticate_session username session_id
          (later n (authenticate_user (some true) username session_id s).1)).0
        ≡ outcome (ltb n (get_timeout s)) username)
      × (get_timeout s ≤ n
          → lookup session_id
              (authenticate_session username session_id
                (later n (authenticate_user (some true) username session_id s).1)).1.user_sessions
            ≡ none)
unfolding authenticate_user
login_lifetime username session_id s n = (
  unfold authenticate_session in simp (dict_laws, eq_refl) (ground arith),
  λ late.
      rw
        (authenticate_expired username session_id
          (later n (authenticate_user (some true) username session_id s).1)
          (new_session_info s username true) (simp (dict_laws, eq_refl))
          (unfold new_session_info in refl) (unfold is_valid new_session_info in ground arith))
        (simp (dict_laws, eq_refl)),
)
