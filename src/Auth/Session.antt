-- ===== src/Auth/Session.antt =====
-- mcvirt/auth/session.py: the sessions that the daemon keeps, by session id.
-- Time is a number of seconds that a parameter or the state gives; `expires = False` is `none`.
pub mod Expiry
use mcvirt.Base.{
  ℕ, ◌+◌, ◌*◌, String, Bool, true, false, ◌&&◌, not, Option, none, some, ltb, ◌==◌, if◌then◌else◌,
}
use mcvirt.Base.Dict.{Dict, lookup, insert, delete}
use mcvirt.Base.Exec.{Result, ok, err}
use mcvirt.Exceptions.{Exception, authentication_error}

pub record SessionInfo : Type 0 where
  pub username : String
  -- expiry is switched off for this kind of user
  pub disabled : Bool
  pub expires : Option ℕ

-- The class attribute `USER_SESSIONS`, the clock and the configured timeout, in minutes.
pub record Sessions : Type 0 where
  pub user_sessions : Dict SessionInfo
  pub time : ℕ
  pub session_timeout : ℕ

unfoldable pub get_timeout : Sessions → ℕ
get_timeout s = s.session_timeout * 60

unfoldable pub is_valid : Sessions → SessionInfo → Bool
is_valid s info = elim info.expires [ none ↦ true | some expires ↦ ltb s.time expires ]

unfoldable pub renew : Sessions → SessionInfo → SessionInfo
unfolding get_timeout
renew s info = record info {
  expires = if info.disabled then none else some (s.time + get_timeout s);
}

unfoldable pub disable : SessionInfo → SessionInfo
disable info = record info { expires = none }

-- SessionInfo.__init__; `expire_session` is the user class's EXPIRE_SESSION.
unfoldable pub new_session_info : Sessions → String → Bool → SessionInfo
unfolding renew
new_session_info s username expire_session =
    if expire_session
    then renew s (record { username = username; disabled = false; expires = none })
    else record { username = username; disabled = true; expires = none }

-- Stores a session under the generated id, for a user whose credentials the user factory accepted:
-- `user` is what `user_factory.authenticate` returned, if it returned a user, as the EXPIRE_SESSION
-- of his class.
unfoldable pub authenticate_user :
    Option Bool → String → String → Sessions → Result Exception String × Sessions
unfolding new_session_info
authenticate_user (some expire_session) username session_id s = (
  ok session_id,
  record s {
    user_sessions = insert session_id (new_session_info s username expire_session) s.user_sessions;
  },
)
authenticate_user none username session_id s = (err authentication_error, s)

-- The branches of `authenticate_session` once the session has been looked up.
authenticate_found :
    Option SessionInfo → String → String → Sessions → Result Exception String × Sessions
unfolding renew is_valid
authenticate_found none username session s = (err authentication_error, s)
authenticate_found (some info) username session s =
    if info.username == username
    then (if is_valid s info
        then (
          ok username,
          record s { user_sessions = insert session (renew s info) s.user_sessions },
        )
        else (
          err authentication_error,
          record s { user_sessions = delete session s.user_sessions },
        ))
    else (err authentication_error, s)

-- Returns the name of the user, whose object the user factory then makes.
unfoldable pub authenticate_session :
    String → String → Sessions → Result Exception String × Sessions
unfolding authenticate_found
authenticate_session username session s =
    authenticate_found (lookup session s.user_sessions) username session s
