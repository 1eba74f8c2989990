-- ===== src/Web/App/Auth.antt =====
-- web/src/App.tsx: the check of the login, and what is rendered before it and after it.
use raceway.Prelude.{Bool, true, false, not, ◌&&◌, if◌then◌else◌}

pub record Auth : Type 0 where
  pub auth_checked : Bool
  pub authenticated : Bool
  pub auth_required : Bool

abbrev pub unchecked : Auth
unchecked = record { auth_checked = false; authenticated = false; auth_required = false }

-- The answer of /auth/check, or a failure to get it.
pub data AuthAnswer : Type 0 where
  answered : (authenticated auth_required : Bool) → AuthAnswer
  failed : AuthAnswer

-- checkAuth, from the answer
abbrev pub check_auth : AuthAnswer → Auth → Auth
check_auth (answered authenticated auth_required) s = record {
  auth_checked = true;
  authenticated = authenticated;
  auth_required = auth_required;
}
check_auth failed s = record { auth_checked = true; authenticated = true; auth_required = false }

abbrev pub handle_login : Auth → Auth
handle_login s = record s { authenticated = true }

pub data Screen : Type 0 where
  spinner login application : Screen

abbrev pub screen : Auth → Screen
screen s =
    if not s.auth_checked
    then spinner
    else if s.auth_required && not s.authenticated
    then login
    else application
