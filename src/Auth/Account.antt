-- ===== src/Auth/Account.antt =====
-- The user that the server describes (frontend/types/auth.type.ts), and its copy in localStorage.
use webbuilder.Base.{ℕ, String, Bool, Option, List, some, if◌then◌else◌}
use webbuilder.Base.Exec.{Exec, ok, err}
use webbuilder.Json.{Json}
use webbuilder.Auth.Session.{Browser}

-- The amounts of `cost_allowance` are shown and not computed with.
pub record UserData : Type 0 where
  pub id : ℕ
  pub email : String
  pub name : String
  pub tokens_remaining : ℕ
  pub tokens_reset_at : Option String
  pub credits_unlimited : Option Bool
  pub bio : Option String
  pub email_verified : Option Bool
  pub created_at : Option String
  pub providers : Option (List String)
  pub cost_allowance : Option Json

pub record Providers : Type 0 where
  pub google : Bool
  pub github : Bool

pub record AuthOptions : Type 0 where
  pub providers : Providers
  pub email_verification : Bool

-- `localStorage.setItem("user_data", …)`
unfoldable pub set_user_data : (String → Bool) → String → Exec Browser (Unit {0})
set_user_data accepts v b =
    if accepts v
    then (ok tt, record b { user_data = some v })
    else (err "The quota has been exceeded.", b)
