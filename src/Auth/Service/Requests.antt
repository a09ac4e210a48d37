-- ===== src/Auth/Service/Requests.antt =====
-- The requests to services/auth that change something, each with the clock and what the generators
-- of ids and tokens give it.
use icyre.Prelude.{ℕ, Bool, true, false, Option, List}
use icyre.Platform.Postgres.{pure, ◌>>◌, Pgx}
use icyre.Auth.Service.{Deps, Minted, Service, register, login, refresh, log_out, revoke_session}

pub data Request : Type 0 where
  -- e-mail, password and user agent
  register_request : List ℕ → List ℕ → List ℕ → Option ℕ → Option Minted → Option ℕ → Request
  login_request : List ℕ → List ℕ → List ℕ → Option Minted → Option ℕ → Request
  logout_request : List ℕ → Request
  revoke_request : ℕ → ℕ → Request
  refresh_request : List ℕ → Option Minted → Request

abbrev pub is_refresh : Request → Bool
is_refresh (refresh_request token minted) = true
is_refresh _ = false

module _ {X : Type 0} (d : Deps X) (pgx : Pgx) where
  unfoldable pub handle : ℕ → Request → Service X (Unit {0})
  handle now (register_request email password agent account_id minted session_id) =
      register d pgx email password agent now account_id minted session_id >> pure tt
  handle now (login_request email password agent minted session_id) =
      login d pgx email password agent now minted session_id >> pure tt
  handle now (logout_request token) = log_out d pgx token now
  handle now (revoke_request user_id session_id) = revoke_session d pgx user_id session_id now
  handle now (refresh_request token minted) = refresh d pgx token now minted >> pure tt
