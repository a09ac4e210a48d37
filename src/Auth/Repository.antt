-- ===== src/Auth/Repository.antt =====
-- services/auth/internal/adapters/postgres/repositories.go: one function for each method of Accounts
-- and Sessions.
pub mod Sql
pub mod WellFormed
pub mod Rotation
use icyre.Prelude.{ℕ, List, if◌then◌else◌}
use icyre.Platform.Postgres.{
  ◌>>=◌, Result, ok, err, fault, Exec, pure, raise, select, update, execute, from_option,
}
use icyre.Platform.Outbox.{Db}
use icyre.Auth.{Error, account_not_found, session_not_found, concurrent_update, Account, Session}
use Sql.{
  Tables, insert_account, account_by_email, account_by_id, insert_session, session_by_id,
  session_by_refresh_hash, session_by_previous_hash, rotate_session, revoke_session_row,
  active_sessions,
}

abbrev pub Repo : Type 0 → Type 0 → Type 0 → Type 0
Repo M X A = Exec (Db Tables M) X Error A

module _ {M A : Type 0} where
  abbrev pub on_tables : Db Tables M → Result Error (A × Tables) → Result Error (A × Db Tables M)
  on_tables d (ok (a, t)) = ok (a, record d { tables = t })
  on_tables d (err e) = err e
  on_tables d fault = fault

module _ {M X : Type 0} where
  unfoldable pub create_account : Account → Repo M X (Unit {0})
  create_account a = execute (λ d. on_tables d (insert_account a d.tables))

  unfoldable pub by_email : List ℕ → Repo M X Account
  by_email email = do
    found ← select (λ d. account_by_email email d.tables)
    from_option found (raise account_not_found)

  unfoldable pub by_id : ℕ → Repo M X Account
  by_id id = do
    found ← select (λ d. account_by_id id d.tables)
    from_option found (raise account_not_found)

  unfoldable pub create_session : Session → Repo M X (Unit {0})
  create_session s = execute (λ d. on_tables d (insert_session s d.tables))

  unfoldable pub get_session : ℕ → Repo M X Session
  get_session id = do
    found ← select (λ d. session_by_id id d.tables)
    from_option found (raise session_not_found)

  unfoldable pub by_refresh_hash : ℕ → Repo M X Session
  by_refresh_hash hash = do
    found ← select (λ d. session_by_refresh_hash hash d.tables)
    from_option found (raise session_not_found)

  unfoldable pub by_previous_hash : ℕ → Repo M X Session
  by_previous_hash hash = do
    found ← select (λ d. session_by_previous_hash hash d.tables)
    from_option found (raise session_not_found)

  -- A compare-and-swap on refresh_hash
  unfoldable pub save_rotation : Session → ℕ → Repo M X (Unit {0})
  save_rotation s old = do
    there ← execute (λ d. on_tables d (rotate_session s old d.tables))
    if there then pure tt else raise concurrent_update

  unfoldable pub save_revocation : Session → Repo M X (Unit {0})
  save_revocation s = update (λ d. record d { tables = revoke_session_row s d.tables }) (λ _. tt)

  unfoldable pub list_active : ℕ → ℕ → Repo M X (List Session)
  list_active user_id now = select (λ d. active_sessions user_id now d.tables)
