-- ===== src/Auth/Repository/Sql.antt =====
-- The tables of services/auth (internal/adapters/postgres/migrations/00001_auth_core.sql) and the
-- statements of internal/adapters/postgres/repositories.go, over the lists of their rows. The CHECK
-- constraints on the text of an address, a password hash and the length of a hash are not
-- modelled: a statement that they refuse is one of the calls that fail.
use icyre.Prelude.{
  ℕ, Bool, true, false, not, ◌&&◌, ◌||◌, Option, none, some, List, [], ◌∷◌, ◌++◌, map, ltb, leb,
  ◌==◌, if◌then◌else◌, any, filter, find?, take,
}
use icyre.Prelude.Sort.{sort_by}
use icyre.Platform.Postgres.{Result, ok, err, fault}
use icyre.Auth.{Error, email_taken, Account, Session, is_none}
use icyre.Prelude.Unicode.{texts_equal}

pub record Tables : Type 0 where
  pub accounts : List Account
  pub sessions : List Session

abbrev pub same_hash : Option ℕ → ℕ → Bool
same_hash none h = false
same_hash (some k) h = k == h

-- INSERT INTO auth.accounts: the key, then accounts_email_key
unfoldable pub insert_account : Account → Tables → Result Error (Unit {0} × Tables)
insert_account a t =
    if any (λ (r : Account). r.id == a.id) t.accounts
    then fault
    else if any (λ (r : Account). texts_equal r.email a.email) t.accounts
    then err email_taken
    else ok (tt, record t { accounts = t.accounts ++ a ∷ [] })

unfoldable pub account_by_email : List ℕ → Tables → Option Account
account_by_email email t = find? (λ r. texts_equal r.email email) t.accounts

unfoldable pub account_by_id : ℕ → Tables → Option Account
account_by_id id t = find? (λ r. r.id == id) t.accounts

-- A new row has neither a previous hash nor a revocation.
unfoldable pub session_row : Session → Session
session_row s = record s { previous_hash = none; revoked_at = none; revoke_reason = none }

-- INSERT INTO auth.sessions: the foreign key, the key and sessions_refresh_hash_key
unfoldable pub insert_session : Session → Tables → Result Error (Unit {0} × Tables)
unfolding session_row
insert_session s t =
    if not (any (λ (r : Account). r.id == s.user_id) t.accounts)
      || any (λ (r : Session). r.id == s.id) t.sessions
      || any (λ (r : Session). r.refresh_hash == s.refresh_hash) t.sessions
    then fault
    else ok (tt, record t { sessions = t.sessions ++ session_row s ∷ [] })

unfoldable pub session_by_id : ℕ → Tables → Option Session
session_by_id id t = find? (λ r. r.id == id) t.sessions

unfoldable pub session_by_refresh_hash : ℕ → Tables → Option Session
session_by_refresh_hash hash t = find? (λ r. r.refresh_hash == hash) t.sessions

-- previous_hash is not unique: a row of the answer
unfoldable pub session_by_previous_hash : ℕ → Tables → Option Session
session_by_previous_hash hash t = find? (λ r. same_hash r.previous_hash hash) t.sessions

-- WHERE id = $1 AND refresh_hash = $3 AND revoked_at IS NULL
unfoldable pub is_current : ℕ → ℕ → Session → Bool
is_current id old r = r.id == id && r.refresh_hash == old && is_none r.revoked_at

unfoldable pub rotated : Session → ℕ → Session → Session
unfolding is_current
rotated s old r =
    if is_current s.id old r
    then record r {
      refresh_hash = s.refresh_hash;
      previous_hash = some old;
      last_used_at = s.last_used_at;
      expires_at = s.expires_at;
    }
    else r

-- UPDATE … SET refresh_hash, with RowsAffected() ≠ 0 for its tag
unfoldable pub rotate_session : Session → ℕ → Tables → Result Error (Bool × Tables)
unfolding rotated is_current
rotate_session s old t =
    if not (any (is_current s.id old) t.sessions)
    then ok (false, t)
    else if any (λ (r : Session). not (r.id == s.id) && r.refresh_hash == s.refresh_hash) t.sessions
    then fault
    else ok (true, record t { sessions = map (rotated s old) t.sessions })

unfoldable pub ended : Session → Session → Session
ended s r =
    if r.id == s.id && is_none r.revoked_at
    then record r { revoked_at = s.revoked_at; revoke_reason = s.revoke_reason }
    else r

-- UPDATE … WHERE id = $1 AND revoked_at IS NULL
unfoldable pub revoke_session_row : Session → Tables → Tables
unfolding ended
revoke_session_row s t = record t { sessions = map (ended s) t.sessions }

abbrev newest_first : Session → Session → Bool
newest_first r s = leb s.created_at r.created_at

unfoldable pub active_sessions : ℕ → ℕ → Tables → List Session
active_sessions user_id now t = take 100 (
    sort_by newest_first (
      filter (λ (r : Session). r.user_id == user_id && is_none r.revoked_at && ltb now r.expires_at)
        t.sessions))
