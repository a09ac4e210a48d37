-- ===== src/Auth/Service.antt =====
-- services/auth/internal/application/service.go, with the outbox of
-- services/auth/internal/adapters/kafka/publisher.go.
--
-- `Deps` holds the ports whose adapters are not modelled; a call of Redis changes `X` and may fail.
-- A reading of the clock, a new UUID and a new token are arguments, `none` where crypto/rand fails.
pub mod Requests
pub mod Atomicity
pub mod Refreshed
pub mod Started
pub mod SignedIn
use Prim.Native.String.{String}
use icyre.Prelude.{
  ℕ, Bool, true, false, not, Option, none, some, List, [], ◌∷◌, ◌==◌, if◌then◌else◌,
}
use icyre.Platform.Postgres.{
  ◌>>=◌, Result, ok, err, fault, Exec, pure, raise, broken, select, lift, reach, caught, ◌>>◌, Pgx,
  pool, in_tx,
}
use icyre.Platform.Outbox.{Db, write}
use icyre.Auth.{
  Error, account_not_found, session_not_found, session_inactive, invalid_credentials, refresh_reuse,
  invalid_refresh, too_many_attempts, Reason, logout, revoked, token_reuse, Account, Session, Mail,
  normalize_email, validate_credentials, new_account, new_session, active, rotate, revoke, Event,
  user_registered, session_created, session_revoked,
}
use icyre.Auth.Repository
use icyre.Auth.Repository.Sql.{Tables}

-- PasswordHasher with the dummy hash of New, TokenIssuer, RefreshTokens.Hash, LoginThrottle and
-- Revocations. `none` is an error.
pub record Deps (X : Type 0) : Type 0 where
  pub mail : Mail
  pub hash_password : List ℕ → Option ℕ
  pub verify : List ℕ → ℕ → Option Bool
  pub dummy_hash : ℕ
  pub issue : Account → ℕ → ℕ → Option ℕ
  pub hash_token : List ℕ → ℕ
  pub allow : List ℕ → X → Option Bool × X
  pub failed : List ℕ → X → Unit {0} × X
  pub reset : List ℕ → X → Unit {0} × X
  pub revoke_access : ℕ → X → Unit {0} × X
  pub session_ttl : ℕ

pub record Minted : Type 0 where
  pub token : List ℕ
  pub hash : ℕ

pub record Granted : Type 0 where
  pub account : Account
  pub session_id : ℕ
  pub access : ℕ
  pub refresh_token : List ℕ
  pub refresh_until : ℕ

abbrev pub outbox_table : String
outbox_table = "auth.outbox"

abbrev pub Service : Type 0 → Type 0 → Type 0
Service X A = Exec (Db Tables Event) X Error A

abbrev pub or_fault : {A : Type 0} → Option A → Result Error A
or_fault none = fault
or_fault (some a) = ok a

-- errors.Is(err, domain.ErrSessionNotFound)
abbrev pub is_session_not_found : Error → Bool
is_session_not_found session_not_found = true
is_session_not_found _ = false

abbrev pub is_account_not_found : Error → Bool
is_account_not_found account_not_found = true
is_account_not_found _ = false

-- An error of the throttle lets the attempt pass.
abbrev pub is_refused : Option Bool → Bool
is_refused none = false
is_refused (some allowed) = not allowed

module _ {X : Type 0} where
  unfoldable pub record_events : List Event → Service X (Unit {0})
  record_events es = do select (λ _. tt {0}); write outbox_table es

module _ {X : Type 0} (d : Deps X) (pgx : Pgx) where
  unfoldable pub start_session :
      Account → List ℕ → ℕ → Option Minted → Option ℕ → Service X (Granted × Session)
  start_session acc agent now minted new_id = do
    m ← lift (or_fault minted)
    id ← lift (or_fault new_id)
    let sess : Session = new_session id acc.id m.hash agent now d.session_ttl
    Repository.create_session sess
    access ← lift (or_fault (d.issue acc sess.id now))
    pure (
      record {
        account = acc;
        session_id = sess.id;
        access = access;
        refresh_token = m.token;
        refresh_until = sess.expires_at;
      },
      sess,
    )

  unfoldable pub register_tx : Account → List ℕ → ℕ → Option Minted → Option ℕ → Service X Granted
  unfolding start_session record_events
  register_tx acc agent now minted session_id = do
    Repository.create_account acc
    (res, sess) ← start_session acc agent now minted session_id
    record_events (user_registered acc ∷ session_created sess ∷ [])
    pure res

  unfoldable pub register :
      List ℕ → List ℕ → List ℕ → ℕ → Option ℕ → Option Minted → Option ℕ → Service X Granted
  unfolding register_tx
  register email password agent now account_id minted session_id = do
    let address : List ℕ = normalize_email d.mail email
    lift (validate_credentials d.mail address password)
    hash ← lift (or_fault (d.hash_password password))
    id ← lift (or_fault account_id)
    in_tx pgx pool λ _. register_tx (new_account id address hash now) agent now minted session_id

  unfoldable pub sign_in : Account → List ℕ → ℕ → Option Minted → Option ℕ → Service X Granted
  unfolding start_session record_events
  sign_in acc agent now minted session_id = in_tx pgx pool λ _. do
    (res, sess) ← start_session acc agent now minted session_id
    record_events (session_created sess ∷ [])
    pure res

  -- What ByEmail gives Login: an account, or none with the dummy hash.
  abbrev pub known : Result Error Account → Service X (Option Account)
  known (ok acc) = pure (some acc)
  known (err e) = if is_account_not_found e then pure none else raise e
  known fault = broken

  abbrev pub hash_of : Option Account → ℕ
  hash_of none = d.dummy_hash
  hash_of (some acc) = acc.password_hash

  unfoldable pub reject : List ℕ → Service X Granted
  reject email = do reach (d.failed email); raise invalid_credentials

  unfoldable pub checked :
      Option Account → Bool → List ℕ → List ℕ → ℕ → Option Minted → Option ℕ → Service X Granted
  unfolding reject sign_in
  checked none match email agent now minted session_id = reject email
  checked (some acc) false email agent now minted session_id = reject email
  checked (some acc) true email agent now minted session_id =
      reach (d.reset email) >> sign_in acc agent now minted session_id

  unfoldable pub login_allowed :
      List ℕ → List ℕ → List ℕ → ℕ → Option Minted → Option ℕ → Service X Granted
  unfolding checked
  login_allowed email password agent now minted session_id = do
    found ← caught (Repository.by_email email)
    acc ← known found
    match ← lift (or_fault (d.verify password (hash_of acc)))
    checked acc match email agent now minted session_id

  unfoldable pub login : List ℕ → List ℕ → List ℕ → ℕ → Option Minted → Option ℕ → Service X Granted
  unfolding login_allowed
  login email password agent now minted session_id = do
    let address : List ℕ = normalize_email d.mail email
    answer ← reach (d.allow address)
    if is_refused answer
        then raise too_many_attempts
        else login_allowed address password agent now minted session_id

  unfoldable pub end_as : Option Session → Service X (Unit {0})
  unfolding record_events
  end_as none = pure tt
  end_as (some s) = do
    in_tx pgx pool λ _. do Repository.save_revocation s; record_events (session_revoked s ∷ [])
    reach (d.revoke_access s.id)

  -- Service.revoke
  unfoldable pub end_session : Session → Reason → ℕ → Service X (Unit {0})
  unfolding end_as
  end_session s reason now = end_as (revoke s reason now)

  unfoldable pub reused : Result Error Session → ℕ → Service X Granted
  unfolding end_session
  reused (ok s) now = end_session s token_reuse now >> raise refresh_reuse
  reused (err e) now = raise invalid_refresh
  reused fault now = raise invalid_refresh

  unfoldable pub exchange : Session → ℕ → ℕ → Option Minted → Service X Granted
  exchange s old now minted = if not (active s now) then raise session_inactive else do
    m ← lift (or_fault minted)
    s' ← lift (rotate s m.hash now d.session_ttl)
    Repository.save_rotation s' old
    acc ← Repository.by_id s'.user_id
    access ← lift (or_fault (d.issue acc s'.id now))
    pure (record {
      account = acc;
      session_id = s'.id;
      access = access;
      refresh_token = m.token;
      refresh_until = s'.expires_at;
    })

  unfoldable pub refresh_as : Result Error Session → ℕ → ℕ → Option Minted → Service X Granted
  unfolding reused exchange
  refresh_as (ok s) old now minted = exchange s old now minted
  refresh_as (err e) old now minted =
      if is_session_not_found e
      then (do found ← caught (Repository.by_previous_hash old); reused found now)
      else raise e
  refresh_as fault old now minted = broken

  unfoldable pub refresh : List ℕ → ℕ → Option Minted → Service X Granted
  unfolding refresh_as
  refresh [] now minted = raise invalid_refresh
  refresh (c ∷ cs) now minted = do
    let old : ℕ = d.hash_token (c ∷ cs)
    found ← caught (Repository.by_refresh_hash old)
    refresh_as found old now minted

  unfoldable pub logout_as : Result Error Session → ℕ → Service X (Unit {0})
  unfolding end_session
  logout_as (ok s) now = end_session s logout now
  logout_as (err e) now = if is_session_not_found e then pure tt else raise e
  logout_as fault now = broken

  unfoldable pub log_out : List ℕ → ℕ → Service X (Unit {0})
  unfolding logout_as
  log_out [] now = pure tt
  log_out (c ∷ cs) now = do
    found ← caught (Repository.by_refresh_hash (d.hash_token (c ∷ cs)))
    logout_as found now

  unfoldable pub sessions : ℕ → ℕ → Service X (List Session)
  sessions user_id now = Repository.list_active user_id now

  unfoldable pub revoke_session : ℕ → ℕ → ℕ → Service X (Unit {0})
  unfolding end_session
  revoke_session user_id session_id now = do
    s ← Repository.get_session session_id
    if not (s.user_id == user_id) then raise session_not_found else end_session s revoked now
