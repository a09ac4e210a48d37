-- ===== src/Auth/Service/Atomicity.antt =====
-- What a failed request of services/auth/internal/application/service.go leaves behind.
use icyre.Prelude.{ℕ, ◌≡◌, Bool, true, false, Option, none, some, List, [], ◌∷◌}
use icyre.Platform.Postgres.{Result, ok, err, fault, Fails, World, Pgx}
use icyre.Platform.Postgres.Atomic.{ReadsOnly, IsAtomic, reads_rules, atomic_rules}
use icyre.Platform.Outbox.{Db}
use icyre.Auth.{Error, Account, Session, Reason, revoke, Event}
use icyre.Auth.Repository
use icyre.Auth.Repository.Sql.{Tables}
use icyre.Auth.Service.{
  Deps, Minted, register, sign_in, known, reject, checked, login_allowed, login, end_as,
  end_session, logout_as, log_out, revoke_session,
}
use icyre.Auth.Service.Requests.{
  Request, register_request, login_request, logout_request, revoke_request, refresh_request,
  is_refresh, handle,
}

module _ {X : Type 0} where
  by_email-ReadsOnly : (email : List ℕ) → ReadsOnly {X = X} (Repository.by_email {M = Event} email)
  unfolding Repository.by_email
  by_email-ReadsOnly email = search reads_rules

  by_refresh_hash-ReadsOnly :
      (hash : ℕ) → ReadsOnly {X = X} (Repository.by_refresh_hash {M = Event} hash)
  unfolding Repository.by_refresh_hash
  by_refresh_hash-ReadsOnly hash = search reads_rules

  get_session-ReadsOnly : (id : ℕ) → ReadsOnly {X = X} (Repository.get_session {M = Event} id)
  unfolding Repository.get_session
  get_session-ReadsOnly id = search reads_rules

module _ {X : Type 0} (d : Deps X) (pgx : Pgx) where
  register-IsAtomic :
      (email password agent : List ℕ) (now : ℕ) (id : Option ℕ) (m : Option Minted) (s : Option ℕ)
      → IsAtomic (register d pgx email password agent now id m s)
  unfolding register
  register-IsAtomic email password agent now id m s = search atomic_rules

  known-ReadsOnly : (r : Result Error Account) → ReadsOnly (known d pgx r)
  known-ReadsOnly (ok acc) = search reads_rules
  known-ReadsOnly (err e) = search reads_rules
  known-ReadsOnly fault = search reads_rules

  checked-IsAtomic :
      (o : Option Account) (match : Bool) (email agent : List ℕ) (now : ℕ) (m : Option Minted)
      (s : Option ℕ)
      → IsAtomic (checked d pgx o match email agent now m s)
  unfolding checked reject sign_in
  checked-IsAtomic none match email agent now m s = search atomic_rules
  checked-IsAtomic (some acc) false email agent now m s = search atomic_rules
  checked-IsAtomic (some acc) true email agent now m s = search atomic_rules

  login_allowed-IsAtomic :
      (email password agent : List ℕ) (now : ℕ) (m : Option Minted) (s : Option ℕ)
      → IsAtomic (login_allowed d pgx email password agent now m s)
  unfolding login_allowed
  login_allowed-IsAtomic email password agent now m s =
      search (atomic_rules, by_email-ReadsOnly, known-ReadsOnly, checked-IsAtomic)

  login-IsAtomic :
      (email password agent : List ℕ) (now : ℕ) (m : Option Minted) (s : Option ℕ)
      → IsAtomic (login d pgx email password agent now m s)
  unfolding login
  login-IsAtomic email password agent now m s = search (atomic_rules, login_allowed-IsAtomic)

  -- What follows the commit cannot fail.
  end_session-IsAtomic :
      (s : Session) (reason : Reason) (now : ℕ) → IsAtomic (end_session d pgx s reason now)
  unfolding end_session end_as
  end_session-IsAtomic s reason now = as_revoked (revoke s reason now)
    where
      as_revoked : (o : Option Session) → IsAtomic (end_as d pgx o)
      as_revoked none = search atomic_rules
      as_revoked (some s) = search atomic_rules

  logout_as-IsAtomic : (r : Result Error Session) (now : ℕ) → IsAtomic (logout_as d pgx r now)
  unfolding logout_as
  logout_as-IsAtomic (ok s) now = end_session-IsAtomic s _ now
  logout_as-IsAtomic (err e) now = search atomic_rules
  logout_as-IsAtomic fault now = search atomic_rules

  log_out-IsAtomic : (token : List ℕ) (now : ℕ) → IsAtomic (log_out d pgx token now)
  unfolding log_out
  log_out-IsAtomic [] now = search atomic_rules
  log_out-IsAtomic (c ∷ cs) now =
      search (atomic_rules, by_refresh_hash-ReadsOnly, logout_as-IsAtomic)

  revoke_session-IsAtomic : (user_id id now : ℕ) → IsAtomic (revoke_session d pgx user_id id now)
  unfolding revoke_session
  revoke_session-IsAtomic user_id id now =
      search (atomic_rules, get_session-ReadsOnly, end_session-IsAtomic)

  handle-IsAtomic : (now : ℕ) (q : Request) → is_refresh q ≡ false → IsAtomic (handle d pgx now q)
  unfolding handle
  handle-IsAtomic now (register_request email password agent id m s) h =
      search (atomic_rules, register-IsAtomic)
  handle-IsAtomic now (login_request email password agent m s) h =
      search (atomic_rules, login-IsAtomic)
  handle-IsAtomic now (logout_request token) h = log_out-IsAtomic token now
  handle-IsAtomic now (revoke_request user_id id) h = revoke_session-IsAtomic user_id id now
  handle-IsAtomic now (refresh_request token m) h = absurd cc

  -- A registration, a login, a logout or a revocation that fails, for whatever reason and at
  -- whatever call, leaves accounts, sessions and the outbox as they were.
  pub handle_failed :
      (now : ℕ) (q : Request) (w : World (Db Tables Event) X)
      → is_refresh q ≡ false
      → Fails (handle d pgx now q w).0
      → (handle d pgx now q w).1.db ≡ w.db
  handle_failed now q w k h = (handle-IsAtomic now q k).at w h
