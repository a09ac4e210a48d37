-- ===== src/Auth/Tests.antt =====
-- The Auth service with one account and one session.
use icyre.Prelude.{
  suc, Bool, ◌&&◌, ◌==◌, ==_self, if◌then◌else◌, ◌↔◌, ◌<◌, ℕ, ◌≡◌, ◌≢◌, refl, true, false, none,
  some, List, [], ◌∷◌, All, length,
}
use icyre.Prelude.Pairwise.{Pairwise}
use icyre.Platform.Postgres.{
  ok, Fails, World, ◌>>=◌, select, update, caught, in_tx, lift, execute, reach,
}
use icyre.Platform.Postgres.Reference.{reference}
use icyre.Prelude.Unicode.{is_space, trim_space, texts_equal}
use icyre.Platform.Outbox.{Db, write}
use icyre.Platform.Outbox.TableName.{check_table}
use icyre.Auth.{invalid_credentials, Account, Session, role_user, logout, normalize_email, Event}
use icyre.Auth
use icyre.Auth.Service
use icyre.Auth.Repository
use icyre.Auth.Service.{Deps, Minted, Granted}
use icyre.Auth.Repository.Sql.{
  account_by_id, Tables, rotate_session, session_by_id, session_by_refresh_hash, revoke_session_row,
  account_by_email, insert_session,
}
use icyre.Auth.Repository.WellFormed.{IsWellFormed}
use icyre.Auth.Service.Requests.{Request, logout_request, handle}
use icyre.Auth.Service.Refreshed.{IsRefreshed, refresh-IsRefreshed}
use icyre.Auth.Service.SignedIn.{IsSignedIn, login-IsSignedIn}
use icyre.Auth.Service.Atomicity.{handle_failed}
use icyre.Auth.Throttle.{Counter, Redis, FailedLogins, failed, key, allow, allow_after_failures}
use icyre.Auth.History.{has, Step, Life}
use icyre.Auth.History.Exchange.{exchanged_once}
use icyre.Auth.History.Revocation.{revoked_stays}

abbrev address : List ℕ
address = 97 ∷ 64 ∷ 98 ∷ []

abbrev password : List ℕ
password = 49 ∷ 50 ∷ 51 ∷ 52 ∷ 53 ∷ 54 ∷ 55 ∷ 56 ∷ 57 ∷ 48 ∷ []

abbrev deps : Deps (Unit {0})
deps = record {
  mail = record { to_lower = λ s. s; parse_address = some };
  hash_password = λ p. some (length p);
  verify = λ p h. some true;
  dummy_hash = 0;
  issue = λ a id now. some id;
  hash_token = length;
  allow = λ e x. (some true, x);
  failed = λ e x. (tt, x);
  reset = λ e x. (tt, x);
  revoke_access = λ id x. (tt, x);
  session_ttl = 1000;
}

abbrev account : Account
account = record {
  id = 1;
  email = address;
  password_hash = 10;
  roles = role_user ∷ [];
  created_at = 0;
  updated_at = 0;
}

abbrev session : Session
session = record {
  id = 7;
  user_id = 1;
  refresh_hash = 3;
  previous_hash = none;
  user_agent = [];
  created_at = 0;
  last_used_at = 0;
  expires_at = 1000;
  revoked_at = none;
  revoke_reason = none;
}

abbrev tables : Tables
tables = record { accounts = account ∷ []; sessions = session ∷ [] }

tables-IsWellFormed : IsWellFormed tables
tables-IsWellFormed = record {
  accounts_apart = (tt, tt);
  sessions_apart = (tt, tt);
  owned = (refl, tt);
}

-- The logout's event meets a broken connection.
abbrev broken : World (Db Tables Event) (Unit {0})
broken = record {
  db = record { tables = tables; outbox = record { rows = []; next_id = 0 } };
  outside = tt;
  faults = false ∷ false ∷ false ∷ true ∷ [];
}

abbrev leave : Request
leave = logout_request (1 ∷ 2 ∷ 3 ∷ [])

broken-Fails : Fails (handle deps reference 50 leave broken).0
unfolding handle reference Service.log_out ◌>>=◌ caught Repository.by_refresh_hash select
    session_by_refresh_hash Auth.revoke in_tx Repository.save_revocation update write check_table
broken-Fails = tt

handle_failed_example : (handle deps reference 50 leave broken).1.db ≡ broken.db
handle_failed_example = handle_failed deps reference 50 leave broken refl broken-Fails

-- The session as two refreshes with its token would store it.
abbrev first : Session
first = record session { refresh_hash = 4; previous_hash = some 3 }

abbrev second : Session
second = record session { refresh_hash = 5; previous_hash = some 3 }

abbrev after_first : Tables
after_first = record { accounts = account ∷ []; sessions = first ∷ [] }

first_wins : rotate_session first 3 tables ≡ ok (true, after_first)
unfolding rotate_session
first_wins = refl

second_loses : rotate_session second 3 after_first ≡ ok (false, after_first)
unfolding rotate_session
second_loses = refl

exchanged_once_example :
    Pairwise (λ (h k : ℕ). h ≢ k) (3 ∷ [])
    × All (λ (r : Session). has r.refresh_hash (3 ∷ []) ≡ false) after_first.sessions
exchanged_once_example =
    exchanged_once tables (3 ∷ []) tables-IsWellFormed (refl, tt)
      (Life.next (Life.next Life.start (Step.rotation first 3 tables after_first refl first_wins))
        (Step.late second 3 after_first after_first second_loses))

abbrev revoked : Session
revoked = record session { revoked_at = some 40; revoke_reason = some logout }

abbrev after_logout : Tables
after_logout = record { accounts = account ∷ []; sessions = revoked ∷ [] }

there : session_by_id 7 after_logout ≡ some revoked
unfolding session_by_id
there = refl

revoked_stays_example :
    session_by_id 7 (revoke_session_row (record session { revoked_at = some 60 }) after_logout)
    ≡ some revoked
revoked_stays_example =
    revoked_stays after_logout (3 ∷ []) revoked 7 refl there (
      Life.next Life.start (Step.revocation (record session { revoked_at = some 60 }) after_logout))

abbrev is_counter : Counter → Counter → Bool
is_counter k j = k.address == j.address && k.bucket == j.bucket

abbrev counters : Redis (Counter → ℕ)
counters = record {
  value = λ k x. x k;
  get = λ k x. some (x k);
  incr_expire = λ k ttl x. (true, λ j. if is_counter k j then suc (x j) else x j);
  del = λ k x. (true, λ j. if is_counter k j then 0 else x j);
  reads = λ k x n e. cc;
  counts = λ k ttl x e. rw (==_self k.address) (rw (==_self k.bucket) refl);
  clears = λ k x e. rw (==_self k.address) (rw (==_self k.bucket) refl);
}

-- Two failures, at 61 and 62 seconds, in windows of a minute that allow two.
abbrev counted : Counter → ℕ
counted j =
    if is_counter (record { address = 3; bucket = 1 }) j
    then suc (if is_counter (record { address = 3; bucket = 1 }) j then 1 else 0)
    else (if is_counter (record { address = 3; bucket = 1 }) j then 1 else 0)

two_failures : FailedLogins counters length 2 60 address (61 ∷ 62 ∷ []) (λ j. 0) counted
unfolding failed
two_failures =
    FailedLogins.failure 61 (62 ∷ []) _ _ refl
      (FailedLogins.failure 62 [] _ _ refl (FailedLogins.no_failure _))

allow_after_failures_example : (false ≡ true) ↔ (length {A = ℕ} (61 ∷ 62 ∷ []) < 2)
unfolding allow key
allow_after_failures_example =
    allow_after_failures counters length 2 60 address (61 ∷ 62 ∷ []) 63 (λ j. 0) counted false
      (refl, (refl, tt)) refl two_failures refl

abbrev drawn : Minted
drawn = record { token = 5 ∷ 6 ∷ []; hash = 2 }

abbrev granted : Granted
granted = record {
  account = account;
  session_id = 7;
  access = 7;
  refresh_token = 5 ∷ 6 ∷ [];
  refresh_until = 1050;
}

abbrev calm : World (Db Tables Event) (Unit {0})
calm = record broken { faults = [] }

refreshes : (Service.refresh deps reference (1 ∷ 2 ∷ 3 ∷ []) 50 (some drawn) calm).0 ≡ ok granted
unfolding Service.refresh Service.exchange ◌>>=◌ caught select lift execute
    Repository.by_refresh_hash session_by_refresh_hash Auth.active Auth.rotate
    Repository.save_rotation rotate_session Repository.by_id account_by_id
refreshes = refl

refresh-IsRefreshed_example :
    IsRefreshed 3 50 1000
      (some drawn)
      granted
      broken.db
      (Service.refresh deps reference (1 ∷ 2 ∷ 3 ∷ []) 50 (some drawn) calm).1.db
refresh-IsRefreshed_example =
    refresh-IsRefreshed deps reference (1 ∷ 2 ∷ 3 ∷ []) 50 (some drawn) granted calm
      (Service.refresh deps reference (1 ∷ 2 ∷ 3 ∷ []) 50 (some drawn) calm).1
      (λ i. (refreshes i, (Service.refresh deps reference (1 ∷ 2 ∷ 3 ∷ []) 50 (some drawn) calm).1))

abbrev signed : Granted
signed = record {
  account = account;
  session_id = 8;
  access = 8;
  refresh_token = 5 ∷ 6 ∷ [];
  refresh_until = 1050;
}

signs_in :
    (Service.login deps reference address password [] 50 (some drawn) (some 8) calm).0 ≡ ok signed
unfolding Service.login ◌>>=◌ caught select lift execute in_tx reach reference Repository.by_email
    account_by_email texts_equal Repository.create_session insert_session Auth.new_session update
    write check_table normalize_email trim_space is_space
signs_in = refl

login-IsSignedIn_example :
    IsSignedIn deps reference
      (normalize_email deps.mail address)
      password
      50
      (some drawn)
      (some 8)
      tt
      signed
      broken.db
      (Service.login deps reference address password [] 50 (some drawn) (some 8) calm).1.db
login-IsSignedIn_example =
    login-IsSignedIn deps reference address password [] 50 (some drawn) (some 8) signed calm
      (Service.login deps reference address password [] 50 (some drawn) (some 8) calm).1
      (λ i. (
        signs_in i,
        (Service.login deps reference address password [] 50 (some drawn) (some 8) calm).1,
      ))
