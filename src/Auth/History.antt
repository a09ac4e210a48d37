-- ===== src/Auth/History.antt =====
-- What becomes of the sessions of Auth over the statements that reach the database, in whatever
-- order the requests of any number of clients interleave.
--
-- A refresh reads a session in one statement and exchanges its token in another, and other requests
-- run in between: a step is one statement that writes. Of crypto/rand this relies on one thing, that the
-- hash of a new token was not issued before.
pub mod Exchange
pub mod Revocation
use icyre.Prelude.{ℕ, ◌≡◌, Bool, true, false, List, [], ◌∷◌, ◌++◌, map, arith, ◌==◌, any}
use icyre.Platform.Postgres.{ok}
use icyre.Auth.{Account, Session}
use icyre.Auth.Repository.Sql.{
  Tables, insert_account, session_row, insert_session, is_current, rotated, rotate_session,
  revoke_session_row,
}

abbrev pub has : ℕ → List ℕ → Bool
has h hs = any (λ k. k == h) hs

-- `Step issued t new spent t'`: a statement that takes `t` to `t'`, issues the hashes `new` and exchanges
-- the hashes `spent`.
pub data Step (issued : List ℕ) : Tables → List ℕ → List ℕ → Tables → Type 0 where
  account :
      (a : Account) (u : Unit {0}) (t t' : Tables)
      → insert_account a t ≡ ok (u, t')
      → Step issued t [] [] t'
  session :
      (s : Session) (u : Unit {0}) (t t' : Tables)
      → has s.refresh_hash issued ≡ false
      → insert_session s t ≡ ok (u, t')
      → Step issued t (s.refresh_hash ∷ []) [] t'
  rotation :
      (s : Session) (old : ℕ) (t t' : Tables)
      → has s.refresh_hash issued ≡ false
      → rotate_session s old t ≡ ok (true, t')
      → Step issued t (s.refresh_hash ∷ []) (old ∷ []) t'
  -- a compare-and-swap that comes too late
  late :
      (s : Session) (old : ℕ) (t t' : Tables)
      → rotate_session s old t ≡ ok (false, t')
      → Step issued t [] [] t'
  revocation : (s : Session) (t : Tables) → Step issued t [] [] (revoke_session_row s t)

-- A life of the tables from `t₀`, with the hashes issued and those exchanged, the last one first.
pub data Life (t₀ : Tables) (issued₀ : List ℕ) : List ℕ → List ℕ → Tables → Type 0 where
  start : Life t₀ issued₀ issued₀ [] t₀
  next :
      {issued spent new old : List ℕ} {t t' : Tables}
      → Life t₀ issued₀ issued spent t
      → Step issued t new old t'
      → Life t₀ issued₀ (new ++ issued) (old ++ spent) t'

pub insert_account-sessions :
    (a : Account) (u : Unit {0}) (t t' : Tables)
    → insert_account a t ≡ ok (u, t')
    → t'.sessions ≡ t.sessions
unfolding insert_account
insert_account-sessions a u t t' e = ground arith

pub insert_session-sessions :
    (s : Session) (u : Unit {0}) (t t' : Tables)
    → insert_session s t ≡ ok (u, t')
    → t'.sessions ≡ t.sessions ++ session_row s ∷ []
unfolding insert_session
insert_session-sessions s u t t' e = ground arith

pub rotate_session-sessions :
    (s : Session) (old : ℕ) (t t' : Tables)
    → rotate_session s old t ≡ ok (true, t')
    → (any (is_current s.id old) t.sessions ≡ true) × (t'.sessions ≡ map (rotated s old) t.sessions)
unfolding rotate_session
rotate_session-sessions s old t t' e = (ground arith, ground arith)

pub late-sessions :
    (s : Session) (old : ℕ) (t t' : Tables) → rotate_session s old t ≡ ok (false, t') → t' ≡ t
unfolding rotate_session
late-sessions s old t t' e = ground arith
