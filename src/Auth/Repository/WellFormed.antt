-- ===== src/Auth/Repository/WellFormed.antt =====
-- The constraints of schema `auth` (00001_auth_core.sql), and its statements one by one.
use icyre.Prelude.{
  ℕ, ◌≡◌, ◌≢◌, inl, inr, Bool, true, false, not, ◌&&◌, Bool-cases, List, [], ◌∷◌, ◌++◌, map, arith,
  ◌==◌, any, All, any-append,
}
use icyre.Prelude.Unicode.{texts_equal}
use icyre.Prelude.Pairwise.{
  All-append, All-any_false, All-imp, All-zip, All-map, Pairwise, Pairwise-last, Pairwise-map,
}
use icyre.Platform.Postgres.{ok}
use icyre.Auth.{Account, Session}
use icyre.Auth.Repository.Sql.{
  Tables, insert_account, session_row, insert_session, is_current, rotated, rotate_session, ended,
  revoke_session_row,
}

-- The keys of auth.accounts, and accounts_email_key
abbrev pub AccountsApart : Account → Account → Type 0
AccountsApart a b = (a.id ≢ b.id) × (texts_equal a.email b.email ≡ false)

-- The key of auth.sessions, and sessions_refresh_hash_key
abbrev pub SessionsApart : Session → Session → Type 0
SessionsApart r s = (r.id ≢ s.id) × (r.refresh_hash ≢ s.refresh_hash)

abbrev pub has_account : ℕ → List Account → Bool
has_account id accounts = any (λ (a : Account). a.id == id) accounts

pub record IsWellFormed (t : Tables) : Type 0 where
  pub accounts_apart : Pairwise AccountsApart t.accounts
  pub sessions_apart : Pairwise SessionsApart t.sessions
  -- REFERENCES auth.accounts
  pub owned : All (λ (s : Session). has_account s.user_id t.accounts ≡ true) t.sessions

pub insert_account-IsWellFormed :
    (a : Account) (t t' : Tables) (u : Unit {0})
    → IsWellFormed t
    → insert_account a t ≡ ok (u, t')
    → IsWellFormed t'
unfolding insert_account
insert_account-IsWellFormed a t t' u w e =
    let new_id : has_account a.id t.accounts ≡ false = ground arith in
    let new_email : any (λ (r : Account). texts_equal r.email a.email) t.accounts ≡ false =
      ground arith in
    let same : t' ≡ record t { accounts = t.accounts ++ a ∷ [] } = ground arith in
    rw same (record {
      accounts_apart = Pairwise-last AccountsApart t.accounts a w.accounts_apart (
          All-zip _ _ t.accounts
            (All-any_false (λ r. r.id ≢ a.id) (λ r. r.id == a.id) t.accounts (λ x k. ground arith)
              new_id)
            (All-any_false (λ r. texts_equal r.email a.email ≡ false)
              (λ r. texts_equal r.email a.email) t.accounts (λ x k. k) new_email));
      sessions_apart = w.sessions_apart;
      owned =
          All-imp t.sessions
            (λ s h. any-append (λ (r : Account). r.id == s.user_id) t.accounts (a ∷ []) h) w.owned;
    })

pub insert_session-IsWellFormed :
    (s : Session) (t t' : Tables) (u : Unit {0})
    → IsWellFormed t
    → insert_session s t ≡ ok (u, t')
    → IsWellFormed t'
unfolding insert_session session_row
insert_session-IsWellFormed s t t' u w e =
    let there : has_account s.user_id t.accounts ≡ true = ground arith in
    let new_id : any (λ (r : Session). r.id == s.id) t.sessions ≡ false = ground arith in
    let new_hash : any (λ (r : Session). r.refresh_hash == s.refresh_hash) t.sessions ≡ false =
      ground arith in
    let same : t' ≡ record t { sessions = t.sessions ++ session_row s ∷ [] } = ground arith in
    rw same (record {
      accounts_apart = w.accounts_apart;
      sessions_apart = Pairwise-last SessionsApart t.sessions (session_row s) w.sessions_apart (
          All-zip _ _ t.sessions
            (All-any_false (λ r. r.id ≢ s.id) (λ r. r.id == s.id) t.sessions (λ x k. ground arith)
              new_id)
            (All-any_false (λ r. r.refresh_hash ≢ s.refresh_hash)
              (λ r. r.refresh_hash == s.refresh_hash) t.sessions (λ x k. ground arith) new_hash));
      owned =
          All-append (λ (r : Session). has_account r.user_id t.accounts ≡ true) t.sessions
            (session_row s ∷ []) w.owned (there, tt);
    })

rotated-user_id : (s : Session) (old : ℕ) (r : Session) → (rotated s old r).user_id ≡ r.user_id
unfolding rotated
rotated-user_id s old r = ground arith

-- No session but the one with the key has the new hash, so the rotated one does not clash with it.
rotated-SessionsApart :
    (s : Session) (old : ℕ) (x y : Session)
    → (not (x.id == s.id) ≡ true → x.refresh_hash ≢ s.refresh_hash)
    → (not (y.id == s.id) ≡ true → y.refresh_hash ≢ s.refresh_hash)
    → SessionsApart x y
    → SessionsApart (rotated s old x) (rotated s old y)
unfolding rotated is_current
rotated-SessionsApart s old x y px py h =
    (λ e. ground (arith, h.0), λ e. ground (arith, px, py, h.0, h.1))

pub rotate_session-IsWellFormed :
    (s : Session) (old : ℕ) (t t' : Tables) (there : Bool)
    → IsWellFormed t
    → rotate_session s old t ≡ ok (there, t')
    → IsWellFormed t'
unfolding rotate_session
rotate_session-IsWellFormed s old t t' there w e =
    elim (Bool-cases (any (is_current s.id old) t.sessions)) [
      | inr gone ↦ let same : t' ≡ t = ground arith in rw same w
      | inl found ↦
          let taken : Session → Bool =
            λ r. not (r.id == s.id) && r.refresh_hash == s.refresh_hash in
          let free : any taken t.sessions ≡ false = ground arith in
          let same : t' ≡ record t { sessions = map (rotated s old) t.sessions } = ground arith in
          rw same (record {
            accounts_apart = w.accounts_apart;
            sessions_apart =
                Pairwise-map SessionsApart (rotated s old) (rotated-SessionsApart s old) t.sessions
                  (All-any_false (λ r. not (r.id == s.id) ≡ true → r.refresh_hash ≢ s.refresh_hash)
                    taken t.sessions (λ r k b c. ground arith) free)
                  w.sessions_apart;
            owned =
                All-map _ (rotated s old) t.sessions
                  (All-imp t.sessions (λ r h. ground (arith, h, rotated-user_id s old r)) w.owned);
          })
    ]

ended-SessionsApart :
    (s : Session) (accounts : List Account) (x y : Session)
    → has_account x.user_id accounts ≡ true
    → has_account y.user_id accounts ≡ true
    → SessionsApart x y
    → SessionsApart (ended s x) (ended s y)
unfolding ended
ended-SessionsApart s accounts x y p q h = (λ e. ground (arith, h.0), λ e. ground (arith, h.1))

pub revoke_session_row-IsWellFormed :
    (s : Session) (t : Tables) → IsWellFormed t → IsWellFormed (revoke_session_row s t)
unfolding revoke_session_row ended
revoke_session_row-IsWellFormed s t w = record {
  accounts_apart = w.accounts_apart;
  sessions_apart =
      Pairwise-map SessionsApart (ended s) (ended-SessionsApart s t.accounts) t.sessions w.owned
        w.sessions_apart;
  owned = All-map _ (ended s) t.sessions (All-imp t.sessions (λ r h. ground (arith, h)) w.owned);
}
