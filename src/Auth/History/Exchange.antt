-- ===== src/Auth/History/Exchange.antt =====
-- The exchange of refresh tokens by SaveRotation, services/auth/internal/adapters/postgres/repositories.go.
use icyre.Prelude.{
  ℕ, ◌≡◌, ◌≢◌, refl, sym, ◌∙◌, inl, inr, true, false, List, [], ◌∷◌, ◌++◌, arith, ◌==◌, Bool-cases,
  ==_iff, any, All,
}
use icyre.Prelude.Pairwise.{All-append, All-any_false, All-imp, All-zip, All-map, Pairwise}
use mathlib.Core.Path.{subst}
use icyre.Platform.Postgres.{ok}
use icyre.Auth.{Session}
use icyre.Auth.Repository.Sql.{
  Tables, session_row, insert_session, is_current, rotated, rotate_session, ended,
  revoke_session_row,
}
use icyre.Auth.Repository.WellFormed.{
  SessionsApart, IsWellFormed, insert_account-IsWellFormed, insert_session-IsWellFormed,
  rotate_session-IsWellFormed, revoke_session_row-IsWellFormed,
}
use icyre.Auth.History.{
  has, Step, account, session, rotation, late, revocation, Life, start, next,
  insert_account-sessions, insert_session-sessions, rotate_session-sessions, late-sessions,
}

-- Issued, and not exchanged
abbrev IsCurrent : List ℕ → List ℕ → ℕ → Type 0
IsCurrent issued spent h = (has h issued ≡ true) × (has h spent ≡ false)

-- Every session's token was issued and is not exchanged, and no token is exchanged twice.
record Tracked (issued spent : List ℕ) (t : Tables) : Type 0 where
  well_formed : IsWellFormed t
  current : All (λ (r : Session). IsCurrent issued spent r.refresh_hash) t.sessions
  known : All (λ h. has h issued ≡ true) spent
  once : Pairwise (λ (h k : ℕ). h ≢ k) spent

issued-apart : (h k : ℕ) (hs : List ℕ) → has h hs ≡ true → has k hs ≡ false → h ≢ k
issued-apart h k hs p q e = absurd (cc)

current_hash : (id old : ℕ) (r : Session) → is_current id old r ≡ true → r.refresh_hash ≡ old
unfolding is_current
current_hash id old r h = ground arith

found_apart :
    (id old : ℕ) (r : Session) (rs : List Session)
    → All (SessionsApart r) rs
    → any (is_current id old) rs ≡ true
    → r.refresh_hash ≢ old
found_apart id old r [] p h e = absurd cc
found_apart id old r (x ∷ xs) p h e = elim (Bool-cases (is_current id old x)) [
  | inl c ↦ p.0.1 (e ∙ sym (current_hash id old x c))
  | inr c ↦ found_apart id old r xs p.1 (ground arith) e
]

-- A hash that was not issued was not exchanged.
not_spent :
    (issued spent : List ℕ) (h : ℕ)
    → has h issued ≡ false
    → All (λ k. has k issued ≡ true) spent
    → has h spent ≡ false
not_spent issued [] h f a = refl
not_spent issued (k ∷ spent) h f a = elim (Bool-cases (k == h)) [
  | inl e ↦ absurd (issued-apart k h issued a.0 f ((==_iff k h).0 e))
  | inr e ↦ rw e (not_spent issued spent h f a.1)
]

-- The session that a compare-and-swap finds has the hash.
found_Current :
    (issued spent : List ℕ) (id old : ℕ) (rs : List Session)
    → any (is_current id old) rs ≡ true
    → All (λ (r : Session). IsCurrent issued spent r.refresh_hash) rs
    → (has old issued ≡ true) × (has old spent ≡ false)
found_Current issued spent id old [] h a = absurd cc
found_Current issued spent id old (r ∷ rs) h a = elim (Bool-cases (is_current id old r)) [
  | inl c ↦ rw (sym (current_hash id old r c)) a.0
  | inr c ↦ found_Current issued spent id old rs (ground arith) a.1
]

-- The session that a compare-and-swap finds is the only one with the hash.
only_current :
    (id old : ℕ) (rs : List Session)
    → Pairwise SessionsApart rs
    → any (is_current id old) rs ≡ true
    → All (λ r. r.refresh_hash ≡ old → is_current id old r ≡ true) rs
only_current id old [] p h = tt
only_current id old (r ∷ rs) p h = elim (Bool-cases (is_current id old r)) [
  | inl c ↦ (λ e. c, All-imp rs (λ x a e. absurd (a.1 (current_hash id old r c ∙ sym e))) p.0)
  | inr c ↦
      let found : any (is_current id old) rs ≡ true = ground arith in
      (λ e. absurd (found_apart id old r rs p.0 found e), only_current id old rs p.1 found)
]

session-Tracked :
    {issued spent : List ℕ} (s : Session) (u : Unit {0}) (t t' : Tables)
    → has s.refresh_hash issued ≡ false
    → insert_session s t ≡ ok (u, t')
    → Tracked issued spent t
    → Tracked (s.refresh_hash ∷ issued) spent t'
unfolding session_row
session-Tracked {issued} {spent} s u t t' f e k = record {
  well_formed = insert_session-IsWellFormed s t t' u k.well_formed e;
  current = rw (insert_session-sessions s u t t' e) (
      All-append _ t.sessions (session_row s ∷ [])
        (All-imp t.sessions (λ r h. (ground (arith, h.0), h.1)) k.current)
        ((ground arith, not_spent issued spent s.refresh_hash f k.known), tt));
  known = All-imp spent (λ h i. ground (arith, i)) k.known;
  once = k.once;
}

rotated-Current :
    (issued spent : List ℕ) (s : Session) (old : ℕ) (r : Session)
    → has s.refresh_hash issued ≡ false
    → has s.refresh_hash spent ≡ false
    → has old issued ≡ true
    → (r.refresh_hash ≡ old → is_current s.id old r ≡ true)
    → IsCurrent issued spent r.refresh_hash
    → IsCurrent (s.refresh_hash ∷ issued) (old ∷ spent) (rotated s old r).refresh_hash
unfolding rotated
rotated-Current issued spent s old r f g o c h = elim (Bool-cases (is_current s.id old r)) [
  | inl e ↦
      let same : (rotated s old r).refresh_hash ≡ s.refresh_hash = ground arith in
      let apart : old ≢ s.refresh_hash = issued-apart old s.refresh_hash issued o f in
      subst (IsCurrent (s.refresh_hash ∷ issued) (old ∷ spent)) (sym same)
        (ground arith, ground (arith, g, apart))
  | inr e ↦
      let same : (rotated s old r).refresh_hash ≡ r.refresh_hash = ground arith in
      let apart : old ≢ r.refresh_hash = λ q. ground (arith, c (sym q), e) in
      subst (IsCurrent (s.refresh_hash ∷ issued) (old ∷ spent)) (sym same)
        (ground (arith, h.0), ground (arith, h.1, apart))
]

rotation-Tracked :
    {issued spent : List ℕ} (s : Session) (old : ℕ) (t t' : Tables)
    → has s.refresh_hash issued ≡ false
    → rotate_session s old t ≡ ok (true, t')
    → Tracked issued spent t
    → Tracked (s.refresh_hash ∷ issued) (old ∷ spent) t'
rotation-Tracked {issued} {spent} s old t t' f e k =
    let (found, moved) = rotate_session-sessions s old t t' e in
    let (was_issued, was_unspent) =
      found_Current issued spent s.id old t.sessions found k.current in
    let unspent : has s.refresh_hash spent ≡ false =
      not_spent issued spent s.refresh_hash f k.known in
    record {
      well_formed = rotate_session-IsWellFormed s old t t' true k.well_formed e;
      current = rw moved (
          All-map _ (rotated s old) t.sessions (
            All-imp t.sessions
              (λ r h. rotated-Current issued spent s old r f unspent was_issued h.0 h.1)
              (All-zip _ _ t.sessions
                (only_current s.id old t.sessions k.well_formed.sessions_apart found) k.current)));
      known = (ground (arith, was_issued), All-imp spent (λ h i. ground (arith, i)) k.known);
      once = (
        All-any_false (λ j. old ≢ j) (λ j. j == old) spent (λ j b. ground arith) was_unspent,
        k.once,
      );
    }

step-Tracked :
    {issued spent new old : List ℕ} {t t' : Tables}
    → Tracked issued spent t
    → Step issued t new old t'
    → Tracked (new ++ issued) (old ++ spent) t'
unfolding revoke_session_row ended
step-Tracked k (account a u t t' e) = record {
  well_formed = insert_account-IsWellFormed a t t' u k.well_formed e;
  current = rw (insert_account-sessions a u t t' e) k.current;
  known = k.known;
  once = k.once;
}
step-Tracked k (session s u t t' f e) = session-Tracked s u t t' f e k
step-Tracked k (rotation s old t t' f e) = rotation-Tracked s old t t' f e k
step-Tracked k (late s old t t' e) = rw (late-sessions s old t t' e) k
step-Tracked k (revocation s t) = record {
  well_formed = revoke_session_row-IsWellFormed s t k.well_formed;
  current =
      All-map _ (ended s) t.sessions
        (All-imp t.sessions (λ r h. (ground (arith, h.0), ground (arith, h.1))) k.current);
  known = k.known;
  once = k.once;
}

-- Where the constraints of the schema hold and the hashes of the sessions are among those issued,
-- no refresh token is ever exchanged twice: of the refreshes with the same token at most one wins,
-- however they interleave. Nor does a session ever go back to a token that was exchanged.
pub exchanged_once :
    (t₀ : Tables) (issued₀ : List ℕ) {issued spent : List ℕ} {t : Tables}
    → IsWellFormed t₀
    → All (λ (r : Session). has r.refresh_hash issued₀ ≡ true) t₀.sessions
    → Life t₀ issued₀ issued spent t
    → Pairwise (λ (h k : ℕ). h ≢ k) spent
      × All (λ (r : Session). has r.refresh_hash spent ≡ false) t.sessions
exchanged_once t₀ issued₀ w a life =
    ((lived life).once, All-imp _ (λ r h. h.1) (lived life).current)
  where
    lived : {i s : List ℕ} {u : Tables} → Life t₀ issued₀ i s u → Tracked i s u
    lived start = record {
      well_formed = w;
      current = All-imp t₀.sessions (λ r h. (h, refl)) a;
      known = tt;
      once = tt;
    }
    lived (next l s) = step-Tracked (lived l) s
