-- ===== src/Auth/Repository/Rotation.antt =====
-- The UPDATE of SaveRotation of services/auth/internal/adapters/postgres/repositories.go.
use mathlib.Core.Path.{subst}
use icyre.Prelude.{
  ℕ, ◌+◌, ◌≡◌, refl, sym, ap, ◌∙◌, inl, inr, Bool, true, false, not, ◌&&◌, ◌||◌, Bool-cases, some,
  List, [], ◌∷◌, map, any, filter, arith, ◌==◌, ==_self, if◌then◌else◌,
}
use icyre.Platform.Postgres.{Result, ok, err, fault}
use icyre.Auth.{Error, session_inactive, Session, active, rotate, is_none}
use icyre.Auth.Repository.Sql.{Tables, same_hash, is_current, rotated, rotate_session}

-- The session, with the new hash in place of the old one
abbrev pub holds : ℕ → ℕ → ℕ → Session → Bool
holds id old new r =
    r.id == id && r.refresh_hash == new && same_hash r.previous_hash old && is_none r.revoked_at

abbrev pub others : ℕ → List Session → List Session
others id rows = filter (λ r. not (r.id == id)) rows

rotated-holds :
    (s r : Session) (old : ℕ)
    → is_current s.id old r ≡ true
    → holds s.id old s.refresh_hash (rotated s old r) ≡ true
unfolding rotated is_current
rotated-holds s r old e =
    let row : rotated s old r ≡ record r {
      refresh_hash = s.refresh_hash;
      previous_hash = some old;
      last_used_at = s.last_used_at;
      expires_at = s.expires_at;
    } =
      rw e refl in
    subst (λ z. holds s.id old s.refresh_hash z ≡ true) (sym row)
      (ground (arith, ==_self s.refresh_hash, ==_self old))

either : (a b : Bool) → b ≡ true → (a || b) ≡ true
either true b h = refl
either false b h = h

tail_true : (a b : Bool) → a ≡ false → (a || b) ≡ true → b ≡ true
tail_true true b e h = absurd cc
tail_true false b e h = h

pub holds-rotated :
    (s : Session) (old : ℕ) (rows : List Session)
    → any (is_current s.id old) rows ≡ true
    → any (holds s.id old s.refresh_hash) (map (rotated s old) rows) ≡ true
holds-rotated s old [] h = absurd cc
holds-rotated s old (r ∷ rows) h = elim (Bool-cases (is_current s.id old r)) [
  | inl e ↦ rw (rotated-holds s r old e) refl
  | inr e ↦ either _ _ (holds-rotated s old rows (tail_true (is_current s.id old r) _ e h))
]

rotated-id : (s r : Session) (old : ℕ) → (rotated s old r).id ≡ r.id
unfolding rotated
rotated-id s r old = ground arith

rotated_other : (s r : Session) (old : ℕ) → (r.id == s.id) ≡ false → rotated s old r ≡ r
unfolding rotated is_current
rotated_other s r old e = rw e refl

pub others-rotated :
    (s : Session) (old : ℕ) (rows : List Session)
    → others s.id (map (rotated s old) rows) ≡ others s.id rows
others-rotated s old [] = refl
others-rotated s old (r ∷ rows) = elim (Bool-cases (r.id == s.id)) [
  | inl e ↦
      let same : ((rotated s old r).id == s.id) ≡ true =
        ap (λ k. k == s.id) (rotated-id s r old) ∙ e in
      rw (same, e) (others-rotated s old rows)
  | inr e ↦
      subst (λ z. others s.id (z ∷ map (rotated s old) rows) ≡ others s.id (r ∷ rows))
        (sym (rotated_other s r old e)) (rw e (ap (λ l. r ∷ l) (others-rotated s old rows)))
]

pub rotate-ok :
    (s s' : Session) (hash now ttl : ℕ)
    → rotate s hash now ttl ≡ ok s'
    → (active s now ≡ true)
      × (s'.id ≡ s.id)
      × (s'.refresh_hash ≡ hash)
      × (s'.expires_at ≡ now + ttl)
unfolding rotate
rotate-ok s s' hash now ttl h = by_state (active s now) refl h
  where
    by_state :
        (b : Bool)
        → active s now ≡ b
        → ◌≡◌ {A = Result Error Session}
            (if not b
              then err session_inactive
              else ok (record s {
                previous_hash = some s.refresh_hash;
                refresh_hash = hash;
                last_used_at = now;
                expires_at = now + ttl;
              }))
            (ok s')
        → (active s now ≡ true)
          × (s'.id ≡ s.id)
          × (s'.refresh_hash ≡ hash)
          × (s'.expires_at ≡ now + ttl)
    by_state false e k = absurd cc
    by_state true e k =
        let same : record s {
          previous_hash = some s.refresh_hash;
          refresh_hash = hash;
          last_used_at = now;
          expires_at = now + ttl;
        }
            ≡ s' =
          cc in
        (
          e,
          ap (λ (z : Session). z.id) (sym same),
          ap (λ (z : Session). z.refresh_hash) (sym same),
          ap (λ (z : Session). z.expires_at) (sym same),
        )

pub rotate_session-ok :
    (s : Session) (old : ℕ) (t t' : Tables)
    → rotate_session s old t ≡ ok (true, t')
    → (any (is_current s.id old) t.sessions ≡ true)
      × (t' ≡ record t { sessions = map (rotated s old) t.sessions })
unfolding rotate_session
rotate_session-ok s old t t' h =
    by_cases (any (is_current s.id old) t.sessions)
      (any (λ (r : Session). not (r.id == s.id) && r.refresh_hash == s.refresh_hash) t.sessions)
      refl h
  where
    by_cases :
        (a b : Bool)
        → any (is_current s.id old) t.sessions ≡ a
        → ◌≡◌ {A = Result Error (Bool × Tables)}
            (if not a
              then ok (false, t)
              else if b
              then fault
              else ok (true, record t { sessions = map (rotated s old) t.sessions }))
            (ok (true, t'))
        → (any (is_current s.id old) t.sessions ≡ true)
          × (t' ≡ record t { sessions = map (rotated s old) t.sessions })
    by_cases false b e k = absurd cc
    by_cases true true e k = absurd cc
    by_cases true false e k =
        let same : record t { sessions = map (rotated s old) t.sessions } ≡ t' = cc in (e, sym same)
