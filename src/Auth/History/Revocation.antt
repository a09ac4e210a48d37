-- ===== src/Auth/History/Revocation.antt =====
-- SaveRevocation of services/auth/internal/adapters/postgres/repositories.go, over later statements.
use icyre.Prelude.{
  ℕ, ◌≡◌, sym, ap, ◌∙◌, inl, inr, Bool, true, false, some, List, [], ◌∷◌, ◌++◌, map, arith, ◌==◌,
  Bool-cases, find?,
}
use icyre.Auth.{Session, is_none}
use icyre.Auth.Repository.Sql.{
  Tables, session_by_id, is_current, rotated, ended, revoke_session_row,
}
use icyre.Auth.History.{
  Step, account, session, rotation, late, revocation, Life, start, next, insert_account-sessions,
  insert_session-sessions, rotate_session-sessions, late-sessions,
}

find?-append :
    (p : Session → Bool) (xs ys : List Session) (r : Session)
    → find? p xs ≡ some r
    → find? p (xs ++ ys) ≡ some r
find?-append p [] ys r h = absurd cc
find?-append p (x ∷ xs) ys r h = ground (arith, find?-append p xs ys r)

-- A statement that keeps every id, and `r` as it is, keeps the lookup that finds `r`.
find?-map :
    (f : Session → Session) (id : ℕ) (xs : List Session) (r : Session)
    → ((x : Session) → (f x).id ≡ x.id)
    → f r ≡ r
    → find? (λ (x : Session). x.id == id) xs ≡ some r
    → find? (λ (x : Session). x.id == id) (map f xs) ≡ some r
find?-map f id [] r k same h = absurd cc
find?-map f id (x ∷ xs) r k same h = elim (Bool-cases (x.id == id)) [
  | inl e ↦
      let found : x ≡ r = ground arith in
      let e' : (r.id == id) ≡ true = rw (sym found) e in simp (ap f found ∙ same, e')
  | inr e ↦ simp (k x, e, find?-map f id xs r k same (ground arith))
]

rotated-id : (s : Session) (old : ℕ) (x : Session) → (rotated s old x).id ≡ x.id
unfolding rotated
rotated-id s old x = ground arith

ended-id : (s x : Session) → (ended s x).id ≡ x.id
unfolding ended
ended-id s x = ground arith

rotated_revoked :
    (s : Session) (old : ℕ) (r : Session) → is_none r.revoked_at ≡ false → rotated s old r ≡ r
unfolding rotated is_current
rotated_revoked s old r v = ground arith

ended_revoked : (s r : Session) → is_none r.revoked_at ≡ false → ended s r ≡ r
unfolding ended
ended_revoked s r v = ground arith

-- A revoked session stays as it is under every statement.
step-revoked :
    {issued new old : List ℕ} {t t' : Tables} (r : Session) (id : ℕ)
    → is_none r.revoked_at ≡ false
    → session_by_id id t ≡ some r
    → Step issued t new old t'
    → session_by_id id t' ≡ some r
unfolding session_by_id revoke_session_row
step-revoked r id v h (account a u t t' e) = rw (insert_account-sessions a u t t' e) h
step-revoked r id v h (session s u t t' f e) =
    rw (insert_session-sessions s u t t' e)
      (find?-append (λ (x : Session). x.id == id) t.sessions _ r h)
step-revoked r id v h (rotation s old t t' f e) =
    rw ((rotate_session-sessions s old t t' e).1)
      (find?-map (rotated s old) id t.sessions r (rotated-id s old) (rotated_revoked s old r v) h)
step-revoked r id v h (late s old t t' e) = rw (late-sessions s old t t' e) h
step-revoked r id v h (revocation s t) =
    find?-map (ended s) id t.sessions r (ended-id s) (ended_revoked s r v) h

-- Revocation is final: a revoked session is found under its id as it was, with the instant and the
-- reason of its first revocation and the same hashes, after any statements.
pub revoked_stays :
    (t₀ : Tables) (issued₀ : List ℕ) (r : Session) (id : ℕ) {issued spent : List ℕ} {t : Tables}
    → is_none r.revoked_at ≡ false
    → session_by_id id t₀ ≡ some r
    → Life t₀ issued₀ issued spent t
    → session_by_id id t ≡ some r
revoked_stays t₀ issued₀ r id v h start = h
revoked_stays t₀ issued₀ r id v h (next l s) =
    step-revoked r id v (revoked_stays t₀ issued₀ r id v h l) s
