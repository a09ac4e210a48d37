-- ===== src/Catalog/Deleted.antt =====
-- The tracks of services/catalog/internal/application/usecases.go under a request, whatever comes of it.
use mathlib.Core.Path.{subst}
use icyre.Prelude.{
  ℕ, ◌≡◌, inl, inr, refl, sym, ap, ◌∙◌, Bool, true, false, Bool-cases, Option, some, List, [], ◌∷◌,
  arith, ◌==◌, ==_iff, if◌then◌else◌, find?,
}
use icyre.Platform.Postgres.{ok, err, fault, Fails, Result, World, Pgx}
use icyre.Catalog.{Error, Track}
use icyre.Catalog.Lifecycle.{Follows, Follows-refl, apply-Follows, advance_media-Follows}
use icyre.Catalog.Tracks.{
  has_id, with_changes, update_rows, Request, update_request, advance_request, handle,
}
use icyre.Catalog.Requests.{CatalogDb, outcome, subject, with_updated, handle-ok, handle-IsAtomic}

pub outcome-Follows :
    (now : ℕ) (q : Request) (t t' : Track) (changed : Bool)
    → outcome now q t ≡ ok (t', changed)
    → Follows t t'
outcome-Follows now (update_request id c) t t' changed h = apply-Follows c now t t' changed h
outcome-Follows now (advance_request id stage) t t' changed h =
    subst (Follows t) (first_eq _ t' changed h) (advance_media-Follows stage now t)
  where
    first_eq :
        (p : Track × Bool) (u : Track) (b : Bool)
        → ◌≡◌ {A = Result Error (Track × Bool)} (ok p) (ok (u, b))
        → p.0 ≡ u
    first_eq p u b e = let same : p ≡ (u, b) = cc in ap (λ (z : Track × Bool). z.0) same

some_eq : (a b : Track) → ◌≡◌ {A = Option Track} (some a) (some b) → a ≡ b
some_eq a b k = cc

find_hit : (p : Track → Bool) (x : Track) (xs : List Track) → p x ≡ true → find? p (x ∷ xs) ≡ some x
find_hit p x xs h = rw h refl

find_miss :
    (p : Track → Bool) (x : Track) (xs : List Track) → p x ≡ false → find? p (x ∷ xs) ≡ find? p xs
find_miss p x xs h = rw h refl

pub find-id : (id : ℕ) (t : Track) (rows : List Track) → find? (has_id id) rows ≡ some t → t.id ≡ id
find-id id t [] h = absurd (ground arith)
find-id id t (r ∷ rows) h = elim (Bool-cases (has_id id r)) [
  | inl e ↦
      let same : r ≡ t = some_eq r t (sym (find_hit (has_id id) r rows e) ∙ h) in
      ap (λ (z : Track). z.id) (sym same) ∙ (==_iff r.id id).0 e
  | inr e ↦ find-id id t rows (sym (find_miss (has_id id) r rows e) ∙ h)
]

updated_id : (u r : Track) (b : Bool) → (if b then with_changes u r else r).id ≡ r.id
unfolding with_changes
updated_id u r true = refl
updated_id u r false = refl

pub find-update_rows :
    (u t : Track) (id : ℕ) (rows : List Track)
    → find? (has_id id) rows ≡ some t
    → find? (has_id id) (update_rows u rows) ≡ some (if t.id == u.id then with_changes u t else t)
unfolding update_rows
find-update_rows u t id [] h = absurd (ground arith)
find-update_rows u t id (r ∷ rows) h =
    let written : Track = if r.id == u.id then with_changes u r else r in
    let same_id : has_id id written ≡ has_id id r =
      ap (λ k. k == id) (updated_id u r (r.id == u.id)) in
    elim (Bool-cases (has_id id r)) [
      | inl e ↦
          let same : r ≡ t = some_eq r t (sym (find_hit (has_id id) r rows e) ∙ h) in
          find_hit (has_id id) written (update_rows u rows) (same_id ∙ e)
          ∙ ap (λ (z : Track). some (if z.id == u.id then with_changes u z else z)) same
      | inr e ↦
          find_miss (has_id id) written (update_rows u rows) (same_id ∙ e)
          ∙ find-update_rows u t id rows (sym (find_miss (has_id id) r rows e) ∙ h)
    ]

-- The track that a request has written, seen under its id
abbrev Found : ℕ → Track → CatalogDb → Type 0
Found id t d = (t' : Track) × (find? (has_id id) d.tables ≡ some t') × Follows t t'

updated-Found :
    (id : ℕ) (t s t' : Track) (key : ℕ) (d : CatalogDb)
    → find? (has_id id) d.tables ≡ some t
    → find? (has_id key) d.tables ≡ some s
    → Follows s t'
    → Found id t (with_updated t' d)
unfolding with_changes
updated-Found id t s t' key d h k f =
    let under = find-update_rows t' t id d.tables h in
    elim (Bool-cases (t.id == t'.id)) [
      | inr e ↦ (t, under ∙ (rw e refl), Follows-refl t)
      | inl e ↦
          let keys : id ≡ key =
            sym (find-id id t d.tables h)
            ∙ (==_iff t.id t'.id).0 e
            ∙ ap (λ (z : Track). z.id) f.kept
            ∙ find-id key s d.tables k in
          let same : t ≡ s = some_eq t s (sym h ∙ ap (λ n. find? (has_id n) d.tables) keys ∙ k) in
          (
            t',
            under
                ∙ (rw e (ap (λ z. some (with_changes t' z)) same ∙ ap (λ z. some z) (sym f.kept))),
            subst (λ z. Follows z t') (sym same) f,
          )
    ]

module _ {X : Type 0} (pgx : Pgx) where
  -- Under every request, whether it succeeds or fails and at whatever call, a track stays under its id,
  -- and changes in its title, its flag, its status and its time alone: the status along the state
  -- machine or from DRAFT to READY, and nothing of it once it is deleted.
  pub handle-Follows :
      (now : ℕ) (q : Request) (id : ℕ) (t : Track) (w : World CatalogDb X)
      → find? (has_id id) w.db.tables ≡ some t
      → (t' : Track) × (find? (has_id id) (handle pgx now q w).1.db.tables ≡ some t') × Follows t t'
  handle-Follows now q id t w h = settle (handle pgx now q w).0 refl
    where
      either :
          (s u : Track) (b : Bool)
          → find? (has_id (subject q)) w.db.tables ≡ some s
          → Follows s u
          → Found id t (if b then with_updated u w.db else w.db)
      either s u true found f = updated-Found id t s u (subject q) w.db h found f
      either s u false found f = (t, h, Follows-refl t)

      settle :
          (r : Result Error Track)
          → (handle pgx now q w).0 ≡ r
          → Found id t (handle pgx now q w).1.db
      settle (ok u) e =
          let (s, changed, found, made, wrote) =
            handle-ok pgx now q u w (handle pgx now q w).1 (λ i. (e i, (handle pgx now q w).1)) in
          subst (Found id t) (sym wrote)
            (either s u changed found (outcome-Follows now q s u changed made))
      settle (err x) e =
          subst (Found id t) (sym ((handle-IsAtomic pgx now q).at w (subst Fails (sym e) tt)))
            (t, h, Follows-refl t)
      settle fault e =
          subst (Found id t) (sym ((handle-IsAtomic pgx now q).at w (subst Fails (sym e) tt)))
            (t, h, Follows-refl t)
