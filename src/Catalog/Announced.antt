-- ===== src/Catalog/Announced.antt =====
-- What a request to services/catalog/internal/application/usecases.go that returns a track has
-- written.
use mathlib.Core.Path.{subst}
use icyre.Prelude.{
  ℕ, ◌≡◌, inl, inr, refl, sym, ap, ◌∙◌, Bool, true, false, not, Bool-cases, some, List, [], ◌∷◌,
  ◌==◌, ==_iff, if◌then◌else◌, find?, filter,
}
use icyre.Platform.Postgres.{ok, World, Pgx}
use icyre.Platform.Outbox.{insert}
use icyre.Catalog.{Track}
use icyre.Catalog.Lifecycle.{Follows}
use icyre.Catalog.Tracks.{track_updated, has_id, with_changes, update_rows, Request, handle}
use icyre.Catalog.Requests.{CatalogDb, outcome, subject, with_updated, handle-ok}
use icyre.Catalog.Deleted.{outcome-Follows, find-update_rows, find-id}

abbrev pub others : ℕ → List Track → List Track
others id rows = filter (λ r. not (has_id id r)) rows

-- A changed track is the row under its id, the other rows are as they were, and the track is
-- announced once; where nothing changed, nothing is written.
abbrev pub IsAnnounced : ℕ → Bool → Track → CatalogDb → CatalogDb → Type 0
IsAnnounced id false t before after = after ≡ before
IsAnnounced id true t before after =
    (find? (has_id id) after.tables ≡ some t)
    × (others id after.tables ≡ others id before.tables)
    × (after.outbox ≡ insert (track_updated t) before.outbox)

others-update_rows :
    (t : Track) (rows : List Track) → others t.id (update_rows t rows) ≡ others t.id rows
unfolding update_rows with_changes
others-update_rows t [] = refl
others-update_rows t (r ∷ rows) = elim (Bool-cases (has_id t.id r)) [
  | inl e ↦ rw (e, e) (others-update_rows t rows)
  | inr e ↦ rw (e, e) (ap (λ l. r ∷ l) (others-update_rows t rows))
]

-- The row under the id is the whole track.
updated-row :
    (id : ℕ) (t t' : Track) (rows : List Track)
    → find? (has_id id) rows ≡ some t
    → Follows t t'
    → find? (has_id id) (update_rows t' rows) ≡ some t'
unfolding with_changes
updated-row id t t' rows h f =
    let same : (t.id == t'.id) ≡ true =
      (==_iff t.id t'.id).1 (ap (λ (z : Track). z.id) (sym f.kept)) in
    find-update_rows t' t id rows h ∙ (rw same (ap (λ z. some z) (sym f.kept)))

written :
    (id : ℕ) (t t' : Track) (changed : Bool) (d : CatalogDb)
    → find? (has_id id) d.tables ≡ some t
    → Follows t t'
    → IsAnnounced id changed t' d (if changed then with_updated t' d else d)
written id t t' false d h f = refl
written id t t' true d h f =
    let keys : t'.id ≡ id = ap (λ (z : Track). z.id) f.kept ∙ find-id id t d.tables h in
    (
      updated-row id t t' d.tables h f,
      subst (λ n. others n (update_rows t' d.tables) ≡ others n d.tables) keys
          (others-update_rows t' d.tables),
      refl,
    )

module _ {X : Type 0} (pgx : Pgx) where
  -- A request that returns a track has found the one it changes, and returns what Apply or
  -- AdvanceMedia make of it. Where they report a change, the row under its id is the track that is
  -- returned, the other rows are as they were, and it is announced once; where they do not, nothing is
  -- written.
  pub handle-Announced :
      (now : ℕ) (q : Request) (t' : Track) (w w' : World CatalogDb X)
      → handle pgx now q w ≡ (ok t', w')
      → (t : Track) × (changed : Bool) × (find? (has_id (subject q)) w.db.tables ≡ some t)
        × (outcome now q t ≡ ok (t', changed))
        × IsAnnounced (subject q) changed t' w.db w'.db
  handle-Announced now q t' w w' h =
      let (t, changed, found, made, wrote) = handle-ok pgx now q t' w w' h in
      (
        t,
        changed,
        found,
        made,
        subst (IsAnnounced (subject q) changed t' w.db) (sym wrote)
            (written (subject q) t t' changed w.db found (outcome-Follows now q t t' changed made)),
      )
