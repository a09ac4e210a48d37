-- ===== src/Catalog/Requests.antt =====
-- Requests to services/catalog/internal/application/usecases.go that change a track, whether they
-- succeed or fail.
use mathlib.Core.Path.{subst}
use icyre.Prelude.{
  ℕ, ◌≡◌, refl, sym, ap, ◌∙◌, Bool, true, false, some, List, ◌==◌, if◌then◌else◌, find?,
}
use icyre.Platform.Postgres.{ok, Result, World, Pgx, raise, pure}
use icyre.Platform.Postgres.Atomic.{IsAtomic, atomic_rules}
use icyre.Platform.Postgres.Inversion.{
  Returns, bind-ok, pure-ok, raise-ok, select-ok, update-ok, in_tx-ok, lift-ok, from_option-ok,
}
use icyre.Platform.Outbox.{Db, insert}
use icyre.Platform.Outbox.TableName.{check_table, codes}
use icyre.Platform.Outbox.Announce.{announce-ok}
use icyre.Catalog.{Error, Track, apply, advance_media}
use icyre.Catalog.Tracks.{
  Event, track_updated, outbox_table, has_id, update_rows, get, update_track, store, modify_track,
  Request, update_request, advance_request, update_track_fields, advance_track_media, handle,
}

abbrev pub CatalogDb : Type 0
CatalogDb = Db (List Track) Event

table_checked : check_table (codes outbox_table) ≡ true
unfolding check_table
table_checked = refl

-- The rows and the event of a changed track
abbrev pub with_updated : Track → CatalogDb → CatalogDb
with_updated t d = record {
  tables = update_rows t d.tables;
  outbox = insert (track_updated t) d.outbox;
}

-- What a request makes of the track that it reads
abbrev pub outcome : ℕ → Request → Track → Result Error (Track × Bool)
outcome now (update_request id c) t = apply c now t
outcome now (advance_request id stage) t = ok (advance_media stage now t)

abbrev pub subject : Request → ℕ
subject (update_request id c) = id
subject (advance_request id stage) = id

module _ {X : Type 0} where
  abbrev db_of : World CatalogDb X → CatalogDb
  db_of w = w.db

  get-ok :
      (id : ℕ) (t : Track) (w w₁ : World CatalogDb X)
      → Returns (get id) w t w₁
      → (find? (has_id id) w.db.tables ≡ some t) × (w₁.db ≡ w.db)
  unfolding get
  get-ok id t w w₁ h =
      let (found, v, e, f) = bind-ok _ _ w w₁ t h in
      let (read, same, _) = select-ok _ w v found e in
      let (there, world) = from_option-ok found _ t v w₁ f in
      (sym read ∙ there, ap db_of world ∙ same)

  if-ok :
      (b : Bool) (e : Error) (w w₁ : World CatalogDb X)
      → Returns {A = Unit {0}} (if b then raise e else pure tt) w tt w₁
      → w₁ ≡ w
  if-ok true e w w₁ h = absurd (raise-ok e tt w w₁ h)
  if-ok false e w w₁ h = let (_, same) = pure-ok tt tt w w₁ h in sym same

  update_track-ok :
      (t : Track) (w w₁ : World CatalogDb X)
      → Returns (update_track t) w tt w₁
      → w₁.db ≡ record w.db { tables = update_rows t w.db.tables }
  unfolding update_track
  update_track-ok t w w₁ h =
      let (n, v, e, f) = bind-ok _ _ w w₁ tt h in
      let (_, after, _) = update-ok _ _ w v n e in ap db_of (if-ok (n == 0) _ v w₁ f) ∙ after

  store-ok :
      (p : Track × Bool) (t : Track) (w w₁ : World CatalogDb X)
      → Returns (store p) w t w₁
      → (t ≡ p.0) × (w₁.db ≡ (if p.1 then with_updated p.0 w.db else w.db))
  unfolding store
  store-ok (u, false) t w w₁ h =
      let (same, world) = pure-ok u t w w₁ h in (sym same, ap db_of (sym world))
  store-ok (u, true) t w w₁ h =
      let (_, v, e, f) = bind-ok _ _ w w₁ t h in
      let (_, v₂, e₂, f₂) = bind-ok _ _ v w₁ t f in
      let (same, world) = pure-ok u t v₂ w₁ f₂ in
      let wrote = update_track-ok u w v e in
      let told = announce-ok outbox_table (track_updated u) v v₂ table_checked e₂ in
      (
        sym same,
        ap db_of (sym world)
            ∙ told
            ∙ ap (λ (d : CatalogDb). record d { outbox = insert (track_updated u) d.outbox }) wrote,
      )

module _ {X : Type 0} (pgx : Pgx) where
  modify_track-ok :
      (id : ℕ) (modify : Track → Result Error (Track × Bool)) (t' : Track)
      (w w' : World CatalogDb X)
      → Returns (modify_track pgx id modify) w t' w'
      → (t : Track) × (changed : Bool) × (find? (has_id id) w.db.tables ≡ some t)
        × (modify t ≡ ok (t', changed))
        × (w'.db ≡ (if changed then with_updated t' w.db else w.db))
  unfolding modify_track
  modify_track-ok id modify t' w w' h =
      let (w₁, w₂, began, ran, after) = in_tx-ok pgx _ w w' t' h in
      let (t, v, e, f) = bind-ok _ _ w₁ w₂ t' ran in
      let (found, same) = get-ok id t w₁ v e in
      let (p, v₂, e₂, f₂) = bind-ok _ _ v w₂ t' f in
      let (made, world) = lift-ok (modify t) p v v₂ e₂ in
      let (result, wrote) = store-ok p t' v₂ w₂ f₂ in
      let start : v₂.db ≡ w.db = ap db_of world ∙ same ∙ began in
      (
        t,
        p.1,
        subst (λ (d : CatalogDb). find? (has_id id) d.tables ≡ some t) began found,
        made ∙ ap (λ u. ok (u, p.1)) (sym result),
        after ∙ wrote ∙ (λ i. if p.1 then with_updated (sym result i) (start i) else start i),
      )

  -- What a request that returns a track makes of the database
  pub handle-ok :
      (now : ℕ) (q : Request) (t' : Track) (w w' : World CatalogDb X)
      → Returns (handle pgx now q) w t' w'
      → (t : Track) × (changed : Bool) × (find? (has_id (subject q)) w.db.tables ≡ some t)
        × (outcome now q t ≡ ok (t', changed))
        × (w'.db ≡ (if changed then with_updated t' w.db else w.db))
  unfolding handle update_track_fields advance_track_media
  handle-ok now (update_request id c) t' w w' h = modify_track-ok id (apply c now) t' w w' h
  handle-ok now (advance_request id stage) t' w w' h =
      modify_track-ok id (λ t. ok (advance_media stage now t)) t' w w' h

  pub handle-IsAtomic : (now : ℕ) (q : Request) → IsAtomic {X = X} (handle pgx now q)
  unfolding handle update_track_fields advance_track_media modify_track
  handle-IsAtomic now (update_request id c) = search atomic_rules
  handle-IsAtomic now (advance_request id stage) = search atomic_rules
