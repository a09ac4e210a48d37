-- ===== src/Catalog/Tracks.antt =====
-- The tracks of services/catalog/internal/adapters/postgres/repositories.go, and the requests of
-- services/catalog/internal/application/usecases.go that change them, with their event.
--
-- A row is a `Track` with its artists. The clock is an argument.
use Prim.Native.String.{String}
use icyre.Prelude.{
  ℕ, Bool, true, false, not, ◌&&◌, List, [], ◌∷◌, ◌==◌, if◌then◌else◌, filter, find?, count, any,
}
use icyre.Platform.Postgres.{
  ◌>>=◌, ◌>>◌, Result, Exec, pure, raise, lift, select, update, from_option, Pgx, pool, in_tx,
}
use icyre.Platform.Outbox.{Db}
use icyre.Platform.Outbox.Announce.{announce}
use icyre.Catalog.{
  Error, track_not_found, Track, same_status, deleted, MediaStage, TrackChanges, apply,
  advance_media,
}
use icyre.Platform.Postgres.{ok}

-- The event track.updated
pub data Event : Type 0 where
  track_updated : Track → Event

abbrev pub outbox_table : String
outbox_table = "catalog.outbox"

abbrev pub Service : Type 0 → Type 0 → Type 0
Service X A = Exec (Db (List Track) Event) X Error A

abbrev pub has_id : ℕ → Track → Bool
has_id id r = r.id == id

-- SET title, explicit, status, updated_at
unfoldable pub with_changes : Track → Track → Track
with_changes t r = record r {
  title = t.title;
  explicit = t.explicit;
  status = t.status;
  updated_at = t.updated_at;
}

-- UPDATE … WHERE id = $1
unfoldable pub update_rows : Track → List Track → List Track
unfolding with_changes
update_rows t [] = []
update_rows t (r ∷ rows) = (if r.id == t.id then with_changes t r else r) ∷ update_rows t rows

module _ {X : Type 0} where
  -- The row lock of GetForUpdate changes nothing of what is read.
  unfoldable pub get : ℕ → Service X Track
  get id = do
    found ← select (λ d. find? (has_id id) d.tables)
    from_option found (raise track_not_found)

  unfoldable pub update_track : Track → Service X (Unit {0})
  unfolding update_rows
  update_track t = do
    n ←
        update (λ d. record d { tables = update_rows t d.tables })
          (λ d. count (has_id t.id) d.tables)
    if n == 0 then raise track_not_found else pure tt

  unfoldable pub list_by_ids : List ℕ → Service X (List Track)
  list_by_ids ids =
      select
        (λ d. filter (λ r. any (λ k. k == r.id) ids && not (same_status r.status deleted)) d.tables)

  unfoldable pub store : Track × Bool → Service X Track
  unfolding update_track
  store (t, false) = pure t
  store (t, true) = do update_track t; announce outbox_table (track_updated t); pure t

  module _ (pgx : Pgx) where
    unfoldable pub modify_track : ℕ → (Track → Result Error (Track × Bool)) → Service X Track
    unfolding get store
    modify_track id modify =
        in_tx pgx pool λ _. do t ← get id; changed ← lift (modify t); store changed

pub data Request : Type 0 where
  update_request : ℕ → TrackChanges → Request
  advance_request : ℕ → MediaStage → Request

module _ {X : Type 0} (pgx : Pgx) where
  unfoldable pub update_track_fields : ℕ → TrackChanges → ℕ → Service X Track
  unfolding modify_track
  update_track_fields id c now = modify_track pgx id (apply c now)

  unfoldable pub advance_track_media : ℕ → MediaStage → ℕ → Service X Track
  unfolding modify_track
  advance_track_media id stage now = modify_track pgx id (λ t. ok (advance_media stage now t))

  unfoldable pub handle : ℕ → Request → Service X Track
  unfolding update_track_fields advance_track_media
  handle now (update_request id c) = update_track_fields id c now
  handle now (advance_request id stage) = advance_track_media id stage now
