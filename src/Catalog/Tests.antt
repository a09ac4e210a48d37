-- ===== src/Catalog/Tests.antt =====
-- The track of an album, ready and then deleted.
use icyre.Prelude.{ℕ, ◌≡◌, refl, Bool, false, none, some, [], ◌∷◌, find?}
use icyre.Platform.Postgres.{ok, World, ◌>>=◌, select, update, lift, in_tx}
use icyre.Platform.Postgres.Reference.{reference}
use icyre.Platform.Outbox.{write}
use icyre.Platform.Outbox.Announce.{announce}
use icyre.Platform.Outbox.TableName.{check_table}
use icyre.Catalog.{
  Track, TrackStatus, draft, processing, media_uploaded, TrackChanges, advance_media,
}
use icyre.Catalog.Lifecycle.{Follows, advance_media_again}
use icyre.Catalog.Tracks.{has_id, advance_request, handle}
use icyre.Catalog.Requests.{CatalogDb, outcome}
use icyre.Catalog.Announced.{IsAnnounced, handle-Announced}
use icyre.Catalog.Deleted.{handle-Follows}

abbrev song : TrackStatus → ℕ → Track
song status at = record {
  id = 7;
  album_id = 3;
  artist_ids = 9 ∷ [];
  title = 97 ∷ [];
  duration = 180000;
  track_number = 1;
  disc_number = 1;
  explicit = false;
  isrc = [];
  status = status;
  created_at = 1;
  updated_at = at;
}

abbrev world : TrackStatus → World CatalogDb (Unit {0})
world status = record {
  db = record { tables = song status 1 ∷ []; outbox = record { rows = []; next_id = 0 } };
  outside = tt;
  faults = [];
}

abbrev to_draft : TrackChanges
to_draft = record { title = none; explicit = none; status = some (some draft) }

uploaded :
    (handle reference 5 (advance_request 7 media_uploaded) (world draft)).0 ≡ ok (song processing 5)
unfolding handle reference ◌>>=◌ in_tx lift select update announce write check_table advance_media
uploaded = refl

handle-Announced_example :
    (t : Track) × (changed : Bool) × (find? (has_id 7) (world draft).db.tables ≡ some t)
    × (outcome 5 (advance_request 7 media_uploaded) t ≡ ok (song processing 5, changed))
    × IsAnnounced 7 changed
        (song processing 5)
        (world draft).db
        (handle reference 5 (advance_request 7 media_uploaded) (world draft)).1.db
handle-Announced_example =
    handle-Announced reference 5 (advance_request 7 media_uploaded) (song processing 5)
      (world draft) (handle reference 5 (advance_request 7 media_uploaded) (world draft)).1
      (λ i. (uploaded i, (handle reference 5 (advance_request 7 media_uploaded) (world draft)).1))

handle-Follows_example :
    (t' : Track) × (find?
        (has_id 7)
        (handle reference 5 (advance_request 7 media_uploaded) (world draft)).1.db.tables
      ≡ some t')
    × Follows (song draft 1) t'
handle-Follows_example =
    handle-Follows reference 5 (advance_request 7 media_uploaded) 7 (song draft 1) (world draft)
      refl

advance_media_again_example :
    advance_media media_uploaded 6 (advance_media media_uploaded 5 (song draft 1)).0
    ≡ ((advance_media media_uploaded 5 (song draft 1)).0, false)
advance_media_again_example = advance_media_again media_uploaded 5 6 (song draft 1)
