-- ===== src/Playlist/Tests.antt =====
-- The Playlist service at a table with one playlist of two tracks.
use mathlib.Core.List.{Perm}
use icyre.Prelude.{ℕ, ◌≡◌, refl, true, false, some, List, [], ◌∷◌, arith}
use icyre.Platform.Postgres.{Fails, World, ◌>>=◌, select, update, in_tx}
use icyre.Platform.Outbox.{Db}
use icyre.Platform.Postgres.Reference.{reference}
use icyre.Playlist.{check_order}
use icyre.Playlist.Order.{track_ids, check_order-iff-perm}
use icyre.Playlist.Title.{
  IsTitle, fields, normalize_title, normalize_title_iff, normalize_title-IsTitle,
}
use icyre.Playlist.Repository.Sql.{Tables, find_playlist, TrackRow, tracks, tracks_of, reorder}
use icyre.Playlist.Repository.WellFormed.{IsWellFormed}
use icyre.Playlist.Repository.Reordered.{placed, reorder-tracks}
use icyre.Playlist.Repository.Positions.{tracks_of-Nodup}
use icyre.Playlist.Repository
use icyre.Playlist.Service
use icyre.Playlist.Service.{Event, Request, reorder_request, serve}
use icyre.Playlist.Service.Atomicity.{serve_failed}
use icyre.Playlist.Service.Invariant.{serve-IsWellFormed}

-- "  a  b" and "a b"
abbrev untidy : List ℕ
untidy = 32 ∷ 32 ∷ 97 ∷ 9 ∷ 32 ∷ 98 ∷ []

abbrev tidy : List ℕ
tidy = 97 ∷ 32 ∷ 98 ∷ []

tidied : normalize_title untidy ≡ some tidy
unfolding normalize_title
tidied = refl

normalize_title_iff_example : IsTitle tidy × (fields tidy ≡ fields untidy)
normalize_title_iff_example = (normalize_title_iff untidy tidy).0 tidied

abbrev track : ℕ → ℕ → TrackRow
track id position = record {
  playlist_id = 5;
  track = record { track_id = id; position = position; added_by = 1; added_at = 0 };
}

abbrev tables : Tables
tables = record {
  playlists = record { id = 5; owner_id = 1; title = tidy; created_at = 0; updated_at = 0 } ∷ [];
  playlist_tracks = track 70 1 ∷ track 71 4 ∷ [];
}

tables-IsWellFormed : IsWellFormed tables
tables-IsWellFormed = record {
  ids = (tt, tt);
  titles = ((normalize_title-IsTitle untidy tidy tidied).0, tt);
  places = (((λ _. (λ e. omega arith, λ e. omega arith)), tt), (tt, tt));
  positive = omega arith;
  owned = (refl, (refl, tt));
}

accepted : check_order (tracks_of 5 tables.playlist_tracks) (71 ∷ 70 ∷ []) ≡ true
unfolding check_order tracks_of
accepted = refl

check_order-iff-perm_example : Perm (71 ∷ 70 ∷ []) (track_ids (tracks_of 5 tables.playlist_tracks))
check_order-iff-perm_example =
    (check_order-iff-perm (tracks_of 5 tables.playlist_tracks) (71 ∷ 70 ∷ [])
        (tracks_of-Nodup 5 tables.playlist_tracks tables-IsWellFormed.places)).0
      accepted

reorder-tracks_example :
    placed (tracks 5 (reorder 5 (71 ∷ 70 ∷ []) tables)) ≡ (71, 1) ∷ (70, 2) ∷ []
reorder-tracks_example = reorder-tracks 5 (71 ∷ 70 ∷ []) tables tables-IsWellFormed accepted

-- The write of the order meets a broken connection.
abbrev broken : World (Db Tables Event) (Unit {0})
broken = record {
  db = record { tables = tables; outbox = record { rows = []; next_id = 0 } };
  outside = tt;
  faults = false ∷ false ∷ false ∷ false ∷ true ∷ [];
}

abbrev calm : World (Db Tables Event) (Unit {0})
calm = record broken { faults = [] }

abbrev swap : Request
swap = reorder_request 5 (71 ∷ 70 ∷ [])

broken-Fails : Fails (serve reference 1 3000 swap broken).0
unfolding serve reference Service.reorder ◌>>=◌ Repository.get select find_playlist in_tx
    Repository.reorder_tracks check_order update
broken-Fails = tt

serve_failed_example : (serve reference 1 3000 swap broken).1.db ≡ broken.db
serve_failed_example = serve_failed reference 1 3000 swap broken broken-Fails

serve-IsWellFormed_example : IsWellFormed (serve reference 1 3000 swap calm).1.db.tables
serve-IsWellFormed_example = serve-IsWellFormed reference 1 3000 swap calm tables-IsWellFormed
