-- ===== src/Playlist/Repository/Sql.antt =====
-- The tables of schema `playlist` (services/playlist/internal/adapters/postgres/migrations) and the
-- SQL statements of repository.go there, read over lists of rows. The statements neither enforce the
-- deferred uniqueness of positions nor bound them by int4.
use icyre.Prelude.{
  ℕ, ◌+◌, Bool, not, ◌&&◌, ◌||◌, Option, none, some, List, [], ◌∷◌, ◌++◌, map, ltb, leb, ◌==◌,
  if◌then◌else◌, length, take, filter, find?, any,
}
use icyre.Prelude.Sort.{sort_by}
use icyre.Playlist.{Playlist, Track}
use icyre.Playlist.Title.{max_title}

pub record PlaylistRow : Type 0 where
  pub id : ℕ
  pub owner_id : ℕ
  pub title : List ℕ
  pub created_at : ℕ
  pub updated_at : ℕ

pub record TrackRow : Type 0 where
  pub playlist_id : ℕ
  pub track : Track

pub record Tables : Type 0 where
  pub playlists : List PlaylistRow
  pub playlist_tracks : List TrackRow

abbrev pub of_playlist : ℕ → TrackRow → Bool
of_playlist id r = r.playlist_id == id

-- WHERE playlist_id = id
unfoldable pub tracks_of : ℕ → List TrackRow → List Track
tracks_of id [] = []
tracks_of id (r ∷ rs) =
    let rest = tracks_of id rs in if r.playlist_id == id then r.track ∷ rest else rest

-- selectPlaylist and scan
unfoldable pub scan : Tables → PlaylistRow → Playlist
unfolding tracks_of
scan t r = record {
  id = r.id;
  owner_id = r.owner_id;
  title = r.title;
  track_count = length (tracks_of r.id t.playlist_tracks);
  created_at = r.created_at;
  updated_at = r.updated_at;
}

-- PRIMARY KEY and the CHECK on char_length(title)
unfoldable pub insert_playlist : Playlist → Tables → Option Tables
insert_playlist p t =
    if any (λ (r : PlaylistRow). r.id == p.id) t.playlists
      || not (leb 1 (length p.title) && leb (length p.title) max_title)
    then none
    else some (record t {
      playlists =
          t.playlists
          ++ record {
            id = p.id;
            owner_id = p.owner_id;
            title = p.title;
            created_at = p.created_at;
            updated_at = p.updated_at;
          }
            ∷ [];
    })

unfoldable pub find_playlist : ℕ → Tables → Option Playlist
unfolding scan
find_playlist id t = elim (find? (λ (r : PlaylistRow). r.id == id) t.playlists) [
  | none ↦ none
  | some r ↦ some (scan t r)
]

-- ORDER BY updated_at DESC, id DESC
abbrev pub recent_first : PlaylistRow → PlaylistRow → Bool
recent_first a b = ltb b.updated_at a.updated_at || a.updated_at == b.updated_at && leb b.id a.id

unfoldable pub by_owner : ℕ → Tables → List Playlist
unfolding scan
by_owner owner t =
    map (scan t) (take 200 (sort_by recent_first (filter (λ r. r.owner_id == owner) t.playlists)))

-- WHERE p.id > after ORDER BY p.id LIMIT limit
unfoldable pub page : ℕ → ℕ → Tables → List Playlist
unfolding scan
page after limit t =
    map (scan t)
      (take limit (sort_by (λ a b. leb a.id b.id) (filter (λ r. ltb after r.id) t.playlists)))

-- ORDER BY position
unfoldable pub tracks : ℕ → Tables → List Track
unfolding tracks_of
tracks id t = sort_by (λ a b. leb a.position b.position) (tracks_of id t.playlist_tracks)

-- UPDATE … WHERE id = …
unfoldable pub on_playlist : ℕ → (PlaylistRow → PlaylistRow) → List PlaylistRow → List PlaylistRow
on_playlist id f [] = []
on_playlist id f (r ∷ rs) = (if r.id == id then f r else r) ∷ on_playlist id f rs

abbrev pub has_playlist : ℕ → Tables → Bool
has_playlist id t = any (λ (r : PlaylistRow). r.id == id) t.playlists

unfoldable pub set_title : ℕ → List ℕ → ℕ → Tables → Tables
unfolding on_playlist
set_title id title at t = record t {
  playlists = on_playlist id (λ r. record r { title = title; updated_at = at }) t.playlists;
}

unfoldable pub touch : ℕ → ℕ → Tables → Tables
unfolding on_playlist
touch id at t = record t {
  playlists = on_playlist id (λ r. record r { updated_at = at }) t.playlists;
}

-- DELETE FROM playlist.playlists, ON DELETE CASCADE
unfoldable pub delete_playlist : ℕ → Tables → Tables
delete_playlist id t = record {
  playlists = filter (λ r. not (r.id == id)) t.playlists;
  playlist_tracks = filter (λ r. not (r.playlist_id == id)) t.playlist_tracks;
}

-- coalesce(max(position), 0)
unfoldable pub last_position : List Track → ℕ
last_position [] = 0
last_position (t ∷ ts) =
    let rest = last_position ts in if ltb rest t.position then t.position else rest

abbrev pub is_track : ℕ → ℕ → TrackRow → Bool
is_track id track_id r = r.playlist_id == id && r.track.track_id == track_id

abbrev pub has_track : ℕ → ℕ → Tables → Bool
has_track id track_id t = any (is_track id track_id) t.playlist_tracks

-- INSERT … SELECT coalesce(max(position), 0) + 1
unfoldable pub append_track : ℕ → Track → Tables → Tables
unfolding last_position tracks_of
append_track id track t = record t {
  playlist_tracks =
      t.playlist_tracks
      ++ record {
        playlist_id = id;
        track = record track { position = last_position (tracks_of id t.playlist_tracks) + 1 };
      }
        ∷ [];
}

unfoldable pub remove_track : ℕ → ℕ → Tables → Tables
remove_track id track_id t = record t {
  playlist_tracks = filter (λ r. not (is_track id track_id r)) t.playlist_tracks;
}

-- unnest(order) WITH ORDINALITY: the place of an id in the order, counted from `from`
unfoldable pub ordinal : ℕ → ℕ → List ℕ → Option ℕ
ordinal from id [] = none
ordinal from id (x ∷ xs) =
    let rest = ordinal (from + 1) id xs in if x == id then some from else rest

unfoldable pub place : ℕ → List ℕ → TrackRow → TrackRow
unfolding ordinal
place id order r =
    if r.playlist_id == id
    then elim (ordinal 1 r.track.track_id order) [
      | none ↦ r
      | some pos ↦ record r { track = record r.track { position = pos } }
    ]
    else r

-- UPDATE … SET position = o.pos
unfoldable pub reorder : ℕ → List ℕ → Tables → Tables
unfolding place
reorder id order t = record t { playlist_tracks = map (place id order) t.playlist_tracks }
