-- ===== src/Playlist/Repository/WellFormed.antt =====
-- The constraints of schema `playlist`, and its statements one by one.
use icyre.Prelude.{
  ℕ, ◌<◌, ◌≡◌, ◌≢◌, refl, ◌∙◌, inl, inr, Bool, true, false, not, some, List, [], ◌∷◌, ◌++◌, arith,
  ◌==◌, if◌then◌else◌, Bool-cases, filter, any, All, any-append,
}
use icyre.Prelude.Pairwise.{
  All-append, All-filter, All-filter_test, All-any_false, All-imp, All-zip, Pairwise, Pairwise-last,
  Pairwise-filter,
}
use icyre.Playlist.{Playlist}
use icyre.Playlist.Title.{IsTitle}
use icyre.Playlist.Repository.Sql.{
  PlaylistRow, TrackRow, Tables, has_playlist, is_track, insert_playlist, on_playlist, set_title,
  touch, delete_playlist, remove_track,
}

-- PRIMARY KEY (playlist_id, track_id) and UNIQUE (playlist_id, position)
abbrev pub Apart : TrackRow → TrackRow → Type 0
Apart r s =
    r.playlist_id ≡ s.playlist_id
    → (r.track.track_id ≢ s.track.track_id) × (r.track.position ≢ s.track.position)

pub record IsWellFormed (t : Tables) : Type 0 where
  pub ids : Pairwise (λ (r s : PlaylistRow). r.id ≢ s.id) t.playlists
  pub titles : All (λ (r : PlaylistRow). IsTitle r.title) t.playlists
  pub places : Pairwise Apart t.playlist_tracks
  pub positive : All (λ (r : TrackRow). 0 < r.track.position) t.playlist_tracks
  -- REFERENCES playlist.playlists
  pub owned : All (λ (r : TrackRow). has_playlist r.playlist_id t ≡ true) t.playlist_tracks

pub insert_playlist-IsWellFormed :
    (p : Playlist) (t t' : Tables)
    → IsTitle p.title
    → IsWellFormed t
    → insert_playlist p t ≡ some t'
    → IsWellFormed t'
unfolding insert_playlist
insert_playlist-IsWellFormed p t t' title w e =
    let row : PlaylistRow = record {
      id = p.id;
      owner_id = p.owner_id;
      title = p.title;
      created_at = p.created_at;
      updated_at = p.updated_at;
    } in
    let new : any (λ (r : PlaylistRow). r.id == p.id) t.playlists ≡ false = ground arith in
    let same : t' ≡ record t { playlists = t.playlists ++ row ∷ [] } = ground arith in
    rw same (record {
      ids =
          Pairwise-last (λ r s. r.id ≢ s.id) t.playlists row w.ids
            (All-any_false (λ r. r.id ≢ p.id) (λ r. r.id == p.id) t.playlists (λ x k. ground arith)
              new);
      titles = All-append (λ r. IsTitle r.title) t.playlists (row ∷ []) w.titles (title, tt);
      places = w.places;
      positive = w.positive;
      owned =
          All-imp t.playlist_tracks
            (λ r h.
              any-append (λ (q : PlaylistRow). q.id == r.playlist_id) t.playlists (row ∷ []) h)
            w.owned;
    })

-- An UPDATE that keeps ids and well-formed titles.
module _ (id : ℕ) (f : PlaylistRow → PlaylistRow)
    (keeps : (r : PlaylistRow) → (f r).id ≡ r.id) where
  any-on_playlist :
      (j : ℕ) (rs : List PlaylistRow)
      → any (λ (r : PlaylistRow). r.id == j) (on_playlist id f rs)
        ≡ any (λ (r : PlaylistRow). r.id == j) rs
  unfolding on_playlist
  any-on_playlist j [] = refl
  any-on_playlist j (r ∷ rs) = ground (arith, keeps r, any-on_playlist j rs)

  All-on_playlist :
      (j : ℕ) (rs : List PlaylistRow)
      → All (λ (r : PlaylistRow). j ≢ r.id) rs
      → All (λ (r : PlaylistRow). j ≢ r.id) (on_playlist id f rs)
  unfolding on_playlist
  All-on_playlist j [] h = tt
  All-on_playlist j (r ∷ rs) h = (ground (arith, keeps r, h.0), All-on_playlist j rs h.1)

  Pairwise-on_playlist :
      (rs : List PlaylistRow)
      → Pairwise (λ (r s : PlaylistRow). r.id ≢ s.id) rs
      → Pairwise (λ (r s : PlaylistRow). r.id ≢ s.id) (on_playlist id f rs)
  unfolding on_playlist
  Pairwise-on_playlist [] h = tt
  Pairwise-on_playlist (r ∷ rs) h =
      let same : (if r.id == id then f r else r).id ≡ r.id = ground (arith, keeps r) in
      (rw same (All-on_playlist r.id rs h.0), Pairwise-on_playlist rs h.1)

  titles-on_playlist :
      (rs : List PlaylistRow)
      → ((r : PlaylistRow) → IsTitle r.title → IsTitle (f r).title)
      → All (λ (r : PlaylistRow). IsTitle r.title) rs
      → All (λ (r : PlaylistRow). IsTitle r.title) (on_playlist id f rs)
  unfolding on_playlist
  titles-on_playlist [] k h = tt
  titles-on_playlist (r ∷ rs) k h = elim (Bool-cases (r.id == id)) [
    | inl e ↦ rw e (k r h.0, titles-on_playlist rs k h.1)
    | inr e ↦ rw e (h.0, titles-on_playlist rs k h.1)
  ]

  on_playlist-IsWellFormed :
      (t : Tables)
      → ((r : PlaylistRow) → IsTitle r.title → IsTitle (f r).title)
      → IsWellFormed t
      → IsWellFormed (record t { playlists = on_playlist id f t.playlists })
  on_playlist-IsWellFormed t k w = record {
    ids = Pairwise-on_playlist t.playlists w.ids;
    titles = titles-on_playlist t.playlists k w.titles;
    places = w.places;
    positive = w.positive;
    owned =
        All-imp t.playlist_tracks (λ r h. any-on_playlist r.playlist_id t.playlists ∙ h) w.owned;
  }

pub set_title-IsWellFormed :
    (id : ℕ) (title : List ℕ) (at : ℕ) (t : Tables)
    → IsTitle title
    → IsWellFormed t
    → IsWellFormed (set_title id title at t)
unfolding set_title
set_title-IsWellFormed id title at t h = on_playlist-IsWellFormed id _ (λ r. refl) t (λ r _. h)

pub touch-IsWellFormed : (id at : ℕ) (t : Tables) → IsWellFormed t → IsWellFormed (touch id at t)
unfolding touch
touch-IsWellFormed id at t = on_playlist-IsWellFormed id _ (λ r. refl) t (λ r h. h)

any-filter_ne :
    (id j : ℕ) (rs : List PlaylistRow)
    → (j == id) ≡ false
    → any (λ (r : PlaylistRow). r.id == j) (filter (λ r. not (r.id == id)) rs)
      ≡ any (λ (r : PlaylistRow). r.id == j) rs
any-filter_ne id j [] h = refl
any-filter_ne id j (r ∷ rs) h = ground (arith, any-filter_ne id j rs h)

pub delete_playlist-IsWellFormed :
    (id : ℕ) (t : Tables) → IsWellFormed t → IsWellFormed (delete_playlist id t)
unfolding delete_playlist
delete_playlist-IsWellFormed id t w = record {
  ids = Pairwise-filter (λ r s. r.id ≢ s.id) (λ r. not (r.id == id)) t.playlists w.ids;
  titles = All-filter (λ r. IsTitle r.title) (λ r. not (r.id == id)) t.playlists w.titles;
  places = Pairwise-filter Apart others t.playlist_tracks w.places;
  positive = All-filter (λ r. 0 < r.track.position) others t.playlist_tracks w.positive;
  owned =
      All-imp (filter others t.playlist_tracks)
        (λ r h. any-filter_ne id r.playlist_id t.playlists (ground (arith, h.1)) ∙ h.0)
        (All-zip (λ r. has_playlist r.playlist_id t ≡ true) (λ r. others r ≡ true)
          (filter others t.playlist_tracks)
          (All-filter (λ r. has_playlist r.playlist_id t ≡ true) others t.playlist_tracks w.owned)
          (All-filter_test (λ r. others r ≡ true) others t.playlist_tracks (λ x e. e)));
}
  where
    others : TrackRow → Bool
    others r = not (r.playlist_id == id)

pub remove_track-IsWellFormed :
    (id track_id : ℕ) (t : Tables) → IsWellFormed t → IsWellFormed (remove_track id track_id t)
unfolding remove_track
remove_track-IsWellFormed id track_id t w = record {
  ids = w.ids;
  titles = w.titles;
  places = Pairwise-filter Apart others t.playlist_tracks w.places;
  positive = All-filter (λ r. 0 < r.track.position) others t.playlist_tracks w.positive;
  owned = All-filter (λ r. has_playlist r.playlist_id t ≡ true) others t.playlist_tracks w.owned;
}
  where
    others : TrackRow → Bool
    others r = not (is_track id track_id r)
