-- ===== src/Playlist/Repository/Positions.antt =====
-- The positions of AppendTrack and Reorder, services/playlist/internal/adapters/postgres/repository.go.
use mathlib.Core.List.{Mem, Nodup, Nodup-nil, Nodup-cons, Perm, mem-cons, mem-cons_self}
use mathlib.Core.List.Perm
use mathlib.Core.Logic.Or
use icyre.Prelude.{
  ℕ, ◌+◌, ◌≤◌, ◌<◌, ◌≡◌, ◌≢◌, sym, ap, ◌∙◌, inl, inr, true, false, some, List, [], ◌∷◌, arith, ◌==◌,
  ==_iff, Bool-cases, any, All,
}
use icyre.Prelude.Pairwise.{
  All-append, All-any_false, All-imp, All-map, All-zip, Pairwise, Pairwise-last, Pairwise-map,
}
use icyre.Playlist.{Track, check_order}
use icyre.Playlist.Order.{track_ids, check_order-iff-perm, Mem-any, not_Mem}
use icyre.Playlist.Repository.Sql.{
  TrackRow, Tables, has_playlist, has_track, is_track, append_track, reorder, place, ordinal,
  tracks_of, last_position,
}
use icyre.Playlist.Repository.WellFormed.{IsWellFormed, Apart}

module _ (id : ℕ) where
  pub last_position-bounds :
      (n : ℕ) (rs : List TrackRow)
      → last_position (tracks_of id rs) ≤ n
      → All (λ (r : TrackRow). r.playlist_id ≡ id → r.track.position ≤ n) rs
  unfolding last_position tracks_of
  last_position-bounds n [] h = tt
  last_position-bounds n (r ∷ rs) h = (λ e. ground arith, last_position-bounds n rs (ground arith))

  -- The new track stands behind all others of its playlist.
  pub append_track-IsWellFormed :
      (track : Track) (t : Tables)
      → has_playlist id t ≡ true
      → has_track id track.track_id t ≡ false
      → IsWellFormed t
      → IsWellFormed (append_track id track t)
  unfolding append_track
  append_track-IsWellFormed track t there new w =
      let rows : List TrackRow = t.playlist_tracks in
      let n : ℕ = last_position (tracks_of id rows) in
      let row : TrackRow = record { playlist_id = id; track = record track { position = n + 1 } } in
      record {
        ids = w.ids;
        titles = w.titles;
        places = Pairwise-last Apart rows row w.places (
            All-imp rows (λ r h e. (λ k. ground (arith, h.0, e, k), λ k. ground (arith, h.1 e)))
              (All-zip (λ r. is_track id track.track_id r ≡ false)
                (λ r. r.playlist_id ≡ id → r.track.position ≤ n) rows
                (All-any_false (λ r. is_track id track.track_id r ≡ false)
                  (is_track id track.track_id) rows (λ x e. e) new)
                (last_position-bounds n rows (omega arith))));
        positive =
            All-append (λ r. 0 < r.track.position) rows (row ∷ []) w.positive (omega arith, tt);
        owned =
            All-append (λ r. has_playlist r.playlist_id t ≡ true) rows (row ∷ []) w.owned
              (there, tt);
      }

  -- The tracks of a playlist inherit what holds of its rows.
  track_ids-All :
      (x : ℕ) (rs : List TrackRow)
      → All (λ (r : TrackRow). r.playlist_id ≡ id → x ≢ r.track.track_id) rs
      → All (λ y. x ≢ y) (track_ids (tracks_of id rs))
  unfolding tracks_of
  track_ids-All x [] h = tt
  track_ids-All x (r ∷ rs) h = elim (Bool-cases (r.playlist_id == id)) [
    | inl e ↦ rw e (h.0 ((==_iff _ _).0 e), track_ids-All x rs h.1)
    | inr e ↦ rw e (track_ids-All x rs h.1)
  ]

  pub tracks_of-Nodup :
      (rs : List TrackRow) → Pairwise Apart rs → Nodup (track_ids (tracks_of id rs))
  unfolding tracks_of
  tracks_of-Nodup [] h = Nodup-nil
  tracks_of-Nodup (r ∷ rs) h = elim (Bool-cases (r.playlist_id == id)) [
    | inl e ↦ rw e (
        Nodup-cons.1 (
          not_Mem r.track.track_id (track_ids (tracks_of id rs)) (
              track_ids-All r.track.track_id rs
                (All-imp rs (λ s k f. (k ((==_iff _ _).0 e ∙ sym f)).0) h.0)),
          tracks_of-Nodup rs h.1,
        ))
    | inr e ↦ rw e (tracks_of-Nodup rs h.1)
  ]

  rows-known :
      (order : List ℕ) (rs : List TrackRow)
      → ((x : ℕ) → Mem x (track_ids (tracks_of id rs)) → Mem x order)
      → All
          (λ (r : TrackRow). r.playlist_id ≡ id → any (λ j. j == r.track.track_id) order ≡ true)
          rs
  unfolding tracks_of
  rows-known order [] k = tt
  rows-known order (r ∷ rs) k = elim (Bool-cases (r.playlist_id == id)) [
    | inl e ↦ (
      λ f. Mem-any r.track.track_id order (k r.track.track_id (rw e mem-cons_self)),
      rows-known order rs (λ x m. k x (rw e (mem-cons.1 (Or.inr m)))),
    )
    | inr e ↦ (λ f. ground (arith, f), rows-known order rs (λ x m. k x (rw e m)))
  ]

-- The place of an id in an order.
ordinal-some :
    (from x : ℕ) (order : List ℕ)
    → any (λ j. j == x) order ≡ true
    → (p : ℕ) × (ordinal from x order ≡ some p)
unfolding ordinal
ordinal-some from x [] h = cc
ordinal-some from x (y ∷ ys) h = elim (Bool-cases (y == x)) [
  | inl e ↦ (from, rw e)
  | inr e ↦ let (p, k) = ordinal-some (from + 1) x ys (ground arith) in (p, rw (e, k))
]

pub ordinal-le : (from x p : ℕ) (order : List ℕ) → ordinal from x order ≡ some p → from ≤ p
unfolding ordinal
ordinal-le from x p [] h = cc
ordinal-le from x p (y ∷ ys) h = ground (arith, ordinal-le (from + 1) x p ys)

ordinal-injective :
    (from x y p : ℕ) (order : List ℕ)
    → ordinal from x order ≡ some p
    → ordinal from y order ≡ some p
    → x ≡ y
unfolding ordinal
ordinal-injective from x y p [] h k = cc
ordinal-injective from x y p (z ∷ zs) h k = ground (
  arith,
  ordinal-injective (from + 1) x y p zs,
  ordinal-le (from + 1) x p zs,
  ordinal-le (from + 1) y p zs,
)

module _ (id : ℕ) (order : List ℕ) where
  abbrev pub Known : TrackRow → Type 0
  Known r = r.playlist_id ≡ id → any (λ j. j == r.track.track_id) order ≡ true

  pub place_keeps :
      (r : TrackRow)
      → ((place id order r).playlist_id ≡ r.playlist_id)
        × ((place id order r).track.track_id ≡ r.track.track_id)
  unfolding place
  place_keeps r = (ground arith, ground arith)

  pub place-position :
      (r : TrackRow)
      → Known r
      → r.playlist_id ≡ id
      → ordinal 1 r.track.track_id order ≡ some (place id order r).track.position
  unfolding place
  place-position r k e =
      let (p, o) = ordinal-some 1 r.track.track_id order (k e) in ground (arith, o, e)

  place-other : (r : TrackRow) → (r.playlist_id == id) ≡ false → place id order r ≡ r
  unfolding place
  place-other r e = rw e

  place-Apart :
      (r s : TrackRow) → Known r → Known s → Apart r s → Apart (place id order r) (place id order s)
  place-Apart r s k l h e =
      let (rp, rt) = place_keeps r in
      let (sp, st) = place_keeps s in
      let same : r.playlist_id ≡ s.playlist_id = sym rp ∙ e ∙ sp in
      (
        λ q. (h same).0 (sym rt ∙ q ∙ st),
        λ q. elim (Bool-cases (r.playlist_id == id)) [
          | inl here ↦
              let a : r.playlist_id ≡ id = (==_iff _ _).0 here in
              let pr : ordinal 1 r.track.track_id order ≡ some (place id order r).track.position =
                place-position r k a in
              let ps : ordinal 1 s.track.track_id order ≡ some (place id order s).track.position =
                place-position s l (sym same ∙ a) in
              (h same).0 (
                ordinal-injective 1 r.track.track_id s.track.track_id
                  (place id order s).track.position order (pr ∙ ap some q) ps)
          | inr there ↦
              let a : place id order r ≡ r = place-other r there in
              let b : place id order s ≡ s = place-other s (rw (← same) there) in
              (h same).1 (
                ap (λ (x : TrackRow). x.track.position) (sym a)
                ∙ q
                ∙ ap (λ (x : TrackRow). x.track.position) b)
        ],
      )

  place_positive :
      (r : TrackRow) → Known r → 0 < r.track.position → 0 < (place id order r).track.position
  place_positive r k h = elim (Bool-cases (r.playlist_id == id)) [
    | inl here ↦
        ordinal-le 1 r.track.track_id (place id order r).track.position order
          (place-position r k ((==_iff _ _).0 here))
    | inr there ↦ rw (place-other r there) h
  ]

  -- What CheckOrder has established of the rows.
  module _ (t : Tables) (w : IsWellFormed t)
      (checked : check_order (tracks_of id t.playlist_tracks) order ≡ true) where
    pub reorder-perm : Perm order (track_ids (tracks_of id t.playlist_tracks))
    reorder-perm =
        (check_order-iff-perm (tracks_of id t.playlist_tracks) order
            (tracks_of-Nodup id t.playlist_tracks w.places)).0
          checked

    pub reorder-Known : All Known t.playlist_tracks
    reorder-Known = rows-known id order t.playlist_tracks (Perm.subset (Perm.symm reorder-perm))

    -- The new positions are distinct and positive: the deferred constraint holds at the commit.
    pub reorder-IsWellFormed : IsWellFormed (reorder id order t)
    unfolding reorder
    reorder-IsWellFormed = record {
      ids = w.ids;
      titles = w.titles;
      places =
          Pairwise-map Apart (place id order) place-Apart t.playlist_tracks reorder-Known w.places;
      positive =
          All-map (λ r. 0 < r.track.position) (place id order) t.playlist_tracks
            (All-imp t.playlist_tracks (λ r h. place_positive r h.0 h.1)
              (All-zip Known (λ r. 0 < r.track.position) t.playlist_tracks reorder-Known
                w.positive));
      owned =
          All-map (λ r. has_playlist r.playlist_id t ≡ true) (place id order) t.playlist_tracks
            (All-imp t.playlist_tracks (λ r h. rw (place_keeps r).0 h) w.owned);
    }
