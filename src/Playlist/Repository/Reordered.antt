-- ===== src/Playlist/Repository/Reordered.antt =====
-- The order of the tracks after Reorder, services/playlist/internal/adapters/postgres/repository.go.
use mathlib.Core.List.{Mem, Nodup, Nodup-cons, Perm, mem-cons, mem-cons_self, not-mem-nil}
use mathlib.Core.List.Perm
use mathlib.Core.Logic.Or
use native.Mathlib.Bridge.{le_prop}
use icyre.Prelude.{
  ℕ, ◌+◌, ◌≤◌, ◌≡◌, ◌≢◌, refl, sym, ap, ◌∙◌, inl, inr, Bool, true, some, List, [], ◌∷◌, map, arith,
  leb, ◌==◌, ==_iff, Bool-cases, All,
}
use icyre.Prelude.Sort.{sort_by, sort_by-perm, All-sort_by, Ordered, Ordered-sort_by}
use icyre.Playlist.{Track, check_order}
use icyre.Playlist.Order.{track_ids}
use icyre.Playlist.Repository.Sql.{TrackRow, Tables, tracks, reorder, place, ordinal, tracks_of}
use icyre.Playlist.Repository.WellFormed.{IsWellFormed}
use icyre.Playlist.Repository.Positions.{
  ordinal-le, place_keeps, place-position, reorder-perm, reorder-Known, Known, tracks_of-Nodup,
}

-- The place of each track, from the top of the list.
abbrev pub placed : List Track → List (ℕ × ℕ)
placed [] = []
placed (t ∷ ts) = (t.track_id, t.position) ∷ placed ts

abbrev pub numbered : ℕ → List ℕ → List (ℕ × ℕ)
numbered from [] = []
numbered from (x ∷ xs) = (x, from) ∷ numbered (from + 1) xs

abbrev by_position : Track → Track → Bool
by_position a b = leb a.position b.position

module _ (from : ℕ) (order : List ℕ) where
  abbrev Placed : Track → Type 0
  Placed t = ordinal from t.track_id order ≡ some t.position

  head_le :
      (x q : ℕ) (ts : List Track)
      → Mem x (track_ids ts)
      → All (λ (s : Track). q ≤ s.position) ts
      → All Placed ts
      → ordinal from x order ≡ some from
      → q ≤ from
  head_le x q [] m h p o = absurd (not-mem-nil m)
  head_le x q (t ∷ ts) m h p o =
      Or.elim le_prop (mem-cons.0 m)
        (λ e. ground (arith, h.0, p.0, o, ap (λ y. ordinal from y order) e))
        (λ k. head_le x q ts k h.1 p.1 o)

ordinal-head : (from x : ℕ) (xs : List ℕ) → ordinal from x (x ∷ xs) ≡ some from
unfolding ordinal
ordinal-head from x xs = ground arith

ordinal-from : (from x y : ℕ) (xs : List ℕ) → ordinal from y (x ∷ xs) ≡ some from → y ≡ x
unfolding ordinal
ordinal-from from x y xs h = ground (arith, ordinal-le (from + 1) y from xs)

ordinal-behind :
    (from x y : ℕ) (xs : List ℕ) → x ≢ y → ordinal from y (x ∷ xs) ≡ ordinal (from + 1) y xs
unfolding ordinal
ordinal-behind from x y xs h = ground arith

Placed-behind :
    (from x : ℕ) (xs : List ℕ) (ts : List Track)
    → ¬ Mem x (track_ids ts)
    → All (Placed from (x ∷ xs)) ts
    → All (Placed (from + 1) xs) ts
Placed-behind from x xs [] n h = tt
Placed-behind from x xs (t ∷ ts) n h = (
  sym (ordinal-behind from x t.track_id xs (λ e. n (mem-cons.1 (Or.inl e)))) ∙ h.0,
  Placed-behind from x xs ts (λ m. n (mem-cons.1 (Or.inr m))) h.1,
)

at_most_first :
    (t : Track) (ts : List Track)
    → All (λ s. by_position t s ≡ true) ts
    → All (λ (s : Track). t.position ≤ s.position) (t ∷ ts)
at_most_first t ts h = (omega arith, rest ts h)
  where
    rest :
        (ts : List Track)
        → All (λ s. by_position t s ≡ true) ts
        → All (λ (s : Track). t.position ≤ s.position) ts
    rest [] h = tt
    rest (s ∷ ss) h = (ground (arith, h.0), rest ss h.1)

-- Tracks sorted by the places that an order gives them are in that order.
sorted-numbered :
    (from : ℕ) (order : List ℕ) (ts : List Track)
    → Nodup order
    → Perm (track_ids ts) order
    → All (Placed from order) ts
    → Ordered by_position ts
    → placed ts ≡ numbered from order
sorted-numbered from [] [] d p h o = refl
sorted-numbered from [] (t ∷ ts) d p h o =
    absurd (not-mem-nil (Perm.subset p t.track_id mem-cons_self))
sorted-numbered from (x ∷ xs) [] d p h o =
    absurd (not-mem-nil (Perm.subset (Perm.symm p) x mem-cons_self))
sorted-numbered from (x ∷ xs) (t ∷ ts) d p h o =
    let le : t.position ≤ from =
      head_le from (x ∷ xs) x t.position (t ∷ ts) (Perm.subset (Perm.symm p) x mem-cons_self)
        (at_most_first t ts o.0) h (ordinal-head from x xs) in
    let ge : from ≤ t.position = ordinal-le from t.track_id t.position (x ∷ xs) h.0 in
    let pos : t.position ≡ from = omega arith in
    let first : t.track_id ≡ x = ordinal-from from x t.track_id xs (h.0 ∙ ap some pos) in
    let q : Perm (x ∷ track_ids ts) (x ∷ xs) = rw first at p in
    let rest : Perm (track_ids ts) xs = Perm.cons_inv q in
    let (new, once) = Nodup-cons.0 d in
    let behind : All (Placed (from + 1) xs) ts =
      Placed-behind from x xs ts (λ m. new (Perm.subset rest x m)) h.1 in
    rw (first, pos)
      (ap (λ l. (x, from) ∷ l) (sorted-numbered (from + 1) xs ts once rest behind o.1))

track_ids-map : (ts : List Track) → map (λ (t : Track). t.track_id) ts ≡ track_ids ts
track_ids-map [] = refl
track_ids-map (t ∷ ts) = ap (λ l. t.track_id ∷ l) (track_ids-map ts)

track_ids-sort : (ts : List Track) → Perm (track_ids (sort_by by_position ts)) (track_ids ts)
track_ids-sort ts =
    rw (← track_ids-map (sort_by by_position ts))
      (rw (← track_ids-map ts) (Perm.map (λ (t : Track). t.track_id) (sort_by-perm by_position ts)))

module _ (id : ℕ) (order : List ℕ) where
  track_ids-place :
      (rs : List TrackRow)
      → track_ids (tracks_of id (map (place id order) rs)) ≡ track_ids (tracks_of id rs)
  unfolding tracks_of
  track_ids-place [] = refl
  track_ids-place (r ∷ rs) =
      let (p, k) = place_keeps id order r in
      elim (Bool-cases (r.playlist_id == id)) [
        | inl e ↦ rw p (rw e (rw (k, track_ids-place rs)))
        | inr e ↦ rw p (rw e (track_ids-place rs))
      ]

  tracks_of-Placed :
      (rs : List TrackRow)
      → All (Known id order) rs
      → All (Placed 1 order) (tracks_of id (map (place id order) rs))
  unfolding tracks_of
  tracks_of-Placed [] h = tt
  tracks_of-Placed (r ∷ rs) h =
      let (p, k) = place_keeps id order r in
      elim (Bool-cases (r.playlist_id == id)) [
        | inl e ↦ rw p (
            rw e (rw k (place-position id order r h.0 ((==_iff _ _).0 e)), tracks_of-Placed rs h.1))
        | inr e ↦ rw p (rw e (tracks_of-Placed rs h.1))
      ]

  -- A reorder that CheckOrder accepts lists the tracks in the given order, at the positions 1, 2, …
  pub reorder-tracks :
      (t : Tables)
      → IsWellFormed t
      → check_order (tracks_of id t.playlist_tracks) order ≡ true
      → placed (tracks id (reorder id order t)) ≡ numbered 1 order
  unfolding reorder tracks
  reorder-tracks t w checked =
      let rows : List TrackRow = map (place id order) t.playlist_tracks in
      let p : Perm order (track_ids (tracks_of id t.playlist_tracks)) =
        reorder-perm id order t w checked in
      sorted-numbered 1 order (sort_by by_position (tracks_of id rows))
        (Perm.nodup (Perm.symm p) (tracks_of-Nodup id t.playlist_tracks w.places))
        (Perm.trans (track_ids-sort (tracks_of id rows))
          (rw (track_ids-place t.playlist_tracks) (Perm.symm p)))
        (All-sort_by by_position (Placed 1 order) (tracks_of id rows)
          (tracks_of-Placed t.playlist_tracks (reorder-Known id order t w checked)))
        (Ordered-sort_by by_position (λ a b h. ground (arith, h))
          (λ a b c h k. ground (arith, h, k)) (tracks_of id rows))
