-- ===== src/Keyset/Walk.antt =====
-- Following the cursors of keyset pagination from the first page to the last.
use mathlib.Core.Path.{subst}
use native.Mathlib.Decide.{dec_lt}
use mathlib.Core.List.{append-nil}
use icyre.Prelude.{
  ℕ, zero, suc, ◌+◌, ◌-◌, ◌<◌, ◌≤◌, ◌≡◌, ◌≢◌, refl, sym, ap, ◌∙◌, inl, inr, Bool, true, false,
  Option, none, some, List, [], ◌∷◌, arith, ltb, if◌then◌else◌, Bool-cases, length, take, drop,
  filter, All, take-append-drop, length-take, length-append,
}
use icyre.Prelude.Sort.{insert_by, sort_by, All-insert_by, All-sort_by, length-sort_by}
use icyre.Prelude.Pairwise.{Pairwise, All-imp, All-filter, Pairwise-filter, All-filter_test}
use icyre.Keyset.{
  Cursor, Page, last?, cursor_of, older, newest_first, behind, to_cursor, page_of, walk, prepend,
  clamp,
}

module _ {A : Type 0} (at id : A → ℕ) where
  -- The rows behind `x`
  abbrev before : A → A → Bool
  before x y = older at id (some (cursor_of at id x)) y

  abbrev pub Apart : A → A → Type 0
  Apart x y = at x ≡ at y → id x ≢ id y

  abbrev Strict : List A → Type 0
  Strict = Pairwise (λ x y. before x y ≡ true)

  before_trans :
      (c : Option Cursor) (x y : A)
      → older at id c x ≡ true
      → before x y ≡ true
      → older at id c y ≡ true
  unfolding older
  before_trans none x y p q = refl
  before_trans (some c) x y p q = ground arith

  before_self : (x : A) → before x x ≡ false
  unfolding older
  before_self x = ground arith

  before_asym : (x y : A) → before x y ≡ true → before y x ≡ false
  unfolding older
  before_asym x y h = ground arith

  first_before : (x y : A) → Apart x y → newest_first at id x y ≡ true → before x y ≡ true
  unfolding newest_first older
  first_before x y a e = grind arith

  later_before : (x y : A) → newest_first at id x y ≡ false → before y x ≡ true
  unfolding newest_first older
  later_before x y e = ground arith

  before_first : (x y : A) → before x y ≡ true → newest_first at id x y ≡ true
  unfolding newest_first older
  before_first x y e = ground arith

  insert-Strict :
      (x : A) (ys : List A)
      → All (Apart x) ys
      → Strict ys
      → Strict (insert_by (newest_first at id) x ys)
  unfolding insert_by
  insert-Strict x [] a s = (tt, tt)
  insert-Strict x (y ∷ ys) a s = elim (Bool-cases (newest_first at id x y)) [
    | inl e ↦
        let b : before x y ≡ true = first_before x y a.0 e in
        rw e ((b, All-imp ys (λ z k. before_trans (some (cursor_of at id x)) y z b k) s.0), s)
    | inr e ↦ rw e (
      All-insert_by (newest_first at id) (λ z. before y z ≡ true) x ys (later_before x y e) s.0,
      insert-Strict x ys a.1 s.1,
    )
  ]

  pub sort-Strict : (xs : List A) → Pairwise Apart xs → Strict (sort_by (newest_first at id) xs)
  unfolding sort_by
  sort-Strict [] a = tt
  sort-Strict (x ∷ xs) a =
      insert-Strict x (sort_by (newest_first at id) xs)
        (All-sort_by (newest_first at id) (Apart x) xs a.0) (sort-Strict xs a.1)

  insert_front :
      (x : A) (ys : List A)
      → All (λ y. newest_first at id x y ≡ true) ys
      → insert_by (newest_first at id) x ys ≡ x ∷ ys
  unfolding insert_by
  insert_front x [] h = refl
  insert_front x (y ∷ ys) h = rw h.0 refl

  filter-insert :
      (p : A → Bool) (x : A) (ys : List A)
      → All (Apart x) ys
      → Strict ys
      → filter p (insert_by (newest_first at id) x ys)
        ≡ (if p x then insert_by (newest_first at id) x (filter p ys) else filter p ys)
  unfolding insert_by
  filter-insert p x [] a s = refl
  filter-insert p x (y ∷ ys) a s = elim (Bool-cases (newest_first at id x y)) [
    | inl e ↦
        let b : before x y ≡ true = first_before x y a.0 e in
        let h : All (λ z. newest_first at id x z ≡ true) (y ∷ ys) = (
          e,
          All-imp ys (λ z k. before_first x z (before_trans (some (cursor_of at id x)) y z b k))
              s.0,
        ) in
        rw e (
          ap (λ l. if p x then l else filter p (y ∷ ys))
            (sym (insert_front x (filter p (y ∷ ys)) (All-filter _ p (y ∷ ys) h))))
    | inr e ↦ ground (arith, filter-insert p x ys a.1 s.1)
  ]

  -- A WHERE clause and an ORDER BY by distinct keys commute.
  filter-sort :
      (p : A → Bool) (xs : List A)
      → Pairwise Apart xs
      → filter p (sort_by (newest_first at id) xs) ≡ sort_by (newest_first at id) (filter p xs)
  unfolding sort_by
  filter-sort p [] a = refl
  filter-sort p (x ∷ xs) a =
      let L : List A = sort_by (newest_first at id) xs in
      let k =
        filter-insert p x L (All-sort_by (newest_first at id) (Apart x) xs a.0)
          (sort-Strict xs a.1) in
      elim (Bool-cases (p x)) [
        | inl e ↦ rw e (k ∙ rw e (ap (insert_by (newest_first at id) x) (filter-sort p xs a.1)))
        | inr e ↦ rw e (k ∙ rw e (filter-sort p xs a.1))
      ]

  filter-before :
      (x : A) (ys : List A) → All (λ y. before x y ≡ true) ys → filter (before x) ys ≡ ys
  filter-before x [] h = refl
  filter-before x (y ∷ ys) h = rw h.0 (ap (λ l. y ∷ l) (filter-before x ys h.1))

  -- The last row of a page, and what stands behind it
  record PageEnd (n : ℕ) (xs : List A) : Type 1 where
    end : A
    is_last : last? (take (suc n) xs) ≡ some end
    rest : filter (before end) xs ≡ drop (suc n) xs
    inside : (P : A → Type 0) → All P xs → P end

  page_end : (n : ℕ) (xs : List A) → n < length xs → Strict xs → PageEnd n xs
  unfolding last?
  page_end n [] h s = absurd (omega arith)
  page_end zero (x ∷ xs) h s = record {
    end = x;
    is_last = refl;
    rest = rw (before_self x) (filter-before x xs s.0);
    inside = λ P a. a.0;
  }
  page_end (suc n) (x ∷ []) h s = absurd (omega arith)
  page_end (suc n) (x ∷ y ∷ ys) h s =
      let e : PageEnd n (y ∷ ys) = page_end n (y ∷ ys) (omega arith) s.1 in
      record {
        end = e.end;
        is_last = e.is_last;
        rest = rw (before_asym x e.end (e.inside (λ z. before x z ≡ true) s.0)) e.rest;
        inside = λ P a. e.inside P a.1;
      }

  filter-filter :
      (p q : A → Bool) (xs : List A)
      → ((x : A) → p x ≡ true → q x ≡ true)
      → filter p (filter q xs) ≡ filter p xs
  filter-filter p q [] h = refl
  filter-filter p q (x ∷ xs) h = elim (Bool-cases (q x)) [
    | inl e ↦ rw e (ground (arith, filter-filter p q xs h))
    | inr e ↦ rw e (ground (arith, filter-filter p q xs h, h x))
  ]

  take-take : (n : ℕ) (xs : List A) → take n (take (suc n) xs) ≡ take n xs
  take-take zero xs = refl
  take-take (suc n) [] = refl
  take-take (suc n) (x ∷ xs) = ap (λ l. x ∷ l) (take-take n xs)

  take_all : (n : ℕ) (xs : List A) → length xs ≤ n → take n xs ≡ xs
  take_all n [] h = take_nil n
    where
      take_nil : (n : ℕ) → ◌≡◌ {A = List A} (take n []) []
      take_nil zero = refl
      take_nil (suc n) = refl
  take_all zero (x ∷ xs) h = absurd (omega arith)
  take_all (suc n) (x ∷ xs) h = ap (λ l. x ∷ l) (take_all n xs (omega arith))

  -- The page of a list that goes on behind it
  page_more :
      (n : ℕ) (xs : List A)
      → n < length xs
      → page_of at id n (take (suc n) xs)
        ≡ record { items = take n xs; next = to_cursor at id (last? (take n xs)) }
  unfolding page_of
  page_more n xs h =
      let more : ltb n (length (take (suc n) xs)) ≡ true = ground (arith, length-take (suc n) xs) in
      rw more (rw (take-take n xs) refl)

  page_last :
      (n : ℕ) (xs : List A)
      → length xs ≤ n
      → page_of at id n (take (suc n) xs) ≡ record { items = xs; next = none }
  unfolding page_of
  page_last n xs h =
      rw (take_all (suc n) xs (omega arith))
        (let no_more : ltb n (length xs) ≡ false = ground arith in rw no_more refl)

  module _ (rows : List A) (apart : Pairwise Apart rows) (n : ℕ) where
    abbrev sorted : List A
    sorted = sort_by (newest_first at id) rows

    abbrev fetch : Option Cursor → Page A
    fetch after = page_of at id (suc n) (behind at id after (suc (suc n)) rows)

    behind_lem :
        (after : Option Cursor) (k : ℕ)
        → behind at id after k rows ≡ take k (filter (older at id after) sorted)
    unfolding behind
    behind_lem after k = ap (take k) (sym (filter-sort (older at id after) rows apart))

    behind_end :
        (after : Option Cursor) (e : PageEnd n (filter (older at id after) sorted)) (x : A)
        → before e.end x ≡ true
        → older at id after x ≡ true
    behind_end after e x h =
        before_trans after e.end x
          (e.inside (λ z. older at id after z ≡ true)
            (All-filter_test (λ z. older at id after z ≡ true) (older at id after) sorted
              (λ z k. k)))
          h

    walk_lem :
        (fuel : ℕ) (after : Option Cursor)
        → length (filter (older at id after) sorted) < fuel
        → walk fetch fuel after ≡ some (filter (older at id after) sorted)
    unfolding walk
    walk_lem zero after h = absurd (omega arith)
    walk_lem (suc fuel) after h =
        let M : List A = filter (older at id after) sorted in
        let s : Strict M =
          Pairwise-filter (λ x y. before x y ≡ true) (older at id after) sorted
            (sort-Strict rows apart) in
        elim (dec_lt (suc n) (length M)) [
          | yes m ↦
              let e : PageEnd n M = page_end n M (omega arith) s in
              let rest : filter (older at id (some (cursor_of at id e.end))) sorted
                  ≡ drop (suc n) M =
                sym (filter-filter (before e.end) (older at id after) sorted (behind_end after e))
                ∙ e.rest in
              let shorter : length (drop (suc n) M) < fuel = omega (
                arith,
                ap length (take-append-drop (suc n) M),
                length-append (take (suc n) M) (drop (suc n) M),
                length-take (suc n) M,
              ) in
              rw (behind_lem after (suc (suc n))) (
                rw (page_more (suc n) M m) (
                  rw e.is_last (
                    ap (prepend (take (suc n) M)) (
                      walk_lem fuel (some (cursor_of at id e.end)) (rw rest shorter)
                      ∙ ap (λ l. some l) rest)
                    ∙ ap (λ l. some l) (take-append-drop (suc n) M))))
          | no m ↦
              rw (behind_lem after (suc (suc n)))
                (rw (page_last (suc n) M (omega arith)) (ap (λ l. some l) (append-nil M)))
        ]

  filter_all : (xs : List A) → filter (older at id none) xs ≡ xs
  unfolding older
  filter_all [] = refl
  filter_all (x ∷ xs) = ap (λ l. x ∷ l) (filter_all xs)

  -- Where no two rows share a key, a client that follows the cursors of pages of `suc n` rows from the
  -- first page, for more steps than there are rows, comes to a page without a cursor, and has got
  -- every row once, newest first.
  pub walk_all :
      (rows : List A) (n fuel : ℕ)
      → Pairwise Apart rows
      → length rows < fuel
      → walk (λ after. page_of at id (suc n) (behind at id after (suc (suc n)) rows)) fuel none
        ≡ some (sort_by (newest_first at id) rows)
  walk_all rows n fuel apart h =
      let L : List A = sort_by (newest_first at id) rows in
      let short : length (filter (older at id none) L) < fuel =
        rw (filter_all L) (omega (arith, length-sort_by (newest_first at id) rows)) in
      walk_lem rows apart n fuel none short ∙ ap (λ l. some l) (filter_all L)

  clamp-suc : (d m limit : ℕ) → (n : ℕ) × (clamp (suc d) (suc m) limit ≡ suc n)
  unfolding clamp
  clamp-suc d m limit = (clamp (suc d) (suc m) limit - 1, ground arith)

  -- The same for pages of the size that a request asks for, within the default and the limit.
  pub walk_clamped :
      (rows : List A) (d m limit fuel : ℕ)
      → Pairwise Apart rows
      → length rows < fuel
      → walk
          (λ after.
            page_of at id
              (clamp (suc d) (suc m) limit)
              (behind at id after (clamp (suc d) (suc m) limit + 1) rows))
          fuel
          none
        ≡ some (sort_by (newest_first at id) rows)
  walk_clamped rows d m limit fuel apart h =
      let (n, e) = clamp-suc d m limit in
      let one_more : suc (suc n) ≡ suc n + 1 = omega arith in
      subst
        (λ k.
          walk (λ after. page_of at id k (behind at id after (k + 1) rows)) fuel none
          ≡ some (sort_by (newest_first at id) rows))
        (sym e)
        (subst
          (λ k.
            walk (λ after. page_of at id (suc n) (behind at id after k rows)) fuel none
            ≡ some (sort_by (newest_first at id) rows))
          one_more (walk_all rows n fuel apart h))
