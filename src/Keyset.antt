-- ===== src/Keyset.antt =====
-- Keyset pagination, as the services of libraries, follows, listens and albums have it: a statement
-- that lists rows newest first behind a cursor, with one row more than the page, and a page that
-- trims that row into the next cursor.
pub mod Walk
pub mod Base64
pub mod Encoding
mod Tests
use icyre.Prelude.{
  ℕ, zero, suc, Bool, true, ◌&&◌, ◌||◌, Option, none, some, List, [], ◌∷◌, ◌++◌, ltb, leb, ◌==◌,
  if◌then◌else◌, length, take, filter,
}
use icyre.Prelude.Sort.{sort_by}

-- The key of the last row of a page: its time, and its id among the rows of that time
pub record Cursor : Type 0 where
  pub at : ℕ
  pub id : ℕ

pub record Page (A : Type 0) : Type 0 where
  pub items : List A
  pub next : Option Cursor

-- min(limit, max), with a default for a limit that is not positive
unfoldable pub clamp : ℕ → ℕ → ℕ → ℕ
clamp default_limit max_limit limit =
    if limit == 0 then default_limit else if ltb max_limit limit then max_limit else limit

module _ {A : Type 0} where
  unfoldable pub last? : List A → Option A
  last? [] = none
  last? (x ∷ []) = some x
  last? (x ∷ y ∷ ys) = last? (y ∷ ys)

module _ {A : Type 0} (at id : A → ℕ) where
  abbrev pub cursor_of : A → Cursor
  cursor_of x = record { at = at x; id = id x }

  -- $3 IS NULL OR (at, id) < ($3, $4)
  unfoldable pub older : Option Cursor → A → Bool
  older none x = true
  older (some c) x = ltb (at x) c.at || at x == c.at && ltb (id x) c.id

  -- ORDER BY at DESC, id DESC
  unfoldable pub newest_first : A → A → Bool
  newest_first x y = ltb (at y) (at x) || at x == at y && leb (id y) (id x)

  unfoldable pub behind : Option Cursor → ℕ → List A → List A
  unfolding older newest_first
  behind after limit rows = take limit (sort_by newest_first (filter (older after) rows))

  abbrev pub to_cursor : Option A → Option Cursor
  to_cursor none = none
  to_cursor (some x) = some (cursor_of x)

  -- The page of rows that were read with one more than `limit`
  unfoldable pub page_of : ℕ → List A → Page A
  unfolding last?
  page_of limit rows =
      if ltb limit (length rows)
      then record { items = take limit rows; next = to_cursor (last? (take limit rows)) }
      else record { items = rows; next = none }

abbrev pub follow :
    {A : Type 0} → Option Cursor → (Option Cursor → Option (List A)) → Option (List A)
follow none k = some []
follow (some c) k = k (some c)

abbrev pub prepend : {A : Type 0} → List A → Option (List A) → Option (List A)
prepend items none = none
prepend items (some rest) = some (items ++ rest)

-- A client that follows the cursors from page to page, at most `fuel` of them, up to a page without
-- a cursor: what it has read, or `none` where it has not come to that page
unfoldable pub walk : {A : Type 0} → (Option Cursor → Page A) → ℕ → Option Cursor → Option (List A)
walk fetch zero after = none
walk fetch (suc fuel) after =
    let page = fetch after in prepend page.items (follow page.next (walk fetch fuel))
