-- ===== src/Library/Paging.antt =====
-- The pages of services/library/internal/application/service.go, one after another.
use icyre.Prelude.{
  ℕ, ◌<◌, ◌≡◌, inl, inr, sym, ◌∙◌, Bool, true, ◌&&◌, Bool-cases, none, some, List, [], ◌∷◌, arith,
  ◌==◌, length, All,
}
use icyre.Prelude.Sort.{sort_by}
use icyre.Prelude.Pairwise.{Pairwise, All-imp}
use icyre.Platform.Postgres.{Result, ok, err, fault, World, select, ◌>>=◌}
use icyre.Keyset.{Page, newest_first, walk, page_of, clamp}
use icyre.Keyset.Walk
use icyre.Keyset.Walk.{walk_clamped}
use icyre.Library.{Error, Kind, same_kind, Item}
use icyre.Library.Repository.{saved_of, saved_at, entity_id, is_entry}
use icyre.Library.Repository
use icyre.Library.Service.{list}
use icyre.Library.Effects.{LibraryDb}
use icyre.Library.Replay.{IsKeyed, Apart, same_kind-eq, is_entry_refl}

-- The page that a client sees, an empty one for an error
abbrev pub answered : Result Error (Page Item) → Page Item
answered (ok page) = page
answered (err e) = record { items = []; next = none }
answered fault = record { items = []; next = none }

-- The rows of a database, asked without a failure
abbrev pub calm : {X : Type 0} → LibraryDb → X → World LibraryDb X
calm d x = record { db = d; outside = x; faults = [] }

abbrev seen : ℕ → Kind → Item → Item
seen user kind r = record {
  user_id = user;
  kind = kind;
  entity_id = r.entity_id;
  saved_at = r.saved_at;
}

abbrev matches : ℕ → Kind → Item → Bool
matches user kind r = r.user_id == user && same_kind r.kind kind

All-saved_of :
    (P : Item → Type 0) (user : ℕ) (kind : Kind) (rows : List Item)
    → All (λ r. matches user kind r ≡ true → P (seen user kind r)) rows
    → All P (saved_of user kind rows)
unfolding saved_of
All-saved_of P user kind [] h = tt
All-saved_of P user kind (r ∷ rows) h = elim (Bool-cases (matches user kind r)) [
  | inl e ↦ rw e (h.0 e, All-saved_of P user kind rows h.1)
  | inr e ↦ rw e (All-saved_of P user kind rows h.1)
]

one_entry :
    (user : ℕ) (kind : Kind) (r s : Item)
    → matches user kind r ≡ true
    → matches user kind s ≡ true
    → r.entity_id ≡ s.entity_id
    → Apart r s
    → ⊥
one_entry user kind r s e k id a =
    let users : r.user_id ≡ s.user_id = ground arith in
    let kinds : r.kind ≡ s.kind =
      same_kind-eq r.kind kind (ground arith) ∙ sym (same_kind-eq s.kind kind (ground arith)) in
    let self =
      sym (is_entry_refl s) ∙ (λ j. is_entry (sym users j) (sym kinds j) (sym id j) s) ∙ a in
    absurd (ground arith)

saved_of-Apart :
    (user : ℕ) (kind : Kind) (rows : List Item)
    → IsKeyed rows
    → Pairwise (Walk.Apart saved_at entity_id) (saved_of user kind rows)
unfolding saved_of
saved_of-Apart user kind [] h = tt
saved_of-Apart user kind (r ∷ rows) h = elim (Bool-cases (matches user kind r)) [
  | inl e ↦ rw e (
    All-saved_of (Walk.Apart saved_at entity_id (seen user kind r)) user kind rows
        (All-imp rows (λ s a k at id. one_entry user kind r s e k id a) h.0),
    saved_of-Apart user kind rows h.1,
  )
  | inr e ↦ rw e (saved_of-Apart user kind rows h.1)
]

module _ {X : Type 0} where
  -- Over a database that does not change and in which no call fails, and where the entries of the
  -- library have different keys: a client that follows the cursors of List from the first page, with
  -- whatever limit, for more steps than there are items, comes to the page without a cursor, and has
  -- got the saved items of the user and kind, each once, newest first.
  pub list_pages :
      (user : ℕ) (kind : Kind) (limit fuel : ℕ) (d : LibraryDb) (x : X)
      → IsKeyed d.tables
      → length (saved_of user kind d.tables) < fuel
      → walk (λ after. answered (list user kind after limit (calm d x)).0) fuel none
        ≡ some (sort_by (newest_first saved_at entity_id) (saved_of user kind d.tables))
  unfolding list Repository.list ◌>>=◌ page_of select clamp
  list_pages user kind limit fuel d x keyed h =
      walk_clamped saved_at entity_id (saved_of user kind d.tables) 49 99 limit fuel
        (saved_of-Apart user kind d.tables keyed) h
