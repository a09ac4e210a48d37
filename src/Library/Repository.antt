-- ===== src/Library/Repository.antt =====
-- services/library/internal/adapters/postgres/repository.go: the table library.items
-- (00001_library_items.sql), its statements read over lists of rows, and one function for each
-- method. A row is an `Item`.
use icyre.Prelude.{
  ℕ, Bool, true, false, not, ◌&&◌, Option, none, some, List, [], ◌∷◌, ◌++◌, ◌==◌, if◌then◌else◌,
  filter, find?, any, count,
}
use icyre.Platform.Postgres.{◌>>=◌, Exec, pure, broken, select, update, from_option}
use icyre.Platform.Outbox.{Db}
use icyre.Keyset.{Cursor, behind}
use icyre.Library.{Error, Kind, track, album, same_kind, Item, Change, Counts}

abbrev pub Repo : Type 0 → Type 0 → Type 0 → Type 0
Repo M X A = Exec (Db (List Item) M) X Error A

-- WHERE user_id = $1 AND kind = $2 AND entity_id = $3
abbrev pub is_entry : ℕ → Kind → ℕ → Item → Bool
is_entry user kind id r = r.user_id == user && (same_kind r.kind kind && r.entity_id == id)

abbrev pub saved_at? : Option Item → Option ℕ
saved_at? none = none
saved_at? (some r) = some r.saved_at

abbrev pub find_entry : ℕ → Kind → ℕ → List Item → Option Item
find_entry user kind id rows = find? (is_entry user kind id) rows

-- INSERT … ON CONFLICT (user_id, kind, entity_id) DO NOTHING
unfoldable pub insert_item : Item → List Item → List Item
insert_item it rows =
    if any (is_entry it.user_id it.kind it.entity_id) rows then rows else rows ++ it ∷ []

-- RETURNING saved_at
unfoldable pub inserted_at : Item → List Item → Option ℕ
inserted_at it rows =
    if any (is_entry it.user_id it.kind it.entity_id) rows then none else some it.saved_at

unfoldable pub delete_item : ℕ → Kind → ℕ → List Item → List Item
delete_item user kind id rows = filter (λ r. not (is_entry user kind id r)) rows

-- The rows WHERE user_id = $1 AND kind = $2, as List builds them
unfoldable pub saved_of : ℕ → Kind → List Item → List Item
saved_of user kind [] = []
saved_of user kind (r ∷ rows) =
    let rest = saved_of user kind rows in
    if r.user_id == user && same_kind r.kind kind
    then record { user_id = user; kind = kind; entity_id = r.entity_id; saved_at = r.saved_at }
      ∷ rest
    else rest

abbrev pub saved_at : Item → ℕ
saved_at it = it.saved_at

abbrev pub entity_id : Item → ℕ
entity_id it = it.entity_id

abbrev pub entity_ids : List Item → List ℕ
entity_ids [] = []
entity_ids (r ∷ rows) = r.entity_id ∷ entity_ids rows

module _ {M X : Type 0} where
  -- The SELECT of a second save: no row is an error that the code does not tell apart.
  unfoldable pub existing : Item → Repo M X Change
  existing it = do
    row ← select (λ d. saved_at? (find_entry it.user_id it.kind it.entity_id d.tables))
    at ← from_option row broken
    pure (record { item = record it { saved_at = at }; changed = false })

  unfoldable pub save_as : Item → Option ℕ → Repo M X Change
  unfolding existing
  save_as it (some at) = pure (record { item = record it { saved_at = at }; changed = true })
  save_as it none = existing it

  unfoldable pub save : Item → Repo M X Change
  unfolding save_as insert_item inserted_at
  save it = do
    returned ←
        update (λ d. record d { tables = insert_item it d.tables }) (λ d. inserted_at it d.tables)
    save_as it returned

  unfoldable pub remove : ℕ → Kind → ℕ → ℕ → Repo M X Change
  unfolding delete_item
  remove user kind id at = do
    n ←
        update (λ d. record d { tables = delete_item user kind id d.tables })
          (λ d. count (is_entry user kind id) d.tables)
    pure (record {
      item = record { user_id = user; kind = kind; entity_id = id; saved_at = at };
      changed = n == 1;
    })

  unfoldable pub list : ℕ → Kind → Option Cursor → ℕ → Repo M X (List Item)
  unfolding saved_of
  list user kind after limit =
      select (λ d. behind saved_at entity_id after limit (saved_of user kind d.tables))

  unfoldable pub contains : ℕ → Kind → List ℕ → Repo M X (List ℕ)
  unfolding saved_of
  contains user kind ids = select (λ d.
      entity_ids (filter (λ r. any (λ k. k == r.entity_id) ids) (saved_of user kind d.tables)))

  unfoldable pub counts : ℕ → Repo M X Counts
  counts user = select (λ d. record {
    tracks = count (λ (r : Item). r.user_id == user && same_kind r.kind track) d.tables;
    albums = count (λ (r : Item). r.user_id == user && same_kind r.kind album) d.tables;
  })
