-- ===== src/Library/Service.antt =====
-- services/library/internal/application/service.go, and the events of
-- services/library/internal/adapters/kafka/publisher.go, which go through the outbox.
--
-- A reading of the clock and the answer of the Catalog are arguments. The service runs in the
-- transactions of the repository's database (the case that no Transactor is given is for its tests).
use Prim.Native.String.{String}
use icyre.Prelude.{ℕ, ◌-◌, ◌+◌, ◌%◌, Bool, true, false, Option, List, [], ◌∷◌}
use icyre.Platform.Postgres.{◌>>=◌, ◌>>◌, Result, Exec, pure, lift, Pgx, pool, in_tx}
use icyre.Platform.Outbox.{Db}
use icyre.Platform.Outbox.Announce.{announce}
use icyre.Keyset.{Cursor, Page, clamp, page_of}
use icyre.Library.{Error, Kind, Item, Counts, default_limit, max_limit}
use icyre.Library.Repository
use icyre.Library.Repository.{saved_at, entity_id}

-- The payloads of libs/contracts/events/libraryv1, in the form of the item; in a removal its time is
-- the time of the removal.
pub data Event : Type 0 where
  saved removed : Item → Event

abbrev pub outbox_table : String
outbox_table = "library.outbox"

-- Truncate(time.Microsecond)
abbrev pub stamp : ℕ → ℕ
stamp now = now - now % 1000

abbrev pub Service : Type 0 → Type 0 → Type 0
Service X A = Exec (Db (List Item) Event) X Error A

module _ {X : Type 0} where
  abbrev pub announce_if : Bool → Event → Service X (Unit {0})
  announce_if false event = pure tt
  announce_if true event = announce outbox_table event

  module _ (pgx : Pgx) where
    unfoldable pub save : Result Error (Unit {0}) → ℕ → Kind → ℕ → ℕ → Service X Item
    save catalog user kind id now = do
      lift catalog
      ch ← in_tx pgx pool λ _. do
        ch ←
            Repository.save
              (record { user_id = user; kind = kind; entity_id = id; saved_at = stamp now })
        announce_if ch.changed (saved ch.item)
        pure ch
      pure ch.item

    unfoldable pub remove : ℕ → Kind → ℕ → ℕ → Service X (Unit {0})
    remove user kind id now =
        in_tx pgx pool
          λ _. do ch ← Repository.remove user kind id now; announce_if ch.changed (removed ch.item)

  unfoldable pub list : ℕ → Kind → Option Cursor → ℕ → Service X (Page Item)
  list user kind after limit = do
    items ← Repository.list user kind after (clamp default_limit max_limit limit + 1)
    pure (page_of saved_at entity_id (clamp default_limit max_limit limit) items)

  unfoldable pub contains : ℕ → Kind → List ℕ → Service X (List ℕ)
  contains user kind [] = pure []
  contains user kind (id ∷ ids) = Repository.contains user kind (id ∷ ids)

  unfoldable pub counts : ℕ → Service X Counts
  counts user = Repository.counts user

-- The requests that change something
pub data Request : Type 0 where
  save_request : Result Error (Unit {0}) → Kind → ℕ → Request
  remove_request : Kind → ℕ → Request

module _ {X : Type 0} (pgx : Pgx) where
  unfoldable pub handle : ℕ → ℕ → Request → Service X (Unit {0})
  unfolding save remove
  handle user now (save_request catalog kind id) = save pgx catalog user kind id now >> pure tt
  handle user now (remove_request kind id) = remove pgx user kind id now
