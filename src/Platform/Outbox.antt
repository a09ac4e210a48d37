-- ===== src/Platform/Outbox.antt =====
-- libs/platform/outbox/outbox.go and relay.go: the transactional outbox.
--
-- A service keeps its own tables `T` and an outbox of messages `M` in one database. `insert_all` is
-- what Write does inside the transaction of the change; `relay_once` moves the oldest rows to Kafka.
-- `insert` is an INSERT in a transaction that runs alone: the identity column is a counter of the
-- table, and a rolled back insert takes its number back here, where Postgres leaves a gap. Delivery is
-- about concurrent transactions, whose rows show up in another order than that of their numbers.
-- Headers (the trace context and the event type, version and content type) are not modelled.
pub mod TableName
pub mod Relay
pub mod Delivery
pub mod Drain
pub mod Announce
mod Tests
use icyre.Prelude.{
  ℕ, ◌+◌, ◌≡◌, Bool, true, false, not, List, [], ◌∷◌, ◌++◌, ◌==◌, if◌then◌else◌, leb, length, take,
  filter, any,
}
use Prim.Native.String.{String}
use icyre.Prelude.Sort.{sort_by}
use TableName.{codes, check_table}
use icyre.Platform.Postgres.{
  ◌>>◌, ◌>>=◌, Result, ok, fault, World, Exec, pure, broken, select, update, Pgx,
}

pub record Row (M : Type 0) : Type 0 where
  pub id : ℕ
  pub msg : M

pub record Outbox (M : Type 0) : Type 0 where
  pub rows : List (Row M)
  pub next_id : ℕ

pub record Db (T M : Type 0) : Type 0 where
  pub tables : T
  pub outbox : Outbox M

module _ {M : Type 0} where
  -- INSERT INTO <schema>.outbox
  unfoldable pub insert : M → Outbox M → Outbox M
  insert m o = record {
    rows = o.rows ++ record { id = o.next_id; msg = m } ∷ [];
    next_id = o.next_id + 1;
  }

  -- ORDER BY id LIMIT batch
  unfoldable pub oldest : ℕ → Outbox M → List (Row M)
  oldest batch o = take batch (sort_by (λ a b. leb a.id b.id) o.rows)

  abbrev pub ids : List (Row M) → List ℕ
  ids [] = []
  ids (r ∷ rs) = r.id ∷ ids rs

  abbrev pub msgs : List (Row M) → List M
  msgs [] = []
  msgs (r ∷ rs) = r.msg ∷ msgs rs

  -- DELETE … WHERE id = ANY(keys)
  unfoldable pub delete : List ℕ → Outbox M → Outbox M
  delete keys o = record o { rows = filter (λ r. not (any (λ k. k == r.id) keys)) o.rows }

module _ {T M X E : Type 0} where
  -- The loop of Write, one INSERT for each message.
  unfoldable pub insert_all : List M → Exec (Db T M) X E (Unit {0})
  unfolding insert
  insert_all [] = pure tt
  insert_all (m ∷ ms) = do
    update (λ d. record d { outbox = insert m d.outbox }) (λ _. tt)
    insert_all ms

  -- Write: the table name is checked before anything is written.
  unfoldable pub write : String → List M → Exec (Db T M) X E (Unit {0})
  unfolding insert_all
  write table ms = if check_table (codes table) then insert_all ms else broken

-- What the relay relies on of the Kafka client (github.com/twmb/franz-go): the messages that a
-- topic holds, and ProduceSync, which waits for the brokers. An acknowledged batch is there in
-- order; a failed one may have been written in part.
pub record Broker (M X : Type 0) : Type 0 where
  pub log : X → List M
  pub produce_sync : List M → X → Bool × X
  pub acknowledged :
      (ms : List M) (x : X) → (produce_sync ms x).0 ≡ true → log (produce_sync ms x).1 ≡ log x ++ ms
  pub appends :
      (ms : List M) (x : X) → (extra : List M) × (log (produce_sync ms x).1 ≡ log x ++ extra)

module _ {T M X E : Type 0} where
  unfoldable pub acknowledge : Bool × X → World (Db T M) X → Result E (Unit {0}) × World (Db T M) X
  acknowledge (true, x) w = (ok tt, record w { outside = x })
  acknowledge (false, x) w = (fault, record w { outside = x })

module _ {T M X E : Type 0} (broker : Broker M X) where
  -- Producer.Publish
  unfoldable pub publish : List M → Exec (Db T M) X E (Unit {0})
  unfolding acknowledge
  publish ms w = acknowledge (broker.produce_sync ms w.outside) w

  -- What RelayOnce does with the rows that it has read.
  unfoldable pub send : List (Row M) → Exec (Db T M) X E ℕ
  unfolding publish delete
  send [] = pure 0
  send (r ∷ rs) = do
    publish (msgs (r ∷ rs))
    update (λ d. record d { outbox = delete (ids (r ∷ rs)) d.outbox }) (λ _. tt)
    pure (length (r ∷ rs))

  -- Another relay holds the lock, or this one reads a batch and sends it.
  unfoldable pub relay_as : Bool → ℕ → Exec (Db T M) X E ℕ
  unfolding send oldest
  relay_as false batch = pure 0
  relay_as true batch = do rows ← select (λ d. oldest batch d.outbox); send rows

  -- The function that RelayOnce hands to BeginFunc; `leader` is the answer of
  -- pg_try_advisory_xact_lock.
  unfoldable pub relay_tx : Bool → ℕ → Exec (Db T M) X E ℕ
  unfolding relay_as
  relay_tx leader batch = do locked ← select (λ _. leader); relay_as locked batch

module _ {T M X E : Type 0} (pgx : Pgx) (broker : Broker M X) where
  unfoldable pub relay_once : Bool → ℕ → Exec (Db T M) X E ℕ
  unfolding relay_tx
  relay_once leader batch = pgx.begin_func (relay_tx broker leader batch)

module _ {T M X : Type 0} (pgx : Pgx) (broker : Broker M X) where
  -- Run: the rounds up to the cancellation of its context, with the lock's answer in each. An error
  -- is logged, and the pauses between rounds change nothing. The relay tells no errors apart.
  unfoldable pub run : ℕ → List Bool → World (Db T M) X → World (Db T M) X
  run batch [] w = w
  run batch (leader ∷ rest) w = run batch rest (relay_once {E = ⊥} pgx broker leader batch w).1
