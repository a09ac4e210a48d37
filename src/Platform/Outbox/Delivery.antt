-- ===== src/Platform/Outbox/Delivery.antt =====
-- Delivery over the life of an outbox: services commit messages, relays run, calls fail.
--
-- Postgres draws the number of a row at its INSERT and shows the row at the commit of the
-- transaction, so that rows may show up in another order than that of their numbers. A row that a
-- rolled back transaction has written never shows up. The relay reads the rows that are committed;
-- one that is committed while a round runs is like one that is committed after it, since the round
-- deletes the rows that it has read and no others. The table has no order of its own; its rows are
-- listed by their numbers.
use mathlib.Core.List.{Perm}
use mathlib.Core.List.Perm
use icyre.Prelude.{ℕ, ◌≡◌, ◌≢◌, refl, ap, Bool, List, [], ◌∷◌, ◌++◌, leb, All}
use icyre.Prelude.Sort.{insert_by}
use icyre.Prelude.Pairwise.{Pairwise}
use icyre.Platform.Postgres.{World, Pgx}
use icyre.Platform.Outbox.{Row, Db, msgs, Broker, relay_once}
use icyre.Platform.Outbox.Relay.{IsNumbered}

module _ {A : Type 0} where
  -- xs is ys with some elements left out.
  pub data Subsequence : List A → List A → Type 0 where
    done : Subsequence [] []
    skip : (y : A) {xs ys : List A} → Subsequence xs ys → Subsequence xs (y ∷ ys)
    keep : (y : A) {xs ys : List A} → Subsequence xs ys → Subsequence (y ∷ xs) (y ∷ ys)

module _ {M : Type 0} where
  pub msgs-append : (rs ss : List (Row M)) → msgs (rs ++ ss) ≡ msgs rs ++ msgs ss
  msgs-append [] ss = refl
  msgs-append (r ∷ rs) ss = ap (λ l. r.msg ∷ l) (msgs-append rs ss)

  -- Rows deleted from the front leave the others in order.
  pub IsNumbered-suffix : (rs ss : List (Row M)) → IsNumbered (rs ++ ss) → IsNumbered ss
  IsNumbered-suffix [] ss h = h
  IsNumbered-suffix (r ∷ rs) ss h = IsNumbered-suffix rs ss h.1

  -- A row that becomes visible, among the others
  abbrev pub show : Row M → List (Row M) → List (Row M)
  show r rows = insert_by (λ (a b : Row M). leb a.id b.id) r rows

  abbrev pub show_all : List (Row M) → List (Row M) → List (Row M)
  show_all [] rows = rows
  show_all (r ∷ rs) rows = show_all rs (show r rows)

  -- The identity column has given the row a number that none of the others has.
  abbrev pub IsFresh : List (Row M) → Row M → Type 0
  IsFresh rows r = All (λ (s : Row M). r.id ≢ s.id) rows

module _ {T M X : Type 0} (pgx : Pgx) (broker : Broker M X) (batch : ℕ) where
  -- A life of the outbox, with all the rows that were committed to it, in the order of their commits:
  -- a service commits a transaction in which Write has inserted rows, or some relay makes a round, in
  -- which any calls may fail.
  pub data Life (t₀ : T) (next_id : ℕ) (x₀ : X) : List (Row M) → Db T M → X → Type 0 where
    start :
        Life t₀ next_id x₀ []
          (record { tables = t₀; outbox = record { rows = []; next_id = next_id } })
          x₀
    commit :
        {h : List (Row M)} {d : Db T M} {x : X} (rs : List (Row M)) (t : T)
        → All (IsFresh h) rs
        → Pairwise (λ (r s : Row M). s.id ≢ r.id) rs
        → Life t₀ next_id x₀ h d x
        → Life t₀ next_id x₀
            (h ++ rs)
            (record { tables = t; outbox = record d.outbox { rows = show_all rs d.outbox.rows } })
            x
    round :
        {h : List (Row M)} (leader : Bool) (w : World (Db T M) X)
        → Life t₀ next_id x₀ h w.db w.outside
        → Life t₀ next_id x₀ h
            (relay_once {E = ⊥} pgx broker leader batch w).1.db
            (relay_once {E = ⊥} pgx broker leader batch w).1.outside

  -- What was committed went out or still waits, each row once; what went out is in the topic, as it
  -- was taken from the table.
  pub record Delivered (h : List (Row M)) (d : Db T M) (x : X) : Type 0 where
    pub out : List (Row M)
    pub split : Perm h (out ++ d.outbox.rows)
    pub went_out : Subsequence (msgs out) (broker.log x)
    pub numbered : IsNumbered d.outbox.rows
    pub known : (r : Row M) → IsFresh h r → IsFresh (out ++ d.outbox.rows) r
