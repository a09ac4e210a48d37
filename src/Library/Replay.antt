-- ===== src/Library/Replay.antt =====
-- Requests to the library one after another, and a consumer of library.events beside them
-- (services/library/internal/application/service.go).
use mathlib.Core.Path.{subst}
use icyre.Prelude.{
  ℕ, ◌≡◌, inl, inr, refl, sym, ap, ◌∙◌, Bool, true, false, none, List, [], ◌∷◌, ◌++◌, arith, any,
  filter, ◌==◌, count, not, Bool-cases, All,
}
use icyre.Prelude.Pairwise.{Pairwise, Pairwise-last, Pairwise-filter, All-imp, All-any_false}
use icyre.Platform.Postgres.{ok, err, fault, Fails, Result, World, Pgx}
use icyre.Platform.Postgres.Atomic.{IsAtomic, atomic_rules}
use icyre.Platform.Postgres.Inversion.{Returns, bind-ok, pure-ok}
use icyre.Platform.Outbox.{insert, msgs}
use icyre.Platform.Outbox.Delivery.{msgs-append}
use icyre.Library.{Error, Kind, track, album, same_kind, Item}
use icyre.Library.Repository.{is_entry, find_entry, delete_item}
use icyre.Library.Service.{
  Event, saved, removed, save, remove, Request, save_request, remove_request, handle,
}
use icyre.Library.Effects.{
  LibraryDb, db_of, save-Once, remove-Announced, entry, with_saved, with_removed, any_of_none,
}

-- A consumer of library.events, which keeps its own copy of the rows
unfoldable pub replay : List Item → List Event → List Item
replay rows [] = rows
replay rows (saved it ∷ rest) = replay (rows ++ it ∷ []) rest
replay rows (removed it ∷ rest) = replay (delete_item it.user_id it.kind it.entity_id rows) rest

-- The outbox of `d` with what `base` was before its rows tells all of the tables.
abbrev pub InStep : List Item → LibraryDb → Type 0
InStep base d = replay base (msgs d.outbox.rows) ≡ d.tables

replay-append :
    (rows : List Item) (es : List Event) (e : Event)
    → replay rows (es ++ e ∷ []) ≡ replay (replay rows es) (e ∷ [])
unfolding replay
replay-append rows [] e = refl
replay-append rows (saved it ∷ rest) e = replay-append (rows ++ it ∷ []) rest e
replay-append rows (removed it ∷ rest) e =
    replay-append (delete_item it.user_id it.kind it.entity_id rows) rest e

abbrev pub Apart : Item → Item → Type 0
Apart r s = is_entry r.user_id r.kind r.entity_id s ≡ false

-- PRIMARY KEY (user_id, kind, entity_id)
abbrev pub IsKeyed : List Item → Type 0
IsKeyed rows = Pairwise Apart rows

delete_none :
    (user : ℕ) (kind : Kind) (id : ℕ) (rows : List Item)
    → any (is_entry user kind id) rows ≡ false
    → delete_item user kind id rows ≡ rows
unfolding delete_item
delete_none user kind id [] h = refl
delete_none user kind id (r ∷ rows) h = ground (arith, delete_none user kind id rows)

-- One more event in the outbox
InStep-insert :
    (base : List Item) (d : LibraryDb) (rows : List Item) (e : Event)
    → InStep base d
    → replay d.tables (e ∷ []) ≡ rows
    → InStep base (record { tables = rows; outbox = insert e d.outbox })
unfolding insert
InStep-insert base d rows e h k =
    ap (replay base) (msgs-append d.outbox.rows (record { id = d.outbox.next_id; msg = e } ∷ []))
    ∙ replay-append base (msgs d.outbox.rows) e
    ∙ ap (λ r. replay r (e ∷ [])) h
    ∙ k

same_kind_refl : (k : Kind) → same_kind k k ≡ true
same_kind_refl track = refl
same_kind_refl album = refl

pub same_kind-eq : (j k : Kind) → same_kind j k ≡ true → j ≡ k
same_kind-eq track track h = refl
same_kind-eq album album h = refl
same_kind-eq track album h = absurd (ground arith)
same_kind-eq album track h = absurd (ground arith)

-- The entry of a key
is_entry-eq :
    (user : ℕ) (kind : Kind) (id : ℕ) (r : Item)
    → is_entry user kind id r ≡ true
    → (r.user_id ≡ user) × (r.kind ≡ kind) × (r.entity_id ≡ id)
is_entry-eq user kind id r h = (ground arith, same_kind-eq r.kind kind (ground arith), ground arith)

pub is_entry_refl : (r : Item) → is_entry r.user_id r.kind r.entity_id r ≡ true
is_entry_refl r = rw (same_kind_refl r.kind) (ground arith)

is_entry-sym :
    (r s : Item)
    → is_entry r.user_id r.kind r.entity_id s ≡ false
    → is_entry s.user_id s.kind s.entity_id r ≡ false
is_entry-sym r s h = elim (Bool-cases (is_entry s.user_id s.kind s.entity_id r)) [
  | inr e ↦ e
  | inl e ↦
      let (u, k, i) = is_entry-eq s.user_id s.kind s.entity_id r e in
      let self = sym (is_entry_refl s) ∙ (λ j. is_entry (sym u j) (sym k j) (sym i j) s) ∙ h in
      absurd (ground arith)
]

filter_none :
    (p : Item → Bool) (rows : List Item) → All (λ s. p s ≡ false) rows → filter p rows ≡ []
filter_none p [] h = refl
filter_none p (r ∷ rows) h = rw h.0 (filter_none p rows h.1)

-- Only one entry has a key.
keyed_count :
    (user : ℕ) (kind : Kind) (id : ℕ) (rows : List Item)
    → IsKeyed rows
    → (count (is_entry user kind id) rows == 1) ≡ false
    → any (is_entry user kind id) rows ≡ false
keyed_count user kind id [] h k = refl
keyed_count user kind id (r ∷ rows) h k = elim (Bool-cases (is_entry user kind id r)) [
  | inr e ↦ ground (arith, keyed_count user kind id rows h.1)
  | inl e ↦
      let (u, j, i) = is_entry-eq user kind id r e in
      let alone : All (λ s. is_entry user kind id s ≡ false) rows =
        All-imp rows (λ s a. (λ x. is_entry (sym u x) (sym j x) (sym i x) s) ∙ a) h.0 in
      let one : filter (is_entry user kind id) rows ≡ [] =
        filter_none (is_entry user kind id) rows alone in
      let impossible = rw (one, e) at k in absurd (ground arith)
]

-- The state of the library, seen from the events: its rows have different keys, and a copy that a
-- consumer makes from the events is the same.
pub record IsConsistent (base : List Item) (d : LibraryDb) : Type 0 where
  pub keyed : IsKeyed d.tables
  pub in_step : InStep base d

with_saved-IsConsistent :
    (base : List Item) (it : Item) (d : LibraryDb)
    → find_entry it.user_id it.kind it.entity_id d.tables ≡ none
    → IsConsistent base d
    → IsConsistent base (with_saved it d)
unfolding replay
with_saved-IsConsistent base it d absent h = record {
  keyed = Pairwise-last Apart d.tables it h.keyed (
      All-any_false (λ r. Apart r it) (is_entry it.user_id it.kind it.entity_id) d.tables
        (λ r k. is_entry-sym it r k)
        (any_of_none (is_entry it.user_id it.kind it.entity_id) d.tables absent));
  in_step = InStep-insert base d (d.tables ++ it ∷ []) (saved it) h.in_step refl;
}

with_removed-IsConsistent :
    (base : List Item) (user : ℕ) (kind : Kind) (id now : ℕ) (d : LibraryDb)
    → IsConsistent base d
    → IsConsistent base (with_removed user kind id now d)
unfolding replay delete_item
with_removed-IsConsistent base user kind id now d h =
    elim (Bool-cases (count (is_entry user kind id) d.tables == 1)) [
      | inl e ↦ rw e (record {
        keyed = Pairwise-filter Apart (λ r. not (is_entry user kind id r)) d.tables h.keyed;
        in_step =
            InStep-insert base d (delete_item user kind id d.tables)
              (removed (record { user_id = user; kind = kind; entity_id = id; saved_at = now }))
              h.in_step refl;
      })
      | inr e ↦
          rw e
            (rw (delete_none user kind id d.tables (keyed_count user kind id d.tables h.keyed e)) h)
    ]

module _ {X : Type 0} (pgx : Pgx) where
  handle-IsAtomic : (user now : ℕ) (q : Request) → IsAtomic {X = X} (handle pgx user now q)
  unfolding handle save remove
  handle-IsAtomic user now (save_request catalog kind id) = search atomic_rules
  handle-IsAtomic user now (remove_request kind id) = search atomic_rules

  handled :
      (base : List Item) (user now : ℕ) (q : Request) (w w' : World LibraryDb X)
      → Returns (handle pgx user now q) w tt w'
      → IsConsistent base w.db
      → IsConsistent base w'.db
  unfolding handle
  handled base user now (save_request catalog kind id) w w' h c =
      let (it, v, e, f) = bind-ok _ _ w w' tt h in
      let (_, same) = pure-ok tt tt v w' f in
      let after : v.db ≡ w'.db = ap db_of same in
      elim (save-Once pgx catalog user kind id now it w v e) [
        | inl (absent, _, wrote) ↦
            subst (IsConsistent base) (sym wrote ∙ after)
              (with_saved-IsConsistent base (entry user kind id now) w.db absent c)
        | inr (r, _, _, wrote) ↦ subst (IsConsistent base) (sym wrote ∙ after) c
      ]
  handled base user now (remove_request kind id) w w' h c =
      subst (IsConsistent base) (sym (remove-Announced pgx user kind id now w w' h))
        (with_removed-IsConsistent base user kind id now w.db c)

  -- Where the entries of the library have different keys and a copy made from its events is the same
  -- as its rows, so it is after every request, whether it succeeds or fails and at whatever call.
  pub handle-IsConsistent :
      (base : List Item) (user now : ℕ) (q : Request) (w : World LibraryDb X)
      → IsConsistent base w.db
      → IsConsistent base (handle pgx user now q w).1.db
  handle-IsConsistent base user now q w c = settle (handle pgx user now q w).0 refl
    where
      settle :
          (r : Result Error (Unit {0}))
          → (handle pgx user now q w).0 ≡ r
          → IsConsistent base (handle pgx user now q w).1.db
      settle (ok a) e = handled base user now q w _ (λ i. (e i, (handle pgx user now q w).1)) c
      settle (err x) e =
          subst (IsConsistent base)
            (sym ((handle-IsAtomic user now q).at w (subst Fails (sym e) tt))) c
      settle fault e =
          subst (IsConsistent base)
            (sym ((handle-IsAtomic user now q).at w (subst Fails (sym e) tt))) c
