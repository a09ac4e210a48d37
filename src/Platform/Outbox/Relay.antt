-- ===== src/Platform/Outbox/Relay.antt =====
-- RelayOnce of libs/platform/outbox/relay.go, one round.
use mathlib.Core.Path.{subst, subst₂, subst₃}
use icyre.Prelude.{
  ℕ, zero, suc, ◌≤◌, ◌<◌, ◌≡◌, refl, sym, ap, ◌∙◌, Bool, true, false, not, List, [], ◌∷◌, ◌++◌,
  arith, ◌==◌, leb, length, take, drop, filter, any, All, length-take, take-append-drop,
}
use mathlib.Core.List.{append-nil, append_assoc}
use icyre.Prelude.Sort.{sort_by-Ordered, Ordered}
use icyre.Platform.Postgres.{ok, Fails, World, Exec, Pgx}
use icyre.Platform.Postgres.Inversion.{bind-ok, pure-ok, select-ok, update-ok}
use icyre.Platform.Postgres.Outside.{Leaves, Leaves-begin_func, leaves_rules}
use icyre.Platform.Outbox.{
  Row, Outbox, acknowledge, relay_as, Db, oldest, ids, msgs, delete, Broker, publish, send,
  relay_tx, relay_once,
}

module _ {M : Type 0} where
  -- The identity column: each row has a larger number than those before it.
  abbrev pub IsNumbered : List (Row M) → Type 0
  IsNumbered [] = Unit
  IsNumbered (r ∷ rs) = All (λ (s : Row M). r.id < s.id) rs × IsNumbered rs

  later :
      (r : Row M) (rs : List (Row M))
      → All (λ s. r.id < s.id) rs
      → All (λ s. leb r.id s.id ≡ true) rs
  later r [] h = tt
  later r (s ∷ rs) h = (ground arith, later r rs h.1)

  IsNumbered-Ordered : (rs : List (Row M)) → IsNumbered rs → Ordered (λ a b. leb a.id b.id) rs
  IsNumbered-Ordered [] h = tt
  IsNumbered-Ordered (r ∷ rs) h = (later r rs h.0, IsNumbered-Ordered rs h.1)

  pub oldest-take :
      (batch : ℕ) (o : Outbox M) → IsNumbered o.rows → oldest batch o ≡ take batch o.rows
  unfolding oldest
  oldest-take batch o h =
      ap (take batch) (sort_by-Ordered (λ a b. leb a.id b.id) o.rows (IsNumbered-Ordered o.rows h))

  keep_all : (rs : List (Row M)) → filter (λ (r : Row M). not (any (λ k. k == r.id) [])) rs ≡ rs
  keep_all [] = refl
  keep_all (r ∷ rs) = ap (λ l. r ∷ l) (keep_all rs)

  skip_key :
      (k : ℕ) (keys : List ℕ) (rs : List (Row M))
      → All (λ (s : Row M). k < s.id) rs
      → filter (λ (s : Row M). not (any (λ j. j == s.id) (k ∷ keys))) rs
        ≡ filter (λ (s : Row M). not (any (λ j. j == s.id) keys)) rs
  skip_key k keys [] h = refl
  skip_key k keys (s ∷ rs) h = ground (arith, skip_key k keys rs h.1)

  filter-ids :
      (n : ℕ) (rs : List (Row M))
      → IsNumbered rs
      → filter (λ (s : Row M). not (any (λ j. j == s.id) (ids (take n rs)))) rs ≡ drop n rs
  filter-ids zero rs h = keep_all rs
  filter-ids (suc n) [] h = refl
  filter-ids (suc n) (r ∷ rs) h =
      ground (arith, skip_key r.id (ids (take n rs)) rs h.0, filter-ids n rs h.1)

  pub delete-take :
      (n : ℕ) (o : Outbox M)
      → IsNumbered o.rows
      → delete (ids (take n o.rows)) o ≡ record o { rows = drop n o.rows }
  unfolding delete
  delete-take n o h = ap (λ rs. record o { rows = rs }) (filter-ids n o.rows h)

-- What a round may do to the table and the topic when it reports `n` rows.
pub record Sent {T M : Type 0} (n batch : ℕ) (d d' : Db T M) (before after : List M) : Type 0 where
  pub rows : List (Row M)
  pub oldest_first : d.outbox.rows ≡ rows ++ d'.outbox.rows
  pub published : after ≡ before ++ msgs rows
  pub counted : length rows ≡ n
  pub bounded : n ≤ batch
  pub numbering : d'.outbox.next_id ≡ d.outbox.next_id
  pub tables : d'.tables ≡ d.tables

Sent-nothing :
    {T M : Type 0} (batch : ℕ) (d : Db T M) (before : List M) → Sent 0 batch d d before before
Sent-nothing batch d before = record {
  rows = [];
  oldest_first = refl;
  published = sym (append-nil before);
  counted = refl;
  bounded = omega arith;
  numbering = refl;
  tables = refl;
}

abbrev without_oldest : {T M : Type 0} → ℕ → Db T M → Db T M
without_oldest batch d = record d { outbox = delete (ids (take batch d.outbox.rows)) d.outbox }

Sent-batch :
    {T M : Type 0} (batch : ℕ) (d : Db T M) (before : List M)
    → IsNumbered d.outbox.rows
    → Sent
        (length (take batch d.outbox.rows))
        batch
        d
        (without_oldest batch d)
        before
        (before ++ msgs (take batch d.outbox.rows))
Sent-batch batch d before h =
    let there : delete (ids (take batch d.outbox.rows)) d.outbox
        ≡ record d.outbox { rows = drop batch d.outbox.rows } =
      delete-take batch d.outbox h in
    record {
      rows = take batch d.outbox.rows;
      oldest_first = rw there (sym (take-append-drop batch d.outbox.rows));
      published = refl;
      counted = refl;
      bounded = omega (arith, length-take batch d.outbox.rows);
      numbering = rw there;
      tables = refl;
    }

module _ {T M X E : Type 0} (broker : Broker M X) where
  acknowledge-ok :
      (ms : List M) (w w₁ : World (Db T M) X) (u : Unit {0}) (p : Bool × X)
      → (p.0 ≡ true → broker.log p.1 ≡ broker.log w.outside ++ ms)
      → acknowledge {E = E} p w ≡ (ok u, w₁)
      → (w₁.db ≡ w.db) × (broker.log w₁.outside ≡ broker.log w.outside ++ ms)
  unfolding acknowledge
  acknowledge-ok ms w w₁ u (true, x) k e =
      let same : record w { outside = x } ≡ w₁ = cc in
      (ap (λ v. v.db) (sym same), ap (λ v. broker.log v.outside) (sym same) ∙ k refl)
  acknowledge-ok ms w w₁ u (false, x) k e = cc

  publish-ok :
      (ms : List M) (w w₁ : World (Db T M) X) (u : Unit {0})
      → publish {E = E} broker ms w ≡ (ok u, w₁)
      → (w₁.db ≡ w.db) × (broker.log w₁.outside ≡ broker.log w.outside ++ ms)
  unfolding publish
  publish-ok ms w w₁ u h =
      acknowledge-ok ms w w₁ u (broker.produce_sync ms w.outside) (broker.acknowledged ms w.outside)
        h

  send-ok :
      (batch n : ℕ) (rs : List (Row M)) (w w₁ : World (Db T M) X)
      → IsNumbered w.db.outbox.rows
      → rs ≡ take batch w.db.outbox.rows
      → send {E = E} broker rs w ≡ (ok n, w₁)
      → Sent n batch w.db w₁.db (broker.log w.outside) (broker.log w₁.outside)
  unfolding send
  send-ok batch n [] w w₁ h e r =
      let (z, same) = pure-ok 0 n w w₁ r in
      subst₂ (λ k v. Sent k batch w.db v.db (broker.log w.outside) (broker.log v.outside)) z same
        (Sent-nothing batch w.db (broker.log w.outside))
  send-ok batch n (a ∷ rs) w w₄ h e r =
      let (u, w₁, sent, r₁) = bind-ok _ _ w w₄ n r in
      let (v, w₂, deleted, r₂) = bind-ok _ _ w₁ w₄ n r₁ in
      let (z, same) = pure-ok _ n w₂ w₄ r₂ in
      let (db₁, published) = publish-ok (msgs (a ∷ rs)) w w₁ u sent in
      let (_, db₂, out₂) = update-ok _ _ w₁ w₂ v deleted in
      let db₄ : w₄.db ≡ without_oldest batch w.db =
        ap (λ y. y.db) (sym same)
        ∙ db₂
        ∙ ap (λ (d : Db T M). record d { outbox = delete (ids (a ∷ rs)) d.outbox }) db₁
        ∙ ap (λ l. record w.db { outbox = delete (ids l) w.db.outbox }) e in
      let log₄ : broker.log w₄.outside
          ≡ broker.log w.outside ++ msgs (take batch w.db.outbox.rows) =
        ap (λ y. broker.log y.outside) (sym same)
        ∙ ap broker.log out₂
        ∙ published
        ∙ ap (λ l. broker.log w.outside ++ msgs l) e in
      subst₃ (λ k d x. Sent k batch w.db d (broker.log w.outside) x) (ap length (sym e) ∙ z)
        (sym db₄) (sym log₄) (Sent-batch batch w.db (broker.log w.outside) h)

  relay_as-ok :
      (leader : Bool) (batch n : ℕ) (w w₁ : World (Db T M) X)
      → IsNumbered w.db.outbox.rows
      → relay_as {E = E} broker leader batch w ≡ (ok n, w₁)
      → Sent n batch w.db w₁.db (broker.log w.outside) (broker.log w₁.outside)
  unfolding relay_as
  relay_as-ok false batch n w w₁ h r =
      let (z, same) = pure-ok 0 n w w₁ r in
      subst₂ (λ k v. Sent k batch w.db v.db (broker.log w.outside) (broker.log v.outside)) z same
        (Sent-nothing batch w.db (broker.log w.outside))
  relay_as-ok true batch n w w₂ h r =
      let (rows, w₁, read, r₁) = bind-ok _ _ w w₂ n r in
      let (found, db₁, out₁) = select-ok _ w w₁ rows read in
      let k : IsNumbered w₁.db.outbox.rows =
        subst (λ (d : Db T M). IsNumbered d.outbox.rows) (sym db₁) h in
      let there : rows ≡ take batch w₁.db.outbox.rows =
        found
        ∙ oldest-take batch w.db.outbox h
        ∙ ap (λ (d : Db T M). take batch d.outbox.rows) (sym db₁) in
      subst₂ (λ d x. Sent n batch d w₂.db (broker.log x) (broker.log w₂.outside)) db₁ out₁
        (send-ok batch n rows w₁ w₂ k there r₁)

  relay_tx-ok :
      (leader : Bool) (batch n : ℕ) (w w₁ : World (Db T M) X)
      → IsNumbered w.db.outbox.rows
      → relay_tx {E = E} broker leader batch w ≡ (ok n, w₁)
      → Sent n batch w.db w₁.db (broker.log w.outside) (broker.log w₁.outside)
  unfolding relay_tx
  relay_tx-ok leader batch n w w₂ h r =
      let (locked, w₁, lock, r₁) = bind-ok _ _ w w₂ n r in
      let (_, db₁, out₁) = select-ok _ w w₁ locked lock in
      let k : IsNumbered w₁.db.outbox.rows =
        subst (λ (d : Db T M). IsNumbered d.outbox.rows) (sym db₁) h in
      subst₂ (λ d x. Sent n batch d w₂.db (broker.log x) (broker.log w₂.outside)) db₁ out₁
        (relay_as-ok locked batch n w₁ w₂ k r₁)

-- The topic still begins with what it held.
abbrev Extended : {M X : Type 0} → Broker M X → List M → X → Type 0
Extended {M} broker before x = (extra : List M) × (broker.log x ≡ before ++ extra)

module _ {T M X E : Type 0} (broker : Broker M X) where
  publish-Leaves :
      (before : List M) (ms : List M)
      → Leaves {D = Db T M} {E = E} (Extended broker before) (publish broker ms)
  unfolding publish acknowledge
  publish-Leaves before ms = record {
    at = λ w h.
        let (more, e) = broker.appends ms w.outside in
        (
          h.0 ++ more,
          acknowledged w (broker.produce_sync ms w.outside)
              ∙ e
              ∙ ap (λ l. l ++ more) h.1
              ∙ append_assoc before h.0 more,
        );
  }
    where
      acknowledged :
          (w : World (Db T M) X) (p : Bool × X)
          → broker.log (acknowledge {E = E} p w).1.outside ≡ broker.log p.1
      acknowledged w (true, x) = refl
      acknowledged w (false, x) = refl

  send-Leaves :
      (before : List M) (rs : List (Row M))
      → Leaves {D = Db T M} {E = E} (Extended broker before) (send broker rs)
  unfolding send
  send-Leaves before [] = search leaves_rules
  send-Leaves before (r ∷ rs) = search (leaves_rules, publish-Leaves)

  relay_as-Leaves :
      (before : List M) (leader : Bool) (batch : ℕ)
      → Leaves {D = Db T M} {E = E} (Extended broker before) (relay_as broker leader batch)
  unfolding relay_as
  relay_as-Leaves before true batch = search (leaves_rules, send-Leaves)
  relay_as-Leaves before false batch = search leaves_rules

  relay_tx-Leaves :
      (before : List M) (leader : Bool) (batch : ℕ)
      → Leaves {D = Db T M} {E = E} (Extended broker before) (relay_tx broker leader batch)
  unfolding relay_tx
  relay_tx-Leaves before leader batch = search (leaves_rules, relay_as-Leaves)

module _ {T M X : Type 0} (E : Type 0) (pgx : Pgx) (broker : Broker M X) where
  -- A round that reports n rows has deleted the n oldest rows, n within the batch, and the topic
  -- has gained their messages, in the order of their numbers. The rest of the database stays.
  pub relay_once-Sent :
      (leader : Bool) (batch n : ℕ) (w : World (Db T M) X)
      → IsNumbered w.db.outbox.rows
      → (relay_once {E = E} pgx broker leader batch w).0 ≡ ok n
      → let w' = (relay_once {E = E} pgx broker leader batch w).1 in
        Sent n batch w.db w'.db (broker.log w.outside) (broker.log w'.outside)
  unfolding relay_once
  relay_once-Sent leader batch n w h e =
      let m : Exec (Db T M) X E ℕ = relay_tx broker leader batch in
      let (w₁, w₂, db₁, out₁, ran, db₂, out₂) = pgx.commits m w n e in
      let k : IsNumbered w₁.db.outbox.rows =
        subst (λ (d : Db T M). IsNumbered d.outbox.rows) (sym db₁) h in
      let sent : Sent n batch w₁.db w₂.db (broker.log w₁.outside) (broker.log w₂.outside) =
        relay_tx-ok broker leader batch n w₁ w₂ k ran in
      subst₂ (λ d x. Sent n batch w.db d (broker.log w.outside) (broker.log x)) (sym db₂) (sym out₂)
        (subst₂ (λ d x. Sent n batch d w₂.db (broker.log x) (broker.log w₂.outside)) db₁ out₁ sent)

  -- A round that fails deletes nothing, and takes nothing off the topic.
  pub relay_once_failed :
      (leader : Bool) (batch : ℕ) (w : World (Db T M) X)
      → Fails (relay_once {E = E} pgx broker leader batch w).0
      → let w' = (relay_once {E = E} pgx broker leader batch w).1 in
        (w'.db ≡ w.db)
        × ((extra : List M) × (broker.log w'.outside ≡ broker.log w.outside ++ extra))
  unfolding relay_once
  relay_once_failed leader batch w f = (
    pgx.rolls_back (relay_tx broker leader batch) w f,
    (Leaves-begin_func pgx (relay_tx broker leader batch)
          (relay_tx-Leaves broker (broker.log w.outside) leader batch)).at
        w ([], sym (append-nil (broker.log w.outside))),
  )
