-- ===== src/MediaIngest/History.antt =====
-- The uploads over the transactions that reach the database, in whatever order the requests of any
-- number of clients interleave: a Complete reads a session in one statement, and settles it and
-- records its event in a later transaction, in which any call may fail. The UPDATE of Settle locks the
-- row and tests its status again once it has the lock, so that two such transactions on one upload
-- take effect one after the other. No relay takes rows out of the outbox here, which so holds every
-- event that was recorded.
use mathlib.Core.Path.{subst}
use icyre.Prelude.{
  ℕ, ◌≡◌, ◌≢◌, refl, sym, ap, ◌∙◌, inl, inr, Bool, true, false, Option, none, some, List, [], ◌∷◌,
  ◌++◌, ◌==◌, if◌then◌else◌, Bool-cases, any, All, count,
}
use icyre.Prelude.Pairwise.{All-imp, All-append, Pairwise, Pairwise-last}
use icyre.Platform.Postgres.{◌>>◌, pure, Result, ok, err, fault, Fails, World, Pgx, pool, in_tx}
use icyre.Platform.Postgres.Atomic.{IsAtomic, atomic_rules}
use icyre.Platform.Postgres.Inversion.{Returns, bind-ok, pure-ok, update-ok, in_tx-ok}
use icyre.Platform.Outbox.{Row, Db, insert}
use icyre.Platform.Outbox.TableName.{check_table, codes}
use icyre.Platform.Outbox.Announce.{announce, announce-ok}
use icyre.MediaIngest.{Error, Upload, Reason, settle}
use icyre.MediaIngest.Repository
use icyre.MediaIngest.Repository.{
  Tables, keys_equal, is_pending, is_open, insert_upload, settled_row, settle_rows,
}
use icyre.MediaIngest.Over.{IsOver, created-IsOver, settle-IsOver, settled-IsOver, settled_open}
use icyre.MediaIngest.Service.{
  Storage, Limits, Event, uploaded, ingest_failed, outbox_table, event_of, publish, settle_tx,
}

abbrev pub IngestDb : Type 0
IngestDb = Db Tables Event

abbrev upload_of : Event → ℕ
upload_of (uploaded u) = u.id
upload_of (ingest_failed u) = u.id

-- The uploads of the recorded events
abbrev pub recorded : List (Row Event) → List ℕ
recorded [] = []
recorded (r ∷ rows) = upload_of r.msg ∷ recorded rows

module _ {X : Type 0} (store : Storage X) (limits : Limits) (pgx : Pgx) where
  -- A session is stored, or some Complete runs its transaction, on an upload as it has read it.
  pub data Step : IngestDb → IngestDb → Type 0 where
    created :
        (u : Upload) (d : IngestDb) (t : Tables)
        → insert_upload u d.tables ≡ some t
        → Step d (record d { tables = t })
    settling :
        (u : Upload) (reason : Option Reason) (at : ℕ) (w : World IngestDb X)
        → Step w.db
            (in_tx pgx pool (λ _. settle_tx store limits pgx (settle u reason at) reason) w).1.db

  pub data Life (d₀ : IngestDb) : IngestDb → Type 0 where
    start : Life d₀ d₀
    next : {d d' : IngestDb} → Life d₀ d → Step d d' → Life d₀ d'

settle-NotPending :
    (u : Upload) (reason : Option Reason) (at : ℕ) → is_pending (settle u reason at).status ≡ false
unfolding settle
settle-NotPending u none at = refl
settle-NotPending u (some reason) at = refl

settle-id : (u : Upload) (reason : Option Reason) (at : ℕ) → (settle u reason at).id ≡ u.id
unfolding settle
settle-id u none at = refl
settle-id u (some reason) at = refl

upload_of-event_of : (reason : Option Reason) (u : Upload) → upload_of (event_of reason u) ≡ u.id
upload_of-event_of none u = refl
upload_of-event_of (some reason) u = refl

recorded-last :
    (rows : List (Row Event)) (r : Row Event)
    → recorded (rows ++ r ∷ []) ≡ recorded rows ++ upload_of r.msg ∷ []
recorded-last [] r = refl
recorded-last (s ∷ rows) r = ap (λ l. upload_of s.msg ∷ l) (recorded-last rows r)

table_checked : check_table (codes outbox_table) ≡ true
unfolding check_table
table_checked = refl

-- Each recorded upload is settled for good, and none is recorded twice.
abbrev Once : Tables → List ℕ → Type 0
Once t ids = All (IsOver t) ids × Pairwise (λ (i j : ℕ). i ≢ j) ids

abbrev Fine : IngestDb → Type 0
Fine d = Once d.tables (recorded d.outbox.rows)

created-Fine :
    (u : Upload) (d : IngestDb) (t : Tables)
    → insert_upload u d.tables ≡ some t
    → Fine d
    → Fine (record d { tables = t })
created-Fine u d t e (over, once) =
    (All-imp (recorded d.outbox.rows) (λ id h. created-IsOver u d.tables t id e h) over, once)

-- What the transaction leaves: the row is settled, and the event there where the row was open.
abbrev with_settled : Upload → Option Reason → IngestDb → IngestDb
with_settled u reason d =
    if count (is_open u.id) d.tables == 1
    then record { tables = settle_rows u d.tables; outbox = insert (event_of reason u) d.outbox }
    else record d { tables = settle_rows u d.tables }

with_settled-Fine :
    (u : Upload) (reason : Option Reason) (d : IngestDb)
    → is_pending u.status ≡ false
    → Fine d
    → Fine (with_settled u reason d)
unfolding insert
with_settled-Fine u reason d p (over, once) =
    elim (Bool-cases (count (is_open u.id) d.tables == 1)) [
      | inr e ↦ subst Fine (sym (late e)) (kept, once)
      | inl e ↦ subst Fine (sym (first e)) (
          subst (Once (settle_rows u d.tables)) (sym ids) (
            All-append (IsOver (settle_rows u d.tables)) (recorded d.outbox.rows) (u.id ∷ []) kept
                (settled-IsOver u d.tables p e, tt),
            Pairwise-last (λ (i j : ℕ). i ≢ j) (recorded d.outbox.rows) u.id once
                (All-imp (recorded d.outbox.rows)
                  (λ id h k. settled_open u d.tables e id h.1 (sym k)) over),
          ))
    ]
  where
    kept : All (IsOver (settle_rows u d.tables)) (recorded d.outbox.rows)
    kept = All-imp (recorded d.outbox.rows) (λ id h. settle-IsOver u d.tables id p h) over

    late :
        (count (is_open u.id) d.tables == 1) ≡ false
        → with_settled u reason d ≡ record d { tables = settle_rows u d.tables }
    late e = rw e refl

    first :
        (count (is_open u.id) d.tables == 1) ≡ true
        → with_settled u reason d
          ≡ record { tables = settle_rows u d.tables; outbox = insert (event_of reason u) d.outbox }
    first e = rw e refl

    ids : recorded (insert (event_of reason u) d.outbox).rows ≡ recorded d.outbox.rows ++ u.id ∷ []
    ids =
        recorded-last d.outbox.rows (record { id = d.outbox.next_id; msg = event_of reason u })
        ∙ ap (λ k. recorded d.outbox.rows ++ k ∷ []) (upload_of-event_of reason u)

module _ {X : Type 0} (store : Storage X) (limits : Limits) (pgx : Pgx) where
  abbrev db_of : World IngestDb X → IngestDb
  db_of w = w.db

  publish-ok :
      (e : Event) (w w₁ : World IngestDb X)
      → Returns (publish e) w tt w₁
      → w₁.db ≡ record w.db { outbox = insert e w.db.outbox }
  unfolding publish announce
  publish-ok e w w₁ h = announce-ok outbox_table e w w₁ table_checked h

  settle_tx-ok :
      (u : Upload) (reason : Option Reason) (b : Bool) (w w' : World IngestDb X)
      → Returns (settle_tx store limits pgx u reason) w b w'
      → w'.db ≡ with_settled u reason w.db
  unfolding settle_tx Repository.settle
  settle_tx-ok u reason b w w' h =
      let (changed, v, e, f) = bind-ok _ _ w w' b h in
      let (told, after, _) = update-ok _ _ w v changed e in by_answer changed v (sym told) after f
    where
      by_answer :
          (changed : Bool) (v : World IngestDb X)
          → (count (is_open u.id) w.db.tables == 1) ≡ changed
          → v.db ≡ record w.db { tables = settle_rows u w.db.tables }
          → Returns
              (if changed then (publish (event_of reason u) >> pure true) else pure false)
              v
              b
              w'
          → w'.db ≡ with_settled u reason w.db
      by_answer false v k after f =
          let (_, same) = pure-ok false b v w' f in ap db_of (sym same) ∙ after ∙ (rw k refl)
      by_answer true v k after f =
          let (_, v₂, e₂, f₂) = bind-ok _ _ v w' b f in
          let (_, same) = pure-ok true b v₂ w' f₂ in
          ap db_of (sym same)
          ∙ publish-ok (event_of reason u) v v₂ e₂
          ∙ ap (λ (d : IngestDb). record d { outbox = insert (event_of reason u) d.outbox }) after
          ∙ (rw k refl)

  settling-IsAtomic :
      (u : Upload) (reason : Option Reason)
      → IsAtomic {X = X} (in_tx pgx pool (λ _. settle_tx store limits pgx u reason))
  settling-IsAtomic u reason = search atomic_rules

  settling-Fine :
      (u : Upload) (reason : Option Reason) (w : World IngestDb X)
      → is_pending u.status ≡ false
      → Fine w.db
      → Fine (in_tx pgx pool (λ _. settle_tx store limits pgx u reason) w).1.db
  settling-Fine u reason w p h =
      by_result (in_tx pgx pool (λ _. settle_tx store limits pgx u reason) w).0 refl
    where
      after : World IngestDb X
      after = (in_tx pgx pool (λ _. settle_tx store limits pgx u reason) w).1

      failed : Fails (in_tx pgx pool (λ _. settle_tx store limits pgx u reason) w).0 → Fine after.db
      failed f = subst Fine (sym ((settling-IsAtomic u reason).at w f)) h

      by_result :
          (r : Result Error Bool)
          → (in_tx pgx pool (λ _. settle_tx store limits pgx u reason) w).0 ≡ r
          → Fine after.db
      by_result (ok b) e =
          let (w₁, w₂, began, ran, end) = in_tx-ok pgx _ w after b (λ i. (e i, after)) in
          subst Fine
            (sym (end ∙ settle_tx-ok u reason b w₁ w₂ ran ∙ ap (with_settled u reason) began))
            (with_settled-Fine u reason w.db p h)
      by_result (err x) e = failed (subst Fails (sym e) tt)
      by_result fault e = failed (subst Fails (sym e) tt)

  -- Concurrent completes settle an upload once: from an outbox without rows, and while no relay takes
  -- rows out of it, however the transactions of Complete follow each other and new sessions, and
  -- whichever of their calls fail, at most one event is recorded for each upload, and an upload with
  -- an event is in the table and not pending.
  pub settled_once :
      (t₀ : Tables) (next_id : ℕ) (d : IngestDb)
      → Life store limits pgx
          (record { tables = t₀; outbox = record { rows = []; next_id = next_id } })
          d
      → Pairwise (λ (i j : ℕ). i ≢ j) (recorded d.outbox.rows)
        × All
            (λ id.
              (any (λ (r : Upload). r.id == id) d.tables ≡ true)
              × (any (is_open id) d.tables ≡ false))
            (recorded d.outbox.rows)
  settled_once t₀ next_id d life = let (over, once) = lived life in (once, over)
    where
      lived :
          {c : IngestDb}
          → Life store limits pgx
              (record { tables = t₀; outbox = record { rows = []; next_id = next_id } })
              c
          → Fine c
      lived start = (tt, tt)
      lived (next l (created u c t e)) = created-Fine u c t e (lived l)
      lived (next l (settling u reason at w)) =
          settling-Fine (settle u reason at) reason w (settle-NotPending u reason at) (lived l)
