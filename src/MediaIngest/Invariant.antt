-- ===== src/MediaIngest/Invariant.antt =====
-- The constraints of table media.uploads under the requests of services/media-ingest.
use icyre.Prelude.{
  ℕ, ◌≡◌, ◌≢◌, Bool, true, false, ◌||◌, Option, none, some, List, [], ◌∷◌, ◌++◌, arith, ◌==◌, any,
  All,
}
use icyre.Prelude.Pairwise.{
  All-append, All-any_false, All-imp, All-map, Pairwise, Pairwise-last, Pairwise-map,
}
use icyre.Platform.Postgres.{World, Pgx}
use icyre.Platform.Postgres.Keeps.{Keeps, Keeps-update, Keeps-attempt, Keeps-bind, keeps_rules}
use icyre.Platform.Outbox.{Db, insert_all, write}
use icyre.MediaIngest.{Status, pending, completed, failed, Reason, Error, Upload, UploadRequest}
use icyre.MediaIngest
use icyre.MediaIngest.Repository
use icyre.MediaIngest.Repository.{
  Tables, keys_equal, checks, insert_upload, settled_row, settle_rows, put_tables,
}
use icyre.MediaIngest.Service.{
  ObjectInfo, Storage, Actor, Limits, Event, publish, outcome, outcome_as, create, get, verify_head,
  verify_as, verify, settle_tx, after_settle, complete_pending, complete, Request, create_request,
  complete_request, respond,
}

-- The primary key and UNIQUE (object_key)
abbrev pub Apart : Upload → Upload → Type 0
Apart r s = (r.id ≢ s.id) × (keys_equal r.key s.key ≡ false)

pub record IsWellFormed (t : Tables) : Type 0 where
  pub apart : Pairwise Apart t
  -- status, failure_reason and completed_at fit each other
  pub checked : All (λ u. checks u ≡ true) t

insert_upload-IsWellFormed :
    (u : Upload) (t t' : Tables) → IsWellFormed t → insert_upload u t ≡ some t' → IsWellFormed t'
unfolding insert_upload
insert_upload-IsWellFormed u t t' w e =
    let row : Upload = record u { failure_reason = none; completed_at = none } in
    let new : any (λ (r : Upload). r.id == u.id || keys_equal r.key u.key) t ≡ false =
      ground arith in
    let valid : checks row ≡ true = ground arith in
    let same : t' ≡ t ++ row ∷ [] = ground arith in
    rw same (record {
      apart = Pairwise-last Apart t row w.apart (
          All-any_false (λ r. Apart r row) (λ r. r.id == u.id || keys_equal r.key u.key) t
            (λ r k. ((λ e. ground arith), ground arith)) new);
      checked = All-append (λ r. checks r ≡ true) t (row ∷ []) w.checked (valid, tt);
    })

-- A row that takes its end from Settle fits its constraints.
settled_row-checks :
    (u : Upload) (reason : Option Reason) (at : ℕ) (r : Upload)
    → checks r ≡ true
    → checks (settled_row (MediaIngest.settle u reason at) r) ≡ true
unfolding settled_row checks MediaIngest.settle
settled_row-checks u none at r h = ground arith
settled_row-checks u (some reason) at r h = ground arith

settled_row-Apart : (u r s : Upload) → Apart r s → Apart (settled_row u r) (settled_row u s)
unfolding settled_row
settled_row-Apart u r s h = ((λ e. ground (arith, h.0)), ground (arith, h.1))

settle_rows-IsWellFormed :
    (u : Upload) (reason : Option Reason) (at : ℕ) (t : Tables)
    → IsWellFormed t
    → IsWellFormed (settle_rows (MediaIngest.settle u reason at) t)
unfolding settle_rows
settle_rows-IsWellFormed u reason at t w =
    let u' : Upload = MediaIngest.settle u reason at in
    record {
      apart =
          Pairwise-map Apart (settled_row u') (λ r s p q h. settled_row-Apart u' r s h) t w.checked
            w.apart;
      checked = All-map _ (settled_row u') t (All-imp t (settled_row-checks u reason at) w.checked);
    }

abbrev pub Fine : {M : Type 0} → Db Tables M → Type 0
Fine d = IsWellFormed d.tables

module _ {X : Type 0} where
  create_row-Fine : (u : Upload) → Keeps {X = X} (Fine {M = Event}) (Repository.create u)
  unfolding Repository.create
  create_row-Fine u = Keeps-attempt _ tt λ d d' w e.
      put (insert_upload u d.tables) d d' (λ t k. insert_upload-IsWellFormed u d.tables t w k) e
    where
      put :
          (o : Option Tables) (d d' : Db Tables Event)
          → ((t : Tables) → o ≡ some t → IsWellFormed t)
          → put_tables d o ≡ some d'
          → Fine d'
      put none d d' k e = absurd cc
      put (some t) d d' k e = k d'.tables cc

  settle_row-Fine :
      (u : Upload) (reason : Option Reason) (at : ℕ)
      → Keeps {X = X} (Fine {M = Event}) (Repository.settle (MediaIngest.settle u reason at))
  unfolding Repository.settle
  settle_row-Fine u reason at =
      Keeps-update _ _ λ d w. settle_rows-IsWellFormed u reason at d.tables w

  insert_all-Fine : (es : List Event) → Keeps {X = X} {E = Error} Fine (insert_all es)
  unfolding insert_all
  insert_all-Fine [] = search keeps_rules
  insert_all-Fine (e ∷ es) = Keeps-bind _ _ (Keeps-update _ _ (λ d w. w)) (λ _. insert_all-Fine es)

  publish-Fine : (e : Event) → Keeps {X = X} Fine (publish e)
  unfolding publish write
  publish-Fine e = search (keeps_rules, insert_all-Fine)

  get_row-Fine : (id : ℕ) → Keeps {X = X} (Fine {M = Event}) (Repository.get id)
  unfolding Repository.get
  get_row-Fine id = search keeps_rules

  outcome-Fine : (u : Upload) → Keeps {X = X} Fine (outcome u)
  unfolding outcome
  outcome-Fine u = as_stored u.status
    where
      as_stored : (s : Status) → Keeps {X = X} Fine (outcome_as s u)
      as_stored pending = search keeps_rules
      as_stored completed = search keeps_rules
      as_stored failed = search keeps_rules

module _ {X : Type 0} (store : Storage X) (limits : Limits) (pgx : Pgx) where
  verify-Fine : (u : Upload) (now : ℕ) → Keeps Fine (verify store limits pgx u now)
  unfolding verify
  verify-Fine u now = Keeps-bind _ _ (search keeps_rules) as_stored
    where
      as_checked : (o : Option Reason) → Keeps Fine (verify_head store limits pgx u o)
      as_checked none = search keeps_rules depth 8
      as_checked (some r) = search keeps_rules

      as_stored : (o : Option (Option ObjectInfo)) → Keeps Fine (verify_as store limits pgx u now o)
      as_stored none = search keeps_rules
      as_stored (some none) = search keeps_rules
      as_stored (some (some info)) = as_checked _

  settle_tx-Fine :
      (u : Upload) (reason : Option Reason) (at : ℕ)
      → Keeps Fine (settle_tx store limits pgx (MediaIngest.settle u reason at) reason)
  unfolding settle_tx
  settle_tx-Fine u reason at = search (keeps_rules, settle_row-Fine, publish-Fine)

  after_settle-Fine :
      (u : Upload) (reason : Option Reason) (changed : Bool)
      → Keeps Fine (after_settle store limits pgx u reason changed)
  unfolding after_settle
  after_settle-Fine u reason false = search (keeps_rules, get_row-Fine, outcome-Fine)
  after_settle-Fine u reason true = search (keeps_rules, outcome-Fine)

  complete_pending-Fine :
      (u : Upload) (now at : ℕ) → Keeps Fine (complete_pending store limits pgx u now at)
  unfolding complete_pending
  complete_pending-Fine u now at =
      search (keeps_rules, verify-Fine, settle_tx-Fine, after_settle-Fine) depth 9

  get-Fine : (actor : Actor) (id : ℕ) → Keeps Fine (get store limits pgx actor id)
  unfolding get
  get-Fine actor id = search (keeps_rules, get_row-Fine)

  respond-Fine : (actor : Actor) (q : Request) → Keeps Fine (respond store limits pgx actor q)
  unfolding respond create complete
  respond-Fine actor (create_request catalog req new_id now) =
      search (keeps_rules, create_row-Fine) depth 14
  respond-Fine actor (complete_request id now at) =
      search (keeps_rules, get-Fine, complete_pending-Fine, outcome-Fine) depth 8

  -- Where the constraints of the table hold, they hold after every request, whether it succeeds or
  -- fails and at whatever call: no two uploads share an id or a key, sizes are positive, digests have 32
  -- bytes, a reason stands in the failed uploads alone, and an instant of completion in those that
  -- are not pending.
  pub respond-IsWellFormed :
      (actor : Actor) (q : Request) (w : World (Db Tables Event) X)
      → IsWellFormed w.db.tables
      → IsWellFormed (respond store limits pgx actor q w).1.db.tables
  respond-IsWellFormed actor q w h = (respond-Fine actor q).at w h
