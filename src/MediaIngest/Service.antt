-- ===== src/MediaIngest/Service.antt =====
-- services/media-ingest/internal/application/service.go, with the events of
-- services/media-ingest/internal/adapters/kafka/publisher.go.
--
-- The clock, a new UUID and the answer of the Catalog are arguments; `Storage` is the bucket.
use Prim.Native.String.{String}
use icyre.Prelude.{
  ℕ, ◌+◌, ◌-◌, ◌%◌, Bool, true, false, not, ◌&&◌, ◌||◌, Option, none, some, List, [], ◌∷◌, ltb,
  ◌==◌, if◌then◌else◌,
}
use icyre.Prelude.Unicode.{texts_equal}
use icyre.Platform.Postgres.{
  ◌>>=◌, ◌>>◌, Result, ok, err, fault, Exec, pure, raise, broken, select, lift, reach, Pgx, pool,
  in_tx,
}
use icyre.Platform.Outbox.{Db, write}
use icyre.MediaIngest.{
  Status, pending, completed, failed, Reason, expired, size_mismatch, content_type_mismatch,
  unrecognized_format, checksum_mismatch, Field, Error, not_found, forbidden, not_uploaded,
  validation, rejected, Format, sniff_len, format_of, Key, Upload, UploadRequest, decode_hex,
  bad_fields, settle,
}
use icyre.MediaIngest.Repository
use icyre.MediaIngest.Repository.{Tables, is_pending}

pub record ObjectInfo : Type 0 where
  pub size : ℕ
  pub content_type : List ℕ
  pub sha256 : List ℕ

-- objectstore.Store: `none` is an error, and `some none` of `stat` is ErrNotFound. `encode` is the
-- base64 text of a digest.
pub record Storage (X : Type 0) : Type 0 where
  pub presign_upload : Key → X → Option ℕ
  pub stat : Key → X → Option (Option ObjectInfo)
  pub read_head : Key → ℕ → X → Option (List ℕ)
  pub remove : Key → X → Unit {0} × X
  pub encode : List ℕ → List ℕ

pub record Actor : Type 0 where
  pub id : ℕ
  pub artist : Bool
  pub admin : Bool

pub record Limits : Type 0 where
  pub max_size : ℕ
  pub url_ttl : ℕ

pub data Event : Type 0 where
  uploaded ingest_failed : Upload → Event

abbrev pub outbox_table : String
outbox_table = "media.outbox"

abbrev pub Service : Type 0 → Type 0 → Type 0
Service X A = Exec (Db Tables Event) X Error A

abbrev pub stamp : ℕ → ℕ
stamp now = now - now % 1000

abbrev pub or_fault : {A : Type 0} → Option A → Result Error A
or_fault none = fault
or_fault (some a) = ok a

abbrev pub digest_of : Option (List ℕ) → List ℕ
digest_of none = []
digest_of (some sum) = sum

-- The Upload that Create stores.
abbrev pub new_upload : Limits → Actor → UploadRequest → Format → ℕ → ℕ → Upload
new_upload limits actor req format id now = record {
  id = id;
  track_id = req.track_id;
  uploader_id = actor.id;
  content_type = format.content_type;
  size_bytes = req.size_bytes;
  sha256 = digest_of (decode_hex req.sha256_hex);
  key = record { track = req.track_id; upload = id; extension = format.ext };
  status = pending;
  failure_reason = none;
  created_at = stamp now;
  expires_at = stamp now + limits.url_ttl;
  completed_at = none;
}

abbrev pub event_of : Option Reason → Upload → Event
event_of none u = uploaded u
event_of (some reason) u = ingest_failed u

-- The requests that change something, each with its readings of the clock.
pub data Request : Type 0 where
  create_request : Result Error (Unit {0}) → UploadRequest → Option ℕ → ℕ → Request
  complete_request : ℕ → ℕ → ℕ → Request

-- Rejected bytes are dropped, an upload that never came has none.
abbrev pub is_dropped : Option Reason → Bool
is_dropped none = false
is_dropped (some expired) = false
is_dropped (some _) = true

-- The order of the checks on an object that is there, up to its first bytes.
abbrev pub mismatch : Limits → (List ℕ → List ℕ) → Upload → ObjectInfo → Option Reason
mismatch limits encode u info =
    if not (info.size == u.size_bytes) || ltb limits.max_size info.size
    then some size_mismatch
    else if not (texts_equal info.content_type u.content_type)
    then some content_type_mismatch
    else if not (texts_equal info.sha256 (encode u.sha256))
    then some checksum_mismatch
    else none

-- Format.Matches; a format that is not known is the zero Format, whose sniff panics.
abbrev pub matches : Option Format → List ℕ → Option Bool
matches none head = none
matches (some f) head = some (f.sniff head)

abbrev pub sniffed : Bool → Option Reason
sniffed true = none
sniffed false = some unrecognized_format

module _ {X : Type 0} where
  unfoldable pub publish : Event → Service X (Unit {0})
  publish e = do select (λ _. tt {0}); write outbox_table (e ∷ [])

  abbrev pub outcome_as : Status → Upload → Service X Upload
  outcome_as failed u = raise (rejected u.failure_reason)
  outcome_as completed u = pure u
  outcome_as pending u = pure u

  unfoldable pub outcome : Upload → Service X Upload
  outcome u = outcome_as u.status u

module _ {X : Type 0} (store : Storage X) (limits : Limits) (pgx : Pgx) where
  abbrev pub checked_fields : List Field → Result Error (Unit {0})
  checked_fields [] = ok tt
  checked_fields (f ∷ fs) = err (validation (f ∷ fs))

  unfoldable pub create :
      Result Error (Unit {0}) → Actor → UploadRequest → Option ℕ → ℕ → Service X (Upload × ℕ)
  create catalog actor req new_id now =
      if not actor.artist && not actor.admin then raise forbidden else do
        lift (checked_fields (bad_fields req limits.max_size))
        format ← lift (or_fault (format_of req.content_type))
        lift catalog
        id ← lift (or_fault new_id)
        let u : Upload = new_upload limits actor req format id now
        signed ← reach (λ x. (store.presign_upload u.key x, x))
        url ← lift (or_fault signed)
        Repository.create u
        pure (u, url)

  unfoldable pub get : Actor → ℕ → Service X Upload
  get actor id = do
    u ← Repository.get id
    if not (u.uploader_id == actor.id) && not actor.admin then raise not_found else pure u

  -- What verify does with the answer of Stat.
  unfoldable pub verify_head : Upload → Option Reason → Service X (Option Reason)
  verify_head u (some reason) = pure (some reason)
  verify_head u none = do
    read ← reach (λ x. (store.read_head u.key sniff_len x, x))
    head ← lift (or_fault read)
    known ← lift (or_fault (matches (format_of u.content_type) head))
    pure (sniffed known)

  unfoldable pub verify_as : Upload → ℕ → Option (Option ObjectInfo) → Service X (Option Reason)
  unfolding verify_head
  verify_as u now none = broken
  verify_as u now (some none) =
      if ltb u.expires_at now then pure (some expired) else raise not_uploaded
  verify_as u now (some (some info)) = verify_head u (mismatch limits store.encode u info)

  unfoldable pub verify : Upload → ℕ → Service X (Option Reason)
  unfolding verify_as
  verify u now = do answer ← reach (λ x. (store.stat u.key x, x)); verify_as u now answer

  unfoldable pub settle_tx : Upload → Option Reason → Service X Bool
  unfolding publish
  settle_tx settled reason = do
    changed ← Repository.settle settled
    if changed then (publish (event_of reason settled) >> pure true) else pure false

  unfoldable pub after_settle : Upload → Option Reason → Bool → Service X Upload
  unfolding outcome
  after_settle settled reason false = do u ← Repository.get settled.id; outcome u
  after_settle settled reason true =
      if is_dropped reason
      then reach (store.remove settled.key) >> outcome settled
      else outcome settled

  -- Complete from its test of the status on; `now` and `at` are its two readings of the clock.
  unfoldable pub complete_pending : Upload → ℕ → ℕ → Service X Upload
  unfolding verify settle_tx after_settle
  complete_pending u now at = do
    reason ← verify u now
    changed ← in_tx pgx pool λ _. settle_tx (settle u reason (stamp at)) reason
    after_settle (settle u reason (stamp at)) reason changed

  unfoldable pub complete : Actor → ℕ → ℕ → ℕ → Service X Upload
  unfolding complete_pending outcome get
  complete actor id now at = do
    u ← get actor id
    if is_pending u.status then complete_pending u now at else outcome u

  unfoldable pub respond : Actor → Request → Service X (Unit {0})
  unfolding create complete
  respond actor (create_request catalog req new_id now) =
      create catalog actor req new_id now >> pure tt
  respond actor (complete_request id now at) = complete actor id now at >> pure tt
