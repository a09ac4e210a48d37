-- ===== src/MediaIngest/Repository.antt =====
-- services/media-ingest/internal/adapters/postgres/repository.go, over the rows of media.uploads.
use icyre.Prelude.{
  ℕ, Bool, true, false, not, ◌&&◌, ◌||◌, Option, none, some, List, [], ◌∷◌, ◌++◌, map, ◌==◌,
  if◌then◌else◌, length, any, find?, count,
}
use icyre.Prelude.Unicode.{texts_equal}
use icyre.Platform.Postgres.{◌>>=◌, Exec, raise, select, update, attempt, from_option}
use icyre.Platform.Outbox.{Db}
use icyre.MediaIngest.{Status, pending, completed, failed, Error, not_found, Key, Upload}

abbrev pub Tables : Type 0
Tables = List Upload

abbrev pub is_pending : Status → Bool
is_pending pending = true
is_pending completed = false
is_pending failed = false

abbrev pub is_failed : Status → Bool
is_failed failed = true
is_failed completed = false
is_failed pending = false

abbrev pub is_null : {A : Type 0} → Option A → Bool
is_null none = true
is_null (some a) = false

abbrev pub same : Bool → Bool → Bool
same true b = b
same false b = not b

abbrev pub keys_equal : Key → Key → Bool
keys_equal k l = k.track == l.track && k.upload == l.upload && texts_equal k.extension l.extension

-- The CHECK constraints of a row
unfoldable pub checks : Upload → Bool
checks u =
    not (u.size_bytes == 0)
    && length u.sha256 == 32
    && same (is_failed u.status) (not (is_null u.failure_reason))
    && same (is_pending u.status) (is_null u.completed_at)

-- INSERT INTO media.uploads, which leaves failure_reason and completed_at NULL
unfoldable pub insert_upload : Upload → Tables → Option Tables
unfolding checks
insert_upload u t =
    let row : Upload = record u { failure_reason = none; completed_at = none } in
    if any (λ (r : Upload). r.id == u.id || keys_equal r.key u.key) t || not (checks row)
    then none
    else some (t ++ row ∷ [])

unfoldable pub find_upload : ℕ → Tables → Option Upload
find_upload id t = find? (λ u. u.id == id) t

abbrev pub is_open : ℕ → Upload → Bool
is_open id r = r.id == id && is_pending r.status

unfoldable pub settled_row : Upload → Upload → Upload
settled_row u r =
    if is_open u.id r
    then record r {
      status = u.status;
      failure_reason = u.failure_reason;
      completed_at = u.completed_at;
    }
    else r

-- UPDATE … WHERE id = $1 AND status = 'PENDING'
unfoldable pub settle_rows : Upload → Tables → Tables
unfolding settled_row
settle_rows u t = map (settled_row u) t

abbrev pub Repo : Type 0 → Type 0 → Type 0 → Type 0
Repo M X A = Exec (Db Tables M) X Error A

module _ {M : Type 0} where
  abbrev pub put_tables : Db Tables M → Option Tables → Option (Db Tables M)
  put_tables d none = none
  put_tables d (some t) = some (record d { tables = t })

module _ {M X : Type 0} where
  unfoldable pub create : Upload → Repo M X (Unit {0})
  create u = attempt (λ d. put_tables d (insert_upload u d.tables)) tt

  unfoldable pub get : ℕ → Repo M X Upload
  get id = do found ← select (λ d. find_upload id d.tables); from_option found (raise not_found)

  -- Whether the session was still pending: RowsAffected() == 1
  unfoldable pub settle : Upload → Repo M X Bool
  settle u =
      update (λ d. record d { tables = settle_rows u d.tables })
        (λ d. count (is_open u.id) d.tables == 1)
