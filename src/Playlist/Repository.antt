-- ===== src/Playlist/Repository.antt =====
-- services/playlist/internal/adapters/postgres/repository.go: one function for each method. Each
-- statement is one call of the driver, and AppendTrack, RemoveTrack and Reorder run theirs in a
-- transaction of their own (a savepoint inside InTx).
pub mod Sql
pub mod WellFormed
pub mod Positions
pub mod Reordered
pub mod Invariant
use icyre.Prelude.{ℕ, ◌+◌, Bool, true, false, Option, none, some, List, ◌==◌, if◌then◌else◌, count}
use icyre.Platform.Postgres.{
  ◌>>◌, ◌>>=◌, Exec, pure, raise, select, update, attempt, from_option, Pgx,
}
use icyre.Platform.Outbox.{Db}
use icyre.Playlist.{Error, not_found, order_mismatch, Playlist, Track, check_order}
use Sql.{
  Tables, PlaylistRow, is_track, insert_playlist, find_playlist, by_owner, page, tracks, tracks_of,
  set_title, touch, delete_playlist, has_playlist, last_position, has_track, append_track,
  remove_track, reorder,
}

abbrev pub Repo : Type 0 → Type 0 → Type 0 → Type 0
Repo M X A = Exec (Db Tables M) X Error A

-- tag.RowsAffected() of a statement WHERE id = …
abbrev pub rows_affected : ℕ → Tables → ℕ
rows_affected id t = count (λ (r : PlaylistRow). r.id == id) t.playlists

module _ {M X A : Type 0} where
  abbrev pub on_tables : (Tables → Tables) → (Tables → A) → Exec (Db Tables M) X Error A
  on_tables f tag = update (λ d. record d { tables = f d.tables }) (λ d. tag d.tables)

  abbrev pub from_tables : (Tables → A) → Exec (Db Tables M) X Error A
  from_tables f = select (λ d. f d.tables)

module _ {M : Type 0} where
  abbrev pub put_tables : Db Tables M → Option Tables → Option (Db Tables M)
  put_tables d none = none
  put_tables d (some t) = some (record d { tables = t })

module _ {M X : Type 0} where
  unfoldable pub create : Playlist → Repo M X (Unit {0})
  create p = attempt (λ d. put_tables d (insert_playlist p d.tables)) tt

  unfoldable pub get : ℕ → Repo M X Playlist
  get id = do found ← from_tables (find_playlist id); from_option found (raise not_found)

  unfoldable pub list_by_owner : ℕ → Repo M X (List Playlist)
  list_by_owner owner = from_tables (by_owner owner)

  unfoldable pub list_page : ℕ → ℕ → Repo M X (List Playlist)
  list_page after limit = from_tables (page after limit)

  unfoldable pub list_tracks : ℕ → Repo M X (List Track)
  list_tracks id = from_tables (tracks id)

  unfoldable pub update_title : ℕ → List ℕ → ℕ → Repo M X (Unit {0})
  update_title id title at = do
    n ← on_tables (set_title id title at) (rows_affected id)
    if n == 0 then raise not_found else pure tt

  unfoldable pub delete : ℕ → Repo M X Bool
  delete id = do n ← on_tables (delete_playlist id) (rows_affected id); pure (n == 1)

  unfoldable pub locked : Bool → Repo M X (Unit {0})
  locked true = pure tt
  locked false = raise not_found

  -- SELECT 1 … FOR UPDATE
  unfoldable pub lock : ℕ → Repo M X (Unit {0})
  unfolding locked
  lock id = do there ← from_tables (has_playlist id); locked there

  unfoldable pub touch_playlist : ℕ → ℕ → Repo M X (Unit {0})
  touch_playlist id at = on_tables (touch id at) (λ _. tt)

  -- INSERT … ON CONFLICT (playlist_id, track_id) DO NOTHING RETURNING position
  unfoldable pub insert_track : ℕ → Track → Repo M X (Option ℕ)
  insert_track id t =
      on_tables (λ d. if has_track id t.track_id d then d else append_track id t d)
        (λ d.
          if has_track id t.track_id d
          then none
          else some (last_position (tracks_of id d.playlist_tracks) + 1))

  abbrev pub appended : ℕ → Track → Option ℕ → Repo M X (Track × Bool)
  appended id t none = pure (t, false)
  appended id t (some position) = do
    touch_playlist id t.added_at
    pure (record t { position = position }, true)

  unfoldable pub append_track_tx : ℕ → Track → Repo M X (Track × Bool)
  unfolding lock insert_track touch_playlist
  append_track_tx id t = do lock id; position ← insert_track id t; appended id t position

  -- DELETE … WHERE playlist_id = … AND track_id = …
  unfoldable pub delete_track : ℕ → ℕ → Repo M X ℕ
  delete_track id track_id =
      on_tables (remove_track id track_id) (λ d. count (is_track id track_id) d.playlist_tracks)

  unfoldable pub remove_track_tx : ℕ → ℕ → ℕ → Repo M X Bool
  unfolding lock delete_track touch_playlist
  remove_track_tx id track_id at = do
    lock id
    n ← delete_track id track_id
    if n == 1 then (do touch_playlist id at; pure true) else pure false

  unfoldable pub reorder_tx : ℕ → List ℕ → ℕ → Repo M X (Unit {0})
  unfolding lock touch_playlist
  reorder_tx id order at = do
    lock id
    current ← from_tables (λ d. tracks_of id d.playlist_tracks)
    if check_order current order
        then (do on_tables (reorder id order) (λ _. tt); touch_playlist id at)
        else raise order_mismatch

  module _ (pgx : Pgx) where
    unfoldable pub append : ℕ → Track → Repo M X (Track × Bool)
    unfolding append_track_tx
    append id t = pgx.begin_func (append_track_tx id t)

    unfoldable pub remove : ℕ → ℕ → ℕ → Repo M X Bool
    unfolding remove_track_tx
    remove id track_id at = pgx.begin_func (remove_track_tx id track_id at)

    unfoldable pub reorder_tracks : ℕ → List ℕ → ℕ → Repo M X (Unit {0})
    unfolding reorder_tx
    reorder_tracks id order at = pgx.begin_func (reorder_tx id order at)
