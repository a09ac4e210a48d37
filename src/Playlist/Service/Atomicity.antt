-- ===== src/Playlist/Service/Atomicity.antt =====
-- What a failed request of services/playlist/internal/application/service.go leaves behind.
use icyre.Prelude.{ℕ, ◌≡◌, Option, none, some, List}
use icyre.Platform.Postgres.{Fails, World, Pgx}
use icyre.Platform.Outbox.{Db}
use icyre.Platform.Postgres.Atomic.{ReadsOnly, IsAtomic, reads_rules, atomic_rules}
use icyre.Playlist.Title.{normalize_title}
use icyre.Playlist.Repository
use icyre.Playlist.Repository.{Repo}
use icyre.Playlist.Repository.Sql.{Tables}
use icyre.Playlist.Service.{
  Event, owned, create_as, create, rename_as, rename, delete, add_track, remove_track, reorder,
  Request, create_request, rename_request, delete_request, add_request, remove_request,
  reorder_request, serve,
}

module _ {M X : Type 0} where
  get-ReadsOnly : (id : ℕ) → ReadsOnly {X = X} (Repository.get {M = M} id)
  unfolding Repository.get
  get-ReadsOnly id = search reads_rules

module _ {X : Type 0} where
  pub owned-ReadsOnly : (caller id : ℕ) → ReadsOnly {X = X} (owned caller id)
  unfolding owned
  owned-ReadsOnly caller id = search (reads_rules, get-ReadsOnly)

module _ {X : Type 0} (pgx : Pgx) where
  create-IsAtomic :
      (owner : ℕ) (title : List ℕ) (id now : ℕ) → IsAtomic {X = X} (create pgx owner title id now)
  unfolding create
  create-IsAtomic owner title id now = as_read (normalize_title title)
    where
      as_read : (t : Option (List ℕ)) → IsAtomic {X = X} (create_as pgx t owner id now)
      as_read none = search atomic_rules
      as_read (some t) = search atomic_rules

  rename-IsAtomic :
      (caller id : ℕ) (title : List ℕ) (now : ℕ) → IsAtomic {X = X} (rename pgx caller id title now)
  unfolding rename
  rename-IsAtomic caller id title now = as_read (normalize_title title)
    where
      as_read : (t : Option (List ℕ)) → IsAtomic {X = X} (rename_as pgx t caller id now)
      as_read none = search atomic_rules
      as_read (some t) = search (atomic_rules, owned-ReadsOnly)

  serve-IsAtomic : (caller now : ℕ) (q : Request) → IsAtomic {X = X} (serve pgx caller now q)
  unfolding serve delete add_track remove_track reorder
  serve-IsAtomic caller now (create_request title id) = search (atomic_rules, create-IsAtomic)
  serve-IsAtomic caller now (rename_request id title) = search (atomic_rules, rename-IsAtomic)
  serve-IsAtomic caller now (delete_request id) = search (atomic_rules, owned-ReadsOnly)
  serve-IsAtomic caller now (add_request catalog id track_id) =
      search (atomic_rules, owned-ReadsOnly)
  serve-IsAtomic caller now (remove_request id track_id) = search (atomic_rules, owned-ReadsOnly)
  serve-IsAtomic caller now (reorder_request id order) = search (atomic_rules, owned-ReadsOnly)

  -- A request that fails, for whatever reason and at whatever call, leaves the tables and the outbox
  -- as they were: there is neither a change without its event nor an event without its change.
  pub serve_failed :
      (caller now : ℕ) (q : Request) (w : World (Db Tables Event) X)
      → Fails (serve pgx caller now q w).0
      → (serve pgx caller now q w).1.db ≡ w.db
  serve_failed caller now q w h = (serve-IsAtomic caller now q).at w h
