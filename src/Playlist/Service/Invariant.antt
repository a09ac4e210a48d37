-- ===== src/Playlist/Service/Invariant.antt =====
-- The constraints of schema `playlist` under the requests of services/playlist/internal/application/service.go.
use icyre.Prelude.{ℕ, ◌≡◌, refl, Bool, true, false, Option, none, some, List, [], ◌∷◌}
use icyre.Platform.Postgres.{World, Pgx}
use icyre.Platform.Postgres.Keeps.{Keeps, Keeps-update, Keeps-bind, keeps_rules}
use icyre.Platform.Outbox.{Db, insert_all, write}
use icyre.Playlist.{Error, Playlist, Track}
use icyre.Playlist.Title.{IsTitle, normalize_title, normalize_title-IsTitle}
use icyre.Playlist.Repository
use icyre.Playlist.Repository.Sql.{Tables}
use icyre.Playlist.Repository.WellFormed.{IsWellFormed}
use icyre.Playlist.Repository.Invariant.{
  Fine, append_track_tx-Fine, remove_track_tx-Fine, reorder_tx-Fine, update_title-Fine, delete-Fine,
  create-Fine,
}
use icyre.Playlist.Service.{
  Event, publish, owned, create_as, create, rename_as, rename_owned, stamp, rename, delete,
  add_track, remove_track, reorder, Request, create_request, rename_request, delete_request,
  add_request, remove_request, reorder_request, serve, announce_added,
}

module _ {X : Type 0} where
  insert_all-Fine : (es : List Event) → Keeps {X = X} {E = Error} Fine (insert_all es)
  unfolding insert_all
  insert_all-Fine [] = search keeps_rules
  insert_all-Fine (e ∷ es) = Keeps-bind _ _ (Keeps-update _ _ (λ d w. w)) (λ _. insert_all-Fine es)

  publish-Fine : (e : Event) → Keeps {X = X} Fine (publish e)
  unfolding publish write
  publish-Fine e = search (keeps_rules, insert_all-Fine)

  get-Fine : (id : ℕ) → Keeps {X = X} (Fine {M = Event}) (Repository.get id)
  unfolding Repository.get
  get-Fine id = search keeps_rules

  owned-Fine : (caller id : ℕ) → Keeps {X = X} Fine (owned caller id)
  unfolding owned
  owned-Fine caller id = search (keeps_rules, get-Fine)

module _ {X : Type 0} (pgx : Pgx) where
  append-Fine : (id : ℕ) (t : Track) → Keeps {X = X} (Fine {M = Event}) (Repository.append pgx id t)
  unfolding Repository.append
  append-Fine id t = search (keeps_rules, append_track_tx-Fine)

  remove-Fine :
      (id track at : ℕ) → Keeps {X = X} (Fine {M = Event}) (Repository.remove pgx id track at)
  unfolding Repository.remove
  remove-Fine id track at = search (keeps_rules, remove_track_tx-Fine)

  reorder-Fine :
      (id : ℕ) (order : List ℕ) (at : ℕ)
      → Keeps {X = X} (Fine {M = Event}) (Repository.reorder_tracks pgx id order at)
  unfolding Repository.reorder_tracks
  reorder-Fine id order at = search (keeps_rules, reorder_tx-Fine)

  added-Fine :
      (p : Playlist) (id : ℕ) (r : Track × Bool) → Keeps {X = X} Fine (announce_added pgx p id r)
  added-Fine p id (t, true) = publish-Fine _
  added-Fine p id (t, false) = search keeps_rules

  service-create-Fine :
      (owner : ℕ) (title : List ℕ) (id now : ℕ) → Keeps {X = X} Fine (create pgx owner title id now)
  unfolding create
  service-create-Fine owner title id now = as_read (normalize_title title) refl
    where
      as_read :
          (t : Option (List ℕ))
          → normalize_title title ≡ t
          → Keeps {X = X} Fine (create_as pgx t owner id now)
      as_read none e = search keeps_rules
      as_read (some t) e =
          search (keeps_rules, publish-Fine, create-Fine _ (normalize_title-IsTitle title t e).0)

  rename_owned-Fine :
      (t : List ℕ) (id now : ℕ) (p : Playlist)
      → IsTitle t
      → Keeps {X = X} Fine (rename_owned pgx t id now p)
  unfolding rename_owned
  rename_owned-Fine t id now p h =
      search (keeps_rules, publish-Fine, update_title-Fine id t (stamp now) h)

  rename-Fine :
      (caller id : ℕ) (title : List ℕ) (now : ℕ)
      → Keeps {X = X} Fine (rename pgx caller id title now)
  unfolding rename rename_as
  rename-Fine caller id title now = as_read (normalize_title title) refl
    where
      as_read :
          (t : Option (List ℕ))
          → normalize_title title ≡ t
          → Keeps {X = X} Fine (rename_as pgx t caller id now)
      as_read none e = search keeps_rules
      as_read (some t) e =
          Keeps-bind _ _ (owned-Fine caller id)
            (λ p. rename_owned-Fine t id now p (normalize_title-IsTitle title t e).0)

  serve-Fine : (caller now : ℕ) (q : Request) → Keeps {X = X} Fine (serve pgx caller now q)
  unfolding serve delete add_track remove_track reorder
  serve-Fine caller now (create_request title id) = search (keeps_rules, service-create-Fine)
  serve-Fine caller now (rename_request id title) = search (keeps_rules, rename-Fine)
  serve-Fine caller now (delete_request id) =
      search (keeps_rules, owned-Fine, publish-Fine, delete-Fine)
  serve-Fine caller now (add_request catalog id track_id) =
      search (keeps_rules, owned-Fine, append-Fine, added-Fine)
  serve-Fine caller now (remove_request id track_id) =
      search (keeps_rules, owned-Fine, publish-Fine, remove-Fine)
  serve-Fine caller now (reorder_request id order) =
      search (keeps_rules, owned-Fine, publish-Fine, reorder-Fine)

  -- Where the constraints of the schema hold, they hold after every request, whether it succeeds or
  -- fails and at whatever call: ids are unique, titles are well formed, no playlist has a track or a
  -- position twice, positions are positive, and every track belongs to a playlist that exists.
  pub serve-IsWellFormed :
      (caller now : ℕ) (q : Request) (w : World (Db Tables Event) X)
      → IsWellFormed w.db.tables
      → IsWellFormed (serve pgx caller now q w).1.db.tables
  serve-IsWellFormed caller now q w h = (serve-Fine caller now q).at w h
