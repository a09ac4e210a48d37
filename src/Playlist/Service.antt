-- ===== src/Playlist/Service.antt =====
-- services/playlist/internal/application/service.go and the events of
-- services/playlist/internal/adapters/kafka/publisher.go, which go through the outbox.
--
-- A reading of the clock, a new UUID and the answer of the Catalog are arguments. `stamp` cuts a
-- time to microseconds.
pub mod Atomicity
pub mod Invariant
use Prim.Native.String.{String}
use icyre.Prelude.{
  ℕ, ◌-◌, ◌%◌, ◌||◌, Bool, true, false, Option, none, some, List, [], ◌∷◌, ltb, ◌==◌, if◌then◌else◌,
}
use icyre.Platform.Postgres.{◌>>=◌, Result, Exec, pure, raise, select, lift, ◌>>◌, Pgx, pool, in_tx}
use icyre.Platform.Outbox.{Db, write}
use icyre.Playlist.{Error, forbidden, invalid_title, Playlist, Track}
use icyre.Playlist.Title.{normalize_title}
use icyre.Playlist.Repository
use icyre.Playlist.Repository.Sql.{Tables}

-- The payloads of libs/contracts/events/playlistv1, with the playlist, its owner and the time.
pub data Change : Type 0 where
  created : List ℕ → Change
  updated : List ℕ → Change
  deleted : Change
  track_added : ℕ → ℕ → Change
  track_removed : ℕ → Change
  tracks_reordered : List ℕ → Change

pub record Event : Type 0 where
  pub playlist_id : ℕ
  pub owner_id : ℕ
  pub change : Change
  pub at : ℕ

abbrev pub outbox_table : String
outbox_table = "playlist.outbox"

abbrev pub titles_equal : List ℕ → List ℕ → Bool
titles_equal [] [] = true
titles_equal (x ∷ xs) (y ∷ ys) = let rest = titles_equal xs ys in if x == y then rest else false
titles_equal _ _ = false

abbrev pub stamp : ℕ → ℕ
stamp now = now - now % 1000

-- What a request for a page may ask for.
abbrev pub max_page : ℕ
max_page = 500

abbrev pub page_size : ℕ → ℕ
page_size limit = if limit == 0 || ltb max_page limit then max_page else limit

abbrev pub Service : Type 0 → Type 0 → Type 0
Service X A = Exec (Db Tables Event) X Error A

module _ {X : Type 0} where
  -- Publisher.publish: the envelope may fail (its UUID), then the sink writes the message.
  unfoldable pub publish : Event → Service X (Unit {0})
  publish e = do select (λ _. tt {0}); write outbox_table (e ∷ [])

  abbrev pub announce : Playlist → Change → ℕ → Service X (Unit {0})
  announce p change at =
      publish (record { playlist_id = p.id; owner_id = p.owner_id; change = change; at = at })

  unfoldable pub owned : ℕ → ℕ → Service X Playlist
  owned caller id = do
    p ← Repository.get id
    if p.owner_id == caller then pure p else raise forbidden

  module _ (pgx : Pgx) where
    unfoldable pub create_as : Option (List ℕ) → ℕ → ℕ → ℕ → Service X Playlist
    create_as none owner id now = raise invalid_title
    create_as (some t) owner id now =
        let p : Playlist = record {
          id = id;
          owner_id = owner;
          title = t;
          track_count = 0;
          created_at = stamp now;
          updated_at = stamp now;
        } in
        in_tx pgx pool (λ _. do Repository.create p; announce p (created t) p.created_at) >> pure p

    unfoldable pub create : ℕ → List ℕ → ℕ → ℕ → Service X Playlist
    unfolding create_as
    create owner title id now = create_as (normalize_title title) owner id now

    unfoldable pub get : ℕ → Service X (Playlist × List Track)
    get id = do p ← Repository.get id; ts ← Repository.list_tracks id; pure (p, ts)

    unfoldable pub mine : ℕ → Service X (List Playlist)
    mine owner = Repository.list_by_owner owner

    unfoldable pub all : ℕ → ℕ → Service X (List Playlist)
    all after limit = Repository.list_page after (page_size limit)

    unfoldable pub rename_owned : List ℕ → ℕ → ℕ → Playlist → Service X Playlist
    rename_owned t id now p =
        if titles_equal p.title t
        then pure p
        else (let p' : Playlist = record p { title = t; updated_at = stamp now } in
            in_tx pgx pool (λ _. do
              Repository.update_title id t p'.updated_at
              announce p' (updated t) p'.updated_at)
            >> pure p')

    unfoldable pub rename_as : Option (List ℕ) → ℕ → ℕ → ℕ → Service X Playlist
    unfolding rename_owned
    rename_as none caller id now = raise invalid_title
    rename_as (some t) caller id now = do p ← owned caller id; rename_owned t id now p

    unfoldable pub rename : ℕ → ℕ → List ℕ → ℕ → Service X Playlist
    unfolding rename_as owned
    rename caller id title now = rename_as (normalize_title title) caller id now

    unfoldable pub delete : ℕ → ℕ → ℕ → Service X (Unit {0})
    unfolding owned
    delete caller id now = do
      p ← owned caller id
      in_tx pgx pool λ _. do
        gone ← Repository.delete id
        if gone then announce p deleted (stamp now) else pure tt

    abbrev pub announce_added : Playlist → ℕ → Track × Bool → Service X (Unit {0})
    announce_added p id (t, true) = announce p (track_added t.track_id t.position) t.added_at
    announce_added p id (t, false) = pure tt

    unfoldable pub add_track : Result Error (Unit {0}) → ℕ → ℕ → ℕ → ℕ → Service X (Unit {0})
    unfolding owned
    add_track catalog caller id track_id now = do
      p ← owned caller id
      lift catalog
      in_tx pgx pool λ _. do
        result ←
            Repository.append pgx id (record {
              track_id = track_id;
              position = 0;
              added_by = caller;
              added_at = stamp now;
            })
        announce_added p id result

    unfoldable pub remove_track : ℕ → ℕ → ℕ → ℕ → Service X (Unit {0})
    unfolding owned
    remove_track caller id track_id now = do
      p ← owned caller id
      in_tx pgx pool λ _. do
        removed ← Repository.remove pgx id track_id (stamp now)
        if removed then announce p (track_removed track_id) (stamp now) else pure tt

    unfoldable pub reorder : ℕ → ℕ → List ℕ → ℕ → Service X (Unit {0})
    unfolding owned
    reorder caller id order now = do
      p ← owned caller id
      in_tx pgx pool λ _. do
        Repository.reorder_tracks pgx id order (stamp now)
        announce p (tracks_reordered order) (stamp now)

-- The requests that change something, each with the clock, the new UUID and the Catalog's answer
-- that it meets.
pub data Request : Type 0 where
  create_request : List ℕ → ℕ → Request
  rename_request : ℕ → List ℕ → Request
  delete_request : ℕ → Request
  add_request : Result Error (Unit {0}) → ℕ → ℕ → Request
  remove_request : ℕ → ℕ → Request
  reorder_request : ℕ → List ℕ → Request

module _ {X : Type 0} (pgx : Pgx) where
  unfoldable pub serve : ℕ → ℕ → Request → Service X (Unit {0})
  serve caller now (create_request title id) = create pgx caller title id now >> pure tt
  serve caller now (rename_request id title) = rename pgx caller id title now >> pure tt
  serve caller now (delete_request id) = delete pgx caller id now
  serve caller now (add_request catalog id track_id) = add_track pgx catalog caller id track_id now
  serve caller now (remove_request id track_id) = remove_track pgx caller id track_id now
  serve caller now (reorder_request id order) = reorder pgx caller id order now
