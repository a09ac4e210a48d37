-- ===== src/Social/Service.antt =====
-- services/social/internal/application/service.go, and the events of
-- services/social/internal/adapters/kafka/publisher.go, which go through the outbox.
--
-- A reading of the clock and the answer of the Directory are arguments. The service runs in the
-- transactions of the repository's database (the case that no Transactor is given is for its tests).
use Prim.Native.String.{String}
use icyre.Prelude.{
  ℕ, ◌-◌, ◌+◌, ◌%◌, Bool, true, false, Option, List, [], ◌∷◌, if◌then◌else◌, ◌&&◌, ◌==◌,
}
use icyre.Platform.Postgres.{◌>>=◌, ◌>>◌, Result, Exec, pure, raise, lift, Pgx, pool, in_tx}
use icyre.Platform.Outbox.{Db}
use icyre.Platform.Outbox.Announce.{announce}
use icyre.Keyset.{Cursor, Page, clamp, page_of}
use icyre.Social.{
  Error, self_follow, TargetType, user, same_type, Target, Follow, Counts, default_limit, max_limit,
}
use icyre.Social.Repository
use icyre.Social.Repository.{followed_at, follower_id, target_id}
use icyre.Social.Sql.{Tables}

-- The payloads of libs/contracts/events/socialv1, in the form of the edge; in an unfollow its time is
-- the time of the removal.
pub data Event : Type 0 where
  followed unfollowed : Follow → Event

abbrev pub outbox_table : String
outbox_table = "social.outbox"

-- Truncate(time.Microsecond)
abbrev pub stamp : ℕ → ℕ
stamp now = now - now % 1000

abbrev pub Service : Type 0 → Type 0 → Type 0
Service X A = Exec (Db Tables Event) X Error A

module _ {X : Type 0} where
  abbrev pub announce_if : Bool → Event → Service X (Unit {0})
  announce_if false event = pure tt
  announce_if true event = announce outbox_table event

  module _ (pgx : Pgx) where
    unfoldable pub follow : Result Error (Unit {0}) → ℕ → Target → ℕ → Service X Follow
    follow directory follower target now =
        if same_type target.target_type user && target.id == follower
        then raise self_follow
        else (do
          lift directory
          ch ← in_tx pgx pool λ _. do
            ch ←
                Repository.follow
                  (record { follower_id = follower; target = target; followed_at = stamp now })
            announce_if ch.changed (followed ch.follow)
            pure ch
          pure ch.follow)

    unfoldable pub unfollow : ℕ → Target → ℕ → Service X (Unit {0})
    unfollow follower target now = in_tx pgx pool λ _. do
      ch ← Repository.unfollow follower target (stamp now)
      announce_if ch.changed (unfollowed ch.follow)

  unfoldable pub followers : Target → Option Cursor → ℕ → Service X (Page Follow)
  followers target after limit = do
    rows ← Repository.followers target after (clamp default_limit max_limit limit + 1)
    pure (page_of followed_at follower_id (clamp default_limit max_limit limit) rows)

  unfoldable pub following : ℕ → TargetType → Option Cursor → ℕ → Service X (Page Follow)
  following follower t after limit = do
    rows ← Repository.following follower t after (clamp default_limit max_limit limit + 1)
    pure (page_of followed_at target_id (clamp default_limit max_limit limit) rows)

  unfoldable pub contains : ℕ → TargetType → List ℕ → Service X (List ℕ)
  contains follower t [] = pure []
  contains follower t (id ∷ ids) = Repository.contains follower t (id ∷ ids)

  unfoldable pub counts : Target → Service X Counts
  counts subject = Repository.counts subject

-- The requests that change something
pub data Request : Type 0 where
  follow_request : Result Error (Unit {0}) → Target → Request
  unfollow_request : Target → Request

module _ {X : Type 0} (pgx : Pgx) where
  unfoldable pub handle : ℕ → ℕ → Request → Service X (Unit {0})
  unfolding follow unfollow
  handle caller now (follow_request directory target) =
      follow pgx directory caller target now >> pure tt
  handle caller now (unfollow_request target) = unfollow pgx caller target now
