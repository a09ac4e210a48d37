-- ===== src/Social/Requests.antt =====
-- Requests to services/social/internal/application/service.go, whether they succeed or fail.
use mathlib.Core.Path.{subst}
use icyre.Prelude.{ℕ, ◌≡◌, Bool, true, false, Option, none, some, arith}
use icyre.Platform.Postgres.{Result, ok, err, fault, Fails, World, Pgx}
use icyre.Platform.Postgres.Keeps.{Keeps, Keeps-execute, keeps_rules}
use icyre.Platform.Postgres.Atomic.{IsAtomic, atomic_rules}
use icyre.Platform.Outbox.{Db}
use icyre.Platform.Outbox.Announce.{announce-Keeps}
use icyre.Social.{Error, Target, Follow}
use icyre.Social.Sql.{Tables, insert_follow, delete_follow}
use icyre.Social.Tally.{IsTallied, insert_follow-IsTallied, delete_follow-IsTallied}
use icyre.Social.Repository
use icyre.Social.Repository.{existing, follow_as, with_tables}
use icyre.Social.Service.{
  Event, announce_if, follow, unfollow, Request, follow_request, unfollow_request, handle,
  outbox_table,
}

abbrev Fine : Db Tables Event → Type 0
Fine d = IsTallied d.tables

module _ {A : Type 0} where
  with_tables-Fine :
      (d d' : Db Tables Event) (a : A) (r : Result Error (A × Tables))
      → with_tables d r ≡ ok (a, d')
      → ((t : Tables) → r ≡ ok (a, t) → IsTallied t)
      → Fine d'
  with_tables-Fine d d' a (ok (b, t)) e k =
      let same : b ≡ a = cc in
      let left : record d { tables = t } ≡ d' = cc in subst Fine left (k t (λ i. ok (same i, t)))
  with_tables-Fine d d' a (err x) e k = absurd (ground arith)
  with_tables-Fine d d' a fault e k = absurd (ground arith)

module _ {X : Type 0} where
  existing-Fine : (f : Follow) → Keeps {X = X} Fine (existing f)
  unfolding existing
  existing-Fine f = search keeps_rules

  follow_as-Fine : (f : Follow) (o : Option ℕ) → Keeps {X = X} Fine (follow_as f o)
  unfolding follow_as
  follow_as-Fine f none = existing-Fine f
  follow_as-Fine f (some at) = search keeps_rules

  repo_follow-Fine : (f : Follow) → Keeps {X = X} Fine (Repository.follow f)
  unfolding Repository.follow
  repo_follow-Fine f = search (
    keeps_rules,
    follow_as-Fine,
    Keeps-execute {X = X} {P = Fine} (λ d. with_tables d (insert_follow f d.tables))
        (λ d d' a h e.
          with_tables-Fine d d' a (insert_follow f d.tables) e
            (λ t k. insert_follow-IsTallied f d.tables t a h k)),
  )

  repo_unfollow-Fine :
      (follower : ℕ) (target : Target) (at : ℕ)
      → Keeps {X = X} Fine (Repository.unfollow follower target at)
  unfolding Repository.unfollow
  repo_unfollow-Fine follower target at = search (
    keeps_rules,
    Keeps-execute {X = X} {P = Fine} (λ d. with_tables d (delete_follow follower target d.tables))
        (λ d d' a h e.
          with_tables-Fine d d' a (delete_follow follower target d.tables) e
            (λ t k. delete_follow-IsTallied follower target d.tables t a h k)),
  )

  announce_if-Fine : (b : Bool) (e : Event) → Keeps {X = X} Fine (announce_if b e)
  announce_if-Fine false e = search keeps_rules
  announce_if-Fine true e = announce-Keeps IsTallied outbox_table e

module _ {X : Type 0} (pgx : Pgx) where
  handle-Fine : (caller now : ℕ) (q : Request) → Keeps {X = X} Fine (handle pgx caller now q)
  unfolding handle follow unfollow
  handle-Fine caller now (follow_request directory target) =
      search (keeps_rules, repo_follow-Fine, announce_if-Fine) depth 12
  handle-Fine caller now (unfollow_request target) =
      search (keeps_rules, repo_unfollow-Fine, announce_if-Fine)

  -- Where edges have different keys, nobody follows themselves, and every counter is the number of the
  -- edges that it counts, all of that holds after every request, whether it succeeds or fails and at
  -- whatever call.
  pub handle-IsTallied :
      (caller now : ℕ) (q : Request) (w : World (Db Tables Event) X)
      → IsTallied w.db.tables
      → IsTallied (handle pgx caller now q w).1.db.tables
  handle-IsTallied caller now q w h = (handle-Fine caller now q).at w h

  handle-IsAtomic : (caller now : ℕ) (q : Request) → IsAtomic {X = X} (handle pgx caller now q)
  unfolding handle follow unfollow
  handle-IsAtomic caller now (follow_request directory target) = search atomic_rules
  handle-IsAtomic caller now (unfollow_request target) = search atomic_rules

  -- A follow or an unfollow that fails, for whatever reason and at whatever call, leaves the edges, the
  -- counters and the outbox as they were.
  pub handle_undone :
      (caller now : ℕ) (q : Request) (w : World (Db Tables Event) X)
      → Fails (handle pgx caller now q w).0
      → (handle pgx caller now q w).1.db ≡ w.db
  handle_undone caller now q w h = (handle-IsAtomic caller now q).at w h
