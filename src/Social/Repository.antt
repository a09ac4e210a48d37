-- ===== src/Social/Repository.antt =====
-- services/social/internal/adapters/postgres/repository.go: one function for each method.
use icyre.Prelude.{ℕ, true, false, Option, none, some, List, [], ◌∷◌, ◌==◌, filter, find?, any}
use icyre.Platform.Postgres.{
  ◌>>=◌, Result, ok, err, fault, Exec, pure, broken, select, execute, from_option,
}
use icyre.Platform.Outbox.{Db}
use icyre.Keyset.{Cursor, behind}
use icyre.Social.{Error, TargetType, Target, Follow, Change, Counts}
use icyre.Social.Sql.{
  Tables, is_edge, insert_follow, delete_follow, counts_of, followers_of, following_of,
}

abbrev pub Repo : Type 0 → Type 0 → Type 0 → Type 0
Repo M X A = Exec (Db Tables M) X Error A

abbrev pub followed_at : Follow → ℕ
followed_at f = f.followed_at

abbrev pub follower_id : Follow → ℕ
follower_id f = f.follower_id

abbrev pub target_id : Follow → ℕ
target_id f = f.target.id

abbrev pub target_ids : List Follow → List ℕ
target_ids [] = []
target_ids (f ∷ fs) = f.target.id ∷ target_ids fs

abbrev pub followed_at? : Option Follow → Option ℕ
followed_at? none = none
followed_at? (some f) = some f.followed_at

module _ {M A : Type 0} where
  abbrev pub with_tables : Db Tables M → Result Error (A × Tables) → Result Error (A × Db Tables M)
  with_tables d (ok (a, t)) = ok (a, record d { tables = t })
  with_tables d (err e) = err e
  with_tables d fault = fault

module _ {M X : Type 0} where
  -- The SELECT of a second follow: no row is an error that the code does not tell apart.
  unfoldable pub existing : Follow → Repo M X Change
  existing f = do
    row ← select (λ d. followed_at? (find? (is_edge f.follower_id f.target) d.tables.follows))
    at ← from_option row broken
    pure (record { follow = record f { followed_at = at }; changed = false })

  unfoldable pub follow_as : Follow → Option ℕ → Repo M X Change
  unfolding existing
  follow_as f (some at) = pure (record { follow = record f { followed_at = at }; changed = true })
  follow_as f none = existing f

  unfoldable pub follow : Follow → Repo M X Change
  unfolding follow_as insert_follow
  follow f = do
    returned ← execute (λ d. with_tables d (insert_follow f d.tables))
    follow_as f returned

  unfoldable pub unfollow : ℕ → Target → ℕ → Repo M X Change
  unfolding delete_follow
  unfollow follower target at = do
    n ← execute (λ d. with_tables d (delete_follow follower target d.tables))
    pure (record {
      follow = record { follower_id = follower; target = target; followed_at = at };
      changed = n == 1;
    })

  unfoldable pub followers : Target → Option Cursor → ℕ → Repo M X (List Follow)
  unfolding followers_of
  followers target after limit =
      select
        (λ d. behind followed_at follower_id after limit (followers_of target d.tables.follows))

  unfoldable pub following : ℕ → TargetType → Option Cursor → ℕ → Repo M X (List Follow)
  unfolding following_of
  following follower t after limit =
      select
        (λ d. behind followed_at target_id after limit (following_of follower t d.tables.follows))

  unfoldable pub contains : ℕ → TargetType → List ℕ → Repo M X (List ℕ)
  unfolding following_of
  contains follower t ids = select (λ d.
      target_ids
        (filter (λ f. any (λ k. k == f.target.id) ids) (following_of follower t d.tables.follows)))

  unfoldable pub counts : Target → Repo M X Counts
  unfolding counts_of
  counts subject = select (λ d. counts_of subject d.tables.counters)
