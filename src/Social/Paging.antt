-- ===== src/Social/Paging.antt =====
-- The pages of services/social/internal/application/service.go, one after another.
use icyre.Prelude.{
  ℕ, ◌<◌, ◌≡◌, inl, inr, sym, ◌∙◌, true, Bool-cases, none, some, List, [], ◌∷◌, arith, length, All,
}
use icyre.Prelude.Sort.{sort_by}
use icyre.Prelude.Pairwise.{Pairwise, All-imp}
use icyre.Platform.Postgres.{Result, ok, err, fault, World, select, ◌>>=◌}
use icyre.Platform.Outbox.{Db}
use icyre.Keyset.{Page, newest_first, walk, page_of, clamp}
use icyre.Keyset.Walk
use icyre.Keyset.Walk.{walk_clamped}
use icyre.Social.{Error, Target, same_target, Follow}
use icyre.Social.Sql.{Tables, is_edge, followers_of}
use icyre.Social.Repository
use icyre.Social.Repository.{followed_at, follower_id, target_id}
use icyre.Social.Service.{Event, followers}
use icyre.Social.Counters.{same_target-eq}
use icyre.Social.Tally.{IsKeyed, Apart, is_edge_refl}

-- The page that a client sees, an empty one for an error
abbrev pub answered : Result Error (Page Follow) → Page Follow
answered (ok page) = page
answered (err e) = record { items = []; next = none }
answered fault = record { items = []; next = none }

-- The rows of a database, asked without a failure
abbrev pub calm : {X : Type 0} → Db Tables Event → X → World (Db Tables Event) X
calm d x = record { db = d; outside = x; faults = [] }

abbrev follower_of : Target → Follow → Follow
follower_of target f = record {
  follower_id = f.follower_id;
  target = target;
  followed_at = f.followed_at;
}

one_edge :
    (target : Target) (f g : Follow)
    → same_target f.target target ≡ true
    → same_target g.target target ≡ true
    → f.follower_id ≡ g.follower_id
    → Apart f g
    → ⊥
one_edge target f g h k id a =
    let targets : f.target ≡ g.target =
      same_target-eq f.target target h ∙ sym (same_target-eq g.target target k) in
    let self = sym (is_edge_refl g) ∙ (λ j. is_edge (sym id j) (sym targets j) g) ∙ a in
    absurd (ground arith)

All-followers_of :
    (P : Follow → Type 0) (target : Target) (fs : List Follow)
    → All (λ f. same_target f.target target ≡ true → P (follower_of target f)) fs
    → All P (followers_of target fs)
unfolding followers_of
All-followers_of P target [] h = tt
All-followers_of P target (f ∷ fs) h = elim (Bool-cases (same_target f.target target)) [
  | inl e ↦ rw e (h.0 e, All-followers_of P target fs h.1)
  | inr e ↦ rw e (All-followers_of P target fs h.1)
]

followers_of-Apart :
    (target : Target) (fs : List Follow)
    → IsKeyed fs
    → Pairwise (Walk.Apart followed_at follower_id) (followers_of target fs)
unfolding followers_of
followers_of-Apart target [] h = tt
followers_of-Apart target (f ∷ fs) h = elim (Bool-cases (same_target f.target target)) [
  | inl e ↦ rw e (
    All-followers_of (Walk.Apart followed_at follower_id (follower_of target f)) target fs
        (All-imp fs (λ g a k at id. one_edge target f g e k id a) h.0),
    followers_of-Apart target fs h.1,
  )
  | inr e ↦ rw e (followers_of-Apart target fs h.1)
]

module _ {X : Type 0} where
  -- Over a database that does not change and in which no call fails, and where edges have different
  -- keys: a client that follows the cursors of Followers from the first page, with whatever limit,
  -- for more steps than there are followers, comes to the page without a cursor, and has got the
  -- followers of the target, each once, newest first.
  pub followers_pages :
      (target : Target) (limit fuel : ℕ) (d : Db Tables Event) (x : X)
      → IsKeyed d.tables.follows
      → length (followers_of target d.tables.follows) < fuel
      → walk (λ after. answered (followers target after limit (calm d x)).0) fuel none
        ≡ some
            (sort_by (newest_first followed_at follower_id) (followers_of target d.tables.follows))
  unfolding followers Repository.followers ◌>>=◌ page_of select clamp
  followers_pages target limit fuel d x keyed h =
      walk_clamped followed_at follower_id (followers_of target d.tables.follows) 49 99 limit fuel
        (followers_of-Apart target d.tables.follows keyed) h
