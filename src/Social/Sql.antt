-- ===== src/Social/Sql.antt =====
-- The tables social.follows and social.counters (00001 of
-- services/social/internal/adapters/postgres/migrations), and the statements of repository.go there,
-- read over lists of rows. Counters are not bounded by int8.
use icyre.Prelude.{
  ℕ, ◌+◌, ◌-◌, Bool, true, false, not, ◌&&◌, ◌||◌, Option, none, some, List, [], ◌∷◌, ◌++◌, ltb,
  ◌==◌, if◌then◌else◌, filter, any, count,
}
use icyre.Platform.Postgres.{Result, ok, fault}
use icyre.Social.{Error, TargetType, user, artist, same_type, Target, same_target, Follow, Counts}

pub record Counter : Type 0 where
  pub subject : Target
  pub followers : ℕ
  pub following_users : ℕ
  pub following_artists : ℕ

pub record Tables : Type 0 where
  pub follows : List Follow
  pub counters : List Counter

abbrev pub user_of : ℕ → Target
user_of id = record { target_type = user; id = id }

-- WHERE follower_id = $1 AND target_type = $2 AND target_id = $3
abbrev pub is_edge : ℕ → Target → Follow → Bool
is_edge follower target f = f.follower_id == follower && same_target f.target target

-- CHECK (target_type <> 'user' OR follower_id <> target_id)
abbrev pub is_self : ℕ → Target → Bool
is_self follower target = same_target target (user_of follower)

abbrev pub as_int : Bool → ℕ
as_int true = 1
as_int false = 0

-- A new row has zeros where the statement gives no value.
abbrev pub no_counts : Target → Counter
no_counts s = record { subject = s; followers = 0; following_users = 0; following_artists = 0 }

-- INSERT … ON CONFLICT (subject_type, subject_id) DO UPDATE
unfoldable pub upsert : Target → (Counter → Counter) → List Counter → List Counter
upsert s g [] = g (no_counts s) ∷ []
upsert s g (c ∷ cs) =
    let rest = upsert s g cs in if same_target c.subject s then g c ∷ cs else c ∷ rest

-- UPDATE … WHERE subject_type = … AND subject_id = …
unfoldable pub on_counter : Target → (Counter → Counter) → List Counter → List Counter
on_counter s g [] = []
on_counter s g (c ∷ cs) = (if same_target c.subject s then g c else c) ∷ on_counter s g cs

unfoldable pub followed : Counter → Counter
followed c = record c { followers = c.followers + 1 }

unfoldable pub following : TargetType → Counter → Counter
following t c = record c {
  following_users = c.following_users + as_int (same_type t user);
  following_artists = c.following_artists + as_int (same_type t artist);
}

unfoldable pub unfollowed : Counter → Counter
unfollowed c = record c { followers = c.followers - 1 }

unfoldable pub not_following : TargetType → Counter → Counter
not_following t c = record c {
  following_users = c.following_users - as_int (same_type t user);
  following_artists = c.following_artists - as_int (same_type t artist);
}

-- The statement of Follow, with `followed_at` of the inserted row
unfoldable pub insert_follow : Follow → Tables → Result Error (Option ℕ × Tables)
unfolding upsert followed following
insert_follow f t =
    if is_self f.follower_id f.target
    then fault
    else if any (is_edge f.follower_id f.target) t.follows
    then ok (none, t)
    else ok (
      some f.followed_at,
      record {
        follows = t.follows ++ f ∷ [];
        counters =
            upsert (user_of f.follower_id) (following f.target.target_type)
              (upsert f.target followed t.counters);
      },
    )

-- CHECK (followers >= 0), and those of the other counters
unfoldable pub goes_below : ℕ → Target → List Counter → Bool
goes_below follower target counters =
    any (λ (c : Counter). same_target c.subject target && c.followers == 0) counters
    || any
        (λ (c : Counter).
          same_target c.subject (user_of follower)
          && (ltb c.following_users (as_int (same_type target.target_type user))
              || ltb c.following_artists (as_int (same_type target.target_type artist))))
        counters

-- The statement of Unfollow, with the number of deleted rows
unfoldable pub delete_follow : ℕ → Target → Tables → Result Error (ℕ × Tables)
unfolding on_counter unfollowed not_following goes_below
delete_follow follower target t =
    if any (is_edge follower target) t.follows
    then (if goes_below follower target t.counters
        then fault
        else ok (
          count (is_edge follower target) t.follows,
          record {
            follows = filter (λ f. not (is_edge follower target f)) t.follows;
            counters =
                on_counter (user_of follower) (not_following target.target_type)
                  (on_counter target unfollowed t.counters);
          },
        ))
    else ok (0, t)

-- SELECT … FROM social.counters; a subject without a row has none.
unfoldable pub counts_of : Target → List Counter → Counts
counts_of s [] = record { followers = 0; following_users = 0; following_artists = 0 }
counts_of s (c ∷ cs) =
    let rest = counts_of s cs in
    if same_target c.subject s
    then record {
      followers = c.followers;
      following_users = c.following_users;
      following_artists = c.following_artists;
    }
    else rest

-- The rows of Followers and of Following, before the cursor
unfoldable pub followers_of : Target → List Follow → List Follow
followers_of target [] = []
followers_of target (f ∷ fs) =
    let rest = followers_of target fs in
    if same_target f.target target
    then record { follower_id = f.follower_id; target = target; followed_at = f.followed_at } ∷ rest
    else rest

unfoldable pub following_of : ℕ → TargetType → List Follow → List Follow
following_of follower t [] = []
following_of follower t (f ∷ fs) =
    let rest = following_of follower t fs in
    if f.follower_id == follower && same_type f.target.target_type t
    then record {
      follower_id = follower;
      target = record { target_type = t; id = f.target.id };
      followed_at = f.followed_at;
    }
      ∷ rest
    else rest
