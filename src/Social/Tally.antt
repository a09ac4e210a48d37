-- ===== src/Social/Tally.antt =====
-- The tables of schema `social` under the requests of
-- services/social/internal/application/service.go.
use mathlib.Core.Path.{subst}
use icyre.Prelude.{
  ℕ, ◌+◌, ◌-◌, ◌≡◌, inl, inr, refl, sym, ap, ◌∙◌, Bool, true, false, not, Bool-cases, Option, List,
  [], ◌∷◌, ◌++◌, arith, if◌then◌else◌, filter, any, count, All,
}
use icyre.Prelude.Pairwise.{
  Pairwise, Pairwise-last, Pairwise-filter, All-append, All-filter, All-imp, All-any_false,
}
use icyre.Platform.Postgres.{ok}
use icyre.Social.{Target, same_target, Follow}
use icyre.Social.Sql.{
  Tables, user_of, is_edge, is_self, as_int, upsert, on_counter, followed, following, unfollowed,
  not_following, insert_follow, delete_follow,
}
use icyre.Social.Counters.{
  Column, counted, value, value-upsert, value-on_counter, followed-Adds, following-Adds,
  unfollowed-Takes, not_following-Takes, to_target, to_follower, gain, gain_counted, same_target-eq,
  same_target_refl,
}

-- PRIMARY KEY (follower_id, target_type, target_id)
abbrev pub Apart : Follow → Follow → Type 0
Apart f g = is_edge f.follower_id f.target g ≡ false

abbrev pub IsKeyed : List Follow → Type 0
IsKeyed fs = Pairwise Apart fs

pub record IsTallied (t : Tables) : Type 0 where
  pub keyed : IsKeyed t.follows
  -- nobody follows themselves
  pub others : All (λ f. is_self f.follower_id f.target ≡ false) t.follows
  -- every column of every subject is the number of the edges that it counts
  pub tallied : (k : Column) (s : Target) → value k s t.counters ≡ count (counted k s) t.follows

count-append :
    (p : Follow → Bool) (fs : List Follow) (f : Follow)
    → count p (fs ++ f ∷ []) ≡ count p fs + as_int (p f)
count-append p [] f = ground arith
count-append p (g ∷ fs) f = ground (arith, count-append p fs f)

is_edge-eq :
    (follower : ℕ) (target : Target) (f : Follow)
    → is_edge follower target f ≡ true
    → (f.follower_id ≡ follower) × (f.target ≡ target)
is_edge-eq follower target f h = (ground arith, same_target-eq f.target target (ground arith))

pub is_edge_refl : (f : Follow) → is_edge f.follower_id f.target f ≡ true
is_edge_refl f = rw (same_target_refl f.target) (ground arith)

is_edge-sym :
    (f g : Follow)
    → is_edge f.follower_id f.target g ≡ false
    → is_edge g.follower_id g.target f ≡ false
is_edge-sym f g h = elim (Bool-cases (is_edge g.follower_id g.target f)) [
  | inr e ↦ e
  | inl e ↦
      let (u, t) = is_edge-eq g.follower_id g.target f e in
      let self = sym (is_edge_refl g) ∙ (λ j. is_edge (sym u j) (sym t j) g) ∙ h in
      absurd (ground arith)
]

-- What the statement of Follow writes
abbrev inserted : Follow → Tables → Tables
inserted f t = record {
  follows = t.follows ++ f ∷ [];
  counters =
      upsert (user_of f.follower_id) (following f.target.target_type)
        (upsert f.target followed t.counters);
}

inserted-IsTallied :
    (f : Follow) (t : Tables)
    → IsTallied t
    → is_self f.follower_id f.target ≡ false
    → any (is_edge f.follower_id f.target) t.follows ≡ false
    → IsTallied (inserted f t)
inserted-IsTallied f t w other new = record {
  keyed = Pairwise-last Apart t.follows f w.keyed (
      All-any_false (λ g. Apart g f) (is_edge f.follower_id f.target) t.follows
        (λ g e. is_edge-sym f g e) new);
  others =
      All-append (λ g. is_self g.follower_id g.target ≡ false) t.follows (f ∷ []) w.others
        (other, tt);
  tallied = λ k s.
      value-upsert k (to_follower f.target.target_type k) (following f.target.target_type) s
        (user_of f.follower_id) (upsert f.target followed t.counters)
        (following-Adds f.target.target_type k)
      ∙ ap
          (λ n.
            n
            + (if same_target (user_of f.follower_id) s
                then to_follower f.target.target_type k
                else 0))
          (value-upsert k (to_target k) followed s f.target t.counters (followed-Adds k))
      ∙ omega (arith, gain_counted k s f, w.tallied k s, count-append (counted k s) t.follows f);
}

pub insert_follow-IsTallied :
    (f : Follow) (t t' : Tables) (o : Option ℕ)
    → IsTallied t
    → insert_follow f t ≡ ok (o, t')
    → IsTallied t'
unfolding insert_follow
insert_follow-IsTallied f t t' o w e = elim (Bool-cases (is_self f.follower_id f.target)) [
  | inl self ↦ absurd (ground arith)
  | inr other ↦ elim (Bool-cases (any (is_edge f.follower_id f.target) t.follows)) [
    | inl there ↦ let same : t ≡ t' = ground arith in subst IsTallied same w
    | inr new ↦
        let made : t' ≡ inserted f t = ground arith in
        subst IsTallied (sym made) (inserted-IsTallied f t w other new)
  ]
]

count-cons :
    (p : Follow → Bool) (f : Follow) (fs : List Follow)
    → count p (f ∷ fs) ≡ count p fs + as_int (p f)
count-cons p f fs = ground arith

add_swap : (a b c : ℕ) → a + b + c ≡ a + c + b
add_swap a b c = omega arith

sub_both : (a b c : ℕ) → a + (b + c) - b - c ≡ a
sub_both a b c = omega arith

-- What the statement of Unfollow writes
abbrev deleted : ℕ → Target → Tables → Tables
deleted follower target t = record {
  follows = filter (λ f. not (is_edge follower target f)) t.follows;
  counters =
      on_counter (user_of follower) (not_following target.target_type)
        (on_counter target unfollowed t.counters);
}

filter_all : (p : Follow → Bool) (fs : List Follow) → All (λ f. p f ≡ true) fs → filter p fs ≡ fs
filter_all p [] h = refl
filter_all p (f ∷ fs) h = rw h.0 (ap (λ l. f ∷ l) (filter_all p fs h.1))

-- The one edge of its key
edge : ℕ → Target → Follow
edge follower target = record { follower_id = follower; target = target; followed_at = 0 }

count-delete :
    (k : Column) (s : Target) (follower : ℕ) (target : Target) (fs : List Follow)
    → IsKeyed fs
    → any (is_edge follower target) fs ≡ true
    → count (counted k s) fs
      ≡ count (counted k s) (filter (λ f. not (is_edge follower target f)) fs)
        + gain k s (edge follower target)
unfolding edge
count-delete k s follower target [] w h = absurd (ground arith)
count-delete k s follower target (f ∷ fs) w h = elim (Bool-cases (is_edge follower target f)) [
  | inl e ↦
      let (u, t) = is_edge-eq follower target f e in
      let alone : All (λ g. not (is_edge follower target g) ≡ true) fs =
        All-imp fs (λ g a. ap not ((λ j. is_edge (sym u j) (sym t j) g) ∙ a)) w.0 in
      let weight : gain k s f ≡ gain k s (edge follower target) =
        (λ j. gain k s (record f { follower_id = u j; target = t j })) in
      rw (e, filter_all (λ g. not (is_edge follower target g)) fs alone)
        (count-cons (counted k s) f fs
          ∙ ap (λ n. count (counted k s) fs + n) (sym (gain_counted k s f) ∙ weight))
  | inr e ↦
      let rest : List Follow = filter (λ g. not (is_edge follower target g)) fs in
      let one = gain k s (edge follower target) in
      rw e (
        count-cons (counted k s) f fs
        ∙ ap (λ n. n + as_int (counted k s f))
            (count-delete k s follower target fs w.1 (ground arith))
        ∙ add_swap (count (counted k s) rest) one (as_int (counted k s f))
        ∙ ap (λ n. n + one) (sym (count-cons (counted k s) f rest)))
]

deleted-IsTallied :
    (follower : ℕ) (target : Target) (t : Tables)
    → IsTallied t
    → any (is_edge follower target) t.follows ≡ true
    → IsTallied (deleted follower target t)
unfolding edge
deleted-IsTallied follower target t w there =
    let kept : Follow → Bool = λ f. not (is_edge follower target f) in
    record {
      keyed = Pairwise-filter Apart kept t.follows w.keyed;
      others = All-filter (λ f. is_self f.follower_id f.target ≡ false) kept t.follows w.others;
      tallied = λ k s.
          value-on_counter k (to_follower target.target_type k) (not_following target.target_type) s
            (user_of follower) (on_counter target unfollowed t.counters)
            (not_following-Takes target.target_type k)
          ∙ ap
              (λ n.
                n
                - (if same_target (user_of follower) s
                    then to_follower target.target_type k
                    else 0))
              (value-on_counter k (to_target k) unfollowed s target t.counters (unfollowed-Takes k)
                ∙ ap (λ n. n - (if same_target target s then to_target k else 0))
                    (w.tallied k s ∙ count-delete k s follower target t.follows w.keyed there))
          ∙ sub_both (count (counted k s) (filter kept t.follows))
              (if same_target target s then to_target k else 0)
              (if same_target (user_of follower) s then to_follower target.target_type k else 0);
    }

pub delete_follow-IsTallied :
    (follower : ℕ) (target : Target) (t t' : Tables) (n : ℕ)
    → IsTallied t
    → delete_follow follower target t ≡ ok (n, t')
    → IsTallied t'
unfolding delete_follow
delete_follow-IsTallied follower target t t' n w e =
    elim (Bool-cases (any (is_edge follower target) t.follows)) [
      | inl there ↦
          let made : t' ≡ deleted follower target t = ground arith in
          subst IsTallied (sym made) (deleted-IsTallied follower target t w there)
      | inr none_there ↦ let same : t ≡ t' = ground arith in subst IsTallied same w
    ]
