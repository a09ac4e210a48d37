-- ===== src/Social/Counters.antt =====
-- The counters of social.counters beside the edges that they count.
use mathlib.Core.Path.{subst}
use icyre.Prelude.{
  ℕ, ◌+◌, ◌-◌, ◌≡◌, inl, inr, refl, sym, ◌∙◌, Bool, true, false, ◌&&◌, Bool-cases, List, [], ◌∷◌,
  arith, if◌then◌else◌, ==_self,
}
use icyre.Social.{TargetType, user, artist, same_type, Target, same_target, Follow, Counts}
use icyre.Social.Sql.{
  Counter, user_of, as_int, no_counts, upsert, on_counter, followed, following, unfollowed,
  not_following, counts_of,
}

pub same_type-eq : (a b : TargetType) → same_type a b ≡ true → a ≡ b
same_type-eq user user h = refl
same_type-eq artist artist h = refl
same_type-eq user artist h = absurd (ground arith)
same_type-eq artist user h = absurd (ground arith)

pub same_type_refl : (a : TargetType) → same_type a a ≡ true
same_type_refl user = refl
same_type_refl artist = refl

pub same_target-eq : (s t : Target) → same_target s t ≡ true → s ≡ t
same_target-eq s t h =
    let types : s.target_type ≡ t.target_type =
      same_type-eq s.target_type t.target_type (ground arith) in
    let ids : s.id ≡ t.id = ground arith in λ i. record { target_type = types i; id = ids i }

pub same_target_refl : (s : Target) → same_target s s ≡ true
same_target_refl s = rw (same_type_refl s.target_type) (==_self s.id)

-- Two subjects that a third tells apart
same_target-apart :
    (r s t : Target) → same_target r s ≡ true → same_target r t ≡ false → same_target t s ≡ false
same_target-apart r s t h k = elim (Bool-cases (same_target t s)) [
  | inl e ↦
      let other = sym (subst (λ z. same_target r z ≡ false) (same_target-eq t s e) k) ∙ h in
      absurd (ground arith)
  | inr e ↦ e
]

-- The columns of a counter
pub data Column : Type 0 where
  followers_column : Column
  following_column : TargetType → Column

unfoldable pub column : Column → Counts → ℕ
column followers_column c = c.followers
column (following_column user) c = c.following_users
column (following_column artist) c = c.following_artists

-- The edges that a column of a subject counts
unfoldable pub counted : Column → Target → Follow → Bool
counted followers_column s f = same_target f.target s
counted (following_column t) s f =
    same_target (user_of f.follower_id) s && same_type f.target.target_type t

abbrev pub counts_in : Counter → Counts
counts_in c = record {
  followers = c.followers;
  following_users = c.following_users;
  following_artists = c.following_artists;
}

-- The value of a column for a subject
unfoldable pub value : Column → Target → List Counter → ℕ
unfolding column counts_of
value k s cs = column k (counts_of s cs)

-- `g` adds `n` to a column of its row.
pub record Adds (k : Column) (n : ℕ) (g : Counter → Counter) : Type 0 where
  pub keeps : (c : Counter) → (g c).subject ≡ c.subject
  pub adds : (c : Counter) → column k (counts_in (g c)) ≡ column k (counts_in c) + n

no_counts-zero : (k : Column) (s : Target) → column k (counts_in (no_counts s)) ≡ 0
unfolding column
no_counts-zero followers_column s = refl
no_counts-zero (following_column user) s = refl
no_counts-zero (following_column artist) s = refl

value-cons :
    (k : Column) (s : Target) (c : Counter) (cs : List Counter)
    → value k s (c ∷ cs)
      ≡ (if same_target c.subject s then column k (counts_in c) else value k s cs)
unfolding value
value-cons k s c cs = elim (Bool-cases (same_target c.subject s)) [
  | inl e ↦ rw e refl
  | inr e ↦ rw e refl
]

pub value-nil : (k : Column) (s : Target) → value k s [] ≡ 0
unfolding value
value-nil k s = no_counts-zero k s

if_none : (b : Bool) (n : ℕ) → (if b then 0 + n else 0) ≡ 0 + (if b then n else 0)
if_none true n = refl
if_none false n = refl

if_hit :
    (b : Bool) (x v n : ℕ) → (if b then x + n else v) ≡ (if b then x else v) + (if b then n else 0)
if_hit true x v n = refl
if_hit false x v n = omega arith

if_miss :
    (b c : Bool) (x v n : ℕ)
    → (b ≡ true → c ≡ false)
    → (if b then x else v + (if c then n else 0)) ≡ (if b then x else v) + (if c then n else 0)
if_miss true c x v n h = rw (h refl) (omega arith)
if_miss false c x v n h = refl

pub value-upsert :
    (k : Column) (n : ℕ) (g : Counter → Counter) (s s' : Target) (cs : List Counter)
    → Adds k n g
    → value k s (upsert s' g cs) ≡ value k s cs + (if same_target s' s then n else 0)
unfolding upsert
value-upsert k n g s s' [] a =
    rw (value-cons k s (g (no_counts s')) [], a.keeps, a.adds, no_counts-zero, value-nil)
      (if_none (same_target s' s) n)
value-upsert k n g s s' (c ∷ cs) a = elim (Bool-cases (same_target c.subject s')) [
  | inl e ↦ rw e (
      rw
        (
          value-cons k s (g c) cs,
          value-cons k s c cs,
          a.keeps,
          a.adds,
          same_target-eq c.subject s' e,
        )
        (if_hit (same_target s' s) _ _ n))
  | inr e ↦ rw e (
      rw (value-cons k s c (upsert s' g cs), value-cons k s c cs, value-upsert k n g s s' cs a)
        (if_miss (same_target c.subject s) (same_target s' s) _ _ n
          (λ f. same_target-apart c.subject s s' f e)))
]

-- `g` takes `n` off a column of its row.
pub record Takes (k : Column) (n : ℕ) (g : Counter → Counter) : Type 0 where
  pub keeps : (c : Counter) → (g c).subject ≡ c.subject
  pub takes : (c : Counter) → column k (counts_in (g c)) ≡ column k (counts_in c) - n

if_both :
    (b : Bool) (x v n : ℕ)
    → (if b then x - n else v - (if b then n else 0)) ≡ (if b then x else v) - (if b then n else 0)
if_both true x v n = refl
if_both false x v n = refl

if_missed :
    (b c : Bool) (x v n : ℕ)
    → (b ≡ true → c ≡ false)
    → (if b then x else v - (if c then n else 0)) ≡ (if b then x else v) - (if c then n else 0)
if_missed true c x v n h = rw (h refl) (omega arith)
if_missed false c x v n h = refl

pub value-on_counter :
    (k : Column) (n : ℕ) (g : Counter → Counter) (s s' : Target) (cs : List Counter)
    → Takes k n g
    → value k s (on_counter s' g cs) ≡ value k s cs - (if same_target s' s then n else 0)
unfolding on_counter
value-on_counter k n g s s' [] a = rw (value-nil) (omega arith)
value-on_counter k n g s s' (c ∷ cs) a = elim (Bool-cases (same_target c.subject s')) [
  | inl e ↦ rw e (
      rw
        (
          value-cons k s (g c) (on_counter s' g cs),
          value-cons k s c cs,
          value-on_counter k n g s s' cs a,
          a.keeps,
          a.takes,
          same_target-eq c.subject s' e,
        )
        (if_both (same_target s' s) _ _ n))
  | inr e ↦ rw e (
      rw
        (
          value-cons k s c (on_counter s' g cs),
          value-cons k s c cs,
          value-on_counter k n g s s' cs a,
        )
        (if_missed (same_target c.subject s) (same_target s' s) _ _ n
          (λ f. same_target-apart c.subject s s' f e)))
]

-- What an edge adds to a column of its target, and to one of its follower
abbrev pub to_target : Column → ℕ
to_target followers_column = 1
to_target (following_column t) = 0

abbrev pub to_follower : TargetType → Column → ℕ
to_follower t followers_column = 0
to_follower t (following_column u) = as_int (same_type t u)

pub followed-Adds : (k : Column) → Adds k (to_target k) followed
unfolding column followed
followed-Adds followers_column = record { keeps = λ c. refl; adds = λ c. refl }
followed-Adds (following_column user) = record { keeps = λ c. refl; adds = λ c. omega arith }
followed-Adds (following_column artist) = record { keeps = λ c. refl; adds = λ c. omega arith }

pub following-Adds : (t : TargetType) (k : Column) → Adds k (to_follower t k) (following t)
unfolding column following
following-Adds t followers_column = record { keeps = λ c. refl; adds = λ c. omega arith }
following-Adds t (following_column user) = record { keeps = λ c. refl; adds = λ c. refl }
following-Adds t (following_column artist) = record { keeps = λ c. refl; adds = λ c. refl }

pub unfollowed-Takes : (k : Column) → Takes k (to_target k) unfollowed
unfolding column unfollowed
unfollowed-Takes followers_column = record { keeps = λ c. refl; takes = λ c. refl }
unfollowed-Takes (following_column user) = record { keeps = λ c. refl; takes = λ c. omega arith }
unfollowed-Takes (following_column artist) = record { keeps = λ c. refl; takes = λ c. omega arith }

pub not_following-Takes :
    (t : TargetType) (k : Column) → Takes k (to_follower t k) (not_following t)
unfolding column not_following
not_following-Takes t followers_column = record { keeps = λ c. refl; takes = λ c. omega arith }
not_following-Takes t (following_column user) = record { keeps = λ c. refl; takes = λ c. refl }
not_following-Takes t (following_column artist) = record { keeps = λ c. refl; takes = λ c. refl }

-- One edge of a follower and a target, in a column of a subject
abbrev pub gain : Column → Target → Follow → ℕ
gain k s f =
    (if same_target f.target s then to_target k else 0)
    + (if same_target (user_of f.follower_id) s then to_follower f.target.target_type k else 0)

pub gain_counted : (k : Column) (s : Target) (f : Follow) → gain k s f ≡ as_int (counted k s f)
unfolding counted
gain_counted followers_column s f = ground arith
gain_counted (following_column t) s f = ground arith
