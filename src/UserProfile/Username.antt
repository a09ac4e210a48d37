-- ===== src/UserProfile/Username.antt =====
-- The username that FromRegistration of services/user-profile/internal/domain/profile.go derives.
use icyre.Prelude.{
  ℕ, zero, suc, ◌≤◌, ◌≡◌, inl, inr, refl, true, false, ◌||◌, Bool-cases, Option, none, some, List,
  [], ◌∷◌, arith, ltb, if◌then◌else◌, length, take, filter, All, length-take,
}
use icyre.Prelude.Pairwise.{All-filter_test}
use icyre.Platform.Outbox.TableName.{codes}
use icyre.UserProfile.{
  is_separator, is_alphanumeric, squeeze, trim_left, keep_right, trim_right, trim, username_of,
}

-- a-z, 0-9, "." and "_"
abbrev pub IsAllowed : ℕ → Type 0
IsAllowed c = (is_alphanumeric c || is_separator c) ≡ true

abbrev RunAllowed : Option ℕ → Type 0
RunAllowed none = Unit
RunAllowed (some c) = IsAllowed c

separator-IsAllowed : (c : ℕ) → is_separator c ≡ true → IsAllowed c
separator-IsAllowed c h = ground arith

squeeze-IsAllowed :
    (run : Option ℕ) (s : List ℕ) → RunAllowed run → All IsAllowed s → All IsAllowed (squeeze run s)
unfolding squeeze
squeeze-IsAllowed none [] r h = tt
squeeze-IsAllowed (some c) [] r h = (r, tt)
squeeze-IsAllowed none (c ∷ cs) r h = elim (Bool-cases (is_separator c)) [
  | inl e ↦ rw (e, All) (squeeze-IsAllowed (some c) cs h.0 h.1)
  | inr e ↦ rw (e, All) (h.0, squeeze-IsAllowed none cs tt h.1)
]
squeeze-IsAllowed (some run) (c ∷ cs) r h = elim (Bool-cases (is_separator c)) [
  | inl e ↦ rw (e, All) (squeeze-IsAllowed (some 46) cs refl h.1)
  | inr e ↦ rw (e, All) (r, (h.0, squeeze-IsAllowed none cs tt h.1))
]

trim_left-IsAllowed : (s : List ℕ) → All IsAllowed s → All IsAllowed (trim_left s)
trim_left-IsAllowed [] h = tt
trim_left-IsAllowed (c ∷ cs) h = elim (Bool-cases (is_separator c)) [
  | inl e ↦ rw e (trim_left-IsAllowed cs h.1)
  | inr e ↦ rw e h
]

keep_right-IsAllowed :
    (c : ℕ) (s : List ℕ) → IsAllowed c → All IsAllowed s → All IsAllowed (keep_right c s)
keep_right-IsAllowed c [] k h = elim (Bool-cases (is_separator c)) [
  | inl e ↦ rw e tt
  | inr e ↦ rw e (k, tt)
]
keep_right-IsAllowed c (d ∷ ds) k h = (k, h)

trim_right-IsAllowed : (s : List ℕ) → All IsAllowed s → All IsAllowed (trim_right s)
trim_right-IsAllowed [] h = tt
trim_right-IsAllowed (c ∷ cs) h =
    keep_right-IsAllowed c (trim_right cs) h.0 (trim_right-IsAllowed cs h.1)

take-IsAllowed : (n : ℕ) (s : List ℕ) → All IsAllowed s → All IsAllowed (take n s)
take-IsAllowed zero s h = tt
take-IsAllowed (suc n) [] h = tt
take-IsAllowed (suc n) (c ∷ cs) h = (h.0, take-IsAllowed n cs h.1)

abbrev Derived : List ℕ → Type 0
Derived s = All IsAllowed s × (3 ≤ length s) × (length s ≤ 24)

long_enough :
    (s : List ℕ)
    → All IsAllowed s
    → length s ≤ 24
    → Derived (if ltb (length s) 3 then codes "listener" else s)
long_enough s h k = elim (Bool-cases (ltb (length s) 3)) [
  | inl e ↦ rw e (
    (refl, (refl, (refl, (refl, (refl, (refl, (refl, (refl, tt)))))))),
    (omega arith),
    (omega arith),
  )
  | inr e ↦ rw e (h, ground arith, k)
]

not_longer : (n : ℕ) → ltb 24 n ≡ false → n ≤ 24
not_longer n e = ground arith

-- The username derived from an address has 3 to 24 characters, all of them a-z, 0-9, "." or "_".
pub username_of-IsAllowed :
    (local : List ℕ)
    → All IsAllowed (username_of local)
      × (3 ≤ length (username_of local))
      × (length (username_of local) ≤ 24)
unfolding username_of
username_of-IsAllowed local =
    let kept : All IsAllowed (filter (λ c. is_alphanumeric c || is_separator c) local) =
      All-filter_test IsAllowed (λ c. is_alphanumeric c || is_separator c) local (λ c e. e) in
    let cleaned =
      trim_right-IsAllowed _ (trim_left-IsAllowed _ (squeeze-IsAllowed none _ tt kept)) in
    let s = trim (squeeze none (filter (λ c. is_alphanumeric c || is_separator c) local)) in
    elim (Bool-cases (ltb 24 (length s))) [
      | inl e ↦
          rw e (
            long_enough (take 24 s) (take-IsAllowed 24 s cleaned) (omega (arith, length-take 24 s)))
      | inr e ↦ rw e (long_enough s cleaned (not_longer (length s) e))
    ]
