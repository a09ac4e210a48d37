-- ===== src/MediaIngest/Over.antt =====
-- The rows of services/media-ingest under new sessions and the UPDATE of Settle.
use mathlib.Core.Path.{subst}
use icyre.Prelude.{
  ℕ, ◌≡◌, ◌≢◌, refl, ◌∙◌, inl, inr, Bool, true, false, none, some, [], ◌∷◌, ◌++◌, arith, ◌==◌, ◌||◌,
  Bool-cases, ==_iff, any, count, any-append,
}
use icyre.MediaIngest.{Upload}
use icyre.MediaIngest.Repository.{
  Tables, keys_equal, is_pending, is_open, insert_upload, settled_row, settle_rows,
}

abbrev pub is_there : ℕ → Tables → Bool
is_there id t = any (λ (r : Upload). r.id == id) t

-- An upload that was settled is in the table, and not open.
abbrev pub IsOver : Tables → ℕ → Type 0
IsOver t id = (is_there id t ≡ true) × (any (is_open id) t ≡ false)

any-append_false :
    (p : Upload → Bool) (t : Tables) (u : Upload)
    → p u ≡ false
    → any p t ≡ false
    → any p (t ++ u ∷ []) ≡ false
any-append_false p [] u h k = ground arith
any-append_false p (r ∷ t) u h k = ground (arith, any-append_false p t u h)

any-or_left : (p q : Upload → Bool) (t : Tables) → any (λ r. p r || q r) t ≡ false → any p t ≡ false
any-or_left p q [] h = refl
any-or_left p q (r ∷ t) h = ground (arith, any-or_left p q t)

ids_apart : (id j : ℕ) (t : Tables) → is_there id t ≡ false → is_there j t ≡ true → id ≢ j
ids_apart id j t f h e = absurd cc

-- A row that a unique constraint let in opens no upload that was settled.
pub created-IsOver :
    (u : Upload) (t t' : Tables) (id : ℕ) → insert_upload u t ≡ some t' → IsOver t id → IsOver t' id
unfolding insert_upload
created-IsOver u t t' id e h =
    let row : Upload = record u { failure_reason = none; completed_at = none } in
    let refused : any (λ (r : Upload). r.id == u.id || keys_equal r.key u.key) t ≡ false =
      ground arith in
    let new : is_there u.id t ≡ false =
      any-or_left (λ r. r.id == u.id) (λ r. keys_equal r.key u.key) t refused in
    let apart : u.id ≢ id = ids_apart u.id id t new h.0 in
    let same : t' ≡ t ++ row ∷ [] = ground arith in
    rw same (
      any-append (λ (r : Upload). r.id == id) t (row ∷ []) h.0,
      any-append_false (is_open id) t row (ground (arith, apart)) h.1,
    )

settled_row-id : (u r : Upload) → (settled_row u r).id ≡ r.id
unfolding settled_row
settled_row-id u r = ground arith

is_there-settle : (u : Upload) (id : ℕ) (t : Tables) → is_there id (settle_rows u t) ≡ is_there id t
unfolding settle_rows
is_there-settle u id [] = refl
is_there-settle u id (r ∷ t) = ground (arith, settled_row-id u r, is_there-settle u id t)

-- A settled row is not open, and no row opens again.
open-settle :
    (u : Upload) (id : ℕ) (t : Tables)
    → is_pending u.status ≡ false
    → any (is_open id) t ≡ false
    → any (is_open id) (settle_rows u t) ≡ false
unfolding settle_rows settled_row
open-settle u id [] p h = refl
open-settle u id (r ∷ t) p h = ground (arith, open-settle u id t p)

closed-settle :
    (u : Upload) (t : Tables)
    → is_pending u.status ≡ false
    → any (is_open u.id) (settle_rows u t) ≡ false
unfolding settle_rows settled_row
closed-settle u [] p = refl
closed-settle u (r ∷ t) p = ground (arith, closed-settle u t p)

open-there :
    (id : ℕ) (t : Tables)
    → count (is_open id) t ≡ 1
    → (is_there id t ≡ true) × (any (is_open id) t ≡ true)
open-there id [] h = absurd (omega arith)
open-there id (r ∷ t) h = elim (Bool-cases (is_open id r)) [
  | inl e ↦ (ground arith, ground arith)
  | inr e ↦ (ground (arith, open-there id t), ground (arith, open-there id t))
]

pub settle-IsOver :
    (u : Upload) (t : Tables) (id : ℕ)
    → is_pending u.status ≡ false
    → IsOver t id
    → IsOver (settle_rows u t) id
settle-IsOver u t id p h = (is_there-settle u id t ∙ h.0, open-settle u id t p h.1)

pub settled-IsOver :
    (u : Upload) (t : Tables)
    → is_pending u.status ≡ false
    → (count (is_open u.id) t == 1) ≡ true
    → IsOver (settle_rows u t) u.id
settled-IsOver u t p h =
    (is_there-settle u u.id t ∙ (open-there u.id t ((==_iff _ _).0 h)).0, closed-settle u t p)

-- An upload whose Settle succeeds was open.
pub settled_open :
    (u : Upload) (t : Tables)
    → (count (is_open u.id) t == 1) ≡ true
    → (id : ℕ) → any (is_open id) t ≡ false
    → u.id ≢ id
settled_open u t k id h e =
    let o : any (is_open u.id) t ≡ true = (open-there u.id t ((==_iff _ _).0 k)).1 in
    let o' : any (is_open id) t ≡ true = subst (λ i. any (is_open i) t ≡ true) e o in cc
