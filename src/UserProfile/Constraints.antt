-- ===== src/UserProfile/Constraints.antt =====
-- Apply of services/user-profile/internal/domain/profile.go against the CHECKs of profile.profiles.
use mathlib.Core.Path.{subst}
use icyre.Prelude.{
  ℕ, ◌≡◌, sym, refl, ◌⊎◌, Bool, true, false, ◌&&◌, Option, none, some, List, [], ◌∷◌, inl, inr,
}
use icyre.UserProfile.{Field, Cases, Profile, stamp}
use icyre.UserProfile.Changes.{
  Changes, Draft, accepted, with_invalid, apply_username, apply_display_name, apply_bio,
  apply_country, apply_language, differs, settle, decide, draft_of, apply, Fits,
}

abbrev Sound : Draft → Type 0
Sound d = d.invalid ≡ [] → Fits d.next

-- An added field is a failed test.
passed :
    (b : Bool) (f : Field) (fs : List Field) → with_invalid b f fs ≡ [] → (b ≡ true) × (fs ≡ [])
passed true f fs e = (refl, e)
passed false f fs e = absurd cc

first_of : (a b : Bool) → (a && b) ≡ true → a ≡ true
first_of true b e = refl
first_of false b e = e

apply_username-Sound :
    (cases : Cases) (s : Option (List ℕ)) (d : Draft) → Sound d → Sound (apply_username cases s d)
unfolding apply_username
apply_username-Sound cases none d h = h
apply_username-Sound cases (some s) d h = λ e.
    let (good, before) = passed _ _ _ e in
    let (_, n, b, l) = h before in (first_of _ _ good, n, b, l)

apply_display_name-Sound :
    (s : Option (List ℕ)) (d : Draft) → Sound d → Sound (apply_display_name s d)
unfolding apply_display_name
apply_display_name-Sound none d h = h
apply_display_name-Sound (some s) d h =
    λ e. let (good, before) = passed _ _ _ e in let (u, _, b, l) = h before in (u, good, b, l)

apply_bio-Sound : (s : Option (List ℕ)) (d : Draft) → Sound d → Sound (apply_bio s d)
unfolding apply_bio
apply_bio-Sound none d h = h
apply_bio-Sound (some s) d h =
    λ e. let (good, before) = passed _ _ _ e in let (u, n, _, c) = h before in (u, n, good, c)

apply_country-Sound :
    (cases : Cases) (s : Option (List ℕ)) (d : Draft) → Sound d → Sound (apply_country cases s d)
unfolding apply_country
apply_country-Sound cases none d h = h
apply_country-Sound cases (some s) d h =
    λ e. let (good, before) = passed _ _ _ e in let (u, n, b, _) = h before in (u, n, b, good)

apply_language-Sound : (s : Option (List ℕ)) (d : Draft) → Sound d → Sound (apply_language s d)
unfolding apply_language
apply_language-Sound none d h = h
apply_language-Sound (some s) d h = λ e. let (good, before) = passed _ _ _ e in h before

draft_of-Sound : (cases : Cases) (c : Changes) (p : Profile) → Fits p → Sound (draft_of cases c p)
draft_of-Sound cases c p h = apply_language-Sound c.new_language _ (
    apply_country-Sound cases c.new_country _ (
      apply_bio-Sound c.new_bio _ (
        apply_display_name-Sound c.new_display_name _ (
          apply_username-Sound cases c.new_username (record { next = p; invalid = [] }) (λ e. h)))))

settle-Fits :
    (x : Bool) (now : ℕ) (p next : Profile) (b : Bool) (q : Profile)
    → Fits p
    → Fits next
    → settle x now p next ≡ accepted b q
    → Fits q × ((b ≡ true) ⊎ (q ≡ p))
settle-Fits false now p next b q h k e =
    let same : p ≡ q = cc in (subst Fits same h, inr (sym same))
settle-Fits true now p next b q h k e =
    let same : record next { updated_at = stamp now } ≡ q = cc in
    let told : b ≡ true = cc in (subst Fits same k, inl told)

decide-Fits :
    (now : ℕ) (p next : Profile) (invalid : List Field) (b : Bool) (q : Profile)
    → Fits p
    → (invalid ≡ [] → Fits next)
    → decide now p next invalid ≡ accepted b q
    → Fits q × ((b ≡ true) ⊎ (q ≡ p))
decide-Fits now p next (f ∷ fs) b q h sound e = absurd cc
decide-Fits now p next [] b q h sound e =
    settle-Fits (differs next p) now p next b q h (sound refl) e

-- A profile that fits the CHECKs of its table fits them after changes that Apply accepts, so that
-- none of them refuses the UPDATE, and it is left as it was where Apply reports no change.
pub apply-Fits :
    (cases : Cases) (c : Changes) (now : ℕ) (p : Profile) (b : Bool) (q : Profile)
    → Fits p
    → apply cases c now p ≡ accepted b q
    → Fits q × ((b ≡ true) ⊎ (q ≡ p))
unfolding apply
apply-Fits cases c now p b q h e =
    let d = draft_of cases c p in
    decide-Fits now p d.next d.invalid b q h (draft_of-Sound cases c p h) e
