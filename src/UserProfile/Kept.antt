-- ===== src/UserProfile/Kept.antt =====
-- What Apply of services/user-profile/internal/domain/profile.go leaves alone.
use mathlib.Core.Path.{subst}
use icyre.Prelude.{ℕ, ◌≡◌, refl, ◌∙◌, Bool, true, false, Option, none, some, List, [], ◌∷◌}
use icyre.UserProfile.{Cases, Field, Profile, stamp}
use icyre.UserProfile.Changes.{
  Changes, Draft, accepted, apply_username, apply_display_name, apply_bio, apply_country,
  apply_language, differs, settle, decide, draft_of, apply,
}

-- Apply leaves the id, the avatar and the time of creation alone.
abbrev pub Kept : Profile → Profile → Type 0
Kept p q = (q.user_id ≡ p.user_id) × (q.avatar_key ≡ p.avatar_key) × (q.created_at ≡ p.created_at)

username-Kept :
    (cases : Cases) (s : Option (List ℕ)) (d : Draft) → Kept d.next (apply_username cases s d).next
unfolding apply_username
username-Kept cases none d = (refl, refl, refl)
username-Kept cases (some s) d = (refl, refl, refl)

display_name-Kept : (s : Option (List ℕ)) (d : Draft) → Kept d.next (apply_display_name s d).next
unfolding apply_display_name
display_name-Kept none d = (refl, refl, refl)
display_name-Kept (some s) d = (refl, refl, refl)

bio-Kept : (s : Option (List ℕ)) (d : Draft) → Kept d.next (apply_bio s d).next
unfolding apply_bio
bio-Kept none d = (refl, refl, refl)
bio-Kept (some s) d = (refl, refl, refl)

country-Kept :
    (cases : Cases) (s : Option (List ℕ)) (d : Draft) → Kept d.next (apply_country cases s d).next
unfolding apply_country
country-Kept cases none d = (refl, refl, refl)
country-Kept cases (some s) d = (refl, refl, refl)

language-Kept : (s : Option (List ℕ)) (d : Draft) → Kept d.next (apply_language s d).next
unfolding apply_language
language-Kept none d = (refl, refl, refl)
language-Kept (some s) d = (refl, refl, refl)

Kept-trans : (p q r : Profile) → Kept p q → Kept q r → Kept p r
Kept-trans p q r h k = (k.0 ∙ h.0, k.1 ∙ h.1, k.2 ∙ h.2)

draft_of-Kept : (cases : Cases) (c : Changes) (p : Profile) → Kept p (draft_of cases c p).next
draft_of-Kept cases c p =
    let d₀ : Draft = record { next = p; invalid = [] } in
    let d₁ : Draft = apply_username cases c.new_username d₀ in
    let d₂ : Draft = apply_display_name c.new_display_name d₁ in
    let d₃ : Draft = apply_bio c.new_bio d₂ in
    let d₄ : Draft = apply_country cases c.new_country d₃ in
    let k₁ = username-Kept cases c.new_username d₀ in
    let k₂ = Kept-trans p d₁.next d₂.next k₁ (display_name-Kept c.new_display_name d₁) in
    let k₃ = Kept-trans p d₂.next d₃.next k₂ (bio-Kept c.new_bio d₂) in
    let k₄ = Kept-trans p d₃.next d₄.next k₃ (country-Kept cases c.new_country d₃) in
    Kept-trans p d₄.next (draft_of cases c p).next k₄ (language-Kept c.new_language d₄)

settle-Kept :
    (x : Bool) (now : ℕ) (p next : Profile) (b : Bool) (q : Profile)
    → Kept p next
    → settle x now p next ≡ accepted b q
    → Kept p q
settle-Kept false now p next b q k e =
    let same : p ≡ q = cc in subst (Kept p) same (refl, refl, refl)
settle-Kept true now p next b q k e =
    let same : record next { updated_at = stamp now } ≡ q = cc in subst (Kept p) same k

decide-Kept :
    (now : ℕ) (p next : Profile) (invalid : List Field) (b : Bool) (q : Profile)
    → Kept p next
    → decide now p next invalid ≡ accepted b q
    → Kept p q
decide-Kept now p next (f ∷ fs) b q k e = absurd cc
decide-Kept now p next [] b q k e = settle-Kept (differs next p) now p next b q k e

pub apply-Kept :
    (cases : Cases) (c : Changes) (now : ℕ) (p : Profile) (b : Bool) (q : Profile)
    → apply cases c now p ≡ accepted b q
    → Kept p q
unfolding apply
apply-Kept cases c now p b q e =
    let d = draft_of cases c p in decide-Kept now p d.next d.invalid b q (draft_of-Kept cases c p) e
