-- ===== src/UserProfile/Changes.antt =====
-- Apply of services/user-profile/internal/domain/profile.go. The fields of a ValidationError are a
-- list of their names. strings.ToUpper is `to_upper` on each code point.
use icyre.Prelude.{
  ℕ, ◌≡◌, Bool, true, false, not, ◌&&◌, ◌||◌, Option, none, some, List, [], ◌∷◌, map, leb, ◌==◌,
  if◌then◌else◌, length,
}
use icyre.Prelude.Unicode.{texts_equal, trim_space}
use icyre.UserProfile.{
  Field, username_field, display_name_field, bio_field, country_field, language_field, Cases,
  Profile, max_display_name, max_bio, stamp,
}
use icyre.UserProfile.Registration.{username_fits}

pub record Changes : Type 0 where
  pub new_username : Option (List ℕ)
  pub new_display_name : Option (List ℕ)
  pub new_bio : Option (List ℕ)
  pub new_country : Option (List ℕ)
  pub new_language : Option (List ℕ)

-- The copy that takes the changes, and the invalid fields so far
pub record Draft : Type 0 where
  pub next : Profile
  pub invalid : List Field

pub data Applied : Type 0 where
  refused : List Field → Applied
  accepted : Bool → Profile → Applied

abbrev pub is_upper : ℕ → Bool
is_upper c = leb 65 c && leb c 90

abbrev pub is_lower : ℕ → Bool
is_lower c = leb 97 c && leb c 122

-- Whether the text contains ".."
abbrev pub has_dots : List ℕ → Bool
has_dots [] = false
has_dots (c ∷ []) = false
has_dots (c ∷ d ∷ ds) = c == 46 && d == 46 || has_dots (d ∷ ds)

-- "" or countryPattern
abbrev pub country_fits : List ℕ → Bool
country_fits [] = true
country_fits (a ∷ []) = false
country_fits (a ∷ b ∷ []) = is_upper a && is_upper b
country_fits (a ∷ b ∷ c ∷ rest) = false

-- The optional region of a language tag
abbrev pub region_fits : List ℕ → Bool
region_fits [] = true
region_fits (c ∷ []) = false
region_fits (c ∷ d ∷ []) = false
region_fits (c ∷ d ∷ e ∷ []) = c == 45 && is_upper d && is_upper e
region_fits (c ∷ d ∷ e ∷ f ∷ rest) = false

-- What follows the first two letters of a language tag
abbrev pub tail_fits : List ℕ → Bool
tail_fits [] = true
tail_fits (c ∷ cs) = if is_lower c then region_fits cs else region_fits (c ∷ cs)

-- "" or languagePattern
abbrev pub language_fits : List ℕ → Bool
language_fits [] = true
language_fits (a ∷ []) = false
language_fits (a ∷ b ∷ rest) = is_lower a && is_lower b && tail_fits rest

abbrev pub with_invalid : Bool → Field → List Field → List Field
with_invalid false f fs = f ∷ fs
with_invalid true f fs = fs

unfoldable pub apply_username : Cases → Option (List ℕ) → Draft → Draft
apply_username cases none d = d
apply_username cases (some s) d =
    let u = cases.to_lower (trim_space s) in
    record {
      next = record d.next { username = u };
      invalid = with_invalid (username_fits u && not (has_dots u)) username_field d.invalid;
    }

abbrev pub is_display_name : List ℕ → Bool
is_display_name s = leb 1 (length s) && leb (length s) max_display_name

unfoldable pub apply_display_name : Option (List ℕ) → Draft → Draft
apply_display_name none d = d
apply_display_name (some s) d =
    let n = trim_space s in
    record {
      next = record d.next { display_name = n };
      invalid = with_invalid (is_display_name n) display_name_field d.invalid;
    }

unfoldable pub apply_bio : Option (List ℕ) → Draft → Draft
apply_bio none d = d
apply_bio (some s) d =
    let b = trim_space s in
    record {
      next = record d.next { bio = b };
      invalid = with_invalid (leb (length b) max_bio) bio_field d.invalid;
    }

unfoldable pub apply_country : Cases → Option (List ℕ) → Draft → Draft
apply_country cases none d = d
apply_country cases (some s) d =
    let v = map cases.to_upper (trim_space s) in
    record {
      next = record d.next { country = v };
      invalid = with_invalid (country_fits v) country_field d.invalid;
    }

unfoldable pub apply_language : Option (List ℕ) → Draft → Draft
apply_language none d = d
apply_language (some s) d =
    let v = trim_space s in
    record {
      next = record d.next { language = v };
      invalid = with_invalid (language_fits v) language_field d.invalid;
    }

abbrev pub differs : Profile → Profile → Bool
differs p q =
    not (texts_equal p.username q.username)
    || not (texts_equal p.display_name q.display_name)
    || not (texts_equal p.bio q.bio)
    || not (texts_equal p.country q.country)
    || not (texts_equal p.language q.language)

abbrev pub settle : Bool → ℕ → Profile → Profile → Applied
settle false now p next = accepted false p
settle true now p next = accepted true (record next { updated_at = stamp now })

abbrev pub decide : ℕ → Profile → Profile → List Field → Applied
decide now p next [] = settle (differs next p) now p next
decide now p next (f ∷ fs) = refused (f ∷ fs)

abbrev pub draft_of : Cases → Changes → Profile → Draft
draft_of cases c p = apply_language c.new_language (
    apply_country cases c.new_country (
      apply_bio c.new_bio (
        apply_display_name c.new_display_name
          (apply_username cases c.new_username (record { next = p; invalid = [] })))))

unfoldable pub apply : Cases → Changes → ℕ → Profile → Applied
apply cases c now p = let d = draft_of cases c p in decide now p d.next d.invalid

-- What the CHECKs of profile.profiles ask of a row
abbrev pub Fits : Profile → Type 0
Fits p =
    (username_fits p.username ≡ true)
    × (is_display_name p.display_name ≡ true)
    × (leb (length p.bio) max_bio ≡ true)
    × (country_fits p.country ≡ true)
