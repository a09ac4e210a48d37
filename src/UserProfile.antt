-- ===== src/UserProfile.antt =====
-- services/user-profile: the profile that a registration creates, and its changes.
--
-- FromRegistration of services/user-profile/internal/domain/profile.go. A UUID is a number, a time a
-- number of nanoseconds, a text the list of its code points. `Cases` is strings.ToLower on a text and
-- unicode.ToUpper on a code point.
pub mod Registration
pub mod Created
pub mod Changes
pub mod Constraints
pub mod Update
pub mod Kept
pub mod Updated
pub mod Username
mod Tests
use icyre.Prelude.{
  ℕ, ◌-◌, ◌%◌, Bool, true, false, ◌&&◌, ◌||◌, Option, none, some, List, [], ◌∷◌, map, ltb, leb,
  ◌==◌, if◌then◌else◌, length, take, filter,
}
use icyre.Prelude.Unicode.{trim_space}
use icyre.Platform.Outbox.TableName.{codes}
use icyre.Playlist.Title.{fields, join}

pub record Cases : Type 0 where
  pub to_lower : List ℕ → List ℕ
  pub to_upper : ℕ → ℕ

pub data Field : Type 0 where
  username_field display_name_field bio_field country_field language_field : Field

pub data Error : Type 0 where
  profile_not_found username_taken : Error
  validation : List Field → Error

pub record Profile : Type 0 where
  pub user_id : ℕ
  pub username : List ℕ
  pub display_name : List ℕ
  pub avatar_key : List ℕ
  pub bio : List ℕ
  pub country : List ℕ
  pub language : List ℕ
  pub created_at : ℕ
  pub updated_at : ℕ

abbrev pub max_display_name : ℕ
max_display_name = 50

abbrev pub max_bio : ℕ
max_bio = 300

-- What stands before the first "@"
unfoldable pub local_part : List ℕ → List ℕ
local_part [] = []
local_part (c ∷ cs) = elim (c == 64) [ true ↦ [] | false ↦ c ∷ local_part cs ]

-- "." and "_"
abbrev pub is_separator : ℕ → Bool
is_separator c = c == 46 || c == 95

-- a-z and 0-9
abbrev pub is_alphanumeric : ℕ → Bool
is_alphanumeric c = leb 97 c && leb c 122 || leb 48 c && leb c 57

-- usernameRepeats: a run of separators becomes one "."; `run` is what the current run becomes.
unfoldable pub squeeze : Option ℕ → List ℕ → List ℕ
squeeze none [] = []
squeeze (some run) [] = run ∷ []
squeeze none (c ∷ cs) = elim (is_separator c) [
  | true ↦ squeeze (some c) cs
  | false ↦ c ∷ squeeze none cs
]
squeeze (some run) (c ∷ cs) = elim (is_separator c) [
  | true ↦ squeeze (some 46) cs
  | false ↦ run ∷ c ∷ squeeze none cs
]

abbrev pub trim_left : List ℕ → List ℕ
trim_left [] = []
trim_left (c ∷ cs) = if is_separator c then trim_left cs else c ∷ cs

abbrev pub keep_right : ℕ → List ℕ → List ℕ
keep_right c [] = if is_separator c then [] else c ∷ []
keep_right c (d ∷ ds) = c ∷ d ∷ ds

abbrev pub trim_right : List ℕ → List ℕ
trim_right [] = []
trim_right (c ∷ cs) = keep_right c (trim_right cs)

-- strings.Trim(username, "._")
abbrev pub trim : List ℕ → List ℕ
trim s = trim_right (trim_left s)

unfoldable pub username_of : List ℕ → List ℕ
unfolding squeeze
username_of local =
    let cleaned = trim (squeeze none (filter (λ c. is_alphanumeric c || is_separator c) local)) in
    let short = if ltb 24 (length cleaned) then take 24 cleaned else cleaned in
    if ltb (length short) 3 then codes "listener" else short

abbrev pub as_space : ℕ → ℕ
as_space c = if c == 46 || c == 95 || c == 45 || c == 43 then 32 else c

abbrev pub capital : Cases → List ℕ → List ℕ
capital cases [] = []
capital cases (c ∷ cs) = cases.to_upper c ∷ cs

unfoldable pub capitalize : Cases → List ℕ → List ℕ
capitalize cases s = join (map (capital cases) (fields s))

abbrev pub truncate : List ℕ → ℕ → List ℕ
truncate s n = if leb (length s) n then s else take n s

unfoldable pub display_name_of : Cases → List ℕ → List ℕ → List ℕ
unfolding capitalize
display_name_of cases local username =
    let spaced = trim_space (map as_space local) in
    let display = if length spaced == 0 then username else spaced in
    capitalize cases (truncate display max_display_name)

abbrev pub stamp : ℕ → ℕ
stamp now = now - now % 1000

unfoldable pub from_registration : Cases → ℕ → List ℕ → ℕ → Profile
unfolding local_part username_of display_name_of
from_registration cases user_id email now =
    let local = local_part (cases.to_lower email) in
    let username = username_of local in
    record {
      user_id = user_id;
      username = username;
      display_name = display_name_of cases local username;
      avatar_key = [];
      bio = [];
      country = [];
      language = [];
      created_at = stamp now;
      updated_at = stamp now;
    }
