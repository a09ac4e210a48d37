-- ===== src/Social.antt =====
-- services/social: who follows whom.
--
-- The types of services/social/internal/domain/social.go and its limits. A UUID is a number, uuid.Nil
-- is 0, and the order of UUIDs is the order of the numbers. A time is a number of nanoseconds. The
-- cursor of the package is `Keyset.Cursor`.
pub mod Sql
pub mod Repository
pub mod Service
pub mod Counters
pub mod Tally
pub mod Requests
pub mod Paging
mod Tests
use icyre.Prelude.{ℕ, Bool, true, false, ◌&&◌, ◌==◌}

pub data Error : Type 0 where
  not_found self_follow invalid_cursor : Error

pub data TargetType : Type 0 where
  user artist : TargetType

-- Equality of the texts "user" and "artist"
abbrev pub same_type : TargetType → TargetType → Bool
same_type user user = true
same_type artist artist = true
same_type user artist = false
same_type artist user = false

pub record Target : Type 0 where
  pub target_type : TargetType
  pub id : ℕ

abbrev pub same_target : Target → Target → Bool
same_target s t = same_type s.target_type t.target_type && s.id == t.id

pub record Follow : Type 0 where
  pub follower_id : ℕ
  pub target : Target
  pub followed_at : ℕ

pub record Change : Type 0 where
  pub follow : Follow
  pub changed : Bool

pub record Counts : Type 0 where
  pub followers : ℕ
  pub following_users : ℕ
  pub following_artists : ℕ

abbrev pub default_limit : ℕ
default_limit = 50

abbrev pub max_limit : ℕ
max_limit = 100
