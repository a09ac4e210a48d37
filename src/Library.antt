-- ===== src/Library.antt =====
-- services/library: the listener's saved tracks and albums.
--
-- The types of services/library/internal/domain/library.go and its limits. A UUID is a number,
-- uuid.Nil is 0, and the order of UUIDs is the order of the numbers. A time is a number of
-- nanoseconds, and the zero time is 0. The cursor of the package is `Keyset.Cursor`.
pub mod Repository
pub mod Service
pub mod Effects
pub mod Paging
pub mod Replay
mod Tests
use icyre.Prelude.{ℕ, Bool, true, false}

pub data Error : Type 0 where
  not_found invalid_cursor : Error

pub data Kind : Type 0 where
  track album : Kind

-- Equality of the texts "track" and "album"
abbrev pub same_kind : Kind → Kind → Bool
same_kind track track = true
same_kind album album = true
same_kind track album = false
same_kind album track = false

pub record Item : Type 0 where
  pub user_id : ℕ
  pub kind : Kind
  pub entity_id : ℕ
  pub saved_at : ℕ

pub record Change : Type 0 where
  pub item : Item
  pub changed : Bool

pub record Counts : Type 0 where
  pub tracks : ℕ
  pub albums : ℕ

abbrev pub default_limit : ℕ
default_limit = 50

abbrev pub max_limit : ℕ
max_limit = 100

abbrev pub max_contains : ℕ
max_contains = 100
