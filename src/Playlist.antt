-- ===== src/Playlist.antt =====
-- services/playlist: the Playlist service.
--
-- The records of services/playlist/internal/domain/playlist.go, its errors, and CheckOrder. A UUID
-- is a number, uuid.Nil is 0, and the order of UUIDs is the order of the numbers. A time is a number
-- of nanoseconds.
pub mod Title
pub mod Order
pub mod Repository
pub mod Service
mod Tests
use icyre.Prelude.{ℕ, Bool, true, false, not, ◌||◌, List, [], ◌∷◌, ◌==◌, if◌then◌else◌, length, any}

pub data Error : Type 0 where
  not_found forbidden track_not_found invalid_title order_mismatch : Error

pub record Playlist : Type 0 where
  pub id : ℕ
  pub owner_id : ℕ
  pub title : List ℕ
  pub track_count : ℕ
  pub created_at : ℕ
  pub updated_at : ℕ

pub record Track : Type 0 where
  pub track_id : ℕ
  pub position : ℕ
  pub added_by : ℕ
  pub added_at : ℕ

-- The loop of CheckOrder; `seen` holds the keys of the map.
check_each : List Track → List ℕ → List ℕ → Bool
check_each current seen [] = true
check_each current seen (id ∷ rest) =
    let tail = check_each current (id ∷ seen) rest in
    if any (λ j. j == id) seen || not (any (λ (t : Track). t.track_id == id) current)
    then false
    else tail

-- CheckOrder returned nil.
unfoldable pub check_order : List Track → List ℕ → Bool
unfolding check_each
check_order current order =
    if not (length order == length current) then false else check_each current [] order
