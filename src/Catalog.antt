-- ===== src/Catalog.antt =====
-- services/catalog: the tracks of the Catalog service.
--
-- The track of services/catalog/internal/domain/track.go with its states and its changes. A UUID is a
-- number, a time a number of microseconds, as the tables keep it, a duration one of milliseconds, a
-- text the list of its code points. A status in a request
-- that is none of the five is `none`.
pub mod Tracks
pub mod Lifecycle
pub mod Requests
pub mod Deleted
pub mod Announced
mod Tests
use icyre.Prelude.{
  ℕ, Bool, true, false, not, ◌&&◌, ◌||◌, Option, none, some, List, [], ◌∷◌, if◌then◌else◌, any,
  length, leb, ◌==◌,
}
use icyre.Prelude.Unicode.{trim_space, texts_equal}
use icyre.Platform.Postgres.{Result, ok, err, fault}

pub data Error : Type 0 where
  track_not_found track_deleted invalid_status_transition validation : Error

pub data TrackStatus : Type 0 where
  draft processing ready blocked deleted : TrackStatus

abbrev pub same_status : TrackStatus → TrackStatus → Bool
same_status draft draft = true
same_status processing processing = true
same_status ready ready = true
same_status blocked blocked = true
same_status deleted deleted = true
same_status _ _ = false

abbrev pub allowed_transitions : TrackStatus → List TrackStatus
allowed_transitions draft = processing ∷ deleted ∷ []
allowed_transitions processing = ready ∷ draft ∷ deleted ∷ []
allowed_transitions ready = blocked ∷ deleted ∷ []
allowed_transitions blocked = ready ∷ deleted ∷ []
allowed_transitions deleted = []

unfoldable pub can_transition_to : TrackStatus → TrackStatus → Bool
can_transition_to s next = any (λ t. same_status t next) (allowed_transitions s)

pub record Track : Type 0 where
  pub id : ℕ
  pub album_id : ℕ
  pub artist_ids : List ℕ
  pub title : List ℕ
  pub duration : ℕ
  pub track_number : ℕ
  pub disc_number : ℕ
  pub explicit : Bool
  pub isrc : List ℕ
  pub status : TrackStatus
  pub created_at : ℕ
  pub updated_at : ℕ

abbrev pub max_name_length : ℕ
max_name_length = 200

abbrev pub is_title : List ℕ → Bool
is_title title = not (length title == 0) && leb (length title) max_name_length

pub data MediaStage : Type 0 where
  media_uploaded media_transcoded media_failed : MediaStage

-- The status that a signal leads to, where it fits the current one
unfoldable pub next_status : MediaStage → TrackStatus → Option TrackStatus
next_status media_uploaded draft = some processing
next_status media_transcoded draft = some ready
next_status media_transcoded processing = some ready
next_status media_failed processing = some draft
next_status _ _ = none

abbrev moved : Option TrackStatus → ℕ → Track → Track × Bool
moved none now t = (t, false)
moved (some next) now t = (record t { status = next; updated_at = now }, true)

unfoldable pub advance_media : MediaStage → ℕ → Track → Track × Bool
unfolding next_status
advance_media stage now t = moved (next_status stage t.status) now t

-- A field that is nil stays as it is.
pub record TrackChanges : Type 0 where
  pub title : Option (List ℕ)
  pub explicit : Option Bool
  pub status : Option (Option TrackStatus)

unfoldable pub apply_title : Option (List ℕ) → Track → Result Error Track
apply_title none t = ok t
apply_title (some text) t =
    if is_title (trim_space text) then ok (record t { title = trim_space text }) else err validation

abbrev pub apply_explicit : Option Bool → Track → Track
apply_explicit none t = t
apply_explicit (some b) t = record t { explicit = b }

unfoldable pub apply_status : Option (Option TrackStatus) → Track → Result Error Track
unfolding can_transition_to
apply_status none t = ok t
apply_status (some none) t = err validation
apply_status (some (some next)) t =
    if same_status next t.status
    then ok t
    else if can_transition_to t.status next
    then ok (record t { status = next })
    else err invalid_status_transition

abbrev pub same_bool : Bool → Bool → Bool
same_bool true b = b
same_bool false b = not b

-- The end of Apply: the new track, if it differs
abbrev pub finished : ℕ → Track → Track → Track × Bool
finished now t next =
    if not (texts_equal next.title t.title)
      || not (same_bool next.explicit t.explicit)
      || not (same_status next.status t.status)
    then (record next { updated_at = now }, true)
    else (t, false)

abbrev pub with_status : TrackChanges → ℕ → Track → Result Error Track → Result Error (Track × Bool)
with_status c now t (ok next) = ok (finished now t next)
with_status c now t (err e) = err e
with_status c now t fault = fault

abbrev pub with_title : TrackChanges → ℕ → Track → Result Error Track → Result Error (Track × Bool)
with_title c now t (ok next) =
    with_status c now t (apply_status c.status (apply_explicit c.explicit next))
with_title c now t (err e) = err e
with_title c now t fault = fault

unfoldable pub apply : TrackChanges → ℕ → Track → Result Error (Track × Bool)
unfolding apply_title apply_status
apply c now t =
    if same_status t.status deleted
    then err track_deleted
    else with_title c now t (apply_title c.title t)
