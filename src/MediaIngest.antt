-- ===== src/MediaIngest.antt =====
-- services/media-ingest: upload sessions.
--
-- The model of services/media-ingest/internal/domain/upload.go, with the reasons of
-- libs/contracts/events/mediav1 and the keys of libs/contracts/media. A text is the list of its code points,
-- a digest and the head of an object are lists of bytes. A size is a number: a negative one, which
-- Validate refuses as it refuses 0, is read as 0.
pub mod Repository
pub mod Service
pub mod Over
pub mod History
pub mod Invariant
pub mod Verification
mod Tests
use icyre.Prelude.{
  ℕ, ◌+◌, ◌-◌, ◌*◌, ◌/◌, ◌%◌, Bool, true, false, not, ◌&&◌, ◌||◌, Option, none, some, List, [], ◌∷◌,
  ◌++◌, ltb, leb, ◌==◌, if◌then◌else◌, length, take, drop, find?,
}
use icyre.Prelude.Unicode.{texts_equal}
use icyre.Platform.Outbox.TableName.{codes}

pub data Status : Type 0 where
  pending completed failed : Status

pub data Reason : Type 0 where
  expired size_mismatch content_type_mismatch unrecognized_format checksum_mismatch : Reason

pub data Field : Type 0 where
  track_id_field content_type_field size_field sha256_field : Field

pub data Error : Type 0 where
  not_found track_not_found forbidden not_uploaded : Error
  validation : List Field → Error
  -- RejectedError, with `none` for an empty reason
  rejected : Option Reason → Error

abbrev pub starts_with : List ℕ → List ℕ → Bool
starts_with text prefix = texts_equal (take (length prefix) text) prefix

abbrev pub is_wav : List ℕ → Bool
is_wav b =
    leb 12 (length b)
    && texts_equal (take 4 b) (codes "RIFF")
    && texts_equal (take 4 (drop 8 b)) (codes "WAVE")

-- 0xFF, and three set bits at the top of the next byte
abbrev pub is_sync : List ℕ → Bool
is_sync (x ∷ y ∷ rest) = x == 0xff && y / 32 % 8 == 7
is_sync _ = false

abbrev pub is_mp3 : List ℕ → Bool
is_mp3 b = starts_with b (codes "ID3") || is_sync b

abbrev pub is_flac : List ℕ → Bool
is_flac b = starts_with b (codes "fLaC")

pub record Format : Type 0 where
  pub content_type : List ℕ
  pub ext : List ℕ
  pub sniff : List ℕ → Bool

abbrev pub sniff_len : ℕ
sniff_len = 12

abbrev pub formats : List Format
formats =
    record { content_type = codes "audio/flac"; ext = codes "flac"; sniff = is_flac }
    ∷ record { content_type = codes "audio/wav"; ext = codes "wav"; sniff = is_wav }
    ∷ record { content_type = codes "audio/x-wav"; ext = codes "wav"; sniff = is_wav }
    ∷ record { content_type = codes "audio/mpeg"; ext = codes "mp3"; sniff = is_mp3 }
    ∷ []

unfoldable pub format_of : List ℕ → Option Format
format_of content_type = find? (λ f. texts_equal f.content_type content_type) formats

-- media.TrackOriginalKey
pub record Key : Type 0 where
  pub track : ℕ
  pub upload : ℕ
  pub extension : List ℕ

pub record Upload : Type 0 where
  pub id : ℕ
  pub track_id : ℕ
  pub uploader_id : ℕ
  pub content_type : List ℕ
  pub size_bytes : ℕ
  pub sha256 : List ℕ
  pub key : Key
  pub status : Status
  pub failure_reason : Option Reason
  pub created_at : ℕ
  pub expires_at : ℕ
  pub completed_at : Option ℕ

pub record UploadRequest : Type 0 where
  pub track_id : ℕ
  pub content_type : List ℕ
  pub size_bytes : ℕ
  pub sha256_hex : List ℕ

-- encoding/hex: one digit
abbrev pub hex_digit : ℕ → Option ℕ
hex_digit c =
    if leb 48 c && leb c 57
    then some (c - 48)
    else if leb 97 c && leb c 102
    then some (c - 87)
    else if leb 65 c && leb c 70
    then some (c - 55)
    else none

abbrev hex_byte : Option ℕ → Option ℕ → Option (List ℕ) → Option (List ℕ)
hex_byte (some a) (some b) (some rest) = some ((a * 16 + b) ∷ rest)
hex_byte _ _ _ = none

-- hex.DecodeString, with `none` for its errors
unfoldable pub decode_hex : List ℕ → Option (List ℕ)
decode_hex [] = some []
decode_hex (c ∷ []) = none
decode_hex (c ∷ d ∷ rest) = hex_byte (hex_digit c) (hex_digit d) (decode_hex rest)

abbrev refuse_if : Bool → Field → List Field
refuse_if true f = f ∷ []
refuse_if false f = []

abbrev is_absent : {A : Type 0} → Option A → Bool
is_absent none = true
is_absent (some a) = false

abbrev is_digest : Option (List ℕ) → Bool
is_digest none = false
is_digest (some sum) = length sum == 32

unfoldable pub bad_fields : UploadRequest → ℕ → List Field
unfolding format_of decode_hex
bad_fields r max_size =
    refuse_if (r.track_id == 0) track_id_field
    ++ refuse_if (is_absent (format_of r.content_type)) content_type_field
    ++ refuse_if (r.size_bytes == 0 || ltb max_size r.size_bytes) size_field
    ++ refuse_if (not (is_digest (decode_hex r.sha256_hex))) sha256_field

unfoldable pub settle : Upload → Option Reason → ℕ → Upload
settle u none at = record u { completed_at = some at; status = completed; failure_reason = none }
settle u (some reason) at = record u {
  completed_at = some at;
  status = failed;
  failure_reason = some reason;
}
