-- ===== src/Keyset/Encoding.antt =====
-- Encode and DecodeCursor of services/social/internal/domain/social.go, which
-- services/library/internal/domain/library.go has with another name for the id.
--
-- `Json` is what the code relies on of encoding/json for a cursor, with the texts of time.Time
-- (RFC 3339) and of UUIDs (github.com/google/uuid): what Marshal writes are bytes, Unmarshal reads
-- what Marshal wrote, and no text is JSON of nothing. `none` is an error, as Marshal gives for a
-- time outside the years 0 to 9999. The zero time and uuid.Nil are 0.
use icyre.Prelude.{
  ℕ, ◌≡◌, refl, ap, Bool, true, false, not, ◌&&◌, ◌||◌, Option, none, some, List, [], ◌==◌,
  if◌then◌else◌, arith,
}
use icyre.Keyset.{Cursor}
use icyre.Keyset.Base64.{AreBytes, encode, decode, decode-encode}

pub record Json : Type 0 where
  pub marshal : Cursor → Option (List ℕ)
  pub unmarshal : List ℕ → Option Cursor
  pub marshal-AreBytes : (c : Cursor) (raw : List ℕ) → marshal c ≡ some raw → AreBytes raw
  pub unmarshal-marshal :
      (c : Cursor) (raw : List ℕ) → marshal c ≡ some raw → unmarshal raw ≡ some c
  pub unmarshal_empty : unmarshal [] ≡ none

-- ErrInvalidCursor is `none`.
abbrev pub nonzero : Option Cursor → Option Cursor
nonzero none = none
nonzero (some c) = if c.id == 0 || c.at == 0 then none else some c

abbrev pub read : Json → Option (List ℕ) → Option Cursor
read json none = none
read json (some raw) = nonzero (json.unmarshal raw)

-- What Marshal leaves in `raw`, its error ignored
abbrev pub written : Option (List ℕ) → List ℕ
written none = []
written (some raw) = raw

abbrev pub is_some : {A : Type 0} → Option A → Bool
is_some none = false
is_some (some a) = true

-- Whether a cursor stands for a position, and has a text
abbrev pub is_usable : Json → Cursor → Bool
is_usable json c = is_some (json.marshal c) && not (c.id == 0) && not (c.at == 0)

module _ (json : Json) where
  unfoldable pub encode_cursor : Cursor → List ℕ
  unfolding encode
  encode_cursor c = encode (written (json.marshal c))

  unfoldable pub decode_cursor : List ℕ → Option Cursor
  unfolding decode
  decode_cursor text = read json (decode text)

  -- A cursor is read from its text as it was, through the symbols of base64, where JSON can hold it
  -- and its id and its time are not zero; otherwise its text is refused as invalid.
  pub decode_cursor-encode_cursor :
      (c : Cursor) → decode_cursor (encode_cursor c) ≡ (if is_usable json c then some c else none)
  unfolding decode_cursor encode_cursor
  decode_cursor-encode_cursor c = by_text (json.marshal c) refl
    where
      by_text :
          (o : Option (List ℕ))
          → json.marshal c ≡ o
          → read json (decode (encode (written o)))
            ≡ (if is_some o && not (c.id == 0) && not (c.at == 0) then some c else none)
      by_text none e = ap nonzero json.unmarshal_empty
      by_text (some raw) e =
          rw (decode-encode raw (json.marshal-AreBytes c raw e), json.unmarshal-marshal c raw e)
            (ground arith)
