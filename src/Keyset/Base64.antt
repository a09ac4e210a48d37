-- ===== src/Keyset/Base64.antt =====
-- base64.RawURLEncoding, in which services/library/internal/domain/library.go and
-- services/social/internal/domain/social.go write their cursors. A text is the list of its bytes.
use icyre.Prelude.{
  ℕ, ◌+◌, ◌-◌, ◌*◌, ◌/◌, ◌%◌, ◌<◌, ◌≡◌, refl, ap, false, ◌&&◌, ◌||◌, not, Option, none, some, List,
  [], ◌∷◌, ltb, leb, ◌==◌, if◌then◌else◌, arith, All, filter,
}

-- A-Z, a-z, 0-9, - and _
unfoldable pub symbol : ℕ → ℕ
symbol n =
    if ltb n 26
    then 65 + n
    else if ltb n 52
    then 71 + n
    else if ltb n 62
    then n - 4
    else if n == 62
    then 45
    else 95

unfoldable pub sextet : ℕ → Option ℕ
sextet c =
    if leb 65 c && leb c 90
    then some (c - 65)
    else if leb 97 c && leb c 122
    then some (c - 71)
    else if leb 48 c && leb c 57
    then some (c + 4)
    else if c == 45
    then some 62
    else if c == 95
    then some 63
    else none

-- Three bytes are four symbols; one or two bytes at the end are two or three.
unfoldable pub encode : List ℕ → List ℕ
unfolding symbol
encode [] = []
encode (a ∷ []) = symbol (a / 4) ∷ symbol (a % 4 * 16) ∷ []
encode (a ∷ b ∷ []) = symbol (a / 4) ∷ symbol (a % 4 * 16 + b / 16) ∷ symbol (b % 16 * 4) ∷ []
encode (a ∷ b ∷ c ∷ rest) =
    symbol (a / 4)
    ∷ symbol (a % 4 * 16 + b / 16)
    ∷ symbol (b % 16 * 4 + c / 64)
    ∷ symbol (c % 64)
    ∷ encode rest

abbrev prepend : Option ℕ → Option (List ℕ) → Option (List ℕ)
prepend none _ = none
prepend (some n) none = none
prepend (some n) (some ns) = some (n ∷ ns)

-- The values of the symbols, if all of them are symbols
unfoldable pub sextets : List ℕ → Option (List ℕ)
unfolding sextet
sextets [] = some []
sextets (c ∷ cs) = prepend (sextet c) (sextets cs)

abbrev with_bytes : ℕ → ℕ → ℕ → Option (List ℕ) → Option (List ℕ)
with_bytes a b c none = none
with_bytes a b c (some rest) = some (a ∷ b ∷ c ∷ rest)

unfoldable pub bytes : List ℕ → Option (List ℕ)
bytes [] = some []
bytes (p ∷ []) = none
bytes (p ∷ q ∷ []) = some ((p * 4 + q / 16) ∷ [])
bytes (p ∷ q ∷ r ∷ []) = some ((p * 4 + q / 16) ∷ (q % 16 * 16 + r / 4) ∷ [])
bytes (p ∷ q ∷ r ∷ s ∷ rest) =
    with_bytes (p * 4 + q / 16) (q % 16 * 16 + r / 4) (r % 4 * 64 + s) (bytes rest)

abbrev bytes? : Option (List ℕ) → Option (List ℕ)
bytes? none = none
bytes? (some ns) = bytes ns

-- DecodeString, which passes over line breaks
unfoldable pub decode : List ℕ → Option (List ℕ)
unfolding sextets bytes
decode text = bytes? (sextets (filter (λ c. not (c == 10 || c == 13)) text))

sextet-symbol : (n : ℕ) → n < 64 → sextet (symbol n) ≡ some n
unfolding sextet symbol
sextet-symbol n h = ground arith

symbol_kept : (n : ℕ) → (symbol n == 10 || symbol n == 13) ≡ false
unfolding symbol
symbol_kept n = ground arith

-- What the symbols of a text stand for
values : List ℕ → List ℕ
values [] = []
values (a ∷ []) = (a / 4) ∷ (a % 4 * 16) ∷ []
values (a ∷ b ∷ []) = (a / 4) ∷ (a % 4 * 16 + b / 16) ∷ (b % 16 * 4) ∷ []
values (a ∷ b ∷ c ∷ rest) =
    (a / 4) ∷ (a % 4 * 16 + b / 16) ∷ (b % 16 * 4 + c / 64) ∷ (c % 64) ∷ values rest

abbrev pub AreBytes : List ℕ → Type 0
AreBytes bs = All (λ b. b < 256) bs

sextets-encode : (bs : List ℕ) → AreBytes bs → sextets (encode bs) ≡ some (values bs)
unfolding sextets encode values
sextets-encode [] h = refl
sextets-encode (a ∷ []) h =
    rw (sextet-symbol (a / 4) (omega (arith, h.0)), sextet-symbol (a % 4 * 16) (omega arith)) refl
sextets-encode (a ∷ b ∷ []) h =
    rw
      (
        sextet-symbol (a / 4) (omega (arith, h.0)),
        sextet-symbol (a % 4 * 16 + b / 16) (omega (arith, h.1.0)),
        sextet-symbol (b % 16 * 4) (omega arith),
      )
      refl
sextets-encode (a ∷ b ∷ c ∷ rest) h =
    rw
      (
        sextet-symbol (a / 4) (omega (arith, h.0)),
        sextet-symbol (a % 4 * 16 + b / 16) (omega (arith, h.1.0)),
        sextet-symbol (b % 16 * 4 + c / 64) (omega (arith, h.1.1.0)),
        sextet-symbol (c % 64) (omega arith),
        sextets-encode rest h.1.1.1,
      )
      refl

pair_byte : (a b : ℕ) → a < 256 → b < 256 → a / 4 * 4 + (a % 4 * 16 + b / 16) / 16 ≡ a
pair_byte a b h k = omega arith

middle_byte :
    (a b c : ℕ)
    → b < 256
    → c < 256
    → (a % 4 * 16 + b / 16) % 16 * 16 + (b % 16 * 4 + c / 64) / 4 ≡ b
middle_byte a b c h k = omega arith

last_byte : (b c : ℕ) → c < 256 → (b % 16 * 4 + c / 64) % 4 * 64 + c % 64 ≡ c
last_byte b c h = omega arith

bytes-values : (bs : List ℕ) → AreBytes bs → bytes (values bs) ≡ some bs
unfolding bytes values
bytes-values [] h = refl
bytes-values (a ∷ []) h = ap (λ x. some (x ∷ [])) (omega arith)
bytes-values (a ∷ b ∷ []) h =
    rw (pair_byte a b h.0 h.1.0) (ap (λ x. some (a ∷ x ∷ [])) (omega (arith, h.1.0)))
bytes-values (a ∷ b ∷ c ∷ rest) h =
    rw
      (
        pair_byte a b h.0 h.1.0,
        middle_byte a b c h.1.0 h.1.1.0,
        last_byte b c h.1.1.0,
        bytes-values rest h.1.1.1,
      )
      refl

kept : (bs : List ℕ) → filter (λ c. not (c == 10 || c == 13)) (encode bs) ≡ encode bs
unfolding encode
kept [] = refl
kept (a ∷ []) = rw (symbol_kept (a / 4), symbol_kept (a % 4 * 16)) refl
kept (a ∷ b ∷ []) =
    rw (symbol_kept (a / 4), symbol_kept (a % 4 * 16 + b / 16), symbol_kept (b % 16 * 4)) refl
kept (a ∷ b ∷ c ∷ rest) =
    rw
      (
        symbol_kept (a / 4),
        symbol_kept (a % 4 * 16 + b / 16),
        symbol_kept (b % 16 * 4 + c / 64),
        symbol_kept (c % 64),
        kept rest,
      )
      refl

pub decode-encode : (bs : List ℕ) → AreBytes bs → decode (encode bs) ≡ some bs
unfolding decode
decode-encode bs h = rw (kept bs, sextets-encode bs h) (bytes-values bs h)
