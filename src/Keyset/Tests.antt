-- ===== src/Keyset/Tests.antt =====
-- A cursor written by a codec for small ids and times.
use icyre.Prelude.{
  ℕ, zero, suc, ◌==◌, if◌then◌else◌, ◌≡◌, refl, sym, ◌∙◌, ap, Option, none, some, List, [], ◌∷◌,
  arith,
}
use mathlib.Core.Path.{subst}
use icyre.Keyset.{Cursor}
use icyre.Keyset.Base64.{encode, decode, AreBytes}
use icyre.Keyset.Encoding.{
  Json, is_usable, encode_cursor, decode_cursor, decode_cursor-encode_cursor,
}

-- "Man" and "Ma" of RFC 4648
man : encode (77 ∷ 97 ∷ 110 ∷ []) ≡ 84 ∷ 87 ∷ 70 ∷ 117 ∷ []
unfolding encode
man = refl

ma : decode (84 ∷ 87 ∷ 69 ∷ []) ≡ some (77 ∷ 97 ∷ [])
unfolding decode
ma = refl

-- A codec that writes a time as that many ones, and an id as that many twos
abbrev written : ℕ → ℕ → List ℕ
written zero zero = []
written zero (suc i) = 2 ∷ written zero i
written (suc t) i = 1 ∷ written t i

abbrev tally : ℕ → List ℕ → ℕ
tally d [] = 0
tally d (b ∷ bs) = let rest = tally d bs in if b == d then suc rest else rest

written-AreBytes : (t i : ℕ) → AreBytes (written t i)
written-AreBytes zero zero = tt
written-AreBytes zero (suc i) = (omega arith, written-AreBytes zero i)
written-AreBytes (suc t) i = (omega arith, written-AreBytes t i)

tally-written : (t i : ℕ) → (tally 1 (written t i) ≡ t) × (tally 2 (written t i) ≡ i)
tally-written zero zero = (refl, refl)
tally-written zero (suc i) = ((tally-written zero i).0, ap suc (tally-written zero i).1)
tally-written (suc t) i = (ap suc (tally-written t i).0, (tally-written t i).1)

-- A cursor without a time has no text.
abbrev text_of : ℕ → ℕ → Option (List ℕ)
text_of zero i = none
text_of (suc t) i = some (written (suc t) i)

abbrev marshal : Cursor → Option (List ℕ)
marshal c = text_of c.at c.id

abbrev unmarshal : List ℕ → Option Cursor
unmarshal [] = none
unmarshal (b ∷ bs) = some (record { at = tally 1 (b ∷ bs); id = tally 2 (b ∷ bs) })

marshal_written :
    (t i : ℕ) (raw : List ℕ) → marshal (record { at = t; id = i }) ≡ some raw → raw ≡ written t i
marshal_written zero i raw h = absurd cc
marshal_written (suc t) i raw h = let same : written (suc t) i ≡ raw = cc in sym same

unmarshal_written :
    (t i : ℕ) (raw : List ℕ)
    → marshal (record { at = t; id = i }) ≡ some raw
    → unmarshal (written t i) ≡ some (record { at = t; id = i })
unmarshal_written zero i raw h = absurd cc
unmarshal_written (suc t) i raw h =
    let (at, id) = tally-written (suc t) i in λ j. some (record { at = at j; id = id j })

json : Json
json = record {
  marshal = marshal;
  unmarshal = unmarshal;
  marshal-AreBytes = λ c raw h.
      subst AreBytes (sym (marshal_written c.at c.id raw h)) (written-AreBytes c.at c.id);
  unmarshal-marshal =
      λ c raw h. ap unmarshal (marshal_written c.at c.id raw h) ∙ unmarshal_written c.at c.id raw h;
  unmarshal_empty = refl;
}

decode_cursor-encode_cursor_example :
    decode_cursor json (encode_cursor json (record { at = 2; id = 1 })) ≡ (
      if is_usable json (record { at = 2; id = 1 }) then some (record { at = 2; id = 1 }) else none)
decode_cursor-encode_cursor_example = decode_cursor-encode_cursor json (record { at = 2; id = 1 })
