-- ===== src/Prelude/Unicode.antt =====
-- Texts as lists of code points: the functions of Go's unicode, strings and utf8 packages that the
-- services call.
use Prim.Native.Nat.{ℕ, ◌+◌}
use mathlib.Core.Path.{◌≡◌, refl}
use mathlib.Core.Logic.{◌↔◌}
use native.Mathlib.Omega.{arith}
use mathlib.Core.Bool.{Bool, true, false, ◌&&◌, ◌||◌}
use mathlib.Core.List.{List, [], ◌∷◌}
use icyre.Prelude.Tests.{leb, ltb, ◌==◌, if◌then◌else◌}

-- unicode.IsSpace
unfoldable pub is_space : ℕ → Bool
is_space c =
    leb 9 c && leb c 13
    || c == 32
    || c == 0x85
    || c == 0xa0
    || c == 0x1680
    || leb 0x2000 c && leb c 0x200a
    || c == 0x2028
    || c == 0x2029
    || c == 0x202f
    || c == 0x205f
    || c == 0x3000

abbrev trim_left : List ℕ → List ℕ
trim_left [] = []
trim_left (c ∷ cs) = if is_space c then trim_left cs else c ∷ cs

-- A text without the spaces at its end.
trim_right : List ℕ → List ℕ
trim_right [] = []
trim_right (c ∷ cs) = keep c (trim_right cs)
  where
    keep : ℕ → List ℕ → List ℕ
    keep c [] = if is_space c then [] else c ∷ []
    keep c (d ∷ ds) = c ∷ d ∷ ds

-- strings.TrimSpace
unfoldable pub trim_space : List ℕ → List ℕ
unfolding trim_right
trim_space s = trim_right (trim_left s)

-- The bytes of a text in UTF-8, which len counts.
unfoldable pub utf8_size : List ℕ → ℕ
utf8_size [] = 0
utf8_size (c ∷ cs) =
    (if ltb c 0x80 then 1 else if ltb c 0x800 then 2 else if ltb c 0x10000 then 3 else 4)
    + utf8_size cs

unfoldable pub texts_equal : List ℕ → List ℕ → Bool
texts_equal [] [] = true
texts_equal (x ∷ xs) (y ∷ ys) = let rest = texts_equal xs ys in if x == y then rest else false
texts_equal _ _ = false

pub texts_equal_iff : (s t : List ℕ) → (texts_equal s t ≡ true) ↔ (s ≡ t)
unfolding texts_equal
texts_equal_iff [] [] = (λ e. refl, λ e. refl)
texts_equal_iff [] (y ∷ t) = (λ e. absurd cc, λ e. absurd cc)
texts_equal_iff (x ∷ s) [] = (λ e. absurd cc, λ e. absurd cc)
texts_equal_iff (x ∷ s) (y ∷ t) =
    (λ e. ground (arith, (texts_equal_iff s t).0), λ e. ground (arith, (texts_equal_iff s t).1))
