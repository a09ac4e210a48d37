-- ===== src/Platform/Outbox/TableName.antt =====
-- tableName and checkTable of libs/platform/outbox/outbox.go
use Prim.Native.Char.{code}
use Prim.Native.String.{String}
use icyre.Prelude.{
  ℕ, ◌≡◌, refl, ap, ◌↔◌, inl, inr, Bool-cases, Bool, true, false, ◌&&◌, ◌||◌, List, [], ◌∷◌, ◌++◌,
  arith, leb, ◌==◌, if◌then◌else◌, All,
}

abbrev pub codes : String → List ℕ
codes String.[] = []
codes (String.◌∷◌ c s) = code c ∷ codes s

-- [a-z_]
abbrev pub is_first : ℕ → Bool
is_first c = leb b'a' c && leb c b'z' || c == b'_'

-- [a-z0-9_]
abbrev pub is_rest : ℕ → Bool
is_rest c = is_first c || leb b'0' c && leb c b'9'

-- The automaton of ^[a-z_][a-z0-9_]*\.[a-z_][a-z0-9_]*$
name_rest : List ℕ → Bool
name_rest [] = true
name_rest (c ∷ cs) = is_rest c && name_rest cs

name_start : List ℕ → Bool
unfolding name_rest
name_start [] = false
name_start (c ∷ cs) = is_first c && name_rest cs

schema_rest : List ℕ → Bool
unfolding name_start
schema_rest [] = false
schema_rest (c ∷ cs) =
    let rest = schema_rest cs in if c == b'.' then name_start cs else is_rest c && rest

unfoldable pub check_table : List ℕ → Bool
unfolding schema_rest
check_table [] = false
check_table (c ∷ cs) = is_first c && schema_rest cs

abbrev pub IsIdentifier : List ℕ → Type 0
IsIdentifier [] = ⊥
IsIdentifier (c ∷ cs) = (is_first c ≡ true) × All (λ d. is_rest d ≡ true) cs

-- What the expression describes, with no automaton: a schema, a dot and a name.
abbrev pub IsTable : List ℕ → Type 0
IsTable table =
    (schema : List ℕ) × (name : List ℕ) × IsIdentifier schema
    × IsIdentifier name
    × (table ≡ schema ++ b'.' ∷ name)

name_rest_sound : (cs : List ℕ) → name_rest cs ≡ true → All (λ d. is_rest d ≡ true) cs
unfolding name_rest
name_rest_sound [] h = tt
name_rest_sound (c ∷ cs) h = (ground arith, name_rest_sound cs (ground arith))

name_start_sound : (cs : List ℕ) → name_start cs ≡ true → IsIdentifier cs
unfolding name_start
name_start_sound [] h = cc
name_start_sound (c ∷ cs) h = (ground arith, name_rest_sound cs (ground arith))

schema_rest_sound :
    (cs : List ℕ)
    → schema_rest cs ≡ true
    → (schema : List ℕ) × (name : List ℕ) × All (λ d. is_rest d ≡ true) schema
      × IsIdentifier name
      × (cs ≡ schema ++ b'.' ∷ name)
unfolding schema_rest
schema_rest_sound [] h = cc
schema_rest_sound (c ∷ cs) h = elim (Bool-cases (c == b'.')) [
  | inl dot ↦ ([], cs, tt, name_start_sound cs (ground arith), ground arith)
  | inr more ↦
      let (schema, name, s, n, e) = schema_rest_sound cs (ground arith) in
      (c ∷ schema, name, (ground arith, s), n, ap (λ l. c ∷ l) e)
]

name_rest_complete : (cs : List ℕ) → All (λ d. is_rest d ≡ true) cs → name_rest cs ≡ true
unfolding name_rest
name_rest_complete [] h = refl
name_rest_complete (c ∷ cs) h = rw (h.0, name_rest_complete cs h.1)

name_start_complete : (cs : List ℕ) → IsIdentifier cs → name_start cs ≡ true
unfolding name_start
name_start_complete [] h = absurd h
name_start_complete (c ∷ cs) h = rw (h.0, name_rest_complete cs h.1)

schema_rest_complete :
    (schema name : List ℕ)
    → All (λ d. is_rest d ≡ true) schema
    → IsIdentifier name
    → schema_rest (schema ++ b'.' ∷ name) ≡ true
unfolding schema_rest
schema_rest_complete [] name s n = name_start_complete name n
schema_rest_complete (c ∷ cs) name s n = ground (arith, s.0, schema_rest_complete cs name s.1 n)

-- checkTable accepts exactly the texts of the form schema.name, both lower-case identifiers.
pub check_table-iff-IsTable : (table : List ℕ) → (check_table table ≡ true) ↔ IsTable table
unfolding check_table
check_table-iff-IsTable table = (sound table, λ t. complete t.0 t.1 t.2 t.3 table t.4)
  where
    sound : (cs : List ℕ) → check_table cs ≡ true → IsTable cs
    sound [] h = cc
    sound (c ∷ cs) h =
        let (schema, name, s, n, e) = schema_rest_sound cs (ground arith) in
        (c ∷ schema, name, (ground arith, s), n, ap (λ l. c ∷ l) e)

    complete :
        (schema name : List ℕ)
        → IsIdentifier schema
        → IsIdentifier name
        → (cs : List ℕ) → cs ≡ schema ++ b'.' ∷ name
        → check_table cs ≡ true
    complete [] name s n cs e = absurd s
    complete (c ∷ rest) name s n cs e = rw e (rw (s.0, schema_rest_complete rest name s.1 n))
