-- ===== src/Playlist/Title.antt =====
-- NormalizeTitle of services/playlist/internal/domain/playlist.go. A title is the list of its code
-- points, which utf8.RuneCountInString counts.
use icyre.Prelude.{
  ℕ, ◌≤◌, ◌<◌, ◌≡◌, refl, sym, ap, ◌∙◌, ◌↔◌, inl, inr, false, ◌||◌, Option, none, some, List, [],
  ◌∷◌, ◌++◌, arith, ltb, ◌==◌, if◌then◌else◌, Bool-cases, length, All,
}
use icyre.Prelude.Unicode.{is_space}

-- A word is put in front of the fields that follow it, if it is not empty.
abbrev cons_word : List ℕ → List (List ℕ) → List (List ℕ)
cons_word [] fields = fields
cons_word (c ∷ word) fields = (c ∷ word) ∷ fields

-- The word that begins the text, and the fields behind it.
split : List ℕ → List ℕ × List (List ℕ)
split [] = ([], [])
split (c ∷ cs) =
    let (word, fields) = split cs in
    if is_space c then ([], cons_word word fields) else (c ∷ word, fields)

-- strings.Fields
unfoldable pub fields : List ℕ → List (List ℕ)
unfolding split is_space
fields s = let (word, rest) = split s in cons_word word rest

-- strings.Join(words, " ")
unfoldable pub join : List (List ℕ) → List ℕ
join [] = []
join (w ∷ []) = w
join (w ∷ v ∷ ws) = w ++ 32 ∷ join (v ∷ ws)

abbrev pub max_title : ℕ
max_title = 100

unfoldable pub normalize_title : List ℕ → Option (List ℕ)
unfolding fields join
normalize_title s =
    let t = join (fields s) in if length t == 0 || ltb max_title (length t) then none else some t

-- A word has letters, and no spaces.
abbrev pub IsWord : List ℕ → Type 0
IsWord [] = ⊥
IsWord (c ∷ cs) = (is_space c ≡ false) × All (λ d. is_space d ≡ false) cs

cons_word-IsWord :
    (w : List ℕ) (ws : List (List ℕ))
    → All (λ d. is_space d ≡ false) w
    → All IsWord ws
    → All IsWord (cons_word w ws)
cons_word-IsWord [] ws h k = k
cons_word-IsWord (c ∷ w) ws h k = (h, k)

split_words : (s : List ℕ) → All (λ d. is_space d ≡ false) (split s).0 × All IsWord (split s).1
unfolding split
split_words [] = (tt, tt)
split_words (c ∷ cs) = elim (Bool-cases (is_space c)) [
  | inl e ↦
      rw e (tt, cons_word-IsWord (split cs).0 (split cs).1 (split_words cs).0 (split_words cs).1)
  | inr e ↦ rw e ((e, (split_words cs).0), (split_words cs).1)
]

-- Fields returns words.
fields-IsWord : (s : List ℕ) → All IsWord (fields s)
unfolding fields
fields-IsWord s = cons_word-IsWord (split s).0 (split s).1 (split_words s).0 (split_words s).1

split-word : (w : List ℕ) → All (λ d. is_space d ≡ false) w → split w ≡ (w, [])
unfolding split
split-word [] h = refl
split-word (c ∷ w) h = rw h.0 (rw (split-word w h.1))

split-word-space :
    (w rest : List ℕ) → All (λ d. is_space d ≡ false) w → split (w ++ 32 ∷ rest) ≡ (w, fields rest)
unfolding split fields is_space
split-word-space [] rest h = refl
split-word-space (c ∷ w) rest h = rw h.0 (rw (split-word-space w rest h.1))

IsWord-letters : (w : List ℕ) → IsWord w → All (λ d. is_space d ≡ false) w
IsWord-letters [] h = absurd h
IsWord-letters (c ∷ w) h = h

cons_word-word : (w : List ℕ) (ws : List (List ℕ)) → IsWord w → cons_word w ws ≡ w ∷ ws
cons_word-word [] ws h = absurd h
cons_word-word (c ∷ w) ws h = refl

-- Join and Fields: the words come back.
fields-join : (ws : List (List ℕ)) → All IsWord ws → fields (join ws) ≡ ws
unfolding fields join
fields-join [] h = unfold split in refl
fields-join (w ∷ []) h = rw (split-word w (IsWord-letters w h.0)) (cons_word-word w [] h.0)
fields-join (w ∷ v ∷ ws) h =
    rw (split-word-space w (join (v ∷ ws)) (IsWord-letters w h.0))
      (rw (fields-join (v ∷ ws) h.1) (cons_word-word w (v ∷ ws) h.0))

-- A title that the table accepts and that shows no stray space: one to a hundred code points, words
-- with one space between them.
pub record IsTitle (t : List ℕ) : Type 0 where
  pub words : List (List ℕ)
  pub all_words : All IsWord words
  pub joined : t ≡ join words
  pub not_empty : 0 < length t
  pub fits : length t ≤ max_title

-- An accepted title is well formed, and holds the words of the request.
pub normalize_title-IsTitle :
    (s t : List ℕ) → normalize_title s ≡ some t → IsTitle t × (fields t ≡ fields s)
unfolding normalize_title
normalize_title-IsTitle s t h =
    let e : t ≡ join (fields s) = ground arith in
    (
      record {
        words = fields s;
        all_words = fields-IsWord s;
        joined = e;
        not_empty = ground arith;
        fits = ground arith;
      },
      ap fields e ∙ fields-join (fields s) (fields-IsWord s),
    )

-- Normalising twice changes nothing, and a well-formed title is accepted as it is.
pub IsTitle-normalize_title : (t : List ℕ) → IsTitle t → normalize_title t ≡ some t
unfolding normalize_title
IsTitle-normalize_title t h =
    let e : join (fields t) ≡ t =
      ap (λ l. join (fields l)) h.joined
      ∙ ap join (fields-join h.words h.all_words)
      ∙ sym h.joined in
    rw e (ground (arith, h.not_empty, h.fits))

-- NormalizeTitle exactly: it accepts a request as `t` when `t` is a title of one to a hundred code
-- points, words with one space between them, that has the words of the request.
pub normalize_title_iff :
    (s t : List ℕ) → (normalize_title s ≡ some t) ↔ (IsTitle t × (fields t ≡ fields s))
normalize_title_iff s t = (normalize_title-IsTitle s t, λ h. accept h.0 h.1)
  where
    accept : IsTitle t → fields t ≡ fields s → normalize_title s ≡ some t
    accept h e =
        let same : normalize_title s ≡ normalize_title t = unfold normalize_title in rw e in
        same ∙ IsTitle-normalize_title t h
