-- ===== src/StreamAuth/Variant.antt =====
-- The quality that ChooseVariant of services/stream-auth/internal/domain picks.
use mathlib.Core.Path.{subst}
use icyre.Prelude.{
  ℕ, ◌≤◌, ◌<◌, ◌≡◌, ◌⊎◌, inl, inr, refl, sym, ap, ◌∙◌, Bool, true, false, Bool-cases, List, [], ◌∷◌,
  arith, leb, ◌==◌, ==_iff, ==_self, if◌then◌else◌, All, any,
}
use icyre.Prelude.Sort.{insert_by, sort_by, All-insert_by}
use icyre.Prelude.Pairwise.{Pairwise, All-imp, All-zip}
use icyre.Platform.Postgres.{Result, ok}
use icyre.StreamAuth.{Error, best_of, best_or_first, choose_variant}

-- Being one of the qualities, as a test
abbrev pub among : ℕ → List ℕ → Bool
among q qs = any (λ x. x == q) qs

-- The best available quality up to the one requested, or else the lowest of all: every other one is
-- no better within the request, or is beyond it while this one is within it or no higher.
pub record IsBest (requested q : ℕ) (available : List ℕ) : Type 0 where
  pub is_available : among q available ≡ true
  pub best :
      All
        (λ p. ((p ≤ q) × (q ≤ requested)) ⊎ ((requested < p) × ((q ≤ requested) ⊎ (q ≤ p))))
        available

among-insert_by : (p q : ℕ) (qs : List ℕ) → among p (insert_by leb q qs) ≡ among p (q ∷ qs)
unfolding insert_by
among-insert_by p q [] = refl
among-insert_by p q (x ∷ xs) = ground (arith, among-insert_by p q xs)

among-sort_by : (p : ℕ) (qs : List ℕ) → among p (sort_by leb qs) ≡ among p qs
unfolding sort_by
among-sort_by p [] = refl
among-sort_by p (q ∷ qs) = among-insert_by p q (sort_by leb qs) ∙ ground (arith, among-sort_by p qs)

abbrev Sorted : List ℕ → Type 0
Sorted qs = Pairwise (λ x y. x ≤ y) qs

insert_by-Sorted : (q : ℕ) (qs : List ℕ) → Sorted qs → Sorted (insert_by leb q qs)
unfolding insert_by
insert_by-Sorted q [] h = (tt, tt)
insert_by-Sorted q (x ∷ xs) h = elim (Bool-cases (leb q x)) [
  | inl e ↦ rw e ((ground arith, All-imp xs (λ y k. ground arith) h.0), h)
  | inr e ↦ rw e (All-insert_by leb (λ y. x ≤ y) q xs (ground arith) h.0, insert_by-Sorted q xs h.1)
]

sort_by-Sorted : (qs : List ℕ) → Sorted (sort_by leb qs)
unfolding sort_by
sort_by-Sorted [] = tt
sort_by-Sorted (q ∷ qs) = insert_by-Sorted q (sort_by leb qs) (sort_by-Sorted qs)

module _ (P : ℕ → Type 0) where
  insert_by-All : (q : ℕ) (qs : List ℕ) → All P (insert_by leb q qs) → P q × All P qs
  unfolding insert_by
  insert_by-All q [] h = h
  insert_by-All q (x ∷ xs) h = either (leb q x) (insert_by-All q xs) h
    where
      either :
          (b : Bool)
          → (All P (insert_by leb q xs) → P q × All P xs)
          → All P (if b then q ∷ x ∷ xs else x ∷ insert_by leb q xs)
          → P q × All P (x ∷ xs)
      either true ih k = k
      either false ih k = let (a, rest) = ih k.1 in (a, (k.0, rest))

  sort_by-All : (qs : List ℕ) → All P (sort_by leb qs) → All P qs
  unfolding sort_by
  sort_by-All [] h = tt
  sort_by-All (q ∷ qs) h =
      let (a, rest) = insert_by-All q (sort_by leb qs) h in (a, sort_by-All qs rest)

  among-All : (q : ℕ) (qs : List ℕ) → All P qs → among q qs ≡ true → P q
  among-All q [] h e = absurd (ground arith)
  among-All q (x ∷ xs) h e = elim (Bool-cases (x == q)) [
    | inl k ↦ subst P ((==_iff x q).0 k) h.0
    | inr k ↦ among-All q xs h.1 (ground arith)
  ]

-- What the loop ends with: nothing within the request, or the best of what is
abbrev Outcome : ℕ → ℕ → List ℕ → ℕ → Type 0
Outcome r b qs f =
    ((f ≡ b) × All (λ p. r < p) qs)
    ⊎ ((among f qs ≡ true) × (f ≤ r) × All (λ p. (p ≤ f) ⊎ (r < p)) qs)

ok_eq : (a b : ℕ) → ◌≡◌ {A = Result Error ℕ} (ok a) (ok b) → a ≡ b
ok_eq a b h = cc

best_of-Outcome : (r b : ℕ) (qs : List ℕ) → Sorted qs → Outcome r b qs (best_of r b qs)
unfolding best_of
best_of-Outcome r b [] h = inl (refl, tt)
best_of-Outcome r b (q ∷ qs) h = elim (Bool-cases (leb q r)) [
  | inl e ↦
      subst (λ c. Outcome r b (q ∷ qs) (best_of r (if c then q else b) qs)) (sym e)
        (within (best_of r q qs) (ground arith) (best_of-Outcome r q qs h.1))
  | inr e ↦
      subst (λ c. Outcome r b (q ∷ qs) (best_of r (if c then q else b) qs)) (sym e)
        (beyond (best_of r b qs) (ground arith) (best_of-Outcome r b qs h.1))
]
  where
    within : (f : ℕ) → q ≤ r → Outcome r q qs f → Outcome r b (q ∷ qs) f
    within f k (inl (same, above)) = inr (
      ground arith,
      omega (arith, same),
      (inl (omega (arith, same)), All-imp qs (λ p l. inr l) above),
    )
    within f k (inr (there, low, best)) =
        inr (ground arith, low, (inl (among-All (λ y. q ≤ y) f qs h.0 there), best))

    beyond : (f : ℕ) → r < q → Outcome r b qs f → Outcome r b (q ∷ qs) f
    beyond f k (inl (same, above)) = inl (same, (k, above))
    beyond f k (inr (there, low, best)) = inr (ground arith, low, (inr k, best))

-- Where there is a quality and none is 0, ChooseVariant picks the best available one up to the one
-- requested, or else the lowest one.
pub choose_variant-IsBest :
    (requested q : ℕ) (available : List ℕ)
    → All (λ p. 0 < p) available
    → choose_variant requested available ≡ ok q
    → IsBest requested q available
unfolding choose_variant
choose_variant-IsBest requested q available positive h =
    of_sorted (sort_by leb available) refl (sort_by-Sorted available) h
  where
    Rated : ℕ → ℕ → Type 0
    Rated n p = ((p ≤ n) × (n ≤ requested)) ⊎ ((requested < p) × ((n ≤ requested) ⊎ (n ≤ p)))

    not_zero : (n : ℕ) → 0 < n → (n == 0) ≡ false
    not_zero n k = ground arith

    rated : (n p : ℕ) → n ≤ requested → ((p ≤ n) ⊎ (requested < p)) → Rated n p
    rated n p low (inl k) = inl (k, low)
    rated n p low (inr k) = inr (k, inl low)

    picked :
        (x f : ℕ) (xs : List ℕ)
        → sort_by leb available ≡ x ∷ xs
        → Sorted (x ∷ xs)
        → Outcome requested 0 (x ∷ xs) f
        → IsBest requested (if f == 0 then x else f) available
    picked x f xs e s (inl (none_low, above)) = rw none_low (record {
      is_available = sym (among-sort_by x available) ∙ ap (among x) e ∙ (rw (==_self x) refl);
      best = sort_by-All (Rated x) available (
          subst (All (Rated x)) (sym e) (
            inr (above.0, inr (omega arith)),
            All-imp xs (λ p k. inr (k.0, inr k.1))
                (All-zip (λ p. requested < p) (λ p. x ≤ p) xs above.1 s.0),
          ));
    })
    picked x f xs e s (inr (there, low, best)) =
        let there' : among f available ≡ true =
          sym (among-sort_by f available) ∙ ap (among f) e ∙ there in
        let nonzero : (f == 0) ≡ false =
          not_zero f (among-All (λ p. 0 < p) f available positive there') in
        rw nonzero (record {
          is_available = there';
          best =
              sort_by-All (Rated f) available
                (subst (All (Rated f)) (sym e) (All-imp (x ∷ xs) (λ p k. rated f p low k) best));
        })

    of_sorted :
        (qs : List ℕ)
        → sort_by leb available ≡ qs
        → Sorted qs
        → best_or_first (best_of requested 0 qs) qs ≡ ok q
        → IsBest requested q available
    of_sorted [] e s k = absurd (ground arith)
    of_sorted (x ∷ xs) e s k =
        subst (λ z. IsBest requested z available) (ok_eq _ q k)
          (picked x (best_of requested 0 (x ∷ xs)) xs e s (best_of-Outcome requested 0 (x ∷ xs) s))
