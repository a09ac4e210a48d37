-- ===== src/Platform/Kafka/Batches.antt =====
-- What the batch consumer of libs/platform/kafka/batch.go has settled when it flushes a batch.
use mathlib.Core.Path.{subst}
use icyre.Prelude.{
  ℕ, ◌-◌, ◌≤◌, ◌≡◌, inl, inr, refl, sym, Bool, true, false, List, [], ◌∷◌, ◌++◌, arith, All,
  Bool-cases, length, length-append, ltb,
}
use icyre.Prelude.Pairwise.{All-imp}
use icyre.Platform.Kafka.{
  Effect, tried, dead_lettered, flushed, committed, State, Client, Config, to_dlq,
}
use icyre.Platform.Kafka.Consumer.{Has, Has-last, Has-before, Ordered, to_dlq-trace}
use icyre.Platform.Kafka.Batch.{
  Decoded, item, skipped, undecodable, Sorted, sorted, stopped, gather, collect, sort_as,
  sort_records,
}

module _ {R : Type 0} where
  gather-length :
      (max : ℕ) (recs : List R) (polls : List (ℕ → List R))
      → All (λ poll. (n : ℕ) → length (poll n) ≤ n) polls
      → length recs ≤ max
      → length (gather max recs polls) ≤ max
  unfolding gather
  gather-length max recs [] h k = k
  gather-length max recs (poll ∷ polls) h k = elim (Bool-cases (ltb (length recs) max)) [
    | inr e ↦ rw e k
    | inl e ↦
        let longer : length (recs ++ poll (max - length recs)) ≤ max =
          omega (arith, length-append recs (poll (max - length recs)), h.0 (max - length recs)) in
        rw e (gather-length max (recs ++ poll (max - length recs)) polls h.1 longer)
  ]

  -- Where no poll returns more records than it is asked for, a batch has at most the configured number
  -- of records.
  pub collect-length :
      (max : ℕ) (first : ℕ → List R) (polls : List (ℕ → List R))
      → ((n : ℕ) → length (first n) ≤ n)
      → All (λ poll. (n : ℕ) → length (poll n) ≤ n) polls
      → length (collect max first polls) ≤ max
  unfolding collect
  collect-length max first polls h k = by_first (first max) (h max)
    where
      by_first :
          (recs : List R)
          → length recs ≤ max
          → length {A = R} (elim recs [ [] ↦ [] | r ∷ rs ↦ gather max (r ∷ rs) polls ]) ≤ max
      by_first [] e = omega arith
      by_first (r ∷ rs) e = gather-length max (r ∷ rs) polls k e

abbrev pub Among : {A : Type 0} → A → List A → Type 0
Among a xs = Has (λ x. x ≡ a) xs

module _ {R I : Type 0} where
  -- The dead-letter topic took the record.
  abbrev pub IsDead : R → Effect R I → Type 0
  IsDead r (dead_lettered q true) = q ≡ r
  IsDead r (dead_lettered q false) = ⊥
  IsDead r (tried q o) = ⊥
  IsDead r (flushed items fine) = ⊥
  IsDead r (committed rs) = ⊥

  -- A flush of a batch with the item succeeded.
  abbrev pub IsWritten : I → Effect R I → Type 0
  IsWritten i (flushed items true) = Among i items
  IsWritten i (flushed items false) = ⊥
  IsWritten i (tried q o) = ⊥
  IsWritten i (dead_lettered q sent) = ⊥
  IsWritten i (committed rs) = ⊥

module _ {R I : Type 0} (decode : R → Decoded I) where
  -- A record of which nothing is left to do
  abbrev pub StoredAs : R → Decoded I → List (Effect R I) → Type 0
  StoredAs r (item i) es = Has (IsWritten i) es
  StoredAs r skipped es = Unit
  StoredAs r undecodable es = Has (IsDead r) es

  abbrev pub Stored : R → List (Effect R I) → Type 0
  Stored r es = StoredAs r (decode r) es

  abbrev pub BatchAllowed : List (Effect R I) → Effect R I → Type 0
  BatchAllowed before (committed rs) = All (λ r. Stored r before) rs
  BatchAllowed before (tried r o) = Unit
  BatchAllowed before (dead_lettered r sent) = Unit
  BatchAllowed before (flushed items fine) = Unit

  abbrev pub IsStored : List (Effect R I) → Type 0
  IsStored trace = Ordered BatchAllowed [] trace

  -- What the loop over the records has settled
  abbrev pub SortedAs : R → Decoded I → List I → List (Effect R I) → Type 0
  SortedAs r (item i) items es = Among i items
  SortedAs r skipped items es = Unit
  SortedAs r undecodable items es = Has (IsDead r) es

  more_items :
      (r : R) (d : Decoded I) (i : I) (items : List I) (es : List (Effect R I))
      → SortedAs r d items es
      → SortedAs r d (i ∷ items) es
  more_items r (item j) i items es h = inr h
  more_items r skipped i items es h = h
  more_items r undecodable i items es h = h

  unfoldable pub AllSorted : List R → Sorted R I × List (Effect R I) → Type 0
  AllSorted rs (sorted items, es) = All (λ r. SortedAs r (decode r) items es) rs
  AllSorted rs (stopped, es) = Unit

module _ {R I S : Type 0} (client : Client R I S) (decode : R → Decoded I) where
  abbrev pub seen : Sorted R I × State R I S → Sorted R I × List (Effect R I)
  seen v = (v.0, v.1.trace)

  module _ (P : List (Effect R I) → Type 0)
      (kept : (es : List (Effect R I)) (r : R) (b : Bool)
        → P es
        → P (es ++ dead_lettered r b ∷ [])) where
    sort_as-P :
        (d : Decoded I) (dlq : Bool) (s : State R I S) (here : Sorted R I × State R I S)
        (dead : Bool × State R I S) (beyond : Sorted R I × State R I S)
        → P s.trace
        → P here.1.trace
        → P dead.1.trace
        → P beyond.1.trace
        → P (sort_as d dlq s here dead beyond).1.trace
    sort_as-P (item i) dlq s here dead beyond h k l m = k
    sort_as-P skipped dlq s here dead beyond h k l m = k
    sort_as-P undecodable false s here dead beyond h k l m = h
    sort_as-P undecodable true s here (true, s₁) beyond h k l m = m
    sort_as-P undecodable true s here (false, s₁) beyond h k l m = l

    pub sort_records-P :
        (cfg : Config) (rs : List R) (s : State R I S)
        → P s.trace
        → P (sort_records client decode cfg rs s).1.trace
    unfolding sort_records
    sort_records-P cfg [] s h = h
    sort_records-P cfg (r ∷ rs) s h =
        let s₁ = (to_dlq client r s).1 in
        let h₁ : P s₁.trace = subst P (sym (to_dlq-trace client r s)) (kept s.trace r _ h) in
        sort_as-P (decode r) cfg.dlq s (sort_records client decode cfg rs s) (to_dlq client r s)
          (sort_records client decode cfg rs s₁) h (sort_records-P cfg rs s h) h₁
          (sort_records-P cfg rs s₁ h₁)

  sort_as-Sorted :
      (r : R) (rs : List R) (d : Decoded I) (dlq : Bool) (s : State R I S)
      (here : Sorted R I × State R I S) (dead : Bool × State R I S)
      (beyond : Sorted R I × State R I S)
      → decode r ≡ d
      → AllSorted decode rs (seen here)
      → AllSorted decode rs (seen beyond)
      → (dead.0 ≡ true → Has (IsDead r) beyond.1.trace)
      → AllSorted decode (r ∷ rs) (seen (sort_as d dlq s here dead beyond))
  unfolding AllSorted
  sort_as-Sorted r rs (item i) dlq s (sorted items, s') dead beyond e h k l = (
    subst (λ d. SortedAs decode r d (i ∷ items) s'.trace) (sym e) (inl refl),
    All-imp rs (λ q. more_items decode q (decode q) i items s'.trace) h,
  )
  sort_as-Sorted r rs (item i) dlq s (stopped, s') dead beyond e h k l = tt
  sort_as-Sorted r rs skipped dlq s (sorted items, s') dead beyond e h k l =
      (subst (λ d. SortedAs decode r d items s'.trace) (sym e) tt, h)
  sort_as-Sorted r rs skipped dlq s (stopped, s') dead beyond e h k l = tt
  sort_as-Sorted r rs undecodable false s here dead beyond e h k l = tt
  sort_as-Sorted r rs undecodable true s here (false, s₁) beyond e h k l = tt
  sort_as-Sorted r rs undecodable true s here (true, s₁) (sorted items, s') e h k l =
      (subst (λ d. SortedAs decode r d items s'.trace) (sym e) (l refl), k)
  sort_as-Sorted r rs undecodable true s here (true, s₁) (stopped, s') e h k l = tt

  pub sort_records-Sorted :
      (cfg : Config) (rs : List R) (s : State R I S)
      → AllSorted decode rs (seen (sort_records client decode cfg rs s))
  unfolding sort_records AllSorted
  sort_records-Sorted cfg [] s = tt
  sort_records-Sorted cfg (r ∷ rs) s =
      let s₁ = (to_dlq client r s).1 in
      sort_as-Sorted r rs (decode r) cfg.dlq s (sort_records client decode cfg rs s)
        (to_dlq client r s) (sort_records client decode cfg rs s₁) refl
        (sort_records-Sorted cfg rs s) (sort_records-Sorted cfg rs s₁)
        (λ e.
          sort_records-P (Has (IsDead r)) (λ es q b. Has-before (IsDead r) es (dead_lettered q b))
            cfg rs s₁
            (subst (Has (IsDead r)) (sym (to_dlq-trace client r s)) (
              subst (λ b. Has (IsDead r) (s.trace ++ dead_lettered r b ∷ [])) (sym e)
                (Has-last (IsDead r) s.trace (dead_lettered r true) refl))))
