-- ===== src/Platform/Kafka/Flushed.antt =====
-- What the batch consumer of libs/platform/kafka/batch.go has done before it commits a batch.
use mathlib.Core.Path.{subst}
use icyre.Prelude.{
  ℕ, zero, suc, ◌+◌, ◌≡◌, refl, sym, Bool, true, false, List, [], ◌∷◌, ◌++◌, All, if◌then◌else◌,
}
use icyre.Prelude.Pairwise.{All-imp}
use icyre.Platform.Kafka.{
  Effect, dead_lettered, flushed, committed, State, Client, Config, note, wait, commit,
}
use icyre.Platform.Kafka.Consumer.{Has, Has-last, Has-before, Ordered-last, wait-trace}
use icyre.Platform.Kafka.Batch.{
  Decoded, item, skipped, undecodable, Sorted, sorted, stopped, sort_records, flush_once,
  after_flush, flushes, flush_sorted, handle, run,
}
use icyre.Platform.Kafka.Batches.{
  Among, IsDead, IsWritten, StoredAs, Stored, BatchAllowed, IsStored, SortedAs, AllSorted,
  sort_records-P, sort_records-Sorted,
}

module _ {R I S : Type 0} (client : Client R I S) where
  flush_once-trace :
      (items : List I) (s : State R I S)
      → (flush_once client items s).1.trace
        ≡ s.trace ++ flushed items (flush_once client items s).0 ∷ []
  unfolding flush_once note
  flush_once-trace items s = refl

  after_flush-Written :
      (P : List (Effect R I) → Type 0) (ended fine : Bool) (s₁ s₂ : State R I S)
      (rest : Bool × State R I S)
      → (fine ≡ true → P s₂.trace)
      → (rest.0 ≡ true → P rest.1.trace)
      → (after_flush ended fine s₁ s₂ rest).0 ≡ true
      → P (after_flush ended fine s₁ s₂ rest).1.trace
  after_flush-Written P true fine s₁ s₂ rest h k e = cc
  after_flush-Written P false true s₁ s₂ rest h k e = h refl
  after_flush-Written P false false s₁ s₂ rest h k e = k e

  flushes-Written :
      (i : I) (items : List I) (left attempt : ℕ) (s : State R I S)
      → Among i items
      → (flushes client items left attempt s).0 ≡ true
      → Has (IsWritten i) (flushes client items left attempt s).1.trace
  unfolding flushes
  flushes-Written i items zero attempt s a e = cc
  flushes-Written i items (suc left) attempt s a e =
      let s₁ = (wait client attempt s).1 in
      let s₂ = (flush_once client items s₁).1 in
      after_flush-Written (Has (IsWritten i)) (wait client attempt s).0
        (flush_once client items s₁).0 s₁ s₂ (flushes client items left (attempt + 1) s₂)
        (λ f. subst (Has (IsWritten i)) (sym (flush_once-trace items s₁)) (
          subst (λ b. Has (IsWritten i) (s₁.trace ++ flushed items b ∷ [])) (sym f)
            (Has-last (IsWritten i) s₁.trace (flushed items true) a)))
        (flushes-Written i items left (attempt + 1) s₂ a) e

  module _ (P : List (Effect R I) → Type 0)
      (kept : (es : List (Effect R I)) (items : List I) (b : Bool)
        → P es
        → P (es ++ flushed items b ∷ [])) where
    after_flush-P :
        (ended fine : Bool) (s₁ s₂ : State R I S) (rest : Bool × State R I S)
        → P s₁.trace
        → P s₂.trace
        → P rest.1.trace
        → P (after_flush ended fine s₁ s₂ rest).1.trace
    after_flush-P true fine s₁ s₂ rest h k l = h
    after_flush-P false true s₁ s₂ rest h k l = k
    after_flush-P false false s₁ s₂ rest h k l = l

    flushes-P :
        (items : List I) (left attempt : ℕ) (s : State R I S)
        → P s.trace
        → P (flushes client items left attempt s).1.trace
    unfolding flushes
    flushes-P items zero attempt s h = h
    flushes-P items (suc left) attempt s h =
        let s₁ = (wait client attempt s).1 in
        let s₂ = (flush_once client items s₁).1 in
        let h₁ : P s₁.trace = subst P (sym (wait-trace client attempt s)) h in
        let h₂ : P s₂.trace =
          subst P (sym (flush_once-trace items s₁)) (kept s₁.trace items _ h₁) in
        after_flush-P (wait client attempt s).0 (flush_once client items s₁).0 s₁ s₂
          (flushes client items left (attempt + 1) s₂) h₁ h₂
          (flushes-P items left (attempt + 1) s₂ h₂)

    flush_sorted-P :
        (cfg : Config) (v : Sorted R I × State R I S)
        → P v.1.trace
        → P (flush_sorted client cfg v).1.trace
    unfolding flush_sorted
    flush_sorted-P cfg (stopped, s) h = h
    flush_sorted-P cfg (sorted [], s) h = h
    flush_sorted-P cfg (sorted (i ∷ items), s) h = flushes-P (i ∷ items) (cfg.max_retries + 1) 0 s h

module _ {R I S : Type 0} (client : Client R I S) (decode : R → Decoded I) where
  stored :
      (r : R) (d : Decoded I) (i : I) (items : List I) (n : ℕ) (s : State R I S)
      → (flushes client (i ∷ items) n 0 s).0 ≡ true
      → SortedAs decode r d (i ∷ items) s.trace
      → StoredAs decode r d (flushes client (i ∷ items) n 0 s).1.trace
  stored r (item j) i items n s e h = flushes-Written client j (i ∷ items) n 0 s h e
  stored r skipped i items n s e h = tt
  stored r undecodable i items n s e h =
      flushes-P client (Has (IsDead r)) (λ es q b. Has-before (IsDead r) es (flushed q b))
        (i ∷ items) n 0 s h

  stored_empty :
      (r : R) (d : Decoded I) (es : List (Effect R I))
      → SortedAs decode r d [] es
      → StoredAs decode r d es
  stored_empty r (item j) es h = absurd h
  stored_empty r skipped es h = tt
  stored_empty r undecodable es h = h

  flush_sorted-Stored :
      (cfg : Config) (rs : List R) (v : Sorted R I × State R I S)
      → AllSorted decode rs (v.0, v.1.trace)
      → (flush_sorted client cfg v).0 ≡ true
      → All (λ r. Stored decode r (flush_sorted client cfg v).1.trace) rs
  unfolding flush_sorted AllSorted
  flush_sorted-Stored cfg rs (stopped, s) h e = cc
  flush_sorted-Stored cfg rs (sorted [], s) h e =
      All-imp rs (λ r. stored_empty r (decode r) s.trace) h
  flush_sorted-Stored cfg rs (sorted (i ∷ items), s) h e =
      All-imp rs (λ r. stored r (decode r) i items (cfg.max_retries + 1) s e) h

  handle-Stored :
      (cfg : Config) (rs : List R) (s : State R I S)
      → (handle client decode cfg rs s).0 ≡ true
      → All (λ r. Stored decode r (handle client decode cfg rs s).1.trace) rs
  unfolding handle
  handle-Stored cfg rs s e =
      flush_sorted-Stored cfg rs (sort_records client decode cfg rs s)
        (sort_records-Sorted client decode cfg rs s) e

  handle-IsStored :
      (cfg : Config) (rs : List R) (s : State R I S)
      → IsStored decode s.trace
      → IsStored decode (handle client decode cfg rs s).1.trace
  unfolding handle
  handle-IsStored cfg rs s h =
      flush_sorted-P client (IsStored decode)
        (λ es items b k. Ordered-last (BatchAllowed decode) [] es (flushed items b) k tt) cfg
        (sort_records client decode cfg rs s)
        (sort_records-P client decode (IsStored decode)
          (λ es r b k. Ordered-last (BatchAllowed decode) [] es (dead_lettered r b) k tt) cfg rs s
          h)

  -- Whatever the client and the sink do, every commit of the batch consumer names only records with
  -- which it is done: the item of the record was in a batch flushed with no error, the dead-letter
  -- topic took the undecodable record, or the decoder skipped it.
  pub batches-IsStored :
      (cfg : Config) (batches : List (List R)) (s : State R I S)
      → IsStored decode s.trace
      → IsStored decode (run client decode cfg batches s).1.trace
  unfolding run
  batches-IsStored cfg [] s h = h
  batches-IsStored cfg ([] ∷ rest) s h = batches-IsStored cfg rest s h
  batches-IsStored cfg ((r ∷ rs) ∷ rest) s h =
      let (fine, s₁) = handle client decode cfg (r ∷ rs) s in
      let safe : IsStored decode s₁.trace = handle-IsStored cfg (r ∷ rs) s h in
      either fine (run client decode cfg rest (commit client (r ∷ rs) s₁)) s₁
        (λ e. batches-IsStored cfg rest (commit client (r ∷ rs) s₁) (
          Ordered-last (BatchAllowed decode) [] s₁.trace (committed (r ∷ rs)) safe
            (handle-Stored cfg (r ∷ rs) s e)))
        safe
    where
      either :
          (b : Bool) (later : Bool × State R I S) (s₂ : State R I S)
          → (b ≡ true → IsStored decode later.1.trace)
          → IsStored decode s₂.trace
          → IsStored decode (if b then later else (false, s₂)).1.trace
      either true later s₂ h k = h refl
      either false later s₂ h k = k
