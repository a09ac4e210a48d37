-- ===== src/Platform/Kafka/Safety.antt =====
-- What the consumer of libs/platform/kafka/consumer.go has done before it commits, and how often it
-- calls its handler.
use mathlib.Core.Path.{subst}
use icyre.Prelude.{
  ℕ, zero, suc, ◌+◌, ◌≤◌, ◌≡◌, ◌↔◌, inl, inr, refl, sym, ap, ◌∙◌, Bool, true, false, List, [], ◌∷◌,
  ◌++◌, arith, All, Bool-cases, if◌then◌else◌,
}
use icyre.Platform.Kafka.{
  Outcome, handled, permanent, failed, tried, dead_lettered, committed, State, Client, Config,
  Verdict, done, cancelled, exhausted, note, next, joined, wait, try_once, attempts, to_dlq, settle,
  process, each_record, commit, run,
}
use icyre.Platform.Kafka.Consumer.{
  Settled, Allowed, IsSafe, Settles, Has-last, Has-before, Ordered-last, tries, tries-tried,
  tries-dead, wait-trace, try_once-trace, to_dlq-trace, Kept, each_record-P,
}

module _ {R I : Type 0} where
  pub IsSafe-Kept : Kept {R = R} {I = I} IsSafe
  IsSafe-Kept = record {
    after_tried = λ es r o h. Ordered-last Allowed [] es (tried r o) h tt;
    after_dead = λ es r sent h. Ordered-last Allowed [] es (dead_lettered r sent) h tt;
  }

  pub Settled-Kept : (q : R) → Kept {R = R} {I = I} (Settled q)
  Settled-Kept q = record {
    after_tried = λ es r o h. Has-before (Settles q) es (tried r o) h;
    after_dead = λ es r sent h. Has-before (Settles q) es (dead_lettered r sent) h;
  }

cons_nil : {A : Type 0} (x : A) (xs : List A) → x ∷ xs ≡ [] → ⊥
cons_nil x xs e = cc

module _ {R I S : Type 0} (client : Client R I S) where
  next-Settled :
      (r : R) (b : Bool) (o : Outcome) (s₁ s₂ : State R I S) (rest : Verdict × State R I S)
      → (o ≡ handled → Settled r s₂.trace)
      → (rest.0 ≡ done → Settled r rest.1.trace)
      → (next b o s₁ s₂ rest).0 ≡ done
      → Settled r (next b o s₁ s₂ rest).1.trace
  next-Settled r true o s₁ s₂ rest h k e = cc
  next-Settled r false handled s₁ s₂ rest h k e = h refl
  next-Settled r false permanent s₁ s₂ rest h k e = cc
  next-Settled r false failed s₁ s₂ rest h k e = k e

  attempts-Settled :
      (r : R) (left attempt : ℕ) (s : State R I S)
      → (attempts client r left attempt s).0 ≡ done
      → Settled r (attempts client r left attempt s).1.trace
  unfolding attempts
  attempts-Settled r zero attempt s e = cc
  attempts-Settled r (suc left) attempt s e =
      let s₁ = (wait client attempt s).1 in
      let s₂ = (try_once client r s₁).1 in
      let settled : (try_once client r s₁).0 ≡ handled → Settled r s₂.trace = λ h.
        subst (Settled r) (sym (try_once-trace client r s₁)) (
          subst (λ o. Settled r (s₁.trace ++ tried r o ∷ [])) (sym h)
            (Has-last (Settles r) s₁.trace (tried r handled) refl)) in
      next-Settled r (wait client attempt s).0 (try_once client r s₁).0 s₁ s₂
        (attempts client r left (attempt + 1) s₂) settled (attempts-Settled r left (attempt + 1) s₂)
        e

  to_dlq-Settled :
      (r : R) (s : State R I S)
      → (to_dlq client r s).0 ≡ true
      → Settled r (to_dlq client r s).1.trace
  to_dlq-Settled r s e = subst (Settled r) (sym (to_dlq-trace client r s)) (
      subst (λ b. Settled r (s.trace ++ dead_lettered r b ∷ [])) (sym e)
        (Has-last (Settles r) s.trace (dead_lettered r true) refl))

  letter-Settled :
      (r : R) (b : Bool) (s : State R I S)
      → (if b then to_dlq client r s else (false, s)).0 ≡ true
      → Settled r (if b then to_dlq client r s else (false, s)).1.trace
  letter-Settled r true s e = to_dlq-Settled r s e
  letter-Settled r false s e = cc

  settle-Settled :
      (cfg : Config) (r : R) (v : Verdict × State R I S)
      → (v.0 ≡ done → Settled r v.1.trace)
      → (settle client cfg r v).0 ≡ true
      → Settled r (settle client cfg r v).1.trace
  unfolding settle
  settle-Settled cfg r (done, s) h e = h refl
  settle-Settled cfg r (cancelled, s) h e = cc
  settle-Settled cfg r (exhausted, s) h e = letter-Settled r cfg.dlq s e

  process-Settled :
      (cfg : Config) (r : R) (s : State R I S)
      → (process client cfg r s).0 ≡ true
      → Settled r (process client cfg r s).1.trace
  unfolding process
  process-Settled cfg r s e =
      settle-Settled cfg r (attempts client r (cfg.max_retries + 1) 0 s)
        (attempts-Settled r (cfg.max_retries + 1) 0 s) e

  joined-Settled :
      (r : R) (b : Bool) (s : State R I S) (rest : (List R × Bool) × State R I S)
      → (b ≡ true → Settled r rest.1.trace)
      → All (λ q. Settled q rest.1.trace) rest.0.0
      → All (λ q. Settled q (joined r b s rest).1.trace) (joined r b s rest).0.0
  joined-Settled r true s rest h k = (h refl, k)
  joined-Settled r false s rest h k = tt

  each_record-Settled :
      (cfg : Config) (rs : List R) (s : State R I S)
      → All (λ r. Settled r (each_record client cfg rs s).1.trace) (each_record client cfg rs s).0.0
  unfolding each_record
  each_record-Settled cfg [] s = tt
  each_record-Settled cfg (r ∷ rs) s =
      let s₁ = (process client cfg r s).1 in
      joined-Settled r (process client cfg r s).0 s₁ (each_record client cfg rs s₁)
        (λ e.
          each_record-P client (Settled r) (Settled-Kept r) cfg rs s₁ (process-Settled cfg r s e))
        (each_record-Settled cfg rs s₁)

  commit-Safe :
      (rs : List R) (s : State R I S)
      → All (λ r. Settled r s.trace) rs
      → IsSafe s.trace
      → IsSafe (commit client rs s).trace
  unfolding commit note
  commit-Safe [] s k h = h
  commit-Safe (r ∷ rs) s k h = Ordered-last Allowed [] s.trace (committed (r ∷ rs)) h k

  -- Whatever the handler, the pauses and the client do, every commit names only records that were
  -- settled before it: the handler returned nil for the record, or the dead-letter topic took it.
  pub run-Safe :
      (cfg : Config) (fetches : List (List R)) (s : State R I S)
      → IsSafe s.trace
      → IsSafe (run client cfg fetches s).1.trace
  unfolding run
  run-Safe cfg [] s h = h
  run-Safe cfg (records ∷ rest) s h =
      let each = each_record client cfg records s in
      let s₂ = commit client each.0.0 each.1 in
      let safe : IsSafe s₂.trace =
        commit-Safe each.0.0 each.1 (each_record-Settled cfg records s)
          (each_record-P client IsSafe IsSafe-Kept cfg records s h) in
      either each.0.1 (run client cfg rest s₂) s₂ (run-Safe cfg rest s₂ safe) safe
    where
      either :
          (b : Bool) (later : Bool × State R I S) (s₂ : State R I S)
          → IsSafe later.1.trace
          → IsSafe s₂.trace
          → IsSafe (if b then later else (false, s₂)).1.trace
      either true later s₂ h k = h
      either false later s₂ h k = k

  next-tries :
      (b : Bool) (o : Outcome) (s₁ s₂ : State R I S) (rest : Verdict × State R I S) (n : ℕ)
      → tries s₁.trace ≤ n
      → tries s₂.trace ≤ n
      → tries rest.1.trace ≤ n
      → tries (next b o s₁ s₂ rest).1.trace ≤ n
  next-tries true o s₁ s₂ rest n h k l = h
  next-tries false handled s₁ s₂ rest n h k l = k
  next-tries false permanent s₁ s₂ rest n h k l = k
  next-tries false failed s₁ s₂ rest n h k l = l

  attempts-tries :
      (r : R) (left attempt : ℕ) (s : State R I S)
      → tries (attempts client r left attempt s).1.trace ≤ tries s.trace + left
  unfolding attempts
  attempts-tries r zero attempt s = omega arith
  attempts-tries r (suc left) attempt s =
      let s₁ = (wait client attempt s).1 in
      let s₂ = (try_once client r s₁).1 in
      let h₁ : tries s₁.trace ≡ tries s.trace = ap tries (wait-trace client attempt s) in
      let h₂ : tries s₂.trace ≡ suc (tries s₁.trace) =
        ap tries (try_once-trace client r s₁) ∙ tries-tried s₁.trace r _ in
      next-tries (wait client attempt s).0 (try_once client r s₁).0 s₁ s₂
        (attempts client r left (attempt + 1) s₂) (tries s.trace + suc left) (omega arith)
        (omega arith) (omega (arith, attempts-tries r left (attempt + 1) s₂))

  settle-tries :
      (cfg : Config) (r : R) (v : Verdict × State R I S)
      → tries (settle client cfg r v).1.trace ≡ tries v.1.trace
  unfolding settle
  settle-tries cfg r (done, s) = refl
  settle-tries cfg r (cancelled, s) = refl
  settle-tries cfg r (exhausted, s) = elim (Bool-cases cfg.dlq) [
    | inl e ↦ rw e (ap tries (to_dlq-trace client r s) ∙ tries-dead s.trace r _)
    | inr e ↦ rw e refl
  ]

  -- The handler is called for a record at most once more than the configured number of retries.
  pub process-tries :
      (cfg : Config) (r : R) (s : State R I S)
      → tries (process client cfg r s).1.trace ≤ tries s.trace + (cfg.max_retries + 1)
  unfolding process
  process-tries cfg r s = omega (
    arith,
    settle-tries cfg r (attempts client r (cfg.max_retries + 1) 0 s),
    attempts-tries r (cfg.max_retries + 1) 0 s,
  )

  joined-Prefix :
      (r : R) (rs : List R) (b : Bool) (s : State R I S) (rest : (List R × Bool) × State R I S)
      → ((left : List R) × (rs ≡ rest.0.0 ++ left) × ((rest.0.1 ≡ true) ↔ (left ≡ [])))
      → (left : List R) × (r ∷ rs ≡ (joined r b s rest).0.0 ++ left)
        × (((joined r b s rest).0.1 ≡ true) ↔ (left ≡ []))
  joined-Prefix r rs true s rest (left, e, k) = (left, ap (λ l. r ∷ l) e, k)
  joined-Prefix r rs false s rest h =
      (r ∷ rs, refl, ((λ e. absurd (ground arith)), (λ e. absurd (cons_nil r rs e))))

  -- The records that a fetch commits are its first ones, and all of them exactly where none stopped
  -- the consumer.
  pub each_record-Prefix :
      (cfg : Config) (records : List R) (s : State R I S)
      → let each = each_record client cfg records s in
        (left : List R) × (records ≡ each.0.0 ++ left) × ((each.0.1 ≡ true) ↔ (left ≡ []))
  unfolding each_record
  each_record-Prefix cfg [] s = ([], refl, ((λ e. refl), (λ e. refl)))
  each_record-Prefix cfg (r ∷ rs) s =
      let s₁ = (process client cfg r s).1 in
      joined-Prefix r rs (process client cfg r s).0 s₁ (each_record client cfg rs s₁)
        (each_record-Prefix cfg rs s₁)
