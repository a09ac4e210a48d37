-- ===== src/Platform/Kafka/Consumer.antt =====
-- The traces of the consumer of libs/platform/kafka/consumer.go.
use mathlib.Core.Path.{subst}
use icyre.Prelude.{
  ℕ, zero, suc, ◌+◌, ◌≡◌, ◌⊎◌, inl, inr, refl, sym, ap, Bool, true, false, List, [], ◌∷◌, ◌++◌, All,
  Bool-cases,
}
use mathlib.Core.List.{append-nil, append_assoc}
use icyre.Platform.Kafka.{
  Outcome, handled, permanent, failed, Effect, tried, dead_lettered, flushed, committed, State,
  Client, Config, Verdict, done, cancelled, exhausted, note, next, joined, wait, try_once, attempts,
  to_dlq, settle, process, each_record,
}

module _ {E : Type 0} where
  -- Some effect has the property.
  abbrev pub Has : (E → Type 0) → List E → Type 0
  Has P [] = ⊥
  Has P (e ∷ es) = P e ⊎ Has P es

module _ {E : Type 0} (P : E → Type 0) where
  pub Has-last : (es : List E) (e : E) → P e → Has P (es ++ e ∷ [])
  Has-last [] e h = inl h
  Has-last (x ∷ es) e h = inr (Has-last es e h)

  pub Has-before : (es : List E) (e : E) → Has P es → Has P (es ++ e ∷ [])
  Has-before [] e h = absurd h
  Has-before (x ∷ es) e (inl h) = inl h
  Has-before (x ∷ es) e (inr h) = inr (Has-before es e h)

module _ {E : Type 0} (A : List E → E → Type 0) where
  -- What `A` allows after those before it, one effect after another
  abbrev pub Ordered : List E → List E → Type 0
  Ordered before [] = Unit
  Ordered before (e ∷ es) = A before e × Ordered (before ++ e ∷ []) es

  pub Ordered-last :
      (before es : List E) (e : E)
      → Ordered before es
      → A (before ++ es) e
      → Ordered before (es ++ e ∷ [])
  Ordered-last before [] e h k = (subst (λ l. A l e) (append-nil before) k, tt)
  Ordered-last before (x ∷ es) e h k = (
    h.0,
    Ordered-last (before ++ x ∷ []) es e h.1
        (subst (λ l. A l e) (sym (append_assoc before (x ∷ []) es)) k),
  )

module _ {R I : Type 0} where
  -- The effect that settles a record: its handler returned nil, or the dead-letter topic has it.
  abbrev pub Settles : R → Effect R I → Type 0
  Settles r (tried q handled) = q ≡ r
  Settles r (tried q permanent) = ⊥
  Settles r (tried q failed) = ⊥
  Settles r (dead_lettered q true) = q ≡ r
  Settles r (dead_lettered q false) = ⊥
  Settles r (flushed items fine) = ⊥
  Settles r (committed rs) = ⊥

  abbrev pub Settled : R → List (Effect R I) → Type 0
  Settled r es = Has (Settles r) es

  -- A commit names only records that were settled before it.
  abbrev pub Allowed : List (Effect R I) → Effect R I → Type 0
  Allowed before (tried r o) = Unit
  Allowed before (dead_lettered r sent) = Unit
  Allowed before (flushed items fine) = Unit
  Allowed before (committed rs) = All (λ r. Settled r before) rs

  abbrev pub IsSafe : List (Effect R I) → Type 0
  IsSafe trace = Ordered Allowed [] trace

  -- How often the handler was called
  abbrev pub tries : List (Effect R I) → ℕ
  tries [] = 0
  tries (tried r o ∷ es) = suc (tries es)
  tries (dead_lettered r sent ∷ es) = tries es
  tries (flushed items fine ∷ es) = tries es
  tries (committed rs ∷ es) = tries es

  pub tries-tried :
      (es : List (Effect R I)) (r : R) (o : Outcome) → tries (es ++ tried r o ∷ []) ≡ suc (tries es)
  tries-tried [] r o = refl
  tries-tried (tried q p ∷ es) r o = ap suc (tries-tried es r o)
  tries-tried (dead_lettered q sent ∷ es) r o = tries-tried es r o
  tries-tried (flushed items fine ∷ es) r o = tries-tried es r o
  tries-tried (committed rs ∷ es) r o = tries-tried es r o

  pub tries-dead :
      (es : List (Effect R I)) (r : R) (sent : Bool)
      → tries (es ++ dead_lettered r sent ∷ []) ≡ tries es
  tries-dead [] r sent = refl
  tries-dead (tried q p ∷ es) r sent = ap suc (tries-dead es r sent)
  tries-dead (dead_lettered q b ∷ es) r sent = tries-dead es r sent
  tries-dead (flushed items fine ∷ es) r sent = tries-dead es r sent
  tries-dead (committed rs ∷ es) r sent = tries-dead es r sent

module _ {R I S : Type 0} (client : Client R I S) where
  pub wait-trace : (n : ℕ) (s : State R I S) → (wait client n s).1.trace ≡ s.trace
  unfolding wait
  wait-trace zero s = refl
  wait-trace (suc n) s = refl

  pub try_once-trace :
      (r : R) (s : State R I S)
      → (try_once client r s).1.trace ≡ s.trace ++ tried r (try_once client r s).0 ∷ []
  unfolding try_once note
  try_once-trace r s = refl

  pub to_dlq-trace :
      (r : R) (s : State R I S)
      → (to_dlq client r s).1.trace ≡ s.trace ++ dead_lettered r (to_dlq client r s).0 ∷ []
  unfolding to_dlq note
  to_dlq-trace r s = refl

-- A property of traces that tries and dead letters keep
pub record Kept {R I : Type 0} (P : List (Effect R I) → Type 0) : Type 0 where
  pub after_tried : (es : List (Effect R I)) (r : R) (o : Outcome) → P es → P (es ++ tried r o ∷ [])
  pub after_dead :
      (es : List (Effect R I)) (r : R) (sent : Bool) → P es → P (es ++ dead_lettered r sent ∷ [])

module _ {R I S : Type 0} (client : Client R I S) (P : List (Effect R I) → Type 0)
    (kept : Kept P) where
  wait-P : (n : ℕ) (s : State R I S) → P s.trace → P (wait client n s).1.trace
  wait-P n s h = subst P (sym (wait-trace client n s)) h

  try_once-P : (r : R) (s : State R I S) → P s.trace → P (try_once client r s).1.trace
  try_once-P r s h = subst P (sym (try_once-trace client r s)) (kept.after_tried s.trace r _ h)

  to_dlq-P : (r : R) (s : State R I S) → P s.trace → P (to_dlq client r s).1.trace
  to_dlq-P r s h = subst P (sym (to_dlq-trace client r s)) (kept.after_dead s.trace r _ h)

  next-P :
      (b : Bool) (o : Outcome) (s₁ s₂ : State R I S) (rest : Verdict × State R I S)
      → P s₁.trace
      → P s₂.trace
      → P rest.1.trace
      → P (next b o s₁ s₂ rest).1.trace
  next-P true o s₁ s₂ rest h k l = h
  next-P false handled s₁ s₂ rest h k l = k
  next-P false permanent s₁ s₂ rest h k l = k
  next-P false failed s₁ s₂ rest h k l = l

  pub attempts-P :
      (r : R) (left attempt : ℕ) (s : State R I S)
      → P s.trace
      → P (attempts client r left attempt s).1.trace
  unfolding attempts
  attempts-P r zero attempt s h = h
  attempts-P r (suc left) attempt s h =
      let s₁ = (wait client attempt s).1 in
      let s₂ = (try_once client r s₁).1 in
      let h₁ : P s₁.trace = wait-P attempt s h in
      let h₂ : P s₂.trace = try_once-P r s₁ h₁ in
      next-P (wait client attempt s).0 (try_once client r s₁).0 s₁ s₂
        (attempts client r left (attempt + 1) s₂) h₁ h₂ (attempts-P r left (attempt + 1) s₂ h₂)

  settle-P :
      (cfg : Config) (r : R) (v : Verdict × State R I S)
      → P v.1.trace
      → P (settle client cfg r v).1.trace
  unfolding settle
  settle-P cfg r (done, s) h = h
  settle-P cfg r (cancelled, s) h = h
  settle-P cfg r (exhausted, s) h = elim (Bool-cases cfg.dlq) [
    | inl e ↦ rw e (to_dlq-P r s h)
    | inr e ↦ rw e h
  ]

  pub process-P :
      (cfg : Config) (r : R) (s : State R I S) → P s.trace → P (process client cfg r s).1.trace
  unfolding process
  process-P cfg r s h =
      settle-P cfg r (attempts client r (cfg.max_retries + 1) 0 s)
        (attempts-P r (cfg.max_retries + 1) 0 s h)

  joined-P :
      (r : R) (b : Bool) (s : State R I S) (rest : (List R × Bool) × State R I S)
      → P s.trace
      → P rest.1.trace
      → P (joined r b s rest).1.trace
  joined-P r true s rest h k = k
  joined-P r false s rest h k = h

  pub each_record-P :
      (cfg : Config) (rs : List R) (s : State R I S)
      → P s.trace
      → P (each_record client cfg rs s).1.trace
  unfolding each_record
  each_record-P cfg [] s h = h
  each_record-P cfg (r ∷ rs) s h =
      let s₁ = (process client cfg r s).1 in
      let h₁ : P s₁.trace = process-P cfg r s h in
      joined-P r (process client cfg r s).0 s₁ (each_record client cfg rs s₁) h₁
        (each_record-P cfg rs s₁ h₁)
