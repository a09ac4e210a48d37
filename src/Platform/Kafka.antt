-- ===== src/Platform/Kafka.antt =====
-- libs/platform/kafka/consumer.go: a consumer that runs a handler for each record.
--
-- `S` is the state of the systems that the handler, the pauses and the client reach; `Client` names
-- what the code relies on of them: the handler's own code, the wait between attempts, which the end
-- of the context may cut short, and ProduceSync of the client (github.com/twmb/franz-go). The trace
-- lists the calls in order, with their outcome. A commit that fails is logged and no more, so its
-- outcome is not kept. Logs, metrics and trace headers are not modelled.
pub mod Consumer
pub mod Safety
pub mod Batch
pub mod Batches
pub mod Flushed
mod Tests
use icyre.Prelude.{ℕ, zero, suc, ◌+◌, Bool, true, false, List, [], ◌∷◌, ◌++◌, if◌then◌else◌}

-- The result of a handler: nil, an error that wraps ErrPermanent, or another one
pub data Outcome : Type 0 where
  handled permanent failed : Outcome

pub data Effect (R I : Type 0) : Type 0 where
  tried : R → Outcome → Effect R I
  dead_lettered : R → Bool → Effect R I
  flushed : List I → Bool → Effect R I
  committed : List R → Effect R I

pub record State (R I S : Type 0) : Type 0 where
  pub systems : S
  pub trace : List (Effect R I)

pub record Client (R I S : Type 0) : Type 0 where
  pub handler : R → S → Outcome × S
  -- true if the context ends before the pause does
  pub pause : ℕ → S → Bool × S
  pub produce_sync : R → S → Bool × S
  pub flush : List I → S → Bool × S

pub record Config : Type 0 where
  pub max_retries : ℕ
  pub dlq : Bool

-- How the code leaves the loop of attempts
pub data Verdict : Type 0 where
  done cancelled exhausted : Verdict

module _ {R I S : Type 0} where
  unfoldable pub note : Effect R I → S → State R I S → State R I S
  note e x s = record { systems = x; trace = s.trace ++ e ∷ [] }

  -- What follows the pause and the handler: a return, a break, or the next attempt
  abbrev pub next :
      Bool → Outcome → State R I S → State R I S → Verdict × State R I S → Verdict × State R I S
  next true o paused after rest = (cancelled, paused)
  next false handled paused after rest = (done, after)
  next false permanent paused after rest = (exhausted, after)
  next false failed paused after rest = rest

  -- What follows a record: the rest of the fetch, unless it stopped the consumer
  abbrev pub joined :
      R → Bool → State R I S → (List R × Bool) × State R I S → (List R × Bool) × State R I S
  joined r true s ((processed, go_on), s₂) = ((r ∷ processed, go_on), s₂)
  joined r false s rest = (([], false), s)

module _ {R I S : Type 0} (client : Client R I S) where
  unfoldable pub wait : ℕ → State R I S → Bool × State R I S
  wait zero s = (false, s)
  wait (suc n) s =
      let (ended, x) = client.pause (suc n) s.systems in (ended, record s { systems = x })

  unfoldable pub try_once : R → State R I S → Outcome × State R I S
  unfolding note
  try_once r s = let (o, x) = client.handler r s.systems in (o, note (tried r o) x s)

  -- The loop of process, with the attempts that are left and the number of the next one
  unfoldable pub attempts : R → ℕ → ℕ → State R I S → Verdict × State R I S
  unfolding wait try_once
  attempts r zero attempt s = (exhausted, s)
  attempts r (suc left) attempt s =
      let (ended, s₁) = wait attempt s in
      let (o, s₂) = try_once r s₁ in next ended o s₁ s₂ (attempts r left (attempt + 1) s₂)

  -- toDLQ returned nil.
  unfoldable pub to_dlq : R → State R I S → Bool × State R I S
  unfolding note
  to_dlq r s =
      let (sent, x) = client.produce_sync r s.systems in (sent, note (dead_lettered r sent) x s)

  unfoldable pub settle : Config → R → Verdict × State R I S → Bool × State R I S
  unfolding to_dlq
  settle cfg r (done, s) = (true, s)
  settle cfg r (cancelled, s) = (false, s)
  settle cfg r (exhausted, s) = if cfg.dlq then to_dlq r s else (false, s)

  -- process returned nil.
  unfoldable pub process : Config → R → State R I S → Bool × State R I S
  unfolding attempts settle
  process cfg r s = settle cfg r (attempts r (cfg.max_retries + 1) 0 s)

  -- EachRecord: the records processed, and whether none stopped the consumer
  unfoldable pub each_record : Config → List R → State R I S → (List R × Bool) × State R I S
  unfolding process
  each_record cfg [] s = (([], true), s)
  each_record cfg (r ∷ rs) s =
      let (fine, s₁) = process cfg r s in joined r fine s₁ (each_record cfg rs s₁)

  unfoldable pub commit : List R → State R I S → State R I S
  unfolding note
  commit [] s = s
  commit (r ∷ rs) s = note (committed (r ∷ rs)) s.systems s

  -- Run: the fetches up to the end of the context; false if it returned an error
  unfoldable pub run : Config → List (List R) → State R I S → Bool × State R I S
  unfolding each_record commit
  run cfg [] s = (true, s)
  run cfg (records ∷ rest) s =
      let ((processed, go_on), s₁) = each_record cfg records s in
      let s₂ = commit processed s₁ in
      let later = run cfg rest s₂ in if go_on then later else (false, s₂)
