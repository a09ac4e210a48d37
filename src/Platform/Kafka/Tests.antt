-- ===== src/Platform/Kafka/Tests.antt =====
-- A consumer whose handler never gets past the record 13, and a batch consumer that cannot decode it.
use icyre.Prelude.{
  ℕ, ◌+◌, ◌≤◌, ◌≡◌, ◌↔◌, true, false, List, [], ◌∷◌, ◌++◌, ◌==◌, if◌then◌else◌, arith, length,
}
use icyre.Platform.Kafka.{handled, failed, Client, Config, State, process, each_record, run}
use icyre.Platform.Kafka.Consumer.{tries, IsSafe}
use icyre.Platform.Kafka.Safety.{run-Safe, process-tries, each_record-Prefix}
use icyre.Platform.Kafka.Batch
use icyre.Platform.Kafka.Batch.{Decoded, item, undecodable, collect}
use icyre.Platform.Kafka.Batches.{IsStored, collect-length}
use icyre.Platform.Kafka.Flushed.{batches-IsStored}

abbrev client : Client ℕ ℕ ℕ
client = record {
  handler = λ r x. (if r == 13 then failed else handled, x + 1);
  pause = λ n x. (false, x);
  produce_sync = λ r x. (true, x);
  flush = λ items x. (true, x);
}

abbrev config : Config
config = record { max_retries = 2; dlq = true }

abbrev start : State ℕ ℕ ℕ
start = record { systems = 0; trace = [] }

run-Safe_example : IsSafe (run client config ((5 ∷ 13 ∷ 6 ∷ []) ∷ []) start).1.trace
run-Safe_example = run-Safe client config ((5 ∷ 13 ∷ 6 ∷ []) ∷ []) start tt

process-tries_example : tries (process client config 13 start).1.trace ≤ 0 + (2 + 1)
process-tries_example = process-tries client config 13 start

-- Without a dead-letter topic the record stops the consumer.
abbrev strict : Config
strict = record { max_retries = 2; dlq = false }

each_record-Prefix_example :
    let each = each_record client strict (5 ∷ 13 ∷ 6 ∷ []) start in
    (left : List ℕ) × (5 ∷ 13 ∷ 6 ∷ [] ≡ each.0.0 ++ left) × ((each.0.1 ≡ true) ↔ (left ≡ []))
each_record-Prefix_example = each_record-Prefix client strict (5 ∷ 13 ∷ 6 ∷ []) start

abbrev decode : ℕ → Decoded ℕ
decode r = if r == 13 then undecodable else item r

batches-IsStored_example :
    IsStored decode (Batch.run client decode config ((5 ∷ 13 ∷ []) ∷ []) start).1.trace
batches-IsStored_example = batches-IsStored client decode config ((5 ∷ 13 ∷ []) ∷ []) start tt

abbrev one_record : ℕ → List ℕ
one_record n = if n == 0 then [] else 7 ∷ []

one_record-length : (n : ℕ) → length (one_record n) ≤ n
one_record-length n = ground arith

collect-length_example : length (collect 2 one_record (one_record ∷ one_record ∷ [])) ≤ 2
collect-length_example =
    collect-length 2 one_record (one_record ∷ one_record ∷ []) one_record-length
      (one_record-length, (one_record-length, tt))
