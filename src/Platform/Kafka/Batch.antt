-- ===== src/Platform/Kafka/Batch.antt =====
-- libs/platform/kafka/batch.go: a consumer that decodes records and writes them in batches.
--
-- A decoder does not depend on other systems. The client's PollRecords returns at most as many records
-- as it is asked for.
use icyre.Prelude.{
  ℕ, zero, suc, ◌+◌, ◌-◌, Bool, true, false, List, [], ◌∷◌, ◌++◌, if◌then◌else◌, length, ltb,
}
use icyre.Platform.Kafka.{flushed, State, Client, Config, note, wait, to_dlq, commit}

-- What a decoder returns: an item, ErrSkip, or another error
pub data Decoded (I : Type 0) : Type 0 where
  item : I → Decoded I
  skipped undecodable : Decoded I

-- The outcome of the loop over the records: the items with the records decoded, or an error
pub data Sorted (R I : Type 0) : Type 0 where
  sorted : List I → Sorted R I
  stopped : Sorted R I

module _ {R I : Type 0} where
  abbrev pub with_item : I → Sorted R I → Sorted R I
  with_item i (sorted items) = sorted (i ∷ items)
  with_item i stopped = stopped

module _ {R : Type 0} where
  -- PollRecords up to the end of the linger: each answer is what the client returns when it is asked
  -- for so many records.
  unfoldable pub gather : ℕ → List R → List (ℕ → List R) → List R
  gather max recs [] = recs
  gather max recs (poll ∷ polls) =
      let more = gather max (recs ++ poll (max - length recs)) polls in
      if ltb (length recs) max then more else recs

  -- collect: the first poll waits for records.
  unfoldable pub collect : ℕ → (ℕ → List R) → List (ℕ → List R) → List R
  unfolding gather
  collect max first polls = elim (first max) [ [] ↦ [] | r ∷ rs ↦ gather max (r ∷ rs) polls ]

module _ {R I S : Type 0} where
  -- What becomes of a decoded record: `here` and `beyond` are the rest of the loop, before and after
  -- its dead letter `dead`
  abbrev pub sort_as :
      Decoded I
      → Bool
      → State R I S
      → Sorted R I × State R I S
      → Bool × State R I S
      → Sorted R I × State R I S
      → Sorted R I × State R I S
  sort_as (item i) dlq s here dead beyond = (with_item i here.0, here.1)
  sort_as skipped dlq s here dead beyond = here
  sort_as undecodable false s here dead beyond = (stopped, s)
  sort_as undecodable true s here (true, s₁) beyond = beyond
  sort_as undecodable true s here (false, s₁) beyond = (stopped, s₁)

  abbrev pub after_flush :
      Bool → Bool → State R I S → State R I S → Bool × State R I S → Bool × State R I S
  after_flush true fine paused after rest = (false, paused)
  after_flush false true paused after rest = (true, after)
  after_flush false false paused after rest = rest

module _ {R I S : Type 0} (client : Client R I S) where
  unfoldable pub flush_once : List I → State R I S → Bool × State R I S
  unfolding note
  flush_once items s =
      let (fine, x) = client.flush items s.systems in (fine, note (flushed items fine) x s)

  -- The loop of flushes, with the attempts that are left and the number of the next one
  unfoldable pub flushes : List I → ℕ → ℕ → State R I S → Bool × State R I S
  unfolding flush_once wait
  flushes items zero attempt s = (false, s)
  flushes items (suc left) attempt s =
      let (ended, s₁) = wait client attempt s in
      let (fine, s₂) = flush_once items s₁ in
      after_flush ended fine s₁ s₂ (flushes items left (attempt + 1) s₂)

  unfoldable pub flush_sorted : Config → Sorted R I × State R I S → Bool × State R I S
  unfolding flushes
  flush_sorted cfg (stopped, s) = (false, s)
  flush_sorted cfg (sorted [], s) = (true, s)
  flush_sorted cfg (sorted (i ∷ items), s) = flushes (i ∷ items) (cfg.max_retries + 1) 0 s

module _ {R I S : Type 0} (client : Client R I S) (decode : R → Decoded I) where
  -- The loop over the records in handle
  unfoldable pub sort_records : Config → List R → State R I S → Sorted R I × State R I S
  unfolding to_dlq
  sort_records cfg [] s = (sorted [], s)
  sort_records cfg (r ∷ rs) s =
      let dead = to_dlq client r s in
      sort_as (decode r) cfg.dlq s (sort_records cfg rs s) dead (sort_records cfg rs dead.1)

  -- handle returned nil.
  unfoldable pub handle : Config → List R → State R I S → Bool × State R I S
  unfolding sort_records flush_sorted
  handle cfg recs s = flush_sorted client cfg (sort_records cfg recs s)

  -- Run: the batches collected up to the end of the context; false if it returned an error
  unfoldable pub run : Config → List (List R) → State R I S → Bool × State R I S
  unfolding handle commit
  run cfg [] s = (true, s)
  run cfg ([] ∷ rest) s = run cfg rest s
  run cfg ((r ∷ rs) ∷ rest) s =
      let (fine, s₁) = handle cfg (r ∷ rs) s in
      let later = run cfg rest (commit client (r ∷ rs) s₁) in if fine then later else (false, s₁)
