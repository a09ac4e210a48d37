-- ===== src/Platform/Outbox/Drain.antt =====
-- Run of libs/platform/outbox/relay.go over connections that do not fail.
use mathlib.Core.Path.{subst}
use mathlib.Core.List.{append-nil, append_assoc}
use icyre.Prelude.{
  ℕ, zero, suc, ◌*◌, ◌≤◌, ◌≡◌, refl, sym, ap, ◌∙◌, Bool, true, false, List, [], ◌∷◌, ◌++◌, arith,
  length, length-append, take, replicate, nil_of_length, length-take,
}
use icyre.Platform.Postgres.{ok, World, Exec, pure, select, update, continue, ◌>>=◌, Pgx}
use icyre.Platform.Outbox.{
  Row, Db, msgs, oldest, Broker, acknowledge, publish, send, relay_as, relay_tx, relay_once, run,
}
use icyre.Platform.Outbox.Relay.{IsNumbered, Sent, relay_once-Sent, oldest-take}
use icyre.Platform.Outbox.Delivery.{IsNumbered-suffix, msgs-append}

module _ {T M X : Type 0} (broker : Broker M X)
    (acks : (ms : List M) (x : X) → (broker.produce_sync ms x).0 ≡ true) where
  acknowledge-continue :
      (p : Bool × X) (f : Unit {0} → Exec (Db T M) X ⊥ ℕ) (w : World (Db T M) X)
      → p.0 ≡ true
      → continue (acknowledge {E = ⊥} p w).0 f (acknowledge {E = ⊥} p w).1
        ≡ f tt (record w { outside = p.1 })
  unfolding acknowledge
  acknowledge-continue (true, x) f w h = refl
  acknowledge-continue (false, x) f w h = cc

  publish-bind :
      (ms : List M) (f : Unit {0} → Exec (Db T M) X ⊥ ℕ) (w : World (Db T M) X)
      → (publish broker ms >>= f) w
        ≡ f tt (record w { outside = (broker.produce_sync ms w.outside).1 })
  unfolding publish ◌>>=◌
  publish-bind ms f w =
      acknowledge-continue (broker.produce_sync ms w.outside) f w (acks ms w.outside)

  send-Reliable :
      (rs : List (Row M)) (w : World (Db T M) X)
      → w.faults ≡ []
      → ((send {E = ⊥} broker rs w).0 ≡ ok (length rs)) × ((send {E = ⊥} broker rs w).1.faults ≡ [])
  unfolding send update pure ◌>>=◌
  send-Reliable [] w h = (refl, h)
  send-Reliable (r ∷ rs) w h = rw (publish-bind (msgs (r ∷ rs)) _ w) (rw h (refl, refl))

  relay_tx-Reliable :
      (batch : ℕ) (w : World (Db T M) X)
      → w.faults ≡ []
      → IsNumbered w.db.outbox.rows
      → ((relay_tx {E = ⊥} broker true batch w).0 ≡ ok (length (take batch w.db.outbox.rows)))
        × ((relay_tx {E = ⊥} broker true batch w).1.faults ≡ [])
  unfolding relay_tx relay_as select ◌>>=◌
  relay_tx-Reliable batch w h k = rw h (
      rw (← oldest-take batch w.db.outbox k)
        (send-Reliable (oldest batch w.db.outbox) (record w { faults = [] }) refl))

  module _ (pgx : Pgx) where
    relay_once-Reliable :
        (batch : ℕ) (w : World (Db T M) X)
        → w.faults ≡ []
        → IsNumbered w.db.outbox.rows
        → ((relay_once {E = ⊥} pgx broker true batch w).0
            ≡ ok (length (take batch w.db.outbox.rows)))
          × ((relay_once {E = ⊥} pgx broker true batch w).1.faults ≡ [])
    unfolding relay_once
    relay_once-Reliable batch w h k =
        let (r, f) = relay_tx-Reliable batch w h k in
        let (same, none_left, _, _) = pgx.reliable (relay_tx broker true batch) w h f in
        (same ∙ r, none_left)

    -- The relay makes progress: where no call fails, the brokers acknowledge and this relay holds
    -- the lock, enough rounds empty the table, and the topic gains each message exactly once, in
    -- the order of the table.
    pub run_drains :
        (batch k : ℕ) (w : World (Db T M) X)
        → w.faults ≡ []
        → IsNumbered w.db.outbox.rows
        → length w.db.outbox.rows ≤ k * batch
        → let w' = run pgx broker batch (replicate k true) w in
          (w'.db.outbox.rows ≡ [])
          × (broker.log w'.outside ≡ broker.log w.outside ++ msgs w.db.outbox.rows)
    unfolding run
    run_drains batch zero w h s b =
        let e : w.db.outbox.rows ≡ [] = nil_of_length w.db.outbox.rows (omega arith) in
        (e, rw e (sym (append-nil (broker.log w.outside))))
    run_drains batch (suc k) w h s b =
        let w' : World (Db T M) X = (relay_once {E = ⊥} pgx broker true batch w).1 in
        let (r, f) = relay_once-Reliable batch w h s in
        let n : ℕ = length (take batch w.db.outbox.rows) in
        let sent : Sent n batch w.db w'.db (broker.log w.outside) (broker.log w'.outside) =
          relay_once-Sent ⊥ pgx broker true batch n w s r in
        let less : length w'.db.outbox.rows ≤ k * batch = omega (
          arith,
          b,
          ap length sent.oldest_first,
          length-append sent.rows w'.db.outbox.rows,
          sent.counted,
          length-take batch w.db.outbox.rows,
        ) in
        let (empty, log) =
          run_drains batch k w' f
            (IsNumbered-suffix sent.rows w'.db.outbox.rows (subst IsNumbered sent.oldest_first s))
            less in
        (
          empty,
          log
              ∙ ap (λ l. l ++ msgs w'.db.outbox.rows) sent.published
              ∙ append_assoc (broker.log w.outside) (msgs sent.rows) (msgs w'.db.outbox.rows)
              ∙ ap (λ l. broker.log w.outside ++ l) (sym (msgs-append sent.rows w'.db.outbox.rows))
              ∙ ap (λ l. broker.log w.outside ++ msgs l) (sym sent.oldest_first),
        )
