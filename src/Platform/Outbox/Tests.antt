-- ===== src/Platform/Outbox/Tests.antt =====
-- The outbox at concrete tables, over a broker that acknowledges everything.
use icyre.Prelude.{ℕ, ◌≡◌, refl, true, false, List, [], ◌∷◌, ◌++◌, arith, replicate}
use icyre.Prelude.Sort.{insert_by, sort_by}
use icyre.Platform.Postgres.{ok, World, select, update, ◌>>=◌}
use icyre.Platform.Postgres.Reference.{reference}
use icyre.Platform.Outbox.{Row, Db, Broker, relay_once, relay_tx, run}
use icyre.Platform.Outbox.TableName.{codes, check_table, IsTable, check_table-iff-IsTable}
use icyre.Platform.Outbox.Relay.{IsNumbered, Sent, relay_once-Sent}
use icyre.Platform.Outbox.Delivery.{show_all}
use icyre.Platform.Outbox.Drain.{run_drains}

abbrev loyal : Broker ℕ (List ℕ)
loyal = record {
  log = λ x. x;
  produce_sync = λ ms x. (true, x ++ ms);
  acknowledged = λ ms x h. refl;
  appends = λ ms x. (ms, refl);
}

abbrev three : Db ℕ ℕ
three = record {
  tables = 7;
  outbox = record {
    rows =
        record { id = 0; msg = 10 }
        ∷ record { id = 1; msg = 11 }
        ∷ record { id = 2; msg = 12 }
        ∷ [];
    next_id = 3;
  };
}

abbrev calm : World (Db ℕ ℕ) (List ℕ)
calm = record { db = three; outside = 9 ∷ []; faults = [] }

check_table-iff-IsTable_example : IsTable (codes "playlist.outbox")
unfolding check_table
check_table-iff-IsTable_example = (check_table-iff-IsTable (codes "playlist.outbox")).0 refl

sends_two : (relay_once {E = ⊥} reference loyal true 2 calm).0 ≡ ok 2
unfolding relay_once reference relay_tx ◌>>=◌ select sort_by update
sends_two = refl

relay_once-Sent_example :
    let w' = (relay_once {E = ⊥} reference loyal true 2 calm).1 in
    Sent 2 2 three w'.db (9 ∷ []) w'.outside
relay_once-Sent_example = relay_once-Sent ⊥ reference loyal true 2 2 calm (omega arith) sends_two

three_IsNumbered : IsNumbered three.outbox.rows
three_IsNumbered = omega arith

run_drains_example :
    let w' = run reference loyal 2 (replicate 2 true) calm in
    (w'.db.outbox.rows ≡ []) × (w'.outside ≡ (9 ∷ []) ++ 10 ∷ 11 ∷ 12 ∷ [])
run_drains_example =
    run_drains loyal (λ ms x. refl) reference 2 2 calm refl three_IsNumbered (omega arith)

abbrev first : Row ℕ
first = record { id = 0; msg = 10 }

abbrev second : Row ℕ
second = record { id = 1; msg = 11 }

-- The row numbered second is committed first, and a round sends it, before the other is committed.
abbrev early : World (Db ℕ ℕ) (List ℕ)
early = record {
  db = record { tables = 8; outbox = record { rows = show_all (second ∷ []) []; next_id = 2 } };
  outside = [];
  faults = [];
}

after_early : World (Db ℕ ℕ) (List ℕ)
after_early = (relay_once {E = ⊥} reference loyal true 1 early).1

-- A round that breaks after its message went out
abbrev crash : World (Db ℕ ℕ) (List ℕ)
crash = record {
  db = record {
    tables = 9;
    outbox = record after_early.db.outbox {
      rows = show_all (first ∷ []) after_early.db.outbox.rows;
    };
  };
  outside = after_early.outside;
  faults = false ∷ false ∷ false ∷ true ∷ [];
}

after_crash : World (Db ℕ ℕ) (List ℕ)
after_crash = (relay_once {E = ⊥} reference loyal true 1 crash).1

-- The messages left in the order of the commits, not of the numbers.
overtaken : after_crash.outside ≡ 11 ∷ 10 ∷ []
unfolding after_crash after_early insert_by relay_once reference relay_tx ◌>>=◌ select sort_by
    update
overtaken = refl
