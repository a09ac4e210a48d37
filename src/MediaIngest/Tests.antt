-- ===== src/MediaIngest/Tests.antt =====
-- Media Ingest with one upload that waits for its Complete.
use icyre.Prelude.{
  ℕ, ◌≡◌, ◌≢◌, ◌==◌, refl, true, false, none, some, List, [], ◌∷◌, All, any, replicate,
}
use icyre.Prelude.Pairwise.{Pairwise}
use icyre.Prelude.Unicode.{texts_equal}
use icyre.Platform.Postgres.{◌>>=◌, ok, World, reach, lift, pool, in_tx, update, select}
use icyre.Platform.Postgres.Reference.{reference}
use icyre.Platform.Outbox.{Db, write}
use icyre.Platform.Outbox.TableName.{codes, check_table}
use icyre.MediaIngest.{pending, Upload, format_of, settle}
use icyre.MediaIngest.Repository
use icyre.MediaIngest.Repository.{Tables, is_open, checks, settle_rows, settled_row}
use icyre.MediaIngest.Service.{
  Storage, Actor, Limits, Event, complete_request, verify, respond, settle_tx, publish,
}
use icyre.MediaIngest.History.{Step, Life, recorded, settled_once}
use icyre.MediaIngest.Invariant.{IsWellFormed, respond-IsWellFormed}
use icyre.MediaIngest.Verification.{IsAcceptable, verify_accepts_iff}

abbrev digest : List ℕ
digest = replicate 32 1

abbrev upload : Upload
upload = record {
  id = 7;
  track_id = 3;
  uploader_id = 1;
  content_type = codes "audio/flac";
  size_bytes = 900;
  sha256 = digest;
  key = record { track = 3; upload = 7; extension = codes "flac" };
  status = pending;
  failure_reason = none;
  created_at = 0;
  expires_at = 5000;
  completed_at = none;
}

abbrev store : Storage (Unit {0})
store = record {
  presign_upload = λ k x. some 1;
  stat = λ k x.
      some (some (record { size = 900; content_type = codes "audio/flac"; sha256 = digest }));
  read_head = λ k n x. some (codes "fLaC12345678");
  remove = λ k x. (tt, x);
  encode = λ s. s;
}

abbrev limits : Limits
limits = record { max_size = 1000; url_ttl = 60 }

abbrev owner : Actor
owner = record { id = 1; artist = true; admin = false }

abbrev calm : World (Db Tables Event) (Unit {0})
calm = record {
  db = record { tables = upload ∷ []; outbox = record { rows = []; next_id = 0 } };
  outside = tt;
  faults = [];
}

accepted : (verify store limits reference upload 100 calm).0 ≡ ok none
unfolding verify ◌>>=◌ reach texts_equal lift format_of
accepted = refl

verify_accepts_iff_example : IsAcceptable store limits reference upload tt
verify_accepts_iff_example = (verify_accepts_iff store limits reference upload 100 calm).0 accepted

uploads-IsWellFormed : IsWellFormed (upload ∷ [])
unfolding checks
uploads-IsWellFormed = record { apart = (tt, tt); checked = (refl, tt) }

respond-IsWellFormed_example :
    IsWellFormed
      (respond store limits reference owner (complete_request 7 100 200) calm).1.db.tables
respond-IsWellFormed_example =
    respond-IsWellFormed store limits reference owner (complete_request 7 100 200) calm
      uploads-IsWellFormed

-- Two Completes of one upload run their transactions, after both have read it as pending.
after_first : World (Db Tables Event) (Unit {0})
after_first =
    (in_tx reference pool (λ _. settle_tx store limits reference (settle upload none 200) none)
      calm).1

after_both : World (Db Tables Event) (Unit {0})
after_both =
    (in_tx reference pool (λ _. settle_tx store limits reference (settle upload none 300) none)
      after_first).1

one_event : recorded after_both.db.outbox.rows ≡ 7 ∷ []
unfolding after_both after_first in_tx reference settle_tx settle ◌>>=◌ update select write
    check_table publish settle_rows settled_row Repository.settle
one_event = refl

settled_once_example :
    Pairwise (λ (i j : ℕ). i ≢ j) (recorded after_both.db.outbox.rows)
    × All
        (λ id.
          (any (λ (r : Upload). r.id == id) after_both.db.tables ≡ true)
          × (any (is_open id) after_both.db.tables ≡ false))
        (recorded after_both.db.outbox.rows)
unfolding after_both after_first
settled_once_example = settled_once store limits reference (upload ∷ []) 0 after_both.db (
    Life.next (Life.next Life.start (Step.settling upload none 200 calm))
      (Step.settling upload none 300 after_first))
