-- ===== src/Library/Tests.antt =====
-- The library of a listener with two saved tracks.
use icyre.Prelude.{some, length, ◌<◌, ℕ, ◌≡◌, refl, none, List, [], ◌∷◌, arith}
use icyre.Prelude.Sort.{sort_by}
use icyre.Platform.Postgres.{ok, ◌>>=◌, pure, select, update, lift, in_tx}
use icyre.Platform.Postgres.Reference.{reference}
use icyre.Keyset.{newest_first, walk}
use icyre.Library.{track, Item}
use icyre.Library.Repository
use icyre.Library.Repository.{saved_of, saved_at, entity_id}
use icyre.Library.Service.{save, handle, remove_request, list}
use icyre.Library.Effects.{LibraryDb, SavedOnce, entry, save-Once}
use icyre.Library.Replay.{IsConsistent, IsKeyed, replay, handle-IsConsistent}
use icyre.Library.Paging.{answered, calm, list_pages}

abbrev saved_track : ℕ → ℕ → Item
saved_track id at = record { user_id = 1; kind = track; entity_id = id; saved_at = at }

abbrev rows : List Item
rows = saved_track 70 1000 ∷ saved_track 71 2000 ∷ []

abbrev library : LibraryDb
library = record { tables = rows; outbox = record { rows = []; next_id = 0 } }

rows-IsKeyed : IsKeyed rows
rows-IsKeyed = ((refl, tt), (tt, tt))

library-IsConsistent : IsConsistent rows library
unfolding replay
library-IsConsistent = record { keyed = rows-IsKeyed; in_step = refl }

-- A track saved again keeps its time.
again :
    (save reference (ok tt) 1 track 70 5000 (calm library (tt {0}))).0 ≡ ok (saved_track 70 1000)
unfolding reference save ◌>>=◌ lift in_tx Repository.save update pure select
again = refl

save-Once_example :
    SavedOnce
      (entry 1 track 70 5000)
      (saved_track 70 1000)
      library
      (save reference (ok tt) 1 track 70 5000 (calm library (tt {0}))).1.db
save-Once_example =
    save-Once reference (ok tt) 1 track 70 5000 (saved_track 70 1000) (calm library (tt {0}))
      (save reference (ok tt) 1 track 70 5000 (calm library (tt {0}))).1
      (λ i. (again i, (save reference (ok tt) 1 track 70 5000 (calm library (tt {0}))).1))

handle-IsConsistent_example :
    IsConsistent rows
      (handle reference 1 5000 (remove_request track 71) (calm library (tt {0}))).1.db
handle-IsConsistent_example =
    handle-IsConsistent reference rows 1 5000 (remove_request track 71) (calm library (tt {0}))
      library-IsConsistent

rows_few : length (saved_of 1 track rows) < 3
unfolding saved_of
rows_few = omega arith

-- Two pages of one track
list_pages_example :
    walk (λ after. answered (list 1 track after 1 (calm library (tt {0}))).0) 3 none
    ≡ some (sort_by (newest_first saved_at entity_id) (saved_of 1 track rows))
list_pages_example = list_pages 1 track 1 3 library (tt {0}) rows-IsKeyed rows_few
