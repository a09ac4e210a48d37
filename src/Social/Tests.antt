-- ===== src/Social/Tests.antt =====
-- Two listeners who follow an artist.
use icyre.Prelude.{◌≡◌, ◌<◌, refl, length, true, false, none, some, [], ◌∷◌, arith}
use icyre.Prelude.Sort.{sort_by}
use icyre.Platform.Postgres.{ok, Fails, World, ◌>>=◌, in_tx, execute, select, update}
use icyre.Platform.Postgres.Reference.{reference}
use icyre.Platform.Outbox.{Db}
use icyre.Keyset.{newest_first, walk}
use icyre.Social.{artist, Target, Follow}
use icyre.Social.Sql.{Tables, user_of, insert_follow, followers_of}
use icyre.Social.Counters.{value-nil}
use icyre.Social.Tally.{IsTallied, insert_follow-IsTallied}
use icyre.Platform.Outbox.{write}
use icyre.Platform.Outbox.TableName.{check_table}
use icyre.Platform.Outbox.Announce.{announce}
use icyre.Social.Repository
use icyre.Social.Repository.{followed_at, follower_id}
use icyre.Social.Service.{Event, handle, follow_request, unfollow_request, followers}
use icyre.Social.Requests.{handle-IsTallied, handle_undone}
use icyre.Social.Paging.{answered, calm, followers_pages}

abbrev band : Target
band = record { target_type = artist; id = 9 }

abbrev empty : Tables
empty = record { follows = []; counters = [] }

empty-IsTallied : IsTallied empty
empty-IsTallied = record { keyed = tt; others = tt; tallied = λ k s. value-nil k s }

abbrev first : Follow
first = record { follower_id = 1; target = band; followed_at = 1000 }

abbrev tables : Tables
tables = record {
  follows = first ∷ [];
  counters =
      record { subject = band; followers = 1; following_users = 0; following_artists = 0 }
      ∷ record { subject = user_of 1; followers = 0; following_users = 0; following_artists = 1 }
      ∷ [];
}

tables_made : insert_follow first empty ≡ ok (some 1000, tables)
unfolding insert_follow
tables_made = refl

tables-IsTallied : IsTallied tables
tables-IsTallied =
    insert_follow-IsTallied first empty tables (some 1000) empty-IsTallied tables_made

abbrev database : Db Tables Event
database = record { tables = tables; outbox = record { rows = []; next_id = 0 } }

handle-IsTallied_example :
    IsTallied
      (handle reference 2 5000 (follow_request (ok tt) band) (calm database (tt {0}))).1.db.tables
handle-IsTallied_example =
    handle-IsTallied reference 2 5000 (follow_request (ok tt) band) (calm database (tt {0}))
      tables-IsTallied

-- The event of an unfollow meets a broken connection.
abbrev broken : World (Db Tables Event) (Unit {0})
broken = record { db = database; outside = tt; faults = false ∷ false ∷ true ∷ [] }

broken-Fails : Fails (handle reference 1 5000 (unfollow_request band) broken).0
unfolding handle reference ◌>>=◌ in_tx Repository.unfollow execute select announce write update
    check_table
broken-Fails = tt

handle_undone_example : (handle reference 1 5000 (unfollow_request band) broken).1.db ≡ database
handle_undone_example = handle_undone reference 1 5000 (unfollow_request band) broken broken-Fails

followers_few : length (followers_of band tables.follows) < 2
unfolding followers_of
followers_few = omega arith

followers_pages_example :
    walk (λ after. answered (followers band after 0 (calm database (tt {0}))).0) 2 none
    ≡ some (sort_by (newest_first followed_at follower_id) (followers_of band tables.follows))
followers_pages_example =
    followers_pages band 0 2 database (tt {0}) tables-IsTallied.keyed followers_few
