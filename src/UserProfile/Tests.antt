-- ===== src/UserProfile/Tests.antt =====
-- Registrations with the addresses ann.lee@x and ann@x.
use icyre.Prelude.{
  find?, Bool, ℕ, true, none, some, ◌⊎◌, ◌≡◌, ◌≤◌, refl, false, List, [], ◌∷◌, length, All,
}
use icyre.Prelude.Unicode.{trim_space, texts_equal, is_space}
use icyre.Platform.Postgres.{ok, World, ◌>>=◌, select, update, execute, caught, in_tx}
use icyre.Platform.Postgres.Reference.{reference}
use icyre.Platform.Outbox.{write}
use icyre.Platform.Outbox.Announce.{announce}
use icyre.Platform.Outbox.TableName.{check_table, codes}
use icyre.Playlist.Title.{fields, join}
use icyre.UserProfile.{
  username_field, display_name_field, Cases, Profile, username_of, from_registration,
}
use icyre.UserProfile.Registration.{username_fits, get, of_user, create_for_new_user}
use icyre.UserProfile.Created.{ProfileDb, Inserted, create_for_new_user-Once}
use icyre.UserProfile.Changes.{
  Changes, accepted, apply, Fits, refused, apply_username, apply_display_name, apply_bio,
  apply_country, apply_language,
}
use icyre.UserProfile.Update.{update as change, update_profile, update_row}
use icyre.UserProfile.Updated.{update-Stored, Stored}
use icyre.UserProfile.Constraints.{apply-Fits}
use icyre.UserProfile.Username.{IsAllowed, username_of-IsAllowed}

derived : username_of (codes "ann..lee+music") ≡ codes "ann.leemusic"
unfolding username_of
derived = refl

-- The cut to 24 characters comes after the trim, and may leave a separator at the end, which the
-- table refuses.
cut_after_dot : username_fits (username_of (codes "abcdefghijklmnopqrstuvw.xyz")) ≡ false
unfolding username_of username_fits
cut_after_dot = refl

username_of-IsAllowed_example :
    All IsAllowed (username_of (codes "ann..lee"))
    × (3 ≤ length (username_of (codes "ann..lee")))
    × (length (username_of (codes "ann..lee")) ≤ 24)
username_of-IsAllowed_example = username_of-IsAllowed (codes "ann..lee")

abbrev cases : Cases
cases = record { to_lower = λ s. s; to_upper = λ c. c }

abbrev world : World ProfileDb (Unit {0})
world = record {
  db = record {
    tables =
        record {
          user_id = 1;
          username = codes "ann";
          display_name = codes "Ann";
          avatar_key = [];
          bio = [];
          country = [];
          language = [];
          created_at = 0;
          updated_at = 0;
        }
        ∷ [];
    outbox = record { rows = []; next_id = 0 };
  };
  outside = tt;
  faults = [];
}

-- The username "ann" is taken, and the next one is free.
second : (create_for_new_user reference cases 2 (codes "ann@x") 5000 world).0 ≡ ok tt
unfolding create_for_new_user reference ◌>>=◌ caught in_tx execute join fields trim_space
    texts_equal announce select write check_table update
second = refl

create_for_new_user-Once_example :
    (name : List ℕ) × Inserted
      (record (from_registration cases 2 (codes "ann@x") 5000) { username = name })
      world.db
      (create_for_new_user reference cases 2 (codes "ann@x") 5000 world).1.db
create_for_new_user-Once_example =
    create_for_new_user-Once reference cases 2 (codes "ann@x") 5000 world
      (create_for_new_user reference cases 2 (codes "ann@x") 5000 world).1
      (λ i. (second i, (create_for_new_user reference cases 2 (codes "ann@x") 5000 world).1))

abbrev ann : Profile
ann = record {
  user_id = 1;
  username = codes "ann";
  display_name = codes "Ann";
  avatar_key = [];
  bio = [];
  country = [];
  language = [];
  created_at = 0;
  updated_at = 0;
}

abbrev renamed : Changes
renamed = record {
  new_username = some (codes "ann.lee");
  new_display_name = none;
  new_bio = none;
  new_country = some (codes "DE");
  new_language = none;
}

ann-Fits : Fits ann
unfolding username_fits
ann-Fits = (refl, refl, refl, refl)

abbrev ann_renamed : Profile
ann_renamed = record ann { username = codes "ann.lee"; country = codes "DE"; updated_at = 5000 }

both_changed : apply cases renamed 5700 ann ≡ accepted true ann_renamed
unfolding apply apply_username apply_display_name apply_bio apply_country apply_language
    username_fits trim_space texts_equal is_space
both_changed = refl

-- A username with ".." and an empty display name are both reported.
both_invalid :
    apply cases
      (record renamed { new_username = some (codes "a..b"); new_display_name = some (codes " ") })
      5700
      ann
    ≡ refused (display_name_field ∷ username_field ∷ [])
unfolding apply apply_username apply_display_name apply_bio apply_country apply_language
    username_fits trim_space texts_equal is_space
both_invalid = refl

apply-Fits_example : Fits ann_renamed × ((true ≡ true) ⊎ (ann_renamed ≡ ann))
apply-Fits_example = apply-Fits cases renamed 5700 ann true ann_renamed ann-Fits both_changed

abbrev updated_world : World ProfileDb (Unit {0})
updated_world = (change reference cases 1 renamed 5700 world).1

stores_changes : (change reference cases 1 renamed 5700 world).0 ≡ ok ann_renamed
unfolding change update update_profile update_row get reference ◌>>=◌ in_tx execute announce select
    write check_table apply apply_username apply_display_name apply_bio apply_country apply_language
    username_fits trim_space texts_equal is_space
stores_changes = refl

update-Stored_example :
    (p : Profile) × (b : Bool) × (find? (of_user 1) world.db.tables ≡ some p)
    × (apply cases renamed 5700 p ≡ accepted b ann_renamed)
    × (((b ≡ false) × (updated_world.db ≡ world.db))
        ⊎ ((b ≡ true) × Stored 1 ann_renamed world.db updated_world.db))
update-Stored_example =
    update-Stored reference cases 1 renamed 5700 ann_renamed world updated_world
      (λ i. (stores_changes i, updated_world))
