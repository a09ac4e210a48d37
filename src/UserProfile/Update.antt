-- ===== src/UserProfile/Update.antt =====
-- Update of services/user-profile/internal/application/service.go, with Update of
-- services/user-profile/internal/adapters/postgres/repository.go.
use icyre.Prelude.{ℕ, Bool, true, false, not, ◌&&◌, List, map, any, ◌==◌, if◌then◌else◌}
use icyre.Prelude.Unicode.{texts_equal}
use icyre.Platform.Postgres.{
  ◌>>=◌, ◌>>◌, Result, ok, err, fault, pure, raise, execute, Pgx, pool, in_tx,
}
use icyre.Platform.Outbox.Announce.{announce}
use icyre.UserProfile.{Cases, Error, profile_not_found, username_taken, validation, Profile}
use icyre.UserProfile.Registration.{
  profile_updated, outbox_table, Service, of_user, fits, with_rows, get,
}
use icyre.UserProfile.Changes.{Changes, Applied, refused, accepted, country_fits, apply}

-- SET username = $2, …, updated_at = $7 WHERE user_id = $1
abbrev pub with_fields : Profile → Profile → Profile
with_fields p r =
    if of_user p.user_id r
    then record r {
      username = p.username;
      display_name = p.display_name;
      bio = p.bio;
      country = p.country;
      language = p.language;
      updated_at = p.updated_at;
    }
    else r

-- Whether the user has a row, the CHECKs hold, and another row has the username
abbrev pub update_as : Bool → Bool → Bool → Profile → List Profile → Result Error (ℕ × List Profile)
update_as false good taken p rows = ok (0, rows)
update_as true false taken p rows = fault
update_as true true true p rows = err username_taken
update_as true true false p rows = ok (1, map (with_fields p) rows)

unfoldable pub update_row : Profile → List Profile → Result Error (ℕ × List Profile)
update_row p rows =
    update_as (any (of_user p.user_id) rows) (fits p && country_fits p.country)
      (any (λ (r : Profile). not (of_user p.user_id r) && texts_equal r.username p.username) rows) p
      rows

module _ {X : Type 0} where
  abbrev pub or_missing : Bool → Service X (Unit {0})
  or_missing true = raise profile_not_found
  or_missing false = pure tt

  unfoldable pub update_profile : Profile → Service X (Unit {0})
  unfolding update_row
  update_profile p = do n ← execute (λ d. with_rows d (update_row p d.tables)); or_missing (n == 0)

  module _ (pgx : Pgx) where
    abbrev pub store : Applied → Service X Profile
    store (refused fields) = raise (validation fields)
    store (accepted false p) = pure p
    store (accepted true p) = do
      in_tx pgx pool (λ _. update_profile p >> announce outbox_table (profile_updated p))
      pure p

    unfoldable pub update : Cases → ℕ → Changes → ℕ → Service X Profile
    unfolding update_profile get apply
    update cases id c now = do p ← get id; store (apply cases c now p)
