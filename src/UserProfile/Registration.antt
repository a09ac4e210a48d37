-- ===== src/UserProfile/Registration.antt =====
-- CreateForNewUser of services/user-profile/internal/application/service.go, with CreateIfAbsent of
-- services/user-profile/internal/adapters/postgres/repository.go and its table profile.profiles
-- (00001 of the migrations), a list of profiles. The event profile.updated goes through the outbox.
use Prim.Native.String.{String}
use icyre.Prelude.{
  ℕ, zero, suc, ◌+◌, ◌/◌, ◌%◌, Bool, true, false, ◌&&◌, ◌||◌, List, [], ◌∷◌, ◌++◌, ltb, leb, ◌==◌,
  if◌then◌else◌, length, any, find?,
}
use icyre.Prelude.Unicode.{texts_equal}
use icyre.Platform.Postgres.{
  ◌>>=◌, Result, ok, err, fault, Exec, pure, raise, broken, select, execute, caught, from_option,
  Pgx, pool, in_tx,
}
use icyre.Platform.Outbox.{Db}
use icyre.Platform.Outbox.Announce.{announce}
use icyre.UserProfile.{
  validation, Cases, Error, profile_not_found, username_taken, Profile, is_alphanumeric,
  is_separator, max_display_name, max_bio, from_registration,
}

pub data Event : Type 0 where
  profile_updated : Profile → Event

abbrev pub outbox_table : String
outbox_table = "profile.outbox"

abbrev pub Service : Type 0 → Type 0 → Type 0
Service X A = Exec (Db (List Profile) Event) X Error A

abbrev pub of_user : ℕ → Profile → Bool
of_user id p = p.user_id == id

abbrev pub last_fits : List ℕ → Bool
last_fits [] = false
last_fits (c ∷ []) = is_alphanumeric c
last_fits (c ∷ d ∷ ds) = (is_alphanumeric c || is_separator c) && last_fits (d ∷ ds)

abbrev pub first_fits : List ℕ → Bool
first_fits [] = false
first_fits (c ∷ cs) = is_alphanumeric c && last_fits cs

-- CHECK (username ~ '^[a-z0-9][a-z0-9._]{1,28}[a-z0-9]$')
unfoldable pub username_fits : List ℕ → Bool
username_fits s = leb 3 (length s) && leb (length s) 30 && first_fits s

-- The CHECKs of the table; those of the country and the language pass on the empty texts of a
-- registration.
abbrev pub fits : Profile → Bool
fits p =
    username_fits p.username
    && leb 1 (length p.display_name)
    && leb (length p.display_name) max_display_name
    && leb (length p.bio) max_bio

-- Whether the CHECKs hold, the user has a row, and the username is taken
abbrev pub insert_as : Bool → Bool → Bool → Profile → List Profile → Result Error (ℕ × List Profile)
insert_as false there taken p rows = fault
insert_as true true taken p rows = ok (0, rows)
insert_as true false true p rows = err username_taken
insert_as true false false p rows = ok (1, rows ++ p ∷ [])

-- INSERT … ON CONFLICT (user_id) DO NOTHING, with profiles_username_key
unfoldable pub insert_profile : Profile → List Profile → Result Error (ℕ × List Profile)
unfolding username_fits
insert_profile p rows =
    insert_as (fits p) (any (of_user p.user_id) rows)
      (any (λ (r : Profile). texts_equal r.username p.username) rows) p rows

abbrev pub with_rows :
    Db (List Profile) Event
    → Result Error (ℕ × List Profile)
    → Result Error (ℕ × Db (List Profile) Event)
with_rows d (ok (n, rows)) = ok (n, record d { tables = rows })
with_rows d (err e) = err e
with_rows d fault = fault

-- strconv.Itoa of a number below 100
abbrev pub itoa : ℕ → List ℕ
itoa n = if ltb n 10 then (48 + n) ∷ [] else (48 + n / 10) ∷ (48 + n % 10) ∷ []

abbrev pub max_username_attempts : ℕ
max_username_attempts = 20

module _ {X : Type 0} where
  unfoldable pub create_if_absent : Profile → Service X Bool
  unfolding insert_profile
  create_if_absent p = do n ← execute (λ d. with_rows d (insert_profile p d.tables)); pure (n == 1)

  unfoldable pub get : ℕ → Service X Profile
  get id = do
    found ← select (λ d. find? (of_user id) d.tables)
    from_option found (raise profile_not_found)

  abbrev pub record_if : Bool → Profile → Service X (Unit {0})
  record_if false p = pure tt
  record_if true p = announce outbox_table (profile_updated p)

  unfoldable pub insert_recorded : Pgx → Profile → Service X (Unit {0})
  unfolding create_if_absent
  insert_recorded pgx p = in_tx pgx pool λ _. do created ← create_if_absent p; record_if created p

  -- ErrUsernameTaken leads to the next attempt; any other outcome is returned.
  abbrev pub or_next : Result Error (Unit {0}) → Service X (Unit {0}) → Service X (Unit {0})
  or_next (ok u) next = pure tt
  or_next (err username_taken) next = next
  or_next (err profile_not_found) next = raise profile_not_found
  or_next (err (validation fields)) next = raise (validation fields)
  or_next fault next = broken

  module _ (pgx : Pgx) where
    -- The loop, with the attempts that are left, the number of the next one, and its username
    unfoldable pub attempts : ℕ → ℕ → Profile → List ℕ → Service X (Unit {0})
    unfolding insert_recorded
    attempts zero attempt base username = broken
    attempts (suc left) attempt base username = do
      outcome ← caught (insert_recorded pgx (record base { username = username }))
      or_next outcome (attempts left (attempt + 1) base (base.username ++ itoa (attempt + 1)))

    unfoldable pub create_for_new_user : Cases → ℕ → List ℕ → ℕ → Service X (Unit {0})
    unfolding attempts from_registration
    create_for_new_user cases user_id email now =
        let base = from_registration cases user_id email now in
        attempts max_username_attempts 1 base base.username
