-- ===== src/UserProfile/Updated.antt =====
-- What an update of services/user-profile that returns has done.
use mathlib.Core.Path.{subst}
use icyre.Prelude.{
  ℕ, ◌≡◌, ◌⊎◌, inl, inr, refl, sym, ap, ◌∙◌, Bool, true, false, not, ◌&&◌, Bool-cases, Option, some,
  List, [], ◌∷◌, map, any, filter, arith, ==_iff, find?, ◌==◌,
}
use icyre.Prelude.Unicode.{texts_equal}
use icyre.Platform.Postgres.{ok, World, Pgx}
use icyre.Platform.Postgres.Inversion.{
  Returns, bind-ok, pure-ok, raise-ok, execute-ok, select-ok, from_option-ok, in_tx-ok,
}
use icyre.Platform.Outbox.{insert}
use icyre.Platform.Outbox.Announce.{announce-ok}
use icyre.UserProfile.{Cases, Profile, profile_not_found, validation}
use icyre.UserProfile.Registration.{profile_updated, outbox_table, of_user, fits, get}
use icyre.UserProfile.Created.{ProfileDb, with_rows-ok, table_checked}
use icyre.UserProfile.Changes.{Changes, Applied, refused, accepted, country_fits, apply}
use icyre.UserProfile.Kept.{Kept, apply-Kept}
use icyre.UserProfile.Update.{
  with_fields, update_as, update_row, or_missing, update_profile, store, update,
}

-- Another user has the username.
abbrev pub taken_from : Profile → List Profile → Bool
taken_from p rows =
    any (λ (r : Profile). not (of_user p.user_id r) && texts_equal r.username p.username) rows

abbrev UpdatedRow : Profile → ℕ → List Profile → List Profile → Type 0
UpdatedRow p n rows rows' =
    ((n ≡ 0) × (rows' ≡ rows))
    ⊎ ((n ≡ 1) × (taken_from p rows ≡ false) × (rows' ≡ map (with_fields p) rows))

update_row-ok :
    (p : Profile) (n : ℕ) (rows rows' : List Profile)
    → update_row p rows ≡ ok (n, rows')
    → UpdatedRow p n rows rows'
unfolding update_row
update_row-ok p n rows rows' h =
    by_cases (any (of_user p.user_id) rows) (fits p && country_fits p.country) (taken_from p rows)
      refl h
  where
    by_cases :
        (u f s : Bool)
        → taken_from p rows ≡ s
        → update_as u f s p rows ≡ ok (n, rows')
        → UpdatedRow p n rows rows'
    by_cases false f s a k = inl (cc, cc)
    by_cases true false s a k = cc
    by_cases true true true a k = cc
    by_cases true true false a k = inr (cc, a, cc)

with_fields-hit : (q r : Profile) → of_user q.user_id r ≡ true → Kept r q → with_fields q r ≡ q
with_fields-hit q r h k =
    let whole : record r {
      username = q.username;
      display_name = q.display_name;
      bio = q.bio;
      country = q.country;
      language = q.language;
      updated_at = q.updated_at;
    }
        ≡ q =
      λ i. record q { user_id = sym k.0 i; avatar_key = sym k.1 i; created_at = sym k.2 i } in
    rw h whole

with_fields-miss : (q r : Profile) → of_user q.user_id r ≡ false → with_fields q r ≡ r
with_fields-miss q r h = rw h refl

some_eq : (a b : Profile) → ◌≡◌ {A = Option Profile} (some a) (some b) → a ≡ b
some_eq a b k = cc

-- The row of the user is the profile.
find-with_fields :
    (p q : Profile) (rows : List Profile)
    → find? (of_user q.user_id) rows ≡ some p
    → Kept p q
    → find? (of_user q.user_id) (map (with_fields q) rows) ≡ some q
find-with_fields p q [] h k = absurd cc
find-with_fields p q (r ∷ rows) h k = elim (Bool-cases (of_user q.user_id r)) [
  | inl e ↦
      let found : find? (of_user q.user_id) (r ∷ rows) ≡ some r = rw e refl in
      let same : r ≡ p = some_eq r p (sym found ∙ h) in
      let row : with_fields q r ≡ q = with_fields-hit q r e (subst (λ z. Kept z q) (sym same) k) in
      let self : of_user q.user_id q ≡ true = (==_iff _ _).1 refl in
      subst (λ z. find? (of_user q.user_id) (z ∷ map (with_fields q) rows) ≡ some q) (sym row)
        (rw self refl)
  | inr e ↦
      let passed_by : find? (of_user q.user_id) (r ∷ rows) ≡ find? (of_user q.user_id) rows =
        rw e refl in
      subst (λ z. find? (of_user q.user_id) (z ∷ map (with_fields q) rows) ≡ some q)
        (sym (with_fields-miss q r e)) (rw e (find-with_fields p q rows (sym passed_by ∙ h) k))
]

abbrev pub others : ℕ → List Profile → List Profile
others id rows = filter (λ r. not (of_user id r)) rows

updated_user : (q r : Profile) → (with_fields q r).user_id ≡ r.user_id
updated_user q r = ground arith

others-with_fields :
    (q : Profile) (rows : List Profile)
    → others q.user_id (map (with_fields q) rows) ≡ others q.user_id rows
others-with_fields q [] = refl
others-with_fields q (r ∷ rows) = elim (Bool-cases (of_user q.user_id r)) [
  | inl e ↦
      let there : of_user q.user_id (with_fields q r) ≡ true =
        ap (λ k. k == q.user_id) (updated_user q r) ∙ e in
      rw (there, e) (others-with_fields q rows)
  | inr e ↦
      subst (λ z. others q.user_id (z ∷ map (with_fields q) rows) ≡ others q.user_id (r ∷ rows))
        (sym (with_fields-miss q r e)) (rw e (ap (λ l. r ∷ l) (others-with_fields q rows)))
]

-- The profile is the user's row, under a username that no other user has; the rows of the others are
-- as they were, and the profile is announced once.
abbrev pub Stored : ℕ → Profile → ProfileDb → ProfileDb → Type 0
Stored id q before after =
    (taken_from q before.tables ≡ false)
    × (find? (of_user id) after.tables ≡ some q)
    × (others id after.tables ≡ others id before.tables)
    × (after.outbox ≡ insert (profile_updated q) before.outbox)

-- What the UPDATE and the event make of the database
abbrev Written : Profile → ProfileDb → ProfileDb → Type 0
Written p before after =
    (taken_from p before.tables ≡ false)
    × (after ≡ record {
      tables = map (with_fields p) before.tables;
      outbox = insert (profile_updated p) before.outbox;
    })

find-user :
    (id : ℕ) (p : Profile) (rows : List Profile) → find? (of_user id) rows ≡ some p → p.user_id ≡ id
find-user id p [] h = absurd cc
find-user id p (r ∷ rows) h = elim (Bool-cases (of_user id r)) [
  | inl e ↦
      let found : find? (of_user id) (r ∷ rows) ≡ some r = rw e refl in
      ap (λ (z : Profile). z.user_id) (sym (some_eq r p (sym found ∙ h))) ∙ (==_iff _ _).0 e
  | inr e ↦
      let passed_by : find? (of_user id) (r ∷ rows) ≡ find? (of_user id) rows = rw e refl in
      find-user id p rows (sym passed_by ∙ h)
]

Written-Stored :
    (id : ℕ) (p q : Profile) (d d' : ProfileDb)
    → find? (of_user id) d.tables ≡ some p
    → Kept p q
    → Written q d d'
    → Stored id q d d'
Written-Stored id p q d d' h k (free, same) =
    let keys : id ≡ q.user_id = sym (k.0 ∙ find-user id p d.tables h) in
    let found = subst (λ n. find? (of_user n) d.tables ≡ some p) keys h in
    let here : Stored q.user_id q d d' =
      subst (Stored q.user_id q d) (sym same)
        (free, find-with_fields p q d.tables found k, others-with_fields q d.tables, refl) in
    subst (λ n. Stored n q d d') (sym keys) here

module _ {X : Type 0} where
  abbrev db_of : World ProfileDb X → ProfileDb
  db_of w = w.db

  get-ok :
      (id : ℕ) (p : Profile) (w w₁ : World ProfileDb X)
      → Returns (get id) w p w₁
      → (find? (of_user id) w.db.tables ≡ some p) × (w₁.db ≡ w.db)
  unfolding get
  get-ok id p w w₁ h =
      let (found, v, e, f) = bind-ok _ _ w w₁ p h in
      let (read, same, _) = select-ok _ w v found e in
      let (there, world) = from_option-ok found _ p v w₁ f in
      (sym read ∙ there, ap db_of world ∙ same)

  or_missing-ok :
      (b : Bool) (w w₁ : World ProfileDb X)
      → Returns (or_missing b) w tt w₁
      → (b ≡ false) × (w₁.db ≡ w.db)
  or_missing-ok true w w₁ h = absurd (raise-ok profile_not_found tt w w₁ h)
  or_missing-ok false w w₁ h = let (_, same) = pure-ok tt tt w w₁ h in (refl, ap db_of (sym same))

  update_profile-ok :
      (p : Profile) (w w₁ : World ProfileDb X)
      → Returns (update_profile p) w tt w₁
      → (taken_from p w.db.tables ≡ false)
        × (w₁.db ≡ record w.db { tables = map (with_fields p) w.db.tables })
  unfolding update_profile
  update_profile-ok p w w₁ h =
      let (n, v, e, f) = bind-ok _ _ w w₁ tt h in
      let (there, same) = or_missing-ok (n == 0) v w₁ f in
      let (rows, wrote, left) =
        with_rows-ok w.db v.db n (update_row p w.db.tables) (execute-ok _ n w v e) in
      elim (update_row-ok p n w.db.tables rows wrote) [
        | inl none_hit ↦
            let clash : true ≡ false = sym (ap (λ k. k == 0) none_hit.0) ∙ there in absurd cc
        | inr hit ↦ (hit.1, same ∙ left ∙ ap (λ l. record w.db { tables = l }) hit.2)
      ]

  module _ (pgx : Pgx) where
    store-ok :
        (a : Applied) (q : Profile) (w w' : World ProfileDb X)
        → Returns (store pgx a) w q w'
        → (b : Bool) × (a ≡ accepted b q)
          × (((b ≡ false) × (w'.db ≡ w.db)) ⊎ ((b ≡ true) × Written q w.db w'.db))
    store-ok (refused fields) q w w' h = absurd (raise-ok (validation fields) q w w' h)
    store-ok (accepted false p) q w w' h =
        let (same, world) = pure-ok p q w w' h in
        (false, ap (accepted false) same, inl (refl, ap db_of (sym world)))
    store-ok (accepted true p) q w w' h =
        let (_, v, e, f) = bind-ok _ _ w w' q h in
        let (same, world) = pure-ok p q v w' f in
        let (w₁, w₂, began, ran, after) = in_tx-ok pgx _ w v tt e in
        let (_, w₃, wrote, told) = bind-ok _ _ w₁ w₂ tt ran in
        let (free, row) = update_profile-ok p w₁ w₃ wrote in
        let announced = announce-ok outbox_table (profile_updated p) w₃ w₂ table_checked told in
        let left : v.db ≡ record w₁.db {
          tables = map (with_fields p) w₁.db.tables;
          outbox = insert (profile_updated p) w₁.db.outbox;
        } =
          after
          ∙ announced
          ∙ ap (λ (d : ProfileDb). record d { outbox = insert (profile_updated p) d.outbox }) row in
        let stored : Written p w.db v.db = subst (λ d. Written p d v.db) began (free, left) in
        (
          true,
          ap (accepted true) same,
          inr (
            refl,
            subst (λ x. Written x w.db w'.db) same
                (subst (λ (u : World ProfileDb X). Written p w.db u.db) world stored),
          ),
        )

    -- An update that returns a profile has found the user's one and applied the changes to it. It has
    -- written nothing where Apply reports no change; otherwise the user's row is the profile it
    -- returns, under a username that no other user has, the rows of the others are as they were, and
    -- it is announced once.
    pub update-Stored :
        (cases : Cases) (id : ℕ) (c : Changes) (now : ℕ) (q : Profile) (w w' : World ProfileDb X)
        → Returns (update pgx cases id c now) w q w'
        → (p : Profile) × (b : Bool) × (find? (of_user id) w.db.tables ≡ some p)
          × (apply cases c now p ≡ accepted b q)
          × (((b ≡ false) × (w'.db ≡ w.db)) ⊎ ((b ≡ true) × Stored id q w.db w'.db))
    unfolding update
    update-Stored cases id c now q w w' h =
        let (p, v, e, f) = bind-ok _ _ w w' q h in
        let (found, same) = get-ok id p w v e in
        let (b, applied, done) = store-ok (apply cases c now p) q v w' f in
        let k : Kept p q = apply-Kept cases c now p b q applied in
        let rows : ((b ≡ false) × (w'.db ≡ w.db)) ⊎ ((b ≡ true) × Written q w.db w'.db) =
          subst (λ d. ((b ≡ false) × (w'.db ≡ d)) ⊎ ((b ≡ true) × Written q d w'.db)) same done in
        (
          p,
          b,
          found,
          applied,
          elim rows [
            | inl nothing ↦ inl nothing
            | inr written ↦ inr (written.0, Written-Stored id p q w.db w'.db found k written.1)
          ],
        )
