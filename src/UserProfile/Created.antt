-- ===== src/UserProfile/Created.antt =====
-- What a handled registration leaves in the tables of services/user-profile.
use mathlib.Core.Path.{subst}
use icyre.Prelude.{
  ℕ, zero, suc, ◌+◌, ◌≡◌, ◌⊎◌, inl, inr, refl, sym, ap, ◌∙◌, Bool, true, false, List, [], ◌∷◌, ◌++◌,
  ◌==◌, any, if◌then◌else◌,
}
use icyre.Prelude.Unicode.{texts_equal}
use icyre.Platform.Postgres.{ok, err, fault, Fails, Result, World, Pgx}
use icyre.Platform.Postgres.Atomic.{IsAtomic, atomic_rules}
use icyre.Platform.Postgres.Inversion.{
  Returns, bind-ok, pure-ok, raise-ok, broken-ok, execute-ok, caught-ok, in_tx-ok,
}
use icyre.Platform.Outbox.{Db, insert}
use icyre.Platform.Outbox.TableName.{check_table, codes}
use icyre.Platform.Outbox.Announce.{announce-ok}
use icyre.UserProfile.{
  Cases, Error, profile_not_found, username_taken, validation, Profile, from_registration,
}
use icyre.UserProfile.Registration.{
  Event, profile_updated, outbox_table, of_user, fits, insert_as, insert_profile, with_rows, itoa,
  create_if_absent, record_if, insert_recorded, or_next, attempts, max_username_attempts,
  create_for_new_user, Service,
}

abbrev pub ProfileDb : Type 0
ProfileDb = Db (List Profile) Event

pub table_checked : check_table (codes outbox_table) ≡ true
unfolding check_table
table_checked = refl

abbrev pub has_username : List ℕ → List Profile → Bool
has_username s rows = any (λ (r : Profile). texts_equal r.username s) rows

abbrev pub with_profile : Profile → ProfileDb → ProfileDb
with_profile p d = record {
  tables = d.tables ++ p ∷ [];
  outbox = insert (profile_updated p) d.outbox;
}

-- The profile is new, its username free and its row within the constraints, and it is announced once;
-- or the user has a profile, and nothing is written.
abbrev pub Inserted : Profile → ProfileDb → ProfileDb → Type 0
Inserted p before after =
    ((any (of_user p.user_id) before.tables ≡ true) × (after ≡ before))
    ⊎ ((any (of_user p.user_id) before.tables ≡ false)
        × (has_username p.username before.tables ≡ false)
        × (fits p ≡ true)
        × (after ≡ with_profile p before))

abbrev InsertedRow : Profile → ℕ → List Profile → List Profile → Type 0
InsertedRow p n rows rows' =
    ((any (of_user p.user_id) rows ≡ true) × (n ≡ 0) × (rows' ≡ rows))
    ⊎ ((any (of_user p.user_id) rows ≡ false)
        × (has_username p.username rows ≡ false)
        × (fits p ≡ true)
        × (n ≡ 1)
        × (rows' ≡ rows ++ p ∷ []))

insert_profile-ok :
    (p : Profile) (n : ℕ) (rows rows' : List Profile)
    → insert_profile p rows ≡ ok (n, rows')
    → InsertedRow p n rows rows'
unfolding insert_profile
insert_profile-ok p n rows rows' h =
    by_cases (fits p) (any (of_user p.user_id) rows) (has_username p.username rows) refl refl refl h
  where
    by_cases :
        (f u s : Bool)
        → fits p ≡ f
        → any (of_user p.user_id) rows ≡ u
        → has_username p.username rows ≡ s
        → insert_as f u s p rows ≡ ok (n, rows')
        → InsertedRow p n rows rows'
    by_cases false u s a b c k = cc
    by_cases true true s a b c k = inl (b, cc, cc)
    by_cases true false true a b c k = cc
    by_cases true false false a b c k = inr (b, c, a, cc, cc)

pub with_rows-ok :
    (d d' : ProfileDb) (n : ℕ) (r : Result Error (ℕ × List Profile))
    → with_rows d r ≡ ok (n, d')
    → (rows : List Profile) × (r ≡ ok (n, rows)) × (d' ≡ record d { tables = rows })
with_rows-ok d d' n (ok (m, rows)) h =
    let same : m ≡ n = cc in
    let left : record d { tables = rows } ≡ d' = cc in (rows, ap (λ k. ok (k, rows)) same, sym left)
with_rows-ok d d' n (err e) h = cc
with_rows-ok d d' n fault h = cc

module _ {X : Type 0} where
  abbrev db_of : World ProfileDb X → ProfileDb
  db_of w = w.db

  create_if_absent-ok :
      (p : Profile) (b : Bool) (w w₁ : World ProfileDb X)
      → Returns (create_if_absent p) w b w₁
      → (n : ℕ) × (rows : List Profile) × (b ≡ (n == 1))
        × InsertedRow p n w.db.tables rows
        × (w₁.db ≡ record w.db { tables = rows })
  unfolding create_if_absent
  create_if_absent-ok p b w w₁ h =
      let (n, v, e, f) = bind-ok _ _ w w₁ b h in
      let (made, world) = pure-ok _ b v w₁ f in
      let (rows, wrote, left) =
        with_rows-ok w.db v.db n (insert_profile p w.db.tables) (execute-ok _ n w v e) in
      (n, rows, sym made, insert_profile-ok p n w.db.tables rows wrote, ap db_of (sym world) ∙ left)

  pub record_if-ok :
      (b : Bool) (p : Profile) (w w₁ : World ProfileDb X)
      → Returns (record_if b p) w tt w₁
      → w₁.db
        ≡ (if b then record w.db { outbox = insert (profile_updated p) w.db.outbox } else w.db)
  record_if-ok false p w w₁ h = let (_, same) = pure-ok tt tt w w₁ h in ap db_of (sym same)
  record_if-ok true p w w₁ h = announce-ok outbox_table (profile_updated p) w w₁ table_checked h

  module _ (pgx : Pgx) where
    insert_recorded-ok :
        (p : Profile) (w w' : World ProfileDb X)
        → Returns (insert_recorded pgx p) w tt w'
        → Inserted p w.db w'.db
    unfolding insert_recorded
    insert_recorded-ok p w w' h =
        let (w₁, w₂, began, ran, after) = in_tx-ok pgx _ w w' tt h in
        let (b, v, e, f) = bind-ok _ _ w₁ w₂ tt ran in
        let (n, rows, created, row, wrote) = create_if_absent-ok p b w₁ v e in
        let told = record_if-ok b p v w₂ f in
        subst (λ d. Inserted p d w'.db) began
          (settle w₁.db v.db w₂.db w'.db b n rows created row wrote told after)
      where
        settle :
            (d₁ d₂ d₃ d₄ : ProfileDb) (b : Bool) (n : ℕ) (rows : List Profile)
            → b ≡ (n == 1)
            → InsertedRow p n d₁.tables rows
            → d₂ ≡ record d₁ { tables = rows }
            → d₃ ≡ (if b then record d₂ { outbox = insert (profile_updated p) d₂.outbox } else d₂)
            → d₄ ≡ d₃
            → Inserted p d₁ d₄
        settle d₁ d₂ d₃ d₄ b n rows c (inl (there, zero_rows, same)) wrote told after =
            let not_created : b ≡ false = c ∙ ap (λ k. k == 1) zero_rows in
            inl (
              there,
              after
                  ∙ told
                  ∙ ap
                      (λ x.
                        if x
                        then record d₂ { outbox = insert (profile_updated p) d₂.outbox }
                        else d₂)
                      not_created
                  ∙ wrote
                  ∙ ap (λ l. record d₁ { tables = l }) same,
            )
        settle d₁ d₂ d₃ d₄ b n rows c (inr (absent, free, fine, one, same)) wrote told after =
            let is_created : b ≡ true = c ∙ ap (λ k. k == 1) one in
            inr (
              absent,
              free,
              fine,
              after
                  ∙ told
                  ∙ ap
                      (λ x.
                        if x
                        then record d₂ { outbox = insert (profile_updated p) d₂.outbox }
                        else d₂)
                      is_created
                  ∙ ap
                      (λ (d : ProfileDb). record d { outbox = insert (profile_updated p) d.outbox })
                      wrote
                  ∙ ap (λ l. record { tables = l; outbox = insert (profile_updated p) d₁.outbox })
                      same,
            )

    insert_recorded-IsAtomic : (p : Profile) → IsAtomic {X = X} (insert_recorded pgx p)
    unfolding insert_recorded
    insert_recorded-IsAtomic p = search atomic_rules

    -- An attempt, and the attempts behind it
    outcome-ok :
        (base : Profile) (username : List ℕ) (next : Service X (Unit {0}))
        (r : Result Error (Unit {0})) (w w₁ w' : World ProfileDb X)
        → insert_recorded pgx (record base { username = username }) w ≡ (r, w₁)
        → Returns (or_next r next) w₁ tt w'
        → (Returns next w₁ tt w'
            → (name : List ℕ) × Inserted (record base { username = name }) w₁.db w'.db)
        → (name : List ℕ) × Inserted (record base { username = name }) w.db w'.db
    outcome-ok base username next (ok u) w w₁ w' ran f later =
        let (_, same) = pure-ok tt tt w₁ w' f in
        (
          username,
          insert_recorded-ok (record base { username = username }) w w'
              (ran ∙ ap (λ v. (ok u, v)) same),
        )
    outcome-ok base username next (err username_taken) w w₁ w' ran f later =
        let before : w₁.db ≡ w.db =
          ap (λ (q : Result Error (Unit {0}) × World ProfileDb X). q.1.db) (sym ran)
          ∙ (insert_recorded-IsAtomic (record base { username = username })).at w
              (subst Fails (sym (ap (λ q. q.0) ran)) tt) in
        let (name, done) = later f in
        (name, subst (λ d. Inserted (record base { username = name }) d w'.db) before done)
    outcome-ok base username next (err profile_not_found) w w₁ w' ran f later =
        absurd (raise-ok profile_not_found tt w₁ w' f)
    outcome-ok base username next (err (validation fields)) w w₁ w' ran f later =
        absurd (raise-ok (validation fields) tt w₁ w' f)
    outcome-ok base username next fault w w₁ w' ran f later = absurd (broken-ok tt w₁ w' f)

    attempts-ok :
        (left attempt : ℕ) (base : Profile) (username : List ℕ) (w w' : World ProfileDb X)
        → Returns (attempts pgx left attempt base username) w tt w'
        → (name : List ℕ) × Inserted (record base { username = name }) w.db w'.db
    unfolding attempts
    attempts-ok zero attempt base username w w' h = absurd (broken-ok tt w w' h)
    attempts-ok (suc left) attempt base username w w' h =
        let (r, w₁, e, f) = bind-ok _ _ w w' tt h in
        let ran = caught-ok (insert_recorded pgx (record base { username = username })) r w w₁ e in
        outcome-ok base username
          (attempts pgx left (attempt + 1) base (base.username ++ itoa (attempt + 1))) r w w₁ w' ran
          f (attempts-ok left (attempt + 1) base (base.username ++ itoa (attempt + 1)) w₁ w')

    -- A registration that is handled without an error has found a profile of the user and written
    -- nothing, or has inserted the profile that the registration gives, under a username that nobody
    -- had, and announced it once.
    pub create_for_new_user-Once :
        (cases : Cases) (user_id : ℕ) (email : List ℕ) (now : ℕ) (w w' : World ProfileDb X)
        → Returns (create_for_new_user pgx cases user_id email now) w tt w'
        → (name : List ℕ) × Inserted
            (record (from_registration cases user_id email now) { username = name })
            w.db
            w'.db
    unfolding create_for_new_user
    create_for_new_user-Once cases user_id email now w w' h =
        let base = from_registration cases user_id email now in
        attempts-ok max_username_attempts 1 base base.username w w' h
