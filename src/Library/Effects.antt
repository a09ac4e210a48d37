-- ===== src/Library/Effects.antt =====
-- What a save or a removal writes to the rows of the library and to its outbox
-- (services/library/internal/application/service.go).
use mathlib.Core.Path.{subst}
use icyre.Prelude.{
  ℕ, ◌≡◌, ◌⊎◌, inl, inr, refl, sym, ap, ◌∙◌, Bool, true, false, none, some, List, [], ◌∷◌, ◌++◌,
  arith, any, find?, ◌==◌, if◌then◌else◌, count, Option-cases,
}
use icyre.Platform.Postgres.{Result, World, Pgx, lift, pure, broken, from_option, ◌>>=◌}
use icyre.Platform.Postgres.Inversion.{Returns, bind-ok, pure-ok, select-ok, update-ok, in_tx-ok}
use icyre.Platform.Outbox.{Db, insert}
use icyre.Platform.Outbox.Announce.{announce-ok}
use icyre.Platform.Outbox.TableName.{check_table, codes}
use icyre.Library.{Error, Kind, Item, Change}
use icyre.Library.Repository
use icyre.Library.Repository.{
  is_entry, find_entry, saved_at?, save_as, existing, insert_item, inserted_at, delete_item,
}
use icyre.Library.Service.{Event, saved, removed, announce_if, stamp, save, remove, outbox_table}

abbrev pub LibraryDb : Type 0
LibraryDb = Db (List Item) Event

table_checked : check_table (codes outbox_table) ≡ true
unfolding check_table
table_checked = refl

module _ {A : Type 0} where
  pub any_of_none : (p : A → Bool) (xs : List A) → find? p xs ≡ none → any p xs ≡ false
  any_of_none p [] h = refl
  any_of_none p (x ∷ xs) h = ground (arith, any_of_none p xs)

  any_of_some : (p : A → Bool) (a : A) (xs : List A) → find? p xs ≡ some a → any p xs ≡ true
  any_of_some p a [] h = absurd (ground arith)
  any_of_some p a (x ∷ xs) h = ground (arith, any_of_some p a xs)

module _ {X : Type 0} where
  abbrev pub db_of : World LibraryDb X → LibraryDb
  db_of w = w.db

  announce_if-ok :
      (b : Bool) (e : Event) (w w₁ : World LibraryDb X)
      → Returns {E = Error} (announce_if b e) w tt w₁
      → w₁.db ≡ (if b then record w.db { outbox = insert e w.db.outbox } else w.db)
  announce_if-ok false e w w₁ h = let (_, same) = pure-ok tt tt w w₁ h in ap db_of (sym same)
  announce_if-ok true e w w₁ h = announce-ok outbox_table e w w₁ table_checked h

  remove_repo-ok :
      (user : ℕ) (kind : Kind) (id at : ℕ) (ch : Change) (w w₁ : World LibraryDb X)
      → Returns (Repository.remove user kind id at) w ch w₁
      → (w₁.db ≡ record w.db { tables = delete_item user kind id w.db.tables })
        × (ch ≡ record {
          item = record { user_id = user; kind = kind; entity_id = id; saved_at = at };
          changed = count (is_entry user kind id) w.db.tables == 1;
        })
  unfolding Repository.remove
  remove_repo-ok user kind id at ch w w₁ h =
      let (n, v, e, f) = bind-ok _ _ w w₁ ch h in
      let (tag, after, _) = update-ok _ _ w v n e in
      let (made, same) = pure-ok _ ch v w₁ f in
      (
        ap db_of (sym same) ∙ after,
        sym made
            ∙ ap
                (λ k. record {
                  item = record { user_id = user; kind = kind; entity_id = id; saved_at = at };
                  changed = k == 1;
                })
                tag,
      )

  existing-ok :
      (it r : Item) (ch : Change) (w w₁ : World LibraryDb X)
      → find_entry it.user_id it.kind it.entity_id w.db.tables ≡ some r
      → Returns (existing it) w ch w₁
      → (ch ≡ record { item = record it { saved_at = r.saved_at }; changed = false })
        × (w₁.db ≡ w.db)
  unfolding existing
  existing-ok it r ch w w₁ there h =
      let (row, v, e, f) = bind-ok _ _ w w₁ ch h in
      let (read, same, _) = select-ok _ w v row e in
      let g =
        subst
          (λ o.
            Returns {E = Error}
              (from_option o broken >>= λ at.
                pure (record { item = record it { saved_at = at }; changed = false }))
              v ch w₁)
          (read ∙ ap saved_at? there) f in
      let (at, u, k, l) = bind-ok _ _ v w₁ ch g in
      let (got, same₁) = pure-ok r.saved_at at v u k in
      let (made, same₂) = pure-ok _ ch u w₁ l in
      (
        sym made
            ∙ ap (λ a. record { item = record it { saved_at = a }; changed = false }) (sym got),
        ap db_of (sym same₂ ∙ sym same₁) ∙ same,
      )

  save_repo-ok :
      (it : Item) (ch : Change) (w w₁ : World LibraryDb X)
      → Returns (Repository.save it) w ch w₁
      → ((find_entry it.user_id it.kind it.entity_id w.db.tables ≡ none)
          × (ch ≡ record { item = it; changed = true })
          × (w₁.db ≡ record w.db { tables = w.db.tables ++ it ∷ [] }))
        ⊎ ((r : Item) × (find_entry it.user_id it.kind it.entity_id w.db.tables ≡ some r)
            × (ch ≡ record { item = record it { saved_at = r.saved_at }; changed = false })
            × (w₁.db ≡ w.db))
  unfolding Repository.save save_as inserted_at insert_item
  save_repo-ok it ch w w₁ h =
      let (returned, v, e, f) = bind-ok _ _ w w₁ ch h in
      let (tag, after, _) = update-ok _ _ w v returned e in
      elim (Option-cases (find_entry it.user_id it.kind it.entity_id w.db.tables)) [
        | inl absent ↦
            let new : any (is_entry it.user_id it.kind it.entity_id) w.db.tables ≡ false =
              any_of_none (is_entry it.user_id it.kind it.entity_id) w.db.tables absent in
            let returns : returned ≡ some it.saved_at = tag ∙ (rw new refl) in
            let g = subst (λ o. Returns (save_as it o) v ch w₁) returns f in
            let (made, same) = pure-ok _ ch v w₁ g in
            inl (absent, sym made, ap db_of (sym same) ∙ after ∙ (rw new refl))
        | inr (r, there) ↦
            let old : any (is_entry it.user_id it.kind it.entity_id) w.db.tables ≡ true =
              any_of_some (is_entry it.user_id it.kind it.entity_id) r w.db.tables there in
            let returns : returned ≡ none = tag ∙ (rw old refl) in
            let g = subst (λ o. Returns (save_as it o) v ch w₁) returns f in
            let same : v.db ≡ w.db = after ∙ (rw old refl) in
            let (made, unchanged) =
              existing-ok it r ch v w₁
                (ap (λ (d : LibraryDb). find_entry it.user_id it.kind it.entity_id d.tables) same
                  ∙ there)
                g in
            inr (r, there, made, unchanged ∙ same)
      ]

-- The row that a save inserts
abbrev pub entry : ℕ → Kind → ℕ → ℕ → Item
entry user kind id now = record {
  user_id = user;
  kind = kind;
  entity_id = id;
  saved_at = stamp now;
}

-- The one row and the one event of a first save
abbrev pub with_saved : Item → LibraryDb → LibraryDb
with_saved it d = record { tables = d.tables ++ it ∷ []; outbox = insert (saved it) d.outbox }

-- The effect of a save that returned
abbrev pub SavedOnce : Item → Item → LibraryDb → LibraryDb → Type 0
SavedOnce new it before after =
    ((find_entry new.user_id new.kind new.entity_id before.tables ≡ none)
      × (it ≡ new)
      × (after ≡ with_saved new before))
    ⊎ ((r : Item) × (find_entry new.user_id new.kind new.entity_id before.tables ≡ some r)
        × (it ≡ record new { saved_at = r.saved_at })
        × (after ≡ before))

abbrev pub with_removed : ℕ → Kind → ℕ → ℕ → LibraryDb → LibraryDb
with_removed user kind id now d =
    if count (is_entry user kind id) d.tables == 1
    then record {
      tables = delete_item user kind id d.tables;
      outbox =
          insert (removed (record { user_id = user; kind = kind; entity_id = id; saved_at = now }))
            d.outbox;
    }
    else record d { tables = delete_item user kind id d.tables }

module _ {X : Type 0} (pgx : Pgx) where
  -- A save that returns has either inserted the entry that it returns, with the time of the request,
  -- where there was none, and announced it once; or it has changed nothing, announced nothing, and
  -- returns the time of the entry that was there.
  pub save-Once :
      (catalog : Result Error (Unit {0})) (user : ℕ) (kind : Kind) (id now : ℕ) (it : Item)
      (w w' : World LibraryDb X)
      → Returns (save pgx catalog user kind id now) w it w'
      → SavedOnce (entry user kind id now) it w.db w'.db
  unfolding save lift
  save-Once catalog user kind id now it w w' h =
      let new : Item = entry user kind id now in
      let (_, w₀, e, h₀) = bind-ok _ _ w w' it h in
      let before : w₀.db ≡ w.db = ap db_of (sym (ap (λ p. p.1) e)) in
      let (ch, w₃, t, l) = bind-ok _ _ w₀ w' it h₀ in
      let (returned, same) = pure-ok ch.item it w₃ w' l in
      let (w₁, w₂, began, ran, after) = in_tx-ok pgx _ w₀ w₃ ch t in
      let (ch₁, v, stored, k) = bind-ok _ _ w₁ w₂ ch ran in
      let (_, u, told, l₁) = bind-ok _ _ v w₂ ch k in
      let (made, same₁) = pure-ok ch₁ ch u w₂ l₁ in
      let announced = announce_if-ok ch₁.changed (saved ch₁.item) v u told in
      let left : w'.db ≡ u.db = ap db_of (sym same) ∙ after ∙ ap db_of (sym same₁) in
      let start : w₁.db ≡ w.db = began ∙ before in
      elim (save_repo-ok new ch₁ w₁ v stored) [
        | inl (absent, one, wrote) ↦ inl (
          subst (λ (d : LibraryDb). find_entry user kind id d.tables ≡ none) start absent,
          sym returned ∙ ap (λ (c : Change). c.item) (sym made ∙ one),
          left
              ∙ announced
              ∙ ap
                  (λ (c : Change).
                    if c.changed
                    then record v.db { outbox = insert (saved c.item) v.db.outbox }
                    else v.db)
                  one
              ∙ ap (λ (d : LibraryDb). record d { outbox = insert (saved new) d.outbox }) wrote
              ∙ ap (with_saved new) start,
        )
        | inr (r, there, one, wrote) ↦ inr (
          r,
          subst (λ (d : LibraryDb). find_entry user kind id d.tables ≡ some r) start there,
          sym returned ∙ ap (λ (c : Change). c.item) (sym made ∙ one),
          left
              ∙ announced
              ∙ ap
                  (λ (c : Change).
                    if c.changed
                    then record v.db { outbox = insert (saved c.item) v.db.outbox }
                    else v.db)
                  one
              ∙ wrote
              ∙ start,
        )
      ]

  -- A removal that returns has removed the entry and announced it with the time of the request.
  pub remove-Announced :
      (user : ℕ) (kind : Kind) (id now : ℕ) (w w' : World LibraryDb X)
      → Returns (remove pgx user kind id now) w tt w'
      → w'.db ≡ with_removed user kind id now w.db
  unfolding remove
  remove-Announced user kind id now w w' h =
      let (w₁, w₂, began, ran, after) = in_tx-ok pgx _ w w' tt h in
      let (ch, v, stored, told) = bind-ok _ _ w₁ w₂ tt ran in
      let (wrote, made) = remove_repo-ok user kind id now ch w₁ v stored in
      let announced = announce_if-ok ch.changed (removed ch.item) v w₂ told in
      after
      ∙ announced
      ∙ ap
          (λ (c : Change).
            if c.changed
            then record v.db { outbox = insert (removed c.item) v.db.outbox }
            else v.db)
          made
      ∙ ap
          (λ (d : LibraryDb).
            if count (is_entry user kind id) w₁.db.tables == 1
            then record d {
              outbox =
                  insert
                    (removed
                      (record { user_id = user; kind = kind; entity_id = id; saved_at = now }))
                    d.outbox;
            }
            else d)
          wrote
      ∙ ap (with_removed user kind id now) began
