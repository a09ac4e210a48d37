-- ===== src/Platform/Outbox/Announce.antt =====
-- The publishers of the services (services/*/internal/adapters/kafka/publisher.go): an envelope, and
-- the message written to the outbox in the transaction of the change.
use Prim.Native.String.{String}
use icyre.Prelude.{◌≡◌, sym, ap, ◌∙◌, true, [], ◌∷◌, if◌then◌else◌}
use mathlib.Core.Path.{subst}
use icyre.Platform.Postgres.{World, Exec, broken, select, ◌>>◌}
use icyre.Platform.Postgres.Keeps.{Keeps, keeps_rules}
use icyre.Platform.Postgres.Inversion.{Returns, bind-ok, pure-ok, select-ok, update-ok}
use icyre.Platform.Outbox.{Db, insert, insert_all, write}
use icyre.Platform.Outbox.TableName.{check_table, codes}

module _ {T M X E : Type 0} where
  -- The envelope may fail (its UUID, its JSON), then the outbox takes the message.
  unfoldable pub announce : String → M → Exec (Db T M) X E (Unit {0})
  announce table m = do select (λ _. tt {0}); write table (m ∷ [])

  insert_all-ok :
      (m : M) (w w₁ : World (Db T M) X)
      → Returns {E = E} (insert_all (m ∷ [])) w tt w₁
      → w₁.db ≡ record w.db { outbox = insert m w.db.outbox }
  unfolding insert_all
  insert_all-ok m w w₁ h =
      let (_, v, e, f) = bind-ok _ _ w w₁ tt h in
      let (_, after, _) = update-ok _ _ w v tt e in
      let (_, same) = pure-ok tt tt v w₁ f in ap (λ (u : World (Db T M) X). u.db) (sym same) ∙ after

  -- An announcement that returned has added its message, and changed nothing else.
  pub announce-ok :
      (table : String) (m : M) (w w₁ : World (Db T M) X)
      → check_table (codes table) ≡ true
      → Returns {E = E} (announce table m) w tt w₁
      → w₁.db ≡ record w.db { outbox = insert m w.db.outbox }
  unfolding announce write
  announce-ok table m w w₁ c h =
      let (_, v, e, f) = bind-ok _ _ w w₁ tt h in
      let (_, same, _) = select-ok _ w v tt e in
      insert_all-ok m v w₁
        (subst (λ b. Returns {E = E} (if b then insert_all (m ∷ []) else broken) v tt w₁) c f)
      ∙ ap (λ (d : Db T M). record d { outbox = insert m d.outbox }) same

  -- What holds of the tables alone holds after an announcement.
  pub announce-Keeps :
      (P : T → Type 0) (table : String) (m : M)
      → Keeps {X = X} {E = E} (λ (d : Db T M). P d.tables) (announce table m)
  unfolding announce write
  announce-Keeps P table m = search keeps_rules
