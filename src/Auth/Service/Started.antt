-- ===== src/Auth/Service/Started.antt =====
-- The sessions that services/auth/internal/application/service.go starts.
use icyre.Prelude.{
  ℕ, ◌+◌, ◌≡◌, refl, sym, ap, ◌∙◌, Bool, true, false, not, ◌||◌, Option, none, some, List, [], ◌∷◌,
  ◌++◌, any, ◌==◌, if◌then◌else◌,
}
use icyre.Platform.Postgres.{Result, ok, fault, World, Pgx}
use icyre.Platform.Postgres.Inversion.{Returns, bind-ok, pure-ok, execute-ok, lift-ok, in_tx-ok}
use icyre.Platform.Outbox.{insert}
use icyre.Platform.Outbox.TableName.{check_table, codes}
use icyre.Platform.Outbox.Announce.{announce, announce-ok}
use icyre.Auth.{Error, Account, Session, new_session, Event, session_created}
use icyre.Auth.Repository
use icyre.Auth.Repository.Sql.{Tables, insert_session, session_row}
use icyre.Auth.Service.{
  Deps, Minted, Granted, outbox_table, or_fault, record_events, start_session, sign_in,
}
use icyre.Auth.Service.Refreshed.{AuthDb, on_tables-ok, or_fault-ok}

table_checked : check_table (codes outbox_table) ≡ true
unfolding check_table
table_checked = refl

-- A session of the account is stored and announced, and its token returned.
pub record IsStarted (account : Account) (now ttl : ℕ) (minted : Option Minted) (new_id : Option ℕ)
    (g : Granted) (before after : AuthDb) : Type 0 where
  pub session : Session
  pub token : Minted
  pub drawn : minted ≡ some token
  pub numbered : new_id ≡ some session.id
  pub of_account : session.user_id ≡ account.id
  pub hashed : session.refresh_hash ≡ token.hash
  pub ends : session.expires_at ≡ now + ttl
  pub fresh : session.revoked_at ≡ none
  pub stored : after.tables.sessions ≡ before.tables.sessions ++ session ∷ []
  pub accounts_stay : after.tables.accounts ≡ before.tables.accounts
  pub announced : after.outbox ≡ insert (session_created session) before.outbox
  pub to_account : g.account ≡ account
  pub to_session : g.session_id ≡ session.id
  pub to_token : g.refresh_token ≡ token.token

insert_session-ok :
    (s : Session) (t t' : Tables)
    → insert_session s t ≡ ok (tt, t')
    → t' ≡ record t { sessions = t.sessions ++ session_row s ∷ [] }
unfolding insert_session
insert_session-ok s t t' h =
    by_case
      (not (any (λ (r : Account). r.id == s.user_id) t.accounts)
        || any (λ (r : Session). r.id == s.id) t.sessions
        || any (λ (r : Session). r.refresh_hash == s.refresh_hash) t.sessions)
      h
  where
    by_case :
        (b : Bool)
        → ◌≡◌ {A = Result Error (Unit {0} × Tables)}
            (if b then fault else ok (tt, record t { sessions = t.sessions ++ session_row s ∷ [] }))
            (ok (tt, t'))
        → t' ≡ record t { sessions = t.sessions ++ session_row s ∷ [] }
    by_case true k = absurd cc
    by_case false k =
        let same : record t { sessions = t.sessions ++ session_row s ∷ [] } ≡ t' = cc in sym same

module _ {X : Type 0} where
  abbrev db_of : World AuthDb X → AuthDb
  db_of w = w.db

  create_session-ok :
      (s : Session) (w w₁ : World AuthDb X)
      → Returns (Repository.create_session s) w tt w₁
      → w₁.db ≡ record w.db {
        tables = record w.db.tables { sessions = w.db.tables.sessions ++ session_row s ∷ [] };
      }
  unfolding Repository.create_session
  create_session-ok s w w₁ h =
      let (t, done, left) =
        on_tables-ok w.db w₁.db tt (insert_session s w.db.tables) (execute-ok _ tt w w₁ h) in
      left
      ∙ ap (λ (z : Tables). record w.db { tables = z }) (insert_session-ok s w.db.tables t done)

  record_events-ok :
      (e : Event) (w w₁ : World AuthDb X)
      → Returns (record_events (e ∷ [])) w tt w₁
      → w₁.db ≡ record w.db { outbox = insert e w.db.outbox }
  unfolding record_events announce
  record_events-ok e w w₁ h = announce-ok outbox_table e w w₁ table_checked h

module _ {X : Type 0} (d : Deps X) (pgx : Pgx) where
  start_session-ok :
      (acc : Account) (agent : List ℕ) (now : ℕ) (minted : Option Minted) (new_id : Option ℕ)
      (p : Granted × Session) (w w₁ : World AuthDb X)
      → Returns (start_session d pgx acc agent now minted new_id) w p w₁
      → (m : Minted) × (id : ℕ) × (minted ≡ some m)
        × (new_id ≡ some id)
        × (p.1 ≡ new_session id acc.id m.hash agent now d.session_ttl)
        × (p.0.account ≡ acc)
        × (p.0.session_id ≡ id)
        × (p.0.refresh_token ≡ m.token)
        × (w₁.db ≡ record w.db {
          tables = record w.db.tables { sessions = w.db.tables.sessions ++ p.1 ∷ [] };
        })
  unfolding start_session new_session session_row
  start_session-ok acc agent now minted new_id p w w₁ h =
      let (m, v₁, e₁, r₁) = bind-ok _ _ w w₁ p h in
      let (drawn, same₁) = lift-ok (or_fault minted) m w v₁ e₁ in
      let (id, v₂, e₂, r₂) = bind-ok _ _ v₁ w₁ p r₁ in
      let (numbered, same₂) = lift-ok (or_fault new_id) id v₁ v₂ e₂ in
      let (_, v₃, e₃, r₃) = bind-ok _ _ v₂ w₁ p r₂ in
      let (access, v₄, e₄, r₄) = bind-ok _ _ v₃ w₁ p r₃ in
      let (_, same₄) = lift-ok (or_fault (d.issue acc id now)) access v₃ v₄ e₄ in
      let (result, same) = pure-ok _ p v₄ w₁ r₄ in
      let s : Session = new_session id acc.id m.hash agent now d.session_ttl in
      let start : v₂.db ≡ w.db = ap db_of same₂ ∙ ap db_of same₁ in
      let made : s ≡ p.1 = ap (λ (q : Granted × Session). q.1) result in
      (
        m,
        id,
        or_fault-ok minted m drawn,
        or_fault-ok new_id id numbered,
        sym made,
        ap (λ (q : Granted × Session). q.0.account) (sym result),
        ap (λ (q : Granted × Session). q.0.session_id) (sym result),
        ap (λ (q : Granted × Session). q.0.refresh_token) (sym result),
        ap db_of (sym same) ∙ ap db_of same₄ ∙ create_session-ok s v₂ v₃ e₃ ∙ (λ i.
            record (start i) {
              tables = record (start i).tables {
                sessions = (start i).tables.sessions ++ made i ∷ [];
              };
            }),
      )

  pub sign_in-ok :
      (acc : Account) (agent : List ℕ) (now : ℕ) (minted : Option Minted) (new_id : Option ℕ)
      (g : Granted) (w w' : World AuthDb X)
      → Returns (sign_in d pgx acc agent now minted new_id) w g w'
      → IsStarted acc now d.session_ttl minted new_id g w.db w'.db
  unfolding sign_in new_session
  sign_in-ok acc agent now minted new_id g w w' h =
      let (w₁, w₂, began, ran, ended) = in_tx-ok pgx _ w w' g h in
      let (p, v, e, f) = bind-ok _ _ w₁ w₂ g ran in
      let (m, id, drawn, numbered, made, acc_same, id_same, token_same, rows) =
        start_session-ok acc agent now minted new_id p w₁ v e in
      let (_, v₂, e₂, f₂) = bind-ok _ _ v w₂ g f in
      let (result, same) = pure-ok p.0 g v₂ w₂ f₂ in
      let after : w'.db ≡ record {
        tables = record w.db.tables { sessions = w.db.tables.sessions ++ p.1 ∷ [] };
        outbox = insert (session_created p.1) w.db.outbox;
      } =
        ended
        ∙ ap db_of (sym same)
        ∙ record_events-ok (session_created p.1) v v₂ e₂
        ∙ ap (λ (c : AuthDb). record c { outbox = insert (session_created p.1) c.outbox }) rows
        ∙ ap
            (λ (c : AuthDb). record {
              tables = record c.tables { sessions = c.tables.sessions ++ p.1 ∷ [] };
              outbox = insert (session_created p.1) c.outbox;
            })
            began in
      record {
        session = p.1;
        token = m;
        drawn = drawn;
        numbered = numbered ∙ ap (λ (z : Session). some z.id) (sym made);
        of_account = ap (λ (z : Session). z.user_id) made;
        hashed = ap (λ (z : Session). z.refresh_hash) made;
        ends = ap (λ (z : Session). z.expires_at) made;
        fresh = ap (λ (z : Session). z.revoked_at) made;
        stored = ap (λ (c : AuthDb). c.tables.sessions) after;
        accounts_stay = ap (λ (c : AuthDb). c.tables.accounts) after;
        announced = ap (λ (c : AuthDb). c.outbox) after;
        to_account = ap (λ (x : Granted). x.account) (sym result) ∙ acc_same;
        to_session =
            ap (λ (x : Granted). x.session_id) (sym result)
            ∙ id_same
            ∙ ap (λ (z : Session). z.id) (sym made);
        to_token = ap (λ (x : Granted). x.refresh_token) (sym result) ∙ token_same;
      }
