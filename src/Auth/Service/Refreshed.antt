-- ===== src/Auth/Service/Refreshed.antt =====
-- Refresh of services/auth/internal/application/service.go where it returns.
use mathlib.Core.Path.{subst}
use icyre.Prelude.{
  ℕ, ◌+◌, ◌≡◌, sym, ap, ◌∙◌, Bool, true, false, not, Option, none, some, List, [], ◌∷◌, map, any,
  if◌then◌else◌,
}
use icyre.Platform.Postgres.{◌>>=◌, pure, Result, ok, err, fault, World, Exec, raise, Pgx, caught}
use icyre.Platform.Postgres.Inversion.{
  Returns, bind-ok, pure-ok, raise-ok, broken-ok, select-ok, execute-ok, lift-ok, from_option-ok,
  caught-ok,
}
use icyre.Platform.Outbox.{Db}
use icyre.Auth.{
  Error, Account, session_inactive, invalid_refresh, refresh_reuse, concurrent_update, Session,
  active, rotate, Event,
}
use icyre.Auth.Repository
use icyre.Auth.Repository.{on_tables}
use icyre.Auth.Repository.Sql.{Tables, is_current, rotated, rotate_session, session_by_refresh_hash}
use icyre.Auth.Repository.Rotation.{
  holds, others, holds-rotated, others-rotated, rotate-ok, rotate_session-ok,
}
use icyre.Auth.Service.{
  Deps, Minted, Granted, or_fault, is_session_not_found, reused, exchange, refresh_as, refresh,
}

abbrev pub AuthDb : Type 0
AuthDb = Db Tables Event

pub on_tables-ok :
    {A : Type 0} (d d' : AuthDb) (a : A) (r : Result Error (A × Tables))
    → on_tables d r ≡ ok (a, d')
    → (t : Tables) × (r ≡ ok (a, t)) × (d' ≡ record d { tables = t })
on_tables-ok d d' a (ok (b, t)) h =
    let same : b ≡ a = cc in
    let left : record d { tables = t } ≡ d' = cc in (t, ap (λ k. ok (k, t)) same, sym left)
on_tables-ok d d' a (err e) h = absurd cc
on_tables-ok d d' a fault h = absurd cc

pub or_fault-ok : {A : Type 0} (o : Option A) (a : A) → or_fault o ≡ ok a → o ≡ some a
or_fault-ok none a h = absurd cc
or_fault-ok (some b) a h = let same : b ≡ a = cc in ap (λ z. some z) same

-- The session behind the token was active, and goes on under the token that is returned: its row holds
-- the new hash in place of the old one, and nothing else of the database changes.
pub record IsRefreshed (old now ttl : ℕ) (minted : Option Minted) (g : Granted)
    (before after : AuthDb) : Type 0 where
  pub session : Session
  pub token : Minted
  pub drawn : minted ≡ some token
  pub found : session_by_refresh_hash old before.tables ≡ some session
  pub was_active : active session now ≡ true
  pub same_session : g.session_id ≡ session.id
  pub returned : g.refresh_token ≡ token.token
  pub until : g.refresh_until ≡ now + ttl
  pub stored : any (holds session.id old token.hash) after.tables.sessions ≡ true
  pub others_stay :
      others session.id after.tables.sessions ≡ others session.id before.tables.sessions
  pub accounts_stay : after.tables.accounts ≡ before.tables.accounts
  pub outbox_stays : after.outbox ≡ before.outbox

module _ {X : Type 0} where
  abbrev db_of : World AuthDb X → AuthDb
  db_of w = w.db

  by_refresh_hash-ok :
      (hash : ℕ) (s : Session) (w w₁ : World AuthDb X)
      → Returns (Repository.by_refresh_hash hash) w s w₁
      → (session_by_refresh_hash hash w.db.tables ≡ some s) × (w₁.db ≡ w.db)
  unfolding Repository.by_refresh_hash
  by_refresh_hash-ok hash s w w₁ h =
      let (o, v, e, f) = bind-ok _ _ w w₁ s h in
      let (read, same, _) = select-ok _ w v o e in
      let (there, world) = from_option-ok o _ s v w₁ f in (sym read ∙ there, ap db_of world ∙ same)

  by_id-ok :
      (id : ℕ) (a : Account) (w w₁ : World AuthDb X)
      → Returns (Repository.by_id id) w a w₁
      → w₁.db ≡ w.db
  unfolding Repository.by_id
  by_id-ok id a w w₁ h =
      let (o, v, e, f) = bind-ok _ _ w w₁ a h in
      let (_, same, _) = select-ok _ w v o e in
      let (_, world) = from_option-ok o _ a v w₁ f in ap db_of world ∙ same

  save_rotation-ok :
      (s : Session) (old : ℕ) (w w₁ : World AuthDb X)
      → Returns (Repository.save_rotation s old) w tt w₁
      → (any (is_current s.id old) w.db.tables.sessions ≡ true)
        × (w₁.db ≡ record w.db {
          tables = record w.db.tables { sessions = map (rotated s old) w.db.tables.sessions };
        })
  unfolding Repository.save_rotation
  save_rotation-ok s old w w₁ h =
      let (b, v, e, f) = bind-ok _ _ w w₁ tt h in
      let ran = execute-ok _ b w v e in by_answer b v ran f
    where
      by_answer :
          (b : Bool) (v : World AuthDb X)
          → on_tables w.db (rotate_session s old w.db.tables) ≡ ok (b, v.db)
          → Returns {A = Unit {0}} (if b then pure tt else raise concurrent_update) v tt w₁
          → (any (is_current s.id old) w.db.tables.sessions ≡ true)
            × (w₁.db ≡ record w.db {
              tables = record w.db.tables { sessions = map (rotated s old) w.db.tables.sessions };
            })
      by_answer false v r f = absurd (raise-ok concurrent_update tt v w₁ f)
      by_answer true v r f =
          let (t, done, left) = on_tables-ok w.db v.db true (rotate_session s old w.db.tables) r in
          let (there, rows) = rotate_session-ok s old w.db.tables t done in
          let (_, world) = pure-ok tt tt v w₁ f in
          (
            there,
            ap db_of (sym world) ∙ left ∙ ap (λ (z : Tables). record w.db { tables = z }) rows,
          )

module _ {X : Type 0} (d : Deps X) (pgx : Pgx) where
  unless-ok :
      (b : Bool) (e : Error) (m : Exec AuthDb X Error Granted) (w w₁ : World AuthDb X) (g : Granted)
      → Returns (if not b then raise e else m) w g w₁
      → Returns m w g w₁
  unless-ok false e m w w₁ g h = absurd (raise-ok e g w w₁ h)
  unless-ok true e m w w₁ g h = h

  exchange-ok :
      (s : Session) (old now : ℕ) (minted : Option Minted) (g : Granted) (w w' : World AuthDb X)
      → session_by_refresh_hash old w.db.tables ≡ some s
      → Returns (exchange d pgx s old now minted) w g w'
      → IsRefreshed old now d.session_ttl minted g w.db w'.db
  unfolding exchange
  exchange-ok s old now minted g w w' found h =
      let (m, w₁, e₁, r₁) =
        bind-ok _ _ w w' g (unless-ok (active s now) session_inactive _ w w' g h) in
      let (drawn, same₁) = lift-ok (or_fault minted) m w w₁ e₁ in
      let (s', w₂, e₂, r₂) = bind-ok _ _ w₁ w' g r₁ in
      let (turned, same₂) = lift-ok (rotate s m.hash now d.session_ttl) s' w₁ w₂ e₂ in
      let (_, w₃, e₃, r₃) = bind-ok _ _ w₂ w' g r₂ in
      let (there, rows) = save_rotation-ok s' old w₂ w₃ e₃ in
      let (acc, w₄, e₄, r₄) = bind-ok _ _ w₃ w' g r₃ in
      let (access, w₅, e₅, r₅) = bind-ok _ _ w₄ w' g r₄ in
      let (_, same₅) = lift-ok (or_fault (d.issue acc s'.id now)) access w₄ w₅ e₅ in
      let (result, same) = pure-ok _ g w₅ w' r₅ in
      let (live, keeps_id, new_hash, until) = rotate-ok s s' m.hash now d.session_ttl turned in
      let start : w₂.db ≡ w.db = ap db_of same₂ ∙ ap db_of same₁ in
      let after : w'.db ≡ record w.db {
        tables = record w.db.tables { sessions = map (rotated s' old) w.db.tables.sessions };
      } =
        ap db_of (sym same)
        ∙ ap db_of same₅
        ∙ by_id-ok s'.user_id acc w₃ w₄ e₄
        ∙ rows
        ∙ ap
            (λ (c : AuthDb). record c {
              tables = record c.tables { sessions = map (rotated s' old) c.tables.sessions };
            })
            start in
      let current : any (is_current s'.id old) w.db.tables.sessions ≡ true =
        subst (λ (c : AuthDb). any (is_current s'.id old) c.tables.sessions ≡ true) start there in
      let rows' : w'.db.tables.sessions ≡ map (rotated s' old) w.db.tables.sessions =
        ap (λ (c : AuthDb). c.tables.sessions) after in
      record {
        session = s;
        token = m;
        drawn = or_fault-ok minted m drawn;
        found = found;
        was_active = live;
        same_session = ap (λ (x : Granted). x.session_id) (sym result) ∙ keeps_id;
        returned = ap (λ (x : Granted). x.refresh_token) (sym result);
        until = ap (λ (x : Granted). x.refresh_until) (sym result) ∙ until;
        stored =
            ap (any (holds s.id old m.hash)) rows'
            ∙ (λ i.
                any (holds (sym keeps_id i) old (sym new_hash i))
                  (map (rotated s' old) w.db.tables.sessions))
            ∙ holds-rotated s' old w.db.tables.sessions current;
        others_stay =
            ap (others s.id) rows'
            ∙ subst
                (λ n.
                  others n (map (rotated s' old) w.db.tables.sessions)
                  ≡ others n w.db.tables.sessions)
                keeps_id (others-rotated s' old w.db.tables.sessions);
        accounts_stay = ap (λ (c : AuthDb). c.tables.accounts) after;
        outbox_stays = ap (λ (c : AuthDb). c.outbox) after;
      }

  reused-ok :
      (r : Result Error Session) (now : ℕ) (g : Granted) (w w' : World AuthDb X)
      → Returns (reused d pgx r now) w g w'
      → ⊥
  unfolding reused
  reused-ok (ok s) now g w w' h =
      let (_, v, _, f) = bind-ok _ _ w w' g h in raise-ok refresh_reuse g v w' f
  reused-ok (err e) now g w w' h = raise-ok invalid_refresh g w w' h
  reused-ok fault now g w w' h = raise-ok invalid_refresh g w w' h

  unknown-ok :
      (b : Bool) (e : Error) (old now : ℕ) (g : Granted) (w w' : World AuthDb X)
      → Returns
          (if b
            then (do found ← caught (Repository.by_previous_hash old); reused d pgx found now)
            else raise e)
          w
          g
          w'
      → ⊥
  unknown-ok true e old now g w w' h =
      let (r, v, _, f) = bind-ok _ _ w w' g h in reused-ok r now g v w' f
  unknown-ok false e old now g w w' h = raise-ok e g w w' h

  refresh_as-ok :
      (r : Result Error Session) (old now : ℕ) (minted : Option Minted) (g : Granted)
      (w w₁ w' : World AuthDb X)
      → Repository.by_refresh_hash old w ≡ (r, w₁)
      → Returns (refresh_as d pgx r old now minted) w₁ g w'
      → IsRefreshed old now d.session_ttl minted g w.db w'.db
  unfolding refresh_as
  refresh_as-ok (ok s) old now minted g w w₁ w' ran h =
      let (found, same) = by_refresh_hash-ok old s w w₁ ran in
      subst (λ c. IsRefreshed old now d.session_ttl minted g c w'.db) same
        (exchange-ok s old now minted g w₁ w'
          (subst (λ (c : AuthDb). session_by_refresh_hash old c.tables ≡ some s) (sym same) found)
          h)
  refresh_as-ok (err e) old now minted g w w₁ w' ran h =
      absurd (unknown-ok (is_session_not_found e) e old now g w₁ w' h)
  refresh_as-ok fault old now minted g w w₁ w' ran h = absurd (broken-ok g w₁ w' h)

  -- A refresh that returns has found an active session under the hash of the token. It returns that
  -- session and a new token, whose hash the session's row now holds, with the old one as its previous
  -- hash; other sessions, the accounts and the outbox stay.
  pub refresh-IsRefreshed :
      (token : List ℕ) (now : ℕ) (minted : Option Minted) (g : Granted) (w w' : World AuthDb X)
      → refresh d pgx token now minted w ≡ (ok g, w')
      → IsRefreshed (d.hash_token token) now d.session_ttl minted g w.db w'.db
  unfolding refresh
  refresh-IsRefreshed [] now minted g w w' h = absurd (raise-ok invalid_refresh g w w' h)
  refresh-IsRefreshed (c ∷ cs) now minted g w w' h =
      let (r, w₁, e, f) = bind-ok _ _ w w' g h in
      refresh_as-ok r (d.hash_token (c ∷ cs)) now minted g w w₁ w'
        (caught-ok (Repository.by_refresh_hash (d.hash_token (c ∷ cs))) r w w₁ e) f
