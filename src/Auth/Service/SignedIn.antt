-- ===== src/Auth/Service/SignedIn.antt =====
-- Login of services/auth/internal/application/service.go where it returns.
use mathlib.Core.Path.{subst}
use icyre.Prelude.{
  ℕ, ◌≡◌, ◌⊎◌, inl, inr, refl, sym, ap, ◌∙◌, Bool, true, false, Option, none, some, List,
  if◌then◌else◌,
}
use icyre.Platform.Postgres.{Result, ok, err, fault, World, Exec, pure, raise, Pgx, reach}
use icyre.Platform.Postgres.Inversion.{
  Returns, bind-ok, pure-ok, raise-ok, broken-ok, select-ok, lift-ok, from_option-ok, caught-ok,
}
use icyre.Auth.{Error, Account, invalid_credentials, too_many_attempts, normalize_email}
use icyre.Auth.Repository
use icyre.Auth.Repository.Sql.{account_by_email}
use icyre.Auth.Service.{
  Deps, Minted, Granted, or_fault, is_account_not_found, is_refused, known, hash_of, reject,
  checked, login_allowed, login,
}
use icyre.Auth.Service.Refreshed.{AuthDb, or_fault-ok}
use icyre.Auth.Service.Started.{IsStarted, sign_in-ok}

module _ {X : Type 0} where
  abbrev db_of : World AuthDb X → AuthDb
  db_of w = w.db

  by_email-ok :
      (email : List ℕ) (a : Account) (w w₁ : World AuthDb X)
      → Returns (Repository.by_email email) w a w₁
      → (account_by_email email w.db.tables ≡ some a) × (w₁.db ≡ w.db)
  unfolding Repository.by_email
  by_email-ok email a w w₁ h =
      let (o, v, e, f) = bind-ok _ _ w w₁ a h in
      let (read, same, _) = select-ok _ w v o e in
      let (there, world) = from_option-ok o _ a v w₁ f in (sym read ∙ there, ap db_of world ∙ same)

  reach-ok :
      {A : Type 0} (f : X → A × X) (a : A) (w w₁ : World AuthDb X)
      → Returns {E = Error} (reach f) w a w₁
      → ((f w.outside).0 ≡ a) × (w₁.db ≡ w.db)
  unfolding reach
  reach-ok f a w w₁ h =
      (value _ a (ap (λ p. p.0) h), ap (λ (p : Result Error _ × World AuthDb X). p.1.db) (sym h))
    where
      value : {B : Type 0} (x y : B) → ◌≡◌ {A = Result Error B} (ok x) (ok y) → x ≡ y
      value x y k = cc

module _ {X : Type 0} (d : Deps X) (pgx : Pgx) where
  reject-ok :
      (email : List ℕ) (g : Granted) (w w' : World AuthDb X)
      → Returns (reject d pgx email) w g w'
      → ⊥
  unfolding reject
  reject-ok email g w w' h =
      let (_, v, _, f) = bind-ok _ _ w w' g h in raise-ok invalid_credentials g v w' f

  -- The throttle lets the address pass, its account is there, and the password is the account's.
  pub record IsSignedIn (email password : List ℕ) (now : ℕ) (minted : Option Minted)
      (new_id : Option ℕ) (x : X) (g : Granted) (before after : AuthDb) : Type 0 where
    pub account : Account
    pub let_pass : is_refused (d.allow email x).0 ≡ false
    pub found : account_by_email email before.tables ≡ some account
    pub matches : d.verify password account.password_hash ≡ some true
    pub started : IsStarted account now d.session_ttl minted new_id g before after

  raised-ok :
      (b : Bool) (e : Error) (m : Exec AuthDb X Error Granted) (w w₁ : World AuthDb X) (g : Granted)
      → Returns (if b then raise e else m) w g w₁
      → (b ≡ false) × Returns m w g w₁
  raised-ok true e m w w₁ g h = absurd (raise-ok e g w w₁ h)
  raised-ok false e m w w₁ g h = (refl, h)

  known-ok :
      (r : Result Error Account) (o : Option Account) (w w₁ : World AuthDb X)
      → Returns (known d pgx r) w o w₁
      → (w₁ ≡ w) × ((o ≡ none) ⊎ ((acc : Account) × (o ≡ some acc) × (r ≡ ok acc)))
  known-ok (ok acc) o w w₁ h =
      let (same, world) = pure-ok (some acc) o w w₁ h in (sym world, inr (acc, sym same, refl))
  known-ok (err e) o w w₁ h = absent (is_account_not_found e) h
    where
      absent :
          (b : Bool)
          → Returns {A = Option Account} (if b then pure none else raise e) w o w₁
          → (w₁ ≡ w) × ((o ≡ none) ⊎ ((acc : Account) × (o ≡ some acc) × (err e ≡ ok acc)))
      absent true k = let (same, world) = pure-ok none o w w₁ k in (sym world, inl (sym same))
      absent false k = absurd (raise-ok e o w w₁ k)
  known-ok fault o w w₁ h = absurd (broken-ok o w w₁ h)

  -- What the checks of the account and of the password let through
  checked-ok :
      (o : Option Account) (match : Bool) (email agent : List ℕ) (now : ℕ) (minted : Option Minted)
      (new_id : Option ℕ) (g : Granted) (w w' : World AuthDb X)
      → Returns (checked d pgx o match email agent now minted new_id) w g w'
      → (acc : Account) × (o ≡ some acc)
        × (match ≡ true)
        × IsStarted acc now d.session_ttl minted new_id g w.db w'.db
  unfolding checked
  checked-ok none match email agent now minted new_id g w w' h = absurd (reject-ok email g w w' h)
  checked-ok (some acc) false email agent now minted new_id g w w' h =
      absurd (reject-ok email g w w' h)
  checked-ok (some acc) true email agent now minted new_id g w w' h =
      let (_, v, e, f) = bind-ok _ _ w w' g h in
      let (_, same) = reach-ok (d.reset email) tt w v e in
      (
        acc,
        refl,
        refl,
        subst (λ c. IsStarted acc now d.session_ttl minted new_id g c w'.db) same
            (sign_in-ok d pgx acc agent now minted new_id g v w' f),
      )

  login_allowed-ok :
      (email password agent : List ℕ) (now : ℕ) (minted : Option Minted) (new_id : Option ℕ)
      (g : Granted) (w w' : World AuthDb X)
      → Returns (login_allowed d pgx email password agent now minted new_id) w g w'
      → (acc : Account) × (account_by_email email w.db.tables ≡ some acc)
        × (d.verify password acc.password_hash ≡ some true)
        × IsStarted acc now d.session_ttl minted new_id g w.db w'.db
  unfolding login_allowed
  login_allowed-ok email password agent now minted new_id g w w' h =
      let (r, w₁, e₁, r₁) = bind-ok _ _ w w' g h in
      let ran = caught-ok (Repository.by_email email) r w w₁ e₁ in
      let (o, w₂, e₂, r₂) = bind-ok _ _ w₁ w' g r₁ in
      let (same₂, who) = known-ok r o w₁ w₂ e₂ in
      let (match, w₃, e₃, r₃) = bind-ok _ _ w₂ w' g r₂ in
      let (verified, same₃) =
        lift-ok (or_fault (d.verify password (hash_of d pgx o))) match w₂ w₃ e₃ in
      let (acc, there, fits, started) =
        checked-ok o match email agent now minted new_id g w₃ w' r₃ in
      elim who [
        | inl nobody ↦ absurd (clash (sym nobody ∙ there))
        | inr someone ↦
            let same_acc : someone.0 ≡ acc = some_eq (sym someone.1 ∙ there) in
            let known_acc : r ≡ ok acc = someone.2 ∙ ap (λ a. ok a) same_acc in
            let (found, same₁) = by_email-ok email acc w w₁ (ran ∙ (λ i. (known_acc i, w₁))) in
            let start : w₃.db ≡ w.db = ap db_of same₃ ∙ ap db_of same₂ ∙ same₁ in
            (
              acc,
              found,
              ap (λ q. d.verify password (hash_of d pgx q)) (sym there)
                  ∙ or_fault-ok (d.verify password (hash_of d pgx o)) match verified
                  ∙ ap (λ b. some b) fits,
              subst (λ c. IsStarted acc now d.session_ttl minted new_id g c w'.db) start started,
            )
      ]
    where
      clash : {a : Account} → ◌≡◌ {A = Option Account} none (some a) → ⊥
      clash k = cc

      some_eq : {a b : Account} → ◌≡◌ {A = Option Account} (some a) (some b) → a ≡ b
      some_eq k = cc

  -- A login that returns was let pass by the throttle, has found the account of the address, and the
  -- password is the account's. It has stored and announced one new session of the account, and returns
  -- the account, the session and the token whose hash the session holds; other sessions and the
  -- accounts stay.
  pub login-IsSignedIn :
      (email password agent : List ℕ) (now : ℕ) (minted : Option Minted) (new_id : Option ℕ)
      (g : Granted) (w w' : World AuthDb X)
      → login d pgx email password agent now minted new_id w ≡ (ok g, w')
      → IsSignedIn (normalize_email d.mail email) password now minted new_id w.outside g w.db w'.db
  unfolding login
  login-IsSignedIn email password agent now minted new_id g w w' h =
      let address : List ℕ = normalize_email d.mail email in
      let (answer, v, e, f) = bind-ok _ _ w w' g h in
      let (told, same) = reach-ok (d.allow address) answer w v e in
      let (passes, rest) = raised-ok (is_refused answer) too_many_attempts _ v w' g f in
      let (acc, found, fits, started) =
        login_allowed-ok address password agent now minted new_id g v w' rest in
      record {
        account = acc;
        let_pass = ap is_refused told ∙ passes;
        found = subst (λ (c : AuthDb). account_by_email address c.tables ≡ some acc) same found;
        matches = fits;
        started = subst (λ c. IsStarted acc now d.session_ttl minted new_id g c w'.db) same started;
      }
