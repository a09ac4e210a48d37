-- ===== src/Platform/Postgres/Keeps.antt =====
-- Invariants of the database: one rule for each way in which repositories and services build
-- their code.
use icyre.Prelude.{
  ◌≡◌, refl, sym, Bool, true, false, Option, none, some, List, [], ◌∷◌, if◌then◌else◌,
}
use mathlib.Core.Path.{subst}
use icyre.Platform.Postgres.{
  Result, ok, err, fault, Fails, World, Exec, pure, raise, broken, call, select, update, lift,
  attempt, attempt_as, from_option, execute, executed, reach, caught, continue, ◌>>=◌, Pgx, Conn,
  pool, tx, in_tx,
}

-- `m` keeps `P`, whether it returns or fails.
pub record Keeps {D X E A : Type 0} (P : D → Type 0) (m : Exec D X E A) : Type 0 where
  pub at : (w : World D X) → P w.db → P (m w).1.db

module _ {D X E A : Type 0} {P : D → Type 0} where
  pub Keeps-pure : (a : A) → Keeps {X = X} {E = E} P (pure a)
  unfolding pure
  Keeps-pure a = record { at = λ w h. h }

  pub Keeps-raise : (e : E) → Keeps {X = X} {A = A} P (raise e)
  unfolding raise
  Keeps-raise e = record { at = λ w h. h }

  pub Keeps-broken : Keeps {X = X} {E = E} {A = A} P broken
  unfolding broken
  Keeps-broken = record { at = λ w h. h }

  pub Keeps-call : (m : Exec D X E A) → Keeps P m → Keeps P (call m)
  unfolding call
  Keeps-call m k = record { at = λ w h. under w.db w.outside w.faults h }
    where
      under :
          (db : D) (x : X) (faults : List Bool)
          → P db
          → P (call m (record { db = db; outside = x; faults = faults })).1.db
      under db x [] h = k.at (record { db = db; outside = x; faults = [] }) h
      under db x (true ∷ rest) h = h
      under db x (false ∷ rest) h = k.at (record { db = db; outside = x; faults = rest }) h

module _ {D X E A B : Type 0} {P : D → Type 0} where
  Keeps-continue :
      (r : Result E A) (f : A → Exec D X E B) → ((a : A) → Keeps P (f a)) → Keeps P (continue r f)
  Keeps-continue (ok a) f k = record { at = (k a).at }
  Keeps-continue (err e) f k = record { at = λ w h. h }
  Keeps-continue fault f k = record { at = λ w h. h }

  pub Keeps-bind :
      (m : Exec D X E A) (f : A → Exec D X E B)
      → Keeps P m
      → ((a : A) → Keeps P (f a))
      → Keeps P (m >>= f)
  unfolding ◌>>=◌
  Keeps-bind m f km kf = record {
    at = λ w h. let (r, w') = m w in (Keeps-continue r f kf).at w' (km.at w h);
  }

module _ {D X E A : Type 0} {P : D → Type 0} where
  pub Keeps-select : (f : D → A) → Keeps {X = X} {E = E} P (select f)
  unfolding select
  Keeps-select f = Keeps-call (λ w. (ok (f w.db), w)) (record { at = λ w h. h })

  pub Keeps-update :
      (f : D → D) (tag : D → A) → ((d : D) → P d → P (f d)) → Keeps {X = X} {E = E} P (update f tag)
  unfolding update
  Keeps-update f tag k =
      Keeps-call (λ w. (ok (tag w.db), record w { db = f w.db })) (record { at = λ w h. k w.db h })

  pub Keeps-lift : (r : Result E A) → Keeps {X = X} P (lift r)
  unfolding lift
  Keeps-lift r = record { at = λ w h. h }

  pub Keeps-attempt :
      (f : D → Option D) (a : A)
      → ((d d' : D) → P d → f d ≡ some d' → P d')
      → Keeps {X = X} {E = E} P (attempt f a)
  unfolding attempt
  Keeps-attempt f a k =
      Keeps-call (λ w. attempt_as (f w.db) a w) (record { at = λ w h. under w h (f w.db) refl })
    where
      under :
          (w : World D X) → P w.db → (o : Option D) → f w.db ≡ o → P (attempt_as {E = E} o a w).1.db
      under w h none e = h
      under w h (some d) e = k w.db d h e

  pub Keeps-execute :
      (f : D → Result E (A × D))
      → ((d d' : D) (a : A) → P d → f d ≡ ok (a, d') → P d')
      → Keeps {X = X} P (execute f)
  unfolding execute executed
  Keeps-execute f k =
      Keeps-call (λ w. executed (f w.db) w) (record { at = λ w h. under w h (f w.db) refl })
    where
      under : (w : World D X) → P w.db → (r : Result E (A × D)) → f w.db ≡ r → P (executed r w).1.db
      under w h (ok (a, d)) e = k w.db d a h e
      under w h (err x) e = h
      under w h fault e = h

  pub Keeps-reach : (f : X → A × X) → Keeps {D = D} {X = X} {E = E} P (reach f)
  unfolding reach
  Keeps-reach f = record { at = λ w h. h }

  pub Keeps-caught : (m : Exec D X E A) → Keeps P m → Keeps P (caught m)
  unfolding caught
  Keeps-caught m k = record { at = λ w h. k.at w h }

  pub Keeps-from_option : (o : Option A) (m : Exec D X E A) → Keeps P m → Keeps P (from_option o m)
  Keeps-from_option none m k = k
  Keeps-from_option (some a) m k = Keeps-pure a

  pub Keeps-begin_func : (pgx : Pgx) (m : Exec D X E A) → Keeps P m → Keeps P (pgx.begin_func m)
  Keeps-begin_func pgx m k = record { at = λ w h. settle w h (pgx.begin_func m w).0 refl }
    where
      settle :
          (w : World D X)
          → P w.db
          → (r : Result E A) → (pgx.begin_func m w).0 ≡ r
          → P (pgx.begin_func m w).1.db
      settle w h (ok a) e =
          let (w₁, w₂, same, _, ran, there, _) = pgx.commits m w a e in
          subst P (sym there)
            (subst (λ (p : Result E A × World D X). P p.1.db) ran (k.at w₁ (subst P (sym same) h)))
      settle w h (err x) e = subst P (sym (pgx.rolls_back m w (subst Fails (sym e) tt))) h
      settle w h fault e = subst P (sym (pgx.rolls_back m w (subst Fails (sym e) tt))) h

  pub Keeps-in_tx :
      (pgx : Pgx) (c : Conn) (fn : Conn → Exec D X E A)
      → ((c' : Conn) → Keeps P (fn c'))
      → Keeps P (in_tx pgx c fn)
  unfolding in_tx
  Keeps-in_tx pgx tx fn k = k tx
  Keeps-in_tx pgx pool fn k = Keeps-begin_func pgx (fn tx) (k tx)

  pub Keeps-if :
      (b : Bool) (m n : Exec D X E A) → Keeps P m → Keeps P n → Keeps P (if b then m else n)
  Keeps-if true m n km kn = km
  Keeps-if false m n km kn = kn

pub ruleset keeps_rules = (
  Keeps-pure, Keeps-raise, Keeps-broken, Keeps-select, Keeps-update, Keeps-bind, Keeps-lift,
  Keeps-attempt, Keeps-from_option, Keeps-in_tx, Keeps-begin_func, Keeps-if, Keeps-reach,
  Keeps-caught,
)
