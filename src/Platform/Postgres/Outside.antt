-- ===== src/Platform/Postgres/Outside.antt =====
-- Invariants of what lies outside the database, which no transaction takes back.
use icyre.Prelude.{◌≡◌, refl, sym, inl, inr, Bool, true, false, List, [], ◌∷◌, if◌then◌else◌}
use mathlib.Core.Path.{subst}
use icyre.Platform.Postgres.{
  Result, ok, err, fault, Fails, World, Exec, pure, raise, broken, call, select, update, continue,
  ◌>>=◌, Ran, Pgx,
}

-- `m` keeps `P`, whether it returns or fails.
pub record Leaves {D X E A : Type 0} (P : X → Type 0) (m : Exec D X E A) : Type 0 where
  pub at : (w : World D X) → P w.outside → P (m w).1.outside

module _ {D X E A : Type 0} {P : X → Type 0} where
  pub Leaves-pure : (a : A) → Leaves {D = D} {E = E} P (pure a)
  unfolding pure
  Leaves-pure a = record { at = λ w h. h }

  pub Leaves-raise : (e : E) → Leaves {D = D} {A = A} P (raise e)
  unfolding raise
  Leaves-raise e = record { at = λ w h. h }

  pub Leaves-broken : Leaves {D = D} {E = E} {A = A} P broken
  unfolding broken
  Leaves-broken = record { at = λ w h. h }

  pub Leaves-call : (m : Exec D X E A) → Leaves P m → Leaves P (call m)
  unfolding call
  Leaves-call m k = record { at = λ w h. under w.db w.outside w.faults h }
    where
      under :
          (db : D) (x : X) (faults : List Bool)
          → P x
          → P (call m (record { db = db; outside = x; faults = faults })).1.outside
      under db x [] h = k.at (record { db = db; outside = x; faults = [] }) h
      under db x (true ∷ rest) h = h
      under db x (false ∷ rest) h = k.at (record { db = db; outside = x; faults = rest }) h

module _ {D X E A B : Type 0} {P : X → Type 0} where
  Leaves-continue :
      (r : Result E A) (f : A → Exec D X E B) → ((a : A) → Leaves P (f a)) → Leaves P (continue r f)
  Leaves-continue (ok a) f k = record { at = (k a).at }
  Leaves-continue (err e) f k = record { at = λ w h. h }
  Leaves-continue fault f k = record { at = λ w h. h }

  pub Leaves-bind :
      (m : Exec D X E A) (f : A → Exec D X E B)
      → Leaves P m
      → ((a : A) → Leaves P (f a))
      → Leaves P (m >>= f)
  unfolding ◌>>=◌
  Leaves-bind m f km kf = record {
    at = λ w h. let (r, w') = m w in (Leaves-continue r f kf).at w' (km.at w h);
  }

module _ {D X E A : Type 0} {P : X → Type 0} where
  pub Leaves-select : (f : D → A) → Leaves {E = E} P (select f)
  unfolding select
  Leaves-select f = Leaves-call (λ w. (ok (f w.db), w)) (record { at = λ w h. h })

  pub Leaves-update : (f : D → D) (tag : D → A) → Leaves {E = E} P (update f tag)
  unfolding update
  Leaves-update f tag =
      Leaves-call (λ w. (ok (tag w.db), record w { db = f w.db })) (record { at = λ w h. h })

  ran :
      (m : Exec D X E A) (w : World D X) (r : Result E A) (db : D) (x : X)
      → Leaves P m
      → P w.outside
      → Ran m w r db x
      → P x
  ran m w r db x k h (w₁, w₂, _, same, e, _, there) =
      subst P (sym there)
        (subst (λ (p : Result E A × World D X). P p.1.outside) e (k.at w₁ (subst P (sym same) h)))

  pub Leaves-begin_func : (pgx : Pgx) (m : Exec D X E A) → Leaves P m → Leaves P (pgx.begin_func m)
  Leaves-begin_func pgx m k = record { at = λ w h. settle w h (pgx.begin_func m w).0 refl }
    where
      failed :
          (w : World D X)
          → P w.outside
          → Fails (pgx.begin_func m w).0
          → P (pgx.begin_func m w).1.outside
      failed w h f = elim (pgx.leaves m w f) [
        | inl same ↦ subst P (sym same) h
        | inr p ↦ ran m w p.0 p.1 (pgx.begin_func m w).1.outside k h p.2
      ]

      settle :
          (w : World D X)
          → P w.outside
          → (r : Result E A) → (pgx.begin_func m w).0 ≡ r
          → P (pgx.begin_func m w).1.outside
      settle w h (ok a) e =
          let v : World D X = (pgx.begin_func m w).1 in
          ran m w (ok a) v.db v.outside k h (pgx.commits m w a e)
      settle w h (err x) e = failed w h (subst Fails (sym e) tt)
      settle w h fault e = failed w h (subst Fails (sym e) tt)

  pub Leaves-if :
      (b : Bool) (m n : Exec D X E A) → Leaves P m → Leaves P n → Leaves P (if b then m else n)
  Leaves-if true m n km kn = km
  Leaves-if false m n km kn = kn

pub ruleset leaves_rules = (
  Leaves-pure, Leaves-raise, Leaves-broken, Leaves-select, Leaves-update, Leaves-bind,
  Leaves-begin_func, Leaves-if,
)
