-- ===== src/Platform/Postgres/Knows.antt =====
-- Invariants kept by code that has first read the database: a lock or a SELECT in the same
-- transaction tells what the later statements rely on.
use mathlib.Core.Path.{subst}
use icyre.Prelude.{◌≡◌, refl, sym, Bool, true, false, List, [], ◌∷◌, if◌then◌else◌}
use icyre.Platform.Postgres.{Result, ok, err, fault, World, Exec, update, continue, ◌>>=◌}
use icyre.Platform.Postgres.Atomic.{ReadsOnly}
use icyre.Platform.Postgres.Keeps.{Keeps}

-- `m` keeps `P` where it starts with `F`.
pub record KeepsFrom {D X E A : Type 0} (F P : D → Type 0) (m : Exec D X E A) : Type 0 where
  pub at : (w : World D X) → F w.db → P w.db → P (m w).1.db

-- `m` only reads, and what it returns tells `F` of the database.
pub record Tells {D X E A : Type 0} (F : A → D → Type 0) (m : Exec D X E A) : Type 0 where
  pub reads : ReadsOnly m
  pub tells : (w : World D X) (a : A) → (m w).0 ≡ ok a → F a w.db

module _ {D X E A : Type 0} {P : D → Type 0} (F : D → Type 0) where
  pub KeepsFrom-Keeps : (m : Exec D X E A) → Keeps P m → KeepsFrom F P m
  KeepsFrom-Keeps m k = record { at = λ w f h. k.at w h }

  pub KeepsFrom-update :
      (f : D → D) (tag : D → A)
      → ((d : D) → F d → P d → P (f d))
      → KeepsFrom {X = X} {E = E} F P (update f tag)
  unfolding update
  KeepsFrom-update f tag k = record { at = λ w g h. under w.db w.outside w.faults g h }
    where
      under :
          (db : D) (x : X) (faults : List Bool)
          → F db
          → P db
          → P (update {E = E} f tag (record { db = db; outside = x; faults = faults })).1.db
      under db x [] g h = k db g h
      under db x (true ∷ rest) g h = h
      under db x (false ∷ rest) g h = k db g h

  pub KeepsFrom-if :
      (b : Bool) (m n : Exec D X E A)
      → (b ≡ true → KeepsFrom F P m)
      → (b ≡ false → KeepsFrom F P n)
      → KeepsFrom F P (if b then m else n)
  KeepsFrom-if true m n km kn = km refl
  KeepsFrom-if false m n km kn = kn refl

module _ {D X E A B : Type 0} where
  continue-Keeps :
      (Q : D → Type 0) (r : Result E A) (f : A → Exec D X E B) (w : World D X)
      → ((a : A) → r ≡ ok a → Q (f a w).1.db)
      → Q w.db
      → Q (continue r f w).1.db
  continue-Keeps Q (ok a) f w k h = k a refl
  continue-Keeps Q (err e) f w k h = h
  continue-Keeps Q fault f w k h = h

module _ {D X E A B : Type 0} {P : D → Type 0} where
  pub KeepsFrom-bind :
      (F : D → Type 0) (m : Exec D X E A) (f : A → Exec D X E B)
      → KeepsFrom F P m
      → ((a : A) → Keeps P (f a))
      → KeepsFrom F P (m >>= f)
  unfolding ◌>>=◌
  KeepsFrom-bind F m f km kf = record {
    at = λ w g h.
        continue-Keeps P (m w).0 f (m w).1 (λ a _. (kf a).at (m w).1 (km.at w g h)) (km.at w g h);
  }

  -- What was read is known to what follows.
  pub Keeps-Tells :
      (F : A → D → Type 0) (m : Exec D X E A) (f : A → Exec D X E B)
      → Tells F m
      → ((a : A) → KeepsFrom (F a) P (f a))
      → Keeps P (m >>= f)
  unfolding ◌>>=◌
  Keeps-Tells F m f t k = record {
    at = λ w h.
        let same : (m w).1.db ≡ w.db = t.reads.at w in
        let h' : P (m w).1.db = subst P (sym same) h in
        continue-Keeps P (m w).0 f (m w).1
          (λ a e. (k a).at (m w).1 (subst (F a) (sym same) (t.tells w a e)) h') h';
  }
