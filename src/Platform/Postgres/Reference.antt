-- ===== src/Platform/Postgres/Reference.antt =====
-- A driver that meets `Pgx`: an instance of the interface. A transaction copies the
-- database, and one flag decides whether its commit fails.
use icyre.Prelude.{◌≡◌, ◌⊎◌, inr, refl, Bool, true, false, List, [], ◌∷◌, arith}
use icyre.Platform.Postgres.{Result, ok, err, fault, Fails, World, Exec, Ran, Pgx}

module _ {D X E A : Type 0} where
  commit_under : A → D → D → X → List Bool → Result E A × World D X
  commit_under a old new x [] = (ok a, record { db = new; outside = x; faults = [] })
  commit_under a old new x (true ∷ rest) = (fault, record { db = old; outside = x; faults = rest })
  commit_under a old new x (false ∷ rest) = (ok a, record { db = new; outside = x; faults = rest })

  settle : D → Result E A × World D X → Result E A × World D X
  unfolding commit_under
  settle old (ok a, w) = commit_under a old w.db w.outside w.faults
  settle old (err e, w) = (err e, record w { db = old })
  settle old (fault, w) = (fault, record w { db = old })

  unfoldable pub begin_func : Exec D X E A → Exec D X E A
  unfolding settle
  begin_func m w = settle w.db (m w)

module _ {D X A : Type 0} (E : Type 0) where
  commit_under-ok :
      (b a : A) (old new : D) (x : X) (faults : List Bool)
      → (commit_under {E = E} b old new x faults).0 ≡ ok a
      → ◌≡◌ {A = Result E A} (ok b) (ok a)
  unfolding commit_under
  commit_under-ok b a old new x [] h = h
  commit_under-ok b a old new x (true ∷ rest) h = cc
  commit_under-ok b a old new x (false ∷ rest) h = h

  commit_under-Fails :
      (b : A) (old new : D) (x : X) (faults : List Bool)
      → Fails (commit_under {E = E} b old new x faults).0
      → (commit_under {E = E} b old new x faults).1.db ≡ old
  unfolding commit_under
  commit_under-Fails b old new x [] h = absurd h
  commit_under-Fails b old new x (true ∷ rest) h = refl
  commit_under-Fails b old new x (false ∷ rest) h = absurd h

module _ {D X E A : Type 0} where
  settle-outside : (old : D) (p : Result E A × World D X) → (settle old p).1.outside ≡ p.1.outside
  unfolding settle
  settle-outside old (ok b, v) = ground arith
  settle-outside old (err x, v) = refl
  settle-outside old (fault, v) = refl

  settle-ok :
      (old : D) (p : Result E A × World D X) (a : A)
      → (settle old p).0 ≡ ok a
      → (p ≡ (ok a, p.1)) × ((settle old p).1.db ≡ p.1.db)
  unfolding settle
  settle-ok old (ok b, v) a h =
      (cc (commit_under-ok E b a old v.db v.outside v.faults h), ground arith)
  settle-ok old (err x, v) a h = cc
  settle-ok old (fault, v) a h = cc

  settle-err :
      (old : D) (p : Result E A × World D X) (e : E) → (settle old p).0 ≡ err e → p ≡ (err e, p.1)
  unfolding settle
  settle-err old (ok b, v) e h = ground arith
  settle-err old (err x, v) e h = cc
  settle-err old (fault, v) e h = cc

  settle-Fails :
      (old : D) (p : Result E A × World D X) → Fails (settle old p).0 → (settle old p).1.db ≡ old
  unfolding settle
  settle-Fails old (ok b, v) h = commit_under-Fails E b old v.db v.outside v.faults h
  settle-Fails old (err x, v) h = refl
  settle-Fails old (fault, v) h = refl

  settle_reliable :
      (old : D) (p : Result E A × World D X)
      → p.1.faults ≡ []
      → ((settle old p).0 ≡ p.0)
        × ((settle old p).1.faults ≡ [])
        × ((settle old p).1.outside ≡ p.1.outside)
        × ((a : A) → p.0 ≡ ok a → (settle old p).1.db ≡ p.1.db)
  unfolding settle
  settle_reliable old (ok b, v) k = (ground arith, ground arith, ground arith, λ a e. ground arith)
  settle_reliable old (err x, v) k = (refl, k, refl, λ a e. cc)
  settle_reliable old (fault, v) k = (refl, k, refl, λ a e. cc)

  pub commits :
      (m : Exec D X E A) (w : World D X) (a : A)
      → (begin_func m w).0 ≡ ok a
      → Ran m w (ok a) (begin_func m w).1.db (begin_func m w).1.outside
  unfolding begin_func
  commits m w a h =
      let (ran, there) = settle-ok w.db (m w) a h in
      (w, (m w).1, refl, refl, ran, there, settle-outside w.db (m w))

  pub passes_on :
      (m : Exec D X E A) (w : World D X) (e : E)
      → (begin_func m w).0 ≡ err e
      → (db : D) × (x : X) × Ran m w (err e) db x
  unfolding begin_func
  passes_on m w e h =
      let v : World D X = (m w).1 in
      (v.db, v.outside, (w, v, refl, refl, settle-err w.db (m w) e h, refl, refl))

  pub leaves :
      (m : Exec D X E A) (w : World D X)
      → Fails (begin_func m w).0
      → ((begin_func m w).1.outside ≡ w.outside)
        ⊎ ((r : Result E A) × (db : D) × Ran m w r db (begin_func m w).1.outside)
  unfolding begin_func
  leaves m w h =
      let v : World D X = (m w).1 in
      inr ((m w).0, v.db, (w, v, refl, refl, refl, refl, settle-outside w.db (m w)))

unfoldable pub reference : Pgx
unfolding begin_func settle-Fails settle_reliable commit_under-Fails
reference = record {
  begin_func = begin_func;
  commits = commits;
  rolls_back = λ m w h. settle-Fails w.db (m w) h;
  leaves = leaves;
  passes_on = passes_on;
  reliable = λ m w h k. settle_reliable w.db (m w) k;
}
