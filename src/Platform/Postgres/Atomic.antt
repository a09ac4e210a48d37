-- ===== src/Platform/Postgres/Atomic.antt =====
-- Code that changes nothing if it fails.
use icyre.Prelude.{
  ◌≡◌, refl, ap, ◌∙◌, Bool, true, false, Option, none, some, List, [], ◌∷◌, if◌then◌else◌,
}
use icyre.Platform.Postgres.{
  Result, ok, err, fault, Fails, World, Exec, pure, raise, broken, select, lift, attempt,
  attempt_as, from_option, execute, executed, reach, caught, continue, ◌>>=◌, Pgx, Conn, pool, tx,
  in_tx,
}

-- `m` only reads.
pub record ReadsOnly {D X E A : Type 0} (m : Exec D X E A) : Type 0 where
  pub at : (w : World D X) → (m w).1.db ≡ w.db

-- If `m` fails, the database is as it was.
pub record IsAtomic {D X E A : Type 0} (m : Exec D X E A) : Type 0 where
  pub at : (w : World D X) → Fails (m w).0 → (m w).1.db ≡ w.db

module _ {D X E A : Type 0} where
  pub ReadsOnly-pure : (a : A) → ReadsOnly {D = D} {X = X} {E = E} (pure a)
  unfolding pure
  ReadsOnly-pure a = record { at = λ w. refl }

  pub ReadsOnly-raise : (e : E) → ReadsOnly {D = D} {X = X} {A = A} (raise e)
  unfolding raise
  ReadsOnly-raise e = record { at = λ w. refl }

  pub ReadsOnly-broken : ReadsOnly {D = D} {X = X} {E = E} {A = A} broken
  unfolding broken
  ReadsOnly-broken = record { at = λ w. refl }

  pub ReadsOnly-select : (f : D → A) → ReadsOnly {X = X} {E = E} (select f)
  unfolding select
  ReadsOnly-select f = record { at = λ w. under w.db w.outside w.faults }
    where
      under :
          (db : D) (x : X) (faults : List Bool)
          → (select {E = E} f (record { db = db; outside = x; faults = faults })).1.db ≡ db
      under db x [] = refl
      under db x (true ∷ rest) = refl
      under db x (false ∷ rest) = refl

  pub ReadsOnly-lift : (r : Result E A) → ReadsOnly {D = D} {X = X} (lift r)
  unfolding lift
  ReadsOnly-lift r = record { at = λ w. refl }

  pub ReadsOnly-from_option :
      (o : Option A) (m : Exec D X E A) → ReadsOnly m → ReadsOnly (from_option o m)
  ReadsOnly-from_option none m k = k
  ReadsOnly-from_option (some a) m k = ReadsOnly-pure a

  pub ReadsOnly-if :
      (b : Bool) (m n : Exec D X E A) → ReadsOnly m → ReadsOnly n → ReadsOnly (if b then m else n)
  ReadsOnly-if true m n km kn = km
  ReadsOnly-if false m n km kn = kn

  pub IsAtomic-reads : (m : Exec D X E A) → ReadsOnly m → IsAtomic m
  IsAtomic-reads m r = record { at = λ w h. r.at w }

  pub ReadsOnly-reach : (f : X → A × X) → ReadsOnly {D = D} {E = E} (reach f)
  unfolding reach
  ReadsOnly-reach f = record { at = λ w. refl }

  pub ReadsOnly-caught : (m : Exec D X E A) → ReadsOnly m → ReadsOnly (caught m)
  unfolding caught
  ReadsOnly-caught m r = record { at = λ w. r.at w }

  pub IsAtomic-execute : (f : D → Result E (A × D)) → IsAtomic {X = X} (execute f)
  unfolding execute executed
  IsAtomic-execute f = record { at = λ w h. under w.db w.outside w.faults h }
    where
      tried :
          (r : Result E (A × D)) (w : World D X)
          → Fails (executed r w).0
          → (executed r w).1.db ≡ w.db
      tried (ok (a, d)) w h = absurd h
      tried (err e) w h = refl
      tried fault w h = refl

      under :
          (db : D) (x : X) (faults : List Bool)
          → let r = execute f (record { db = db; outside = x; faults = faults }) in
            Fails r.0 → r.1.db ≡ db
      under db x [] h = tried (f db) (record { db = db; outside = x; faults = [] }) h
      under db x (true ∷ rest) h = refl
      under db x (false ∷ rest) h = tried (f db) (record { db = db; outside = x; faults = rest }) h

  pub IsAtomic-attempt : (f : D → Option D) (a : A) → IsAtomic {X = X} {E = E} (attempt f a)
  unfolding attempt
  IsAtomic-attempt f a = record { at = λ w h. under w.db w.outside w.faults h }
    where
      tried :
          (db : D) (x : X) (faults : List Bool) (o : Option D)
          → let r = attempt_as {E = E} o a (record { db = db; outside = x; faults = faults }) in
            Fails r.0 → r.1.db ≡ db
      tried db x faults none h = refl
      tried db x faults (some d) h = absurd h

      under :
          (db : D) (x : X) (faults : List Bool)
          → let r = attempt {E = E} f a (record { db = db; outside = x; faults = faults }) in
            Fails r.0 → r.1.db ≡ db
      under db x [] h = tried db x [] (f db) h
      under db x (true ∷ rest) h = refl
      under db x (false ∷ rest) h = tried db x rest (f db) h

  pub IsAtomic-in_tx : (pgx : Pgx) (fn : Conn → Exec D X E A) → IsAtomic (in_tx pgx pool fn)
  unfolding in_tx
  IsAtomic-in_tx pgx fn = record { at = λ w h. pgx.rolls_back (fn tx) w h }

  pub IsAtomic-begin_func : (pgx : Pgx) (m : Exec D X E A) → IsAtomic (pgx.begin_func m)
  IsAtomic-begin_func pgx m = record { at = λ w h. pgx.rolls_back m w h }

  pub IsAtomic-if :
      (b : Bool) (m n : Exec D X E A) → IsAtomic m → IsAtomic n → IsAtomic (if b then m else n)
  IsAtomic-if true m n km kn = km
  IsAtomic-if false m n km kn = kn

module _ {D X E A B : Type 0} where
  ReadsOnly-continue :
      (r : Result E A) (f : A → Exec D X E B)
      → ((a : A) → ReadsOnly (f a))
      → ReadsOnly (continue r f)
  ReadsOnly-continue (ok a) f k = record { at = (k a).at }
  ReadsOnly-continue (err e) f k = record { at = λ w. refl }
  ReadsOnly-continue fault f k = record { at = λ w. refl }

  IsAtomic-continue :
      (r : Result E A) (f : A → Exec D X E B) → ((a : A) → IsAtomic (f a)) → IsAtomic (continue r f)
  IsAtomic-continue (ok a) f k = record { at = (k a).at }
  IsAtomic-continue (err e) f k = record { at = λ w h. refl }
  IsAtomic-continue fault f k = record { at = λ w h. refl }

  pub ReadsOnly-bind :
      (m : Exec D X E A) (f : A → Exec D X E B)
      → ReadsOnly m
      → ((a : A) → ReadsOnly (f a))
      → ReadsOnly (m >>= f)
  unfolding ◌>>=◌
  ReadsOnly-bind m f km kf = record {
    at = λ w. let (r, w') = m w in (ReadsOnly-continue r f kf).at w' ∙ km.at w;
  }

  -- Reads may come first: what follows them decides.
  pub IsAtomic-bind :
      (m : Exec D X E A) (f : A → Exec D X E B)
      → ReadsOnly m
      → ((a : A) → IsAtomic (f a))
      → IsAtomic (m >>= f)
  unfolding ◌>>=◌
  IsAtomic-bind m f km kf = record {
    at = λ w h. let (r, w') = m w in (IsAtomic-continue r f kf).at w' h ∙ km.at w;
  }

module _ {D X E A B : Type 0} where
  continue-Fails :
      (r : Result E A) (g : A → B) (w : World D X)
      → Fails (continue r (λ a. pure (g a)) w).0
      → Fails r × ((continue r (λ a. pure (g a)) w).1 ≡ w)
  unfolding pure
  continue-Fails (ok a) g w h = absurd h
  continue-Fails (err e) g w h = (tt, refl)
  continue-Fails fault g w h = (tt, refl)

  -- A return may come last.
  pub IsAtomic-then : (m : Exec D X E A) (g : A → B) → IsAtomic m → IsAtomic (m >>= λ a. pure (g a))
  unfolding ◌>>=◌
  IsAtomic-then m g k = record {
    at =
        λ w h. let (f, same) = continue-Fails (m w).0 g (m w).1 h in ap (λ v. v.db) same ∙ k.at w f;
  }

module _ {D X E A B : Type 0} where
  reach-Fails :
      (r : Result E A) (f : X → B × X) (w : World D X)
      → Fails (continue r (λ _. reach f) w).0
      → Fails r × ((continue r (λ _. reach f) w).1 ≡ w)
  unfolding reach
  reach-Fails (ok a) f w h = absurd h
  reach-Fails (err e) f w h = (tt, refl)
  reach-Fails fault f w h = (tt, refl)

  -- A call of another system, whose failure is ignored, may come last.
  pub IsAtomic-reach :
      (m : Exec D X E A) (f : X → B × X) → IsAtomic m → IsAtomic (m >>= λ _. reach f)
  unfolding ◌>>=◌
  IsAtomic-reach m f k = record {
    at = λ w h. let (g, same) = reach-Fails (m w).0 f (m w).1 h in ap (λ v. v.db) same ∙ k.at w g;
  }

pub ruleset reads_rules = (
  ReadsOnly-pure, ReadsOnly-raise, ReadsOnly-broken, ReadsOnly-select, ReadsOnly-bind, ReadsOnly-if,
  ReadsOnly-lift, ReadsOnly-from_option, ReadsOnly-reach, ReadsOnly-caught,
)

pub ruleset atomic_rules = (
  IsAtomic-reads, IsAtomic-attempt, IsAtomic-execute, IsAtomic-in_tx, IsAtomic-begin_func,
  IsAtomic-if, IsAtomic-bind, IsAtomic-then, IsAtomic-reach, reads_rules,
)
