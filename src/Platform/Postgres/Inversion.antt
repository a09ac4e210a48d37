-- ===== src/Platform/Postgres/Inversion.antt =====
-- What is known of code that returned with no error, step by step.
use icyre.Prelude.{
  ◌≡◌, refl, sym, ap, ◌∙◌, Bool, true, false, Option, none, some, List, [], ◌∷◌, arith,
}
use icyre.Platform.Postgres.{
  Result, ok, err, fault, World, Exec, pure, raise, select, update, continue, ◌>>=◌, Pgx, Conn,
  pool, tx, in_tx, lift, from_option, execute, executed, broken, caught,
}

-- `m` ran from `w` to `w₁` and returned `a`.
abbrev pub Returns : {D X E A : Type 0} → Exec D X E A → World D X → A → World D X → Type 0
Returns m w a w₁ = m w ≡ (ok a, w₁)

module _ {D X E A B : Type 0} where
  continue-ok :
      (r : Result E A) (f : A → Exec D X E B) (w₁ w₂ : World D X) (b : B)
      → continue r f w₁ ≡ (ok b, w₂)
      → (a : A) × (r ≡ ok a) × (f a w₁ ≡ (ok b, w₂))
  continue-ok (ok a) f w₁ w₂ b h = (a, refl, h)
  continue-ok (err e) f w₁ w₂ b h = cc
  continue-ok fault f w₁ w₂ b h = cc

  pub bind-ok :
      (m : Exec D X E A) (f : A → Exec D X E B) (w w₂ : World D X) (b : B)
      → (m >>= f) w ≡ (ok b, w₂)
      → (a : A) × (w₁ : World D X) × (m w ≡ (ok a, w₁)) × (f a w₁ ≡ (ok b, w₂))
  unfolding ◌>>=◌
  bind-ok m f w w₂ b h =
      let (a, r, rest) = continue-ok (m w).0 f (m w).1 w₂ b h in
      (a, (m w).1, λ i. (r i, (m w).1), rest)

module _ {D X E A : Type 0} where
  pub pure-ok :
      (a b : A) (w w₁ : World D X)
      → ◌≡◌ {A = Result E A × World D X} (pure a w) (ok b, w₁)
      → (a ≡ b) × (w ≡ w₁)
  unfolding pure
  pure-ok a b w w₁ h = (cc, cc)

  pub raise-ok :
      (e : E) (b : A) (w w₁ : World D X)
      → ◌≡◌ {A = Result E A × World D X} (raise e w) (ok b, w₁)
      → ⊥
  unfolding raise
  raise-ok e b w w₁ h = cc

  pub select-ok :
      (f : D → A) (w w₁ : World D X) (a : A)
      → ◌≡◌ {A = Result E A × World D X} (select f w) (ok a, w₁)
      → (a ≡ f w.db) × (w₁.db ≡ w.db) × (w₁.outside ≡ w.outside)
  unfolding select
  select-ok f w w₁ a h = under w.db w.outside w.faults h
    where
      under :
          (db : D) (x : X) (faults : List Bool)
          → ◌≡◌ {A = Result E A × World D X}
              (select f (record { db = db; outside = x; faults = faults }))
              (ok a, w₁)
          → (a ≡ f db) × (w₁.db ≡ db) × (w₁.outside ≡ x)
      under db x [] h = (cc, ground arith, ground arith)
      under db x (true ∷ rest) h = cc
      under db x (false ∷ rest) h = (cc, ground arith, ground arith)

  pub update-ok :
      (f : D → D) (tag : D → A) (w w₁ : World D X) (a : A)
      → ◌≡◌ {A = Result E A × World D X} (update f tag w) (ok a, w₁)
      → (a ≡ tag w.db) × (w₁.db ≡ f w.db) × (w₁.outside ≡ w.outside)
  unfolding update
  update-ok f tag w w₁ a h = under w.db w.outside w.faults h
    where
      under :
          (db : D) (x : X) (faults : List Bool)
          → ◌≡◌ {A = Result E A × World D X}
              (update f tag (record { db = db; outside = x; faults = faults }))
              (ok a, w₁)
          → (a ≡ tag db) × (w₁.db ≡ f db) × (w₁.outside ≡ x)
      under db x [] h = (cc, ground arith, ground arith)
      under db x (true ∷ rest) h = cc
      under db x (false ∷ rest) h = (cc, ground arith, ground arith)

module _ {D X E A : Type 0} (pgx : Pgx) where
  -- A transaction that returned: its function ran where it began, and its writes are there.
  pub in_tx-ok :
      (fn : Conn → Exec D X E A) (w w' : World D X) (a : A)
      → in_tx pgx pool fn w ≡ (ok a, w')
      → (w₁ : World D X) × (w₂ : World D X) × (w₁.db ≡ w.db)
        × (fn tx w₁ ≡ (ok a, w₂))
        × (w'.db ≡ w₂.db)
  unfolding in_tx
  in_tx-ok fn w w' a h =
      let (w₁, w₂, before, _, ran, after, _) = pgx.commits (fn tx) w a (ap (λ p. p.0) h) in
      (w₁, w₂, before, ran, sym (ap (λ p. p.1.db) h) ∙ after)

module _ {D X E A : Type 0} where
  pub lift-ok :
      (r : Result E A) (a : A) (w w₁ : World D X) → Returns (lift r) w a w₁ → (r ≡ ok a) × (w₁ ≡ w)
  unfolding lift
  lift-ok r a w w₁ h = (ap (λ p. p.0) h, sym (ap (λ p. p.1) h))

  pub from_option-ok :
      (o : Option A) (e : E) (a : A) (w w₁ : World D X)
      → Returns (from_option o (raise e)) w a w₁
      → (o ≡ some a) × (w₁ ≡ w)
  unfolding raise
  from_option-ok none e a w w₁ h = absurd (raise-ok e a w w₁ h)
  from_option-ok (some b) e a w w₁ h =
      let (same, world) = pure-ok b a w w₁ h in (ap (λ x. some x) same, sym world)

module _ {D X E A : Type 0} where
  executed-ok :
      (r : Result E (A × D)) (a : A) (w w₁ : World D X)
      → Returns (executed r) w a w₁
      → r ≡ ok (a, w₁.db)
  unfolding executed
  executed-ok (ok (b, d)) a w w₁ h =
      let same : b ≡ a = cc in
      let left : d ≡ w₁.db = ap (λ (p : Result E A × World D X). p.1.db) h in
      λ i. ok (same i, left i)
  executed-ok (err e) a w w₁ h = cc
  executed-ok fault a w w₁ h = cc

  pub execute-ok :
      (f : D → Result E (A × D)) (a : A) (w w₁ : World D X)
      → Returns (execute f) w a w₁
      → f w.db ≡ ok (a, w₁.db)
  unfolding execute
  execute-ok f a w w₁ h = under w.db w.outside w.faults h
    where
      under :
          (db : D) (x : X) (faults : List Bool)
          → Returns (execute f) (record { db = db; outside = x; faults = faults }) a w₁
          → f db ≡ ok (a, w₁.db)
      under db x [] h = executed-ok (f db) a (record { db = db; outside = x; faults = [] }) w₁ h
      under db x (true ∷ rest) h = cc
      under db x (false ∷ rest) h =
          executed-ok (f db) a (record { db = db; outside = x; faults = rest }) w₁ h

  pub broken-ok : (a : A) (w w₁ : World D X) → Returns {E = E} broken w a w₁ → ⊥
  unfolding broken
  broken-ok a w w₁ h = cc

  pub caught-ok :
      (m : Exec D X E A) (r : Result E A) (w w₁ : World D X)
      → Returns (caught m) w r w₁
      → m w ≡ (r, w₁)
  unfolding caught
  caught-ok m r w w₁ h =
      let same : (m w).0 ≡ r = outcome_eq (m w).0 r (ap (λ p. p.0) h) in
      λ i. (same i, ap (λ (p : Result E (Result E A) × World D X). p.1) h i)
    where
      outcome_eq : (p q : Result E A) → ◌≡◌ {A = Result E (Result E A)} (ok p) (ok q) → p ≡ q
      outcome_eq p q k = cc
