-- ===== src/Platform/Postgres.antt =====
-- libs/platform/postgres/tx.go, and the calls through which a repository reaches its database.
--
-- `Exec D X E A` is a piece of Go code that reads and writes a database `D` through pgx, and other
-- systems `X` (Kafka, Redis, the object store) directly, and returns an `A` or an error. `err` is an error that the code tells apart by `errors.Is`; `fault` is any
-- other one (a broken connection, a timeout, a violated constraint). Whether a call of the driver
-- fails is not up to the code: the world holds one flag for each call to come. A transaction covers
-- the database alone.
--
-- `Pgx` is what the code relies on of the driver (github.com/jackc/pgx/v5, not in this
-- repository): `pgx.BeginFunc` runs a function in a transaction, commits if it returns nil, and
-- otherwise, or if the commit fails, rolls back.
pub mod Keeps
pub mod Knows
pub mod Atomic
pub mod Inversion
pub mod Outside
pub mod Reference
use icyre.Prelude.{◌≡◌, ◌⊎◌, Bool, true, false, Option, none, some, List, [], ◌∷◌}

pub data Result (E A : Type 0) : Type 0 where
  ok : A → Result E A
  err : E → Result E A
  fault : Result E A

abbrev pub Fails : {E A : Type 0} → Result E A → Type 0
Fails (ok a) = ⊥
Fails (err e) = Unit
Fails fault = Unit

pub record World (D X : Type 0) : Type 0 where
  pub db : D
  -- what no transaction covers
  pub outside : X
  -- one flag for each call to come, `true` if it fails; when none is left, none fails
  pub faults : List Bool

abbrev pub Exec : Type 0 → Type 0 → Type 0 → Type 0 → Type 0
Exec D X E A = World D X → Result E A × World D X

module _ {D X E A : Type 0} where
  unfoldable pub pure : A → Exec D X E A
  pure a w = (ok a, w)

  unfoldable pub raise : E → Exec D X E A
  raise e w = (err e, w)

  unfoldable pub broken : Exec D X E A
  broken w = (fault, w)

  call_under : Exec D X E A → D → X → List Bool → Result E A × World D X
  call_under m db x [] = m (record { db = db; outside = x; faults = [] })
  call_under m db x (true ∷ rest) = (fault, record { db = db; outside = x; faults = rest })
  call_under m db x (false ∷ rest) = m (record { db = db; outside = x; faults = rest })

  -- One round trip: it fails and does nothing, or it runs.
  unfoldable pub call : Exec D X E A → Exec D X E A
  unfolding call_under
  call m w = call_under m w.db w.outside w.faults

  -- A statement that returns a value of the rows it sees.
  unfoldable pub select : (D → A) → Exec D X E A
  unfolding call call_under
  select f = call λ w. (ok (f w.db), w)

  -- A statement that changes rows, with its command tag.
  unfoldable pub update : (D → D) → (D → A) → Exec D X E A
  unfolding call call_under
  update f tag = call λ w. (ok (tag w.db), record w { db = f w.db })

  -- The answer of another system, which changes nothing here.
  unfoldable pub lift : Result E A → Exec D X E A
  lift r w = (r, w)

  -- A statement that a constraint may refuse.
  unfoldable pub attempt_as : Option D → A → Exec D X E A
  attempt_as none a w = (fault, w)
  attempt_as (some d) a w = (ok a, record w { db = d })

  unfoldable pub attempt : (D → Option D) → A → Exec D X E A
  unfolding call call_under attempt_as
  attempt f a = call λ w. attempt_as (f w.db) a w

  unfoldable pub executed : Result E (A × D) → Exec D X E A
  executed (ok (a, d)) w = (ok a, record w { db = d })
  executed (err e) w = (err e, w)
  executed fault w = (fault, w)

  -- A statement with its command tag, whose refusal by a constraint the code may tell apart.
  unfoldable pub execute : (D → Result E (A × D)) → Exec D X E A
  unfolding call call_under executed
  execute f = call λ w. executed (f w.db) w

  -- A call of another system, whose failure is part of its answer.
  unfoldable pub reach : (X → A × X) → Exec D X E A
  reach f w = let (a, x) = f w.outside in (ok a, record w { outside = x })

  -- The outcome as a value: what stands before `errors.Is` or an ignored error.
  unfoldable pub caught : Exec D X E A → Exec D X E (Result E A)
  caught m w = (ok (m w).0, (m w).1)

  abbrev pub from_option : Option A → Exec D X E A → Exec D X E A
  from_option none otherwise = otherwise
  from_option (some a) otherwise = pure a

module _ {D X E A B : Type 0} where
  abbrev pub continue : Result E A → (A → Exec D X E B) → Exec D X E B
  continue (ok a) f w = f a w
  continue (err e) f w = (err e, w)
  continue fault f w = (fault, w)

  infixl 10 ◌>>=◌ ◌>>◌
  unfoldable pub ◌>>=◌ : Exec D X E A → (A → Exec D X E B) → Exec D X E B
  unfolding pure raise broken
  ◌>>=◌ m f w = let (r, w') = m w in continue r f w'

  abbrev pub ◌>>◌ : Exec D X E A → Exec D X E B → Exec D X E B
  m >> n = m >>= λ _. n

-- A run of `m` that began where `w` stands, in the eyes of the code, and left `db` and `x` with `r`.
abbrev pub Ran : {D X E A : Type 0} → Exec D X E A → World D X → Result E A → D → X → Type 0
Ran {D} {X} m w r db x =
    (w₁ : World D X) × (w₂ : World D X) × (w₁.db ≡ w.db)
    × (w₁.outside ≡ w.outside)
    × (m w₁ ≡ (r, w₂))
    × (db ≡ w₂.db)
    × (x ≡ w₂.outside)

pub record Pgx : Type 1 where
  pub begin_func : {D X E A : Type 0} → Exec D X E A → Exec D X E A
  -- BeginFunc returned nil: the function returned nil, and what it wrote is there.
  pub commits :
      {D X E A : Type 0} (m : Exec D X E A) (w : World D X) (a : A)
      → (begin_func m w).0 ≡ ok a
      → Ran m w (ok a) (begin_func m w).1.db (begin_func m w).1.outside
  -- BeginFunc returned an error: nothing that the function wrote to the database is there.
  pub rolls_back :
      {D X E A : Type 0} (m : Exec D X E A) (w : World D X)
      → Fails (begin_func m w).0
      → (begin_func m w).1.db ≡ w.db
  -- What lies outside is as the function left it, if it was run.
  pub leaves :
      {D X E A : Type 0} (m : Exec D X E A) (w : World D X)
      → Fails (begin_func m w).0
      → ((begin_func m w).1.outside ≡ w.outside)
        ⊎ ((r : Result E A) × (db : D) × Ran m w r db (begin_func m w).1.outside)
  -- An error of the function is passed on as it is, and BeginFunc invents none.
  pub passes_on :
      {D X E A : Type 0} (m : Exec D X E A) (w : World D X) (e : E)
      → (begin_func m w).0 ≡ err e
      → (db : D) × (x : X) × Ran m w (err e) db x
  -- Over a connection that does not fail the function's outcome is the outcome.
  pub reliable :
      {D X E A : Type 0} (m : Exec D X E A) (w : World D X)
      → w.faults ≡ []
      → (m w).1.faults ≡ []
      → ((begin_func m w).0 ≡ (m w).0)
        × ((begin_func m w).1.faults ≡ [])
        × ((begin_func m w).1.outside ≡ (m w).1.outside)
        × ((a : A) → (m w).0 ≡ ok a → (begin_func m w).1.db ≡ (m w).1.db)

-- What Conn(ctx, pool) returns: the transaction that InTx put into the context, or the pool.
pub data Conn : Type 0 where
  pool tx : Conn

-- InTx: a nested call joins the outer transaction.
unfoldable pub in_tx : {D X E A : Type 0} → Pgx → Conn → (Conn → Exec D X E A) → Exec D X E A
in_tx pgx tx fn = fn tx
in_tx pgx pool fn = pgx.begin_func (fn tx)
