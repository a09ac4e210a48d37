-- ===== src/Auth/Throttle.antt =====
-- services/auth/internal/adapters/redis/throttle.go: failed logins, counted in windows of fixed
-- length. `Redis` is what the throttle relies on of the client (github.com/redis/go-redis): GET, INCR
-- with EXPIRE in a transaction, and DEL, of counters that do not expire before their window is over.
-- A time is a number of seconds, and the SHA-256 of an address is a function `digest`.
use mathlib.Core.Path.{subst}
use icyre.Prelude.{
  ℕ, suc, ◌+◌, ◌/◌, ◌<◌, ◌≡◌, refl, ◌↔◌, Bool, true, Option, none, some, List, [], ◌∷◌, arith, ltb,
  length, All,
}

-- The name of a counter: the digest of the address, and the window
pub record Counter : Type 0 where
  pub address : ℕ
  pub bucket : ℕ

pub record Redis (X : Type 0) : Type 0 where
  -- the number under a key, 0 where there is none
  pub value : Counter → X → ℕ
  -- `none` is an error other than Nil
  pub get : Counter → X → Option ℕ
  pub incr_expire : Counter → ℕ → X → Bool × X
  pub del : Counter → X → Bool × X
  pub reads : (k : Counter) (x : X) (n : ℕ) → get k x ≡ some n → n ≡ value k x
  pub counts :
      (k : Counter) (ttl : ℕ) (x : X)
      → (incr_expire k ttl x).0 ≡ true
      → value k (incr_expire k ttl x).1 ≡ suc (value k x)
  pub clears : (k : Counter) (x : X) → (del k x).0 ≡ true → value k (del k x).1 ≡ 0

module _ {X : Type 0} (redis : Redis X) (digest : List ℕ → ℕ) (max window : ℕ) where
  unfoldable pub key : List ℕ → ℕ → Counter
  key email now = record { address = digest email; bucket = now / window }

  abbrev below : Option ℕ → Option Bool
  below none = none
  below (some n) = some (ltb n max)

  unfoldable pub allow : List ℕ → ℕ → X → Option Bool
  unfolding key
  allow email now x = below (redis.get (key email now) x)

  unfoldable pub failed : List ℕ → ℕ → X → Bool × X
  unfolding key
  failed email now x = redis.incr_expire (key email now) window x

  unfoldable pub reset : List ℕ → ℕ → X → Bool × X
  unfolding key
  reset email now x = redis.del (key email now) x

  -- Failures at the given instants, all of them recorded
  pub data FailedLogins (email : List ℕ) : List ℕ → X → X → Type 0 where
    no_failure : (x : X) → FailedLogins email [] x x
    failure :
        (now : ℕ) (later : List ℕ) (x z : X)
        → (failed email now x).0 ≡ true
        → FailedLogins email later (failed email now x).1 z
        → FailedLogins email (now ∷ later) x z

  failures-value :
      (email times : List ℕ) (bucket : ℕ) (x z : X)
      → All (λ t. t / window ≡ bucket) times
      → FailedLogins email times x z
      → let k : Counter = record { address = digest email; bucket = bucket } in
        redis.value k z ≡ length times + redis.value k x
  unfolding failed key
  failures-value email times bucket x z a (no_failure y) = omega arith
  failures-value email times bucket x z a (failure now later y v e f) =
      let k : ℕ → Counter = λ b. record { address = digest email; bucket = b } in
      let counted : redis.value (k bucket) (failed email now y).1 ≡ suc (redis.value (k bucket) y) =
        subst (λ b. redis.value (k b) (failed email now y).1 ≡ suc (redis.value (k b) y)) a.0
          (redis.counts (k (now / window)) window y e) in
      omega (arith, failures-value email later bucket (failed email now y).1 v a.1 f, counted)

  -- Where a window begins with no failure counted for an address, the failures in it are recorded and
  -- Redis answers, the throttle lets another attempt in that window pass exactly if there were fewer than
  -- `max` of them.
  pub allow_after_failures :
      (email times : List ℕ) (now : ℕ) (x z : X) (answer : Bool)
      → All (λ t. t / window ≡ now / window) times
      → redis.value (key email now) x ≡ 0
      → FailedLogins email times x z
      → allow email now z ≡ some answer
      → (answer ≡ true) ↔ (length times < max)
  unfolding allow key
  allow_after_failures email times now x z answer a h f e =
      read (redis.get (record { address = digest email; bucket = now / window }) z) refl e
    where
      read :
          (o : Option ℕ)
          → redis.get (record { address = digest email; bucket = now / window }) z ≡ o
          → below o ≡ some answer
          → (answer ≡ true) ↔ (length times < max)
      read none g e = absurd cc
      read (some n) g e =
          let v = redis.reads _ z n g in
          let c = failures-value email times (now / window) x z a f in
          let same : answer ≡ ltb n max = cc in
          let total : n ≡ length times = omega (arith, v, c, h) in rw same (rw total (ground arith))
