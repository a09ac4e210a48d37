-- ===== src/StreamAuth/Grants.antt =====
-- What stands behind a grant of services/stream-auth/internal/application/service.go.
use mathlib.Core.Path.{subst}
use icyre.Prelude.{
  ℕ, ◌<◌, ◌≡◌, inl, inr, refl, sym, ap, ◌∙◌, Bool, true, false, Bool-cases, Option, none, some,
  List, [], ◌∷◌, ◌++◌, All, if◌then◌else◌,
}
use icyre.Prelude.Unicode.{texts_equal, texts_equal_iff}
use icyre.Platform.Postgres.{Result, ok, err, fault}
use icyre.StreamAuth.{
  Error, track_not_found, track_not_ready, track_blocked, status_ready, status_blocked,
  status_deleted, check_playable, Grant, Request, Decision, Deps, wanted, and_then, unless,
  granted_of, outcome_of, choose_for, authorize_for, authorize,
}
use icyre.StreamAuth.Variant.{IsBest, choose_variant-IsBest}

and_then-ok :
    {A B : Type 0} (r : Result Error A) (f : A → Result Error B) (b : B)
    → and_then r f ≡ ok b
    → (a : A) × (r ≡ ok a) × (f a ≡ ok b)
and_then-ok (ok a) f b h = (a, refl, h)
and_then-ok (err e) f b h = cc
and_then-ok fault f b h = cc

unless-ok :
    {A : Type 0} (o : Option Error) (r : Result Error A) (a : A)
    → unless o r ≡ ok a
    → (o ≡ none) × (r ≡ ok a)
unless-ok none r a h = (refl, h)
unless-ok (some e) r a h = cc

check_playable-none : (status : List ℕ) → check_playable status ≡ none → status ≡ status_ready
unfolding check_playable
check_playable-none status h = elim (Bool-cases (texts_equal status status_ready)) [
  | inl e ↦ (texts_equal_iff status status_ready).0 e
  | inr e ↦ absurd (
      refused (texts_equal status status_blocked) (texts_equal status status_deleted)
        (sym (rw e refl) ∙ h))
]
  where
    refused :
        (b d : Bool)
        → (if b
            then some track_blocked
            else if d
            then some track_not_found
            else some track_not_ready)
          ≡ none
        → ⊥
    refused true d k = cc
    refused false true k = cc
    refused false false k = cc

-- What a grant rests on: the status of the track, and the choice among what is stored
pub record IsEarned (deps : Deps) (r : Request) (g : Grant) : Type 0 where
  pub is_ready : deps.status r.track_id ≡ ok status_ready
  pub stored : List ℕ
  pub is_stored : deps.available r.track_id ≡ ok stored
  pub is_best : IsBest (wanted r) g.quality stored
  pub for_track : g.track_id ≡ r.track_id

authorize_for-IsEarned :
    (deps : Deps) (r : Request) (g : Grant)
    → ((id : ℕ) (qs : List ℕ) → deps.available id ≡ ok qs → All (λ q. 0 < q) qs)
    → authorize_for deps r.track_id (wanted r) ≡ ok g
    → IsEarned deps r g
unfolding authorize_for choose_for
authorize_for-IsEarned deps r g positive h =
    let (q, chosen, signed) = and_then-ok (choose_for deps r.track_id (wanted r)) _ g h in
    let (signature, _, made) = and_then-ok (deps.sign r.track_id q deps.ttl) _ g signed in
    let (status, told, rest) = and_then-ok (deps.status r.track_id) _ q chosen in
    let (playable, picked) = unless-ok (check_playable status) _ q rest in
    let (available, there, choice) = and_then-ok (deps.available r.track_id) _ q picked in
    let grant : record {
      track_id = r.track_id;
      quality = q;
      url = signature.0;
      expires_at = signature.1;
    }
        ≡ g =
      ok_eq _ g made in
    record {
      is_ready = told ∙ ap (λ s. ok s) (check_playable-none status playable);
      stored = available;
      is_stored = there;
      is_best =
          subst (λ (x : Grant). IsBest (wanted r) x.quality available) grant
            (choose_variant-IsBest (wanted r) q available (positive r.track_id available there)
              choice);
      for_track = ap (λ (x : Grant). x.track_id) (sym grant);
    }
  where
    ok_eq : (a b : Grant) → ◌≡◌ {A = Result Error Grant} (ok a) (ok b) → a ≡ b
    ok_eq a b k = cc

-- Where the stored qualities are not 0: a grant is issued only for a track that Catalog calls READY,
-- for the best stored quality up to the one requested, or else the lowest stored one, and the audit
-- trail gains exactly that decision.
pub authorize-IsEarned :
    (deps : Deps) (r : Request) (audit : List Decision) (g : Grant)
    → ((id : ℕ) (qs : List ℕ) → deps.available id ≡ ok qs → All (λ q. 0 < q) qs)
    → (authorize deps r audit).0 ≡ ok g
    → IsEarned deps r g
      × ((authorize deps r audit).1
          ≡ audit
            ++ record { request = r; requested = wanted r; granted = g.quality; outcome = ok tt }
              ∷ [])
unfolding authorize
authorize-IsEarned deps r audit g positive h = (
  authorize_for-IsEarned deps r g positive h,
  ap
      (λ x.
        audit
        ++ record {
          request = r;
          requested = wanted r;
          granted = granted_of (λ (y : Grant). y.quality) x;
          outcome = outcome_of x;
        }
          ∷ [])
      h,
)
