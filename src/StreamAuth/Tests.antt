-- ===== src/StreamAuth/Tests.antt =====
-- A ready track with three stored qualities, of which the default is not one.
use mathlib.Core.Path.{subst}
use icyre.Prelude.{ℕ, ◌<◌, ◌≡◌, refl, List, [], ◌∷◌, ◌++◌, arith, All}
use icyre.Prelude.Sort.{sort_by}
use icyre.Prelude.Unicode.{texts_equal}
use icyre.Platform.Postgres.{Result, ok}
use icyre.StreamAuth.{Error, status_ready, Deps, Request, Grant, choose_variant, authorize}
use icyre.StreamAuth.Grants.{IsEarned, authorize-IsEarned}

abbrev stored : List ℕ
stored = 320 ∷ 64 ∷ 128 ∷ []

abbrev deps : Deps
deps = record {
  status = λ id. ok status_ready;
  available = λ id. ok stored;
  sign = λ id q ttl. ok ([], ttl);
  ttl = 60;
}

abbrev request : Request
request = record { user_id = 1; session_id = 2; track_id = 7; quality = 0 }

abbrev grant : Grant
grant = record { track_id = 7; quality = 128; url = []; expires_at = 60 }

chosen : choose_variant 256 stored ≡ ok 128
unfolding choose_variant sort_by
chosen = refl

granted : (authorize deps request []).0 ≡ ok grant
unfolding authorize texts_equal sort_by
granted = refl

positive : (id : ℕ) (qs : List ℕ) → deps.available id ≡ ok qs → All (λ q. 0 < q) qs
positive id qs h =
    subst (λ l. All (λ q. 0 < q) l) (ok_eq stored qs h)
      (omega arith, (omega arith, (omega arith, tt)))
  where
    ok_eq : (a b : List ℕ) → ◌≡◌ {A = Result Error (List ℕ)} (ok a) (ok b) → a ≡ b
    ok_eq a b k = cc

authorize-IsEarned_example :
    IsEarned deps request grant
    × ((authorize deps request []).1
        ≡ [] ++ record { request = request; requested = 256; granted = 128; outcome = ok tt } ∷ [])
authorize-IsEarned_example = authorize-IsEarned deps request [] grant positive granted
