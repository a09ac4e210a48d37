-- ===== src/StreamAuth.antt =====
-- services/stream-auth: internal/domain (which tracks may be streamed, and in which quality) and
-- internal/application/service.go.
--
-- A quality is a number, and 0 is none. The answers of Catalog, of the object store and of the signer
-- are functions of what they are asked, and the audit trail is the list of its decisions. A text is
-- the list of its code points.
pub mod Variant
pub mod Grants
mod Tests
use icyre.Prelude.{
  ℕ, Bool, true, false, Option, none, some, List, [], ◌∷◌, ◌++◌, leb, ◌==◌, if◌then◌else◌,
}
use icyre.Prelude.Sort.{sort_by}
use icyre.Prelude.Unicode.{texts_equal}
use icyre.Platform.Outbox.TableName.{codes}
use icyre.Platform.Postgres.{Result, ok, err, fault}

pub data Error : Type 0 where
  track_not_found track_not_ready track_blocked no_variant invalid_request : Error

abbrev pub default_quality : ℕ
default_quality = 256

abbrev pub status_ready : List ℕ
status_ready = codes "READY"

abbrev pub status_blocked : List ℕ
status_blocked = codes "BLOCKED"

abbrev pub status_deleted : List ℕ
status_deleted = codes "DELETED"

-- `none` where the track may be streamed
unfoldable pub check_playable : List ℕ → Option Error
check_playable status =
    if texts_equal status status_ready
    then none
    else if texts_equal status status_blocked
    then some track_blocked
    else if texts_equal status status_deleted
    then some track_not_found
    else some track_not_ready

-- The loop of ChooseVariant
unfoldable pub best_of : ℕ → ℕ → List ℕ → ℕ
best_of requested best [] = best
best_of requested best (q ∷ qs) = best_of requested (if leb q requested then q else best) qs

abbrev pub best_or_first : ℕ → List ℕ → Result Error ℕ
best_or_first best [] = err no_variant
best_or_first best (q ∷ qs) = ok (if best == 0 then q else best)

unfoldable pub choose_variant : ℕ → List ℕ → Result Error ℕ
unfolding best_of
choose_variant requested available =
    let ordered = sort_by leb available in best_or_first (best_of requested 0 ordered) ordered

pub record Grant : Type 0 where
  pub track_id : ℕ
  pub quality : ℕ
  pub url : List ℕ
  pub expires_at : ℕ

pub record Request : Type 0 where
  pub user_id : ℕ
  pub session_id : ℕ
  pub track_id : ℕ
  pub quality : ℕ

-- `granted` is 0 when the request is denied.
pub record Decision : Type 0 where
  pub request : Request
  pub requested : ℕ
  pub granted : ℕ
  pub outcome : Result Error (Unit {0})

-- Tracks, Variants and Signer, with the lifetime of a URL
pub record Deps : Type 0 where
  pub status : ℕ → Result Error (List ℕ)
  pub available : ℕ → Result Error (List ℕ)
  pub sign : ℕ → ℕ → ℕ → Result Error (List ℕ × ℕ)
  pub ttl : ℕ

abbrev pub wanted : Request → ℕ
wanted r = if r.quality == 0 then default_quality else r.quality

abbrev pub and_then : {A B : Type 0} → Result Error A → (A → Result Error B) → Result Error B
and_then (ok a) f = f a
and_then (err e) f = err e
and_then fault f = fault

abbrev pub unless : {A : Type 0} → Option Error → Result Error A → Result Error A
unless none r = r
unless (some e) r = err e

abbrev pub granted_of : {A : Type 0} → (A → ℕ) → Result Error A → ℕ
granted_of f (ok a) = f a
granted_of f (err e) = 0
granted_of f fault = 0

abbrev pub outcome_of : {A : Type 0} → Result Error A → Result Error (Unit {0})
outcome_of (ok a) = ok tt
outcome_of (err e) = err e
outcome_of fault = fault

module _ (deps : Deps) where
  unfoldable pub choose_for : ℕ → ℕ → Result Error ℕ
  unfolding check_playable choose_variant
  choose_for track_id requested = and_then (deps.status track_id) λ status.
      unless (check_playable status)
        (and_then (deps.available track_id) λ available. choose_variant requested available)

  unfoldable pub authorize_for : ℕ → ℕ → Result Error Grant
  unfolding choose_for
  authorize_for track_id requested = and_then (choose_for track_id requested) λ q.
      and_then (deps.sign track_id q deps.ttl) λ signed.
        ok (record { track_id = track_id; quality = q; url = signed.0; expires_at = signed.1 })

  -- Authorize, with the audit trail before and after
  unfoldable pub authorize : Request → List Decision → Result Error Grant × List Decision
  unfolding authorize_for
  authorize r audit =
      let g = authorize_for r.track_id (wanted r) in
      (
        g,
        audit
            ++ record {
              request = r;
              requested = wanted r;
              granted = granted_of (λ (x : Grant). x.quality) g;
              outcome = outcome_of g;
            }
              ∷ [],
      )

  -- Choose, with the audit trail before and after
  unfoldable pub choose : Request → List Decision → Result Error ℕ × List Decision
  unfolding choose_for
  choose r audit =
      let q = choose_for r.track_id (wanted r) in
      (
        q,
        audit
            ++ record {
              request = r;
              requested = wanted r;
              granted = granted_of (λ n. n) q;
              outcome = outcome_of q;
            }
              ∷ [],
      )

-- Denied: a refusal, not a failure of another system
abbrev pub denied : {A : Type 0} → Result Error A → Bool
denied (ok a) = false
denied (err e) = true
denied fault = false
