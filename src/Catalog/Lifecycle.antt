-- ===== src/Catalog/Lifecycle.antt =====
-- The life of a track in services/catalog/internal/domain/track.go: what Apply and AdvanceMedia make of
-- it.
use mathlib.Core.Path.{subst}
use icyre.Prelude.{
  ℕ, ◌≡◌, ◌≢◌, ◌⊎◌, inl, inr, refl, sym, ap, ◌∙◌, Bool, true, false, not, ◌||◌, Bool-cases, Option,
  none, some, List, arith, if◌then◌else◌,
}
use icyre.Prelude.Unicode.{trim_space, texts_equal}
use icyre.Platform.Postgres.{Result, ok, err, fault}
use icyre.Catalog.{
  Error, TrackStatus, draft, processing, ready, blocked, deleted, same_status, can_transition_to,
  Track, MediaStage, media_uploaded, media_transcoded, media_failed, next_status, advance_media,
  TrackChanges, is_title, apply_title, apply_explicit, apply_status, same_bool, finished,
  with_status, with_title, apply, moved,
}

-- A step of the state machine, or the audio of a draft that went through processing at once
abbrev pub Moves : TrackStatus → TrackStatus → Type 0
Moves s s' = (s' ≡ s) ⊎ ((can_transition_to s s' ≡ true) ⊎ ((s ≡ draft) × (s' ≡ ready)))

-- What a track may become: only its title, its flag, its status and its time change, the status along
-- the state machine, and a deleted track not at all.
pub record Follows (t t' : Track) : Type 0 where
  pub kept : t' ≡ record t {
    title = t'.title;
    explicit = t'.explicit;
    status = t'.status;
    updated_at = t'.updated_at;
  }
  pub moves : Moves t.status t'.status
  pub ended : t.status ≡ deleted → t' ≡ t

pub Follows-refl : (t : Track) → Follows t t
Follows-refl t = record { kept = refl; moves = inl refl; ended = λ e. refl }

some_eq : (a b : TrackStatus) → ◌≡◌ {A = Option TrackStatus} (some a) (some b) → a ≡ b
some_eq a b h = cc

result_eq : (p q : Track × Bool) → ◌≡◌ {A = Result Error (Track × Bool)} (ok p) (ok q) → p.0 ≡ q.0
result_eq p q h = let same : p ≡ q = cc in ap (λ (z : Track × Bool). z.0) same

ok_eq : (a b : Track) → ◌≡◌ {A = Result Error Track} (ok a) (ok b) → a ≡ b
ok_eq a b h = cc

next_status-Moves :
    (stage : MediaStage) (s n : TrackStatus)
    → next_status stage s ≡ some n
    → ((n ≡ s) ⊎ ((can_transition_to s n ≡ true) ⊎ ((s ≡ draft) × (n ≡ ready)))) × (s ≢ deleted)
unfolding next_status can_transition_to
next_status-Moves media_uploaded draft n h =
    (inr (inl (subst (λ x. can_transition_to draft x ≡ true) (some_eq _ _ h) refl)), λ e. cc)
next_status-Moves media_uploaded processing n h = cc
next_status-Moves media_uploaded ready n h = cc
next_status-Moves media_uploaded blocked n h = cc
next_status-Moves media_uploaded deleted n h = cc
next_status-Moves media_transcoded draft n h = (inr (inr (refl, cc)), λ e. cc)
next_status-Moves media_transcoded processing n h =
    (inr (inl (subst (λ x. can_transition_to processing x ≡ true) (some_eq _ _ h) refl)), λ e. cc)
next_status-Moves media_transcoded ready n h = cc
next_status-Moves media_transcoded blocked n h = cc
next_status-Moves media_transcoded deleted n h = cc
next_status-Moves media_failed draft n h = cc
next_status-Moves media_failed processing n h =
    (inr (inl (subst (λ x. can_transition_to processing x ≡ true) (some_eq _ _ h) refl)), λ e. cc)
next_status-Moves media_failed ready n h = cc
next_status-Moves media_failed blocked n h = cc
next_status-Moves media_failed deleted n h = cc

moved-Follows :
    (o : Option TrackStatus) (now : ℕ) (t : Track)
    → ((n : TrackStatus) → o ≡ some n → Moves t.status n × (t.status ≢ deleted))
    → Follows t (moved o now t).0
moved-Follows none now t h = Follows-refl t
moved-Follows (some n) now t h = record {
  kept = refl;
  moves = (h n refl).0;
  ended = λ e. absurd ((h n refl).1 e);
}

pub advance_media-Follows :
    (stage : MediaStage) (now : ℕ) (t : Track) → Follows t (advance_media stage now t).0
unfolding advance_media
advance_media-Follows stage now t =
    moved-Follows (next_status stage t.status) now t (next_status-Moves stage t.status)

next_status_again :
    (stage : MediaStage) (s n : TrackStatus)
    → next_status stage s ≡ some n
    → next_status stage n ≡ none
unfolding next_status
next_status_again media_uploaded draft n h =
    subst (λ z. next_status media_uploaded z ≡ none) (some_eq _ n h) refl
next_status_again media_uploaded processing n h = cc
next_status_again media_uploaded ready n h = cc
next_status_again media_uploaded blocked n h = cc
next_status_again media_uploaded deleted n h = cc
next_status_again media_transcoded draft n h =
    subst (λ z. next_status media_transcoded z ≡ none) (some_eq _ n h) refl
next_status_again media_transcoded processing n h =
    subst (λ z. next_status media_transcoded z ≡ none) (some_eq _ n h) refl
next_status_again media_transcoded ready n h = cc
next_status_again media_transcoded blocked n h = cc
next_status_again media_transcoded deleted n h = cc
next_status_again media_failed draft n h = cc
next_status_again media_failed processing n h =
    subst (λ z. next_status media_failed z ≡ none) (some_eq _ n h) refl
next_status_again media_failed ready n h = cc
next_status_again media_failed blocked n h = cc
next_status_again media_failed deleted n h = cc

-- A signal of the media pipeline that is delivered again, with no other change between, changes nothing
-- and reports no change.
pub advance_media_again :
    (stage : MediaStage) (now later : ℕ) (t : Track)
    → advance_media stage later (advance_media stage now t).0
      ≡ ((advance_media stage now t).0, false)
unfolding advance_media
advance_media_again stage now later t = by_status (next_status stage t.status) refl
  where
    by_status :
        (o : Option TrackStatus)
        → next_status stage t.status ≡ o
        → moved (next_status stage (moved o now t).0.status) later (moved o now t).0
          ≡ ((moved o now t).0, false)
    by_status none e = rw e refl
    by_status (some n) e = rw (next_status_again stage t.status n e) refl

apply_title-ok :
    (o : Option (List ℕ)) (t n : Track) → apply_title o t ≡ ok n → n ≡ record t { title = n.title }
unfolding apply_title
apply_title-ok none t n h =
    let same : t ≡ n = cc in subst (λ m. m ≡ record t { title = m.title }) same refl
apply_title-ok (some text) t n h = elim (Bool-cases (is_title (trim_space text))) [
  | inl e ↦
      let made : record t { title = trim_space text } ≡ n = ok_eq _ n (sym (rw e refl) ∙ h) in
      subst (λ m. m ≡ record t { title = m.title }) made refl
  | inr e ↦ absurd (ground arith)
]

apply_explicit-kept :
    (o : Option Bool) (t : Track)
    → apply_explicit o t ≡ record t { explicit = (apply_explicit o t).explicit }
apply_explicit-kept none t = refl
apply_explicit-kept (some b) t = refl

apply_status-ok :
    (o : Option (Option TrackStatus)) (n m : Track)
    → apply_status o n ≡ ok m
    → (m ≡ record n { status = m.status }) × Moves n.status m.status
unfolding apply_status
apply_status-ok none n m h =
    subst (λ k. (k ≡ record n { status = k.status }) × Moves n.status k.status) (ok_eq n m h)
      (refl, inl refl)
apply_status-ok (some none) n m h = cc
apply_status-ok (some (some next)) n m h = elim (Bool-cases (same_status next n.status)) [
  | inl e ↦
      subst (λ k. (k ≡ record n { status = k.status }) × Moves n.status k.status)
        (ok_eq n m (sym (rw e refl) ∙ h)) (refl, inl refl)
  | inr e ↦ elim (Bool-cases (can_transition_to n.status next)) [
    | inl f ↦
        subst (λ k. (k ≡ record n { status = k.status }) × Moves n.status k.status)
          (ok_eq (record n { status = next }) m (sym (rw (e, f) refl) ∙ h)) (refl, inr (inl f))
    | inr f ↦ absurd (ground arith)
  ]
]

not_deleted : (s : TrackStatus) → same_status s deleted ≡ false → s ≢ deleted
not_deleted s h e =
    let wrong = sym (subst (λ x. same_status x deleted ≡ false) e h) in absurd (ground arith)

finished-Follows :
    (now : ℕ) (t next : Track)
    → next ≡ record t { title = next.title; explicit = next.explicit; status = next.status }
    → Moves t.status next.status
    → t.status ≢ deleted
    → Follows t (finished now t next).0
finished-Follows now t next k m d = either (
    not (texts_equal next.title t.title)
    || not (same_bool next.explicit t.explicit)
    || not (same_status next.status t.status))
  where
    either :
        (b : Bool)
        → Follows t
            (if◌then◌else◌ {A = Track × Bool} b
              (record next { updated_at = now }, true)
              (t, false)).0
    either true = record {
      kept = ap (λ (n : Track). record n { updated_at = now }) k;
      moves = m;
      ended = λ e. absurd (d e);
    }
    either false = Follows-refl t

pub apply-Follows :
    (c : TrackChanges) (now : ℕ) (t t' : Track) (changed : Bool)
    → apply c now t ≡ ok (t', changed)
    → Follows t t'
unfolding apply
apply-Follows c now t t' changed h = elim (Bool-cases (same_status t.status deleted)) [
  | inl e ↦ absurd (ground arith)
  | inr e ↦ by_title (not_deleted t.status e) (apply_title c.title t) refl (sym (rw e refl) ∙ h)
]
  where
    by_status :
        (n : Track)
        → n ≡ record t { title = n.title }
        → (r : Result Error Track) → apply_status c.status (apply_explicit c.explicit n) ≡ r
        → with_status c now t r ≡ ok (t', changed)
        → t.status ≢ deleted
        → Follows t t'
    by_status n k (ok m) e g d =
        let x : Track = apply_explicit c.explicit n in
        let (one, moves) = apply_status-ok c.status x m e in
        let two : x ≡ record n { explicit = x.explicit } = apply_explicit-kept c.explicit n in
        let full : m ≡ record t { title = n.title; explicit = x.explicit; status = m.status } =
          one
          ∙ ap (λ (y : Track). record y { status = m.status }) two
          ∙ ap (λ (y : Track). record y { explicit = x.explicit; status = m.status }) k in
        let from : x.status ≡ t.status =
          ap (λ (y : Track). y.status) two ∙ ap (λ (y : Track). y.status) k in
        let titles : n.title ≡ m.title = sym (ap (λ (y : Track). y.title) full) in
        let flags : x.explicit ≡ m.explicit = sym (ap (λ (y : Track). y.explicit) full) in
        subst (Follows t) (result_eq (finished now t m) (t', changed) g) (
          finished-Follows now t m
            (full ∙ (λ i. record t { title = titles i; explicit = flags i; status = m.status }))
            (subst (λ z. Moves z m.status) from moves) d)
    by_status n k (err x) e g d = cc
    by_status n k fault e g d = cc

    by_title :
        t.status ≢ deleted
        → (r : Result Error Track) → apply_title c.title t ≡ r
        → with_title c now t r ≡ ok (t', changed)
        → Follows t t'
    by_title d (ok n) e g =
        by_status n (apply_title-ok c.title t n e)
          (apply_status c.status (apply_explicit c.explicit n)) refl g d
    by_title d (err x) e g = cc
    by_title d fault e g = cc
