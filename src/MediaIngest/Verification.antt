-- ===== src/MediaIngest/Verification.antt =====
-- Service.verify of services/media-ingest/internal/application/service.go.
use icyre.Prelude.{
  ℕ, ◌≤◌, ◌≡◌, ◌↔◌, refl, sym, ◌∙◌, Bool, true, false, Option, none, some, List, arith,
  if◌then◌else◌, ltb,
}
use icyre.Prelude.Unicode.{texts_equal_iff}
use icyre.Platform.Postgres.{◌>>=◌, Result, ok, err, fault, World, Pgx, reach, lift, pure, raise}
use icyre.Platform.Outbox.{Db}
use icyre.MediaIngest.{Reason, expired, Error, not_uploaded, Upload, Format, format_of, sniff_len}
use icyre.MediaIngest.Repository.{Tables}
use icyre.MediaIngest.Service.{
  ObjectInfo, Storage, Limits, Event, mismatch, sniffed, verify_head, verify_as, verify,
}

module _ {X : Type 0} (store : Storage X) (limits : Limits) (pgx : Pgx) where
  -- The object is there with the size, the type and the digest that were declared, its size is
  -- within the limit, and it begins like its format.
  pub record IsAcceptable (u : Upload) (x : X) : Type 0 where
    pub info : ObjectInfo
    pub head : List ℕ
    pub format : Format
    pub there : store.stat u.key x ≡ some (some info)
    pub size : info.size ≡ u.size_bytes
    pub within : info.size ≤ limits.max_size
    pub content_type : info.content_type ≡ u.content_type
    pub digest : info.sha256 ≡ store.encode u.sha256
    pub read : store.read_head u.key sniff_len x ≡ some head
    pub known : format_of u.content_type ≡ some format
    pub begins : format.sniff head ≡ true

  -- What the code answers, by what the store and the formats say.
  abbrev by_head : Option (List ℕ) → Option Format → Result Error (Option Reason)
  by_head none f = fault
  by_head (some head) none = fault
  by_head (some head) (some format) = ok (sniffed (format.sniff head))

  verify_head_lem :
      (u : Upload) (w : World (Db Tables Event) X) (read : Option (List ℕ)) (f : Option Format)
      → store.read_head u.key sniff_len w.outside ≡ read
      → format_of u.content_type ≡ f
      → (verify_head store limits pgx u none w).0 ≡ by_head read f
  unfolding verify_head ◌>>=◌ reach lift
  verify_head_lem u w none f r k = rw r refl
  verify_head_lem u w (some head) none r k = rw r (rw k refl)
  verify_head_lem u w (some head) (some format) r k = rw r (rw k refl)

  abbrev by_mismatch : Option Reason → Result Error (Option Reason) → Result Error (Option Reason)
  by_mismatch none r = r
  by_mismatch (some reason) r = ok (some reason)

  abbrev by_stat : Upload → ℕ → X → Option (Option ObjectInfo) → Result Error (Option Reason)
  by_stat u now x none = fault
  by_stat u now x (some none) = if ltb u.expires_at now then ok (some expired) else err not_uploaded
  by_stat u now x (some (some info)) =
      by_mismatch (mismatch limits store.encode u info)
        (by_head (store.read_head u.key sniff_len x) (format_of u.content_type))

  verify_mismatch_lem :
      (u : Upload) (w : World (Db Tables Event) X) (o : Option Reason)
      → (verify_head store limits pgx u o w).0
        ≡ by_mismatch o
            (by_head (store.read_head u.key sniff_len w.outside) (format_of u.content_type))
  unfolding verify_head pure
  verify_mismatch_lem u w none = verify_head_lem u w _ _ refl refl
  verify_mismatch_lem u w (some reason) = refl

  late_lem :
      (b : Bool) (w : World (Db Tables Event) X)
      → ((if b then pure {E = Error} (some expired) else raise not_uploaded) w).0
        ≡ (if b then ok (some expired) else err not_uploaded)
  unfolding pure raise
  late_lem true w = refl
  late_lem false w = refl

  verify_lem :
      (u : Upload) (now : ℕ) (w : World (Db Tables Event) X) (o : Option (Option ObjectInfo))
      → store.stat u.key w.outside ≡ o
      → (verify store limits pgx u now w).0 ≡ by_stat u now w.outside o
  unfolding verify ◌>>=◌ reach verify_as
  verify_lem u now w none h = rw h refl
  verify_lem u now w (some none) h = rw h (late_lem (ltb u.expires_at now) w)
  verify_lem u now w (some (some info)) h = rw h (verify_mismatch_lem u w _)

  by_mismatch_ok :
      (o : Option Reason) (r : Result Error (Option Reason))
      → by_mismatch o r ≡ ok none
      → (o ≡ none) × (r ≡ ok none)
  by_mismatch_ok none r e = (refl, e)
  by_mismatch_ok (some reason) r e = absurd cc

  by_head_ok :
      (read : Option (List ℕ)) (f : Option Format)
      → by_head read f ≡ ok none
      → (head : List ℕ) × (format : Format) × (read ≡ some head)
        × (f ≡ some format)
        × (format.sniff head ≡ true)
  by_head_ok none f e = absurd cc
  by_head_ok (some head) none e = absurd cc
  by_head_ok (some head) (some format) e =
      (head, format, refl, refl, sniffed_none (format.sniff head) cc)
    where
      sniffed_none : (b : Bool) → sniffed b ≡ none → b ≡ true
      sniffed_none true e = refl
      sniffed_none false e = absurd cc

  mismatch-none :
      (u : Upload) (info : ObjectInfo)
      → mismatch limits store.encode u info ≡ none
      → (info.size ≡ u.size_bytes)
        × (info.size ≤ limits.max_size)
        × (info.content_type ≡ u.content_type)
        × (info.sha256 ≡ store.encode u.sha256)
  mismatch-none u info e = (
    ground arith,
    ground arith,
    (texts_equal_iff info.content_type u.content_type).0 (ground arith),
    (texts_equal_iff info.sha256 (store.encode u.sha256)).0 (ground arith),
  )

  accepted_lem :
      (u : Upload) (now : ℕ) (x : X) (o : Option (Option ObjectInfo))
      → store.stat u.key x ≡ o
      → by_stat u now x o ≡ ok none
      → IsAcceptable u x
  accepted_lem u now x none h e = absurd (ground arith)
  accepted_lem u now x (some none) h e = absurd (ground arith)
  accepted_lem u now x (some (some info)) h e =
      let (m, b) = by_mismatch_ok (mismatch limits store.encode u info) _ e in
      let (size, within, content_type, digest) = mismatch-none u info m in
      let (head, format, read, known, begins) = by_head_ok _ _ b in
      record {
        info = info;
        head = head;
        format = format;
        there = h;
        size = size;
        within = within;
        content_type = content_type;
        digest = digest;
        read = read;
        known = known;
        begins = begins;
      }

  none-mismatch :
      (u : Upload) (x : X) (a : IsAcceptable u x) → mismatch limits store.encode u a.info ≡ none
  none-mismatch u x a = ground (
    arith,
    a.size,
    a.within,
    (texts_equal_iff a.info.content_type u.content_type).1 a.content_type,
    (texts_equal_iff a.info.sha256 (store.encode u.sha256)).1 a.digest,
  )

  acceptable_lem :
      (u : Upload) (now : ℕ) (x : X) (a : IsAcceptable u x)
      → by_stat u now x (some (some a.info)) ≡ ok none
  acceptable_lem u now x a = rw (none-mismatch u x a) (rw a.read (rw a.known (rw a.begins refl)))

  -- verify accepts an object, and so lets Complete settle the upload as completed, exactly when the
  -- object is there with the size, the content type and the digest that were declared, its size is within
  -- the limit and its first bytes are those of its format.
  pub verify_accepts_iff :
      (u : Upload) (now : ℕ) (w : World (Db Tables Event) X)
      → ((verify store limits pgx u now w).0 ≡ ok none) ↔ IsAcceptable u w.outside
  verify_accepts_iff u now w = (
    λ e. accepted_lem u now w.outside _ refl (sym (verify_lem u now w _ refl) ∙ e),
    λ a. verify_lem u now w _ a.there ∙ acceptable_lem u now w.outside a,
  )
