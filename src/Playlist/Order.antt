-- ===== src/Playlist/Order.antt =====
-- CheckOrder of services/playlist/internal/domain/playlist.go.
use mathlib.Core.HLevel.{⊥_prop}
use mathlib.Core.Nat
use mathlib.Core.Nat.{le_of_eq}
use mathlib.Core.List
use mathlib.Core.List.{
  Mem, Mem-prop, Nodup, Nodup-nil, Nodup-cons, Perm, Subset, mem-cons, mem-cons_self, not-mem-nil,
}
use mathlib.Core.List.Nodup
use mathlib.Core.List.Perm
use mathlib.Core.List.Subperm
use mathlib.Core.Logic.Or
use icyre.Prelude.{
  ℕ, suc, ◌≡◌, refl, sym, ap, ◌↔◌, ◌∙◌, inl, inr, true, false, List, [], ◌∷◌, arith, ◌==◌, ==_iff,
  Bool-cases, length, any, All, ◌≢◌,
}
use icyre.Playlist.{Track, check_each, check_order}

abbrev pub track_ids : List Track → List ℕ
track_ids [] = []
track_ids (t ∷ ts) = t.track_id ∷ track_ids ts

pub any-Mem : (id : ℕ) (xs : List ℕ) → any (λ j. j == id) xs ≡ true → Mem id xs
any-Mem id [] h = cc
any-Mem id (x ∷ xs) h = elim (Bool-cases (x == id)) [
  | inl e ↦ mem-cons.1 (Or.inl (sym ((==_iff x id).0 e)))
  | inr e ↦ mem-cons.1 (Or.inr (any-Mem id xs (ground arith)))
]

pub not_any-not_Mem : (id : ℕ) (xs : List ℕ) → any (λ j. j == id) xs ≡ false → ¬ Mem id xs
not_any-not_Mem id [] h m = not-mem-nil m
not_any-not_Mem id (x ∷ xs) h m =
    Or.elim ⊥_prop (mem-cons.0 m) (λ e. ground (arith, ==_iff x id))
      (not_any-not_Mem id xs (ground arith))

any-track_ids :
    (id : ℕ) (ts : List Track)
    → any (λ (t : Track). t.track_id == id) ts ≡ any (λ j. j == id) (track_ids ts)
any-track_ids id [] = refl
any-track_ids id (t ∷ ts) = rw (any-track_ids id ts)

-- The library's lengths agree where ours do, and the other way round.
same_length :
    {A B : Type 0} (xs : List A) (ys : List B)
    → length xs ≡ length ys
    → List.length xs ≡ List.length ys
same_length [] [] h = refl
same_length [] (y ∷ ys) h = absurd (omega arith)
same_length (x ∷ xs) [] h = absurd (omega arith)
same_length (x ∷ xs) (y ∷ ys) h = ap Nat.suc (same_length xs ys (omega arith))

same_length' :
    {A B : Type 0} (xs : List A) (ys : List B)
    → List.length xs ≡ List.length ys
    → length xs ≡ length ys
same_length' [] [] h = refl
same_length' [] (y ∷ ys) h = cc
same_length' (x ∷ xs) [] h = cc
same_length' (x ∷ xs) (y ∷ ys) h = ap suc (same_length' xs ys (Nat.suc_inj h))

length-track_ids : (ts : List Track) → length (track_ids ts) ≡ length ts
length-track_ids [] = refl
length-track_ids (t ∷ ts) = ap suc (length-track_ids ts)

-- What the loop has checked when it ends well.
record Checked (ids seen order : List ℕ) : Type 0 where
  once : Nodup order
  known : (id : ℕ) → Mem id order → Mem id ids
  fresh : (id : ℕ) → Mem id order → ¬ Mem id seen

check_each_sound :
    (current : List Track) (seen order : List ℕ)
    → check_each current seen order ≡ true
    → Checked (track_ids current) seen order
unfolding check_each
check_each_sound current seen [] h = record {
  once = Nodup-nil;
  known = λ id m. absurd (not-mem-nil m);
  fresh = λ id m. absurd (not-mem-nil m);
}
check_each_sound current seen (x ∷ rest) h =
    let new : any (λ j. j == x) seen ≡ false = ground arith in
    let old : any (λ (t : Track). t.track_id == x) current ≡ true = ground arith in
    let c : Checked (track_ids current) (x ∷ seen) rest =
      check_each_sound current (x ∷ seen) rest (ground arith) in
    record {
      once = Nodup-cons.1 (λ m. c.fresh x m mem-cons_self, c.once);
      known = λ id m.
          Or.elim Mem-prop (mem-cons.0 m)
            (λ e. rw e (any-Mem x (track_ids current) (sym (any-track_ids x current) ∙ old)))
            (c.known id);
      fresh = λ id m k.
          Or.elim ⊥_prop (mem-cons.0 m) (λ e. not_any-not_Mem x seen new (rw e at k))
            (λ r. c.fresh id r (mem-cons.1 (Or.inr k)));
    }

check_each_complete :
    (current : List Track) (seen order : List ℕ)
    → Checked (track_ids current) seen order
    → check_each current seen order ≡ true
unfolding check_each
check_each_complete current seen [] c = refl
check_each_complete current seen (x ∷ rest) c =
    let new : any (λ j. j == x) seen ≡ false = elim (Bool-cases (any (λ j. j == x) seen)) [
      | inl e ↦ absurd (c.fresh x mem-cons_self (any-Mem x seen e))
      | inr e ↦ e
    ] in
    let old : any (λ (t : Track). t.track_id == x) current ≡ true =
      elim (Bool-cases (any (λ (t : Track). t.track_id == x) current)) [
        | inl e ↦ e
        | inr e ↦ absurd (
            not_any-not_Mem x (track_ids current) (sym (any-track_ids x current) ∙ e)
              (c.known x mem-cons_self))
      ] in
    let (first, once) = Nodup-cons.0 c.once in
    let tail : check_each current (x ∷ seen) rest ≡ true =
      check_each_complete current (x ∷ seen) rest (record {
        once = once;
        known = λ id m. c.known id (mem-cons.1 (Or.inr m));
        fresh = λ id m k.
            Or.elim ⊥_prop (mem-cons.0 k) (λ e. first (rw e at m))
              (c.fresh id (mem-cons.1 (Or.inr m)));
      }) in
    rw (new, old, tail)

-- CheckOrder accepts an order exactly when it lists every track of the playlist once: when it is a
-- permutation of the tracks, where no track stands twice in the playlist (its primary key).
pub check_order-iff-perm :
    (current : List Track) (order : List ℕ)
    → Nodup (track_ids current)
    → (check_order current order ≡ true) ↔ Perm order (track_ids current)
unfolding check_order
check_order-iff-perm current order distinct = (sound, complete)
  where
    sound : check_order current order ≡ true → Perm order (track_ids current)
    sound h =
        let c : Checked (track_ids current) [] order =
          check_each_sound current [] order (ground arith) in
        let same : length (track_ids current) ≡ length order =
          omega (arith, length-track_ids current, length_test h) in
        Subperm.perm_of_length_le (Nodup.subperm c.once c.known)
          (le_of_eq (same_length (track_ids current) order same))
      where
        length_test : check_order current order ≡ true → length order ≡ length current
        length_test h = ground arith

    complete : Perm order (track_ids current) → check_order current order ≡ true
    complete p =
        let same : length order ≡ length current =
          same_length' order (track_ids current) (Perm.length-eq p) ∙ length-track_ids current in
        let each : check_each current [] order ≡ true =
          check_each_complete current [] order (record {
            once = Perm.nodup (Perm.symm p) distinct;
            known = Perm.subset p;
            fresh = λ id m k. not-mem-nil k;
          }) in
        ground (arith, same, each)

pub Mem-any : (id : ℕ) (xs : List ℕ) → Mem id xs → any (λ j. j == id) xs ≡ true
Mem-any id xs m = elim (Bool-cases (any (λ j. j == id) xs)) [
  | inl e ↦ e
  | inr e ↦ absurd (not_any-not_Mem id xs e m)
]

pub not_Mem : (id : ℕ) (xs : List ℕ) → All (λ x. id ≢ x) xs → ¬ Mem id xs
not_Mem id [] h m = not-mem-nil m
not_Mem id (x ∷ xs) h m = Or.elim ⊥_prop (mem-cons.0 m) h.0 (not_Mem id xs h.1)
