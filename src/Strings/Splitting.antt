-- ===== src/Strings/Splitting.antt =====
-- Where the separators of a split stand.
use test_network_function.Prelude.{
  ℕ, zero, suc, ◌-◌, ◌≤◌, ◌<◌, ◌≡◌, refl, ap, ◌∙◌, Bytes, has_prefix, List, [], ◌∷◌, ◌++◌,
  append-nil, length, length-drop, ◌⊎◌, inl, inr, drop, Bool, true, false, arith,
}
use test_network_function.Strings.{split_from, split, contains}

-- A skip over a whole text.
split_from-skip : (sep u s : Bytes) → split_from sep (length u) (u ++ s) ≡ split_from sep zero s
unfolding split_from
split_from-skip sep [] s = refl
split_from-skip sep (c ∷ u) s = split_from-skip sep u s

pub has_prefix-append : (p s : Bytes) → has_prefix p (p ++ s) ≡ true
unfolding has_prefix
has_prefix-append [] s = refl
has_prefix-append (c ∷ p) s = ground (arith, has_prefix-append p s)

has_prefix-split :
    (p u v : Bytes)
    → has_prefix p (u ++ v) ≡ true
    → (has_prefix p u ≡ true) ⊎ ((has_prefix (drop (length u) p) v ≡ true) × (length u < length p))
unfolding has_prefix
has_prefix-split [] u v h = inl refl
has_prefix-split (c ∷ p) [] v h = inr (h, omega arith)
has_prefix-split (c ∷ p) (d ∷ u) v h = ground (arith, has_prefix-split p u v)

has_prefix_shorter :
    (p s r : Bytes) → length p ≤ length s → has_prefix p (s ++ r) ≡ true → has_prefix p s ≡ true
unfolding has_prefix
has_prefix_shorter [] s r l h = refl
has_prefix_shorter (c ∷ p) [] r l h = elim l [ ]
has_prefix_shorter (c ∷ p) (d ∷ s) r l h = ground (arith, has_prefix_shorter p s r)

-- No proper part at the end of the text is also its beginning.
abbrev pub IsUnbordered : Bytes → Type 0
IsUnbordered sep = (k : ℕ) → 0 < k → k < length sep → has_prefix (drop k sep) sep ≡ false

-- No separator begins inside `u` when `s` follows it.
abbrev StartsNone : Bytes → Bytes → Bytes → Type 0
StartsNone sep [] s = Unit
StartsNone sep (c ∷ u) s = (has_prefix sep (c ∷ (u ++ s)) ≡ false) × StartsNone sep u s

not_true : (b : Bool) → (b ≡ true → ⊥) → b ≡ false
not_true true h = absurd (h refl)
not_true false h = refl

contains-StartsNone :
    (sep u rest : Bytes)
    → IsUnbordered sep
    → contains sep u ≡ false
    → StartsNone sep u (sep ++ rest)
unfolding contains
contains-StartsNone sep [] rest ub h = tt
contains-StartsNone sep (c ∷ u) rest ub h = (
  not_true _ (λ p. elim (has_prefix-split sep (c ∷ u) (sep ++ rest) p) [
    | inl inside ↦ ground arith
    | inr (over, short) ↦ ground (
      arith,
      ub (suc (length u)) (omega arith) short,
      has_prefix_shorter (drop (suc (length u)) sep) sep rest
          (omega (arith, length-drop (suc (length u)) sep)) over,
    )
  ]),
  contains-StartsNone sep u rest ub (ground arith),
)

-- Text before the first separator is the first part.
split_from-append :
    (sep u s : Bytes)
    → StartsNone sep u s
    → split_from sep zero (u ++ s) ≡ (u ++ (split_from sep zero s).0, (split_from sep zero s).1)
unfolding split_from
split_from-append sep [] s h = refl
split_from-append sep (c ∷ u) s (h, hs) =
    rw h (ap (λ (p : Bytes × List Bytes). (c ∷ p.0, p.1)) (split_from-append sep u s hs))

split_from_sep :
    (d : ℕ) (p s : Bytes) → split_from (d ∷ p) zero (d ∷ (p ++ s)) ≡ ([], split s (d ∷ p))
unfolding split_from split
split_from_sep d p s =
    let back : suc (length p) - 1 ≡ length p = omega arith in
    rw (has_prefix-append (d ∷ p) s, back) (rw (split_from-skip (d ∷ p) p s))

-- A text in which the separator does not occur is split off before the first separator.
pub split-append :
    (d : ℕ) (p u s : Bytes)
    → IsUnbordered (d ∷ p)
    → contains (d ∷ p) u ≡ false
    → split (u ++ d ∷ (p ++ s)) (d ∷ p) ≡ u ∷ split s (d ∷ p)
split-append d p u s ub h =
    let before =
      split_from-append (d ∷ p) u (d ∷ (p ++ s)) (contains-StartsNone (d ∷ p) u s ub h) in
    unfold split in
    ap (λ (q : Bytes × List Bytes). q.0 ∷ q.1)
      (before ∙ ap (λ (q : Bytes × List Bytes). (u ++ q.0, q.1)) (split_from_sep d p s))
    ∙ ap (λ v. v ∷ split s (d ∷ p)) (append-nil u)

split_from_only : (sep u : Bytes) → contains sep u ≡ false → split_from sep zero u ≡ (u, [])
unfolding split_from contains
split_from_only sep [] h = refl
split_from_only sep (c ∷ u) h = ground (arith, split_from_only sep u)

-- A text with no separator is the only part.
pub split_only : (sep u : Bytes) → contains sep u ≡ false → split u sep ≡ u ∷ []
unfolding split
split_only sep u h = rw (split_from_only sep u h)
