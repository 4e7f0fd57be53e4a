-- ===== src/Reel/Patterns.antt =====
-- The regular expressions of the expectations, and the commands sent.
use test_network_function.Prelude.{
  ℕ, ◌+◌, ◌-◌, ◌<◌, ◌≡◌, ◌≢◌, refl, ap, zero, suc, Bytes, List, [], ◌∷◌, ◌++◌, map, length,
  length-append, length-map, take, get_or, get_elem?, some, arith, true, ltb, if◌then◌else◌,
  Bool-cases, lt→ltb, inl, inr,
}
use test_network_function.Reel.{
  Reel, end_of_test_regex_postfix, add_emulated_regular_expression,
  strip_emulated_regular_expression, generate_cases,
}

take-append : (xs ys : Bytes) → take (length xs) (xs ++ ys) ≡ xs
take-append [] ys = refl
take-append (x ∷ xs) ys = ap (λ t. x ∷ t) (take-append xs ys)

length-pos : (e : Bytes) → e ≢ [] → 0 < length e
length-pos [] h = absurd (h refl)
length-pos (c ∷ e) h = omega arith

take_off :
    (e p : Bytes)
    → e ≢ []
    → (if ltb (length p) (length (e ++ p))
        then take (length (e ++ p) - length p) (e ++ p)
        else e ++ p)
      ≡ e
take_off e p h =
    let longer : ltb (length p) (length (e ++ p)) ≡ true =
      lt→ltb _ _ (omega (arith, length-append e p, length-pos e h)) in
    let rest : length (e ++ p) - length p ≡ length e = omega (arith, length-append e p) in
    rw (longer, rest) (take-append e p)

-- A handler is told the expectation as it wrote it: the postfix for the emulated prompt is taken
-- off again, in either mode, if the expectation is not empty.
pub strip-add_emulated_regular_expression :
    (r : Reel) (e : Bytes)
    → e ≢ []
    → strip_emulated_regular_expression r (add_emulated_regular_expression r e) ≡ e
unfolding strip_emulated_regular_expression add_emulated_regular_expression
strip-add_emulated_regular_expression r e h =
    elim (Bool-cases r.disable_terminal_prompt_emulation) [
      | inl off ↦ rw off
      | inr on ↦ rw on (take_off e end_of_test_regex_postfix h)
    ]

get_or-map-append :
    (f : Bytes → Bytes) (es rest : List Bytes) (i : ℕ) (e : Bytes)
    → get_elem? es i ≡ some e
    → get_or (map f es ++ rest) i [] ≡ f e
get_or-map-append f [] rest i e h = ground arith
get_or-map-append f (d ∷ es) rest zero e h = ground arith
get_or-map-append f (d ∷ es) rest (suc i) e h = get_or-map-append f es rest i e h

-- The case with the number of an expectation is that expectation's.
pub get_or-generate_cases :
    (r : Reel) (es : List Bytes) (i : ℕ) (e : Bytes)
    → get_elem? es i ≡ some e
    → get_or (generate_cases r es) i [] ≡ add_emulated_regular_expression r e
unfolding generate_cases
get_or-generate_cases r es i e h = get_or-map-append (add_emulated_regular_expression r) es _ i e h

-- The extra case is the last one.
pub length-generate_cases :
    (r : Reel) (es : List Bytes) → length (generate_cases r es) ≡ length es + 1
unfolding generate_cases
length-generate_cases r es = omega (
  arith,
  length-append (map (add_emulated_regular_expression r) es)
      (add_emulated_regular_expression r [] ∷ []),
  length-map es (add_emulated_regular_expression r),
)

pub get_elem?-lt {ℓ} :
    {A : Type ℓ} (xs : List A) (i : ℕ) {a : A} → get_elem? xs i ≡ some a → i < length xs
get_elem?-lt [] i h = ground arith
get_elem?-lt (x ∷ xs) zero h = omega arith
get_elem?-lt (x ∷ xs) (suc i) h = omega (arith, get_elem?-lt xs i h)
