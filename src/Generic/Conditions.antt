-- ===== src/Generic/Conditions.antt =====
-- `Evaluate` of the conditions.
use test_network_function.Prelude.{
  ℕ, zero, suc, ◌≤◌, ◌<◌, ◌≡◌, ◌↔◌, refl, Bytes, List, [], ◌∷◌, length, get_elem?, none, some, err,
  index_out_of_range, arith,
}
use native.Mathlib.Decide.{dec_lt}
use test_network_function.Prelude.Int.{ℤ, pos, negsuc}
use test_network_function.Generic.{Regexp, Condition, found_match, evaluate}

pub get_elem?-none {ℓ} : {A : Type ℓ} (xs : List A) (i : ℕ) → length xs ≤ i → get_elem? xs i ≡ none
get_elem?-none [] i h = refl
get_elem?-none (x ∷ xs) zero h = elim h [ ]
get_elem?-none (x ∷ xs) (suc i) h = get_elem?-none xs i (omega arith)

pub get_elem?-some {ℓ} :
    {A : Type ℓ} (xs : List A) (i : ℕ) → i < length xs → (a : A) × (get_elem? xs i ≡ some a)
get_elem?-some [] i h = elim h [ ]
get_elem?-some (x ∷ xs) zero h = (x, refl)
get_elem?-some (x ∷ xs) (suc i) h = get_elem?-some xs i (omega arith)

-- The index is negative, or it is the number of the submatches found.
abbrev pub IsUncaught : List Bytes → ℤ → Type 0
IsUncaught ms (negsuc n) = Unit
IsUncaught ms (pos i) = i ≡ length ms

-- For every condition, `Evaluate` panics exactly if the group index is negative or equal to the
-- number of the submatches (0 if there is no match): the test before the access lets both through.
pub evaluate_panics :
    (re : Regexp) (c : Condition) (m regex : Bytes) (i : ℤ)
    → (evaluate re c m regex i ≡ err index_out_of_range)
      ↔ IsUncaught (re.find_string_submatch regex m) i
unfolding evaluate found_match
evaluate_panics re c m regex (negsuc n) = (λ h. tt, λ h. refl)
evaluate_panics re c m regex (pos i) = (
  λ h. elim (dec_lt i (length ms)) [
    | yes p ↦ let (a, e) = get_elem?-some ms i p in absurd (ground arith)
    | no p ↦ ground arith
  ],
  λ h. let e = get_elem?-none ms i (omega arith) in ground arith,
)
  where
    ms : List Bytes
    ms = re.find_string_submatch regex m
