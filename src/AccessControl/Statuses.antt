-- ===== src/AccessControl/Statuses.antt =====
-- The expected statuses of a test whose expected type is a function.
use test_network_function.Prelude.{
  ℕ, zero, suc, ◌≡◌, refl, ap, sym, ◌∙◌, Bytes, codes, str_eq, str_eq_iff, List, [], ◌∷◌, ◌++◌,
  length, get_elem?, replicate, map, Bool, false, not, ◌&&◌, ◌||◌, Bool-cases, inl, inr, none, some,
  arith,
}
use test_network_function.AccessControl.{
  BaseTestCase, expected_status_fn, replace_statuses, prepare, unskip, render_test_case_spec,
}

get_behind :
    (k : ℕ) (name s : Bytes) (ss : List Bytes) → get_elem? (replicate k name ++ s ∷ ss) k ≡ some s
get_behind zero name s ss = refl
get_behind (suc k) name s ss = get_behind k name s ss

get_end : (k : ℕ) (name : Bytes) → get_elem? (replicate k name ++ []) k ≡ none
get_end zero name = refl
get_end (suc k) name = get_end k name

-- Behind copies of the name the status at hand is the first one that is replaced.
expected_status_fn-replicate :
    (k : ℕ) (name s : Bytes) (ss : List Bytes)
    → expected_status_fn name s (replicate k name ++ s ∷ ss) ≡ replicate k name ++ name ∷ ss
unfolding expected_status_fn
expected_status_fn-replicate zero name s ss = ground (arith, str_eq_iff s s)
expected_status_fn-replicate (suc k) name s ss =
    ground (arith, expected_status_fn-replicate k name s ss, str_eq_iff s name)

replicate-snoc :
    (k : ℕ) (name : Bytes) (ss : List Bytes)
    → replicate k name ++ name ∷ ss ≡ replicate (suc k) name ++ ss
replicate-snoc zero name ss = refl
replicate-snoc (suc k) name ss = ap (λ (t : List Bytes). name ∷ t) (replicate-snoc k name ss)

replace_statuses-replicate :
    (k : ℕ) (name : Bytes) (ss : List Bytes)
    → replace_statuses (length ss) k name (replicate k name ++ ss)
      ≡ replicate k name ++ replicate (length ss) name
unfolding replace_statuses
replace_statuses-replicate k name [] = refl
replace_statuses-replicate k name (s ∷ ss) = ground (
  arith,
  get_behind k name s ss,
  expected_status_fn-replicate k name s ss,
  replicate-snoc k name ss,
  replace_statuses-replicate (suc k) name ss,
  replicate-snoc k name (replicate (length ss) name),
)

-- A test case whose expected type is a function expects the name of the pod as often as it had
-- statuses: each of them is replaced, those that name no function too, and all else stays.
pub prepare_lem :
    (name : Bytes) (tc : BaseTestCase)
    → tc.expected_type ≡ codes "function"
    → prepare name tc ≡ record tc { expected_status = replicate (length tc.expected_status) name }
unfolding prepare
prepare_lem name tc e = ground (
  arith,
  str_eq_iff tc.expected_type (codes "function"),
  replace_statuses-replicate 0 name tc.expected_status,
)

-- The name is in the list.
abbrev pub named : Bytes → List Bytes → Bool
named name [] = false
named name (t ∷ ts) = str_eq name t || named name ts

-- The case with its flag cleared if it is one of the tests.
abbrev pub rendered : List Bytes → BaseTestCase → BaseTestCase
rendered tests e = record e { skip_test = e.skip_test && not (named e.name tests) }

render_nil : (cases : List BaseTestCase) → map (rendered []) cases ≡ cases
render_nil [] = refl
render_nil (e ∷ es) = elim (Bool-cases e.skip_test) [
  | inl skipped ↦ ground (arith, render_nil es)
  | inr runs ↦ ground (arith, render_nil es)
]

render_one :
    (elem : Bytes) (tests : List Bytes) (cases : List BaseTestCase)
    → map (rendered tests) (unskip elem cases) ≡ map (rendered (elem ∷ tests)) cases
unfolding unskip
render_one elem tests [] = refl
render_one elem tests (e ∷ es) = elim (Bool-cases (str_eq e.name elem)) [
  | inl same ↦ elim (Bool-cases e.skip_test) [
    | inl skipped ↦ ground (arith, render_one elem tests es)
    | inr runs ↦ ground (arith, render_one elem tests es)
  ]
  | inr other ↦ ground (arith, render_one elem tests es)
]

-- Of the cases of the template exactly those run that it does not skip itself or that the
-- configuration names; their order and all their other fields stay.
pub render_test_case_spec_lem :
    (tests : List Bytes) (cases : List BaseTestCase)
    → render_test_case_spec tests cases ≡ map (rendered tests) cases
unfolding render_test_case_spec
render_test_case_spec_lem [] cases = sym (render_nil cases)
render_test_case_spec_lem (elem ∷ tests) cases =
    render_test_case_spec_lem tests (unskip elem cases) ∙ render_one elem tests cases
