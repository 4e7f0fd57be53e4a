-- ===== src/Junit/Reports.antt =====
-- The verdicts of a JUnit report.
use test_network_function.Prelude.{
  ◌≡◌, sym, ap, ◌∙◌, Bytes, codes, bytes_eq, str_eq, Map, lookup, insert, lookup-insert, [], Bool,
  true, false, Bool-cases, inl, inr, Option, none, some, Option-cases, ok, Result-cases, arith,
  if◌then◌else◌,
}
use test_network_function.Json.{Items, Fields, nil, cons, get, as_object, as_string}
use test_network_function.Junit.{
  TestResult, must_string, determine_failure_reason, parse_result, parse_results, test_cases,
  inside, extract_test_suite_results,
}

abbrev pub verdict : Option TestResult → Option Bool
verdict none = none
verdict (some r) = some r.passed

abbrev pub is_none {ℓ} : {A : Type ℓ} → Option A → Bool
is_none none = true
is_none (some x) = false

-- The name of a test case, where it has one.
abbrev pub name_of : Fields → Option Bytes
name_of m = elim (get (codes "-name") m) [ none ↦ none | some v ↦ as_string v ]

-- The verdict that a test case gives a test, or else the one that was there.
abbrev pub judged : Bytes → Fields → Option Bool → Option Bool
judged name m before = elim (name_of m) [
  | none ↦ before
  | some key ↦ if str_eq key name then some (is_none (get (codes "failure") m)) else before
]

-- The verdict of the last test case that has the name.
abbrev pub last_verdict : Bytes → Items → Option Bool → Option Bool
last_verdict name nil before = before
last_verdict name (cons v items) before =
    last_verdict name items (elim (as_object v) [ none ↦ before | some m ↦ judged name m before ])

insert-verdict :
    (name key : Bytes) (r : TestResult) (results : Map Bytes TestResult)
    → verdict (lookup name (insert key r results))
      ≡ (if str_eq key name then some r.passed else verdict (lookup name results))
insert-verdict name key r results = elim (Bool-cases (str_eq key name)) [
  | inl e ↦ ground (arith, lookup-insert key name r results)
  | inr e ↦ ground (arith, lookup-insert key name r results)
]

parse_result-verdict :
    (name : Bytes) (m : Fields) (results results' : Map Bytes TestResult)
    → parse_result m results ≡ ok results'
    → verdict (lookup name results') ≡ judged name m (verdict (lookup name results))
unfolding parse_result must_string
parse_result-verdict name m results results' h = elim (Option-cases (get (codes "-name") m)) [
  | inl unnamed ↦ ground arith
  | inr (v, named) ↦ elim (Option-cases (as_string v)) [
    | inl no_text ↦ absurd (ground arith)
    | inr (key, text) ↦ elim (Option-cases (get (codes "failure") m)) [
      | inl passed ↦
          ground
            (arith, insert-verdict name key (record { passed = true; failure_reason = [] }) results)
      | inr (failure, failed) ↦ elim (Result-cases (determine_failure_reason failure)) [
        | inl (p, panics) ↦ absurd (ground arith)
        | inr (reason, read) ↦ ground (
          arith,
          insert-verdict name key (record { passed = false; failure_reason = reason }) results,
        )
      ]
    ]
  ]
]

parse_results-verdict :
    (name : Bytes) (items : Items) (results results' : Map Bytes TestResult)
    → parse_results items results ≡ ok results'
    → verdict (lookup name results') ≡ last_verdict name items (verdict (lookup name results))
unfolding parse_results
parse_results-verdict name nil results results' h = ground arith
parse_results-verdict name (cons v items) results results' h = elim (Option-cases (as_object v)) [
  | inl e ↦ ground (arith, parse_results-verdict name items results results')
  | inr (m, e) ↦ elim (Result-cases (parse_result m results)) [
    | inl (p, panics) ↦ absurd (ground arith)
    | inr (after, first) ↦ ground (
      arith,
      parse_result-verdict name m results after first,
      parse_results-verdict name items after results',
    )
  ]
]

-- When a report is read, a test has the verdict of the last test case with its name in the array of
-- the report, or in its only test case; this one passes exactly when it has no failure.
pub extract_test_suite_results-verdict :
    (name report : Bytes) (m suite : Fields) (items : Items) (results : Map Bytes TestResult)
    → inside (codes "testsuite") (inside (codes "testsuites") (inside report (some m))) ≡ some suite
    → test_cases suite ≡ some items
    → extract_test_suite_results m report ≡ ok (some results)
    → verdict (lookup name results) ≡ last_verdict name items none
unfolding extract_test_suite_results lookup
extract_test_suite_results-verdict name report m suite items results at cases h =
    elim (Result-cases (parse_results items [])) [
      | inl (p, panics) ↦ absurd (ground arith)
      | inr (read, e) ↦
          let same : read ≡ results = ground arith in
          ap (λ (t : Map Bytes TestResult). verdict (lookup name t)) (sym same)
          ∙ parse_results-verdict name items [] read e
    ]
