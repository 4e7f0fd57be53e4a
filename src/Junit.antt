-- ===== src/Junit.antt =====
-- pkg/junit/convert.go and test-network-function/results/results.go: the results of a JUnit report
-- and those that the suites record.
pub mod Reports
pub mod Records
pub mod Claims
use test_network_function.Prelude.{
  Bytes, codes, bytes_eq, str_eq, Map, lookup, insert, List, [], ◌∷◌, ◌++◌, Bool, true, false,
  Option, none, some, Result, ok, err, ◌>>=◌, Panic, failed_type_assertion, if◌then◌else◌,
}
use test_network_function.Strings.{trim_left}
use test_network_function.Json.{
  Value, Items, Fields, nil, cons, get, as_array, as_object, as_string,
}

pub record TestResult : Type 0 where
  pub passed : Bool
  pub failure_reason : Bytes

-- `v.(string)` without a second result.
unfoldable pub must_string : Value → Result Panic Bytes
unfolding as_string
must_string v = elim (as_string v) [ none ↦ err failed_type_assertion | some s ↦ ok s ]

-- The text of a key, or else the other text.
unfoldable pub reason_of : Bytes → Bytes → Bytes → Fields → Result Panic Bytes
unfolding must_string get
reason_of key found missing m = elim (get key m) [
  | none ↦ ok missing
  | some v ↦ do s ← must_string v; ok (found ++ s)
]

unfoldable pub determine_failure_reason : Value → Result Panic Bytes
unfolding as_object reason_of
determine_failure_reason failure = elim (as_object failure) [
  | none ↦ ok []
  | some m ↦ do
    content ←
        reason_of (codes "#content") (codes "Failed due to line: ")
          (codes "Failed due to line: No error line found in JUnit") m
    message ←
        reason_of (codes "-message") (codes "\nError message: ")
          (codes "\nError message: No JUinit message found") m
    ok (content ++ message)
]

unfoldable pub parse_result : Fields → Map Bytes TestResult → Result Panic (Map Bytes TestResult)
unfolding determine_failure_reason must_string get
parse_result m results = elim (get (codes "-name") m) [
  | none ↦ ok results
  | some v ↦ do
    key ← must_string v
    elim (get (codes "failure") m) [
      | none ↦ ok (insert key (record { passed = true; failure_reason = [] }) results)
      | some failure ↦ do
        reason ← determine_failure_reason failure
        ok (insert key (record { passed = false; failure_reason = reason }) results)
    ]
]

unfoldable pub parse_results : Items → Map Bytes TestResult → Result Panic (Map Bytes TestResult)
unfolding parse_result as_object
parse_results nil results = ok results
parse_results (cons v items) results = elim (as_object v) [
  | none ↦ parse_results items results
  | some m ↦ do results' ← parse_result m results; parse_results items results'
]

-- `m[key]` of a nested object.
unfoldable pub inside : Bytes → Option Fields → Option Fields
unfolding get as_object
inside key none = none
inside key (some m) = elim (get key m) [ none ↦ none | some v ↦ as_object v ]

-- The test cases of a report: the array, or the only one.
unfoldable pub test_cases : Fields → Option Items
unfolding get as_array
test_cases m = elim (get (codes "testcase") m) [
  | none ↦ none
  | some v ↦ elim (as_array v) [ none ↦ some (cons v nil) | some items ↦ some items ]
]

-- `ExtractTestSuiteResults`; `none` for an error. The second parsing, whose results are dropped, is
-- there, since it would panic as the first one.
unfoldable pub extract_test_suite_results :
    Fields → Bytes → Result Panic (Option (Map Bytes TestResult))
unfolding inside test_cases parse_results
extract_test_suite_results m report =
    elim (inside (codes "testsuite") (inside (codes "testsuites") (inside report (some m)))) [
      | none ↦ ok none
      | some suite ↦ elim (test_cases suite) [
        | none ↦ ok none
        | some items ↦ do
          results ← parse_results items []
          again ← parse_results items []
          ok (some results)
      ]
    ]

-- `strings.ReplaceAll(level, " ", "_")`
unfoldable pub without_spaces : Bytes → Bytes
without_spaces [] = []
without_spaces (c ∷ s) = (if str_eq (c ∷ []) (codes " ") then b'_' else c) ∷ without_spaces s

unfoldable pub join_levels : Bytes → List Bytes → Bytes
unfolding without_spaces
join_levels key [] = key
join_levels key (level ∷ levels) = join_levels (key ++ (codes "-" ++ without_spaces level)) levels

-- The key of a result: the texts of its containers and of the test.
unfoldable pub result_key : List Bytes → Bytes → Bytes
unfolding join_levels trim_left
result_key levels leaf = trim_left b'-' (join_levels [] levels) ++ (codes "-" ++ leaf)

module _ {R : Type 0} where
  -- `results[key] = append(results[key], r)`
  unfoldable pub append_result : Bytes → R → Map Bytes (List R) → Map Bytes (List R)
  append_result key r results = elim (lookup key results) [
    | none ↦ insert key (r ∷ []) results
    | some rs ↦ insert key (rs ++ r ∷ []) results
  ]

  -- The inner loop of `GetReconciledResults`.
  unfoldable pub append_all : Bytes → List R → Map Bytes (List R) → Map Bytes (List R)
  unfolding append_result
  append_all key [] results = results
  append_all key (v ∷ vals) results = append_all key vals (append_result key v results)

  -- `GetReconciledResults`
  unfoldable pub reconcile : Map Bytes (List R) → Map Bytes (List R) → Map Bytes (List R)
  unfolding append_all
  reconcile [] results = results
  reconcile ((key, vals) ∷ rest) results = elim (lookup key results) [
    | none ↦ reconcile rest (append_all key vals (insert key [] results))
    | some _ ↦ reconcile rest (append_all key vals results)
  ]

  unfoldable pub get_reconciled_results : Map Bytes (List R) → Map Bytes (List R)
  unfolding reconcile
  get_reconciled_results results = reconcile results []

  -- `RecordResult`, with the result that is made of the report; `none` where it panics for a test
  -- without an identifier.
  unfoldable pub record_result :
      (Bytes → Bool) → List Bytes → Bytes → R → Map Bytes (List R) → Option (Map Bytes (List R))
  unfolding result_key append_result
  record_result known levels leaf r results =
      if known leaf then some (append_result (result_key levels leaf) r results) else none
