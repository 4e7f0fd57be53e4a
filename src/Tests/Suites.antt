-- ===== src/Tests/Suites.antt =====
-- The access control suite and the results at concrete inputs.
use test_network_function.Prelude.{
  ◌≡◌, ◌↔◌, refl, Bytes, codes, bytes_eq, str_eq, has_prefix, Map, lookup, insert, List, [], ◌∷◌,
  true, none, some, ok,
}
use test_network_function.Prelude.Int.{pos}
use test_network_function.Strings.{split}
use test_network_function.Config.{Pod}
use test_network_function.Json.{Fields, obj, str, nil, cons, end, field}
use test_network_function.AccessControl.{BaseTestCase, get_crs_namespaces, test_namespace, prepare}
use test_network_function.AccessControl.Namespaces.{
  IsDiagonal, get_crs_namespaces-IsDiagonal, NonePrefixed, AllReadable, test_namespace_iff,
}
use test_network_function.AccessControl.Statuses.{prepare_lem}
use test_network_function.Junit.{
  TestResult, get_reconciled_results, test_cases, inside, extract_test_suite_results,
}
use test_network_function.Junit.{
  record_result, result_key, join_levels, without_spaces, append_result,
}
use test_network_function.Junit.Claims.{
  Report, record_all, reported, entry, get_reconciled_results-reported,
}
use test_network_function.Strings.{trim_left}
use test_network_function.Junit.Reports.{verdict, last_verdict, extract_test_suite_results-verdict}

read_one : get_crs_namespaces (codes "a,tnf") ≡ some ((codes "a", codes "a") ∷ [])
unfolding get_crs_namespaces split str_eq insert has_prefix
read_one = refl

get_crs_namespaces-IsDiagonal_example : IsDiagonal ((codes "a", codes "a") ∷ [])
get_crs_namespaces-IsDiagonal_example =
    get_crs_namespaces-IsDiagonal (codes "a,tnf") ((codes "a", codes "a") ∷ []) read_one

abbrev echo : Bytes → Bytes
echo command = codes "x"

test_namespace_iff_example :
    (test_namespace echo (codes "tnf" ∷ []) [] (codes "crd" ∷ []) ≡ true) ↔ (
      NonePrefixed (codes "tnf" ∷ [])
      × (◌≡◌ {A = List Pod} [] [])
      × AllReadable echo (codes "tnf" ∷ []) (codes "crd" ∷ []))
test_namespace_iff_example = test_namespace_iff echo (codes "tnf" ∷ []) [] (codes "crd" ∷ [])

abbrev test_case : BaseTestCase
test_case = record {
  name = codes "HOST_NETWORK";
  skip_test = true;
  loop = pos 0;
  command = codes "oc get pod %s -n %s";
  expected_type = codes "function";
  expected_status = codes "FN_SERVICE_ACCOUNT_NAME" ∷ codes "null" ∷ [];
  result_type = codes "string";
  action = codes "allow";
}

prepare_lem_example :
    prepare (codes "p") test_case
    ≡ record test_case { expected_status = codes "p" ∷ codes "p" ∷ [] }
prepare_lem_example = prepare_lem (codes "p") test_case refl

abbrev reports : List (Report Bytes)
reports =
    (codes "suite" ∷ codes "a spec" ∷ [], codes "t", codes "r")
    ∷ (codes "suite" ∷ [], codes "u", codes "s")
    ∷ (codes "suite" ∷ codes "a spec" ∷ [], codes "t", codes "q")
    ∷ []

abbrev recorded : Map Bytes (List Bytes)
recorded =
    (codes "suite-a_spec-t", codes "r" ∷ codes "q" ∷ []) ∷ (codes "suite-u", codes "s" ∷ []) ∷ []

recording : record_all (λ leaf. true) reports [] ≡ some recorded
unfolding record_result result_key join_levels without_spaces trim_left append_result lookup insert
    str_eq
recording = refl

get_reconciled_results-reported_example :
    lookup (codes "suite-u") (get_reconciled_results recorded)
    ≡ entry (reported (codes "suite-u") reports)
get_reconciled_results-reported_example =
    get_reconciled_results-reported (λ leaf. true) reports recorded (codes "suite-u") recording

abbrev only_case : Fields
only_case = field (codes "-name") (str (codes "t")) end

abbrev suite : Fields
suite = field (codes "testcase") (obj only_case) end

abbrev report : Fields
report =
    field (codes "report")
      (obj (field (codes "testsuites") (obj (field (codes "testsuite") (obj suite) end)) end)) end

abbrev passed : Map Bytes TestResult
passed = (codes "t", record { passed = true; failure_reason = [] }) ∷ []

suite_at :
    inside (codes "testsuite") (inside (codes "testsuites") (inside (codes "report") (some report)))
    ≡ some suite
unfolding inside str_eq
suite_at = refl

cases_at : test_cases suite ≡ some (cons (obj only_case) nil)
unfolding test_cases str_eq
cases_at = refl

extracted : extract_test_suite_results report (codes "report") ≡ ok (some passed)
unfolding extract_test_suite_results str_eq insert
extracted = refl

extract_test_suite_results-verdict_example :
    verdict (lookup (codes "t") passed) ≡ last_verdict (codes "t") (cons (obj only_case) nil) none
extract_test_suite_results-verdict_example =
    extract_test_suite_results-verdict (codes "t") (codes "report") report suite
      (cons (obj only_case) nil) passed suite_at cases_at extracted
