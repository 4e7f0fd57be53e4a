-- ===== src/Tests/Grading.antt =====
-- pkg/gradetool at concrete policies and claims.
use test_network_function.Prelude.{
  ◌≡◌, ◌↔◌, refl, Bytes, codes, bytes_eq, Bool, true, false, List, [], ◌∷◌, Map, lookup, insert,
  str_eq, ok, err,
}
use test_network_function.Json.{
  Value, nil, cons, end, field, arr, obj, bool, get, as_object, as_bool, as_array,
}
use test_network_function.Grade.{
  Identifier, no_grade, grade, Policy, first_grade, GradeResult, generate_test_results_key,
  quote_body, quote_byte, process_test_results, file_test, new_grade_result, do_grading,
  validate_policy, duplicate_grade_name,
}
use test_network_function.Grade.Key.{generate_test_results_key-injective}
use test_network_function.Grade.Grading.{
  IsGradable, graded, failing, do_grading_iff, AccountsFor, do_grading-AccountsFor, verdict,
}

abbrev ping : Identifier
ping = record { url = codes "http://t/ping"; semantic_version = codes "v1.0.0" }

abbrev quoted : Identifier
quoted = record { url = codes "a\"b\n"; semantic_version = codes "v\t" }

abbrev entry : Bool → Value
entry b = obj (field (codes "passed") (bool b) end)

quoted_key : generate_test_results_key quoted ≡ codes "{\"url\":\"a\\\"b\\n\",\"version\":\"v\\t\"}"
unfolding generate_test_results_key quote_body quote_byte
quoted_key = refl

generate_test_results_key-injective_example : ping ≡ ping
generate_test_results_key-injective_example = generate_test_results_key-injective ping ping refl

abbrev claim_results : Map Bytes Value
claim_results =
    (codes "{\"url\":\"http://t/ping\",\"version\":\"v1.0.0\"}", arr (cons (entry true) nil)) ∷ []

abbrev two_grades : Policy
two_grades = record {
  grade_name = codes "good";
  required_passing_tests = quoted ∷ [];
  next_grade = grade (codes "better") (ping ∷ []) no_grade;
}

abbrev two_results : List GradeResult
two_results =
    record { name = codes "good"; propose = false; pass = []; fail = quoted ∷ [] }
    ∷ record { name = codes "better"; propose = true; pass = ping ∷ []; fail = [] }
    ∷ []

grading_runs : do_grading two_grades claim_results ≡ ok two_results
unfolding do_grading lookup generate_test_results_key quote_body quote_byte process_test_results get
    as_object as_bool as_array str_eq file_test new_grade_result
grading_runs = refl

do_grading_iff_example : (do_grading two_grades claim_results ≡ ok two_results) ↔ (
    IsGradable claim_results (first_grade two_grades)
    × (two_results ≡ graded claim_results (first_grade two_grades)))
do_grading_iff_example = do_grading_iff claim_results two_grades two_results

do_grading-AccountsFor_example : AccountsFor claim_results (first_grade two_grades) two_results
do_grading-AccountsFor_example =
    do_grading-AccountsFor claim_results two_grades two_results grading_runs

quoted_fails : failing claim_results (quoted ∷ []) ≡ quoted ∷ []
unfolding lookup generate_test_results_key quote_body quote_byte process_test_results get as_object
    as_bool as_array verdict str_eq
quoted_fails = refl

ping_passes : failing claim_results (ping ∷ []) ≡ []
unfolding lookup generate_test_results_key quote_body quote_byte process_test_results get as_object
    as_bool as_array verdict str_eq
ping_passes = refl

abbrev twice : Policy
twice = record {
  grade_name = codes "g";
  required_passing_tests = [];
  next_grade = grade (codes "g") [] no_grade;
}

twice_refused : validate_policy twice ≡ err (duplicate_grade_name (codes "g"))
unfolding validate_policy lookup insert str_eq
twice_refused = refl
