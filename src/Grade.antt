-- ===== src/Grade.antt =====
-- pkg/gradetool/gradetool.go: grading a claim file against a policy.
pub mod Key
pub mod Results
pub mod Grading
pub mod Policies
use test_network_function.Prelude.{
  ℕ, ◌+◌, ◌/◌, ◌%◌, Bytes, codes, List, [], ◌∷◌, ◌++◌, Bool, true, false, ◌&&◌, Option, none, some,
  Map, bytes_eq, lookup, insert, Result, ok, err, ◌>>=◌, if◌then◌else◌, ◌==◌, ltb,
}
use test_network_function.Json.{Value, Items, nil, cons, get, as_array, as_object, as_bool}

-- `identifier.Identifier`
pub record Identifier : Type 0 where
  pub url : Bytes
  pub semantic_version : Bytes

-- `*Grade`: the nil pointer, or a grade with its required tests and its `NextGrade`.
pub data Grade : Type 0 where
  no_grade : Grade
  grade : Bytes → List Identifier → Grade → Grade

-- `Policy`: its `Grades` is a struct, so there is a first grade.
pub record Policy : Type 0 where
  pub grade_name : Bytes
  pub required_passing_tests : List Identifier
  pub next_grade : Grade

-- `&policy.Grades`
abbrev pub first_grade : Policy → Grade
first_grade p = grade p.grade_name p.required_passing_tests p.next_grade

pub record GradeResult : Type 0 where
  pub name : Bytes
  pub propose : Bool
  pub pass : List Identifier
  pub fail : List Identifier

-- The errors that grading and policy validation return.
pub data Error : Type 0 where
  results_not_array : Error
  result_not_object : Error
  passed_missing : Error
  passed_not_bool : Error
  duplicate_grade_name : Bytes → Error

unfoldable pub new_grade_result : Bytes → GradeResult
new_grade_result grade_name = record { name = grade_name; propose = false; pass = []; fail = [] }

-- The lower-case hexadecimal digit of a number below 16.
unfoldable pub hex_digit : ℕ → ℕ
hex_digit d = if ltb d 10 then b'0' + d else 87 + d

-- What `%q` writes for one byte. Bytes of printable non-ASCII characters are written as they are;
-- a text with an unprintable non-ASCII character, or one that is not UTF-8, is out of the model. The
-- toolchain is that of go.mod, Go 1.17.
unfoldable pub quote_byte : ℕ → Bytes
unfolding hex_digit
quote_byte c =
    if c == b'"'
    then codes "\\\""
    else if c == b'\\'
    then codes "\\\\"
    else if c == 7
    then codes "\\a"
    else if c == 8
    then codes "\\b"
    else if c == 12
    then codes "\\f"
    else if c == 10
    then codes "\\n"
    else if c == 13
    then codes "\\r"
    else if c == 9
    then codes "\\t"
    else if c == 11
    then codes "\\v"
    else if ltb c 32
    then b'\\' ∷ b'x' ∷ hex_digit (c / 16) ∷ hex_digit (c % 16) ∷ []
    else if c == 127
    then codes "\\u007f"
    else c ∷ []

-- The bytes between the quotes.
unfoldable pub quote_body : Bytes → Bytes
quote_body [] = []
quote_body (c ∷ s) = quote_byte c ++ quote_body s

-- `{"url":%q,"version":%q}`
unfoldable pub generate_test_results_key : Identifier → Bytes
generate_test_results_key id =
    codes "{\"url\":\""
    ++ (quote_body id.url
        ++ b'"' ∷ (codes ",\"version\":\"" ++ (quote_body id.semantic_version ++ b'"' ∷ codes "}")))

-- The body of the loop of `processTestResults`: the `passed` field of one result.
unfoldable pub result_passed : Value → Result Error Bool
result_passed result = elim (as_object result) [
  | none ↦ err result_not_object
  | some result_typed ↦ elim (get (codes "passed") result_typed) [
    | none ↦ err passed_missing
    | some val ↦ elim (as_bool val) [ none ↦ err passed_not_bool | some b ↦ ok b ]
  ]
]

-- The loop: `pass` is overwritten in each round.
unfoldable pub process_items : Items → Bool → Result Error Bool
process_items nil pass = ok pass
process_items (cons result rest) pass = do b ← result_passed result; process_items rest b

unfoldable pub process_test_results : Value → Result Error Bool
unfolding process_items result_passed
process_test_results results = elim (as_array results) [
  | none ↦ err results_not_array
  | some results_typed ↦ process_items results_typed false
]

-- One round of the inner loop of `doGrading`, which appends the test to one of the two lists.
unfoldable pub file_test : Identifier → Bool → GradeResult → GradeResult
file_test id true g = record g { pass = g.pass ++ id ∷ [] }
file_test id false g = record g { fail = g.fail ++ id ∷ [] }

-- The inner loop of `doGrading`, over the required tests of one grade.
unfoldable pub grade_tests :
    Map Bytes Value → List Identifier → GradeResult → Result Error GradeResult
grade_tests results [] g = ok g
grade_tests results (id ∷ ids) g = elim (lookup (generate_test_results_key id) results) [
  | none ↦ grade_tests results ids (file_test id false g)
  | some r ↦ do
    test_pass ← process_test_results r
    grade_tests results ids (file_test id test_pass g)
]

abbrev pub is_empty {ℓ} : {A : Type ℓ} → List A → Bool
is_empty [] = true
is_empty (x ∷ xs) = false

-- `previousGradePassed && len(gradeResult.Fail) == 0`
unfoldable pub with_propose : Bool → GradeResult → GradeResult
with_propose previous_grade_passed g =
    if previous_grade_passed && is_empty g.fail then record g { propose = true } else g

-- The outer loop of `doGrading`; `previousGradePassed` is set once, before the loop.
unfoldable pub grade_chain :
    Map Bytes Value → Bool → Grade → List GradeResult → Result Error (List GradeResult)
unfolding grade_tests with_propose
grade_chain results previous_grade_passed no_grade grading_output = ok grading_output
grade_chain results previous_grade_passed (grade name tests next) grading_output = do
  g ← grade_tests results tests (new_grade_result name)
  grade_chain results previous_grade_passed next
      (grading_output ++ with_propose previous_grade_passed g ∷ [])

unfoldable pub do_grading : Policy → Map Bytes Value → Result Error (List GradeResult)
unfolding grade_chain
do_grading policy results = grade_chain results true (first_grade policy) []

-- The loop of `validatePolicy`, over the names seen so far.
unfoldable pub validate_grades : Map Bytes Bool → Grade → Result Error (Unit {0})
validate_grades grade_names no_grade = ok tt
validate_grades grade_names (grade name tests next) = elim (lookup name grade_names) [
  | some _ ↦ err (duplicate_grade_name name)
  | none ↦ validate_grades (insert name true grade_names) next
]

unfoldable pub validate_policy : Policy → Result Error (Unit {0})
unfolding validate_grades
validate_policy policy = validate_grades [] (first_grade policy)
