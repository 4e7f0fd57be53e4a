-- ===== src/Handlers/Subjects.antt =====
-- pkg/tnf/handlers/container/pod.go and pkg/tnf/handlers/operator/operator.go: tests that the files
-- of pkg/tnf/testcases configure. The two handlers have the same fields and differ only in how
-- they cut an array into statuses.
use test_network_function.Prelude.{
  ℕ, Bytes, codes, str_eq, bytes_eq, Map, lookup, List, [], ◌∷◌, map, Bool, true, false, not, ◌&&◌,
  ◌||◌, none, some, Result, ok, err, ◌>>=◌, Panic, bad_regular_expression, if◌then◌else◌, ◌==◌,
}
use test_network_function.Prelude.Int.{ℤ}
use test_network_function.Strings.{split, trim}
use test_network_function.Reel.{Step, Handler}
use test_network_function.Tnf.{success}
use test_network_function.Generic.{Regexp}
use test_network_function.Handlers.{single_shot}

-- `outRegExp` of pkg/tnf/testcases/base.go
abbrev pub out_reg_exp : Map Bytes Bytes
out_reg_exp =
    (codes "ALLOW_EMPTY", codes "(.*?)")
    ∷ (codes "allowAll", codes ".+")
    ∷ (codes "EMPTY_NULL_FALSE", codes "^\\b(null|false)\\b$|^$")
    ∷ (codes "NULL_FALSE", codes "^\\b(null|false)\\b$")
    ∷ (codes "TRUE", codes "^\\b(true)\\b$")
    ∷ (codes "NULL", codes "^\\b(null)\\b$")
    ∷ (codes "ZERO", codes "0")
    ∷ (codes "NON_ZERO_NUMBER", codes "^(0*([1-9]\\d*)|null)$")
    ∷ (codes "ERROR", codes "error")
    ∷ (codes "DIGIT", codes "\\d")
    ∷ []

unfoldable pub get_out_reg_exp : Bytes → Bytes
get_out_reg_exp key = elim (lookup key out_reg_exp) [ none ↦ key | some val ↦ val ]

-- The structs `Pod` and `Operator`.
pub record Subject : Type 0 where
  pub result : ℤ
  pub timeout : ℕ
  pub args : List Bytes
  pub command : Bytes
  pub name : Bytes
  pub namespace : Bytes
  pub expect_status : List Bytes
  pub action : Bytes
  pub result_type : Bytes
  pub facts : Bytes

unfoldable pub pod_first : Subject → Step
unfolding get_out_reg_exp
pod_first p = record {
  execute = [];
  expect = get_out_reg_exp (codes "ALLOW_EMPTY") ∷ [];
  timeout = p.timeout;
}

unfoldable pub operator_first : Subject → Step
unfolding get_out_reg_exp
operator_first p = record {
  execute = [];
  expect = get_out_reg_exp (codes "allowAll") ∷ [];
  timeout = p.timeout;
}

-- The function `contains` of both files.
unfoldable pub contains_status : List Bytes → Bytes → Bool
contains_status [] s = false
contains_status (a ∷ arr) s = str_eq a s || contains_status arr s

-- The bytes that the replacer of pod.go takes out.
abbrev is_markup : ℕ → Bool
is_markup c = c == b'[' || c == b'"' || c == b']' || c == 10 || c == 9

unfoldable pub pod_replace : Bytes → Bytes
pod_replace [] = []
pod_replace (c ∷ s) = let rest = pod_replace s in if is_markup c then rest else c ∷ rest

abbrev is_bracket : ℕ → Bool
is_bracket c = c == b'[' || c == b'"' || c == b']'

-- The replacer of operator.go, which also takes out one space behind a comma.
unfoldable pub operator_replace : Bytes → Bytes
operator_replace [] = []
operator_replace (c ∷ []) = if is_bracket c then [] else c ∷ []
operator_replace (c ∷ d ∷ s) =
    let next = operator_replace (d ∷ s) in
    let skipped = operator_replace s in
    if is_bracket c then next else if c == b',' && d == b' ' then c ∷ skipped else c ∷ next

abbrev nonempty_parts : List Bytes → List Bytes
nonempty_parts [] = []
nonempty_parts ([] ∷ parts) = nonempty_parts parts
nonempty_parts ((c ∷ s) ∷ parts) = (c ∷ s) ∷ nonempty_parts parts

-- The statuses of an array, as `contains` is asked for them: `strings.FieldsFunc` at the commas.
unfoldable pub pod_statuses : Bytes → List Bytes
unfolding pod_replace
pod_statuses m = map (trim b' ') (nonempty_parts (split (pod_replace m) (codes ",")))

unfoldable pub operator_statuses : Bytes → List Bytes
unfolding operator_replace
operator_statuses m = nonempty_parts (split (operator_replace m) (codes ","))

-- The loop over the statuses; false when it returns.
unfoldable pub statuses_pass : Bytes → List Bytes → List Bytes → Bool
unfolding contains_status
statuses_pass action expected [] = true
statuses_pass action expected (s ∷ statuses) =
    let later = statuses_pass action expected statuses in
    if contains_status expected s
    then (if str_eq action (codes "deny") then false else later)
    else if str_eq action (codes "allow")
    then false
    else later

-- `MatchString`: something is found.
abbrev pub match_string : Regexp → Bytes → Bytes → Bool
match_string re e m = elim (re.find_string_submatch e m) [ [] ↦ false | g ∷ gs ↦ true ]

-- The loop over the expected statuses of a result that is no array; false when it returns.
unfoldable pub expectations_match : Regexp → List Bytes → Bytes → Result Panic Bool
unfolding get_out_reg_exp
expectations_match re [] m = ok true
expectations_match re (status ∷ rest) m =
    let later = expectations_match re rest m in
    if not (re.compiles (get_out_reg_exp status))
    then err bad_regular_expression
    else if match_string re (get_out_reg_exp status) m
    then later
    else ok false

abbrev pub null_false : Bytes
null_false = codes "^\\b(null|false)\\b$"

-- What is left of `ReelMatch` for an array that is neither null nor false.
unfoldable pub array_result : Subject → List Bytes → Subject
unfolding statuses_pass
array_result p statuses =
    if statuses_pass p.action p.expect_status statuses then record p { result = success } else p

-- `ReelMatch`, over the way to cut an array into statuses.
unfoldable pub subject_match :
    (Bytes → List Bytes) → Regexp → Bytes → Bytes → Bytes → Subject → Result Panic Subject
unfolding array_result expectations_match
subject_match statuses_of re pattern before m p =
    let seen = record p { facts = m } in
    if str_eq p.result_type (codes "array")
    then (if not (re.compiles null_false)
        then err bad_regular_expression
        else if match_string re null_false m
        then ok (record seen { result = success })
        else ok (array_result seen (statuses_of m)))
    else (do
      fine ← expectations_match re p.expect_status m
      ok (if fine then record seen { result = success } else seen))

unfoldable pub pod_handler : Regexp → Handler Subject
unfolding subject_match pod_first pod_statuses single_shot
pod_handler re = single_shot pod_first (subject_match pod_statuses re)

unfoldable pub operator_handler : Regexp → Handler Subject
unfolding subject_match operator_first operator_statuses single_shot
operator_handler re = single_shot operator_first (subject_match operator_statuses re)
