-- ===== src/AccessControl.antt =====
-- test-network-function/accesscontrol/suite.go and pkg/tnf/testcases/base.go: the namespaces of the
-- resources under test, and the commands that are run on the pods.
--
-- What a command prints and `fmt.Sprintf` of a template are arguments.
pub mod Namespaces
pub mod Statuses
use test_network_function.Prelude.{
  ℕ, zero, suc, ◌+◌, ltb, Bytes, codes, bytes_eq, str_eq, has_prefix, Map, lookup, insert, List, [],
  ◌∷◌, ◌++◌, length, get_elem?, Bool, true, false, not, ◌&&◌, ◌||◌, Option, none, some,
  if◌then◌else◌,
}
use test_network_function.Prelude.Int.{ℤ, pos, ltb_ℤ}
use test_network_function.Strings.{split}
use test_network_function.Config.{Pod}

abbrev pub invalid_namespace_prefixes : List Bytes
invalid_namespace_prefixes =
    codes "default" ∷ codes "openshift-" ∷ codes "istio-" ∷ codes "aspenmesh-" ∷ []

-- The two loops of `testNamespace`: a namespace is listed once for each prefix that it has.
unfoldable pub failed_prefixes : Bytes → List Bytes → List Bytes
failed_prefixes namespace [] = []
failed_prefixes namespace (p ∷ ps) =
    let rest = failed_prefixes namespace ps in
    if has_prefix p namespace then namespace ∷ rest else rest

unfoldable pub failed_namespaces : List Bytes → List Bytes
unfolding failed_prefixes
failed_namespaces [] = []
failed_namespaces (ns ∷ nss) =
    failed_prefixes ns invalid_namespace_prefixes ++ failed_namespaces nss

-- The two fields of a line, if it has two.
abbrev pub two_fields : List Bytes → Option (Bytes × Bytes)
two_fields (a ∷ b ∷ []) = some (a, b)
two_fields _ = none

-- The loop over the lines; `none` for an error. The constants of both indexes are 0, so the name is
-- stored under the name.
unfoldable pub read_crs : List Bytes → Map Bytes Bytes → Option (Map Bytes Bytes)
read_crs [] m = some m
read_crs (line ∷ lines) m = elim (two_fields (split line (codes ","))) [
  | none ↦ none
  | some (name, namespace) ↦ read_crs lines (insert name name m)
]

-- `getCrsNamespaces`, from the output of its command.
unfoldable pub get_crs_namespaces : Bytes → Option (Map Bytes Bytes)
unfolding read_crs
get_crs_namespaces out = if str_eq out [] then some [] else read_crs (split out (codes "\n")) []

unfoldable pub configured : Bytes → List Bytes → Bool
configured namespace [] = false
configured namespace (ns ∷ nss) =
    let later = configured namespace nss in if str_eq namespace ns then true else later

-- The loop over the resources of one definition: those whose namespace is not configured.
unfoldable pub invalid_of : List Bytes → Map Bytes Bytes → List Bytes
unfolding configured
invalid_of nss [] = []
invalid_of nss ((name, namespace) ∷ crs) =
    let rest = invalid_of nss crs in if configured namespace nss then rest else name ∷ rest

-- An entry is made for the first invalid resource of a definition, and extended by the others.
unfoldable pub add_invalid : Bytes → List Bytes → Map Bytes (List Bytes) → Map Bytes (List Bytes)
add_invalid crd [] invalid = invalid
add_invalid crd (name ∷ names) invalid = add_invalid crd names (elim (lookup crd invalid) [
  | none ↦ insert crd (name ∷ []) invalid
  | some listed ↦ insert crd (listed ++ name ∷ []) invalid
])

-- The plural name of a definition.
unfoldable pub plural_of : (Bytes → Bytes) → Bytes → Bytes
plural_of execute crd =
    execute (codes "oc get crd " ++ (crd ++ codes " -o jsonpath='{.spec.names.plural}'"))

-- The output of the command of `getCrsNamespaces`.
unfoldable pub crs_output : (Bytes → Bytes) → Bytes → Bytes
crs_output execute plural = execute (
    codes "oc get "
    ++ (plural
        ++ codes
            " -A -o go-template='{{range .items}}{{if .metadata.namespace}}{{.metadata.name}},{{.metadata.namespace}}{{\"\n\"}}{{end}}{{end}}'"))

-- `testCrsNamespaces`; `none` when it fails the test, at a definition without a plural name or at
-- output that it cannot read.
unfoldable pub test_crs_namespaces :
    (Bytes → Bytes)
    → List Bytes
    → List Bytes
    → Map Bytes (List Bytes)
    → Option (Map Bytes (List Bytes))
unfolding get_crs_namespaces invalid_of add_invalid plural_of crs_output
test_crs_namespaces execute [] nss invalid = some invalid
test_crs_namespaces execute (crd ∷ crds) nss invalid = elim (str_eq (plural_of execute crd) []) [
  | true ↦ none
  | false ↦ elim (get_crs_namespaces (crs_output execute (plural_of execute crd))) [
    | none ↦ none
    | some crs ↦ test_crs_namespaces execute crds nss (add_invalid crd (invalid_of nss crs) invalid)
  ]
]

abbrev pub is_nil {ℓ} : {A : Type ℓ} → List A → Bool
is_nil [] = true
is_nil (x ∷ xs) = false

-- `testNamespace`: true when the test passes.
unfoldable pub test_namespace : (Bytes → Bytes) → List Bytes → List Pod → List Bytes → Bool
unfolding failed_namespaces test_crs_namespaces
test_namespace execute nss non_valid_pods crds =
    is_nil (failed_namespaces nss)
    && is_nil non_valid_pods
    && elim (test_crs_namespaces execute crds nss []) [
      | none ↦ false
      | some invalid ↦ is_nil invalid
    ]

-- `BaseTestCase`, where the statuses are those that the methods change.
pub record BaseTestCase : Type 0 where
  pub name : Bytes
  pub skip_test : Bool
  pub loop : ℤ
  pub command : Bytes
  pub expected_type : Bytes
  pub expected_status : List Bytes
  pub result_type : Bytes
  pub action : Bytes

-- `ExpectedStatusFn`: the first status that is the function's name is replaced.
unfoldable pub expected_status_fn : Bytes → Bytes → List Bytes → List Bytes
expected_status_fn val fn [] = []
expected_status_fn val fn (s ∷ ss) =
    let rest = expected_status_fn val fn ss in if str_eq fn s then val ∷ ss else s ∷ rest

-- The loop of `runTestOnPods` that calls it: `n` rounds from index `i` on, over the list as it is
-- at each round.
unfoldable pub replace_statuses : ℕ → ℕ → Bytes → List Bytes → List Bytes
unfolding expected_status_fn
replace_statuses zero i val statuses = statuses
replace_statuses (suc n) i val statuses = elim (get_elem? statuses i) [
  | none ↦ statuses
  | some fn ↦ replace_statuses n (i + 1) val (expected_status_fn val fn statuses)
]

unfoldable pub prepare : Bytes → BaseTestCase → BaseTestCase
unfolding replace_statuses
prepare pod_name tc =
    if str_eq tc.expected_type (codes "function")
    then record tc {
      expected_status = replace_statuses (length tc.expected_status) 0 pod_name tc.expected_status;
    }
    else tc

-- An argument of `fmt.Sprintf`.
pub data Argument : Type 0 where
  text : Bytes → Argument
  number : ℕ → Argument

-- What `NewPod` is given for one test.
pub record PodTest : Type 0 where
  pub args : List Bytes
  pub name : Bytes
  pub namespace : Bytes
  pub expect_status : List Bytes
  pub result_type : Bytes
  pub action : Bytes

unfoldable pub pod_test :
    (Bytes → List Argument → Bytes) → Pod → BaseTestCase → List Argument → PodTest
pod_test sprintf pod tc args = record {
  args = split (sprintf tc.command args) (codes " ");
  name = pod.name;
  namespace = pod.namespace;
  expect_status = tc.expected_status;
  result_type = tc.result_type;
  action = tc.action;
}

unfoldable pub arguments_of : Bytes → Pod → List Argument
arguments_of test_type pod =
    if str_eq test_type (codes "PRIVILEGED_ROLE")
    then text pod.namespace ∷ text pod.namespace ∷ text pod.service_account ∷ []
    else text pod.name ∷ text pod.namespace ∷ []

-- One test for each container from `i` on, `n` in all.
unfoldable pub container_tests :
    (Bytes → List Argument → Bytes) → Pod → BaseTestCase → List Argument → ℕ → ℕ → List PodTest
unfolding pod_test
container_tests sprintf pod tc args i zero = []
container_tests sprintf pod tc args i (suc n) =
    pod_test sprintf pod tc (args ++ number i ∷ []) ∷ container_tests sprintf pod tc args (i + 1) n

-- The tests of one pod: one for each container if the case has a loop and the pod a container.
unfoldable pub pod_tests :
    (Bytes → List Argument → Bytes) → Bytes → Pod → BaseTestCase → List PodTest
unfolding arguments_of container_tests pod_test
pod_tests sprintf test_type pod tc =
    let args = arguments_of test_type pod in
    if ltb_ℤ (pos 0) tc.loop && ltb 0 pod.container_count
    then container_tests sprintf pod tc args 0 pod.container_count
    else pod_test sprintf pod tc args ∷ []

-- `runTestOnPods`: the tests that are run, in their order, as long as all pass. The statuses that
-- one pod leaves in the case are there for the next one.
unfoldable pub run_test_on_pods :
    (Bytes → List Argument → Bytes) → Bytes → List Pod → BaseTestCase → List PodTest
unfolding prepare pod_tests
run_test_on_pods sprintf test_type [] tc = []
run_test_on_pods sprintf test_type (pod ∷ pods) tc =
    let tc' = prepare pod.name tc in
    pod_tests sprintf test_type pod tc' ++ run_test_on_pods sprintf test_type pods tc'

-- The inner loop of `RenderTestCaseSpec`.
unfoldable pub unskip : Bytes → List BaseTestCase → List BaseTestCase
unskip elem [] = []
unskip elem (e ∷ es) =
    (if str_eq e.name elem then record e { skip_test = false } else e) ∷ unskip elem es

-- `RenderTestCaseSpec`, from the decoded template.
unfoldable pub render_test_case_spec : List Bytes → List BaseTestCase → List BaseTestCase
unfolding unskip
render_test_case_spec [] cases = cases
render_test_case_spec (elem ∷ tests) cases = render_test_case_spec tests (unskip elem cases)

pub record ConfiguredTest : Type 0 where
  pub name : Bytes
  pub tests : List Bytes

-- `ContainsConfiguredTest`, with the zero value for a missing one.
unfoldable pub contains_configured_test : List ConfiguredTest → Bytes → ConfiguredTest
contains_configured_test [] test_type = record { name = []; tests = [] }
contains_configured_test (n ∷ a) test_type =
    let later = contains_configured_test a test_type in if str_eq test_type n.name then n else later
