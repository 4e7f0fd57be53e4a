-- ===== src/Autodiscover/Faults.antt =====
-- When discovery panics, and what it never finds.
use test_network_function.Prelude.{
  ◌≡◌, ◌⊎◌, ◌↔◌, inl, inr, refl, ◌∙◌, Bytes, codes, bytes_eq, Map, lookup, List, [], ◌∷◌, Bool,
  true, false, Bool-cases, Option, none, some, Option-cases, ok, err, Result, Result-cases, Panic,
  failed_expectation, map, nil_dereference, index_out_of_range, arith,
}
use test_network_function.Handlers.{at}
use test_network_function.Config.{Label, Operator, Node, TestTarget}
use test_network_function.Autodiscover.{CsvResource, Kube, build_annotation_name, run_all}
use test_network_function.Autodiscover.Targets.{
  in_scope, subscription_of, build_operator_from_csv_resource, add_operators, get_csvs_by_label,
  items, queries, read_resources, target_deployments_command, find_test_target,
}

-- The annotation of the subscription decodes to an empty list.
abbrev pub IsEmptyName : Kube → Option Bytes → Type 0
IsEmptyName k annotation =
    (val : Bytes) × (annotation ≡ some val) × (k.unmarshal_strings val ≡ ([], true))

-- An operator inside the namespaces has such an annotation.
abbrev pub AnyEmptyName : Kube → List Bytes → List CsvResource → Type 0
AnyEmptyName k ns [] = ⊥
AnyEmptyName k ns (csv ∷ csvs) =
    ((in_scope ns csv.namespace ≡ true)
      × IsEmptyName k (lookup (build_annotation_name (codes "subscription_name")) csv.annotations))
    ⊎ AnyEmptyName k ns csvs

first_name :
    (k : Kube) (val : Bytes) (names : List Bytes) (decoded : Bool) (p : Panic)
    → k.unmarshal_strings val ≡ (names, decoded)
    → subscription_of k (some val) ≡ err p
    → (p ≡ index_out_of_range) × (k.unmarshal_strings val ≡ ([], true))
unfolding subscription_of at
first_name k val names false p e h = absurd (ground arith)
first_name k val [] true p e h = (ground arith, e)
first_name k val (x ∷ names) true p e h = absurd (ground arith)

subscription_of-err :
    (k : Kube) (annotation : Option Bytes) (p : Panic)
    → subscription_of k annotation ≡ err p
    → (p ≡ index_out_of_range) × IsEmptyName k annotation
unfolding subscription_of
subscription_of-err k none p h = absurd (ground arith)
subscription_of-err k (some val) p h =
    let read = k.unmarshal_strings val in
    let (same, empty) = first_name k val read.0 read.1 p refl h in (same, (val, refl, empty))

subscription_of_panics :
    (k : Kube) (annotation : Option Bytes)
    → IsEmptyName k annotation
    → subscription_of k annotation ≡ err index_out_of_range
unfolding subscription_of at
subscription_of_panics k annotation (val, e, empty) = rw e (rw empty refl)

module _ (k : Kube) (ns : List Bytes) (csv : CsvResource) (csvs : List CsvResource) where
  add_operators_outside :
      in_scope ns csv.namespace ≡ false → add_operators k ns (csv ∷ csvs) ≡ add_operators k ns csvs
  unfolding add_operators
  add_operators_outside out = ground arith

  add_operators-err_first :
      (p : Panic)
      → in_scope ns csv.namespace ≡ true
      → build_operator_from_csv_resource k csv ≡ err p
      → add_operators k ns (csv ∷ csvs) ≡ err p
  unfolding add_operators
  add_operators-err_first p inside bad = ground arith

  add_operators-err_later :
      (p : Panic) (op : Operator)
      → in_scope ns csv.namespace ≡ true
      → build_operator_from_csv_resource k csv ≡ ok op
      → add_operators k ns csvs ≡ err p
      → add_operators k ns (csv ∷ csvs) ≡ err p
  unfolding add_operators
  add_operators-err_later p op inside good bad = ground arith

  add_operators-ok :
      (op : Operator) (ops : List Operator)
      → in_scope ns csv.namespace ≡ true
      → build_operator_from_csv_resource k csv ≡ ok op
      → add_operators k ns csvs ≡ ok ops
      → add_operators k ns (csv ∷ csvs) ≡ ok (op ∷ ops)
  unfolding add_operators
  add_operators-ok op ops inside good rest = ground arith

build_operator-err :
    (k : Kube) (csv : CsvResource) (p : Panic)
    → build_operator_from_csv_resource k csv ≡ err p
    → (p ≡ index_out_of_range)
      × IsEmptyName k (lookup (build_annotation_name (codes "subscription_name")) csv.annotations)
unfolding build_operator_from_csv_resource
build_operator-err k csv p h =
    let annotation = lookup (build_annotation_name (codes "subscription_name")) csv.annotations in
    elim (Result-cases (subscription_of k annotation)) [
      | inl (q, e) ↦ subscription_of-err k annotation p (ground arith)
      | inr (x, e) ↦ absurd (ground arith)
    ]

build_operator_panics :
    (k : Kube) (csv : CsvResource)
    → IsEmptyName k (lookup (build_annotation_name (codes "subscription_name")) csv.annotations)
    → build_operator_from_csv_resource k csv ≡ err index_out_of_range
unfolding build_operator_from_csv_resource
build_operator_panics k csv empty =
    let annotation = lookup (build_annotation_name (codes "subscription_name")) csv.annotations in
    ground (arith, subscription_of_panics k annotation empty)

add_operators-err :
    (k : Kube) (ns : List Bytes) (csvs : List CsvResource) (p : Panic)
    → add_operators k ns csvs ≡ err p
    → (p ≡ index_out_of_range) × AnyEmptyName k ns csvs
unfolding add_operators
add_operators-err k ns [] p h = absurd (ground arith)
add_operators-err k ns (csv ∷ csvs) p h = elim (Bool-cases (in_scope ns csv.namespace)) [
  | inr out ↦ let (same, later) = add_operators-err k ns csvs p (ground arith) in (same, inr later)
  | inl inside ↦ elim (Result-cases (build_operator_from_csv_resource k csv)) [
    | inl (q, e) ↦
        let (same, empty) = build_operator-err k csv p (ground arith) in (same, inl (inside, empty))
    | inr (op, e) ↦ elim (Result-cases (add_operators k ns csvs)) [
      | inl (q, e') ↦
          let (same, later) = add_operators-err k ns csvs p (ground arith) in (same, inr later)
      | inr (ops, e') ↦ absurd (ground arith)
    ]
  ]
]

add_operators_panics :
    (k : Kube) (ns : List Bytes) (csvs : List CsvResource)
    → AnyEmptyName k ns csvs
    → add_operators k ns csvs ≡ err index_out_of_range
add_operators_panics k ns [] h = absurd h
add_operators_panics k ns (csv ∷ csvs) (inl (inside, empty)) =
    add_operators-err_first k ns csv csvs index_out_of_range inside
      (build_operator_panics k csv empty)
add_operators_panics k ns (csv ∷ csvs) (inr later) =
    let rest = add_operators_panics k ns csvs later in
    elim (Bool-cases (in_scope ns csv.namespace)) [
      | inr out ↦ add_operators_outside k ns csv csvs out ∙ rest
      | inl inside ↦ elim (Result-cases (build_operator_from_csv_resource k csv)) [
        | inl (q, e) ↦
            let (same, empty) = build_operator-err k csv q e in
            add_operators-err_first k ns csv csvs index_out_of_range inside
              (build_operator_panics k csv empty)
        | inr (op, e) ↦ add_operators-err_later k ns csv csvs index_out_of_range op inside e rest
      ]
    ]

-- One of the commands fails.
abbrev pub AnyFails : Kube → List Bytes → Type 0
AnyFails k [] = ⊥
AnyFails k (command ∷ commands) = (k.succeeds command ≡ false) ⊎ AnyFails k commands

run_all-err :
    (k : Kube) (commands : List Bytes) (p : Panic)
    → run_all k commands ≡ err p
    → AnyFails k commands
unfolding run_all
run_all-err k [] p h = absurd (ground arith)
run_all-err k (command ∷ commands) p h = elim (Bool-cases (k.succeeds command)) [
  | inl good ↦ inr (run_all-err k commands p (ground arith))
  | inr bad ↦ inl bad
]

run_all_panics :
    (k : Kube) (commands : List Bytes)
    → AnyFails k commands
    → run_all k commands ≡ err failed_expectation
unfolding run_all
run_all_panics k [] bad = absurd bad
run_all_panics k (command ∷ commands) (inl bad) = rw bad refl
run_all_panics k (command ∷ commands) (inr later) = elim (Bool-cases (k.succeeds command)) [
  | inl good ↦ rw good (run_all_panics k commands later)
  | inr bad ↦ rw bad refl
]

-- The query of the operators fails, or an operator inside the namespaces has an empty annotation.
abbrev pub IsUnreadable : Kube → List Bytes → Type 0
IsUnreadable k ns =
    (get_csvs_by_label k (codes "operator") [] ≡ none)
    ⊎ ((csvs : List CsvResource) × (get_csvs_by_label k (codes "operator") [] ≡ some csvs)
        × AnyEmptyName k ns csvs)

read_resources-err :
    (k : Kube) (labels : List Label) (target : TestTarget) (ns : List Bytes) (p : Panic)
    → read_resources k labels target ns ≡ err p
    → IsUnreadable k ns
unfolding read_resources items
read_resources-err k labels target ns p h =
    elim (Option-cases (get_csvs_by_label k (codes "operator") [])) [
      | inl e ↦ inl e
      | inr (csvs, e) ↦ elim (Result-cases (add_operators k ns csvs)) [
        | inl (q, e') ↦ inr (csvs, e, (add_operators-err k ns csvs q e').1)
        | inr (ops, e') ↦ absurd (ground arith)
      ]
    ]

read_resources_panics :
    (k : Kube) (labels : List Label) (target : TestTarget) (ns : List Bytes)
    → IsUnreadable k ns
    → (p : Panic) × (read_resources k labels target ns ≡ err p)
unfolding read_resources items
read_resources_panics k labels target ns (inl e) = (nil_dereference, ground arith)
read_resources_panics k labels target ns (inr (csvs, e, any)) =
    (index_out_of_range, ground (arith, add_operators_panics k ns csvs any))

pub find_test_target_panics :
    (k : Kube) (nodes : Result Panic (Map Bytes Node)) (labels : List Label) (target : TestTarget)
    (ns : List Bytes)
    → ((p : Panic) × (find_test_target k nodes labels target ns ≡ err p)) ↔ (
        AnyFails k (queries labels)
        ⊎ (IsUnreadable k ns
            ⊎ (AnyFails k (map (target_deployments_command k) labels)
                ⊎ ((p : Panic) × (nodes ≡ err p)))))
unfolding find_test_target
find_test_target_panics k nodes labels target ns =
    let before = queries labels in
    let behind = map (target_deployments_command k) labels in
    elim (Result-cases (run_all k before)) [
      | inl (p, e) ↦ (λ h. inl (run_all-err k before p e), λ h. (p, ground arith))
      | inr (u, e) ↦ elim (Result-cases (read_resources k labels target ns)) [
        | inl (p, e') ↦
            (λ h. inr (inl (read_resources-err k labels target ns p e')), λ h. (p, ground arith))
        | inr (found, e') ↦ elim (Result-cases (run_all k behind)) [
          | inl (p, bad) ↦
              (λ h. inr (inr (inl (run_all-err k behind p bad))), λ h. (p, ground arith))
          | inr (v, ran) ↦ elim (Result-cases nodes) [
            | inl (p, bad) ↦ (λ h. inr (inr (inr (p, bad))), λ h. (p, ground arith))
            | inr (listed, known) ↦ (
              λ h. absurd (let (p, bad) = h in ground arith),
              λ h. absurd (elim h [
                | inl any ↦ ground (arith, run_all_panics k before any)
                | inr (inl unreadable) ↦
                    let (p, bad) = read_resources_panics k labels target ns unreadable in
                    ground arith
                | inr (inr (inl any)) ↦ ground (arith, run_all_panics k behind any)
                | inr (inr (inr (p, bad))) ↦ ground arith
              ]),
            )
          ]
        ]
      ]
    ]
