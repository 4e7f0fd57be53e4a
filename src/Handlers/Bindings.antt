-- ===== src/Handlers/Bindings.antt =====
-- pkg/tnf/handlers/clusterrolebinding/clusterrolebinding.go and
-- pkg/tnf/handlers/rolebinding/rolebinding.go.
use test_network_function.Prelude.{
  ℕ, ◌≡◌, ◌↔◌, inl, inr, refl, Bytes, codes, str_eq, str_eq_iff, List, [], ◌∷◌, ◌++◌, Result,
  Result-cases, ok, err, ◌>>=◌, Panic, index_out_of_range, arith, if◌then◌else◌, drop,
}
use test_network_function.Prelude.Int.{ℤ}
use test_network_function.Strings.{split, fields}
use test_network_function.Reel.{newline, Step, Handler}
use test_network_function.Tnf.{success, failure}
use test_network_function.Handlers.{single_shot}

-- The regular expression of both handlers.
abbrev pub any_output : Bytes
any_output = codes "(?s).+"

pub record ClusterRoleBinding : Type 0 where
  pub cluster_role_bindings : List Bytes
  pub result : ℤ
  pub timeout : ℕ
  pub args : List Bytes

unfoldable pub cluster_role_binding_first : ClusterRoleBinding → Step
cluster_role_binding_first crb = record {
  execute = [];
  expect = any_output ∷ [];
  timeout = crb.timeout;
}

-- The loop over the lines behind the header: the first word of each line that has one.
unfoldable pub binding_names : List Bytes → List Bytes
binding_names [] = []
binding_names (line ∷ lines) = elim (fields line) [
  | [] ↦ binding_names lines
  | name ∷ more ↦ name ∷ binding_names lines
]

abbrev pub verdict_of : List Bytes → ℤ
verdict_of [] = success
verdict_of (b ∷ bs) = failure

unfoldable pub cluster_role_binding_match :
    Bytes → Bytes → Bytes → ClusterRoleBinding → Result Panic ClusterRoleBinding
unfolding binding_names
cluster_role_binding_match pattern before m crb =
    let found = crb.cluster_role_bindings ++ binding_names (drop 1 (split m (newline ∷ []))) in
    ok (record crb { cluster_role_bindings = found; result = verdict_of found })

unfoldable pub cluster_role_binding_handler : Handler ClusterRoleBinding
unfolding cluster_role_binding_match cluster_role_binding_first single_shot
cluster_role_binding_handler = single_shot cluster_role_binding_first cluster_role_binding_match

pub record RoleBinding : Type 0 where
  pub role_bindings : List Bytes
  pub pod_namespace : Bytes
  pub result : ℤ
  pub timeout : ℕ
  pub args : List Bytes

unfoldable pub role_binding_first : RoleBinding → Step
role_binding_first rb = record { execute = []; expect = any_output ∷ []; timeout = rb.timeout }

-- The body of the loop behind the test for empty lines; a line of another namespace with no second
-- word panics.
unfoldable pub foreign_binding : Bytes → List Bytes → Result Panic (List Bytes)
foreign_binding pod_namespace [] = ok []
foreign_binding pod_namespace (ns ∷ []) =
    if str_eq ns pod_namespace then ok [] else err index_out_of_range
foreign_binding pod_namespace (ns ∷ name ∷ more) =
    if str_eq ns pod_namespace then ok [] else ok ((ns ++ (codes ":" ++ name)) ∷ [])

unfoldable pub foreign_bindings : Bytes → List Bytes → Result Panic (List Bytes)
unfolding foreign_binding
foreign_bindings pod_namespace [] = ok []
foreign_bindings pod_namespace (line ∷ lines) = do
  here ← foreign_binding pod_namespace (fields line)
  rest ← foreign_bindings pod_namespace lines
  ok (here ++ rest)

unfoldable pub role_binding_match : Bytes → Bytes → Bytes → RoleBinding → Result Panic RoleBinding
unfolding foreign_bindings
role_binding_match pattern before m rb = do
  found ← foreign_bindings rb.pod_namespace (drop 1 (split m (newline ∷ [])))
  let bindings = rb.role_bindings ++ found
  ok (record rb { role_bindings = bindings; result = verdict_of bindings })

unfoldable pub role_binding_handler : Handler RoleBinding
unfolding role_binding_match role_binding_first single_shot
role_binding_handler = single_shot role_binding_first role_binding_match

-- A line is blank, or its first word is the namespace.
abbrev pub IsInNamespace : Bytes → List Bytes → Type 0
IsInNamespace ns [] = Unit
IsInNamespace ns (n ∷ more) = n ≡ ns

abbrev pub AllInNamespace : Bytes → List Bytes → Type 0
AllInNamespace ns [] = Unit
AllInNamespace ns (line ∷ lines) = IsInNamespace ns (fields line) × AllInNamespace ns lines

foreign_binding_iff :
    (ns : Bytes) (words : List Bytes) → (foreign_binding ns words ≡ ok []) ↔ IsInNamespace ns words
unfolding foreign_binding
foreign_binding_iff ns [] = (λ h. tt, λ h. refl)
foreign_binding_iff ns (n ∷ []) = ground (arith, str_eq_iff n ns)
foreign_binding_iff ns (n ∷ name ∷ more) = ground (arith, str_eq_iff n ns)

none_foreign :
    (ns : Bytes) (lines : List Bytes) → foreign_bindings ns lines ≡ ok [] → AllInNamespace ns lines
unfolding foreign_bindings
none_foreign ns [] h = tt
none_foreign ns (line ∷ lines) h = elim (Result-cases (foreign_binding ns (fields line))) [
  | inl (p, e) ↦ absurd (ground arith)
  | inr (b ∷ bs, e) ↦ elim (Result-cases (foreign_bindings ns lines)) [
    | inl (p, e') ↦ absurd (ground arith)
    | inr (rest, e') ↦ absurd (ground arith)
  ]
  | inr ([], e) ↦ elim (Result-cases (foreign_bindings ns lines)) [
    | inl (p, e') ↦ absurd (ground arith)
    | inr (rest, e') ↦
        ((foreign_binding_iff ns (fields line)).0 e, none_foreign ns lines (ground arith))
  ]
]

all_in_namespace :
    (ns : Bytes) (lines : List Bytes) → AllInNamespace ns lines → foreign_bindings ns lines ≡ ok []
unfolding foreign_bindings
all_in_namespace ns [] h = refl
all_in_namespace ns (line ∷ lines) (h, hs) =
    rw ((foreign_binding_iff ns (fields line)).1 h, all_in_namespace ns lines hs)

-- For a handler that has saved no binding yet, the match gives SUCCESS, without a panic, exactly
-- when every line behind the header is blank or begins with the pod's own namespace.
pub role_binding_match_iff :
    (rb : RoleBinding) (pattern before m : Bytes)
    → rb.role_bindings ≡ []
    → (role_binding_match pattern before m rb
        ≡ ok (record rb { role_bindings = []; result = success }))
      ↔ AllInNamespace rb.pod_namespace (drop 1 (split m (newline ∷ [])))
unfolding role_binding_match
role_binding_match_iff rb pattern before m new =
    (there, λ h. ground (arith, all_in_namespace rb.pod_namespace lines h))
  where
    lines : List Bytes
    lines = drop 1 (split m (newline ∷ []))

    there :
        role_binding_match pattern before m rb
          ≡ ok (record rb { role_bindings = []; result = success })
        → AllInNamespace rb.pod_namespace lines
    there h = elim (Result-cases (foreign_bindings rb.pod_namespace lines)) [
      | inl (p, e) ↦ absurd (ground arith)
      | inr ([], e) ↦ none_foreign rb.pod_namespace lines e
      | inr (b ∷ bs, e) ↦ absurd (ground arith)
    ]
