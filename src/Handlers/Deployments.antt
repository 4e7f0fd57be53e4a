-- ===== src/Handlers/Deployments.antt =====
-- pkg/tnf/handlers/deployments/deployments.go: the deployments of a namespace.
use test_network_function.Prelude.{
  ℕ, ◌≡◌, ◌≢◌, ◌↔◌, ◌⊎◌, inl, inr, refl, Bytes, codes, str_eq, str_eq_iff, bytes_eq, Map, lookup,
  insert, lookup-insert, List, [], ◌∷◌, ◌++◌, drop, Bool, true, false, Bool-cases, Option, none,
  some, Option-cases, Result, ok, Panic, arith, if◌then◌else◌,
}
use test_network_function.Prelude.Int.{ℤ, pos}
use test_network_function.Strings.{split, fields, trim, atoi}
use test_network_function.Reel.{newline, Step, Handler}
use test_network_function.Tnf.{error, success}
use test_network_function.Handlers.{single_shot}

pub record Deployment : Type 0 where
  pub replicas : ℤ
  pub ready : ℤ
  pub up_to_date : ℤ
  pub available : ℤ
  pub unavailable : ℤ

pub record Deployments : Type 0 where
  pub deployments : Map Bytes Deployment
  pub namespace : Bytes
  pub result : ℤ
  pub timeout : ℕ
  pub args : List Bytes

unfoldable pub new_deployments : ℕ → Bytes → Deployments
new_deployments timeout namespace = record {
  deployments = [];
  namespace = namespace;
  result = error;
  timeout = timeout;
  args =
      codes "oc"
      ∷ codes "-n"
      ∷ namespace
      ∷ codes "get"
      ∷ codes "deployments"
      ∷ codes "-o"
      ∷ codes
          "custom-columns=NAME:.metadata.name,REPLICAS:.spec.replicas,READY:.status.readyReplicas,UPDATED:.status.updatedReplicas,AVAILABLE:.status.availableReplicas,UNAVAILABLE:.status.unavailableReplicas"
      ∷ [];
}

unfoldable pub deployments_first : Deployments → Step
deployments_first dp = record { execute = []; expect = codes "(?s).+" ∷ []; timeout = dp.timeout }

-- The function `atoi` of the file.
unfoldable pub replicas_of : Bytes → ℤ
replicas_of s = if str_eq s (codes "<none>") then pos 0 else (atoi s).0

unfoldable pub deployment_key : Bytes → Bytes → Bytes
deployment_key namespace name = namespace ++ (codes ":" ++ name)

-- The name and the deployment of a line of six words.
unfoldable pub row_of : List Bytes → Option (Bytes × Deployment)
unfolding replicas_of
row_of (name ∷ a ∷ b ∷ c ∷ d ∷ e ∷ []) = some (
  name,
  record {
    replicas = replicas_of a;
    ready = replicas_of b;
    up_to_date = replicas_of c;
    available = replicas_of d;
    unavailable = replicas_of e;
  },
)
row_of words = none

-- The loop over the lines; false when it returns at a line that has not six words.
unfoldable pub read_rows : Bytes → List Bytes → Map Bytes Deployment → Map Bytes Deployment × Bool
unfolding row_of deployment_key
read_rows namespace [] m = (m, true)
read_rows namespace (line ∷ lines) m = elim (str_eq line []) [
  | true ↦ read_rows namespace lines m
  | false ↦ elim (row_of (fields line)) [
    | none ↦ (m, false)
    | some (name, d) ↦ read_rows namespace lines (insert (deployment_key namespace name) d m)
  ]
]

unfoldable pub deployments_match : Bytes → Bytes → Bytes → Deployments → Result Panic Deployments
unfolding read_rows
deployments_match pattern before m dp =
    let lines = drop 1 (split (trim newline m) (newline ∷ [])) in
    let read = read_rows dp.namespace lines dp.deployments in
    if read.1
    then ok (record dp { deployments = read.0; result = success })
    else ok (record dp { deployments = read.0 })

unfoldable pub deployments_handler : Handler Deployments
unfolding deployments_match deployments_first single_shot
deployments_handler = single_shot deployments_first deployments_match

-- Every line is empty or has six words.
abbrev pub AllRows : List Bytes → Type 0
AllRows [] = Unit
AllRows (line ∷ lines) = ((line ≡ []) ⊎ (row_of (fields line) ≢ none)) × AllRows lines

-- The deployment of the last line that has the name, or else the given one.
abbrev pub last_row : Bytes → List Bytes → Option Deployment → Option Deployment
last_row name [] found = found
last_row name (line ∷ lines) found = last_row name lines (
    if str_eq line [] then found else elim (row_of (fields line)) [
      | none ↦ found
      | some (n, d) ↦ if str_eq n name then some d else found
    ])

same_prefix : (p s t : Bytes) → str_eq (p ++ s) (p ++ t) ≡ str_eq s t
unfolding str_eq
same_prefix [] s t = refl
same_prefix (c ∷ p) s t = ground (arith, same_prefix p s t)

key-same :
    (ns n name : Bytes) → str_eq (deployment_key ns n) (deployment_key ns name) ≡ str_eq n name
unfolding deployment_key str_eq
key-same ns n name = ground (arith, same_prefix ns (codes ":" ++ n) (codes ":" ++ name))

rows_complete :
    (ns : Bytes) (lines : List Bytes) (m : Map Bytes Deployment)
    → AllRows lines
    → (read_rows ns lines m).1 ≡ true
unfolding read_rows
rows_complete ns [] m h = refl
rows_complete ns (line ∷ lines) m (h, hs) = elim (Bool-cases (str_eq line [])) [
  | inl e ↦ ground (arith, rows_complete ns lines m hs)
  | inr e ↦ elim (Option-cases (row_of (fields line))) [
    | inl none_there ↦ ground (arith, h, str_eq_iff line [])
    | inr ((n, d), there) ↦
        ground (arith, rows_complete ns lines (insert (deployment_key ns n) d m) hs)
  ]
]

rows_sound :
    (ns : Bytes) (lines : List Bytes) (m : Map Bytes Deployment)
    → (read_rows ns lines m).1 ≡ true
    → AllRows lines
unfolding read_rows
rows_sound ns [] m h = tt
rows_sound ns (line ∷ lines) m h = elim (Bool-cases (str_eq line [])) [
  | inl e ↦ (inl ((str_eq_iff line []).0 e), rows_sound ns lines m (ground arith))
  | inr e ↦ elim (Option-cases (row_of (fields line))) [
    | inl none_there ↦ absurd (ground arith)
    | inr ((n, d), there) ↦
        (inr (ground arith), rows_sound ns lines (insert (deployment_key ns n) d m) (ground arith))
  ]
]

read_rows-lookup :
    (ns name : Bytes) (lines : List Bytes) (m : Map Bytes Deployment)
    → (read_rows ns lines m).1 ≡ true
    → lookup (deployment_key ns name) (read_rows ns lines m).0
      ≡ last_row name lines (lookup (deployment_key ns name) m)
unfolding read_rows
read_rows-lookup ns name [] m h = refl
read_rows-lookup ns name (line ∷ lines) m h = elim (Bool-cases (str_eq line [])) [
  | inl e ↦ ground (arith, read_rows-lookup ns name lines m)
  | inr e ↦ elim (Option-cases (row_of (fields line))) [
    | inl none_there ↦ absurd (ground arith)
    | inr ((n, d), there) ↦ ground (
      arith,
      read_rows-lookup ns name lines (insert (deployment_key ns n) d m),
      lookup-insert (deployment_key ns n) (deployment_key ns name) d m,
      key-same ns n name,
    )
  ]
]

-- A new handler's result is SUCCESS exactly when every line behind the header is empty or has six
-- words.
pub deployments_match_iff :
    (dp : Deployments) (pattern before m : Bytes)
    → dp.result ≡ error
    → (dp' : Deployments) × (deployments_match pattern before m dp ≡ ok dp')
      × ((dp'.result ≡ success) ↔ AllRows (drop 1 (split (trim newline m) (newline ∷ []))))
unfolding deployments_match
deployments_match_iff dp pattern before m new =
    elim (Bool-cases (read_rows dp.namespace lines dp.deployments).1) [
      | inl e ↦ (
        record dp {
          deployments = (read_rows dp.namespace lines dp.deployments).0;
          result = success;
        },
        rw e,
        (λ h. rows_sound dp.namespace lines dp.deployments e, λ h. refl),
      )
      | inr e ↦ (
        record dp { deployments = (read_rows dp.namespace lines dp.deployments).0 },
        rw e,
        (
          λ h. absurd (ground arith),
          λ h. absurd (ground (arith, rows_complete dp.namespace lines dp.deployments h)),
        ),
      )
    ]
  where
    lines : List Bytes
    lines = drop 1 (split (trim newline m) (newline ∷ []))

-- When all the lines are read, a deployment is found under its namespace and name with the numbers
-- of the last line that has the name, and the entries of other names stay as they were.
pub deployments_match-lookup :
    (dp : Deployments) (pattern before m name : Bytes)
    → AllRows (drop 1 (split (trim newline m) (newline ∷ [])))
    → (dp' : Deployments) × (deployments_match pattern before m dp ≡ ok dp')
      × (lookup (deployment_key dp.namespace name) dp'.deployments
          ≡ last_row name
              (drop 1 (split (trim newline m) (newline ∷ [])))
              (lookup (deployment_key dp.namespace name) dp.deployments))
unfolding deployments_match
deployments_match-lookup dp pattern before m name all =
    let lines = drop 1 (split (trim newline m) (newline ∷ [])) in
    let e = rows_complete dp.namespace lines dp.deployments all in
    (
      record dp { deployments = (read_rows dp.namespace lines dp.deployments).0; result = success },
      rw e,
      read_rows-lookup dp.namespace name lines dp.deployments e,
    )
