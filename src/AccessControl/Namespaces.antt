-- ===== src/AccessControl/Namespaces.antt =====
-- What the test of the namespaces compares, and when it passes.
use test_network_function.Prelude.{
  ◌≡◌, ◌≢◌, ◌↔◌, inl, inr, refl, subst, Bytes, codes, bytes_eq, str_eq, str_eq_iff, has_prefix, Map,
  lookup, insert, lookup-insert, List, [], ◌∷◌, ◌++◌, true, false, Bool-cases, some, Option-cases,
  List-cases, arith,
}
use test_network_function.Strings.{split}
use test_network_function.Config.{Pod}
use test_network_function.AccessControl.{
  two_fields, read_crs, get_crs_namespaces, configured, invalid_of, add_invalid, plural_of,
  crs_output, test_crs_namespaces, is_nil, failed_prefixes, failed_namespaces,
  invalid_namespace_prefixes, test_namespace,
}

-- Each key has itself as its value.
abbrev pub IsDiagonal : Map Bytes Bytes → Type 0
IsDiagonal m = (name namespace : Bytes) → lookup name m ≡ some namespace → namespace ≡ name

insert-IsDiagonal :
    (name : Bytes) (m : Map Bytes Bytes) → IsDiagonal m → IsDiagonal (insert name name m)
insert-IsDiagonal name m diagonal j v e =
    ground (arith, lookup-insert name j name m, str_eq_iff name j, diagonal j v)

read_crs-IsDiagonal :
    (lines : List Bytes) (m m' : Map Bytes Bytes)
    → IsDiagonal m
    → read_crs lines m ≡ some m'
    → IsDiagonal m'
unfolding read_crs
read_crs-IsDiagonal [] m m' diagonal h =
    let same : m ≡ m' = ground arith in λ j v e. diagonal j v (rw same e)
read_crs-IsDiagonal (line ∷ lines) m m' diagonal h =
    elim (Option-cases (two_fields (split line (codes ",")))) [
      | inl e ↦ absurd (ground arith)
      | inr ((name, namespace), e) ↦
          read_crs-IsDiagonal lines (insert name name m) m' (insert-IsDiagonal name m diagonal)
            (ground arith)
    ]

-- The namespace that `getCrsNamespaces` returns for a custom resource is the resource's own name,
-- whatever namespace the command prints beside it.
pub get_crs_namespaces-IsDiagonal :
    (out : Bytes) (m : Map Bytes Bytes) → get_crs_namespaces out ≡ some m → IsDiagonal m
unfolding get_crs_namespaces
get_crs_namespaces-IsDiagonal out m h = elim (Bool-cases (str_eq out [])) [
  | inl e ↦ let empty : [] ≡ m = ground arith in λ j v found. absurd (unfold lookup in ground arith)
  | inr e ↦
      read_crs-IsDiagonal (split out (codes "\n")) [] m (λ j v found. unfold lookup in cc)
        (ground arith)
]

-- All values are among the namespaces.
abbrev pub AllConfigured : List Bytes → Map Bytes Bytes → Type 0
AllConfigured nss [] = Unit
AllConfigured nss ((name, namespace) ∷ crs) =
    (configured namespace nss ≡ true) × AllConfigured nss crs

-- Every definition has a plural name and resources that are read, with configured values.
abbrev pub AllReadable : (Bytes → Bytes) → List Bytes → List Bytes → Type 0
AllReadable execute nss [] = Unit
AllReadable execute nss (crd ∷ crds) =
    (plural_of execute crd ≢ [])
    × ((crs : Map Bytes Bytes) × (get_crs_namespaces (crs_output execute (plural_of execute crd))
          ≡ some crs)
        × AllConfigured nss crs)
    × AllReadable execute nss crds

invalid_of_iff :
    (nss : List Bytes) (crs : Map Bytes Bytes) → (invalid_of nss crs ≡ []) ↔ AllConfigured nss crs
unfolding invalid_of
invalid_of_iff nss [] = (λ h. tt, λ h. refl)
invalid_of_iff nss ((name, namespace) ∷ crs) = elim (Bool-cases (configured namespace nss)) [
  | inl e ↦ ground (arith, invalid_of_iff nss crs)
  | inr e ↦ ground (arith, invalid_of_iff nss crs)
]

-- The namespace has none of the prefixes.
abbrev pub NoPrefix : Bytes → List Bytes → Type 0
NoPrefix ns [] = Unit
NoPrefix ns (p ∷ ps) = (has_prefix p ns ≡ false) × NoPrefix ns ps

-- No namespace has one of the prefixes that are not allowed.
abbrev pub NonePrefixed : List Bytes → Type 0
NonePrefixed [] = Unit
NonePrefixed (ns ∷ nss) = NoPrefix ns invalid_namespace_prefixes × NonePrefixed nss

insert-ne_nil :
    (crd : Bytes) (names : List Bytes) (invalid : Map Bytes (List Bytes))
    → insert crd names invalid ≢ []
unfolding insert
insert-ne_nil crd names [] e = cc
insert-ne_nil crd names ((k, v) ∷ invalid) e = elim (Bool-cases (str_eq k crd)) [
  | inl same ↦ absurd (ground arith)
  | inr other ↦ absurd (ground arith)
]

add_invalid-ne_nil :
    (crd : Bytes) (names : List Bytes) (invalid : Map Bytes (List Bytes))
    → invalid ≢ []
    → add_invalid crd names invalid ≢ []
unfolding add_invalid
add_invalid-ne_nil crd [] invalid some_there e = some_there e
add_invalid-ne_nil crd (name ∷ names) invalid some_there e =
    elim (Option-cases (lookup crd invalid)) [
      | inl new ↦
          add_invalid-ne_nil crd names (insert crd (name ∷ []) invalid)
            (insert-ne_nil crd (name ∷ []) invalid) (ground arith)
      | inr (listed, old) ↦
          add_invalid-ne_nil crd names (insert crd (listed ++ name ∷ []) invalid)
            (insert-ne_nil crd (listed ++ name ∷ []) invalid) (ground arith)
    ]

add_invalid_iff :
    (crd : Bytes) (names : List Bytes) (invalid : Map Bytes (List Bytes))
    → (add_invalid crd names invalid ≡ []) ↔ ((names ≡ []) × (invalid ≡ []))
unfolding add_invalid
add_invalid_iff crd [] invalid = (λ h. (refl, h), λ h. h.1)
add_invalid_iff crd (name ∷ names) invalid = (
  λ h. elim (Option-cases (lookup crd invalid)) [
    | inl new ↦ absurd (
        add_invalid-ne_nil crd names (insert crd (name ∷ []) invalid)
          (insert-ne_nil crd (name ∷ []) invalid) (ground arith))
    | inr (listed, old) ↦ absurd (
        add_invalid-ne_nil crd names (insert crd (listed ++ name ∷ []) invalid)
          (insert-ne_nil crd (listed ++ name ∷ []) invalid) (ground arith))
  ],
  λ h. absurd (ground arith),
)

test_crs_namespaces_iff :
    (execute : Bytes → Bytes) (crds nss : List Bytes) (invalid : Map Bytes (List Bytes))
    → (test_crs_namespaces execute crds nss invalid ≡ some [])
      ↔ ((invalid ≡ []) × AllReadable execute nss crds)
unfolding test_crs_namespaces
test_crs_namespaces_iff execute [] nss invalid = (λ h. (ground arith, tt), λ h. ground arith)
test_crs_namespaces_iff execute (crd ∷ crds) nss invalid =
    elim (Bool-cases (str_eq (plural_of execute crd) [])) [
      | inl none_there ↦ (
        λ h. absurd (ground arith),
        λ h. absurd (h.1.0 ((str_eq_iff (plural_of execute crd) []).0 none_there)),
      )
      | inr named ↦
          elim (Option-cases (get_crs_namespaces (crs_output execute (plural_of execute crd)))) [
            | inl unread ↦ (λ h. absurd (ground arith), λ h. absurd (ground (arith, h.1.1.1)))
            | inr (crs, read) ↦
                let added = add_invalid crd (invalid_of nss crs) invalid in
                let later = test_crs_namespaces_iff execute crds nss added in
                let here = add_invalid_iff crd (invalid_of nss crs) invalid in
                let values = invalid_of_iff nss crs in
                (
                  λ h.
                      let (empty, rest) = later.0 (ground arith) in
                      let (all_valid, before) = here.0 empty in
                      (
                        before,
                        (
                          λ e. absurd (ground (arith, str_eq_iff (plural_of execute crd) [])),
                          (crs, read, values.0 all_valid),
                          rest,
                        ),
                      ),
                  λ h.
                      let (before, (plural, (crs', read', all_valid), rest)) = h in
                      let same : crs' ≡ crs = ground arith in
                      let valid : AllConfigured nss crs =
                        subst (λ (t : Map Bytes Bytes). AllConfigured nss t) same all_valid in
                      let empty = here.1 (values.1 valid, before) in
                      ground (arith, later.1 (empty, rest)),
                )
          ]
    ]

failed_prefixes_iff : (ns : Bytes) (ps : List Bytes) → (failed_prefixes ns ps ≡ []) ↔ NoPrefix ns ps
unfolding failed_prefixes
failed_prefixes_iff ns [] = (λ h. tt, λ h. refl)
failed_prefixes_iff ns (p ∷ ps) = elim (Bool-cases (has_prefix p ns)) [
  | inl e ↦ ground (arith, failed_prefixes_iff ns ps)
  | inr e ↦ ground (arith, failed_prefixes_iff ns ps)
]

append-eq_nil : (xs ys : List Bytes) → (xs ++ ys ≡ []) ↔ ((xs ≡ []) × (ys ≡ []))
append-eq_nil [] ys = (λ h. (refl, h), λ h. h.1)
append-eq_nil (x ∷ xs) ys = (λ h. cc, λ h. absurd (ground arith))

failed_namespaces_iff : (nss : List Bytes) → (failed_namespaces nss ≡ []) ↔ NonePrefixed nss
unfolding failed_namespaces
failed_namespaces_iff [] = (λ h. tt, λ h. refl)
failed_namespaces_iff (ns ∷ nss) =
    let both =
      append-eq_nil (failed_prefixes ns invalid_namespace_prefixes) (failed_namespaces nss) in
    let first = failed_prefixes_iff ns invalid_namespace_prefixes in
    let rest = failed_namespaces_iff nss in
    (λ h. let (a, b) = both.0 h in (first.0 a, rest.0 b), λ h. both.1 (first.1 h.0, rest.1 h.1))

is_nil_iff {ℓ} : {A : Type ℓ} (xs : List A) → (is_nil xs ≡ true) ↔ (xs ≡ [])
is_nil_iff [] = (λ h. refl, λ h. refl)
is_nil_iff (x ∷ xs) = (λ h. cc, λ h. absurd (ground arith))

-- The test of the namespaces passes exactly when no namespace under test has a prefix that is not
-- allowed, no pod was found outside them, and for every definition of custom resources the plural
-- name and the resources are read, and the value kept for each resource is a namespace under test.
pub test_namespace_iff :
    (execute : Bytes → Bytes) (nss : List Bytes) (non_valid_pods : List Pod) (crds : List Bytes)
    → (test_namespace execute nss non_valid_pods crds ≡ true)
      ↔ (NonePrefixed nss × (non_valid_pods ≡ []) × AllReadable execute nss crds)
unfolding test_namespace
test_namespace_iff execute nss non_valid_pods crds =
    let resources = test_crs_namespaces_iff execute crds nss [] in
    let prefixes = failed_namespaces_iff nss in
    let no_prefix = is_nil_iff (failed_namespaces nss) in
    let no_pod = is_nil_iff non_valid_pods in
    elim (Option-cases (test_crs_namespaces execute crds nss [])) [
      | inl e ↦ (λ h. absurd (ground arith), λ h. absurd (ground (arith, resources.1 (refl, h.2))))
      | inr (invalid, e) ↦ elim (List-cases invalid) [
        | inl empty ↦ (
          λ h. (
            prefixes.0 (no_prefix.0 (ground arith)),
            no_pod.0 (ground arith),
            (resources.0 (ground arith)).1,
          ),
          λ h. ground (arith, no_prefix.1 (prefixes.1 h.0), no_pod.1 h.1),
        )
        | inr (x, xs, e') ↦
            (λ h. absurd (ground arith), λ h. absurd (ground (arith, resources.1 (refl, h.2))))
      ]
    ]
