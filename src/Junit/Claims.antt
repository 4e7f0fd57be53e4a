-- ===== src/Junit/Claims.antt =====
-- test-network-function/results/results.go: the results of the claim after a run of specs, each of which
-- is recorded when it ends.
use test_network_function.Prelude.{
  ◌≡◌, refl, subst, ap, Bytes, bytes_eq, str_eq, str_eq_iff, Map, lookup, insert, lookup-insert,
  List, [], ◌∷◌, ◌++◌, append_assoc, append-nil, Bool, Bool-cases, inl, inr, Option, none, some,
  Option-cases, arith, if◌then◌else◌,
}
use test_network_function.Junit.{result_key, append_result, record_result, get_reconciled_results}
use test_network_function.Junit.Records.{AllNew, get_reconciled_results_lem}

-- The texts of the containers of a spec, its own text, and the result made of its report.
abbrev pub Report : Type 0 → Type 0
Report R = List Bytes × Bytes × R

module _ {R : Type 0} where
  -- The specs recorded in the order in which they end; `none` where one panics.
  abbrev pub record_all :
      (Bytes → Bool) → List (Report R) → Map Bytes (List R) → Option (Map Bytes (List R))
  record_all known [] results = some results
  record_all known ((levels, leaf, r) ∷ reports) results =
      elim (record_result known levels leaf r results) [
        | none ↦ none
        | some results' ↦ record_all known reports results'
      ]

  -- The results of the reports with a key, in their order.
  abbrev pub reported : Bytes → List (Report R) → List R
  reported key [] = []
  reported key ((levels, leaf, r) ∷ reports) =
      let rest = reported key reports in
      if str_eq (result_key levels leaf) key then r ∷ rest else rest

  -- A key without a result has no entry.
  abbrev pub entry : List R → Option (List R)
  entry [] = none
  entry (r ∷ rs) = some (r ∷ rs)

  abbrev with_more : Option (List R) → List R → Option (List R)
  with_more none rs = entry rs
  with_more (some old) rs = some (old ++ rs)

  lookup-append_result :
      (key j : Bytes) (r : R) (m : Map Bytes (List R))
      → lookup j (append_result key r m)
        ≡ (if str_eq key j then with_more (lookup j m) (r ∷ []) else lookup j m)
  unfolding append_result
  lookup-append_result key j r m = elim (Option-cases (lookup key m)) [
    | inl new ↦
        rw (append_result, new) (ground (arith, lookup-insert key j (r ∷ []) m, str_eq_iff key j))
    | inr (old, there) ↦
        rw (append_result, there)
          (ground (arith, lookup-insert key j (old ++ r ∷ []) m, str_eq_iff key j))
  ]

  with_more-more :
      (o : Option (List R)) (r : R) (rs : List R)
      → with_more (with_more o (r ∷ [])) rs ≡ with_more o (r ∷ rs)
  with_more-more none r rs = refl
  with_more-more (some old) r rs = ap (λ (t : List R). some t) (append_assoc old (r ∷ []) rs)

  with_more-nothing : (o : Option (List R)) → with_more o [] ≡ o
  with_more-nothing none = refl
  with_more-nothing (some old) = ap (λ (t : List R). some t) (append-nil old)

  lookup-record_all :
      (known : Bytes → Bool) (reports : List (Report R)) (m results : Map Bytes (List R))
      (j : Bytes)
      → record_all known reports m ≡ some results
      → lookup j results ≡ with_more (lookup j m) (reported j reports)
  unfolding record_result
  lookup-record_all known [] m results j h = ground (arith, with_more-nothing (lookup j m))
  lookup-record_all known ((levels, leaf, r) ∷ reports) m results j h =
      elim (Bool-cases (known leaf)) [
        | inr unknown ↦ absurd (ground arith)
        | inl on ↦
            let m' = append_result (result_key levels leaf) r m in
            ground (
              arith,
              lookup-record_all known reports m' results j,
              lookup-append_result (result_key levels leaf) j r m,
              with_more-more (lookup j m) r (reported j reports),
            )
      ]

  lookup-end :
      (j k : Bytes) (vs : List R) (m : Map Bytes (List R))
      → lookup j (m ++ (k, vs) ∷ [])
        ≡ elim (lookup j m) [ some old ↦ some old | none ↦ if str_eq k j then some vs else none ]
  unfolding lookup
  lookup-end j k vs [] = refl
  lookup-end j k vs ((i, ws) ∷ m) = elim (Bool-cases (str_eq i j)) [
    | inl e ↦ rw e refl
    | inr e ↦ rw e (lookup-end j k vs m)
  ]

  -- Earlier keys that are not in the way of the one are not in that of the other.
  AllNew-fewer :
      (before before' rest : Map Bytes (List R))
      → ((j : Bytes) → lookup j before ≡ none → lookup j before' ≡ none)
      → AllNew before rest
      → AllNew before' rest
  AllNew-fewer before before' [] fewer new = tt
  AllNew-fewer before before' ((k, vs) ∷ rest) fewer (here, later) = (
    fewer k here,
    AllNew-fewer (before ++ (k, vs) ∷ []) (before' ++ (k, vs) ∷ []) rest
        (λ j. ground (arith, fewer j, lookup-end j k vs before, lookup-end j k vs before')) later,
  )

  insert-AllNew :
      (key : Bytes) (vs : List R) (before m : Map Bytes (List R))
      → lookup key before ≡ none
      → AllNew before m
      → AllNew before (insert key vs m)
  unfolding insert
  insert-AllNew key vs before [] free new = (free, tt)
  insert-AllNew key vs before ((k, ws) ∷ m) free (here, later) = elim (Bool-cases (str_eq k key)) [
    | inl e ↦ rw e (
      free,
      AllNew-fewer (before ++ (k, ws) ∷ []) (before ++ (key, vs) ∷ []) m
          (λ j.
            ground (arith, lookup-end j k ws before, lookup-end j key vs before, str_eq_iff k key))
          later,
    )
    | inr e ↦ rw e (
      here,
      insert-AllNew key vs (before ++ (k, ws) ∷ []) m (ground (arith, lookup-end key k ws before))
          later,
    )
  ]

  append_result-AllNew :
      (key : Bytes) (r : R) (m : Map Bytes (List R))
      → AllNew [] m
      → AllNew [] (append_result key r m)
  unfolding append_result lookup
  append_result-AllNew key r m new = elim (Option-cases (lookup key m)) [
    | inl missing ↦ rw (append_result, missing) (insert-AllNew key (r ∷ []) [] m refl new)
    | inr (old, there) ↦ rw (append_result, there) (insert-AllNew key (old ++ r ∷ []) [] m refl new)
  ]

  record_all-AllNew :
      (known : Bytes → Bool) (reports : List (Report R)) (m results : Map Bytes (List R))
      → AllNew [] m
      → record_all known reports m ≡ some results
      → AllNew [] results
  unfolding record_result
  record_all-AllNew known [] m results new h =
      let same : m ≡ results = ground arith in
      subst (λ (t : Map Bytes (List R)). AllNew [] t) same new
  record_all-AllNew known ((levels, leaf, r) ∷ reports) m results new h =
      elim (Bool-cases (known leaf)) [
        | inr unknown ↦ absurd (ground arith)
        | inl on ↦
            let key = result_key levels leaf in
            record_all-AllNew known reports (append_result key r m) results
              (append_result-AllNew key r m new) (ground arith)
      ]

  -- When no spec of a run panics as it is recorded, the claim has under each key the results of the
  -- specs with that key, in the order in which they ended, and no entry under a key that none has.
  pub get_reconciled_results-reported :
      (known : Bytes → Bool) (reports : List (Report R)) (results : Map Bytes (List R))
      (key : Bytes)
      → record_all known reports [] ≡ some results
      → lookup key (get_reconciled_results results) ≡ entry (reported key reports)
  unfolding lookup
  get_reconciled_results-reported known reports results key h =
      rw (get_reconciled_results_lem results (record_all-AllNew known reports [] results tt h))
        (lookup-record_all known reports [] results key h)
