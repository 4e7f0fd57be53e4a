-- ===== src/Junit/Records.antt =====
-- The recorded results in the claim.
use test_network_function.Prelude.{
  ◌≡◌, refl, sym, ap, Bytes, bytes_eq, str_eq_iff, Map, lookup, insert, List, [], ◌∷◌, ◌++◌,
  append_assoc, append-nil, none, some, arith,
}
use test_network_function.Junit.{append_result, append_all, reconcile, get_reconciled_results}

-- Each key is new behind the entries before it.
abbrev pub AllNew : {R : Type 0} → Map Bytes (List R) → Map Bytes (List R) → Type 0
AllNew before [] = Unit
AllNew before ((key, vals) ∷ rest) =
    (lookup key before ≡ none) × AllNew (before ++ (key, vals) ∷ []) rest

module _ {R : Type 0} where
  insert-end :
      (key : Bytes) (vals : List R) (m : Map Bytes (List R))
      → lookup key m ≡ none
      → insert key vals m ≡ m ++ (key, vals) ∷ []
  unfolding insert lookup
  insert-end key vals [] new = refl
  insert-end key vals ((k, v) ∷ m) new = ground (arith, insert-end key vals m)

  insert-last :
      (key : Bytes) (vals old : List R) (m : Map Bytes (List R))
      → lookup key m ≡ none
      → insert key vals (m ++ (key, old) ∷ []) ≡ m ++ (key, vals) ∷ []
  unfolding insert lookup
  insert-last key vals old [] new = ground (arith, str_eq_iff key key)
  insert-last key vals old ((k, v) ∷ m) new = ground (arith, insert-last key vals old m)

  lookup-last :
      (key : Bytes) (vals : List R) (m : Map Bytes (List R))
      → lookup key m ≡ none
      → lookup key (m ++ (key, vals) ∷ []) ≡ some vals
  unfolding lookup
  lookup-last key vals [] new = ground (arith, str_eq_iff key key)
  lookup-last key vals ((k, v) ∷ m) new = ground (arith, lookup-last key vals m)

  append_all-last :
      (key : Bytes) (vals old : List R) (m : Map Bytes (List R))
      → lookup key m ≡ none
      → append_all key vals (m ++ (key, old) ∷ []) ≡ m ++ (key, old ++ vals) ∷ []
  unfolding append_all append_result
  append_all-last key [] old m new = ap (λ (t : List R). m ++ (key, t) ∷ []) (sym (append-nil old))
  append_all-last key (v ∷ vals) old m new = ground (
    arith,
    lookup-last key old m new,
    insert-last key (old ++ v ∷ []) old m new,
    append_all-last key vals (old ++ v ∷ []) m new,
    append_assoc old (v ∷ []) vals,
  )

  reconcile-append : (rest m : Map Bytes (List R)) → AllNew m rest → reconcile rest m ≡ m ++ rest
  unfolding reconcile
  reconcile-append [] m new = sym (append-nil m)
  reconcile-append ((key, vals) ∷ rest) m (here, later) = ground (
    arith,
    insert-end key [] m here,
    append_all-last key vals [] m here,
    reconcile-append rest (m ++ (key, vals) ∷ []) later,
    append_assoc m ((key, vals) ∷ []) rest,
  )

  -- The results of the claim are the recorded ones, each list of them in the order in which it was
  -- recorded, for every map, which has each key once.
  pub get_reconciled_results_lem :
      (results : Map Bytes (List R)) → AllNew [] results → get_reconciled_results results ≡ results
  unfolding get_reconciled_results
  get_reconciled_results_lem results new = reconcile-append results [] new
