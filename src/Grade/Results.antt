-- ===== src/Grade/Results.antt =====
-- `processTestResults`: the verdict on the recorded results of one test.
use test_network_function.Prelude.{
  ◌≡◌, ◌↔◌, ◌∙◌, refl, sym, ap, Bool, false, Result, ok, err, ◌>>=◌, >>=-eq-ok,
}
use test_network_function.Json.{Value, Items, nil, cons, arr, as_array, append}
use test_network_function.Grade.{Error, result_passed, process_items, process_test_results}

-- Every entry has a `passed` field that is a Boolean.
abbrev pub IsWellFormed : Items → Type 0
IsWellFormed nil = Unit
IsWellFormed (cons r rs) = ((b : Bool) × (result_passed r ≡ ok b)) × IsWellFormed rs

process_items-append :
    (xs ys : Items) (pass : Bool)
    → process_items (append xs ys) pass ≡ (process_items xs pass >>= process_items ys)
unfolding process_items append
process_items-append nil ys pass = refl
process_items-append (cons x xs) ys pass =
    elim (result_passed x)
      as (λ r.
        (r >>= λ b. process_items (append xs ys) b)
        ≡ ((r >>= λ b. process_items xs b) >>= process_items ys)) [
          | ok b ↦ process_items-append xs ys b
          | err e ↦ refl
        ]

process_items-IsWellFormed :
    (xs : Items) (pass b : Bool) → process_items xs pass ≡ ok b → IsWellFormed xs
unfolding process_items
process_items-IsWellFormed nil pass b h = tt
process_items-IsWellFormed (cons x xs) pass b h =
    let (v, found, rest) = >>=-eq-ok (result_passed x) (process_items xs) h in
    ((v, found), process_items-IsWellFormed xs v b rest)

-- A well-formed list of results has a verdict.
pub process_items_total :
    (xs : Items) (pass : Bool) → IsWellFormed xs → (b : Bool) × (process_items xs pass ≡ ok b)
unfolding process_items
process_items_total nil pass h = (pass, refl)
process_items_total (cons x xs) pass ((v, found), rest) = rw found (process_items_total xs v rest)

bind-ok {ℓ} : {A : Type ℓ} (m : Result Error A) → (m >>= λ a. ok a) ≡ m
bind-ok (ok a) = refl
bind-ok (err e) = refl

-- The results recorded for a test are accepted with verdict `b` exactly when each of them has a
-- Boolean `passed` field and the last one has the value `b` there: the earlier values have no part
-- in the verdict.
pub process_test_results-last :
    (xs : Items) (r : Value) (b : Bool)
    → (process_test_results (arr (append xs (cons r nil))) ≡ ok b)
      ↔ (IsWellFormed xs × (result_passed r ≡ ok b))
unfolding process_test_results as_array
process_test_results-last xs r b = (there, back)
  where
    there :
        process_items (append xs (cons r nil)) false ≡ ok b
        → IsWellFormed xs × (result_passed r ≡ ok b)
    there h =
        let (v, start, stop) =
          >>=-eq-ok (process_items xs false) (process_items (cons r nil))
            (rw process_items-append at h) in
        (process_items-IsWellFormed xs false v start, sym (bind-ok (result_passed r)) ∙ stop)

    back :
        IsWellFormed xs × (result_passed r ≡ ok b)
        → process_items (append xs (cons r nil)) false ≡ ok b
    back (w, last) =
        let (v, start) = process_items_total xs false w in
        process_items-append xs (cons r nil) false
        ∙ ap (λ m. m >>= process_items (cons r nil)) start
        ∙ bind-ok (result_passed r)
        ∙ last
