-- ===== src/Grade/Policies.antt =====
-- `validatePolicy`: grade names are distinct.
use test_network_function.Prelude.{
  ◌≡◌, ◌≢◌, ◌↔◌, inl, inr, refl, Bytes, str_eq_iff, Bool, true, [], none, Option-cases, Map,
  bytes_eq, lookup, insert, lookup-insert, ok, arith,
}
use test_network_function.Grade.{
  Grade, no_grade, grade, Policy, first_grade, validate_grades, validate_policy,
}

-- The name is none of the chain's.
abbrev pub Lacks : Bytes → Grade → Type 0
Lacks n no_grade = Unit
Lacks n (grade m tests next) = (n ≢ m) × Lacks n next

-- No two grades of the chain share a name.
abbrev pub IsDistinct : Grade → Type 0
IsDistinct no_grade = Unit
IsDistinct (grade n tests next) = Lacks n next × IsDistinct next

-- The chain has no name that the map holds.
abbrev IsFresh : Map Bytes Bool → Grade → Type 0
IsFresh seen no_grade = Unit
IsFresh seen (grade n tests next) = (lookup n seen ≡ none) × IsFresh seen next

IsFresh-insert :
    (n : Bytes) (seen : Map Bytes Bool) (g : Grade)
    → IsFresh seen g
    → Lacks n g
    → IsFresh (insert n true seen) g
IsFresh-insert n seen no_grade f l = tt
IsFresh-insert n seen (grade m tests next) (f, fs) (l, ls) =
    (ground (arith, lookup-insert n m true seen, str_eq_iff n m), IsFresh-insert n seen next fs ls)

insert-IsFresh :
    (n : Bytes) (seen : Map Bytes Bool) (g : Grade)
    → IsFresh (insert n true seen) g
    → IsFresh seen g × Lacks n g
insert-IsFresh n seen no_grade f = (tt, tt)
insert-IsFresh n seen (grade m tests next) (f, fs) =
    let (fresh, lacks) = insert-IsFresh n seen next fs in
    (
      (ground (arith, lookup-insert n m true seen, str_eq_iff n m), fresh),
      (ground (arith, lookup-insert n m true seen, str_eq_iff n m), lacks),
    )

validate_grades_complete :
    (seen : Map Bytes Bool) (g : Grade)
    → IsFresh seen g
    → IsDistinct g
    → validate_grades seen g ≡ ok tt
unfolding validate_grades
validate_grades_complete seen no_grade f d = refl
validate_grades_complete seen (grade n tests next) (f, fs) (l, d) =
    ground (
      arith,
      validate_grades_complete (insert n true seen) next (IsFresh-insert n seen next fs l) d,
    )

validate_grades_sound :
    (seen : Map Bytes Bool) (g : Grade)
    → validate_grades seen g ≡ ok tt
    → IsFresh seen g × IsDistinct g
unfolding validate_grades
validate_grades_sound seen no_grade h = (tt, tt)
validate_grades_sound seen (grade n tests next) h = elim (Option-cases (lookup n seen)) [
  | inl new ↦
      let (fs, d) = validate_grades_sound (insert n true seen) next (ground arith) in
      let (fresh, lacks) = insert-IsFresh n seen next fs in ((new, fresh), (lacks, d))
  | inr (b, old) ↦ absurd (ground arith)
]

IsFresh-nil : (g : Grade) → IsFresh [] g
unfolding lookup
IsFresh-nil no_grade = tt
IsFresh-nil (grade n tests next) = (refl, IsFresh-nil next)

-- A policy is accepted exactly when no two grades of its chain have the same name.
pub validate_policy_iff : (p : Policy) → (validate_policy p ≡ ok tt) ↔ IsDistinct (first_grade p)
unfolding validate_policy
validate_policy_iff p = (
  λ h. (validate_grades_sound [] (first_grade p) h).1,
  λ d. validate_grades_complete [] (first_grade p) (IsFresh-nil (first_grade p)) d,
)
