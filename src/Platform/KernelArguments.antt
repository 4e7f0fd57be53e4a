-- ===== src/Platform/KernelArguments.antt =====
-- Reading hugepages from kernel arguments.
use test_network_function.Prelude.{
  ◌≡◌, ◌≢◌, ◌⊎◌, inl, inr, refl, Bytes, codes, str_eq, Map, lookup, insert, lookup-insert, List, [],
  ◌∷◌, Bool, true, false, Bool-cases, ◌&&◌, ◌||◌, some, Option-cases, ok, err, arith,
}
use test_network_function.Prelude.Int.{ℤ, pos, eq_ℤ_iff, int_eq}
use test_network_function.Strings.{split, atoi}
use test_network_function.Platform.{
  count_without_size, hugepage_size_to_int, McHugepages, nonempty, take_size, take_default_size,
  take_count, read_argument, key_value, read_arguments, no_hugepages, or_default,
  get_mc_hugepages_from_mc_kernel_arguments,
}

-- `hugepages=` with a value
abbrev pub is_count : Bytes → Bytes → Bool
is_count key value = str_eq key (codes "hugepages") && nonempty value

-- `hugepagesz=` or `default_hugepagesz=` with a value
abbrev pub is_size : Bytes → Bytes → Bool
is_size key value =
    (str_eq key (codes "hugepagesz") && nonempty value)
    || (str_eq key (codes "default_hugepagesz") && nonempty value)

-- The argument is an assignment with one equals sign.
abbrev pub Assigns : Bytes → Bytes → Bytes → Type 0
Assigns arg key value = key_value (split arg (codes "=")) ≡ some (key, value)

-- An argument that sets a number of hugepages comes before each that sets a size.
abbrev pub CountFirst : List Bytes → Type 0
CountFirst [] = ⊥
CountFirst (arg ∷ args) =
    ((key value : Bytes) × Assigns arg key value × (is_count key value ≡ true))
    ⊎ (((key value : Bytes) → Assigns arg key value → is_size key value ≡ false) × CountFirst args)

-- The current size is one of the map.
abbrev HasSize : McHugepages → Type 0
HasSize mc = (c : ℤ) × (lookup mc.hugepagesz mc.hugepages_per_size ≡ some c)

lookup-insert_self : (k v : ℤ) (m : Map ℤ ℤ) → lookup k (insert k v m) ≡ some v
lookup-insert_self k v m = ground (arith, lookup-insert k k v m, eq_ℤ_iff k k)

size_is_number : (s : Bytes) → nonempty s ≡ true → (n : ℤ) × (hugepage_size_to_int s ≡ ok n)
unfolding hugepage_size_to_int
size_is_number [] h = absurd (ground arith)
size_is_number (c ∷ s) h = (_, refl)

count_taken :
    (mc : McHugepages) (n : ℤ)
    → HasSize mc
    → (mc' : McHugepages) × (take_count n mc ≡ ok mc') × HasSize mc'
unfolding take_count
count_taken mc n (c, e) = (
  record mc { hugepages_per_size = insert mc.hugepagesz n mc.hugepages_per_size },
  ground arith,
  (n, lookup-insert_self mc.hugepagesz n mc.hugepages_per_size),
)

size_taken : (mc : McHugepages) (n : ℤ) → HasSize (take_size n mc)
unfolding take_size
size_taken mc n = (pos 0, lookup-insert_self n (pos 0) mc.hugepages_per_size)

default_taken : (mc : McHugepages) (n : ℤ) → HasSize (take_default_size n mc)
unfolding take_default_size
default_taken mc n = (pos 0, lookup-insert_self n (pos 0) mc.hugepages_per_size)

read_argument-size :
    (key value : Bytes) (mc : McHugepages)
    → is_count key value ≡ false
    → is_size key value ≡ true
    → (mc' : McHugepages) × (read_argument key value mc ≡ ok mc') × HasSize mc'
unfolding read_argument
read_argument-size key value mc h s =
    let (n, e) = size_is_number value (ground arith) in
    elim (Bool-cases (str_eq key (codes "hugepagesz") && nonempty value)) [
      | inl a ↦ (take_size n mc, rw (h, a, e), size_taken mc n)
      | inr b ↦
          let d : (str_eq key (codes "default_hugepagesz") && nonempty value) ≡ true =
            ground arith in
          (take_default_size n mc, rw (h, b, d, e), default_taken mc n)
    ]

read_argument-other :
    (key value : Bytes) (mc : McHugepages)
    → is_count key value ≡ false
    → is_size key value ≡ false
    → read_argument key value mc ≡ ok mc
unfolding read_argument
read_argument-other key value mc h s =
    let a : (str_eq key (codes "hugepagesz") && nonempty value) ≡ false = ground arith in
    let b : (str_eq key (codes "default_hugepagesz") && nonempty value) ≡ false = ground arith in
    rw (h, a, b)

read_argument-HasSize :
    (key value : Bytes) (mc : McHugepages)
    → HasSize mc
    → (mc' : McHugepages) × (read_argument key value mc ≡ ok mc') × HasSize mc'
unfolding read_argument
read_argument-HasSize key value mc has = elim (Bool-cases (is_count key value)) [
  | inl h ↦ let (mc', e, has') = count_taken mc (atoi value).0 has in (mc', rw h e, has')
  | inr h ↦ elim (Bool-cases (is_size key value)) [
    | inl s ↦ read_argument-size key value mc h s
    | inr s ↦ (mc, read_argument-other key value mc h s, has)
  ]
]

read_arguments-HasSize :
    (args : List Bytes) (mc : McHugepages)
    → HasSize mc
    → (mc' : McHugepages) × (read_arguments args mc ≡ ok mc')
unfolding read_arguments
read_arguments-HasSize [] mc has = (mc, refl)
read_arguments-HasSize (arg ∷ args) mc has =
    elim (Option-cases (key_value (split arg (codes "=")))) [
      | inl e ↦ let (mc', rest) = read_arguments-HasSize args mc has in (mc', ground arith)
      | inr ((key, value), e) ↦
          let (mc1, here, has1) = read_argument-HasSize key value mc has in
          let (mc', rest) = read_arguments-HasSize args mc1 has1 in (mc', ground arith)
    ]

-- What reading from the empty map gives.
abbrev Outcome : List Bytes → Type 0
Outcome args =
    (CountFirst args × (read_arguments args no_hugepages ≡ err count_without_size))
    ⊎ ((CountFirst args → ⊥) × ((mc : McHugepages) × (read_arguments args no_hugepages ≡ ok mc)))

skip :
    (arg : Bytes) (args : List Bytes)
    → ((key value : Bytes) → Assigns arg key value → is_count key value ≡ false)
    → ((key value : Bytes) → Assigns arg key value → is_size key value ≡ false)
    → read_arguments (arg ∷ args) no_hugepages ≡ read_arguments args no_hugepages
    → Outcome args
    → Outcome (arg ∷ args)
skip arg args no_count no_size same (inl (first, e)) = inl (inr (no_size, first), cc (same, e))
skip arg args no_count no_size same (inr (late, (mc, e))) = inr (elim_first, (mc, cc (same, e)))
  where
    elim_first : CountFirst (arg ∷ args) → ⊥
    elim_first (inl (key, value, a, c)) = ground (arith, no_count key value a)
    elim_first (inr (n, first)) = late first

outcome : (args : List Bytes) → Outcome args
unfolding read_arguments read_argument take_count lookup
outcome [] = inr (λ h. h, (no_hugepages, refl))
outcome (arg ∷ args) = elim (Option-cases (key_value (split arg (codes "=")))) [
  | inl e ↦
      skip arg args (λ k v a. absurd (ground arith)) (λ k v a. absurd (ground arith)) (ground arith)
        (outcome args)
  | inr ((key, value), e) ↦ assigned (outcome args) key value e
]
  where
    not_first :
        (key value : Bytes)
        → Assigns arg key value
        → is_count key value ≡ false
        → is_size key value ≡ true
        → CountFirst (arg ∷ args)
        → ⊥
    not_first key value e h s (inl (k, v, a, c)) = cc
    not_first key value e h s (inr (n, first)) = ground (arith, n key value e)

    assigned : Outcome args → (key value : Bytes) → Assigns arg key value → Outcome (arg ∷ args)
    assigned rest_outcome key value e = elim (Bool-cases (is_count key value)) [
      | inl h ↦ inl (inl (key, value, e, h), ground arith)
      | inr h ↦ elim (Bool-cases (is_size key value)) [
        | inl s ↦
            let (mc1, here, has) = read_argument-size key value no_hugepages h s in
            let (mc, rest) = read_arguments-HasSize args mc1 has in
            inr (not_first key value e h s, (mc, ground arith))
        | inr s ↦
            skip arg args (λ k v a. cc) (λ k v a. cc)
              (ground (arith, read_argument-other key value no_hugepages h s)) rest_outcome
      ]
    ]

or_default-filled : (m : Map ℤ ℤ) → or_default m ≢ []
or_default-filled [] e = ground arith
or_default-filled (x ∷ xs) e = ground arith

-- Reading the hugepages from the kernel arguments fails exactly if a number of hugepages is set
-- before any size; else it gives at least one size with its number. It never panics.
pub get_mc_hugepages_from_mc_kernel_arguments_lem :
    (args : List Bytes)
    → (CountFirst args × (get_mc_hugepages_from_mc_kernel_arguments args ≡ err count_without_size))
      ⊎ ((CountFirst args → ⊥)
          × ((per_size : Map ℤ ℤ) × (default_size : ℤ) × (get_mc_hugepages_from_mc_kernel_arguments
                  args
                ≡ ok (per_size, default_size))
              × (per_size ≢ [])))
unfolding get_mc_hugepages_from_mc_kernel_arguments
get_mc_hugepages_from_mc_kernel_arguments_lem args = elim (outcome args) [
  | inl (first, e) ↦ inl (first, rw e)
  | inr (late, (mc, e)) ↦ inr (
    late,
    (
      or_default mc.hugepages_per_size,
      mc.defhugepagesz,
      rw e,
      or_default-filled mc.hugepages_per_size,
    ),
  )
]
