-- ===== src/Platform/BootParams.antt =====
-- test-network-function/platform/suite.go: `testBootParamsHelper`, with `ArgListToMap` and
-- `FilterArray` of pkg/utils/utils.go.
use test_network_function.Prelude.{
  ◌≡◌, ◌↔◌, inl, inr, refl, subst, Bytes, codes, bytes_eq, str_eq, str_eq_iff, has_prefix, Map,
  lookup, insert, lookup-insert, List, [], ◌∷◌, drop, true, Bool-cases, Option, none, some,
  Option-cases, if◌then◌else◌, arith, List-cases,
}
use test_network_function.Strings.{split}
use test_network_function.Platform.Boot.{
  argument_of, add_arguments, arg_list_to_map, filter_array, get_grub_kernel_args,
  boot_params_agree, test_boot_params_helper,
}

-- The value of the last argument of that name.
abbrev pub last_value : Bytes → List Bytes → Option Bytes
last_value key [] = none
last_value key (arg ∷ args) = elim (last_value key args) [
  | some val ↦ some val
  | none ↦
      if str_eq (argument_of (split arg (codes "="))).0 key
      then some (argument_of (split arg (codes "="))).1
      else none
]

lookup-add_arguments :
    (key : Bytes) (args : List Bytes) (m : Map Bytes Bytes)
    → lookup key (add_arguments args m)
      ≡ elim (last_value key args) [ some val ↦ some val | none ↦ lookup key m ]
unfolding add_arguments
lookup-add_arguments key [] m = refl
lookup-add_arguments key (arg ∷ args) m =
    let read = argument_of (split arg (codes "=")) in
    ground (
      arith,
      lookup-add_arguments key args (insert read.0 read.1 m),
      lookup-insert read.0 key read.1 m,
    )

-- Reading a list of arguments as a map keeps, for each name, the value of its last argument.
pub lookup-arg_list_to_map :
    (key : Bytes) (args : List Bytes) → lookup key (arg_list_to_map args) ≡ last_value key args
unfolding arg_list_to_map lookup
lookup-arg_list_to_map key args = ground (arith, lookup-add_arguments key args [])

-- Each key of the map has one entry.
abbrev pub IsFunctional : Map Bytes Bytes → Type 0
IsFunctional [] = Unit
IsFunctional ((key, val) ∷ m) = (lookup key m ≡ none) × IsFunctional m

insert-IsFunctional :
    (key val : Bytes) (m : Map Bytes Bytes) → IsFunctional m → IsFunctional (insert key val m)
unfolding insert lookup
insert-IsFunctional key val [] single = (refl, tt)
insert-IsFunctional key val ((k, v) ∷ m) (once, single) = elim (Bool-cases (str_eq k key)) [
  | inl e ↦
      rw e
        (subst (λ x. (lookup x m ≡ none) × IsFunctional m) ((str_eq_iff k key).0 e) (once, single))
  | inr e ↦ rw e (
    ground (arith, lookup-insert key k val m, str_eq_iff key k, str_eq_iff k key, arith),
    insert-IsFunctional key val m single,
  )
]

add_arguments-IsFunctional :
    (args : List Bytes) (m : Map Bytes Bytes) → IsFunctional m → IsFunctional (add_arguments args m)
unfolding add_arguments
add_arguments-IsFunctional [] m single = single
add_arguments-IsFunctional (arg ∷ args) m single =
    let read = argument_of (split arg (codes "=")) in
    add_arguments-IsFunctional args (insert read.0 read.1 m)
      (insert-IsFunctional read.0 read.1 m single)

-- No entry of the first map has another value in the second.
abbrev pub Agrees : Map Bytes Bytes → Map Bytes Bytes → Type 0
Agrees mc others =
    (key val other : Bytes)
    → lookup key mc ≡ some val
    → lookup key others ≡ some other
    → other ≡ val

Agrees-iff :
    (key val : Bytes) (m others : Map Bytes Bytes)
    → lookup key m ≡ none
    → Agrees ((key, val) ∷ m) others ↔ (
        (elim (lookup key others) [ none ↦ true | some v ↦ str_eq v val ] ≡ true) × Agrees m others)
unfolding lookup
Agrees-iff key val m others fresh = (
  λ agrees. (
    elim (Option-cases (lookup key others)) [
      | inl missing ↦ rw missing refl
      | inr (v, found) ↦
          rw found
            ((str_eq_iff v val).1 (agrees key val v (ground (arith, str_eq_iff key key)) found))
    ],
    λ k v other in_m. agrees k v other (ground (arith, str_eq_iff key k)),
  ),
  λ (first, rest) k v other in_m there. elim (Bool-cases (str_eq key k)) [
    | inl e ↦ ground (arith, str_eq_iff key k, str_eq_iff other val)
    | inr e ↦ rest k v other (ground (arith)) there
  ],
)

Agrees-nil : (others : Map Bytes Bytes) → Agrees [] others
unfolding lookup
Agrees-nil others k v other in_nil there = cc

boot_params_agree_iff :
    (m current grub : Map Bytes Bytes)
    → IsFunctional m
    → (boot_params_agree m current grub ≡ true) ↔ (Agrees m current × Agrees m grub)
unfolding boot_params_agree
boot_params_agree_iff [] current grub single =
    (λ _. (Agrees-nil current, Agrees-nil grub), λ _. refl)
boot_params_agree_iff ((key, val) ∷ m) current grub (fresh, single) = grind (
  arith,
  Agrees-iff key val m current fresh,
  Agrees-iff key val m grub fresh,
  boot_params_agree_iff m current grub single,
)

-- For each name, the last value in the one list is the last value in the other, if both have it.
abbrev pub AgreesLast : List Bytes → List Bytes → Type 0
AgreesLast mc others =
    (key val other : Bytes)
    → last_value key mc ≡ some val
    → last_value key others ≡ some other
    → other ≡ val

AgreesLast-iff :
    (mc others : List Bytes)
    → Agrees (arg_list_to_map mc) (arg_list_to_map others) ↔ AgreesLast mc others
AgreesLast-iff mc others = (
  λ agrees key val other here there.
      agrees key val other (rw (lookup-arg_list_to_map key mc) here)
        (rw (lookup-arg_list_to_map key others) there),
  λ agrees key val other here there.
      agrees key val other (rw (← lookup-arg_list_to_map key mc) here)
        (rw (← lookup-arg_list_to_map key others) there),
)

boot_params_agree_last :
    (mc current options : List Bytes)
    → (boot_params_agree (arg_list_to_map mc) (arg_list_to_map current) (arg_list_to_map options)
        ≡ true)
      ↔ (AgreesLast mc current × AgreesLast mc options)
unfolding arg_list_to_map
boot_params_agree_last mc current options =
    let single = add_arguments-IsFunctional mc [] tt in
    let agree =
      boot_params_agree_iff (arg_list_to_map mc) (arg_list_to_map current) (arg_list_to_map options)
        single in
    (
      λ passes. (
        (AgreesLast-iff mc current).0 (agree.0 passes).0,
        (AgreesLast-iff mc options).0 (agree.0 passes).1,
      ),
      λ both. agree.1 ((AgreesLast-iff mc current).1 both.0, (AgreesLast-iff mc options).1 both.1),
    )

only_line : (x y : Bytes) → x ∷ [] ≡ y ∷ [] → y ≡ x
only_line x y same = cc

-- The test of the boot parameters passes exactly when the boot configuration has one line of options
-- and, for each name, the last value in the machine config is the last value on the command line
-- of the kernel and the last value among the options, where these have the name.
pub test_boot_params_helper_iff :
    (mc_args : List Bytes) (cmdline boot_config : Bytes)
    → (test_boot_params_helper mc_args cmdline boot_config ≡ true) ↔ (
        (line : Bytes) × (filter_array
            (split boot_config (codes "\n"))
            (has_prefix (codes "options"))
          ≡ line ∷ [])
        × AgreesLast mc_args (split cmdline (codes " "))
        × AgreesLast mc_args (drop 1 (split line (codes " "))))
unfolding test_boot_params_helper get_grub_kernel_args
test_boot_params_helper_iff mc_args cmdline boot_config =
    elim (List-cases
      (filter_array (split boot_config (codes "\n")) (has_prefix (codes "options")))) [
        | inl nothing ↦
            rw (test_boot_params_helper, get_grub_kernel_args, nothing)
              (λ passes. cc, λ (line, one, _, _). cc)
        | inr (line, others, e) ↦ elim (List-cases others) [
          | inl alone ↦
              let only =
                boot_params_agree_last mc_args (split cmdline (codes " "))
                  (drop 1 (split line (codes " "))) in
              rw (test_boot_params_helper, get_grub_kernel_args, e, alone)
                (
                  λ passes. (line, refl, (only.0 passes).0, (only.0 passes).1),
                  λ (other, same, now, later). only.1 (
                    now,
                    subst (λ l. AgreesLast mc_args (drop 1 (split l (codes " "))))
                        (only_line line other same) later,
                  ),
                )
          | inr (second, more, several) ↦
              rw (test_boot_params_helper, get_grub_kernel_args, e, several)
                (λ passes. cc, λ (other, one, _, _). cc)
        ]
      ]
