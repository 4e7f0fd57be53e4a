-- ===== src/Platform/Taints.antt =====
-- The decoding of a taint bitmap.
use test_network_function.Prelude.{
  ℕ, zero, suc, ◌+◌, ◌/◌, ◌%◌, ◌^◌, ◌≤◌, ◌<◌, ◌≡◌, ◌≢◌, ◌↔◌, inl, inr, Bytes, codes, [], ◌++◌,
  Bool-cases, Result-cases, ok, err, ◌>>=◌, Panic, index_out_of_range, arith, ◌==◌,
}
use native.Mathlib.Decide.{dec_lt, ℕ_discrete}
use test_network_function.Generic.Conditions.{get_elem?-none, get_elem?-some}
use test_network_function.Handlers.{at}
use test_network_function.Platform.{tainted_bit_values, taint_text, print_bits, print_tainted}

-- Bit `i` of the bitmap is set.
abbrev pub HasBit : ℕ → ℕ → Type 0
HasBit bitmap i = (bitmap / 2 ^ i) % 2 ≡ 1

-- A bit that has no text is set, among `n` bits from `i` on.
abbrev pub HasUnknownBit : ℕ → ℕ → ℕ → Type 0
HasUnknownBit n i bitmap = (j : ℕ) × (i ≤ j) × (j < i + n) × (18 ≤ j) × HasBit bitmap j

taint_text-known : (bitmap i : ℕ) → i < 18 → (text : Bytes) × (taint_text bitmap i ≡ ok text)
unfolding taint_text at
taint_text-known bitmap i h =
    let (value, e) = get_elem?-some tainted_bit_values i (omega arith) in
    elim (Bool-cases ((bitmap / 2 ^ i) % 2 == 1)) [
      | inl set ↦ (value ++ codes ", ", rw (set, e))
      | inr clear ↦ ([], rw clear)
    ]

taint_text-unknown :
    (bitmap i : ℕ) → 18 ≤ i → HasBit bitmap i → taint_text bitmap i ≡ err index_out_of_range
unfolding taint_text at
taint_text-unknown bitmap i h set =
    let e = get_elem?-none tainted_bit_values i (omega arith) in ground arith

taint_text-clear :
    (bitmap i : ℕ) → (bitmap / 2 ^ i) % 2 ≢ 1 → (text : Bytes) × (taint_text bitmap i ≡ ok text)
unfolding taint_text
taint_text-clear bitmap i clear = ([], ground arith)

print_bits_sound :
    (n i bitmap : ℕ) → print_bits n i bitmap ≡ err index_out_of_range → HasUnknownBit n i bitmap
unfolding print_bits
print_bits_sound zero i bitmap h = absurd (ground arith)
print_bits_sound (suc n) i bitmap h = elim (dec_lt i 18) [
  | yes known ↦
      let (text, e) = taint_text-known bitmap i known in
      let (j, a, b, c, set) = print_bits_sound n (i + 1) bitmap (rest_fails text e) in
      (j, omega arith, omega arith, c, set)
  | no unknown ↦ elim (ℕ_discrete ((bitmap / 2 ^ i) % 2) 1) [
    | yes set ↦ (i, omega arith, omega arith, omega arith, set)
    | no clear ↦
        let (text, e) = taint_text-clear bitmap i clear in
        let (j, a, b, c, set) = print_bits_sound n (i + 1) bitmap (rest_fails text e) in
        (j, omega arith, omega arith, c, set)
  ]
]
  where
    rest_fails :
        (text : Bytes)
        → taint_text bitmap i ≡ ok text
        → print_bits n (i + 1) bitmap ≡ err index_out_of_range
    rest_fails text e = elim (Result-cases (print_bits n (i + 1) bitmap)) [
      | inl (p, bad) ↦ ground arith
      | inr (rest, good) ↦ absurd (ground arith)
    ]

print_bits_complete :
    (n i bitmap : ℕ) → HasUnknownBit n i bitmap → print_bits n i bitmap ≡ err index_out_of_range
unfolding print_bits
print_bits_complete zero i bitmap (j, a, b, c, set) = absurd (omega arith)
print_bits_complete (suc n) i bitmap (j, a, b, c, set) = elim (ℕ_discrete j i) [
  | yes e ↦ let first = taint_text-unknown bitmap i (omega arith) (cc) in rw first
  | no ne ↦
      let rest = print_bits_complete n (i + 1) bitmap (j, omega arith, omega arith, c, set) in
      elim (Result-cases (taint_text bitmap i)) [
        | inr (text, e) ↦ rw (e, rest)
        | inl (p, e) ↦ fails p e
      ]
]
  where
    fails :
        (p : Panic)
        → taint_text bitmap i ≡ err p
        → (do here ← taint_text bitmap i; rest ← print_bits n (i + 1) bitmap; ok (here ++ rest))
          ≡ err index_out_of_range
    fails p e = elim (dec_lt i 18) [
      | yes known ↦ let (text, e') = taint_text-known bitmap i known in absurd (ground arith)
      | no unknown ↦ elim (ℕ_discrete ((bitmap / 2 ^ i) % 2) 1) [
        | yes set' ↦ let first = taint_text-unknown bitmap i (omega arith) set' in rw first
        | no clear ↦ let (text, e') = taint_text-clear bitmap i clear in absurd (ground arith)
      ]
    ]

-- The decoding of a node's taints panics exactly when one of the bits 18 to 31 is set, for which
-- there is no text.
pub print_tainted_panics :
    (bitmap : ℕ)
    → (print_tainted bitmap ≡ err index_out_of_range)
      ↔ ((j : ℕ) × (18 ≤ j) × (j < 32) × HasBit bitmap j)
unfolding print_tainted
print_tainted_panics bitmap = (
  λ h. let (j, a, b, c, set) = print_bits_sound 32 0 bitmap h in (j, c, omega arith, set),
  λ (j, c, b, set). print_bits_complete 32 0 bitmap (j, omega arith, omega arith, c, set),
)
