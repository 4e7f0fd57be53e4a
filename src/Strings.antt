-- ===== src/Strings.antt =====
-- The functions of Go's packages `strings` and `strconv` that the program calls, on bytes. White
-- space is the ASCII one.
pub mod Splitting
use test_network_function.Prelude.{
  ℕ, zero, suc, ◌+◌, ◌-◌, ◌*◌, ◌/◌, ◌%◌, ◌^◌, Bytes, str_eq, has_prefix, List, [], ◌∷◌, ◌++◌,
  length, drop, Bool, true, false, ◌&&◌, ◌||◌, Option, none, some, if◌then◌else◌, ◌==◌, ltb, leb,
}
use test_network_function.Prelude.Int.{ℤ, pos, negsuc, sub_ℕ}

-- The part before the first separator, and the later parts; a separator of n + 1 bytes that was
-- met skips n more bytes.
unfoldable pub split_from : Bytes → ℕ → Bytes → Bytes × List Bytes
split_from sep skip [] = ([], [])
split_from sep (suc n) (c ∷ s) = split_from sep n s
split_from sep zero (c ∷ s) =
    let after = split_from sep (length sep - 1) s in
    let kept = split_from sep zero s in
    if has_prefix sep (c ∷ s) then ([], after.0 ∷ after.1) else (c ∷ kept.0, kept.1)

-- `strings.Split(s, sep)` with a separator that is not empty.
unfoldable pub split : Bytes → Bytes → List Bytes
unfolding split_from
split s sep = let p = split_from sep zero s in p.0 ∷ p.1

-- `strings.Index(s, sep)`; `none` is -1.
unfoldable pub index : Bytes → Bytes → Option ℕ
index sep [] = if has_prefix sep [] then some 0 else none
index sep (c ∷ s) =
    let rest = index sep s in
    if has_prefix sep (c ∷ s) then some 0 else elim rest [ none ↦ none | some i ↦ some (i + 1) ]

-- `strings.Contains(s, sep)`
unfoldable pub contains : Bytes → Bytes → Bool
contains sep [] = has_prefix sep []
contains sep (c ∷ s) = has_prefix sep (c ∷ s) || contains sep s

-- `strings.HasSuffix(s, p)`, with the suffix first.
unfoldable pub has_suffix : Bytes → Bytes → Bool
has_suffix p [] = str_eq p []
has_suffix p (c ∷ s) = str_eq p (c ∷ s) || has_suffix p s

-- `strings.TrimRight(s, "x")` for a cutset of one byte.
unfoldable pub trim_right : ℕ → Bytes → Bytes
trim_right x [] = []
trim_right x (c ∷ s) = elim (trim_right x s) [
  | [] ↦ if c == x then [] else c ∷ []
  | d ∷ t ↦ c ∷ d ∷ t
]

unfoldable pub trim_left : ℕ → Bytes → Bytes
trim_left x [] = []
trim_left x (c ∷ s) = let rest = trim_left x s in if c == x then rest else c ∷ s

-- `strings.Trim(s, "x")`
unfoldable pub trim : ℕ → Bytes → Bytes
unfolding trim_left trim_right
trim x s = trim_right x (trim_left x s)

unfoldable pub is_space : ℕ → Bool
is_space c = (leb 9 c && leb c 13) || c == 32

-- `strings.TrimSpace(s)`
unfoldable pub trim_space_left : Bytes → Bytes
unfolding is_space
trim_space_left [] = []
trim_space_left (c ∷ s) = let rest = trim_space_left s in if is_space c then rest else c ∷ s

unfoldable pub trim_space_right : Bytes → Bytes
unfolding is_space
trim_space_right [] = []
trim_space_right (c ∷ s) = elim (trim_space_right s) [
  | [] ↦ if is_space c then [] else c ∷ []
  | d ∷ t ↦ c ∷ d ∷ t
]

unfoldable pub trim_space : Bytes → Bytes
unfolding trim_space_left trim_space_right
trim_space s = trim_space_right (trim_space_left s)

-- The word that a text begins with, and the words after it.
unfoldable pub fields_from : Bytes → Bytes × List Bytes
unfolding is_space
fields_from [] = ([], [])
fields_from (c ∷ s) =
    let rest = fields_from s in
    if is_space c
    then ([], elim rest.0 [ [] ↦ rest.1 | d ∷ w ↦ (d ∷ w) ∷ rest.1 ])
    else (c ∷ rest.0, rest.1)

-- `strings.Fields(s)`
unfoldable pub fields : Bytes → List Bytes
unfolding fields_from
fields s = let p = fields_from s in elim p.0 [ [] ↦ p.1 | d ∷ w ↦ (d ∷ w) ∷ p.1 ]

-- The number that digits spell behind `n`; `none` at a byte that is no digit.
unfoldable pub digits : ℕ → Bytes → Option ℕ
digits n [] = some n
digits n (c ∷ s) =
    let rest = digits (n * 10 + (c - b'0')) s in if leb b'0' c && leb c b'9' then rest else none

-- `strconv.Atoi`: the value, and whether the error is nil. A number out of the range of int64 gives
-- the nearest bound, with an error; a text that is no number gives 0, with an error.
unfoldable pub bounded : Bool → Option ℕ → ℤ × Bool
bounded negative none = (pos 0, false)
bounded false (some n) = if ltb n (2 ^ 63) then (pos n, true) else (pos (2 ^ 63 - 1), false)
bounded true (some n) = if leb n (2 ^ 63) then (sub_ℕ 0 n, true) else (sub_ℕ 0 (2 ^ 63), false)

unfoldable pub unsigned : Bytes → Option ℕ
unfolding digits
unsigned [] = none
unsigned (c ∷ s) = digits 0 (c ∷ s)

unfoldable pub atoi : Bytes → ℤ × Bool
unfolding bounded unsigned
atoi [] = (pos 0, false)
atoi (c ∷ s) =
    if c == b'-'
    then bounded true (unsigned s)
    else if c == b'+'
    then bounded false (unsigned s)
    else bounded false (unsigned (c ∷ s))

-- `strconv.Itoa` of a number that is not negative, on fuel: a number has fewer digits than its
-- value plus one.
unfoldable pub decimal : ℕ → ℕ → Bytes → Bytes
decimal zero n out = out
decimal (suc fuel) n out =
    let here = (b'0' + n % 10) ∷ out in
    let more = decimal fuel (n / 10) here in if ltb n 10 then here else more

unfoldable pub format_nat : ℕ → Bytes
unfolding decimal
format_nat n = decimal (n + 1) n []
