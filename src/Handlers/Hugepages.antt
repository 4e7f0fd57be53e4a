-- ===== src/Handlers/Hugepages.antt =====
-- pkg/tnf/handlers/hugepages/hugepages.go: the hugepages of a machine config.
use test_network_function.Prelude.{
  ℕ, zero, suc, ◌+◌, ◌-◌, ◌≡◌, inl, inr, refl, ap, Bytes, codes, str_eq, bytes_eq, Map, lookup,
  insert, lookup-insert, List, [], ◌∷◌, ◌++◌, map, drop, take, length, Bool, false, ◌||◌, Option,
  none, some, Option-cases, Result, ok, err, ◌>>=◌, Panic, slice_bounds_out_of_range, arith,
  if◌then◌else◌, ◌==◌, ltb, ◌^◌,
}
use test_network_function.Prelude.Int.{ℤ, pos, ◌*ℤ◌, wrap_int}
use test_network_function.Strings.{split, fields, trim, atoi}
use test_network_function.Reel.{newline, Step, Handler}
use test_network_function.Tnf.{error, success}
use test_network_function.Handlers.{single_shot}

pub record Hugepages : Type 0 where
  pub hugepagesz : ℤ
  pub hugepages : ℤ
  pub result : ℤ
  pub timeout : ℕ
  pub args : List Bytes
  pub machine_config : Bytes

unfoldable pub new_hugepages : ℕ → Bytes → Hugepages
new_hugepages timeout machine_config = record {
  hugepagesz = pos 0;
  hugepages = pos 0;
  result = error;
  timeout = timeout;
  args =
      codes "oc"
      ∷ codes "get"
      ∷ codes "machineconfig"
      ∷ machine_config
      ∷ codes "-o"
      ∷ codes "custom-columns=KARGS:.spec.kernelArguments"
      ∷ codes "|"
      ∷ codes "grep"
      ∷ codes "-E"
      ∷ codes "'hugepage|KARGS'"
      ∷ [];
  machine_config = machine_config;
}

unfoldable pub hugepages_first : Hugepages → Step
hugepages_first hp = record { execute = []; expect = codes "(?s).+" ∷ []; timeout = hp.timeout }

unfoldable pub is_hugepages_param : Bytes → Bool
is_hugepages_param param =
    str_eq param (codes "hugepagesz")
    || str_eq param (codes "default_hugepagesz")
    || str_eq param (codes "hugepages")

abbrev final_byte : ℕ → Bytes → ℕ
final_byte c [] = c
final_byte c (d ∷ s) = final_byte d s

-- The function `atoi` of the file: kilobytes from a number with a unit behind it.
unfoldable pub size_with_unit : Bytes → Result Panic ℤ
size_with_unit [] = err slice_bounds_out_of_range
size_with_unit (c ∷ s) =
    let num = (atoi (take (length s) (c ∷ s))).0 in
    let unit = final_byte c s in
    ok (
      if unit == b'M'
      then wrap_int (num *ℤ pos 1024)
      else if unit == b'G'
      then wrap_int (num *ℤ pos (1024 ^ 2))
      else num)

-- `strings.Split(field, "=")`, where it is a parameter with a value.
unfoldable pub param_of : List Bytes → Option (Bytes × Bytes)
unfolding is_hugepages_param
param_of (name ∷ value ∷ []) = if is_hugepages_param name then some (name, value) else none
param_of parts = none

-- The loop over the fields of a line.
unfoldable pub read_fields : List Bytes → Map Bytes Bytes → Map Bytes Bytes
unfolding param_of
read_fields [] params = params
read_fields (field ∷ rest) params = elim (param_of (split field (codes "="))) [
  | none ↦ read_fields rest params
  | some (name, value) ↦ read_fields rest (insert name value params)
]

-- `line[1 : len(line)-1]`
unfoldable pub trim_brackets : Bytes → Result Panic Bytes
trim_brackets line =
    if ltb (length line) 2
    then err slice_bounds_out_of_range
    else ok (take (length line - 2) (drop 1 line))

unfoldable pub read_lines_params : List Bytes → Map Bytes Bytes → Result Panic (Map Bytes Bytes)
unfolding read_fields trim_brackets
read_lines_params [] params = ok params
read_lines_params (line ∷ lines) params = do
  body ← trim_brackets line
  read_lines_params lines (read_fields (fields body) params)

abbrev pub hugepages_count : Option Bytes → ℤ
hugepages_count none = pos 0
hugepages_count (some value) = (atoi value).0

-- `hugepagesz`, or else `default_hugepagesz`, or else the default.
unfoldable pub page_size : Option Bytes → Option Bytes → Result Panic ℤ
unfolding size_with_unit
page_size (some size) default_size = size_with_unit size
page_size none (some default_size) = size_with_unit default_size
page_size none none = ok (pos 2048)

unfoldable pub hugepages_match : Bytes → Bytes → Bytes → Hugepages → Result Panic Hugepages
unfolding read_lines_params page_size
hugepages_match pattern before m hp = do
  params ← read_lines_params (drop 1 (split (trim newline m) (newline ∷ []))) []
  size ← page_size (lookup (codes "hugepagesz") params) (lookup (codes "default_hugepagesz") params)
  ok (record hp {
    hugepages = hugepages_count (lookup (codes "hugepages") params);
    hugepagesz = size;
    result = success;
  })

unfoldable pub hugepages_handler : Handler Hugepages
unfolding hugepages_match hugepages_first single_shot
hugepages_handler = single_shot hugepages_first hugepages_match

-- The value of the last field that sets the parameter, or else the given one.
abbrev pub last_value : Bytes → List Bytes → Option Bytes → Option Bytes
last_value name [] found = found
last_value name (field ∷ rest) found =
    last_value name rest (elim (param_of (split field (codes "="))) [
      | none ↦ found
      | some (n, value) ↦ if str_eq n name then some value else found
    ])

-- The same over the lines, each of which is a list of fields in brackets.
abbrev pub last_of : Bytes → List Bytes → Option Bytes → Option Bytes
last_of name [] found = found
last_of name (body ∷ bodies) found = last_of name bodies (last_value name (fields body) found)

abbrev pub in_brackets : Bytes → Bytes
in_brackets body = b'[' ∷ (body ++ b']' ∷ [])

read_fields-lookup :
    (name : Bytes) (fs : List Bytes) (params : Map Bytes Bytes)
    → lookup name (read_fields fs params) ≡ last_value name fs (lookup name params)
unfolding read_fields
read_fields-lookup name [] params = refl
read_fields-lookup name (f ∷ fs) params = elim (Option-cases (param_of (split f (codes "=")))) [
  | inl e ↦ ground (arith, read_fields-lookup name fs params)
  | inr ((n, value), e) ↦
      ground (
        arith,
        read_fields-lookup name fs (insert n value params),
        lookup-insert n name value params,
      )
]

take-exact : (s t : Bytes) (n : ℕ) → n ≡ length s → take n (s ++ t) ≡ s
take-exact [] t zero h = refl
take-exact [] t (suc n) h = absurd (omega arith)
take-exact (c ∷ s) t zero h = absurd (omega arith)
take-exact (c ∷ s) t (suc n) h = ap (λ x. c ∷ x) (take-exact s t n (omega arith))

length-snoc : (s : Bytes) (c : ℕ) → length (s ++ c ∷ []) ≡ length s + 1
length-snoc [] c = refl
length-snoc (d ∷ s) c = omega (arith, length-snoc s c)

trim_brackets-in_brackets : (body : Bytes) → trim_brackets (in_brackets body) ≡ ok body
unfolding trim_brackets
trim_brackets-in_brackets body =
    let enough : ltb (length (in_brackets body)) 2 ≡ false =
      ground (arith, length-snoc body b']') in
    rw enough (
      ap ok (
        take-exact body (b']' ∷ []) (length (in_brackets body) - 2)
          (omega (arith, length-snoc body b']'))))

read_lines-lookup :
    (bodies : List Bytes) (params : Map Bytes Bytes)
    → (params' : Map Bytes Bytes) × (read_lines_params (map in_brackets bodies) params ≡ ok params')
      × ((name : Bytes) → lookup name params' ≡ last_of name bodies (lookup name params))
unfolding read_lines_params
read_lines-lookup [] params = (params, refl, λ name. refl)
read_lines-lookup (body ∷ bodies) params =
    let (params', e, found) = read_lines-lookup bodies (read_fields (fields body) params) in
    (
      params',
      rw (trim_brackets-in_brackets body) e,
      λ name. rw found (ap (last_of name bodies) (read_fields-lookup name (fields body) params)),
    )

-- When each line behind the header is in brackets, the last setting of each parameter counts: the
-- number is that of `hugepages` or 0, and the size that of `hugepagesz`, or else that of
-- `default_hugepagesz`, or else 2048 kB.
pub hugepages_match_lem :
    (hp : Hugepages) (pattern before m : Bytes) (bodies : List Bytes)
    → drop 1 (split (trim newline m) (newline ∷ [])) ≡ map in_brackets bodies
    → hugepages_match pattern before m hp ≡ (
        page_size
          (last_of (codes "hugepagesz") bodies none)
          (last_of (codes "default_hugepagesz") bodies none)
        >>= λ size. ok (record hp {
          hugepages = hugepages_count (last_of (codes "hugepages") bodies none);
          hugepagesz = size;
          result = success;
        }))
unfolding hugepages_match lookup
hugepages_match_lem hp pattern before m bodies lines =
    let (params, e, found) = read_lines-lookup bodies [] in
    rw (
      lines,
      e,
      found (codes "hugepagesz"),
      found (codes "default_hugepagesz"),
      found (codes "hugepages"),
    )
