-- ===== src/Platform/Totals.antt =====
-- The comparison of a node's hugepages with the kernel arguments.
use test_network_function.Prelude.{
  ℕ, ◌+◌, ◌%◌, ◌^◌, ◌<◌, ◌≤◌, ◌≡◌, ◌↔◌, refl, Map, List, [], ◌∷◌, true, Bool-cases, some,
  Option-cases, inl, inr, arith,
}
use test_network_function.Prelude.Int.{ℤ, pos, eq_ℤ, eq_ℤ_iff, ◌+ℤ◌, signed, wrap_int}
use test_network_function.Platform.{
  HugePagesConfig, NumaHugePages, count_of_size, total_of_size,
  test_node_hugepages_with_kernel_args,
}

-- Each count of the node is that of a number of pages, and all of them together are `n`.
abbrev pub ArePages : List HugePagesConfig → ℕ → Type 0
ArePages [] n = n ≡ 0
ArePages (c ∷ cs) n =
    (k : ℕ) × (rest : ℕ) × (c.hugepages_count ≡ pos k) × ArePages cs rest × (n ≡ k + rest)

abbrev pub HasPages : NumaHugePages → ℕ → Type 0
HasPages [] n = n ≡ 0
HasPages ((numa, cs) ∷ node) n =
    (k : ℕ) × (rest : ℕ) × ArePages cs k × HasPages node rest × (n ≡ k + rest)

-- The sum, over the node's numas, of the pages in the first configuration of the size.
abbrev pub HasOfSize : ℤ → NumaHugePages → ℕ → Type 0
HasOfSize size [] n = n ≡ 0
HasOfSize size ((numa, cs) ∷ node) n =
    (k : ℕ) × (rest : ℕ) × (count_of_size size cs ≡ some (pos k))
    × HasOfSize size node rest
    × (n ≡ k + rest)

-- Each size of the kernel arguments has its number of pages on the node.
abbrev pub IsSatisfied : NumaHugePages → Map ℤ ℤ → Type 0
IsSatisfied node [] = Unit
IsSatisfied node ((size, count) ∷ args) =
    ((n : ℕ) × HasOfSize size node n × (count ≡ pos n)) × IsSatisfied node args

wrap_int-small : (n : ℕ) → n < 2 ^ 63 → wrap_int (pos n) ≡ pos n
unfolding wrap_int signed
wrap_int-small n h = let same : n % 2 ^ 64 ≡ n = omega arith in rw same (ground arith)

pos_add : (a b : ℕ) → pos a +ℤ pos b ≡ pos (a + b)
unfolding ◌+ℤ◌
pos_add a b = ground arith

count_of_size-bound :
    (size n : ℤ) (cs : List HugePagesConfig) (all : ℕ)
    → ArePages cs all
    → count_of_size size cs ≡ some n
    → (k : ℕ) × (n ≡ pos k) × (k ≤ all)
unfolding count_of_size
count_of_size-bound size n [] all pages h = absurd (ground arith)
count_of_size-bound size n (c ∷ cs) all (k, rest, e, pages, sum) h =
    elim (Bool-cases (eq_ℤ c.hugepages_size size)) [
      | inl found ↦ (k, ground arith, omega arith)
      | inr other ↦
          let (j, e', le) = count_of_size-bound size n cs rest pages (ground arith) in
          (j, e', omega arith)
    ]

total_sound :
    (size n : ℤ) (node : NumaHugePages) (t all : ℕ)
    → HasPages node all
    → t + all < 2 ^ 63
    → total_of_size size (pos t) node ≡ some n
    → (k : ℕ) × HasOfSize size node k × (n ≡ pos (t + k))
unfolding total_of_size
total_sound size n [] t all pages small h = (0, refl, ground arith)
total_sound size n ((numa, cs) ∷ node) t all (a, rest, here, there, sum) small h =
    elim (Option-cases (count_of_size size cs)) [
      | inl e ↦ absurd (ground arith)
      | inr (c, e) ↦
          let (k, ek, le) = count_of_size-bound size c cs a here e in
          let step : wrap_int (pos t +ℤ c) ≡ pos (t + k) =
            rw (ek, pos_add t k) (wrap_int-small (t + k) (omega arith)) in
          let (j, found, en) =
            total_sound size n node (t + k) rest there (omega arith) (ground arith) in
          (k + j, (k, j, rw ek at e, found, refl), rw en (ground arith))
    ]

total_complete :
    (size : ℤ) (node : NumaHugePages) (t all k : ℕ)
    → HasPages node all
    → t + all < 2 ^ 63
    → HasOfSize size node k
    → total_of_size size (pos t) node ≡ some (pos (t + k))
unfolding total_of_size
total_complete size [] t all k pages small h = ground arith
total_complete size ((numa, cs) ∷ node) t all k (a, rest, here, there, sum) small
      (c, j, e, found, total) =
    let (c', ec, le) = count_of_size-bound size (pos c) cs a here e in
    let step : wrap_int (pos t +ℤ pos c) ≡ pos (t + c) =
      rw (pos_add t c) (wrap_int-small (t + c) (ground arith)) in
    let later = total_complete size node (t + c) rest j there (ground arith) found in ground arith

args_sound :
    (node : NumaHugePages) (args : Map ℤ ℤ) (all : ℕ)
    → HasPages node all
    → all < 2 ^ 63
    → test_node_hugepages_with_kernel_args node args ≡ true
    → IsSatisfied node args
unfolding test_node_hugepages_with_kernel_args
args_sound node [] all pages small h = tt
args_sound node ((size, count) ∷ args) all pages small h =
    elim (Option-cases (total_of_size size (pos 0) node)) [
      | inl e ↦ absurd (ground arith)
      | inr (n, e) ↦
          let (k, found, en) = total_sound size n node 0 all pages (omega arith) e in
          (
            (k, found, ground (arith, eq_ℤ_iff n count)),
            args_sound node args all pages small (ground arith),
          )
    ]

args_complete :
    (node : NumaHugePages) (args : Map ℤ ℤ) (all : ℕ)
    → HasPages node all
    → all < 2 ^ 63
    → IsSatisfied node args
    → test_node_hugepages_with_kernel_args node args ≡ true
unfolding test_node_hugepages_with_kernel_args
args_complete node [] all pages small h = refl
args_complete node ((size, count) ∷ args) all pages small ((n, found, e), more) =
    let total = total_complete size node 0 all n pages (omega arith) found in
    let rest = args_complete node args all pages small more in
    ground (arith, eq_ℤ_iff (pos n) count)

-- For a node whose counts are numbers of pages, fewer than 2 ^ 63 in all, the comparison with the
-- kernel arguments passes exactly when, for each size in the arguments, every numa of the node
-- lists the size and the pages of the numas' first entries of it add up to the number in the
-- arguments, whatever pages of other sizes the node has.
pub test_node_hugepages_with_kernel_args_iff :
    (node : NumaHugePages) (args : Map ℤ ℤ) (all : ℕ)
    → HasPages node all
    → all < 2 ^ 63
    → (test_node_hugepages_with_kernel_args node args ≡ true) ↔ IsSatisfied node args
test_node_hugepages_with_kernel_args_iff node args all pages small =
    (args_sound node args all pages small, args_complete node args all pages small)
