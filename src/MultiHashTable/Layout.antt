-- ===== src/MultiHashTable/Layout.antt =====
-- How ht/multi_hash_table.cc divides the nodes among the rows: MaxPrime and CalcNodeNumForEachRow,
-- and the sizes of ht/multi_hash_table.h.
use mysql_proxy.Common.{
  ℕ, zero, suc, ◌+◌, ◌-◌, ◌*◌, ◌/◌, ◌%◌, ◌^◌, Bool, true, false, ◌&&◌, List, [], ◌∷◌, ltb, leb,
  ◌==◌, if◌then◌else◌, ◌≡◌, refl,
}

-- `ceil(sqrt(n))`, without the rounding of a double: the first `s` with `n <= s * s`.
ceil_from : (rounds s n : ℕ) → ℕ
ceil_from zero s n = s
ceil_from (suc rounds) s n =
    let rest = ceil_from rounds (s + 1) n in if leb n (s * s) then s else rest

-- No `k` of that many divides `n`.
no_divisor : (rounds k n : ℕ) → Bool
no_divisor zero k n = true
no_divisor (suc rounds) k n =
    let rest = no_divisor rounds (k + 1) n in if n % k == 0 then false else rest

-- The loop over `k` ends at `sqr + 1`: it does not break, and `sqr` is 1 or more.
is_taken : ℕ → Bool
is_taken n = let sqr = ceil_from n 0 n in ltb 0 sqr && no_divisor (sqr - 1) 2 n

max_prime : ℕ → ℕ
max_prime zero = 0
max_prime (suc n) = let rest = max_prime n in if is_taken n then n else rest

-- The number of nodes and the first node of each of the rows from the fourth on.
spread : (rows j start : ℕ) → List (ℕ × ℕ)
spread zero j start = []
spread (suc rows) j start = let n = max_prime j in (n, start) ∷ spread rows n (start + n)

-- A row that takes all that is left if it is the last, and a part of it if not.
abbrev row_part : (is_last : Bool) (left percent : ℕ) → ℕ
row_part is_last left percent = max_prime (if is_last then left else left * percent % 2 ^ 64 / 100)

-- CalcNodeNumForEachRow: the number of nodes and the first node of each row.
calc_node_num_for_each_row : (row_num max_node_num : ℕ) → List (ℕ × ℕ)
calc_node_num_for_each_row row_num max_node_num =
    let n = row_part (row_num == 1) max_node_num 70 in
    let left = max_node_num - n in
    let n' = row_part (row_num == 2) left 10 in
    let left' = left - n' in
    let n'' = row_part (row_num == 3) left' 5 in
    let left'' = left' - n'' in
    let more = spread (row_num - 3) (left'' / (row_num - 3)) (n + n' + n'') in
    if row_num == 1
    then (n, 0) ∷ []
    else if row_num == 2
    then (n, 0) ∷ (n', n) ∷ []
    else (n, 0) ∷ (n', n) ∷ (n'', n + n') ∷ more

-- EvaluateHashNodeNum and NodeNumRatio2MemSizeRatio, on 64 bits.
evaluate_hash_node_num : (mem_size node_size mem_ratio : ℕ) → ℕ
evaluate_hash_node_num mem_size node_size mem_ratio =
    (mem_size - mem_size * 100 % 2 ^ 64 / ((100 + mem_ratio) % 2 ^ 64)) / node_size

node_num_ratio_to_mem_size_ratio : (node_size block_size index_ratio : ℕ) → ℕ
node_num_ratio_to_mem_size_ratio node_size block_size index_ratio =
    index_ratio * node_size % 2 ^ 64 / block_size

-- Below 3 the greatest prime is 2, but what is returned is 1.
max_prime_three : max_prime 3 ≡ 1
unfolding max_prime is_taken ceil_from no_divisor
max_prime_three = refl

max_prime_twenty : max_prime 20 ≡ 19
unfolding max_prime is_taken ceil_from no_divisor
max_prime_twenty = refl

-- A hundred nodes in four rows: the third row has none.
four_rows : calc_node_num_for_each_row 4 100 ≡ (67, 0) ∷ (1, 67) ∷ (0, 68) ∷ (31, 68) ∷ []
unfolding calc_node_num_for_each_row spread max_prime is_taken ceil_from no_divisor
four_rows = refl

ratio_four : node_num_ratio_to_mem_size_ratio 24 128 50 ≡ 9
unfolding node_num_ratio_to_mem_size_ratio
ratio_four = refl

node_num_hundred : evaluate_hash_node_num 1000 24 25 ≡ 8
unfolding evaluate_hash_node_num
node_num_hundred = refl
