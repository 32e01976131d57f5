-- ===== src/MemPool/Magic.antt =====
-- The sizes of the pools and get_magic of knv/mem_pool.cc.
use mysql_proxy.Common.{
  ℕ, zero, suc, ◌+◌, ◌-◌, ◌/◌, ◌≤◌, ◌<◌, ◌≡◌, inl, inr, Option, none, some, List, [], ◌∷◌, arith,
  true, ltb, leb, ◌==◌, if◌then◌else◌, get_or, Bool-cases, ltb→lt,
}

abbrev magics : List ℕ
magics = 64 ∷ 256 ∷ 1024 ∷ 4096 ∷ 16384 ∷ 65536 ∷ 262144 ∷ 1048576 ∷ 4194304 ∷ []

unfoldable pub magic_size : ℕ → ℕ
magic_size k = get_or magics k 0

abbrev pub nr_magics : ℕ
nr_magics = 9

abbrev pub biggest_magic : ℕ
biggest_magic = 4194304

-- The binary search, between `low` and `high`. A round brings them closer to one another.
unfoldable pub search_magic : (rounds : ℕ) → (i low high : ℕ) → Option ℕ
search_magic zero i low high = none
search_magic (suc rounds) i low high =
    let mid = (low + high) / 2 in
    let up = search_magic rounds i (if ltb low mid then mid else low + 1) high in
    let down = search_magic rounds i low (if ltb mid high then mid else high - 1) in
    if ltb low high
    then (if i == magic_size mid then some mid else if ltb (magic_size mid) i then up else down)
    else some low

-- `none` in place of -1, for a size that no pool has.
unfoldable pub get_magic : ℕ → Option ℕ
get_magic i = if leb i biggest_magic then search_magic nr_magics i 0 (nr_magics - 1) else none

magic_size_lt : (k : ℕ) → suc k < 9 → magic_size k < magic_size (suc k)
unfolding magic_size
magic_size_lt zero h = omega arith
magic_size_lt (suc zero) h = omega arith
magic_size_lt (suc (suc zero)) h = omega arith
magic_size_lt (suc (suc (suc zero))) h = omega arith
magic_size_lt (suc (suc (suc (suc zero)))) h = omega arith
magic_size_lt (suc (suc (suc (suc (suc zero))))) h = omega arith
magic_size_lt (suc (suc (suc (suc (suc (suc zero)))))) h = omega arith
magic_size_lt (suc (suc (suc (suc (suc (suc (suc zero))))))) h = omega arith
magic_size_lt (suc (suc (suc (suc (suc (suc (suc (suc k)))))))) h = absurd (omega arith)

-- The class below `k`, if there is one, is too small for `i`.
abbrev pub TooSmall : (k i : ℕ) → Type 0
TooSmall zero i = Unit
TooSmall (suc k) i = magic_size k < i

-- The smallest class that holds `i` bytes.
abbrev pub Fits : (i : ℕ) → Option ℕ → Type 0
Fits i none = ⊥
Fits i (some k) = (k < nr_magics) × (i ≤ magic_size k) × TooSmall k i

TooSmall-of : (k i : ℕ) → k < 9 → i ≡ magic_size k → TooSmall k i
TooSmall-of zero i h e = tt
TooSmall-of (suc k) i h e = omega (arith, magic_size_lt k h)

TooSmall-below : (k i : ℕ) → k < 9 → magic_size k < i → TooSmall k i
TooSmall-below zero i h e = tt
TooSmall-below (suc k) i h e = omega (arith, magic_size_lt k h)

-- A round that goes up keeps what is known of `low`.
TooSmall-up :
    (i low mid : ℕ)
    → low ≤ mid
    → mid < 9
    → magic_size mid < i
    → TooSmall (if ltb low mid then mid else low + 1) i
TooSmall-up i low mid ordered inside small = elim (Bool-cases (ltb low mid)) [
  | inl e ↦ rw e (TooSmall-below mid i inside small)
  | inr e ↦
      let same : mid ≡ low = ground arith in
      let next : low + 1 ≡ suc low = omega arith in rw (e, next) (rw same at small)
]

search_magic-Fits :
    (rounds i low high : ℕ)
    → low ≤ high
    → high < nr_magics
    → high < low + rounds
    → i ≤ magic_size high
    → TooSmall low i
    → Fits i (search_magic rounds i low high)
unfolding search_magic
search_magic-Fits zero i low high ordered inside room large small = absurd (omega arith)
search_magic-Fits (suc rounds) i low high ordered inside room large small =
    let mid = (low + high) / 2 in
    elim (Bool-cases (ltb low high)) [
      | inr done ↦
          let same : high ≡ low = ground arith in rw done (omega arith, rw same at large, small)
      | inl more ↦ elim (Bool-cases (i == magic_size mid)) [
        | inl hit ↦
            let here : i ≡ magic_size mid = ground arith in
            rw (more, hit) (ground arith, omega arith, TooSmall-of mid i (ground arith) here)
        | inr miss ↦ elim (Bool-cases (ltb (magic_size mid) i)) [
          | inl up ↦
              rw (more, miss, up)
                (search_magic-Fits rounds i (if ltb low mid then mid else low + 1) high
                  (ground arith) inside (ground arith) large
                  (TooSmall-up i low mid (ground arith) (ground arith) (ltb→lt _ _ up)))
          | inr down ↦
              let inner : ltb mid high ≡ true = ground arith in
              rw (more, miss, down, inner)
                (search_magic-Fits rounds i low mid (ground arith) (ground arith) (ground arith)
                  (ground arith) small)
        ]
      ]
    ]

-- For every size that a pool has, get_magic ends within its nine rounds, and returns the smallest
-- class whose buffers hold so many bytes.
pub get_magic-Fits : (i : ℕ) → i ≤ biggest_magic → Fits i (get_magic i)
unfolding get_magic
get_magic-Fits i h =
    let e : leb i biggest_magic ≡ true = ground arith in
    let top : i ≤ magic_size 8 = unfold magic_size in h in
    rw e (search_magic-Fits nr_magics i 0 8 (omega arith) (omega arith) (omega arith) top tt)
