-- ===== src/Pb/Wire.antt =====
-- The bytes of the wire format, described by plain arithmetic and apart from the code of knv/pb.c.
use mysql_proxy.Common.{
  ℕ, zero, suc, ◌+◌, ◌*◌, ◌/◌, ◌%◌, ◌^◌, ◌≤◌, ◌<◌, ◌≡◌, List, [], ◌∷◌, ◌++◌, ltb, if◌then◌else◌,
  take, length, arith, ◌==◌, Bool, ◌||◌, true, ◌⊎◌,
}
use mysql_proxy.Common.{◌∙◌}
use mysql_proxy.Common.Bits.{or_shifted}
use mysql_proxy.Pb.Types.{FieldVal, get_i32, le_bytes, tag_word}

-- The groups of seven bits of `v`, lowest first and marked but for the last, for `v` below
-- 128 ^ (k + 1).
unfoldable pub groups : ℕ → ℕ → List ℕ
groups zero v = v ∷ []
groups (suc k) v =
    let rest = groups k (v / 128) in if ltb v 128 then v ∷ [] else (v % 128 + 128) ∷ rest

-- A number of 64 bits.
unfoldable pub vint : ℕ → List ℕ
unfolding groups
vint v = groups 9 v

-- The wire types that a field can have.
unfoldable pub known_type : ℕ → Bool
known_type t = (t == 0) || (t == 1) || (t == 2) || (t == 5)

-- The bytes behind the tag of a field.
unfoldable pub payload : ℕ → FieldVal → List ℕ
payload t v =
    if t == 0
    then vint v.i64
    else if t == 1
    then le_bytes 8 v.i64
    else if t == 2
    then vint (get_i32 v) ++ take (get_i32 v) v.str_data
    else le_bytes 4 (get_i32 v)

-- A whole field.
unfoldable pub field_bytes : (tag type : ℕ) → FieldVal → List ℕ
field_bytes tag t v = vint (t + 8 * tag) ++ payload t v

pub length-groups : (k v : ℕ) → (1 ≤ length (groups k v)) × (length (groups k v) ≤ k + 1)
unfolding groups
length-groups zero v = omega arith
length-groups (suc k) v = ground (arith, length-groups k (v / 128))

pub length-le_bytes : (n v : ℕ) → length (le_bytes n v) ≡ n
unfolding le_bytes
length-le_bytes zero v = omega arith
length-le_bytes (suc n) v = omega (arith, length-le_bytes n (v / 256))

-- A field that the format can carry: a tag of 29 bits, a wire type of the format, a value of 64
-- bits, and for a string as many bytes at the pointer as its length says.
pub record IsSendable (tag t : ℕ) (val : FieldVal) : Type 0 where
  pub tag_small : tag < 2 ^ 29
  pub known : known_type t ≡ true
  pub value_small : val.i64 < 2 ^ 64
  pub inside : t ≡ 2 → get_i32 val ≤ length val.str_data

-- Two values that a field of wire type `t` does not tell apart.
unfoldable pub SameValue : ℕ → FieldVal → FieldVal → Type 0
SameValue t v w =
    if t == 2
    then (get_i32 v ≡ get_i32 w) × (take (get_i32 v) v.str_data ≡ take (get_i32 w) w.str_data)
    else if t == 5
    then (get_i32 v ≡ get_i32 w) × Unit {0}
    else (v.i64 ≡ w.i64) × Unit {0}

pub get_i32-lt : (val : FieldVal) → get_i32 val < 2 ^ 32
unfolding get_i32
get_i32-lt val = omega arith

pub known_type-lt : (t : ℕ) → known_type t ≡ true → t < 8
unfolding known_type
known_type-lt t h = ground arith

pub known_type-cases : (t : ℕ) → known_type t ≡ true → ((t ≡ 0) ⊎ (t ≡ 1)) ⊎ ((t ≡ 2) ⊎ (t ≡ 5))
unfolding known_type
known_type-cases t h = ground arith

pub tag_word_lem : (t tag : ℕ) → t < 8 → tag < 2 ^ 29 → tag_word t tag ≡ t + 8 * tag
unfolding tag_word
tag_word_lem t tag ht hg =
    let small : tag * 2 ^ 3 % 2 ^ 32 ≡ tag * 2 ^ 3 = omega arith in
    rw small (or_shifted 3 t tag ht ∙ omega arith)
