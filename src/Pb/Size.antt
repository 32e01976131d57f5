-- ===== src/Pb/Size.antt =====
-- The inline functions of knv/pb.h that say how long a field will be.
use mysql_proxy.Common.{
  ℕ, zero, suc, ◌+◌, ◌*◌, ◌/◌, ◌%◌, ◌^◌, ◌≤◌, ◌<◌, ◌≡◌, refl, ◌∙◌, ◌++◌, false, arith, ltb, ◌==◌,
  if◌then◌else◌, take, length, length-append, length-take_le, inl, inr, Bool-cases,
}
use mathlib.Core.Path.{subst, sym}
use mysql_proxy.Pb.Types.{get_i32, FieldVal, le_bytes, wt_varint, wt_fixed64, wt_fixed32, tag_word}
use mysql_proxy.Pb.Wire.{
  groups, vint, payload, field_bytes, length-le_bytes, IsSendable, get_i32-lt, known_type-cases,
  tag_word_lem,
}

-- The loop shifts a number of 64 bits to 0 in ten rounds.
vint_length_loop : ℕ → (value eval_length : ℕ) → ℕ
vint_length_loop zero value eval_length = eval_length
vint_length_loop (suc n) value eval_length =
    let rest = vint_length_loop n (value / 2 ^ 7) (eval_length + 1) in
    if value == 0 then eval_length else rest

pub pb_eval_vint_length : ℕ → ℕ
pb_eval_vint_length value = if value == 0 then 1 else vint_length_loop 10 value 0

pub pb_eval_tag_length : (wiretype field_number : ℕ) → ℕ
pb_eval_tag_length wiretype field_number = pb_eval_vint_length (tag_word wiretype field_number)

-- The sums with `str.len` are taken on 32 bits.
unfoldable pub pb_eval_field_length : (tag type : ℕ) → FieldVal → ℕ
pb_eval_field_length tag type val =
    if type == wt_varint
    then pb_eval_tag_length type tag + pb_eval_vint_length val.i64
    else if type == wt_fixed64
    then pb_eval_tag_length type tag + 8
    else if type == wt_fixed32
    then pb_eval_tag_length type tag + 4
    else (pb_eval_tag_length type tag + pb_eval_vint_length (get_i32 val) + get_i32 val) % 2 ^ 32

vint_length_loop-groups :
    (k v acc : ℕ)
    → 0 < v
    → v < 128 ^ suc k
    → vint_length_loop (suc k) v acc ≡ acc + length (groups k v)
unfolding vint_length_loop groups
vint_length_loop-groups zero v acc pos fits = ground arith
vint_length_loop-groups (suc k) v acc pos fits = elim (Bool-cases (ltb v 128)) [
  | inl small ↦
      let gone : v / 2 ^ 7 ≡ 0 = ground arith in
      let nz : (v == 0) ≡ false = ground arith in rw (small, nz) (rw gone (omega arith))
  | inr large ↦
      let nz : (v == 0) ≡ false = ground arith in
      rw (large, nz)
        (vint_length_loop-groups k (v / 128) (acc + 1) (ground arith) (omega arith) ∙ omega arith)
]

-- The length that is foretold for a number is that of its groups.
pb_eval_vint_length-vint : (v : ℕ) → v < 2 ^ 64 → pb_eval_vint_length v ≡ length (vint v)
unfolding pb_eval_vint_length vint
pb_eval_vint_length-vint zero h = unfold groups in refl
pb_eval_vint_length-vint (suc v) h =
    let nz : (suc v == 0) ≡ false = ground arith in
    rw nz (vint_length_loop-groups 9 (suc v) 0 (omega arith) (omega arith) ∙ omega arith)

pb_eval_tag_length-vint :
    (t tag : ℕ) → t < 8 → tag < 2 ^ 29 → pb_eval_tag_length t tag ≡ length (vint (t + 8 * tag))
unfolding pb_eval_tag_length
pb_eval_tag_length-vint t tag ht hg =
    rw (tag_word_lem t tag ht hg) (pb_eval_vint_length-vint (t + 8 * tag) (omega arith))

-- At a wire type `k`.
abbrev Foretold : (tag : ℕ) → FieldVal → ℕ → Type 0
Foretold tag val k =
    length (field_bytes tag k val) < 2 ^ 31
    → pb_eval_field_length tag k val ≡ length (field_bytes tag k val)

string-Foretold :
    (tag : ℕ) (val : FieldVal)
    → tag < 2 ^ 29
    → get_i32 val ≤ length val.str_data
    → Foretold tag val 2
unfolding pb_eval_field_length field_bytes payload
string-Foretold tag val small inside short =
    let n = get_i32 val in
    let bytes = take n val.str_data in
    let total : length (vint (2 + 8 * tag) ++ (vint n ++ bytes))
        ≡ length (vint (2 + 8 * tag)) + length (vint n) + n =
      omega (
        arith,
        length-append (vint (2 + 8 * tag)) (vint n ++ bytes),
        length-append (vint n) bytes,
        length-take_le n val.str_data inside,
      ) in
    rw
      (
        pb_eval_tag_length-vint 2 tag (omega arith) small,
        pb_eval_vint_length-vint n (omega (arith, get_i32-lt val)),
      )
      (omega (arith, total))

-- pb_eval_field_length is the number of bytes that the field takes on the wire, for every field
-- that the format can carry and that is shorter than 2 ^ 31 bytes.
pub pb_eval_field_length-field_bytes :
    (tag t : ℕ) (val : FieldVal)
    → IsSendable tag t val
    → length (field_bytes tag t val) < 2 ^ 31
    → pb_eval_field_length tag t val ≡ length (field_bytes tag t val)
unfolding pb_eval_field_length field_bytes payload
pb_eval_field_length-field_bytes tag t val s = elim (known_type-cases t s.known) [
  | inl (inl z) ↦ moved z λ short. omega (
    arith,
    pb_eval_tag_length-vint 0 tag (omega arith) s.tag_small,
    pb_eval_vint_length-vint val.i64 s.value_small,
    length-append (vint (0 + 8 * tag)) (vint val.i64),
  )
  | inl (inr z) ↦ moved z λ short. omega (
    arith,
    pb_eval_tag_length-vint 1 tag (omega arith) s.tag_small,
    length-le_bytes 8 val.i64,
    length-append (vint (1 + 8 * tag)) (le_bytes 8 val.i64),
  )
  | inr (inl z) ↦ moved z (string-Foretold tag val s.tag_small (s.inside z))
  | inr (inr z) ↦ moved z λ short. omega (
    arith,
    pb_eval_tag_length-vint 5 tag (omega arith) s.tag_small,
    length-le_bytes 4 (get_i32 val),
    length-append (vint (5 + 8 * tag)) (le_bytes 4 (get_i32 val)),
  )
]
  where
    moved : {k : ℕ} → t ≡ k → Foretold tag val k → Foretold tag val t
    moved z h = subst (Foretold tag val) (sym z) h
