-- ===== src/Pb/Reader/Decode.antt =====
-- What the reader makes of bytes in the wire format.
use mathlib.Core.Path.{subst}
use native.Mathlib.Nat.{div-add-mod, pow-suc}
use native.Mathlib.Numerals.{towards_suc}
use mysql_proxy.Common.{
  ℕ, zero, suc, ◌+◌, ◌-◌, ◌*◌, ◌/◌, ◌%◌, ◌^◌, ◌≤◌, ◌<◌, bit_and, ◌≡◌, refl, sym, ap, ◌∙◌, true,
  false, some, List, ◌∷◌, ◌++◌, inl, inr, arith, ltb, leb, ◌==◌, take, length, length-append,
  length-take_le, take-append_length, drop-append_length, Bool-cases, append_assoc,
}
use mysql_proxy.Common.Bits.{and_0x7f, or_shifted, and_0x80_low, and_0x80_high, and_seven}
use mysql_proxy.Pb.Types.{Run, ok, get_i32, set_i32, FieldVal, Field, le_bytes, read_le}
use mysql_proxy.Pb.Wire.{
  groups, vint, payload, field_bytes, length-le_bytes, IsSendable, SameValue, get_i32-lt,
  known_type-lt, known_type-cases,
}
use mysql_proxy.Pb.Reader.{
  take_byte, pb_get_byte, take_word, pb_get_dword, pb_get_ddword, or_group, varint_loop,
  pb_decode_varint, take_string, pb_decode_string, pb_decode_fixed32, pb_decode_fixed64,
  decode_by_type, tag_read, pb_decode_tag, pb_next,
}

-- `f` at other bytes.
abbrev pub at_bytes : Field → List ℕ → ℕ → Field
at_bytes f p n = record f { ptr = p; left = n }

pb_get_byte-cons :
    (f : Field) (b n : ℕ) (p : List ℕ)
    → pb_get_byte (at_bytes f (b ∷ p) (suc n)) ≡ ok b (at_bytes f p n)
unfolding pb_get_byte take_byte
pb_get_byte-cons f b n p =
    let some_left : ltb (suc n) 1 ≡ false = ground arith in
    let less : suc n - 1 ≡ n = omega arith in rw some_left (rw less)

or_group_lem :
    (r g bitpos : ℕ)
    → r < 2 ^ bitpos
    → g * 2 ^ bitpos < 2 ^ 64
    → (byte : ℕ) → byte % 128 ≡ g
    → or_group r byte bitpos ≡ r + g * 2 ^ bitpos
unfolding or_group
or_group_lem r g bitpos hr hg byte e =
    let small : g * 2 ^ bitpos % 2 ^ 64 ≡ g * 2 ^ bitpos = omega arith in
    rw (and_0x7f byte, e) (rw small (or_shifted bitpos r g hr))

next_place : (bitpos : ℕ) → 2 ^ (bitpos + 7) ≡ 2 ^ bitpos * 128
next_place bitpos = simp towards_suc (omega arith)

-- Seven bits at their place and the rest at the next place make up the number.
places : (bitpos n : ℕ) → n % 128 * 2 ^ bitpos + n / 128 * 2 ^ (bitpos + 7) ≡ n * 2 ^ bitpos
places bitpos n =
    rw (next_place bitpos) (omega (arith, ap (λ (k : ℕ). k * 2 ^ bitpos) (div-add-mod n 128)))

-- One round on a last byte, and on a byte with the continuation bit.
last_round :
    (n bitpos r w m : ℕ) (f : Field) (p : List ℕ)
    → bitpos < 64
    → r < 2 ^ bitpos
    → w < 128
    → w * 2 ^ bitpos < 2 ^ 64
    → varint_loop (suc n) bitpos r (at_bytes f (w ∷ p) (suc m))
      ≡ ok (r + w * 2 ^ bitpos) (at_bytes f p m)
unfolding varint_loop
last_round n bitpos r w m f p hb hr hw fits =
    let more : leb 64 bitpos ≡ false = ground arith in
    rw (more, pb_get_byte-cons f w m p, and_0x80_low w hw)
      (ap (λ t. ok t (at_bytes f p m)) (or_group_lem r w bitpos hr fits w (omega arith)))

inner_round :
    (n bitpos r g m : ℕ) (f : Field) (p : List ℕ)
    → bitpos < 64
    → r < 2 ^ bitpos
    → g < 128
    → g * 2 ^ bitpos < 2 ^ 64
    → varint_loop (suc n) bitpos r (at_bytes f ((g + 128) ∷ p) (suc m))
      ≡ varint_loop n (bitpos + 7) (r + g * 2 ^ bitpos) (at_bytes f p m)
unfolding varint_loop
inner_round n bitpos r g m f p hb hr hg fits =
    let more : leb 64 bitpos ≡ false = ground arith in
    let byte : (bitpos + 7) % 256 ≡ bitpos + 7 = omega arith in
    rw (more, pb_get_byte-cons f (g + 128) m p, and_0x80_high g hg, byte)
      (rw (or_group_lem r g bitpos hr fits (g + 128) (omega arith)))

below_next : (r g s : ℕ) → r < 2 ^ s → g < 128 → r + g * 2 ^ s < 2 ^ (s + 7)
below_next r g s hr hg = rw (next_place s) (grind (arith, scaled g (2 ^ s) hg))
  where
    scaled : (g p : ℕ) → g < 128 → g * p ≤ 127 * p
    scaled g p h = grind arith

varint_loop-groups :
    (k n bitpos r w m : ℕ) (f : Field) (rest : List ℕ)
    → w < 128 ^ suc k
    → bitpos + 7 * k < 64
    → r < 2 ^ bitpos
    → r + w * 2 ^ bitpos < 2 ^ 64
    → varint_loop (suc k + n) bitpos r (at_bytes f (groups k w ++ rest) (length (groups k w) + m))
      ≡ ok (r + w * 2 ^ bitpos) (at_bytes f rest m)
unfolding groups
varint_loop-groups zero n bitpos r w m f rest hw hb hr fits =
    let e : suc 0 + n ≡ suc n = omega arith in
    let l : suc 0 + m ≡ suc m = omega arith in
    rw (e, l) (last_round n bitpos r w m f rest (omega arith) hr (omega arith) (omega arith))
varint_loop-groups (suc k) n bitpos r w m f rest hw hb hr fits = elim (Bool-cases (ltb w 128)) [
  | inl small ↦
      let e : suc (suc k) + n ≡ suc (suc k + n) = omega arith in
      let l : suc 0 + m ≡ suc m = omega arith in
      rw (small, e, l)
        (last_round (suc k + n) bitpos r w m f rest (omega arith) hr (ground arith) (omega arith))
  | inr large ↦
      let e : suc (suc k) + n ≡ suc (suc k + n) = omega arith in
      let l : suc (length (groups k (w / 128))) + m ≡ suc (length (groups k (w / 128)) + m) =
        omega arith in
      let s = places bitpos w in
      let low : w % 128 * 2 ^ bitpos < 2 ^ 64 = omega arith in
      let step =
        inner_round (suc k + n) bitpos r (w % 128) (length (groups k (w / 128)) + m) f
          (groups k (w / 128) ++ rest) (omega arith) hr (omega arith) low in
      let next =
        varint_loop-groups k n (bitpos + 7) (r + w % 128 * 2 ^ bitpos) (w / 128) m f rest
          (omega arith) (omega arith) (below_next r (w % 128) bitpos hr (omega arith))
          (omega arith) in
      let total : r + w % 128 * 2 ^ bitpos + w / 128 * 2 ^ (bitpos + 7) ≡ r + w * 2 ^ bitpos =
        omega arith in
      rw (large, e, l) (step ∙ next ∙ ap (λ t. ok t (at_bytes f rest m)) total)
]

-- pb_decode_varint reads back a number of 64 bits and leaves what follows it.
pb_decode_varint-vint :
    (f : Field) (v m : ℕ) (rest : List ℕ)
    → v < 2 ^ 64
    → pb_decode_varint (at_bytes f (vint v ++ rest) (length (vint v) + m))
      ≡ ok tt (record f { val = record (f.val) { i64 = v }; ptr = rest; left = m })
unfolding pb_decode_varint vint
pb_decode_varint-vint f v m rest h =
    let zero_shift : 0 + v * 2 ^ 0 ≡ v = omega arith in
    rw
      (varint_loop-groups 9 1 0 0 v m f rest (omega arith) (omega arith) (omega arith)
        (omega arith))
      (rw zero_shift)

read_le-le_bytes :
    (n v : ℕ) (rest : List ℕ) → v < 256 ^ n → read_le n (le_bytes n v ++ rest) ≡ some v
unfolding read_le le_bytes
read_le-le_bytes zero v rest h = ap some (omega arith)
read_le-le_bytes (suc n) v rest h =
    rw (read_le-le_bytes n (v / 256) rest (quotient n v h)) (ap some (omega arith))
  where
    quotient : (n v : ℕ) → v < 256 ^ suc n → v / 256 < 256 ^ n
    quotient n v h = omega (arith, pow-suc 256 n)

take_word_lem :
    (f : Field) (n v m : ℕ) (rest : List ℕ)
    → v < 256 ^ n
    → take_word n (at_bytes f (le_bytes n v ++ rest) (n + m)) (read_le n (le_bytes n v ++ rest))
      ≡ ok v (at_bytes f rest m)
unfolding take_word
take_word_lem f n v m rest h =
    let l : n + m - n ≡ m = omega arith in
    rw (read_le-le_bytes n v rest h)
      (rw (drop-append_length n (le_bytes n v) rest (length-le_bytes n v), l))

pb_get_dword-le_bytes :
    (f : Field) (v m : ℕ) (rest : List ℕ)
    → v < 2 ^ 32
    → pb_get_dword true (at_bytes f (le_bytes 4 v ++ rest) (4 + m)) ≡ ok v (at_bytes f rest m)
unfolding pb_get_dword
pb_get_dword-le_bytes f v m rest h =
    let room : ltb (4 + m) 4 ≡ false = ground arith in rw room (take_word_lem f 4 v m rest h)

pb_get_ddword-le_bytes :
    (f : Field) (v m : ℕ) (rest : List ℕ)
    → v < 2 ^ 64
    → pb_get_ddword true (at_bytes f (le_bytes 8 v ++ rest) (8 + m)) ≡ ok v (at_bytes f rest m)
unfolding pb_get_ddword
pb_get_ddword-le_bytes f v m rest h =
    let room : ltb (8 + m) 8 ≡ false = ground arith in rw room (take_word_lem f 8 v m rest h)

-- A string behind its length.
pb_decode_string-vint :
    (f : Field) (n m : ℕ) (bytes rest : List ℕ)
    → n < 2 ^ 32
    → length bytes ≡ n
    → pb_decode_string (at_bytes f (vint n ++ (bytes ++ rest)) (length (vint n) + (n + m)))
      ≡ ok tt
          (record f { val = record { i64 = n; str_data = bytes ++ rest }; ptr = rest; left = m })
unfolding pb_decode_string take_string set_i32
pb_decode_string-vint f n m bytes rest h e =
    let room : ltb (n + m) n ≡ false = ground arith in
    let sz : n % 2 ^ 32 ≡ n = omega arith in
    let low : n / 2 ^ 32 * 2 ^ 32 + n ≡ n = omega arith in
    let l : n + m - n ≡ m = omega arith in
    rw (pb_decode_varint-vint f n (n + m) (bytes ++ rest) (omega arith), room)
      (rw sz (rw (sz, low, l, drop-append_length n bytes rest e)))

-- A field at the bytes of a payload of its type, with the value that is read from them.
record Decoded (f : Field) (t m : ℕ) (val : FieldVal) (rest : List ℕ) (run : Run Field (Unit {0}))
    : Type 0 where
  got : FieldVal
  same : SameValue t val got
  word : f.val.i64 < 2 ^ 64 → got.i64 < 2 ^ 64
  result : run ≡ ok tt (record f { val = got; ptr = rest; left = m })

string_same :
    (val : FieldVal) (rest : List ℕ)
    → length (take (get_i32 val) val.str_data) ≡ get_i32 val
    → SameValue 2 val
        (record { i64 = get_i32 val; str_data = take (get_i32 val) val.str_data ++ rest })
unfolding SameValue get_i32
string_same val rest long =
    let n = val.i64 % 2 ^ 32 in
    let word : n % 2 ^ 32 ≡ n = omega arith in
    (sym word, rw word (sym (take-append_length n (take n val.str_data) rest long)))

module _ (f : Field) (m : ℕ) (rest : List ℕ) (val : FieldVal) (small : val.i64 < 2 ^ 64) where
  Decoded-varint :
      Decoded f 0 m val rest
        (pb_decode_varint (at_bytes f (vint val.i64 ++ rest) (length (vint val.i64) + m)))
  unfolding SameValue
  Decoded-varint = record {
    got = record (f.val) { i64 = val.i64 };
    same = (refl, tt);
    word = λ _. small;
    result = pb_decode_varint-vint f val.i64 m rest small;
  }

  Decoded-fixed64 :
      Decoded f 1 m val rest (pb_decode_fixed64 (at_bytes f (le_bytes 8 val.i64 ++ rest) (8 + m)))
  unfolding SameValue pb_decode_fixed64
  Decoded-fixed64 = record {
    got = record (f.val) { i64 = val.i64 };
    same = (refl, tt);
    word = λ _. small;
    result = rw (pb_get_ddword-le_bytes f val.i64 m rest small);
  }

  -- The upper half of `i64` stays what the tag word left there.
  Decoded-fixed32 :
      Decoded f 5 m val rest
        (pb_decode_fixed32 (at_bytes f (le_bytes 4 (get_i32 val) ++ rest) (4 + m)))
  unfolding SameValue pb_decode_fixed32 get_i32 set_i32
  Decoded-fixed32 = record {
    got = set_i32 f.val (get_i32 val);
    same = (omega arith, tt);
    word = λ h. omega (arith, h);
    result = rw (pb_get_dword-le_bytes f (get_i32 val) m rest (omega arith));
  }

  Decoded-string :
      get_i32 val ≤ length val.str_data
      → Decoded f 2 m val rest (
          pb_decode_string (
            at_bytes f
              ((vint (get_i32 val) ++ take (get_i32 val) val.str_data) ++ rest)
              (length (vint (get_i32 val) ++ take (get_i32 val) val.str_data) + m)))
  Decoded-string inside =
      let n = get_i32 val in
      let bytes = take n val.str_data in
      let long = length-take_le n val.str_data inside in
      let l : length (vint n ++ bytes) + m ≡ length (vint n) + (n + m) =
        omega (arith, length-append (vint n) bytes) in
      record {
        got = record { i64 = n; str_data = bytes ++ rest };
        same = string_same val rest long;
        word = λ _. omega (arith, get_i32-lt val);
        result =
            rw (append_assoc (vint n) bytes rest, l)
              (pb_decode_string-vint f n m bytes rest (get_i32-lt val) long);
      }

-- The payload of a field of type `t`, read as that type.
abbrev ReadsPayload : Field → FieldVal → (m : ℕ) → List ℕ → ℕ → Type 0
ReadsPayload f val m rest t =
    Decoded (record f { type = t }) t m val rest
      (decode_by_type
        (at_bytes (record f { type = t }) (payload t val ++ rest) (length (payload t val) + m)))

decode_by_type-Decoded :
    (f : Field) (tag t m : ℕ) (val : FieldVal) (rest : List ℕ)
    → IsSendable tag t val
    → ReadsPayload f val m rest t
unfolding decode_by_type payload
decode_by_type-Decoded f tag t m val rest s = elim (known_type-cases t s.known) [
  | inl (inl z) ↦ moved z (Decoded-varint (at_type 0) m rest val s.value_small)
  | inl (inr z) ↦
      moved z
        (rw (length-le_bytes 8 val.i64) (Decoded-fixed64 (at_type 1) m rest val s.value_small))
  | inr (inl z) ↦ moved z (Decoded-string (at_type 2) m rest val s.value_small (s.inside z))
  | inr (inr z) ↦
      moved z (
        rw (length-le_bytes 4 (get_i32 val)) (Decoded-fixed32 (at_type 5) m rest val s.value_small))
]
  where
    at_type : ℕ → Field
    at_type k = record f { type = k }

    moved : {k : ℕ} → t ≡ k → ReadsPayload f val m rest k → ReadsPayload f val m rest t
    moved z h = subst (λ k. ReadsPayload f val m rest k) (sym z) h

-- The tag word gives back the tag and the type.
tag_read-Decoded :
    (f : Field) (tag t m : ℕ) (val : FieldVal) (rest : List ℕ)
    → IsSendable tag t val
    → 0 < tag
    → let g = record f { val = record (f.val) { i64 = t + 8 * tag } } in
      Decoded
        (record g { tag = tag; type = t })
        t
        m
        val
        rest
        (tag_read (at_bytes g (payload t val ++ rest) (length (payload t val) + m)))
unfolding tag_read get_i32
tag_read-Decoded f tag t m val rest s pos =
    let below = known_type-lt t s.known in
    let nonzero : (t + 8 * tag == 0) ≡ false = ground arith in
    let number : (t + 8 * tag) / 8 % 2 ^ 32 ≡ tag = omega (arith, s.tag_small) in
    let kind : bit_and ((t + 8 * tag) % 2 ^ 32) 7 ≡ t = and_seven _ ∙ omega (arith, s.tag_small) in
    let g = record f { tag = tag; val = record (f.val) { i64 = t + 8 * tag } } in
    rw (nonzero, number, kind) (decode_by_type-Decoded g tag t m val rest s)

-- pb_next at the bytes of a field finds the field, and the rest of the message stands behind it.
pub record Found (f : Field) (tag t m : ℕ) (val : FieldVal) (rest : List ℕ)
    (run : Run Field (Unit {0})) : Type 0 where
  pub got : FieldVal
  pub same : SameValue t val got
  pub word : got.i64 < 2 ^ 64
  pub result : run ≡ ok tt (record f { tag = tag; type = t; val = got; ptr = rest; left = m })

-- At the bytes of a field of the format with a nonzero tag, pb_next succeeds with the tag, the wire
-- type and the value of the field, and the rest of the message stands at the pointer.
pub pb_next-field_bytes :
    (f : Field) (tag t m : ℕ) (val : FieldVal) (rest : List ℕ)
    → IsSendable tag t val
    → 0 < tag
    → Found f tag t m val rest (
        pb_next (record f {
          ptr = field_bytes tag t val ++ rest;
          left = length (field_bytes tag t val) + m;
        }))
unfolding pb_next pb_decode_tag field_bytes
pb_next-field_bytes f tag t m val rest s pos =
    let word = t + 8 * tag in
    let p = payload t val in
    let l : length (vint word ++ p) + m ≡ length (vint word) + (length p + m) =
      omega (arith, length-append (vint word) p) in
    let small : word < 2 ^ 64 = omega (arith, s.tag_small, known_type-lt t s.known) in
    let d = tag_read-Decoded f tag t m val rest s pos in
    record {
      got = d.got;
      same = d.same;
      word = d.word small;
      result =
          rw (append_assoc (vint word) p rest, l)
            (rw (pb_decode_varint-vint f word (length p + m) (p ++ rest) small) d.result);
    }
