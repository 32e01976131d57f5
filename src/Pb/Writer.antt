-- ===== src/Pb/Writer.antt =====
-- The functions of knv/pb.c that write a message.
pub mod Encode
use mysql_proxy.Common.{
  ℕ, zero, suc, ◌+◌, ◌-◌, ◌*◌, ◌/◌, ◌%◌, ◌^◌, bit_and, bit_or, Bool, true, false, Option, none,
  some, List, [], ◌∷◌, ◌++◌, ltb, ◌==◌, if◌then◌else◌, take, length,
}
use mysql_proxy.Pb.Types.{
  ErrorText, invalid_wire_type, buf_overflow, Run, ok, err, fault, or_return, wt_varint, wt_fixed64,
  wt_string, wt_fixed32, get_i32, FieldVal, Field, Buff, le_bytes, tag_word,
}

abbrev pub Written : Type 0
Written = Run Buff (Unit {0})

-- PB_RETURN_ERROR
abbrev return_error : Buff → ℕ → ErrorText → Written
return_error b n msg = err n (record b { errmsg = some msg })

-- pb_init_buff leaves `errmsg` as it is.
unfoldable pub pb_init_buff : Buff → ℕ → Buff
pb_init_buff b sz = record b { size = sz; written = []; left = sz }

-- pb_add of the bytes `buf[0 .. count)`.
pub pb_add : Buff → List ℕ → Written
pb_add b bytes =
    if ltb b.left (length bytes)
    then return_error b 1 buf_overflow
    else ok tt (record b { written = b.written ++ bytes; left = b.left - length bytes })

pub pb_add_user : Buff → List ℕ → Written
pb_add_user b bytes = pb_add b bytes

pb_add_dword : Buff → ℕ → Written
pb_add_dword b v =
    if ltb b.left 4
    then return_error b 1 buf_overflow
    else ok tt (record b { written = b.written ++ le_bytes 4 v; left = b.left - 4 })

pb_add_ddword : Buff → ℕ → Written
pb_add_ddword b v =
    if ltb b.left 8
    then return_error b 1 buf_overflow
    else ok tt (record b { written = b.written ++ le_bytes 8 v; left = b.left - 8 })

-- The loop of pb_add_vint, with what is left of `buffer[10]`: `none` is a write behind it.
vint_loop : ℕ → ℕ → Option (List ℕ)
vint_loop zero v = if v == 0 then some [] else none
vint_loop (suc room) v =
    let rest = vint_loop room (v / 2 ^ 7) in
    if v == 0 then some [] else elim rest [
      | none ↦ none
      | some bytes ↦ some ((bit_or (bit_and v 0x7f) 0x80 % 256) ∷ bytes)
    ]

-- `buffer[i-1] &= 0x7F`
unset_last : List ℕ → List ℕ
unset_last [] = []
unset_last (b ∷ []) = bit_and b 0x7f ∷ []
unset_last (b ∷ c ∷ rest) = b ∷ unset_last (c ∷ rest)

add_buffer : Buff → Option (List ℕ) → Written
add_buffer b none = fault
add_buffer b (some bytes) = pb_add b (unset_last bytes)

pub pb_add_vint : Buff → ℕ → Written
pb_add_vint b v = if v == 0 then pb_add b (0 ∷ []) else add_buffer b (vint_loop 10 v)

pub pb_add_tag : Buff → (wiretype field_number : ℕ) → Written
pb_add_tag b wiretype field_number = pb_add_vint b (tag_word wiretype field_number)

-- pb_add of the `len` bytes at a pointer.
add_at : Buff → List ℕ → ℕ → Written
add_at b p len =
    if ltb b.left len
    then return_error b 1 buf_overflow
    else if ltb (length p) len
    then fault
    else pb_add b (take len p)

-- The `switch` of pb_add_field_val.
add_payload : Buff → (type : ℕ) → FieldVal → Written
add_payload b type val =
    if type == wt_varint
    then pb_add_vint b val.i64
    else if type == wt_fixed64
    then pb_add_ddword b val.i64
    else if type == wt_string
    then or_return 2 (pb_add_vint b (get_i32 val)) (λ _ b'. add_at b' val.str_data (get_i32 val))
    else if type == wt_fixed32
    then pb_add_dword b (get_i32 val)
    else return_error b 2 invalid_wire_type

pub pb_add_field_val : Buff → (tag type : ℕ) → FieldVal → Written
pb_add_field_val b tag type val =
    or_return 1 (pb_add_tag b type tag) λ _ b'. add_payload b' type val

pub pb_add_field : Buff → Field → Written
pb_add_field b f = pb_add_field_val b f.tag f.type f.val

pub pb_add_varint : Buff → (tag value : ℕ) → Written
pb_add_varint b tag value = or_return 1 (pb_add_tag b wt_varint tag) λ _ b'. pb_add_vint b' value

-- The buffer's `size` bytes are the list.
pub pb_add_string : Buff → (tag : ℕ) → List ℕ → Written
pb_add_string b tag buffer =
    or_return 1 (pb_add_tag b wt_string tag)
      λ _ b'. or_return 2 (pb_add_vint b' (length buffer)) λ _ b''. pb_add b'' buffer

pub pb_add_string_head : Buff → (tag size : ℕ) → Written
pb_add_string_head b tag size = or_return 1 (pb_add_tag b wt_string tag) λ _ b'. pb_add_vint b' size

pub pb_add_fixed32 : Buff → (tag value : ℕ) → Written
pb_add_fixed32 b tag value = or_return 1 (pb_add_tag b wt_fixed32 tag) λ _ b'. pb_add_dword b' value

pub pb_add_fixed64 : Buff → (tag value : ℕ) → Written
pb_add_fixed64 b tag value =
    or_return 1 (pb_add_tag b wt_fixed64 tag) λ _ b'. pb_add_ddword b' value

pub pb_get_encoded_length : Buff → ℕ
pb_get_encoded_length b = b.size - b.left
