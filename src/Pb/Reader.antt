-- ===== src/Pb/Reader.antt =====
-- The functions of knv/pb.c that read a message.
pub mod Decode
pub mod Safety
pub mod Ends
use mysql_proxy.Common.{
  ℕ, zero, suc, ◌+◌, ◌-◌, ◌*◌, ◌/◌, ◌%◌, ◌^◌, bit_and, bit_or, Bool, true, false, Option, none,
  some, List, [], ◌∷◌, ltb, leb, ◌==◌, if◌then◌else◌, drop,
}
use mysql_proxy.Pb.Types.{
  ErrorText, end_of_buffer, varint_overflow, string_overflow, zero_terminated_msg,
  invalid_wire_type, delimited_overflow, Run, ok, err, fault, stuck, or_return, and_then, or_stop,
  or_else, wt_varint, wt_fixed64, wt_string, wt_fixed32, get_i32, set_i32, Field, read_le,
}

-- PB_RETURN_ERROR
abbrev pub return_error : {A : Type 0} → Field → ℕ → ErrorText → Run Field A
return_error f n msg = err n (record f { errmsg = some msg })

-- With `buf == NULL`, as in every call.
pb_get_null : Field → ℕ → Run Field (Unit {0})
pb_get_null f count =
    if ltb f.left count
    then return_error f 1 end_of_buffer
    else ok tt (record f { ptr = drop count f.ptr; left = f.left - count })

take_byte : Field → List ℕ → Run Field ℕ
take_byte f [] = fault
take_byte f (b ∷ p) = ok b (record f { ptr = p; left = f.left - 1 })

pb_get_byte : Field → Run Field ℕ
pb_get_byte f = if ltb f.left 1 then return_error f 1 end_of_buffer else take_byte f f.ptr

take_word : ℕ → Field → Option ℕ → Run Field ℕ
take_word n f none = fault
take_word n f (some v) = ok v (record f { ptr = drop n f.ptr; left = f.left - n })

-- With `buf == NULL` (`want` is false) nothing is read and the pointer moves on.
pb_get_dword : Bool → Field → Run Field ℕ
pb_get_dword want f =
    if ltb f.left 4
    then return_error f 1 end_of_buffer
    else take_word 4 f (if want then read_le 4 f.ptr else some 0)

pb_get_ddword : Bool → Field → Run Field ℕ
pb_get_ddword want f =
    if ltb f.left 8
    then return_error f 1 end_of_buffer
    else take_word 8 f (if want then read_le 8 f.ptr else some 0)

-- `result |= (uint64_t)(byte & 0x7F) << bitpos`
or_group : ℕ → ℕ → ℕ → ℕ
or_group result byte bitpos = bit_or result (bit_and byte 0x7f * 2 ^ bitpos % 2 ^ 64)

-- The `do` loop of pb_decode_varint. `bitpos` grows by 7 and stops the loop at 64, so the eleventh
-- round is the last.
varint_loop : ℕ → (bitpos result : ℕ) → Field → Run Field ℕ
varint_loop zero bitpos result f = stuck
varint_loop (suc n) bitpos result f =
    let round = or_return 2 (pb_get_byte f) λ byte f'.
      let result' = or_group result byte bitpos in
      let rest = varint_loop n ((bitpos + 7) % 256) result' f' in
      if bit_and byte 0x80 == 0 then ok result' f' else rest in
    if leb 64 bitpos then return_error f 1 varint_overflow else round

pb_decode_varint : Field → Run Field (Unit {0})
pb_decode_varint f =
    and_then (varint_loop 11 0 0 f)
      λ result f'. ok tt (record f' { val = record (f'.val) { i64 = result } })

pb_decode_fixed32 : Field → Run Field (Unit {0})
pb_decode_fixed32 f =
    and_then (pb_get_dword true f) λ v f'. ok tt (record f' { val = set_i32 f'.val v })

pb_decode_fixed64 : Field → Run Field (Unit {0})
pb_decode_fixed64 f =
    and_then (pb_get_ddword true f) λ v f'. ok tt (record f' { val = record (f'.val) { i64 = v } })

-- Behind the length: `sz` is a uint32_t, and `str.len` and `str.data` are set.
take_string : Field → Run Field (Unit {0})
take_string f =
    if ltb f.left f.val.i64
    then return_error f 2 string_overflow
    else (let sz = f.val.i64 % 2 ^ 32 in
        ok tt (record f {
          val = record (set_i32 f.val sz) { str_data = f.ptr };
          ptr = drop sz f.ptr;
          left = f.left - sz;
        }))

pb_decode_string : Field → Run Field (Unit {0})
pb_decode_string f = or_return 1 (pb_decode_varint f) λ _ f'. take_string f'

-- `pb_get_byte` fails at the end of the buffer, and the function still returns 0. A round takes a
-- byte, so `left + 1` rounds are enough.
skip_varint_loop : ℕ → Field → Run Field (Unit {0})
skip_varint_loop zero f = stuck
skip_varint_loop (suc n) f =
    or_stop (pb_get_byte f) λ byte f'.
      let rest = skip_varint_loop n f' in if bit_and byte 0x80 == 0 then ok tt f' else rest

pb_skip_varint : Field → Run Field (Unit {0})
pb_skip_varint f = skip_varint_loop (f.left + 1) f

pb_skip_string : Field → Run Field (Unit {0})
pb_skip_string f = or_return 1 (pb_decode_varint f) λ _ f'. pb_get_null f' (get_i32 f'.val)

-- The `switch` at the end of pb_decode_tag.
decode_by_type : Field → Run Field (Unit {0})
decode_by_type f =
    if f.type == wt_varint
    then pb_decode_varint f
    else if f.type == wt_fixed64
    then pb_decode_fixed64 f
    else if f.type == wt_string
    then pb_decode_string f
    else if f.type == wt_fixed32
    then pb_decode_fixed32 f
    else return_error f 3 invalid_wire_type

-- pb_decode_tag once the tag word is in `val`.
tag_read : Field → Run Field (Unit {0})
tag_read f =
    if f.val.i64 == 0
    then return_error (record f { eom = 1 }) 2 zero_terminated_msg
    else decode_by_type
        (record f { tag = f.val.i64 / 8 % 2 ^ 32; type = bit_and (get_i32 f.val) 7 })

-- pb_decode_tag where the tag word cannot be read.
tag_missing : Field → Run Field (Unit {0})
tag_missing f = err 1 (if f.left == 0 then record f { eom = 1 } else f)

pb_decode_tag : Field → Run Field (Unit {0})
pb_decode_tag f = or_else (pb_decode_varint f) (λ _ f'. tag_read f') tag_missing

pub pb_skip_field : Field → ℕ → Run Field (Unit {0})
pb_skip_field f wire_type =
    if wire_type == wt_varint
    then pb_skip_varint f
    else if wire_type == wt_fixed64
    then and_then (pb_get_ddword false f) (λ _ f'. ok tt f')
    else if wire_type == wt_string
    then pb_skip_string f
    else if wire_type == wt_fixed32
    then and_then (pb_get_dword false f) (λ _ f'. ok tt f')
    else return_error f 1 invalid_wire_type

-- The three functions of the iteration return NULL where the model has `err`.
pub pb_begin : Field → List ℕ → ℕ → Run Field (Unit {0})
pb_begin f dat dlen =
    pb_decode_tag
      (record f { start = dat; ptr = dat; size = dlen; left = dlen; eom = 0; errmsg = none })

-- Behind the length of a delimited message.
enter_delimited : Field → Run Field (Unit {0})
enter_delimited f =
    if ltb f.left f.val.i64
    then return_error f 1 delimited_overflow
    else pb_decode_tag (record f { left = f.val.i64 })

pub pb_begin_delimited : Field → List ℕ → ℕ → Run Field (Unit {0})
pb_begin_delimited f dat dlen =
    or_return 1
      (pb_decode_varint (record f { start = dat; ptr = dat; size = dlen; left = dlen; eom = 0 }))
      λ _ f'. enter_delimited f'

pub pb_next : Field → Run Field (Unit {0})
pb_next f = pb_decode_tag f
