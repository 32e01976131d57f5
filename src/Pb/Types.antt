-- ===== src/Pb/Types.antt =====
-- The types of knv/pb.h, and what a C function that returns 0 or a negative code does to its state.
use mysql_proxy.Common.{
  ℕ, zero, suc, ◌+◌, ◌*◌, ◌/◌, ◌%◌, ◌^◌, Option, none, some, List, [], ◌∷◌, bit_or,
}

-- The texts that are stored in `errmsg`.
pub data ErrorText : Type 0 where
  end_of_buffer varint_overflow string_overflow zero_terminated_msg : ErrorText
  invalid_wire_type delimited_overflow buf_overflow : ErrorText

-- `ok a s` returns 0 and leaves the output `a`, `err n s` returns `-n`. `fault` is an access outside
-- a buffer, which C leaves undefined, and `stuck` a loop of the model that ran out of fuel.
pub data Run (S A : Type 0) : Type 0 where
  ok : A → S → Run S A
  err : ℕ → S → Run S A
  fault stuck : Run S A

module _ {S A B : Type 0} where
  -- `if(m) return -n;` and then the rest, which sees the output of `m`.
  abbrev pub or_return : ℕ → Run S A → (A → S → Run S B) → Run S B
  or_return n (ok a s) k = k a s
  or_return n (err c s) k = err n s
  or_return n fault k = fault
  or_return n stuck k = stuck

  -- The rest, where the code of a failure is passed on.
  abbrev pub and_then : Run S A → (A → S → Run S B) → Run S B
  and_then (ok a s) k = k a s
  and_then (err c s) k = err c s
  and_then fault k = fault
  and_then stuck k = stuck

  -- One way on for a success and one for a failure.
  abbrev pub or_else : Run S A → (A → S → Run S B) → (S → Run S B) → Run S B
  or_else (ok a s) k handle = k a s
  or_else (err c s) k handle = handle s
  or_else fault k handle = fault
  or_else stuck k handle = stuck

module _ {S A : Type 0} where
  -- `if(m) return 0;` and then the rest.
  abbrev pub or_stop : Run S A → (A → S → Run S (Unit {0})) → Run S (Unit {0})
  or_stop (ok a s) k = k a s
  or_stop (err c s) k = ok tt s
  or_stop fault k = fault
  or_stop stuck k = stuck

-- pb_wire_type_t. A field of that type can hold any number from 0 to 7.
abbrev pub wt_varint : ℕ
wt_varint = 0

abbrev pub wt_fixed64 : ℕ
wt_fixed64 = 1

abbrev pub wt_string : ℕ
wt_string = 2

abbrev pub wt_fixed32 : ℕ
wt_fixed32 = 5

-- pb_field_val_t: bytes 0 to 7 of the union as the number `i64`, and the pointer `str.data`, which
-- stands behind them. `i32` and `str.len` are the low four of those bytes.
pub record FieldVal : Type 0 where
  pub i64 : ℕ
  pub str_data : List ℕ

unfoldable pub get_i32 : FieldVal → ℕ
get_i32 v = v.i64 % 2 ^ 32

-- A write of `i32` or of `str.len` keeps the upper four bytes.
unfoldable pub set_i32 : FieldVal → ℕ → FieldVal
set_i32 v n = record v { i64 = v.i64 / 2 ^ 32 * 2 ^ 32 + n % 2 ^ 32 }

-- pb_field_t. The counter `left` is an int that starts at the length of the data; it is not negative.
pub record Field : Type 0 where
  pub tag : ℕ
  pub eom : ℕ
  pub type : ℕ
  pub val : FieldVal
  pub start : List ℕ
  pub size : ℕ
  pub ptr : List ℕ
  pub left : ℕ
  pub errmsg : Option ErrorText

-- pb_buff_t: `written` is what stands between `start` and `ptr`.
pub record Buff : Type 0 where
  pub size : ℕ
  pub written : List ℕ
  pub left : ℕ
  pub errmsg : Option ErrorText

-- The `n` low bytes of a number, lowest first, as the processor stores it.
unfoldable pub le_bytes : ℕ → ℕ → List ℕ
le_bytes zero v = []
le_bytes (suc n) v = (v % 256) ∷ le_bytes n (v / 256)

-- The number that `n` bytes at a pointer stand for, if there are so many.
unfoldable pub read_le : ℕ → List ℕ → Option ℕ
read_le zero p = some 0
read_le (suc n) [] = none
read_le (suc n) (b ∷ p) = elim (read_le n p) [ none ↦ none | some v ↦ some (b + 256 * v) ]

-- `wiretype | (field_number << 3)` on 32 bits.
unfoldable pub tag_word : ℕ → ℕ → ℕ
tag_word wiretype field_number = bit_or wiretype (field_number * 2 ^ 3 % 2 ^ 32)
