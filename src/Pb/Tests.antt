-- ===== src/Pb/Tests.antt =====
-- The theorems on the protobuf code at concrete messages.
use mysql_proxy.Common.{ℕ, ◌+◌, ◌^◌, ◌≤◌, ◌<◌, ◌≡◌, refl, List, [], ◌∷◌, ◌++◌, none, arith, length}
use mysql_proxy.Pb.Types.{FieldVal, get_i32, Field, Buff}
use mysql_proxy.Pb.Wire.{groups, vint, known_type, payload, field_bytes, IsSendable}
use mysql_proxy.Pb.Reader.{pb_next}
use mysql_proxy.Pb.Reader.Decode.{Found, pb_next-field_bytes}
use mysql_proxy.Pb.Reader.Safety.{Safe, pb_next-Safe}
use mysql_proxy.Pb.Writer.{pb_add_field_val}
use mysql_proxy.Pb.Writer.Encode.{Writes, pb_add_field_val-Writes}
use mysql_proxy.Pb.Size.{pb_eval_field_length, pb_eval_field_length-field_bytes}
use mysql_proxy.Pb.RoundTrip.{ReadBack, pb_next-pb_add_field_val}
use mysql_proxy.Pb.Zigzag.{pb_int2uint, pb_uint2int, pb_uint2int-pb_int2uint}

-- The number 300 as the field 1, and the string "abc" as the field 2.
abbrev number : FieldVal
number = record { i64 = 300; str_data = [] }

abbrev text : FieldVal
text = record { i64 = 3; str_data = 97 ∷ 98 ∷ 99 ∷ [] }

abbrev buffer : Buff
buffer = record { size = 16; written = []; left = 16; errmsg = none }

-- An iterator at the bytes of the field 1, with a byte behind them.
abbrev message : List ℕ
message = 8 ∷ 172 ∷ 2 ∷ 0 ∷ []

abbrev reader : Field
reader = record {
  tag = 0;
  eom = 0;
  type = 0;
  val = number;
  start = message;
  size = 4;
  ptr = message;
  left = 4;
  errmsg = none;
}

number-IsSendable : IsSendable 1 0 number
unfolding known_type get_i32
number-IsSendable = record {
  tag_small = omega arith;
  known = refl;
  value_small = omega arith;
  inside = λ e. ground arith;
}

text-IsSendable : IsSendable 2 2 text
unfolding known_type get_i32
text-IsSendable = record {
  tag_small = omega arith;
  known = refl;
  value_small = omega arith;
  inside = λ e. omega arith;
}

text-length : length (field_bytes 2 2 text) ≡ 5
unfolding field_bytes payload vint groups get_i32
text-length = refl

text-short : length (field_bytes 2 2 text) < 2 ^ 31
text-short = omega (arith, text-length)

text-room : pb_eval_field_length 2 2 text ≤ 16
text-room =
    omega (arith, pb_eval_field_length-field_bytes 2 2 text text-IsSendable text-short, text-length)

pb_next-pb_add_field_val_example : ReadBack buffer reader 2 2 text (7 ∷ [])
pb_next-pb_add_field_val_example =
    pb_next-pb_add_field_val buffer reader 2 2 text (7 ∷ []) text-IsSendable (omega arith)
      text-short text-room

pb_next-field_bytes_example : Found reader 1 0 1 number (0 ∷ []) (
    pb_next (record reader {
      ptr = field_bytes 1 0 number ++ (0 ∷ []);
      left = length (field_bytes 1 0 number) + 1;
    }))
pb_next-field_bytes_example =
    pb_next-field_bytes reader 1 0 1 number (0 ∷ []) number-IsSendable (omega arith)

pb_add_field_val-Writes_example :
    Writes buffer (field_bytes 2 2 text) (pb_add_field_val buffer 2 2 text)
pb_add_field_val-Writes_example = pb_add_field_val-Writes buffer 2 2 text text-IsSendable

pb_next-Safe_example : Safe 1 reader (pb_next reader)
pb_next-Safe_example = pb_next-Safe reader (omega arith)

pb_eval_field_length-field_bytes_example :
    pb_eval_field_length 2 2 text ≡ length (field_bytes 2 2 text)
pb_eval_field_length-field_bytes_example =
    pb_eval_field_length-field_bytes 2 2 text text-IsSendable text-short

pb_uint2int-pb_int2uint_example :
    (pb_uint2int (pb_int2uint (2 ^ 63 + 5)) ≡ 2 ^ 63 + 5)
    × (pb_int2uint (pb_uint2int (2 ^ 63 + 5)) ≡ 2 ^ 63 + 5)
pb_uint2int-pb_int2uint_example = pb_uint2int-pb_int2uint (2 ^ 63 + 5) (omega arith)
