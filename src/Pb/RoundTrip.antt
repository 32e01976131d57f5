-- ===== src/Pb/RoundTrip.antt =====
-- The writer of knv/pb.c and the size of knv/pb.h against the reader of knv/pb.c.
use mysql_proxy.Common.{ℕ, ◌+◌, ◌^◌, ◌≤◌, ◌<◌, ◌≡◌, refl, sym, List, ◌++◌, arith, length}
use mysql_proxy.Pb.Types.{ok, FieldVal, Field, Buff}
use mysql_proxy.Pb.Wire.{field_bytes, IsSendable}
use mysql_proxy.Pb.Reader.{pb_next}
use mysql_proxy.Pb.Reader.Decode.{Found, pb_next-field_bytes}
use mysql_proxy.Pb.Writer.{Written, pb_add_field_val}
use mysql_proxy.Pb.Writer.Encode.{appended, Writes, all, full, pb_add_field_val-Writes}
use mysql_proxy.Pb.Size.{pb_eval_field_length, pb_eval_field_length-field_bytes}

-- A run with room for the bytes appends them.
Writes-appended :
    {b : Buff} {bytes : List ℕ} {run : Written}
    → Writes b bytes run
    → length bytes ≤ b.left
    → run ≡ ok tt (appended b bytes)
Writes-appended (all fits) room = refl
Writes-appended (full short kept same) room = absurd (omega arith)

-- What is written at the end of the buffer `b`, and read back by the iterator `f` in front of `rest`.
pub record ReadBack (b : Buff) (f : Field) (tag t : ℕ) (val : FieldVal) (rest : List ℕ)
    : Type 0 where
  pub bytes : List ℕ
  pub size : length bytes ≡ pb_eval_field_length tag t val
  pub added : pb_add_field_val b tag t val ≡ ok tt (appended b bytes)
  pub found :
      Found f tag t
        (length rest)
        val
        rest
        (pb_next (record f { ptr = bytes ++ rest; left = length bytes + length rest }))

-- The round trip: a field of the format with a nonzero tag and less than 2 ^ 31 bytes is written
-- into any buffer with room for pb_eval_field_length bytes, it takes just so many, and pb_next at
-- those bytes finds its tag, its wire type and its value, with the pointer behind them.
pub pb_next-pb_add_field_val :
    (b : Buff) (f : Field) (tag t : ℕ) (val : FieldVal) (rest : List ℕ)
    → IsSendable tag t val
    → 0 < tag
    → length (field_bytes tag t val) < 2 ^ 31
    → pb_eval_field_length tag t val ≤ b.left
    → ReadBack b f tag t val rest
pb_next-pb_add_field_val b f tag t val rest s pos short room =
    let size = pb_eval_field_length-field_bytes tag t val s short in
    record {
      bytes = field_bytes tag t val;
      size = sym size;
      added = Writes-appended (pb_add_field_val-Writes b tag t val s) (omega (arith, size, room));
      found = pb_next-field_bytes f tag t (length rest) val rest s pos;
    }
