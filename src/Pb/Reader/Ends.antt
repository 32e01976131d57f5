-- ===== src/Pb/Reader/Ends.antt =====
-- Where the iteration of knv/pb.c over a message begins and ends.
use mysql_proxy.Common.{
  ℕ, ◌≡◌, refl, ap, some, none, List, arith, ltb, ◌==◌, if◌then◌else◌, if_true, ==_iff,
}
use mysql_proxy.Pb.Types.{Run, err, Field, end_of_buffer}
use mysql_proxy.Pb.Reader.{
  pb_begin, pb_next, pb_decode_tag, pb_decode_varint, varint_loop, pb_get_byte, tag_missing,
}

-- The iteration begins as it goes on.
pub pb_begin-pb_next :
    (f : Field) (dat : List ℕ) (dlen : ℕ)
    → pb_begin f dat dlen
      ≡ pb_next
          (record f { start = dat; ptr = dat; size = dlen; left = dlen; eom = 0; errmsg = none })
unfolding pb_begin pb_next
pb_begin-pb_next f dat dlen = refl

-- pb_next at the end of the message.
pub record Ended (run : Run Field (Unit {0})) : Type 0 where
  pub field : Field
  pub result : run ≡ err 1 field
  pub eom : field.eom ≡ 1

past_end : Field → Field
past_end f = record f { errmsg = some end_of_buffer }

pb_get_byte-end : (f : Field) → f.left ≡ 0 → pb_get_byte f ≡ err 1 (past_end f)
unfolding pb_get_byte past_end
pb_get_byte-end f h = if_true {b = ltb f.left 1} _ _ (ground (arith, h))

varint_loop-end : (f : Field) → f.left ≡ 0 → varint_loop 11 0 0 f ≡ err 2 (past_end f)
unfolding varint_loop
varint_loop-end f h = rw (pb_get_byte-end f h) refl

-- A message of which nothing is left.
pub pb_next-Ended : (f : Field) → f.left ≡ 0 → Ended (pb_next f)
unfolding pb_next pb_decode_tag pb_decode_varint tag_missing past_end
pb_next-Ended f h = record {
  field = if f.left == 0 then record (past_end f) { eom = 1 } else past_end f;
  result = rw (varint_loop-end f h) refl;
  eom = ap (λ (g : Field). g.eom) (if_true _ _ ((==_iff f.left 0).1 h));
}
