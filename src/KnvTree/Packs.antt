-- ===== src/KnvTree/Packs.antt =====
-- What the steps of Serialize of knv/knv_node.cc leave in the buffer.
use mysql_proxy.Common.{
  ℕ, ◌+◌, ◌-◌, ◌*◌, ◌%◌, ◌^◌, ◌≤◌, ◌<◌, ◌≡◌, refl, sym, ap, true, List, [], ◌++◌, append_assoc,
  take-length, length, length-append, arith,
}
use mathlib.Core.Path.{subst}
use mysql_proxy.Pb.Types.{ok, Buff, get_i32}
use mysql_proxy.Pb.Wire.{vint, payload, field_bytes, IsSendable}
use mysql_proxy.Pb.Writer.{Written, pb_init_buff, pb_add_field_val}
use mysql_proxy.Pb.Writer.Encode.{appended, Writes, all, full, pb_add_field_val-Writes}
use mysql_proxy.KnvTree.Node.{Members}
use mysql_proxy.KnvTree.Packing.{
  Packed, packed, refused, written_or, or_refused, new_buff, pack_folded, or_code,
}
use mysql_proxy.KnvTree.Wire.{string_of}

-- The bytes are packed exactly when there is room for them; otherwise there is an error.
pub data Packs (bytes : List ℕ) (room : ℕ) : Packed → Type 0 where
  fits : length bytes ≤ room → Packs bytes room (packed bytes)
  too_long : {n : ℕ} → room < length bytes → Packs bytes room (refused n)

-- A buffer of `len` bytes in which the bytes `w` stand.
pub record At (len : ℕ) (w : List ℕ) (b : Buff) : Type 0 where
  pub has : b.written ≡ w
  pub left : b.left + length w ≡ len

pub At-new : (len : ℕ) → At len [] (new_buff len)
unfolding pb_init_buff
At-new len = record { has = refl; left = omega arith }

-- More bytes go into the buffer.
pub written_or-Packs :
    (n len : ℕ) (w xs whole : List ℕ) (b : Buff) (r : Written) (k : Buff → Packed)
    → At len w b
    → Writes b xs r
    → length (w ++ xs) ≤ length whole
    → ((b' : Buff) → At len (w ++ xs) b' → Packs whole len (k b'))
    → Packs whole len (written_or n r k)
unfolding written_or
written_or-Packs n len w xs whole b r k at (all room) part rest =
    rest (appended b xs) (record {
      has = ap (λ ys. ys ++ xs) at.has;
      left = omega (arith, at.left, length-append w xs);
    })
written_or-Packs n len w xs whole b r k at (full short kept size) part rest =
    too_long (omega (arith, at.left, length-append w xs))

pub written_or-ok :
    (n : ℕ) (whole : List ℕ) (len : ℕ) (b : Buff) (k : Buff → Packed)
    → Packs whole len (k b)
    → Packs whole len (written_or n (ok tt b) k)
unfolding written_or
written_or-ok n whole len b k p = p

-- A subnode goes behind the bytes.
pub or_refused-Packs :
    (len : ℕ) (w xs whole : List ℕ) (r : Packed) (k : List ℕ → Packed)
    → length w ≤ len
    → Packs xs (len - length w) r
    → length w + length xs ≤ length whole
    → (length w + length xs ≤ len → Packs whole len (k xs))
    → Packs whole len (or_refused r k)
or_refused-Packs len w xs whole r k inside (fits room) part rest = rest (omega arith)
or_refused-Packs len w xs whole r k inside (too_long short) part rest = too_long (omega arith)

pub or_code-Packs :
    (n len : ℕ) (xs whole : List ℕ) (r : Packed) (k : List ℕ → Packed)
    → Packs xs len r
    → length xs ≤ length whole
    → (length xs ≤ len → Packs whole len (k xs))
    → Packs whole len (or_code n r k)
or_code-Packs n len xs whole r k (fits room) part rest = rest room
or_code-Packs n len xs whole r k (too_long short) part rest = too_long (omega arith)

-- A leaf, or a node whose value is up to date.
pub pack_folded-Packs :
    (d : Members) (len : ℕ)
    → IsSendable d.tag d.type d.val
    → Packs (field_bytes d.tag d.type d.val) len (pack_folded d len true)
unfolding pack_folded
pack_folded-Packs d len s =
    written_or-Packs 3 len [] (field_bytes d.tag d.type d.val) (field_bytes d.tag d.type d.val)
      (new_buff len) (pb_add_field_val (new_buff len) d.tag d.type d.val) (λ b. packed b.written)
      (At-new len) (pb_add_field_val-Writes (new_buff len) d.tag d.type d.val s) (omega arith)
      λ b at.
        subst (λ xs. Packs (field_bytes d.tag d.type d.val) len (packed xs)) (sym at.has)
          (fits (omega (arith, at.left)))

-- The bytes of a string are its head and itself.
pub field_bytes-string_of :
    (tag : ℕ) (bytes : List ℕ)
    → length bytes < 2 ^ 31
    → field_bytes tag 2 (string_of bytes) ≡ (vint (2 + 8 * tag) ++ vint (length bytes)) ++ bytes
unfolding field_bytes payload get_i32
field_bytes-string_of tag bytes short =
    let e : length bytes % 2 ^ 32 ≡ length bytes = omega arith in
    rw (e, take-length bytes) (sym (append_assoc (vint (2 + 8 * tag)) (vint (length bytes)) bytes))
