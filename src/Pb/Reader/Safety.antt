-- ===== src/Pb/Reader/Safety.antt =====
-- No function of the reader touches a byte behind the message, and each ends.
use mysql_proxy.Common.{
  ℕ, zero, suc, ◌+◌, ◌*◌, ◌/◌, ◌%◌, ◌^◌, ◌≤◌, ◌<◌, ◌≡◌, refl, Bool, true, false, some, List, [],
  ◌∷◌, inl, inr, arith, ltb, leb, ◌==◌, bit_and, length, length-drop, Bool-cases,
}
use mysql_proxy.Pb.Types.{
  Run, ok, err, fault, stuck, or_return, and_then, or_stop, or_else, get_i32, Field, read_le,
}
use mysql_proxy.Pb.Reader.{
  take_byte, pb_get_null, pb_get_byte, take_word, pb_get_dword, pb_get_ddword, varint_loop,
  pb_decode_varint, pb_decode_fixed32, pb_decode_fixed64, take_string, pb_decode_string,
  skip_varint_loop, pb_skip_varint, pb_skip_string, decode_by_type, tag_read, tag_missing,
  pb_decode_tag, pb_skip_field, pb_begin, enter_delimited, pb_begin_delimited, pb_next,
}

-- What is left of the message lies in the buffer.
abbrev pub HasRoom : Field → Type 0
HasRoom f = f.left ≤ length f.ptr

-- A run from `f` that stays in the buffer, ends, and takes `k` bytes at least if it succeeds.
abbrev pub Safe : {A : Type 0} → ℕ → Field → Run Field A → Type 0
Safe k f (ok a g) = HasRoom g × (g.left + k ≤ f.left)
Safe k f (err c g) = HasRoom g × (g.left ≤ f.left)
Safe k f fault = ⊥
Safe k f stuck = ⊥

-- Of two runs in a row the second starts where the first ended.
Safe-trans :
    {A : Type 0} (j k : ℕ) (f g : Field) (m : Run Field A)
    → g.left + j ≤ f.left
    → Safe k g m
    → Safe (j + k) f m
Safe-trans j k f g (ok b h) e t = (t.0, omega arith)
Safe-trans j k f g (err c h) e t = (t.0, omega arith)
Safe-trans j k f g fault e t = t
Safe-trans j k f g stuck e t = t

module _ {A B : Type 0} where
  or_return-Safe :
      (j n k : ℕ) (f : Field) (m : Run Field A) (next : A → Field → Run Field B)
      → Safe j f m
      → ((a : A) (g : Field) → HasRoom g → Safe k g (next a g))
      → Safe (j + k) f (or_return n m next)
  or_return-Safe j n k f (ok a g) next s rest = Safe-trans j k f g (next a g) s.1 (rest a g s.0)
  or_return-Safe j n k f (err c g) next s rest = s
  or_return-Safe j n k f fault next s rest = s
  or_return-Safe j n k f stuck next s rest = s

  and_then-Safe :
      (j k : ℕ) (f : Field) (m : Run Field A) (next : A → Field → Run Field B)
      → Safe j f m
      → ((a : A) (g : Field) → HasRoom g → Safe k g (next a g))
      → Safe (j + k) f (and_then m next)
  and_then-Safe j k f (ok a g) next s rest = Safe-trans j k f g (next a g) s.1 (rest a g s.0)
  and_then-Safe j k f (err c g) next s rest = s
  and_then-Safe j k f fault next s rest = s
  and_then-Safe j k f stuck next s rest = s

-- Fewer bytes may be promised.
pub Safe-mono :
    {A : Type 0} (j k : ℕ) (f : Field) (m : Run Field A) → k ≤ j → Safe j f m → Safe k f m
Safe-mono j k f (ok a g) h s = (s.0, omega arith)
Safe-mono j k f (err c g) h s = s
Safe-mono j k f fault h s = s
Safe-mono j k f stuck h s = s

or_stop-Safe :
    {A : Type 0} (f : Field) (m : Run Field A) (next : A → Field → Run Field (Unit {0}))
    → Safe 1 f m
    → ((a : A) (g : Field) → HasRoom g → g.left < f.left → Safe 0 g (next a g))
    → Safe 0 f (or_stop m next)
or_stop-Safe f (ok a g) next s rest =
    Safe-trans 0 0 f g (next a g) (omega arith) (rest a g s.0 (omega arith))
or_stop-Safe f (err c g) next s rest = (s.0, omega arith)
or_stop-Safe f fault next s rest = s
or_stop-Safe f stuck next s rest = s

pb_get_byte-Safe : (f : Field) → HasRoom f → Safe 1 f (pb_get_byte f)
unfolding pb_get_byte take_byte
pb_get_byte-Safe f h = elim (Bool-cases (ltb f.left 1)) [
  | inl short ↦ rw short (h, omega arith)
  | inr enough ↦ rw enough (byte f.ptr (ground arith) h)
]
  where
    byte : (p : List ℕ) → 1 ≤ f.left → f.left ≤ length p → Safe 1 f (take_byte f p)
    byte [] some_left r = absurd (omega arith)
    byte (b ∷ p) some_left r = omega arith

read_le-some : (n : ℕ) (p : List ℕ) → n ≤ length p → (v : ℕ) × (read_le n p ≡ some v)
unfolding read_le
read_le-some zero p h = (0, refl)
read_le-some (suc n) [] h = absurd (omega arith)
read_le-some (suc n) (b ∷ p) h = let (v, e) = read_le-some n p (omega arith) in (b + 256 * v, rw e)

take_word-Safe :
    (n : ℕ) (f : Field) (v : ℕ) → HasRoom f → n ≤ f.left → Safe n f (take_word n f (some v))
unfolding take_word
take_word-Safe n f v h e = omega (arith, length-drop n f.ptr)

pb_get_dword-Safe : (want : Bool) (f : Field) → HasRoom f → Safe 4 f (pb_get_dword want f)
pb_get_dword-Safe want f h = elim (Bool-cases (ltb f.left 4)) [
  | inl short ↦ unfold pb_get_dword in rw short (h, omega arith)
  | inr enough ↦ word want enough
]
  where
    word : (want : Bool) → ltb f.left 4 ≡ false → Safe 4 f (pb_get_dword want f)
    word true enough =
        let (v, e) = read_le-some 4 f.ptr (ground arith) in
        unfold pb_get_dword in rw (enough, e) (take_word-Safe 4 f v h (ground arith))
    word false enough = unfold pb_get_dword in rw enough (take_word-Safe 4 f 0 h (ground arith))

pb_get_ddword-Safe : (want : Bool) (f : Field) → HasRoom f → Safe 8 f (pb_get_ddword want f)
pb_get_ddword-Safe want f h = elim (Bool-cases (ltb f.left 8)) [
  | inl short ↦ unfold pb_get_ddword in rw short (h, omega arith)
  | inr enough ↦ word want enough
]
  where
    word : (want : Bool) → ltb f.left 8 ≡ false → Safe 8 f (pb_get_ddword want f)
    word true enough =
        let (v, e) = read_le-some 8 f.ptr (ground arith) in
        unfold pb_get_ddword in rw (enough, e) (take_word-Safe 8 f v h (ground arith))
    word false enough = unfold pb_get_ddword in rw enough (take_word-Safe 8 f 0 h (ground arith))

pb_get_null-Safe : (f : Field) (count : ℕ) → HasRoom f → Safe 0 f (pb_get_null f count)
unfolding pb_get_null
pb_get_null-Safe f count h = ground (arith, length-drop count f.ptr)

-- The rounds that are left cover the bits that are left, so the loop ends by its own test.
varint_loop-Safe :
    (n bitpos result : ℕ) (f : Field)
    → bitpos + 7 * n ≡ 70
    → HasRoom f
    → Safe 1 f (varint_loop (suc n) bitpos result f)
unfolding varint_loop
varint_loop-Safe zero bitpos result f e h =
    let full : bitpos ≡ 70 = omega arith in rw full (h, omega arith)
varint_loop-Safe (suc n) bitpos result f e h =
    let fits : leb 64 bitpos ≡ false = ground arith in
    rw fits (
      or_return-Safe 1 2 0 f (pb_get_byte f) _ (pb_get_byte-Safe f h) λ byte g room.
        elim (Bool-cases (bit_and byte 0x80 == 0)) [
          | inl last ↦ rw last (room, omega arith)
          | inr more ↦
              let step : (bitpos + 7) % 256 ≡ bitpos + 7 = ground arith in
              rw (more, step)
                (Safe-mono 1 0 g _ (omega arith)
                  (varint_loop-Safe n (bitpos + 7) _ g (omega arith) room))
        ])

pb_decode_varint-Safe : (f : Field) → HasRoom f → Safe 1 f (pb_decode_varint f)
unfolding pb_decode_varint
pb_decode_varint-Safe f h =
    and_then-Safe 1 0 f (varint_loop 11 0 0 f) _ (varint_loop-Safe 10 0 0 f (omega arith) h)
      λ result g room. (room, omega arith)

take_string-Safe : (f : Field) → HasRoom f → Safe 0 f (take_string f)
unfolding take_string
take_string-Safe f h = ground (arith, length-drop (f.val.i64 % 2 ^ 32) f.ptr)

pb_decode_string-Safe : (f : Field) → HasRoom f → Safe 1 f (pb_decode_string f)
unfolding pb_decode_string
pb_decode_string-Safe f h =
    or_return-Safe 1 1 0 f (pb_decode_varint f) _ (pb_decode_varint-Safe f h)
      λ _ g room. take_string-Safe g room

skip_varint_loop-Safe :
    (n : ℕ) (f : Field) → f.left < n → HasRoom f → Safe 0 f (skip_varint_loop n f)
unfolding skip_varint_loop
skip_varint_loop-Safe zero f e h = absurd (omega arith)
skip_varint_loop-Safe (suc n) f e h =
    or_stop-Safe f (pb_get_byte f) _ (pb_get_byte-Safe f h) λ byte g room less.
      elim (Bool-cases (bit_and byte 0x80 == 0)) [
        | inl last ↦ rw last (room, omega arith)
        | inr more ↦ rw more (skip_varint_loop-Safe n g (omega arith) room)
      ]

pb_skip_varint-Safe : (f : Field) → HasRoom f → Safe 0 f (pb_skip_varint f)
unfolding pb_skip_varint
pb_skip_varint-Safe f h = skip_varint_loop-Safe (f.left + 1) f (omega arith) h

pb_skip_string-Safe : (f : Field) → HasRoom f → Safe 1 f (pb_skip_string f)
unfolding pb_skip_string
pb_skip_string-Safe f h =
    or_return-Safe 1 1 0 f (pb_decode_varint f) _ (pb_decode_varint-Safe f h)
      λ _ g room. pb_get_null-Safe g _ room

decode_by_type-Safe : (f : Field) → HasRoom f → Safe 0 f (decode_by_type f)
unfolding decode_by_type pb_decode_fixed32 pb_decode_fixed64
decode_by_type-Safe f h = elim (Bool-cases (f.type == 0)) [
  | inl e ↦ rw e (Safe-mono 1 0 f _ (omega arith) (pb_decode_varint-Safe f h))
  | inr e ↦ rw e (elim (Bool-cases (f.type == 1)) [
    | inl e ↦ rw e (
        Safe-mono 8 0 f _ (omega arith)
          (and_then-Safe 8 0 f _ _ (pb_get_ddword-Safe true f h) λ v g room. (room, omega arith)))
    | inr e ↦ rw e (elim (Bool-cases (f.type == 2)) [
      | inl e ↦ rw e (Safe-mono 1 0 f _ (omega arith) (pb_decode_string-Safe f h))
      | inr e ↦ rw e (elim (Bool-cases (f.type == 5)) [
        | inl e ↦ rw e (
            Safe-mono 4 0 f _ (omega arith) (
              and_then-Safe 4 0 f _ _ (pb_get_dword-Safe true f h) λ v g room. (room, omega arith)))
        | inr e ↦ rw e (h, omega arith)
      ])
    ])
  ])
]

tag_read-Safe : (f : Field) → HasRoom f → Safe 0 f (tag_read f)
unfolding tag_read
tag_read-Safe f h = elim (Bool-cases (f.val.i64 == 0)) [
  | inl e ↦ rw e (h, omega arith)
  | inr e ↦ rw e (decode_by_type-Safe (record f { tag = tag; type = type }) h)
]
  where
    tag : ℕ
    tag = f.val.i64 / 8 % 2 ^ 32

    type : ℕ
    type = bit_and (get_i32 f.val) 7

pb_decode_tag-Safe : (f : Field) → HasRoom f → Safe 1 f (pb_decode_tag f)
unfolding pb_decode_tag tag_missing
pb_decode_tag-Safe f h = after (pb_decode_varint f) (pb_decode_varint-Safe f h)
  where
    after :
        (m : Run Field (Unit {0}))
        → Safe 1 f m
        → Safe 1 f (or_else m (λ _ g. tag_read g) tag_missing)
    after (ok a g) s =
        or_return-Safe 1 0 0 f (ok a g) (λ _ g. tag_read g) s (λ _ g room. tag_read-Safe g room)
    after (err c g) s = elim (Bool-cases (g.left == 0)) [ inl e ↦ rw e s | inr e ↦ rw e s ]
    after fault s = s
    after stuck s = s

-- From a field whose counter is no more than the bytes at its pointer, pb_next ends and never reads
-- behind the end of the message; the counter stays within those bytes and does not grow, and a
-- field that is found takes a byte at least.
pub pb_next-Safe : (f : Field) → HasRoom f → Safe 1 f (pb_next f)
unfolding pb_next
pb_next-Safe f h = pb_decode_tag-Safe f h

-- On data of the length that is given or longer, pb_begin ends and never reads behind its end; the
-- counter stays within the data, and a field that is found takes a byte at least.
pub pb_begin-Safe :
    (f : Field) (dat : List ℕ) (dlen : ℕ)
    → dlen ≤ length dat
    → Safe 1 (record f { ptr = dat; left = dlen }) (pb_begin f dat dlen)
unfolding pb_begin
pb_begin-Safe f dat dlen h = pb_decode_tag-Safe _ h

enter_delimited-Safe : (f : Field) → HasRoom f → Safe 1 f (enter_delimited f)
unfolding enter_delimited
enter_delimited-Safe f h = elim (Bool-cases (ltb f.left f.val.i64)) [
  | inl e ↦ rw e (h, omega arith)
  | inr e ↦
      let inner = record f { left = f.val.i64 } in
      rw e (
        Safe-trans 0 1 f inner (pb_decode_tag inner) (ground arith)
          (pb_decode_tag-Safe inner (ground arith)))
]

-- On data of the length that is given or longer, pb_begin_delimited ends and never reads behind its
-- end; the counter stays within the data, and a field that is found takes two bytes at least.
pub pb_begin_delimited-Safe :
    (f : Field) (dat : List ℕ) (dlen : ℕ)
    → dlen ≤ length dat
    → Safe 2 (record f { ptr = dat; left = dlen }) (pb_begin_delimited f dat dlen)
unfolding pb_begin_delimited
pb_begin_delimited-Safe f dat dlen h =
    let begun = record f { start = dat; ptr = dat; size = dlen; left = dlen; eom = 0 } in
    or_return-Safe 1 1 1 begun (pb_decode_varint begun) (λ _ g. enter_delimited g)
      (pb_decode_varint-Safe begun h) (λ _ g room. enter_delimited-Safe g room)

-- From a field whose counter is no more than the bytes at its pointer, pb_skip_field ends and stays
-- in the message, for every wire type.
pub pb_skip_field-Safe : (f : Field) (t : ℕ) → HasRoom f → Safe 0 f (pb_skip_field f t)
unfolding pb_skip_field
pb_skip_field-Safe f t h = elim (Bool-cases (t == 0)) [
  | inl e ↦ rw e (pb_skip_varint-Safe f h)
  | inr e ↦ rw e (elim (Bool-cases (t == 1)) [
    | inl e ↦ rw e (
        Safe-mono 8 0 f _ (omega arith)
          (and_then-Safe 8 0 f _ _ (pb_get_ddword-Safe false f h) λ v g room. (room, omega arith)))
    | inr e ↦ rw e (elim (Bool-cases (t == 2)) [
      | inl e ↦ rw e (Safe-mono 1 0 f _ (omega arith) (pb_skip_string-Safe f h))
      | inr e ↦ rw e (elim (Bool-cases (t == 5)) [
        | inl e ↦ rw e (
            Safe-mono 4 0 f _ (omega arith) (
              and_then-Safe 4 0 f _ _ (pb_get_dword-Safe false f h)
                λ v g room. (room, omega arith)))
        | inr e ↦ rw e (h, omega arith)
      ])
    ])
  ])
]
