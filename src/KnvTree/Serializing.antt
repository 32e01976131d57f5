-- ===== src/KnvTree/Serializing.antt =====
-- Serialize of knv/knv_node.cc against the bytes that a tree stands for.
use mysql_proxy.Common.{
  ℕ, ◌+◌, ◌-◌, ◌*◌, ◌≤◌, ◌<◌, ◌≡◌, sym, ap, ◌∙◌, Bool, true, false, not, List, [], ◌++◌,
  append_assoc, append-nil, length, length-append, ◌==◌, if◌then◌else◌, if_true, if_false,
  Bool-cases, inl, inr, arith, eq_self,
}
use mathlib.Core.Path.{subst}
use mysql_proxy.Pb.Types.{Buff}
use mysql_proxy.Pb.Wire.{vint, field_bytes}
use mysql_proxy.Pb.Writer.{pb_add_field_val, pb_add_string_head}
use mysql_proxy.Pb.Writer.Encode.{Writes, pb_add_field_val-Writes, pb_add_string_head-Writes}
use mysql_proxy.KnvTree.Node.{
  Members, KnvTree, node, Trees, nil, cons, key_value, has_key, is_folded, skips_first, eval_sz_of,
  eval_val_sz_of, evaluate,
}
use mysql_proxy.KnvTree.Packing.{
  Packed, packed, refused, written_or, or_refused, new_buff, pack_folded, pack_header, pack_key,
  is_wrong, pack_expanded, pack, serialize, serialize_list,
}
use mysql_proxy.KnvTree.Wire.{
  key_wire, wire, wires, body, body_of, folded_of, NodeSound, Sound, AllSound,
}
use mysql_proxy.KnvTree.Sizes.{wire-folded, wire-expanded}
use mysql_proxy.KnvTree.Evaluating.{evaluate-SizedTree}
use mysql_proxy.KnvTree.Packs.{
  Packs, At, At-new, written_or-Packs, written_or-ok, or_refused-Packs, or_code-Packs,
  pack_folded-Packs, field_bytes-string_of, fits,
}

-- An expanded node whose sizes are known, and whose subnodes are packed.
module _ (d : Members) (ms cs : Trees) (s : NodeSound d ms cs) (u : KnvTree)
    (metas children : ℕ → Packed)
    (pm : (room : ℕ) → Packs (wires (skips_first d ms) ms) room (metas room))
    (pc : (room : ℕ) → Packs (wires false cs) room (children room)) where
  module _ (len : ℕ) (hdr : Bool) (pre : List ℕ)
      (right : is_wrong hdr (eval_sz_of u) (eval_val_sz_of u) (length (pre ++ body d ms cs))
        ≡ false) where
    abbrev whole : List ℕ
    whole = pre ++ body d ms cs

    abbrev finished : List ℕ → Packed
    finished bytes =
        if is_wrong hdr (eval_sz_of u) (eval_val_sz_of u) (length bytes)
        then refused 10
        else packed bytes

    finished-Packs :
        (bytes : List ℕ) → bytes ≡ whole → length bytes ≤ len → Packs whole len (finished bytes)
    finished-Packs bytes e room =
        subst (λ xs. Packs whole len (finished xs)) (sym e)
          (subst (Packs whole len) (sym (if_false _ _ right))
            (fits (subst (λ xs. length xs ≤ len) e room)))

    abbrev behind_key : Buff → Packed
    behind_key b = or_refused (metas (len - length b.written)) λ xs.
        or_refused (children (len - length (b.written ++ xs)))
          λ ys. finished (b.written ++ xs ++ ys)

    whole_lem :
        (w : List ℕ)
        → w ≡ pre ++ key_wire d
        → w ++ wires (skips_first d ms) ms ++ wires false cs ≡ whole
    whole_lem w e =
        ap (λ v. v ++ wires (skips_first d ms) ms ++ wires false cs) e
        ∙ ap (λ v. v ++ wires false cs)
            (append_assoc pre (key_wire d) (wires (skips_first d ms) ms))
        ∙ append_assoc pre (key_wire d ++ wires (skips_first d ms) ms) (wires false cs)

    behind_key-Packs : (b : Buff) → At len (pre ++ key_wire d) b → Packs whole len (behind_key b)
    behind_key-Packs b at =
        let w = b.written in
        let xs = wires (skips_first d ms) ms in
        let ys = wires false cs in
        let e = whole_lem w at.has in
        let total = ap (λ v. length v) e in
        let two = length-append w xs in
        let three = length-append (w ++ xs) ys in
        let start : length w ≡ length (pre ++ key_wire d) = ap (λ v. length v) at.has in
        or_refused-Packs len w xs whole (metas (len - length w)) _ (omega (arith, at.left, start))
          (pm (len - length w)) (omega (arith, total, two, three))
          λ room.
            or_refused-Packs len (w ++ xs) ys whole (children (len - length (w ++ xs))) _
              (omega (arith, two, room)) (pc (len - length (w ++ xs))) (omega (arith, total, three))
              λ more. finished-Packs (w ++ xs ++ ys) e (omega (arith, three, more))

    key_part : length (pre ++ key_wire d) ≤ length whole
    key_part = omega (
      arith,
      length-append pre (key_wire d),
      length-append pre (body d ms cs),
      length-append (key_wire d ++ wires (skips_first d ms) ms) (wires false cs),
      length-append (key_wire d) (wires (skips_first d ms) ms),
    )

    behind_header-Packs :
        is_folded d ms ≡ false
        → (b : Buff) → At len pre b
        → Packs whole len (written_or 7 (pack_key d b) behind_key)
    unfolding pack_key key_wire
    behind_header-Packs expanded b at = elim (Bool-cases (has_key d)) [
      | inl h ↦
          let e = if_true (field_bytes 1 d.key.type (key_value d.key)) [] h in
          subst (λ r. Packs whole len (written_or 7 r behind_key)) (sym (if_true _ _ h))
            (written_or-Packs 7 len pre (field_bytes 1 d.key.type (key_value d.key)) whole b
              (pb_add_field_val b 1 d.key.type (key_value d.key)) behind_key at
              (pb_add_field_val-Writes b 1 d.key.type (key_value d.key) (s.keyed expanded h))
              (subst (λ xs. length (pre ++ xs) ≤ length whole) e key_part)
              λ b' at'. behind_key-Packs b' (subst (λ xs. At len (pre ++ xs) b') (sym e) at'))
      | inr h ↦
          let e = if_false (field_bytes 1 d.key.type (key_value d.key)) [] h in
          subst (λ r. Packs whole len (written_or 7 r behind_key)) (sym (if_false _ _ h))
            (written_or-ok 7 whole len b behind_key (
              behind_key-Packs b
                (subst (λ xs. At len xs b) (sym (ap (λ xs. pre ++ xs) e ∙ append-nil pre)) at)))
    ]

  -- With the header, when the sizes are those of the bytes.
  pack_expanded-Packs :
      (len : ℕ)
      → is_folded d ms ≡ false
      → eval_sz_of u ≡ length (wire (node d ms cs))
      → eval_val_sz_of u ≡ length (body d ms cs)
      → Packs (wire (node d ms cs)) len (pack_expanded d u len true metas children)
  unfolding pack_expanded pack_header
  pack_expanded-Packs len expanded size value =
      let pre = vint (2 + 8 * d.tag) ++ vint (length (body d ms cs)) in
      let e : wire (node d ms cs) ≡ pre ++ body d ms cs =
        wire-expanded d ms cs expanded
        ∙ field_bytes-string_of d.tag (body d ms cs) (s.inner expanded) in
      let right : is_wrong true (eval_sz_of u) (eval_val_sz_of u) (length (pre ++ body d ms cs))
          ≡ false =
        ap not (
          ap (λ n. length (pre ++ body d ms cs) == n) (size ∙ ap (λ xs. length xs) e)
          ∙ eq_self (length (pre ++ body d ms cs))) in
      subst (λ xs. Packs xs len (pack_expanded d u len true metas children)) (sym e)
        (written_or-Packs 6 len [] pre (pre ++ body d ms cs) (new_buff len)
          (pb_add_string_head (new_buff len) d.tag (eval_val_sz_of u)) _ (At-new len)
          (subst (λ n. Writes (new_buff len) pre (pb_add_string_head (new_buff len) d.tag n))
            (sym value)
            (pb_add_string_head-Writes (new_buff len) d.tag (length (body d ms cs)) s.tag_small
              (omega (arith, s.inner expanded))))
          (omega (arith, length-append pre (body d ms cs)))
          (behind_header-Packs len true pre right expanded))

  -- The value alone.
  pack_value-Packs :
      (len : ℕ)
      → is_folded d ms ≡ false
      → eval_val_sz_of u ≡ length (body d ms cs)
      → Packs (body d ms cs) len (pack_expanded d u len false metas children)
  unfolding pack_expanded pack_header
  pack_value-Packs len expanded value =
      let right : is_wrong false (eval_sz_of u) (eval_val_sz_of u) (length (body d ms cs)) ≡ false =
        ap not (ap (λ n. length (body d ms cs) == n) value ∙ eq_self (length (body d ms cs))) in
      written_or-ok 6 (body d ms cs) len (new_buff len) _
        (behind_header-Packs len false [] right expanded (new_buff len) (At-new len))

  pack-Packs :
      (len : ℕ)
      → eval_sz_of u ≡ length (wire (node d ms cs))
      → (is_folded d ms ≡ false → eval_val_sz_of u ≡ length (body d ms cs))
      → Packs (wire (node d ms cs)) len (pack d ms u metas children len true)
  unfolding pack
  pack-Packs len size value =
      subst (Packs (wire (node d ms cs)) len) (sym (if_false _ _ (tagged d.tag s.tag_pos)))
        (elim (Bool-cases (is_folded d ms)) [
          | inl folded ↦ subst (Packs (wire (node d ms cs)) len) (sym (if_true _ _ folded)) (
              subst (λ xs. Packs xs len (pack_folded d len true)) (sym (wire-folded d ms cs folded))
                (pack_folded-Packs d len (s.leaf folded)))
          | inr expanded ↦
              subst (Packs (wire (node d ms cs)) len) (sym (if_false _ _ expanded))
                (pack_expanded-Packs len expanded size (value expanded))
        ])
    where
      tagged : (n : ℕ) → 0 < n → (n == 0) ≡ false
      tagged n h = ground arith

mutual
  unfolding serialize wires

  serialize-Packs : (t : KnvTree) → Sound t → (len : ℕ) → Packs (wire t) len (serialize t len true)
  serialize-Packs (node d ms cs) (s, all_ms, all_cs) len =
      let e = evaluate-SizedTree (node d ms cs) (s, all_ms, all_cs) in
      pack-Packs d ms cs s (evaluate (node d ms cs)) (serialize_list 8 (skips_first d ms) ms)
        (serialize_list 9 false cs)
        (λ room. serialize_list-Packs 8 (skips_first d ms) ms all_ms room)
        (λ room. serialize_list-Packs 9 false cs all_cs room) len e.size e.value

  serialize_list-Packs :
      (n : ℕ) (skip : Bool) (ts : Trees)
      → AllSound ts
      → (room : ℕ) → Packs (wires skip ts) room (serialize_list n skip ts room)
  serialize_list-Packs n skip nil sound room = fits (omega arith)
  serialize_list-Packs n true (cons t ts) (one, sound) room =
      serialize_list-Packs n false ts sound room
  serialize_list-Packs n false (cons t ts) (one, sound) room =
      let two = length-append (wire t) (wires false ts) in
      or_code-Packs n room (wire t) (wire t ++ wires false ts) (serialize t room true) _
        (serialize-Packs t one room) (omega (arith, two))
        λ fit.
          or_refused-Packs room (wire t) (wires false ts) (wire t ++ wires false ts) _ _ fit
            (serialize_list-Packs n false ts sound (room - length (wire t))) (omega (arith, two))
            λ more. fits (omega (arith, two, more))

-- Serialize with the header, into a buffer of any length: for every tree whose known sizes are right
-- and whose fields the format can carry, it writes the bytes that the tree stands for exactly when
-- there is room for them, and returns an error otherwise. Its last test of the size never fails.
pub serialize-wire : (t : KnvTree) (len : ℕ) → Sound t → Packs (wire t) len (serialize t len true)
serialize-wire t len s = serialize-Packs t s len

-- Serialize of an expanded node without the header, in the same way: the value alone.
pub serialize-body :
    (t : KnvTree) (len : ℕ)
    → Sound t
    → folded_of t ≡ false
    → Packs (body_of t) len (serialize t len false)
unfolding serialize pack
serialize-body (node d ms cs) len (s, all_ms, all_cs) expanded =
    let e = evaluate-SizedTree (node d ms cs) (s, all_ms, all_cs) in
    subst (Packs (body d ms cs) len) (sym (if_false _ _ (tagged d.tag s.tag_pos))) (
      subst (Packs (body d ms cs) len) (sym (if_false _ _ expanded)) (
        pack_value-Packs d ms cs s (evaluate (node d ms cs))
          (serialize_list 8 (skips_first d ms) ms) (serialize_list 9 false cs)
          (λ room. serialize_list-Packs 8 (skips_first d ms) ms all_ms room)
          (λ room. serialize_list-Packs 9 false cs all_cs room) len expanded (e.value expanded)))
  where
    tagged : (n : ℕ) → 0 < n → (n == 0) ≡ false
    tagged n h = ground arith
