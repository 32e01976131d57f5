-- ===== src/KnvTree/Folding.antt =====
-- Fold and Serialize of knv/knv_node.cc on a tree whose sizes are right.
use mysql_proxy.Common.{
  ℕ, ◌+◌, ◌*◌, ◌/◌, ◌%◌, ◌^◌, ◌≤◌, ◌<◌, ◌≡◌, refl, sym, ap, ◌∙◌, true, false, Option, some, List,
  take, length, ◌==◌, if_true, if_false, arith, ==_iff, Ret, ret,
}
use mathlib.Core.Path.{subst}
use mysql_proxy.Pb.Types.{get_i32, set_i32}
use mysql_proxy.Pb.Wire.{field_bytes, IsSendable, SameValue, known_type}
use mysql_proxy.KnvTree.Node.{
  Members, KnvTree, node, Trees, nil, is_folded, eval_sz_of, eval_val_sz_of, evaluate,
  evaluate_size,
}
use mysql_proxy.KnvTree.Wire.{string_of, wire, body, body_of, folded_of, NodeSound, Sound}
use mysql_proxy.KnvTree.Packing.{Packed, serialize}
use mysql_proxy.KnvTree.Sizes.{word_of, is_folded-type, wire-folded, wire-expanded}
use mysql_proxy.KnvTree.Evaluating.{evaluate_size-wire, evaluate-SizedTree}
use mysql_proxy.KnvTree.Packs.{Packs, fits, too_long}
use mysql_proxy.KnvTree.Serializing.{serialize-wire, serialize-body}
use mysql_proxy.KnvTree.Fields.{SameValue-bytes}
use mysql_proxy.KnvTree.Fold.{folded_members, fold_packed, fold, string_packed, serialize_string}

string_packed-Packs :
    (bytes : List ℕ) (n : ℕ) (r : Packed)
    → n ≡ length bytes
    → Packs bytes n r
    → string_packed n r ≡ some (ret 0, bytes)
unfolding string_packed
string_packed-Packs bytes n r e (fits room) = if_true _ _ ((==_iff n (length bytes)).1 e)
string_packed-Packs bytes n r e (too_long short) = absurd (omega (arith, short, e))

-- Serialize into a string that can be resized returns 0 and just the bytes that the tree stands for,
-- for every tree whose known sizes are right.
pub serialize_string-wire : (t : KnvTree) → Sound t → serialize_string true t ≡ some (ret 0, wire t)
unfolding serialize_string evaluate_size
serialize_string-wire t s =
    let e = evaluate_size-wire t s in
    string_packed-Packs (wire t) (eval_sz_of (evaluate t))
      (serialize (evaluate t) (eval_sz_of (evaluate t)) true) e.0
      (subst
        (λ xs.
          Packs xs (eval_sz_of (evaluate t))
            (serialize (evaluate t) (eval_sz_of (evaluate t)) true))
        e.1 (serialize-wire (evaluate t) (eval_sz_of (evaluate t)) e.2))

-- What a node becomes when it is folded: a node without subnodes that has just its bytes as the value.
pub record FoldedTo (t : KnvTree) (r : Option (Ret × KnvTree)) : Type 0 where
  pub tree : KnvTree
  pub result : r ≡ some (ret 0, tree)
  pub sound : Sound tree
  pub bytes : wire tree ≡ wire t
  pub folded : folded_of tree ≡ true

-- The new value is the string.
value-string :
    (d : Members) (bytes : List ℕ)
    → length bytes < 2 ^ 31
    → field_bytes d.tag 2 (folded_members d bytes).val ≡ field_bytes d.tag 2 (string_of bytes)
unfolding SameValue get_i32 set_i32 known_type
value-string d bytes short =
    let n = length bytes in
    let e : (d.val.i64 / 2 ^ 32 * 2 ^ 32 + n % 2 ^ 32) % 2 ^ 32 ≡ n % 2 ^ 32 = omega arith in
    SameValue-bytes d.tag 2 (folded_members d bytes).val (string_of bytes) refl
      (e, ap (λ k. take k bytes) e)

value-IsSendable :
    (d : Members) (bytes : List ℕ)
    → d.tag < 2 ^ 29
    → d.type ≡ 2
    → d.val.i64 < 2 ^ 64
    → length bytes < 2 ^ 31
    → IsSendable d.tag d.type (folded_members d bytes).val
unfolding get_i32 set_i32 known_type
value-IsSendable d bytes small type word short = record {
  tag_small = small;
  known = ap known_type type;
  value_small = omega (arith, word);
  inside = λ e. omega (arith, short);
}

module _ (d : Members) (ms cs : Trees) (s : NodeSound d ms cs) (expanded : is_folded d ms ≡ false)
    (word : d.val.i64 < 2 ^ 64) (value : d.eval_val_sz ≡ length (body d ms cs)) where
  abbrev new_members : Members
  new_members = folded_members d (body d ms cs)

  type_string : d.type ≡ 2
  type_string = is_folded-type d ms expanded

  new_folded : is_folded new_members nil ≡ true
  unfolding is_folded
  new_folded = ground arith

  new_wire : wire (node new_members nil nil) ≡ wire (node d ms cs)
  new_wire =
      wire-folded new_members nil nil new_folded
      ∙ ap (λ t. field_bytes d.tag t new_members.val) type_string
      ∙ value-string d (body d ms cs) (s.inner expanded)
      ∙ sym (wire-expanded d ms cs expanded)

  new_NodeSound : NodeSound new_members nil nil
  new_NodeSound = record {
    tag_pos = s.tag_pos;
    tag_small = s.tag_small;
    short = subst (λ xs. length xs < 2 ^ 31) (sym new_wire) s.short;
    leaf =
        λ folded. value-IsSendable d (body d ms cs) s.tag_small type_string word (s.inner expanded);
    inner = λ unfolded. absurd (clash (sym new_folded ∙ unfolded));
    keyed = λ unfolded. absurd (clash (sym new_folded ∙ unfolded));
    size = λ n e. s.size n e ∙ ap (λ xs. length xs) (sym new_wire);
    value_size = λ n e unfolded. absurd (clash (sym new_folded ∙ unfolded));
  }
    where
      clash : true ≡ false → ⊥
      clash e = ground arith

  -- Behind Serialize.
  fold_packed-FoldedTo :
      (room : ℕ) (r : Packed)
      → length (body d ms cs) ≤ room
      → Packs (body d ms cs) room r
      → FoldedTo (node d ms cs) (fold_packed (node d ms cs) r)
  unfolding fold_packed
  fold_packed-FoldedTo room r enough (fits _) = record {
    tree = node new_members nil nil;
    result = if_true _ _ ((==_iff d.eval_val_sz (length (body d ms cs))).1 value);
    sound = (new_NodeSound, tt, tt);
    bytes = new_wire;
    folded = new_folded;
  }
  fold_packed-FoldedTo room r enough (too_long short) = absurd (omega (arith, short, enough))

fold_evaluated :
    (v : KnvTree) (size : ℕ)
    → Sound v
    → folded_of v ≡ false
    → word_of v < 2 ^ 64
    → eval_val_sz_of v ≡ length (body_of v)
    → length (body_of v) ≤ size
    → FoldedTo v (fold_packed v (serialize v size false))
fold_evaluated (node d ms cs) size (s, all_ms, all_cs) expanded word value enough =
    fold_packed-FoldedTo d ms cs s expanded word value size (serialize (node d ms cs) size false)
      enough (serialize-body (node d ms cs) size (s, all_ms, all_cs) expanded)

-- Fold of a tree whose known sizes are right, which is not folded already, into a buffer with room
-- for its value, returns 0 and leaves a node without subnodes, whose value is up to date and whose
-- sizes are right, and which stands for the same bytes.
pub fold-FoldedTo :
    (t : KnvTree) (size : ℕ)
    → Sound t
    → folded_of t ≡ false
    → word_of t < 2 ^ 64
    → length (body_of t) ≤ size
    → FoldedTo t (fold (some size) t)
unfolding fold
fold-FoldedTo (node d ms cs) size (s, all_ms, all_cs) expanded word enough =
    let e = evaluate-SizedTree (node d ms cs) (s, all_ms, all_cs) in
    let v = evaluate (node d ms cs) in
    let f =
      fold_evaluated v size e.sound (e.folded_kept ∙ expanded)
        (subst (λ n. n < 2 ^ 64) (sym e.word_kept) word)
        (e.value expanded ∙ ap (λ xs. length xs) (sym e.body_kept))
        (subst (λ xs. length xs ≤ size) (sym e.body_kept) enough) in
    record {
      tree = f.tree;
      result = if_false _ _ (tagged d.tag s.tag_pos) ∙ if_false _ _ expanded ∙ f.result;
      sound = f.sound;
      bytes = f.bytes ∙ e.same;
      folded = f.folded;
    }
  where
    tagged : (n : ℕ) → 0 < n → (n == 0) ≡ false
    tagged n h = ground arith
