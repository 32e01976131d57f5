-- ===== src/KnvTree/SettingInt.antt =====
-- SetValue(uint64_t) of knv/knv_node.cc at a leaf somewhere in a tree.
use mysql_proxy.Common.{
  ℕ, ◌+◌, ◌*◌, ◌^◌, ◌<◌, ◌≡◌, refl, sym, ap, ◌∙◌, Bool, true, false, ◌||◌, Option, some, List,
  length, length-append, ◌==◌, if_true, if_false, arith, Ret, ret,
}
use mathlib.Core.Path.{subst}
use mathlib.Core.Option.{some-injective}
use mysql_proxy.Pb.Types.{FieldVal, get_i32, wt_varint, wt_fixed64, wt_fixed32}
use mysql_proxy.Pb.Wire.{
  vint, payload, field_bytes, IsSendable, known_type, length-groups, length-le_bytes,
}
use mysql_proxy.Pb.Size.{pb_eval_field_length, pb_eval_field_length-field_bytes}
use mysql_proxy.KnvTree.Node.{Members, KnvTree, node, Trees, is_folded, has_key}
use mysql_proxy.KnvTree.Wire.{wire, NodeSound, Sound}
use mysql_proxy.KnvTree.Sizes.{wire-folded}
use mysql_proxy.KnvTree.Updating.{
  difference, size_or_minus_one, update_parent_evalue_and_set_dirty, Place, tree_at, set_int_value,
}
use mysql_proxy.KnvTree.Above.{
  whole_with, StaysShort, OpenAbove, DirtyAbove, OpenAbove-Sound, OpenAbove-wire,
}
use mysql_proxy.KnvTree.Changing.{update_parent-Climbed}

-- The types that SetValue(uint64_t) takes.
abbrev pub takes_int : ℕ → Bool
takes_int t = (t == wt_varint) || (t == wt_fixed64) || (t == wt_fixed32)

-- The field of such a leaf with the number.
abbrev pub int_field : Members → ℕ → List ℕ
int_field d n = field_bytes d.tag d.type (record (d.val) { i64 = n })

-- A leaf among the children that holds a number, of a known size, under expanded nodes with known
-- sizes. A meta, which GetMeta hands out, is not such a leaf.
pub record IntLeaf (p : Place) (m : ℕ) : Type 0 where
  pub takes : takes_int p.members.type ≡ true
  pub known : p.members.eval_sz ≡ some m
  pub sound : Sound (node p.members p.metas p.children)
  pub above : OpenAbove (node p.members p.metas p.children) p.above
  pub dirty : DirtyAbove p.members.subnode_dirty p.above

-- After it: success, and a sound tree with the bytes of the number in the place of the leaf.
pub record IntSet (p : Place) (n : ℕ) (r : Ret × Place) : Type 0 where
  pub done : r.0 ≡ ret 0
  pub sound : Sound (tree_at r.1)
  pub bytes : wire (tree_at r.1) ≡ whole_with p.above (int_field p.members n)

number-folded : (d : Members) (ms : Trees) → takes_int d.type ≡ true → is_folded d ms ≡ true
unfolding is_folded
number-folded d ms h = ground (arith, h)

number-IsSendable :
    (d : Members) (n : ℕ)
    → d.tag < 2 ^ 29
    → takes_int d.type ≡ true
    → n < 2 ^ 64
    → IsSendable d.tag d.type (record (d.val) { i64 = n })
unfolding known_type
number-IsSendable d n small takes h = record {
  tag_small = small;
  known = ground (arith, takes);
  value_small = h;
  inside = λ e. ground (arith, takes, e);
}

number-short : (d : Members) (n : ℕ) → takes_int d.type ≡ true → length (int_field d n) < 2 ^ 31
unfolding field_bytes payload vint
number-short d n h = ground (
  arith,
  h,
  length-append (vint (d.type + 8 * d.tag)) (payload d.type (record (d.val) { i64 = n })),
  length-groups 9 (d.type + 8 * d.tag),
  length-groups 9 n,
  length-le_bytes 8 n,
  length-le_bytes 4 (get_i32 (record (d.val) { i64 = n })),
)

module _ (p : Place) (m n : ℕ) (l : IntLeaf p m) (small : n < 2 ^ 64)
    (room : StaysShort p.above (int_field p.members n)) where
  abbrev new_val : FieldVal
  new_val = record (p.members.val) { i64 = n }

  abbrev new_size : ℕ
  new_size = pb_eval_field_length p.members.tag p.members.type new_val

  abbrev new_members : Members
  new_members = record (p.members) {
    val = new_val;
    eval_sz = some new_size;
    eval_val_sz = 0;
    subnode_dirty = true;
  }

  abbrev new_node : KnvTree
  new_node = node new_members p.metas p.children

  -- The tag of the leaf can be sent.
  new_IsSendable : IsSendable p.members.tag p.members.type new_val
  new_IsSendable = number-IsSendable p.members n l.sound.0.tag_small l.takes small

  new_size-field : new_size ≡ length (int_field p.members n)
  new_size-field =
      pb_eval_field_length-field_bytes p.members.tag p.members.type new_val new_IsSendable
        (number-short p.members n l.takes)

  new_wire : wire new_node ≡ int_field p.members n
  new_wire = wire-folded new_members p.metas p.children (number-folded new_members p.metas l.takes)

  new_NodeSound : NodeSound new_members p.metas p.children
  unfolding has_key
  new_NodeSound = record {
    tag_pos = l.sound.0.tag_pos;
    tag_small = l.sound.0.tag_small;
    short = subst (λ xs. length xs < 2 ^ 31) (sym new_wire) (number-short p.members n l.takes);
    leaf = λ folded. new_IsSendable;
    inner = λ expanded. absurd (clash (sym (number-folded new_members p.metas l.takes) ∙ expanded));
    keyed = λ expanded. absurd (clash (sym (number-folded new_members p.metas l.takes) ∙ expanded));
    size = λ k e. some-injective _ _ (sym e) ∙ new_size-field ∙ ap (λ xs. length xs) (sym new_wire);
    value_size =
        λ k e expanded. absurd (clash (sym (number-folded new_members p.metas l.takes) ∙ expanded));
  }
    where
      clash : true ≡ false → ⊥
      clash e = ground arith

  set_place : Place
  set_place = record p {
    members = new_members;
    above =
        update_parent_evalue_and_set_dirty
          (difference new_size (size_or_minus_one p.members.eval_sz)) p.above;
  }

  grown :
      difference new_size (size_or_minus_one p.members.eval_sz)
      ≡ difference (length (wire new_node)) (length (wire (node p.members p.metas p.children)))
  grown =
      ap (λ (k : ℕ). difference k (size_or_minus_one p.members.eval_sz))
        (new_size-field ∙ ap (λ xs. length xs) (sym new_wire))
      ∙ ap (λ (o : Option ℕ). difference (length (wire new_node)) (size_or_minus_one o)) l.known
      ∙ ap (λ (k : ℕ). difference (length (wire new_node)) k) (l.sound.0.size m l.known)

  set-IntSet : IntSet p n (ret 0, set_place)
  unfolding set_place
  set-IntSet =
      let up =
        update_parent-Climbed (node p.members p.metas p.children) new_node p.above
          p.members.subnode_dirty (difference new_size (size_or_minus_one p.members.eval_sz))
          l.above l.dirty (subst (StaysShort p.above) (sym new_wire) room) grown l.sound.0.short
          new_NodeSound.short in
      record {
        done = refl;
        sound =
            OpenAbove-Sound new_node set_place.above (new_NodeSound, l.sound.1, l.sound.2)
              up.open_above;
        bytes =
            OpenAbove-wire new_node set_place.above up.open_above
            ∙ up.bytes (wire new_node)
            ∙ ap (whole_with p.above) new_wire;
      }

  -- SetValue(uint64_t) of a leaf of a number type among the children, with a size that is known and,
  -- above it, expanded nodes with right sizes, each reached through the list of the children, returns 0, and the whole tree is sound and stands for the bytes with those
  -- of the new number in the place of the leaf, as long as no node above becomes longer than an int
  -- can say.
  pub set_int_value-IntSet : IntSet p n (set_int_value p n)
  unfolding set_int_value set_place
  set_int_value-IntSet =
      subst (IntSet p n) (sym (if_false _ _ (tagged p.members.tag l.sound.0.tag_pos)))
        (subst (IntSet p n) (sym (if_true _ _ l.takes)) set-IntSet)
    where
      tagged : (k : ℕ) → 0 < k → (k == 0) ≡ false
      tagged k h = ground arith
