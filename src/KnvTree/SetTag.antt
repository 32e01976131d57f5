-- ===== src/KnvTree/SetTag.antt =====
-- SetTag of knv/knv_node.cc at an expanded node somewhere in a tree.
use mysql_proxy.Common.{
  ℕ, ◌^◌, ◌<◌, ◌≡◌, refl, sym, ap, ◌∙◌, Bool, true, false, Option, some, List, length, ◌==◌,
  if◌then◌else◌, if_true, if_false, arith, ==_iff, Ret, ret, fail,
}
use mathlib.Core.Path.{subst}
use mysql_proxy.Pb.Types.{wt_string}
use mysql_proxy.Pb.Size.{pb_eval_field_length}
use mysql_proxy.KnvTree.Node.{Members, KnvTree, node, has_key, skips_first, of_length}
use mysql_proxy.KnvTree.Wire.{key_wire, wire, body, Sound}
use mysql_proxy.KnvTree.Updating.{
  difference, size_or_minus_one, is_known, update_parent_evalue_and_set_dirty, Place, tree_at,
}
use mysql_proxy.KnvTree.Open.{
  message, IsShort, Open, Open-wire, Open-NodeSound, message_size, dirty-expanded,
}
use mysql_proxy.KnvTree.Above.{whole_with, StaysShort, OpenAbove-Sound, OpenAbove-wire}
use mysql_proxy.KnvTree.Changing.{InPlace, update_parent-Climbed, AllDirty-above}

-- The size of the node with the tag.
unfoldable pub retagged_size : Members → (t : ℕ) → ℕ
retagged_size d t =
    if d.type == wt_string
    then pb_eval_field_length t d.type (of_length d.eval_val_sz)
    else pb_eval_field_length t d.type d.val

-- SetTag; the parent's hash table takes the node out and in again, which is KnvHt.
unfoldable pub set_tag : Place → (t : ℕ) → Ret × Place
set_tag p t =
    let d = p.members in
    let known = is_known d.eval_sz in
    if t == 0 then (fail 1, p) else if d.tag == 0 then (fail 2, p) else (
      ret 0,
      record p {
        members = record d {
          tag = t;
          eval_sz = if known then some (retagged_size d t) else d.eval_sz;
          subnode_dirty = true;
        };
        above =
            update_parent_evalue_and_set_dirty
              (if known then difference (retagged_size d t) (size_or_minus_one d.eval_sz) else 0)
              p.above;
      },
    )

-- The tree with the node under the tag.
pub record Retagged (p : Place) (t : ℕ) (r : Ret × Place) : Type 0 where
  pub done : r.0 ≡ ret 0
  pub in_place : InPlace r.1
  pub sound : Sound (tree_at r.1)
  pub bytes :
      wire (tree_at r.1) ≡ whole_with p.above (message t (body p.members p.metas p.children))

module _ (p : Place) (t : ℕ) (v : InPlace p) (pos : 0 < t) (small : t < 2 ^ 29)
    (short : IsShort t (body p.members p.metas p.children))
    (room : StaysShort p.above (message t (body p.members p.metas p.children))) where
  abbrev value : List ℕ
  value = body p.members p.metas p.children

  abbrev new_members : (e : Option ℕ) → Members
  new_members e = record (p.members) { tag = t; eval_sz = e; subnode_dirty = true }

  abbrev new_node : KnvTree
  new_node = node (new_members (some (length (message t value)))) p.metas p.children

  new_size : retagged_size p.members t ≡ length (message t value)
  unfolding retagged_size
  new_size =
      if_true _ _ ((==_iff p.members.type 2).1 v.open_node.is_string)
      ∙ ap (λ k. pb_eval_field_length t k (of_length p.members.eval_val_sz)) v.open_node.is_string
      ∙ ap (λ n. pb_eval_field_length t 2 (of_length n)) v.open_node.value
      ∙ message_size t value small short

  new_Open : Open (new_members (some (length (message t value)))) p.metas p.children
  unfolding has_key key_wire skips_first
  new_Open =
      let o = v.open_node in
      record {
        tag_pos = pos;
        tag_small = small;
        is_string = o.is_string;
        opened = o.opened;
        short = short;
        keyed = o.keyed;
        size = refl;
        value = o.value;
        content = λ folded. absurd (
            clash (
              sym folded
              ∙ dirty-expanded (new_members (some (length (message t value)))) p.metas o.is_string
                  o.opened refl));
      }
    where
      clash : true ≡ false → ⊥
      clash e = ground arith

  new_wire : wire new_node ≡ message t value
  unfolding has_key key_wire skips_first
  new_wire = Open-wire (new_members (some (length (message t value)))) p.metas p.children new_Open

  old_wire : wire (node p.members p.metas p.children) ≡ message p.members.tag value
  old_wire = Open-wire p.members p.metas p.children v.open_node

  abbrev offset : ℕ
  offset = difference (retagged_size p.members t) (size_or_minus_one p.members.eval_sz)

  offset_lem :
      offset
      ≡ difference (length (wire new_node)) (length (wire (node p.members p.metas p.children)))
  offset_lem =
      ap (λ (n : ℕ). difference n (size_or_minus_one p.members.eval_sz)) new_size
      ∙ ap (λ (o : Option ℕ). difference (length (message t value)) (size_or_minus_one o))
          v.open_node.size
      ∙ ap (λ (xs : List ℕ). difference (length xs) (length (message p.members.tag value)))
          (sym new_wire)
      ∙ ap (λ (xs : List ℕ). difference (length (wire new_node)) (length xs)) (sym old_wire)

  abbrev placed : (e : Option ℕ) (n : ℕ) → Place
  placed e n = record p {
    members = new_members e;
    above = update_parent_evalue_and_set_dirty n p.above;
  }

  placed-Retagged : Retagged p t (ret 0, placed (some (length (message t value))) offset)
  placed-Retagged =
      let fs = update_parent_evalue_and_set_dirty offset p.above in
      let up =
        update_parent-Climbed (node p.members p.metas p.children) new_node p.above
          p.members.subnode_dirty offset v.above v.dirty
          (subst (StaysShort p.above) (sym new_wire) room) offset_lem
          (subst (λ xs. length xs < 2 ^ 31) (sym old_wire) v.open_node.short.1)
          (subst (λ xs. length xs < 2 ^ 31) (sym new_wire) short.1) in
      record {
        done = refl;
        in_place = record {
          open_node = new_Open;
          metas = v.metas;
          children = v.children;
          above = up.open_above;
          dirty = AllDirty-above true fs up.dirty;
        };
        sound =
            OpenAbove-Sound new_node fs
              (
                Open-NodeSound (new_members (some (length (message t value)))) p.metas p.children
                    new_Open,
                v.metas,
                v.children,
              )
              up.open_above;
        bytes =
            OpenAbove-wire new_node fs up.open_above
            ∙ up.bytes (wire new_node)
            ∙ ap (whole_with p.above) new_wire;
      }

  -- SetTag, to a tag of 29 bits that is not 0, of an expanded node, reached from the root through
  -- lists of children, of a tree with known and right sizes, whose nodes above a dirty one are
  -- dirty, returns 0; the tree then stands for the bytes with the node under the new tag, and the
  -- sizes and marks up to the root are right, as long as no node becomes longer than an int can
  -- say.
  pub set_tag-Retagged : Retagged p t (set_tag p t)
  unfolding set_tag
  set_tag-Retagged = subst (Retagged p t) (sym (if_false _ _ (nonzero t pos))) (
      subst (Retagged p t) (sym (if_false _ _ (nonzero p.members.tag v.open_node.tag_pos))) (
        subst
          (λ (b : Bool). Retagged p t (
            ret 0,
            placed (if b then some (retagged_size p.members t) else p.members.eval_sz)
                (if b then offset else 0),
          ))
          (sym (ap is_known v.open_node.size))
          (subst (λ (n : ℕ). Retagged p t (ret 0, placed (some n) offset)) (sym new_size)
            placed-Retagged)))
    where
      nonzero : (n : ℕ) → 0 < n → (n == 0) ≡ false
      nonzero n h = ground arith
