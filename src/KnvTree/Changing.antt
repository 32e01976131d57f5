-- ===== src/KnvTree/Changing.antt =====
-- InsertChild, RemoveChildByPos and DetachChild of knv/knv_node.cc at a node somewhere in a tree.
use mysql_proxy.Common.{
  ℕ, ◌^◌, ◌<◌, ◌≡◌, refl, sym, ap, ◌∙◌, Bool, true, false, not, Option, List, [], ◌∷◌, ◌++◌, length,
  ◌==◌, if_true, arith, ==_iff,
}
use mathlib.Core.Path.{subst}
use mysql_proxy.Pb.Types.{set_i32}
use mysql_proxy.KnvTree.Node.{
  Members, KnvTree, node, Trees, has_key, has_no_subnodes, skips_first, evaluate_size,
}
use mysql_proxy.KnvTree.Wire.{key_wire, wire, wires, body, Sound, AllSound}
use mysql_proxy.KnvTree.Evaluating.{evaluate_size-wire}
use mysql_proxy.KnvTree.Updating.{
  Frame, plug, difference, update_eval_sz, set_value_dirty, is_known,
  update_parent_evalue_and_set_dirty, Place, tree_at, resize,
}
use mysql_proxy.KnvTree.Open.{
  message, IsShort, Open, Open-wire, Open-NodeSound, reopened, reopened-Open,
  update_eval_sz-Resized, no_change,
}
use mysql_proxy.KnvTree.Above.{
  whole_with, StaysShort, OpenAbove, DirtyAbove, AllDirty, OpenAbove-Sound, OpenAbove-wire,
}
use mysql_proxy.KnvTree.Climbing.{Climbed}
use mysql_proxy.KnvTree.Parents.{climb}

-- An expanded node in a tree, with expanded nodes above it. All their sizes are known and right, what
-- stands beside them is sound, and above a dirty node every node is dirty.
pub record InPlace (p : Place) : Type 0 where
  pub open_node : Open p.members p.metas p.children
  pub metas : AllSound p.metas
  pub children : AllSound p.children
  pub above : OpenAbove (node p.members p.metas p.children) p.above
  pub dirty : DirtyAbove p.members.subnode_dirty p.above

-- The value of the node when its children stand for the bytes, and the whole tree then.
abbrev pub value_at : Place → List ℕ → List ℕ
value_at p xs = key_wire p.members ++ wires (skips_first p.members p.metas) p.metas ++ xs

abbrev pub whole_at : Place → List ℕ → List ℕ
whole_at p xs = whole_with p.above (message p.members.tag (value_at p xs))

-- Neither the node nor one above it becomes longer than an int can say.
pub record HasRoomFor (p : Place) (xs : List ℕ) : Type 0 where
  pub here : IsShort p.members.tag (value_at p xs)
  pub above : StaysShort p.above (message p.members.tag (value_at p xs))

-- After an operation that gives the children of the node the bytes `xs`: all that held, for the
-- new sizes and bytes.
pub record Changed (p r : Place) (xs : List ℕ) : Type 0 where
  pub in_place : InPlace r
  pub sound : Sound (tree_at r)
  pub bytes : wire (tree_at r) ≡ whole_at p xs
  pub size : evaluate_size (tree_at r) ≡ length (whole_at p xs)

pub DirtyAbove-clean : (b : Bool) (fs : List Frame) → DirtyAbove b fs → DirtyAbove false fs
DirtyAbove-clean b [] d = tt
DirtyAbove-clean b (f ∷ fs) d = ((λ h. absurd (clash h)), d.1)
  where
    clash : false ≡ true → ⊥
    clash h = ground arith

pub AllDirty-above : (b : Bool) (fs : List Frame) → AllDirty fs → DirtyAbove b fs
AllDirty-above b [] d = tt
AllDirty-above b (f ∷ fs) d = ((λ h. d.0), AllDirty-above f.members.subnode_dirty fs d.1)

-- UpdateParentEvalueAndSetDirty after a change of the node below.
pub update_parent-Climbed :
    (t u : KnvTree) (fs : List Frame) (b : Bool) (offset : ℕ)
    → OpenAbove t fs
    → DirtyAbove b fs
    → StaysShort fs (wire u)
    → offset ≡ difference (length (wire u)) (length (wire t))
    → length (wire t) < 2 ^ 31
    → length (wire u) < 2 ^ 31
    → Climbed u fs (update_parent_evalue_and_set_dirty offset fs)
unfolding update_parent_evalue_and_set_dirty
update_parent-Climbed t u fs b offset o d short e st su =
    climb t u fs true (not (offset == 0)) offset o (DirtyAbove-clean b fs d) short
      (record {
        counted = λ h. e;
        same = λ h.
            no_change (length (wire u)) (length (wire t)) su st
              (sym e ∙ (==_iff offset 0).0 (is_zero h));
      })
      st su
  where
    is_zero : not (offset == 0) ≡ false → (offset == 0) ≡ true
    is_zero h = ground (arith, h)

-- The end of the operations: the node gets the children `us` and the number `c` of them.
module _ (p : Place) (us : Trees) (c : Option ℕ) (v : InPlace p) (sound : AllSound us)
    (opened : has_no_subnodes c p.metas ≡ false) (room : HasRoomFor p (wires false us)) where
  abbrev new_value : List ℕ
  new_value = value_at p (wires false us)

  abbrev new_members : Members
  new_members = reopened p.members (set_i32 p.members.val 0) c p.members.tag new_value

  new_Open : Open new_members p.metas us
  new_Open =
      reopened-Open p.members p.metas p.children us (set_i32 p.members.val 0) c v.open_node opened
        room.here

  same_value : body new_members p.metas us ≡ new_value
  unfolding key_wire has_key skips_first
  same_value = refl

  old_wire :
      wire (node p.members p.metas p.children)
      ≡ message p.members.tag (body p.members p.metas p.children)
  old_wire = Open-wire p.members p.metas p.children v.open_node

  new_wire : wire (node new_members p.metas us) ≡ message p.members.tag new_value
  new_wire = Open-wire new_members p.metas us new_Open ∙ ap (message p.members.tag) same_value

  settled-Changed :
      (n : ℕ)
      → n
        ≡ difference
            (length (message p.members.tag new_value))
            (length (message p.members.tag (body p.members p.metas p.children)))
      → Changed p
          (record p {
            members = new_members;
            children = us;
            above = update_parent_evalue_and_set_dirty n p.above;
          })
          (wires false us)
  settled-Changed n e =
      let t = node p.members p.metas p.children in
      let u = node new_members p.metas us in
      let fs = update_parent_evalue_and_set_dirty n p.above in
      let up =
        update_parent-Climbed t u p.above p.members.subnode_dirty n v.above v.dirty
          (subst (StaysShort p.above) (sym new_wire) room.above)
          (e
            ∙ ap
                (λ xs.
                  difference (length xs)
                    (length (message p.members.tag (body p.members p.metas p.children))))
                (sym new_wire)
            ∙ ap (λ xs. difference (length (wire u)) (length xs)) (sym old_wire))
          (subst (λ xs. length xs < 2 ^ 31) (sym old_wire) v.open_node.short.1)
          (subst (λ xs. length xs < 2 ^ 31) (sym new_wire) room.here.1) in
      let whole : Sound (plug u fs) =
        OpenAbove-Sound u fs (Open-NodeSound new_members p.metas us new_Open, v.metas, sound)
          up.open_above in
      let bytes : wire (plug u fs) ≡ whole_at p (wires false us) =
        OpenAbove-wire u fs up.open_above ∙ up.bytes (wire u) ∙ ap (whole_with p.above) new_wire in
      record {
        in_place = record {
          open_node = new_Open;
          metas = v.metas;
          children = sound;
          above = up.open_above;
          dirty = AllDirty-above true fs up.dirty;
        };
        sound = whole;
        bytes = bytes;
        size = (evaluate_size-wire (plug u fs) whole).0 ∙ ap (λ xs. length xs) bytes;
      }

  pub resize-Changed :
      (offset : ℕ)
      → offset ≡ difference (length new_value) (length (body p.members p.metas p.children))
      → Changed p
          (resize
            (record p { members = record (p.members) { child_num = c }; children = us })
            offset)
          (wires false us)
  unfolding resize set_value_dirty
  resize-Changed offset e =
      let d = record (p.members) { child_num = c } in
      let o = v.open_node in
      let r =
        update_eval_sz-Resized d (body p.members p.metas p.children) new_value offset o.tag_small
          o.is_string o.short room.here o.size o.value e in
      subst (λ q. Changed p (left q) (wires false us)) (sym (if_true _ _ (ap is_known o.size)))
        (subst (λ k. Changed p (left (k, (update_eval_sz d offset).1)) (wires false us))
          (sym r.members) (settled-Changed (update_eval_sz d offset).1 r.change))
    where
      left : Members × ℕ → Place
      left q = record p {
        members = set_value_dirty q.0;
        children = us;
        above = update_parent_evalue_and_set_dirty q.1 p.above;
      }
