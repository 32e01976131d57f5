-- ===== src/KnvTree/Updating.antt =====
-- The operations of knv/knv_node.cc that change a node somewhere in a tree, and keep the sizes and
-- the marks of the nodes above it: InsertChild, RemoveChildByPos, DetachChild and SetValue.
use mysql_proxy.Common.{
  ℕ, zero, suc, ◌+◌, ◌-◌, ◌%◌, ◌^◌, Bool, true, false, ◌&&◌, ◌||◌, not, Option, none, some, List,
  [], ◌∷◌, ◌==◌, if◌then◌else◌, Ret, ret, fail,
}
use mysql_proxy.Pb.Types.{set_i32, wt_varint, wt_fixed64, wt_fixed32}
use mysql_proxy.Pb.Size.{pb_eval_field_length}
use mysql_proxy.KnvTree.Node.{
  Members, KnvTree, node, Trees, nil, cons, of_length, evaluate, evaluate_size,
}

abbrev pub join : Trees → Trees → Trees
join nil us = us
join (cons t ts) us = cons t (join ts us)

-- A node above: its members and metas, and its children before and behind the one on the way down,
-- which leads through the lists of the children; a change below a meta is not modelled.
pub record Frame : Type 0 where
  pub members : Members
  pub metas : Trees
  pub before : Trees
  pub behind : Trees

abbrev pub plug_in : Frame → KnvTree → KnvTree
plug_in f t = node f.members f.metas (join f.before (cons t f.behind))

-- The whole tree, with the node and the nodes above it, its parent first.
abbrev pub plug : KnvTree → List Frame → KnvTree
plug t [] = t
plug t (f ∷ fs) = plug (plug_in f t) fs

-- -1 for a size that is not known
abbrev pub size_or_minus_one : Option ℕ → ℕ
size_or_minus_one none = 2 ^ 32 - 1
size_or_minus_one (some n) = n

-- `a - b` on ints, as a number of 32 bits.
abbrev pub difference : ℕ → ℕ → ℕ
difference a b = (a + 2 ^ 32 - b % 2 ^ 32) % 2 ^ 32

-- UPDATE_EVAL_SZ, with what it leaves in `offset`.
unfoldable pub update_eval_sz : Members → (offset : ℕ) → Members × ℕ
update_eval_sz d offset =
    let v = (d.eval_val_sz + offset) % 2 ^ 32 in
    let new_eval_sz = pb_eval_field_length d.tag d.type (of_length v) in
    if offset == 0 then (d, offset) else (
      record d { eval_val_sz = v; eval_sz = some new_eval_sz },
      difference new_eval_sz (size_or_minus_one d.eval_sz),
    )

-- SET_VALUE_DIRTY
unfoldable pub set_value_dirty : Members → Members
set_value_dirty d = record d { val = set_i32 d.val 0; subnode_dirty = true }

abbrev pub is_known : Option ℕ → Bool
is_known none = false
is_known (some n) = true

-- The first test of the loop: the members, `offset` and `updateeval`.
unfoldable pub step_eval : Members → (offset : ℕ) (updateeval : Bool) → Members × ℕ × Bool
step_eval d offset updateeval =
    let (d', offset') = update_eval_sz d offset in
    if updateeval && is_known d.eval_sz && not (offset == 0)
    then (d', offset', true)
    else (d, offset, false)

-- The second test: the members, and `updatedirty`.
unfoldable pub step_dirty : Members → (updatedirty : Bool) → Members × Bool
step_dirty d updatedirty =
    if updatedirty && not d.subnode_dirty then (set_value_dirty d, true) else (d, false)

-- The loop of UpdateParentEvalueAndSetDirty.
unfoldable pub update_parents :
    (updatedirty updateeval : Bool) (offset : ℕ) → List Frame → List Frame
update_parents updatedirty updateeval offset [] = []
update_parents updatedirty updateeval offset (f ∷ fs) =
    let (d, offset', updateeval') = step_eval f.members offset updateeval in
    let (d', updatedirty') = step_dirty d updatedirty in
    let rest = update_parents updatedirty' updateeval' offset' fs in
    if updatedirty || updateeval then record f { members = d' } ∷ rest else f ∷ fs

unfoldable pub update_parent_evalue_and_set_dirty : (offset : ℕ) → List Frame → List Frame
update_parent_evalue_and_set_dirty offset fs = update_parents true (not (offset == 0)) offset fs

-- A node in a tree, and the nodes above it.
pub record Place : Type 0 where
  pub members : Members
  pub metas : Trees
  pub children : Trees
  pub above : List Frame

abbrev pub tree_at : Place → KnvTree
tree_at p = plug (node p.members p.metas p.children) p.above

-- The end of the operations that change the children of a node: `offset` is what its value grows by.
unfoldable pub resize : Place → (offset : ℕ) → Place
resize p offset =
    let (d, offset') =
      if is_known p.members.eval_sz then update_eval_sz p.members offset else (p.members, offset) in
    record p {
      members = set_value_dirty d;
      above = update_parent_evalue_and_set_dirty offset' p.above;
    }

abbrev pub one_more : Option ℕ → Option ℕ
one_more none = some 0
one_more (some n) = some (suc n)

abbrev pub one_less : Option ℕ → Option ℕ
one_less none = none
one_less (some zero) = none
one_less (some (suc n)) = some n

-- InnerInsertChild of a child that the tree takes over, with the update of the parents.
unfoldable pub inner_insert_child : (at_tail : Bool) → Place → KnvTree → Place
inner_insert_child at_tail p child =
    let known = is_known p.members.eval_sz in
    let child' = if known then evaluate child else child in
    resize
      (record p {
        members = record (p.members) { child_num = one_more p.members.child_num };
        children = if at_tail then join p.children (cons child' nil) else cons child' p.children;
      })
      (if known then evaluate_size child % 2 ^ 32 else 0)

-- DetachChild and RemoveChildByPos of the child that stands behind `before`; the hash table and the
-- links of the list are KnvHt and ObjPool.
unfoldable pub remove_child : Place → (before : Trees) (child : KnvTree) (behind : Trees) → Place
remove_child p before child behind =
    let known = is_known p.members.eval_sz in
    resize
      (record p {
        members = record (p.members) { child_num = one_less p.members.child_num };
        children = join before behind;
      })
      (if known then difference 0 (evaluate_size child) else 0)

-- SetValue(uint64_t)
unfoldable pub set_int_value : Place → (int_val : ℕ) → Ret × Place
set_int_value p int_val =
    let d = p.members in
    let val = record (d.val) { i64 = int_val } in
    let n = pb_eval_field_length d.tag d.type val in
    if d.tag == 0
    then (fail 1, p)
    else if (d.type == wt_varint) || (d.type == wt_fixed64) || (d.type == wt_fixed32)
    then (
      ret 0,
      record p {
        members = record d { val = val; eval_sz = some n; eval_val_sz = 0; subnode_dirty = true };
        above =
            update_parent_evalue_and_set_dirty (difference n (size_or_minus_one d.eval_sz)) p.above;
      },
    )
    else (fail 2, p)
