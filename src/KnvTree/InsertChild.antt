-- ===== src/KnvTree/InsertChild.antt =====
-- InsertChild of knv/knv_node.cc, which expands the node first.
use mysql_proxy.Common.{
  ℕ, ◌≤◌, ◌≡◌, Bool, false, ◌&&◌, Option, none, some, List, [], ◌∷◌, ◌++◌, length, ltb, ◌==◌,
  if◌then◌else◌, Ret, ret, fail,
}
use mysql_proxy.Pb.Types.{wt_string}
use mysql_proxy.KnvTree.Node.{KnvTree, node, nil}
use mysql_proxy.KnvTree.Wire.{wire, Sound}
use mysql_proxy.KnvTree.Updating.{Frame, Place, tree_at, inner_insert_child}
use mysql_proxy.KnvTree.Open.{message, IsShort, Open}
use mysql_proxy.KnvTree.Above.{whole_with, StaysShort, OpenAbove, DirtyAbove}
use mysql_proxy.KnvTree.Changing.{InPlace}
use mysql_proxy.KnvTree.Expand.{expand, inner_expand}
use mysql_proxy.KnvTree.Fields.{SubField, all_bytes, children_of}
use mysql_proxy.KnvTree.Unread.{Folded, expanded_members}
use mysql_proxy.KnvTree.Expanded.{Expanded}

-- `parent && parent->key.len`
abbrev pub has_keyed_parent : List Frame → Bool
has_keyed_parent [] = false
has_keyed_parent (f ∷ fs) = ltb 0 f.members.key.len

-- The child goes into the node that Expand has left.
unfoldable pub insert_expanded : (at_tail : Bool) → KnvTree → List Frame → (child : KnvTree) → Place
insert_expanded at_tail (node d ms cs) above child =
    inner_insert_child at_tail (record { members = d; metas = ms; children = cs; above = above })
      child

abbrev pub expanded_then_insert :
    (at_tail : Bool) → Place → (child : KnvTree) → Option (Ret × KnvTree) → Option (Ret × Place)
expanded_then_insert at_tail p child none = none
expanded_then_insert at_tail p child (some (ret n, t)) =
    some (ret 0, insert_expanded at_tail t p.above child)
expanded_then_insert at_tail p child (some (fail n, node d ms cs)) =
    some (fail 4, record p { members = d; metas = ms; children = cs })

-- InsertChild of a child that the tree takes over; the pool can give `nodes` nodes.
unfoldable pub insert_child :
    (at_tail : Bool) (nodes : ℕ) → Place → (child : KnvTree) → Option (Ret × Place)
insert_child at_tail nodes p child =
    if p.members.tag == 0
    then some (fail 2, p)
    else if p.members.type == wt_string
    then expanded_then_insert at_tail p child
        (expand (has_keyed_parent p.above) nodes p.members p.metas p.children)
    else some (fail 3, p)

-- A node that is not expanded, under expanded nodes with right sizes.
pub record UnexpandedAt (p : Place) (fs : List SubField) (rest : List ℕ) : Type 0 where
  pub folded : Folded p.members fs rest
  pub no_metas : p.metas ≡ nil
  pub no_children : p.children ≡ nil
  pub above : OpenAbove (node p.members nil nil) p.above
  pub dirty : DirtyAbove p.members.subnode_dirty p.above
  pub no_key_node : ((p.members.tag == 1) && has_keyed_parent p.above) ≡ false

-- The child stands behind the fields of the value, in a tree with right sizes.
pub record ChildAdded (p : Place) (fs : List SubField) (child : KnvTree) (r : Option (Ret × Place))
    : Type 0 where
  pub place : Place
  pub result : r ≡ some (ret 0, place)
  pub in_place : InPlace place
  pub sound : Sound (tree_at place)
  pub bytes :
      wire (tree_at place) ≡ whole_with p.above (message p.members.tag (all_bytes fs ++ wire child))

module _ (p : Place) (s : SubField) (ss : List SubField) (rest : List ℕ) (nodes : ℕ)
    (child : KnvTree) (u : UnexpandedAt p (s ∷ ss) rest) (sound : Sound child)
    (some_nodes : length (s ∷ ss) ≤ nodes)
    (short : IsShort p.members.tag (all_bytes (s ∷ ss) ++ wire child))
    (room : StaysShort p.above (message p.members.tag (all_bytes (s ∷ ss) ++ wire child)))
    (e : Expanded p.members
      (s ∷ ss)
      (inner_expand (has_keyed_parent p.above) false nodes p.members nil nil)) where
  -- The node once it is expanded.
  abbrev opened : Place
  opened = record {
    members = expanded_members p.members (length (children_of (s ∷ ss)));
    metas = e.metas;
    children = e.children;
    above = p.above;
  }
