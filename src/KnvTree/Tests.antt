-- ===== src/KnvTree/Tests.antt =====
-- Examples on small trees: a message with the tag 20, with a message of the tag 12 in it, which holds
-- the number 5 under the tag 11.
use mysql_proxy.Common.{
  ℕ, ◌^◌, ◌<◌, ◌≡◌, refl, true, false, none, some, [], ◌∷◌, ◌++◌, arith, length,
}
use mysql_proxy.Pb.Types.{FieldVal, get_i32}
use mysql_proxy.Pb.Wire.{groups, vint, known_type, payload, field_bytes}
use mysql_proxy.KnvTree.Node.{
  KnvKey, Members, KnvTree, node, nil, cons, key_value, has_key, is_buffer_valid, is_folded,
  skips_first, evaluate, evaluate_size,
}
use mysql_proxy.KnvTree.Packing.{serialize}
use mysql_proxy.KnvTree.Wire.{
  key_wire, node_wire, wire, wires, body_of, folded_of, NodeSound, Sound,
}
use mysql_proxy.KnvTree.Evaluating.{evaluate_size-wire}
use mysql_proxy.KnvTree.Packs.{Packs}
use mysql_proxy.KnvTree.Serializing.{serialize-wire, serialize-body}
use mysql_proxy.KnvTree.Updating.{Frame, Place, inner_insert_child, remove_child}
use mysql_proxy.KnvTree.Open.{Open, Open-NodeSound}
use mysql_proxy.KnvTree.Changing.{InPlace, HasRoomFor, Changed}
use mysql_proxy.KnvTree.Inserting.{inserted, inner_insert_child-Changed, remove_child-Changed}

abbrev no_key_bytes : KnvKey
no_key_bytes = record { type = 2; len = 0; val = [] }

abbrev empty_val : FieldVal
empty_val = record { i64 = 0; str_data = [] }

abbrev leaf_members : ℕ → Members
leaf_members n = record {
  tag = 11;
  type = 0;
  val = record { i64 = n; str_data = [] };
  key = no_key_bytes;
  child_num = none;
  subnode_dirty = false;
  no_key = false;
  eval_sz = none;
  eval_val_sz = 0;
}

abbrev pub leaf : ℕ → KnvTree
leaf n = node (leaf_members n) nil nil

-- An expanded message with a child.
abbrev pub inner_members : (tag size value : ℕ) → Members
inner_members tag size value = record {
  tag = tag;
  type = 2;
  val = empty_val;
  key = no_key_bytes;
  child_num = some 1;
  subnode_dirty = true;
  no_key = false;
  eval_sz = some size;
  eval_val_sz = value;
}

abbrev pub small : KnvTree
small = node (inner_members 12 4 2) nil (cons (leaf 5) nil)

abbrev frame : Frame
frame = record { members = inner_members 20 7 4; metas = nil; before = nil; behind = nil }

abbrev pub place : Place
place = record {
  members = inner_members 12 4 2;
  metas = nil;
  children = cons (leaf 5) nil;
  above = frame ∷ [];
}

leaf-NodeSound :
    (n : ℕ) → n < 2 ^ 64 → length (wire (leaf n)) ≡ 2 → NodeSound (leaf_members n) nil nil
unfolding is_folded has_key known_type
leaf-NodeSound n h e = record {
  tag_pos = omega arith;
  tag_small = omega arith;
  short = omega (arith, e);
  leaf = λ _. record {
    tag_small = omega arith;
    known = refl;
    value_small = h;
    inside = λ f. ground (arith, f);
  };
  inner = λ f. ground (arith, f);
  keyed = λ f. ground (arith, f);
  size = λ k f. ground (arith, f);
  value_size = λ k f. ground (arith, f);
}

pub five-Sound : Sound (leaf 5)
unfolding wire node_wire is_folded field_bytes payload vint groups
five-Sound = (leaf-NodeSound 5 (omega arith) refl, tt, tt)

seven-Sound : Sound (leaf 7)
unfolding wire node_wire is_folded field_bytes payload vint groups
seven-Sound = (leaf-NodeSound 7 (omega arith) refl, tt, tt)

small_bytes : wire small ≡ 98 ∷ 2 ∷ 88 ∷ 5 ∷ []
unfolding wire wires node_wire is_folded is_buffer_valid has_key key_wire key_value skips_first
    field_bytes payload vint groups get_i32
small_bytes = refl

small-Open : Open (inner_members 12 4 2) nil (cons (leaf 5) nil)
unfolding wire wires node_wire is_folded is_buffer_valid has_key key_wire key_value skips_first
    field_bytes payload vint groups get_i32
small-Open = record {
  tag_pos = omega arith;
  tag_small = omega arith;
  is_string = refl;
  opened = refl;
  short = (omega arith, omega arith);
  keyed = λ e. ground arith;
  size = refl;
  value = refl;
  content = λ e. ground arith;
}

frame-Open : Open (inner_members 20 7 4) nil (cons small nil)
unfolding wire wires node_wire is_folded is_buffer_valid has_key key_wire key_value skips_first
    field_bytes payload vint groups get_i32
frame-Open = record {
  tag_pos = omega arith;
  tag_small = omega arith;
  is_string = refl;
  opened = refl;
  short = (omega arith, omega arith);
  keyed = λ e. ground arith;
  size = refl;
  value = refl;
  content = λ e. ground arith;
}

pub place-InPlace : InPlace place
place-InPlace = record {
  open_node = small-Open;
  metas = tt;
  children = (five-Sound, tt);
  above = (frame-Open, tt, tt, tt, tt);
  dirty = ((λ e. refl), tt);
}

insert-HasRoomFor : HasRoomFor place (inserted true place.children (leaf 7))
unfolding wire wires node_wire is_folded is_buffer_valid has_key key_wire key_value skips_first
    field_bytes payload vint groups get_i32
insert-HasRoomFor = record {
  here = (omega arith, omega arith);
  above = ((omega arith, omega arith), tt);
}

inner_insert_child-Changed_example :
    Changed place (inner_insert_child true place (leaf 7)) (inserted true place.children (leaf 7))
inner_insert_child-Changed_example =
    inner_insert_child-Changed true place (leaf 7) place-InPlace seven-Sound insert-HasRoomFor

-- The same message with two children.
abbrev two_members : Members
two_members = record (inner_members 12 6 4) { child_num = some 2 }

abbrev two : KnvTree
two = node two_members nil (cons (leaf 5) (cons (leaf 7) nil))

abbrev two_frame : Frame
two_frame = record frame { members = inner_members 20 9 6 }

abbrev two_place : Place
two_place = record {
  members = two_members;
  metas = nil;
  children = cons (leaf 5) (cons (leaf 7) nil);
  above = two_frame ∷ [];
}

two-Open : Open two_members nil (cons (leaf 5) (cons (leaf 7) nil))
unfolding wire wires node_wire is_folded is_buffer_valid has_key key_wire key_value skips_first
    field_bytes payload vint groups get_i32
two-Open = record {
  tag_pos = omega arith;
  tag_small = omega arith;
  is_string = refl;
  opened = refl;
  short = (omega arith, omega arith);
  keyed = λ e. ground arith;
  size = refl;
  value = refl;
  content = λ e. ground arith;
}

two_frame-Open : Open (inner_members 20 9 6) nil (cons two nil)
unfolding wire wires node_wire is_folded is_buffer_valid has_key key_wire key_value skips_first
    field_bytes payload vint groups get_i32
two_frame-Open = record {
  tag_pos = omega arith;
  tag_small = omega arith;
  is_string = refl;
  opened = refl;
  short = (omega arith, omega arith);
  keyed = λ e. ground arith;
  size = refl;
  value = refl;
  content = λ e. ground arith;
}

two_place-InPlace : InPlace two_place
two_place-InPlace = record {
  open_node = two-Open;
  metas = tt;
  children = (five-Sound, (seven-Sound, tt));
  above = (two_frame-Open, tt, tt, tt, tt);
  dirty = ((λ e. refl), tt);
}

remove-HasRoomFor : HasRoomFor two_place (wires false (cons (leaf 5) nil) ++ wires false nil)
unfolding wire wires node_wire is_folded is_buffer_valid has_key key_wire key_value skips_first
    field_bytes payload vint groups get_i32
remove-HasRoomFor = record {
  here = (omega arith, omega arith);
  above = ((omega arith, omega arith), tt);
}

remove_child-Changed_example :
    Changed two_place
      (remove_child two_place (cons (leaf 5) nil) (leaf 7) nil)
      (wires false (cons (leaf 5) nil) ++ wires false nil)
remove_child-Changed_example =
    remove_child-Changed two_place (cons (leaf 5) nil) (leaf 7) nil refl two_place-InPlace
      seven-Sound (five-Sound, tt) tt refl remove-HasRoomFor

pub small-Sound : Sound small
small-Sound =
    (Open-NodeSound (inner_members 12 4 2) nil (cons (leaf 5) nil) small-Open, tt, (five-Sound, tt))

evaluate_size-wire_example :
    (evaluate_size small ≡ length (wire small))
    × (wire (evaluate small) ≡ wire small)
    × Sound (evaluate small)
evaluate_size-wire_example = evaluate_size-wire small small-Sound

serialize-wire_example : Packs (wire small) 100 (serialize small 100 true)
serialize-wire_example = serialize-wire small 100 small-Sound

pub small-expanded : folded_of small ≡ false
unfolding is_folded is_buffer_valid get_i32
small-expanded = refl

serialize-body_example : Packs (body_of small) 100 (serialize small 100 false)
serialize-body_example = serialize-body small 100 small-Sound small-expanded
