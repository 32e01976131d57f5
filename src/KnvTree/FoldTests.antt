-- ===== src/KnvTree/FoldTests.antt =====
-- Examples of folding a small tree, of writing it into a string, of removing children by tag, and of
-- another tag.
use mysql_proxy.Common.{◌≤◌, ◌≡◌, refl, ap, false, true, some, [], arith, length, ret}
use mysql_proxy.Pb.Types.{get_i32}
use mysql_proxy.Pb.Wire.{groups, vint, payload, field_bytes}
use mysql_proxy.KnvTree.Node.{
  Trees, has_no_subnodes, Members, nil, cons, key_value, has_key, is_buffer_valid, is_folded,
  skips_first,
}
use mysql_proxy.KnvTree.Wire.{body, key_wire, node_wire, wire, wires, body_of}
use mysql_proxy.KnvTree.Updating.{Place}
use mysql_proxy.KnvTree.Open.{Open, IsShort, message}
use mysql_proxy.KnvTree.Changing.{InPlace, HasRoomFor, Changed}
use mysql_proxy.KnvTree.RemoveByTag.{
  without_tag, match_nr, fewer, remove_children_by_tag, remove_children_by_tag-Changed,
}
use mysql_proxy.KnvTree.SetTag.{Retagged, set_tag, set_tag-Retagged}
use mysql_proxy.KnvTree.Above.{StaysShort}
use mysql_proxy.KnvTree.Fold.{fold, serialize_string}
use mysql_proxy.KnvTree.Folding.{FoldedTo, fold-FoldedTo, serialize_string-wire}
use mysql_proxy.KnvTree.Tests.{
  place, place-InPlace, leaf, inner_members, five-Sound, small, small-Sound, small-expanded,
}

small_room : length (body_of small) ≤ 16
unfolding wire wires node_wire is_folded has_key key_wire key_value skips_first field_bytes payload
    vint groups
small_room = omega arith

fold-FoldedTo_example : FoldedTo small (fold (some 16) small)
fold-FoldedTo_example = fold-FoldedTo small 16 small-Sound small-expanded (omega arith) small_room

serialize_string-wire_example : serialize_string true small ≡ some (ret 0, wire small)
serialize_string-wire_example = serialize_string-wire small small-Sound

-- A message with a number and a message in it, of which the number is removed.
abbrev both : Trees
both = cons (leaf 5) (cons small nil)

abbrev both_members : Members
both_members = record (inner_members 20 9 6) { child_num = some 2 }

abbrev both_place : Place
both_place = record { members = both_members; metas = nil; children = both; above = [] }

both-Open : Open both_members nil both
unfolding wire wires node_wire is_folded is_buffer_valid has_key key_wire key_value skips_first
    field_bytes payload vint groups get_i32
both-Open = record {
  tag_pos = omega arith;
  tag_small = omega arith;
  is_string = refl;
  opened = refl;
  short = (omega arith, omega arith);
  keyed = λ e. ground arith;
  size = refl;
  value = refl;
  content = λ e. ground arith;
}

both-InPlace : InPlace both_place
both-InPlace = record {
  open_node = both-Open;
  metas = tt;
  children = (five-Sound, (small-Sound, tt));
  above = tt;
  dirty = tt;
}

both-HasRoomFor : HasRoomFor both_place (wires false (without_tag 11 both))
unfolding without_tag wire wires node_wire is_folded is_buffer_valid has_key key_wire key_value
    skips_first field_bytes payload vint groups get_i32
both-HasRoomFor = record { here = (omega arith, omega arith); above = tt }

one_match : match_nr 11 both ≡ 1
unfolding match_nr
one_match = refl

remove_children_by_tag-Changed_example :
    ((remove_children_by_tag 11 both_place).0 ≡ ret (match_nr 11 both))
    × Changed both_place
        (remove_children_by_tag 11 both_place).1
        (wires false (without_tag 11 both))
remove_children_by_tag-Changed_example =
    remove_children_by_tag-Changed 11 both_place both-InPlace refl (omega (arith, one_match))
      (ap (λ k. has_no_subnodes (fewer (some 2) k) nil) one_match) both-HasRoomFor

-- The message of the tag 12 gets a tag that takes a byte more.
retagged-IsShort : IsShort 300 (body place.members place.metas place.children)
unfolding wire wires node_wire is_folded has_key key_wire key_value skips_first field_bytes payload
    vint groups get_i32
retagged-IsShort = (omega arith, omega arith)

retagged-StaysShort :
    StaysShort place.above (message 300 (body place.members place.metas place.children))
unfolding wire wires node_wire is_folded has_key key_wire key_value skips_first field_bytes payload
    vint groups get_i32
retagged-StaysShort = ((omega arith, omega arith), tt)

set_tag-Retagged_example : Retagged place 300 (set_tag place 300)
set_tag-Retagged_example =
    set_tag-Retagged place 300 place-InPlace (omega arith) (omega arith) retagged-IsShort
      retagged-StaysShort
