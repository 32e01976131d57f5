-- ===== src/KnvTree/ExpandTests.antt =====
-- Examples on a leaf in a message, and on a message that is not expanded.
use mysql_proxy.Common.{ℕ, ◌^◌, ◌<◌, refl, true, false, none, some, [], ◌∷◌, arith}
use mysql_proxy.Pb.Types.{get_i32, le_bytes}
use mysql_proxy.Pb.Wire.{groups, vint, known_type, payload, field_bytes, IsSendable}
use mysql_proxy.KnvTree.Node.{
  KnvKey, Members, KnvTree, node, nil, cons, number_at, key_value, has_key, is_buffer_valid,
  is_folded, skips_first,
}
use mysql_proxy.KnvTree.Wire.{key_wire, node_wire, wire, wires, NodeSound}
use mysql_proxy.KnvTree.Updating.{Place, set_int_value}
use mysql_proxy.KnvTree.Open.{Open}
use mysql_proxy.KnvTree.Above.{StaysShort}
use mysql_proxy.KnvTree.SettingInt.{int_field, IntLeaf, IntSet, set_int_value-IntSet}
use mysql_proxy.KnvTree.Expand.{inner_expand}
use mysql_proxy.KnvTree.Fields.{SubField}
use mysql_proxy.KnvTree.Unread.{Folded}
use mysql_proxy.KnvTree.Expanded.{Expanded, inner_expand-Expanded}

abbrev no_key_bytes : KnvKey
no_key_bytes = record { type = 2; len = 0; val = [] }

-- The number 5 under the tag 11, alone in a message of the tag 12.
abbrev five_members : Members
five_members = record {
  tag = 11;
  type = 0;
  val = record { i64 = 5; str_data = [] };
  key = no_key_bytes;
  child_num = some 0;
  subnode_dirty = false;
  no_key = true;
  eval_sz = some 2;
  eval_val_sz = 0;
}

abbrev five : KnvTree
five = node five_members nil nil

abbrev message_members : Members
message_members = record {
  tag = 12;
  type = 2;
  val = record { i64 = 0; str_data = [] };
  key = no_key_bytes;
  child_num = some 1;
  subnode_dirty = true;
  no_key = false;
  eval_sz = some 4;
  eval_val_sz = 2;
}

abbrev place : Place
place = record {
  members = five_members;
  metas = nil;
  children = nil;
  above = record { members = message_members; metas = nil; before = nil; behind = nil } ∷ [];
}

five-NodeSound : NodeSound five_members nil nil
unfolding wire node_wire is_folded has_key known_type field_bytes payload vint groups
five-NodeSound = record {
  tag_pos = omega arith;
  tag_small = omega arith;
  short = omega arith;
  leaf = λ _. record {
    tag_small = omega arith;
    known = refl;
    value_small = omega arith;
    inside = λ f. ground (arith, f);
  };
  inner = λ f. ground (arith, f);
  keyed = λ f. ground (arith, f);
  size = λ k f. ground (arith, f);
  value_size = λ k f. ground (arith, f);
}

message-Open : Open message_members nil (cons five nil)
unfolding wire wires node_wire is_folded is_buffer_valid has_key key_wire key_value skips_first
    field_bytes payload vint groups get_i32
message-Open = record {
  tag_pos = omega arith;
  tag_small = omega arith;
  is_string = refl;
  opened = refl;
  short = (omega arith, omega arith);
  keyed = λ e. ground arith;
  size = refl;
  value = refl;
  content = λ e. ground arith;
}

place-IntLeaf : IntLeaf place 2
place-IntLeaf = record {
  takes = refl;
  known = refl;
  sound = (five-NodeSound, tt, tt);
  above = (message-Open, tt, tt, tt, tt);
  dirty = ((λ e. refl), tt);
}

-- A larger number makes the message longer.
place-StaysShort : StaysShort place.above (int_field place.members 300)
unfolding wires has_key key_wire key_value skips_first field_bytes payload vint groups get_i32
place-StaysShort = ((omega arith, omega arith), tt)

set_int_value-IntSet_example : IntSet place 300 (set_int_value place 300)
set_int_value-IntSet_example =
    set_int_value-IntSet place 2 300 place-IntLeaf (omega arith) place-StaysShort

-- A message with the key 7 and the child 5, with a byte of another message behind it.
abbrev number_field : (tag n : ℕ) → SubField
number_field tag n = record { tag = tag; type = 0; val = record { i64 = n; str_data = [] } }

abbrev unread : Members
unread = record {
  tag = 20;
  type = 2;
  val = record { i64 = 4; str_data = 8 ∷ 7 ∷ 88 ∷ 5 ∷ 99 ∷ [] };
  key = record { type = 0; len = 8; val = le_bytes 8 7 };
  child_num = none;
  subnode_dirty = false;
  no_key = false;
  eval_sz = some 7;
  eval_val_sz = 4;
}

number-IsSendable :
    (tag n : ℕ) → tag < 2 ^ 29 → n < 2 ^ 64 → IsSendable tag 0 (record { i64 = n; str_data = [] })
unfolding known_type
number-IsSendable tag n small h = record {
  tag_small = small;
  known = refl;
  value_small = h;
  inside = λ e. ground arith;
}

unread-Folded : Folded unread (number_field 1 7 ∷ number_field 11 5 ∷ []) (99 ∷ [])
unfolding wires has_key key_wire key_value number_at le_bytes skips_first field_bytes payload vint
    groups get_i32 known_type
unread-Folded = record {
  tag_pos = omega arith;
  tag_small = omega arith;
  is_string = refl;
  folded = refl;
  word = omega arith;
  bytes = refl;
  len = refl;
  short = (omega arith, omega arith);
  fields = (
    number-IsSendable 1 7 (omega arith) (omega arith),
    omega arith,
    (number-IsSendable 11 5 (omega arith) (omega arith), omega arith, tt),
  );
  ordered = refl;
  size = refl;
  value = refl;
  keyed = λ e. number-IsSendable 1 7 (omega arith) (omega arith);
  key_first = λ e. (refl, refl);
}

inner_expand-Expanded_example :
    Expanded unread
      (number_field 1 7 ∷ number_field 11 5 ∷ [])
      (inner_expand false false 2 unread nil nil)
inner_expand-Expanded_example =
    inner_expand-Expanded unread (number_field 1 7) (number_field 11 5 ∷ []) (99 ∷ []) false 2
      unread-Folded (omega arith) false refl

-- The child 5 of the tag 11 goes behind the fields of the message.
abbrev unread_place : Place
unread_place = record { members = unread; metas = nil; children = nil; above = [] }
