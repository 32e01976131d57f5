-- ===== src/KnvTree/Fold.antt =====
-- KnvNode::Fold and the Serialize into a string of knv/knv_node.cc.
use mysql_proxy.Common.{
  ℕ, ◌-◌, Bool, true, false, Option, none, some, List, [], length, ◌==◌, if◌then◌else◌, Ret, ret,
  fail,
}
use mysql_proxy.Pb.Types.{set_i32}
use mysql_proxy.KnvTree.Node.{
  Members, KnvTree, node, nil, is_folded, eval_sz_of, eval_val_sz_of, evaluate,
}
use mysql_proxy.KnvTree.Packing.{Packed, packed, refused, broken, serialize}

-- The members with the value in a buffer of their own, without subnodes.
abbrev pub folded_members : Members → List ℕ → Members
folded_members d bytes = record d {
  val = record (set_i32 d.val (length bytes)) { str_data = bytes };
  subnode_dirty = false;
  child_num = none;
}

abbrev pub with_value : KnvTree → List ℕ → KnvTree
with_value (node d ms cs) bytes = node (folded_members d bytes) nil nil

-- Behind Serialize, where `t` has its sizes; a failure with -n returns n - 100. None is an access
-- outside the buffer.
unfoldable pub fold_packed : KnvTree → Packed → Option (Ret × KnvTree)
fold_packed t (packed bytes) =
    if eval_val_sz_of t == length bytes then some (ret 0, with_value t bytes) else some (fail 4, t)
fold_packed t (refused n) = some (fail (100 - n), t)
fold_packed t broken = none

-- `memory` is the size of the buffer that UcMemManager::Alloc returns.
abbrev pub fold_into : KnvTree → (memory : Option ℕ) → Option (Ret × KnvTree)
fold_into t none = some (fail 2, evaluate t)
fold_into t (some size) = fold_packed (evaluate t) (serialize (evaluate t) size false)

-- Fold
unfoldable pub fold : (memory : Option ℕ) → KnvTree → Option (Ret × KnvTree)
fold memory (node d ms cs) =
    if d.tag == 0
    then some (fail 1, node d ms cs)
    else if is_folded d ms
    then some (ret 0, node d ms cs)
    else fold_into (node d ms cs) memory

unfoldable pub string_packed : (eval_len : ℕ) → Packed → Option (Ret × List ℕ)
string_packed eval_len (packed bytes) =
    if eval_len == length bytes then some (ret 0, bytes) else some (fail 3, bytes)
string_packed eval_len (refused n) = some (fail 2, [])
string_packed eval_len broken = none

-- Serialize into a string; `resized` says whether there is memory for it. After a failure the string
-- has no meaning.
unfoldable pub serialize_string : (resized : Bool) → KnvTree → Option (Ret × List ℕ)
serialize_string resized t =
    if resized
    then string_packed (eval_sz_of (evaluate t))
        (serialize (evaluate t) (eval_sz_of (evaluate t)) true)
    else some (fail 1, [])
