-- ===== src/KnvTree/Packing.antt =====
-- KnvNode::Serialize of knv/knv_node.cc.
use mysql_proxy.Common.{
  ℕ, ◌-◌, Bool, true, false, not, none, List, [], ◌++◌, take, length, ltb, ◌==◌, if◌then◌else◌,
}
use mysql_proxy.Pb.Types.{ok, err, fault, stuck, Buff, get_i32, wt_string}
use mysql_proxy.Pb.Writer.{Written, pb_init_buff, pb_add_field_val, pb_add_string_head}
use mysql_proxy.KnvTree.Node.{
  Members, KnvTree, node, Trees, nil, cons, key_value, has_key, is_folded, skips_first, eval_sz_of,
  eval_val_sz_of, evaluate,
}

-- `packed` returns 0 with the bytes in the buffer and their number in `len`, `refused n` returns
-- -n. `broken` is an access outside a buffer.
pub data Packed : Type 0 where
  packed : List ℕ → Packed
  refused : ℕ → Packed
  broken : Packed

-- What knv_add_ functions have written, where a failure returns -n.
unfoldable pub written_or : ℕ → Written → (Buff → Packed) → Packed
written_or n (ok u b) k = k b
written_or n (err c b) k = refused n
written_or n fault k = broken
written_or n stuck k = broken

abbrev pub or_refused : Packed → (List ℕ → Packed) → Packed
or_refused (packed bytes) k = k bytes
or_refused (refused n) k = refused n
or_refused broken k = broken

-- The buffer at the address `buf`, of `len` bytes.
abbrev pub new_buff : ℕ → Buff
new_buff len = pb_init_buff (record { size = 0; written = []; left = 0; errmsg = none }) len

-- A node that is a leaf, or whose value is up to date.
unfoldable pub pack_folded : Members → (len : ℕ) (with_header : Bool) → Packed
pack_folded d len true =
    written_or 3 (pb_add_field_val (new_buff len) d.tag d.type d.val) λ b. packed b.written
pack_folded d len false =
    if d.type == wt_string
    then (if ltb (get_i32 d.val) len
        then (if ltb (length d.val.str_data) (get_i32 d.val)
            then broken
            else packed (take (get_i32 d.val) d.val.str_data))
        else refused 4)
    else refused 5

-- The header.
unfoldable pub pack_header : Members → (eval_val_sz len : ℕ) (with_header : Bool) → Written
pack_header d eval_val_sz len true = pb_add_string_head (new_buff len) d.tag eval_val_sz
pack_header d eval_val_sz len false = ok tt (new_buff len)

-- The key behind it.
unfoldable pub pack_key : Members → Buff → Written
pack_key d b = if has_key d then pb_add_field_val b 1 d.key.type (key_value d.key) else ok tt b

-- `(with_header && cur_len != evalsize) || (with_header==false && cur_len != eval_val_sz)`
abbrev pub is_wrong : (with_header : Bool) (evalsize eval_val_sz cur_len : ℕ) → Bool
is_wrong true evalsize eval_val_sz cur_len = not (cur_len == evalsize)
is_wrong false evalsize eval_val_sz cur_len = not (cur_len == eval_val_sz)

-- An expanded node. `metas` and `children` are the loops, which take the room that is left.
unfoldable pub pack_expanded :
    Members → (t : KnvTree) (len : ℕ) (with_header : Bool) (metas children : ℕ → Packed) → Packed
pack_expanded d t len with_header metas children =
    written_or 6 (pack_header d (eval_val_sz_of t) len with_header) λ b.
      written_or 7 (pack_key d b) λ b'. or_refused (metas (len - length b'.written)) λ ms.
        or_refused (children (len - length (b'.written ++ ms))) λ cs.
          (let bytes = b'.written ++ ms ++ cs in
            if is_wrong with_header (eval_sz_of t) (eval_val_sz_of t) (length bytes)
            then refused 10
            else packed bytes)

-- The test of IsValid, and the two kinds of node.
unfoldable pub pack :
    Members
    → Trees
    → (t : KnvTree) → (metas children : ℕ → Packed) → (len : ℕ) (with_header : Bool) → Packed
pack d ms t metas children len with_header =
    if d.tag == 0
    then refused 1
    else if is_folded d ms
    then pack_folded d len with_header
    else pack_expanded d t len with_header metas children

-- A failure of a subnode returns the code `n` of its loop.
abbrev pub or_code : ℕ → Packed → (List ℕ → Packed) → Packed
or_code n (packed bytes) k = k bytes
or_code n (refused c) k = refused n
or_code n broken k = broken

-- KnvNode::Serialize, on a node and in the loops over metas and children. The sizes that it
-- evaluates are those of `evaluate`, which it leaves in the nodes.
unfoldable mutual
  pub serialize : KnvTree → (len : ℕ) (with_header : Bool) → Packed
  serialize (node d ms cs) =
      pack d ms (evaluate (node d ms cs)) (serialize_list 8 (skips_first d ms) ms)
        (serialize_list 9 false cs)

  pub serialize_list : ℕ → (skip : Bool) → Trees → (room : ℕ) → Packed
  serialize_list n skip nil room = packed []
  serialize_list n true (cons t ts) room = serialize_list n false ts room
  serialize_list n false (cons t ts) room = or_code n (serialize t room true) λ first.
      or_refused (serialize_list n false ts (room - length first)) λ rest. packed (first ++ rest)
