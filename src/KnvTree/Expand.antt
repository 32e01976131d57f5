-- ===== src/KnvTree/Expand.antt =====
-- knv_key_t::init and KnvNode::InitNode and InnerExpand of knv/knv_node.cc: how a node is made of a
-- field, and how the fields of its value become its subnodes.
use mysql_proxy.Common.{
  ℕ, zero, suc, ◌-◌, ◌%◌, ◌^◌, Bool, true, false, ◌&&◌, ◌||◌, not, Option, none, some, List, [],
  length, ltb, leb, ◌==◌, if◌then◌else◌, Ret, ret, fail,
}
use mysql_proxy.Pb.Types.{
  Run, ok, err, fault, stuck, Field, FieldVal, get_i32, set_i32, le_bytes, wt_varint, wt_fixed64,
  wt_string, wt_fixed32,
}
use mysql_proxy.Pb.Reader.{pb_begin, pb_next}
use mysql_proxy.Pb.Size.{pb_eval_field_length}
use mysql_proxy.KnvTree.Node.{KnvKey, Members, KnvTree, node, Trees, nil, cons, of_length}

abbrev pub null_key : ℕ → KnvKey
null_key ktype = record { type = ktype; len = 0; val = [] }

-- knv_key_t::init without a buffer of its own, which cannot fail: a string stays where it is, and a
-- number fits into the small buffer. The length has 16 bits.
unfoldable pub init_key : (ktype : ℕ) → Option FieldVal → KnvKey
init_key ktype none = null_key ktype
init_key ktype (some v) =
    if ktype == wt_string
    then record { type = wt_string; len = get_i32 v % 2 ^ 16; val = v.str_data }
    else if ktype == wt_fixed32
    then record { type = wt_fixed32; len = 4; val = le_bytes 4 (get_i32 v) }
    else if (ktype == wt_varint) || (ktype == wt_fixed64)
    then record { type = ktype; len = 8; val = le_bytes 8 v.i64 }
    else null_key ktype

-- A knv_field_t that nothing has been written to, and the members of a node from the pool.
abbrev pub blank_field : Field
blank_field = record {
  tag = 0;
  eom = 0;
  type = 0;
  val = of_length 0;
  start = [];
  size = 0;
  ptr = [];
  left = 0;
  errmsg = none;
}

abbrev pub pooled_node : Members
pooled_node = record {
  tag = 0;
  type = wt_string;
  val = of_length 0;
  key = null_key wt_string;
  child_num = none;
  subnode_dirty = false;
  no_key = false;
  eval_sz = none;
  eval_val_sz = 0;
}

-- The value, where the node points to the bytes of the caller.
unfoldable pub init_val : (type : ℕ) → Option FieldVal → FieldVal
init_val type none = of_length 0
init_val type (some v) =
    if type == wt_string
    then record (set_i32 (of_length 0) (get_i32 v)) { str_data = v.str_data }
    else record (of_length 0) { i64 = v.i64 }

-- `str_len`
unfoldable pub str_len_of : (type : ℕ) → Option FieldVal → ℕ
str_len_of type none = 0
str_len_of type (some v) = if type == wt_string then get_i32 v else 0

-- The key that stands in front of the fields of a value, and `ch_nr`; none for a read outside the
-- buffer.
unfoldable pub key_in : Run Field (Unit {0}) → Option (KnvKey × Option ℕ)
key_in (ok a f) =
    some ((if f.tag == 1 then init_key f.type (some f.val) else null_key wt_string), none)
key_in (err c f) = some (null_key wt_string, some 0)
key_in fault = none
key_in stuck = none

unfoldable pub find_key :
    (val : FieldVal) (str_len : ℕ) (force_no_key : Bool) → Option (KnvKey × Option ℕ)
find_key val str_len force_no_key =
    if str_len == 0
    then some (null_key wt_string, some 0)
    else if force_no_key
    then some (null_key wt_string, none)
    else key_in (pb_begin blank_field val.str_data str_len)

-- The members once the key is found.
abbrev pub init_members :
    (tag type : ℕ)
    → Option FieldVal
    → (field_sz : ℕ) (force_no_key : Bool) → Option (KnvKey × Option ℕ)
    → Option Members
init_members tag type value field_sz force_no_key none = none
init_members tag type value field_sz force_no_key (some (key, ch_nr)) = some (record pooled_node {
  tag = tag;
  type = type;
  val = init_val type value;
  key = key;
  child_num = ch_nr;
  no_key = force_no_key || not (type == wt_string);
  eval_sz =
      some
        (if ltb 0 field_sz then field_sz else pb_eval_field_length tag type (init_val type value));
  eval_val_sz = str_len_of type value;
})

-- InitNode with update_eval and without own_buf; a field_sz of 0 is one that is not known.
unfoldable pub init_node :
    (tag type : ℕ) → Option FieldVal → (field_sz : ℕ) (force_no_key : Bool) → Option Members
init_node tag type value field_sz force_no_key =
    init_members tag type value field_sz force_no_key
      (find_key (init_val type value) (str_len_of type value) force_no_key)

-- The subnodes that the loop of InnerExpand makes, with the `eom` at its end and the number of
-- children. `no_memory n` returns -n; `outside` is a read outside the buffer, or
-- the end of the rounds.
pub data Subnodes : Type 0 where
  subnodes : (eom : ℕ) (metas children : Trees) (child_num : ℕ) → Subnodes
  no_memory : ℕ → Subnodes
  outside : Subnodes

-- A node that was made stands in front of those of the rest of the message.
abbrev pub with_meta : Option Members → Subnodes → Subnodes
with_meta none rest = outside
with_meta (some d) (subnodes eom ms cs n) = subnodes eom (cons (node d nil nil) ms) cs n
with_meta (some d) (no_memory n) = no_memory n
with_meta (some d) outside = outside

abbrev pub with_child : Option Members → Subnodes → Subnodes
with_child none rest = outside
with_child (some d) (subnodes eom ms cs n) = subnodes eom ms (cons (node d nil nil) cs) (suc n)
with_child (some d) (no_memory n) = no_memory n
with_child (some d) outside = outside

-- A round, at a field whose bytes begin at `prev_pos`: metas have the tags up to 10 and no key.
-- `nodes` is the number of nodes that the pool can give, and `rest` the rounds behind this one.
unfoldable pub add_subnode :
    (force_no_key : Bool) (nodes : ℕ) (prev_pos : List ℕ) → Field → (rest : Subnodes) → Subnodes
add_subnode force_no_key nodes prev_pos f rest =
    let field_sz = length prev_pos - length f.ptr in
    if leb f.tag 10
    then (if nodes == 0
        then no_memory 1
        else with_meta (init_node f.tag f.type (some f.val) field_sz true) rest)
    else if nodes == 0
    then no_memory 3
    else with_child (init_node f.tag f.type (some f.val) field_sz force_no_key) rest

-- The loop: a round takes a field, a field has a byte at least, and there is a round for each byte.
unfoldable pub expand_loop :
    (rounds : ℕ) (force_no_key : Bool) (nodes : ℕ) (prev_pos : List ℕ)
    → Run Field (Unit {0})
    → Subnodes
expand_loop zero force_no_key nodes prev_pos (err c f) = subnodes f.eom nil nil 0
expand_loop zero force_no_key nodes prev_pos (ok a f) = outside
expand_loop (suc rounds) force_no_key nodes prev_pos (ok a f) =
    add_subnode force_no_key nodes prev_pos f
      (expand_loop rounds force_no_key (nodes - 1) f.ptr (pb_next f))
expand_loop (suc rounds) force_no_key nodes prev_pos (err c f) = subnodes f.eom nil nil 0
expand_loop zero force_no_key nodes prev_pos fault = outside
expand_loop zero force_no_key nodes prev_pos stuck = outside
expand_loop (suc rounds) force_no_key nodes prev_pos fault = outside
expand_loop (suc rounds) force_no_key nodes prev_pos stuck = outside

-- A node with its lists.
abbrev pub leaf_of : Members → KnvTree
leaf_of d = node (record d { child_num = some 0 }) nil nil

-- The end of InnerExpand: a message that does not end correctly leaves a leaf.
unfoldable pub finish_expand : Members → Subnodes → Option (Ret × KnvTree)
finish_expand d (subnodes eom ms cs n) =
    let d' = record d { subnode_dirty = false } in
    some (ret 0, (if eom == 0 then leaf_of d' else node (record d' { child_num = some n }) ms cs))
finish_expand d (no_memory n) = some (fail n, leaf_of d)
finish_expand d outside = none

abbrev pub is_expanded : Option ℕ → Bool
is_expanded none = false
is_expanded (some n) = true

-- `pf==NULL` leaves a leaf as well.
unfoldable pub begin_expand :
    Members → (force_no_key : Bool) (nodes : ℕ) → Run Field (Unit {0}) → Option (Ret × KnvTree)
begin_expand d force_no_key nodes (ok a f) =
    finish_expand d (expand_loop (suc (get_i32 d.val)) force_no_key nodes d.val.str_data (ok a f))
begin_expand d force_no_key nodes (err c f) = some (ret 0, leaf_of d)
begin_expand d force_no_key nodes fault = none
begin_expand d force_no_key nodes stuck = none

-- InnerExpand; `parent_has_key` is `parent && parent->key.len`. None is a read outside the buffer.
unfoldable pub inner_expand :
    (parent_has_key force_no_key : Bool) (nodes : ℕ)
    → Members
    → (metas children : Trees) → Option (Ret × KnvTree)
inner_expand parent_has_key force_no_key nodes d metas children =
    if is_expanded d.child_num
    then some (ret 0, node d metas children)
    else if not (d.type == wt_string) || ((d.tag == 1) && parent_has_key)
    then some (ret 0, leaf_of d)
    else begin_expand d force_no_key nodes (pb_begin blank_field d.val.str_data (get_i32 d.val))

-- Expand
unfoldable pub expand :
    (parent_has_key : Bool) (nodes : ℕ)
    → Members
    → (metas children : Trees) → Option (Ret × KnvTree)
expand parent_has_key nodes d metas children =
    if d.tag == 0
    then some (fail 1, node d metas children)
    else inner_expand parent_has_key false nodes d metas children
