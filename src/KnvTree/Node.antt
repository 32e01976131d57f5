-- ===== src/KnvTree/Node.antt =====
-- The members of KnvNode and knv_key_t, knv/knv_node.h, and the sizes that a node keeps of itself.
use mysql_proxy.Common.{
  ℕ, ◌+◌, ◌*◌, ◌%◌, ◌^◌, Bool, true, false, ◌&&◌, ◌||◌, not, Option, none, some, List, [], ◌∷◌,
  take, ltb, ◌==◌, if◌then◌else◌,
}
use mysql_proxy.Pb.Types.{FieldVal, get_i32, wt_string}
use mysql_proxy.Pb.Size.{pb_eval_field_length}

-- knv_key_t. The bytes from the pointer `val` on are the list, and NULL is the empty one.
pub record KnvKey : Type 0 where
  pub type : ℕ
  pub len : ℕ
  pub val : List ℕ

-- The members of a KnvNode but for its lists. `child_num` is none for -1, a node that is not
-- expanded, and `eval_sz` is none for -1, a size that is not known. The links, the array of the metas
-- by tag, child_has_key and errmsg are left out.
pub record Members : Type 0 where
  pub tag : ℕ
  pub type : ℕ
  pub val : FieldVal
  pub key : KnvKey
  pub child_num : Option ℕ
  pub subnode_dirty : Bool
  pub no_key : Bool
  pub eval_sz : Option ℕ
  pub eval_val_sz : ℕ

-- A node with `metalist` and `childlist`.
mutual
  pub data KnvTree : Type 0 where
    node : Members → Trees → Trees → KnvTree

  pub data Trees : Type 0 where
    nil : Trees
    cons : KnvTree → Trees → Trees

-- The number that the low bytes of memory are, lowest first.
unfoldable pub number_at : List ℕ → ℕ
number_at [] = 0
number_at (b ∷ bs) = b + 256 * number_at bs

-- knv_key_t::GetValue
unfoldable pub key_value : KnvKey → FieldVal
key_value k =
    if k.type == wt_string
    then record { i64 = k.len; str_data = k.val }
    else record { i64 = number_at (take (if ltb 8 k.len then 8 else k.len) k.val); str_data = [] }

-- `val != NULL`
abbrev pub has_bytes : List ℕ → Bool
has_bytes [] = false
has_bytes (b ∷ bs) = true

-- `!no_key && key.len>0 && key.val`
unfoldable pub has_key : Members → Bool
has_key d = not d.no_key && ltb 0 d.key.len && has_bytes d.key.val

-- IsBufferValid
unfoldable pub is_buffer_valid : FieldVal → Bool
is_buffer_valid v = ltb 0 (get_i32 v) && has_bytes v.str_data

abbrev pub is_nil : Trees → Bool
is_nil nil = true
is_nil (cons t ts) = false

-- `child_num<0 || (child_num==0 && metalist==NULL)`
abbrev pub has_no_subnodes : Option ℕ → Trees → Bool
has_no_subnodes none metas = true
has_no_subnodes (some n) metas = (n == 0) && is_nil metas

-- What EvaluateSize and Serialize begin with: a leaf, or a node whose value is up to date.
unfoldable pub is_folded : Members → Trees → Bool
is_folded d metas =
    not (d.type == wt_string)
    || has_no_subnodes d.child_num metas
    || (is_buffer_valid d.val && not d.subnode_dirty)

abbrev pub tag_of : KnvTree → ℕ
tag_of (node d ms cs) = d.tag

abbrev pub first_is_key : Trees → Bool
first_is_key nil = false
first_is_key (cons t ts) = tag_of t == 1

-- The first meta is left out when the key stands in front.
unfoldable pub skips_first : Members → Trees → Bool
skips_first d metas = has_key d && first_is_key metas

-- `knv_value_t v; v.str.len = n;`
abbrev pub of_length : ℕ → FieldVal
of_length n = record { i64 = n % 2 ^ 32; str_data = [] }

-- The size of a leaf, or of a node whose value is up to date.
unfoldable pub leaf_sized : Members → Members
leaf_sized d = record d {
  eval_val_sz = if d.type == wt_string then get_i32 d.val else 0;
  eval_sz = some (pb_eval_field_length d.tag d.type d.val);
}

abbrev pub eval_sz_of : KnvTree → ℕ
eval_sz_of (node d ms cs) = elim d.eval_sz [ none ↦ 0 | some n ↦ n ]

abbrev pub eval_val_sz_of : KnvTree → ℕ
eval_val_sz_of (node d ms cs) = d.eval_val_sz

-- The sum over the loops of EvaluateSize, once the nodes have their sizes.
unfoldable pub sum_sizes : (skip : Bool) → Trees → ℕ
sum_sizes skip nil = 0
sum_sizes true (cons t ts) = sum_sizes false ts
sum_sizes false (cons t ts) = eval_sz_of t + sum_sizes false ts

-- The part of the key.
unfoldable pub key_size : Members → ℕ
key_size d = if has_key d then pb_eval_field_length 1 d.key.type (key_value d.key) else 0

-- The size of an expanded node whose subnodes have their sizes.
unfoldable pub node_sized : Members → Trees → Trees → Members
node_sized d metas children =
    let n = key_size d + sum_sizes (skips_first d metas) metas + sum_sizes false children in
    record d { eval_val_sz = n; eval_sz = some (pb_eval_field_length d.tag d.type (of_length n)) }

-- The end of EvaluateSize; `ms` and `cs` have their sizes.
unfoldable pub sized : Members → (metas children ms cs : Trees) → Option ℕ → KnvTree
sized d metas children ms cs (some n) = node d metas children
sized d metas children ms cs none =
    if is_folded d metas
    then node (leaf_sized d) metas children
    else node (node_sized d ms cs) ms cs

-- KnvNode::EvaluateSize, on a node and on lists. A first meta that is left out keeps what it has.
unfoldable mutual
  pub evaluate : KnvTree → KnvTree
  evaluate (node d metas children) =
      sized d metas children (evaluate_list (skips_first d metas) metas)
        (evaluate_list false children) d.eval_sz

  pub evaluate_list : (skip : Bool) → Trees → Trees
  evaluate_list skip nil = nil
  evaluate_list true (cons t ts) = cons t (evaluate_list false ts)
  evaluate_list false (cons t ts) = cons (evaluate t) (evaluate_list false ts)

unfoldable pub evaluate_size : KnvTree → ℕ
evaluate_size t = eval_sz_of (evaluate t)
