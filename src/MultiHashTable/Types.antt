-- ===== src/MultiHashTable/Types.antt =====
-- The data of ht/multi_hash_table.h, and the helpers on one node.
use mysql_proxy.Common.{
  ℕ, ◌+◌, ◌-◌, ◌*◌, ◌%◌, ◌^◌, Bool, true, false, ◌&&◌, List, [], ◌∷◌, ◌==◌, take, length, update,
}
use mysql_proxy.LinkTable.Types.{Table}

-- MhtNode. `access` is the union of dwAccessTime and dwAccessSeq. `key` is what `acKey` was given last.
pub record Node : Type 0 where
  pub hash_key : ℕ
  pub access : ℕ
  pub lt_pos : ℕ
  pub key_len : ℕ
  pub key : List ℕ

-- `memset(n, 0, sizeof(*n))`: the flexible array behind the fields keeps its bytes.
abbrev pub clear_node : Node → Node
clear_node n = record n { hash_key = 0; access = 0; lt_pos = 0; key_len = 0 }

-- MhtHeader, the array of nodes and the link table.
pub record Mht : Type 0 where
  pub ready : Bool
  pub hash_node_num : ℕ
  pub hash_node_size : ℕ
  pub data_block_size : ℕ
  pub row_num : ℕ
  pub rows_node_num : List ℕ
  pub rows_start_node : List ℕ
  pub max_used_row : ℕ
  pub erase_iterator : ℕ
  pub use_access_seq : Bool
  pub nodes : ℕ → Node
  pub lt : Table

-- What is left of a node for its key behind sizeof(MhtNode), as GetMaxKeyLen says it.
abbrev pub key_room : Mht → ℕ
key_room h = h.hash_node_size - 16

abbrev pub change_node : Mht → ℕ → (Node → Node) → Mht
change_node h i f = record h { nodes = update h.nodes i (f (h.nodes i)) }

unfoldable pub is_hnode_empty : Node → Bool
is_hnode_empty n = n.lt_pos == 0

-- memcmp of as many bytes, as a test.
unfoldable pub same_bytes : List ℕ → List ℕ → Bool
same_bytes [] [] = true
same_bytes [] (y ∷ ys) = false
same_bytes (x ∷ xs) [] = false
same_bytes (x ∷ xs) (y ∷ ys) = (x == y) && same_bytes xs ys

-- `hnode_cmp(pKey, iKeyLen, pNode) == 0`; the length is passed as a uint8_t.
unfoldable pub hnode_matches : List ℕ → Node → Bool
hnode_matches key n =
    (length key % 2 ^ 8 == n.key_len)
    && same_bytes (take (length key % 2 ^ 8) key) (take (length key % 2 ^ 8) n.key)

-- DefaultHashFunc: the product and the sum are taken on 32 bits.
unfoldable pub hash_from : ℕ → List ℕ → ℕ
hash_from h [] = h
hash_from h (b ∷ bs) = hash_from ((h * 131 + b) % 2 ^ 32) bs

unfoldable pub default_hash_func : List ℕ → ℕ
unfolding hash_from
default_hash_func key = hash_from 0 key
