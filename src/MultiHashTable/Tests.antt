-- ===== src/MultiHashTable/Tests.antt =====
-- Concrete tables, and the theorems at them.
use mysql_proxy.Common.{arith, ◌-◌, ℕ, zero, suc, ◌≡◌, refl, true, false, some, [], ◌∷◌}
use mysql_proxy.LinkTable.Types.{Block, Table}
use mysql_proxy.MultiHashTable.Types.{Node, Mht, is_hnode_empty, same_bytes, hnode_matches}
use mysql_proxy.MultiHashTable.Search.{
  keep_empty, keep_oldest, after_rows, search_rows, search_node,
}
use mysql_proxy.MultiHashTable.Iterate.{max_used_node, next}
use mysql_proxy.MultiHashTable.Visits.{FirstInUse, next-FirstInUse}
use mysql_proxy.MultiHashTable.Found.{HoldsKey, search_node-HoldsKey}

-- Two rows of three and two nodes. The node 1 holds the key of the bytes 7 and 7 with the hash 4, at
-- the block 3 of a link table of which one block of two bytes is free.
abbrev blank : Node
blank = record { hash_key = 0; access = 0; lt_pos = 0; key_len = 0; key = [] }

abbrev key_node : Node
key_node = record { hash_key = 4; access = 9; lt_pos = 3; key_len = 2; key = 7 ∷ 7 ∷ [] }

abbrev cells : ℕ → Block
cells (suc (suc (suc zero))) = record { next = 0; length_in_block = 1; buf = 9 ∷ 0 ∷ [] }
cells _ = record { next = 0; length_in_block = 0; buf = 0 ∷ 0 ∷ [] }

abbrev blocks_left : ℕ → Table
blocks_left n = record {
  ready = true;
  all_block_count = 4;
  free_block_count = n;
  block_size = 10;
  last_empty = 1;
  first_free_pos = 1;
  recycle_index = 0;
  recycle_pool_size = 1;
  recycle_pool = 0 ∷ [];
  user_data = [];
  blocks = cells;
}

abbrev nodes_of : ℕ → Node
nodes_of (suc zero) = key_node
nodes_of _ = blank

abbrev two_rows : Mht
two_rows = record {
  ready = true;
  hash_node_num = 5;
  hash_node_size = 24;
  data_block_size = 10;
  row_num = 2;
  rows_node_num = 3 ∷ 2 ∷ [];
  rows_start_node = 0 ∷ 3 ∷ [];
  max_used_row = 0;
  erase_iterator = 0;
  use_access_seq = false;
  nodes = nodes_of;
  lt = blocks_left 1;
}

search_finds : (search_node two_rows (7 ∷ 7 ∷ []) 4).node ≡ some 1
unfolding search_node search_rows after_rows keep_empty keep_oldest is_hnode_empty hnode_matches
    same_bytes
search_finds = refl

search_node-HoldsKey_example : HoldsKey two_rows (7 ∷ 7 ∷ []) 4 1
search_node-HoldsKey_example =
    search_node-HoldsKey two_rows (7 ∷ 7 ∷ []) 4 1 (omega arith) search_finds

-- The iterator at the node 0, with the node 2 next in use; the nodes 3 and 4 are in no used row.
abbrev later_key : ℕ → Node
later_key (suc (suc zero)) = key_node
later_key _ = blank

abbrev later_table : Mht
later_table = record two_rows { nodes = later_key }

used_is_three : max_used_node later_table ≡ 3
unfolding max_used_node
used_is_three = refl

next-FirstInUse_example :
    FirstInUse later_table 1 (max_used_node later_table - 1) (next later_table 0)
next-FirstInUse_example =
    next-FirstInUse later_table 0 refl (omega arith) (omega (arith, used_is_three))
