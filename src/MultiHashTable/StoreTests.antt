-- ===== src/MultiHashTable/StoreTests.antt =====
-- The theorems on a new key at a concrete table, with the hash function of the source.
use mysql_proxy.Common.{ℕ, zero, suc, ◌≡◌, ◌≢◌, refl, true, false, some, List, [], ◌∷◌, arith}
use mysql_proxy.LinkTable.Types.{Block}
use mysql_proxy.LinkTable.Linked.{Linked, Holds, last}
use mysql_proxy.MultiHashTable.Types.{
  Node, Mht, is_hnode_empty, same_bytes, hnode_matches, hash_from, default_hash_func,
}
use mysql_proxy.MultiHashTable.Search.{
  keep_empty, keep_oldest, after_rows, search_rows, search_node,
}
use mysql_proxy.MultiHashTable.Rows.{RowsFilled}
use mysql_proxy.MultiHashTable.Storing.{CanStore}
use mysql_proxy.MultiHashTable.RoundTrip.{Answered, mht_get_data-mht_set_data}
use mysql_proxy.MultiHashTable.Frame.{Kept, mht_set_data-mht_get_data}

-- The free list leads through the blocks 1 and 2; block 3 has the data 9 of the key 7 7 at the node 0.
abbrev cells : ℕ → Block
cells (suc zero) = record { next = 2; length_in_block = 0; buf = 0 ∷ 0 ∷ [] }
cells (suc (suc (suc zero))) = record { next = 0; length_in_block = 1; buf = 9 ∷ 0 ∷ [] }
cells _ = record { next = 0; length_in_block = 0; buf = 0 ∷ 0 ∷ [] }

abbrev old_node : Node
old_node = record { hash_key = 924; access = 9; lt_pos = 3; key_len = 2; key = 7 ∷ 7 ∷ [] }

abbrev nodes_of : ℕ → Node
nodes_of zero = old_node
nodes_of _ = record { hash_key = 0; access = 0; lt_pos = 0; key_len = 0; key = [] }

abbrev small_table : Mht
small_table = record {
  ready = true;
  hash_node_num = 5;
  hash_node_size = 24;
  data_block_size = 10;
  row_num = 2;
  rows_node_num = 3 ∷ 2 ∷ [];
  rows_start_node = 0 ∷ 3 ∷ [];
  max_used_row = 0;
  erase_iterator = 0;
  use_access_seq = false;
  nodes = nodes_of;
  lt = record {
    ready = true;
    all_block_count = 4;
    free_block_count = 2;
    block_size = 10;
    last_empty = 1;
    first_free_pos = 1;
    recycle_index = 0;
    recycle_pool_size = 1;
    recycle_pool = 0 ∷ [];
    user_data = [];
    blocks = cells;
  };
}

abbrev new_key : List ℕ
new_key = 8 ∷ []

abbrev new_bytes : List ℕ
new_bytes = 5 ∷ 6 ∷ 7 ∷ []

free_list-Linked : Linked 4 cells 0 1 (1 ∷ 2 ∷ [])
free_list-Linked =
    (refl, omega arith, omega arith, (omega arith, tt), (refl, omega arith, omega arith, tt, refl))

both_rows : RowsFilled 2 (3 ∷ 2 ∷ [])
both_rows zero below = omega arith
both_rows (suc zero) below = omega arith
both_rows (suc (suc i)) below = absurd (omega arith)

small_table-CanStore :
    CanStore default_hash_func small_table new_key new_bytes false 0 2 0 (1 ∷ 2 ∷ [])
unfolding search_node search_rows after_rows keep_empty keep_oldest is_hnode_empty default_hash_func
    hash_from hnode_matches same_bytes
small_table-CanStore = record {
  ready = refl;
  nonempty = omega arith;
  fits = omega arith;
  rows = both_rows;
  inside = omega arith;
  missing = refl;
  named = refl;
  unused = refl;
  calm = refl;
  space = record {
    ready = refl;
    some_data = omega arith;
    small = omega arith;
    linked = free_list-Linked;
    unused = (refl, (refl, tt));
    some_bytes = omega arith;
    enough = omega arith;
    tight = omega arith;
    few = omega arith;
    counted = omega arith;
    countable = omega arith;
  };
  small = omega arith;
}

mht_get_data-mht_set_data_example :
    Answered default_hash_func 20 30 true small_table new_key new_bytes false 2 8
mht_get_data-mht_set_data_example =
    mht_get_data-mht_set_data default_hash_func 20 30 true small_table new_key new_bytes false 0 2 0
      1 8 (2 ∷ []) small_table-CanStore (omega arith)

old_key_found :
    (search_node small_table (7 ∷ 7 ∷ []) (default_hash_func (7 ∷ 7 ∷ []))).node ≡ some 0
unfolding search_node search_rows after_rows keep_empty keep_oldest is_hnode_empty default_hash_func
    hash_from hnode_matches same_bytes
old_key_found = refl

keys_differ : ◌≢◌ {A = List ℕ} (7 ∷ 7 ∷ []) (8 ∷ [])
keys_differ e = cc

old_data-Holds : Holds 2 4 cells 3 (3 ∷ []) (9 ∷ [])
old_data-Holds = last (omega arith) (omega arith) refl refl (omega arith) (omega arith) refl

mht_set_data-mht_get_data_example :
    Kept default_hash_func 20 30 false small_table new_key new_bytes false (7 ∷ 7 ∷ []) (9 ∷ []) 0 8
mht_set_data-mht_get_data_example =
    mht_set_data-mht_get_data default_hash_func 20 30 false small_table new_key new_bytes false 0 2
      0 1 8 (2 ∷ []) (7 ∷ 7 ∷ []) (9 ∷ []) (3 ∷ []) 0 small_table-CanStore (omega arith)
      (omega arith) (omega arith) keys_differ old_key_found old_data-Holds
      ((omega arith, (omega arith, tt)), tt) (omega arith)
