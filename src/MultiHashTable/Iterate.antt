-- ===== src/MultiHashTable/Iterate.antt =====
-- The iteration of ht/multi_hash_table.cc: MultiHashTable::Begin, Next, End and Get.
use mysql_proxy.Common.{
  ℕ, zero, suc, ◌+◌, ◌-◌, ◌*◌, ◌%◌, ◌^◌, List, ltb, ◌==◌, if◌then◌else◌, take, get_or,
}
use mysql_proxy.LinkTable.Data.{Read, got, unread, stuck, get_data}
use mysql_proxy.MultiHashTable.Types.{Mht, clear_node, change_node, is_hnode_empty}

-- End() is (MhtIterator)-1.
abbrev pub end_it : ℕ
end_it = 2 ^ 64 - 1

-- The nodes of the used rows.
unfoldable pub max_used_node : Mht → ℕ
max_used_node h =
    let used =
      if ltb h.max_used_row h.row_num
      then get_or h.rows_start_node h.max_used_row 0 + get_or h.rows_node_num h.max_used_row 0
      else h.hash_node_num in
    if ltb h.hash_node_num used then h.hash_node_num else used

-- The loop, with the number of nodes from `it` on.
unfoldable pub next_loop : (rounds : ℕ) → Mht → (it : ℕ) → ℕ
next_loop zero h it = end_it
next_loop (suc rounds) h it =
    let rest = next_loop rounds h (it + 1) in if is_hnode_empty (h.nodes it) then rest else it

-- Next: an iterator of a table that is not initialised is -1 too.
unfoldable pub next : Mht → ℕ → ℕ
next h it =
    let it' = (it + 1) % 2 ^ 64 in
    if h.ready then next_loop (max_used_node h - it') h it' else end_it

unfoldable pub begin : Mht → ℕ
begin h = next h end_it

-- MhtData, or the codes of a failure: on -21 the node is cleared.
pub data Item : Type 0 where
  item : (key : List ℕ) (access : ℕ) (bytes : List ℕ) → Item
  no_item : ℕ → Mht → Item
  looping : Item

abbrev pub hash_max_key_length : ℕ
hash_max_key_length = 10240

abbrev pub hash_max_data_length : ℕ
hash_max_data_length = 100 * 1024 * 1024

unfoldable pub item_read : Mht → ℕ → Read → Item
item_read h it (got bytes) =
    let n = h.nodes it in
    item (take (if ltb hash_max_key_length n.key_len then hash_max_key_length else n.key_len) n.key)
      n.access bytes
item_read h it (unread n) =
    if n == 21
    then no_item 21 (change_node h it clear_node)
    else if n == 22
    then no_item 21 (change_node h it clear_node)
    else no_item 2 h
item_read h it stuck = looping

unfoldable pub get : Mht → ℕ → Item
get h it =
    if h.ready
    then item_read h it (get_data h.lt (h.nodes it).lt_pos hash_max_data_length)
    else no_item 1 h
