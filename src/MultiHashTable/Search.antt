-- ===== src/MultiHashTable/Search.antt =====
-- MultiHashTable::Search of ht/multi_hash_table.cc.
use mysql_proxy.Common.{
  ℕ, zero, suc, ◌+◌, ◌-◌, ◌%◌, ◌^◌, Bool, true, false, ◌&&◌, ◌||◌, Option, none, some, List, ltb,
  leb, ◌==◌, if◌then◌else◌, get_or,
}
use mysql_proxy.MultiHashTable.Types.{Mht, is_hnode_empty, hnode_matches}

-- What Search returns: the node of the key, and by reference the first empty node with its row, and
-- the oldest node on the way.
pub record Hit : Type 0 where
  pub node : Option ℕ
  pub empty : Option (ℕ × ℕ)
  pub oldest : Option ℕ

-- The node of a key in the row `i`, which begins at the node `base`, where the row has nodes:
-- `search_traps` is the other case.
abbrev pub slot : Mht → (hash i base : ℕ) → ℕ
slot h hash i base = base + hash % get_or h.rows_node_num i 0

unfoldable pub keep_empty : Option (ℕ × ℕ) → (row idx : ℕ) → Option (ℕ × ℕ)
keep_empty none row idx = some (row, idx)
keep_empty (some e) row idx = some e

unfoldable pub keep_oldest : Mht → Option ℕ → ℕ → Option ℕ
keep_oldest h none idx = some idx
keep_oldest h (some j) idx = some (if ltb (h.nodes idx).access (h.nodes j).access then idx else j)

-- Behind the last used row an unused row has an empty node.
unfoldable pub after_rows : Mht → (hash i base : ℕ) → Option (ℕ × ℕ) → Option ℕ → Hit
after_rows h hash i base (some e) oldest = record { node = none; empty = some e; oldest = oldest }
after_rows h hash i base none oldest = record {
  node = none;
  empty = if ltb i h.row_num then some (i, slot h hash i base) else none;
  oldest = oldest;
}

-- The loop over the rows, with the number of rows that are left.
unfoldable pub search_rows : Mht → List ℕ → (hash rows i base : ℕ) → Option (ℕ × ℕ) → Option ℕ → Hit
search_rows h key hash zero i base empty oldest = after_rows h hash i base empty oldest
search_rows h key hash (suc rows) i base empty oldest =
    let idx = slot h hash i base in
    let n = h.nodes idx in
    let unused = is_hnode_empty n in
    let rest =
      search_rows h key hash rows (i + 1) (base + get_or h.rows_node_num i 0)
        (if unused then keep_empty empty i idx else empty)
        (if unused then oldest else keep_oldest h oldest idx) in
    if unused
    then rest
    else if (hash == n.hash_key) && hnode_matches key n
    then record { node = some idx; empty = empty; oldest = oldest }
    else rest

-- A row number behind the last row is mended first.
unfoldable pub mend_max_row : Mht → Mht
mend_max_row h =
    if leb h.row_num h.max_used_row
    then record h { max_used_row = (h.row_num + 2 ^ 64 - 1) % 2 ^ 64 }
    else h

-- Search on the mended header.
unfoldable pub search_node : Mht → List ℕ → (hash : ℕ) → Hit
search_node h key hash = search_rows h key hash (h.max_used_row + 1) 0 0 none none

-- The same loop, as to whether it comes to a row without nodes: there `%` divides by zero, and the
-- source is killed. `wants_empty` is whether the caller asks for an empty node, and `seen` whether one
-- was met.
unfoldable pub traps_rows : Mht → List ℕ → (hash rows i base : ℕ) → (wants_empty seen : Bool) → Bool
traps_rows h key hash zero i base wants_empty seen =
    if seen then false else wants_empty && ltb i h.row_num && (get_or h.rows_node_num i 0 == 0)
traps_rows h key hash (suc rows) i base wants_empty seen =
    let n = h.nodes (slot h hash i base) in
    let unused = is_hnode_empty n in
    let rest =
      traps_rows h key hash rows (i + 1) (base + get_or h.rows_node_num i 0) wants_empty
        (seen || unused) in
    if get_or h.rows_node_num i 0 == 0
    then true
    else if unused
    then rest
    else if (hash == n.hash_key) && hnode_matches key n
    then false
    else rest

-- Whether Search on the mended header divides by zero.
unfoldable pub search_traps : Mht → List ℕ → (hash : ℕ) → (wants_empty : Bool) → Bool
search_traps h key hash wants_empty =
    traps_rows h key hash (h.max_used_row + 1) 0 0 wants_empty false
