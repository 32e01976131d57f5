-- ===== src/LinkTable/Tests.antt =====
-- Concrete tables, and the theorems at them.
use mysql_proxy.Common.{ℕ, zero, suc, ◌-◌, ◌≡◌, refl, true, List, [], ◌∷◌, update, ret, arith}
use mysql_proxy.LinkTable.Types.{Block, Table}
use mysql_proxy.LinkTable.Free.{free_block}
use mysql_proxy.LinkTable.Alloc.{walk_free, scan_one, scan_empty, get_by_scan, get_empty_block}
use mysql_proxy.LinkTable.Linked.{Linked, Holds, last}
use mysql_proxy.LinkTable.Storing.{
  HasSpace, Stored, set_data-Stored, get_data-set_data, set_data-get_data,
}
use mysql_proxy.LinkTable.Freeing.{Freed, free_block-Freed}
use mysql_proxy.LinkTable.EmptyData.{set_data-empty}
use mysql_proxy.LinkTable.Data.{
  got, get_data, read_loop, block_len, copy_one, copy_loop, finish_set, copy_done, copy_into,
  with_blocks, set_data,
}

-- A new table of `n` blocks of 10 bytes, two of them for data.
abbrev fresh : ℕ → Table
fresh n = record {
  ready = true;
  all_block_count = n - 1;
  free_block_count = n - 1;
  block_size = 10;
  last_empty = 1;
  first_free_pos = 0;
  recycle_index = 0;
  recycle_pool_size = 1;
  recycle_pool = 0 ∷ [];
  user_data = [];
  blocks = λ _. record { next = 0; length_in_block = 0; buf = 0 ∷ 0 ∷ [] };
}

abbrev run : Table → ℕ → List ℕ → Table
run t pos bytes = (set_data t pos bytes).2

-- In a table of five blocks, data for three of the usable positions is read back.
three_blocks :
    get_data
      (run (fresh 5) 0 (1 ∷ 2 ∷ 3 ∷ 4 ∷ 5 ∷ []))
      (set_data (fresh 5) 0 (1 ∷ 2 ∷ 3 ∷ 4 ∷ 5 ∷ [])).1
      8
    ≡ got (1 ∷ 2 ∷ 3 ∷ 4 ∷ 5 ∷ [])
unfolding set_data with_blocks copy_into copy_done copy_loop copy_one finish_set get_empty_block
    get_by_scan scan_empty scan_one walk_free get_data read_loop block_len update
three_blocks = refl

-- The count of free blocks is one too many. Data for four blocks passes the guard, the scan comes
-- back to the block that it began with, and SetData returns 0 for data that is lost.
four_blocks :
    ((set_data (fresh 5) 0 (1 ∷ 2 ∷ 3 ∷ 4 ∷ 5 ∷ 6 ∷ 7 ∷ [])).0 ≡ ret 0)
    × ((set_data (fresh 5) 0 (1 ∷ 2 ∷ 3 ∷ 4 ∷ 5 ∷ 6 ∷ 7 ∷ [])).1 ≡ 1)
unfolding set_data with_blocks copy_into copy_done copy_loop copy_one finish_set get_empty_block
    get_by_scan scan_empty scan_one walk_free update
four_blocks = (refl, refl)

four_blocks_lost : get_data (run (fresh 5) 0 (1 ∷ 2 ∷ 3 ∷ 4 ∷ 5 ∷ 6 ∷ 7 ∷ [])) 1 8 ≡ got (7 ∷ [])
unfolding set_data with_blocks copy_into copy_done copy_loop copy_one finish_set get_empty_block
    get_by_scan scan_empty scan_one walk_free get_data read_loop block_len update
four_blocks_lost = refl

-- A table whose free list leads through the blocks 1 and 2, and block 3 holds the byte 9.
abbrev cells : ℕ → Block
cells (suc zero) = record { next = 2; length_in_block = 0; buf = 0 ∷ 0 ∷ [] }
cells (suc (suc (suc zero))) = record { next = 0; length_in_block = 1; buf = 9 ∷ 0 ∷ [] }
cells _ = record { next = 0; length_in_block = 0; buf = 0 ∷ 0 ∷ [] }

abbrev linked_table : Table
linked_table = record (fresh 5) { first_free_pos = 1; free_block_count = 2; blocks = cells }

abbrev data_bytes : List ℕ
data_bytes = 5 ∷ 6 ∷ 7 ∷ []

free_list-Linked : Linked 4 cells 0 1 (1 ∷ 2 ∷ [])
free_list-Linked =
    (refl, omega arith, omega arith, (omega arith, tt), (refl, omega arith, omega arith, tt, refl))

linked_table-HasSpace : HasSpace linked_table 0 (1 ∷ 2 ∷ []) data_bytes
linked_table-HasSpace = record {
  ready = refl;
  some_data = omega arith;
  small = omega arith;
  linked = free_list-Linked;
  unused = (refl, (refl, tt));
  some_bytes = omega arith;
  enough = omega arith;
  tight = omega arith;
  few = omega arith;
  counted = omega arith;
  countable = omega arith;
}

third-Holds : Holds 2 4 cells 3 (3 ∷ []) (9 ∷ [])
third-Holds = last (omega arith) (omega arith) refl refl (omega arith) (omega arith) refl

set_data-Stored_example :
    Stored linked_table 0 3 (1 ∷ 2 ∷ []) data_bytes (set_data linked_table 3 data_bytes)
set_data-Stored_example =
    set_data-Stored linked_table 0 1 3 (2 ∷ []) data_bytes linked_table-HasSpace

get_data-set_data_example :
    let run = set_data linked_table 0 data_bytes in
    (run.0 ≡ ret 0) × (get_data run.2 run.1 8 ≡ got data_bytes)
get_data-set_data_example =
    get_data-set_data linked_table 0 1 8 (2 ∷ []) data_bytes linked_table-HasSpace (omega arith)

set_data-get_data_example : get_data (set_data linked_table 0 data_bytes).2 3 8 ≡ got (9 ∷ [])
set_data-get_data_example =
    set_data-get_data linked_table 0 1 3 8 (2 ∷ []) data_bytes (3 ∷ []) (9 ∷ [])
      linked_table-HasSpace third-Holds ((omega arith, (omega arith, tt)), tt) (omega arith)

free_block-Freed_example : Freed 0 (3 ∷ []) (1 ∷ 2 ∷ []) linked_table (free_block linked_table 3)
free_block-Freed_example =
    free_block-Freed 0 3 [] (1 ∷ 2 ∷ []) linked_table refl (omega arith) (omega arith) (omega arith)
      (refl, omega arith, omega arith, tt, refl) free_list-Linked (refl, (refl, tt))
      ((omega arith, (omega arith, tt)), tt) (omega arith)

set_data-empty_example :
    let run = set_data linked_table 0 [] in
    (run.0 ≡ ret 0)
    × (run.1 ≡ linked_table.first_free_pos)
    × (run.2.first_free_pos ≡ linked_table.first_free_pos)
set_data-empty_example = set_data-empty linked_table refl (omega arith) (omega arith)
