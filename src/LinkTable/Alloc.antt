-- ===== src/LinkTable/Alloc.antt =====
-- ht/link_table.cc: how blocks are taken from the free list, or found by a scan of all blocks.
use mysql_proxy.Common.{
  ℕ, zero, suc, ◌+◌, ◌-◌, ◌%◌, ◌^◌, ◌&&◌, ◌||◌, ltb, leb, ◌==◌, if◌then◌else◌, Ret, ret, fail,
}
use mysql_proxy.LinkTable.Types.{
  set_next, Table, max_block_count, change, is_negative_int, int_part,
}

-- The walk of LinkTable::GetEmptyBlock along the free list, with the number of blocks still to be
-- found. It ends with that number, the position reached and the table.
unfoldable pub walk_free : (need cur : ℕ) → Table → ℕ × ℕ × Table
walk_free zero cur t = (0, cur, t)
walk_free (suc need) cur t =
    let next = (t.blocks cur).next in
    let t' = if need == 0 then change t cur (set_next 0) else t in
    let rest = walk_free need next t' in
    if ltb 0 cur && (ltb cur t.all_block_count && ((t.blocks cur).length_in_block == 0))
    then rest
    else (suc need, cur, t)

-- Where a scan stands: the blocks still to be found, the position, the chain so far, the table.
pub record Scan : Type 0 where
  pub need : ℕ
  pub cur : ℕ
  pub start : ℕ
  pub table : Table

-- One round of the scan of LinkTable::GetEmptyBlock over all blocks.
unfoldable pub scan_one : Scan → Scan
scan_one s =
    let t = s.table in
    let next_pos = if leb t.all_block_count (s.cur + 1) then 1 else s.cur + 1 in
    if (t.blocks s.cur).length_in_block == 0
    then record {
      need = s.need - 1;
      cur = next_pos;
      start = s.cur;
      table = change t s.cur (set_next s.start);
    }
    else record s { cur = next_pos }

unfoldable pub scan_empty : (rounds : ℕ) → Scan → Scan
scan_empty zero s = s
scan_empty (suc rounds) s =
    let rest = scan_empty rounds (scan_one s) in if s.need == 0 then s else rest

-- The end of LinkTable::GetEmptyBlock, once the free list had too few blocks. The number of rounds is
-- an int; there is none if it is negative.
unfoldable pub get_by_scan : Table → ℕ → Ret × ℕ × Table
get_by_scan t count =
    let s =
      scan_empty (int_part t.all_block_count)
        (record { need = count; cur = t.last_empty; start = 0; table = t }) in
    if ltb 0 s.need
    then (fail 100, 0, s.table)
    else (ret 0, s.start, record (s.table) { last_empty = s.cur })

-- LinkTable::GetEmptyBlock, with the position that it returns by reference. The number of free blocks
-- is compared as an int.
unfoldable pub get_empty_block : Table → ℕ → Ret × ℕ × Table
get_empty_block t count =
    if t.ready
    then (if ltb max_block_count count
          || is_negative_int t.free_block_count
          || ltb (t.free_block_count % 2 ^ 32) count
        then (fail 100, 0, t)
        else (let (missing, cur, t') = walk_free count t.first_free_pos t in
            if missing == 0
            then (ret 0, t.first_free_pos, record t' { first_free_pos = cur })
            else get_by_scan t' count))
    else (fail 1, 0, t)
