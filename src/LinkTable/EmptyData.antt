-- ===== src/LinkTable/EmptyData.antt =====
-- What LinkTable::SetData does with no bytes at all.
use mysql_proxy.Common.{
  ◌+◌, ◌-◌, ◌/◌, ◌%◌, ◌^◌, ◌<◌, ◌≡◌, refl, ap, ◌∙◌, [], true, false, ltb, ◌||◌, arith, if_true,
  if_false, ltb-false, ret,
}
use mysql_proxy.LinkTable.Types.{
  Table, block_data_len, set_next, change, max_block_count, is_negative_int, is_negative_int-small,
}
use mysql_proxy.LinkTable.Alloc.{walk_free, get_empty_block}
use mysql_proxy.LinkTable.Data.{copy_loop, finish_set, copy_done, copy_into, with_blocks, set_data}

get_no_block :
    (t : Table)
    → t.ready ≡ true
    → t.free_block_count < 2 ^ 31
    → get_empty_block t 0 ≡ (ret 0, t.first_free_pos, t)
unfolding get_empty_block walk_free
get_no_block t ready countable =
    if_true _ _ ready
    ∙ if_false _ _ (guards (ltb-false (t.free_block_count % 2 ^ 32) 0 (omega arith)))
  where
    guards :
        ltb (t.free_block_count % 2 ^ 32) 0 ≡ false
        → (ltb max_block_count 0
            || is_negative_int t.free_block_count
            || ltb (t.free_block_count % 2 ^ 32) 0)
          ≡ false
    guards e = rw (is_negative_int-small t.free_block_count countable) (rw e)

-- In a table that is initialised, whose blocks have room for data, and with fewer than 2 ^ 31 free
-- blocks, SetData without bytes for a new entry returns 0 and the head of the free list, which stays
-- the head of the free list.
pub set_data-empty :
    (t : Table)
    → t.ready ≡ true
    → t.free_block_count < 2 ^ 31
    → 0 < block_data_len t
    → let run = set_data t 0 [] in
      (run.0 ≡ ret 0) × (run.1 ≡ t.first_free_pos) × (run.2.first_free_pos ≡ t.first_free_pos)
unfolding set_data with_blocks copy_into copy_done copy_loop finish_set
set_data-empty t ready countable some_data = rw result (refl, refl, refl)
  where
    none_needed : (0 + block_data_len t - 1) / block_data_len t ≡ 0
    none_needed = grind arith

    result :
        set_data t 0 []
        ≡ (ret 0, t.first_free_pos, change (change t 0 (set_next 0)) 0 (set_next t.first_free_pos))
    result =
        if_true _ _ ready ∙ rw none_needed (ap (with_blocks 0 []) (get_no_block t ready countable))
