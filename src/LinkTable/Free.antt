-- ===== src/LinkTable/Free.antt =====
-- ht/link_table.cc: the initialisation, and how chains of blocks are given back.
use mysql_proxy.Common.{
  ℕ, zero, suc, ◌+◌, ◌*◌, ◌%◌, ◌^◌, true, ◌||◌, not, [], ltb, leb, ◌==◌, if◌then◌else◌, replicate,
  get_or, set, Ret, ret, fail, update,
}
use mysql_proxy.LinkTable.Types.{
  set_next, Table, max_block_count, max_recycle_pool_size, def_recycle_pool_size, zero_block, dec64,
}

-- LinkTable::Init on a buffer of `buffer_size` bytes that is not NULL; `head_size` is
-- sizeof(LinkTableHead). The blocks keep what the buffer held.
unfoldable pub init :
    (head_size : ℕ) → Table → (buffer_size block_count block_size : ℕ) → Ret × Table
init head_size t buffer_size block_count block_size =
    if ltb buffer_size (head_size + block_count * block_size) then (fail 1, t) else (
      ret 0,
      record t {
        ready = true;
        all_block_count = dec64 block_count;
        free_block_count = dec64 block_count;
        block_size = block_size;
        last_empty = 1;
        first_free_pos = 0;
        recycle_index = 0;
        recycle_pool_size = def_recycle_pool_size;
        recycle_pool = replicate max_recycle_pool_size 0;
        user_data = [];
      },
    )

-- LinkTable::InitExisting: the header that the buffer holds must agree.
unfoldable pub init_existing :
    (head_size : ℕ) → Table → (buffer_size block_count block_size : ℕ) → Ret × Table
init_existing head_size t buffer_size block_count block_size =
    if ltb buffer_size (head_size + block_count * block_size)
    then (fail 1, t)
    else (let t' = record t { ready = true } in
        if not (t.all_block_count == dec64 block_count)
        then (fail 2, t')
        else if not (t.block_size == block_size)
        then (fail 3, t')
        else (ret 0, t'))

-- One round of LinkTable::FreeBlock: the block is cleared and put in front of the free list.
unfoldable pub free_one : ℕ → Table → Table
free_one cur t = record t {
  blocks = update t.blocks cur (set_next t.first_free_pos (zero_block t));
  first_free_pos = cur;
  free_block_count = (t.free_block_count + 1) % 2 ^ 64;
}

-- The loop of LinkTable::FreeBlock, with the rounds that `iCount <= MAX_BLOCK_COUNT` leaves.
unfoldable pub free_loop : ℕ → (next : ℕ) → Table → Ret × Table
free_loop zero next t = (if next == 0 then ret 0 else fail 4, t)
free_loop (suc rounds) next t =
    let rest = free_loop rounds (t.blocks next).next (free_one next t) in
    if next == 0 then (ret 0, t) else if leb t.all_block_count next then (fail 3, t) else rest

unfoldable pub free_block : Table → ℕ → Ret × Table
free_block t start =
    if t.ready
    then (if (start == 0) || leb t.all_block_count start
        then (fail 2, t)
        else free_loop (max_block_count + 1) start t)
    else (fail 1, t)

-- LinkTable::RecycleBlock past its check: the chain takes a place in the pool, and the one that had
-- the place is freed.
unfoldable pub recycle_at : Table → (idx start : ℕ) → Ret × Table
recycle_at t idx start =
    let old = get_or t.recycle_pool idx 0 in
    let t' = record t {
      recycle_pool = set t.recycle_pool idx start;
      recycle_index = (idx + 1) % t.recycle_pool_size;
    } in
    (ret 0, if old == 0 then t' else (free_block t' old).1)

unfoldable pub recycle_block : Table → ℕ → Ret × Table
recycle_block t start =
    if t.ready
    then (if leb t.recycle_pool_size t.recycle_index
        then recycle_at (record t { recycle_index = 0 }) 0 start
        else recycle_at t t.recycle_index start)
    else (fail 1, t)

-- The loop of LinkTable::EmptyRecyclePool over the indices from `i` on.
unfoldable pub empty_pool_loop : (rounds i : ℕ) → Table → Table
empty_pool_loop zero i t = t
empty_pool_loop (suc rounds) i t =
    let old = get_or t.recycle_pool i 0 in
    let freed = (free_block t old).1 in
    empty_pool_loop rounds (i + 1)
      (if old == 0 then t else record freed { recycle_pool = set freed.recycle_pool i 0 })

unfoldable pub empty_recycle_pool : Table → Table
empty_recycle_pool t =
    if t.ready then record (empty_pool_loop t.recycle_pool_size 0 t) { recycle_index = 0 } else t
