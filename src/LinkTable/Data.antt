-- ===== src/LinkTable/Data.antt =====
-- ht/link_table.cc: what is stored, read and erased, and the user's part of the header.
use mysql_proxy.Common.{
  ℕ, zero, suc, ◌+◌, ◌-◌, ◌*◌, ◌/◌, ◌%◌, ◌^◌, ◌||◌, List, [], ◌++◌, ltb, leb, ◌==◌, if◌then◌else◌,
  take, drop, length, Ret, ret, fail,
}
use mysql_proxy.LinkTable.Types.{
  set_next, set_length, Table, max_block_count, max_recycle_pool_size, max_usrdata_len,
  block_data_len, change, dec64,
}
use mysql_proxy.LinkTable.Free.{recycle_block, empty_recycle_pool}
use mysql_proxy.LinkTable.Alloc.{get_empty_block}

-- The end of a read: the bytes, a negative code, or a loop of the model that ran out of fuel.
pub data Read : Type 0 where
  got : List ℕ → Read
  unread : ℕ → Read
  stuck : Read

-- `wBlockLen`, of 16 bits: how many bytes of one block LinkTable::GetData copies.
unfoldable pub block_len : Table → ℕ → ℕ
block_len t cur =
    let b = t.blocks cur in
    if b.next == 0
    then (if ltb (block_data_len t) b.length_in_block then block_data_len t else b.length_in_block)
    else block_data_len t % 2 ^ 16

-- The loop of LinkTable::GetData: `data_len` bytes are in the buffer of `buf_len` bytes.
unfoldable pub read_loop : ℕ → (next data_len buf_len : ℕ) → Table → List ℕ → Read
read_loop zero next data_len buf_len t out = if next == 0 then got out else stuck
read_loop (suc fuel) next data_len buf_len t out =
    let n = block_len t next in
    let out' = out ++ take n (t.blocks next).buf in
    let rest = read_loop fuel (t.blocks next).next (data_len + n) buf_len t out' in
    if next == 0
    then got out
    else if leb t.all_block_count next
    then unread 21
    else if ltb buf_len (data_len + block_data_len t)
    then unread 22
    else rest

-- LinkTable::GetData into a buffer of `buf_len` bytes. Each round but the last fills a block's data
-- length, so `buf_len + 1` rounds are enough. (The source reads the block size from the header before
-- it tests that there is one.)
unfoldable pub get_data : Table → (pos buf_len : ℕ) → Read
get_data t pos buf_len =
    if ltb buf_len (block_data_len t)
    then unread 1
    else if t.ready
    then read_loop (buf_len + 1) pos 0 buf_len t []
    else unread 1

-- Where the copying loop of LinkTable::SetData stands.
pub record Copy : Type 0 where
  pub cur : ℕ
  pub next : ℕ
  pub left : List ℕ
  pub table : Table

-- One round: a block takes its data length, or what is left.
unfoldable pub copy_one : Copy → Copy
copy_one s =
    let t = s.table in
    let n = if ltb (block_data_len t) (length s.left) then block_data_len t else length s.left in
    let filled =
      change t s.next λ b. set_length n (record b { buf = take n s.left ++ drop n b.buf }) in
    record {
      cur = s.next;
      next = (t.blocks s.next).next;
      left = drop n s.left;
      table = record filled { free_block_count = dec64 t.free_block_count };
    }

-- The loop; -8 is a position outside the table. A round takes a byte at least, so as many rounds as
-- there are bytes are enough.
unfoldable pub copy_loop : ℕ → Copy → Ret × Copy
copy_loop zero s = (ret 0, s)
copy_loop (suc fuel) s =
    let rest = copy_loop fuel (copy_one s) in
    if (s.next == 0) || (length s.left == 0)
    then (ret 0, s)
    else if leb s.table.all_block_count s.next
    then (fail 8, record s { cur = s.next })
    else rest

-- LinkTable::SetData once the chain is built: it is cut behind the last block, and the old chain is
-- recycled.
unfoldable pub finish_set : (old start : ℕ) → Copy → Ret × ℕ × Table
finish_set old start s =
    if ltb 0 (length s.left)
    then (fail 9, old, s.table)
    else (let cut = change (change s.table s.cur (set_next 0)) 0 (set_next s.next) in
        (ret 0, start, if old == 0 then cut else (recycle_block cut old).1))

unfoldable pub copy_done : (old start : ℕ) → Ret × Copy → Ret × ℕ × Table
copy_done old start (ret n, s) = finish_set old start s
copy_done old start (fail n, s) = (fail n, old, s.table)

unfoldable pub copy_into : Table → (old start : ℕ) → List ℕ → Ret × ℕ × Table
copy_into t old start bytes =
    copy_done old start
      (copy_loop (length bytes) (record { cur = 0; next = start; left = bytes; table = t }))

-- LinkTable::SetData with what GetEmptyBlock returned.
unfoldable pub with_blocks : (old : ℕ) → List ℕ → Ret × ℕ × Table → Ret × ℕ × Table
with_blocks old bytes (ret n, start, t) = copy_into t old start bytes
with_blocks old bytes (fail n, start, t) = (fail (if n == 100 then 100 else 7), old, t)

-- LinkTable::SetData of the bytes at `sDataBuf`, with the position that is passed by reference.
unfoldable pub set_data : Table → (pos : ℕ) → List ℕ → Ret × ℕ × Table
set_data t pos bytes =
    if t.ready
    then (let count = (length bytes + block_data_len t - 1) / block_data_len t in
        if ltb max_block_count count
        then (fail 2, pos, t)
        else with_blocks pos bytes (get_empty_block t count))
    else (fail 1, pos, t)

unfoldable pub erase_data : Table → ℕ → Ret × Table
erase_data t pos = if t.ready then recycle_block t pos else (fail 1, t)

-- LinkTable::SetRecyclePoolSize
unfoldable pub set_recycle_pool_size : Table → ℕ → Ret × Table
set_recycle_pool_size t sz =
    if ltb sz 1 || ltb max_recycle_pool_size sz
    then (fail 1, t)
    else if t.ready
    then (ret 0, record (empty_recycle_pool t) { recycle_pool_size = sz })
    else (fail 2, t)

-- LinkTable::GetHeaderData into a buffer of `size` bytes: the code and the bytes.
unfoldable pub get_header_data : Table → ℕ → Ret × List ℕ
get_header_data t size =
    if size == 0
    then (fail 1, [])
    else if t.ready
    then (let n = if ltb (length t.user_data) size then length t.user_data else size in
        (ret n, take n t.user_data))
    else (fail 2, [])

-- LinkTable::SetHeaderData; `user_data` is the part of `sUserData` that is in use.
unfoldable pub set_header_data : Table → List ℕ → Ret × Table
set_header_data t bytes =
    if t.ready
    then (let n = if ltb max_usrdata_len (length bytes) then max_usrdata_len else length bytes in
        (ret n, record t { user_data = take n bytes }))
    else (fail 2, t)

-- LinkTable::GetUsage, in percent, where no more blocks are free than there are.
unfoldable pub get_usage : Table → ℕ
get_usage t = if t.ready then 100 - t.free_block_count * 100 / t.all_block_count else 0
