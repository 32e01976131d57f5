-- ===== src/MultiHashTable/Entries.antt =====
-- MultiHashTable::GetData, EraseData and EraseBadNode of ht/multi_hash_table.cc, and the usage.
use mysql_proxy.Common.{
  ℕ, ◌+◌, ◌-◌, ◌%◌, ◌^◌, Bool, false, Option, none, some, List, [], ltb, ◌==◌, if◌then◌else◌,
  length, Ret, ret, fail,
}
use mysql_proxy.LinkTable.Types.{Table}
use mysql_proxy.LinkTable.Data.{Read, got, unread, stuck, get_data, erase_data, get_usage}
use mysql_proxy.MultiHashTable.Types.{Mht, clear_node, change_node, hnode_matches}
use mysql_proxy.MultiHashTable.Search.{mend_max_row, search_node, search_traps}

-- What GetData hands out: the code, the bytes in the buffer, the time of the last access if the key
-- was found, and the table after it. `looping` is a read of the link table that does not end, and
-- `trapped` a search that divides by zero.
pub data Answer : Type 0 where
  answer : Ret → List ℕ → Option ℕ → Mht → Answer
  looping : Answer
  trapped : Answer

-- The access is noted before the data is read.
unfoldable pub touch : (now : ℕ) → (update : Bool) → Mht → ℕ → Mht
touch now update h i =
    if update
    then change_node h i
        (λ n. record n { access = if h.use_access_seq then (n.access + 1) % 2 ^ 32 else now })
    else h

unfoldable pub with_read : Mht → (last : ℕ) → Read → Answer
with_read h last (got bytes) = answer (ret 0) bytes (some last) h
with_read h last (unread n) = answer (fail n) [] (some last) h
with_read h last stuck = looping

-- GetData at the node of the key; the key is compared once more.
unfoldable pub read_node : (now : ℕ) → (update : Bool) → Mht → List ℕ → (buf_len i : ℕ) → Answer
read_node now update h key buf_len i =
    let h' = touch now update h i in
    if hnode_matches key (h'.nodes i)
    then with_read h' (h.nodes i).access (get_data h'.lt (h'.nodes i).lt_pos buf_len)
    else answer (fail 3) [] (some (h.nodes i).access) h'

unfoldable pub read_hit :
    (now : ℕ) → (update : Bool) → Mht → List ℕ → (buf_len : ℕ) → Option ℕ → Answer
read_hit now update h key buf_len none = answer (ret 0) [] none h
read_hit now update h key buf_len (some i) = read_node now update h key buf_len i

module _ (hashfunc : List ℕ → ℕ) where
  -- MultiHashTable::GetData into a buffer of `buf_len` bytes.
  unfoldable pub mht_get_data : (now : ℕ) → (update : Bool) → Mht → List ℕ → (buf_len : ℕ) → Answer
  mht_get_data now update h key buf_len =
      if length key == 0
      then answer (fail 1) [] none h
      else if buf_len == 0
      then answer (fail 1) [] none h
      else if h.ready
      then (let h' = mend_max_row h in
          let answered =
            read_hit now update h' key buf_len (search_node h' key (hashfunc key)).node in
          if search_traps h' key (hashfunc key) false then trapped else answered)
      else answer (fail 2) [] none h

-- EraseBadNode and EraseData at the node that was found. A chain that is erased waits in the
-- recycle pool of the link table.
unfoldable pub drop_node : Mht → Option ℕ → Ret × Mht
drop_node h none = (ret 0, h)
drop_node h (some i) = (ret 1, change_node h i clear_node)

unfoldable pub cleared : Mht → ℕ → Ret × Table → (code : ℕ) → (done : ℕ) → Ret × Mht
cleared h i (ret n, t) code done = (ret done, change_node (record h { lt = t }) i clear_node)
cleared h i (fail n, t) code done = (fail code, record h { lt = t })

unfoldable pub erase_node : Mht → Option ℕ → Ret × Mht
erase_node h none = (ret 0, h)
erase_node h (some i) = cleared h i (erase_data h.lt (h.nodes i).lt_pos) 4 1

module _ (hashfunc : List ℕ → ℕ) where
  -- MultiHashTable::EraseBadNode; nothing is a search that divides by zero.
  unfoldable pub erase_bad_node : Mht → List ℕ → Option (Ret × Mht)
  erase_bad_node h key =
      if length key == 0
      then some (fail 1, h)
      else if h.ready
      then (let h' = mend_max_row h in
          let dropped = drop_node h' (search_node h' key (hashfunc key)).node in
          if search_traps h' key (hashfunc key) false then none else some dropped)
      else some (fail 2, h)

  -- MultiHashTable::EraseData: 1 if the key was there, 0 if not. Nothing is a search that divides by zero.
  unfoldable pub mht_erase_data : Mht → List ℕ → Option (Ret × Mht)
  mht_erase_data h key =
      if length key == 0
      then some (fail 1, h)
      else if h.ready
      then (let h' = mend_max_row h in
          let erased = erase_node h' (search_node h' key (hashfunc key)).node in
          if search_traps h' key (hashfunc key) false then none else some erased)
      else some (fail 2, h)

-- GetMaxKeyLen, GetDataBlockSize, GetHashRowNum; `node_head` is sizeof(MhtNode).
unfoldable pub get_max_key_len : (node_head : ℕ) → Mht → Ret
get_max_key_len node_head h =
    if h.ready
    then (if ltb h.hash_node_size node_head
        then fail (node_head - h.hash_node_size)
        else ret (h.hash_node_size - node_head))
    else fail 1

unfoldable pub get_data_block_size : Mht → Ret
get_data_block_size h = if h.ready then ret h.data_block_size else fail 1

unfoldable pub get_hash_row_num : Mht → Ret
get_hash_row_num h = if h.ready then ret h.row_num else fail 1

unfoldable pub get_lt_usage : Mht → ℕ
get_lt_usage h = get_usage h.lt
