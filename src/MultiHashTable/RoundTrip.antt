-- ===== src/MultiHashTable/RoundTrip.antt =====
-- MultiHashTable::SetData of ht/multi_hash_table.cc with a new key, and GetData after it.
use mysql_proxy.Common.{
  ℕ, suc, ◌*◌, ◌≤◌, ◌≡◌, sym, ap, ◌∙◌, Bool, some, List, ◌∷◌, arith, if◌then◌else◌, length, Ret,
  ret, update,
}
use mysql_proxy.LinkTable.Types.{Table, block_data_len}
use mysql_proxy.LinkTable.Data.{got, get_data}
use mysql_proxy.LinkTable.Storing.{get_data-set_data}
use mysql_proxy.MultiHashTable.Types.{Mht, Node, hnode_matches}
use mysql_proxy.MultiHashTable.Entries.{answer, touch, mht_get_data}
use mysql_proxy.MultiHashTable.SetData.{outcome, mht_set_data}
use mysql_proxy.MultiHashTable.Reading.{get_written}
use mysql_proxy.MultiHashTable.Storing.{new_node-matches, CanStore, mht_set_data-Added}

-- What SetData leaves for a new key, and what GetData answers at it afterwards.
pub record Answered (hashfunc : List ℕ → ℕ) (now later : ℕ) (update : Bool) (h : Mht)
    (key bytes : List ℕ) (remove : Bool) (i buf_len : ℕ) : Type 0 where
  pub table : Mht
  pub stored : mht_set_data hashfunc now h key bytes remove ≡ outcome (ret 0) table
  pub found :
      mht_get_data hashfunc later update table key buf_len
      ≡ answer
          (ret 0)
          bytes
          (some (if h.use_access_seq then 0 else now))
          (touch later update table i)

-- The round trip: in a table that is initialised and whose rows all have nodes, for a key that Search
-- does not find and that fits the room of a node, where the node `i` that Search names is empty, the
-- free list of the link table, of at most 2 ^ 48 blocks of fewer than 2 ^ 16 data bytes each and fewer
-- than 2 ^ 31 of them free, begins with enough unused blocks, and no old data is erased for a nearly
-- full link table, SetData returns
-- 0, and GetData with the same key, into a buffer with room for the blocks, then returns 0, the bytes
-- and the time of access that SetData noted, and notes its own.
pub mht_get_data-mht_set_data :
    (hashfunc : List ℕ → ℕ) (now later : ℕ) (update : Bool) (h : Mht) (key bytes : List ℕ)
    (remove : Bool) (row i q x buf_len : ℕ) (xs : List ℕ)
    → CanStore hashfunc h key bytes remove row i q (x ∷ xs)
    → suc (length xs) * block_data_len h.lt ≤ buf_len
    → Answered hashfunc now later update h key bytes remove i buf_len
mht_get_data-mht_set_data hashfunc now later update h key bytes remove row i q x buf_len xs c room =
    let a = mht_set_data-Added hashfunc now h key bytes remove row i q x xs c in
    let g = a.table in
    let pos = h.lt.first_free_pos in
    let node = a.change.node in
    let matches =
      new_node-matches now (record h { lt = a.lt }) key (hashfunc key) pos (h.nodes i) in
    let read : get_data g.lt (g.nodes i).lt_pos buf_len ≡ got bytes =
      ap (λ k. get_data k (g.nodes i).lt_pos buf_len) a.change.table
      ∙ ap (λ (n : Node). get_data a.lt n.lt_pos buf_len) node
      ∙ ap (λ p. get_data a.lt p buf_len) a.low
      ∙ ap (λ (run : Ret × ℕ × Table). get_data run.2 run.1 buf_len) (sym a.run)
      ∙ (get_data-set_data h.lt q x buf_len xs bytes c.space room).1 in
    record {
      table = g;
      stored = a.stored;
      found =
          get_written hashfunc later update g key bytes i buf_len (a.change.ready ∙ c.ready)
            c.nonempty (grind (arith, c.space.some_data, room)) a.inside a.rows a.reached
            (ap (hnode_matches key) node ∙ matches) read
          ∙ ap (λ (n : Node). answer (ret 0) bytes (some n.access) (touch later update g i)) node;
    }
