-- ===== src/MultiHashTable/Frame.antt =====
-- MultiHashTable::SetData of ht/multi_hash_table.cc with a new key, and GetData with another one.
use mysql_proxy.Common.{
  ℕ, ◌*◌, ◌%◌, ◌^◌, ◌≤◌, ◌<◌, ◌≡◌, ◌≢◌, sym, ap, ◌∙◌, inl, inr, Bool, true, false, ◌&&◌, some, List,
  ◌∷◌, arith, Bool-cases, length, take, take-length, Ret, ret,
}
use mysql_proxy.LinkTable.Types.{Table, block_data_len}
use mysql_proxy.LinkTable.Data.{got, get_data}
use mysql_proxy.LinkTable.Linked.{Holds, Apart}
use mysql_proxy.LinkTable.Reading.{Holds-nonempty}
use mysql_proxy.LinkTable.Storing.{set_data-get_data}
use mysql_proxy.MultiHashTable.Types.{Mht, Node, is_hnode_empty, same_bytes, hnode_matches}
use mysql_proxy.MultiHashTable.Search.{search_node}
use mysql_proxy.MultiHashTable.Entries.{answer, touch, mht_get_data}
use mysql_proxy.MultiHashTable.SetData.{outcome, mht_set_data}
use mysql_proxy.MultiHashTable.Found.{same_bytes-eq, search_node-HasKey}
use mysql_proxy.MultiHashTable.Kept.{KeyElsewhere, search_node-kept}
use mysql_proxy.MultiHashTable.Reading.{get_written}
use mysql_proxy.MultiHashTable.Storing.{new_node, CanStore, mht_set_data-Added}

-- The node of one key does not match another, both short enough for the length that a node keeps.
new_node-other :
    (now : ℕ) (h : Mht) (key other : List ℕ) (hash pos : ℕ) (n : Node)
    → length key < 2 ^ 8
    → length other < 2 ^ 8
    → other ≢ key
    → hnode_matches other (new_node now h key hash pos n) ≡ false
unfolding hnode_matches
new_node-other now h key other hash pos n short short' different =
    elim (Bool-cases (hnode_matches other (new_node now h key hash pos n))) [
      | inl e ↦
          let low : length other % 2 ^ 8 ≡ length other = omega arith in
          let sizes : length other ≡ length key = ground arith in
          let bytes : same_bytes (take (length other % 2 ^ 8) other)
                (take (length other % 2 ^ 8) key)
              ≡ true =
            ground arith in
          absurd (
            different (
              sym (take-length other)
              ∙ ap (λ n. take n other) (sym low)
              ∙ same_bytes-eq _ _ bytes
              ∙ ap (λ n. take n key) (low ∙ sizes)
              ∙ take-length key))
      | inr e ↦ e
    ]

and_false : (a b : Bool) → b ≡ false → (a && b) ≡ false
and_false a b e = ground arith

-- A node in use is not an empty one.
in_use-ne :
    (h : Mht) (i j : ℕ)
    → is_hnode_empty (h.nodes i) ≡ true
    → is_hnode_empty (h.nodes j) ≡ false
    → j ≢ i
in_use-ne h i j unused used same =
    cc (sym used ∙ ap (λ n. is_hnode_empty (h.nodes n)) same ∙ unused)

-- What SetData leaves for a new key, and what GetData answers afterwards at a key that was there.
pub record Kept (hashfunc : List ℕ → ℕ) (now later : ℕ) (update : Bool) (h : Mht)
    (key bytes : List ℕ) (remove : Bool) (other kept : List ℕ) (j buf_len : ℕ) : Type 0 where
  pub table : Mht
  pub stored : mht_set_data hashfunc now h key bytes remove ≡ outcome (ret 0) table
  pub found :
      mht_get_data hashfunc later update table other buf_len
      ≡ answer (ret 0) kept (some (h.nodes j).access) (touch later update table j)

-- In a table that is initialised and whose rows all have nodes, SetData with a key that Search does not
-- find and that fits the room of a node, where the node that Search names is empty, the link table, of
-- at most 2 ^ 48 blocks of fewer than 2 ^ 16 data bytes each and fewer than 2 ^ 31 of them free, has
-- space, and no old data is erased for a nearly full link table, leaves what another key has: if that key, both of
-- fewer than 256 bytes, is found at the node `j`, whose chain is clear of the blocks that SetData
-- takes, then GetData with it, into a buffer with room for the chain, returns 0, the bytes that the
-- chain held before, and the time of access of its node.
pub mht_set_data-mht_get_data :
    (hashfunc : List ℕ → ℕ) (now later : ℕ) (update : Bool) (h : Mht) (key bytes : List ℕ)
    (remove : Bool) (row i q x buf_len : ℕ) (xs other kept ps : List ℕ) (j : ℕ)
    → CanStore hashfunc h key bytes remove row i q (x ∷ xs)
    → length key < 2 ^ 8
    → 0 < length other
    → length other < 2 ^ 8
    → other ≢ key
    → (search_node h other (hashfunc other)).node ≡ some j
    → Holds (block_data_len h.lt) h.lt.all_block_count h.lt.blocks (h.nodes j).lt_pos ps kept
    → Apart ps (x ∷ xs)
    → length ps * block_data_len h.lt ≤ buf_len
    → Kept hashfunc now later update h key bytes remove other kept j buf_len
mht_set_data-mht_get_data hashfunc now later update h key bytes remove row i q x buf_len xs other
      kept ps j c short nonempty short' different found held apart room =
    let a = mht_set_data-Added hashfunc now h key bytes remove row i q x xs c in
    let g = a.table in
    let there = search_node-HasKey h other (hashfunc other) j found in
    let node = a.change.others j (in_use-ne h i j c.unused there.0) in
    let other_key =
      new_node-other now (record h { lt = a.lt }) key other (hashfunc key) h.lt.first_free_pos
        (h.nodes i) short short' different in
    let elsewhere : KeyElsewhere h g other (hashfunc other) i = record {
      rows = a.change.rows;
      unused = c.unused;
      other_key = and_false _ _ (ap (hnode_matches other) a.change.node ∙ other_key);
      others = a.change.others;
    } in
    let read : get_data g.lt (g.nodes j).lt_pos buf_len ≡ got kept =
      ap (λ k. get_data k (g.nodes j).lt_pos buf_len) a.change.table
      ∙ ap (λ (n : Node). get_data a.lt n.lt_pos buf_len) node
      ∙ ap (λ (run : Ret × ℕ × Table). get_data run.2 (h.nodes j).lt_pos buf_len) (sym a.run)
      ∙ set_data-get_data h.lt q x (h.nodes j).lt_pos buf_len xs bytes ps kept c.space held apart
          room in
    record {
      table = g;
      stored = a.stored;
      found =
          get_written hashfunc later update g other kept j buf_len (a.change.ready ∙ c.ready)
            nonempty (grind (arith, c.space.some_data, room, Holds-nonempty held)) a.inside a.rows
            (search_node-kept h g other (hashfunc other) i elsewhere j a.change.grown found)
            (ap (hnode_matches other) node ∙ there.2) read
          ∙ ap (λ (n : Node). answer (ret 0) kept (some n.access) (touch later update g j)) node;
    }
