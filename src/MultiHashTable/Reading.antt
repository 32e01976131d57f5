-- ===== src/MultiHashTable/Reading.antt =====
-- MultiHashTable::GetData of ht/multi_hash_table.cc at a key that Search finds.
use mysql_proxy.Common.{
  ℕ, ◌+◌, ◌%◌, ◌^◌, ◌<◌, ◌≡◌, refl, ap, ◌∙◌, Bool, true, false, none, some, List, [], arith, leb,
  ◌==◌, if◌then◌else◌, if_true, if_false, length, ret, fail, update, update_self,
}
use mysql_proxy.LinkTable.Data.{got, get_data}
use mysql_proxy.MultiHashTable.Types.{Mht, Node, hnode_matches}
use mysql_proxy.MultiHashTable.Search.{mend_max_row, search_node, search_traps}
use mysql_proxy.MultiHashTable.Entries.{
  answer, trapped, touch, with_read, read_node, read_hit, mht_get_data,
}
use mysql_proxy.MultiHashTable.Rows.{RowsFilled, search_traps-RowsFilled}

pub mend_inside : (h : Mht) → h.max_used_row < h.row_num → mend_max_row h ≡ h
unfolding mend_max_row
mend_inside h inside = let e : leb h.row_num h.max_used_row ≡ false = ground arith in if_false _ _ e

touched : (later : ℕ) → Mht → Node → Node
touched later g n = record n {
  access = if g.use_access_seq then (n.access + 1) % 2 ^ 32 else later;
}

-- The note of the access leaves the key and the position.
touch-matches :
    (later : ℕ) (g : Mht) (key : List ℕ) (n : Node)
    → hnode_matches key (touched later g n) ≡ hnode_matches key n
unfolding hnode_matches touched
touch-matches later g key n = refl

read_touched :
    (later : ℕ) (update : Bool) (g : Mht) (key bytes : List ℕ) (i buf_len : ℕ)
    → hnode_matches key (g.nodes i) ≡ true
    → get_data g.lt (g.nodes i).lt_pos buf_len ≡ got bytes
    → read_node later update g key buf_len i
      ≡ answer (ret 0) bytes (some (g.nodes i).access) (touch later update g i)
unfolding read_node touch with_read touched
read_touched later false g key bytes i buf_len matches data_there =
    if_true _ (answer (fail 3) [] (some (g.nodes i).access) g) matches
    ∙ ap (with_read g (g.nodes i).access) data_there
read_touched later true g key bytes i buf_len matches data_there =
    let h = touch later true g i in
    let node : h.nodes i ≡ touched later g (g.nodes i) = update_self g.nodes i _ in
    if_true _ (answer (fail 3) [] (some (g.nodes i).access) h)
      (ap (hnode_matches key) node ∙ touch-matches later g key (g.nodes i) ∙ matches)
    ∙ ap (with_read h (g.nodes i).access)
        (ap (λ (n : Node). get_data g.lt n.lt_pos buf_len) node ∙ data_there)

pub get_written :
    (hashfunc : List ℕ → ℕ) (later : ℕ) (update : Bool) (g : Mht) (key bytes : List ℕ)
    (i buf_len : ℕ)
    → g.ready ≡ true
    → 0 < length key
    → 0 < buf_len
    → g.max_used_row < g.row_num
    → RowsFilled g.row_num g.rows_node_num
    → (search_node g key (hashfunc key)).node ≡ some i
    → hnode_matches key (g.nodes i) ≡ true
    → get_data g.lt (g.nodes i).lt_pos buf_len ≡ got bytes
    → mht_get_data hashfunc later update g key buf_len
      ≡ answer (ret 0) bytes (some (g.nodes i).access) (touch later update g i)
unfolding mht_get_data read_hit
get_written hashfunc later update g key bytes i buf_len ready nonempty room inside rows found
      matches data_there =
    if_false (answer (fail 1) [] none g) _ (nonzero (length key) nonempty)
    ∙ if_false (answer (fail 1) [] none g) _ (nonzero buf_len room)
    ∙ if_true _ (answer (fail 2) [] none g) ready
    ∙ ap
        (λ h.
          let answered =
            read_hit later update h key buf_len (search_node h key (hashfunc key)).node in
          if search_traps h key (hashfunc key) false then trapped else answered)
        (mend_inside g inside)
    ∙ if_false trapped _ (search_traps-RowsFilled g key (hashfunc key) false rows inside)
    ∙ ap (read_hit later update g key buf_len) found
    ∙ read_touched later update g key bytes i buf_len matches data_there
  where
    nonzero : (n : ℕ) → 0 < n → (n == 0) ≡ false
    nonzero n p = ground arith
