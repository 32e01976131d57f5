-- ===== src/MultiHashTable/Rows.antt =====
-- Search in ht/multi_hash_table.cc where every row has nodes.
use mysql_proxy.Common.{
  ℕ, zero, suc, ◌+◌, ◌≤◌, ◌<◌, ◌≡◌, refl, inl, inr, Bool, true, false, List, arith, ◌==◌, get_or,
  ltb, ltb→lt, Bool-cases,
}
use mysql_proxy.MultiHashTable.Types.{Mht, is_hnode_empty}
use mysql_proxy.MultiHashTable.Search.{slot, traps_rows, search_traps}
use mysql_proxy.MultiHashTable.Found.{holds_key}

abbrev pub RowsFilled : (row_num : ℕ) → List ℕ → Type 0
RowsFilled row_num rows = (i : ℕ) → i < row_num → 0 < get_or rows i 0

filled : (n : ℕ) → 0 < n → (n == 0) ≡ false
filled n p = ground arith

traps_rows-RowsFilled :
    (h : Mht) (key : List ℕ) (hash rows i base : ℕ) (wants_empty seen : Bool)
    → RowsFilled h.row_num h.rows_node_num
    → i + rows ≤ h.row_num
    → traps_rows h key hash rows i base wants_empty seen ≡ false
unfolding traps_rows
traps_rows-RowsFilled h key hash zero i base wants_empty true all room = refl
traps_rows-RowsFilled h key hash zero i base wants_empty false all room =
    elim (Bool-cases (ltb i h.row_num)) [
      | inl inside ↦ let e = filled _ (all i (ltb→lt _ _ inside)) in ground arith
      | inr outside ↦ ground arith
    ]
traps_rows-RowsFilled h key hash (suc rows) i base wants_empty seen all room =
    let e = filled _ (all i (omega arith)) in
    let rest = λ (seen : Bool).
      traps_rows-RowsFilled h key hash rows (i + 1) (base + get_or h.rows_node_num i 0) wants_empty
        seen all (omega arith) in
    elim (Bool-cases (is_hnode_empty (h.nodes (slot h hash i base)))) [
      | inl unused ↦ rw (e, unused) (rest _)
      | inr in_use ↦ elim (Bool-cases (holds_key h key hash (slot h hash i base))) [
        | inl hit ↦ rw (e, in_use, hit) refl
        | inr miss ↦ rw (e, in_use, miss) (rest _)
      ]
    ]

-- Where every row has nodes, Search divides by none that has not.
pub search_traps-RowsFilled :
    (h : Mht) (key : List ℕ) (hash : ℕ) (wants_empty : Bool)
    → RowsFilled h.row_num h.rows_node_num
    → h.max_used_row < h.row_num
    → search_traps h key hash wants_empty ≡ false
unfolding search_traps
search_traps-RowsFilled h key hash wants_empty all inside =
    traps_rows-RowsFilled h key hash (h.max_used_row + 1) 0 0 wants_empty false all (omega arith)
