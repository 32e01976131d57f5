-- ===== src/MultiHashTable/Kept.antt =====
-- Search in ht/multi_hash_table.cc for another key, once a key is written at an empty node.
use mathlib.Core.Path.{subst}
use native.Mathlib.Decide.{ℕ_discrete}
use mysql_proxy.Common.{
  ℕ, zero, suc, ◌+◌, ◌≤◌, ◌≡◌, ◌≢◌, refl, sym, ap, ◌∙◌, inl, inr, true, false, Option, none, some,
  List, arith, ◌==◌, get_or, Bool-cases,
}
use mysql_proxy.MultiHashTable.Types.{Mht, is_hnode_empty, hnode_matches}
use mysql_proxy.MultiHashTable.Search.{slot, after_rows, search_rows, search_node}
use mysql_proxy.MultiHashTable.Found.{holds_key, slot-HasKey}
use mysql_proxy.MultiHashTable.Written.{stops, passes, IsPassed}

-- `g` is `h` with another node `idx`, which was empty, and which does not hold the key.
pub record KeyElsewhere (h g : Mht) (key : List ℕ) (hash idx : ℕ) : Type 0 where
  pub rows : g.rows_node_num ≡ h.rows_node_num
  pub unused : is_hnode_empty (h.nodes idx) ≡ true
  pub other_key : holds_key g key hash idx ≡ false
  pub others : (j : ℕ) → j ≢ idx → g.nodes j ≡ h.nodes j

module _ (h g : Mht) (key : List ℕ) (hash idx : ℕ) (k : KeyElsewhere h g key hash idx) where
  slot_same : (i base : ℕ) → slot g hash i base ≡ slot h hash i base
  slot_same i base = rw k.rows

  -- What `h` passes at a place, `g` passes too.
  pass_both :
      (i base : ℕ)
      → IsPassed key hash (h.nodes (slot h hash i base))
      → IsPassed key hash (g.nodes (slot g hash i base))
  pass_both i base pass = elim (ℕ_discrete (slot g hash i base) idx) [
    | yes here ↦ inr (ap (holds_key g key hash) here ∙ k.other_key)
    | no other ↦
        subst (IsPassed key hash)
          (sym (k.others (slot g hash i base) other ∙ ap h.nodes (slot_same i base))) pass
  ]

  -- A node in use is not the one that is written.
  in_use_same :
      (i base : ℕ)
      → is_hnode_empty (h.nodes (slot h hash i base)) ≡ false
      → g.nodes (slot g hash i base) ≡ h.nodes (slot h hash i base)
  in_use_same i base used =
      k.others (slot g hash i base) (λ here. clash (
        sym (ap (λ j. is_hnode_empty (h.nodes j)) (sym (slot_same i base) ∙ here) ∙ k.unused)
        ∙ used))
      ∙ ap h.nodes (slot_same i base)
    where
      clash : true ≡ false → ⊥
      clash e = cc

  step_on :
      (rounds i base j : ℕ) (e' : Option (ℕ × ℕ)) (o' : Option ℕ)
      → IsPassed key hash (h.nodes (slot h hash i base))
      → ((e : Option (ℕ × ℕ)) (o : Option ℕ)
          → (search_rows g key hash rounds (i + 1) (base + get_or h.rows_node_num i 0) e o).node
            ≡ some j)
      → (search_rows g key hash (suc rounds) i base e' o').node ≡ some j
  step_on rounds i base j e' o' pass next =
      passes g key hash rounds i base j e' o' (pass_both i base pass) λ e o.
        subst
          (λ rows.
            (search_rows g key hash rounds (i + 1) (base + get_or rows i 0) e o).node ≡ some j)
          (sym k.rows) (next e o)

  search_rows-kept :
      (rows rounds i base j : ℕ) (e e' : Option (ℕ × ℕ)) (o o' : Option ℕ)
      → rows ≤ rounds
      → (search_rows h key hash rows i base e o).node ≡ some j
      → (search_rows g key hash rounds i base e' o').node ≡ some j
  unfolding search_rows after_rows
  search_rows-kept zero rounds i base j none e' o o' less found = cc
  search_rows-kept zero rounds i base j (some e) e' o o' less found = cc
  search_rows-kept (suc rows) zero i base j e e' o o' less found = absurd (omega arith)
  search_rows-kept (suc rows) (suc rounds) i base j e e' o o' less found =
      elim (Bool-cases (is_hnode_empty (h.nodes (slot h hash i base)))) [
        | inl unused ↦ step_on rounds i base j e' o' (inl unused) λ e'' o''.
            search_rows-kept rows rounds (i + 1) (base + get_or h.rows_node_num i 0) j _ e'' _ o''
              (omega arith) (rw unused at found)
        | inr used ↦ elim (Bool-cases (holds_key h key hash (slot h hash i base))) [
          | inl hit ↦
              stops g key hash rounds i base e' o' (
                subst
                  (λ n.
                    (is_hnode_empty n ≡ false)
                    × ((hash == n.hash_key) ≡ true)
                    × (hnode_matches key n ≡ true))
                  (sym (in_use_same i base used)) (slot-HasKey h key hash _ _ used hit refl))
              ∙ ap some (slot_same i base)
              ∙ (rw (used, hit) at found)
          | inr miss ↦ step_on rounds i base j e' o' (inr miss) λ e'' o''.
              search_rows-kept rows rounds (i + 1) (base + get_or h.rows_node_num i 0) j _ e'' _ o''
                (omega arith) (rw (used, miss) at found)
        ]
      ]

  -- Search finds the key where it was.
  pub search_node-kept :
      (j : ℕ)
      → h.max_used_row ≤ g.max_used_row
      → (search_node h key hash).node ≡ some j
      → (search_node g key hash).node ≡ some j
  unfolding search_node
  search_node-kept j grown found =
      search_rows-kept (h.max_used_row + 1) (g.max_used_row + 1) 0 0 j none none none none
        (omega arith) found
