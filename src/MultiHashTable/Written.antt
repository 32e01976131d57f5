-- ===== src/MultiHashTable/Written.antt =====
-- Search in ht/multi_hash_table.cc once a key is written at the empty node that it named before.
use mysql_proxy.Common.{
  ℕ, zero, suc, ◌+◌, ◌≤◌, ◌<◌, ◌≡◌, ◌≢◌, sym, ap, ◌∙◌, inl, inr, true, false, ◌&&◌, Option, none,
  some, List, arith, ltb, ltb→lt, ◌==◌, get_or, Bool-cases, ◌⊎◌,
}
use mathlib.Core.Option.{some-injective}
use mathlib.Core.Path.{subst}
use native.Mathlib.Decide.{ℕ_discrete}
use mysql_proxy.MultiHashTable.Types.{Mht, Node, is_hnode_empty, hnode_matches}
use mysql_proxy.MultiHashTable.Search.{slot, keep_empty, after_rows, search_rows, search_node}
use mysql_proxy.MultiHashTable.Found.{HasKey, holds_key, search_rows-keeps}

-- `g` is `h` with another node `idx`, which holds the key.
pub record KeyAt (h g : Mht) (key : List ℕ) (hash idx : ℕ) : Type 0 where
  pub rows : g.rows_node_num ≡ h.rows_node_num
  pub holds : HasKey g key hash idx
  pub others : (j : ℕ) → j ≢ idx → g.nodes j ≡ h.nodes j

pub holds_key-of :
    (g : Mht) (key : List ℕ) (hash j : ℕ) → HasKey g key hash j → holds_key g key hash j ≡ true
holds_key-of g key hash j (used, same, matches) = rw (same, matches)

-- A walk that meets the node ends there.
pub stops :
    (g : Mht) (key : List ℕ) (hash rows i base : ℕ) (e : Option (ℕ × ℕ)) (o : Option ℕ)
    → HasKey g key hash (slot g hash i base)
    → (search_rows g key hash (suc rows) i base e o).node ≡ some (slot g hash i base)
unfolding search_rows
stops g key hash rows i base e o k = rw (k.0, holds_key-of g key hash (slot g hash i base) k)

-- A walk passes a node that is empty, and one with another key.
pub passes :
    (g : Mht) (key : List ℕ) (hash rows i base idx : ℕ) (e : Option (ℕ × ℕ)) (o : Option ℕ)
    → (is_hnode_empty (g.nodes (slot g hash i base)) ≡ true)
      ⊎ (holds_key g key hash (slot g hash i base) ≡ false)
    → ((e' : Option (ℕ × ℕ)) (o' : Option ℕ)
        → (search_rows g key hash rows (i + 1) (base + get_or g.rows_node_num i 0) e' o').node
          ≡ some idx)
    → (search_rows g key hash (suc rows) i base e o).node ≡ some idx
unfolding search_rows
passes g key hash rows i base idx e o (inl unused) next = rw unused (next _ _)
passes g key hash rows i base idx e o (inr other) next =
    elim (Bool-cases (is_hnode_empty (g.nodes (slot g hash i base)))) [
      | inl unused ↦ rw unused (next _ _)
      | inr used ↦ rw (used, other) (next _ _)
    ]

abbrev pub IsPassed : List ℕ → ℕ → Node → Type 0
IsPassed key hash n =
    (is_hnode_empty n ≡ true) ⊎ (((hash == n.hash_key) && hnode_matches key n) ≡ false)

-- What a walk of `h` that ends without the key says of the node `idx` in the row `row` that it names.
abbrev Reached : (h g : Mht) (hash rows i base row idx : ℕ) (key : List ℕ) → Type 0
Reached h g hash rows i base row idx key =
    (i ≤ row)
    × (row < h.row_num)
    × ((rounds : ℕ) (e : Option (ℕ × ℕ)) (o : Option ℕ)
        → row < i + rounds
        → (search_rows g key hash rounds i base e o).node ≡ some idx)

-- The walk of `g` at the same place, if it begins with the node.
reached_here :
    (h g : Mht) (key : List ℕ) (hash rows i base idx : ℕ)
    → KeyAt h g key hash idx
    → slot h hash i base ≡ idx
    → (rounds : ℕ) (e : Option (ℕ × ℕ)) (o : Option ℕ) → i < i + rounds
    → (search_rows g key hash rounds i base e o).node ≡ some idx
reached_here h g key hash rows i base idx k here zero e o room = absurd (omega arith)
reached_here h g key hash rows i base idx k here (suc rounds) e o room =
    stops g key hash rounds i base e o (subst (HasKey g key hash) (sym place) k.holds)
    ∙ ap some place
  where
    place : slot g hash i base ≡ idx
    place = rw k.rows here

-- If it begins with another node that the walk of `h` passes, the next place decides.
reached_later :
    (h g : Mht) (key : List ℕ) (hash i base row idx : ℕ)
    → KeyAt h g key hash idx
    → (is_hnode_empty (h.nodes (slot h hash i base)) ≡ true)
      ⊎ (holds_key h key hash (slot h hash i base) ≡ false)
    → i < row
    → ((rounds : ℕ) (e : Option (ℕ × ℕ)) (o : Option ℕ)
        → row < i + 1 + rounds
        → (search_rows g key hash rounds (i + 1) (base + get_or h.rows_node_num i 0) e o).node
          ≡ some idx)
    → (rounds : ℕ) (e : Option (ℕ × ℕ)) (o : Option ℕ) → row < i + rounds
    → (search_rows g key hash rounds i base e o).node ≡ some idx
reached_later h g key hash i base row idx k pass after next zero e o room = absurd (omega arith)
reached_later h g key hash i base row idx k pass after next (suc rounds) e o room =
    elim (ℕ_discrete (slot g hash i base) idx) [
      | yes here ↦
          stops g key hash rounds i base e o (subst (HasKey g key hash) (sym here) k.holds)
          ∙ ap some here
      | no other ↦
          let place : slot g hash i base ≡ slot h hash i base = rw k.rows in
          let node = k.others (slot g hash i base) other ∙ ap h.nodes place in
          passes g key hash rounds i base idx e o (subst (IsPassed key hash) (sym node) pass)
            λ e' o'.
              subst
                (λ rows.
                  (search_rows g key hash rounds (i + 1) (base + get_or rows i 0) e' o').node
                  ≡ some idx)
                (sym k.rows) (next rounds e' o' (omega arith))
    ]

named_here :
    (h g : Mht) (key : List ℕ) (hash rows i base row idx : ℕ)
    → KeyAt h g key hash idx
    → i < h.row_num
    → ◌≡◌ {A = ℕ × ℕ} (i, slot h hash i base) (row, idx)
    → Reached h g hash rows i base row idx key
named_here h g key hash rows i base row idx k inside same =
    let at_row : i ≡ row = ap (λ p. p.0) same in
    (
      omega arith,
      omega arith,
      λ rounds e o room.
          reached_here h g key hash rows i base idx k (ap (λ p. p.1) same) rounds e o (omega arith),
    )

search_rows-Reached :
    (h g : Mht) (key : List ℕ) (hash rows i base row idx : ℕ) (o : Option ℕ)
    → KeyAt h g key hash idx
    → i + rows ≤ h.row_num
    → (search_rows h key hash rows i base none o).node ≡ none
    → (search_rows h key hash rows i base none o).empty ≡ some (row, idx)
    → Reached h g hash rows i base row idx key
unfolding search_rows after_rows keep_empty
search_rows-Reached h g key hash zero i base row idx o k room missing named =
    elim (Bool-cases (ltb i h.row_num)) [
      | inl inside ↦
          let same = some-injective _ _ (rw inside at named) in
          named_here h g key hash zero i base row idx k (ltb→lt _ _ inside) same
      | inr outside ↦ cc (rw outside at named)
    ]
search_rows-Reached h g key hash (suc rows) i base row idx o k room missing named =
    elim (Bool-cases (is_hnode_empty (h.nodes (slot h hash i base)))) [
      | inl unused ↦
          let same = some-injective _ _ (
            sym (search_rows-keeps h key hash rows (i + 1) _ (i, slot h hash i base) _)
            ∙ (rw unused at named)) in
          named_here h g key hash (suc rows) i base row idx k (omega arith) same
      | inr used ↦ elim (Bool-cases (holds_key h key hash (slot h hash i base))) [
        | inl hit ↦ cc (rw (used, hit) at missing)
        | inr miss ↦
            let r =
              search_rows-Reached h g key hash rows (i + 1) (base + get_or h.rows_node_num i 0) row
                idx _ k (omega arith) (rw (used, miss) at missing) (rw (used, miss) at named) in
            (
              omega arith,
              r.1,
              reached_later h g key hash i base row idx k (inr miss) (omega arith) r.2,
            )
      ]
    ]

-- The key written at the empty node `idx`, in the row `row`, that Search named is found there, once
-- the used rows reach that row.
pub search_node-written :
    (h g : Mht) (key : List ℕ) (hash row idx : ℕ)
    → h.max_used_row < h.row_num
    → (search_node h key hash).node ≡ none
    → (search_node h key hash).empty ≡ some (row, idx)
    → KeyAt h g key hash idx
    → row ≤ g.max_used_row
    → (row < h.row_num) × ((search_node g key hash).node ≡ some idx)
unfolding search_node
search_node-written h g key hash row idx inside missing named k used =
    let r =
      search_rows-Reached h g key hash (h.max_used_row + 1) 0 0 row idx none k (omega arith) missing
        named in
    (r.1, r.2 (g.max_used_row + 1) none none (omega arith))
