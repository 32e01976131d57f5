-- ===== src/MultiHashTable/Found.antt =====
-- What Search finds, and how a write at the empty node that it names changes that.
use mysql_proxy.Common.{
  ℕ, zero, suc, ◌+◌, ◌%◌, ◌^◌, ◌<◌, ◌≡◌, refl, sym, ap, ◌∙◌, inl, inr, Bool, true, false, ◌&&◌,
  Option, none, some, List, [], ◌∷◌, length, take, take-length, arith, ◌==◌, get_or, Bool-cases,
}
use mathlib.Core.Option.{some-injective}
use mathlib.Core.Path.{subst}
use mysql_proxy.MultiHashTable.Types.{Mht, Node, is_hnode_empty, same_bytes, hnode_matches}
use mysql_proxy.MultiHashTable.Search.{slot, keep_empty, after_rows, search_rows, search_node}

pub same_bytes-eq : (xs ys : List ℕ) → same_bytes xs ys ≡ true → xs ≡ ys
unfolding same_bytes
same_bytes-eq [] [] e = refl
same_bytes-eq [] (y ∷ ys) e = cc
same_bytes-eq (x ∷ xs) [] e = cc
same_bytes-eq (x ∷ xs) (y ∷ ys) e = ground (arith, same_bytes-eq xs ys)

-- A node in use with the hash and with the key, as the code compares them.
abbrev pub HasKey : Mht → List ℕ → ℕ → ℕ → Type 0
HasKey h key hash i =
    (is_hnode_empty (h.nodes i) ≡ false)
    × ((hash == (h.nodes i).hash_key) ≡ true)
    × (hnode_matches key (h.nodes i) ≡ true)

-- The test of a node in use.
abbrev pub holds_key : Mht → List ℕ → ℕ → ℕ → Bool
holds_key h key hash i = (hash == (h.nodes i).hash_key) && hnode_matches key (h.nodes i)

pub slot-HasKey :
    (h : Mht) (key : List ℕ) (hash idx j : ℕ)
    → (is_hnode_empty (h.nodes j) ≡ false)
    → (holds_key h key hash j ≡ true)
    → (some j ≡ some idx)
    → HasKey h key hash idx
slot-HasKey h key hash idx j in_use hit found =
    subst (HasKey h key hash) (some-injective _ _ found) (in_use, ground arith, ground arith)

-- The node that Search returns is in use, and has the hash and the key.
search_rows-HasKey :
    (h : Mht) (key : List ℕ) (hash rows i base : ℕ) (e : Option (ℕ × ℕ)) (o : Option ℕ) (idx : ℕ)
    → (search_rows h key hash rows i base e o).node ≡ some idx
    → HasKey h key hash idx
unfolding search_rows after_rows
search_rows-HasKey h key hash zero i base none o idx found = cc
search_rows-HasKey h key hash zero i base (some e) o idx found = cc
search_rows-HasKey h key hash (suc rows) i base e o idx found =
    elim (Bool-cases (is_hnode_empty (h.nodes (slot h hash i base)))) [
      | inl unused ↦
          search_rows-HasKey h key hash rows (i + 1) (base + get_or h.rows_node_num i 0) _ _ idx
            (rw unused at found)
      | inr in_use ↦ elim (Bool-cases (holds_key h key hash (slot h hash i base))) [
        | inl hit ↦ slot-HasKey h key hash idx _ in_use hit (rw (in_use, hit) at found)
        | inr miss ↦
            search_rows-HasKey h key hash rows (i + 1) (base + get_or h.rows_node_num i 0) _ _ idx
              (rw (in_use, miss) at found)
      ]
    ]

-- An empty node that was met first is kept.
pub search_rows-keeps :
    (h : Mht) (key : List ℕ) (hash rows i base : ℕ) (e : ℕ × ℕ) (o : Option ℕ)
    → (search_rows h key hash rows i base (some e) o).empty ≡ some e
unfolding search_rows after_rows keep_empty
search_rows-keeps h key hash zero i base e o = refl
search_rows-keeps h key hash (suc rows) i base e o =
    elim (Bool-cases (is_hnode_empty (h.nodes (slot h hash i base)))) [
      | inl unused ↦ rw unused (search_rows-keeps h key hash rows (i + 1) _ e _)
      | inr in_use ↦ elim (Bool-cases (holds_key h key hash (slot h hash i base))) [
        | inl hit ↦ rw (in_use, hit)
        | inr miss ↦ rw (in_use, miss) (search_rows-keeps h key hash rows (i + 1) _ e _)
      ]
    ]

pub search_node-HasKey :
    (h : Mht) (key : List ℕ) (hash idx : ℕ)
    → (search_node h key hash).node ≡ some idx
    → HasKey h key hash idx
unfolding search_node
search_node-HasKey h key hash idx found =
    search_rows-HasKey h key hash (h.max_used_row + 1) 0 0 none none idx found

-- What a node in use has of a key: the hash, the length, and the bytes in front.
pub record HoldsKey (h : Mht) (key : List ℕ) (hash i : ℕ) : Type 0 where
  pub in_use : is_hnode_empty (h.nodes i) ≡ false
  pub same_hash : (h.nodes i).hash_key ≡ hash
  pub same_length : (h.nodes i).key_len ≡ length key
  pub same_key : take (length key) (h.nodes i).key ≡ key

same_number : (a b : ℕ) → (a == b) ≡ true → b ≡ a
same_number a b e = ground arith

-- A short key matches only a node with its length and its bytes.
matches-same :
    (key : List ℕ) (n : Node)
    → length key < 2 ^ 8
    → hnode_matches key n ≡ true
    → (n.key_len ≡ length key) × (take (length key) n.key ≡ key)
unfolding hnode_matches
matches-same key n short e =
    let low : length key % 2 ^ 8 ≡ length key = omega arith in
    let sizes : (length key % 2 ^ 8 == n.key_len) ≡ true = ground arith in
    let bytes : same_bytes (take (length key % 2 ^ 8) key) (take (length key % 2 ^ 8) n.key)
        ≡ true =
      ground arith in
    (
      same_number _ _ sizes ∙ low,
      sym (ap (λ k. take k n.key) low)
          ∙ sym (same_bytes-eq _ _ bytes)
          ∙ ap (λ k. take k key) low
          ∙ take-length key,
    )

-- Whatever the table holds, for a key of fewer than 256 bytes the node that Search returns is in use,
-- its hash is the one that was asked for, its length of a key is the key's, and its bytes begin with
-- the key.
pub search_node-HoldsKey :
    (h : Mht) (key : List ℕ) (hash idx : ℕ)
    → length key < 2 ^ 8
    → (search_node h key hash).node ≡ some idx
    → HoldsKey h key hash idx
search_node-HoldsKey h key hash idx short found =
    let k = search_node-HasKey h key hash idx found in
    let m = matches-same key (h.nodes idx) short k.2 in
    record { in_use = k.0; same_hash = same_number _ _ k.1; same_length = m.0; same_key = m.1 }
