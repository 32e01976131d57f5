-- ===== src/MultiHashTable/Visits.antt =====
-- Where the iteration of ht/multi_hash_table.cc goes.
use mysql_proxy.Common.{
  ℕ, zero, suc, ◌+◌, ◌-◌, ◌%◌, ◌^◌, ◌<◌, ◌≡◌, sym, inl, inr, true, false, arith, Bool-cases,
  if_true, ap, ◌∙◌,
}
use mathlib.Core.Path.{subst}
use mysql_proxy.MultiHashTable.Types.{Mht, Node, is_hnode_empty}
use mysql_proxy.MultiHashTable.Iterate.{end_it, max_used_node, next_loop, next}

-- The `k` nodes from `lo` on are all empty.
abbrev AllUnused : (ℕ → Node) → (lo k : ℕ) → Type 0
AllUnused nodes lo zero = Unit
AllUnused nodes lo (suc k) = (is_hnode_empty (nodes lo) ≡ true) × AllUnused nodes (lo + 1) k

-- The first node in use of the `n` nodes from `lo` on, or the end where all of them are empty.
pub data FirstInUse (h : Mht) (lo n : ℕ) : ℕ → Type 0 where
  first :
      (k : ℕ)
      → k < n
      → AllUnused h.nodes lo k
      → is_hnode_empty (h.nodes (lo + k)) ≡ false
      → FirstInUse h lo n (lo + k)
  nowhere : AllUnused h.nodes lo n → FirstInUse h lo n end_it

FirstInUse-later :
    (h : Mht) (lo n r : ℕ)
    → is_hnode_empty (h.nodes lo) ≡ true
    → FirstInUse h (lo + 1) n r
    → FirstInUse h lo (suc n) r
FirstInUse-later h lo n r unused (first k below skipped in_use) =
    let same : lo + suc k ≡ lo + 1 + k = omega arith in
    subst (FirstInUse h lo (suc n)) same (
      first (suc k) (omega arith) (unused, skipped)
        (subst (λ i. is_hnode_empty (h.nodes i) ≡ false) (sym same) in_use))
FirstInUse-later h lo n r unused (nowhere skipped) = nowhere (unused, skipped)

next_loop-FirstInUse :
    (rounds : ℕ) (h : Mht) (it : ℕ) → FirstInUse h it rounds (next_loop rounds h it)
unfolding next_loop
next_loop-FirstInUse zero h it = nowhere tt
next_loop-FirstInUse (suc rounds) h it = elim (Bool-cases (is_hnode_empty (h.nodes it))) [
  | inl unused ↦
      rw unused (FirstInUse-later h it rounds _ unused (next_loop-FirstInUse rounds h (it + 1)))
  | inr in_use ↦ rw in_use (first_here h it rounds in_use)
]
  where
    first_here :
        (h : Mht) (it rounds : ℕ)
        → is_hnode_empty (h.nodes it) ≡ false
        → FirstInUse h it (suc rounds) it
    first_here h it rounds in_use =
        let same : it + 0 ≡ it = omega arith in
        subst (FirstInUse h it (suc rounds)) same (
          first 0 (omega arith) tt
            (subst (λ i. is_hnode_empty (h.nodes i) ≡ false) (sym same) in_use))

-- Within the used rows, Next is the loop from the node behind the iterator.
next_within :
    (h : Mht) (it : ℕ)
    → h.ready ≡ true
    → it + 1 < 2 ^ 64
    → next h it ≡ next_loop (max_used_node h - (it + 1)) h (it + 1)
unfolding next
next_within h it ready small =
    if_true _ end_it ready ∙ ap (λ (k : ℕ). next_loop (max_used_node h - k) h k) same
  where
    same : (it + 1) % 2 ^ 64 ≡ it + 1
    same = omega arith

-- In a table that is initialised, Next of an iterator to a node of the used rows returns
-- the first node in use behind it, with all the nodes between them empty, or the end if all the nodes
-- behind it, up to the end of the used rows, are empty.
pub next-FirstInUse :
    (h : Mht) (it : ℕ)
    → h.ready ≡ true
    → it + 1 < 2 ^ 64
    → it < max_used_node h
    → FirstInUse h (it + 1) (max_used_node h - (it + 1)) (next h it)
next-FirstInUse h it ready small inside =
    subst (FirstInUse h (it + 1) (max_used_node h - (it + 1))) (sym (next_within h it ready small))
      (next_loop-FirstInUse (max_used_node h - (it + 1)) h (it + 1))
