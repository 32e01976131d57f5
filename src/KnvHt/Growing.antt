-- ===== src/KnvHt/Growing.antt =====
-- increase of KnvHt, knv/knv_node.cc: the whole table.
use mysql_proxy.Common.{
  ℕ, zero, suc, ◌-◌, ◌≤◌, ◌≡◌, ◌≢◌, refl, sym, ap, ◌∙◌, true, List, [], ◌∷◌, ◌++◌, arith, Option,
  some, length, All, if◌then◌else◌, if_true, if_false, Bool-cases, inl, inr,
}
use mathlib.Core.Path.{subst}
use mysql_proxy.Common.Removed.{NotIn}
use mysql_proxy.Common.Rings.{Links, Links-same}
use mysql_proxy.KnvHt.Table.{KnvNode, KnvHt, hash_of, move_chain, move_from}
use mysql_proxy.KnvHt.Filed.{Buckets, Filed}
use mysql_proxy.KnvHt.Filing.{elsewhere}
use mysql_proxy.KnvHt.Moving.{Fresh, refile, refile-append, refile-Fresh, Moved, move_chain-Moved}

-- The nodes of the last `left` chains, in the order in which they move.
abbrev pub gather : Buckets → (sz left : ℕ) → List ℕ
gather b sz zero = []
gather b sz (suc left) = b (sz - suc left) ++ gather b sz left

module _ (node : ℕ → KnvNode) (rounds : ℕ) (old : KnvHt) (bo : Buckets) (fo : Filed node old bo)
    (enough : (i : ℕ) → length (bo i) ≤ rounds) where
  -- What is left to move is linked as it was, and has not moved.
  pub record Waiting (t : KnvHt) (b : Buckets) (from : ℕ) : Type 0 where
    pub chain : (i : ℕ) → from ≤ i → old.bm i ≡ true → Links t.ht_next (bo i) (old.ht i) 0
    pub fresh : (i : ℕ) → from ≤ i → All (λ x. Fresh x b) (bo i)

  -- One chain.
  move_one :
      (t : KnvHt) (b : Buckets) (i : ℕ)
      → Filed node t b
      → Waiting t b i
      → Moved node t (bo i) b (if old.bm i then move_chain node rounds t (old.ht i) else some t)
  move_one t b i f w = elim (Bool-cases (old.bm i)) [
    | inl set ↦ subst (Moved node t (bo i) b) (sym (if_true _ _ set)) (
        move_chain-Moved node rounds t (bo i) b (old.ht i) (enough i) (w.chain i (omega arith) set)
          (fo.apart i) (w.fresh i (omega arith)) f)
    | inr unset ↦ subst (Moved node t (bo i) b) (sym (if_false _ _ unset)) (
        subst (λ xs. Moved node t xs b (some t)) (sym (fo.unset i unset))
          (record { left = t; ends = refl; size = refl; filed = f; others = λ y out. refl }))
  ]

  same_links :
      (next next' : ℕ → ℕ) (i j : ℕ) (xs : List ℕ)
      → j ≢ i
      → All (λ x. hash_of node old.sz x ≡ j) xs
      → ((y : ℕ) → NotIn y (bo i) → next' y ≡ next y)
      → All (λ y. next' y ≡ next y) xs
  same_links next next' i j [] ne home others = tt
  same_links next next' i j (x ∷ xs) ne home others = (
    others x (elsewhere node old.sz x i (bo i) (fo.home i) (λ e. ne (sym home.0 ∙ sym e))),
    same_links next next' i j xs ne home.1 others,
  )

  still_fresh :
      (sz i j : ℕ) (b : Buckets) (xs : List ℕ)
      → j ≢ i
      → All (λ x. hash_of node old.sz x ≡ j) xs
      → All (λ x. Fresh x b) xs
      → All (λ x. Fresh x (refile node sz (bo i) b)) xs
  still_fresh sz i j b [] ne home fresh = tt
  still_fresh sz i j b (x ∷ xs) ne home fresh = (
    refile-Fresh node sz x (bo i) b
        (elsewhere node old.sz x i (bo i) (fo.home i) (λ e. ne (sym home.0 ∙ sym e))) fresh.0,
    still_fresh sz i j b xs ne home.1 fresh.1,
  )

  still-Waiting :
      (t : KnvHt) (b : Buckets) (i : ℕ) (r : Option KnvHt)
      → Waiting t b i
      → (m : Moved node t (bo i) b r) → Waiting m.left (refile node t.sz (bo i) b) (suc i)
  still-Waiting t b i r w m = record {
    chain = λ j above set.
        Links-same t.ht_next m.left.ht_next (bo j) (old.ht j) 0
          (same_links t.ht_next m.left.ht_next i j (bo j) (λ e. absurd (omega arith)) (fo.home j)
            m.others)
          (w.chain j (omega arith) set);
    fresh = λ j above.
        still_fresh t.sz i j b (bo j) (λ e. absurd (omega arith)) (fo.home j)
          (w.fresh j (omega arith));
  }

  -- The chains that are left.
  pub record AllMoved (t : KnvHt) (left : ℕ) (b : Buckets) (r : Option KnvHt) : Type 0 where
    pub table : KnvHt
    pub ends : r ≡ some table
    pub size : table.sz ≡ t.sz
    pub filed : Filed node table (refile node t.sz (gather bo old.sz left) b)

  pub move_from-AllMoved :
      (left : ℕ) (t : KnvHt) (b : Buckets)
      → left ≤ old.sz
      → Filed node t b
      → Waiting t b (old.sz - left)
      → AllMoved t left b (move_from node rounds old left (some t))
  unfolding move_from
  move_from-AllMoved zero t b within f w = record { table = t; ends = refl; size = refl; filed = f }
  move_from-AllMoved (suc left) t b within f w =
      let i = old.sz - suc left in
      let m = move_one t b i f w in
      let rest = move_from-AllMoved left m.left (refile node t.sz (bo i) b) (omega arith) m.filed (
        subst (Waiting m.left (refile node t.sz (bo i) b)) (next_index left within)
          (still-Waiting t b i _ w m)) in
      record {
        table = rest.table;
        ends = ap (move_from node rounds old left) m.ends ∙ rest.ends;
        size = rest.size ∙ m.size;
        filed =
            subst (Filed node rest.table)
              (ap (λ s. refile node s (gather bo old.sz left) (refile node t.sz (bo i) b)) m.size
                ∙ sym (refile-append node t.sz (bo i) (gather bo old.sz left) b))
              rest.filed;
      }
    where
      next_index : (l : ℕ) → suc l ≤ old.sz → suc (old.sz - suc l) ≡ old.sz - l
      next_index l h = omega arith
