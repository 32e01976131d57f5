-- ===== src/KnvHt/Filing.antt =====
-- put of KnvHt, knv/knv_node.cc: a node is put in front of the chain of its hash.
use mysql_proxy.Common.{
  eq_other, ℕ, zero, suc, ◌+◌, ◌≤◌, ◌<◌, ◌≡◌, ◌≢◌, refl, sym, ap, ◌∙◌, true, false, List, [], ◌∷◌,
  arith, length, All, update, update_self, update_ne, ◌==◌, if◌then◌else◌, if_true, if_false,
  ==_iff, Bool-cases, inl, inr, ◌⊎◌,
}
use mathlib.Core.Path.{subst}
use mysql_proxy.Common.Removed.{NotIn, Distinct}
use mysql_proxy.Common.Rings.{Links, Links-update}
use mysql_proxy.KnvHt.Table.{KnvNode, KnvHt, hash_of, file}
use mysql_proxy.KnvHt.Filed.{Buckets, total, Filed, hash_of-below}

pub same-or-not : (a b : ℕ) → (a ≡ b) ⊎ (a ≢ b)
same-or-not a b = elim (Bool-cases (a == b)) [
  | inl e ↦ inl ((==_iff a b).0 e)
  | inr ne ↦ inr (λ e. ground arith)
]

-- The number of nodes when one chain changes.
total-above :
    (b : Buckets) (i : ℕ) (ns : List ℕ) (m : ℕ) → m ≤ i → total (update b i ns) m ≡ total b m
total-above b i ns zero h = refl
total-above b i ns (suc m) h = omega (
  arith,
  total-above b i ns m (omega arith),
  ap (λ xs. length xs) (update_ne b i m ns (λ e. absurd (omega arith))),
)

pub total-update :
    (b : Buckets) (i : ℕ) (ns : List ℕ) (m : ℕ)
    → i < m
    → total (update b i ns) m + length (b i) ≡ total b m + length ns
total-update b i ns zero h = absurd (omega arith)
total-update b i ns (suc m) h = elim (same-or-not m i) [
  | inl e ↦
      subst
        (λ j.
          total (update b i ns) j + length (update b i ns j) + length (b i)
          ≡ total b j + length (b j) + length ns)
        (sym e)
        (omega
          (arith, total-above b i ns i (omega arith), ap (λ xs. length xs) (update_self b i ns)))
  | inr ne ↦ omega (
    arith,
    total-update b i ns m (strictly i m h ne),
    ap (λ xs. length xs) (update_ne b i m ns ne),
  )
]
  where
    strictly : (i m : ℕ) → i < suc m → m ≢ i → i < m
    strictly i m h ne = ground arith

module _ (node : ℕ → KnvNode) where
  -- A chain has no more nodes than the table.
  pub length-total : (b : Buckets) (i m : ℕ) → i < m → length (b i) ≤ total b m
  length-total b i zero h = absurd (omega arith)
  length-total b i (suc m) h = elim (same-or-not i m) [
    | inl e ↦ omega (arith, ap (λ j. length (b j)) e)
    | inr ne ↦ omega (arith, length-total b i m (strictly i m h ne))
  ]
    where
      strictly : (i m : ℕ) → i < suc m → i ≢ m → i < m
      strictly i m h ne = ground arith

  pub Filed-length : (t : KnvHt) (b : Buckets) (i : ℕ) → Filed node t b → length (b i) ≤ t.nr
  Filed-length t b i f = elim (order i t.sz) [
    | inl below ↦ omega (arith, f.count, length-total b i t.sz below)
    | inr above ↦ nothing above (b i) (f.home i)
  ]
    where
      order : (i sz : ℕ) → (i < sz) ⊎ (sz ≤ i)
      order i sz = ground arith

      nothing : t.sz ≤ i → (xs : List ℕ) → All (λ x. hash_of node t.sz x ≡ i) xs → length xs ≤ t.nr
      nothing above [] home = omega arith
      nothing above (x ∷ xs) home = absurd (omega (arith, home.0, hash_of-below node t.sz x f.room))

  -- A node stands in the chain of its hash alone.
  pub elsewhere :
      (sz n i : ℕ) (ns : List ℕ)
      → All (λ x. hash_of node sz x ≡ i) ns
      → i ≢ hash_of node sz n
      → NotIn n ns
  elsewhere sz n i [] home ne = tt
  elsewhere sz n i (x ∷ ns) home ne =
      (λ e. ne (sym home.0 ∙ ap (hash_of node sz) (sym e)), elsewhere sz n i ns home.1 ne)

  -- One chain changes: what its nodes need, when the others stay.
  pub home-update :
      (sz i : ℕ) (b : Buckets) (ns : List ℕ)
      → ((j : ℕ) → All (λ x. hash_of node sz x ≡ j) (b j))
      → All (λ x. hash_of node sz x ≡ i) ns
      → (j : ℕ) → All (λ x. hash_of node sz x ≡ j) (update b i ns j)
  home-update sz i b ns home at_i j = elim (same-or-not j i) [
    | inl e ↦
        subst (λ k. All (λ x. hash_of node sz x ≡ k) (update b i ns k)) (sym e)
          (subst (All (λ x. hash_of node sz x ≡ i)) (sym (update_self b i ns)) at_i)
    | inr ne ↦ subst (All (λ x. hash_of node sz x ≡ j)) (sym (update_ne b i j ns ne)) (home j)
  ]

  pub apart-update :
      (i : ℕ) (b : Buckets) (ns : List ℕ)
      → ((j : ℕ) → Distinct (0 ∷ b j))
      → Distinct (0 ∷ ns)
      → (j : ℕ) → Distinct (0 ∷ update b i ns j)
  apart-update i b ns apart at_i j = elim (same-or-not j i) [
    | inl e ↦ subst (λ k. Distinct (0 ∷ k)) (sym (ap (update b i ns) e ∙ update_self b i ns)) at_i
    | inr ne ↦ subst (λ k. Distinct (0 ∷ k)) (sym (update_ne b i j ns ne)) (apart j)
  ]

  module _ (t : KnvHt) (b : Buckets) (n : ℕ) where
    filed_bit_self : (file node t n).bm (hash_of node t.sz n) ≡ true
    unfolding file
    filed_bit_self = let hi = hash_of node t.sz n in if_true true (t.bm hi) ((==_iff hi hi).1 refl)

    filed_bit_ne : (i : ℕ) → i ≢ hash_of node t.sz n → (file node t n).bm i ≡ t.bm i
    unfolding file
    filed_bit_ne i ne = if_false _ _ (eq_other i (hash_of node t.sz n) ne)

    -- The chain in which the node is put.
    Filed-chain :
        Filed node t b
        → NotIn n (b (hash_of node t.sz n))
        → let t' = file node t n in
          Links t'.ht_next (n ∷ b (hash_of node t.sz n)) (t'.ht (hash_of node t.sz n)) 0
    unfolding file
    Filed-chain f out =
        let hi = hash_of node t.sz n in
        (
          update_self t.ht hi n,
          subst (λ p. Links (update t.ht_next n (if t.bm hi then t.ht hi else 0)) (b hi) p 0)
              (sym (update_self t.ht_next n (if t.bm hi then t.ht hi else 0)))
              (Links-update t.ht_next n (if t.bm hi then t.ht hi else 0) (b hi) _ 0 out
                (behind_new hi)),
        )
      where
        behind_new : (i : ℕ) → Links t.ht_next (b i) (if t.bm i then t.ht i else 0) 0
        behind_new i = elim (Bool-cases (t.bm i)) [
          | inl set ↦ subst (λ p. Links t.ht_next (b i) p 0) (sym (if_true _ _ set)) (f.chain i set)
          | inr unset ↦
              subst (λ p. Links t.ht_next (b i) p 0) (sym (if_false _ _ unset))
                (subst (λ ns. Links t.ht_next ns 0 0) (sym (f.unset i unset)) refl)
        ]

    -- A node that is put into a table stands in front of the chain of its hash, and all other nodes
    -- stand where they stood.
    pub file-Filed :
        Filed node t b
        → 0 ≢ n
        → NotIn n (b (hash_of node t.sz n))
        → Filed node (file node t n) (update b (hash_of node t.sz n) (n ∷ b (hash_of node t.sz n)))
    unfolding file
    file-Filed f used out =
        let hi = hash_of node t.sz n in
        record {
          room = f.room;
          chain = λ i set. elim (same-or-not i hi) [
            | inl e ↦
                subst
                  (λ j.
                    Links (file node t n).ht_next (update b hi (n ∷ b hi) j) ((file node t n).ht j)
                      0)
                  (sym e)
                  (subst (λ ns. Links (file node t n).ht_next ns ((file node t n).ht hi) 0)
                    (sym (update_self b hi (n ∷ b hi))) (Filed-chain f out))
            | inr ne ↦
                subst (λ ns. Links (file node t n).ht_next ns ((file node t n).ht i) 0)
                  (sym (update_ne b hi i (n ∷ b hi) ne))
                  (subst (λ p. Links (file node t n).ht_next (b i) p 0)
                    (sym (update_ne t.ht hi i n ne))
                    (Links-update t.ht_next n _ (b i) (t.ht i) 0
                      (elsewhere t.sz n i (b i) (f.home i) ne)
                      (f.chain i (sym (filed_bit_ne i ne) ∙ set))))
          ];
          unset = λ i unset. elim (same-or-not i hi) [
            | inl e ↦ absurd (bit_clash (sym unset ∙ ap (file node t n).bm e ∙ filed_bit_self))
            | inr ne ↦ update_ne b hi i (n ∷ b hi) ne ∙ f.unset i (sym (filed_bit_ne i ne) ∙ unset)
          ];
          home = home-update t.sz hi b (n ∷ b hi) f.home (refl, f.home hi);
          apart =
              apart-update hi b (n ∷ b hi) f.apart ((used, (f.apart hi).0), (out, (f.apart hi).1));
          count =
              counted t.nr _ (total b t.sz) (length (b hi)) f.count
                (total-update b hi (n ∷ b hi) t.sz (hash_of-below node t.sz n f.room));
        }
      where
        bit_clash : false ≡ true → ⊥
        bit_clash e = ground arith

        counted : (nr a b l : ℕ) → nr ≡ b → a + l ≡ b + suc l → suc nr ≡ a
        counted nr a b l e h = omega arith
