-- ===== src/KnvHt/Putting.antt =====
-- put of KnvHt, knv/knv_node.cc, and get after it.
use mysql_proxy.Common.{
  ℕ, suc, ◌+◌, ◌≤◌, ◌<◌, ◌≡◌, ◌≢◌, refl, sym, ap, ◌∙◌, Bool, true, false, ◌&&◌, List, [], ◌∷◌,
  arith, Option, none, some, update, update_self, ◌==◌, if_true, if_false, Bool-cases, inl, inr,
  ◌↔◌, Ret, ret, fail, leb, ltb,
}
use mathlib.Core.Path.{subst}
use mysql_proxy.KnvHt.Table.{
  KnvNode, KnvHt, HtPos, hash_of, file, increase, put_in, put, get, same_key, is_match,
}
use mysql_proxy.KnvHt.Filed.{Buckets, Filed, first_match, get-first_match}
use mysql_proxy.KnvHt.Filing.{file-Filed, Filed-length}
use mysql_proxy.KnvHt.Moving.{Fresh, Fresh-update, kept_out}
use mysql_proxy.KnvHt.Increased.{increase-Grown}

le_trans : {a b c : ℕ} → a ≤ b → b ≤ c → a ≤ c
le_trans h k = omega arith

same_key_self : (k : List ℕ) → same_key k k ≡ true
unfolding same_key
same_key_self [] = refl
same_key_self (x ∷ k) = ground (arith, same_key_self k)

module _ (node : ℕ → KnvNode) where
  -- The table with one more node, in front of its chain.
  pub record Added (t : KnvHt) (b : Buckets) (n : ℕ) (r : Option (Ret × KnvHt)) : Type 0 where
    pub table : KnvHt
    pub returns : r ≡ some (ret 0, table)
    pub count : table.nr ≡ suc t.nr
    pub chains : Buckets
    pub filed : Filed node table chains
    pub behind_it : List ℕ
    pub front : chains (hash_of node table.sz n) ≡ n ∷ behind_it
    pub same : (x : ℕ) → Fresh x chains ↔ ((x ≢ n) × Fresh x b)

  file-Added :
      (t g : KnvHt) (b c : Buckets) (n : ℕ)
      → Filed node g c
      → g.nr ≡ t.nr
      → ((x : ℕ) → Fresh x c ↔ Fresh x b)
      → 0 ≢ n
      → Fresh n b
      → Added t b n (some (ret 0, file node g n))
  unfolding file
  file-Added t g b c n f nr same used out =
      let hi = hash_of node g.sz n in
      record {
        table = file node g n;
        returns = refl;
        count = ap suc nr;
        chains = update c hi (n ∷ c hi);
        filed = file-Filed node g c n f used ((same n).1 out hi);
        behind_it = c hi;
        front = update_self c hi (n ∷ c hi);
        same = λ x. (
          λ fresh. let (ne, rest) = kept_out node g.sz x n hi c fresh in (ne, (same x).0 rest),
          λ both. Fresh-update node g.sz x n hi c both.0 ((same x).1 both.1),
        );
      }

  -- When there is memory for a larger table, whatever stands in it, put of a node that is not in the
  -- table, in as many rounds as the table has nodes, returns 0, adds the node in front of its chain
  -- and no other, and loses none.
  pub put-Added :
      (rounds : ℕ) (new_ht : ℕ → ℕ) (t : KnvHt) (b : Buckets) (n : ℕ)
      → Filed node t b
      → t.nr ≤ rounds
      → 0 ≢ n
      → Fresh n b
      → Added t b n (put node rounds (some new_ht) t n)
  unfolding put put_in increase
  put-Added rounds new_ht t b n f enough used out = elim (Bool-cases (ltb t.sz (t.nr + 1))) [
    | inr roomy ↦ subst (λ r. Added t b n (put_in node n r)) (sym (if_false _ _ roomy)) plain
    | inl full ↦
        subst (λ r. Added t b n (put_in node n r)) (sym (if_true _ _ full))
          (elim (Bool-cases (leb 8192 t.sz)) [
            | inl top ↦ subst (λ r. Added t b n (put_in node n r)) (sym (if_true _ _ top)) plain
            | inr low ↦
                let g =
                  increase-Grown node rounds new_ht t b f (small t.sz low)
                    (λ i. le_trans (Filed-length node t b i f) enough) in
                subst (λ r. Added t b n (put_in node n r)) (sym g.returns)
                  (file-Added t g.table b g.chains n g.filed g.count g.same used out)
          ])
  ]
    where
      plain : Added t b n (some (ret 0, file node t n))
      plain = file-Added t t b b n f refl (λ x. ((λ h. h), (λ h. h))) used out

      small : (sz : ℕ) → leb 8192 sz ≡ false → sz < 8192
      small sz h = ground arith

  -- When a table below the largest size is full and there is no memory, put returns -1 and
  -- changes nothing.
  pub put-fails :
      (rounds : ℕ) (t : KnvHt) (n : ℕ)
      → t.sz < t.nr + 1
      → t.sz < 8192
      → put node rounds none t n ≡ some (fail 1, t)
  unfolding put put_in increase
  put-fails rounds t n full small =
      ap (put_in node n) (if_true _ _ (is_full t.sz t.nr full) ∙ if_false _ _ (is_small t.sz small))
    where
      is_full : (sz nr : ℕ) → sz < nr + 1 → ltb sz (nr + 1) ≡ true
      is_full sz nr h = ground arith

      is_small : (sz : ℕ) → sz < 8192 → leb 8192 sz ≡ false
      is_small sz h = ground arith

  -- What get finds in a table with the node in front of its chain.
  front_found : (n : ℕ) (ns : List ℕ) → first_match node (node n).tag (node n).key (n ∷ ns) ≡ n
  unfolding is_match
  front_found n ns = if_true _ _ (matches (node n).tag (same_key_self (node n).key))
    where
      matches : {k : Bool} (t : ℕ) → k ≡ true → ((t == t) && k) ≡ true
      matches t e = ground arith

  -- When there is memory for a larger table, after put of a node that is not in the table, get with its tag and its key returns it, also
  -- when the table has grown, in as many rounds as the table has nodes.
  pub get-put :
      (rounds : ℕ) (new_ht : ℕ → ℕ) (t : KnvHt) (b : Buckets) (n : ℕ)
      → Filed node t b
      → t.nr ≤ rounds
      → 0 ≢ n
      → Fresh n b
      → (t' : KnvHt) × (put node rounds (some new_ht) t n ≡ some (ret 0, t'))
        × ((more : ℕ)
            → t'.nr ≤ more
            → (pos : HtPos) × (get node more t' (node n).tag (node n).key ≡ some (n, pos)))
  get-put rounds new_ht t b n f enough used out =
      let a = put-Added rounds new_ht t b n f enough used out in
      (
        a.table,
        a.returns,
        λ more within.
            let (pos, e) =
              get-first_match node more a.table a.chains (node n).tag (node n).key a.filed
                (le_trans (Filed-length node a.table a.chains _ a.filed) within) in
            (
              pos,
              e
                  ∙ ap (λ x. some (x, pos))
                      (ap (first_match node (node n).tag (node n).key) a.front
                        ∙ front_found n a.behind_it),
            ),
      )
