-- ===== src/KnvHt/Increased.antt =====
-- increase of KnvHt, knv/knv_node.cc: the table keeps its nodes.
use mysql_proxy.Common.{
  ℕ, zero, suc, ◌+◌, ◌-◌, ◌≤◌, ◌<◌, ◌≡◌, ◌≢◌, refl, sym, ap, ◌∙◌, true, false, List, [], ◌∷◌, ◌++◌,
  arith, Option, some, length, length-append, All, if_false, inl, inr, ◌⊎◌, ◌↔◌, Ret, ret, leb,
}
use mathlib.Core.Path.{subst}
use mysql_proxy.Common.Removed.{NotIn, NotIn-append}
use mysql_proxy.KnvHt.Table.{KnvNode, KnvHt, hash_of, next_level, with_ret, increase}
use mysql_proxy.KnvHt.Filed.{Buckets, total, Filed, hash_of-below}
use mysql_proxy.KnvHt.Filing.{same-or-not}
use mysql_proxy.KnvHt.Moving.{Fresh, refile, refile-Fresh, Fresh-refile, total-refile}
use mysql_proxy.KnvHt.Growing.{gather, move_from-AllMoved}

all_left : (sz : ℕ) → sz - 0 ≡ sz
all_left sz = omega arith

-- What moves is what the table has.
length-gather :
    (b : Buckets) (sz left : ℕ)
    → left ≤ sz
    → length (gather b sz left) + total b (sz - left) ≡ total b sz
length-gather b sz zero h = omega (arith, ap (total b) (all_left sz))
length-gather b sz (suc left) h = omega (
  arith,
  length-append (b (sz - suc left)) (gather b sz left),
  length-gather b sz left (omega arith),
  ap (total b) (next_index sz left h),
)
  where
    next_index : (sz l : ℕ) → suc l ≤ sz → sz - l ≡ suc (sz - suc l)
    next_index sz l h = omega arith

NotIn-gather : (n : ℕ) (b : Buckets) (sz left : ℕ) → Fresh n b → NotIn n (gather b sz left)
NotIn-gather n b sz zero fresh = tt
NotIn-gather n b sz (suc left) fresh =
    both (b (sz - suc left)) _ (fresh (sz - suc left)) (NotIn-gather n b sz left fresh)
  where
    both : (xs ys : List ℕ) → NotIn n xs → NotIn n ys → NotIn n (xs ++ ys)
    both [] ys l r = r
    both (x ∷ xs) ys l r = (l.0, both xs ys l.1 r)

gather-NotIn :
    (n : ℕ) (b : Buckets) (sz left i : ℕ)
    → NotIn n (gather b sz left)
    → left ≤ sz
    → sz - left ≤ i
    → i < sz
    → NotIn n (b i)
gather-NotIn n b sz zero i out h above below = absurd (omega arith)
gather-NotIn n b sz (suc left) i out h above below =
    let (here, later) = NotIn-append n (b (sz - suc left)) (gather b sz left) out in
    elim (same-or-not i (sz - suc left)) [
      | inl e ↦ subst (λ j. NotIn n (b j)) (sym e) here
      | inr ne ↦ gather-NotIn n b sz left i later (omega arith) (higher sz left i h above ne) below
    ]
  where
    higher : (sz l i : ℕ) → suc l ≤ sz → sz - suc l ≤ i → i ≢ sz - suc l → sz - l ≤ i
    higher sz l i h above ne = ground arith

total-none : (sz : ℕ) → total (λ _. []) sz ≡ 0
total-none zero = refl
total-none (suc sz) = omega (arith, total-none sz)

all_fresh : (xs : List ℕ) → All (λ x. Fresh x (λ _. [])) xs
all_fresh [] = tt
all_fresh (x ∷ xs) = ((λ i. tt), all_fresh xs)

module _ (node : ℕ → KnvNode) where
  -- The same nodes stand in a table of another size.
  pub record Grown (sz : ℕ) (t : KnvHt) (b : Buckets) (r : Option (Ret × KnvHt)) : Type 0 where
    pub table : KnvHt
    pub returns : r ≡ some (ret 0, table)
    pub size : table.sz ≡ sz
    pub count : table.nr ≡ t.nr
    pub chains : Buckets
    pub filed : Filed node table chains
    pub same : (n : ℕ) → Fresh n chains ↔ Fresh n b

  level_pos : (sz : ℕ) → 0 < next_level sz
  unfolding next_level
  level_pos sz = ground arith

  above_empty : (t : KnvHt) (b : Buckets) (i n : ℕ) → Filed node t b → t.sz ≤ i → NotIn n (b i)
  above_empty t b i n f h = nothing (b i) (f.home i)
    where
      nothing : (xs : List ℕ) → All (λ x. hash_of node t.sz x ≡ i) xs → NotIn n xs
      nothing [] home = tt
      nothing (x ∷ xs) home = absurd (omega (arith, home.0, hash_of-below node t.sz x f.room))

  gathered :
      (t : KnvHt) (b : Buckets) (n : ℕ) → Filed node t b → NotIn n (gather b t.sz t.sz) → Fresh n b
  gathered t b n f out i = elim (order i t.sz) [
    | inl below ↦ gather-NotIn n b t.sz t.sz i out (omega arith) (omega arith) below
    | inr above ↦ above_empty t b i n f above
  ]
    where
      order : (i sz : ℕ) → (i < sz) ⊎ (sz ≤ i)
      order i sz = ground arith

  -- A table below the largest size grows, when there is memory for it, whatever stands in that
  -- memory, to the next size, in as many rounds as its longest chain has nodes; it keeps all its
  -- nodes, each now in the chain of its new hash, and gets no other.
  pub increase-Grown :
      (rounds : ℕ) (new_ht : ℕ → ℕ) (t : KnvHt) (b : Buckets)
      → Filed node t b
      → t.sz < 8192
      → ((i : ℕ) → length (b i) ≤ rounds)
      → Grown (next_level t.sz) t b (increase node rounds (some new_ht) t)
  unfolding increase
  increase-Grown rounds new_ht t b f small enough =
      let empty : KnvHt = record t { nr = 0; sz = next_level t.sz; bm = λ _. false; ht = new_ht } in
      let level = level_pos t.sz in
      let m =
        move_from-AllMoved node rounds t b f enough t.sz empty (λ _. []) (omega arith)
          (record {
            room = level;
            chain = λ i set. absurd (clash set);
            unset = λ i unset. refl;
            home = λ i. tt;
            apart = λ i. (tt, tt);
            count = sym (total-none (next_level t.sz));
          })
          (record { chain = λ i above set. f.chain i set; fresh = λ i above. all_fresh (b i) }) in
      record {
        table = m.table;
        returns = if_false _ _ (below_top t.sz small) ∙ ap (with_ret) m.ends;
        size = m.size;
        count = omega (
          arith,
          m.filed.count,
          ap (total (refile node (next_level t.sz) (gather b t.sz t.sz) (λ _. []))) m.size,
          total-refile node (next_level t.sz) (gather b t.sz t.sz) (λ _. []) level,
          total-none (next_level t.sz),
          length-gather b t.sz t.sz (omega arith),
          ap (total b) (none_left t.sz),
          f.count,
        );
        chains = refile node (next_level t.sz) (gather b t.sz t.sz) (λ _. []);
        filed = m.filed;
        same = λ n. (
          λ fresh.
              gathered t b n f
                (Fresh-refile node (next_level t.sz) n (gather b t.sz t.sz) (λ _. []) fresh).0,
          λ fresh.
              refile-Fresh node (next_level t.sz) n (gather b t.sz t.sz) (λ _. [])
                (NotIn-gather n b t.sz t.sz fresh) (λ i. tt),
        );
      }
    where
      clash : false ≡ true → ⊥
      clash e = ground arith

      below_top : (sz : ℕ) → sz < 8192 → leb 8192 sz ≡ false
      below_top sz h = ground arith

      none_left : (sz : ℕ) → sz - sz ≡ 0
      none_left sz = omega arith
