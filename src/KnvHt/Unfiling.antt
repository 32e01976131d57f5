-- ===== src/KnvHt/Unfiling.antt =====
-- remove of KnvHt, knv/knv_node.cc, on the whole table.
use mysql_proxy.Common.{
  not_null, eq_other, ℕ, zero, suc, ◌+◌, ◌-◌, ◌≤◌, ◌<◌, ◌≡◌, ◌≢◌, refl, sym, ap, ◌∙◌, true, false,
  List, [], ◌∷◌, arith, Option, some, length, All, update, update_self, update_ne, ◌==◌, if_true,
  if_false, Bool-cases, inl, inr, Ret, ret, fail,
}
use mathlib.Core.Path.{subst}
use mysql_proxy.Common.Removed.{NotIn, Removed, here, there, NotIn-Removed, Distinct-Removed}
use mysql_proxy.Common.Rings.{Links, Links-same}
use mysql_proxy.KnvHt.Table.{KnvNode, KnvHt, HtPos, at_bucket, behind, hash_of, seek, remove}
use mysql_proxy.KnvHt.Filed.{Buckets, total, Filed, hash_of-below}
use mysql_proxy.KnvHt.Filing.{
  same-or-not, total-update, elsewhere, home-update, apart-update, Filed-length,
}
use mysql_proxy.KnvHt.Removing.{reads, OutOf, Apart, Sought, seek-Sought}

length-Removed : {n : ℕ} {xs xs' : List ℕ} → Removed n xs xs' → length xs ≡ suc (length xs')
length-Removed here = refl
length-Removed (there y r) = ap suc (length-Removed r)

module _ (node : ℕ → KnvNode) where
  -- The table without the node.
  pub record Unfiled (t : KnvHt) (b : Buckets) (r : Option (Ret × KnvHt)) : Type 0 where
    pub table : KnvHt
    pub returns : r ≡ some (ret 0, table)
    pub filed : Filed node table b
    pub count : suc table.nr ≡ t.nr

  home-Removed :
      (sz i n : ℕ) {xs xs' : List ℕ}
      → Removed n xs xs'
      → All (λ x. hash_of node sz x ≡ i) xs
      → All (λ x. hash_of node sz x ≡ i) xs'
  home-Removed sz i n here home = home.1
  home-Removed sz i n (there y r) home = (home.0, home-Removed sz i n r home.1)

  -- A chain of another hash is as it was.
  other_chain :
      (t t' : KnvHt) (i hi : ℕ) (ns xs : List ℕ)
      → i ≢ hi
      → All (λ x. hash_of node t.sz x ≡ hi) ns
      → All (λ x. hash_of node t.sz x ≡ i) xs
      → ((p : HtPos) → Apart p (at_bucket hi) → OutOf p ns → reads t' p ≡ reads t p)
      → All (λ x. t'.ht_next x ≡ t.ht_next x) xs
  other_chain t t' i hi ns [] ne home at_i spared = tt
  other_chain t t' i hi ns (x ∷ xs) ne home at_i spared = (
    spared (behind x) tt (elsewhere node t.sz x hi ns home (λ e. ne (sym (e ∙ at_i.0)))),
    other_chain t t' i hi ns xs ne home at_i.1 spared,
  )

  -- The chain with its new links.
  module _ (t : KnvHt) (b : Buckets) (n : ℕ) (xs : List ℕ) (f : Filed node t b)
      (off : Removed n (b (hash_of node t.sz n)) xs) (set : t.bm (hash_of node t.sz n) ≡ true)
      (r : Option (Ret × KnvHt))
      (s : Sought node t (at_bucket (hash_of node t.sz n)) (b (hash_of node t.sz n)) xs r) where
    abbrev hi : ℕ
    hi = hash_of node t.sz n

    clash : true ≡ false → ⊥
    clash e = ground arith

    counted : (nr b a l : ℕ) → nr ≡ b → a + suc l ≡ b + l → nr - 1 ≡ a
    counted nr b a l e h = omega arith

    removed-Filed : Filed node s.table (update b hi xs)
    removed-Filed = record {
      room = subst (λ z. 0 < z) (sym s.size) f.room;
      chain = λ i bit. elim (same-or-not i hi) [
        | inl e ↦
            subst (λ j. Links s.table.ht_next (update b hi xs j) (s.table.ht j) 0) (sym e)
              (subst (λ ns. Links s.table.ht_next ns (s.table.ht hi) 0) (sym (update_self b hi xs))
                s.chain)
        | inr ne ↦
            subst (λ ns. Links s.table.ht_next ns (s.table.ht i) 0) (sym (update_ne b hi i xs ne))
              (subst (λ p. Links s.table.ht_next (b i) p 0) (sym (s.spared (at_bucket i) ne tt))
                (Links-same t.ht_next s.table.ht_next (b i) (t.ht i) 0
                  (other_chain t s.table i hi (b hi) (b i) ne (f.home hi) (f.home i) s.spared)
                  (f.chain i (ap (λ m. m i) (sym s.bits) ∙ bit))))
      ];
      unset = λ i bit. elim (same-or-not i hi) [
        | inl e ↦ absurd (clash (sym set ∙ ap t.bm (sym e) ∙ ap (λ m. m i) (sym s.bits) ∙ bit))
        | inr ne ↦ update_ne b hi i xs ne ∙ f.unset i (ap (λ m. m i) (sym s.bits) ∙ bit)
      ];
      home =
          subst (λ z. (i : ℕ) → All (λ x. hash_of node z x ≡ i) (update b hi xs i)) (sym s.size)
            (home-update node t.sz hi b xs f.home (home-Removed t.sz hi n off (f.home hi)));
      apart =
          apart-update node hi b xs f.apart
            ((NotIn-Removed off (f.apart hi).0).1, (Distinct-Removed off (f.apart hi).1).1);
      count =
          s.count
          ∙ counted t.nr (total b t.sz) (total (update b hi xs) t.sz) (length xs) f.count (
              ap (λ l. total (update b hi xs) t.sz + l) (sym (length-Removed off))
              ∙ total-update b hi xs t.sz (hash_of-below node t.sz n f.room))
          ∙ ap (total (update b hi xs)) (sym s.size);
    }

    removed-Unfiled : Unfiled t (update b hi xs) r
    removed-Unfiled = record {
      table = s.table;
      returns = s.returns;
      filed = removed-Filed;
      count = less s.table.nr t.nr s.count (some_there (Filed-length node t b hi f));
    }
      where
        less : (a nr : ℕ) → a ≡ nr - 1 → 0 < nr → suc a ≡ nr
        less a nr e h = omega arith

        some_there : length (b hi) ≤ t.nr → 0 < t.nr
        some_there h = omega (arith, length-Removed off)

  -- remove of a node that stands in the table, in as many rounds as the table has nodes, returns 0
  -- and takes that node out of its chain, and no other.
  pub remove-Unfiled :
      (rounds : ℕ) (t : KnvHt) (b : Buckets) (n : ℕ) (xs : List ℕ)
      → Filed node t b
      → Removed n (b (hash_of node t.sz n)) xs
      → t.nr ≤ rounds
      → Unfiled t (update b (hash_of node t.sz n) xs) (remove node rounds t n)
  unfolding remove
  remove-Unfiled rounds t b n xs f off enough =
      let hi = hash_of node t.sz n in
      elim (Bool-cases (t.bm hi)) [
        | inl set ↦ subst (Unfiled t (update b hi xs)) (sym (if_true _ _ set)) (
            removed-Unfiled t b n xs f off set _ (
              seek-Sought node rounds t n (t.ht hi) (at_bucket hi) off
                (le_trans (Filed-length node t b hi f) enough) refl (f.chain hi set) (f.apart hi)
                tt))
        | inr unset ↦ absurd (nothing_off (subst (λ ns. Removed n ns xs) (f.unset hi unset) off))
      ]
    where
      le_trans : {a b c : ℕ} → a ≤ b → b ≤ c → a ≤ c
      le_trans h k = omega arith

      nothing_off : Removed n [] xs → ⊥
      nothing_off r = absurd (omega (arith, length-Removed r))

  seek-fails :
      (rounds : ℕ) (t : KnvHt) (n c : ℕ) (pos : HtPos) (ns : List ℕ)
      → length ns ≤ rounds
      → Links t.ht_next ns c 0
      → NotIn 0 ns
      → NotIn n ns
      → seek node rounds t n c pos ≡ some (fail 1, t)
  unfolding seek
  seek-fails zero t n c pos [] enough l nulls out = if_true _ _ (ap (λ k. k == 0) l)
  seek-fails (suc rounds) t n c pos [] enough l nulls out = if_true _ _ (ap (λ k. k == 0) l)
  seek-fails zero t n c pos (y ∷ ns) enough l nulls out = absurd (omega arith)
  seek-fails (suc rounds) t n c pos (y ∷ ns) enough (head, l) nulls out =
      if_false _ _ (ap (λ k. k == 0) head ∙ not_null y nulls.0)
      ∙ if_false _ _ (ap (λ k. k == n) head ∙ eq_other y n (λ e. out.0 (sym e)))
      ∙ ap (λ k. seek node rounds t n (t.ht_next k) (behind k)) head
      ∙ seek-fails rounds t n (t.ht_next y) (behind y) ns (omega arith) l nulls.1 out.1

  -- remove of a node that is not in the table, in as many rounds as the table has nodes, returns -1
  -- and changes nothing.
  pub remove-fails :
      (rounds : ℕ) (t : KnvHt) (b : Buckets) (n : ℕ)
      → Filed node t b
      → NotIn n (b (hash_of node t.sz n))
      → t.nr ≤ rounds
      → remove node rounds t n ≡ some (fail 1, t)
  unfolding remove
  remove-fails rounds t b n f out enough =
      let hi = hash_of node t.sz n in
      elim (Bool-cases (t.bm hi)) [
        | inl set ↦
            if_true _ _ set
            ∙ seek-fails rounds t n (t.ht hi) (at_bucket hi) (b hi)
                (within (Filed-length node t b hi f) enough) (f.chain hi set) (f.apart hi).0 out
        | inr unset ↦ if_false _ _ unset
      ]
    where
      within : {a b c : ℕ} → a ≤ b → b ≤ c → a ≤ c
      within h k = omega arith
