-- ===== src/KnvHt/Removing.antt =====
-- remove of KnvHt, knv/knv_node.cc: a node is taken out of the chain of its hash.
use mysql_proxy.Common.{
  not_null, eq_other, ℕ, zero, suc, ◌-◌, ◌≤◌, ◌≡◌, ◌≢◌, refl, sym, ap, ◌∙◌, List, ◌∷◌, arith,
  Option, some, length, update, update_self, update_ne, ◌==◌, if_true, if_false, ==_iff, Ret, ret,
}
use mathlib.Core.Path.{subst}
use mysql_proxy.Common.Removed.{NotIn, Distinct, Removed, here, there, NotIn-Removed}
use mysql_proxy.Common.Rings.{Links, Links-update}
use mysql_proxy.KnvHt.Table.{KnvNode, KnvHt, HtPos, at_bucket, behind, remove_at, seek}

-- The pointer that stands at a place.
abbrev pub reads : KnvHt → HtPos → ℕ
reads t (at_bucket i) = t.ht i
reads t (behind p) = t.ht_next p

abbrev pub OutOf : HtPos → List ℕ → Type 0
OutOf (at_bucket i) ns = Unit
OutOf (behind p) ns = NotIn p ns

abbrev pub Apart : HtPos → HtPos → Type 0
Apart (at_bucket i) (at_bucket j) = i ≢ j
Apart (at_bucket i) (behind q) = Unit
Apart (behind p) (at_bucket j) = Unit
Apart (behind p) (behind q) = p ≢ q

OutOf-Apart : (pos : HtPos) (y : ℕ) (ns : List ℕ) → OutOf pos (y ∷ ns) → Apart pos (behind y)
OutOf-Apart (at_bucket i) y ns out = tt
OutOf-Apart (behind p) y ns out = out.0

OutOf-tail : (pos : HtPos) (y : ℕ) (ns : List ℕ) → OutOf pos (y ∷ ns) → OutOf pos ns
OutOf-tail (at_bucket i) y ns out = tt
OutOf-tail (behind p) y ns out = out.1

module _ (node : ℕ → KnvNode) where
  -- From the place on, the chain is without the node, and no other pointer has changed.
  pub record Sought (t : KnvHt) (pos : HtPos) (ns ns' : List ℕ) (r : Option (Ret × KnvHt))
      : Type 0 where
    pub table : KnvHt
    pub returns : r ≡ some (ret 0, table)
    pub size : table.sz ≡ t.sz
    pub bits : table.bm ≡ t.bm
    pub count : table.nr ≡ t.nr - 1
    pub chain : Links table.ht_next ns' (reads table pos) 0
    pub spared : (p : HtPos) → Apart p pos → OutOf p ns → reads table p ≡ reads t p

  -- The node stands at the place itself.
  found_here :
      (t : KnvHt) (n : ℕ) (pos : HtPos) (ns : List ℕ) (r : Option (Ret × KnvHt))
      → r ≡ some (ret 0, remove_at node t n pos)
      → Links t.ht_next ns (t.ht_next n) 0
      → OutOf pos (n ∷ ns)
      → Sought t pos (n ∷ ns) ns r
  unfolding remove_at
  found_here t n (at_bucket i) ns r e l out = record {
    table = remove_at node t n (at_bucket i);
    returns = e;
    size = refl;
    bits = refl;
    count = refl;
    chain = subst (λ p. Links t.ht_next ns p 0) (sym (update_self t.ht i (t.ht_next n))) l;
    spared = λ p. spared_bucket p;
  }
    where
      spared_bucket :
          (p : HtPos)
          → Apart p (at_bucket i)
          → OutOf p (n ∷ ns)
          → reads (remove_at node t n (at_bucket i)) p ≡ reads t p
      spared_bucket (at_bucket j) apart away = update_ne t.ht i j (t.ht_next n) apart
      spared_bucket (behind q) apart away = refl
  found_here t n (behind q) ns r e l out = record {
    table = remove_at node t n (behind q);
    returns = e;
    size = refl;
    bits = refl;
    count = refl;
    chain =
        subst (λ p. Links (update t.ht_next q (t.ht_next n)) ns p 0)
          (sym (update_self t.ht_next q (t.ht_next n)))
          (Links-update t.ht_next q (t.ht_next n) ns (t.ht_next n) 0 out.1 l);
    spared = λ p. spared_next p;
  }
    where
      spared_next :
          (p : HtPos)
          → Apart p (behind q)
          → OutOf p (n ∷ ns)
          → reads (remove_at node t n (behind q)) p ≡ reads t p
      spared_next (at_bucket j) apart away = refl
      spared_next (behind k) apart away = update_ne t.ht_next q k (t.ht_next n) apart

  pub seek-Sought :
      (rounds : ℕ) (t : KnvHt) (n c : ℕ) (pos : HtPos) {ns ns' : List ℕ}
      → Removed n ns ns'
      → length ns ≤ rounds
      → reads t pos ≡ c
      → Links t.ht_next ns c 0
      → Distinct (0 ∷ ns)
      → OutOf pos ns
      → Sought t pos ns ns' (seek node rounds t n c pos)
  unfolding seek
  seek-Sought zero t n c pos here enough e l d out = absurd (omega arith)
  seek-Sought (suc rounds) t n c pos (here {xs}) enough e (head, l) d out =
      found_here t n pos xs _
        (if_false _ _ (ap (λ k. k == 0) head ∙ not_null n d.0.0)
          ∙ if_true _ _ ((==_iff c n).1 head))
        l out
  seek-Sought zero t n c pos (there y r) enough e l d out = absurd (omega arith)
  seek-Sought (suc rounds) t n c pos (there y {xs} {xs'} r) enough e (head, l) d out =
      let s =
        seek-Sought rounds t n (t.ht_next y) (behind y) r (omega arith) refl l (d.0.1, d.1.1)
          d.1.0 in
      record {
        table = s.table;
        returns =
            if_false _ _ (ap (λ k. k == 0) head ∙ not_null y d.0.0)
            ∙ if_false _ _ (ap (λ k. k == n) head ∙ eq_other y n (NotIn-Removed r d.1.0).0)
            ∙ ap (λ k. seek node rounds t n (t.ht_next k) (behind k)) head
            ∙ s.returns;
        size = s.size;
        bits = s.bits;
        count = s.count;
        chain =
            (s.spared pos (OutOf-Apart pos y xs out) (OutOf-tail pos y xs out) ∙ e ∙ head, s.chain);
        spared = λ p apart away. s.spared p (OutOf-Apart p y xs away) (OutOf-tail p y xs away);
      }
