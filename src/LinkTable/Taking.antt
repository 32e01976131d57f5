-- ===== src/LinkTable/Taking.antt =====
-- LinkTable::GetEmptyBlock takes the front of the free list.
use mathlib.Core.Path.{subst}
use mysql_proxy.Common.{
  ℕ, suc, ◌%◌, ◌^◌, ◌≤◌, ◌<◌, ◌≡◌, sym, ap, ◌∙◌, List, [], ◌∷◌, arith, true, false, ltb, ◌==◌, ◌&&◌,
  ◌||◌, length, All, if_true, if_false, ltb-false, lt→ltb, Ret, ret, update, update_self, update_ne,
  if◌then◌else◌,
}
use mysql_proxy.LinkTable.Types.{
  Block, Table, set_next, change, max_block_count, is_negative_int, is_negative_int-small, low_word,
}
use mysql_proxy.LinkTable.Alloc.{walk_free, get_empty_block}
use mysql_proxy.Common.Removed.{NotIn}
use mysql_proxy.LinkTable.Linked.{Linked}

-- None of the blocks is in use.
abbrev pub AllEmpty : (ℕ → Block) → List ℕ → Type 0
AllEmpty m ps = All (λ x. (m x).length_in_block ≡ 0) ps

-- What the walk over the free blocks `ps` leaves: the chain is cut behind them.
record Walked (q p : ℕ) (ps : List ℕ) (t : Table) (run : ℕ × ℕ × Table) : Type 0 where
  memory : ℕ → Block
  result : run ≡ (0, q, record t { blocks = memory })
  linked : Linked t.all_block_count memory 0 p ps
  outside : (a : ℕ) → NotIn a ps → memory a ≡ t.blocks a

-- One round at an unused block of the table.
walk_round :
    (need p x : ℕ) (t : Table)
    → p ≡ x
    → 0 < x
    → x < t.all_block_count
    → (t.blocks x).length_in_block ≡ 0
    → walk_free (suc need) p t
      ≡ walk_free need (t.blocks x).next (if need == 0 then change t x (set_next 0) else t)
unfolding walk_free
walk_round need p x t same pos below unused =
    ap (λ k. walk_free (suc need) k t) same
    ∙ if_true _ (suc need, x, t) (tests (lt→ltb 0 x pos) (lt→ltb x _ below))
  where
    tests :
        ltb 0 x ≡ true
        → ltb x t.all_block_count ≡ true
        → (ltb 0 x && (ltb x t.all_block_count && ((t.blocks x).length_in_block == 0))) ≡ true
    tests e f = rw (e, f, unused)

suc-ne-zero : (n : ℕ) → (suc n == 0) ≡ false
suc-ne-zero n = ground arith

walk_free-Walked :
    (q p x : ℕ) (xs : List ℕ) (t : Table)
    → Linked t.all_block_count t.blocks q p (x ∷ xs)
    → AllEmpty t.blocks (x ∷ xs)
    → Walked q p (x ∷ xs) t (walk_free (suc (length xs)) p t)
walk_free-Walked q p x [] t (same, pos, below, out, end) (unused, _) = record {
  memory = update t.blocks x (set_next 0 (t.blocks x));
  result =
      walk_round 0 p x t same pos below unused
      ∙ unfold walk_free in
        ap (λ k. (0, k, record t { blocks = update t.blocks x (set_next 0 (t.blocks x)) })) end;
  linked = (same, pos, below, out, ap (λ b. b.next) (update_self t.blocks x _));
  outside = λ a (a_ne, _). update_ne t.blocks x a _ a_ne;
}
walk_free-Walked q p x (y ∷ ys) t (same, pos, below, out, linked) (unused, rest) =
    let ih = walk_free-Walked q (t.blocks x).next y ys t linked rest in
    record {
      memory = ih.memory;
      result =
          walk_round (suc (length ys)) p x t same pos below unused
          ∙ ap (walk_free (suc (length ys)) (t.blocks x).next)
              (if_false (change t x (set_next 0)) t (suc-ne-zero (length ys)))
          ∙ ih.result;
      linked = (
        same,
        pos,
        below,
        out,
        subst (λ k. Linked t.all_block_count ih.memory 0 k (y ∷ ys))
            (ap (λ b. b.next) (sym (ih.outside x out))) ih.linked,
      );
      outside = λ a (a_ne, others). ih.outside a others;
    }

-- GetEmptyBlock returns the front of the free list as a chain of its own, and the rest of the list
-- stays the free list.
pub record Taken (q p : ℕ) (ps : List ℕ) (t : Table) (run : Ret × ℕ × Table) : Type 0 where
  pub memory : ℕ → Block
  pub result : run ≡ (ret 0, p, record t { blocks = memory; first_free_pos = q })
  pub linked : Linked t.all_block_count memory 0 p ps
  pub outside : (a : ℕ) → NotIn a ps → memory a ≡ t.blocks a

pub get_empty_block-Taken :
    (q x : ℕ) (xs : List ℕ) (t : Table)
    → t.ready ≡ true
    → Linked t.all_block_count t.blocks q t.first_free_pos (x ∷ xs)
    → AllEmpty t.blocks (x ∷ xs)
    → suc (length xs) ≤ max_block_count
    → suc (length xs) ≤ t.free_block_count
    → t.free_block_count < 2 ^ 31
    → Taken q t.first_free_pos (x ∷ xs) t (get_empty_block t (suc (length xs)))
unfolding get_empty_block
get_empty_block-Taken q x xs t ready linked unused few room countable =
    let w = walk_free-Walked q t.first_free_pos x xs t linked unused in
    record {
      memory = w.memory;
      result =
          if_true _ _ ready
          ∙ if_false _ _ (guards (ltb-false _ _ few) (ltb-false _ _ room) (low_word _ countable))
          ∙ rw w.result;
      linked = w.linked;
      outside = w.outside;
    }
  where
    guards :
        ltb max_block_count (suc (length xs)) ≡ false
        → ltb t.free_block_count (suc (length xs)) ≡ false
        → t.free_block_count % 2 ^ 32 ≡ t.free_block_count
        → (ltb max_block_count (suc (length xs))
            || is_negative_int t.free_block_count
            || ltb (t.free_block_count % 2 ^ 32) (suc (length xs)))
          ≡ false
    guards e f same = rw (e, is_negative_int-small t.free_block_count countable) (rw (same, f))
