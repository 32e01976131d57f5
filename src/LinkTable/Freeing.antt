-- ===== src/LinkTable/Freeing.antt =====
-- LinkTable::FreeBlock gives a chain back to the free list.
use mathlib.Core.Path.{subst}
use mathlib.Core.List.{reverse_aux}
use mysql_proxy.Common.{
  ℕ, zero, suc, ◌+◌, ◌%◌, ◌^◌, ◌≤◌, ◌<◌, ◌≡◌, refl, sym, ap, ◌∙◌, List, [], ◌∷◌, arith, true, false,
  leb, ◌==◌, ◌||◌, length, if_true, if_false, Ret, ret, update, update_self, update_ne,
}
use mysql_proxy.LinkTable.Types.{Block, Table, set_next, zero_block, max_block_count}
use mysql_proxy.LinkTable.Free.{free_one, free_loop, free_block}
use mysql_proxy.Common.Removed.{NotIn}
use mysql_proxy.LinkTable.Linked.{Linked, Linked-frame, SameOn, SameOn-update, Apart}
use mysql_proxy.LinkTable.Taking.{AllEmpty}

-- What the loop leaves when the blocks `ps` are freed onto the free list `acc`, which goes on at
-- `base`: they stand in front of it in reverse order, unused, and no other block is changed.
pub record Freed (base : ℕ) (ps acc : List ℕ) (t : Table) (run : Ret × Table) : Type 0 where
  pub memory : ℕ → Block
  pub head : ℕ
  pub result : run ≡ (
    ret 0,
    record t {
      blocks = memory;
      first_free_pos = head;
      free_block_count = (t.free_block_count + length ps) % 2 ^ 64;
    },
  )
  pub linked : Linked t.all_block_count memory base head (reverse_aux ps acc)
  pub unused : AllEmpty memory (reverse_aux ps acc)
  pub outside : (a : ℕ) → NotIn a ps → memory a ≡ t.blocks a

AllEmpty-frame : (m m' : ℕ → Block) (ps : List ℕ) → AllEmpty m ps → SameOn ps m m' → AllEmpty m' ps
AllEmpty-frame m m' [] h same = tt
AllEmpty-frame m m' (x ∷ ps) h same =
    (ap (λ b. b.length_in_block) same.0 ∙ h.0, AllEmpty-frame m m' ps h.1 same.1)

free_round :
    (rounds p x : ℕ) (t : Table)
    → p ≡ x
    → 0 < x
    → x < t.all_block_count
    → free_loop (suc rounds) p t ≡ free_loop rounds (t.blocks x).next (free_one x t)
unfolding free_loop
free_round rounds p x t same pos below =
    ap (λ k. free_loop (suc rounds) k t) same
    ∙ if_false _ _ (nonzero x pos)
    ∙ if_false _ _ (inside x t.all_block_count below)
  where
    nonzero : (x : ℕ) → 0 < x → (x == 0) ≡ false
    nonzero x pos = ground arith

    inside : (x n : ℕ) → x < n → leb n x ≡ false
    inside x n h = ground arith

free_loop-end : (rounds : ℕ) (t : Table) → free_loop rounds 0 t ≡ (ret 0, t)
unfolding free_loop
free_loop-end zero t = refl
free_loop-end (suc rounds) t = refl

Apart-cons : (x : ℕ) (ps acc : List ℕ) → NotIn x ps → Apart ps acc → Apart ps (x ∷ acc)
Apart-cons x [] acc out apart = tt
Apart-cons x (y ∷ ps) acc out apart =
    ((λ e. out.0 (sym e), apart.0), Apart-cons x ps acc out.1 apart.1)

pub free_loop-Freed :
    (rounds base p : ℕ) (ps acc : List ℕ) (t : Table)
    → t.all_block_count ≤ 2 ^ 48
    → t.first_free_pos < 2 ^ 48
    → t.free_block_count < 2 ^ 64
    → Linked t.all_block_count t.blocks 0 p ps
    → Linked t.all_block_count t.blocks base t.first_free_pos acc
    → AllEmpty t.blocks acc
    → Apart ps acc
    → length ps ≤ rounds
    → Freed base ps acc t (free_loop rounds p t)
unfolding free_one
free_loop-Freed rounds base p [] acc t big ff fc chain free unused apart enough = record {
  memory = t.blocks;
  head = t.first_free_pos;
  result = ap (λ k. free_loop rounds k t) chain ∙ free_loop-end rounds t ∙ λ i.
      (ret 0, record t { free_block_count = same_count i });
  linked = free;
  unused = unused;
  outside = λ a out. refl;
}
  where
    same_count : t.free_block_count ≡ (t.free_block_count + 0) % 2 ^ 64
    same_count = omega arith
free_loop-Freed zero base p (x ∷ ps) acc t big ff fc chain free unused apart enough =
    absurd (omega arith)
free_loop-Freed (suc rounds) base p (x ∷ ps) acc t big ff fc (same, pos, below, out, chain) free
      unused apart enough =
    freed_more (
      free_loop-Freed rounds base (t.blocks x).next ps (x ∷ acc) (free_one x t) big (omega arith)
        (omega arith) (Linked-frame n t.blocks blocks' 0 (t.blocks x).next ps chain (spared ps out))
        (
          refl,
          pos,
          below,
          apart.0,
          subst (λ k. Linked n blocks' base k acc) (sym next_x)
              (Linked-frame n t.blocks blocks' base t.first_free_pos acc free (spared acc apart.0)),
        )
        (
          ap (λ b. b.length_in_block) (update_self t.blocks x _),
          AllEmpty-frame t.blocks blocks' acc unused (spared acc apart.0),
        )
        (Apart-cons x ps acc out apart.1) (omega arith))
  where
    n : ℕ
    n = t.all_block_count

    blocks' : ℕ → Block
    blocks' = update t.blocks x (set_next t.first_free_pos (zero_block t))

    spared : (qs : List ℕ) → NotIn x qs → SameOn qs t.blocks blocks'
    spared qs h = SameOn-update t.blocks x _ qs h

    next_x : (blocks' x).next ≡ t.first_free_pos
    next_x = ap (λ b. b.next) (update_self t.blocks x _) ∙ omega arith

    freed_more :
        Freed base ps (x ∷ acc) (free_one x t) (free_loop rounds (t.blocks x).next (free_one x t))
        → Freed base (x ∷ ps) acc t (free_loop (suc rounds) p t)
    freed_more ih = record {
      memory = ih.memory;
      head = ih.head;
      result = free_round rounds p x t same pos below ∙ ih.result ∙ λ i. (
        ret 0,
        record t { blocks = ih.memory; first_free_pos = ih.head; free_block_count = more i },
      );
      linked = ih.linked;
      unused = ih.unused;
      outside = λ a (a_ne, others). ih.outside a others ∙ update_ne t.blocks x a _ a_ne;
    }
      where
        more :
            ((t.free_block_count + 1) % 2 ^ 64 + length ps) % 2 ^ 64
            ≡ (t.free_block_count + suc (length ps)) % 2 ^ 64
        more = omega arith

-- On an initialised table of at most 2 ^ 48 blocks, FreeBlock on a whole chain of at most 25601
-- blocks, clear of a free list of unused blocks, returns 0, puts its blocks unused in front of the
-- free list in reverse order, counts them, and changes no other block.
pub free_block-Freed :
    (base x : ℕ) (xs acc : List ℕ) (t : Table)
    → t.ready ≡ true
    → t.all_block_count ≤ 2 ^ 48
    → t.first_free_pos < 2 ^ 48
    → t.free_block_count < 2 ^ 64
    → Linked t.all_block_count t.blocks 0 x (x ∷ xs)
    → Linked t.all_block_count t.blocks base t.first_free_pos acc
    → AllEmpty t.blocks acc
    → Apart (x ∷ xs) acc
    → suc (length xs) ≤ max_block_count + 1
    → Freed base (x ∷ xs) acc t (free_block t x)
unfolding free_block
free_block-Freed base x xs acc t ready big ff fc chain free unused apart few =
    let f =
      free_loop-Freed (max_block_count + 1) base x (x ∷ xs) acc t big ff fc chain free unused apart
        few in
    record {
      memory = f.memory;
      head = f.head;
      result = if_true _ _ ready ∙ if_false _ _ (guards chain.1 chain.2) ∙ f.result;
      linked = f.linked;
      unused = f.unused;
      outside = f.outside;
    }
  where
    guards : 0 < x → x < t.all_block_count → ((x == 0) || leb t.all_block_count x) ≡ false
    guards pos below = ground arith
