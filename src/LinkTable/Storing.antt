-- ===== src/LinkTable/Storing.antt =====
-- LinkTable::SetData stores its bytes in blocks of the free list.
use mysql_proxy.Common.{
  ℕ, suc, ◌+◌, ◌-◌, ◌*◌, ◌/◌, ◌^◌, ◌≤◌, ◌<◌, ◌≡◌, refl, ap, ◌∙◌, List, [], ◌∷◌, arith, true, ◌==◌,
  length, All, if_true, if_false, ltb-false, Ret, ret, update, update_ne, if◌then◌else◌,
}
use mysql_proxy.LinkTable.Types.{Block, Table, block_data_len, set_next, max_block_count}
use mysql_proxy.LinkTable.Free.{recycle_block}
use mysql_proxy.LinkTable.Alloc.{get_empty_block}
use mysql_proxy.LinkTable.Data.{
  got, get_data, copy_loop, finish_set, copy_done, copy_into, with_blocks, set_data,
}
use mysql_proxy.Common.Removed.{NotIn}
use mysql_proxy.LinkTable.Linked.{
  Linked, Holds, SameOn, Apart, Holds-frame, Holds-positive, SameOn-update,
}
use mysql_proxy.LinkTable.Reading.{get_data-Holds}
use mysql_proxy.LinkTable.Writing.{Copied, copy_loop-Copied}
use mysql_proxy.LinkTable.Taking.{AllEmpty, Taken, get_empty_block-Taken}

-- The free list of `t` begins with the unused blocks `ps`, just as many as the bytes need, and goes
-- on at `q`. A block has fewer than 2 ^ 16 bytes for data, and fewer than 2 ^ 31 blocks are free.
pub record HasSpace (t : Table) (q : ℕ) (ps bytes : List ℕ) : Type 0 where
  pub ready : t.ready ≡ true
  pub some_data : 0 < block_data_len t
  pub small : block_data_len t < 2 ^ 16
  pub linked : Linked t.all_block_count t.blocks q t.first_free_pos ps
  pub unused : AllEmpty t.blocks ps
  pub some_bytes : 0 < length bytes
  pub enough : length bytes ≤ length ps * block_data_len t
  pub tight : length ps * block_data_len t < length bytes + block_data_len t
  pub few : length ps ≤ max_block_count
  pub counted : length ps ≤ t.free_block_count
  pub countable : t.free_block_count < 2 ^ 31

-- What SetData leaves, before an old chain is recycled: the chain at the former head of the free list
-- holds the bytes, no other block is changed but block 0, which is not used, and the free list has
-- lost the chain. An old chain, if there is one, then goes to RecycleBlock.
pub record Stored (t : Table) (q old : ℕ) (ps bytes : List ℕ) (run : Ret × ℕ × Table) : Type 0 where
  pub memory : ℕ → Block
  pub count : ℕ
  pub result :
      let t' = record t { blocks = memory; first_free_pos = q; free_block_count = count } in
      run ≡ (ret 0, t.first_free_pos, if old == 0 then t' else (recycle_block t' old).1)
  pub holds : Holds (block_data_len t) t.all_block_count memory t.first_free_pos ps bytes
  pub outside : (a : ℕ) → 0 < a → NotIn a ps → memory a ≡ t.blocks a

block_count : (len bl k : ℕ) → 0 < bl → len ≤ k * bl → k * bl < len + bl → (len + bl - 1) / bl ≡ k
block_count len bl k pos enough tight = grind arith

Linked-ne-zero : (n : ℕ) (m : ℕ → Block) (q p : ℕ) (ps : List ℕ) → Linked n m q p ps → NotIn 0 ps
Linked-ne-zero n m q p [] l = tt
Linked-ne-zero n m q p (x ∷ ps) (same, pos, below, out, l) =
    (omega arith, Linked-ne-zero n m q (m x).next ps l)

set_data_allocated :
    (t t' : Table) (old count start : ℕ) (bytes : List ℕ)
    → t.ready ≡ true
    → (length bytes + block_data_len t - 1) / block_data_len t ≡ count
    → count ≤ max_block_count
    → get_empty_block t count ≡ (ret 0, start, t')
    → set_data t old bytes ≡ copy_into t' old start bytes
unfolding set_data with_blocks
set_data_allocated t t' old count start bytes ready number few taken =
    if_true _ _ ready
    ∙ rw number
        (if_false _ _ (ltb-false max_block_count count few) ∙ ap (with_blocks old bytes) taken)

-- The memory once the copied chain is cut.
abbrev cut_memory : (ℕ → Block) → ℕ → ℕ → Block
cut_memory m cur =
    let last_cut = update m cur (set_next 0 (m cur)) in update last_cut 0 (set_next 0 (last_cut 0))

copy_into-Copied :
    (t : Table) (bl n old start : ℕ) (ps bytes : List ℕ)
    → (c : Copied bl n 0 start ps bytes t
        (copy_loop (length bytes) (record { cur = 0; next = start; left = bytes; table = t })))
    → let t' = record t { blocks = cut_memory c.memory c.cur; free_block_count = c.count } in
      copy_into t old start bytes
      ≡ (ret 0, start, if old == 0 then t' else (recycle_block t' old).1)
unfolding copy_into copy_done finish_set
copy_into-Copied t bl n old start ps bytes c = ap (copy_done old start) c.result

-- When the free list begins with as many unused blocks as the bytes need, of fewer than 2 ^ 16 data
-- bytes each, and fewer than 2 ^ 31 blocks are free, SetData returns 0 and the former head of the free
-- list. Before an old chain is recycled, the chain there holds the bytes, and no other block is changed
-- but block 0; an old chain then goes to RecycleBlock.
pub set_data-Stored :
    (t : Table) (q x old : ℕ) (xs bytes : List ℕ)
    → HasSpace t q (x ∷ xs) bytes
    → Stored t q old (x ∷ xs) bytes (set_data t old bytes)
set_data-Stored t q x old xs bytes h = record {
  memory = cut_memory c.memory c.cur;
  count = c.count;
  result =
      set_data_allocated t t' old (suc (length xs)) t.first_free_pos bytes h.ready
        (block_count (length bytes) (block_data_len t) _ h.some_data h.enough h.tight) h.few
        taken.result
      ∙ copy_into-Copied t' bl t.all_block_count old t.first_free_pos (x ∷ xs) bytes c;
  holds = Holds-frame c.holds (
      SameOn-update last_cut 0 _ (x ∷ xs)
        (Linked-ne-zero t.all_block_count t.blocks q t.first_free_pos (x ∷ xs) h.linked));
  outside = λ a pos out.
      update_ne last_cut 0 a _ (ground arith)
      ∙ update_ne c.memory c.cur a _ (c.outside a out).1
      ∙ (c.outside a out).0
      ∙ taken.outside a out;
}
  where
    bl : ℕ
    bl = block_data_len t

    taken : Taken q t.first_free_pos (x ∷ xs) t (get_empty_block t (suc (length xs)))
    taken = get_empty_block-Taken q x xs t h.ready h.linked h.unused h.few h.counted h.countable

    t' : Table
    t' = record t { blocks = taken.memory; first_free_pos = q }

    rounds : suc (length xs) ≤ length bytes
    rounds = grind (arith, h.tight, h.some_data, h.some_bytes)

    c : Copied bl t.all_block_count 0 t.first_free_pos (x ∷ xs) bytes t' (
        copy_loop
          (length bytes)
          (record { cur = 0; next = t.first_free_pos; left = bytes; table = t' }))
    c =
        copy_loop-Copied (length bytes) bl 0 0 t.first_free_pos (x ∷ xs) bytes t' refl h.some_data
          h.small taken.linked h.some_bytes h.enough h.tight rounds

    last_cut : ℕ → Block
    last_cut = update c.memory c.cur (set_next 0 (c.memory c.cur))

-- The round trip: with space in the free list, of blocks of fewer than 2 ^ 16 data bytes, and fewer
-- than 2 ^ 31 free blocks, SetData for a new entry returns 0 and a position at
-- which GetData, into a buffer with room for the blocks, finds the bytes that were stored.
pub get_data-set_data :
    (t : Table) (q x buf_len : ℕ) (xs bytes : List ℕ)
    → HasSpace t q (x ∷ xs) bytes
    → suc (length xs) * block_data_len t ≤ buf_len
    → let run = set_data t 0 bytes in (run.0 ≡ ret 0) × (get_data run.2 run.1 buf_len ≡ got bytes)
get_data-set_data t q x buf_len xs bytes h room =
    let s = set_data-Stored t q x 0 xs bytes h in
    rw s.result
      (refl, get_data-Holds _ t.first_free_pos buf_len h.ready h.some_data h.small s.holds room)

-- With space in the free list, of blocks of fewer than 2 ^ 16 data bytes, and fewer than 2 ^ 31 free
-- blocks, SetData for a new entry leaves every chain that is clear of the
-- blocks it takes as it was: GetData there, into a buffer with room, finds what was stored before.
pub set_data-get_data :
    (t : Table) (q x p buf_len : ℕ) (xs bytes ps other : List ℕ)
    → HasSpace t q (x ∷ xs) bytes
    → Holds (block_data_len t) t.all_block_count t.blocks p ps other
    → Apart ps (x ∷ xs)
    → length ps * block_data_len t ≤ buf_len
    → get_data (set_data t 0 bytes).2 p buf_len ≡ got other
set_data-get_data t q x p buf_len xs bytes ps other h held apart room =
    rw s.result
      (get_data-Holds _ p buf_len h.ready h.some_data h.small (Holds-frame held spared) room)
  where
    s : Stored t q 0 (x ∷ xs) bytes (set_data t 0 bytes)
    s = set_data-Stored t q x 0 xs bytes h

    spared_list :
        (ps : List ℕ) → All (λ a. 0 < a) ps → Apart ps (x ∷ xs) → SameOn ps t.blocks s.memory
    spared_list [] pos apart = tt
    spared_list (a ∷ ps) pos apart = (s.outside a pos.0 apart.0, spared_list ps pos.1 apart.1)

    spared : SameOn ps t.blocks s.memory
    spared = spared_list ps (Holds-positive held) apart
