-- ===== src/LinkTable/Writing.antt =====
-- The copying loop of LinkTable::SetData fills a chain of blocks.
use mathlib.Core.Path.{subst}
use mysql_proxy.Common.{
  ℕ, zero, suc, ◌+◌, ◌*◌, ◌^◌, ◌≤◌, ◌<◌, ◌≡◌, ◌≢◌, refl, sym, ap, ◌∙◌, List, [], ◌∷◌, ◌++◌, arith,
  Bool, true, false, ltb, leb, ◌==◌, ◌||◌, take, drop, length, take-append_length, length-take_le,
  length-drop, take-append-drop, take-length, drop-length, if_true, if_false, ltb-false, lt→ltb,
  Ret, ret, update, update_self, update_ne, if◌then◌else◌,
}
use mysql_proxy.LinkTable.Types.{Block, Table, block_data_len, set_next, set_length, change, dec64}
use mysql_proxy.LinkTable.Data.{Copy, copy_one, copy_loop}
use mysql_proxy.Common.Removed.{NotIn}
use mysql_proxy.LinkTable.Linked.{Linked, Holds, last, more, Linked-frame, SameOn-update}

-- A block that the loop has filled with the `n` bytes in front.
abbrev filled : ℕ → List ℕ → Block → Block
filled n bytes b = set_length n (record b { buf = take n bytes ++ drop n b.buf })

-- One round at a position of the table while bytes are left.
copy_round :
    (fuel n : ℕ) (s : Copy)
    → 0 < s.next
    → s.next < s.table.all_block_count
    → 0 < length s.left
    → (if ltb (block_data_len s.table) (length s.left)
        then block_data_len s.table
        else length s.left)
      ≡ n
    → copy_loop (suc fuel) s
      ≡ copy_loop fuel (record {
        cur = s.next;
        next = (s.table.blocks s.next).next;
        left = drop n s.left;
        table = record (change s.table s.next (filled n s.left)) {
          free_block_count = dec64 s.table.free_block_count;
        };
      })
unfolding copy_loop copy_one
copy_round fuel n s pos below bytes e =
    let some_next : (s.next == 0) ≡ false = ground arith in
    let some_left : (length s.left == 0) ≡ false = ground arith in
    let inside : leb s.table.all_block_count s.next ≡ false = ground arith in
    rw (some_next, some_left, inside, e)

copy_loop-empty : (fuel : ℕ) (s : Copy) → s.left ≡ [] → copy_loop fuel s ≡ (ret 0, s)
unfolding copy_loop
copy_loop-empty zero s e = refl
copy_loop-empty (suc fuel) s e = if_true _ _ (nothing_left (s.next == 0))
  where
    nothing_left : (b : Bool) → (b || (length s.left == 0)) ≡ true
    nothing_left true = refl
    nothing_left false = rw e

-- What the loop leaves when the blocks `ps` just hold the bytes: the memory is changed in them
-- alone, and once the last is cut off from `q` they hold the bytes.
pub record Copied (bl n q p : ℕ) (ps bytes : List ℕ) (t : Table) (run : Ret × Copy) : Type 0 where
  pub memory : ℕ → Block
  pub count : ℕ
  pub cur : ℕ
  pub result : run ≡ (
    ret 0,
    record {
      cur = cur;
      next = q;
      left = [];
      table = record t { blocks = memory; free_block_count = count };
    },
  )
  pub outside : (a : ℕ) → NotIn a ps → (memory a ≡ t.blocks a) × (a ≢ cur)
  pub holds : Holds bl n (update memory cur (set_next 0 (memory cur))) p ps bytes

filled_content :
    (n : ℕ) (bytes : List ℕ) (b : Block)
    → n ≤ length bytes
    → n < 2 ^ 16
    → ((filled n bytes b).length_in_block ≡ n) × (take n (filled n bytes b).buf ≡ take n bytes)
filled_content n bytes b h small =
    (omega arith, take-append_length n (take n bytes) (drop n b.buf) (length-take_le n bytes h))

-- The last round.
copy_last :
    (fuel bl q cur x : ℕ) (bytes : List ℕ) (t : Table)
    → block_data_len t ≡ bl
    → bl < 2 ^ 16
    → Linked t.all_block_count t.blocks q x (x ∷ [])
    → 0 < length bytes
    → length bytes ≤ bl
    → Copied bl t.all_block_count q x
        (x ∷ [])
        bytes
        t
        (copy_loop (suc fuel) (record { cur = cur; next = x; left = bytes; table = t }))
copy_last fuel bl q cur x bytes t e small (same, pos, below, out, end) some_bytes fits = record {
  memory = memory;
  count = dec64 t.free_block_count;
  cur = x;
  result =
      copy_round fuel (length bytes) _ pos below some_bytes
        (if_false _ _ (ltb-false (block_data_len t) (length bytes) (rw e fits)))
      ∙ copy_loop-empty fuel _ (drop-length bytes)
      ∙ λ i. (
        ret 0,
        record {
          cur = x;
          next = end i;
          left = drop-length bytes i;
          table = record t { blocks = memory; free_block_count = dec64 t.free_block_count };
        },
      );
  outside = λ a (a_ne, _). (update_ne t.blocks x a _ a_ne, a_ne);
  holds =
      last pos below (ap (λ b. b.next) at_x) (ap (λ b. b.length_in_block) at_x ∙ content.0)
        some_bytes fits (ap (λ b. take (length bytes) b.buf) at_x ∙ content.1 ∙ take-length bytes);
}
  where
    memory : ℕ → Block
    memory = update t.blocks x (filled (length bytes) bytes (t.blocks x))

    at_x :
        update memory x (set_next 0 (memory x)) x
        ≡ set_next 0 (filled (length bytes) bytes (t.blocks x))
    at_x = update_self memory x _ ∙ ap (set_next 0) (update_self t.blocks x _)

    content :
        ((filled (length bytes) bytes (t.blocks x)).length_in_block ≡ length bytes)
        × (take (length bytes) (filled (length bytes) bytes (t.blocks x)).buf
            ≡ take (length bytes) bytes)
    content = filled_content (length bytes) bytes (t.blocks x) (omega arith) (omega arith)

-- The table after a round at `x` that fills a whole block.
abbrev round_table : ℕ → ℕ → List ℕ → Table → Table
round_table bl x bytes t = record (change t x (filled bl bytes)) {
  free_block_count = dec64 t.free_block_count;
}

copy_inner :
    (fuel bl q cur x y : ℕ) (ys bytes : List ℕ) (t : Table)
    → block_data_len t ≡ bl
    → 0 < bl
    → bl < 2 ^ 16
    → Linked t.all_block_count t.blocks q x (x ∷ y ∷ ys)
    → bl < length bytes
    → Copied bl t.all_block_count q
        (t.blocks x).next
        (y ∷ ys)
        (drop bl bytes)
        (round_table bl x bytes t)
        (copy_loop fuel (record {
          cur = x;
          next = (t.blocks x).next;
          left = drop bl bytes;
          table = round_table bl x bytes t;
        }))
    → Copied bl t.all_block_count q x
        (x ∷ y ∷ ys)
        bytes
        t
        (copy_loop (suc fuel) (record { cur = cur; next = x; left = bytes; table = t }))
copy_inner fuel bl q cur x y ys bytes t e pos_bl small (same, pos, below, out, linked) long ih =
    record {
      memory = ih.memory;
      count = ih.count;
      cur = ih.cur;
      result =
          copy_round fuel bl _ pos below (omega arith)
            (if_true _ _ (lt→ltb (block_data_len t) (length bytes) (rw e long)) ∙ e)
          ∙ ih.result;
      outside = λ a (a_ne, rest).
          ((ih.outside a rest).0 ∙ update_ne t.blocks x a _ a_ne, (ih.outside a rest).1);
      holds = subst (Holds bl t.all_block_count final x (x ∷ y ∷ ys)) (take-append-drop bl bytes) (
          more pos below (rw next_x next_ne) (ap (λ b. b.length_in_block) at_x ∙ content.0)
            (length-take_le bl bytes (omega arith)) (ap (λ b. take bl b.buf) at_x ∙ content.1)
            (subst (λ k. Holds bl t.all_block_count final k (y ∷ ys) (drop bl bytes)) (sym next_x)
              ih.holds));
    }
  where
    final : ℕ → Block
    final = update ih.memory ih.cur (set_next 0 (ih.memory ih.cur))

    at_x : final x ≡ filled bl bytes (t.blocks x)
    at_x =
        update_ne ih.memory ih.cur x _ (ih.outside x out).1
        ∙ (ih.outside x out).0
        ∙ update_self t.blocks x _

    next_x : (final x).next ≡ (t.blocks x).next
    next_x = ap (λ b. b.next) at_x

    next_ne : (t.blocks x).next ≢ 0
    next_ne = let y_pos = linked.1 in let y_is = linked.0 in omega arith

    content :
        ((filled bl bytes (t.blocks x)).length_in_block ≡ bl)
        × (take bl (filled bl bytes (t.blocks x)).buf ≡ take bl bytes)
    content = filled_content bl bytes (t.blocks x) (omega arith) small

-- A chain with just enough blocks takes the bytes, in as many rounds as it has blocks.
pub copy_loop-Copied :
    (fuel bl q cur p : ℕ) (ps bytes : List ℕ) (t : Table)
    → block_data_len t ≡ bl
    → 0 < bl
    → bl < 2 ^ 16
    → Linked t.all_block_count t.blocks q p ps
    → 0 < length bytes
    → length bytes ≤ length ps * bl
    → length ps * bl < length bytes + bl
    → length ps ≤ fuel
    → Copied bl t.all_block_count q p ps bytes t
        (copy_loop fuel (record { cur = cur; next = p; left = bytes; table = t }))
copy_loop-Copied fuel bl q cur p [] bytes t e pos small linked some_bytes fits tight rounds =
    absurd (omega arith)
copy_loop-Copied zero bl q cur p (x ∷ ps) bytes t e pos small linked some_bytes fits tight rounds =
    absurd (omega arith)
copy_loop-Copied (suc fuel) bl q cur p (x ∷ []) bytes t e pos small
      (same, x_pos, below, out, linked) some_bytes fits tight rounds =
    subst
      (λ k.
        Copied bl t.all_block_count q k (x ∷ []) bytes t
          (copy_loop (suc fuel) (record { cur = cur; next = k; left = bytes; table = t })))
      (sym same)
      (copy_last fuel bl q cur x bytes t e small (refl, x_pos, below, out, linked) some_bytes
        (omega arith))
copy_loop-Copied (suc fuel) bl q cur p (x ∷ y ∷ ys) bytes t e pos small
      (same, x_pos, below, out, linked) some_bytes fits tight rounds =
    subst
      (λ k.
        Copied bl t.all_block_count q k (x ∷ y ∷ ys) bytes t
          (copy_loop (suc fuel) (record { cur = cur; next = k; left = bytes; table = t })))
      (sym same)
      (copy_inner fuel bl q cur x y ys bytes t e pos small (refl, x_pos, below, out, linked) long
        (copy_loop-Copied fuel bl q x (t.blocks x).next (y ∷ ys) (drop bl bytes)
          (round_table bl x bytes t) e pos small linked' (omega (arith, length-drop bl bytes))
          (omega (arith, length-drop bl bytes)) (omega (arith, length-drop bl bytes))
          (omega arith)))
  where
    long : bl < length bytes
    long = grind arith

    linked' :
        Linked t.all_block_count
          (update t.blocks x (filled bl bytes (t.blocks x)))
          q
          (t.blocks x).next
          (y ∷ ys)
    linked' =
        Linked-frame t.all_block_count t.blocks _ q (t.blocks x).next (y ∷ ys) linked
          (SameOn-update t.blocks x _ (y ∷ ys) out)
