-- ===== src/LinkTable/Reading.antt =====
-- LinkTable::GetData returns what a chain holds.
use native.Mathlib.Nat.{le_trans}
use mysql_proxy.Common.{
  ℕ, zero, suc, ◌+◌, ◌*◌, ◌%◌, ◌^◌, ◌≤◌, ◌<◌, ◌≡◌, refl, sym, ap, ◌∙◌, List, [], ◌++◌, arith, true,
  false, ltb, leb, ◌==◌, take, length, append_assoc, ◌⊎◌, if_true, if_false, ltb-false,
}
use mysql_proxy.LinkTable.Types.{Block, Table, block_data_len}
use mysql_proxy.LinkTable.Data.{got, unread, block_len, read_loop, get_data}
use mysql_proxy.LinkTable.Linked.{Holds, last, more}

-- One round of the loop at a position of the table, with room for a block.
read_round :
    (fuel p data_len buf_len : ℕ) (t : Table) (out bytes : List ℕ)
    → 0 < p
    → p < t.all_block_count
    → data_len + block_data_len t ≤ buf_len
    → block_len t p ≡ length bytes
    → take (length bytes) (t.blocks p).buf ≡ bytes
    → read_loop (suc fuel) p data_len buf_len t out
      ≡ read_loop fuel (t.blocks p).next (data_len + length bytes) buf_len t (out ++ bytes)
unfolding read_loop
read_round fuel p data_len buf_len t out bytes pos below room e content =
    let nonzero : (p == 0) ≡ false = ground arith in
    let inside : leb t.all_block_count p ≡ false = ground arith in
    let fits : ltb buf_len (data_len + block_data_len t) ≡ false = ground arith in
    rw (nonzero, inside, fits, e, content)

pub read_loop-Holds :
    (fuel p data_len buf_len : ℕ) (t : Table) (out : List ℕ) {ps bytes : List ℕ}
    → block_data_len t < 2 ^ 16
    → Holds (block_data_len t) t.all_block_count t.blocks p ps bytes
    → data_len + length ps * block_data_len t ≤ buf_len
    → length ps ≤ fuel
    → read_loop fuel p data_len buf_len t out ≡ got (out ++ bytes)
read_loop-Holds zero p data_len buf_len t out small (last pos below end len some_bytes fits content)
      room e =
    absurd (omega arith)
read_loop-Holds zero p data_len buf_len t out small (more pos below inner len full content h) room
      e =
    absurd (omega arith)
read_loop-Holds (suc fuel) p data_len buf_len t out small
      (last {bytes} pos below end len some_bytes fits content) room e =
    read_round fuel p data_len buf_len t out bytes pos below (omega arith) whole content
    ∙ rw end (stop fuel)
  where
    whole : block_len t p ≡ length bytes
    whole =
        let small : ltb (block_data_len t) (length bytes) ≡ false = ground arith in
        unfold block_len in rw (end, len) (rw small)

    stop :
        (k : ℕ)
        → read_loop k 0 (data_len + length bytes) buf_len t (out ++ bytes) ≡ got (out ++ bytes)
    stop zero = unfold read_loop in refl
    stop (suc k) = unfold read_loop in refl
read_loop-Holds (suc fuel) p data_len buf_len t out small
      (more {ps} {front} {rest} pos below inner len full content h) room e =
    read_round fuel p data_len buf_len t out front pos below (omega arith) whole (rw full content)
    ∙ read_loop-Holds fuel _ (data_len + length front) buf_len t (out ++ front) small h
        (omega arith) (omega arith)
    ∙ ap got (append_assoc out front rest)
  where
    whole : block_len t p ≡ length front
    whole =
        let linked : ((t.blocks p).next == 0) ≡ false = ground arith in
        let exact : block_data_len t % 2 ^ 16 ≡ block_data_len t = omega arith in
        unfold block_len in rw linked (exact ∙ sym full)

pub Holds-nonempty :
    {bl n p : ℕ} {m : ℕ → Block} {ps bytes : List ℕ} → Holds bl n m p ps bytes → 1 ≤ length ps
Holds-nonempty (last pos below end len some_bytes fits content) = omega arith
Holds-nonempty (more pos below inner len full content h) = omega arith

-- GetData into a buffer with room for every block of the chain returns the bytes that it holds, where
-- a block has fewer than 2 ^ 16 bytes for data.
pub get_data-Holds :
    (t : Table) (p buf_len : ℕ) {ps bytes : List ℕ}
    → t.ready ≡ true
    → 0 < block_data_len t
    → block_data_len t < 2 ^ 16
    → Holds (block_data_len t) t.all_block_count t.blocks p ps bytes
    → length ps * block_data_len t ≤ buf_len
    → get_data t p buf_len ≡ got bytes
unfolding get_data
get_data-Holds t p buf_len {ps} {bytes} ready pos small h room =
    if_false (unread 1) _ enough
    ∙ if_true _ (unread 1) ready
    ∙ read_loop-Holds (buf_len + 1) p 0 buf_len t [] small h (omega arith) rounds
  where
    one_block : block_data_len t ≤ length ps * block_data_len t
    one_block = grind (arith, Holds-nonempty h)

    enough : ltb buf_len (block_data_len t) ≡ false
    enough = ltb-false _ _ (le_trans one_block room)

    rounds : length ps ≤ buf_len + 1
    rounds = grind arith

-- What the loop still may do: nothing, or copy bytes for which there is room, with enough fuel.
abbrev Bounded : (fuel next data_len buf_len : ℕ) → Type 0
Bounded fuel next data_len buf_len =
    (next ≡ 0) ⊎ ((buf_len < data_len + fuel) × (data_len ≤ buf_len))
