-- ===== src/MemPool/Pool.antt =====
-- UcMem and UcMemPool of knv/mem_pool.h and knv/mem_pool.cc.
use mysql_proxy.Common.{
  ℕ, zero, suc, ◌+◌, ◌-◌, ◌*◌, ◌/◌, ◌%◌, ◌^◌, bit_and, Bool, true, false, Option, none, some, List,
  [], ◌∷◌, ltb, leb, if◌then◌else◌,
}

-- UcMem: the address of its buffer, or NULL.
pub record Mem : Type 0 where
  pub buf : Option ℕ

-- UcMemPool. `kept` are the objects of its ObjPool, the one that New hands out next in front.
pub record MemPool : Type 0 where
  pub sz_each : ℕ
  pub sz_total : ℕ
  pub sz_free : ℕ
  pub sz_max : ℕ
  pub kept : List Mem

-- __sync_add_and_fetch and __sync_sub_and_fetch on 64 bits.
abbrev pub add_fetch : ℕ → ℕ → ℕ
add_fetch a b = (a + b) % 2 ^ 64

abbrev pub sub_fetch : ℕ → ℕ → ℕ
sub_fetch a b = (a + 2 ^ 64 - b % 2 ^ 64) % 2 ^ 64

-- `v < 0` for a long.
abbrev pub is_negative : ℕ → Bool
is_negative v = leb (2 ^ 63) v

-- A counter is lowered, and raised again if it is negative then.
unfoldable pub lower : ℕ → ℕ → ℕ
lower a b = let v = sub_fetch a b in if is_negative v then add_fetch v b else v

-- ObjPool::New: the object that was released last, or a new one, if there is memory for it.
unfoldable pub new_object : (fresh : Bool) → List Mem → Option Mem × List Mem
new_object fresh (m ∷ ms) = (some m, ms)
new_object true [] = (some (record { buf = none }), [])
new_object false [] = (none, [])

-- What Alloc returns: the object or NULL, `exceed_limit`, and the pool.
pub record Alloced : Type 0 where
  pub mem : Option Mem
  pub exceed_limit : Bool
  pub pool : MemPool

-- A buffer from malloc for an object without one.
unfoldable pub fill : (malloc : Option ℕ) → MemPool → Mem → Alloced
fill none p m = record { mem = none; exceed_limit = false; pool = record p { kept = m ∷ p.kept } }
fill (some a) p m = record {
  mem = some (record { buf = some a });
  exceed_limit = false;
  pool = record p { sz_total = add_fetch p.sz_total p.sz_each };
}

-- The object that New returned, taken off the pool.
unfoldable pub hand_out : (malloc : Option ℕ) → MemPool → Mem → Option ℕ → Alloced
hand_out malloc p m none =
    if ltb p.sz_max (add_fetch p.sz_total p.sz_each)
    then record { mem = none; exceed_limit = true; pool = record p { kept = m ∷ p.kept } }
    else fill malloc p m
hand_out malloc p m (some a) = record {
  mem = some m;
  exceed_limit = false;
  pool = record p {
    sz_free = lower p.sz_free p.sz_each;
    sz_total = add_fetch p.sz_total p.sz_each;
  };
}

unfoldable pub taken_out : (malloc : Option ℕ) → MemPool → Option Mem × List Mem → Alloced
taken_out malloc p (none, kept) = record {
  mem = none;
  exceed_limit = false;
  pool = record p { kept = kept };
}
taken_out malloc p (some m, kept) = hand_out malloc (record p { kept = kept }) m m.buf

-- UcMemPool::Alloc; `fresh` is whether `new` succeeds, and `malloc` what malloc returns.
unfoldable pub alloc : (fresh : Bool) (malloc : Option ℕ) → MemPool → Alloced
alloc fresh malloc p = taken_out malloc p (new_object fresh p.kept)

-- UcMemPool::Free
unfoldable pub free : MemPool → Mem → MemPool
free p m = record p {
  kept = m ∷ p.kept;
  sz_free = add_fetch p.sz_free p.sz_each;
  sz_total = lower p.sz_total p.sz_each;
}

-- `((resv_max - sz_allocated) / 2) & (~(sz_each - 1))`
unfoldable pub unallocated_part : MemPool → (allocated : ℕ) → ℕ
unallocated_part p allocated =
    bit_and ((p.sz_max - allocated) / 2) (2 ^ 64 - 1 - sub_fetch p.sz_each 1)

-- The free bytes that a pool may keep.
unfoldable pub max_free : MemPool → ℕ
max_free p = if ltb p.sz_total (p.sz_max / 4) then p.sz_total else p.sz_max / 4

-- What the second loop of Shrink does with the next object: the pool, and whether it goes on. An
-- object whose buffer is freed goes back in front.
unfoldable pub drop_object : MemPool → Mem → List Mem → Option ℕ → MemPool × Bool
drop_object p m kept none = (record p { kept = m ∷ kept }, false)
drop_object p m kept (some a) =
    (record p { kept = record { buf = none } ∷ kept; sz_free = lower p.sz_free p.sz_each }, true)

unfoldable pub drop_buffer : MemPool → Option Mem × List Mem → MemPool × Bool
drop_buffer p (none, kept) = (record p { kept = kept }, false)
drop_buffer p (some m, kept) = drop_object p m kept m.buf

-- A round of the second loop, with what was done to the next object.
unfoldable pub drop_round :
    (again : MemPool → Option (ℕ × MemPool)) (shk : ℕ)
    → MemPool
    → MemPool × Bool
    → Option (ℕ × MemPool)
drop_round again shk p (p', true) = if ltb (max_free p) p.sz_free then again p' else some (shk, p)
drop_round again shk p (p', false) =
    if ltb (max_free p) p.sz_free then some (shk, p') else some (shk, p)

-- The second loop, with `shk` bytes freed.
unfoldable pub drop_loop : (rounds : ℕ) (fresh : Bool) (shk : ℕ) → MemPool → Option (ℕ × MemPool)
drop_loop zero fresh shk p = none
drop_loop (suc rounds) fresh shk p =
    drop_round (drop_loop rounds fresh (add_fetch shk p.sz_each)) shk p
      (drop_buffer p (new_object fresh p.kept))

abbrev pub finish_shrink : Option (ℕ × MemPool) → Option (ℕ × MemPool)
finish_shrink none = none
finish_shrink (some (shk, p)) = some (shk, record p { sz_max = lower p.sz_max shk })

-- UcMemPool::Shrink: the bytes that it gives up. `none` is a loop that does not end within its rounds.
unfoldable pub shrink : (rounds : ℕ) (fresh : Bool) → MemPool → Option (ℕ × MemPool)
shrink rounds fresh p =
    let allocated = add_fetch p.sz_total p.sz_free in
    let shk = unallocated_part p allocated in
    let dropped = finish_shrink (drop_loop rounds fresh 0 p) in
    if ltb (allocated * 2 % 2 ^ 64) p.sz_max
    then (if ltb p.sz_each shk
        then some (shk, record p { sz_max = sub_fetch p.sz_max shk })
        else dropped)
    else dropped
