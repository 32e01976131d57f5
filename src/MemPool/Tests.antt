-- ===== src/MemPool/Tests.antt =====
-- Concrete pools, and the theorems at them.
use mysql_proxy.Common.{ℕ, ◌≡◌, refl, true, none, some, [], ◌∷◌, arith}
use mysql_proxy.MemPool.Magic.{magic_size, search_magic, get_magic, Fits, get_magic-Fits}
use mysql_proxy.MemPool.Pool.{
  Mem, MemPool, lower, new_object, fill, hand_out, taken_out, alloc, unallocated_part, max_free,
  drop_object, drop_buffer, drop_round, drop_loop, shrink,
}
use mysql_proxy.MemPool.Accounting.{Counted}
use mysql_proxy.MemPool.Shrinking.{Shrunk, shrink-Shrunk}
use mysql_proxy.MemPool.Manager.{Manager, System}
use mysql_proxy.MemPool.History.{got, Reach, start, later, Inv, Reach-Inv}

magic_of_100 : get_magic 100 ≡ some 1
unfolding get_magic search_magic magic_size
magic_of_100 = refl

get_magic-Fits_example : Fits 100 (get_magic 100)
get_magic-Fits_example = get_magic-Fits 100 (omega arith)

-- A pool of 64 bytes each that keeps three buffers, with one handed out.
abbrev kept_mem : ℕ → Mem
kept_mem a = record { buf = some a }

abbrev three_kept : MemPool
three_kept = record {
  sz_each = 64;
  sz_total = 64;
  sz_free = 192;
  sz_max = 256;
  kept = kept_mem 1 ∷ kept_mem 2 ∷ kept_mem 3 ∷ [];
}

three_kept-Counted : Counted 1 three_kept
three_kept-Counted = record { total = omega arith; unused = omega arith; room = omega arith }

shrink-Shrunk_example : Shrunk 1 three_kept (shrink 2 true three_kept)
shrink-Shrunk_example = shrink-Shrunk 0 true 1 three_kept three_kept-Counted

-- Of three unused buffers one is freed, though only 64 bytes may be kept; the next Alloc meets the
-- object without a buffer, and asks malloc for one.
one_is_freed :
    shrink 9 true three_kept
    ≡ some (
      64,
      record {
        sz_each = 64;
        sz_total = 64;
        sz_free = 128;
        sz_max = 192;
        kept = record { buf = none } ∷ kept_mem 2 ∷ kept_mem 3 ∷ [];
      },
    )
unfolding shrink drop_loop drop_round drop_buffer drop_object new_object max_free unallocated_part
    lower
one_is_freed = refl

abbrev no_pools : Manager
no_pools = record { sz_max = 9000; pools = λ _. none }

abbrev system : System
system = record { fresh = true; malloc = some 1 }

abbrev empty_pool : MemPool
empty_pool = record { sz_each = 64; sz_total = 0; sz_free = 0; sz_max = 256; kept = [] }

one_out : Reach empty_pool (alloc true (some 1) empty_pool).pool (kept_mem 1 ∷ [])
unfolding alloc taken_out new_object hand_out fill
one_out = later start (got true (some 1) (kept_mem 1) (omega arith) refl refl refl)

Reach-Inv_example : Inv (alloc true (some 1) empty_pool).pool (kept_mem 1 ∷ [])
Reach-Inv_example = Reach-Inv refl refl refl one_out
