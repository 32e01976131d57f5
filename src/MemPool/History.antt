-- ===== src/MemPool/History.antt =====
-- A UcMemPool of knv/mem_pool.cc through every history of its calls.
use mysql_proxy.Common.{
  ℕ, suc, ◌+◌, ◌*◌, ◌^◌, ◌<◌, ◌≡◌, refl, sym, ap, ◌∙◌, Bool, Option, none, some, List, [], ◌∷◌,
  ◌++◌, arith, length, All,
}
use mathlib.Core.Path.{subst}
use mathlib.Core.Option.{some-injective}
use mysql_proxy.MemPool.Pool.{Mem, MemPool, alloc, free, shrink}
use mysql_proxy.MemPool.Accounting.{idle, Counted, handed, alloc-Counted, free-Counted}
use mysql_proxy.MemPool.Shrinking.{shrink-Shrunk}
use mysql_proxy.MemPool.Sized.{HasBuffer, alloc-HasBuffer}

-- One more buffer stays below 2 ^ 63 bytes, as any buffer that malloc finds does.
abbrev Room : MemPool → List Mem → Type 0
Room p out = (length out + idle p.kept + 1) * p.sz_each < 2 ^ 63

-- The calls on a pool of which the objects `out` are handed out. An object is released once.
pub data Step (p : MemPool) (out : List Mem) (p' : MemPool) (out' : List Mem) : Type 0 where
  got :
      (fresh : Bool) (malloc : Option ℕ) (m : Mem)
      → Room p out
      → (alloc fresh malloc p).mem ≡ some m
      → p' ≡ (alloc fresh malloc p).pool
      → out' ≡ m ∷ out
      → Step p out p' out'
  refused :
      (fresh : Bool) (malloc : Option ℕ)
      → Room p out
      → (alloc fresh malloc p).mem ≡ none
      → p' ≡ (alloc fresh malloc p).pool
      → out' ≡ out
      → Step p out p' out'
  released :
      (before after : List Mem) (m : Mem)
      → out ≡ before ++ m ∷ after
      → p' ≡ free p m
      → out' ≡ before ++ after
      → Step p out p' out'
  shrunk :
      (fresh : Bool) (bytes : ℕ)
      → shrink 2 fresh p ≡ some (bytes, p')
      → out' ≡ out
      → Step p out p' out'

pub data Reach (p : MemPool) : MemPool → List Mem → Type 0 where
  start : Reach p p []
  later :
      {p' p'' : MemPool} {out out' : List Mem}
      → Reach p p' out
      → Step p' out p'' out'
      → Reach p p'' out'

-- The counters are exact, and every object that is handed out has a buffer.
pub record Inv (p : MemPool) (out : List Mem) : Type 0 where
  pub counted : Counted (length out) p
  pub buffers : All (λ m. HasBuffer (some m)) out

All-middle :
    (before after : List Mem) (m : Mem)
    → All (λ m. HasBuffer (some m)) (before ++ m ∷ after)
    → HasBuffer (some m) × All (λ m. HasBuffer (some m)) (before ++ after)
All-middle [] after m all = all
All-middle (b ∷ before) after m all =
    let rest = All-middle before after m all.1 in (rest.0, (all.0, rest.1))

length-middle :
    (before after : List Mem) (m : Mem)
    → length (before ++ m ∷ after) ≡ suc (length (before ++ after))
length-middle [] after m = refl
length-middle (b ∷ before) after m = ap suc (length-middle before after m)

alloc-Inv :
    (fresh : Bool) (malloc : Option ℕ) (p : MemPool) (out : List Mem) (o : Option Mem)
    → Room p out
    → (alloc fresh malloc p).mem ≡ o
    → Inv p out
    → Counted (handed o (length out)) (alloc fresh malloc p).pool × HasBuffer o
alloc-Inv fresh malloc p out o room given v = (
  subst (λ r. Counted (handed r (length out)) (alloc fresh malloc p).pool) given
      (alloc-Counted fresh malloc p (length out) v.counted room),
  subst HasBuffer given (alloc-HasBuffer fresh malloc p).0,
)

free-Inv :
    (p : MemPool) (before after : List Mem) (m : Mem)
    → Inv p (before ++ m ∷ after)
    → Inv (free p m) (before ++ after)
free-Inv p before after m v =
    let (b, rest) = All-middle before after m v.buffers in
    record {
      counted =
          free-Counted p m b.0 (length (before ++ after)) b.1
            (subst (λ n. Counted n p) (length-middle before after m) v.counted);
      buffers = rest;
    }

shrink-Inv :
    (fresh : Bool) (bytes : ℕ) (p p' : MemPool) (out : List Mem)
    → shrink 2 fresh p ≡ some (bytes, p')
    → Inv p out
    → Inv p' out
shrink-Inv fresh bytes p p' out ends v =
    let s = shrink-Shrunk 0 fresh (length out) p v.counted in
    let same : s.pool ≡ p' = ap (λ r. r.1) (some-injective _ _ (sym s.ends ∙ ends)) in
    record { counted = subst (Counted (length out)) same s.counted; buffers = v.buffers }

Step-Inv : {p p' : MemPool} {out out' : List Mem} → Step p out p' out' → Inv p out → Inv p' out'
Step-Inv {p} {p'} {out} {out'} (got fresh malloc m room given same same') v =
    let (c, b) = alloc-Inv fresh malloc p out (some m) room given v in
    rw (same, same') (record { counted = c; buffers = (b, v.buffers) })
Step-Inv {p} {p'} {out} {out'} (refused fresh malloc room given same same') v =
    rw (same, same')
      (record { counted = (alloc-Inv fresh malloc p out none room given v).0; buffers = v.buffers })
Step-Inv {p} {p'} {out} {out'} (released before after m mine same same') v =
    rw (same, same') (free-Inv p before after m (subst (Inv p) mine v))
Step-Inv {p} {p'} {out} {out'} (shrunk fresh bytes ends same') v =
    rw same' (shrink-Inv fresh bytes p p' out ends v)

-- Through every history of a pool that begins with counters at 0 and no objects, in which an object
-- is released once and the buffers stay below 2 ^ 63 bytes: sz_total is the size of the buffers handed
-- out, sz_free that of the buffers that the pool keeps, so that neither is ever lowered below 0, and
-- every object that is handed out has a buffer.
pub Reach-Inv :
    {p p' : MemPool} {out : List Mem}
    → p.sz_total ≡ 0
    → p.sz_free ≡ 0
    → p.kept ≡ []
    → Reach p p' out
    → Inv p' out
Reach-Inv {p} zero_total zero_free empty start = record {
  counted = record {
    total = omega (arith, zero_total);
    unused = zero_free ∙ sym (none_idle ∙ omega arith);
    room = omega (arith, ap (λ ms. (0 + idle ms) * p.sz_each) empty);
  };
  buffers = tt;
}
  where
    none_idle : idle p.kept * p.sz_each ≡ 0 * p.sz_each
    none_idle = ap (λ ms. idle ms * p.sz_each) empty
Reach-Inv zero_total zero_free empty (later r s) =
    Step-Inv s (Reach-Inv zero_total zero_free empty r)
