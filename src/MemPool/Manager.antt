-- ===== src/MemPool/Manager.antt =====
-- UcMemManager of knv/mem_pool.h and knv/mem_pool.cc.
use mysql_proxy.Common.{
  ℕ, zero, suc, ◌+◌, ◌-◌, ◌/◌, Bool, true, false, Option, none, some, [], leb, ◌==◌, if◌then◌else◌,
  update,
}
use mysql_proxy.MemPool.Magic.{magic_size, nr_magics, get_magic}
use mysql_proxy.MemPool.Pool.{Mem, MemPool, add_fetch, Alloced, alloc, free, shrink}

-- UcMemManager with `magics[i].pool`.
pub record Manager : Type 0 where
  pub sz_max : ℕ
  pub pools : ℕ → Option MemPool

-- What the system gives in a call: whether `new` succeeds, and what malloc returns.
pub record System : Type 0 where
  pub fresh : Bool
  pub malloc : Option ℕ

abbrev pub set_pool : Manager → ℕ → MemPool → Manager
set_pool g k p = record g { pools = update g.pools k (some p) }

unfoldable pub new_pool : Manager → ℕ → MemPool
new_pool g k = record {
  sz_each = magic_size k;
  sz_total = 0;
  sz_free = 0;
  sz_max = g.sz_max / nr_magics;
  kept = [];
}

unfoldable pub found_pool : (fresh : Bool) → Manager → ℕ → Option MemPool → Option MemPool × Manager
found_pool fresh g k (some p) = (some p, g)
found_pool true g k none = (some (new_pool g k), set_pool g k (new_pool g k))
found_pool false g k none = (none, g)

-- UcMemManager::GetPool: the pool of a class is made when it is first asked for.
unfoldable pub get_pool : (fresh : Bool) → Manager → ℕ → Option MemPool × Manager
get_pool fresh g k = found_pool fresh g k (g.pools k)

-- One pool shrinks; `none` is a Shrink that does not end within its rounds.
abbrev pub keep_pool : Manager → ℕ → Option (ℕ × MemPool) → Option (ℕ × Manager)
keep_pool g k none = none
keep_pool g k (some (shk, p)) = some (shk, set_pool g k p)

unfoldable pub shrink_got :
    (rounds : ℕ) (fresh : Bool) (k : ℕ) → Option MemPool × Manager → Option (ℕ × Manager)
shrink_got rounds fresh k (none, g) = some (0, g)
shrink_got rounds fresh k (some p, g) = keep_pool g k (shrink rounds fresh p)

unfoldable pub shrink_at : (rounds : ℕ) (fresh : Bool) → Manager → ℕ → Option (ℕ × Manager)
shrink_at rounds fresh g k = shrink_got rounds fresh k (get_pool fresh g k)

-- The rest of the loop on the result of one pool, with `shk` bytes before it.
abbrev pub then_shrink :
    (shk : ℕ) → Option (ℕ × Manager) → (ℕ → Manager → Option (ℕ × Manager)) → Option (ℕ × Manager)
then_shrink shk none rest = none
then_shrink shk (some (more, g)) rest = rest (add_fetch shk more) g

-- The pools below `i`, from the largest to the smallest.
unfoldable pub shrink_smaller :
    (rounds : ℕ) (fresh : Bool) (i shk : ℕ) → Manager → Option (ℕ × Manager)
shrink_smaller rounds fresh zero shk g = some (shk, g)
shrink_smaller rounds fresh (suc i) shk g =
    then_shrink shk (shrink_at rounds fresh g i) (λ shk' g'. shrink_smaller rounds fresh i shk' g')

-- The `n` pools above `magic`, from the largest on, until there are enough bytes; then the pools
-- below it.
unfoldable pub shrink_larger :
    (rounds : ℕ) (fresh : Bool) (n magic shk : ℕ) → Manager → Option (ℕ × Manager)
shrink_larger rounds fresh zero magic shk g = shrink_smaller rounds fresh magic shk g
shrink_larger rounds fresh (suc n) magic shk g =
    then_shrink shk (shrink_at rounds fresh g (magic + suc n)) λ shk' g'.
      let rest = shrink_larger rounds fresh n magic shk' g' in
      if leb (magic_size magic) shk' then some (shk', g') else rest

-- UcMemManager::Shrink
unfoldable pub shrink_others :
    (rounds : ℕ) (fresh : Bool) → Manager → (magic : ℕ) → Option (ℕ × Manager)
shrink_others rounds fresh g magic = shrink_larger rounds fresh (nr_magics - 1 - magic) magic 0 g

-- What Alloc returns: an object of its own with what malloc returns for `sz` bytes, an object of the pool of a class, or NULL.
-- `looping` is a Shrink that does not end within its rounds.
pub data Obtained : Type 0 where
  direct : (sz : ℕ) → Option ℕ → Manager → Obtained
  pooled : (k : ℕ) → Mem → Manager → Obtained
  nothing : Manager → Obtained
  looping : Obtained

abbrev pub of_pool : (k : ℕ) → Manager → Option Mem → Obtained
of_pool k g none = nothing g
of_pool k g (some m) = pooled k m g

-- The second attempt, with the bytes that the other pools gave up.
unfoldable pub retry_with : System → (k shk : ℕ) → Manager → Option MemPool → Obtained
retry_with s k shk g none = nothing g
retry_with s k shk g (some p) =
    let a = alloc s.fresh s.malloc (record p { sz_max = add_fetch p.sz_max shk }) in
    of_pool k (set_pool g k a.pool) a.mem

unfoldable pub retry : System → (k : ℕ) → Option (ℕ × Manager) → Obtained
retry s k none = looping
retry s k (some (shk, g)) = if shk == 0 then nothing g else retry_with s k shk g (g.pools k)

-- What follows the first attempt, by its object and `exceed_limit`.
unfoldable pub after_try :
    (rounds : ℕ) → System → (k : ℕ) → Manager → (exceed : Bool) → Option Mem → Obtained
after_try rounds s k g exceed (some m) = pooled k m g
after_try rounds s k g true none = retry s k (shrink_others rounds s.fresh g k)
after_try rounds s k g false none = nothing g

unfoldable pub first_try : (rounds : ℕ) → System → (k : ℕ) → Manager → Alloced → Obtained
first_try rounds s k g a = after_try rounds s k (set_pool g k a.pool) a.exceed_limit a.mem

unfoldable pub alloc_in : (rounds : ℕ) → System → (k : ℕ) → Option MemPool × Manager → Obtained
alloc_in rounds s k (none, g) = nothing g
alloc_in rounds s k (some p, g) = first_try rounds s k g (alloc s.fresh s.malloc p)

unfoldable pub alloc_class : (rounds : ℕ) → System → Manager → (sz : ℕ) → Option ℕ → Obtained
alloc_class rounds s g sz none = if s.fresh then direct sz s.malloc g else nothing g
alloc_class rounds s g sz (some k) = alloc_in rounds s k (get_pool s.fresh g k)

-- UcMemManager::Alloc, with rounds for the loops of Shrink.
unfoldable pub manager_alloc : (rounds : ℕ) → System → Manager → (sz : ℕ) → Obtained
manager_alloc rounds s g sz = alloc_class rounds s g sz (get_magic sz)

-- UcMemManager::Free of an object of the pool `k`. One with a buffer of its own is deleted.
unfoldable pub freed_in : Manager → (k : ℕ) → Mem → Option MemPool → Manager
freed_in g k m none = g
freed_in g k m (some p) = set_pool g k (free p m)

unfoldable pub manager_free : Manager → (k : ℕ) → Mem → Manager
manager_free g k m = freed_in g k m (g.pools k)
