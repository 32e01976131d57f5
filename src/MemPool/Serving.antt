-- ===== src/MemPool/Serving.antt =====
-- What UcMemManager::Alloc of knv/mem_pool.cc hands out.
use mysql_proxy.Common.{ℕ, ◌≤◌, ◌<◌, ◌≡◌, some}
use mysql_proxy.MemPool.Magic.{magic_size, biggest_magic, TooSmall}
use mysql_proxy.MemPool.Pool.{MemPool}
use mysql_proxy.MemPool.Manager.{Manager, Obtained, direct, pooled, nothing, looping}
use mysql_proxy.MemPool.Sized.{HasBuffer, SizedAt, WellSized}

-- What an allocation of `sz` bytes may return: an object of its own for a size that no class holds; an
-- object with a buffer, of the smallest class that holds `sz`; or NULL. The pools keep their sizes.
abbrev pub Serves : ℕ → Obtained → Type 0
Serves sz (direct n buf g) = (biggest_magic < sz) × (n ≡ sz) × WellSized g
Serves sz (pooled k m g) =
    (sz ≤ magic_size k) × TooSmall k sz × HasBuffer (some m) × SizedAt k (g.pools k) × WellSized g
Serves sz (nothing g) = WellSized g
Serves sz looping = ⊥
