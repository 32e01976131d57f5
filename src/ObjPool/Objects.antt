-- ===== src/ObjPool/Objects.antt =====
-- ObjPool of knv/obj_pool.h over the objects of knv/obj_base.h. An object is named by its address,
-- and NULL is 0.
use mysql_proxy.Common.{ℕ, zero, suc, Option, none, some, update, ◌==◌, if◌then◌else◌}

-- The members of the objects in memory, and the pool. `content` is what obj_type adds to ObjBase.
pub record ObjPool {ℓ} (A : Type ℓ) : Type ℓ where
  pub prev : ℕ → ℕ
  pub next : ℕ → ℕ
  pub content : ℕ → A
  pub obj_freelist : ℕ

-- What an operation leaves: the pointer `first` of the caller to a list, and the pool.
pub record Held {ℓ} (A : Type ℓ) : Type ℓ where
  pub first : ℕ
  pub pool : ObjPool A

-- `blank` is the content of `new obj_type()`, and `release` what ReleaseObject does to it, for a
-- type whose ReleaseObject leaves the pool alone.
module _ {ℓ} {A : Type ℓ} (blank : A) (release : A → A) where
  -- `o->next = n` and `o->prev = n`
  abbrev write_next : ObjPool A → ℕ → ℕ → ObjPool A
  write_next m o n = record m { next = update m.next o n }

  abbrev write_prev : ObjPool A → ℕ → ℕ → ObjPool A
  write_prev m o n = record m { prev = update m.prev o n }

  -- `new obj_type()`, which finds memory at an address or not
  unfoldable pub construct : ObjPool A → Option ℕ → Option (ℕ × ObjPool A)
  construct m none = none
  construct m (some o) = some (
    o,
    record m {
      prev = update m.prev o 0;
      next = update m.next o 0;
      content = update m.content o blank;
    },
  )

  -- The object that the three functions New begin with.
  unfoldable pub obtain : (fresh : Option ℕ) → ObjPool A → Option (ℕ × ObjPool A)
  obtain fresh m =
      if m.obj_freelist == 0
      then construct m fresh
      else some (m.obj_freelist, record m { obj_freelist = m.next m.obj_freelist })

  -- `out:` of New()
  unfoldable pub detached : ObjPool A → Option (ℕ × ObjPool A) → Option ℕ × ObjPool A
  detached m none = (none, m)
  detached m (some (o, m')) = (some o, write_prev (write_next m' o 0) o o)

  -- ObjPool::New()
  unfoldable pub new_alone : (fresh : Option ℕ) → ObjPool A → Option ℕ × ObjPool A
  new_alone fresh m = detached m (obtain fresh m)

  -- `out:` of New(first)
  unfoldable pub link_last : ℕ → ℕ → ObjPool A → Held A
  link_last o first m =
      let m' = write_next m o 0 in
      let lst = m'.prev first in
      if first == 0 then record { first = o; pool = write_prev m' o o } else record {
        first = first;
        pool = write_prev (write_prev (write_next m' lst o) o lst) first o;
      }

  -- `out:` of NewFront
  unfoldable pub link_first : ℕ → ℕ → ObjPool A → Held A
  link_first o first m =
      let m' = write_next m o first in
      record {
        first = o;
        pool =
            if first == 0
            then write_prev m' o o
            else write_prev (write_prev m' o (m'.prev first)) first o;
      }

  unfoldable pub link_new :
      (ℕ → ℕ → ObjPool A → Held A) → Held A → Option (ℕ × ObjPool A) → Option ℕ × Held A
  link_new link h none = (none, h)
  link_new link h (some (o, m)) = (some o, link o h.first m)

  -- ObjPool::New(first) and ObjPool::NewFront
  unfoldable pub new_last : (fresh : Option ℕ) → Held A → Option ℕ × Held A
  new_last fresh h = link_new link_last h (obtain fresh h.pool)

  unfoldable pub new_front : (fresh : Option ℕ) → Held A → Option ℕ × Held A
  new_front fresh h = link_new link_first h (obtain fresh h.pool)

  -- ObjPool::Delete(obj)
  unfoldable pub delete_alone : ObjPool A → ℕ → ObjPool A
  delete_alone m o = record m {
    content = update m.content o (release (m.content o));
    next = update m.next o m.obj_freelist;
    obj_freelist = o;
  }

  -- What Delete(first, obj) and Detach begin with.
  unfoldable pub unlink : Held A → ℕ → Held A
  unlink h o =
      let m = h.pool in
      let p = m.prev o in
      let n = m.next o in
      let m' = write_next m p n in
      if o == h.first
      then record { first = n; pool = if n == 0 then m else write_prev m n (m.prev h.first) }
      else record {
        first = h.first;
        pool = if n == 0 then write_prev m' h.first p else write_prev m' n p;
      }

  -- ObjPool::Delete(first, obj)
  unfoldable pub delete : Held A → ℕ → Held A
  delete h o = let h' = unlink h o in record h' { pool = delete_alone h'.pool o }

  -- ObjPool::Detach
  unfoldable pub detach : Held A → ℕ → Held A
  detach h o = let h' = unlink h o in record h' { pool = write_prev (write_next h'.pool o 0) o 0 }

  -- ObjPool::AddToFreeList
  unfoldable pub add_to_free_list : ObjPool A → ℕ → ObjPool A
  add_to_free_list m o = record (write_next m (m.prev o) m.obj_freelist) { obj_freelist = o }

  -- The loop of DeleteAll over the list.
  unfoldable pub release_from : (rounds : ℕ) → ObjPool A → ℕ → Option (ObjPool A)
  release_from zero m o = if o == 0 then some m else none
  release_from (suc rounds) m o =
      let rest =
        release_from rounds (record m { content = update m.content o (release (m.content o)) })
          (m.next o) in
      if o == 0 then some m else rest

  unfoldable pub put_back : Option (ObjPool A) → ℕ → Option (Held A)
  put_back none first = none
  put_back (some m) first = some (record { first = 0; pool = add_to_free_list m first })

  -- ObjPool::DeleteAll, on a list that is not empty. `none` is a list longer than its rounds.
  unfoldable pub delete_all : (rounds : ℕ) → Held A → Option (Held A)
  delete_all rounds h = put_back (release_from rounds h.pool h.first) h.first
