-- ===== src/ObjPool/Returning.antt =====
-- Delete(obj), the end of Detach, and DeleteAll of knv/obj_pool.h: objects outside the lists.
use mysql_proxy.Common.{
  not_null, ℕ, zero, suc, ◌≤◌, ◌≡◌, ◌≢◌, refl, sym, ap, ◌∙◌, List, [], ◌∷◌, ◌++◌, arith, some,
  update, update_self, ◌==◌, if_true, if_false, length,
}
use mathlib.Core.Path.{subst}
use mysql_proxy.ObjPool.Objects.{
  ObjPool, Held, delete_alone, delete_all, add_to_free_list, release_from, put_back,
}
use mysql_proxy.Common.Removed.{
  NotIn, Distinct, there, Removed-middle, Distinct-inserted, NotIn-append,
}
use mysql_proxy.Common.Rings.{Links, Ring, Links-update, Ring-next, Ring-prev, Links-join}
use mysql_proxy.ObjPool.Lists.{Lists, released, Represents}

module _ {ℓ} {A : Type ℓ} (blank : A) (release : A → A) where
  -- The members of an object that stands in no list do not matter.
  pub Represents-update :
      (h : Held A) (s : Lists A) (o v w : ℕ)
      → Represents h s
      → NotIn o (0 ∷ s.listed ++ s.free)
      → Represents
          (record {
            first = h.first;
            pool = record (h.pool) { next = update h.pool.next o v; prev = update h.pool.prev o w };
          })
          s
  Represents-update h s o v w r out =
      let (l, f) = NotIn-append o s.listed s.free out.1 in
      record {
        ring =
            Ring-prev _ h.pool.prev o w h.first s.listed l
              (Ring-next h.pool.next h.pool.prev o v h.first s.listed l r.ring);
        unused = Links-update h.pool.next o v s.free h.pool.obj_freelist 0 f r.unused;
        same = r.same;
        apart = r.apart;
      }

  pub delete_alone-Represents :
      (h : Held A) (s : Lists A) (o : ℕ)
      → Represents h s
      → NotIn o (0 ∷ s.listed ++ s.free)
      → Represents
          (record { first = h.first; pool = delete_alone blank release h.pool o })
          (record s { free = o ∷ s.free; content = update s.content o (release (s.content o)) })
  unfolding delete_alone
  delete_alone-Represents h s o r out =
      let (l, f) = NotIn-append o s.listed s.free out.1 in
      record {
        ring = Ring-next h.pool.next h.pool.prev o h.pool.obj_freelist h.first s.listed l r.ring;
        unused = (
          refl,
          subst (λ k. Links (update h.pool.next o h.pool.obj_freelist) s.free k 0)
              (sym (update_self h.pool.next o h.pool.obj_freelist))
              (Links-update h.pool.next o h.pool.obj_freelist s.free h.pool.obj_freelist 0 f
                r.unused),
        );
        same = ap (λ (c : ℕ → A). update c o (release (c o))) r.same;
        apart = Distinct-inserted (there 0 (Removed-middle o s.listed s.free)) out r.apart;
      }

  -- The loop of DeleteAll releases every object of the list.
  released_all :
      (rounds : ℕ) (m : ObjPool A) (xs : List ℕ) (p : ℕ)
      → length xs ≤ rounds
      → Links m.next xs p 0
      → NotIn 0 xs
      → release_from blank release rounds m p
        ≡ some (record m { content = released blank release xs m.content })
  unfolding release_from
  released_all zero m [] p enough l nulls = if_true _ _ (ap (λ k. k == 0) l)
  released_all (suc rounds) m [] p enough l nulls = if_true _ _ (ap (λ k. k == 0) l)
  released_all zero m (x ∷ xs) p enough l nulls = absurd (omega arith)
  released_all (suc rounds) m (x ∷ xs) p enough l nulls =
      if_false _ _ (ap (λ k. k == 0) l.0 ∙ not_null x nulls.0)
      ∙ ap
          (λ k.
            release_from blank release rounds
              (record m { content = update m.content k (release (m.content k)) }) (m.next k))
          l.0
      ∙ released_all rounds (record m { content = update m.content x (release (m.content x)) }) xs
          (m.next x) (omega arith) l.1 nulls.1

  pub delete_all-Represents :
      (rounds : ℕ) (h : Held A) (s : Lists A)
      → Represents h s
      → length s.listed ≤ rounds
      → s.listed ≢ []
      → (h' : Held A) × (delete_all blank release rounds h ≡ some h')
        × Represents h' (record {
          listed = [];
          free = s.listed ++ s.free;
          content = released blank release s.listed s.content;
        })
  unfolding delete_all put_back add_to_free_list
  delete_all-Represents rounds h s r enough some_listed =
      at s.listed r.ring r.apart enough some_listed
    where
      at :
          (xs : List ℕ)
          → Ring h.pool.next h.pool.prev h.first xs
          → Distinct (0 ∷ xs ++ s.free)
          → length xs ≤ rounds
          → xs ≢ []
          → (h' : Held A) × (delete_all blank release rounds h ≡ some h')
            × Represents h' (record {
              listed = [];
              free = xs ++ s.free;
              content = released blank release xs s.content;
            })
      at [] ring apart enough inner = absurd (inner refl)
      at (x ∷ xs) (e, l, p, b) apart enough inner = (
        record {
          first = 0;
          pool =
              add_to_free_list blank release
                (record (h.pool) { content = released blank release (x ∷ xs) h.pool.content })
                h.first;
        },
        ap (λ k. put_back blank release k h.first)
            (released_all rounds h.pool (x ∷ xs) h.first enough (e, l)
              (NotIn-append 0 (x ∷ xs) s.free apart.0).0),
        record {
          ring = refl;
          unused =
              subst
                (λ k.
                  Links (update h.pool.next (h.pool.prev k) h.pool.obj_freelist) (x ∷ xs ++ s.free)
                    k 0)
                (sym e)
                (
                  refl,
                  subst
                      (λ k.
                        Links (update h.pool.next k h.pool.obj_freelist) (xs ++ s.free)
                          (update h.pool.next k h.pool.obj_freelist x) 0)
                      (sym p)
                      (Links-join h.pool.next h.pool.obj_freelist x xs s.free l r.unused apart.1),
                );
          same = ap (released blank release (x ∷ xs)) r.same;
          apart = apart;
        },
      )
