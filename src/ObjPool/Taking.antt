-- ===== src/ObjPool/Taking.antt =====
-- The object that New(), New(first) and NewFront of knv/obj_pool.h begin with, and the lists that
-- take it.
use mysql_proxy.Common.{
  not_null, ℕ, ◌≡◌, sym, ap, ◌∙◌, List, [], ◌∷◌, ◌++◌, append-nil, Option, none, some, update, All,
  ◌==◌, if_true, if_false,
}
use mathlib.Core.Path.{subst}
use mysql_proxy.ObjPool.Objects.{ObjPool, Held, construct, obtain}
use mysql_proxy.Common.Removed.{NotIn, Distinct, there, Removed-middle, Distinct-Removed}
use mysql_proxy.Common.Rings.{Links, Links-same, Ring-next, Ring-prev}
use mysql_proxy.ObjPool.Linking.{Listed}
use mysql_proxy.ObjPool.Lists.{Lists, Obtains, reused, grown, Represents}

-- The free objects are linked as before when none of them is touched.
pub untouched :
    (next next' : ℕ → ℕ) (xs : List ℕ) (fs : List ℕ)
    → ((y : ℕ) → NotIn y xs → next' y ≡ next y)
    → All (λ y. NotIn y xs) fs
    → All (λ y. next' y ≡ next y) fs
untouched next next' xs [] others out = tt
untouched next next' xs (y ∷ fs) others out =
    (others y out.0, untouched next next' xs fs others out.1)

module _ {ℓ} {A : Type ℓ} where
  pub Listed-Represents :
      (m : ObjPool A) (c : ℕ → A) (touched xs fs : List ℕ) (h : Held A)
      → Listed m touched xs h
      → Links m.next fs m.obj_freelist 0
      → m.content ≡ c
      → All (λ y. NotIn y touched) fs
      → Distinct (0 ∷ xs ++ fs)
      → Represents h (record { listed = xs; free = fs; content = c })
  Listed-Represents m c touched xs fs h l unused same out apart = record {
    ring = l.ring;
    unused =
        subst (λ p. Links h.pool.next fs p 0) (sym l.obj_freelist)
          (Links-same m.next h.pool.next fs m.obj_freelist 0
            (untouched m.next h.pool.next touched fs l.others out) unused);
    same = l.content ∙ same;
    apart = apart;
  }

module _ {ℓ} {A : Type ℓ} (blank : A) (release : A → A) where
  -- The pool without the object that was obtained, which stands in no list.
  pub record ObtainsFrom (fresh : Option ℕ) (h : Held A) (o : ℕ) (s : Lists A) : Type ℓ where
    pub pool : ObjPool A
    pub gives : obtain blank release fresh h.pool ≡ some (o, pool)
    pub rest : Represents (record { first = h.first; pool = pool }) s
    pub alone : NotIn o (0 ∷ s.listed ++ s.free)

  pub Obtains-From :
      {fresh : Option ℕ} {o : ℕ} {s s' : Lists A} (h : Held A)
      → Obtains blank release fresh s o s'
      → Represents h s
      → ObtainsFrom fresh h o s'
  unfolding obtain construct
  Obtains-From {s} h (reused f fs free) v =
      let unused : Links h.pool.next (f ∷ fs) h.pool.obj_freelist 0 =
        subst (λ k. Links h.pool.next k h.pool.obj_freelist 0) free v.unused in
      let (out, apart) =
        Distinct-Removed (there 0 (Removed-middle f s.listed fs))
          (subst (λ k. Distinct (0 ∷ s.listed ++ k)) free v.apart) in
      let head : h.pool.obj_freelist ≡ f = unused.0 in
      record {
        pool = record (h.pool) { obj_freelist = h.pool.next f };
        gives =
            if_false _ _ (ap (λ k. k == 0) head ∙ not_null f (λ e. out.0 (sym e)))
            ∙ ap (λ k. some (k, record (h.pool) { obj_freelist = h.pool.next k })) head;
        rest = record { ring = v.ring; unused = unused.1; same = v.same; apart = apart };
        alone = out;
      }
  Obtains-From {s} h (grown a found free out) v =
      let empty : h.pool.obj_freelist ≡ 0 =
        subst (λ k. Links h.pool.next k h.pool.obj_freelist 0) free v.unused in
      record {
        pool = record (h.pool) {
          prev = update h.pool.prev a 0;
          next = update h.pool.next a 0;
          content = update h.pool.content a blank;
        };
        gives =
            if_true _ _ (ap (λ k. k == 0) empty) ∙ ap (λ k. construct blank release h.pool k) found;
        rest = record {
          ring =
              Ring-prev _ h.pool.prev a 0 h.first s.listed out.1
                (Ring-next h.pool.next h.pool.prev a 0 h.first s.listed out.1 v.ring);
          unused =
              subst (λ k. Links (update h.pool.next a 0) k h.pool.obj_freelist 0) (sym free) empty;
          same = ap (λ c. update c a blank) v.same;
          apart = v.apart;
        };
        alone =
            subst (λ k. NotIn a (0 ∷ k))
              (sym (append-nil s.listed) ∙ ap (λ k. s.listed ++ k) (sym free)) out;
      }

  pub obtain-none :
      (h : Held A) (s : Lists A)
      → s.free ≡ []
      → Represents h s
      → obtain blank release none h.pool ≡ none
  unfolding obtain construct
  obtain-none h s free v =
      if_true _ _
        (ap (λ k. k == 0) (subst (λ k. Links h.pool.next k h.pool.obj_freelist 0) free v.unused))
