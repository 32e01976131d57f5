-- ===== src/ObjPool/Unlinking.antt =====
-- What Delete(first, obj) and Detach of knv/obj_pool.h begin with: an object is taken off a list.
use mysql_proxy.Common.{
  not_null, eq_self, eq_other, ℕ, ◌≡◌, ◌≢◌, refl, sym, ap, ◌∙◌, List, [], ◌∷◌, arith, inl, inr,
  update, update_self, update_ne, ◌==◌, if◌then◌else◌, if_false, if_true, ==_iff, Bool-cases,
}
use mathlib.Core.Path.{subst}
use mysql_proxy.ObjPool.Objects.{ObjPool, unlink}
use mysql_proxy.Common.Removed.{NotIn, Distinct, Removed, here, there, NotIn-Removed}
use mysql_proxy.Common.Rings.{Ring, Backs-update}
use mysql_proxy.ObjPool.Linking.{Listed}
use mysql_proxy.ObjPool.Without.{before-not, after-not, Links-without, last_without, Backs-without}

module _ {ℓ} {A : Type ℓ} (blank : A) (release : A → A) (m : ObjPool A) (o : ℕ) where
  -- The first object of a list is left out.
  first_unlinked :
      (xs : List ℕ)
      → Ring m.next m.prev o (o ∷ xs)
      → Distinct (0 ∷ o ∷ xs)
      → Listed m (o ∷ xs) xs (unlink blank release (record { first = o; pool = m }) o)
  unfolding unlink
  first_unlinked xs ring d =
      subst (Listed m (o ∷ xs) xs) (sym (if_true _ _ (eq_self o))) (behind xs ring d)
    where
      behind :
          (xs : List ℕ)
          → Ring m.next m.prev o (o ∷ xs)
          → Distinct (0 ∷ o ∷ xs)
          → Listed m (o ∷ xs) xs (record {
            first = m.next o;
            pool =
                if m.next o == 0
                then m
                else record m { prev = update m.prev (m.next o) (m.prev o) };
          })
      behind [] (e, l, p, b) d =
          subst (λ q. Listed m (o ∷ []) [] (record { first = m.next o; pool = q }))
            (sym (if_true _ _ (ap (λ k. k == 0) l)))
            (record { ring = l; others = λ y out. refl; content = refl; obj_freelist = refl })
      behind (y ∷ ys) (e, l, p, b) d =
          subst
            (λ k. Listed m (o ∷ y ∷ ys) (y ∷ ys) (record {
              first = k;
              pool = if k == 0 then m else record m { prev = update m.prev k (m.prev o) };
            }))
            (sym l.0)
            (subst (λ q. Listed m (o ∷ y ∷ ys) (y ∷ ys) (record { first = y; pool = q }))
              (sym (if_false _ _ (not_null y d.0.1.0)))
              (record {
                ring = (
                  refl,
                  l.1,
                  update_self m.prev y (m.prev o) ∙ p,
                  Backs-update m.prev y (m.prev o) y ys d.1.1.0 b.1,
                );
                others = λ z out. refl;
                content = refl;
                obj_freelist = refl;
              }))

  -- An object behind the first one is left out.
  later_unlinked :
      (x : ℕ) {xs xs' : List ℕ}
      → Removed o xs xs'
      → Ring m.next m.prev x (x ∷ xs)
      → Distinct (0 ∷ x ∷ xs)
      → Listed m (x ∷ xs) (x ∷ xs') (unlink blank release (record { first = x; pool = m }) o)
  unfolding unlink
  later_unlinked x {xs} {xs'} r (e, l, p, b) (nulls, d) =
      subst (Listed m (x ∷ xs) (x ∷ xs')) (sym (if_false _ _ (eq_other o x differs)))
        (elim (Bool-cases (m.next o == 0)) [
          | inl end ↦
              let (p', b') =
                last_without m.next m.prev o x (m.next x) r ((==_iff _ 0).0 end) l b nulls.1 in
              subst left (sym (if_true _ _ end)) (record {
                ring = (
                  refl,
                  Links-without m.next m.prev o x r l b d,
                  update_self m.prev x (m.prev o) ∙ p',
                  Backs-update m.prev x (m.prev o) x xs' kept.0 b',
                );
                others = spared;
                content = refl;
                obj_freelist = refl;
              })
          | inr inner ↦
              let (p', b') =
                Backs-without m.next m.prev o x (m.next x) r (λ q. ground arith) l b
                  (nulls.1, d.1) in
              subst left (sym (if_false _ _ inner)) (record {
                ring = (
                  refl,
                  Links-without m.next m.prev o x r l b d,
                  update_ne m.prev (m.next o) x (m.prev o)
                        (after-not m.next m.prev o x (m.next x) r l ((λ q. nulls.0 (sym q)), d.0))
                      ∙ p
                      ∙ sym p',
                  b',
                );
                others = spared;
                content = refl;
                obj_freelist = refl;
              })
        ])
    where
      kept : NotIn x xs' × (x ≢ o)
      kept = let q = NotIn-Removed r d.0 in (q.1, q.0)

      differs : o ≢ x
      differs q = kept.1 (sym q)

      spared : (y : ℕ) → NotIn y (x ∷ xs) → update m.next (m.prev o) (m.next o) y ≡ m.next y
      spared y out =
          update_ne m.next (m.prev o) y (m.next o) (before-not m.next m.prev o y x r b out)

      left : ObjPool A → Type ℓ
      left q = Listed m (x ∷ xs) (x ∷ xs') (record { first = x; pool = q })

  -- For an object of a list of distinct objects, linked in memory, what is left is the list without
  -- it, linked in memory; no next of an object outside the list changes, and no content.
  pub unlink-Listed :
      (first : ℕ) {xs xs' : List ℕ}
      → Removed o xs xs'
      → Ring m.next m.prev first xs
      → Distinct (0 ∷ xs)
      → Listed m xs xs' (unlink blank release (record { first = first; pool = m }) o)
  unlink-Listed first (here {xs}) (e, l, p, b) d =
      subst (λ f. Listed m (o ∷ xs) xs (unlink blank release (record { first = f; pool = m }) o))
        (sym e) (first_unlinked xs (refl, l, p, b) d)
  unlink-Listed first (there x {xs} {xs'} r) (e, l, p, b) d =
      subst
        (λ f. Listed m (x ∷ xs) (x ∷ xs') (unlink blank release (record { first = f; pool = m }) o))
        (sym e) (later_unlinked x r (refl, l, p, b) d)
