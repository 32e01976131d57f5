-- ===== src/ObjPool/Linking.antt =====
-- New(first) and NewFront of knv/obj_pool.h: an object is put behind a list or in front of it.
use mysql_proxy.Common.{
  not_null, ℕ, ◌≡◌, refl, sym, ◌∙◌, List, [], ◌∷◌, ◌++◌, update, update_self, update_ne, if_false,
}
use mathlib.Core.Path.{subst}
use mysql_proxy.ObjPool.Objects.{ObjPool, Held, link_last, link_first}
use mysql_proxy.Common.Removed.{NotIn, Distinct}
use mysql_proxy.Common.Rings.{
  Links, Ring, NotIn-last, last-snoc, Backs-update, Links-update, Backs-snoc, Links-snoc,
}

-- The list that is left in `h`, where nothing but the links of `touched` has changed in the pool.
pub record Listed {ℓ} {A : Type ℓ} (m : ObjPool A) (touched : List ℕ) (xs : List ℕ) (h : Held A)
    : Type ℓ where
  pub ring : Ring h.pool.next h.pool.prev h.first xs
  pub others : (y : ℕ) → NotIn y touched → h.pool.next y ≡ m.next y
  pub content : h.pool.content ≡ m.content
  pub obj_freelist : h.pool.obj_freelist ≡ m.obj_freelist

module _ {ℓ} {A : Type ℓ} (blank : A) (release : A → A) (m : ObjPool A) (o : ℕ) where
  -- For a list of distinct objects, linked in memory, and an object that is not in it, New(first)
  -- leaves the list with the object behind it linked in memory, and changes no other next.
  pub link_last-Listed :
      (first : ℕ) (xs : List ℕ)
      → Ring m.next m.prev first xs
      → Distinct (0 ∷ o ∷ xs)
      → Listed m (o ∷ xs) (xs ++ o ∷ []) (link_last blank release o first m)
  unfolding link_last
  link_last-Listed first [] null d =
      subst (λ f. Listed m (o ∷ []) (o ∷ []) (link_last blank release o f m)) (sym null)
        (record {
          ring = (refl, update_self m.next o 0, update_self m.prev o o, tt);
          others = λ y out. update_ne m.next o y 0 out.0;
          content = refl;
          obj_freelist = refl;
        })
  link_last-Listed first (x ∷ xs) (e, l, p, b) ((null, nulls), (out, d)) =
      subst (λ f. Listed m (o ∷ x ∷ xs) (x ∷ xs ++ o ∷ []) (link_last blank release o f m)) (sym e)
        (subst (Listed m (o ∷ x ∷ xs) (x ∷ xs ++ o ∷ [])) (sym (if_false _ _ (not_null x nulls.0)))
          (record {
            ring = (
              refl,
              subst
                  (λ k.
                    Links (update (update m.next o 0) k o) (xs ++ o ∷ [])
                      (update (update m.next o 0) k o x) 0)
                  (sym p) (Links-snoc m.next o x xs l d out),
              update_self _ x o ∙ sym (last-snoc x o xs),
              Backs-snoc _ o x xs
                  (Backs-update _ x o x xs d.0 (Backs-update m.prev o (m.prev x) x xs out.1 b))
                  (update_ne _ x o o out.0 ∙ update_self m.prev o (m.prev x) ∙ p),
            );
            others = λ y away.
                update_ne _ (m.prev x) y o (λ q. NotIn-last y x xs away.1 (q ∙ p))
                ∙ update_ne m.next o y 0 away.0;
            content = refl;
            obj_freelist = refl;
          }))

  -- In the same way, NewFront leaves the list with the object in front of it.
  pub link_first-Listed :
      (first : ℕ) (xs : List ℕ)
      → Ring m.next m.prev first xs
      → Distinct (0 ∷ o ∷ xs)
      → Listed m (o ∷ xs) (o ∷ xs) (link_first blank release o first m)
  unfolding link_first
  link_first-Listed first [] null d =
      subst (λ f. Listed m (o ∷ []) (o ∷ []) (link_first blank release o f m)) (sym null)
        (record {
          ring = (refl, update_self m.next o 0, update_self m.prev o o, tt);
          others = λ y out. update_ne m.next o y 0 out.0;
          content = refl;
          obj_freelist = refl;
        })
  link_first-Listed first (x ∷ xs) (e, l, p, b) ((null, nulls), (out, d)) =
      subst (λ f. Listed m (o ∷ x ∷ xs) (o ∷ x ∷ xs) (link_first blank release o f m)) (sym e)
        (subst (λ h. Listed m (o ∷ x ∷ xs) (o ∷ x ∷ xs) (record { first = o; pool = h }))
          (sym (if_false _ _ (not_null x nulls.0)))
          (record {
            ring = (
              refl,
              (update_self m.next o x, (Links-update m.next o x (x ∷ xs) x 0 out (refl, l)).1),
              update_ne _ x o o out.0 ∙ update_self m.prev o (m.prev x) ∙ p,
              (
                update_self _ x o,
                Backs-update _ x o x xs d.0 (Backs-update m.prev o (m.prev x) x xs out.1 b),
              ),
            );
            others = λ y away. update_ne m.next o y x away.0;
            content = refl;
            obj_freelist = refl;
          }))
