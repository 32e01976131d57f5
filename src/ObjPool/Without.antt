-- ===== src/ObjPool/Without.antt =====
-- The links of a list in memory when one of its objects is left out.
use mysql_proxy.Common.{ℕ, ◌≡◌, ◌≢◌, refl, sym, ◌∙◌, List, [], ◌∷◌, update, update_self, update_ne}
use mathlib.Core.Path.{subst}
use mysql_proxy.Common.Removed.{NotIn, Distinct, Removed, here, there}
use mysql_proxy.Common.Rings.{last, Links, Backs, Backs-update, Links-update}

module _ (next prev : ℕ → ℕ) (o : ℕ) where
  -- The object before `o` and the one behind it stand in the list.
  pub before-not :
      (z x : ℕ) {xs xs' : List ℕ}
      → Removed o xs xs'
      → Backs prev x xs
      → NotIn z (x ∷ xs)
      → z ≢ prev o
  before-not z x here b out e = out.0 (e ∙ b.0)
  before-not z x (there y r) b out e = before-not z y r b.1 out.1 e

  pub after-not :
      (z p : ℕ) {xs xs' : List ℕ}
      → Removed o xs xs'
      → Links next xs p 0
      → NotIn z (0 ∷ xs)
      → z ≢ next o
  after-not z p (here {xs = []}) l out e = out.0 (e ∙ l.1)
  after-not z p (here {xs = y ∷ ys}) l out e = out.1.1.0 (e ∙ l.1.0)
  after-not z p (there y r) l out e = after-not z (next y) r l.1 (out.0, out.1.1) e

  -- The links behind an object of the list, when `o` is left out.
  pub Links-without :
      (x : ℕ) {xs xs' : List ℕ}
      → Removed o xs xs'
      → Links next xs (next x) 0
      → Backs prev x xs
      → Distinct (x ∷ xs)
      → let next' = update next (prev o) (next o) in Links next' xs' (next' x) 0
  Links-without x (here {xs}) l b d =
      subst (λ k. Links (update next k (next o)) xs (update next k (next o) x) 0) (sym b.0)
        (subst (λ q. Links (update next x (next o)) xs q 0) (sym (update_self next x (next o)))
          (Links-update next x (next o) xs (next o) 0 d.0.1 l.1))
  Links-without x (there y r) l b d = (
    update_ne next (prev o) x (next o) (before-not x y r b.1 d.0) ∙ l.0,
    Links-without y r l.1 b.1 d.1,
  )

  -- The links back, when `o` is the last object and when it is not.
  pub last_without :
      (x p : ℕ) {xs xs' : List ℕ}
      → Removed o xs xs'
      → next o ≡ 0
      → Links next xs p 0
      → Backs prev x xs
      → NotIn 0 xs
      → (prev o ≡ last x xs') × Backs prev x xs'
  last_without x p (here {xs = []}) end l b nulls = (b.0, tt)
  last_without x p (here {xs = y ∷ ys}) end l b nulls = absurd (nulls.1.0 (sym end ∙ l.1.0))
  last_without x p (there y r) end l b nulls =
      let (e, rest) = last_without y (next y) r end l.1 b.1 nulls.1 in (e, (b.0, rest))

  pub Backs-without :
      (x p : ℕ) {xs xs' : List ℕ}
      → Removed o xs xs'
      → next o ≢ 0
      → Links next xs p 0
      → Backs prev x xs
      → Distinct (0 ∷ xs)
      → (last x xs' ≡ last x xs) × Backs (update prev (next o) (prev o)) x xs'
  Backs-without x p (here {xs = []}) inner l b d = absurd (inner l.1)
  Backs-without x p (here {xs = y ∷ ys}) inner l b d =
      let n : next o ≡ y = l.1.0 in
      (
        refl,
        (
          subst (λ k. update prev k (prev o) y ≡ x) (sym n) (update_self prev y (prev o) ∙ b.0),
          subst (λ k. Backs (update prev k (prev o)) y ys) (sym n)
              (Backs-update prev y (prev o) y ys d.1.1.0 b.1.1),
        ),
      )
  Backs-without x p (there y r) inner l b d =
      let (e, rest) = Backs-without y (next y) r inner l.1 b.1 (d.0.1, d.1.1) in
      (
        e,
        (
          update_ne prev (next o) y (prev o)
                (after-not y (next y) r l.1 ((λ q. d.0.0 (sym q)), d.1.0))
              ∙ b.0,
          rest,
        ),
      )
