-- ===== src/Common/Rings.antt =====
-- Linked lists in memory: `next` leads from one object to the next, `prev` to the one
-- before, and from the first object to the last.
use mysql_proxy.Common.{
  ℕ, ◌≡◌, ◌≢◌, refl, sym, ◌∙◌, List, [], ◌∷◌, ◌++◌, All, update, update_self, update_ne,
}
use mathlib.Core.Path.{subst}
use mysql_proxy.Common.Removed.{NotIn, Distinct}

abbrev pub last : ℕ → List ℕ → ℕ
last x [] = x
last x (y ∷ ys) = last y ys

-- From `p` the links lead through the objects to `q`.
abbrev pub Links : (next : ℕ → ℕ) → List ℕ → ℕ → ℕ → Type 0
Links next [] p q = p ≡ q
Links next (x ∷ xs) p q = (p ≡ x) × Links next xs (next x) q

-- The links back, with `b` in front of the list.
abbrev pub Backs : (prev : ℕ → ℕ) → ℕ → List ℕ → Type 0
Backs prev b [] = Unit
Backs prev b (x ∷ xs) = (prev x ≡ b) × Backs prev x xs

-- `first` points to the list.
abbrev pub Ring : (next prev : ℕ → ℕ) → ℕ → List ℕ → Type 0
Ring next prev first [] = first ≡ 0
Ring next prev first (x ∷ xs) =
    (first ≡ x) × Links next xs (next x) 0 × (prev x ≡ last x xs) × Backs prev x xs

pub NotIn-last : (a x : ℕ) (xs : List ℕ) → NotIn a (x ∷ xs) → a ≢ last x xs
NotIn-last a x [] out = out.0
NotIn-last a x (y ∷ ys) out = NotIn-last a y ys out.1

pub last-snoc : (x o : ℕ) (xs : List ℕ) → last x (xs ++ o ∷ []) ≡ o
last-snoc x o [] = refl
last-snoc x o (y ∷ ys) = last-snoc y o ys

-- Links are those of the objects on them.
pub Links-same :
    (next next' : ℕ → ℕ) (xs : List ℕ) (p q : ℕ)
    → All (λ x. next' x ≡ next x) xs
    → Links next xs p q
    → Links next' xs p q
Links-same next next' [] p q same l = l
Links-same next next' (x ∷ xs) p q same l = (
  l.0,
  subst (λ k. Links next' xs k q) (sym same.0) (Links-same next next' xs (next x) q same.1 l.1),
)

module _ (f : ℕ → ℕ) (a v : ℕ) where
  unwritten : (xs : List ℕ) → NotIn a xs → All (λ x. update f a v x ≡ f x) xs
  unwritten [] out = tt
  unwritten (x ∷ xs) out = (update_ne f a x v (λ e. out.0 (sym e)), unwritten xs out.1)

  pub Links-update :
      (xs : List ℕ) (p q : ℕ) → NotIn a xs → Links f xs p q → Links (update f a v) xs p q
  Links-update xs p q out l = Links-same f _ xs p q (unwritten xs out) l

  pub Backs-update : (b : ℕ) (xs : List ℕ) → NotIn a xs → Backs f b xs → Backs (update f a v) b xs
  Backs-update b [] out l = tt
  Backs-update b (x ∷ xs) out l =
      (update_ne f a x v (λ e. out.0 (sym e)) ∙ l.0, Backs-update x xs out.1 l.1)

-- A list with one more object behind it.
pub Backs-snoc :
    (prev : ℕ → ℕ) (o x : ℕ) (xs : List ℕ)
    → Backs prev x xs
    → prev o ≡ last x xs
    → Backs prev x (xs ++ o ∷ [])
Backs-snoc prev o x [] l e = (e, tt)
Backs-snoc prev o x (y ∷ ys) l e = (l.0, Backs-snoc prev o y ys l.1 e)

pub Links-snoc :
    (next : ℕ → ℕ) (o x : ℕ) (xs : List ℕ)
    → Links next xs (next x) 0
    → Distinct (x ∷ xs)
    → NotIn o (x ∷ xs)
    → let next' = update (update next o 0) (last x xs) o in Links next' (xs ++ o ∷ []) (next' x) 0
Links-snoc next o x [] l d out =
    (update_self _ x o, update_ne (update next o 0) x o o out.0 ∙ update_self next o 0)
Links-snoc next o x (y ∷ ys) l d out = (
  update_ne (update next o 0) (last y ys) x o (NotIn-last x y ys d.0)
      ∙ update_ne next o x 0 (λ e. out.0 (sym e))
      ∙ l.0,
  Links-snoc next o y ys l.1 d.1 out.1,
)

-- An object outside a list may change.
pub Ring-next :
    (next prev : ℕ → ℕ) (o v first : ℕ) (xs : List ℕ)
    → NotIn o xs
    → Ring next prev first xs
    → Ring (update next o v) prev first xs
Ring-next next prev o v first [] out null = null
Ring-next next prev o v first (x ∷ xs) out (e, l, p, b) =
    (e, (Links-update next o v (x ∷ xs) x 0 out (refl, l)).1, p, b)

pub Ring-prev :
    (next prev : ℕ → ℕ) (o w first : ℕ) (xs : List ℕ)
    → NotIn o xs
    → Ring next prev first xs
    → Ring next (update prev o w) first xs
Ring-prev next prev o w first [] out null = null
Ring-prev next prev o w first (x ∷ xs) out (e, l, p, b) =
    (e, l, update_ne prev o x w (λ q. out.0 (sym q)) ∙ p, Backs-update prev o w x xs out.1 b)

-- A list in front of another one.
pub Links-join :
    (next : ℕ → ℕ) (q x : ℕ) (xs ys : List ℕ)
    → Links next xs (next x) 0
    → Links next ys q 0
    → Distinct (x ∷ xs ++ ys)
    → let next' = update next (last x xs) q in Links next' (xs ++ ys) (next' x) 0
Links-join next q x [] ys l r d =
    subst (λ k. Links (update next x q) ys k 0) (sym (update_self next x q))
      (Links-update next x q ys q 0 d.0 r)
Links-join next q x (y ∷ xs) ys l r d =
    (update_ne next (last y xs) x q (apart xs y d.0) ∙ l.0, Links-join next q y xs ys l.1 r d.1)
  where
    apart : (zs : List ℕ) (z : ℕ) → NotIn x (z ∷ zs ++ ys) → x ≢ last z zs
    apart [] z out = out.0
    apart (w ∷ zs) z out = apart zs w out.1
