-- ===== src/Common/Removed.antt =====
-- Lists of distinct objects, and one object less.
use mysql_proxy.Common.{ℕ, ◌≢◌, sym, List, [], ◌∷◌, ◌++◌, All}

-- `a` is none of the objects.
abbrev pub NotIn : ℕ → List ℕ → Type 0
NotIn a xs = All (λ x. a ≢ x) xs

abbrev pub Distinct : List ℕ → Type 0
Distinct [] = Unit
Distinct (x ∷ xs) = NotIn x xs × Distinct xs

-- The second list is the first one without `o`.
pub data Removed (o : ℕ) : List ℕ → List ℕ → Type 0 where
  here : {xs : List ℕ} → Removed o (o ∷ xs) xs
  there : (x : ℕ) {xs xs' : List ℕ} → Removed o xs xs' → Removed o (x ∷ xs) (x ∷ xs')

pub Removed-append :
    {o : ℕ} {xs xs' : List ℕ} (ys : List ℕ) → Removed o xs xs' → Removed o (xs ++ ys) (xs' ++ ys)
Removed-append ys here = here
Removed-append ys (there x r) = there x (Removed-append ys r)

pub Removed-middle : (o : ℕ) (xs ys : List ℕ) → Removed o (xs ++ o ∷ ys) (xs ++ ys)
Removed-middle o [] ys = here
Removed-middle o (x ∷ xs) ys = there x (Removed-middle o xs ys)

pub NotIn-Removed :
    {o y : ℕ} {xs xs' : List ℕ} → Removed o xs xs' → NotIn y xs → (y ≢ o) × NotIn y xs'
NotIn-Removed here out = out
NotIn-Removed (there x r) out = let (ne, rest) = NotIn-Removed r out.1 in (ne, (out.0, rest))

NotIn-inserted : {o y : ℕ} {xs xs' : List ℕ} → Removed o xs xs' → y ≢ o → NotIn y xs' → NotIn y xs
NotIn-inserted here ne out = (ne, out)
NotIn-inserted (there x r) ne out = (out.0, NotIn-inserted r ne out.1)

pub Distinct-Removed :
    {o : ℕ} {xs xs' : List ℕ} → Removed o xs xs' → Distinct xs → NotIn o xs' × Distinct xs'
Distinct-Removed here d = d
Distinct-Removed (there x r) d =
    let (out, rest) = Distinct-Removed r d.1 in
    let (ne, away) = NotIn-Removed r d.0 in ((λ e. ne (sym e), out), (away, rest))

pub Distinct-inserted :
    {o : ℕ} {xs xs' : List ℕ} → Removed o xs xs' → NotIn o xs' → Distinct xs' → Distinct xs
Distinct-inserted here out d = (out, d)
Distinct-inserted (there x r) out d =
    (NotIn-inserted r (λ e. out.0 (sym e)) d.0, Distinct-inserted r out.1 d.1)

-- Objects stay distinct when one of them moves.
pub Distinct-moved :
    {o : ℕ} {xs ys rest : List ℕ}
    → Removed o xs rest
    → Removed o ys rest
    → Distinct xs
    → Distinct ys
Distinct-moved r s d = let (out, d') = Distinct-Removed r d in Distinct-inserted s out d'

-- Two lists of objects, none of which is in both.
pub NotIn-append : (a : ℕ) (xs ys : List ℕ) → NotIn a (xs ++ ys) → NotIn a xs × NotIn a ys
NotIn-append a [] ys out = (tt, out)
NotIn-append a (x ∷ xs) ys out = let (l, r) = NotIn-append a xs ys out.1 in ((out.0, l), r)

pub Distinct-append :
    (xs ys : List ℕ) → Distinct (xs ++ ys) → Distinct xs × Distinct ys × All (λ y. NotIn y xs) ys
Distinct-append [] [] d = (tt, tt, tt)
Distinct-append [] (y ∷ ys) d =
    let (l, r, apart) = Distinct-append [] ys d.1 in (tt, d, (tt, apart))
Distinct-append (x ∷ xs) ys d =
    let (l, r, apart) = Distinct-append xs ys d.1 in
    let (out, away) = NotIn-append x xs ys d.0 in ((out, l), r, joined ys away apart)
  where
    joined : (ys : List ℕ) → NotIn x ys → All (λ y. NotIn y xs) ys → All (λ y. NotIn y (x ∷ xs)) ys
    joined [] away apart = tt
    joined (y ∷ ys) away apart = ((λ e. away.0 (sym e), apart.0), joined ys away.1 apart.1)
