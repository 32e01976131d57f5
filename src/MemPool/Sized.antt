-- ===== src/MemPool/Sized.antt =====
-- The pools of UcMemManager of knv/mem_pool.cc keep their sizes, and Shrink of the manager ends.
use mysql_proxy.Common.{
  ℕ, zero, suc, ◌+◌, ◌≡◌, refl, ◌∙◌, inl, inr, Bool, true, false, Option, none, some, List, [], ◌∷◌,
  arith, ltb, leb, ◌==◌, update, Bool-cases,
}
use mysql_proxy.MemPool.Magic.{magic_size}
use mysql_proxy.MemPool.Pool.{
  Mem, MemPool, add_fetch, new_object, fill, hand_out, taken_out, alloc, shrink,
}
use mysql_proxy.MemPool.Ending.{Ends, shrink-Ends}
use mysql_proxy.MemPool.Manager.{
  Manager, set_pool, new_pool, found_pool, get_pool, keep_pool, shrink_got, shrink_at, then_shrink,
  shrink_smaller, shrink_larger,
}

-- Alloc of a pool leaves its size, and hands out an object with a buffer.
abbrev pub HasBuffer : Option Mem → Type 0
HasBuffer none = Unit
HasBuffer (some m) = (a : ℕ) × (m.buf ≡ some a)

fill-HasBuffer :
    (malloc : Option ℕ) (p : MemPool) (m : Mem)
    → HasBuffer (fill malloc p m).mem × ((fill malloc p m).pool.sz_each ≡ p.sz_each)
unfolding fill
fill-HasBuffer none p m = (tt, refl)
fill-HasBuffer (some a) p m = ((a, refl), refl)

hand_out-HasBuffer :
    (malloc : Option ℕ) (p : MemPool) (m : Mem) (buf : Option ℕ)
    → m.buf ≡ buf
    → HasBuffer (hand_out malloc p m buf).mem × ((hand_out malloc p m buf).pool.sz_each ≡ p.sz_each)
unfolding hand_out
hand_out-HasBuffer malloc p m none held =
    elim (Bool-cases (ltb p.sz_max (add_fetch p.sz_total p.sz_each))) [
      | inl e ↦ rw e (tt, refl)
      | inr e ↦ rw e (fill-HasBuffer malloc p m)
    ]
hand_out-HasBuffer malloc p m (some a) held = ((a, held), refl)

alloc_from-HasBuffer :
    (fresh : Bool) (malloc : Option ℕ) (p : MemPool) (kept : List Mem)
    → let r = taken_out malloc p (new_object fresh kept) in
      HasBuffer r.mem × (r.pool.sz_each ≡ p.sz_each)
unfolding taken_out new_object
alloc_from-HasBuffer fresh malloc p (m ∷ ms) =
    hand_out-HasBuffer malloc (record p { kept = ms }) m m.buf refl
alloc_from-HasBuffer true malloc p [] =
    hand_out-HasBuffer malloc (record p { kept = [] }) (record { buf = none }) none refl
alloc_from-HasBuffer false malloc p [] = (tt, refl)

pub alloc-HasBuffer :
    (fresh : Bool) (malloc : Option ℕ) (p : MemPool)
    → HasBuffer (alloc fresh malloc p).mem × ((alloc fresh malloc p).pool.sz_each ≡ p.sz_each)
unfolding alloc
alloc-HasBuffer fresh malloc p = alloc_from-HasBuffer fresh malloc p p.kept

-- The pool of each class has buffers of the size of the class.
abbrev pub SizedAt : ℕ → Option MemPool → Type 0
SizedAt k none = Unit
SizedAt k (some p) = p.sz_each ≡ magic_size k

abbrev pub WellSized : Manager → Type 0
WellSized g = (k : ℕ) → SizedAt k (g.pools k)

pub set_pool-WellSized :
    (g : Manager) (k : ℕ) (p : MemPool)
    → WellSized g
    → p.sz_each ≡ magic_size k
    → WellSized (set_pool g k p)
unfolding update
set_pool-WellSized g k p w same j = elim (Bool-cases (j == k)) [
  | inl e ↦ let here : j ≡ k = ground arith in rw e (rw here same)
  | inr e ↦ rw e (w j)
]

abbrev pub GotPool : ℕ → Option MemPool × Manager → Type 0
GotPool k (o, g) = SizedAt k o × WellSized g

pub get_pool-GotPool :
    (fresh : Bool) (g : Manager) (k : ℕ) → WellSized g → GotPool k (get_pool fresh g k)
unfolding get_pool
get_pool-GotPool fresh g k w = by_pool fresh (g.pools k) (w k)
  where
    by_pool : (fresh : Bool) (o : Option MemPool) → SizedAt k o → GotPool k (found_pool fresh g k o)
    by_pool fresh (some p) same = unfold found_pool in (same, w)
    by_pool true none same =
        unfold found_pool new_pool in (refl, set_pool-WellSized g k (new_pool g k) w refl)
    by_pool false none same = unfold found_pool in (tt, w)

-- A loop over the pools has ended.
abbrev pub GoesOn : Option (ℕ × Manager) → Type 0
GoesOn none = ⊥
GoesOn (some (shk, g)) = WellSized g

keep_pool-GoesOn :
    (g : Manager) (k size : ℕ) (r : Option (ℕ × MemPool))
    → WellSized g
    → size ≡ magic_size k
    → Ends size r
    → GoesOn (keep_pool g k r)
keep_pool-GoesOn g k size none w same e = e
keep_pool-GoesOn g k size (some (shk, p)) w same e = set_pool-WellSized g k p w (e ∙ same)

shrink_at-GoesOn :
    (rounds : ℕ) (fresh : Bool) (g : Manager) (k : ℕ)
    → WellSized g
    → GoesOn (shrink_at (suc (suc rounds)) fresh g k)
unfolding shrink_at
shrink_at-GoesOn rounds fresh g k w = by_got (get_pool fresh g k) (get_pool-GotPool fresh g k w)
  where
    by_got :
        (r : Option MemPool × Manager)
        → GotPool k r
        → GoesOn (shrink_got (suc (suc rounds)) fresh k r)
    by_got (none, g') (same, w') = unfold shrink_got in w'
    by_got (some p, g') got =
        unfold shrink_got in
        keep_pool-GoesOn g' k p.sz_each (shrink (suc (suc rounds)) fresh p) got.1 got.0
          (shrink-Ends rounds fresh p)

then_shrink-GoesOn :
    (shk : ℕ) (r : Option (ℕ × Manager)) (rest : ℕ → Manager → Option (ℕ × Manager))
    → GoesOn r
    → ((shk' : ℕ) (g : Manager) → WellSized g → GoesOn (rest shk' g))
    → GoesOn (then_shrink shk r rest)
then_shrink-GoesOn shk none rest e next = e
then_shrink-GoesOn shk (some (more, g)) rest e next = next (add_fetch shk more) g e

shrink_smaller-GoesOn :
    (rounds : ℕ) (fresh : Bool) (i shk : ℕ) (g : Manager)
    → WellSized g
    → GoesOn (shrink_smaller (suc (suc rounds)) fresh i shk g)
unfolding shrink_smaller
shrink_smaller-GoesOn rounds fresh zero shk g w = w
shrink_smaller-GoesOn rounds fresh (suc i) shk g w =
    then_shrink-GoesOn shk (shrink_at (suc (suc rounds)) fresh g i) _
      (shrink_at-GoesOn rounds fresh g i w)
      λ shk' g' w'. shrink_smaller-GoesOn rounds fresh i shk' g' w'

pub shrink_larger-GoesOn :
    (rounds : ℕ) (fresh : Bool) (n magic shk : ℕ) (g : Manager)
    → WellSized g
    → GoesOn (shrink_larger (suc (suc rounds)) fresh n magic shk g)
unfolding shrink_larger
shrink_larger-GoesOn rounds fresh zero magic shk g w =
    shrink_smaller-GoesOn rounds fresh magic shk g w
shrink_larger-GoesOn rounds fresh (suc n) magic shk g w =
    then_shrink-GoesOn shk (shrink_at (suc (suc rounds)) fresh g (magic + suc n)) _
      (shrink_at-GoesOn rounds fresh g (magic + suc n) w)
      λ shk' g' w'. elim (Bool-cases (leb (magic_size magic) shk')) [
        | inl enough ↦ rw enough w'
        | inr more ↦ rw more (shrink_larger-GoesOn rounds fresh n magic shk' g' w')
      ]
