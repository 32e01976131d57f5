-- ===== src/MemPool/Ending.antt =====
-- The loops of UcMemPool::Shrink of knv/mem_pool.cc end.
use mysql_proxy.Common.{
  ℕ, suc, ◌*◌, ◌%◌, ◌^◌, ◌≡◌, refl, sym, inl, inr, Bool, true, false, Option, none, some, List, [],
  ◌∷◌, ltb, Bool-cases,
}
use mathlib.Core.Path.{subst}
use mysql_proxy.MemPool.Pool.{
  Mem, MemPool, add_fetch, lower, new_object, unallocated_part, max_free, drop_object, drop_buffer,
  drop_round, drop_loop, finish_shrink, shrink,
}
use mysql_proxy.MemPool.Shrinking.{blank, bare_first}

-- The loop has ended, and the size of the buffers is the same.
abbrev pub Ends : (size : ℕ) → Option (ℕ × MemPool) → Type 0
Ends size none = ⊥
Ends size (some (shk, p)) = p.sz_each ≡ size

stops-Ends :
    (again : MemPool → Option (ℕ × MemPool)) (shk : ℕ) (p p' : MemPool)
    → p'.sz_each ≡ p.sz_each
    → Ends p.sz_each (drop_round again shk p (p', false))
unfolding drop_round
stops-Ends again shk p p' same = elim (Bool-cases (ltb (max_free p) p.sz_free)) [
  | inl e ↦ rw e same
  | inr e ↦ rw e refl
]

drop_object-Ends :
    (rounds : ℕ) (fresh : Bool) (shk shk' : ℕ) (p : MemPool) (m : Mem) (ms : List Mem)
    (b : Option ℕ)
    → Ends p.sz_each (drop_round (drop_loop (suc rounds) fresh shk') shk p (drop_object p m ms b))
unfolding drop_object drop_round
drop_object-Ends rounds fresh shk shk' p m ms none =
    stops-Ends (drop_loop (suc rounds) fresh shk') shk p _ refl
drop_object-Ends rounds fresh shk shk' p m ms (some a) =
    elim (Bool-cases (ltb (max_free p) p.sz_free)) [
      | inl e ↦ rw e (
          subst (Ends p.sz_each)
            (sym (
              bare_first rounds fresh shk' (record p { sz_free = lower p.sz_free p.sz_each }) blank
                ms refl))
            refl)
      | inr e ↦ rw e refl
    ]

drop_buffer-Ends :
    (rounds : ℕ) (fresh fresh' : Bool) (shk shk' : ℕ) (p : MemPool) (kept : List Mem)
    → Ends p.sz_each (
        drop_round
          (drop_loop (suc rounds) fresh shk')
          shk
          p
          (drop_buffer p (new_object fresh' kept)))
unfolding drop_buffer new_object
drop_buffer-Ends rounds fresh fresh' shk shk' p (m ∷ ms) =
    drop_object-Ends rounds fresh shk shk' p m ms m.buf
drop_buffer-Ends rounds fresh true shk shk' p [] =
    drop_object-Ends rounds fresh shk shk' p blank [] none
drop_buffer-Ends rounds fresh false shk shk' p [] =
    stops-Ends (drop_loop (suc rounds) fresh shk') shk p _ refl

finish_shrink-Ends :
    (size : ℕ) (r : Option (ℕ × MemPool)) → Ends size r → Ends size (finish_shrink r)
finish_shrink-Ends size none e = e
finish_shrink-Ends size (some (shk, p)) e = e

pub shrink-Ends :
    (rounds : ℕ) (fresh : Bool) (p : MemPool) → Ends p.sz_each (shrink (suc (suc rounds)) fresh p)
unfolding shrink drop_loop
shrink-Ends rounds fresh p =
    let dropped =
      finish_shrink-Ends p.sz_each (drop_loop (suc (suc rounds)) fresh 0 p)
        (drop_buffer-Ends rounds fresh fresh 0 (add_fetch 0 p.sz_each) p p.kept) in
    elim (Bool-cases (ltb (add_fetch p.sz_total p.sz_free * 2 % 2 ^ 64) p.sz_max)) [
      | inr full ↦ rw full dropped
      | inl spare ↦
          elim (Bool-cases (ltb p.sz_each (unallocated_part p (add_fetch p.sz_total p.sz_free)))) [
            | inl large ↦ rw (spare, large) refl
            | inr small ↦ rw (spare, small) dropped
          ]
    ]
