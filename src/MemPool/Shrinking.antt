-- ===== src/MemPool/Shrinking.antt =====
-- UcMemPool::Shrink of knv/mem_pool.cc.
use mysql_proxy.Common.{
  ℕ, suc, ◌+◌, ◌*◌, ◌%◌, ◌^◌, ◌≤◌, ◌≡◌, refl, ap, ◌∙◌, inl, inr, ◌⊎◌, Bool, true, false, Option,
  none, some, List, [], ◌∷◌, arith, ltb, Bool-cases, Option-cases, if_true, if_false,
}
use mysql_proxy.MemPool.Pool.{
  Mem, MemPool, add_fetch, lower, new_object, unallocated_part, max_free, drop_object, drop_buffer,
  drop_round, drop_loop, finish_shrink, shrink,
}
use mysql_proxy.MemPool.Accounting.{has_buffer, idle, Counted, Counted-kept, add-mul, lower_lem}

abbrev pub blank : Mem
blank = record { buf = none }

-- What the second loop leaves of the pool `p`: it frees one buffer at most, and the counters are exact.
pub record Dropped (used shk : ℕ) (p : MemPool) (run : Option (ℕ × MemPool)) : Type 0 where
  pub bytes : ℕ
  pub pool : MemPool
  pub ends : run ≡ some (bytes, pool)
  pub few : idle p.kept ≤ idle pool.kept + 1
  pub amount : (bytes ≡ shk) ⊎ (bytes ≡ add_fetch shk p.sz_each)
  pub counted : Counted used pool

-- An object that is not taken apart ends the loop.
stops :
    (again : MemPool → Option (ℕ × MemPool)) (shk : ℕ) (p : MemPool)
    → drop_round again shk p (p, false) ≡ some (shk, p)
unfolding drop_round
stops again shk p = elim (Bool-cases (ltb (max_free p) p.sz_free)) [ inl e ↦ rw e | inr e ↦ rw e ]

-- One without a buffer is not.
pub bare_first :
    (rounds : ℕ) (fresh : Bool) (shk : ℕ) (p : MemPool) (m : Mem) (ms : List Mem)
    → m.buf ≡ none
    → drop_loop (suc rounds) fresh shk (record p { kept = m ∷ ms })
      ≡ some (shk, record p { kept = m ∷ ms })
unfolding drop_loop new_object drop_buffer drop_object
bare_first rounds fresh shk p m ms bare =
    let q = record p { kept = m ∷ ms } in
    let again = drop_loop rounds fresh (add_fetch shk p.sz_each) in
    ap (λ b. drop_round again shk q (drop_object q m ms b)) bare ∙ stops again shk q

-- A buffer is freed in the first round, and its object stops the second.
full_first :
    (rounds : ℕ) (fresh : Bool) (shk used : ℕ) (p : MemPool) (m : Mem) (ms : List Mem) (a : ℕ)
    → m.buf ≡ some a
    → Counted used (record p { kept = m ∷ ms })
    → Dropped used shk
        (record p { kept = m ∷ ms })
        (drop_loop (suc (suc rounds)) fresh shk (record p { kept = m ∷ ms }))
unfolding drop_loop new_object drop_buffer drop_object drop_round
full_first rounds fresh shk used p m ms a held c = elim (Bool-cases (ltb (max_free q) p.sz_free)) [
  | inr enough ↦ record {
    bytes = shk;
    pool = q;
    ends = ap round held ∙ if_false _ _ enough;
    few = omega arith;
    amount = inl refl;
    counted = c;
  }
  | inl more ↦ record {
    bytes = add_fetch shk p.sz_each;
    pool = q';
    ends =
        ap round held
        ∙ if_true _ _ more
        ∙ bare_first rounds fresh (add_fetch shk p.sz_each) q' blank ms refl;
    few = omega (arith, count);
    amount = inr refl;
    counted = record {
      total = c.total;
      unused =
          lower_lem p.sz_free p.sz_each (omega (arith, c.unused, count', split))
            (omega (arith, c.unused, c.room, split'))
          ∙ omega (arith, c.unused, count', split);
      room = omega (
        arith,
        c.room,
        split',
        count',
        split,
        add-mul used (0 + idle ms) p.sz_each,
        add-mul 0 (idle ms) p.sz_each,
      );
    };
  }
]
  where
    q : MemPool
    q = record p { kept = m ∷ ms }

    q' : MemPool
    q' = record p { kept = blank ∷ ms; sz_free = lower p.sz_free p.sz_each }

    round : Option ℕ → Option (ℕ × MemPool)
    round b =
        drop_round (drop_loop (suc rounds) fresh (add_fetch shk p.sz_each)) shk q
          (drop_object q m ms b)

    count : idle (m ∷ ms) ≡ 1 + idle ms
    count = ap (λ b. has_buffer b + idle ms) held

    count' : idle (m ∷ ms) * p.sz_each ≡ (1 + idle ms) * p.sz_each
    count' = ap (λ n. n * p.sz_each) count

    split : (1 + idle ms) * p.sz_each ≡ 1 * p.sz_each + idle ms * p.sz_each
    split = add-mul 1 (idle ms) p.sz_each

    split' : (used + idle (m ∷ ms)) * p.sz_each ≡ used * p.sz_each + idle (m ∷ ms) * p.sz_each
    split' = add-mul used (idle (m ∷ ms)) p.sz_each

unchanged :
    (used shk : ℕ) (p : MemPool) (run : Option (ℕ × MemPool)) (kept : List Mem)
    → idle kept ≡ idle p.kept
    → Counted used p
    → run ≡ some (shk, record p { kept = kept })
    → Dropped used shk p run
unchanged used shk p run kept same c ends = record {
  bytes = shk;
  pool = record p { kept = kept };
  ends = ends;
  few = omega (arith, same);
  amount = inl refl;
  counted = Counted-kept used p kept c same;
}

by_buffer :
    (rounds : ℕ) (fresh : Bool) (shk used : ℕ) (p : MemPool) (m : Mem) (ms : List Mem)
    → Counted used (record p { kept = m ∷ ms })
    → Dropped used shk
        (record p { kept = m ∷ ms })
        (drop_loop (suc (suc rounds)) fresh shk (record p { kept = m ∷ ms }))
by_buffer rounds fresh shk used p m ms c = elim (Option-cases m.buf) [
  | inl bare ↦
      unchanged used shk (record p { kept = m ∷ ms }) _ (m ∷ ms) refl c
        (bare_first (suc rounds) fresh shk p m ms bare)
  | inr (a, held) ↦ full_first rounds fresh shk used p m ms a held c
]

-- Without an object New makes one, or fails.
none_kept :
    (rounds : ℕ) (fresh : Bool) (shk used : ℕ) (p : MemPool)
    → Counted used (record p { kept = [] })
    → Dropped used shk
        (record p { kept = [] })
        (drop_loop (suc (suc rounds)) fresh shk (record p { kept = [] }))
unfolding drop_loop new_object drop_buffer drop_object drop_round
none_kept rounds fresh shk used p c = elim (Bool-cases (ltb (max_free q) p.sz_free)) [
  | inr enough ↦ unchanged used shk q _ [] refl c (made fresh enough)
  | inl more ↦ by_new fresh more
]
  where
    q : MemPool
    q = record p { kept = [] }

    loop : Bool → Option (ℕ × MemPool)
    loop fresh' =
        drop_round (drop_loop (suc rounds) fresh (add_fetch shk p.sz_each)) shk q
          (drop_buffer q (new_object fresh' []))

    made : (fresh' : Bool) → ltb (max_free q) p.sz_free ≡ false → loop fresh' ≡ some (shk, q)
    made true enough = if_false _ _ enough
    made false enough = if_false _ _ enough

    by_new : (fresh' : Bool) → ltb (max_free q) p.sz_free ≡ true → Dropped used shk q (loop fresh')
    by_new true more = unchanged used shk q _ (blank ∷ []) (omega arith) c (if_true _ _ more)
    by_new false more = unchanged used shk q _ [] refl c (if_true _ _ more)

drop_kept-Dropped :
    (rounds : ℕ) (fresh : Bool) (shk used : ℕ) (p : MemPool) (kept : List Mem)
    → Counted used (record p { kept = kept })
    → Dropped used shk
        (record p { kept = kept })
        (drop_loop (suc (suc rounds)) fresh shk (record p { kept = kept }))
drop_kept-Dropped rounds fresh shk used p [] c = none_kept rounds fresh shk used p c
drop_kept-Dropped rounds fresh shk used p (m ∷ ms) c = by_buffer rounds fresh shk used p m ms c

-- What Shrink leaves of a pool.
pub record Shrunk (used : ℕ) (p : MemPool) (run : Option (ℕ × MemPool)) : Type 0 where
  pub bytes : ℕ
  pub pool : MemPool
  pub ends : run ≡ some (bytes, pool)
  pub few : idle p.kept ≤ idle pool.kept + 1
  pub counted : Counted used pool

-- On a pool with exact counters Shrink ends: two rounds of its second loop are enough. It frees one
-- buffer at most, however many are unused, and the counters stay exact.
pub shrink-Shrunk :
    (rounds : ℕ) (fresh : Bool) (used : ℕ) (p : MemPool)
    → Counted used p
    → Shrunk used p (shrink (suc (suc rounds)) fresh p)
unfolding shrink
shrink-Shrunk rounds fresh used p c =
    elim (Bool-cases (ltb (add_fetch p.sz_total p.sz_free * 2 % 2 ^ 64) p.sz_max)) [
      | inr full ↦ rw full dropped
      | inl spare ↦
          elim (Bool-cases (ltb p.sz_each (unallocated_part p (add_fetch p.sz_total p.sz_free)))) [
            | inl large ↦
                rw (spare, large)
                  (record {
                    bytes = _;
                    pool = _;
                    ends = refl;
                    few = omega arith;
                    counted = record { total = c.total; unused = c.unused; room = c.room };
                  })
            | inr small ↦ rw (spare, small) dropped
          ]
    ]
  where
    d : Dropped used 0 p (drop_loop (suc (suc rounds)) fresh 0 p)
    d = drop_kept-Dropped rounds fresh 0 used p p.kept c

    dropped : Shrunk used p (finish_shrink (drop_loop (suc (suc rounds)) fresh 0 p))
    dropped = record {
      bytes = d.bytes;
      pool = record (d.pool) { sz_max = lower d.pool.sz_max d.bytes };
      ends = ap finish_shrink d.ends;
      few = d.few;
      counted = record {
        total = d.counted.total;
        unused = d.counted.unused;
        room = d.counted.room;
      };
    }
