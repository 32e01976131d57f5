-- ===== src/MemPool/Accounting.antt =====
-- The counters of a UcMemPool of knv/mem_pool.cc against the buffers that there are.
use mysql_proxy.Common.{
  ℕ, suc, ◌+◌, ◌-◌, ◌*◌, ◌^◌, ◌≤◌, ◌<◌, ◌≡◌, refl, sym, ap, ◌∙◌, inl, inr, Bool, true, false,
  Option, none, some, List, [], ◌∷◌, arith, ltb, Bool-cases,
}
use mathlib.Core.Path.{subst}
use mysql_proxy.MemPool.Pool.{
  Mem, MemPool, add_fetch, lower, new_object, fill, hand_out, taken_out, alloc, free,
}

-- The objects with a buffer.
abbrev pub has_buffer : Option ℕ → ℕ
has_buffer none = 0
has_buffer (some a) = 1

abbrev pub idle : List Mem → ℕ
idle [] = 0
idle (m ∷ ms) = has_buffer m.buf + idle ms

-- The counters of a pool with `used` buffers handed out: they are exact, and below 2 ^ 63.
pub record Counted (used : ℕ) (p : MemPool) : Type 0 where
  pub total : p.sz_total ≡ used * p.sz_each
  pub unused : p.sz_free ≡ idle p.kept * p.sz_each
  pub room : (used + idle p.kept) * p.sz_each < 2 ^ 63

pub lower_lem : (a b : ℕ) → b ≤ a → a < 2 ^ 63 → lower a b ≡ a - b
unfolding lower
lower_lem a b h k = ground arith

abbrev pub handed : Option Mem → ℕ → ℕ
handed none used = used
handed (some m) used = suc used

pub add-mul : (a b c : ℕ) → (a + b) * c ≡ a * c + b * c
add-mul a b c = grind arith

suc-times : (n e : ℕ) → suc n * e ≡ n * e + e
suc-times n e = grind arith

pub idle_bare : (m : Mem) (ms : List Mem) → m.buf ≡ none → idle (m ∷ ms) ≡ idle ms
idle_bare m ms e = ap (λ b. has_buffer b + idle ms) e ∙ omega arith

-- Objects without a buffer do not count.
pub Counted-kept :
    (used : ℕ) (p : MemPool) (kept : List Mem)
    → Counted used p
    → idle kept ≡ idle p.kept
    → Counted used (record p { kept = kept })
Counted-kept used p kept c same = record {
  total = c.total;
  unused = c.unused ∙ ap (λ n. n * p.sz_each) (sym same);
  room = subst (λ n. (used + n) * p.sz_each < 2 ^ 63) (sym same) c.room;
}

-- An object with a buffer is handed out.
hand_out_old-Counted :
    (malloc : Option ℕ) (p : MemPool) (m : Mem) (a used : ℕ)
    → p.sz_total ≡ used * p.sz_each
    → p.sz_free ≡ (1 + idle p.kept) * p.sz_each
    → (used + (1 + idle p.kept)) * p.sz_each < 2 ^ 63
    → Counted (suc used) (hand_out malloc p m (some a)).pool
unfolding hand_out
hand_out_old-Counted malloc p m a used total unused room =
    let split = add-mul used (1 + idle p.kept) p.sz_each in
    let split' = add-mul 1 (idle p.kept) p.sz_each in
    let more = suc-times used p.sz_each in
    record {
      total = omega arith;
      unused = lower_lem p.sz_free p.sz_each (omega arith) (omega arith) ∙ omega arith;
      room = omega (arith, add-mul (suc used) (idle p.kept) p.sz_each);
    }

-- An object without one: the limit is met, malloc fails, or a buffer is made.
hand_out_new-Counted :
    (malloc : Option ℕ) (p : MemPool) (m : Mem) (used : ℕ)
    → m.buf ≡ none
    → Counted used p
    → (used + idle p.kept + 1) * p.sz_each < 2 ^ 63
    → let r = hand_out malloc p m none in Counted (handed r.mem used) r.pool
unfolding hand_out fill
hand_out_new-Counted malloc p m used bare c room =
    elim (Bool-cases (ltb p.sz_max (add_fetch p.sz_total p.sz_each))) [
      | inl e ↦ rw e put_back
      | inr e ↦ rw e (by_malloc malloc)
    ]
  where
    put_back : Counted used (record p { kept = m ∷ p.kept })
    put_back = Counted-kept used p (m ∷ p.kept) c (idle_bare m p.kept bare)

    by_malloc :
        (malloc : Option ℕ) → Counted (handed (fill malloc p m).mem used) (fill malloc p m).pool
    by_malloc none = put_back
    by_malloc (some a) = record {
      total = omega (
        arith,
        c.total,
        c.room,
        room,
        suc-times used p.sz_each,
        add-mul (used + idle p.kept) 1 p.sz_each,
        add-mul used (idle p.kept) p.sz_each,
      );
      unused = c.unused;
      room = omega (
        arith,
        room,
        suc-times used p.sz_each,
        add-mul (used + idle p.kept) 1 p.sz_each,
        add-mul used (idle p.kept) p.sz_each,
        add-mul (suc used) (idle p.kept) p.sz_each,
      );
    }

taken_out-Counted :
    (malloc : Option ℕ) (p : MemPool) (m : Mem) (kept : List Mem) (used : ℕ) (buf : Option ℕ)
    → m.buf ≡ buf
    → Counted used (record p { kept = m ∷ kept })
    → (used + idle (m ∷ kept) + 1) * p.sz_each < 2 ^ 63
    → let r = hand_out malloc (record p { kept = kept }) m buf in Counted (handed r.mem used) r.pool
unfolding hand_out
taken_out-Counted malloc p m kept used none bare c room =
    hand_out_new-Counted malloc (record p { kept = kept }) m used bare
      (Counted-kept used (record p { kept = m ∷ kept }) kept c (sym (idle_bare m kept bare)))
      (subst (λ n. (used + n + 1) * p.sz_each < 2 ^ 63) (idle_bare m kept bare) room)
taken_out-Counted malloc p m kept used (some a) held c room =
    let count : idle (m ∷ kept) ≡ 1 + idle kept = ap (λ b. has_buffer b + idle kept) held in
    hand_out_old-Counted malloc (record p { kept = kept }) m a used c.total
      (c.unused ∙ ap (λ n. n * p.sz_each) count)
      (subst (λ n. (used + n) * p.sz_each < 2 ^ 63) count c.room)

alloc_from-Counted :
    (fresh : Bool) (malloc : Option ℕ) (p : MemPool) (kept : List Mem) (used : ℕ)
    → Counted used (record p { kept = kept })
    → (used + idle kept + 1) * p.sz_each < 2 ^ 63
    → let r = alloc fresh malloc (record p { kept = kept }) in Counted (handed r.mem used) r.pool
unfolding alloc new_object taken_out
alloc_from-Counted fresh malloc p (m ∷ kept) used c room =
    taken_out-Counted malloc p m kept used m.buf refl c room
alloc_from-Counted true malloc p [] used c room =
    hand_out_new-Counted malloc (record p { kept = [] }) (record { buf = none }) used refl c room
alloc_from-Counted false malloc p [] used c room = c

-- Alloc keeps the counters exact, whatever new and malloc return: with a buffer handed out there is
-- one more in use. One more buffer has to stay below 2 ^ 63 bytes.
pub alloc-Counted :
    (fresh : Bool) (malloc : Option ℕ) (p : MemPool) (used : ℕ)
    → Counted used p
    → (used + idle p.kept + 1) * p.sz_each < 2 ^ 63
    → Counted (handed (alloc fresh malloc p).mem used) (alloc fresh malloc p).pool
alloc-Counted fresh malloc p used c room = alloc_from-Counted fresh malloc p p.kept used c room

-- Free of a buffer that is in use keeps them exact.
pub free-Counted :
    (p : MemPool) (m : Mem) (a used : ℕ)
    → m.buf ≡ some a
    → Counted (suc used) p
    → Counted used (free p m)
unfolding free
free-Counted p m a used held c =
    let count : idle (m ∷ p.kept) ≡ 1 + idle p.kept = ap (λ b. has_buffer b + idle p.kept) held in
    let e = p.sz_each in
    let split = add-mul 1 (idle p.kept) e in
    let split' = add-mul (suc used) (idle p.kept) e in
    let more = suc-times used e in
    record {
      total =
          lower_lem p.sz_total e (omega (arith, c.total)) (omega (arith, c.total, c.room))
          ∙ omega (arith, c.total);
      unused = omega (arith, c.unused, c.room, ap (λ n. n * e) count);
      room =
          omega (arith, c.room, ap (λ n. (used + n) * e) count, add-mul used (1 + idle p.kept) e);
    }
