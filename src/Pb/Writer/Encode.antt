-- ===== src/Pb/Writer/Encode.antt =====
-- What the writer appends, in terms of the wire format.
use mysql_proxy.Common.{
  ℕ, zero, suc, ◌+◌, ◌-◌, ◌*◌, ◌/◌, ◌%◌, ◌^◌, ◌≤◌, ◌<◌, bit_and, bit_or, ◌≡◌, refl, sym, ap, true,
  false, some, List, [], ◌∷◌, ◌++◌, inl, inr, arith, ltb, ◌==◌, take, length, length-append,
  length-take_le, Bool-cases, append_assoc,
}
use mathlib.Core.Path.{subst}
use mysql_proxy.Common.Bits.{and_0x7f, or_0x80}
use mysql_proxy.Pb.Types.{ok, err, or_return, get_i32, FieldVal, Buff, le_bytes}
use mysql_proxy.Pb.Wire.{
  groups, vint, known_type, payload, field_bytes, length-le_bytes, IsSendable, get_i32-lt,
  known_type-lt, tag_word_lem,
}
use mysql_proxy.Pb.Writer.{
  Written, pb_add, vint_loop, unset_last, add_buffer, pb_add_vint, pb_add_tag, add_at,
  pb_add_field_val, add_payload, pb_add_dword, pb_add_ddword, pb_add_string_head,
}

-- One round of the loop writes the low group with its top bit set.
marked_group : (v : ℕ) → bit_or (bit_and v 0x7f) 0x80 % 256 ≡ v % 128 + 128
marked_group v = omega (
  arith,
  ap (λ (t : ℕ). bit_or t 0x80 % 256) (and_0x7f v),
  ap (λ (t : ℕ). t % 256) (or_0x80 (v % 128) (omega arith)),
)

record Filled (k v : ℕ) : Type 0 where
  bytes : List ℕ
  loop : vint_loop (suc k) v ≡ some bytes
  last : unset_last bytes ≡ groups k v
  nonempty : 1 ≤ length bytes

unset_last-cons :
    (b : ℕ) (bytes : List ℕ) → 1 ≤ length bytes → unset_last (b ∷ bytes) ≡ b ∷ unset_last bytes
unfolding unset_last
unset_last-cons b [] h = absurd (omega arith)
unset_last-cons b (c ∷ rest) h = refl

vint_loop-zero : (n : ℕ) → vint_loop n 0 ≡ some []
unfolding vint_loop
vint_loop-zero zero = refl
vint_loop-zero (suc n) = refl

one_group : (k v : ℕ) → 0 < v → v < 128 → Filled k v
unfolding vint_loop unset_last groups
one_group k v pos small = record {
  bytes = (v % 128 + 128) ∷ [];
  loop = loop;
  last = single k;
  nonempty = omega arith;
}
  where
    done : v / 2 ^ 7 ≡ 0
    done = omega arith

    loop : vint_loop (suc k) v ≡ some ((v % 128 + 128) ∷ [])
    loop =
        let nz : (v == 0) ≡ false = ground arith in rw (done, nz, vint_loop-zero k, marked_group v)

    single : (k : ℕ) → bit_and (v % 128 + 128) 0x7f ∷ [] ≡ groups k v
    single zero = ap (λ t. t ∷ []) (omega (arith, and_0x7f (v % 128 + 128)))
    single (suc k) =
        let lt : ltb v 128 ≡ true = ground arith in
        rw lt (ap (λ t. t ∷ []) (omega (arith, and_0x7f (v % 128 + 128))))

vint_loop-Filled : (k v : ℕ) → 0 < v → v < 128 ^ suc k → Filled k v
vint_loop-Filled zero v pos fits = one_group 0 v pos (omega arith)
vint_loop-Filled (suc k) v pos fits = elim (Bool-cases (ltb v 128)) [
  | inl small ↦ one_group (suc k) v pos (ground arith)
  | inr large ↦ more large (vint_loop-Filled k (v / 128) (ground arith) (omega arith))
]
  where
    more : ltb v 128 ≡ false → Filled k (v / 128) → Filled (suc k) v
    more large rest = record {
      bytes = (v % 128 + 128) ∷ rest.bytes;
      loop =
          unfold vint_loop in
          (let nz : (v == 0) ≡ false = ground arith in rw (nz, rest.loop, marked_group v));
      last = rw (unset_last-cons _ rest.bytes rest.nonempty, rest.last) (unfold groups in rw large);
      nonempty = omega (arith, rest.nonempty);
    }

-- pb_add_vint of a number of 64 bits never overruns its ten bytes, and appends the groups.
pub pb_add_vint_lem : (b : Buff) (v : ℕ) → v < 2 ^ 64 → pb_add_vint b v ≡ pb_add b (vint v)
unfolding pb_add_vint vint add_buffer
pb_add_vint_lem b zero fits = unfold groups in refl
pb_add_vint_lem b (suc v) fits =
    let r = vint_loop-Filled 9 (suc v) (omega arith) (omega arith) in
    let nz : (suc v == 0) ≡ false = ground arith in rw (nz, r.loop) (rw r.last)

-- The buffer with more bytes in it.
abbrev pub appended : Buff → List ℕ → Buff
appended b bytes = record b { written = b.written ++ bytes; left = b.left - length bytes }

appended-append : (b : Buff) (xs ys : List ℕ) → appended (appended b xs) ys ≡ appended b (xs ++ ys)
appended-append b xs ys = λ i. record b { written = append_assoc b.written xs ys i; left = left i }
  where
    left : b.left - length xs - length ys ≡ b.left - length (xs ++ ys)
    left = omega (arith, length-append xs ys)

-- A run that appends the bytes if they fit. If they do not, it fails, and the buffer may hold a part
-- of them but nothing behind its end.
pub data Writes (b : Buff) (bytes : List ℕ) : Written → Type 0 where
  all : length bytes ≤ b.left → Writes b bytes (ok tt (appended b bytes))
  full :
      {c : ℕ} {g : Buff}
      → b.left < length bytes
      → length g.written + g.left ≡ length b.written + b.left
      → g.size ≡ b.size
      → Writes b bytes (err c g)

pb_add-Writes : (b : Buff) (bytes : List ℕ) → Writes b bytes (pb_add b bytes)
unfolding pb_add
pb_add-Writes b bytes = elim (Bool-cases (ltb b.left (length bytes))) [
  | inl short ↦ rw short (full (ground arith) refl refl)
  | inr room ↦ rw room (all (ground arith))
]

-- Two runs in a row append what both append.
or_return-Writes :
    (n : ℕ) (b : Buff) (xs ys : List ℕ) (m : Written) (next : Unit {0} → Buff → Written)
    → Writes b xs m
    → Writes (appended b xs) ys (next tt (appended b xs))
    → Writes b (xs ++ ys) (or_return n m next)
or_return-Writes n b xs ys m next (all room) rest = join (next tt (appended b xs)) rest
  where
    join : (r : Written) → Writes (appended b xs) ys r → Writes b (xs ++ ys) r
    join r (all more) =
        let whole : Writes b (xs ++ ys) (ok tt (appended b (xs ++ ys))) =
          all (omega (arith, length-append xs ys)) in
        subst (λ g. Writes b (xs ++ ys) (ok tt g)) (sym (appended-append b xs ys)) whole
    join r (full short same size) =
        full (omega (arith, length-append xs ys)) (omega (arith, length-append b.written xs)) size
or_return-Writes n b xs ys m next (full short same size) rest =
    full (omega (arith, length-append xs ys)) same size

pb_add_tag_lem :
    (b : Buff) (t tag : ℕ)
    → t < 8
    → tag < 2 ^ 29
    → pb_add_tag b t tag ≡ pb_add b (vint (t + 8 * tag))
unfolding pb_add_tag
pb_add_tag_lem b t tag ht hg = rw (tag_word_lem t tag ht hg) (pb_add_vint_lem b _ (omega arith))

pb_add_dword_lem : (b : Buff) (v : ℕ) → pb_add_dword b v ≡ pb_add b (le_bytes 4 v)
unfolding pb_add_dword pb_add
pb_add_dword_lem b v = rw (length-le_bytes 4 v)

pb_add_ddword_lem : (b : Buff) (v : ℕ) → pb_add_ddword b v ≡ pb_add b (le_bytes 8 v)
unfolding pb_add_ddword pb_add
pb_add_ddword_lem b v = rw (length-le_bytes 8 v)

add_at_lem : (b : Buff) (p : List ℕ) (n : ℕ) → n ≤ length p → add_at b p n ≡ pb_add b (take n p)
unfolding add_at pb_add
add_at_lem b p n h =
    let inside : ltb (length p) n ≡ false = ground arith in
    rw (inside, length-take_le n p h)
      (elim (Bool-cases (ltb b.left n)) [ inl e ↦ rw e | inr e ↦ rw e ])

add_string-Writes :
    (b : Buff) (val : FieldVal)
    → get_i32 val ≤ length val.str_data
    → Writes b
        (vint (get_i32 val) ++ take (get_i32 val) val.str_data)
        (or_return 2 (pb_add_vint b (get_i32 val)) (λ _ b'. add_at b' val.str_data (get_i32 val)))
add_string-Writes b val inside =
    let n = get_i32 val in
    or_return-Writes 2 b (vint n) (take n val.str_data) (pb_add_vint b n) _
      (rw (pb_add_vint_lem b n (omega (arith, get_i32-lt val))) (pb_add-Writes b (vint n)))
      (rw (add_at_lem (appended b (vint n)) val.str_data n inside) (pb_add-Writes _ _))

add_payload-Writes :
    (b : Buff) (tag t : ℕ) (val : FieldVal)
    → IsSendable tag t val
    → Writes b (payload t val) (add_payload b t val)
unfolding add_payload payload
add_payload-Writes b tag t val s = elim (Bool-cases (t == 0)) [
  | inl e ↦ rw (e, pb_add_vint_lem b val.i64 s.value_small) (pb_add-Writes b (vint val.i64))
  | inr e₀ ↦ rw e₀ (elim (Bool-cases (t == 1)) [
    | inl e ↦ rw (e, pb_add_ddword_lem b val.i64) (pb_add-Writes b (le_bytes 8 val.i64))
    | inr e₁ ↦ rw e₁ (elim (Bool-cases (t == 2)) [
      | inl e ↦ rw e (add_string-Writes b val (s.inside (ground arith)))
      | inr e₂ ↦ rw e₂ (elim (Bool-cases (t == 5)) [
        | inl e ↦
            rw (e, pb_add_dword_lem b (get_i32 val)) (pb_add-Writes b (le_bytes 4 (get_i32 val)))
        | inr e₅ ↦ absurd (unknown e₀ e₁ e₂ e₅)
      ])
    ])
  ])
]
  where
    unknown : (t == 0) ≡ false → (t == 1) ≡ false → (t == 2) ≡ false → (t == 5) ≡ false → ⊥
    unknown e₀ e₁ e₂ e₅ =
        let known : known_type t ≡ true = s.known in unfold known_type in ground (arith, known)

-- pb_add_field_val appends the bytes of the field exactly when they fit: with room for them it
-- returns 0 and the buffer holds them, and without it returns an error and stays in its bounds.
pub pb_add_field_val-Writes :
    (b : Buff) (tag t : ℕ) (val : FieldVal)
    → IsSendable tag t val
    → Writes b (field_bytes tag t val) (pb_add_field_val b tag t val)
unfolding pb_add_field_val field_bytes
pb_add_field_val-Writes b tag t val s =
    or_return-Writes 1 b (vint (t + 8 * tag)) (payload t val) (pb_add_tag b t tag) _
      (rw (pb_add_tag_lem b t tag (known_type-lt t s.known) s.tag_small) (pb_add-Writes b _))
      (add_payload-Writes (appended b (vint (t + 8 * tag))) tag t val s)

-- pb_add_string_head appends a tag and a length when they fit.
pub pb_add_string_head-Writes :
    (b : Buff) (tag size : ℕ)
    → tag < 2 ^ 29
    → size < 2 ^ 64
    → Writes b (vint (2 + 8 * tag) ++ vint size) (pb_add_string_head b tag size)
unfolding pb_add_string_head
pb_add_string_head-Writes b tag size small fits =
    or_return-Writes 1 b (vint (2 + 8 * tag)) (vint size) (pb_add_tag b 2 tag)
      (λ _ b'. pb_add_vint b' size)
      (rw (pb_add_tag_lem b 2 tag (omega arith) small) (pb_add-Writes b (vint (2 + 8 * tag))))
      (rw (pb_add_vint_lem (appended b (vint (2 + 8 * tag))) size fits) (pb_add-Writes _ _))
