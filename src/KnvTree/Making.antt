-- ===== src/KnvTree/Making.antt =====
-- knv_key_t::init and InitNode of knv/knv_node.cc on a field that was read from a message.
use mysql_proxy.Common.{
  ℕ, zero, suc, ◌+◌, ◌%◌, ◌^◌, ◌≤◌, ◌<◌, ◌≡◌, refl, sym, ap, ◌∙◌, Bool, true, false, ◌||◌, not,
  Option, none, some, List, [], ◌∷◌, take, length, length-take_le, ltb, ◌==◌, if◌then◌else◌,
  if_true, if_false, Bool-cases, inl, inr, arith, ==_iff,
}
use mathlib.Core.Path.{subst}
use mathlib.Core.Option.{some-injective}
use mysql_proxy.Pb.Types.{Run, ok, err, fault, stuck, Field, FieldVal, get_i32, set_i32, wt_string}
use mysql_proxy.Pb.Wire.{IsSendable, SameValue, known_type, known_type-cases}
use mysql_proxy.Pb.Reader.{pb_begin}
use mysql_proxy.Pb.Reader.Safety.{Safe, pb_begin-Safe}
use mysql_proxy.Pb.Size.{pb_eval_field_length}
use mysql_proxy.KnvTree.Node.{KnvKey, Members, node, nil, has_no_subnodes, is_folded}
use mysql_proxy.KnvTree.Wire.{wire, NodeSound}
use mysql_proxy.KnvTree.Sizes.{wire-folded}
use mysql_proxy.KnvTree.Expand.{
  blank_field, pooled_node, init_val, str_len_of, key_in, find_key, init_members, init_node,
}
use mysql_proxy.KnvTree.Fields.{SubField, bytes_of, Made, SameValue-bytes}

-- A read that ends within the data gives a key or none, and a node that is not expanded.
pub record KeyFound (r : Option (KnvKey × Option ℕ)) : Type 0 where
  pub key : KnvKey
  pub number : Option ℕ
  pub result : r ≡ some (key, number)
  pub leaf : has_no_subnodes number nil ≡ true

key_in-KeyFound : (f : Field) (m : Run Field (Unit {0})) → Safe 1 f m → KeyFound (key_in m)
unfolding key_in
key_in-KeyFound f (ok a g) s = record { key = _; number = none; result = refl; leaf = refl }
key_in-KeyFound f (err c g) s = record { key = _; number = some 0; result = refl; leaf = refl }
key_in-KeyFound f fault s = absurd s
key_in-KeyFound f stuck s = absurd s

find_key-KeyFound :
    (val : FieldVal) (n : ℕ) (force : Bool)
    → n ≤ length val.str_data
    → KeyFound (find_key val n force)
unfolding find_key
find_key-KeyFound val n force inside = elim (Bool-cases (n == 0)) [
  | inl empty ↦
      subst KeyFound (sym (if_true _ _ empty))
        (record { key = _; number = some 0; result = refl; leaf = refl })
  | inr nonempty ↦ subst KeyFound (sym (if_false _ _ nonempty)) (elim (Bool-cases force) [
    | inl keyless ↦
        subst KeyFound (sym (if_true _ _ keyless))
          (record { key = _; number = none; result = refl; leaf = refl })
    | inr keyed ↦ subst KeyFound (sym (if_false _ _ keyed)) (
        key_in-KeyFound (record blank_field { ptr = val.str_data; left = n })
          (pb_begin blank_field val.str_data n) (pb_begin-Safe blank_field val.str_data n inside))
  ])
]

-- The value of the node is that of the field.
abbrev Taken : FieldVal → FieldVal → ℕ → Type 0
Taken v got t =
    SameValue t v got
    → got.i64 < 2 ^ 64
    → SameValue t v (init_val t (some got)) × ((init_val t (some got)).i64 < 2 ^ 64)

init_val-Taken : (t : ℕ) (v got : FieldVal) → known_type t ≡ true → Taken v got t
unfolding init_val SameValue get_i32 set_i32
init_val-Taken t v got known = elim (known_type-cases t known) [
  | inl (inl z) ↦ moved z λ same small. (same, small)
  | inl (inr z) ↦ moved z λ same small. (same, small)
  | inr (inl z) ↦ moved z λ same small.
      let e : got.i64 % 2 ^ 32 ≡ (0 + got.i64 % 2 ^ 32 % 2 ^ 32) % 2 ^ 32 = omega arith in
      ((same.0 ∙ e, same.1 ∙ ap (λ n. take n got.str_data) e), omega arith)
  | inr (inr z) ↦ moved z λ same small. (same, small)
]
  where
    moved : {k : ℕ} → t ≡ k → Taken v got k → Taken v got t
    moved z h = subst (Taken v got) (sym z) h

take_inside : (n : ℕ) (xs : List ℕ) → n ≤ length (take n xs) → n ≤ length xs
take_inside zero xs h = omega arith
take_inside (suc n) [] h = h
take_inside (suc n) (x ∷ xs) h = omega (arith, take_inside n xs (omega arith))

-- A string that was read stands within the data.
string-inside :
    (v got : FieldVal)
    → SameValue 2 v got
    → get_i32 v ≤ length v.str_data
    → get_i32 got ≤ length got.str_data
unfolding SameValue
string-inside v got same inside = take_inside (get_i32 got) got.str_data (
    omega
      (arith, same.0, ap (λ xs. length xs) same.1, length-take_le (get_i32 v) v.str_data inside))

-- InitNode on the value of a field: a node that stands for the bytes of the field.
pub record MadeNode (s : SubField) (r : Option Members) : Type 0 where
  pub members : Members
  pub result : r ≡ some members
  pub made : Made s (node members nil nil)

module _ (s : SubField) (got : FieldVal) (sz : ℕ) (force : Bool)
    (sendable : IsSendable s.tag s.type s.val) (pos : 0 < s.tag) (same : SameValue s.type s.val got)
    (word : got.i64 < 2 ^ 64) (size : sz ≡ length (bytes_of s)) (some_bytes : 0 < sz)
    (short : sz < 2 ^ 31) where
  abbrev val : FieldVal
  val = init_val s.type (some got)

  taken : SameValue s.type s.val val × (val.i64 < 2 ^ 64)
  taken = init_val-Taken s.type s.val got sendable.known same word

  got_inside : s.type ≡ 2 → get_i32 got ≤ length got.str_data
  got_inside z =
      string-inside s.val got (subst (λ t. SameValue t s.val got) z same) (sendable.inside z)

  val_inside : s.type ≡ 2 → get_i32 val ≤ length val.str_data
  val_inside z =
      string-inside s.val val (subst (λ t. SameValue t s.val val) z taken.0) (sendable.inside z)

  str_len_inside : str_len_of s.type (some got) ≤ length val.str_data
  unfolding str_len_of init_val
  str_len_inside = elim (Bool-cases (s.type == 2)) [
    | inl two ↦ rw two (got_inside ((==_iff s.type 2).0 two))
    | inr other ↦ rw other (omega arith)
  ]

  module _ (k : KeyFound (find_key val (str_len_of s.type (some got)) force)) where
    abbrev new_members : Members
    new_members = record pooled_node {
      tag = s.tag;
      type = s.type;
      val = val;
      key = k.key;
      child_num = k.number;
      no_key = force || not (s.type == wt_string);
      eval_sz = some sz;
      eval_val_sz = str_len_of s.type (some got);
    }

    new_folded : is_folded new_members nil ≡ true
    unfolding is_folded
    new_folded = ground (arith, k.leaf)

    new_bytes : wire (node new_members nil nil) ≡ bytes_of s
    new_bytes =
        wire-folded new_members nil nil new_folded
        ∙ sym (SameValue-bytes s.tag s.type s.val val sendable.known taken.0)

    new_NodeSound : NodeSound new_members nil nil
    new_NodeSound = record {
      tag_pos = pos;
      tag_small = sendable.tag_small;
      short = omega (arith, size, ap (λ xs. length xs) new_bytes);
      leaf = λ folded. record {
        tag_small = sendable.tag_small;
        known = sendable.known;
        value_small = taken.1;
        inside = val_inside;
      };
      inner = λ expanded. absurd (clash (sym new_folded ∙ expanded));
      keyed = λ expanded. absurd (clash (sym new_folded ∙ expanded));
      size = λ n e. some-injective _ _ (sym e) ∙ size ∙ ap (λ xs. length xs) (sym new_bytes);
      value_size = λ n e expanded. absurd (clash (sym new_folded ∙ expanded));
    }
      where
        clash : true ≡ false → ⊥
        clash e = ground arith

    new_Made : Made s (node new_members nil nil)
    new_Made = record { sound = (new_NodeSound, tt, tt); bytes = new_bytes; tag = refl }

  pub init_node-MadeNode : MadeNode s (init_node s.tag s.type (some got) sz force)
  unfolding init_node
  init_node-MadeNode =
      let k = find_key-KeyFound val (str_len_of s.type (some got)) force str_len_inside in
      record {
        members = new_members k;
        result =
            ap (init_members s.tag s.type (some got) sz force) k.result
            ∙ ap
                (λ (b : Bool). some (record (new_members k) {
                  eval_sz = some (if b then sz else pb_eval_field_length s.tag s.type val);
                }))
                (sized sz some_bytes);
        made = new_Made k;
      }
    where
      sized : (n : ℕ) → 0 < n → ltb 0 n ≡ true
      sized n h = ground arith
