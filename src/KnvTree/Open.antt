-- ===== src/KnvTree/Open.antt =====
-- Expanded nodes of knv/knv_node.cc whose sizes are known, and what a change of a child does to them.
use mysql_proxy.Common.{
  ℕ, ◌+◌, ◌%◌, ◌^◌, ◌<◌, ◌≡◌, refl, sym, ap, ◌∙◌, true, false, Option, some, List, length, ◌==◌,
  if_true, if_false, Bool-cases, inl, inr, arith, ==_iff,
}
use mathlib.Core.Path.{subst}
use mathlib.Core.Option.{some-injective}
use mysql_proxy.Pb.Types.{FieldVal}
use mysql_proxy.Pb.Wire.{field_bytes, IsSendable}
use mysql_proxy.Pb.Size.{pb_eval_field_length, pb_eval_field_length-field_bytes}
use mysql_proxy.KnvTree.Node.{
  Members, node, Trees, key_value, has_key, is_folded, has_no_subnodes, skips_first, of_length,
}
use mysql_proxy.KnvTree.Wire.{string_of, key_wire, wire, body, NodeSound}
use mysql_proxy.KnvTree.Sizes.{wire-folded, wire-expanded, string_of-IsSendable, eval-of_length}
use mysql_proxy.KnvTree.Updating.{difference, update_eval_sz, size_or_minus_one}

-- A message with the bytes for its value.
abbrev pub message : (tag : ℕ) → List ℕ → List ℕ
message tag bytes = field_bytes tag 2 (string_of bytes)

abbrev pub IsShort : (tag : ℕ) → List ℕ → Type 0
IsShort tag bytes = (length bytes < 2 ^ 31) × (length (message tag bytes) < 2 ^ 31)

-- An expanded node with known sizes; its value, if it is up to date, is that of its subnodes.
pub record Open (d : Members) (ms cs : Trees) : Type 0 where
  pub tag_pos : 0 < d.tag
  pub tag_small : d.tag < 2 ^ 29
  pub is_string : d.type ≡ 2
  pub opened : has_no_subnodes d.child_num ms ≡ false
  pub short : IsShort d.tag (body d ms cs)
  pub keyed : has_key d ≡ true → IsSendable 1 d.key.type (key_value d.key)
  pub size : d.eval_sz ≡ some (length (message d.tag (body d ms cs)))
  pub value : d.eval_val_sz ≡ length (body d ms cs)
  pub content :
      is_folded d ms ≡ true
      → IsSendable d.tag d.type d.val
        × (field_bytes d.tag d.type d.val ≡ message d.tag (body d ms cs))

-- Such a node stands for its subnodes, whether its value is up to date or not.
pub Open-wire :
    (d : Members) (ms cs : Trees)
    → Open d ms cs
    → wire (node d ms cs) ≡ message d.tag (body d ms cs)
Open-wire d ms cs o = elim (Bool-cases (is_folded d ms)) [
  | inl folded ↦ wire-folded d ms cs folded ∙ (o.content folded).1
  | inr expanded ↦ wire-expanded d ms cs expanded
]

pub Open-NodeSound : (d : Members) (ms cs : Trees) → Open d ms cs → NodeSound d ms cs
Open-NodeSound d ms cs o = record {
  tag_pos = o.tag_pos;
  tag_small = o.tag_small;
  short = subst (λ xs. length xs < 2 ^ 31) (sym (Open-wire d ms cs o)) o.short.1;
  leaf = λ folded. (o.content folded).0;
  inner = λ expanded. o.short.0;
  keyed = λ expanded. o.keyed;
  size =
      λ n e. some-injective _ _ (sym e ∙ o.size) ∙ ap (λ xs. length xs) (sym (Open-wire d ms cs o));
  value_size = λ n e expanded. o.value;
}

-- A dirty node is not taken for a leaf.
pub dirty-expanded :
    (d : Members) (ms : Trees)
    → d.type ≡ 2
    → has_no_subnodes d.child_num ms ≡ false
    → d.subnode_dirty ≡ true
    → is_folded d ms ≡ false
unfolding is_folded
dirty-expanded d ms type opened dirty = ground (arith, type, opened, dirty)

-- The node with other children, marked as dirty, and with the sizes that these give it.
abbrev pub reopened : Members → (v : FieldVal) (c : Option ℕ) (tag : ℕ) → List ℕ → Members
reopened d v c tag bytes = record d {
  val = v;
  child_num = c;
  subnode_dirty = true;
  eval_sz = some (length (message tag bytes));
  eval_val_sz = length bytes;
}

pub reopened-Open :
    (d : Members) (ms cs us : Trees) (v : FieldVal) (c : Option ℕ)
    → Open d ms cs
    → has_no_subnodes c ms ≡ false
    → IsShort d.tag (body d ms us)
    → Open (reopened d v c d.tag (body d ms us)) ms us
unfolding has_key key_wire skips_first
reopened-Open d ms cs us v c o opened short = record {
  tag_pos = o.tag_pos;
  tag_small = o.tag_small;
  is_string = o.is_string;
  opened = opened;
  short = short;
  keyed = o.keyed;
  size = refl;
  value = refl;
  content = λ folded. absurd (
      clash (
        sym folded
        ∙ dirty-expanded (reopened d v c d.tag (body d ms us)) ms o.is_string opened refl));
}
  where
    clash : true ≡ false → ⊥
    clash e = ground arith

-- The size of a message is told by its length.
pub message_size :
    (tag : ℕ) (bytes : List ℕ)
    → tag < 2 ^ 29
    → IsShort tag bytes
    → pb_eval_field_length tag 2 (of_length (length bytes)) ≡ length (message tag bytes)
message_size tag bytes small short =
    eval-of_length tag bytes short.0
    ∙ pb_eval_field_length-field_bytes tag 2 (string_of bytes)
        (string_of-IsSendable tag bytes small short.0) short.1

-- UPDATE_EVAL_SZ at a node whose value goes from the bytes `xs` to `ys`.
pub record Resized (d : Members) (xs ys : List ℕ) (r : Members × ℕ) : Type 0 where
  pub members :
      r.0 ≡ record d { eval_val_sz = length ys; eval_sz = some (length (message d.tag ys)) }
  pub change : r.1 ≡ difference (length (message d.tag ys)) (length (message d.tag xs))

-- A change by nothing.
pub no_change : (a b : ℕ) → a < 2 ^ 31 → b < 2 ^ 31 → difference a b ≡ 0 → a ≡ b
no_change a b ha hb h = omega arith

no_difference : (a b : ℕ) → a ≡ b → a < 2 ^ 31 → 0 ≡ difference a b
no_difference a b e h = omega arith

sum_of :
    (v offset x y : ℕ)
    → v ≡ x
    → offset ≡ difference y x
    → x < 2 ^ 31
    → y < 2 ^ 31
    → (v + offset) % 2 ^ 32 ≡ y
sum_of v offset x y e h hx hy = omega arith

pub sizes_set :
    (d : Members) (e : Option ℕ) (v : ℕ)
    → d.eval_sz ≡ e
    → d.eval_val_sz ≡ v
    → d ≡ record d { eval_val_sz = v; eval_sz = e }
sizes_set d e v p q = λ i. record d { eval_val_sz = q i; eval_sz = p i }

pub update_eval_sz-Resized :
    (d : Members) (xs ys : List ℕ) (offset : ℕ)
    → d.tag < 2 ^ 29
    → d.type ≡ 2
    → IsShort d.tag xs
    → IsShort d.tag ys
    → d.eval_sz ≡ some (length (message d.tag xs))
    → d.eval_val_sz ≡ length xs
    → offset ≡ difference (length ys) (length xs)
    → Resized d xs ys (update_eval_sz d offset)
unfolding update_eval_sz
update_eval_sz-Resized d xs ys offset small type short_xs short_ys size value e =
    elim (Bool-cases (offset == 0)) [
      | inl zero_offset ↦ subst (Resized d xs ys) (sym (if_true _ _ zero_offset)) (
          let same : length ys ≡ length xs =
            no_change (length ys) (length xs) short_ys.0 short_xs.0
              (sym e ∙ (==_iff offset 0).0 zero_offset) in
          let sizes : length (message d.tag ys) ≡ length (message d.tag xs) =
            sym (message_size d.tag ys small short_ys)
            ∙ ap (λ n. pb_eval_field_length d.tag 2 (of_length n)) same
            ∙ message_size d.tag xs small short_xs in
          record {
            members = sizes_set d _ _ (size ∙ ap some (sym sizes)) (value ∙ sym same);
            change = (==_iff offset 0).0 zero_offset ∙ no_difference _ _ sizes short_ys.1;
          })
      | inr moved ↦ subst (Resized d xs ys) (sym (if_false _ _ moved)) (record {
        members = λ i. record d { eval_val_sz = grown i; eval_sz = some (grown_size i) };
        change =
            ap (λ n. difference n (size_or_minus_one d.eval_sz)) grown_size
            ∙ ap (λ (o : Option ℕ). difference (length (message d.tag ys)) (size_or_minus_one o))
                size;
      })
    ]
  where
    grown : (d.eval_val_sz + offset) % 2 ^ 32 ≡ length ys
    grown = sum_of _ _ _ _ value e short_xs.0 short_ys.0

    grown_size :
        pb_eval_field_length d.tag d.type (of_length ((d.eval_val_sz + offset) % 2 ^ 32))
        ≡ length (message d.tag ys)
    grown_size =
        ap (λ n. pb_eval_field_length d.tag d.type (of_length n)) grown
        ∙ ap (λ t. pb_eval_field_length d.tag t (of_length (length ys))) type
        ∙ message_size d.tag ys small short_ys
