-- ===== src/KnvTree/Sizes.antt =====
-- What the sizes in a node of knv/knv_node.cc are about, and nodes that differ in them.
use mysql_proxy.Common.{
  ℕ, ◌%◌, ◌^◌, ◌≤◌, ◌<◌, ◌≡◌, refl, sym, ap, ◌∙◌, Bool, true, false, ◌&&◌, ◌||◌, not, Option, none,
  some, List, [], ◌++◌, length, ◌==◌, if◌then◌else◌, if_true, if_false, Bool-cases, inl, inr, arith,
}
use mathlib.Core.Path.{subst}
use mysql_proxy.Pb.Types.{get_i32, wt_string}
use mysql_proxy.Pb.Wire.{field_bytes, IsSendable, known_type}
use mysql_proxy.Pb.Size.{pb_eval_field_length, pb_eval_field_length-field_bytes}
use mysql_proxy.KnvTree.Node.{
  Members, KnvTree, node, Trees, key_value, has_key, is_buffer_valid, is_folded, is_nil,
  first_is_key, has_no_subnodes, skips_first, key_size, sum_sizes, eval_sz_of, eval_val_sz_of,
  tag_of, of_length,
}
use mysql_proxy.KnvTree.Wire.{
  string_of, key_wire, node_wire, wire, wires, body, body_of, folded_of, NodeSound, Sound, AllSound,
}

-- A list that stands for the same bytes.
pub record SameList (skip : Bool) (ts us : Trees) : Type 0 where
  pub same : wires skip us ≡ wires skip ts
  pub empty : is_nil us ≡ is_nil ts
  pub key_first : first_is_key us ≡ first_is_key ts

pub unchanged : (skip : Bool) (ts : Trees) → SameList skip ts ts
unchanged skip ts = record { same = refl; empty = refl; key_first = refl }

-- The nodes of the second list have their sizes.
pub record SizedList (skip : Bool) (ts us : Trees) : Type 0 where
  pub sum : sum_sizes skip us ≡ length (wires skip ts)
  pub sound : AllSound us
  pub kept : SameList skip ts us

abbrev pub word_of : KnvTree → ℕ
word_of (node d ms cs) = d.val.i64

-- The same for a node.
pub record SizedTree (t u : KnvTree) : Type 0 where
  pub size : eval_sz_of u ≡ length (wire t)
  pub same : wire u ≡ wire t
  pub sound : Sound u
  pub tag_kept : tag_of u ≡ tag_of t
  pub value : folded_of t ≡ false → eval_val_sz_of u ≡ length (body_of t)
  pub folded_kept : folded_of u ≡ folded_of t
  pub body_kept : body_of u ≡ body_of t
  pub word_kept : word_of u ≡ word_of t

-- The sizes of a node do not say which kind of node it is.
pub has_no_subnodes-same :
    (c : Option ℕ) (us ms : Trees)
    → is_nil us ≡ is_nil ms
    → has_no_subnodes c us ≡ has_no_subnodes c ms
has_no_subnodes-same none us ms e = refl
has_no_subnodes-same (some n) us ms e = rw e

pub is_folded-same :
    (d : Members) (e : Option ℕ) (v : ℕ) (us ms : Trees)
    → is_nil us ≡ is_nil ms
    → is_folded (record d { eval_sz = e; eval_val_sz = v }) us ≡ is_folded d ms
unfolding is_folded
is_folded-same d e v us ms h =
    ap (λ b. not (d.type == wt_string) || b || (is_buffer_valid d.val && not d.subnode_dirty))
      (has_no_subnodes-same d.child_num us ms h)

pub skips_first-same :
    (d : Members) (e : Option ℕ) (v : ℕ) (us ms : Trees)
    → first_is_key us ≡ first_is_key ms
    → skips_first (record d { eval_sz = e; eval_val_sz = v }) us ≡ skips_first d ms
unfolding skips_first has_key
skips_first-same d e v us ms h = ap (λ b. has_key d && b) h

-- A string that is expanded is a field of the format.
pub string_of-IsSendable :
    (tag : ℕ) (bytes : List ℕ)
    → tag < 2 ^ 29
    → length bytes < 2 ^ 31
    → IsSendable tag 2 (string_of bytes)
unfolding known_type get_i32
string_of-IsSendable tag bytes small short = record {
  tag_small = small;
  known = refl;
  value_small = omega arith;
  inside = λ e. omega arith;
}

-- The size of a string is told by its length alone.
pub eval-of_length :
    (tag : ℕ) (bytes : List ℕ)
    → length bytes < 2 ^ 31
    → pb_eval_field_length tag 2 (of_length (length bytes))
      ≡ pb_eval_field_length tag 2 (string_of bytes)
unfolding pb_eval_field_length get_i32
eval-of_length tag bytes short =
    let e : length bytes % 2 ^ 32 % 2 ^ 32 ≡ length bytes % 2 ^ 32 = omega arith in rw e

pub wire-folded :
    (d : Members) (ms cs : Trees)
    → is_folded d ms ≡ true
    → wire (node d ms cs) ≡ field_bytes d.tag d.type d.val
unfolding wire node_wire
wire-folded d ms cs h = if_true _ _ h

pub wire-expanded :
    (d : Members) (ms cs : Trees)
    → is_folded d ms ≡ false
    → wire (node d ms cs) ≡ field_bytes d.tag 2 (string_of (body d ms cs))
unfolding wire node_wire
wire-expanded d ms cs h = if_false _ _ h

-- A node with other sizes, and with subnodes that stand for the same bytes.
module _ (d : Members) (e : Option ℕ) (v : ℕ) (ms cs us vs : Trees)
    (m : SameList (skips_first d ms) ms us) (c : SameList false cs vs) where
  abbrev with_sizes : Members
  with_sizes = record d { eval_sz = e; eval_val_sz = v }

  pub body-same : body with_sizes us vs ≡ body d ms cs
  unfolding key_wire has_key
  body-same =
      ap (λ s. key_wire d ++ wires s us ++ wires false vs)
        (skips_first-same d e v us ms m.key_first)
      ∙ ap (λ xs. key_wire d ++ xs ++ wires false vs) m.same
      ∙ ap (λ xs. key_wire d ++ wires (skips_first d ms) ms ++ xs) c.same

  pub wire-same : wire (node with_sizes us vs) ≡ wire (node d ms cs)
  unfolding wire node_wire
  wire-same =
      ap
        (λ b.
          if b
          then field_bytes d.tag d.type d.val
          else field_bytes d.tag 2 (string_of (body with_sizes us vs)))
        (is_folded-same d e v us ms m.empty)
      ∙ ap
          (λ xs.
            if is_folded d ms
            then field_bytes d.tag d.type d.val
            else field_bytes d.tag 2 (string_of xs))
          body-same

  pub NodeSound-sizes :
      NodeSound d ms cs
      → ((n : ℕ) → e ≡ some n → n ≡ length (wire (node d ms cs)))
      → (is_folded d ms ≡ false → v ≡ length (body d ms cs))
      → NodeSound with_sizes us vs
  unfolding has_key
  NodeSound-sizes s size value = record {
    tag_pos = s.tag_pos;
    tag_small = s.tag_small;
    short = subst (λ xs. length xs < 2 ^ 31) (sym wire-same) s.short;
    leaf = λ h. s.leaf (sym folded ∙ h);
    inner = λ h. subst (λ xs. length xs < 2 ^ 31) (sym body-same) (s.inner (sym folded ∙ h));
    keyed = λ h. s.keyed (sym folded ∙ h);
    size = λ n h. size n h ∙ ap (λ xs. length xs) (sym wire-same);
    value_size = λ n h inner. value (sym folded ∙ inner) ∙ ap (λ xs. length xs) (sym body-same);
  }
    where
      folded : is_folded with_sizes us ≡ is_folded d ms
      folded = is_folded-same d e v us ms m.empty

-- The key is a field.
pub under : (a n : ℕ) → a ≤ n → n < 2 ^ 31 → a < 2 ^ 31
under a n h k = omega arith

pub key_size-length :
    (d : Members) (n : ℕ)
    → (has_key d ≡ true → IsSendable 1 d.key.type (key_value d.key))
    → length (key_wire d) ≤ n
    → n < 2 ^ 31
    → key_size d ≡ length (key_wire d)
unfolding key_size key_wire
key_size-length d n keyed fits short = elim (Bool-cases (has_key d)) [
  | inl h ↦
      if_true _ _ h
      ∙ pb_eval_field_length-field_bytes 1 d.key.type (key_value d.key) (keyed h) (
          subst (λ xs. length xs < 2 ^ 31)
            (if_true (field_bytes 1 d.key.type (key_value d.key)) [] h)
            (under (length (key_wire d)) n fits short))
      ∙ ap (λ xs. length xs) (sym (if_true (field_bytes 1 d.key.type (key_value d.key)) [] h))
  | inr h ↦
      if_false _ _ h
      ∙ ap (λ xs. length xs) (sym (if_false (field_bytes 1 d.key.type (key_value d.key)) [] h))
]

pub is_folded-type : (d : Members) (ms : Trees) → is_folded d ms ≡ false → d.type ≡ 2
unfolding is_folded
is_folded-type d ms h = ground arith
