-- ===== src/KnvTree/Unread.antt =====
-- Nodes of knv/knv_node.cc whose value is made of fields, and what they are once it is expanded.
use mysql_proxy.Common.{
  ℕ, suc, ◌%◌, ◌^◌, ◌<◌, ◌≡◌, refl, sym, ap, ◌∙◌, true, false, ◌&&◌, none, some, List, [], ◌∷◌,
  ◌++◌, take, take-append_length, take-length, length, length-append, leb, ◌==◌, if◌then◌else◌,
  if_true, if_false, Bool-cases, inl, inr, arith, ==_iff,
}
use mathlib.Core.Path.{subst}
use mysql_proxy.Pb.Types.{get_i32}
use mysql_proxy.Pb.Wire.{field_bytes, IsSendable, SameValue, known_type}
use mysql_proxy.KnvTree.Node.{
  Members, Trees, nil, cons, tag_of, key_value, has_key, has_no_subnodes, skips_first, first_is_key,
}
use mysql_proxy.KnvTree.Wire.{string_of, key_wire, wires, body}
use mysql_proxy.KnvTree.Open.{message, IsShort, Open}
use mysql_proxy.KnvTree.Fields.{
  SubField, bytes_of, all_bytes, metas_of, children_of, AllSendable, AllMade, AllMade-wires,
  SameValue-bytes,
}

-- The first field is the key of the node.
abbrev pub KeyFirst : Members → List SubField → Type 0
KeyFirst d [] = ⊥
KeyFirst d (s ∷ ss) = (s.tag ≡ 1) × (key_wire d ≡ bytes_of s)

-- A node that is not expanded, with known sizes, whose value is made of fields, the metas in front of
-- the children, and the key, if it has one, in front of them all. Behind the value stands `rest`.
pub record Folded (d : Members) (fs : List SubField) (rest : List ℕ) : Type 0 where
  pub tag_pos : 0 < d.tag
  pub tag_small : d.tag < 2 ^ 29
  pub is_string : d.type ≡ 2
  pub folded : d.child_num ≡ none
  pub word : d.val.i64 < 2 ^ 64
  pub bytes : d.val.str_data ≡ all_bytes fs ++ rest
  pub len : get_i32 d.val ≡ length (all_bytes fs)
  pub short : IsShort d.tag (all_bytes fs)
  pub fields : AllSendable fs
  pub ordered : all_bytes (metas_of fs) ++ all_bytes (children_of fs) ≡ all_bytes fs
  pub size : d.eval_sz ≡ some (length (message d.tag (all_bytes fs)))
  pub value : d.eval_val_sz ≡ length (all_bytes fs)
  pub keyed : has_key d ≡ true → IsSendable 1 d.key.type (key_value d.key)
  pub key_first : has_key d ≡ true → KeyFirst d fs

-- The key and the metas behind it are the metas of the message.
pub keyed_front :
    (d : Members) (fs : List SubField) (ms : Trees)
    → has_key d ≡ true
    → KeyFirst d fs
    → AllMade (metas_of fs) ms
    → key_wire d ++ wires (skips_first d ms) ms ≡ all_bytes (metas_of fs)
unfolding wires skips_first
keyed_front d [] ms h k made = absurd k
keyed_front d (s ∷ ss) ms h k made =
    let low : metas_of (s ∷ ss) ≡ s ∷ metas_of ss =
      if_true {b = leb s.tag 10} _ _ (ground (arith, k.0)) in
    go ms (subst (λ xs. AllMade xs ms) low made) ∙ ap all_bytes (sym low)
  where
    go :
        (ms : Trees)
        → AllMade (s ∷ metas_of ss) ms
        → key_wire d ++ wires (skips_first d ms) ms ≡ all_bytes (s ∷ metas_of ss)
    go nil m = absurd m
    go (cons t ts) m =
        ap (λ b. key_wire d ++ wires b (cons t ts))
          (ap (λ b. b && (tag_of t == 1)) h ∙ (==_iff (tag_of t) 1).1 (m.0.tag ∙ k.0))
        ∙ ap (λ xs. xs ++ wires false ts) k.1
        ∙ ap (λ xs. bytes_of s ++ xs) (AllMade-wires (metas_of ss) ts m.1)

pub front :
    (d : Members) (fs : List SubField) (ms : Trees)
    → (has_key d ≡ true → KeyFirst d fs)
    → AllMade (metas_of fs) ms
    → key_wire d ++ wires (skips_first d ms) ms ≡ all_bytes (metas_of fs)
unfolding key_wire skips_first
front d fs ms k made = elim (Bool-cases (has_key d)) [
  | inl h ↦ keyed_front d fs ms h (k h) made
  | inr h ↦
      ap
        (λ b.
          (if b then field_bytes 1 d.key.type (key_value d.key) else [])
          ++ wires (b && first_is_key ms) ms)
        h
      ∙ AllMade-wires (metas_of fs) ms made
]

-- The subnodes are the value.
pub made_body :
    (d : Members) (fs : List SubField) (ms cs : Trees)
    → (has_key d ≡ true → KeyFirst d fs)
    → all_bytes (metas_of fs) ++ all_bytes (children_of fs) ≡ all_bytes fs
    → AllMade (metas_of fs) ms
    → AllMade (children_of fs) cs
    → body d ms cs ≡ all_bytes fs
made_body d fs ms cs k ordered ms_made cs_made =
    ap (λ xs. xs ++ wires false cs) (front d fs ms k ms_made)
    ∙ ap (λ xs. all_bytes (metas_of fs) ++ xs) (AllMade-wires (children_of fs) cs cs_made)
    ∙ ordered

pub none_left : (n : ℕ) → ((suc n == 0) && true) ≡ false
none_left n = ground arith

-- A message with a field has a subnode.
pub made_opened :
    (s : SubField) (ss : List SubField) (ms : Trees)
    → AllMade (metas_of (s ∷ ss)) ms
    → has_no_subnodes (some (length (children_of (s ∷ ss)))) ms ≡ false
made_opened s ss nil made = elim (Bool-cases (leb s.tag 10)) [
  | inl low ↦ absurd (subst (λ xs. AllMade xs nil) (if_true _ _ low) made)
  | inr high ↦
      ap (λ xs. (length xs == 0) && true) (if_false _ _ high) ∙ none_left (length (children_of ss))
]
made_opened s ss (cons t ts) made = ground arith

pub value-bytes :
    (d : Members) (fs : List SubField) (rest : List ℕ)
    → Folded d fs rest
    → field_bytes d.tag d.type d.val ≡ message d.tag (all_bytes fs)
unfolding SameValue get_i32 known_type
value-bytes d fs rest f =
    let n = length (all_bytes fs) in
    let small : n % 2 ^ 32 ≡ n = omega (arith, f.short.0) in
    let first : take n d.val.str_data ≡ all_bytes fs =
      ap (take n) f.bytes ∙ take-append_length n (all_bytes fs) rest refl in
    ap (λ t. field_bytes d.tag t d.val) f.is_string
    ∙ SameValue-bytes d.tag 2 d.val (string_of (all_bytes fs)) refl (
      f.len ∙ sym small,
      ap (λ k. take k d.val.str_data) f.len
          ∙ first
          ∙ sym (ap (λ k. take k (all_bytes fs)) small ∙ take-length (all_bytes fs)),
    )

pub value-IsSendable :
    (d : Members) (fs : List SubField) (rest : List ℕ)
    → Folded d fs rest
    → IsSendable d.tag d.type d.val
unfolding known_type
value-IsSendable d fs rest f = record {
  tag_small = f.tag_small;
  known = ap known_type f.is_string;
  value_small = f.word;
  inside =
      λ z. omega (arith, f.len, ap (λ xs. length xs) f.bytes, length-append (all_bytes fs) rest);
}

-- The node with the subnodes that were made of its value.
abbrev pub expanded_members : Members → ℕ → Members
expanded_members d n = record d { subnode_dirty = false; child_num = some n }

pub expanded-Open :
    (d : Members) (s : SubField) (ss : List SubField) (rest : List ℕ) (ms cs : Trees)
    → Folded d (s ∷ ss) rest
    → AllMade (metas_of (s ∷ ss)) ms
    → AllMade (children_of (s ∷ ss)) cs
    → Open (expanded_members d (length (children_of (s ∷ ss)))) ms cs
unfolding key_wire has_key
expanded-Open d s ss rest ms cs f ms_made cs_made =
    let d' = expanded_members d (length (children_of (s ∷ ss))) in
    let e : body d' ms cs ≡ all_bytes (s ∷ ss) =
      made_body d' (s ∷ ss) ms cs f.key_first f.ordered ms_made cs_made in
    record {
      tag_pos = f.tag_pos;
      tag_small = f.tag_small;
      is_string = f.is_string;
      opened = made_opened s ss ms ms_made;
      short = subst (IsShort d.tag) (sym e) f.short;
      keyed = f.keyed;
      size = f.size ∙ ap (λ xs. some (length (message d.tag xs))) (sym e);
      value = f.value ∙ ap (λ xs. length xs) (sym e);
      content = λ folded. (
        value-IsSendable d (s ∷ ss) rest f,
        value-bytes d (s ∷ ss) rest f ∙ ap (message d.tag) (sym e),
      );
    }
