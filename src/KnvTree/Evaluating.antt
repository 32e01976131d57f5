-- ===== src/KnvTree/Evaluating.antt =====
-- EvaluateSize of knv/knv_node.cc against the bytes that a tree stands for.
use mysql_proxy.Common.{
  ℕ, ◌+◌, ◌^◌, ◌<◌, ◌≡◌, refl, sym, ap, ◌∙◌, Bool, true, false, Option, none, some, ◌++◌, length,
  length-append, ◌==◌, if◌then◌else◌, if_true, if_false, Bool-cases, inl, inr, arith,
}
use mathlib.Core.Path.{subst}
use mathlib.Core.Option.{some-injective}
use mysql_proxy.Pb.Types.{get_i32, wt_string}
use mysql_proxy.Pb.Wire.{field_bytes}
use mysql_proxy.Pb.Size.{pb_eval_field_length, pb_eval_field_length-field_bytes}
use mysql_proxy.KnvTree.Node.{
  Members, KnvTree, node, Trees, nil, cons, is_folded, skips_first, leaf_sized, node_sized, sized,
  key_size, sum_sizes, of_length, evaluate, evaluate_list, evaluate_size,
}
use mysql_proxy.KnvTree.Wire.{string_of, key_wire, wire, wires, body, NodeSound, Sound, AllSound}
use mysql_proxy.KnvTree.Sizes.{
  NodeSound-sizes, SizedList, SizedTree, body-same, eval-of_length, is_folded-same, is_folded-type,
  key_size-length, skips_first-same, string_of-IsSendable, unchanged, wire-expanded, wire-folded,
  wire-same,
}

-- What EvaluateSize does at a node, when its subnodes have their sizes.
module _ (d : Members) (ms cs us vs : Trees) (s : NodeSound d ms cs) (all_ms : AllSound ms)
    (all_cs : AllSound cs) (m : SizedList (skips_first d ms) ms us)
    (c : SizedList false cs vs) where
  length-body :
      length (body d ms cs)
      ≡ length (key_wire d) + length (wires (skips_first d ms) ms) + length (wires false cs)
  length-body = omega (
    arith,
    length-append (key_wire d ++ wires (skips_first d ms) ms) (wires false cs),
    length-append (key_wire d) (wires (skips_first d ms) ms),
  )

  -- A leaf.
  leaf-SizedTree : is_folded d ms ≡ true → SizedTree (node d ms cs) (node (leaf_sized d) ms cs)
  unfolding leaf_sized
  leaf-SizedTree folded =
      let n = pb_eval_field_length d.tag d.type d.val in
      let v = if d.type == wt_string then get_i32 d.val else 0 in
      let size : n ≡ length (wire (node d ms cs)) = leaf_size in
      let mm = unchanged (skips_first d ms) ms in
      let cc = unchanged false cs in
      record {
        size = size;
        same = wire-same d (some n) v ms cs ms cs mm cc;
        sound = (
          NodeSound-sizes d (some n) v ms cs ms cs mm cc s
              (λ k e. sym (some-injective _ _ e) ∙ size)
              (λ inner. absurd (clash (sym folded ∙ inner))),
          all_ms,
          all_cs,
        );
        tag_kept = refl;
        value = λ inner. absurd (clash (sym folded ∙ inner));
        folded_kept = is_folded-same d (some n) v ms ms refl;
        body_kept = body-same d (some n) v ms cs ms cs mm cc;
        word_kept = refl;
      }
    where
      clash : true ≡ false → ⊥
      clash e = ground arith

      wire_leaf : wire (node d ms cs) ≡ field_bytes d.tag d.type d.val
      wire_leaf = wire-folded d ms cs folded

      leaf_size : pb_eval_field_length d.tag d.type d.val ≡ length (wire (node d ms cs))
      leaf_size =
          pb_eval_field_length-field_bytes d.tag d.type d.val (s.leaf folded)
            (subst (λ xs. length xs < 2 ^ 31) wire_leaf s.short)
          ∙ ap (λ xs. length xs) (sym wire_leaf)

  -- An expanded node.
  expanded-SizedTree :
      is_folded d ms ≡ false → SizedTree (node d ms cs) (node (node_sized d us vs) us vs)
  unfolding node_sized
  expanded-SizedTree expanded =
      let n = key_size d + sum_sizes (skips_first d us) us + sum_sizes false vs in
      let e = pb_eval_field_length d.tag d.type (of_length n) in
      record {
        size = size;
        same = wire-same d (some e) n ms cs us vs m.kept c.kept;
        sound = (
          NodeSound-sizes d (some e) n ms cs us vs m.kept c.kept s
              (λ k h. sym (some-injective _ _ h) ∙ size) (λ inner. value),
          m.sound,
          c.sound,
        );
        tag_kept = refl;
        value = λ inner. value;
        folded_kept = is_folded-same d (some e) n us ms m.kept.empty;
        body_kept = body-same d (some e) n ms cs us vs m.kept c.kept;
        word_kept = refl;
      }
    where
      value :
          key_size d + sum_sizes (skips_first d us) us + sum_sizes false vs ≡ length (body d ms cs)
      value = omega (
        arith,
        key_size-length d (length (body d ms cs)) (s.keyed expanded) (omega (arith, length-body))
            (s.inner expanded),
        ap (λ b. sum_sizes b us)
            (skips_first-same d d.eval_sz d.eval_val_sz us ms m.kept.key_first),
        m.sum,
        c.sum,
        length-body,
      )

      size :
          pb_eval_field_length d.tag d.type
            (of_length (key_size d + sum_sizes (skips_first d us) us + sum_sizes false vs))
          ≡ length (wire (node d ms cs))
      size =
          ap (λ k. pb_eval_field_length d.tag d.type (of_length k)) value
          ∙ ap (λ t. pb_eval_field_length d.tag t (of_length (length (body d ms cs))))
              (is_folded-type d ms expanded)
          ∙ eval-of_length d.tag (body d ms cs) (s.inner expanded)
          ∙ pb_eval_field_length-field_bytes d.tag 2 (string_of (body d ms cs))
              (string_of-IsSendable d.tag (body d ms cs) s.tag_small (s.inner expanded))
              (subst (λ xs. length xs < 2 ^ 31) (wire-expanded d ms cs expanded) s.short)
          ∙ ap (λ xs. length xs) (sym (wire-expanded d ms cs expanded))

  pub sized-SizedTree :
      (o : Option ℕ) → d.eval_sz ≡ o → SizedTree (node d ms cs) (sized d ms cs us vs o)
  unfolding sized
  sized-SizedTree (some n) known = record {
    size = ap (λ (e : Option ℕ). elim e [ none ↦ 0 | some k ↦ k ]) known ∙ s.size n known;
    same = refl;
    sound = (s, all_ms, all_cs);
    tag_kept = refl;
    value = s.value_size n known;
    folded_kept = refl;
    body_kept = refl;
    word_kept = refl;
  }
  sized-SizedTree none unknown = elim (Bool-cases (is_folded d ms)) [
    | inl folded ↦
        subst (SizedTree (node d ms cs)) (sym (if_true _ _ folded)) (leaf-SizedTree folded)
    | inr expanded ↦
        subst (SizedTree (node d ms cs)) (sym (if_false _ _ expanded)) (expanded-SizedTree expanded)
  ]

cons-SizedList :
    (t u : KnvTree) (ts us : Trees)
    → SizedTree t u
    → SizedList false ts us
    → SizedList false (cons t ts) (cons u us)
unfolding sum_sizes wires
cons-SizedList t u ts us one rest = record {
  sum = omega (arith, one.size, rest.sum, length-append (wire t) (wires false ts));
  sound = (one.sound, rest.sound);
  kept = record {
    same = ap (λ xs. xs ++ wires false us) one.same ∙ ap (λ ys. wire t ++ ys) rest.kept.same;
    empty = refl;
    key_first = ap (λ k. k == 1) one.tag_kept;
  };
}

mutual
  unfolding evaluate sum_sizes wires

  pub evaluate-SizedTree : (t : KnvTree) → Sound t → SizedTree t (evaluate t)
  evaluate-SizedTree (node d ms cs) (s, all_ms, all_cs) =
      sized-SizedTree d ms cs _ _ s all_ms all_cs
        (evaluate_list-SizedList (skips_first d ms) ms all_ms)
        (evaluate_list-SizedList false cs all_cs) d.eval_sz refl

  evaluate_list-SizedList :
      (skip : Bool) (ts : Trees) → AllSound ts → SizedList skip ts (evaluate_list skip ts)
  evaluate_list-SizedList skip nil all = record {
    sum = none_there skip;
    sound = tt;
    kept = unchanged skip nil;
  }
    where
      none_there : (b : Bool) → sum_sizes b nil ≡ length (wires b nil)
      none_there b = refl
  evaluate_list-SizedList true (cons t ts) (one, all) =
      let rest = evaluate_list-SizedList false ts all in
      record {
        sum = rest.sum;
        sound = (one, rest.sound);
        kept = record { same = rest.kept.same; empty = refl; key_first = refl };
      }
  evaluate_list-SizedList false (cons t ts) (one, all) =
      cons-SizedList t (evaluate t) ts (evaluate_list false ts) (evaluate-SizedTree t one)
        (evaluate_list-SizedList false ts all)

-- EvaluateSize is the number of bytes that the tree takes on the wire, for every tree whose known
-- sizes are right and whose fields the format can carry; the sizes that it leaves are right, and
-- the tree stands for the same bytes.
pub evaluate_size-wire :
    (t : KnvTree)
    → Sound t
    → (evaluate_size t ≡ length (wire t)) × (wire (evaluate t) ≡ wire t) × Sound (evaluate t)
unfolding evaluate_size
evaluate_size-wire t s = let e = evaluate-SizedTree t s in (e.size, e.same, e.sound)
