-- ===== src/KnvTree/Expanding.antt =====
-- The loop of InnerExpand of knv/knv_node.cc.
use mysql_proxy.Common.{
  ℕ, zero, suc, ◌+◌, ◌-◌, ◌*◌, ◌^◌, ◌≤◌, ◌<◌, ◌≡◌, refl, sym, ap, ◌∙◌, Bool, true, false, Option,
  some, List, [], ◌∷◌, ◌++◌, append_assoc, length, length-append, leb, ◌==◌, if_true, if_false,
  Bool-cases, inl, inr, arith,
}
use mathlib.Core.Path.{subst}
use mysql_proxy.Pb.Types.{Field, FieldVal}
use mysql_proxy.Pb.Wire.{field_bytes, IsSendable, vint, payload, length-groups, SameValue}
use mysql_proxy.Pb.Reader.{pb_next}
use mysql_proxy.Pb.Reader.Decode.{pb_next-field_bytes}
use mysql_proxy.Pb.Reader.Ends.{pb_next-Ended}
use mysql_proxy.KnvTree.Node.{Members, node, Trees, nil, cons}
use mysql_proxy.KnvTree.Expand.{
  init_node, Subnodes, subnodes, with_meta, with_child, add_subnode, expand_loop,
}
use mysql_proxy.KnvTree.Fields.{
  SubField, bytes_of, all_bytes, metas_of, children_of, AllSendable, AllMade,
}
use mysql_proxy.KnvTree.Making.{MadeNode, init_node-MadeNode}

-- The loop ends with the message, and has made a node of each field.
pub record LoopMade (fs : List SubField) (r : Subnodes) : Type 0 where
  pub metas : Trees
  pub children : Trees
  pub result : r ≡ subnodes 1 metas children (length (children_of fs))
  pub metas_made : AllMade (metas_of fs) metas
  pub children_made : AllMade (children_of fs) children

-- A node in front of those of the rest.
with_meta-LoopMade :
    (s : SubField) (ss : List SubField) (o : Option Members) (r : Subnodes)
    → leb s.tag 10 ≡ true
    → MadeNode s o
    → LoopMade ss r
    → LoopMade (s ∷ ss) (with_meta o r)
with_meta-LoopMade s ss o r low m rest =
    let e : metas_of (s ∷ ss) ≡ s ∷ metas_of ss = if_true _ _ low in
    let c : children_of (s ∷ ss) ≡ children_of ss = if_true _ _ low in
    record {
      metas = cons (node m.members nil nil) rest.metas;
      children = rest.children;
      result =
          ap (λ o. with_meta o r) m.result
          ∙ ap (with_meta (some m.members)) rest.result
          ∙ ap (λ (n : ℕ). subnodes 1 (cons (node m.members nil nil) rest.metas) rest.children n)
              (ap (λ xs. length xs) (sym c));
      metas_made =
          subst (λ xs. AllMade xs (cons (node m.members nil nil) rest.metas)) (sym e)
            (m.made, rest.metas_made);
      children_made = subst (λ xs. AllMade xs rest.children) (sym c) rest.children_made;
    }

with_child-LoopMade :
    (s : SubField) (ss : List SubField) (o : Option Members) (r : Subnodes)
    → leb s.tag 10 ≡ false
    → MadeNode s o
    → LoopMade ss r
    → LoopMade (s ∷ ss) (with_child o r)
with_child-LoopMade s ss o r high m rest =
    let e : metas_of (s ∷ ss) ≡ metas_of ss = if_false _ _ high in
    let c : children_of (s ∷ ss) ≡ s ∷ children_of ss = if_false _ _ high in
    record {
      metas = rest.metas;
      children = cons (node m.members nil nil) rest.children;
      result =
          ap (λ o. with_child o r) m.result
          ∙ ap (with_child (some m.members)) rest.result
          ∙ ap (λ (n : ℕ). subnodes 1 rest.metas (cons (node m.members nil nil) rest.children) n)
              (ap (λ xs. length xs) (sym c));
      metas_made = subst (λ xs. AllMade xs rest.metas) (sym e) rest.metas_made;
      children_made =
          subst (λ xs. AllMade xs (cons (node m.members nil nil) rest.children)) (sym c)
            (m.made, rest.children_made);
    }

pub field_some : (s : SubField) → 0 < length (bytes_of s)
unfolding field_bytes vint
field_some s = omega (
  arith,
  length-append (vint (s.type + 8 * s.tag)) (payload s.type s.val),
  length-groups 9 (s.type + 8 * s.tag),
)

-- A round at the field that was found.
add_subnode-LoopMade :
    (s : SubField) (ss : List SubField) (force : Bool) (nodes : ℕ) (g : Field) (got : FieldVal)
    (xs : List ℕ) (n : ℕ) (r : Subnodes)
    → IsSendable s.tag s.type s.val
    → 0 < s.tag
    → SameValue s.type s.val got
    → got.i64 < 2 ^ 64
    → length (bytes_of s) < 2 ^ 31
    → 0 < nodes
    → LoopMade ss r
    → LoopMade (s ∷ ss) (
        add_subnode force nodes
          (bytes_of s ++ xs)
          (record g { tag = s.tag; type = s.type; val = got; ptr = xs; left = n })
          r)
unfolding add_subnode
add_subnode-LoopMade s ss force nodes g got xs n r sendable pos same word short some_node rest =
    let sz = length (bytes_of s ++ xs) - length xs in
    let size : sz ≡ length (bytes_of s) = omega (arith, length-append (bytes_of s) xs) in
    let made : (k : Bool) → MadeNode s (init_node s.tag s.type (some got) sz k) = λ k.
      init_node-MadeNode s got sz k sendable pos same word size (omega (arith, size, field_some s))
        (omega (arith, size, short)) in
    let there : (nodes == 0) ≡ false = ground (arith, some_node) in
    elim (Bool-cases (leb s.tag 10)) [
      | inl low ↦ subst (LoopMade (s ∷ ss)) (sym (if_true _ _ low)) (
          subst (LoopMade (s ∷ ss)) (sym (if_false _ _ there)) (
            with_meta-LoopMade s ss (init_node s.tag s.type (some got) sz true) r low (made true)
              rest))
      | inr high ↦ subst (LoopMade (s ∷ ss)) (sym (if_false _ _ high)) (
          subst (LoopMade (s ∷ ss)) (sym (if_false _ _ there)) (
            with_child-LoopMade s ss (init_node s.tag s.type (some got) sz force) r high
              (made force) rest))
    ]

-- Each field of the message in its turn, with a round and a node of the pool for each.
pub expand_loop-LoopMade :
    (fs : List SubField) (g : Field) (rest : List ℕ) (force : Bool) (rounds nodes : ℕ)
    → AllSendable fs
    → length (all_bytes fs) < 2 ^ 31
    → length fs ≤ rounds
    → length fs ≤ nodes
    → LoopMade fs (
        expand_loop rounds force nodes
          (all_bytes fs ++ rest)
          (pb_next (record g { ptr = all_bytes fs ++ rest; left = length (all_bytes fs) })))
unfolding expand_loop
expand_loop-LoopMade [] g rest force zero nodes sendable short enough some_nodes =
    let e = pb_next-Ended (record g { ptr = rest; left = 0 }) refl in
    record {
      metas = nil;
      children = nil;
      result =
          ap (expand_loop zero force nodes rest) e.result
          ∙ ap (λ (m : ℕ). subnodes m nil nil 0) e.eom;
      metas_made = tt;
      children_made = tt;
    }
expand_loop-LoopMade [] g rest force (suc k) nodes sendable short enough some_nodes =
    let e = pb_next-Ended (record g { ptr = rest; left = 0 }) refl in
    record {
      metas = nil;
      children = nil;
      result =
          ap (expand_loop (suc k) force nodes rest) e.result
          ∙ ap (λ (m : ℕ). subnodes m nil nil 0) e.eom;
      metas_made = tt;
      children_made = tt;
    }
expand_loop-LoopMade (s ∷ ss) g rest force zero nodes sendable short enough some_nodes =
    absurd (omega (arith, enough))
expand_loop-LoopMade (s ∷ ss) g rest force (suc k) nodes sendable short enough some_nodes =
    let behind = all_bytes ss ++ rest in
    let n = length (all_bytes ss) in
    let sizes : length (all_bytes (s ∷ ss)) ≡ length (bytes_of s) + n =
      length-append (bytes_of s) (all_bytes ss) in
    let found = pb_next-field_bytes g s.tag s.type n s.val behind sendable.0 sendable.1 in
    let f = record g { tag = s.tag; type = s.type; val = found.got; ptr = behind; left = n } in
    let after =
      expand_loop-LoopMade ss f rest force k (nodes - 1) sendable.2 (omega (arith, short, sizes))
        (omega (arith, enough)) (omega (arith, some_nodes)) in
    let round =
      add_subnode-LoopMade s ss force nodes g found.got behind n
        (expand_loop k force (nodes - 1) behind (pb_next f)) sendable.0 sendable.1 found.same
        found.word (omega (arith, short, sizes)) (omega (arith, some_nodes)) after in
    subst (λ xs. at xs (length (all_bytes (s ∷ ss))))
      (sym (append_assoc (bytes_of s) (all_bytes ss) rest))
      (subst (at (bytes_of s ++ behind)) (sym sizes) (
        subst (λ m. LoopMade (s ∷ ss) (expand_loop (suc k) force nodes (bytes_of s ++ behind) m))
          (sym found.result) round))
  where
    at : List ℕ → ℕ → Type 0
    at xs n =
        LoopMade (s ∷ ss)
          (expand_loop (suc k) force nodes xs (pb_next (record g { ptr = xs; left = n })))
