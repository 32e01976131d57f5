-- ===== src/KnvTree/Inserting.antt =====
-- InsertChild, RemoveChildByPos and DetachChild of knv/knv_node.cc on a whole tree.
use mysql_proxy.Common.{
  ℕ, ◌+◌, ◌%◌, ◌^◌, ◌<◌, ◌≡◌, refl, sym, ap, ◌∙◌, Bool, true, false, Option, none, some, List, ◌++◌,
  append-nil, length, length-append, if◌then◌else◌, arith,
}
use mathlib.Core.Path.{subst}
use mysql_proxy.KnvTree.Node.{
  KnvTree, Trees, nil, cons, has_no_subnodes, skips_first, evaluate, evaluate_size,
}
use mysql_proxy.KnvTree.Wire.{key_wire, wire, wires, body, Sound, AllSound}
use mysql_proxy.KnvTree.Evaluating.{evaluate_size-wire}
use mysql_proxy.KnvTree.Updating.{
  join, difference, is_known, Place, resize, one_more, one_less, inner_insert_child, remove_child,
}
use mysql_proxy.KnvTree.Above.{wires-join, AllSound-join}
use mysql_proxy.KnvTree.Changing.{InPlace, value_at, HasRoomFor, Changed, resize-Changed}

-- The children's bytes with those of a new child.
abbrev pub inserted : (at_tail : Bool) → Trees → KnvTree → List ℕ
inserted at_tail cs child =
    if at_tail then wires false cs ++ wire child else wire child ++ wires false cs

abbrev placed : (at_tail : Bool) → Trees → KnvTree → Trees
placed at_tail cs child = if at_tail then join cs (cons child nil) else cons child cs

placed-wires :
    (at_tail : Bool) (cs : Trees) (child : KnvTree)
    → wires false (placed at_tail cs child) ≡ inserted at_tail cs child
unfolding wires
placed-wires true cs child =
    wires-join cs (cons child nil) ∙ ap (λ xs. wires false cs ++ xs) (append-nil (wire child))
placed-wires false cs child = refl

placed-AllSound :
    (at_tail : Bool) (cs : Trees) (child : KnvTree)
    → AllSound cs
    → Sound child
    → AllSound (placed at_tail cs child)
placed-AllSound true cs child s one = AllSound-join cs (cons child nil) s (one, tt)
placed-AllSound false cs child s one = (one, s)

inserted-length :
    (at_tail : Bool) (cs : Trees) (child : KnvTree)
    → length (inserted at_tail cs child) ≡ length (wires false cs) + length (wire child)
inserted-length true cs child = length-append (wires false cs) (wire child)
inserted-length false cs child = omega (arith, length-append (wire child) (wires false cs))

one_more-opened :
    (c : Option ℕ) (ms : Trees)
    → has_no_subnodes c ms ≡ false
    → has_no_subnodes (one_more c) ms ≡ false
one_more-opened none ms h = absurd (clash h)
  where
    clash : true ≡ false → ⊥
    clash e = ground arith
one_more-opened (some n) ms h = ground arith

pub value_at-length :
    (p : Place) (xs : List ℕ)
    → length (value_at p xs)
      ≡ length (key_wire p.members ++ wires (skips_first p.members p.metas) p.metas) + length xs
value_at-length p xs =
    length-append (key_wire p.members ++ wires (skips_first p.members p.metas) p.metas) xs

grown_by :
    (k a n x y : ℕ)
    → x ≡ k + a
    → y ≡ k + (a + n)
    → x < 2 ^ 31
    → y < 2 ^ 31
    → n % 2 ^ 32 ≡ difference y x
grown_by k a n x y hx hy sx sy = omega arith

pub shrunk_by :
    (k a n x y : ℕ)
    → x ≡ k + (a + n)
    → y ≡ k + a
    → x < 2 ^ 31
    → y < 2 ^ 31
    → difference 0 n ≡ difference y x
shrunk_by k a n x y hx hy sx sy = omega arith

-- After InnerInsertChild, at the tail or in front, of a sound child at an expanded node, reached
-- from the root through lists of children, of a tree with known and right sizes, whose nodes above
-- a dirty one are dirty, the tree stands for the bytes with those of the child among them, and the
-- sizes and marks up to the root are right, as long as no node becomes longer than an int can say.
pub inner_insert_child-Changed :
    (at_tail : Bool) (p : Place) (child : KnvTree)
    → InPlace p
    → Sound child
    → HasRoomFor p (inserted at_tail p.children child)
    → Changed p (inner_insert_child at_tail p child) (inserted at_tail p.children child)
unfolding inner_insert_child
inner_insert_child-Changed at_tail p child v s room =
    let e = evaluate_size-wire child s in
    let us = placed at_tail p.children (evaluate child) in
    let same : wires false us ≡ inserted at_tail p.children child =
      placed-wires at_tail p.children (evaluate child)
      ∙ ap (λ xs. if at_tail then wires false p.children ++ xs else xs ++ wires false p.children)
          e.1 in
    let known : is_known p.members.eval_sz ≡ true = ap is_known v.open_node.size in
    let r =
      resize-Changed p us (one_more p.members.child_num) v
        (placed-AllSound at_tail p.children (evaluate child) v.children e.2)
        (one_more-opened p.members.child_num p.metas v.open_node.opened)
        (subst (HasRoomFor p) (sym same) room) (evaluate_size child % 2 ^ 32)
        (grown_by (length (key_wire p.members ++ wires (skips_first p.members p.metas) p.metas))
          (length (wires false p.children)) (evaluate_size child)
          (length (body p.members p.metas p.children)) (length (value_at p (wires false us)))
          (value_at-length p (wires false p.children))
          (omega (
            arith,
            value_at-length p (wires false us),
            ap (λ xs. length xs) same,
            inserted-length at_tail p.children child,
            e.0,
          ))
          v.open_node.short.0
          (subst (λ xs. length (value_at p xs) < 2 ^ 31) (sym same) room.here.0)) in
    subst (λ k. Changed p (after k) (inserted at_tail p.children child)) (sym known)
      (subst (Changed p (after true)) same r)
  where
    after : Bool → Place
    after known =
        resize
          (record p {
            members = record (p.members) { child_num = one_more p.members.child_num };
            children = placed at_tail p.children (if known then evaluate child else child);
          })
          (if known then evaluate_size child % 2 ^ 32 else 0)

lengths :
    (ts : Trees) (t : KnvTree) (us : Trees)
    → length (wires false ts ++ wires false (cons t us))
      ≡ length (wires false ts) + length (wires false us) + length (wire t)
unfolding wires
lengths ts t us = omega (
  arith,
  length-append (wires false ts) (wire t ++ wires false us),
  length-append (wire t) (wires false us),
)

-- After RemoveChildByPos or DetachChild of a child of an expanded node with another subnode,
-- reached from the root through lists of children, of a tree with known and right sizes, whose
-- nodes above a dirty one are dirty, the tree stands for the bytes without those of the child, and
-- the sizes and marks up to the root are right, as long as no node becomes longer than an int can
-- say.
pub remove_child-Changed :
    (p : Place) (before : Trees) (child : KnvTree) (behind : Trees)
    → p.children ≡ join before (cons child behind)
    → InPlace p
    → Sound child
    → AllSound before
    → AllSound behind
    → has_no_subnodes (one_less p.members.child_num) p.metas ≡ false
    → HasRoomFor p (wires false before ++ wires false behind)
    → Changed p (remove_child p before child behind) (wires false before ++ wires false behind)
unfolding remove_child
remove_child-Changed p before child behind there v s all_before all_behind opened room =
    let e = evaluate_size-wire child s in
    let us = join before behind in
    let same : wires false us ≡ wires false before ++ wires false behind =
      wires-join before behind in
    let known : is_known p.members.eval_sz ≡ true = ap is_known v.open_node.size in
    let r =
      resize-Changed p us (one_less p.members.child_num) v
        (AllSound-join before behind all_before all_behind) opened
        (subst (HasRoomFor p) (sym same) room) (difference 0 (evaluate_size child))
        (shrunk_by (length (key_wire p.members ++ wires (skips_first p.members p.metas) p.metas))
          (length (wires false before) + length (wires false behind)) (evaluate_size child)
          (length (body p.members p.metas p.children)) (length (value_at p (wires false us)))
          (omega (arith, value_at-length p (wires false p.children), old_length, e.0))
          (omega (
            arith,
            value_at-length p (wires false us),
            ap (λ xs. length xs) same,
            length-append (wires false before) (wires false behind),
          ))
          v.open_node.short.0
          (subst (λ xs. length (value_at p xs) < 2 ^ 31) (sym same) room.here.0)) in
    subst (λ k. Changed p (after k) (wires false before ++ wires false behind)) (sym known)
      (subst (Changed p (after true)) same r)
  where
    after : Bool → Place
    after known =
        resize
          (record p {
            members = record (p.members) { child_num = one_less p.members.child_num };
            children = join before behind;
          })
          (if known then difference 0 (evaluate_size child) else 0)

    old_length :
        length (wires false p.children)
        ≡ length (wires false before) + length (wires false behind) + length (wire child)
    old_length =
        ap (λ xs. length xs) (ap (wires false) there ∙ wires-join before (cons child behind))
        ∙ lengths before child behind
