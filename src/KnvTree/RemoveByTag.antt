-- ===== src/KnvTree/RemoveByTag.antt =====
-- RemoveChildrenByTag of knv/knv_node.cc.
use mysql_proxy.Common.{
  ℕ, suc, ◌+◌, ◌-◌, ◌<◌, ◌≡◌, refl, sym, ap, Bool, true, false, ◌||◌, not, Option, none, some, ◌++◌,
  length, length-append, leb, ◌==◌, if◌then◌else◌, if_true, if_false, Bool-cases, inl, inr, arith,
  Ret, ret, fail,
}
use mathlib.Core.Path.{subst}
use mysql_proxy.KnvTree.Node.{
  KnvTree, Trees, nil, cons, tag_of, has_no_subnodes, skips_first, evaluate_size,
}
use mysql_proxy.KnvTree.Wire.{key_wire, wire, wires, body, Sound, AllSound}
use mysql_proxy.KnvTree.Evaluating.{evaluate_size-wire}
use mysql_proxy.KnvTree.Updating.{difference, is_known, Place, resize}
use mysql_proxy.KnvTree.Changing.{InPlace, value_at, HasRoomFor, Changed, resize-Changed}
use mysql_proxy.KnvTree.Inserting.{value_at-length, shrunk_by}

-- The children that the loop leaves, how many it removes, and the sum of their sizes.
unfoldable pub without_tag : (tag : ℕ) → Trees → Trees
without_tag tag nil = nil
without_tag tag (cons t ts) =
    let rest = without_tag tag ts in if tag_of t == tag then rest else cons t rest

unfoldable pub match_nr : (tag : ℕ) → Trees → ℕ
match_nr tag nil = 0
match_nr tag (cons t ts) = let rest = match_nr tag ts in if tag_of t == tag then suc rest else rest

unfoldable pub matched_size : (tag : ℕ) → Trees → ℕ
matched_size tag nil = 0
matched_size tag (cons t ts) =
    let rest = matched_size tag ts in if tag_of t == tag then evaluate_size t + rest else rest

-- `child_num` after that many decrements; below -1 it is not expanded as well.
abbrev pub fewer : Option ℕ → (k : ℕ) → Option ℕ
fewer none k = none
fewer (some n) k = if leb k n then some (n - k) else none

abbrev pub has_children : Option ℕ → Bool
has_children none = false
has_children (some n) = not (n == 0)

-- RemoveChildrenByTag of a node that GetChildNum has expanded.
unfoldable pub remove_children_by_tag : (tag : ℕ) → Place → Ret × Place
remove_children_by_tag tag p =
    let k = match_nr tag p.children in
    if p.members.tag == 0
    then (fail 1, p)
    else if not (has_children p.members.child_num) || (k == 0)
    then (ret 0, p)
    else (
      ret k,
      resize
          (record p {
            members = record (p.members) { child_num = fewer p.members.child_num k };
            children = without_tag tag p.children;
          })
          (if is_known p.members.eval_sz then difference 0 (matched_size tag p.children) else 0),
    )

-- What is left, and what is gone.
pub record Divided (tag : ℕ) (ts : Trees) : Type 0 where
  pub sound : AllSound (without_tag tag ts)
  pub sizes :
      length (wires false ts) ≡ length (wires false (without_tag tag ts)) + matched_size tag ts

wires_cons :
    (t : KnvTree) (ts : Trees)
    → length (wires false (cons t ts)) ≡ length (wire t) + length (wires false ts)
unfolding wires
wires_cons t ts = length-append (wire t) (wires false ts)

-- One child more.
removed-Divided :
    (tag : ℕ) (t : KnvTree) (ts : Trees)
    → (tag_of t == tag) ≡ true
    → Sound t
    → Divided tag ts
    → Divided tag (cons t ts)
unfolding without_tag matched_size
removed-Divided tag t ts gone one rest =
    let left : without_tag tag (cons t ts) ≡ without_tag tag ts = if_true _ _ gone in
    let size : matched_size tag (cons t ts) ≡ evaluate_size t + matched_size tag ts =
      if_true _ _ gone in
    record {
      sound = subst AllSound (sym left) rest.sound;
      sizes = omega (
        arith,
        wires_cons t ts,
        ap (λ us. length (wires false us)) left,
        size,
        rest.sizes,
        (evaluate_size-wire t one).0,
      );
    }

kept-Divided :
    (tag : ℕ) (t : KnvTree) (ts : Trees)
    → (tag_of t == tag) ≡ false
    → Sound t
    → Divided tag ts
    → Divided tag (cons t ts)
unfolding without_tag matched_size
kept-Divided tag t ts stays one rest =
    let left : without_tag tag (cons t ts) ≡ cons t (without_tag tag ts) = if_false _ _ stays in
    let size : matched_size tag (cons t ts) ≡ matched_size tag ts = if_false _ _ stays in
    record {
      sound = subst AllSound (sym left) (one, rest.sound);
      sizes = omega (
        arith,
        wires_cons t ts,
        wires_cons t (without_tag tag ts),
        ap (λ us. length (wires false us)) left,
        size,
        rest.sizes,
      );
    }

without_tag-Divided : (tag : ℕ) (ts : Trees) → AllSound ts → Divided tag ts
unfolding without_tag matched_size wires
without_tag-Divided tag nil all = record { sound = tt; sizes = omega arith }
without_tag-Divided tag (cons t ts) (one, all) = elim (Bool-cases (tag_of t == tag)) [
  | inl gone ↦ removed-Divided tag t ts gone one (without_tag-Divided tag ts all)
  | inr stays ↦ kept-Divided tag t ts stays one (without_tag-Divided tag ts all)
]

-- RemoveChildrenByTag at an expanded node, reached from the root through lists of children, of a
-- tree with known and right sizes, whose nodes above a dirty one are dirty, where some child has
-- the tag and a subnode is left, returns the number of children with the tag; the tree then stands
-- for the bytes without theirs, and the sizes and marks up to the root are right, as long as no
-- node is longer than an int can say.
pub remove_children_by_tag-Changed :
    (tag : ℕ) (p : Place)
    → InPlace p
    → has_children p.members.child_num ≡ true
    → 0 < match_nr tag p.children
    → has_no_subnodes (fewer p.members.child_num (match_nr tag p.children)) p.metas ≡ false
    → HasRoomFor p (wires false (without_tag tag p.children))
    → ((remove_children_by_tag tag p).0 ≡ ret (match_nr tag p.children))
      × Changed p (remove_children_by_tag tag p).1 (wires false (without_tag tag p.children))
unfolding remove_children_by_tag
remove_children_by_tag-Changed tag p v some_children some_match opened room =
    let us = without_tag tag p.children in
    let d = without_tag-Divided tag p.children v.children in
    let known : is_known p.members.eval_sz ≡ true = ap is_known v.open_node.size in
    let r =
      resize-Changed p us (fewer p.members.child_num (match_nr tag p.children)) v d.sound opened
        room (difference 0 (matched_size tag p.children))
        (shrunk_by (length (key_wire p.members ++ wires (skips_first p.members p.metas) p.metas))
          (length (wires false us)) (matched_size tag p.children)
          (length (body p.members p.metas p.children)) (length (value_at p (wires false us)))
          (omega (arith, value_at-length p (wires false p.children), d.sizes))
          (value_at-length p (wires false us)) v.open_node.short.0 room.here.0) in
    subst
      (λ (q : Ret × Place). (q.0 ≡ ret (match_nr tag p.children)) × Changed p q.1 (wires false us))
      (sym (if_false _ _ (tagged p.members.tag v.open_node.tag_pos)))
      (subst
        (λ (q : Ret × Place).
          (q.0 ≡ ret (match_nr tag p.children)) × Changed p q.1 (wires false us))
        (sym (
          if_false _ _ (
            works (has_children p.members.child_num) (match_nr tag p.children) some_children
              some_match)))
        (refl, subst (λ k. Changed p (after k) (wires false us)) (sym known) r))
  where
    after : Bool → Place
    after k =
        resize
          (record p {
            members = record (p.members) {
              child_num = fewer p.members.child_num (match_nr tag p.children);
            };
            children = without_tag tag p.children;
          })
          (if k then difference 0 (matched_size tag p.children) else 0)

    tagged : (n : ℕ) → 0 < n → (n == 0) ≡ false
    tagged n h = ground arith

    works : (b : Bool) (k : ℕ) → b ≡ true → 0 < k → (not b || (k == 0)) ≡ false
    works b k e h = ground (arith, e, h)
