-- ===== src/KnvTree/Climbing.antt =====
-- UpdateParentEvalueAndSetDirty of knv/knv_node.cc: the nodes above a change.
use mysql_proxy.Common.{
  ℕ, ◌+◌, ◌^◌, ◌<◌, ◌≡◌, sym, ap, ◌∙◌, Bool, true, false, ◌&&◌, not, some, List, ◌++◌, length,
  length-append, ◌==◌, if_true, if_false, Bool-cases, inl, inr, arith, ==_iff,
}
use mathlib.Core.Path.{subst}
use mysql_proxy.Pb.Size.{pb_eval_field_length}
use mysql_proxy.KnvTree.Node.{Members, KnvTree, cons, skips_first, of_length}
use mysql_proxy.KnvTree.Wire.{key_wire, wire, wires}
use mysql_proxy.KnvTree.Updating.{join, Frame, difference, update_eval_sz, is_known, step_eval}
use mysql_proxy.KnvTree.Open.{
  message, IsShort, Open, update_eval_sz-Resized, sizes_set, no_change, message_size,
}
use mysql_proxy.KnvTree.Above.{
  value_with, field_with, whole_with, OpenAbove, AllDirty, body-plug_in,
}

-- What a change of the child from `t` to `u` does to its length.
pub record Change (t u : KnvTree) (updateeval : Bool) (offset : ℕ) : Type 0 where
  pub counted : updateeval ≡ true → offset ≡ difference (length (wire u)) (length (wire t))
  pub same : updateeval ≡ false → length (wire u) ≡ length (wire t)

-- The nodes above after a change of the child to `u`.
pub record Climbed (u : KnvTree) (fs fs' : List Frame) : Type 0 where
  pub open_above : OpenAbove u fs'
  pub dirty : AllDirty fs'
  pub bytes : (xs : List ℕ) → whole_with fs' xs ≡ whole_with fs xs

-- One node above: the first test of the loop.
pub record Stepped (f : Frame) (t u : KnvTree) (r : Members × ℕ × Bool) : Type 0 where
  pub members : r.0 ≡ record (f.members) {
    eval_val_sz = length (value_with f (wire u));
    eval_sz = some (length (field_with f (wire u)));
  }
  pub counted :
      r.2 ≡ true
      → r.1 ≡ difference (length (field_with f (wire u))) (length (field_with f (wire t)))
  pub same : r.2 ≡ false → length (field_with f (wire u)) ≡ length (field_with f (wire t))

length-value_with :
    (f : Frame) (xs : List ℕ)
    → length (value_with f xs)
      ≡ length (key_wire f.members ++ wires (skips_first f.members f.metas) f.metas)
        + length (wires false f.before)
        + length xs
        + length (wires false f.behind)
length-value_with f xs = omega (
  arith,
  length-append (key_wire f.members ++ wires (skips_first f.members f.metas) f.metas)
      (wires false f.before ++ (xs ++ wires false f.behind)),
  length-append (wires false f.before) (xs ++ wires false f.behind),
  length-append xs (wires false f.behind),
)

message-length :
    (tag : ℕ) (xs ys : List ℕ)
    → tag < 2 ^ 29
    → IsShort tag xs
    → IsShort tag ys
    → length ys ≡ length xs
    → length (message tag ys) ≡ length (message tag xs)
message-length tag xs ys small sx sy e =
    sym (message_size tag ys small sy)
    ∙ ap (λ n. pb_eval_field_length tag 2 (of_length n)) e
    ∙ message_size tag xs small sx

-- A change of a child changes the value of its parent by as much.
same_difference :
    (c a b x y offset : ℕ)
    → offset ≡ difference b a
    → x ≡ c + a
    → y ≡ c + b
    → x < 2 ^ 31
    → y < 2 ^ 31
    → offset ≡ difference y x
same_difference c a b x y offset e hx hy sx sy = omega arith

module _ (f : Frame) (t u : KnvTree) (updateeval : Bool) (offset : ℕ)
    (o : Open f.members f.metas (join f.before (cons t f.behind)))
    (short : IsShort f.members.tag (value_with f (wire u))) (c : Change t u updateeval offset) where
  abbrev old : List ℕ
  old = value_with f (wire t)

  abbrev new : List ℕ
  new = value_with f (wire u)

  old_size : f.members.eval_sz ≡ some (length (message f.members.tag old))
  old_size = o.size ∙ ap (λ xs. some (length (message f.members.tag xs))) (body-plug_in f t)

  old_value : f.members.eval_val_sz ≡ length old
  old_value = o.value ∙ ap (λ xs. length xs) (body-plug_in f t)

  old-IsShort : IsShort f.members.tag old
  old-IsShort = subst (IsShort f.members.tag) (body-plug_in f t) o.short

  -- A child of the same length.
  unmoved : length (wire u) ≡ length (wire t) → Stepped f t u (f.members, offset, false)
  unmoved e =
      let sizes : length new ≡ length old =
        omega (arith, length-value_with f (wire t), length-value_with f (wire u), e) in
      let fields = message-length f.members.tag old new o.tag_small old-IsShort short sizes in
      record {
        members = sizes_set f.members _ _ (old_size ∙ ap some (sym fields)) (old_value ∙ sym sizes);
        counted = λ h. absurd (clash h);
        same = λ h. fields;
      }
    where
      clash : false ≡ true → ⊥
      clash e = ground arith

  moved :
      updateeval ≡ true
      → Stepped f t u (let (d, n) = update_eval_sz f.members offset in (d, n, true))
  moved e =
      let r =
        update_eval_sz-Resized f.members old new offset o.tag_small o.is_string old-IsShort short
          old_size old_value
          (shifted (c.counted e) (length-value_with f (wire t)) (length-value_with f (wire u))) in
      record { members = r.members; counted = λ h. r.change; same = λ h. absurd (clash h) }
    where
      clash : true ≡ false → ⊥
      clash e = ground arith

      shifted :
          offset ≡ difference (length (wire u)) (length (wire t))
          → length old
            ≡ length (key_wire f.members ++ wires (skips_first f.members f.metas) f.metas)
              + length (wires false f.before)
              + length (wire t)
              + length (wires false f.behind)
          → length new
            ≡ length (key_wire f.members ++ wires (skips_first f.members f.metas) f.metas)
              + length (wires false f.before)
              + length (wire u)
              + length (wires false f.behind)
          → offset ≡ difference (length new) (length old)
      shifted e x y =
          same_difference
            (length (key_wire f.members ++ wires (skips_first f.members f.metas) f.metas)
              + length (wires false f.before)
              + length (wires false f.behind))
            (length (wire t)) (length (wire u)) (length old) (length new) offset e
            (omega (arith, x)) (omega (arith, y)) old-IsShort.0 short.0

  pub step_eval-Stepped :
      length (wire t) < 2 ^ 31
      → length (wire u) < 2 ^ 31
      → Stepped f t u (step_eval f.members offset updateeval)
  unfolding step_eval
  step_eval-Stepped st su = elim (Bool-cases updateeval) [
    | inr off ↦
        subst (Stepped f t u)
          (sym (if_false _ _ (ap (λ b. b && is_known f.members.eval_sz && not (offset == 0)) off)))
          (unmoved (c.same off))
    | inl on ↦ elim (Bool-cases (offset == 0)) [
      | inl zero_offset ↦ subst (Stepped f t u) (sym (if_false _ _ (stops zero_offset))) (
          unmoved (
            no_change (length (wire u)) (length (wire t)) su st
              (sym (c.counted on) ∙ (==_iff offset 0).0 zero_offset)))
      | inr nonzero ↦
          subst (Stepped f t u) (sym (if_true _ _ (goes on (ap is_known old_size) nonzero)))
            (moved on)
    ]
  ]
    where
      stops :
          (offset == 0) ≡ true
          → (updateeval && is_known f.members.eval_sz && not (offset == 0)) ≡ false
      stops h = ground (arith, h)

      goes :
          updateeval ≡ true
          → is_known f.members.eval_sz ≡ true
          → (offset == 0) ≡ false
          → (updateeval && is_known f.members.eval_sz && not (offset == 0)) ≡ true
      goes h k l = ground (arith, h, k, l)
