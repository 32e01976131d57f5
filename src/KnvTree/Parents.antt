-- ===== src/KnvTree/Parents.antt =====
-- The loop of UpdateParentEvalueAndSetDirty of knv/knv_node.cc over all the nodes above a change.
use mysql_proxy.Common.{
  ℕ, ◌^◌, ◌<◌, ◌≡◌, refl, sym, ap, ◌∙◌, Bool, true, false, ◌&&◌, not, some, List, [], ◌∷◌, length,
  if_true, if_false, Bool-cases, inl, inr, arith,
}
use mathlib.Core.Path.{subst}
use mysql_proxy.Pb.Types.{FieldVal, set_i32}
use mysql_proxy.KnvTree.Node.{Members, KnvTree, cons, has_key, skips_first}
use mysql_proxy.KnvTree.Wire.{key_wire, wire, AllSound}
use mysql_proxy.KnvTree.Updating.{
  join, Frame, plug_in, difference, set_value_dirty, step_eval, step_dirty, update_parents,
}
use mysql_proxy.KnvTree.Open.{message, IsShort, Open, reopened, reopened-Open}
use mysql_proxy.KnvTree.Above.{
  value_with, field_with, whole_with, StaysShort, OpenAbove, DirtyAbove, body-plug_in, wire-plug_in,
}
use mysql_proxy.KnvTree.Climbing.{Change, Climbed, step_eval-Stepped}

-- A node above, marked as dirty and with the sizes that the bytes give it.
abbrev settled : Frame → FieldVal → List ℕ → Frame
settled f v bytes = record f {
  members = reopened f.members v f.members.child_num f.members.tag bytes;
}

-- The second test of the loop: the node is dirty then, and the next test looks at whether it was.
record Marked (f : Frame) (bytes : List ℕ) (r : Members × Bool) : Type 0 where
  pub val : FieldVal
  pub members : r.0 ≡ reopened f.members val f.members.child_num f.members.tag bytes
  pub was_dirty : not r.1 ≡ f.members.subnode_dirty

abbrev with_sizes : Frame → List ℕ → Members
with_sizes f bytes = record (f.members) {
  eval_val_sz = length bytes;
  eval_sz = some (length (message f.members.tag bytes));
}

step_dirty-Marked :
    (f : Frame) (bytes : List ℕ) (updatedirty : Bool)
    → (not updatedirty ≡ true → f.members.subnode_dirty ≡ true)
    → Marked f bytes (step_dirty (with_sizes f bytes) updatedirty)
unfolding step_dirty set_value_dirty
step_dirty-Marked f bytes updatedirty below = elim (Bool-cases f.members.subnode_dirty) [
  | inl dirty ↦ subst (Marked f bytes) (sym (if_false _ _ (stays dirty))) (record {
    val = f.members.val;
    members = λ i. record (with_sizes f bytes) { subnode_dirty = dirty i };
    was_dirty = sym dirty;
  })
  | inr clean ↦
      subst (Marked f bytes) (sym (if_true _ _ (marks clean)))
        (record { val = set_i32 f.members.val 0; members = refl; was_dirty = sym clean })
]
  where
    stays : f.members.subnode_dirty ≡ true → (updatedirty && not f.members.subnode_dirty) ≡ false
    stays h = ground (arith, h)

    marks : f.members.subnode_dirty ≡ false → (updatedirty && not f.members.subnode_dirty) ≡ true
    marks h = ground (arith, h, below)

update_parents-stops : (offset : ℕ) (fs : List Frame) → update_parents false false offset fs ≡ fs
unfolding update_parents
update_parents-stops offset [] = refl
update_parents-stops offset (f ∷ fs) = refl

-- One round.
update_parents-cons :
    (updatedirty updateeval : Bool) (offset : ℕ) (f : Frame) (fs : List Frame)
    → let e = step_eval f.members offset updateeval in
      let m = step_dirty e.0 updatedirty in
      update_parents updatedirty updateeval offset (f ∷ fs)
      ≡ record f { members = m.0 } ∷ update_parents m.1 e.2 e.1 fs
unfolding update_parents step_eval step_dirty
update_parents-cons true updateeval offset f fs = refl
update_parents-cons false true offset f fs = refl
update_parents-cons false false offset f fs =
    ap (λ gs. f ∷ gs) (sym (update_parents-stops offset fs))

settled-value_with :
    (f : Frame) (v : FieldVal) (bytes xs : List ℕ)
    → value_with (settled f v bytes) xs ≡ value_with f xs
unfolding key_wire has_key skips_first
settled-value_with f v bytes xs = refl

-- The node of a frame after a round, around the new child.
settled-Open :
    (f : Frame) (t u : KnvTree) (v : FieldVal)
    → Open f.members f.metas (join f.before (cons t f.behind))
    → IsShort f.members.tag (value_with f (wire u))
    → Open (settled f v (value_with f (wire u))).members f.metas (join f.before (cons u f.behind))
settled-Open f t u v o short =
    subst
      (λ xs.
        Open (reopened f.members v f.members.child_num f.members.tag xs) f.metas
          (join f.before (cons u f.behind)))
      (body-plug_in f u)
      (reopened-Open f.members f.metas (join f.before (cons t f.behind))
        (join f.before (cons u f.behind)) v f.members.child_num o o.opened
        (subst (IsShort f.members.tag) (sym (body-plug_in f u)) short))

-- The rest of the way up, below a node that is settled.
settled-Climbed :
    (f : Frame) (t u : KnvTree) (v : FieldVal) (fs fs' : List Frame)
    → Open f.members f.metas (join f.before (cons t f.behind))
    → AllSound f.metas
    → AllSound f.before
    → AllSound f.behind
    → IsShort f.members.tag (value_with f (wire u))
    → Climbed (plug_in (settled f v (value_with f (wire u))) u) fs fs'
    → Climbed u (f ∷ fs) (settled f v (value_with f (wire u)) ∷ fs')
settled-Climbed f t u v fs fs' o ms before behind short c =
    let ys = value_with f (wire u) in
    record {
      open_above = (settled-Open f t u v o short, ms, before, behind, c.open_above);
      dirty = (refl, c.dirty);
      bytes = λ xs.
          ap (λ zs. whole_with fs' (message f.members.tag zs)) (settled-value_with f v ys xs)
          ∙ c.bytes (field_with f xs);
    }

pub climb :
    (t u : KnvTree) (fs : List Frame) (updatedirty updateeval : Bool) (offset : ℕ)
    → OpenAbove t fs
    → DirtyAbove (not updatedirty) fs
    → StaysShort fs (wire u)
    → Change t u updateeval offset
    → length (wire t) < 2 ^ 31
    → length (wire u) < 2 ^ 31
    → Climbed u fs (update_parents updatedirty updateeval offset fs)
unfolding update_parents
climb t u [] updatedirty updateeval offset o d short c st su = record {
  open_above = tt;
  dirty = tt;
  bytes = λ xs. refl;
}
climb t u (f ∷ fs) updatedirty updateeval offset (o, ms, before, behind, above) (below, dirty)
      (short, shorts) c st su =
    let ys = value_with f (wire u) in
    let e = step_eval f.members offset updateeval in
    let s = step_eval-Stepped f t u updateeval offset o short c st su in
    let m =
      subst (λ k. Marked f ys (step_dirty k updatedirty)) (sym s.members)
        (step_dirty-Marked f ys updatedirty below) in
    let r = step_dirty e.0 updatedirty in
    let g = settled f m.val ys in
    let up : wire (plug_in g u) ≡ field_with f (wire u) =
      wire-plug_in g u (settled-Open f t u m.val o short)
      ∙ ap (message f.members.tag) (settled-value_with f m.val ys (wire u)) in
    let down : wire (plug_in f t) ≡ field_with f (wire t) = wire-plug_in f t o in
    subst (Climbed u (f ∷ fs)) (sym (update_parents-cons updatedirty updateeval offset f fs)) (
      subst (λ k. Climbed u (f ∷ fs) (record f { members = k } ∷ update_parents r.1 e.2 e.1 fs))
        (sym m.members)
        (settled-Climbed f t u m.val fs (update_parents r.1 e.2 e.1 fs) o ms before behind short (
          climb (plug_in f t) (plug_in g u) fs r.1 e.2 e.1 above
            (subst (λ b. DirtyAbove b fs) (sym m.was_dirty) dirty)
            (subst (StaysShort fs) (sym up) shorts)
            (record {
              counted = λ h.
                  s.counted h
                  ∙ ap (λ xs. difference (length xs) (length (field_with f (wire t)))) (sym up)
                  ∙ ap (λ xs. difference (length (wire (plug_in g u))) (length xs)) (sym down);
              same = λ h. ap (λ xs. length xs) up ∙ s.same h ∙ ap (λ xs. length xs) (sym down);
            })
            (subst (λ xs. length xs < 2 ^ 31) (sym (wire-plug_in f t o))
              (subst (IsShort f.members.tag) (body-plug_in f t) o.short).1)
            (subst (λ xs. length xs < 2 ^ 31) (sym up) short.1))))
