-- ===== src/KnvTree/Above.antt =====
-- The nodes above a node in a tree of knv/knv_node.cc, and the bytes of the whole tree.
use mysql_proxy.Common.{
  ℕ, ◌≡◌, refl, sym, ap, ◌∙◌, Bool, true, false, List, [], ◌∷◌, ◌++◌, append_assoc,
}
use mysql_proxy.KnvTree.Node.{KnvTree, Trees, nil, cons, skips_first}
use mysql_proxy.KnvTree.Wire.{key_wire, wire, wires, body, Sound, AllSound}
use mysql_proxy.KnvTree.Updating.{join, Frame, plug_in, plug}
use mysql_proxy.KnvTree.Open.{message, IsShort, Open, Open-wire, Open-NodeSound}

pub wires-join : (ts us : Trees) → wires false (join ts us) ≡ wires false ts ++ wires false us
unfolding wires
wires-join nil us = refl
wires-join (cons t ts) us =
    ap (λ xs. wire t ++ xs) (wires-join ts us)
    ∙ sym (append_assoc (wire t) (wires false ts) (wires false us))

pub AllSound-join : (ts us : Trees) → AllSound ts → AllSound us → AllSound (join ts us)
AllSound-join nil us s r = r
AllSound-join (cons t ts) us s r = (s.0, AllSound-join ts us s.1 r)

-- The value of the node of a frame, with the bytes `xs` in the place of the child.
abbrev pub value_with : Frame → List ℕ → List ℕ
value_with f xs =
    key_wire f.members
    ++ wires (skips_first f.members f.metas) f.metas
    ++ (wires false f.before ++ (xs ++ wires false f.behind))

-- The field that the node of a frame is then, and the whole tree.
abbrev pub field_with : Frame → List ℕ → List ℕ
field_with f xs = message f.members.tag (value_with f xs)

abbrev pub whole_with : List Frame → List ℕ → List ℕ
whole_with [] xs = xs
whole_with (f ∷ fs) xs = whole_with fs (field_with f xs)

-- No node above becomes longer than an int can say.
abbrev pub StaysShort : List Frame → List ℕ → Type 0
StaysShort [] xs = Unit
StaysShort (f ∷ fs) xs = IsShort f.members.tag (value_with f xs) × StaysShort fs (field_with f xs)

-- The nodes above are expanded, with known sizes, around a child; what stands beside is sound.
abbrev pub OpenAbove : KnvTree → List Frame → Type 0
OpenAbove t [] = Unit
OpenAbove t (f ∷ fs) =
    Open f.members f.metas (join f.before (cons t f.behind))
    × AllSound f.metas
    × AllSound f.before
    × AllSound f.behind
    × OpenAbove (plug_in f t) fs

-- A node above a dirty one is dirty.
abbrev pub DirtyAbove : Bool → List Frame → Type 0
DirtyAbove b [] = Unit
DirtyAbove b (f ∷ fs) =
    (b ≡ true → f.members.subnode_dirty ≡ true) × DirtyAbove f.members.subnode_dirty fs

abbrev pub AllDirty : List Frame → Type 0
AllDirty [] = Unit
AllDirty (f ∷ fs) = (f.members.subnode_dirty ≡ true) × AllDirty fs

pub body-plug_in :
    (f : Frame) (t : KnvTree)
    → body f.members f.metas (join f.before (cons t f.behind)) ≡ value_with f (wire t)
unfolding wires
body-plug_in f t =
    ap (λ xs. key_wire f.members ++ wires (skips_first f.members f.metas) f.metas ++ xs)
      (wires-join f.before (cons t f.behind))

-- The whole tree of such nodes is sound, and its bytes are theirs.
pub OpenAbove-Sound : (t : KnvTree) (fs : List Frame) → Sound t → OpenAbove t fs → Sound (plug t fs)
OpenAbove-Sound t [] s o = s
OpenAbove-Sound t (f ∷ fs) s (o, ms, before, behind, above) =
    OpenAbove-Sound (plug_in f t) fs
      (
        Open-NodeSound f.members f.metas (join f.before (cons t f.behind)) o,
        ms,
        AllSound-join f.before (cons t f.behind) before (s, behind),
      )
      above

pub wire-plug_in :
    (f : Frame) (t : KnvTree)
    → Open f.members f.metas (join f.before (cons t f.behind))
    → wire (plug_in f t) ≡ field_with f (wire t)
wire-plug_in f t o =
    Open-wire f.members f.metas (join f.before (cons t f.behind)) o
    ∙ ap (message f.members.tag) (body-plug_in f t)

pub OpenAbove-wire :
    (t : KnvTree) (fs : List Frame) → OpenAbove t fs → wire (plug t fs) ≡ whole_with fs (wire t)
OpenAbove-wire t [] o = refl
OpenAbove-wire t (f ∷ fs) (o, ms, before, behind, above) =
    OpenAbove-wire (plug_in f t) fs above ∙ ap (whole_with fs) (wire-plug_in f t o)
