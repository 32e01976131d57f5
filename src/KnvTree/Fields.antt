-- ===== src/KnvTree/Fields.antt =====
-- The fields in the value of an expanded node of knv/knv_node.cc, and the subnodes made of them.
use mysql_proxy.Common.{
  ℕ, ◌+◌, ◌*◌, ◌<◌, ◌≡◌, refl, sym, ap, ◌∙◌, true, false, List, [], ◌∷◌, ◌++◌, take, leb,
  if◌then◌else◌, inl, inr,
}
use mathlib.Core.Path.{subst}
use mysql_proxy.Pb.Types.{FieldVal, le_bytes, get_i32}
use mysql_proxy.Pb.Wire.{
  field_bytes, IsSendable, SameValue, payload, vint, known_type, known_type-cases,
}
use mysql_proxy.KnvTree.Node.{KnvTree, Trees, nil, cons, tag_of}
use mysql_proxy.KnvTree.Wire.{wire, wires, Sound, AllSound}

pub record SubField : Type 0 where
  pub tag : ℕ
  pub type : ℕ
  pub val : FieldVal

abbrev pub bytes_of : SubField → List ℕ
bytes_of s = field_bytes s.tag s.type s.val

abbrev pub all_bytes : List SubField → List ℕ
all_bytes [] = []
all_bytes (s ∷ ss) = bytes_of s ++ all_bytes ss

abbrev pub metas_of : List SubField → List SubField
metas_of [] = []
metas_of (s ∷ ss) = if leb s.tag 10 then s ∷ metas_of ss else metas_of ss

abbrev pub children_of : List SubField → List SubField
children_of [] = []
children_of (s ∷ ss) = if leb s.tag 10 then children_of ss else s ∷ children_of ss

-- Fields with a tag that the format can carry.
abbrev pub AllSendable : List SubField → Type 0
AllSendable [] = Unit
AllSendable (s ∷ ss) = IsSendable s.tag s.type s.val × (0 < s.tag) × AllSendable ss

-- A node made of a field: it stands for the bytes of the field, and so do its sizes.
pub record Made (s : SubField) (t : KnvTree) : Type 0 where
  pub sound : Sound t
  pub bytes : wire t ≡ bytes_of s
  pub tag : tag_of t ≡ s.tag

abbrev pub AllMade : List SubField → Trees → Type 0
AllMade [] nil = Unit
AllMade [] (cons t ts) = ⊥
AllMade (s ∷ ss) nil = ⊥
AllMade (s ∷ ss) (cons t ts) = Made s t × AllMade ss ts

pub AllMade-wires :
    (ss : List SubField) (ts : Trees) → AllMade ss ts → wires false ts ≡ all_bytes ss
unfolding wires
AllMade-wires [] nil m = refl
AllMade-wires [] (cons t ts) m = absurd m
AllMade-wires (s ∷ ss) nil m = absurd m
AllMade-wires (s ∷ ss) (cons t ts) m =
    ap (λ xs. xs ++ wires false ts) m.0.bytes
    ∙ ap (λ xs. bytes_of s ++ xs) (AllMade-wires ss ts m.1)

pub AllMade-AllSound : (ss : List SubField) (ts : Trees) → AllMade ss ts → AllSound ts
AllMade-AllSound [] nil m = tt
AllMade-AllSound [] (cons t ts) m = absurd m
AllMade-AllSound (s ∷ ss) nil m = absurd m
AllMade-AllSound (s ∷ ss) (cons t ts) m = (m.0.sound, AllMade-AllSound ss ts m.1)

-- Values of a type that the reader does not tell apart.
abbrev SamePayload : ℕ → FieldVal → FieldVal → Type 0
SamePayload t v w = SameValue t v w → payload t v ≡ payload t w

SameValue-payload : (t : ℕ) (v w : FieldVal) → known_type t ≡ true → SamePayload t v w
unfolding payload SameValue
SameValue-payload t v w known = elim (known_type-cases t known) [
  | inl (inl z) ↦ moved z λ same. ap vint same.0
  | inl (inr z) ↦ moved z λ same. ap (le_bytes 8) same.0
  | inr (inl z) ↦ moved z λ same.
      ap (λ n. vint n ++ take (get_i32 v) v.str_data) same.0
      ∙ ap (λ xs. vint (get_i32 w) ++ xs) same.1
  | inr (inr z) ↦ moved z λ same. ap (le_bytes 4) same.0
]
  where
    moved : {k : ℕ} → t ≡ k → SamePayload k v w → SamePayload t v w
    moved z h = subst (λ k. SamePayload k v w) (sym z) h

-- Fields that are the same to the reader have the same bytes.
pub SameValue-bytes :
    (tag t : ℕ) (v w : FieldVal)
    → known_type t ≡ true
    → SameValue t v w
    → field_bytes tag t v ≡ field_bytes tag t w
unfolding field_bytes
SameValue-bytes tag t v w known same =
    ap (λ xs. vint (t + 8 * tag) ++ xs) (SameValue-payload t v w known same)
