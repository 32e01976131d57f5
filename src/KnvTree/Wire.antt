-- ===== src/KnvTree/Wire.antt =====
-- The bytes that a tree stands for, and the trees whose sizes and values say so.
use mysql_proxy.Common.{
  ℕ, ◌^◌, ◌<◌, ◌≡◌, Bool, true, false, some, List, [], ◌++◌, length, if◌then◌else◌,
}
use mysql_proxy.Pb.Types.{FieldVal}
use mysql_proxy.Pb.Wire.{field_bytes, IsSendable}
use mysql_proxy.KnvTree.Node.{
  Members, KnvTree, node, Trees, nil, cons, key_value, has_key, is_folded, skips_first,
}

-- A string in memory.
abbrev pub string_of : List ℕ → FieldVal
string_of bytes = record { i64 = length bytes; str_data = bytes }

-- The key in front of the subnodes.
unfoldable pub key_wire : Members → List ℕ
key_wire d = if has_key d then field_bytes 1 d.key.type (key_value d.key) else []

unfoldable pub node_wire : Members → Trees → (metas children : List ℕ) → List ℕ
node_wire d ms metas children =
    if is_folded d ms
    then field_bytes d.tag d.type d.val
    else field_bytes d.tag 2 (string_of (key_wire d ++ metas ++ children))

-- The field that a tree is, and the fields of its lists.
unfoldable mutual
  pub wire : KnvTree → List ℕ
  wire (node d ms cs) = node_wire d ms (wires (skips_first d ms) ms) (wires false cs)

  pub wires : (skip : Bool) → Trees → List ℕ
  wires skip nil = []
  wires true (cons t ts) = wires false ts
  wires false (cons t ts) = wire t ++ wires false ts

-- The value of an expanded node.
abbrev pub body : Members → Trees → Trees → List ℕ
body d ms cs = key_wire d ++ wires (skips_first d ms) ms ++ wires false cs

abbrev pub body_of : KnvTree → List ℕ
body_of (node d ms cs) = body d ms cs

abbrev pub folded_of : KnvTree → Bool
folded_of (node d ms cs) = is_folded d ms

-- The sizes that a node knows are right, what it stands for is a field that the format can carry, and
-- no longer than an int can say.
pub record NodeSound (d : Members) (ms cs : Trees) : Type 0 where
  pub tag_pos : 0 < d.tag
  pub tag_small : d.tag < 2 ^ 29
  pub short : length (wire (node d ms cs)) < 2 ^ 31
  pub leaf : is_folded d ms ≡ true → IsSendable d.tag d.type d.val
  pub inner : is_folded d ms ≡ false → length (body d ms cs) < 2 ^ 31
  pub keyed : is_folded d ms ≡ false → has_key d ≡ true → IsSendable 1 d.key.type (key_value d.key)
  pub size : (n : ℕ) → d.eval_sz ≡ some n → n ≡ length (wire (node d ms cs))
  pub value_size :
      (n : ℕ) → d.eval_sz ≡ some n → is_folded d ms ≡ false → d.eval_val_sz ≡ length (body d ms cs)

abbrev mutual
  pub Sound : KnvTree → Type 0
  Sound (node d ms cs) = NodeSound d ms cs × AllSound ms × AllSound cs

  pub AllSound : Trees → Type 0
  AllSound nil = Unit
  AllSound (cons t ts) = Sound t × AllSound ts
