-- ===== src/KnvHt/Table.antt =====
-- KnvHt of knv/knv_node.h and knv/knv_node.cc. A node is named by its address, and NULL is 0.
use mysql_proxy.Common.{
  ℕ, zero, suc, ◌+◌, ◌-◌, ◌*◌, ◌^◌, ◌%◌, bit_and, Bool, true, false, ◌&&◌, Option, none, some, List,
  [], ◌∷◌, length, update, Ret, ret, fail, ltb, leb, ◌==◌, if◌then◌else◌,
}

-- What the table reads of a KnvNode: its tag, and the bytes of its key.
pub record KnvNode : Type 0 where
  pub tag : ℕ
  pub key : List ℕ

-- KnvHt, with the bits of its bitmap and the member ht_next of all nodes.
pub record KnvHt : Type 0 where
  pub nr : ℕ
  pub sz : ℕ
  pub bm : ℕ → Bool
  pub ht : ℕ → ℕ
  pub ht_next : ℕ → ℕ

-- The second loop of get_keyhash, for the last bytes.
unfoldable pub add_rest : ℕ → List ℕ → ℕ
add_rest t [] = t
add_rest t (x ∷ xs) = add_rest ((t + x * 2 ^ (length xs * 8)) % 2 ^ 32) xs

-- Both loops: words of four bytes, the lowest byte first.
unfoldable pub add_key : ℕ → List ℕ → ℕ
add_key t (a ∷ b ∷ c ∷ d ∷ k) = add_key ((t + a + b * 2 ^ 8 + c * 2 ^ 16 + d * 2 ^ 24) % 2 ^ 32) k
add_key t k = add_rest t k

unfoldable pub get_keyhash : (t : ℕ) (k : List ℕ) (sz : ℕ) → ℕ
get_keyhash t k sz = bit_and (add_key t k) (sz - 1)

-- KnvHt::clear: bits of the small table, whose entries are not used before they are written.
unfoldable pub clear : KnvHt → (ht_default : ℕ → ℕ) → KnvHt
clear t ht_default = record t { nr = 0; sz = 32; bm = λ _. false; ht = ht_default }

-- memcmp on keys of one length, and of two.
unfoldable pub same_key : List ℕ → List ℕ → Bool
same_key [] [] = true
same_key [] (y ∷ ys) = false
same_key (x ∷ xs) [] = false
same_key (x ∷ xs) (y ∷ ys) = (x == y) && same_key xs ys

-- KnvNode::IsMatch
unfoldable pub is_match : KnvNode → (t : ℕ) (k : List ℕ) → Bool
is_match n t k = (t == n.tag) && same_key n.key k

-- Where a pointer to a node stands: in the table, or in the node before.
pub data HtPos : Type 0 where
  at_bucket : ℕ → HtPos
  behind : ℕ → HtPos

-- `new_sz`
unfoldable pub next_level : ℕ → ℕ
next_level sz = if ltb sz 256 then 256 else 8192

abbrev pub with_ret : Option KnvHt → Option (Ret × KnvHt)
with_ret none = none
with_ret (some t) = some (ret 0, t)

-- The nodes in memory, by address.
module _ (node : ℕ → KnvNode) where
  abbrev pub hash_of : (sz : ℕ) → ℕ → ℕ
  hash_of sz n = get_keyhash (node n).tag (node n).key sz

  -- The loop of both functions get, with the place of the pointer to `c`, which means something only
  -- when a node is found. `none` is a chain that is
  -- longer than its rounds.
  unfoldable pub walk :
      (rounds : ℕ) (t : KnvHt) (tag : ℕ) (k : List ℕ) (c : ℕ) (pos : HtPos) → Option (ℕ × HtPos)
  walk zero t tag k c pos = if c == 0 then some (0, pos) else none
  walk (suc rounds) t tag k c pos =
      let rest = walk rounds t tag k (t.ht_next c) (behind c) in
      if c == 0 then some (0, pos) else if is_match (node c) tag k then some (c, pos) else rest

  -- KnvHt::get
  unfoldable pub get : (rounds : ℕ) (t : KnvHt) (tag : ℕ) (k : List ℕ) → Option (ℕ × HtPos)
  get rounds t tag k =
      let hi = get_keyhash tag k t.sz in
      if t.bm hi then walk rounds t tag k (t.ht hi) (at_bucket hi) else some (0, at_bucket hi)

  -- A node is put in front of the chain of its hash.
  unfoldable pub file : KnvHt → ℕ → KnvHt
  file t n =
      let hi = hash_of t.sz n in
      record t {
        nr = suc t.nr;
        bm = λ i. if i == hi then true else t.bm i;
        ht = update t.ht hi n;
        ht_next = update t.ht_next n (if t.bm hi then t.ht hi else 0);
      }

  -- The loop of increase over a chain of the old table.
  unfoldable pub move_chain : (rounds : ℕ) → KnvHt → ℕ → Option KnvHt
  move_chain zero t c = if c == 0 then some t else none
  move_chain (suc rounds) t c =
      let rest = move_chain rounds (file t c) (t.ht_next c) in if c == 0 then some t else rest

  -- The loop over the old table, with `left` entries left.
  unfoldable pub move_from : (rounds : ℕ) (old : KnvHt) (left : ℕ) → Option KnvHt → Option KnvHt
  move_from rounds old left none = none
  move_from rounds old zero (some t) = some t
  move_from rounds old (suc left) (some t) =
      let i = old.sz - suc left in
      move_from rounds old left (if old.bm i then move_chain rounds t (old.ht i) else some t)

  -- KnvHt::increase; `mem` is the memory that UcMemManager::Alloc finds, with what stands in it.
  unfoldable pub increase : (rounds : ℕ) (mem : Option (ℕ → ℕ)) → KnvHt → Option (Ret × KnvHt)
  increase rounds none t = if leb 8192 t.sz then some (ret 0, t) else some (fail 1, t)
  increase rounds (some new_ht) t =
      let empty = record t { nr = 0; sz = next_level t.sz; bm = λ _. false; ht = new_ht } in
      let moved = move_from rounds t t.sz (some empty) in
      if leb 8192 t.sz then some (ret 0, t) else with_ret moved

  -- KnvHt::put
  unfoldable pub put_in : ℕ → Option (Ret × KnvHt) → Option (Ret × KnvHt)
  put_in n none = none
  put_in n (some (fail e, t)) = some (fail 1, t)
  put_in n (some (ret r, t)) = some (ret 0, file t n)

  unfoldable pub put : (rounds : ℕ) (mem : Option (ℕ → ℕ)) → KnvHt → ℕ → Option (Ret × KnvHt)
  put rounds mem t n =
      put_in n (if ltb t.sz (t.nr + 1) then increase rounds mem t else some (ret 0, t))

  -- KnvHt::remove(node, pos), on a table that has the node.
  unfoldable pub remove_at : KnvHt → ℕ → HtPos → KnvHt
  remove_at t n (at_bucket i) = record t { ht = update t.ht i (t.ht_next n); nr = t.nr - 1 }
  remove_at t n (behind p) = record t { ht_next = update t.ht_next p (t.ht_next n); nr = t.nr - 1 }

  -- The loop of remove(node), with the place of the pointer to `c`.
  unfoldable pub seek : (rounds : ℕ) (t : KnvHt) (n c : ℕ) (pos : HtPos) → Option (Ret × KnvHt)
  seek zero t n c pos = if c == 0 then some (fail 1, t) else none
  seek (suc rounds) t n c pos =
      let rest = seek rounds t n (t.ht_next c) (behind c) in
      if c == 0 then some (fail 1, t) else if c == n then some (ret 0, remove_at t n pos) else rest

  -- KnvHt::remove(node)
  unfoldable pub remove : (rounds : ℕ) → KnvHt → ℕ → Option (Ret × KnvHt)
  remove rounds t n =
      let hi = hash_of t.sz n in
      if t.bm hi then seek rounds t n (t.ht hi) (at_bucket hi) else some (fail 1, t)
