-- ===== src/KnvHt/Filed.antt =====
-- What it means for nodes to stand in a KnvHt of knv/knv_node.h: a chain for each hash.
use mysql_proxy.Common.{
  not_null, ℕ, zero, suc, ◌+◌, ◌-◌, ◌≤◌, ◌<◌, ◌≡◌, sym, ap, ◌∙◌, true, false, List, [], ◌∷◌, arith,
  some, length, All, ◌==◌, if◌then◌else◌, if_true, if_false, Bool-cases, inl, inr,
}
use mathlib.Core.Path.{subst}
use mysql_proxy.Common.Bits.{and_le}
use mysql_proxy.Common.Removed.{NotIn, Distinct}
use mysql_proxy.Common.Rings.{Links}
use mysql_proxy.KnvHt.Table.{
  KnvNode, KnvHt, HtPos, at_bucket, behind, get_keyhash, is_match, hash_of, walk, get,
}

-- The nodes with each hash, the first one in front, and their number.
abbrev pub Buckets : Type 0
Buckets = ℕ → List ℕ

abbrev pub total : Buckets → ℕ → ℕ
total b zero = 0
total b (suc i) = total b i + length (b i)

module _ (node : ℕ → KnvNode) where
  pub record Filed (t : KnvHt) (b : Buckets) : Type 0 where
    pub room : 0 < t.sz
    pub chain : (i : ℕ) → t.bm i ≡ true → Links t.ht_next (b i) (t.ht i) 0
    pub unset : (i : ℕ) → t.bm i ≡ false → b i ≡ []
    pub home : (i : ℕ) → All (λ n. hash_of node t.sz n ≡ i) (b i)
    pub apart : (i : ℕ) → Distinct (0 ∷ b i)
    pub count : t.nr ≡ total b t.sz

  -- The first node of a chain with a tag and a key, or NULL.
  abbrev pub first_match : (tag : ℕ) (k : List ℕ) → List ℕ → ℕ
  first_match tag k [] = 0
  first_match tag k (n ∷ ns) = if is_match (node n) tag k then n else first_match tag k ns

  pub walk-first_match :
      (rounds : ℕ) (t : KnvHt) (tag : ℕ) (k : List ℕ) (ns : List ℕ) (c : ℕ) (pos : HtPos)
      → length ns ≤ rounds
      → Links t.ht_next ns c 0
      → NotIn 0 ns
      → (pos' : HtPos) × (walk node rounds t tag k c pos ≡ some (first_match tag k ns, pos'))
  unfolding walk
  walk-first_match zero t tag k [] c pos enough l nulls = (pos, if_true _ _ (ap (λ x. x == 0) l))
  walk-first_match (suc rounds) t tag k [] c pos enough l nulls =
      (pos, if_true _ _ (ap (λ x. x == 0) l))
  walk-first_match zero t tag k (n ∷ ns) c pos enough l nulls = absurd (omega arith)
  walk-first_match (suc rounds) t tag k (n ∷ ns) c pos enough (e, l) nulls =
      let (p, rest) =
        walk-first_match rounds t tag k ns (t.ht_next n) (behind n) (omega arith) l nulls.1 in
      elim (Bool-cases (is_match (node n) tag k)) [
        | inl hit ↦ (
          pos,
          subst (λ x. walk node (suc rounds) t tag k x pos ≡ some (first_match tag k (n ∷ ns), pos))
              (sym e)
              (if_false _ _ (not_null n nulls.0)
                ∙ if_true _ _ hit
                ∙ ap (λ x. some (x, pos)) (sym (if_true _ _ hit))),
        )
        | inr miss ↦ (
          p,
          subst (λ x. walk node (suc rounds) t tag k x pos ≡ some (first_match tag k (n ∷ ns), p))
              (sym e)
              (if_false _ _ (not_null n nulls.0)
                ∙ if_false _ _ miss
                ∙ rest
                ∙ ap (λ x. some (x, p)) (sym (if_false _ _ miss))),
        )
      ]

  -- In as many rounds as the chain has nodes, get returns the first node of the chain of the hash
  -- that has the tag and the key, and NULL if there is none.
  pub get-first_match :
      (rounds : ℕ) (t : KnvHt) (b : Buckets) (tag : ℕ) (k : List ℕ)
      → Filed t b
      → length (b (get_keyhash tag k t.sz)) ≤ rounds
      → (pos : HtPos) × (get node rounds t tag k
          ≡ some (first_match tag k (b (get_keyhash tag k t.sz)), pos))
  unfolding get
  get-first_match rounds t b tag k f enough =
      let hi = get_keyhash tag k t.sz in
      elim (Bool-cases (t.bm hi)) [
        | inl set ↦
            let (p, e) =
              walk-first_match rounds t tag k (b hi) (t.ht hi) (at_bucket hi) enough
                (f.chain hi set) (f.apart hi).0 in
            (p, if_true _ _ set ∙ e)
        | inr unset ↦ (
          at_bucket hi,
          if_false _ _ unset
              ∙ ap (λ ns. some (first_match tag k ns, at_bucket hi)) (sym (f.unset hi unset)),
        )
      ]

  -- The hash is an index of the table.
  pub hash_of-below : (sz n : ℕ) → 0 < sz → hash_of node sz n < sz
  unfolding get_keyhash
  hash_of-below sz n room = omega (arith, and_le _ (sz - 1))
