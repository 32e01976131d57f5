-- ===== src/KnvHt/Moving.antt =====
-- increase of KnvHt, knv/knv_node.cc: the nodes of one chain move to a larger table.
use mysql_proxy.Common.{
  not_null, ℕ, zero, suc, ◌+◌, ◌≤◌, ◌<◌, ◌≡◌, ◌≢◌, refl, sym, ap, ◌∙◌, List, [], ◌∷◌, ◌++◌, arith,
  Option, some, length, All, update, update_self, update_ne, ◌==◌, if_true, if_false, inl, inr,
}
use mathlib.Core.Path.{subst}
use mysql_proxy.Common.Removed.{NotIn, Distinct}
use mysql_proxy.Common.Rings.{Links, Links-update}
use mysql_proxy.KnvHt.Table.{KnvNode, KnvHt, hash_of, file, move_chain}
use mysql_proxy.KnvHt.Filed.{Buckets, total, Filed, hash_of-below}
use mysql_proxy.KnvHt.Filing.{same-or-not, total-update, file-Filed}

-- No chain has the node.
abbrev pub Fresh : ℕ → Buckets → Type 0
Fresh n b = (i : ℕ) → NotIn n (b i)

module _ (node : ℕ → KnvNode) (sz : ℕ) where
  -- The chains when the nodes are put in, one after the other.
  abbrev pub refile : List ℕ → Buckets → Buckets
  refile [] b = b
  refile (x ∷ xs) b = refile xs (update b (hash_of node sz x) (x ∷ b (hash_of node sz x)))

  pub refile-append : (xs ys : List ℕ) (b : Buckets) → refile (xs ++ ys) b ≡ refile ys (refile xs b)
  refile-append [] ys b = refl
  refile-append (x ∷ xs) ys b = refile-append xs ys _

  pub Fresh-update : (y x i : ℕ) (b : Buckets) → y ≢ x → Fresh y b → Fresh y (update b i (x ∷ b i))
  Fresh-update y x i b ne fresh j = elim (same-or-not j i) [
    | inl e ↦
        subst (NotIn y) (sym (ap (update b i (x ∷ b i)) e ∙ update_self b i (x ∷ b i)))
          (ne, fresh i)
    | inr other ↦ subst (NotIn y) (sym (update_ne b i j (x ∷ b i) other)) (fresh j)
  ]

  pub refile-Fresh :
      (y : ℕ) (xs : List ℕ) (b : Buckets) → NotIn y xs → Fresh y b → Fresh y (refile xs b)
  refile-Fresh y [] b out fresh = fresh
  refile-Fresh y (x ∷ xs) b out fresh = refile-Fresh y xs _ out.1 (Fresh-update y x _ b out.0 fresh)

  -- A node that no chain has was not put in.
  pub kept_out : (y x i : ℕ) (b : Buckets) → Fresh y (update b i (x ∷ b i)) → (y ≢ x) × Fresh y b
  kept_out y x i b fresh =
      let at_i = subst (NotIn y) (update_self b i (x ∷ b i)) (fresh i) in
      (
        at_i.0,
        λ j. elim (same-or-not j i) [
          | inl e ↦ subst (λ k. NotIn y (b k)) (sym e) at_i.1
          | inr other ↦ subst (NotIn y) (update_ne b i j (x ∷ b i) other) (fresh j)
        ],
      )

  pub Fresh-refile :
      (y : ℕ) (xs : List ℕ) (b : Buckets) → Fresh y (refile xs b) → NotIn y xs × Fresh y b
  Fresh-refile y [] b fresh = (tt, fresh)
  Fresh-refile y (x ∷ xs) b fresh =
      let (out, rest) = Fresh-refile y xs _ fresh in
      let (ne, before) = kept_out y x _ b rest in ((ne, out), before)

  pub total-refile :
      (xs : List ℕ) (b : Buckets) → 0 < sz → total (refile xs b) sz ≡ total b sz + length xs
  total-refile [] b room = omega arith
  total-refile (x ∷ xs) b room = omega (
    arith,
    total-refile xs (update b (hash_of node sz x) (x ∷ b (hash_of node sz x))) room,
    total-update b (hash_of node sz x) (x ∷ b (hash_of node sz x)) sz
        (hash_of-below node sz x room),
  )

  still_fresh :
      (x i : ℕ) (b : Buckets) (xs : List ℕ)
      → NotIn x xs
      → All (λ y. Fresh y b) xs
      → All (λ y. Fresh y (update b i (x ∷ b i))) xs
  still_fresh x i b [] out fresh = tt
  still_fresh x i b (y ∷ xs) out fresh =
      (Fresh-update y x i b (λ e. out.0 (sym e)) fresh.0, still_fresh x i b xs out.1 fresh.1)

-- The larger table with the nodes `xs` put in; only their links change.
pub record Moved (node : ℕ → KnvNode) (t : KnvHt) (xs : List ℕ) (b : Buckets) (r : Option KnvHt)
    : Type 0 where
  pub left : KnvHt
  pub ends : r ≡ some left
  pub size : left.sz ≡ t.sz
  pub filed : Filed node left (refile node t.sz xs b)
  pub others : (y : ℕ) → NotIn y xs → left.ht_next y ≡ t.ht_next y

module _ (node : ℕ → KnvNode) where
  pub move_chain-Moved :
      (rounds : ℕ) (t : KnvHt) (xs : List ℕ) (b : Buckets) (c : ℕ)
      → length xs ≤ rounds
      → Links t.ht_next xs c 0
      → Distinct (0 ∷ xs)
      → All (λ x. Fresh x b) xs
      → Filed node t b
      → Moved node t xs b (move_chain node rounds t c)
  unfolding move_chain file
  move_chain-Moved zero t [] b c enough l d fresh f = record {
    left = t;
    ends = if_true _ _ (ap (λ x. x == 0) l);
    size = refl;
    filed = f;
    others = λ y out. refl;
  }
  move_chain-Moved (suc rounds) t [] b c enough l d fresh f = record {
    left = t;
    ends = if_true _ _ (ap (λ x. x == 0) l);
    size = refl;
    filed = f;
    others = λ y out. refl;
  }
  move_chain-Moved zero t (x ∷ xs) b c enough l d fresh f = absurd (omega arith)
  move_chain-Moved (suc rounds) t (x ∷ xs) b c enough (e, l) ((null, nulls), (out, d)) fresh f =
      let hi = hash_of node t.sz x in
      let rest =
        move_chain-Moved rounds (file node t x) xs (update b hi (x ∷ b hi)) (t.ht_next x)
          (omega arith) (Links-update t.ht_next x _ xs (t.ht_next x) 0 out l) (nulls, d)
          (still_fresh node t.sz x hi b xs out fresh.1)
          (file-Filed node t b x f null (fresh.0 hi)) in
      record {
        left = rest.left;
        ends =
            if_false _ _ (ap (λ k. k == 0) e ∙ not_null x null)
            ∙ ap (λ k. move_chain node rounds (file node t k) (t.ht_next k)) e
            ∙ rest.ends;
        size = rest.size;
        filed = rest.filed;
        others = λ y away. rest.others y away.1 ∙ update_ne t.ht_next x y _ away.0;
      }
