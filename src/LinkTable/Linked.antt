-- ===== src/LinkTable/Linked.antt =====
-- Chains of blocks in memory, and what they hold.
use mathlib.Core.Path.{subst}
use mysql_proxy.Common.{
  ℕ, ◌≤◌, ◌<◌, ◌≡◌, ◌≢◌, sym, ap, ◌∙◌, List, [], ◌∷◌, ◌++◌, take, length, All, update, update_ne,
}
use mysql_proxy.Common.Removed.{NotIn}
use mysql_proxy.LinkTable.Types.{Block}

-- From `p` the links lead through the distinct positions `ps`, all of a table of `n` blocks, to `q`.
abbrev pub Linked : (n : ℕ) (m : ℕ → Block) (q p : ℕ) → List ℕ → Type 0
Linked n m q p [] = p ≡ q
Linked n m q p (x ∷ ps) = (p ≡ x) × (0 < x) × (x < n) × NotIn x ps × Linked n m q (m x).next ps

-- The chain at `p` ends behind `ps` and holds the bytes: `bl` of them in each block but the last.
pub data Holds (bl n : ℕ) (m : ℕ → Block) : ℕ → List ℕ → List ℕ → Type 0 where
  last :
      {p : ℕ} {bytes : List ℕ}
      → 0 < p
      → p < n
      → (m p).next ≡ 0
      → (m p).length_in_block ≡ length bytes
      → 0 < length bytes
      → length bytes ≤ bl
      → take (length bytes) (m p).buf ≡ bytes
      → Holds bl n m p (p ∷ []) bytes
  more :
      {p : ℕ} {ps front rest : List ℕ}
      → 0 < p
      → p < n
      → (m p).next ≢ 0
      → (m p).length_in_block ≡ bl
      → length front ≡ bl
      → take bl (m p).buf ≡ front
      → Holds bl n m (m p).next ps rest
      → Holds bl n m p (p ∷ ps) (front ++ rest)

-- The two memories agree on the positions.
abbrev pub SameOn : List ℕ → (ℕ → Block) → (ℕ → Block) → Type 0
SameOn ps m m' = All (λ x. m' x ≡ m x) ps

-- A chain depends on its own blocks alone.
pub Linked-frame :
    (n : ℕ) (m m' : ℕ → Block) (q p : ℕ) (ps : List ℕ)
    → Linked n m q p ps
    → SameOn ps m m'
    → Linked n m' q p ps
Linked-frame n m m' q p [] l same = l
Linked-frame n m m' q p (x ∷ ps) (e, pos, below, out, l) same = (
  e,
  pos,
  below,
  out,
  subst (λ k. Linked n m' q k ps) (ap (λ b. b.next) (sym same.0))
      (Linked-frame n m m' q (m x).next ps l same.1),
)

module _ {n : ℕ} {m m' : ℕ → Block} where
  pub Holds-frame :
      {bl p : ℕ} {ps bytes : List ℕ}
      → Holds bl n m p ps bytes
      → SameOn ps m m'
      → Holds bl n m' p ps bytes
  Holds-frame (last pos below end len some_bytes fits content) same =
      last pos below (ap (λ b. b.next) same.0 ∙ end) (ap (λ b. b.length_in_block) same.0 ∙ len)
        some_bytes fits (rw same.0 content)
  Holds-frame {bl} (more {ps} {rest} pos below inner len full content h) same =
      more pos below (rw same.0 inner) (ap (λ b. b.length_in_block) same.0 ∙ len) full
        (rw same.0 content)
        (subst (λ k. Holds bl n m' k ps rest) (ap (λ b. b.next) (sym same.0))
          (Holds-frame h same.1))

-- A write at a position spares every other.
pub SameOn-update :
    (m : ℕ → Block) (p : ℕ) (b : Block) (ps : List ℕ) → NotIn p ps → SameOn ps m (update m p b)
SameOn-update m p b [] out = tt
SameOn-update m p b (x ∷ ps) out =
    (update_ne m p x b (λ e. out.0 (sym e)), SameOn-update m p b ps out.1)

pub SameOn-trans :
    (m m' m'' : ℕ → Block) (ps : List ℕ) → SameOn ps m m' → SameOn ps m' m'' → SameOn ps m m''
SameOn-trans m m' m'' [] h k = tt
SameOn-trans m m' m'' (x ∷ ps) h k = (k.0 ∙ h.0, SameOn-trans m m' m'' ps h.1 k.1)

-- Two lists of positions with nothing in common.
abbrev pub Apart : List ℕ → List ℕ → Type 0
Apart ps qs = All (λ p. NotIn p qs) ps

pub Holds-positive :
    {bl n : ℕ} {m : ℕ → Block} {p : ℕ} {ps bytes : List ℕ}
    → Holds bl n m p ps bytes
    → All (λ a. 0 < a) ps
Holds-positive (last pos below end len some_bytes fits content) = (pos, tt)
Holds-positive (more pos below inner len full content h) = (pos, Holds-positive h)
