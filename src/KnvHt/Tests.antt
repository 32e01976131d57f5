-- ===== src/KnvHt/Tests.antt =====
-- Examples on the table of the children of a node.
use mysql_proxy.Common.{
  ℕ, zero, suc, ◌≤◌, ◌≡◌, ◌≢◌, refl, true, false, [], ◌∷◌, arith, some, update, length, All, ◌==◌,
  if◌then◌else◌, ret, fail,
}
use mysql_proxy.Common.Removed.{Distinct, Removed, here}
use mysql_proxy.Common.Rings.{Links}
use mysql_proxy.KnvHt.Table.{
  KnvNode, KnvHt, HtPos, hash_of, get_keyhash, add_key, add_rest, increase, put, get, remove,
  next_level,
}
use mysql_proxy.KnvHt.Filed.{Buckets, Filed, first_match, get-first_match}
use mysql_proxy.KnvHt.Moving.{Fresh}
use mysql_proxy.KnvHt.Increased.{Grown, increase-Grown}
use mysql_proxy.KnvHt.Putting.{Added, put-Added, get-put}
use mysql_proxy.KnvHt.Unfiling.{Unfiled, remove-Unfiled, remove-fails}

-- Two children with the keys 1 and 2 of tag 11.
abbrev nodes : ℕ → KnvNode
nodes n = if n == 5 then record { tag = 11; key = 1 ∷ [] } else record { tag = 11; key = 2 ∷ [] }

-- A full table of one chain, which holds the first of them.
abbrev full : KnvHt
full = record { nr = 1; sz = 1; bm = λ i. i == 0; ht = λ _. 5; ht_next = λ _. 0 }

abbrev one_chain : Buckets
one_chain zero = 5 ∷ []
one_chain (suc i) = []

ne : (a b : ℕ) → (a == b) ≡ false → a ≢ b
ne a b h = ground arith

full_chain : (i : ℕ) → full.bm i ≡ true → Links full.ht_next (one_chain i) (full.ht i) 0
full_chain zero set = (refl, refl)
full_chain (suc i) set = absurd (ground arith)

full_unset : (i : ℕ) → full.bm i ≡ false → one_chain i ≡ []
full_unset zero bit = absurd (ground arith)
full_unset (suc i) bit = refl

full_home : (i : ℕ) → All (λ n. hash_of nodes full.sz n ≡ i) (one_chain i)
unfolding get_keyhash add_key add_rest
full_home zero = (refl, tt)
full_home (suc i) = tt

full_apart : (i : ℕ) → Distinct (0 ∷ one_chain i)
full_apart zero = ((ne 0 5 refl, tt), (tt, tt))
full_apart (suc i) = (tt, tt)

full-Filed : Filed nodes full one_chain
full-Filed = record {
  room = omega arith;
  chain = full_chain;
  unset = full_unset;
  home = full_home;
  apart = full_apart;
  count = refl;
}

seven-Fresh : Fresh 7 one_chain
seven-Fresh zero = (ne 7 5 refl, tt)
seven-Fresh (suc i) = tt

short : (i : ℕ) → length (one_chain i) ≤ 1
short zero = omega arith
short (suc i) = omega arith

-- Whatever stands in the memory for the larger table.
abbrev new_memory : ℕ → ℕ
new_memory i = 99

get-first_match_example :
    (pos : HtPos) × (get nodes 1 full 11 (1 ∷ [])
      ≡ some (first_match nodes 11 (1 ∷ []) (one_chain (get_keyhash 11 (1 ∷ []) 1)), pos))
get-first_match_example = get-first_match nodes 1 full one_chain 11 (1 ∷ []) full-Filed (short _)

increase-Grown_example : Grown nodes 256 full one_chain (increase nodes 1 (some new_memory) full)
unfolding next_level
increase-Grown_example =
    increase-Grown nodes 1 new_memory full one_chain full-Filed (omega arith) short

put-Added_example : Added nodes full one_chain 7 (put nodes 1 (some new_memory) full 7)
put-Added_example =
    put-Added nodes 1 new_memory full one_chain 7 full-Filed (omega arith) (ne 0 7 refl) seven-Fresh

get-put_example :
    (t' : KnvHt) × (put nodes 1 (some new_memory) full 7 ≡ some (ret 0, t'))
    × ((more : ℕ) → t'.nr ≤ more → (pos : HtPos) × (get nodes more t' 11 (2 ∷ []) ≡ some (7, pos)))
get-put_example =
    get-put nodes 1 new_memory full one_chain 7 full-Filed (omega arith) (ne 0 7 refl) seven-Fresh

five-Removed : Removed 5 (one_chain (hash_of nodes 1 5)) []
unfolding get_keyhash add_key add_rest
five-Removed = here

remove-Unfiled_example :
    Unfiled nodes full (update one_chain (hash_of nodes 1 5) []) (remove nodes 1 full 5)
remove-Unfiled_example =
    remove-Unfiled nodes 1 full one_chain 5 [] full-Filed five-Removed (omega arith)

remove-fails_example : remove nodes 1 full 7 ≡ some (fail 1, full)
remove-fails_example =
    remove-fails nodes 1 full one_chain 7 full-Filed (seven-Fresh _) (omega arith)
