-- ===== src/MultiHashTable/Storing.antt =====
-- MultiHashTable::SetData of ht/multi_hash_table.cc with a key that Search does not find.
use mathlib.Core.Path.{subst}
use mysql_proxy.Common.{
  ℕ, suc, ◌+◌, ◌%◌, ◌^◌, ◌≤◌, ◌<◌, ◌≡◌, ◌≢◌, refl, sym, ap, ◌∙◌, inl, inr, Bool, true, false, ◌&&◌,
  Option, none, some, List, [], ◌∷◌, arith, ltb, ◌==◌, if◌then◌else◌, Bool-cases, if_true, if_false,
  ltb-false, length, take, ret, fail, update_self, update_ne,
}
use mysql_proxy.LinkTable.Types.{Table}
use mysql_proxy.LinkTable.Data.{set_data, get_usage}
use mysql_proxy.LinkTable.Storing.{HasSpace, Stored, set_data-Stored}
use mysql_proxy.MultiHashTable.Types.{
  Mht, Node, key_room, change_node, is_hnode_empty, same_bytes, hnode_matches,
}
use mysql_proxy.MultiHashTable.Search.{Hit, search_node, search_traps}
use mysql_proxy.MultiHashTable.SetData.{
  outcome, trapped, overrun, Target, Request, target, write_node, after_set, store_loop, store,
  choose_node, relieve, mht_set_data,
}
use mysql_proxy.MultiHashTable.Written.{KeyAt, search_node-written}
use mysql_proxy.MultiHashTable.Rows.{RowsFilled, search_traps-RowsFilled}
use mysql_proxy.MultiHashTable.Reading.{mend_inside}

same_bytes_refl : (xs : List ℕ) → same_bytes xs xs ≡ true
unfolding same_bytes
same_bytes_refl [] = refl
same_bytes_refl (x ∷ xs) = ground (arith, same_bytes_refl xs)

-- The node that is written for a new key.
abbrev pub new_node : (now : ℕ) → Mht → List ℕ → (hash pos : ℕ) → Node → Node
new_node now h key hash pos n = record n {
  hash_key = hash;
  access = if h.use_access_seq then 0 else now;
  lt_pos = pos % 2 ^ 48;
  key_len = length key % 2 ^ 8;
  key = key;
}

pub new_node-matches :
    (now : ℕ) (h : Mht) (key : List ℕ) (hash pos : ℕ) (n : Node)
    → hnode_matches key (new_node now h key hash pos n) ≡ true
unfolding hnode_matches
new_node-matches now h key hash pos n =
    ground (arith, same_bytes_refl (take (length key % 2 ^ 8) key))

-- The table with the node `i`, in the row `row`, written.
abbrev pub written : (now : ℕ) → Mht → List ℕ → (hash row i pos : ℕ) → Mht
written now h key hash row i pos =
    let h' = change_node h i (new_node now h key hash pos) in
    if ltb h.max_used_row row then record h' { max_used_row = row } else h'

pub record Written (now : ℕ) (h : Mht) (key : List ℕ) (hash row i pos : ℕ) (g : Mht) : Type 0 where
  pub ready : g.ready ≡ h.ready
  pub table : g.lt ≡ h.lt
  pub rows : g.rows_node_num ≡ h.rows_node_num
  pub node : g.nodes i ≡ new_node now h key hash pos (h.nodes i)
  pub others : (j : ℕ) → j ≢ i → g.nodes j ≡ h.nodes j
  pub used : row ≤ g.max_used_row
  pub grown : h.max_used_row ≤ g.max_used_row
  pub row_num : g.row_num ≡ h.row_num
  pub inside : row < h.row_num → h.max_used_row < h.row_num → g.max_used_row < h.row_num

pub written-Written :
    (now : ℕ) (h : Mht) (key : List ℕ) (hash row i pos : ℕ)
    → Written now h key hash row i pos (written now h key hash row i pos)
written-Written now h key hash row i pos = elim (Bool-cases (ltb h.max_used_row row)) [
  | inl e ↦ rw e (record {
    ready = refl;
    table = refl;
    rows = refl;
    node = update_self h.nodes i _;
    others = λ j ne. update_ne h.nodes i j _ ne;
    used = omega arith;
    grown = ground arith;
    row_num = refl;
    inside = λ a b. a;
  })
  | inr e ↦ rw e (record {
    ready = refl;
    table = refl;
    rows = refl;
    node = update_self h.nodes i _;
    others = λ j ne. update_ne h.nodes i j _ ne;
    used = ground arith;
    grown = omega arith;
    row_num = refl;
    inside = λ a b. b;
  })
]

choose_new :
    (q : Request) (h : Mht) (hit : Hit) (row i : ℕ)
    → hit.node ≡ none
    → hit.empty ≡ some (row, i)
    → choose_node q h hit ≡ store (target q i (some (row, i))) hit.oldest h
unfolding choose_node
choose_new q h hit row i missing named = ground arith

relieve_new :
    (q : Request) (h : Mht) (hit : Hit) (o : Option ℕ) (row i : ℕ)
    → (q.remove && ltb 95 (get_usage h.lt)) ≡ false
    → hit.node ≡ none
    → hit.empty ≡ some (row, i)
    → relieve q h hit o ≡ store (target q i (some (row, i))) hit.oldest h
unfolding relieve
relieve_new q h hit none row i calm missing named = choose_new q h hit row i missing named
relieve_new q h hit (some j) row i calm missing named =
    if_false _ _ calm ∙ choose_new q h hit row i missing named

abbrev pub request :
    (hashfunc : List ℕ → ℕ) (now : ℕ) (key bytes : List ℕ) (remove : Bool) → Request
request hashfunc now key bytes remove = record {
  now = now;
  key = key;
  hash = hashfunc key;
  bytes = bytes;
  remove = remove;
}

-- SetData with a new key comes to the loop at the empty node.
pub set_new_key :
    (hashfunc : List ℕ → ℕ) (now : ℕ) (h : Mht) (key bytes : List ℕ) (remove : Bool) (row i : ℕ)
    → h.ready ≡ true
    → 0 < length key
    → h.max_used_row < h.row_num
    → RowsFilled h.row_num h.rows_node_num
    → (search_node h key (hashfunc key)).node ≡ none
    → (search_node h key (hashfunc key)).empty ≡ some (row, i)
    → (remove && ltb 95 (get_usage h.lt)) ≡ false
    → mht_set_data hashfunc now h key bytes remove
      ≡ store
          (target (request hashfunc now key bytes remove) i (some (row, i)))
          (search_node h key (hashfunc key)).oldest
          h
unfolding mht_set_data
set_new_key hashfunc now h key bytes remove row i ready nonempty inside rows missing named calm =
    if_false (outcome (fail 1) h) _ (nonzero (length key) nonempty)
    ∙ if_true _ (outcome (fail 2) h) ready
    ∙ ap
        (λ g.
          let done =
            relieve q g (search_node g key (hashfunc key))
              (search_node g key (hashfunc key)).oldest in
          if search_traps g key (hashfunc key) true then trapped else done)
        (mend_inside h inside)
    ∙ if_false trapped _ (search_traps-RowsFilled h key (hashfunc key) true rows inside)
    ∙ relieve_new q h (search_node h key (hashfunc key)) (search_node h key (hashfunc key)).oldest
        row i calm missing named
  where
    q : Request
    q = request hashfunc now key bytes remove

    nonzero : (n : ℕ) → 0 < n → (n == 0) ≡ false
    nonzero n p = ground arith

-- The loop with space in the link table stores the data in its first round.
pub store_new :
    (g : Target) (o : Option ℕ) (h : Mht) (t : Table) (pos : ℕ)
    → is_hnode_empty (h.nodes g.index) ≡ true
    → set_data h.lt 0 g.bytes ≡ (ret 0, pos, t)
    → store g o h ≡ write_node g.now (record h { lt = t }) g.key g.hash g.index pos g.empty
unfolding store store_loop after_set is_hnode_empty
store_new g o h t pos unused stored = rw (two_more h.hash_node_num) (
    ap (λ p. after_set g (store_loop (h.hash_node_num + 1) g none) h o (set_data h.lt p g.bytes))
      (free (h.nodes g.index).lt_pos unused)
    ∙ ap (after_set g (store_loop (h.hash_node_num + 1) g none) h o) stored)
  where
    two_more : (n : ℕ) → n + 2 ≡ suc (n + 1)
    two_more n = omega arith

    free : (p : ℕ) → (p == 0) ≡ true → p ≡ 0
    free p e = ground arith

pub write_new :
    (now : ℕ) (h : Mht) (key : List ℕ) (hash row i pos : ℕ)
    → length key ≤ key_room h
    → write_node now h key hash i pos (some (row, i))
      ≡ outcome (ret 0) (written now h key hash row i pos)
unfolding write_node
write_new now h key hash row i pos fits =
    if_false overrun _ (ltb-false (key_room h) (length key) fits)

pub Written-KeyAt :
    {now : ℕ} {h g : Mht} {key : List ℕ} {hash row i pos : ℕ}
    → Written now h key hash row i pos g
    → 0 < pos
    → pos < 2 ^ 48
    → KeyAt h g key hash i
unfolding is_hnode_empty
Written-KeyAt {now} {h} {g} {key} {hash} {row} {i} {pos} w positive small = record {
  rows = w.rows;
  holds =
      subst
        (λ n.
          (is_hnode_empty n ≡ false) × ((hash == n.hash_key) ≡ true) × (hnode_matches key n ≡ true))
        (sym w.node) (ground arith, ground arith, new_node-matches now h key hash pos (h.nodes i));
  others = w.others;
}

-- A table that is initialised, a key that Search does not find, the empty node `i` in the row `row`
-- that it names and whose room the key fits, and space in the link table, of at most 2 ^ 48 blocks; no
-- old data is erased for a nearly full link table, and every row has nodes.
pub record CanStore (hashfunc : List ℕ → ℕ) (h : Mht) (key bytes : List ℕ) (remove : Bool)
    (row i q : ℕ) (blocks : List ℕ) : Type 0 where
  pub ready : h.ready ≡ true
  pub nonempty : 0 < length key
  pub fits : length key ≤ key_room h
  pub rows : RowsFilled h.row_num h.rows_node_num
  pub inside : h.max_used_row < h.row_num
  pub missing : (search_node h key (hashfunc key)).node ≡ none
  pub named : (search_node h key (hashfunc key)).empty ≡ some (row, i)
  pub unused : is_hnode_empty (h.nodes i) ≡ true
  pub calm : (remove && ltb 95 (get_usage h.lt)) ≡ false
  pub space : HasSpace h.lt q blocks bytes
  pub small : h.lt.all_block_count ≤ 2 ^ 48

-- What SetData leaves then: 0, the node `i` written, and the link table of its SetData.
pub record Added (hashfunc : List ℕ → ℕ) (now : ℕ) (h : Mht) (key bytes : List ℕ) (remove : Bool)
    (row i : ℕ) : Type 0 where
  pub table : Mht
  pub lt : Table
  pub stored : mht_set_data hashfunc now h key bytes remove ≡ outcome (ret 0) table
  pub run : set_data h.lt 0 bytes ≡ (ret 0, h.lt.first_free_pos, lt)
  pub low : h.lt.first_free_pos % 2 ^ 48 ≡ h.lt.first_free_pos
  pub change : Written now (record h { lt = lt }) key (hashfunc key) row i h.lt.first_free_pos table
  pub inside : table.max_used_row < table.row_num
  pub rows : RowsFilled table.row_num table.rows_node_num
  pub reached : (search_node table key (hashfunc key)).node ≡ some i

pub mht_set_data-Added :
    (hashfunc : List ℕ → ℕ) (now : ℕ) (h : Mht) (key bytes : List ℕ) (remove : Bool) (row i q x : ℕ)
    (xs : List ℕ)
    → CanStore hashfunc h key bytes remove row i q (x ∷ xs)
    → Added hashfunc now h key bytes remove row i
mht_set_data-Added hashfunc now h key bytes remove row i q x xs c = record {
  table = g;
  lt = t;
  stored =
      set_new_key hashfunc now h key bytes remove row i c.ready c.nonempty c.inside c.rows c.missing
        c.named c.calm
      ∙ store_new (target (request hashfunc now key bytes remove) i (some (row, i))) _ h t pos
          c.unused s.result
      ∙ write_new now (record h { lt = t }) key (hashfunc key) row i pos c.fits;
  run = s.result;
  low = omega (arith, c.space.linked, c.small);
  change = w;
  inside = subst (λ n. g.max_used_row < n) (sym w.row_num) (w.inside found.0 c.inside);
  rows =
      subst (λ n. RowsFilled n g.rows_node_num) (sym w.row_num)
        (subst (RowsFilled h.row_num) (sym w.rows) c.rows);
  reached = found.1;
}
  where
    pos : ℕ
    pos = h.lt.first_free_pos

    s : Stored h.lt q 0 (x ∷ xs) bytes (set_data h.lt 0 bytes)
    s = set_data-Stored h.lt q x 0 xs bytes c.space

    t : Table
    t = record (h.lt) { blocks = s.memory; first_free_pos = q; free_block_count = s.count }

    g : Mht
    g = written now (record h { lt = t }) key (hashfunc key) row i pos

    w : Written now (record h { lt = t }) key (hashfunc key) row i pos g
    w = written-Written now (record h { lt = t }) key (hashfunc key) row i pos

    k : KeyAt (record h { lt = t }) g key (hashfunc key) i
    k = Written-KeyAt w (omega (arith, c.space.linked)) (omega (arith, c.space.linked, c.small))

    found : (row < h.row_num) × ((search_node g key (hashfunc key)).node ≡ some i)
    found =
        search_node-written h g key (hashfunc key) row i c.inside c.missing c.named
          (record { rows = k.rows; holds = k.holds; others = k.others }) w.used
