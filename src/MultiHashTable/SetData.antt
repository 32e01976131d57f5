-- ===== src/MultiHashTable/SetData.antt =====
-- MultiHashTable::SetData and SearchAndEraseOldestOne of ht/multi_hash_table.cc.
use mysql_proxy.Common.{
  ℕ, zero, suc, ◌+◌, ◌-◌, ◌%◌, ◌^◌, Bool, true, ◌&&◌, ◌||◌, Option, none, some, List, ltb, leb,
  ◌==◌, if◌then◌else◌, length, Ret, ret, fail,
}
use mysql_proxy.LinkTable.Types.{Table}
use mysql_proxy.LinkTable.Data.{set_data, erase_data, get_usage}
use mysql_proxy.MultiHashTable.Types.{Mht, key_room, change_node, is_hnode_empty}
use mysql_proxy.MultiHashTable.Search.{Hit, mend_max_row, search_node, search_traps}
use mysql_proxy.MultiHashTable.Entries.{cleared}

-- Where the search of SearchAndEraseOldestOne stands.
pub record Sweep : Type 0 where
  pub it : ℕ
  pub cnt : ℕ
  pub oldest : Option ℕ
  pub oldest_time : ℕ

-- A node counts if it is in use and is not the one that is being written.
unfoldable pub sweep_node : Mht → (keep : ℕ) → Sweep → Sweep
sweep_node h keep s =
    let n = h.nodes s.it in
    if (s.it == keep) || is_hnode_empty n
    then s
    else if ltb n.access s.oldest_time
    then record s { cnt = s.cnt + 1; oldest = some s.it; oldest_time = n.access }
    else record s { cnt = s.cnt + 1 }

-- The loop stops at a hundred nodes or where the iterator began. Within the table it comes back
-- there after as many rounds as there are nodes.
unfoldable pub sweep_loop : (rounds : ℕ) → Mht → (keep : ℕ) → Sweep → Sweep
sweep_loop zero h keep s = s
sweep_loop (suc rounds) h keep s =
    let seen = sweep_node h keep s in
    let it' = if leb h.hash_node_num (s.it + 1) then 0 else s.it + 1 in
    let s' = record seen { it = it' } in
    let rest = sweep_loop rounds h keep s' in
    if leb 100 s.cnt then s else if it' == h.erase_iterator then s' else rest

unfoldable pub erase_swept : Mht → Option ℕ → Ret × Mht
erase_swept h none = (fail 7, h)
erase_swept h (some i) = cleared h i (erase_data h.lt (h.nodes i).lt_pos) 6 0

unfoldable pub search_and_erase_oldest_one : Mht → (keep : ℕ) → Ret × Mht
search_and_erase_oldest_one h keep =
    let start = if leb h.hash_node_num h.erase_iterator then 0 else h.erase_iterator in
    let s =
      sweep_loop h.hash_node_num h keep
        (record { it = start; cnt = 0; oldest = none; oldest_time = 2 ^ 32 - 1 }) in
    erase_swept (record h { erase_iterator = s.it }) s.oldest

-- How SetData ends; `looping` is the loop of the model out of fuel, `trapped` a search that divides
-- by zero, and `overrun` a key that is copied over what stands behind its node.
pub data Outcome : Type 0 where
  outcome : Ret → Mht → Outcome
  looping : Outcome
  trapped : Outcome
  overrun : Outcome

-- What is behind the loop, with the position `pos` for the node `i`. A node that was empty gets the
-- key, which is copied whatever the room for it; `now` is its time of access.
unfoldable pub write_node : (now : ℕ) → Mht → List ℕ → (hash i pos : ℕ) → Option (ℕ × ℕ) → Outcome
write_node now h key hash i pos none =
    outcome (ret 0) (change_node h i (λ n. record n { lt_pos = pos % 2 ^ 48 }))
write_node now h key hash i pos (some (row, _)) =
    let h' = change_node h i λ n. record n {
      hash_key = hash;
      access = if h.use_access_seq then 0 else now;
      lt_pos = pos % 2 ^ 48;
      key_len = length key % 2 ^ 8;
      key = key;
    } in
    let used = if ltb h.max_used_row row then record h' { max_used_row = row } else h' in
    if ltb (key_room h) (length key) then overrun else outcome (ret 0) used

-- The values that the `do` loop of SetData reads and does not change.
pub record Target : Type 0 where
  pub now : ℕ
  pub key : List ℕ
  pub hash : ℕ
  pub index : ℕ
  pub empty : Option (ℕ × ℕ)
  pub bytes : List ℕ
  pub remove : Bool

abbrev pub write_target : Target → Mht → (pos : ℕ) → Outcome
write_target g h pos = write_node g.now h g.key g.hash g.index pos g.empty

-- `lt.EraseData` of the oldest node in the loop. It sets `ret` to 0, so `continue` leaves the loop.
unfoldable pub dropped_oldest : Target → (pos : ℕ) → Ret × Mht → Outcome
dropped_oldest g pos (ret n, h) = write_target g h pos
dropped_oldest g pos (fail n, h) = outcome (fail n) h

unfoldable pub swept : (Mht → Outcome) → Ret × Mht → Outcome
swept again (ret n, h) = again h
swept again (fail n, h) = outcome (fail 11) h

-- What follows when the link table has not enough space: `again` is the loop from its start.
unfoldable pub make_room : Target → (Mht → Outcome) → Mht → (pos : ℕ) → Option ℕ → Outcome
make_room g again h pos (some j) =
    if g.remove
    then dropped_oldest g pos (cleared h j (erase_data h.lt (h.nodes j).lt_pos) 10 0)
    else outcome (fail 9) h
make_room g again h pos none =
    if g.remove then swept again (search_and_erase_oldest_one h g.index) else outcome (fail 9) h

-- One round, with the result of LinkTable::SetData.
unfoldable pub after_set : Target → (Mht → Outcome) → Mht → Option ℕ → Ret × ℕ × Table → Outcome
after_set g again h oldest (ret n, pos, t) = write_target g (record h { lt = t }) pos
after_set g again h oldest (fail n, pos, t) =
    if n == 100
    then make_room g again (record h { lt = t }) pos oldest
    else outcome (fail 8) (record h { lt = t })

-- The loop. A round that begins it again has cleared a node in use.
unfoldable pub store_loop : (fuel : ℕ) → Target → Option ℕ → Mht → Outcome
store_loop zero g oldest h = looping
store_loop (suc fuel) g oldest h =
    after_set g (store_loop fuel g none) h oldest (set_data h.lt (h.nodes g.index).lt_pos g.bytes)

unfoldable pub store : Target → Option ℕ → Mht → Outcome
store g oldest h = store_loop (h.hash_node_num + 2) g oldest h

-- The arguments of SetData with the hash of the key.
pub record Request : Type 0 where
  pub now : ℕ
  pub key : List ℕ
  pub hash : ℕ
  pub bytes : List ℕ
  pub remove : Bool

abbrev pub target : Request → (index : ℕ) → Option (ℕ × ℕ) → Target
target q i empty = record {
  now = q.now;
  key = q.key;
  hash = q.hash;
  index = i;
  empty = empty;
  bytes = q.bytes;
  remove = q.remove;
}

-- Condition 2: with no empty node on the way, the oldest node gives its place.
unfoldable pub take_place : Request → ℕ → Ret × Mht → Outcome
take_place q j (ret n, h) = store (target q j (some (0, j))) none h
take_place q j (fail n, h) = outcome (fail n) h

unfoldable pub no_empty : Request → Mht → Option ℕ → Outcome
no_empty q h none = if q.remove then outcome (fail 6) h else outcome (fail 5) h
no_empty q h (some j) =
    if q.remove
    then take_place q j (cleared h j (erase_data h.lt (h.nodes j).lt_pos) 7 0)
    else outcome (fail 5) h

-- The choice of the node that is written.
unfoldable pub choose_node : Request → Mht → Hit → Outcome
choose_node q h hit = elim (hit.node) [
  | some i ↦ store (target q i none) hit.oldest h
  | none ↦ elim (hit.empty) [
    | some (row, i) ↦ store (target q i (some (row, i))) hit.oldest h
    | none ↦ no_empty q h hit.oldest
  ]
]

-- Condition 1: where the link table is nearly full, the oldest node on the way is erased.
unfoldable pub relieved : Request → Hit → ℕ → Ret × Mht → Outcome
relieved q hit j (ret n, h) = choose_node q h (record hit {
  empty = elim (hit.empty) [ some e ↦ some e | none ↦ some (0, j) ];
  oldest = none;
})
relieved q hit j (fail n, h) = outcome (fail n) h

unfoldable pub relieve : Request → Mht → Hit → Option ℕ → Outcome
relieve q h hit none = choose_node q h hit
relieve q h hit (some j) =
    if q.remove && ltb 95 (get_usage h.lt)
    then relieved q hit j (cleared h j (erase_data h.lt (h.nodes j).lt_pos) 4 0)
    else choose_node q h hit

-- MultiHashTable::SetData; `remove` is bRemoveOldIfNoSpace.
unfoldable pub mht_set_data :
    (hashfunc : List ℕ → ℕ) (now : ℕ) → Mht → (key bytes : List ℕ) → (remove : Bool) → Outcome
mht_set_data hashfunc now h key bytes remove =
    if length key == 0
    then outcome (fail 1) h
    else if h.ready
    then (let h' = mend_max_row h in
        let hit = search_node h' key (hashfunc key) in
        let done =
          relieve
            (record { now = now; key = key; hash = hashfunc key; bytes = bytes; remove = remove })
            h' hit hit.oldest in
        if search_traps h' key (hashfunc key) true then trapped else done)
    else outcome (fail 2) h
