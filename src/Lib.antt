-- ===== src/Lib.antt =====
-- A verification library for the storage and wire-format core of mysql_proxy.
--
-- The program is a proxy for MySQL. Its server keeps replies in shared memory and talks to its
-- clients in a protobuf-like format. The parts that carry its own logic are modelled here:
--
-- * knv/pb.h and knv/pb.c, the low-level protobuf reader and writer: the modules under Pb. Pb.Types
--   has pb_field_t (Field), pb_buff_t (Buff) and pb_field_val_t (FieldVal); Pb.Reader has pb_begin,
--   pb_begin_delimited, pb_next and pb_skip_field with the functions below them, Pb.Writer the
--   pb_add functions, Pb.Size the pb_eval functions, Pb.Zigzag pb_int2uint and pb_uint2int. Pb.Wire
--   is an independent description of the bytes of a field, on which the reader, the writer and the
--   sizes meet in Pb.RoundTrip. A pointer into a buffer is the list of the bytes from it on, a
--   function that returns 0 or a negative code is a Run, which also has a value for an access
--   outside the buffer and one for a loop that runs out of fuel.
-- * ht/link_table.h and ht/link_table.cc, chains of blocks in shared memory: the modules under
--   LinkTable. LinkTable.Types has LinkTableHead with the blocks (Table) and LtBlock (Block), Free
--   has Init, InitExisting, FreeBlock, RecycleBlock and EmptyRecyclePool, Alloc has GetEmptyBlock,
--   Data has GetData, SetData, EraseData and the rest of the interface. Linked says what a chain is
--   and what it holds.
-- * ht/multi_hash_table.h and ht/multi_hash_table.cc, the hash table whose data stands in a link
--   table: the modules under MultiHashTable. Types has MhtHeader with the nodes and the link table
--   (Mht) and MhtNode (Node), Search has Search, Entries GetData, EraseData and EraseBadNode,
--   SetData has SetData and SearchAndEraseOldestOne, Rows says when Search divides by no row without
--   nodes, Iterate has Begin, Next and Get, Layout has
--   MaxPrime, whose square root is exact, and CalcNodeNumForEachRow. The hash
--   function is a parameter, the time is an argument, and an operation runs alone, as under the
--   mutex.
--
-- * knv/mem_pool.h and knv/mem_pool.cc, pools of buffers by size: the modules under MemPool. Magic has
--   the size classes and get_magic, Pool has UcMem (Mem) and UcMemPool (MemPool) with Alloc, Free and
--   Shrink, Manager has UcMemManager. Accounting, Shrinking, Ending and History are about one pool,
--   Sized and Serving about the manager. ObjPool of knv/obj_pool.h stands in a pool as the list of
--   its free objects, the one released last in front; what new and malloc return is an argument, and
--   an atomic operation or a loop of compare-and-swap is one step.
--
-- * knv/obj_pool.h and knv/obj_base.h, objects kept for reuse and linked lists of them: the modules
--   under ObjPool. Objects has the class (ObjPool), with New() as new_alone, New(first) as new_last,
--   NewFront, Delete(obj) as delete_alone, Delete(first, obj) as delete, Detach, AddToFreeList and
--   DeleteAll, over memory with the links of every object; Held is the pointer of a caller to a list
--   with the pool. Common.Rings says how a list stands in memory, Lists is the abstract view, two lists of
--   objects, which Refines and Histories show to be implemented. An operation runs alone; the memory
--   that new finds and the effect of ReleaseObject on an object are parameters.
--
-- * KnvHt of knv/knv_node.h and knv/knv_node.cc, the hash table in which a node of a knv tree finds
--   its children: the modules under KnvHt. Table has the class with get_keyhash, clear, get, put,
--   increase and remove, for nodes given by address with their tag and key; remove_at is the remove
--   that takes a place. Filed says which nodes stand in the chains of a table, Putting, Increased and
--   Unfiling are about put, increase and remove. The links of lists come from Common.Rings.
--
-- * KnvNode of knv/knv_node.h and knv/knv_node.cc, trees of tagged values over the protobuf
--   format: the modules under KnvTree. A tree is a value; the nodes above a change are a list of
--   Frames. Node has the members with EvaluateSize, Packing has Serialize, Expand has InitNode and
--   InnerExpand with knv_key_t::init, Updating has InnerInsertChild, RemoveChildByPos,
--   DetachChild, SetValue of a number, UPDATE_EVAL_SZ and UpdateParentEvalueAndSetDirty. Wire is
--   the description of the bytes that a tree stands for, over Pb.Wire, and says when the sizes in
--   a tree are right; Sizes, Evaluating, Packs and Serializing are about a whole tree, Open,
--   Above, Climbing, Parents and Changing about a change in it, which Inserting, RemoveByTag and
--   SettingInt apply, Fields, Making, Expanding and Unread about the fields in a value, which
--   Expanded applies. Fold has Fold and the Serialize into a string, InsertChild the whole
--   InsertChild, RemoveByTag RemoveChildrenByTag, SetTag the function of that name. The pool of nodes and the hash table of children
--   are ObjPool and KnvHt; what the parent knows of a key, and the number of nodes the pool can
--   give, are arguments; a value that is read or written outside its buffer gives none or broken.
--   The array of the metas by tag, child_has_key and the error texts are left out.
--
-- Common has what these share: Boolean tests, lists over the native numbers, return codes, and
-- masks and shifts of words, lists of distinct objects, and linked lists in memory.
--
-- Loops run on fuel. The loop of pb_decode_varint stops in its eleventh round, when the shift has
-- reached 64 bits; pb_skip_varint takes a byte in each round, and has as many rounds as bytes. The
-- loop of LinkTable::GetData stops with -22 when the buffer is full, so it has a round more than
-- the buffer has bytes, and FreeBlock stops itself after 25601 blocks. The loop of
-- MultiHashTable::SetData has two rounds more than there are nodes, since a round that begins it
-- again has cleared a node. The second loop of UcMemPool::Shrink has rounds as an argument; two
-- are enough. The binary search of get_magic has nine rounds, one for each class. The loop of
-- ObjPool::DeleteAll and the loops of KnvHt along a chain have rounds as an argument, and need no
-- more than the list has objects, or the table nodes. The loop of InnerExpand has a round for each
-- byte of the value and one more, and a field takes a byte at least.
--
-- Not modelled: the set-up of the hash table in memory (InitFromBuffer, InitFromShm,
-- CreateFromShm), of the knv tree SetValue of a string, SetMeta, SetKey, RemoveMeta, Duplicate and
-- the operations on subtrees, its protocol (knv/protocol.h), storage.cc, the server and the client,
-- which are input and output over these parts or are left for later; the texts of error messages
-- but for those of knv/pb.c, the counters of comm/Attr_API.h, and the printed reports. What a key
-- longer than the room in its node overwrites, and reads of shared memory while another process
-- writes, are outside the model; so are, in a knv tree, changes of a meta or of a node below one.
pub mod Common
pub mod Pb
pub mod LinkTable
pub mod MultiHashTable
pub mod KnvHt
pub mod KnvTree
pub mod MemPool
pub mod ObjPool
