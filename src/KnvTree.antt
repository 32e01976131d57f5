-- ===== src/KnvTree.antt =====
-- KnvNode of knv/knv_node.h and knv/knv_node.cc: trees of nodes with a tag and a value, of which the
-- value of an expanded node stands in its metas and children. A tree is a value here; the links
-- between its nodes, the pool of nodes and the hash table of the children are ObjPool and KnvHt.
pub mod Node
pub mod Packing
pub mod Wire
pub mod Sizes
pub mod Evaluating
pub mod Packs
pub mod Serializing
pub mod Updating
pub mod Open
pub mod Above
pub mod Climbing
pub mod Parents
pub mod Changing
pub mod Inserting
pub mod SettingInt
pub mod Expand
pub mod Fields
pub mod Making
pub mod Expanding
pub mod Unread
pub mod Expanded
pub mod Fold
pub mod Folding
pub mod InsertChild
pub mod RemoveByTag
pub mod SetTag
mod Tests
mod ExpandTests
mod FoldTests
