-- ===== src/LinkTable/Types.antt =====
-- The data of ht/link_table.h: the header and the blocks of the shared memory as one record.
use mysql_proxy.Common.{
  ℕ, ◌+◌, ◌-◌, ◌*◌, ◌/◌, ◌%◌, ◌^◌, ◌<◌, ◌≡◌, Bool, false, leb, if◌then◌else◌, arith, List,
  replicate, update,
}

-- LtBlock: bit fields of 48 and 16 bits, and the bytes behind them.
pub record Block : Type 0 where
  pub next : ℕ
  pub length_in_block : ℕ
  pub buf : List ℕ

abbrev pub set_next : ℕ → Block → Block
set_next p b = record b { next = p % 2 ^ 48 }

abbrev pub set_length : ℕ → Block → Block
set_length n b = record b { length_in_block = n % 2 ^ 16 }

-- LinkTableHead and the blocks. `ready` is `header != NULL && blocks != NULL`.
pub record Table : Type 0 where
  pub ready : Bool
  pub all_block_count : ℕ
  pub free_block_count : ℕ
  pub block_size : ℕ
  pub last_empty : ℕ
  pub first_free_pos : ℕ
  pub recycle_index : ℕ
  pub recycle_pool_size : ℕ
  pub recycle_pool : List ℕ
  pub user_data : List ℕ
  pub blocks : ℕ → Block

abbrev pub max_block_count : ℕ
max_block_count = 25 * 1024

abbrev pub max_recycle_pool_size : ℕ
max_recycle_pool_size = 256 * 1024 / 8

abbrev pub def_recycle_pool_size : ℕ
def_recycle_pool_size = 100

abbrev pub max_usrdata_len : ℕ
max_usrdata_len = 512 * 1024 - 4

-- BLOCK_DATA_LEN: what `bufData` leaves of a block.
abbrev pub block_data_len : Table → ℕ
block_data_len t = t.block_size - 8

-- LT_ELE_AT(p)->..., as an update of the memory.
abbrev pub change : Table → ℕ → (Block → Block) → Table
change t p f = record t { blocks = update t.blocks p (f (t.blocks p)) }

-- What `memset` to 0 leaves of a block.
abbrev pub zero_block : Table → Block
zero_block t = record { next = 0; length_in_block = 0; buf = replicate (block_data_len t) 0 }

-- A cast of an ull64_t to int: whether it is negative, and its value if it is not.
abbrev pub is_negative_int : ℕ → Bool
is_negative_int n = leb (2 ^ 31) (n % 2 ^ 32)

abbrev pub int_part : ℕ → ℕ
int_part n = if is_negative_int n then 0 else n % 2 ^ 32

-- A count that fits into an int stays what it is.
pub is_negative_int-small : (n : ℕ) → n < 2 ^ 31 → is_negative_int n ≡ false
is_negative_int-small n h = ground (arith, h)

pub low_word : (n : ℕ) → n < 2 ^ 31 → n % 2 ^ 32 ≡ n
low_word n h = omega arith

-- `n--` and `n - 1` on an ull64_t.
abbrev pub dec64 : ℕ → ℕ
dec64 n = (n + (2 ^ 64 - 1)) % 2 ^ 64
