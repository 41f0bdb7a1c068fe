-- ===== src/BpTree/Meta.antt =====
-- src/bptree/node.rs: the word `meta` of a node. Its masks are runs of bits: the flag is the four
-- bits from bit 60 on, the transaction the 56 bits from bit 4 on, the count the low four bits. So
-- `&` with a mask is a division and a remainder, and `|` of words without a common bit is their sum.
-- A failed `debug_assert!` is `none`.
pub mod Laws
use concread.Prelude.{
  ℕ, ◌+◌, ◌-◌, ◌*◌, ◌/◌, ◌%◌, Option, none, some, Bool, ◌==◌, ltb, if◌then◌else◌, ◌>>=◌,
}
use Prim.Native.Nat.{◌^◌}

-- `FLAG_BRANCH` and `FLAG_LEAF`, shifted down by 60
abbrev pub flag_branch : ℕ
flag_branch = 1

abbrev pub flag_leaf : ℕ
flag_leaf = 2

-- `TXID_MASK >> TXID_SHF`
abbrev pub max_txid : ℕ
max_txid = 2 ^ 56 - 1

unfoldable pub flag : ℕ → ℕ
flag m = m / 2 ^ 60

unfoldable pub count : ℕ → ℕ
count m = m % 16

unfoldable pub get_txid : ℕ → ℕ
get_txid m = m / 16 % 2 ^ 56

unfoldable pub is_leaf : ℕ → Bool
unfolding flag
is_leaf m = flag m == flag_leaf

unfoldable pub is_branch : ℕ → Bool
unfolding flag
is_branch m = flag m == flag_branch

-- the word of a new leaf
unfoldable pub new_meta : ℕ → Option ℕ
new_meta txid = if ltb txid max_txid then some (txid * 16 + flag_leaf * 2 ^ 60) else none

unfoldable pub set_count : ℕ → ℕ → Option ℕ
set_count m c = if ltb c 16 then some (m / 16 * 16 + c) else none

unfoldable pub inc_count : ℕ → Option ℕ
unfolding count
inc_count m = if ltb (count m) 15 then some ((m + 1) % 2 ^ 64) else none

unfoldable pub add_count : ℕ → ℕ → Option ℕ
unfolding count set_count
add_count m x = set_count m (count m + x)

-- The count is positive, so the word is, and the subtraction does not wrap.
unfoldable pub dec_count : ℕ → Option ℕ
unfolding count
dec_count m = if ltb 0 (count m) then some (m - 1) else none

-- The word of a clone: the flag and the count stay, the transaction is a new one.
unfoldable pub clone_meta : ℕ → ℕ → Option ℕ
unfolding flag count
clone_meta m txid = if ltb txid max_txid then some (flag m * 2 ^ 60 + count m + txid * 16) else none
