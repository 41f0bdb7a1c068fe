-- ===== src/BpTree/Meta/Laws.antt =====
-- The fields of a node's word do not disturb each other.
use concread.BpTree.Meta.{
  flag, count, get_txid, new_meta, set_count, inc_count, dec_count, clone_meta, max_txid, flag_leaf,
}
use concread.Prelude.{ℕ, ◌+◌, ◌<◌, ◌≡◌, arith, Ensures, ltb, true}
use Prim.Native.Nat.{◌^◌}

-- The word holds these three fields, and fits 64 bits.
pub record HasFields (f x c m : ℕ) : Type 0 where
  pub fits : m < 2 ^ 64
  pub flag_is : flag m ≡ f
  pub txid_is : get_txid m ≡ x
  pub count_is : count m ≡ c

-- The word of a new leaf is that of a leaf of the transaction, with nothing in it.
pub new_meta-HasFields :
    (txid : ℕ) → txid < max_txid → Ensures (HasFields flag_leaf txid 0) (new_meta txid)
unfolding new_meta flag get_txid count
new_meta-HasFields txid h =
    let small : ltb txid max_txid ≡ true = ground arith in
    rw small record {
      fits = omega arith;
      flag_is = omega arith;
      txid_is = omega arith;
      count_is = omega arith;
    }

-- Setting the count to a number below 16 leaves the flag and the transaction as they were.
pub set_count-HasFields :
    (m c : ℕ) → m < 2 ^ 64 → c < 16 → Ensures (HasFields (flag m) (get_txid m) c) (set_count m c)
unfolding set_count flag get_txid count
set_count-HasFields m c w h =
    let small : ltb c 16 ≡ true = ground arith in
    rw small record {
      fits = omega arith;
      flag_is = omega arith;
      txid_is = omega arith;
      count_is = omega arith;
    }

-- Counting up from less than 15 neither carries into the transaction nor overflows the word.
pub inc_count-HasFields :
    (m : ℕ)
    → m < 2 ^ 64
    → count m < 15
    → Ensures (HasFields (flag m) (get_txid m) (count m + 1)) (inc_count m)
unfolding inc_count flag get_txid count
inc_count-HasFields m w h =
    let small : ltb (count m) 15 ≡ true = ground arith in
    rw small record {
      fits = omega arith;
      flag_is = omega arith;
      txid_is = omega arith;
      count_is = omega arith;
    }

-- Counting down from a positive count does not borrow from the transaction.
pub dec_count-HasFields :
    (m c : ℕ)
    → m < 2 ^ 64
    → count m ≡ c + 1
    → Ensures (HasFields (flag m) (get_txid m) c) (dec_count m)
unfolding dec_count flag get_txid count
dec_count-HasFields m c w h =
    let positive : ltb 0 (count m) ≡ true = ground arith in
    rw positive record {
      fits = omega arith;
      flag_is = omega arith;
      txid_is = omega arith;
      count_is = omega arith;
    }

-- A clone keeps the flag and the count of its original and is of the new transaction.
pub clone_meta-HasFields :
    (m txid : ℕ)
    → m < 2 ^ 64
    → txid < max_txid
    → Ensures (HasFields (flag m) txid (count m)) (clone_meta m txid)
unfolding clone_meta flag get_txid count
clone_meta-HasFields m txid w h =
    let small : ltb txid max_txid ≡ true = ground arith in
    rw small record {
      fits = omega arith;
      flag_is = omega arith;
      txid_is = omega arith;
      count_is = omega arith;
    }
