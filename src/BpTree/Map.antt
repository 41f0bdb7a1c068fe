-- ===== src/BpTree/Map.antt =====
-- src/bptree/mod.rs: the map, its lock and its transactions, over the superblocks of
-- src/bptree/cursor.rs with the fields that order their release.
pub mod System
pub mod Txid
pub mod Blocks
pub mod Inv
pub mod Safety
pub mod Views
pub mod Sound
pub mod Tests
use concread.BpTree.Cursor
use concread.BpTree.Cursor.{
  SuperBlock, CursorRead, CursorWrite, Root, default, new_read, new_write, finalise, search,
}
use concread.BpTree.Split
use concread.Ord.{Ord}
use concread.Slice.{set}
use concread.Prelude.{
  ℕ, List, [], ◌∷◌, ◌++◌, Bool, true, false, Option, none, some, ◌+◌, ◌>>=◌, length, get_elem?,
  if◌then◌else◌,
}

-- A superblock behind its `Arc`, with the fields that are behind locks of their own.
pub record Block {ℓ κ} (K : Type ℓ) (V : Type κ) : Type (ℓ ⊔ κ) where
  pub sblock : SuperBlock K V
  pub last_seen : Option (List ℕ)
  pub pin_next : Option ℕ

-- The superblocks in the order of their allocation, which an `Arc` names by its place; `locked`
-- is the lock `write`.
pub record BptreeMap {ℓ κ} (K : Type ℓ) (V : Type κ) : Type (ℓ ⊔ κ) where
  pub locked : Bool
  pub active : ℕ
  pub blocks : List (Block K V)

pub record ReadTxn {ℓ κ} (K : Type ℓ) (V : Type κ) : Type (ℓ ⊔ κ) where
  pub pin : ℕ
  pub work : CursorRead K V

-- The methods of a write transaction that change it.
pub data Op {ℓ κ} (K : Type ℓ) (V : Type κ) : Type (ℓ ⊔ κ) where
  insert : K → V → Op K V
  remove : K → Op K V
  clear : Op K V
  get_mut : K → (V → V) → Op K V
  extend : List (K × V) → Op K V
  split_off_lt : K → Op K V

module _ {ℓ κ} (K : Type ℓ) (V : Type κ) where
  unfoldable pub new : ℕ → BptreeMap K V
  new nid = record {
    locked = false;
    active = 0;
    blocks = record { sblock = default K V nid; last_seen = none; pin_next = none } ∷ [];
  }

  unfoldable pub read : BptreeMap K V → Option (ReadTxn K V)
  read m = do
    b ← get_elem? m.blocks m.active
    some (record { pin = m.active; work = new_read K V b.sblock })

  -- The lock is free. `next_nid` is the state of the node counter.
  unfoldable pub write : BptreeMap K V → ℕ → Option (BptreeMap K V × CursorWrite K V)
  write m next_nid = do
    b ← get_elem? m.blocks m.active
    c ← new_write K V b.sblock next_nid
    some (record m { locked = true }, c)

  -- The inner `none` is the result of a lock that is taken.
  unfoldable pub try_write : BptreeMap K V → ℕ → Option (BptreeMap K V × Option (CursorWrite K V))
  try_write m next_nid =
      let opened = write m next_nid >>= λ (m', c). some (m', some c) in
      if m.locked then some (m, none) else opened

  -- The two asserted states, and the swap.
  abbrev swap_seen :
      Block K V → Block K V → Option (List ℕ) → Option (List ℕ) → Option (Block K V × Block K V)
  swap_seen new older (some l) none =
      some (record new { last_seen = none }, record older { last_seen = some l })
  swap_seen new older (some l) (some k) = none
  swap_seen new older none seen = none

  -- The new block and the old one; `none` is a failed `debug_assert!`.
  unfoldable pub commit_prep : Block K V → Block K V → Option (Block K V × Block K V)
  commit_prep new older = swap_seen new older new.last_seen older.last_seen

  -- The superblock that `finalise` makes.
  abbrev pub sealed : SuperBlock K V × List ℕ → Block K V
  sealed (sb, l) = record { sblock = sb; last_seen = some l; pin_next = none }

  -- `BptreeMap::commit`
  unfoldable pub publish : BptreeMap K V → Block K V → Option (BptreeMap K V)
  publish m newdata = do
    b ← get_elem? m.blocks m.active
    (new, old) ← commit_prep newdata b
    let next = length m.blocks
    some (record m {
      active = next;
      blocks = set m.blocks m.active (record old { pin_next = some next }) ++ new ∷ [];
    })

  -- The guard of a write transaction is dropped, at a commit or without one.
  abbrev pub unlock : BptreeMap K V → BptreeMap K V
  unlock m = record m { locked = false }

  -- `BptreeMapWriteTxn::commit`
  unfoldable pub commit : BptreeMap K V → CursorWrite K V → Option (BptreeMap K V)
  commit m c = do m' ← publish m (sealed (finalise K V c)); some (unlock m')

module _ {ℓ κ} (K : Type ℓ) (V : Type κ) ⦃o : Ord K⦄ where
  -- The superblock `temp_sb` is dropped at the end, and the nodes handed to it are released.
  unfoldable pub from_iter : ℕ → List (K × V) → Option (BptreeMap K V)
  from_iter nid kvs = do
    let temp_sb = default K V nid
    cursor ← new_write K V temp_sb (nid + 1)
    cursor' ← Cursor.extend K V cursor kvs
    (new, old) ←
        commit_prep K V (sealed K V (finalise K V cursor'))
          (record { sblock = temp_sb; last_seen = none; pin_next = none })
    some (record { locked = false; active = 0; blocks = new ∷ [] })

  unfoldable pub apply : Op K V → CursorWrite K V → Option (CursorWrite K V × Option V)
  apply (Op.insert k v) c = Cursor.insert K V c k v
  apply (Op.remove k) c = Cursor.remove K V c k
  apply Op.clear c = some (Cursor.clear K V c, none)
  apply (Op.get_mut k f) c = Cursor.get_mut_ref K V c k f
  apply (Op.extend kvs) c = do c' ← Cursor.extend K V c kvs; some (c', none)
  apply (Op.split_off_lt k) c = do c' ← Split.split_off_lt K V c k; some (c', none)

  unfoldable pub get : ReadTxn K V → K → Option (Option V)
  get r k = search K V r.work.tree k
