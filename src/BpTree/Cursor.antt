-- ===== src/BpTree/Cursor.antt =====
-- src/bptree/cursor.rs: the superblock, the read and write cursors, and the operations on them.
pub mod Valid
pub mod Insert
pub mod Remove
pub mod Write
pub mod Search
pub mod Laws
pub mod Tests
use concread.BpTree.Branch
use concread.BpTree.Branch.{Branch}
use concread.BpTree.Insert.{clone_and_insert}
use concread.BpTree.Leaf
use concread.BpTree.Meta.{max_txid}
use concread.BpTree.Mem.{Mem, alloc, push_first, push_last}
use concread.BpTree.Node
use concread.BpTree.Node.{Node}
use concread.BpTree.Remove.{clone_and_remove, path_clone, path_get_mut_ref}
use concread.BpTree.States.{CrInsertState, CrRemoveState, CrCloneState}
use concread.Ord.{Ord}
use concread.Prelude.{
  ltb, if◌then◌else◌, ℕ, zero, suc, ◌+◌, ◌-◌, ◌++◌, List, [], ◌∷◌, Bool, Option, none, some, ◌>>=◌,
  is_some, map,
}
use Prim.Native.Nat.Ordering.{lt, eq, gt}

-- A tree of some height.
pub record Root {ℓ κ} (K : Type ℓ) (V : Type κ) : Type (ℓ ⊔ κ) where
  pub height : ℕ
  pub node : Node K V height

abbrev pub root {ℓ κ} : (K : Type ℓ) (V : Type κ) (h : ℕ) → Node K V h → Root K V
root K V h n = record { height = h; node = n }

-- Without the two locked fields, which order the release of old generations.
pub record SuperBlock {ℓ κ} (K : Type ℓ) (V : Type κ) : Type (ℓ ⊔ κ) where
  pub tree : Root K V
  pub size : ℕ
  pub txid : ℕ

pub record CursorRead {ℓ κ} (K : Type ℓ) (V : Type κ) : Type (ℓ ⊔ κ) where
  pub txid : ℕ
  pub length : ℕ
  pub tree : Root K V

pub record CursorWrite {ℓ κ} (K : Type ℓ) (V : Type κ) : Type (ℓ ⊔ κ) where
  pub txid : ℕ
  pub length : ℕ
  pub tree : Root K V
  pub mem : Mem

-- The limit of the descent in `search`.
abbrev pub max_depth : ℕ
max_depth = 65536

module _ {ℓ κ} (K : Type ℓ) (V : Type κ) where
  -- `SuperBlock::default`, with the number that the node counter gives the leaf
  unfoldable pub default : ℕ → SuperBlock K V
  default nid = record {
    tree = root K V 0 (record { nid = nid; txid = 1; entries = [] });
    size = 0;
    txid = 1;
  }

  unfoldable pub new_read : SuperBlock K V → CursorRead K V
  new_read sblock = record { txid = sblock.txid; length = sblock.size; tree = sblock.tree }

  -- `next_nid` is the state of the node counter. `none` is the failed `assert!`: the transaction
  -- number would not fit the word of a node.
  unfoldable pub new_write : SuperBlock K V → ℕ → Option (CursorWrite K V)
  new_write sblock next_nid =
      if ltb (sblock.txid + 1) max_txid
      then some (record {
        txid = sblock.txid + 1;
        length = sblock.size;
        tree = sblock.tree;
        mem = record { next_nid = next_nid; last_seen = []; first_seen = [] };
      })
      else none

  -- The new superblock, and the nodes that the one before it is to release.
  unfoldable pub finalise : CursorWrite K V → SuperBlock K V × List ℕ
  finalise c = (record { tree = c.tree; size = c.length; txid = c.txid }, c.mem.last_seen)

  unfoldable pub clear : CursorWrite K V → CursorWrite K V
  clear c =
      let leaf = Leaf.new_leaf c.txid c.mem in
      record c {
        tree = root K V 0 leaf.0;
        length = 0;
        mem = push_first leaf.0.nid (record leaf.1 {
          last_seen = c.mem.last_seen ++ Node.sblock_collect K V c.tree.height c.tree.node;
        });
      }

module _ {ℓ κ} (K : Type ℓ) (V : Type κ) ⦃o : Ord K⦄ where
  -- The bounded loop of `search`; `none` is the panic at its end.
  unfoldable pub search_loop : (h : ℕ) → ℕ → Node K V h → K → Option (Option V)
  search_loop h zero node k = none
  search_loop zero (suc i) node k = some (Leaf.get_ref node k)
  search_loop (suc h) (suc i) node k = do
    child ← Branch.get_idx node (Branch.locate_node node k)
    search_loop h i child k

  unfoldable pub search : Root K V → K → Option (Option V)
  unfolding search_loop
  search t k = search_loop t.height max_depth t.node k

  -- A split of the root: the new root holds the two halves.
  unfoldable pub split_root :
      CursorWrite K V → (h : ℕ) → (l r : Node K V h) → Mem → Option (CursorWrite K V)
  split_root c h l r m = do
    (nroot, m') ← Branch.new_branch (Node.min K V h) c.txid l r m
    some (record c { tree = root K V (suc h) nroot; mem = push_first nroot.nid m' })

  unfoldable pub swap_root :
      CursorWrite K V
      → (h : ℕ) → CrInsertState (Node K V h) V
      → Mem
      → Option (CursorWrite K V × Option V)
  unfolding split_root
  swap_root c h (CrInsertState.no_clone n res) m =
      some (record c { tree = root K V h n; mem = m }, res)
  swap_root c h (CrInsertState.clone n res) m =
      some (record c { tree = root K V h n; mem = m }, res)
  swap_root c h (CrInsertState.clone_split l r) m = do c' ← split_root c h l r m; some (c', none)
  swap_root c h (CrInsertState.split l r) m = do c' ← split_root c h l r m; some (c', none)
  swap_root c h (CrInsertState.rev_split n l) m = do c' ← split_root c h l n m; some (c', none)
  swap_root c h (CrInsertState.clone_rev_split n l) m = do
    c' ← split_root c h l n m
    some (c', none)

  abbrev pub count_insert : CursorWrite K V × Option V → CursorWrite K V × Option V
  count_insert (c, none) = (record c { length = c.length + 1 }, none)
  count_insert (c, some v) = (c, some v)

  unfoldable pub insert : CursorWrite K V → K → V → Option (CursorWrite K V × Option V)
  unfolding swap_root
  insert c k v = do
    (s, m) ← clone_and_insert K V c.tree.height c.tree.node c.txid k v c.mem
    r ← swap_root c c.tree.height s m
    some (count_insert r)

  -- A root that shrank: an empty leaf stays, a branch gives way to its only node.
  unfoldable pub demote_root : CursorWrite K V → (h : ℕ) → Node K V h → Mem → CursorWrite K V
  demote_root c zero n m = record c { tree = root K V 0 n; mem = m }
  demote_root c (suc h) n m = record c {
    tree = root K V h (Branch.extract_last_node n);
    mem = push_last n.nid m;
  }

  unfoldable pub shrink_root :
      CursorWrite K V → (h : ℕ) → CrRemoveState (Node K V h) V → Mem → CursorWrite K V × Option V
  unfolding demote_root
  shrink_root c h (CrRemoveState.no_clone n res) m =
      (record c { tree = root K V h n; mem = m }, res)
  shrink_root c h (CrRemoveState.clone n res) m = (record c { tree = root K V h n; mem = m }, res)
  shrink_root c h (CrRemoveState.shrink n res) m = (demote_root c h n m, res)
  shrink_root c h (CrRemoveState.clone_shrink n res) m = (demote_root c h n m, res)

  abbrev pub count_remove : CursorWrite K V × Option V → CursorWrite K V × Option V
  count_remove (c, none) = (c, none)
  count_remove (c, some v) = (record c { length = c.length - 1 }, some v)

  unfoldable pub remove : CursorWrite K V → K → Option (CursorWrite K V × Option V)
  unfolding shrink_root
  remove c k = do
    (s, m) ← clone_and_remove K V c.tree.height c.tree.node c.txid k c.mem
    some (count_remove (shrink_root c c.tree.height s m))

  abbrev pub cloned_path {μ} : {A : Type μ} → CrCloneState A → A
  cloned_path (CrCloneState.clone n) = n
  cloned_path (CrCloneState.no_clone n) = n

  -- The write `f` is what the caller does through the reference.
  unfoldable pub get_mut_ref : CursorWrite K V → K → (V → V) → Option (CursorWrite K V × Option V)
  get_mut_ref c k f = do
    (s, m) ← path_clone K V c.tree.height c.tree.node c.txid k c.mem
    (res, n) ← path_get_mut_ref K V c.tree.height (cloned_path s) k f
    some (record c { tree = root K V c.tree.height n; mem = m }, res)

  -- `Extend`
  unfoldable pub extend : CursorWrite K V → List (K × V) → Option (CursorWrite K V)
  unfolding insert
  extend c [] = some c
  extend c ((k, v) ∷ kvs) = do (c', res) ← insert c k v; extend c' kvs
