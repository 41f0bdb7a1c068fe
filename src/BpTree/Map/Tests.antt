-- ===== src/BpTree/Map/Tests.antt =====
-- One reader and one writer of a new map, and the laws of the map on their interleaving.
use concread.BpTree.Cursor.{CursorWrite, new_read, finalise, default}
use concread.BpTree.Leaf
use concread.BpTree.Leaf.{Leaf}
use concread.BpTree.Map.{
  Block, BptreeMap, ReadTxn, Op, new, read, write, try_write, commit, apply, get,
}
use concread.BpTree.Map.Inv.{Inv}
use concread.BpTree.Map.Safety.{Reach-Inv, commit_visible, try_write-excluded, is_empty}
use concread.BpTree.Map.Sound.{Reach-IsSound, get-lookup, commit-get}
use concread.BpTree.Map.Views.{IsSound, Applied, apply-Applied}
use concread.BpTree.Cursor.Tests.{writer, writer-IsCursor, nat-IsPlain}
use concread.BpTree.Cursor.Valid.{contents}
use concread.BpTree.Split.{split_off_lt}
use concread.BpTree.Split.Laws.{SplitOff, split_off_lt-SplitOff}
use concread.SortedMap.{lookup}
use concread.BpTree.Map.System.{
  System, Start, from_new, Reach, start, later, begin_read, begin_write, change,
}
use concread.Ord.{nat_ord}
use concread.Prelude.{
  ℕ, ◌+◌, arith, List, Option, [], ◌∷◌, ◌≡◌, refl, none, some, true, false, is_some, Always,
  Ensures,
}

abbrev first : Block ℕ ℕ
first = record {
  sblock = record {
    tree = record { height = 0; node = record { nid = 0; txid = 1; entries = [] } };
    size = 0;
    txid = 1;
  };
  last_seen = none;
  pin_next = none;
}

abbrev origin : System ℕ ℕ
origin = record {
  map = record { locked = false; active = 0; blocks = first ∷ [] };
  writers = [];
  readers = [];
}

-- The reader sees the empty map.
abbrev reader : ReadTxn ℕ ℕ
reader = record {
  pin = 0;
  work = record {
    txid = 1;
    length = 0;
    tree = record { height = 0; node = record { nid = 0; txid = 1; entries = [] } };
  };
}

abbrev fresh : CursorWrite ℕ ℕ
fresh = record {
  txid = 2;
  length = 0;
  tree = record { height = 0; node = record { nid = 0; txid = 1; entries = [] } };
  mem = record { next_nid = 1; last_seen = []; first_seen = [] };
}

-- after an insert, which clones the leaf
abbrev written : CursorWrite ℕ ℕ
written = record {
  txid = 2;
  length = 1;
  tree = record { height = 0; node = record { nid = 1; txid = 2; entries = (5, 7) ∷ [] } };
  mem = record { next_nid = 2; last_seen = 0 ∷ []; first_seen = 1 ∷ [] };
}

abbrev opened : System ℕ ℕ
opened = record {
  map = record origin.map { locked = true };
  writers = written ∷ [];
  readers = reader ∷ [];
}

abbrev committed : System ℕ ℕ
committed = record {
  map = record {
    locked = false;
    active = 1;
    blocks =
        record {
          sblock = record { tree = reader.work.tree; size = 0; txid = 1 };
          last_seen = some (0 ∷ []);
          pin_next = some 1;
        }
        ∷ record {
          sblock = record { tree = written.tree; size = 1; txid = 2 };
          last_seen = none;
          pin_next = none;
        }
        ∷ [];
  };
  writers = [];
  readers = reader ∷ [];
}

started : Start ℕ ℕ 1 origin
unfolding new default
started = from_new 0

read_run : read ℕ ℕ origin.map ≡ some reader
unfolding read new_read
read_run = refl

write_run : write ℕ ℕ origin.map 1 ≡ some (record origin.map { locked = true }, fresh)
unfolding write concread.BpTree.Cursor.new_write
write_run = refl

insert_run : apply ℕ ℕ (Op.insert 5 7) fresh ≡ some (written, none)
unfolding apply concread.BpTree.Cursor.insert concread.BpTree.Insert.clone_and_insert Leaf.req_clone
    Leaf.insert_or_update concread.Slice.key_search concread.BpTree.Insert.leaf_cloned
    concread.Slice.slice_insert concread.BpTree.Mem.push_last concread.BpTree.Mem.push_first
    concread.BpTree.Mem.alloc
insert_run = refl

commit_run : commit ℕ ℕ opened.map written ≡ some committed.map
unfolding commit finalise concread.BpTree.Map.publish concread.BpTree.Map.commit_prep
    concread.Slice.set
commit_run = refl

opened-Reach : Reach ℕ ℕ 1 opened
opened-Reach =
    later (later (later (start started) (begin_read read_run)) (begin_write fresh 1 refl write_run))
      (change [] [] fresh written (Op.insert 5 7) refl insert_run)

Reach-Inv_example : Inv 1 opened
Reach-Inv_example = Reach-Inv ℕ ℕ opened-Reach

commit_visible_example :
    Ensures
      (λ m.
        (m.locked ≡ false)
        × Ensures (λ r. r.work ≡ new_read ℕ ℕ (finalise ℕ ℕ written).0) (read ℕ ℕ m))
      (commit ℕ ℕ opened.map written)
commit_visible_example = commit_visible ℕ ℕ [] [] written opened-Reach refl

try_write-excluded_example :
    Always
      (λ r. (is_some r.1 ≡ is_empty opened.writers) × (is_some r.1 ≡ false → r.0 ≡ opened.map))
      (try_write ℕ ℕ opened.map 9)
try_write-excluded_example = try_write-excluded ℕ ℕ 9 opened-Reach

Reach-IsSound_example : IsSound ℕ ℕ opened
Reach-IsSound_example = Reach-IsSound ℕ ℕ nat-IsPlain opened-Reach

get-lookup_example : get ℕ ℕ reader 5 ≡ some (lookup 5 (contents reader.work.tree))
get-lookup_example = get-lookup ℕ ℕ nat-IsPlain [] [] reader 5 opened-Reach refl (omega arith)

commit-get_example :
    Ensures
      (λ m. Ensures (λ r. get ℕ ℕ r 5 ≡ some (lookup 5 (contents written.tree))) (read ℕ ℕ m))
      (commit ℕ ℕ opened.map written)
commit-get_example = commit-get ℕ ℕ nat-IsPlain [] [] written 5 opened-Reach refl (omega arith)

split_off_lt-SplitOff_example : Ensures (SplitOff ℕ ℕ writer 50) (split_off_lt ℕ ℕ writer 50)
split_off_lt-SplitOff_example = split_off_lt-SplitOff ℕ ℕ nat-IsPlain writer 50 writer-IsCursor

apply-Applied_example :
    Ensures
      (Applied ℕ ℕ (Op.get_mut 80 (λ v. v + 1)) writer)
      (apply ℕ ℕ (Op.get_mut 80 (λ v. v + 1)) writer)
apply-Applied_example =
    apply-Applied ℕ ℕ nat-IsPlain (Op.get_mut 80 (λ v. v + 1)) writer writer-IsCursor

abbrev shown : Option (CursorWrite ℕ ℕ) → Option (ℕ × List (ℕ × ℕ))
shown none = none
shown (some c) = some (c.length, contents c.tree)

-- Of the eight keys of two leaves those below 50 go.
split_off_lt_run :
    shown (split_off_lt ℕ ℕ writer 50) ≡ some (4, (50, 5) ∷ (60, 6) ∷ (70, 7) ∷ (80, 8) ∷ [])
unfolding split_off_lt concread.BpTree.Split.keys_below concread.BpTree.Split.remove_all
    concread.BpTree.Split.count_kv concread.BpTree.Iter.new_iter concread.BpTree.Iter.next
    concread.BpTree.Iter.next_key concread.BpTree.Iter.next_in concread.BpTree.Iter.new_leaf_iter
    concread.BpTree.Iter.next_leaf concread.BpTree.Iter.next_leaf_in concread.BpTree.Iter.descend
    concread.BpTree.Iter.stack_position concread.BpTree.Cursor.remove
    concread.BpTree.Remove.clone_and_remove concread.BpTree.Remove.expect_clone
    concread.BpTree.Remove.leaf_cloned concread.BpTree.Remove.settle_child
    concread.BpTree.Remove.branch_cloned concread.BpTree.Remove.branch_in_place
    concread.BpTree.Remove.leaf_in_place concread.BpTree.Remove.shrink_child
    concread.BpTree.Branch.req_clone concread.BpTree.Branch.node_at
    concread.BpTree.Branch.locate_node concread.BpTree.Branch.replace_by_idx
    concread.BpTree.Branch.remove_by_idx concread.BpTree.Branch.remove_rest
    concread.BpTree.Branch.splice concread.Slice.key_search concread.Slice.slice_remove
    concread.Slice.search_from concread.Slice.slice_search_linear concread.BpTree.Leaf.req_clone
    concread.BpTree.Leaf.remove concread.BpTree.Leaf.merge concread.BpTree.Shrink.clone_sibling_idx
    concread.BpTree.Shrink.shrink_decision concread.BpTree.Shrink.rebalance
    concread.BpTree.Shrink.settle concread.BpTree.Node.req_clone concread.BpTree.Mem.alloc
    concread.BpTree.Mem.push_first concread.BpTree.Mem.push_last concread.BpTree.Cursor.demote_root
    concread.BpTree.Cursor.shrink_root concread.BpTree.Iter.checked concread.BpTree.Iter.as_leaf
    concread.BpTree.Node.leaf_count concread.BpTree.Tree.Dates.entries
split_off_lt_run = refl
