-- ===== src/BpTree/Cursor/Tests.antt =====
-- Runs of the cursor on small inputs, and the laws of the tree on a tree of two leaves.
use concread.BpTree.Branch.{Branch}
use concread.BpTree.Cursor.{
  remove, get_mut_ref, CursorWrite, SuperBlock, new_write, finalise, new_read, insert, search,
  extend,
}
use concread.BpTree.Cursor.Insert.{Insertion, insert-Insertion}
use concread.BpTree.Cursor.Laws.{search-insert, IsSuper, commit-search}
use concread.BpTree.Cursor.Search.{search-lookup}
use concread.BpTree.Cursor.Valid.{contents, IsCursor}
use concread.BpTree.Cursor.Remove.{Removal, remove-Removal, search-remove}
use concread.BpTree.Cursor.Write.{Written, get_mut_ref-Written}
use concread.BpTree.Insert.{clone_and_insert}
use concread.BpTree.Remove.{clone_and_remove}
use concread.BpTree.Tree.Remove.{RemovePost}
use concread.BpTree.Tree.RemoveDescend.{clone_and_remove-RemovePost}
use concread.BpTree.Leaf
use concread.BpTree.Leaf.{Leaf, insert_or_update, l_capacity}
use concread.BpTree.Leaf.Laws
use concread.BpTree.Leaf.Laws.{insert_or_update-Inserted}
use concread.BpTree.Tree.{node_child}
use concread.BpTree.Tree.Dates.{entries}
use concread.BpTree.Tree.Descend.{clone_and_insert-Post}
use concread.BpTree.Tree.Insert.{Post, IsTree}
use concread.Ord.{nat_ord, IsPlain}
use concread.Prelude.{
  ◌+◌, ◌>>=◌, Option, none, ℕ, ◌≤◌, List, [], ◌∷◌, some, ◌≡◌, ◌≢◌, refl, arith, Ensures,
}
use concread.SortedMap.{IsSorted, lookup, insert_all}

-- A leaf that is full, and a tree of it and a leaf with one entry.
abbrev pub full : Leaf ℕ ℕ
full = record {
  nid = 0;
  txid = 1;
  entries = (10, 1) ∷ (20, 2) ∷ (30, 3) ∷ (40, 4) ∷ (50, 5) ∷ (60, 6) ∷ (70, 7) ∷ [];
}

abbrev pub single : Leaf ℕ ℕ
single = record { nid = 1; txid = 1; entries = (80, 8) ∷ [] }

abbrev pub two : Branch ℕ (Leaf ℕ ℕ)
two = record { nid = 2; txid = 1; first = full; rest = (80, single) ∷ [] }

abbrev block : SuperBlock ℕ ℕ
block = record { tree = record { height = 1; node = two }; size = 8; txid = 1 }

abbrev pub writer : CursorWrite ℕ ℕ
writer = record {
  txid = 2;
  length = 8;
  tree = record { height = 1; node = two };
  mem = record { next_nid = 3; last_seen = []; first_seen = [] };
}

pub full-IsSorted : IsSorted full.entries
full-IsSorted = (
  (refl, (refl, (refl, (refl, (refl, (refl, tt)))))),
  (
    (refl, (refl, (refl, (refl, (refl, tt))))),
    (
      (refl, (refl, (refl, (refl, tt)))),
      ((refl, (refl, (refl, tt))), ((refl, (refl, tt)), ((refl, tt), (tt, tt)))),
    ),
  ),
)

pub full-IsLeaf : Laws.IsLeaf 1 full
full-IsLeaf = record { sorted = full-IsSorted; bounded = omega arith; dated = omega arith }

pub two-IsTree : (t : ℕ) → 1 ≤ t → IsTree ℕ ℕ 1 t two
unfolding node_child
two-IsTree t le = record {
  dated = le;
  branch = record {
    chain = (
      (tt, (tt, (tt, (tt, (tt, (tt, (tt, tt))))))),
      record { leaf = full-IsLeaf; filled = omega arith },
      (refl, (refl, (refl, (refl, (refl, (refl, (refl, tt))))))),
      tt,
      (
        (refl, tt),
        record {
          leaf = record { sorted = (tt, tt); bounded = omega arith; dated = omega arith };
          filled = omega arith;
        },
      ),
    );
    bounded = omega arith;
    filled = omega arith;
  };
}

pub writer-IsCursor : IsCursor writer
unfolding entries
writer-IsCursor = record { tree = two-IsTree 2 (omega arith); counted = refl }

block-IsSuper : IsSuper ℕ ℕ block
unfolding entries
block-IsSuper = record { tree = two-IsTree 1 (omega arith); counted = refl }

-- The full leaf splits and its sibling moves up in a clone of the root.
insert-Insertion_example : Ensures (Insertion ℕ ℕ writer 45 0) (insert ℕ ℕ writer 45 0)
insert-Insertion_example = insert-Insertion ℕ ℕ writer 45 0 writer-IsCursor

search-lookup_example : search ℕ ℕ writer.tree 45 ≡ some (lookup 45 (contents writer.tree))
search-lookup_example = search-lookup ℕ ℕ 2 8 writer.tree 45 writer-IsCursor (omega arith)

search-insert_example :
    Ensures
      (λ r.
        (search ℕ ℕ r.0.tree 45 ≡ some (some 9))
        × ((q : ℕ) → q ≢ 45 → search ℕ ℕ r.0.tree q ≡ search ℕ ℕ writer.tree q))
      (insert ℕ ℕ writer 45 9)
search-insert_example = search-insert ℕ ℕ writer 45 9 writer-IsCursor (omega arith)

pub nat-IsPlain : IsPlain ℕ
nat-IsPlain n = refl

abbrev batch : List (ℕ × ℕ)
batch = (45, 0) ∷ (5, 1) ∷ (80, 2) ∷ []

commit-search_example :
    Ensures
      (λ c.
        IsSuper ℕ ℕ (finalise ℕ ℕ c).0
        × ((finalise ℕ ℕ c).0.txid ≡ 2)
        × (search ℕ ℕ (new_read ℕ ℕ (finalise ℕ ℕ c).0).tree 5
            ≡ some (lookup 5 (insert_all batch (contents block.tree)))))
      (new_write ℕ ℕ block 3 >>= λ c. extend ℕ ℕ c batch)
commit-search_example = commit-search ℕ ℕ block 3 batch 5 block-IsSuper (omega arith) (omega arith)

clone_and_insert-Post_example :
    Ensures (Post ℕ ℕ 1 2 two 45 0) (clone_and_insert ℕ ℕ 1 two 2 45 0 writer.mem)
clone_and_insert-Post_example =
    clone_and_insert-Post ℕ ℕ 1 2 45 0 two writer.mem (two-IsTree 2 (omega arith))

insert_or_update-Inserted_example :
    Ensures (Laws.Inserted 1 full 45 0) (insert_or_update full 45 0 writer.mem)
insert_or_update-Inserted_example = insert_or_update-Inserted 1 full 45 0 writer.mem full-IsLeaf

remove-Removal_example : Ensures (Removal ℕ ℕ writer 80) (remove ℕ ℕ writer 80)
remove-Removal_example = remove-Removal ℕ ℕ nat-IsPlain writer 80 writer-IsCursor

search-remove_example :
    Ensures
      (λ r.
        (search ℕ ℕ r.0.tree 80 ≡ some none)
        × ((q : ℕ) → q ≢ 80 → search ℕ ℕ r.0.tree q ≡ search ℕ ℕ writer.tree q))
      (remove ℕ ℕ writer 80)
search-remove_example = search-remove ℕ ℕ nat-IsPlain writer 80 writer-IsCursor (omega arith)

clone_and_remove-RemovePost_example :
    Ensures (RemovePost ℕ ℕ 1 2 two 80) (clone_and_remove ℕ ℕ 1 two 2 80 writer.mem)
clone_and_remove-RemovePost_example =
    clone_and_remove-RemovePost ℕ ℕ nat-IsPlain 1 2 80 two writer.mem (two-IsTree 2 (omega arith))

get_mut_ref-Written_example :
    Ensures (Written ℕ ℕ writer 80 (λ v. v + 1)) (get_mut_ref ℕ ℕ writer 80 (λ v. v + 1))
get_mut_ref-Written_example = get_mut_ref-Written ℕ ℕ writer 80 (λ v. v + 1) writer-IsCursor

-- the result, the height and the length after a run
abbrev seen : Option (CursorWrite ℕ ℕ × Option ℕ) → Option (Option ℕ × ℕ × ℕ)
seen none = none
seen (some (c, r)) = some (r, c.tree.height, c.length)

-- The right leaf runs empty and the root gives way to the left one.
remove_run : seen (remove ℕ ℕ writer 80) ≡ some (some 8, 0, 7)
unfolding remove concread.BpTree.Remove.clone_and_remove concread.BpTree.Remove.expect_clone
    concread.BpTree.Remove.leaf_cloned concread.BpTree.Remove.settle_child
    concread.BpTree.Remove.branch_cloned concread.BpTree.Remove.branch_in_place
    concread.BpTree.Remove.leaf_in_place concread.BpTree.Remove.shrink_child
    concread.BpTree.Branch.req_clone concread.BpTree.Branch.node_at
    concread.BpTree.Branch.locate_node concread.BpTree.Branch.replace_by_idx
    concread.BpTree.Branch.remove_by_idx concread.BpTree.Branch.remove_rest
    concread.BpTree.Branch.splice concread.Slice.key_search concread.Slice.slice_remove
    concread.Slice.search_from concread.Slice.slice_search_linear Leaf.req_clone Leaf.remove
    Leaf.merge concread.BpTree.Shrink.clone_sibling_idx concread.BpTree.Shrink.shrink_decision
    concread.BpTree.Shrink.rebalance concread.BpTree.Shrink.settle concread.BpTree.Node.req_clone
    concread.BpTree.Mem.alloc concread.BpTree.Mem.push_first concread.BpTree.Mem.push_last
    concread.BpTree.Cursor.demote_root concread.BpTree.Cursor.shrink_root
remove_run = refl
