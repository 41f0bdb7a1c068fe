-- ===== src/BpTree/Tests.antt =====
-- The laws of single nodes on a full leaf and on full branches whose children are their own keys.
use concread.BpTree.Branch.{add_node_full}
use concread.BpTree.Branch.Full.{IsCut, add_node_full-Cut}
use concread.BpTree.Cursor.Tests.{full, full-IsSorted, full-IsLeaf}
use concread.BpTree.Leaf
use concread.BpTree.Leaf.{Leaf, get_ref, insert_or_update}
use concread.BpTree.Leaf.Laws
use concread.BpTree.Leaf.Laws.{insert_or_update-Inserted}
use concread.BpTree.Leaf.Removal.{Removed, remove-Removed}
use concread.BpTree.Meta
use concread.BpTree.Meta.{new_meta, set_count, inc_count, dec_count, clone_meta, flag_leaf}
use concread.BpTree.Meta.Laws.{HasFields, inc_count-HasFields}
use concread.Ord.{nat_ord}
use concread.Prelude.{◌+◌, ◌*◌, ℕ, List, [], ◌∷◌, refl, arith, Ensures}
use concread.Slice.{key_search, slice_insert}
use concread.Slice.Search.{Located, key_search-Located}
use Prim.Native.Nat.{◌^◌}

key_search-Located_example : Located 40 full.entries 0 (key_search full.entries 40)
key_search-Located_example = key_search-Located 40 full.entries full-IsSorted

remove-Removed_example : Ensures (Removed 1 full 40) (Leaf.remove full 40)
remove-Removed_example = remove-Removed 1 full 40 full-IsLeaf

abbrev emptied : Leaf ℕ ℕ
emptied = record { nid = 4; txid = 1; entries = [] }

emptied-IsLeaf : Laws.IsLeaf 1 emptied
emptied-IsLeaf = record { sorted = tt; bounded = omega arith; dated = omega arith }

full-IsFilled : Laws.IsFilled 1 full
full-IsFilled = record { leaf = full-IsLeaf; filled = omega arith }

abbrev seven : List (ℕ × ℕ)
seven = (1, 1) ∷ (2, 2) ∷ (3, 3) ∷ (4, 4) ∷ (6, 6) ∷ (7, 7) ∷ (8, 8) ∷ []

add_node_full-Cut_example :
    IsCut 9 1 0
      (slice_insert seven (5, 5) 4)
      (add_node_full (record { nid = 9; txid = 1; first = 0; rest = seven }) 5 5 4)
add_node_full-Cut_example = add_node_full-Cut 9 1 0 seven 5 5 4 refl (omega arith)

-- a leaf of transaction 5 with 7 entries
abbrev word : ℕ
word = 2 * 2 ^ 60 + 5 * 16 + 7

inc_count-HasFields_example :
    Ensures (HasFields (Meta.flag word) (Meta.get_txid word) (Meta.count word + 1)) (inc_count word)
unfolding Meta.count
inc_count-HasFields_example = inc_count-HasFields word (omega arith) (omega arith)
