-- ===== src/BpTree/Mem.antt =====
-- src/bptree/cursor.rs and node.rs: the bookkeeping of a write transaction. A node is identified by
-- the `nid` that `NODE_COUNTER` gives it, which stands for its pointer.
use concread.Prelude.{ℕ, ◌+◌, List, [], ◌∷◌, ◌++◌}

pub record Mem : Type 0 where
  pub next_nid : ℕ
  -- nodes that later transactions no longer reach
  pub last_seen : List ℕ
  -- nodes that this transaction allocated
  pub first_seen : List ℕ

-- `alloc_nid`: the number given out is the `next_nid` of before
unfoldable pub alloc : Mem → Mem
alloc m = record m { next_nid = m.next_nid + 1 }

unfoldable pub push_last : ℕ → Mem → Mem
push_last n m = record m { last_seen = m.last_seen ++ n ∷ [] }

unfoldable pub push_first : ℕ → Mem → Mem
push_first n m = record m { first_seen = m.first_seen ++ n ∷ [] }
