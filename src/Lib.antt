-- ===== src/Lib.antt =====
-- The B+tree map of concread, a copy on write tree that is read through snapshots and changed by
-- one write transaction at a time, its cell for a single value, and its adaptive replacement cache.
--
-- The parts, and how they interact. A `CursorWrite` (src/bptree/cursor.rs) holds the root of a
-- tree, its length, the number of its transaction and two release lists. An insert descends from
-- the root, copies every node on its path that an older transaction made, and changes the copies;
-- a full node splits in two and its parent takes in the second half, up to the root. `finalise`
-- makes a superblock of the cursor, from which readers start. A node (src/bptree/node.rs) is a
-- leaf of entries or a branch of children between separator keys. The map (src/bptree/mod.rs)
-- publishes the superblocks behind a lock: a writer takes the lock, works on a cursor of the active
-- superblock and commits, and a reader pins the superblock that it began with. The iterators
-- (src/bptree/iter.rs) walk the leaves of a root. The cell (src/cowcell/mod.rs) stands apart
-- from the tree: it keeps a lock for writers and the value that readers share. The cache
-- (src/arcache/mod.rs) keeps the state of each key in a hash map and its node in one of five linked
-- lists (src/arcache/ll.rs): frequent, recent, the ghosts of both, and haunted. A write transaction
-- collects its writes and hits, readers send theirs through a channel, and a commit takes them all
-- in, adapts the weight `p` between frequent and recent, and evicts what is too much.
--
-- Which file models which part:
--   Prelude, Ord          Boolean tests, lists and options over native numbers; the bounds on
--                         keys: `K: Ord` as a lawful three-way comparison, and what a drop leaves.
--   SortedMap             the abstract map: entries in key order, with lookup, insert and remove.
--   Slice                 src/utils.rs and `key_search!` of src/bptree/macros.rs.
--   BpTree/Meta           the word `meta` of a node: flag, transaction and count as bit fields.
--   BpTree/Mem            the node counter and the lists `last_seen` and `first_seen`.
--   BpTree/States         src/bptree/states.rs. A node that is changed in place comes back in the
--                         state that reports it.
--   BpTree/Leaf, Branch   the methods of Leaf and Branch in src/bptree/node.rs. The key and value
--                         arrays of a leaf are one list of entries; a branch is its first child and
--                         a list of the others, each with the key to its left. The count of `meta`
--                         is the length of the list.
--   BpTree/Node           a node of height h: the flag of `meta` is the height being 0 or not, so
--                         siblings are of one kind, as the casts of the source take them to be.
--   BpTree/Shrink         Branch::shrink_decision and Branch::clone_sibling_idx.
--   BpTree/Insert         clone_and_insert of src/bptree/cursor.rs.
--   BpTree/Remove         clone_and_remove, path_clone and path_get_mut_ref.
--   BpTree/Cursor         the superblock, the cursors, and insert, remove, search, clear, extend.
--   BpTree/Split          CursorWrite::split_off_lt. Its loops have the length and one more as fuel.
--   BpTree/Map            BptreeMap, its transactions and commit_prep. Superblocks are numbered in the
--                         order of their allocation; Map/System has the interleavings of readers and
--                         writers as a step relation, a step being what a thread does in one hold of
--                         the inner locks.
--   BpTree/Iter           LeafIter, Iter, KeyIter and ValueIter. The stack holds nodes with their
--                         heights; a call of next on itself takes fuel.
--   CowCell               src/cowcell/mod.rs. The values are numbered in the order of their
--                         allocation; CowCell/System has the interleavings, CowCell/Spec what the cell promises.
--   Assoc                 the hash maps of the cache, as their entries in the order of insertion, and
--                         the bound `K: Hash + Eq` as a Boolean equality with a hash.
--   Ll                    the methods of LL in src/arcache/ll.rs, on the sequence of nodes of a list.
--   Arc                   the state of the cache: the entries, the five lists, the payloads of the
--                         nodes by number, `p`, the watermark and the statistics; and the moves of
--                         a node that all parts of a commit share.
--   Arc/Drain             drain_tlocal_inc, drain_rx and drain_tlocal_hits, a match arm at a time.
--   Arc/Evict             evict and the macros evict_to_len, evict_to_haunted_len and
--                         drain_ll_to_ghost. `debug` tells whether debug assertions and overflow
--                         checks are compiled in; a word then wraps around at 64 bits or panics.
--   Arc/Commit, Txn       commit, new_size and the methods of ARCacheWriteTxn.
-- The proofs: Slice/Search and Leaf/Laws for a leaf; Branch/Search, Full and FullLeft for the lists
-- of a branch; Chain for the children of a branch as an ordered chain over an interface `Child`;
-- Tree for the induction on the height; Chain/Pair and Remove, Shrink and Tree/Rebalance, Sibling,
-- Shrink, Settle, Remove and RemoveDescend for a child that runs empty; Tree/Path and LeafWrite for
-- get_mut; Cursor/Insert, Remove, Write, Search and Laws for the cursor; Split/Laws for
-- split_off_lt; Map/Blocks, Inv and Safety for the superblocks, Map/Views and Sound for the trees
-- in them; Iter/Leaves and Order for the iterators; CowCell/Views and Refine for the cell; Arc/Inv
-- for the order of the cache, Track, Sets, Fresh and Items for one key, Inclusion, Hits, Writes and
-- Coherence for the drains, Shrink, Rounds and Bound for the eviction, Clear for the clear, Serial,
-- Session, Dirty and Overflow for the commit, and Local and TxnLaws for the transaction.
--
-- A panic, a read of an uninitialised key and a read out of range are `none`. Pointers are the
-- numbers of their nodes in the release lists, and the nodes themselves elsewhere: a copy on write
-- tree shares nodes between generations, and the source changes in place only nodes that the
-- transaction itself has made. Descents are recursions on the height, which the type of the node
-- carries. `search` keeps the bound of 65536 steps of the source as its fuel. The transaction
-- number and the length are unbounded numbers here, and a node keeps its transaction as a number
-- and its count as the length of its list; BpTree/Meta models the word. Where the width of a
-- machine word matters the hypothesis is written out. Branch::take_from_l_to_r drops one key that
-- stays in use: the bound on keys has what a slot holds after its key was dropped, and the theorems
-- on a remove are for keys without a destructor, whose slots hold them still. L_CAPACITY is 7, the
-- value without the feature `skinny`.
--
-- In the cache the local map of a transaction comes to the commit in any order of its entries, a
-- time is a number, and transaction numbers are unbounded. A while loop has the length of its list
-- and one more as fuel, and each round takes one node off. The channel is the list of the events
-- that are in it when the commit drains it. A commit holds the lock of the writer throughout, so it
-- is one function of the state; the commits of the hash map and of the statistics are its result.
--
-- Not modelled: the release of nodes and of superblocks, and the snapshots; the hash map and the
-- other lock cells (src/hashmap, src/ebrcell, src/lincowcell); the read transactions of the cache,
-- the sizing formula of ARCache::new, and the links between the nodes of its lists; and
-- src/maple_tree, which the crate does not build.
pub mod Prelude
pub mod Ord
pub mod SortedMap
pub mod Slice
pub mod BpTree
pub mod CowCell
pub mod Assoc
pub mod Ll
pub mod Arc
