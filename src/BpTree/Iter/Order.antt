-- ===== src/BpTree/Iter/Order.antt =====
-- src/bptree/iter.rs: an iterator yields the entries of its tree in key order, and ends.
use concread.BpTree.Cursor.{Root, CursorRead}
use concread.BpTree.Cursor.Valid.{contents, IsValid}
use concread.BpTree.Iter.{
  Iter, LeafIter, next_in, next, next_leaf, next_key, next_value, new_iter, new_leaf_iter, kv_iter,
  size_hint,
}
use concread.BpTree.Iter.Leaves.{leaves, Left, Advanced, next_leaf-Advanced, new_leaf_iter-Left}
use concread.BpTree.Leaf.{Leaf}
use concread.BpTree.Node
use concread.BpTree.Node.{Node, concat_rest, sum_rest}
use concread.BpTree.Tree.Dates.{entries}
use concread.Ord.{Ord}
use concread.Prelude.{
  ℕ, zero, suc, ◌+◌, ◌≤◌, List, [], ◌∷◌, ◌++◌, false, Option, none, some, ◌>>=◌, ◌≡◌, refl, ap, sym,
  ◌∙◌, Ensures, Ensures-bind, Ensures-imp, append_assoc, arith, append-nil, subst, length, drop,
  get_elem?, length-append, Option-cases, inl, inr,
}

module _ {ℓ} {A : Type ℓ} where
  drop-get_elem? :
      (xs : List A) (i : ℕ) (x : A) → get_elem? xs i ≡ some x → drop i xs ≡ x ∷ drop (i + 1) xs
  drop-get_elem? [] i x e = cc
  drop-get_elem? (y ∷ xs) zero x e = let same : y ≡ x = cc in ap (λ z. z ∷ xs) same
  drop-get_elem? (y ∷ xs) (suc i) x e =
      let next : suc i + 1 ≡ suc (i + 1) = omega arith in rw next (drop-get_elem? xs i x e)

  drop-end : (xs : List A) (i : ℕ) → get_elem? xs i ≡ none → drop i xs ≡ []
  drop-end [] zero e = refl
  drop-end [] (suc i) e = refl
  drop-end (y ∷ xs) zero e = cc
  drop-end (y ∷ xs) (suc i) e = drop-end xs i e

module _ {ℓ κ} (K : Type ℓ) (V : Type κ) where
  abbrev pub all_entries : List (Leaf K V) → List (K × V)
  all_entries [] = []
  all_entries (l ∷ ls) = l.entries ++ all_entries ls

  all_entries-append :
      (ls rs : List (Leaf K V)) → all_entries (ls ++ rs) ≡ all_entries ls ++ all_entries rs
  all_entries-append [] rs = refl
  all_entries-append (l ∷ ls) rs =
      ap (λ z. l.entries ++ z) (all_entries-append ls rs)
      ∙ sym (append_assoc l.entries (all_entries ls) (all_entries rs))

  -- What an iterator has left is `xs`, in fewer than `n` leaves behind the current one.
  abbrev PendingIn : ℕ → ℕ → Option (Leaf K V) → LeafIter K V → List (K × V) → Type (ℓ ⊔ κ)
  PendingIn n idx none liter xs = (xs ≡ []) × Left K V liter.stack []
  PendingIn n idx (some l) liter xs =
      (ls : List (Leaf K V)) × Left K V liter.stack ls
      × (length ls + 1 ≤ n)
      × (xs ≡ drop idx l.entries ++ all_entries ls)

  abbrev Pending : ℕ → Iter K V → List (K × V) → Type (ℓ ⊔ κ)
  Pending n it xs = PendingIn n it.idx it.curleaf it.leafiter xs

  -- One entry, and the rest is left; or the end.
  abbrev Yielded : ℕ → List (K × V) → Option (K × V) × Iter K V → Type (ℓ ⊔ κ)
  Yielded n [] r = (r.0 ≡ none) × Pending n r.1 []
  Yielded n (x ∷ xs) r = (r.0 ≡ some x) × Pending n r.1 xs

  Yielded-end :
      (n len idx : ℕ) (liter : LeafIter K V) (xs : List (K × V))
      → xs ≡ []
      → Left K V liter.stack []
      → Yielded n xs (none, record { length = len; idx = idx; curleaf = none; leafiter = liter })
  Yielded-end n len idx liter xs e w = rw e (refl, (refl, w))

  Advanced-Pending :
      (fuel : ℕ) (ls : List (Leaf K V)) (r : Option (Leaf K V) × LeafIter K V) (xs : List (K × V))
      → Advanced K V ls r
      → length ls ≤ fuel
      → xs ≡ all_entries ls
      → PendingIn fuel 0 r.0 r.1 xs
  Advanced-Pending fuel [] r xs a le e = rw a.0 (e, a.1)
  Advanced-Pending fuel (l ∷ ls) r xs a le e = rw a.0 (ls, a.1, omega arith, e)

  -- With fuel for the leaves that are left, `next` returns.
  next_in-Yielded :
      (fuel n len idx : ℕ) (cur : Option (Leaf K V)) (liter : LeafIter K V) (xs : List (K × V))
      → PendingIn fuel idx cur liter xs
      → fuel ≤ n
      → Ensures (Yielded n xs) (next_in K V fuel len idx cur liter)
  unfolding next_in
  next_in-Yielded fuel n len idx none liter xs w le = Yielded-end n len idx liter xs w.0 w.1
  next_in-Yielded zero n len idx (some l) liter xs w le = absurd (omega (arith, w.2))
  next_in-Yielded (suc fuel) n len idx (some l) liter xs (ls, left, few, e) le =
      elim (Option-cases (get_elem? l.entries idx)) [
        | inl end ↦
            rw (end, Ensures)
              (Ensures-bind (Advanced K V ls) (Yielded n xs) (next_leaf K V liter)
                (λ (leaf', liter'). next_in K V fuel len 0 leaf' liter')
                (next_leaf-Advanced K V liter ls left)
                λ r is a.
                  next_in-Yielded fuel n len 0 r.0 r.1 xs
                    (Advanced-Pending fuel ls r xs a (omega (arith, few))
                      (e ∙ ap (λ z. z ++ all_entries ls) (drop-end l.entries idx end)))
                    (omega (arith, le)))
        | inr (x, at) ↦
            let e' : xs ≡ x ∷ (drop (idx + 1) l.entries ++ all_entries ls) =
              e ∙ ap (λ z. z ++ all_entries ls) (drop-get_elem? l.entries idx x at) in
            rw (at, Ensures, e', Yielded) (refl, (ls, left, omega (arith, few, le), refl))
      ]

  -- The calls of `next` yield `xs` in order, and then the end.
  abbrev pub Yields : ℕ → List (K × V) → Iter K V → Type (ℓ ⊔ κ)
  Yields n [] it = Ensures (λ r. r.0 ≡ none) (next K V n it)
  Yields n (x ∷ xs) it = Ensures (λ r. (r.0 ≡ some x) × Yields n xs r.1) (next K V n it)

  -- The same of the keys and of the values alone.
  abbrev pub YieldsKeys : ℕ → List (K × V) → Iter K V → Type ℓ
  YieldsKeys n [] it = Ensures (λ r. r.0 ≡ none) (next_key K V n it)
  YieldsKeys n (x ∷ xs) it =
      Ensures (λ r. (r.0 ≡ some x.0) × YieldsKeys n xs r.1) (next_key K V n it)

  abbrev pub YieldsValues : ℕ → List (K × V) → Iter K V → Type κ
  YieldsValues n [] it = Ensures (λ r. r.0 ≡ none) (next_value K V n it)
  YieldsValues n (x ∷ xs) it =
      Ensures (λ r. (r.0 ≡ some x.1) × YieldsValues n xs r.1) (next_value K V n it)

  -- Where an iterator yields entries, that of the keys yields their keys, and that of the values
  -- their values, in the same order, and they end with it.
  pub Yields-projections :
      (n : ℕ) (xs : List (K × V)) (it : Iter K V)
      → Yields n xs it
      → YieldsKeys n xs it × YieldsValues n xs it
  unfolding next_key next_value
  Yields-projections n [] it y = (
    Ensures-bind {B = Option K × Iter K V} (λ r. r.0 ≡ none) (λ r. r.0 ≡ none) (next K V n it) _ y
        λ r is e. rw e refl,
    Ensures-bind {B = Option V × Iter K V} (λ r. r.0 ≡ none) (λ r. r.0 ≡ none) (next K V n it) _ y
        λ r is e. rw e refl,
  )
  Yields-projections n (x ∷ xs) it y = (
    Ensures-bind {B = Option K × Iter K V} (λ r. (r.0 ≡ some x) × Yields n xs r.1)
        (λ r. (r.0 ≡ some x.0) × YieldsKeys n xs r.1) (next K V n it) _ y
        λ r is p. (rw p.0 refl, (Yields-projections n xs r.1 p.1).0),
    Ensures-bind {B = Option V × Iter K V} (λ r. (r.0 ≡ some x) × Yields n xs r.1)
        (λ r. (r.0 ≡ some x.1) × YieldsValues n xs r.1) (next K V n it) _ y
        λ r is p. (rw p.0 refl, (Yields-projections n xs r.1 p.1).1),
  )

  Pending-Yields : (n : ℕ) (xs : List (K × V)) (it : Iter K V) → Pending n it xs → Yields n xs it
  unfolding next
  Pending-Yields n [] it w =
      Ensures-imp (Yielded n []) (λ r. r.0 ≡ none) (next K V n it)
        (next_in-Yielded n n it.length it.idx it.curleaf it.leafiter [] w (omega arith)) λ r y. y.0
  Pending-Yields n (x ∷ xs) it w =
      Ensures-imp (Yielded n (x ∷ xs)) (λ r. (r.0 ≡ some x) × Yields n xs r.1) (next K V n it)
        (next_in-Yielded n n it.length it.idx it.curleaf it.leafiter (x ∷ xs) w (omega arith))
        λ r y. (y.0, Pending-Yields n xs r.1 y.1)

  -- A new iterator has the entries of all leaves left.
  new_iter-Yields :
      (r : Root K V) (n len : ℕ)
      → length (leaves K V r.height r.node) ≤ n
      → Ensures
          (λ it. Yields n (all_entries (leaves K V r.height r.node)) it × (it.length ≡ len))
          (new_iter K V r len)
  unfolding new_iter
  new_iter-Yields r n len le =
      let ls = leaves K V r.height r.node in
      Ensures-bind {B = Iter K V} (λ l. Left K V l.stack ls)
        (λ it. Yields n (all_entries ls) it × (it.length ≡ len)) (new_leaf_iter K V r false)
        (λ liter. next_leaf K V liter >>= λ (leaf, liter').
          some (record { length = len; idx = 0; curleaf = leaf; leafiter = liter' }))
        (new_leaf_iter-Left K V r false)
        λ l is left.
          Ensures-bind {B = Iter K V} (Advanced K V ls)
            (λ it. Yields n (all_entries ls) it × (it.length ≡ len)) (next_leaf K V l)
            (λ (leaf, liter').
              some (record { length = len; idx = 0; curleaf = leaf; leafiter = liter' }))
            (next_leaf-Advanced K V l ls left)
            λ z is' a. (
              Pending-Yields n (all_entries ls) _
                  (Advanced-Pending n ls z (all_entries ls) a le refl),
              refl,
            )

  module _ (h : ℕ) where
    leaves_count_rest :
        (rest : List (K × Node K V h))
        → ((n : Node K V h) → length (leaves K V h n) ≡ Node.leaf_count K V h n)
        → length (concat_rest (leaves K V h) rest) ≡ sum_rest (Node.leaf_count K V h) rest
    unfolding concat_rest sum_rest
    leaves_count_rest [] ih = refl
    leaves_count_rest ((j, d) ∷ rest) ih = omega (
      arith,
      length-append (leaves K V h d) (concat_rest (leaves K V h) rest),
      leaves_count_rest rest ih,
      ih d,
    )

  -- `leaf_count` counts the leaves that an iterator visits.
  pub length-leaves : (h : ℕ) (n : Node K V h) → length (leaves K V h n) ≡ Node.leaf_count K V h n
  unfolding leaves Node.leaf_count
  length-leaves zero n = refl
  length-leaves (suc h) n = omega (
    arith,
    length-append (leaves K V h n.first) (concat_rest (leaves K V h) n.rest),
    leaves_count_rest h n.rest (length-leaves h),
    length-leaves h n.first,
  )

module _ {ℓ κ} (K : Type ℓ) (V : Type κ) ⦃o : Ord K⦄ where
  entries_rest :
      (h : ℕ) (rest : List (K × Node K V h))
      → ((n : Node K V h) → all_entries K V (leaves K V h n) ≡ entries K V h n)
      → all_entries K V (concat_rest (leaves K V h) rest) ≡ concat_rest (entries K V h) rest
  unfolding concat_rest
  entries_rest h [] ih = refl
  entries_rest h ((j, d) ∷ rest) ih =
      all_entries-append K V (leaves K V h d) (concat_rest (leaves K V h) rest)
      ∙ ap (λ z. z ++ all_entries K V (concat_rest (leaves K V h) rest)) (ih d)
      ∙ ap (λ z. entries K V h d ++ z) (entries_rest h rest ih)

  leaves-entries : (h : ℕ) (n : Node K V h) → all_entries K V (leaves K V h n) ≡ entries K V h n
  unfolding leaves entries
  leaves-entries zero n = append-nil n.entries
  leaves-entries (suc h) n =
      all_entries-append K V (leaves K V h n.first) (concat_rest (leaves K V h) n.rest)
      ∙ ap (λ z. z ++ all_entries K V (concat_rest (leaves K V h) n.rest))
          (leaves-entries h n.first)
      ∙ ap (λ z. entries K V h n.first ++ z) (entries_rest h n.rest (leaves-entries h))

  -- An iterator of a read cursor on a valid tree does not panic: with a call of itself for each leaf
  -- at most, `next` returns, the calls yield the entries of the abstract map in key order and then
  -- the end, and the size hint of the new iterator is their number.
  pub kv_iter-Yields :
      (c : CursorRead K V) (fuel : ℕ)
      → IsValid c.txid c.length c.tree
      → Node.leaf_count K V c.tree.height c.tree.node ≤ fuel
      → Ensures
          (λ it.
            Yields K V fuel (contents c.tree) it
            × (size_hint K V it ≡ (length (contents c.tree), some (length (contents c.tree)))))
          (kv_iter K V c)
  unfolding kv_iter
  kv_iter-Yields c fuel w le =
      let e = leaves-entries c.tree.height c.tree.node in
      Ensures-imp
        (λ it.
          Yields K V fuel (all_entries K V (leaves K V c.tree.height c.tree.node)) it
          × (it.length ≡ c.length))
        _ (new_iter K V c.tree c.length)
        (new_iter-Yields K V c.tree fuel c.length
          (omega (arith, length-leaves K V c.tree.height c.tree.node)))
        λ it p. (subst (λ xs. Yields K V fuel xs it) e p.0, ap (λ z. (z, some z)) (p.1 ∙ w.counted))
