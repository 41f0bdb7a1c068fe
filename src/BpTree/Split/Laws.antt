-- ===== src/BpTree/Split/Laws.antt =====
-- src/bptree/cursor.rs: `CursorWrite::split_off_lt` against the abstract map.
use concread.BpTree.Cursor.{CursorWrite, CursorRead, remove}
use concread.BpTree.Cursor.Remove.{Removal, remove-Removal}
use concread.BpTree.Cursor.Valid.{contents, IsCursor, tree-IsSorted}
use concread.BpTree.Iter.{Iter, new_iter, kv_iter, next, next_key}
use concread.BpTree.Iter.Order.{Yields, YieldsKeys, Yields-projections, kv_iter-Yields}
use concread.BpTree.Split.{keys_below, remove_all, count_kv, leaves_of, split_off_lt}
use concread.Ord.{Ord, IsPlain, ◌≺◌, ◌≼◌, le_lt_trans, le_refl, le_of_lt, le_of_not_lt}
use concread.Prelude.{
  ℕ, zero, suc, ◌+◌, ◌<◌, List, [], ◌∷◌, none, some, ◌≡◌, refl, sym, ap, ◌∙◌, subst, arith, length,
  Ensures, Ensures-bind, Ensures-imp, ◌>>=◌, ◌⊎◌, inl, inr,
}
use concread.SortedMap
use concread.SortedMap.{IsSorted, AllKeys}
use concread.SortedMap.Laws.{AllKeys-imp}
use Prim.Native.Nat.{Ordering}
use Prim.Native.Nat.Ordering.{lt, eq, gt}

three : (c : Ordering) → (c ≡ lt) ⊎ ((c ≡ eq) ⊎ (c ≡ gt))
three lt = inl refl
three eq = inr (inl refl)
three gt = inr (inr refl)

module _ {ℓ κ} {K : Type ℓ} {V : Type κ} ⦃o : Ord K⦄ where
  -- The entries whose keys are not below `k`.
  unfoldable pub from_key : K → List (K × V) → List (K × V)
  from_key k [] = []
  from_key k ((j, v) ∷ xs) = elim (o.cmp j k) [
    | lt ↦ from_key k xs
    | eq ↦ (j, v) ∷ from_key k xs
    | gt ↦ (j, v) ∷ from_key k xs
  ]

  -- The keys before the first one that is not below `k`.
  unfoldable lower : K → List (K × V) → List K
  lower k [] = []
  lower k ((j, v) ∷ xs) = elim (o.cmp j k) [ lt ↦ j ∷ lower k xs | eq ↦ [] | gt ↦ [] ]

  abbrev removes : List K → List (K × V) → List (K × V)
  removes [] xs = xs
  removes (k ∷ ks) xs = removes ks (SortedMap.remove k xs)

  from_key-all : (k : K) (xs : List (K × V)) → AllKeys (λ x. k ≼ x) xs → from_key k xs ≡ xs
  unfolding from_key
  from_key-all k [] h = refl
  from_key-all k ((j, v) ∷ xs) h = ground (arith, o.gt_of_lt j k, from_key-all k xs)

  from_key-above :
      (j k : K) (xs : List (K × V)) → k ≼ j → AllKeys (λ x. j ≺ x) xs → from_key k xs ≡ xs
  from_key-above j k xs h s =
      from_key-all k xs
        (AllKeys-imp (λ x. j ≺ x) (λ x. k ≼ x) (λ x p. le_of_lt k x (le_lt_trans k j x h p)) xs s)

  remove-head : (j : K) (v : V) (xs : List (K × V)) → SortedMap.remove j ((j, v) ∷ xs) ≡ xs
  unfolding SortedMap.remove
  remove-head j v xs = rw (SortedMap.remove, o.cmp_refl j) refl

  removes-lower :
      (k : K) (xs : List (K × V)) → IsSorted xs → removes (lower k xs) xs ≡ from_key k xs
  unfolding lower from_key
  removes-lower k [] s = refl
  removes-lower k ((j, v) ∷ xs) s = elim (three (o.cmp j k)) [
    | inl e ↦
        rw (e, lower, from_key)
          (ap (removes (lower k xs)) (remove-head j v xs) ∙ removes-lower k xs s.1)
    | inr (inl e) ↦
        let same = o.eq_of_cmp j k e in
        let h : k ≼ j = subst (λ z. z ≼ j) same (le_refl j) in
        rw (e, lower, from_key) (ap ((j, v) ∷◌) (sym (from_key-above j k xs h s.0)))
    | inr (inr e) ↦
        rw (e, lower, from_key)
          (ap ((j, v) ∷◌) (sym (from_key-above j k xs (le_of_not_lt j k e) s.0)))
  ]

module _ {ℓ κ} (K : Type ℓ) (V : Type κ) ⦃o : Ord K⦄ where
  keys_below-lower :
      (fuel rounds : ℕ) (k : K) (xs : List (K × V)) (it : Iter K V)
      → length xs < rounds
      → YieldsKeys K V fuel xs it
      → Ensures (λ ks. ks ≡ lower k xs) (keys_below K V fuel rounds k it)
  unfolding keys_below lower
  keys_below-lower fuel zero k xs it le y = absurd (omega (arith, le))
  keys_below-lower fuel (suc rounds) k [] it le y =
      Ensures-bind {B = List K} (λ r. r.0 ≡ none) (λ ks. ks ≡ []) (next_key K V fuel it) _ y
        λ r is e. rw e refl
  keys_below-lower fuel (suc rounds) k ((a, b) ∷ xs) it le y =
      Ensures-bind {B = List K} (λ r. (r.0 ≡ some a) × YieldsKeys K V fuel xs r.1)
        (λ ks. ks ≡ lower k ((a, b) ∷ xs)) (next_key K V fuel it) _ y
        λ r is p. rw p.0 (elim (three (o.cmp a k)) [
          | inl e ↦
              rw (e, lower)
                (Ensures-bind {B = List K} (λ ks. ks ≡ lower k xs) (λ ks. ks ≡ a ∷ lower k xs)
                  (keys_below K V fuel rounds k r.1) (λ ks. some (a ∷ ks))
                  (keys_below-lower fuel rounds k xs r.1 (omega (arith, le)) p.1)
                  λ ks is' q. ap (a ∷◌) q)
          | inr (inl e) ↦ rw (e, lower) refl
          | inr (inr e) ↦ rw (e, lower) refl
        ])

  count_kv-length :
      (fuel rounds : ℕ) (xs : List (K × V)) (it : Iter K V)
      → length xs < rounds
      → Yields K V fuel xs it
      → Ensures (λ n. n ≡ length xs) (count_kv K V fuel rounds it)
  unfolding count_kv
  count_kv-length fuel zero xs it le y = absurd (omega (arith, le))
  count_kv-length fuel (suc rounds) [] it le y =
      Ensures-bind {B = ℕ} (λ r. r.0 ≡ none) (λ n. n ≡ 0) (next K V fuel it) _ y λ r is e. rw e refl
  count_kv-length fuel (suc rounds) (x ∷ xs) it le y =
      Ensures-bind {B = ℕ} (λ r. (r.0 ≡ some x) × Yields K V fuel xs r.1) (λ n. n ≡ length (x ∷ xs))
        (next K V fuel it) _ y
        λ r is p. rw p.0 (
          Ensures-bind {B = ℕ} (λ n. n ≡ length xs) (λ n. n ≡ length (x ∷ xs))
            (count_kv K V fuel rounds r.1) (λ n. some (n + 1))
            (count_kv-length fuel rounds xs r.1 (omega (arith, le)) p.1)
            λ n is' e. omega (arith, e))

  -- The cursor after the keys were removed one by one.
  abbrev Removed : List K → CursorWrite K V → CursorWrite K V → Type (ℓ ⊔ κ)
  Removed ks c r = IsCursor r × (r.txid ≡ c.txid) × (contents r.tree ≡ removes ks (contents c.tree))

  remove_all-Removed :
      IsPlain K
      → (ks : List K) (c : CursorWrite K V) → IsCursor c
      → Ensures (Removed ks c) (remove_all K V ks c)
  unfolding remove_all
  remove_all-Removed plain [] c w = (w, refl, refl)
  remove_all-Removed plain (k ∷ ks) c w =
      Ensures-bind {B = CursorWrite K V} (Removal K V c k) (Removed (k ∷ ks) c) (remove K V c k) _
        (remove-Removal K V plain c k w)
        λ r is i.
          Ensures-imp (Removed ks r.0) (Removed (k ∷ ks) c) (remove_all K V ks r.0)
            (remove_all-Removed plain ks r.0 i.valid)
            λ z q. (q.0, q.1 ∙ i.same_txid, q.2 ∙ ap (removes ks) i.stored)

  new_iter-Yields :
      (c : CursorWrite K V)
      → IsCursor c
      → Ensures (Yields K V (leaves_of K V c) (contents c.tree)) (new_iter K V c.tree c.length)
  unfolding kv_iter
  new_iter-Yields c w =
      let r : CursorRead K V = record { txid = c.txid; length = c.length; tree = c.tree } in
      Ensures-imp _ (Yields K V (leaves_of K V c) (contents c.tree)) (kv_iter K V r)
        (kv_iter-Yields K V r (leaves_of K V c) w (omega arith)) λ it p. p.0

  -- What is promised of the cursor without the keys below `k`.
  abbrev pub SplitOff : CursorWrite K V → K → CursorWrite K V → Type (ℓ ⊔ κ)
  SplitOff c k r = IsCursor r × (r.txid ≡ c.txid) × (contents r.tree ≡ from_key k (contents c.tree))

  recounted :
      (c : CursorWrite K V) (k : K) (r : CursorWrite K V)
      → IsCursor r
      → r.txid ≡ c.txid
      → contents r.tree ≡ from_key k (contents c.tree)
      → Ensures (SplitOff c k) (
          new_iter K V r.tree r.length >>= λ it.
          count_kv K V (leaves_of K V r) (r.length + 1) it >>= λ n. some (record r { length = n }))
  recounted c k r w same kept =
      Ensures-bind {B = CursorWrite K V} (Yields K V (leaves_of K V r) (contents r.tree))
        (SplitOff c k) (new_iter K V r.tree r.length) _ (new_iter-Yields r w)
        λ it is y.
          Ensures-bind {B = CursorWrite K V} (λ n. n ≡ length (contents r.tree)) (SplitOff c k)
            (count_kv K V (leaves_of K V r) (r.length + 1) it) _
            (count_kv-length (leaves_of K V r) (r.length + 1) (contents r.tree) it
              (omega (arith, w.counted)) y)
            λ n is' e. (record { tree = w.tree; counted = e }, same, kept)

  -- split_off_lt on a valid cursor whose keys have no destructor does not panic, keeps the cursor
  -- valid and of its transaction, and leaves exactly the entries whose keys are not below the bound.
  pub split_off_lt-SplitOff :
      IsPlain K
      → (c : CursorWrite K V) (k : K) → IsCursor c
      → Ensures (SplitOff c k) (split_off_lt K V c k)
  unfolding split_off_lt
  split_off_lt-SplitOff plain c k w =
      let xs = contents c.tree in
      Ensures-bind {B = CursorWrite K V} (Yields K V (leaves_of K V c) xs) (SplitOff c k)
        (new_iter K V c.tree c.length) _ (new_iter-Yields c w)
        λ it is y.
          Ensures-bind {B = CursorWrite K V} (λ ks. ks ≡ lower k xs) (SplitOff c k)
            (keys_below K V (leaves_of K V c) (c.length + 1) k it) _
            (keys_below-lower (leaves_of K V c) (c.length + 1) k xs it (omega (arith, w.counted))
              (Yields-projections K V (leaves_of K V c) xs it y).0)
            λ ks is' e.
              Ensures-bind {B = CursorWrite K V} (Removed ks c) (SplitOff c k) (remove_all K V ks c)
                _ (remove_all-Removed plain ks c w)
                λ r is'' q.
                  let kept : contents r.tree ≡ from_key k xs =
                    q.2
                    ∙ ap (λ z. removes z xs) e
                    ∙ removes-lower k xs
                        (tree-IsSorted K V c.tree.height c.txid c.tree.node w.tree) in
                  recounted c k r q.0 q.1 kept
