-- ===== src/Arc/TxnLaws.antt =====
-- src/arcache/mod.rs: the reads and the hits of a write transaction.
use concread.Arc.{Arc, ThreadCacheItem, visible}
use concread.Arc.Writes.{written, writes, value_of}
use concread.Arc.Serial.{IsHit}
use concread.Arc.Txn.{
  WriteOp, get_op, insert_op, remove_op, insert_dirty_op, remove_dirty_op, mark_clean_op, clear_op,
  WriteTxn, mark_clean, peek, push_hit, get, insert, clear, apply, run,
}
use concread.Assoc.{HashEq, lookup, put}
use concread.Prelude.{
  ℕ, List, [], ◌∷◌, Bool, true, false, Option, none, some, ◌≡◌, refl, sym, ap, ◌∙◌, ◌||◌, is_some,
  if◌then◌else◌, Option-cases, inl, inr, All, All-imp, All-append,
}
use concread.Arc.Local.{
  distinct_keys, distinct_keys-put, written-lookup, writes-put_mono, writes-mark_clean,
  distinct_keys-mark_clean, writes-lookup,
}

module _ {ℓ κ} {K : Type ℓ} {V : Type κ} ⦃h : HashEq K⦄ where
  -- A transaction on the cache `s`.
  pub record IsTxn (s : Arc K V) (t : WriteTxn K V) : Type (ℓ ⊔ κ) where
    pub distinct : distinct_keys t.tlocal ≡ true
    pub hits : All (IsHit s t.tlocal) t.hit

  -- In a transaction with each key once in its local map, what get returns is what a commit writes
  -- last under the key, or what the cache shows if the transaction neither wrote the key nor cleared
  -- the cache.
  pub get-written :
      (s : Arc K V) (t : WriteTxn K V) (k : K)
      → IsTxn s t
      → (get s k t).0 ≡ written k t.tlocal (if t.cleared then none else visible k s)
  unfolding get peek
  get-written s t k w =
      peeked (lookup k t.tlocal)
      ∙ sym (written-lookup k t.tlocal (if t.cleared then none else visible k s) w.distinct)
    where
      peeked :
          (o : Option (ThreadCacheItem V))
          → elim o as (λ z. Option V) [
            | some (ThreadCacheItem.present v c) ↦ some v
            | some (ThreadCacheItem.removed c) ↦ none
            | none ↦ if t.cleared then none else visible k s
          ]
            ≡ elim o as (λ z. Option V) [
              | some t ↦ value_of t
              | none ↦ if t.cleared then none else visible k s
            ]
      peeked none = refl
      peeked (some (ThreadCacheItem.present v c)) = refl
      peeked (some (ThreadCacheItem.removed c)) = refl

  visible-lookup :
      (k : K) (s : Arc K V) (v : V) → visible k s ≡ some v → is_some (lookup k s.cache) ≡ true
  unfolding visible
  visible-lookup k s v e = elim (Option-cases (lookup k s.cache)) [
    | inl n ↦ let no_ : none ≡ some v = sym (rw n refl) ∙ e in absurd cc
    | inr (c, f) ↦ rw f refl
  ]

  -- A key with a value is in the local map or in the cache.
  peek-IsHit :
      (s : Arc K V) (t : WriteTxn K V) (k : K) (v : V)
      → peek s k t ≡ some v
      → IsHit s t.tlocal (h.hash k)
  unfolding peek
  peek-IsHit s t k v e = (k, refl, there (lookup k t.tlocal) refl e)
    where
      or_right : (a b : Bool) → b ≡ true → (a || b) ≡ true
      or_right true b f = refl
      or_right false b f = f

      or_left : (a b : Bool) → a ≡ true → (a || b) ≡ true
      or_left a b f = rw f refl

      uncleared : (b : Bool) → (if b then none else visible k s) ≡ some v → visible k s ≡ some v
      uncleared true f = absurd cc
      uncleared false f = f

      there :
          (o : Option (ThreadCacheItem V))
          → lookup k t.tlocal ≡ o
          → elim o as (λ z. Option V) [
            | some (ThreadCacheItem.present v c) ↦ some v
            | some (ThreadCacheItem.removed c) ↦ none
            | none ↦ if t.cleared then none else visible k s
          ]
            ≡ some v
          → (is_some (lookup k s.cache) || writes k t.tlocal) ≡ true
      there none f g =
          or_left (is_some (lookup k s.cache)) (writes k t.tlocal)
            (visible-lookup k s v (uncleared t.cleared g))
      there (some i) f g =
          or_right (is_some (lookup k s.cache)) (writes k t.tlocal)
            (writes-lookup k t.tlocal ∙ ap is_some f)

  pub IsHit-imp :
      (s : Arc K V) (ts us : List (K × ThreadCacheItem V))
      → ((q : K) → writes q ts ≡ true → writes q us ≡ true)
      → (i : ℕ) → IsHit s ts i
      → IsHit s us i
  IsHit-imp s ts us f i (k, e, g) =
      (k, e, or_imp (is_some (lookup k s.cache)) (writes k ts) (writes k us) (f k) g)
    where
      or_imp : (a b c : Bool) → (b ≡ true → c ≡ true) → (a || b) ≡ true → (a || c) ≡ true
      or_imp true b c f e = refl
      or_imp false b c f e = f e

  insert-IsTxn :
      (s : Arc K V) (k : K) (i : ThreadCacheItem V) (t : WriteTxn K V)
      → IsTxn s t
      → IsTxn s (insert k i t)
  unfolding insert
  insert-IsTxn s k i t w = record {
    distinct = distinct_keys-put k i t.tlocal w.distinct;
    hits =
        All-imp (IsHit s t.tlocal) (IsHit s (put k i t.tlocal))
          (IsHit-imp s t.tlocal (put k i t.tlocal) λ q. writes-put_mono q k i t.tlocal) t.hit
          w.hits;
  }

  get-IsTxn : (s : Arc K V) (k : K) (t : WriteTxn K V) → IsTxn s t → IsTxn s (get s k t).1
  unfolding get
  get-IsTxn s k t w = pushed (peek s k t) refl
    where
      pushed : (o : Option V) → peek s k t ≡ o → IsTxn s (push_hit k o t)
      pushed none e = w
      pushed (some v) e = record {
        distinct = w.distinct;
        hits =
            All-append (IsHit s t.tlocal) t.hit (h.hash k ∷ []) w.hits (peek-IsHit s t k v e, tt);
      }

  apply-IsTxn :
      (s : Arc K V) (o : WriteOp K V) (t : WriteTxn K V) → IsTxn s t → IsTxn s (apply s o t)
  unfolding apply clear
  apply-IsTxn s (get_op k) t w = get-IsTxn s k t w
  apply-IsTxn s (insert_op k v) t w = insert-IsTxn s k (ThreadCacheItem.present v true) t w
  apply-IsTxn s (remove_op k) t w = insert-IsTxn s k (ThreadCacheItem.removed true) t w
  apply-IsTxn s (insert_dirty_op k v) t w = insert-IsTxn s k (ThreadCacheItem.present v false) t w
  apply-IsTxn s (remove_dirty_op k) t w = insert-IsTxn s k (ThreadCacheItem.removed false) t w
  apply-IsTxn s mark_clean_op t w = record {
    distinct = distinct_keys-mark_clean t.tlocal ∙ w.distinct;
    hits =
        All-imp (IsHit s t.tlocal) (IsHit s (mark_clean t.tlocal))
          (IsHit-imp s t.tlocal (mark_clean t.tlocal) λ q e. writes-mark_clean q t.tlocal ∙ e) t.hit
          w.hits;
  }
  apply-IsTxn s clear_op t w = record { distinct = refl; hits = tt }

  -- Whatever a caller does with a write transaction, its local map has each key once, and each hit
  -- that it counts is on a key that the cache has or the transaction wrote.
  pub run-IsTxn :
      (s : Arc K V) (os : List (WriteOp K V)) (t : WriteTxn K V) → IsTxn s t → IsTxn s (run s os t)
  unfolding run
  run-IsTxn s [] t w = w
  run-IsTxn s (o ∷ os) t w = run-IsTxn s os (apply s o t) (apply-IsTxn s o t w)
