-- ===== src/BpTree/Branch/Siblings.antt =====
-- The index operations of the source on two neighbouring children, as the one operation
-- `write_pair`, and what is left of it after the second child was removed or rekeyed.
use concread.BpTree.Branch.{node_at, splice, remove_rest, rekey_rest}
use concread.BpTree.Chain.Pair.{splice_pair}
use concread.Prelude.{ℕ, zero, suc, ◌≤◌, List, [], ◌∷◌, ◌≡◌, refl, arith, length, some}

module _ {ℓ κ} {K : Type ℓ} {A : Type κ} where
  -- The children at `idx` and behind it become `l` and `r`; the key between them stays.
  unfoldable pub write_pair : A → List (K × A) → ℕ → A → A → A × List (K × A)
  write_pair c [] idx l r = (c, [])
  write_pair c ((j, d) ∷ rest) zero l r = (l, (j, r) ∷ rest)
  write_pair c ((j, d) ∷ rest) (suc idx) l r =
      let (f, rest') = write_pair d rest idx l r in (c, (j, f) ∷ rest')

  pub splice-write_pair_left :
      (c : A) (rest : List (K × A)) (idx : ℕ) (x r : A)
      → node_at c rest (suc idx) ≡ some r
      → splice c rest idx x [] ≡ write_pair c rest idx x r
  unfolding splice node_at write_pair
  splice-write_pair_left c [] idx x r e = cc
  splice-write_pair_left c ((j, d) ∷ rest) zero x r e = ground arith
  splice-write_pair_left c ((j, d) ∷ rest) (suc idx) x r e =
      rw (splice-write_pair_left d rest idx x r e) refl

  pub splice-write_pair_right :
      (c : A) (rest : List (K × A)) (idx : ℕ) (l x : A)
      → node_at c rest idx ≡ some l
      → suc idx ≤ length rest
      → splice c rest (suc idx) x [] ≡ write_pair c rest idx l x
  unfolding splice node_at write_pair
  splice-write_pair_right c [] idx l x e h = absurd (omega arith)
  splice-write_pair_right c ((j, d) ∷ rest) zero l x e h = ground arith
  splice-write_pair_right c ((j, d) ∷ rest) (suc idx) l x e h =
      rw (splice-write_pair_right d rest idx l x e (omega arith)) refl

  pub write_pair_left :
      (c : A) (rest : List (K × A)) (idx : ℕ) (l r x : A)
      → suc idx ≤ length rest
      → splice (write_pair c rest idx l r).0 (write_pair c rest idx l r).1 idx x []
        ≡ write_pair c rest idx x r
  unfolding splice write_pair
  write_pair_left c [] idx l r x h = absurd (omega arith)
  write_pair_left c ((j, d) ∷ rest) zero l r x h = refl
  write_pair_left c ((j, d) ∷ rest) (suc idx) l r x h =
      rw (write_pair_left d rest idx l r x (omega arith)) refl

  pub write_pair_right :
      (c : A) (rest : List (K × A)) (idx : ℕ) (l r x : A)
      → suc idx ≤ length rest
      → splice (write_pair c rest idx l r).0 (write_pair c rest idx l r).1 (suc idx) x []
        ≡ write_pair c rest idx l x
  unfolding splice write_pair
  write_pair_right c [] idx l r x h = absurd (omega arith)
  write_pair_right c ((j, d) ∷ rest) zero l r x h = refl
  write_pair_right c ((j, d) ∷ rest) (suc idx) l r x h =
      rw (write_pair_right d rest idx l r x (omega arith)) refl

  pub node_at-write_pair_left :
      (c : A) (rest : List (K × A)) (idx : ℕ) (l r : A)
      → suc idx ≤ length rest
      → node_at (write_pair c rest idx l r).0 (write_pair c rest idx l r).1 idx ≡ some l
  unfolding node_at write_pair
  node_at-write_pair_left c [] idx l r h = absurd (omega arith)
  node_at-write_pair_left c ((j, d) ∷ rest) zero l r h = refl
  node_at-write_pair_left c ((j, d) ∷ rest) (suc idx) l r h =
      node_at-write_pair_left d rest idx l r (omega arith)

  pub node_at-write_pair_right :
      (c : A) (rest : List (K × A)) (idx : ℕ) (l r : A)
      → suc idx ≤ length rest
      → node_at (write_pair c rest idx l r).0 (write_pair c rest idx l r).1 (suc idx) ≡ some r
  unfolding node_at write_pair
  node_at-write_pair_right c [] idx l r h = absurd (omega arith)
  node_at-write_pair_right c ((j, d) ∷ rest) zero l r h = refl
  node_at-write_pair_right c ((j, d) ∷ rest) (suc idx) l r h =
      node_at-write_pair_right d rest idx l r (omega arith)

  pub first-write_pair :
      (c : A) (rest : List (K × A)) (idx : ℕ) (l r : A) (seg : List (K × A))
      → (write_pair c rest idx l r).0 ≡ (splice_pair c rest idx l seg).0
  unfolding write_pair splice_pair
  first-write_pair c [] idx l r seg = refl
  first-write_pair c ((j, d) ∷ rest) zero l r seg = refl
  first-write_pair c ((j, d) ∷ rest) (suc idx) l r seg = refl

  -- The second of the two is removed, with its key.
  pub remove_rest-write_pair :
      (c : A) (rest : List (K × A)) (idx : ℕ) (l r : A)
      → suc idx ≤ length rest
      → remove_rest (write_pair c rest idx l r).1 idx ≡ some (r, (splice_pair c rest idx l []).1)
  unfolding remove_rest write_pair splice_pair
  remove_rest-write_pair c [] idx l r h = absurd (omega arith)
  remove_rest-write_pair c ((j, d) ∷ rest) zero l r h = refl
  remove_rest-write_pair c ((j, d) ∷ rest) (suc idx) l r h =
      rw (remove_rest-write_pair d rest idx l r (omega arith), first-write_pair d rest idx l r [])
        refl

  -- The second of the two gets a new key.
  pub rekey_rest-write_pair :
      (c : A) (rest : List (K × A)) (idx : ℕ) (l r : A) (m : K)
      → rekey_rest (write_pair c rest idx l r).1 idx m ≡ (splice_pair c rest idx l ((m, r) ∷ [])).1
  unfolding rekey_rest write_pair splice_pair
  rekey_rest-write_pair c [] idx l r m = refl
  rekey_rest-write_pair c ((j, d) ∷ rest) zero l r m = refl
  rekey_rest-write_pair c ((j, d) ∷ rest) (suc idx) l r m =
      rw (rekey_rest-write_pair d rest idx l r m, first-write_pair d rest idx l r ((m, r) ∷ []))
        refl
