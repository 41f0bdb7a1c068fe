-- ===== src/BpTree/Tree/Height.antt =====
-- How high a tree can be: a node of height `h` holds at least `2 ^ h` entries.
use concread.BpTree.Chain.{Child, IsChain}
use concread.BpTree.Chain.Insert.{Top}
use concread.BpTree.Node.{Node, concat_rest}
use concread.BpTree.Tree.{node_child}
use concread.BpTree.Tree.Dates.{entries, view-entries}
use concread.BpTree.Tree.Insert.{IsTree}
use concread.Ord.{Ord}
use concread.Prelude.{
  ℕ, zero, suc, ◌+◌, ◌≤◌, ◌<◌, List, [], ◌∷◌, ◌++◌, ltb, Bool-cases, inl, inr, ◌≡◌, subst, arith,
  length, length-append,
}
use Prim.Native.Nat.{◌^◌}

pow_suc : (h : ℕ) → 2 ^ suc h ≡ 2 ^ h + 2 ^ h
pow_suc h = omega arith

pow_pos : (h : ℕ) → 1 ≤ 2 ^ h
pow_pos zero = omega arith
pow_pos (suc h) = omega (arith, pow_pos h, pow_suc h)

pow_mono : (a b : ℕ) → a ≤ b → 2 ^ a ≤ 2 ^ b
pow_mono zero b le = pow_pos b
pow_mono (suc a) zero le = absurd (omega arith)
pow_mono (suc a) (suc b) le = omega (arith, pow_mono a b (omega arith), pow_suc a, pow_suc b)

module _ {ℓ κ μ} {K : Type ℓ} {V : Type κ} {A : Type μ} ⦃o : Ord K⦄ (ch : Child K V A) (n : ℕ)
    (least : (c : A) → ch.Good c → n ≤ length (ch.view c)) where
  -- Two children at least, with `n` entries each.
  pair_size :
      (P : K → Type 0) (c : A) (rest : List (K × A))
      → IsChain ch P c rest
      → 1 ≤ length rest
      → n + n ≤ length (ch.view c ++ concat_rest ch.view rest)
  unfolding concat_rest
  pair_size P c [] w le = absurd (omega arith)
  pair_size P c ((j, d) ∷ []) w le = omega (
    arith,
    least c w.1,
    least d w.4.1,
    length-append (ch.view c) (ch.view d ++ []),
    length-append (ch.view d) [],
  )
  pair_size P c ((j, d) ∷ e ∷ rest) w le = omega (
    arith,
    least c w.1,
    least d w.4.1,
    length-append (ch.view c) (ch.view d ++ concat_rest ch.view (e ∷ rest)),
    length-append (ch.view d) (concat_rest ch.view (e ∷ rest)),
  )

module _ {ℓ κ} (K : Type ℓ) (V : Type κ) ⦃o : Ord K⦄ where
  pub size_pow :
      (h t : ℕ) (n : Node K V h)
      → (node_child K V h t).Good n
      → 2 ^ h ≤ length ((node_child K V h t).view n)
  unfolding node_child
  size_pow zero t n g = g.filled
  size_pow (suc h) t n g =
      let two =
        pair_size (node_child K V h n.txid) (2 ^ h) (size_pow h n.txid) Top n.first n.rest
          g.branch.chain g.branch.filled in
      omega (arith, two, pow_suc h)

  good :
      (h t : ℕ) (n : Node K V (suc h)) → IsTree K V (suc h) t n → (node_child K V (suc h) t).Good n
  unfolding node_child
  good h t n w = w

  -- A tree with fewer entries than a machine word can count is lower than 64.
  pub height_lt :
      (h t : ℕ) (n : Node K V h) → IsTree K V h t n → length (entries K V h n) < 2 ^ 64 → h < 64
  height_lt zero t n w le = omega arith
  height_lt (suc h) t n w le = elim (Bool-cases (ltb (suc h) 64)) [
    | inl e ↦ ground arith
    | inr e ↦
        let size : 2 ^ suc h ≤ length (entries K V (suc h) n) =
          subst (λ f. 2 ^ suc h ≤ length (f n)) (view-entries K V (suc h) t)
            (size_pow (suc h) t n (good h t n w)) in
        let high : 64 ≤ suc h = ground arith in
        absurd (omega (arith, pow_mono 64 (suc h) high, size, le))
  ]
