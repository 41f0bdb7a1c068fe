-- ===== src/BpTree/Iter/Leaves.antt =====
-- src/bptree/iter.rs: the leaves that a stack has still to visit.
use concread.BpTree.Branch.{node_at}
use concread.BpTree.Cursor.{Root, root}
use concread.BpTree.Iter.{
  Stack, LeafIter, descend, checked, stack_position, as_leaf, next_leaf_in, next_leaf,
  new_leaf_iter,
}
use concread.BpTree.Leaf.{Leaf}
use concread.BpTree.Node.{Node, concat_rest}
use concread.Prelude.{
  ℕ, zero, suc, ◌+◌, List, [], ◌∷◌, ◌++◌, Bool, Option, none, some, ◌>>=◌, ◌≡◌, refl, ap, sym, ◌∙◌,
  Ensures, Ensures-bind, Ensures-imp, append_assoc, arith, append-nil, subst, Option-cases, inl,
  inr,
}

module _ {ℓ κ μ} {K : Type ℓ} {A : Type κ} {B : Type μ} (f : A → List B) where
  -- what is below the children from `idx` on
  abbrev pub children_from : A → List (K × A) → ℕ → List B
  children_from c rest zero = f c ++ concat_rest f rest
  children_from c [] (suc idx) = []
  children_from c ((j, d) ∷ rest) (suc idx) = children_from d rest idx

  children_from-tail : (c : A) (rest : List (K × A)) → children_from c rest 1 ≡ concat_rest f rest
  unfolding concat_rest
  children_from-tail c [] = refl
  children_from-tail c ((j, d) ∷ rest) = refl

  split_child :
      (c : A) (rest : List (K × A)) (idx : ℕ) (d : A)
      → node_at c rest idx ≡ some d
      → children_from c rest idx ≡ f d ++ children_from c rest (suc idx)
  unfolding node_at concat_rest
  split_child c rest zero d e =
      let same : c ≡ d = cc in
      ap (λ z. f z ++ concat_rest f rest) same
      ∙ ap (λ z. f d ++ z) (sym (children_from-tail c rest))
  split_child c [] (suc idx) d e = cc
  split_child c ((j, g) ∷ rest) (suc idx) d e = split_child g rest idx d e

  no_child :
      (c : A) (rest : List (K × A)) (idx : ℕ)
      → node_at c rest idx ≡ none
      → children_from c rest idx ≡ []
  unfolding node_at
  no_child c rest zero e = cc
  no_child c [] (suc idx) e = refl
  no_child c ((j, g) ∷ rest) (suc idx) e = no_child g rest idx e

module _ {ℓ κ} (K : Type ℓ) (V : Type κ) where
  -- the leaves below a node, from left to right
  unfoldable pub leaves : (h : ℕ) → Node K V h → List (Leaf K V)
  unfolding concat_rest
  leaves zero l = l ∷ []
  leaves (suc h) b = leaves h b.first ++ concat_rest (leaves h) b.rest

  abbrev pub from : (h : ℕ) → Node K V h → ℕ → List (Leaf K V)
  from zero n idx = []
  from (suc h) b idx = children_from (leaves h) b.first b.rest idx

  -- What is left below a stack of branches, the child at `idx` of the first of them being next.
  abbrev pub after : Stack K V → ℕ → List (Leaf K V)
  after [] idx = []
  after ((b, i) ∷ stack) idx = from b.height b.node idx ++ after stack (i + 1)

  abbrev pub IsInner : Stack K V → Type 0
  IsInner [] = Unit
  IsInner ((b, i) ∷ stack) = ((h : ℕ) × (b.height ≡ suc h)) × IsInner stack

  -- The stack of an iterator with the leaves `ls` left: a leaf on branches, or nothing.
  abbrev pub Left : Stack K V → List (Leaf K V) → Type (ℓ ⊔ κ)
  Left [] ls = ls ≡ []
  Left ((n, i) ∷ stack) ls =
      (l : Leaf K V) × (as_leaf K V n.height n.node ≡ some l)
      × IsInner stack
      × (ls ≡ l ∷ after stack (i + 1))

  -- A descent ends on a leaf, the first of those below its node.
  descend-Left :
      (h : ℕ) (n : Node K V h) (idx : ℕ) (stack : Stack K V)
      → IsInner stack
      → Ensures (λ st. Left st (leaves h n ++ after stack (idx + 1))) (descend K V h n idx stack)
  unfolding descend leaves node_at as_leaf
  descend-Left zero n idx stack w = (n, refl, w, refl)
  descend-Left (suc h) n idx stack w =
      let below = (root K V (suc h) n, idx) ∷ stack in
      Ensures-imp (λ st. Left st (leaves h n.first ++ after below 1)) _
        (descend K V h n.first 0 below) (descend-Left h n.first 0 below ((h, refl), w))
        λ st l.
          subst (Left st)
            (ap (λ z. leaves h n.first ++ (z ++ after stack (idx + 1)))
                (children_from-tail (leaves h) n.first n.rest)
              ∙ sym (
                  append_assoc (leaves h n.first) (concat_rest (leaves h) n.rest)
                    (after stack (idx + 1))))
            l

  position-Left :
      (h : ℕ) (n : Node K V h) (i : ℕ) (stack : Stack K V) (idx : ℕ) (unwound : Option (Stack K V))
      → ((h' : ℕ) × (h ≡ suc h'))
      → IsInner stack
      → Ensures (λ st. Left st (after stack (i + 1))) unwound
      → Ensures
          (λ st. Left st (after ((root K V h n, i) ∷ stack) idx))
          (checked K V h n idx >>= λ node. elim node [
            | some c ↦ descend K V c.height c.node idx ((root K V h n, i) ∷ stack)
            | none ↦ unwound
          ])
  unfolding checked
  position-Left zero n i stack idx u p w r = absurd (omega (arith, p.1))
  position-Left (suc h) n i stack idx u p w r = elim (Option-cases (node_at n.first n.rest idx)) [
    | inl e ↦ rw e (
        subst (λ ls. Ensures (λ st. Left st ls) u)
          (ap (λ z. z ++ after stack (i + 1)) (sym (no_child (leaves h) n.first n.rest idx e))) r)
    | inr (c, e) ↦
        let here = (root K V (suc h) n, i) ∷ stack in
        let next : suc idx ≡ idx + 1 = omega arith in
        let whole : leaves h c ++ after here (idx + 1) ≡ after here idx =
          ap (λ z. leaves h c ++ (children_from (leaves h) n.first n.rest z ++ after stack (i + 1)))
            (sym next)
          ∙ sym (append_assoc (leaves h c) _ (after stack (i + 1)))
          ∙ ap (λ z. z ++ after stack (i + 1))
              (sym (split_child (leaves h) n.first n.rest idx c e)) in
        rw e (
          Ensures-imp (λ st. Left st (leaves h c ++ after here (idx + 1))) _
            (descend K V h c idx here) (descend-Left h c idx here ((h, refl), w))
            λ st l. subst (Left st) whole l)
  ]

  -- The stack is positioned on what is left from the child at `idx` on.
  stack_position-Left :
      (stack : Stack K V) (idx : ℕ)
      → IsInner stack
      → Ensures (λ st. Left st (after stack idx)) (stack_position K V stack idx)
  unfolding stack_position
  stack_position-Left [] idx w = refl
  stack_position-Left ((b, i) ∷ stack) idx w =
      position-Left b.height b.node i stack idx (stack_position K V stack (i + 1)) w.0 w.1
        (stack_position-Left stack (i + 1) w.1)

  -- The next leaf is the first of those that are left.
  abbrev pub Advanced : List (Leaf K V) → Option (Leaf K V) × LeafIter K V → Type (ℓ ⊔ κ)
  Advanced [] r = (r.0 ≡ none) × Left r.1.stack []
  Advanced (l ∷ ls) r = (r.0 ≡ some l) × Left r.1.stack ls

  pub next_leaf-Advanced :
      (it : LeafIter K V) (ls : List (Leaf K V))
      → Left it.stack ls
      → Ensures (Advanced ls) (next_leaf K V it)
  unfolding next_leaf next_leaf_in
  next_leaf-Advanced it ls w = go it.length it.stack ls w
    where
      go :
          (length : Option ℕ) (stack : Stack K V) (ls : List (Leaf K V))
          → Left stack ls
          → Ensures (Advanced ls) (next_leaf_in K V length stack)
      go length [] ls e = rw e (refl, refl)
      go length ((n, i) ∷ stack) ls (l, at, inner, e) =
          rw (e, next_leaf_in)
            (Ensures-bind (λ st. Left st (after stack (i + 1))) (Advanced (l ∷ after stack (i + 1)))
              (stack_position K V stack (i + 1)) _ (stack_position-Left stack (i + 1) inner)
              λ st is p. rw at (refl, p))

  pub new_leaf_iter-Left :
      (r : Root K V) (hint : Bool)
      → Ensures (λ it. Left it.stack (leaves r.height r.node)) (new_leaf_iter K V r hint)
  unfolding new_leaf_iter
  new_leaf_iter-Left r hint =
      Ensures-bind (λ st. Left st (leaves r.height r.node ++ []))
        (λ it. Left it.stack (leaves r.height r.node)) (descend K V r.height r.node 0 []) _
        (descend-Left r.height r.node 0 [] tt)
        λ st is p. subst (Left st) (append-nil (leaves r.height r.node)) p
