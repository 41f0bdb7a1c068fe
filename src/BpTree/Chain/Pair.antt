-- ===== src/BpTree/Chain/Pair.antt =====
-- Two neighbouring children of a chain and their surroundings: what lies below and above, and what
-- the chain is after the two were replaced.
use concread.BpTree.Branch.{node_at}
use concread.BpTree.Branch.Search.{locate_rest}
use concread.BpTree.Chain.{Child, chain_view, IsChain}
use concread.BpTree.Chain.Focus.{IsBelow, chain_view-append, IsChain-append}
use concread.BpTree.Chain.Order.{AllKeys-tail, separators_lt, IsUp}
use concread.BpTree.Node.{concat_rest}
use concread.Ord.{
  Ord, ◌≺◌, ◌≼◌, le_trans, lt_le_trans, le_lt_trans, le_of_lt, le_refl, le_of_not_lt,
}
use concread.Prelude.{
  ℕ, zero, suc, ◌+◌, ◌≤◌, List, [], ◌∷◌, ◌++◌, ◌≡◌, refl, sym, some, append-nil, append_assoc,
  arith, length, length-append,
}
use concread.SortedMap.{AllKeys}
use concread.SortedMap.Laws.{AllKeys-append, AllKeys-imp}
use Prim.Native.Nat.{Ordering}
use Prim.Native.Nat.Ordering.{lt, eq, gt}

module _ {ℓ κ} {K : Type ℓ} {A : Type κ} where
  -- The children at `idx` and behind it are replaced by `l` and `seg`.
  unfoldable pub splice_pair : A → List (K × A) → ℕ → A → List (K × A) → A × List (K × A)
  splice_pair c [] idx l seg = (c, [])
  splice_pair c ((j, d) ∷ rest) zero l seg = (l, seg ++ rest)
  splice_pair c ((j, d) ∷ rest) (suc idx) l seg =
      let (f, rest') = splice_pair d rest idx l seg in (c, (j, f) ∷ rest')

module _ {ℓ κ μ} {K : Type ℓ} {V : Type κ} {A : Type μ} ⦃o : Ord K⦄ (ch : Child K V A) where
  open ch use {view, Good}

  pub record Pair (P : K → Type 0) (c : A) (rest : List (K × A)) (k : K) (idx : ℕ) (S : K → Type 0)
      : Type (ℓ ⊔ κ ⊔ μ ⊔ 1) where
    pub Lower : K → Type 0
    pub Upper : K → Type 0
    pub left : A
    pub sep : K
    pub right : A
    pub before : List (K × V)
    pub after : List (K × V)
    pub found_left : node_at c rest idx ≡ some left
    pub found_right : node_at c rest (suc idx) ≡ some right
    pub in_range : idx + 1 ≤ length rest
    pub left_good : Good left
    pub right_good : Good right
    pub upward : IsUp Lower
    pub downward : (x y : K) → Upper y → x ≼ y → Upper x
    pub lower_left : AllKeys Lower (view left)
    pub left_sep : AllKeys (λ x. x ≺ sep) (view left)
    pub sep_right : AllKeys (λ x. sep ≼ x) (view right)
    pub lower_sep : Lower sep
    -- where the key lies
    pub side : S sep
    pub upper_right : AllKeys Upper (view right)
    pub below : AllKeys (λ x. x ≺ k) before
    pub above : AllKeys (λ x. k ≺ x) after
    pub split : chain_view ch c rest ≡ before ++ ((view left ++ view right) ++ after)
    pub view-splice :
        (l : A) (seg : List (K × A))
        → chain_view ch (splice_pair c rest idx l seg).0 (splice_pair c rest idx l seg).1
          ≡ before ++ (chain_view ch l seg ++ after)
    pub length-splice :
        (l : A) (seg : List (K × A))
        → length (splice_pair c rest idx l seg).1 + 1 ≡ length seg + length rest
    pub rebuild :
        (l : A) (seg : List (K × A))
        → IsChain ch Lower l seg
        → IsBelow ch Upper l seg
        → IsChain ch P (splice_pair c rest idx l seg).0 (splice_pair c rest idx l seg).1

  -- The key is below the separator behind the two, if there is one.
  abbrev pub IsHead : K → List (K × A) → Type 0
  IsHead k [] = Unit
  IsHead k ((j, d) ∷ rest) = k ≺ j

  pair_here :
      (P : K → Type 0) (c : A) (j : K) (d : A) (rest : List (K × A)) (k : K)
      → IsUp P
      → (S : K → Type 0) → S j
      → IsHead k rest
      → IsChain ch P c ((j, d) ∷ rest)
      → Pair P c ((j, d) ∷ rest) k 0 S
  unfolding node_at splice_pair concat_rest
  pair_here P c j d [] k up S side h w = record {
    Lower = P;
    Upper = λ x. Unit {0};
    left = c;
    sep = j;
    right = d;
    before = [];
    after = [];
    found_left = refl;
    found_right = refl;
    in_range = omega arith;
    left_good = w.1;
    right_good = w.4.1;
    upward = up;
    downward = λ x y u le. tt;
    lower_left = w.0;
    left_sep = w.2;
    sep_right = w.4.0;
    lower_sep = w.3;
    side = side;
    upper_right = AllKeys-imp (λ x. j ≼ x) (λ x. Unit {0}) (λ x q. tt) (view d) w.4.0;
    below = tt;
    above = tt;
    split = rw (append-nil (view d), append-nil (view c ++ view d)) refl;
    view-splice = λ l seg. rw (append-nil seg, append-nil (chain_view ch l seg)) refl;
    length-splice = λ l seg. rw (append-nil seg) (omega arith);
    rebuild = λ l seg q u. rw (append-nil seg) q;
  }
  pair_here P c j d ((i, e) ∷ rest) k up S side h w = record {
    Lower = P;
    Upper = λ x. x ≺ i;
    left = c;
    sep = j;
    right = d;
    before = [];
    after = chain_view ch e rest;
    found_left = refl;
    found_right = refl;
    in_range = omega arith;
    left_good = w.1;
    right_good = w.4.1;
    upward = up;
    downward = λ x y u le. le_lt_trans x y i le u;
    lower_left = w.0;
    left_sep = w.2;
    sep_right = w.4.0;
    lower_sep = w.3;
    side = side;
    upper_right = w.4.2;
    below = tt;
    above =
        AllKeys-imp _ _ (λ x. lt_le_trans k i x h) (chain_view ch e rest)
          (AllKeys-tail ch i e rest w.4.4);
    split = sym (append_assoc (view c) (view d) (chain_view ch e rest));
    view-splice = λ l seg. chain_view-append ch l seg i e rest;
    length-splice = λ l seg. omega (arith, length-append seg ((i, e) ∷ rest));
    rebuild = λ l seg q u.
        IsChain-append ch P l seg i e rest
          (up j i w.3 (le_of_lt j i (separators_lt ch j i d w.4.1 w.4.0 w.4.2))) q u w.4.4;
  }

  pair_there :
      (P : K → Type 0) (c : A) (j : K) (d : A) (rest : List (K × A)) (k : K) (idx : ℕ)
      (S : K → Type 0)
      → j ≼ k
      → IsChain ch P c ((j, d) ∷ rest)
      → Pair (λ x. j ≼ x) d rest k idx S
      → Pair P c ((j, d) ∷ rest) k (suc idx) S
  unfolding node_at splice_pair concat_rest
  pair_there P c j d rest k idx S jk w f = record {
    Lower = f.Lower;
    Upper = f.Upper;
    left = f.left;
    sep = f.sep;
    right = f.right;
    before = view c ++ f.before;
    after = f.after;
    found_left = f.found_left;
    found_right = f.found_right;
    in_range = omega (arith, f.in_range);
    left_good = f.left_good;
    right_good = f.right_good;
    upward = f.upward;
    downward = f.downward;
    lower_left = f.lower_left;
    left_sep = f.left_sep;
    sep_right = f.sep_right;
    lower_sep = f.lower_sep;
    side = f.side;
    upper_right = f.upper_right;
    below =
        AllKeys-append _ (view c) f.before
          (AllKeys-imp _ _ (λ x q. lt_le_trans x j k q jk) (view c) w.2) f.below;
    above = f.above;
    split =
        rw f.split
          (sym (append_assoc (view c) f.before ((view f.left ++ view f.right) ++ f.after)));
    view-splice = λ l seg.
        rw (f.view-splice l seg)
          (sym (append_assoc (view c) f.before (chain_view ch l seg ++ f.after)));
    length-splice = λ l seg. omega (arith, f.length-splice l seg);
    rebuild = λ l seg q u. (w.0, w.1, w.2, w.3, f.rebuild l seg q u);
  }

  IsHead-of_locate : (rest : List (K × A)) (k : K) → locate_rest rest k ≡ 0 → IsHead k rest
  unfolding locate_rest
  IsHead-of_locate [] k e = tt
  IsHead-of_locate ((j, d) ∷ rest) k e = ground arith

  -- A key that is not above its separator, with a good child behind it, is below the next one.
  IsHead-of_le :
      (j k : K) (d : A) (rest : List (K × A))
      → k ≼ j
      → IsChain ch (λ x. j ≼ x) d rest
      → IsHead k rest
  IsHead-of_le j k d [] le w = tt
  IsHead-of_le j k d ((i, e) ∷ rest) le w =
      le_lt_trans k j i le (separators_lt ch j i d w.1 w.0 w.2)

  -- The search leads to the first child: the key is below all that follows it.
  pub left-Pair :
      (P : K → Type 0) (c : A) (rest : List (K × A)) (k : K)
      → IsUp P
      → IsChain ch P c rest
      → 1 ≤ length rest
      → locate_rest rest k ≡ 0
      → Pair P c rest k 0 (λ x. k ≺ x)
  left-Pair P c [] k up w le e = absurd (omega arith)
  left-Pair P c ((j, d) ∷ rest) k up w le e =
      let head = IsHead-of_locate ((j, d) ∷ rest) k e in
      pair_here P c j d rest k up (λ x. k ≺ x) head
        (IsHead-of_le j k d rest (le_of_lt k j head) w.4) w

  -- The search leads to another child: the key is not below its separator.
  pub right-Pair :
      (P : K → Type 0) (c : A) (rest : List (K × A)) (k : K) (idx : ℕ)
      → IsUp P
      → IsChain ch P c rest
      → locate_rest rest k ≡ suc idx
      → Pair P c rest k idx (λ x. x ≼ k)
  unfolding locate_rest
  right-Pair P c [] k idx up w e = cc
  right-Pair P c ((j, d) ∷ rest) k idx up w e =
      go (o.cmp k j) refl idx e
        (λ i. right-Pair (λ x. j ≼ x) d rest k i (λ a b. le_trans j a b) w.4)
    where
      go :
          (r : Ordering)
          → o.cmp k j ≡ r
          → (idx : ℕ) → locate_rest ((j, d) ∷ rest) k ≡ suc idx
          → ((i : ℕ) → locate_rest rest k ≡ suc i → Pair (λ x. j ≼ x) d rest k i (λ x. x ≼ k))
          → Pair P c ((j, d) ∷ rest) k idx (λ x. x ≼ k)
      go lt q idx e rec = absurd (ground arith)
      go eq q zero e rec =
          let same : k ≡ j = o.eq_of_cmp k j q in
          let le : k ≼ j = rw same (le_refl j) in
          let ge : j ≼ k = rw same (le_refl j) in
          pair_here P c j d rest k up (λ x. x ≼ k) ge (IsHead-of_le j k d rest le w.4) w
      go eq q (suc idx) e rec = absurd (ground arith)
      go gt q zero e rec =
          let z : locate_rest rest k ≡ 0 = ground arith in
          pair_here P c j d rest k up (λ x. x ≼ k) (le_of_not_lt k j q) (IsHead-of_locate rest k z)
            w
      go gt q (suc idx) e rec =
          let z : locate_rest rest k ≡ suc idx = ground arith in
          pair_there P c j d rest k idx (λ x. x ≼ k) (le_of_not_lt k j q) w (rec idx z)
