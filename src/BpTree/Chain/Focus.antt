-- ===== src/BpTree/Chain/Focus.antt =====
-- One child of a chain and its surroundings: where a key belongs, what lies below and above, and
-- what the chain is after the child was replaced.
use concread.BpTree.Branch.{node_at, splice}
use concread.BpTree.Branch.Search.{locate_rest}
use concread.BpTree.Chain.{Child, chain_view, IsChain}
use concread.BpTree.Chain.Order.{AllKeys-tail, separators_lt, IsUp}
use concread.BpTree.Node.{concat_rest}
use concread.Ord.{
  Ord, ◌≺◌, ◌≼◌, le_trans, lt_le_trans, le_lt_trans, le_of_lt, le_refl, le_of_not_lt,
}
use concread.Prelude.{
  ℕ, suc, ◌+◌, ◌≤◌, List, [], ◌∷◌, ◌++◌, ◌≡◌, refl, ap, sym, ◌∙◌, some, append-nil, append_assoc,
  arith, length, length-append,
}
use concread.Slice.{err, search_from, keys}
use concread.SortedMap.{AllKeys}
use concread.SortedMap.Laws.{AllKeys-append, AllKeys-imp}
use Prim.Native.Nat.{Ordering}
use Prim.Native.Nat.Ordering.{lt, eq, gt}

module _ {ℓ κ μ} {K : Type ℓ} {V : Type κ} {A : Type μ} ⦃o : Ord K⦄ (ch : Child K V A) where
  open ch use {view, Good}

  -- `IsChain` of the replacement `l`, `seg`, with an upper bound.
  abbrev pub IsBelow : (K → Type 0) → A → List (K × A) → Type 0
  IsBelow U l [] = AllKeys U (view l)
  IsBelow U l ((j, d) ∷ seg) = AllKeys U (view l) × U j × IsBelow U d seg

  pub record Focus (P : K → Type 0) (c : A) (rest : List (K × A)) (k : K) (idx : ℕ)
      : Type (ℓ ⊔ κ ⊔ μ ⊔ 1) where
    -- the bounds of the child, from below and from above
    pub Lower : K → Type 0
    pub Upper : K → Type 0
    pub child : A
    pub before : List (K × V)
    pub after : List (K × V)
    pub found : node_at c rest idx ≡ some child
    pub in_range : idx ≤ length rest
    pub good : Good child
    pub lower_bound : (y : K) → Lower y → P y
    pub lower_key : Lower k
    pub upper_key : Upper k
    pub lower_child : AllKeys Lower (view child)
    pub upper_child : AllKeys Upper (view child)
    pub below : AllKeys (λ x. x ≺ k) before
    pub above : AllKeys (λ x. k ≺ x) after
    pub split : chain_view ch c rest ≡ before ++ (view child ++ after)
    pub view-splice :
        (l : A) (seg : List (K × A))
        → chain_view ch (splice c rest idx l seg).0 (splice c rest idx l seg).1
          ≡ before ++ (chain_view ch l seg ++ after)
    pub length-splice :
        (l : A) (seg : List (K × A)) → length (splice c rest idx l seg).1 ≡ length seg + length rest
    pub rebuild :
        (l : A) (seg : List (K × A))
        → IsChain ch Lower l seg
        → IsBelow Upper l seg
        → IsChain ch P (splice c rest idx l seg).0 (splice c rest idx l seg).1
    -- where `add_node` will put the second half of the child
    pub search-next :
        (i : ℕ) (l : A) (y m : K)
        → Lower y
        → y ≺ m
        → Upper m
        → search_from i (keys (splice c rest idx l []).1) m ≡ err (i + idx)

  concat_rest-append :
      (seg rest : List (K × A))
      → concat_rest view (seg ++ rest) ≡ concat_rest view seg ++ concat_rest view rest
  unfolding concat_rest
  concat_rest-append [] rest = refl
  concat_rest-append ((j, d) ∷ seg) rest = rw (concat_rest-append seg rest, append_assoc)

  pub chain_view-append :
      (l : A) (seg : List (K × A)) (j : K) (d : A) (rest : List (K × A))
      → chain_view ch l (seg ++ (j, d) ∷ rest) ≡ chain_view ch l seg ++ chain_view ch d rest
  unfolding concat_rest
  chain_view-append l seg j d rest = rw (concat_rest-append seg ((j, d) ∷ rest), append_assoc)

  pub IsChain-append :
      (P : K → Type 0) (l : A) (seg : List (K × A)) (j : K) (d : A) (rest : List (K × A))
      → P j
      → IsChain ch P l seg
      → IsBelow (λ x. x ≺ j) l seg
      → IsChain ch (λ x. j ≼ x) d rest
      → IsChain ch P l (seg ++ (j, d) ∷ rest)
  IsChain-append P l [] j d rest p q u w = (q.0, q.1, u, p, w)
  IsChain-append P l ((i, e) ∷ seg) j d rest p q u w =
      (q.0, q.1, q.2, q.3, IsChain-append (λ x. i ≼ x) e seg j d rest (le_of_lt i j u.1) q.4 u.2 w)

  -- The key is below the first separator, if there is one.
  abbrev IsHead : K → List (K × A) → Type 0
  IsHead k [] = Unit
  IsHead k ((j, d) ∷ rest) = k ≺ j

  here :
      (P : K → Type 0) (c : A) (rest : List (K × A)) (k : K)
      → P k
      → IsHead k rest
      → IsChain ch P c rest
      → Focus P c rest k 0
  unfolding node_at splice concat_rest search_from
  here P c [] k p h w = record {
    Lower = P;
    Upper = λ x. Unit {0};
    child = c;
    before = [];
    after = [];
    found = refl;
    in_range = omega arith;
    good = w.1;
    lower_bound = λ y q. q;
    lower_key = p;
    upper_key = tt;
    lower_child = w.0;
    upper_child = AllKeys-imp P (λ x. Unit {0}) (λ x q. tt) (view c) w.0;
    below = tt;
    above = tt;
    split = refl;
    view-splice = λ l seg. rw (append-nil seg, append-nil (chain_view ch l seg));
    length-splice = λ l seg. rw (append-nil seg) (omega arith);
    rebuild = λ l seg q u. rw (append-nil seg) q;
    search-next = λ i l y m q lt u. ap err (omega arith);
  }
  here P c ((j, d) ∷ rest) k p h w = record {
    Lower = P;
    Upper = λ x. x ≺ j;
    child = c;
    before = [];
    after = chain_view ch d rest;
    found = refl;
    in_range = omega arith;
    good = w.1;
    lower_bound = λ y q. q;
    lower_key = p;
    upper_key = h;
    lower_child = w.0;
    upper_child = w.2;
    below = tt;
    above =
        AllKeys-imp _ _ (λ x. lt_le_trans k j x h) (chain_view ch d rest)
          (AllKeys-tail ch j d rest w.4);
    split = refl;
    view-splice = λ l seg. chain_view-append l seg j d rest;
    length-splice = λ l seg. length-append seg ((j, d) ∷ rest);
    rebuild = λ l seg q u. IsChain-append P l seg j d rest w.3 q u w.4;
    search-next = λ i l y m q lt u. rw (u, search_from) (ap err (omega arith));
  }

  there :
      (P : K → Type 0) (c : A) (j : K) (d : A) (rest : List (K × A)) (k : K) (idx : ℕ)
      → IsUp P
      → j ≼ k
      → IsChain ch P c ((j, d) ∷ rest)
      → Focus (λ x. j ≼ x) d rest k idx
      → Focus P c ((j, d) ∷ rest) k (suc idx)
  unfolding node_at splice concat_rest search_from
  there P c j d rest k idx up jk w f = record {
    Lower = f.Lower;
    Upper = f.Upper;
    child = f.child;
    before = view c ++ f.before;
    after = f.after;
    found = f.found;
    in_range = omega (arith, f.in_range);
    good = f.good;
    lower_bound = λ y q. up j y w.3 (f.lower_bound y q);
    lower_key = f.lower_key;
    upper_key = f.upper_key;
    lower_child = f.lower_child;
    upper_child = f.upper_child;
    below =
        AllKeys-append _ (view c) f.before
          (AllKeys-imp _ _ (λ x q. lt_le_trans x j k q jk) (view c) w.2) f.below;
    above = f.above;
    split = rw f.split (sym (append_assoc (view c) f.before (view f.child ++ f.after)));
    view-splice = λ l seg.
        rw (f.view-splice l seg)
          (sym (append_assoc (view c) f.before (chain_view ch l seg ++ f.after)));
    length-splice = λ l seg. omega (arith, f.length-splice l seg);
    rebuild = λ l seg q u. (w.0, w.1, w.2, w.3, f.rebuild l seg q u);
    search-next = λ i l y m q lt u.
        rw (o.gt_of_lt j m (le_lt_trans j y m (f.lower_bound y q) lt), search_from)
          (f.search-next (i + 1) l y m q lt u ∙ ap err (omega arith));
  }

  -- Behind a separator that is the key itself, the next one is greater.
  IsHead-of_eq :
      (j : K) (d : A) (rest : List (K × A)) → IsChain ch (λ x. j ≼ x) d rest → IsHead j rest
  IsHead-of_eq j d [] w = tt
  IsHead-of_eq j d ((i, e) ∷ rest) w = separators_lt ch j i d w.1 w.0 w.2

  -- A chain has a focus where the search for a key leads.
  pub locate-Focus :
      (P : K → Type 0) (c : A) (rest : List (K × A)) (k : K)
      → IsUp P
      → P k
      → IsChain ch P c rest
      → Focus P c rest k (locate_rest rest k)
  unfolding locate_rest
  locate-Focus P c [] k up p w = here P c [] k p tt w
  locate-Focus P c ((j, d) ∷ rest) k up p w =
      go (o.cmp k j) refl (λ jk. locate-Focus (λ x. j ≼ x) d rest k (λ a b. le_trans j a b) jk w.4)
    where
      go :
          (r : Ordering)
          → o.cmp k j ≡ r
          → (j ≼ k → Focus (λ x. j ≼ x) d rest k (locate_rest rest k))
          → Focus P c ((j, d) ∷ rest) k (locate_rest ((j, d) ∷ rest) k)
      go lt e rec = rw (e, locate_rest) (here P c ((j, d) ∷ rest) k p e w)
      go eq e rec =
          let same : k ≡ j = o.eq_of_cmp k j e in
          let head : IsHead k rest = rw same (IsHead-of_eq j d rest w.4) in
          let jk : j ≼ k = rw same (le_refl j) in
          rw (e, locate_rest)
            (there P c j d rest k 0 up jk w (here (λ x. j ≼ x) d rest k jk head w.4))
      go gt e rec =
          let jk : j ≼ k = le_of_not_lt k j e in
          rw (e, locate_rest) (there P c j d rest k (locate_rest rest k) up jk w (rec jk))
