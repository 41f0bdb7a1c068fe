-- ===== src/Arc/Shrink.antt =====
-- src/arcache/mod.rs: one round of an eviction.
use concread.Arc.{Arc, LlName, same, CacheItem, CacheItemInner, llp, ll_of, extract, pop, visible}
use concread.Arc.Effects.{IsGood, Knows, Sets-IsGood, Sets-Knows, visible_self, visible_other}
use concread.Arc.Evict.{while_longer}
use concread.Arc.Sets.{Sets, begin-Track}
use concread.Arc.Track.{Track, extract-Track, same_refl, same_sym}
use concread.Assoc.{HashEq, lookup}
use concread.Ll.Order
use concread.Ll.Order.{has}
use concread.Prelude.{
  ℕ, zero, suc, ◌≤◌, ◌<◌, List, [], ◌∷◌, true, false, Option, none, some, ◌≡◌, refl, sym, ap, ◌∙◌,
  ◌⊎◌, inl, inr, ◌==◌, length, get_elem?, if◌then◌else◌, Bool-cases, arith, Ensures, Ensures-bind,
  Ensures-imp, Ensures-some, ltb,
}

module _ {ℓ κ} {K : Type ℓ} {V : Type κ} ⦃h : HashEq K⦄ where
  -- From `s` to `z` nodes went from the list `t` to the list `u`, and no key shows a new value.
  pub record Shrunk (cap : ℕ) (t u : LlName) (s z : Arc K V) : Type (ℓ ⊔ κ) where
    pub good : IsGood cap z
    pub knows : Knows s z
    pub forgets : (q : K) → (visible q z ≡ visible q s) ⊎ (visible q z ≡ none)
    pub weight : z.p ≡ s.p
    pub min_txid : z.min_txid ≡ s.min_txid
    pub others : (v : LlName) → same t v ≡ false → same u v ≡ false → z.lls v ≡ s.lls v

  pub Shrunk-refl : (cap : ℕ) (t u : LlName) (s : Arc K V) → IsGood cap s → Shrunk cap t u s s
  Shrunk-refl cap t u s g = record {
    good = g;
    knows = λ q e. e;
    forgets = λ q. inl refl;
    weight = refl;
    min_txid = refl;
    others = λ v a b. refl;
  }

  pub Shrunk-trans :
      (cap : ℕ) (t u : LlName) (s y z : Arc K V)
      → Shrunk cap t u s y
      → Shrunk cap t u y z
      → Shrunk cap t u s z
  Shrunk-trans cap t u s y z a b = record {
    good = b.good;
    knows = λ q e. b.knows q (a.knows q e);
    forgets = λ q. elim (b.forgets q) [
      | inr n ↦ inr n
      | inl e ↦ elim (a.forgets q) [ inl f ↦ inl (e ∙ f) | inr n ↦ inr (e ∙ n) ]
    ];
    weight = b.weight ∙ a.weight;
    min_txid = b.min_txid ∙ a.min_txid;
    others = λ v c d. b.others v c d ∙ a.others v c d;
  }

  -- One round: the list `t` has lost its head.
  abbrev pub Round : ℕ → LlName → LlName → Arc K V → Arc K V → Type (ℓ ⊔ κ)
  Round cap t u s z = Shrunk cap t u s z × (length (s.lls t) ≡ suc (length (z.lls t)))

  pub while_longer-Shrunk :
      (cap : ℕ) (t u : LlName) (one : Arc K V → Option (Arc K V)) (size : ℕ)
      → ((y : Arc K V) → IsGood cap y → size < length (y.lls t) → Ensures (Round cap t u y) (one y))
      → (fuel : ℕ) (s : Arc K V) → IsGood cap s
      → length (s.lls t) < fuel
      → Ensures
          (λ z.
            Shrunk cap t u s z
            × (length (z.lls t) ≤ size)
            × (size ≤ length (s.lls t) → length (z.lls t) ≡ size))
          (while_longer one t size fuel s)
  unfolding while_longer
  while_longer-Shrunk cap t u one size round zero s g f = absurd (omega arith)
  while_longer-Shrunk cap t u one size round (suc fuel) s g f =
      elim (Bool-cases (ltb size (length (s.lls t)))) [
        | inl more ↦
            rw (more, while_longer)
              (Ensures-bind (Round cap t u s) _ (one s) (λ y. while_longer one t size fuel y)
                (round s g (ground arith))
                λ y e p.
                  Ensures-imp _ _ (while_longer one t size fuel y)
                    (while_longer-Shrunk cap t u one size round fuel y p.0.good
                      (omega (arith, p.1)))
                    λ z q. (
                      Shrunk-trans cap t u s y z p.0 q.0,
                      q.1,
                      λ l.
                          q.2
                            (let r : size < length (s.lls t) = ground arith in omega (arith, p.1)),
                    ))
        | inr enough ↦
            rw (enough, while_longer) (Shrunk-refl cap t u s g, ground arith, λ l. ground arith)
      ]

  -- The head of a list with its entry.
  pub record Popped (cap : ℕ) (s : Arc K V) (t : LlName) : Type (ℓ ⊔ κ) where
    pub n : ℕ
    pub rest : List ℕ
    pub is_cons : s.lls t ≡ n ∷ rest
    pub after : Arc K V
    pub popped : pop t s ≡ some (n, after)
    pub item : CacheItem V
    pub node : CacheItemInner K
    pub at : get_elem? after.nodes n ≡ some node
    pub entry : lookup node.key after.cache ≡ some item
    pub old_entry : lookup node.key s.cache ≡ some item
    pub weight : after.p ≡ s.p
    pub same_node : llp item ≡ n
    pub same_ll : ll_of item ≡ t
    pub track : Track cap s after (llp item) none node
    pub others : (v : LlName) → after.lls v ≡ (if same t v then rest else s.lls v)

  pub pop-Popped :
      (cap : ℕ) (s : Arc K V) (t : LlName) → IsGood cap s → zero < length (s.lls t) → Popped cap s t
  unfolding pop extract Order.pop Order.extract
  pop-Popped cap s t g l = popped_of (s.lls t) refl l
    where
      popped_of : (xs : List ℕ) → s.lls t ≡ xs → zero < length xs → Popped cap s t
      popped_of [] e l = absurd (omega arith)
      popped_of (n ∷ rest) e l =
          let in_t : has n (s.lls t) ≡ true = rw e (ground arith) in
          let b = g.inv.listed t n in_t in
          let (i, named, tr, at) = begin-Track cap s b.node.key b.item g.inv g.light b.entry in
          let after : Arc K V = record s { lls = λ v. if same t v then rest else s.lls v } in
          let here : (n == n) ≡ true = ground arith in
          let cut : extract t n s ≡ some after = rw (in_t, e, here) refl in
          let taken : extract (ll_of b.item) (llp b.item) s ≡ some after =
            ap (λ v. extract v (llp b.item) s) b.same_ll
            ∙ ap (λ m. extract t m s) b.same_node
            ∙ cut in
          let own : (llp b.item == llp b.item) ≡ true = ground arith in
          let is : get_elem? s.nodes (llp b.item) ≡ some i =
            tr.payload (llp b.item) ∙ rw own refl in
          record {
            n = n;
            rest = rest;
            is_cons = e;
            after = after;
            popped = rw e refl;
            item = b.item;
            node = i;
            at = ap (get_elem? s.nodes) (sym b.same_node) ∙ is;
            entry = ap (λ k. lookup k s.cache) named ∙ b.entry;
            old_entry = ap (λ k. lookup k s.cache) named ∙ b.entry;
            weight = refl;
            same_node = b.same_node;
            same_ll = b.same_ll;
            track =
                Ensures-some (λ z. Track cap s z (llp b.item) none i)
                  (extract (ll_of b.item) (llp b.item) s) after
                  (extract-Track cap s s (llp b.item) (ll_of b.item) i tr) taken;
            others = λ v. refl;
          }

  -- A round that ends with the popped node at the tail of another list.
  pub Sets-Round :
      (cap : ℕ) (t u : LlName) (s z : Arc K V) (k : K) (x : ℕ) (p : Popped cap s t)
      → same t u ≡ false
      → Sets cap s z k none x
      → z.p ≡ s.p
      → ((v : LlName) → same u v ≡ false → z.lls v ≡ p.after.lls v)
      → Round cap t u s z
  Sets-Round cap t u s z k x p apart st weight lists = (
    record {
      good = Sets-IsGood st;
      knows = Sets-Knows st;
      forgets = λ q. elim (Bool-cases (h.eqb q k)) [
        | inl f ↦ inr (visible_self st q f)
        | inr f ↦ inl (visible_other st q f)
      ];
      weight = weight;
      min_txid = st.min_txid;
      others = λ v a b. lists v b ∙ p.others v ∙ rw a refl;
    },
    ap length p.is_cons
        ∙ ap suc
            (sym (ap length (lists t (same_sym u t ∙ apart) ∙ p.others t ∙ rw (same_refl t) refl))),
  )
