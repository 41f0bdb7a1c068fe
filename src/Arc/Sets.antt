-- ===== src/Arc/Sets.antt =====
-- src/arcache/mod.rs: a step that gives one key a state.
use concread.Arc.{
  Arc, LlName, same, CacheItem, CacheItemInner, llp, ll_of, to_vref, set_item, txid_of,
}
use concread.Arc.Inv.{HasNode, HasEntry, IsCache}
use concread.Arc.Track.{Track, same_refl, eq_of_same}
use concread.Assoc.{HashEq, lookup, put}
use concread.Assoc.Laws.{lookup-put}
use concread.Ll.Order.{has}
use concread.Prelude.{
  ℕ, List, true, false, Option, some, ◌≡◌, refl, sym, ap, ◌∙◌, subst, ◌==◌, ◌≤◌, get_elem?,
  if◌then◌else◌, Bool-cases, inl, inr, arith,
}

some_inj {ℓ} : {A : Type ℓ} (x y : A) → some x ≡ some y → x ≡ y
some_inj x y e = cc

module _ {ℓ κ} {K : Type ℓ} {V : Type κ} ⦃h : HashEq K⦄ where
  -- After the step `k` shows `v`, with the stamp `x`.
  pub record Sets (cap : ℕ) (s s' : Arc K V) (k : K) (v : Option V) (x : ℕ) : Type (ℓ ⊔ κ) where
    pub inv : IsCache s'
    pub light : s'.p ≤ cap
    pub min_txid : s'.min_txid ≡ s.min_txid
    pub item : CacheItem V
    pub found : lookup k s'.cache ≡ some item
    pub shows : to_vref item ≡ v
    pub stamped : txid_of (llp item) s' ≡ some x
    pub others : (q : K) → h.eqb q k ≡ false → lookup q s'.cache ≡ lookup q s.cache
    pub stamps :
        (q : K) (c : CacheItem V)
        → h.eqb q k ≡ false
        → lookup q s.cache ≡ some c
        → txid_of (llp c) s' ≡ txid_of (llp c) s

  -- Entries of the same node are of the same key.
  pub same_key :
      (s : Arc K V)
      → IsCache s
      → (k q : K) (c d : CacheItem V) → lookup k s.cache ≡ some c
      → lookup q s.cache ≡ some d
      → llp c ≡ llp d
      → q ≡ k
  same_key s w k q c d e f g =
      let a = w.located k c e in
      let b = w.located q d f in
      let n : a.node ≡ b.node =
        some_inj a.node b.node (sym a.at ∙ ap (get_elem? s.nodes) g ∙ b.at) in
      sym b.named ∙ ap (λ (z : CacheItemInner K). z.key) (sym n) ∙ a.named

  ne_node :
      (s : Arc K V)
      → IsCache s
      → (k q : K) (c d : CacheItem V) → lookup k s.cache ≡ some c
      → lookup q s.cache ≡ some d
      → h.eqb q k ≡ false
      → (llp d == llp c) ≡ false
  ne_node s w k q c d e f n = elim (Bool-cases (llp d == llp c)) [
    | inl t ↦
        let g : llp c ≡ llp d = ground arith in
        let r : h.eqb q k ≡ true =
          subst (λ z. h.eqb q z ≡ true) (same_key s w k q c d e f g) (h.eqb_refl q) in
        absurd cc
    | inr t ↦ t
  ]

  -- Only the list of its state has the node of an entry.
  only_in :
      (s : Arc K V)
      → IsCache s
      → (k : K) (c : CacheItem V) → lookup k s.cache ≡ some c
      → (u : LlName) → has (llp c) (s.lls u) ≡ same u (ll_of c)
  only_in s w k c e u =
      let a = w.located k c e in
      elim (Bool-cases (same u (ll_of c))) [
        | inl f ↦
            rw f
              (subst (λ v. has (llp c) (s.lls v) ≡ true) (sym (eq_of_same u (ll_of c) f)) a.in_list)
        | inr f ↦ rw f (elim (Bool-cases (has (llp c) (s.lls u))) [
          | inl g ↦
              let b = w.listed u (llp c) g in
              let n : b.node ≡ a.node = some_inj b.node a.node (sym b.at ∙ a.at) in
              let named : b.node.key ≡ k = ap (λ (z : CacheItemInner K). z.key) n ∙ a.named in
              let item : b.item ≡ c =
                some_inj b.item c (sym b.entry ∙ ap (λ z. lookup z s.cache) named ∙ e) in
              let t : u ≡ ll_of c = sym b.same_ll ∙ ap ll_of item in
              let r : same u (ll_of c) ≡ true = subst (λ z. same u z ≡ true) t (same_refl u) in
              absurd cc
          | inr g ↦ g
        ])
      ]

  pub begin-Track :
      (cap : ℕ) (s : Arc K V) (k : K) (c : CacheItem V)
      → IsCache s
      → s.p ≤ cap
      → (e : lookup k s.cache ≡ some c)
      → (i : CacheItemInner K) × (i.key ≡ k)
        × Track cap s s (llp c) (some (ll_of c)) i
        × (txid_of (llp c) s ≡ some i.txid)
  unfolding txid_of
  begin-Track cap s k c w l e =
      let a = w.located k c e in
      (
        a.node,
        a.named,
        record {
          has_node = λ u m. elim (Bool-cases (m == llp c)) [
            | inl t ↦ rw t (ap (λ z. has z (s.lls u)) (ground arith) ∙ only_in s w k c e u)
            | inr t ↦ rw t refl
          ];
          distinct = w.distinct;
          payload = λ m. elim (Bool-cases (m == llp c)) [
            | inl t ↦ rw t (ap (get_elem? s.nodes) (ground arith) ∙ a.at)
            | inr t ↦ rw t refl
          ];
          cache = refl;
          min_txid = refl;
          light = l;
        },
        rw a.at refl,
      )

  rest_of :
      (s : Arc K V) (k : K) (c : CacheItem V)
      → lookup k s.cache ≡ some c
      → (u : LlName) (m : ℕ) → (m == llp c) ≡ false
      → (b : HasEntry s u m) → h.eqb b.node.key k ≡ false
  rest_of s k c e u m f b = elim (Bool-cases (h.eqb b.node.key k)) [
    | inl r ↦
        let same_item : b.item ≡ c =
          some_inj b.item c
            (sym b.entry ∙ ap (λ z. lookup z s.cache) (h.eq_of_eqb b.node.key k r) ∙ e) in
        let same : m ≡ llp c = sym b.same_node ∙ ap llp same_item in
        let no : (m == llp c) ≡ true = ground arith in absurd cc
    | inr r ↦ r
  ]

  -- Node `n` and the key `k` are each other's, as are the other nodes and the other keys.
  module _ (cap : ℕ) (s s' : Arc K V) (k : K) (c' : CacheItem V) (n : ℕ) (i : CacheItemInner K)
      (cache : List (K × CacheItem V)) (w : IsCache s) (here : llp c' ≡ n) (named : i.key ≡ k)
      (apart : (q : K) (d : CacheItem V)
        → lookup q s.cache ≡ some d
        → h.eqb q k ≡ false
        → (llp d == n) ≡ false)
      (rest : (u : LlName) (m : ℕ)
        → (m == n) ≡ false
        → (b : HasEntry s u m) → h.eqb b.node.key k ≡ false)
      (t : Track cap s s' n (some (ll_of c')) i)
      (law : (q : K) → lookup q cache ≡ (if h.eqb q k then some c' else lookup q s.cache)) where
    abbrev new : Arc K V
    new = record s' { cache = cache }

    at_node : (m : ℕ) → (m == n) ≡ true → get_elem? s'.nodes m ≡ some i
    at_node m f = t.payload m ∙ rw f refl

    own : (n == n) ≡ true
    own = ground arith

    law_self : (q : K) → h.eqb q k ≡ true → lookup q cache ≡ some c'
    law_self q f = law q ∙ rw f refl

    law_other : (q : K) → h.eqb q k ≡ false → lookup q cache ≡ lookup q s.cache
    law_other q f = law q ∙ rw f refl

    located_self : (q : K) → h.eqb q k ≡ true → HasNode new q c'
    located_self q f = record {
      node = i;
      at = ap (get_elem? s'.nodes) here ∙ at_node n own;
      named = named ∙ sym (h.eq_of_eqb q k f);
      in_list =
          ap (λ z. has z (s'.lls (ll_of c'))) here
          ∙ t.has_node (ll_of c') n
          ∙ rw own (same_refl (ll_of c'));
    }

    located_new : (q : K) (d : CacheItem V) → lookup q cache ≡ some d → HasNode new q d
    located_new q d g = elim (Bool-cases (h.eqb q k)) [
      | inl f ↦ subst (HasNode new q) (some_inj c' d (sym (law_self q f) ∙ g)) (located_self q f)
      | inr f ↦
          let old = sym (law_other q f) ∙ g in
          let b = w.located q d old in
          let ne = apart q d old f in
          record {
            node = b.node;
            at = t.payload (llp d) ∙ rw ne b.at;
            named = b.named;
            in_list = t.has_node (ll_of d) (llp d) ∙ rw ne b.in_list;
          }
    ]

    listed_new : (u : LlName) (m : ℕ) → has m (s'.lls u) ≡ true → HasEntry new u m
    listed_new u m g = elim (Bool-cases (m == n)) [
      | inl f ↦
          let there : same u (ll_of c') ≡ true = sym (t.has_node u m ∙ rw f refl) ∙ g in
          record {
            node = i;
            at = at_node m f;
            item = c';
            entry = law_self i.key (rw named (h.eqb_refl k));
            same_node = here ∙ ground arith;
            same_ll = sym (eq_of_same u (ll_of c') there);
          }
      | inr f ↦
          let b = w.listed u m (sym (t.has_node u m ∙ rw f refl) ∙ g) in
          record {
            node = b.node;
            at = t.payload m ∙ rw f b.at;
            item = b.item;
            entry = law_other b.node.key (rest u m f b) ∙ b.entry;
            same_node = b.same_node;
            same_ll = b.same_ll;
          }
    ]

    pub finished : Sets cap s new k (to_vref c') i.txid
    unfolding txid_of
    finished = record {
      inv = record { located = located_new; listed = listed_new; distinct = t.distinct };
      light = t.light;
      min_txid = t.min_txid;
      item = c';
      found = law_self k (h.eqb_refl k);
      shows = refl;
      stamped = rw (here, at_node n own) refl;
      others = law_other;
      stamps = λ q d f g. rw (t.payload (llp d), apart q d g f) refl;
    }

  -- A step that ends with a new state for the key of the node.
  pub set_item-Sets :
      (cap : ℕ) (s s' : Arc K V) (k : K) (c c' : CacheItem V) (i : CacheItemInner K)
      → IsCache s
      → lookup k s.cache ≡ some c
      → llp c' ≡ llp c
      → i.key ≡ k
      → Track cap s s' (llp c) (some (ll_of c')) i
      → Sets cap s (set_item k c' s') k (to_vref c') i.txid
  unfolding set_item
  set_item-Sets cap s s' k c c' i w e n named t =
      finished cap s s' k c' (llp c) i (put k c' s'.cache) w n named (λ q d. ne_node s w k q c d e)
        (rest_of s k c e) t
        λ q.
          lookup-put k q c' s'.cache ∙ ap (λ m. if h.eqb q k then some c' else lookup q m) t.cache

  -- A step that leaves the key in its state.
  pub Track-Sets :
      (cap : ℕ) (s s' : Arc K V) (k : K) (c : CacheItem V) (i : CacheItemInner K)
      → IsCache s
      → lookup k s.cache ≡ some c
      → i.key ≡ k
      → Track cap s s' (llp c) (some (ll_of c)) i
      → Sets cap s s' k (to_vref c) i.txid
  Track-Sets cap s s' k c i w e named t =
      finished cap s s' k c (llp c) i s'.cache w refl named (λ q d. ne_node s w k q c d e)
        (rest_of s k c e) t λ q. ap (lookup q) t.cache ∙ unchanged q
    where
      unchanged : (q : K) → lookup q s.cache ≡ (if h.eqb q k then some c else lookup q s.cache)
      unchanged q = elim (Bool-cases (h.eqb q k)) [
        | inl f ↦ rw f (ap (λ z. lookup z s.cache) (h.eq_of_eqb q k f) ∙ e)
        | inr f ↦ rw f refl
      ]
