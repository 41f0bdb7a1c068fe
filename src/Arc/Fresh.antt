-- ===== src/Arc/Fresh.antt =====
-- src/arcache/mod.rs: a new key, with a new node.
use concread.Arc.{
  Arc, LlName, CacheItem, CacheItemInner, llp, ll_of, to_vref, set_item, include_new, new_node,
  append_n,
}
use concread.Arc.Inv.{IsCache}
use concread.Arc.Sets.{Sets, finished}
use concread.Arc.Track.{Track, append_n-Track}
use concread.Assoc.{HashEq, lookup, put}
use concread.Assoc.Laws.{lookup-put}
use concread.Ll.Order.{has}
use concread.Prelude.{
  ℕ, length, false, none, some, ◌≡◌, refl, sym, ap, ◌∙◌, subst, ◌==◌, ◌≤◌, out_of_range,
  get_elem?-snoc, Bool-cases, inl, inr, arith,
}

module _ {ℓ κ} {K : Type ℓ} {V : Type κ} ⦃h : HashEq K⦄ where
  unlisted_at : (s : Arc K V) → IsCache s → (u : LlName) → has (length s.nodes) (s.lls u) ≡ false
  unlisted_at s w u = elim (Bool-cases (has (length s.nodes) (s.lls u))) [
    | inl f ↦
        let b = w.listed u (length s.nodes) f in
        let no = out_of_range s.nodes b.node (length s.nodes) b.at in absurd (ground arith)
    | inr f ↦ f
  ]

  no_entry :
      (s : Arc K V) (k : K)
      → lookup k s.cache ≡ none
      → (q : K) (c : CacheItem V) → lookup q s.cache ≡ some c
      → h.eqb q k ≡ false
  no_entry s k e q c f = elim (Bool-cases (h.eqb q k)) [
    | inl g ↦
        let same : lookup q s.cache ≡ lookup k s.cache =
          ap (λ z. lookup z s.cache) (h.eq_of_eqb q k g) in
        absurd cc
    | inr g ↦ g
  ]

  -- A new key with a new node.
  pub include_new-Sets :
      (cap : ℕ) (s : Arc K V) (k : K) (t : LlName) (item : ℕ → CacheItem V) (x : ℕ)
      → IsCache s
      → s.p ≤ cap
      → lookup k s.cache ≡ none
      → llp (item (length s.nodes)) ≡ length s.nodes
      → ll_of (item (length s.nodes)) ≡ t
      → Sets cap s (include_new t item k x s) k (to_vref (item (length s.nodes))) x
  unfolding include_new set_item new_node append_n
  include_new-Sets cap s k t item x w l e same_n same_t =
      let n = length s.nodes in
      let i : CacheItemInner K = record { key = k; txid = x } in
      let unlisted : (u : LlName) → has n (s.lls u) ≡ false = λ u. unlisted_at s w u in
      let old : Track cap s (new_node k x s) n none i = record {
        has_node = λ u m. elim (Bool-cases (m == n)) [
          | inl f ↦ rw f (ap (λ z. has z (s.lls u)) (ground arith) ∙ unlisted u)
          | inr f ↦ rw f refl
        ];
        distinct = w.distinct;
        payload = λ m. get_elem?-snoc s.nodes i m;
        cache = refl;
        min_txid = refl;
        light = l;
      } in
      finished cap s (append_n t n (new_node k x s)) k (item n) n i (put k (item n) s.cache) w
        same_n refl
        (λ q d f g. out_of_range s.nodes (w.located q d f).node (llp d) (w.located q d f).at)
        (λ u m f b. no_entry s k e b.node.key b.item b.entry)
        (subst (λ z. Track cap s (append_n t n (new_node k x s)) n (some z) i) (sym same_t)
          (append_n-Track cap s (new_node k x s) n t i old))
        λ q. lookup-put k q (item n) s.cache
