-- ===== src/Arc/Rounds.antt =====
-- src/arcache/mod.rs: the rounds of the three loops that move nodes to the ghost lists and the
-- haunted one.
use concread.Arc.{
  Arc, LlName, freq_ll, rec_ll, ghost_freq_ll, ghost_rec_ll, haunted_ll, same, CacheItem,
  CacheItemInner, llp, ll_of, to_vref, append_n, stamp, set_item,
}
use concread.Arc.Effects.{IsGood}
use concread.Arc.Evict.{debug_assert, evict_item, evict_one, haunt_one, drain_item, drain_one}
use concread.Arc.Sets.{Sets, set_item-Sets}
use concread.Arc.Shrink.{Popped, Round, pop-Popped, Sets-Round}
use concread.Arc.Track.{Track, node_of-Track, append_n-Track, stamp-Track}
use concread.Assoc.{HashEq, lookup}
use concread.Prelude.{
  ℕ, zero, ◌<◌, Bool, true, false, Option, none, some, ◌≡◌, refl, sym, ap, ◌∙◌, ◌==◌, length,
  get_elem?, arith, Ensures, Ensures-bind, Ensures-with, Always, ◌>>=◌, subst,
}
use concread.Slice.{set}

-- The ghost list of a live one.
abbrev pub ghost_of : LlName → Option LlName
ghost_of freq_ll = some ghost_freq_ll
ghost_of rec_ll = some ghost_rec_ll
ghost_of ghost_freq_ll = none
ghost_of ghost_rec_ll = none
ghost_of haunted_ll = none

pub debug_assert-true : (debug b : Bool) → b ≡ true → debug_assert debug b ≡ some tt
unfolding debug_assert
debug_assert-true true b e = rw e refl
debug_assert-true false b e = refl

pub ghost_of-apart : (t u : LlName) → ghost_of t ≡ some u → same t u ≡ false
ghost_of-apart freq_ll u e =
    let s : ghost_freq_ll ≡ u = cc in subst (λ v. same freq_ll v ≡ false) s refl
ghost_of-apart rec_ll u e =
    let s : ghost_rec_ll ≡ u = cc in subst (λ v. same rec_ll v ≡ false) s refl
ghost_of-apart ghost_freq_ll u e = cc
ghost_of-apart ghost_rec_ll u e = cc
ghost_of-apart haunted_ll u e = cc

module _ {ℓ κ} {K : Type ℓ} {V : Type κ} ⦃h : HashEq K⦄ where
  -- A stamp moves no node.
  abbrev Unmoved : Arc K V → Arc K V → Type 0
  Unmoved s z = (z.p ≡ s.p) × ((v : LlName) → z.lls v ≡ s.lls v)

  stamp-Unmoved : (n x : ℕ) (s : Arc K V) → Always (Unmoved s) (stamp n x s)
  unfolding stamp
  stamp-Unmoved n x s = go (get_elem? s.nodes n)
    where
      go :
          (o : Option (CacheItemInner K))
          → Always
              (Unmoved s)
              (o >>= λ i. some (record s { nodes = set s.nodes n (record i { txid = x }) }))
      go none = tt
      go (some i) = (refl, λ v. refl)

  append_n-Unmoved :
      (u : LlName) (n : ℕ) (s : Arc K V)
      → ((append_n u n s).p ≡ s.p)
        × ((v : LlName) → same u v ≡ false → (append_n u n s).lls v ≡ s.lls v)
  unfolding append_n
  append_n-Unmoved u n s = (refl, λ v f. rw f refl)

  set_item-Unmoved : (k : K) (c : CacheItem V) (s : Arc K V) → Unmoved s (set_item k c s)
  unfolding set_item
  set_item-Unmoved k c s = (refl, λ v. refl)

  module _ (cap x : ℕ) (t u : LlName) (s : Arc K V) (g : IsGood cap s) (l : zero < length (s.lls t))
      (apart : same t u ≡ false) where
    abbrev head : Popped cap s t
    head = pop-Popped cap s t g l

    -- The popped node is at the tail of `u`, and its key gets a state that shows nothing.
    ended :
        (z : Arc K V) (c' : CacheItem V) (i : CacheItemInner K)
        → i.key ≡ head.node.key
        → llp c' ≡ llp head.item
        → to_vref c' ≡ none
        → Track cap s z (llp head.item) (some (ll_of c')) i
        → (z.p ≡ head.after.p) × ((v : LlName) → same u v ≡ false → z.lls v ≡ head.after.lls v)
        → Round cap t u s (set_item head.node.key c' z)
    ended z c' i named n shows w at =
        let st =
          set_item-Sets cap s z head.node.key head.item c' i g.inv head.old_entry n named w in
        let same_z = set_item-Unmoved head.node.key c' z in
        Sets-Round cap t u s (set_item head.node.key c' z) head.node.key i.txid head apart
          (subst (λ v. Sets cap s (set_item head.node.key c' z) head.node.key v i.txid) shows st)
          (same_z.0 ∙ at.0 ∙ head.weight) λ v f. same_z.1 v ∙ at.1 v f

    stamped :
        (z : Arc K V) (o : Option LlName)
        → Track cap s z (llp head.item) o head.node
        → Ensures
            (λ y. Track cap s y (llp head.item) o (record head.node { txid = x }) × Unmoved z y)
            (stamp head.n x z)
    stamped z o w =
        subst
          (λ m.
            Ensures
              (λ y. Track cap s y (llp head.item) o (record head.node { txid = x }) × Unmoved z y)
              (stamp m x z))
          head.same_node
          (Ensures-with (λ y. Track cap s y (llp head.item) o (record head.node { txid = x }))
            (Unmoved z) (stamp (llp head.item) x z)
            (stamp-Track cap s z (llp head.item) o head.node x w)
            (stamp-Unmoved (llp head.item) x z))

    -- A stamped node at the tail of `u`.
    placed :
        (z : Arc K V) (c' : CacheItem V)
        → llp c' ≡ llp head.item
        → to_vref c' ≡ none
        → ll_of c' ≡ u
        → Track cap s z (llp head.item) none (record head.node { txid = x })
        → Unmoved head.after z
        → Round cap t u s (set_item head.node.key c' (append_n u (llp head.item) z))
    placed z c' n shows m w at =
        let put_ = append_n-Unmoved u (llp head.item) z in
        ended (append_n u (llp head.item) z) c' (record head.node { txid = x }) refl n shows
          (subst
            (λ v.
              Track cap s (append_n u (llp head.item) z) (llp head.item) (some v)
                (record head.node { txid = x }))
            (sym m) (append_n-Track cap s z (llp head.item) u (record head.node { txid = x }) w))
          (put_.0 ∙ at.0, λ v f. put_.1 v f ∙ at.1 v)

    -- The state of a popped node of `m`, which goes to the tail of its ghost list.
    arrived :
        (z : Arc K V) (m : ℕ) (c c' : CacheItem V)
        → head.item ≡ c
        → llp c ≡ m
        → llp c' ≡ m
        → to_vref c' ≡ none
        → some (ll_of c') ≡ ghost_of (ll_of c)
        → ghost_of t ≡ some u
        → Track cap s z (llp head.item) none (record head.node { txid = x })
        → Unmoved head.after z
        → (m ≡ head.n) × Round cap t u s (set_item head.node.key c' (append_n u m z))
    arrived z m c c' e n n' shows ghost gh w at =
        let here : llp head.item ≡ m = ap llp e ∙ n in
        let in_t : ll_of c ≡ t = sym (ap ll_of e) ∙ head.same_ll in
        let to : some (ll_of c') ≡ some u = ghost ∙ ap ghost_of in_t ∙ gh in
        (
          sym here ∙ head.same_node,
          subst (λ y. Round cap t u s (set_item head.node.key c' (append_n u y z))) here
              (placed z c' (n' ∙ sym here) shows (cc) w at),
        )

    live : (c : CacheItem V) → head.item ≡ c → ghost_of (ll_of c) ≡ none → ghost_of t ≡ some u → ⊥
    live c e dead gh =
        let in_t : ll_of c ≡ t = sym (ap ll_of e) ∙ head.same_ll in
        let q : none ≡ some u = sym dead ∙ ap ghost_of in_t ∙ gh in cc

    evict_item-Round :
        (debug : Bool) (z : Arc K V) (c : CacheItem V)
        → ghost_of t ≡ some u
        → head.item ≡ c
        → Track cap s z (llp head.item) none (record head.node { txid = x })
        → Unmoved head.after z
        → Ensures (Round cap t u s) (evict_item debug u head.n head.node.key c z)
    unfolding evict_item to_vref
    evict_item-Round debug z (CacheItem.freq m v) gh e w at =
        let (here, r) =
          arrived z m (CacheItem.freq m v) (CacheItem.ghost_freq m) e refl refl refl refl gh w at in
        rw (debug_assert-true debug (m == head.n) (ground arith)) r
    evict_item-Round debug z (CacheItem.recent m v) gh e w at =
        let (here, r) =
          arrived z m (CacheItem.recent m v) (CacheItem.ghost_rec m) e refl refl refl refl gh w
            at in
        rw (debug_assert-true debug (m == head.n) (ground arith)) r
    evict_item-Round debug z (CacheItem.ghost_freq m) gh e w at =
        absurd (live (CacheItem.ghost_freq m) e refl gh)
    evict_item-Round debug z (CacheItem.ghost_rec m) gh e w at =
        absurd (live (CacheItem.ghost_rec m) e refl gh)
    evict_item-Round debug z (CacheItem.haunted m) gh e w at =
        absurd (live (CacheItem.haunted m) e refl gh)

    drain_item-Round :
        (z : Arc K V) (c : CacheItem V)
        → ghost_of t ≡ some u
        → head.item ≡ c
        → Track cap s z (llp head.item) none (record head.node { txid = x })
        → Unmoved head.after z
        → Ensures (Round cap t u s) (drain_item head.node.key c z)
    unfolding drain_item to_vref
    drain_item-Round z (CacheItem.freq m v) gh e w at =
        let in_t : freq_ll ≡ t = sym (ap ll_of e) ∙ head.same_ll in
        let to : ghost_freq_ll ≡ u =
          let q : ghost_of freq_ll ≡ some u = ap ghost_of in_t ∙ gh in cc in
        let r =
          arrived z m (CacheItem.freq m v) (CacheItem.ghost_freq m) e refl refl refl refl gh w at in
        subst
          (λ y. Round cap t u s (set_item head.node.key (CacheItem.ghost_freq m) (append_n y m z)))
          (sym to) r.1
    drain_item-Round z (CacheItem.recent m v) gh e w at =
        let in_t : rec_ll ≡ t = sym (ap ll_of e) ∙ head.same_ll in
        let to : ghost_rec_ll ≡ u =
          let q : ghost_of rec_ll ≡ some u = ap ghost_of in_t ∙ gh in cc in
        let r =
          arrived z m (CacheItem.recent m v) (CacheItem.ghost_rec m) e refl refl refl refl gh w
            at in
        subst
          (λ y. Round cap t u s (set_item head.node.key (CacheItem.ghost_rec m) (append_n y m z)))
          (sym to) r.1
    drain_item-Round z (CacheItem.ghost_freq m) gh e w at =
        absurd (live (CacheItem.ghost_freq m) e refl gh)
    drain_item-Round z (CacheItem.ghost_rec m) gh e w at =
        absurd (live (CacheItem.ghost_rec m) e refl gh)
    drain_item-Round z (CacheItem.haunted m) gh e w at =
        absurd (live (CacheItem.haunted m) e refl gh)

    pub evict_one-Round :
        (debug : Bool) → ghost_of t ≡ some u → Ensures (Round cap t u s) (evict_one debug t u x s)
    unfolding evict_one
    evict_one-Round debug gh =
        rw (head.popped, head.at, head.entry)
          (Ensures-bind _ (Round cap t u s) (stamp head.n x head.after) _
            (stamped head.after none head.track)
            λ z e p. evict_item-Round debug z head.item gh refl p.0 p.1)

    pub drain_one-Round : ghost_of t ≡ some u → Ensures (Round cap t u s) (drain_one t x s)
    unfolding drain_one
    drain_one-Round gh = rw head.popped (
        Ensures-bind _ (Round cap t u s) (stamp head.n x head.after) _
          (stamped head.after none head.track)
          λ z e p.
            let at : get_elem? z.nodes head.n ≡ some (record head.node { txid = x }) =
              ap (get_elem? z.nodes) (sym head.same_node)
              ∙ node_of-Track cap s z (llp head.item) none (record head.node { txid = x }) p.0 in
            let entry : lookup head.node.key z.cache ≡ some head.item =
              ap (lookup head.node.key) p.0.cache ∙ head.old_entry in
            rw (at, entry) (drain_item-Round z head.item gh refl p.0 p.1))

    pub haunt_one-Round : u ≡ haunted_ll → Ensures (Round cap t u s) (haunt_one t u x s)
    unfolding haunt_one to_vref
    haunt_one-Round haunts =
        let put_ = append_n-Unmoved u head.n head.after in
        rw (head.popped, head.at, head.entry)
          (Ensures-bind _ (Round cap t u s) (stamp head.n x (append_n u head.n head.after)) _
            (stamped (append_n u head.n head.after) (some u) (
              subst (λ m. Track cap s (append_n u m head.after) (llp head.item) (some u) head.node)
                head.same_node
                (append_n-Track cap s head.after (llp head.item) u head.node head.track)))
            λ z e p.
              ended z (CacheItem.haunted head.n) (record head.node { txid = x }) refl
                (sym head.same_node) refl
                (subst (λ v. Track cap s z (llp head.item) (some v) (record head.node { txid = x }))
                  haunts p.0)
                (p.1.0 ∙ put_.0, λ v f. p.1.1 v ∙ put_.1 v f))
