-- ===== src/Arc/Bound.antt =====
-- src/arcache/mod.rs: the lengths of the live lists after an eviction.
use concread.Arc.{
  Arc, LlName, freq_ll, rec_ll, ghost_freq_ll, ghost_rec_ll, haunted_ll, same, ll_len, visible,
  CacheStats,
}
use concread.Arc.Coherence.{counted-IsGood}
use concread.Arc.Effects.{IsGood, Knows}
use concread.Arc.Evict.{
  debug_assert, usize_sub, rec_target, while_longer, evict_to_len, evict_to_haunted_len,
  evict_ghosts, evict_over, evict, evict_one, haunt_one,
}
use concread.Arc.Rounds.{
  debug_assert-true, ghost_of, ghost_of-apart, evict_one-Round, haunt_one-Round,
}
use concread.Arc.Shrink.{Shrunk, Shrunk-refl, while_longer-Shrunk}
use concread.Assoc.{HashEq}
use concread.Prelude.{
  ℕ, suc, ◌+◌, ◌-◌, ◌≤◌, ◌<◌, Bool, true, false, none, some, ◌≡◌, refl, ap, ◌∙◌, ◌==◌, ◌⊎◌, inl,
  inr, ltb, leb, length, if◌then◌else◌, Bool-cases, arith, Ensures, Ensures-bind, Ensures-imp,
  ◌>>=◌,
}

usize_sub-ok : (debug : Bool) (a b : ℕ) → b ≤ a → usize_sub debug a b ≡ some (a - b)
unfolding usize_sub
usize_sub-ok debug a b l = let e : leb b a ≡ true = ground arith in rw e refl

abbrev IsTarget : (most r f : ℕ) → ℕ → Type 0
IsTarget most r f n = (n ≤ r) × (n ≤ most) × (most ≤ n + f)

-- The target for the recent list is in range, unless `p` is 0 and the frequent list alone is over.
rec_target-IsTarget :
    (debug : Bool) (most r f p : ℕ)
    → most < r + f
    → p ≤ most
    → ((p == 0) ≡ true → f ≤ most)
    → Ensures (IsTarget most r f) (rec_target debug most r f p)
unfolding rec_target
rec_target-IsTarget debug most r f p over light fits = elim (Bool-cases (p == 0)) [
  | inl e ↦
      let l : f ≤ most = fits e in
      let d : r + f - most ≤ r = omega arith in
      let a : leb (r + f - most) r ≡ true = ground arith in
      rw
        (e, debug_assert-true debug (leb (r + f - most) r) a, usize_sub-ok debug r (r + f - most) d)
        (omega arith)
  | inr e ↦ elim (Bool-cases (ltb p r)) [
    | inr g ↦ rw (e, g) (ground arith)
    | inl g ↦ elim (Bool-cases (ltb (r + f - most) (r - p))) [
      | inl k ↦
          let d : r + f - most ≤ r = ground arith in
          rw (e, g, k, usize_sub-ok debug r (r + f - most) d) (ground arith)
      | inr k ↦ rw (e, g, k, usize_sub-ok debug r (r - p) (omega arith)) (ground arith)
    ]
  ]
]

module _ {ℓ κ} {K : Type ℓ} {V : Type κ} ⦃h : HashEq K⦄ (cap x : ℕ) where
  -- A loop that cuts a list to a length that it reaches.
  pub evict_to_len-Shrunk :
      (debug : Bool) (t u : LlName) (size : ℕ) (s : Arc K V)
      → ghost_of t ≡ some u
      → IsGood cap s
      → size ≤ length (s.lls t)
      → Ensures
          (λ z. Shrunk cap t u s z × (length (z.lls t) ≡ size))
          (evict_to_len debug t u size x s)
  unfolding evict_to_len
  evict_to_len-Shrunk debug t u size s gh g l =
      rw (debug_assert-true debug (leb size (length (s.lls t))) (ground arith)) (
        Ensures-imp _ _ (while_longer (evict_one debug t u x) t size (suc (length (s.lls t))) s)
          (while_longer-Shrunk cap t u (evict_one debug t u x) size
            (λ y g' l'.
              evict_one-Round cap x t u y g' (omega arith) (ghost_of-apart t u gh) debug gh)
            (suc (length (s.lls t))) s g (omega arith))
          λ z p. (p.0, p.2 l))

  -- The loops on the ghost lists, in a build without debug assertions.
  evict_to_haunted_len-Shrunk :
      (t : LlName) (size : ℕ) (s : Arc K V)
      → same t haunted_ll ≡ false
      → IsGood cap s
      → Ensures (Shrunk cap t haunted_ll s) (evict_to_haunted_len false t haunted_ll size x s)
  unfolding evict_to_haunted_len debug_assert
  evict_to_haunted_len-Shrunk t size s apart g =
      Ensures-imp _ (Shrunk cap t haunted_ll s)
        (while_longer (haunt_one t haunted_ll x) t size (suc (length (s.lls t))) s)
        (while_longer-Shrunk cap t haunted_ll (haunt_one t haunted_ll x) size
          (λ y g' l'. haunt_one-Round cap x t haunted_ll y g' (omega arith) apart refl)
          (suc (length (s.lls t))) s g (omega arith))
        λ z p. p.0

  -- No key shows a new value, and the weight and the watermark are what they were.
  pub record IsForgetful (s z : Arc K V) : Type (ℓ ⊔ κ) where
    pub good : IsGood cap z
    pub knows : Knows s z
    pub forgets : (q : K) → (visible q z ≡ visible q s) ⊎ (visible q z ≡ none)
    pub weight : z.p ≡ s.p
    pub min_txid : z.min_txid ≡ s.min_txid

  pub Shrunk-IsForgetful : (t u : LlName) (s z : Arc K V) → Shrunk cap t u s z → IsForgetful s z
  Shrunk-IsForgetful t u s z p = record {
    good = p.good;
    knows = p.knows;
    forgets = p.forgets;
    weight = p.weight;
    min_txid = p.min_txid;
  }

  pub IsForgetful-trans : (s y z : Arc K V) → IsForgetful s y → IsForgetful y z → IsForgetful s z
  IsForgetful-trans s y z a b = record {
    good = b.good;
    knows = λ q e. b.knows q (a.knows q e);
    forgets = λ q. elim (b.forgets q) [
      | inr n ↦ inr n
      | inl e ↦ elim (a.forgets q) [ inl f ↦ inl (e ∙ f) | inr n ↦ inr (e ∙ n) ]
    ];
    weight = b.weight ∙ a.weight;
    min_txid = b.min_txid ∙ a.min_txid;
  }

  -- As many live items as the cache has room for.
  abbrev pub Evicted : Arc K V → Arc K V → Type (ℓ ⊔ κ)
  Evicted s z = IsForgetful s z × (length (z.lls rec_ll) + length (z.lls freq_ll) ≤ cap)

  -- A loop on a ghost list, if that is too long.
  trim_ghost :
      (t : LlName) (size : ℕ) (long : Bool) (s : Arc K V)
      → same t haunted_ll ≡ false
      → same t rec_ll ≡ false
      → same t freq_ll ≡ false
      → IsGood cap s
      → Ensures
          (λ z. IsForgetful s z × (z.lls rec_ll ≡ s.lls rec_ll) × (z.lls freq_ll ≡ s.lls freq_ll))
          (if long then evict_to_haunted_len false t haunted_ll size x s else some s)
  trim_ghost t size true s a b c g =
      Ensures-imp (Shrunk cap t haunted_ll s) _ (evict_to_haunted_len false t haunted_ll size x s)
        (evict_to_haunted_len-Shrunk t size s a g)
        λ z p.
          (Shrunk-IsForgetful t haunted_ll s z p, p.others rec_ll b refl, p.others freq_ll c refl)
  trim_ghost t size false s a b c g =
      (Shrunk-IsForgetful t t s s (Shrunk-refl cap t t s g), refl, refl)

  evict_ghosts-Evicted :
      (p n m : ℕ) (s : Arc K V)
      → p ≤ cap
      → IsGood cap s
      → length (s.lls rec_ll) + length (s.lls freq_ll) ≤ cap
      → Ensures (Evicted s) (evict_ghosts false cap p n m x s)
  unfolding evict_ghosts
  evict_ghosts-Evicted p n m s light g l = rw (usize_sub-ok false cap p light) (
      Ensures-bind _ (Evicted s)
        (if ltb (cap - p) (ll_len ghost_rec_ll s)
          then evict_to_haunted_len false ghost_rec_ll haunted_ll m x s
          else some s)
        _ (trim_ghost ghost_rec_ll m (ltb (cap - p) (ll_len ghost_rec_ll s)) s refl refl refl g)
        λ y e (a, b, c).
          Ensures-imp _ (Evicted s)
            (if ltb p (ll_len ghost_freq_ll y)
              then evict_to_haunted_len false ghost_freq_ll haunted_ll n x y
              else some y)
            (trim_ghost ghost_freq_ll n (ltb p (ll_len ghost_freq_ll y)) y refl refl refl a.good)
            λ z (a', b', c'). (
              IsForgetful-trans s y z a a',
              (let r = ap length (b' ∙ b) in let f = ap length (c' ∙ c) in omega (arith, r, f, l)),
            ))

  counted-IsForgetful :
      (s z : Arc K V) (c : CacheStats) → IsForgetful (record s { stats = c }) z → IsForgetful s z
  unfolding visible
  counted-IsForgetful s z c p = record {
    good = p.good;
    knows = p.knows;
    forgets = p.forgets;
    weight = p.weight;
    min_txid = p.min_txid;
  }

  -- The live lists at the lengths `n` and `cap - n`, then the ghost lists.
  lists-Evicted :
      (n p : ℕ) (s : Arc K V)
      → p ≤ cap
      → IsGood cap s
      → IsTarget cap (length (s.lls rec_ll)) (length (s.lls freq_ll)) n
      → Ensures (Evicted s) (
          evict_to_len false rec_ll ghost_rec_ll n x s >>= λ s.
          evict_to_len false freq_ll ghost_freq_ll (cap - n) x s >>= λ s.
          evict_ghosts false cap p n (cap - n) x s)
  lists-Evicted n p s light g (l, m, k) =
      Ensures-bind _ (Evicted s) (evict_to_len false rec_ll ghost_rec_ll n x s) _
        (evict_to_len-Shrunk false rec_ll ghost_rec_ll n s refl g l)
        λ y e (a, r).
          let f : length (y.lls freq_ll) ≡ length (s.lls freq_ll) =
            ap length (a.others freq_ll refl refl) in
          Ensures-bind _ (Evicted s) (evict_to_len false freq_ll ghost_freq_ll (cap - n) x y) _
            (evict_to_len-Shrunk false freq_ll ghost_freq_ll (cap - n) y refl a.good
              (omega (arith, f, k)))
            λ w e' (b, t).
              let r' : length (w.lls rec_ll) ≡ length (y.lls rec_ll) =
                ap length (b.others rec_ll refl refl) in
              Ensures-imp (Evicted w) (Evicted s) (evict_ghosts false cap p n (cap - n) x w)
                (evict_ghosts-Evicted p n (cap - n) w light b.good (omega (arith, r, r', t, m)))
                λ z (c, d). (
                  IsForgetful-trans s w z
                      (IsForgetful-trans s y w (Shrunk-IsForgetful rec_ll ghost_rec_ll s y a)
                        (Shrunk-IsForgetful freq_ll ghost_freq_ll y w b))
                      c,
                  d,
                )

  evict_over-Evicted :
      (s : Arc K V)
      → IsGood cap s
      → cap < length (s.lls rec_ll) + length (s.lls freq_ll)
      → ((s.p == 0) ≡ true → length (s.lls freq_ll) ≤ cap)
      → Ensures (Evicted s) (evict_over false cap x s)
  unfolding evict_over debug_assert
  evict_over-Evicted s g over fits =
      Ensures-bind (IsTarget cap (length (s.lls rec_ll)) (length (s.lls freq_ll))) (Evicted s)
        (rec_target false cap (length (s.lls rec_ll)) (length (s.lls freq_ll)) s.p) _
        (rec_target-IsTarget false cap (length (s.lls rec_ll)) (length (s.lls freq_ll)) s.p over
          g.light fits)
        λ n e (l, m, k).
          rw
            (
              usize_sub-ok false cap n m,
              usize_sub-ok false (length (s.lls freq_ll)) (cap - n) (omega (arith, k)),
              usize_sub-ok false (length (s.lls rec_ll)) n l,
            )
            (Ensures-imp (Evicted _) (Evicted s) _
              (lists-Evicted n s.p _ g.light (counted-IsGood cap s _ g) (l, m, k))
              λ z (a, b). (counted-IsForgetful s z _ a, b))

  -- The eviction of a build without debug assertions on a cache in order, of which the weight is
  -- positive or the frequent list alone fits, does not panic and ends with no more live items than
  -- the cache has room for. No key is forgotten, and none shows a new value.
  pub evict-Evicted :
      (s : Arc K V)
      → IsGood cap s
      → ((s.p == 0) ≡ true → length (s.lls freq_ll) ≤ cap)
      → Ensures (Evicted s) (evict false cap x s)
  unfolding evict debug_assert
  evict-Evicted s g fits =
      let c = record s.stats { p_weight = s.p } in
      let s' : Arc K V = record s { stats = c } in
      let over = ltb cap (length (s.lls rec_ll) + length (s.lls freq_ll)) in
      elim (Bool-cases over) [
        | inl e ↦ rw e (
            Ensures-imp (Evicted s') (Evicted s) (evict_over false cap x s')
              (evict_over-Evicted s' (counted-IsGood cap s c g) (ground arith) fits)
              λ z (a, b). (counted-IsForgetful s z c a, b))
        | inr e ↦ rw e (
          counted-IsForgetful s s' c (
              Shrunk-IsForgetful rec_ll rec_ll s' s'
                (Shrunk-refl cap rec_ll rec_ll s' (counted-IsGood cap s c g))),
          ground arith,
        )
      ]
