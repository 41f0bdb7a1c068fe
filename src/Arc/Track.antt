-- ===== src/Arc/Track.antt =====
-- src/arcache/mod.rs: the lists while one node is on its way from one of them to another.
use concread.Arc.{
  Arc, LlName, freq_ll, rec_ll, ghost_freq_ll, ghost_rec_ll, haunted_ll, code, same, CacheItemInner,
  append_n, extract, touch, txid_of, stamp, weigh_freq, weigh_rec, quotient, calc_p_freq,
  calc_p_rec,
}
use concread.Assoc.{HashEq}
use concread.Ll.Order
use concread.Ll.Order.{has, nodup}
use concread.Ll.Laws.{
  Extracted, extract-Extracted, Touched, touch-Touched, length_of_has, has-append, nodup-append,
}
use concread.Prelude.{
  ℕ, zero, suc, ◌+◌, ◌/◌, ◌-◌, length, ltb, leb, List, [], ◌∷◌, ◌++◌, Bool, true, false, Option,
  none, some, ◌≡◌, refl, sym, ap, ◌∙◌, subst, ◌==◌, ◌≤◌, get_elem?, if◌then◌else◌, Bool-cases, inl,
  inr, arith, Ensures, Ensures-bind,
}
use concread.Slice.{set}

decode : ℕ → LlName
decode zero = freq_ll
decode (suc zero) = rec_ll
decode (suc (suc zero)) = ghost_freq_ll
decode (suc (suc (suc zero))) = ghost_rec_ll
decode (suc (suc (suc (suc n)))) = haunted_ll

decode-code : (t : LlName) → decode (code t) ≡ t
unfolding decode
decode-code freq_ll = refl
decode-code rec_ll = refl
decode-code ghost_freq_ll = refl
decode-code ghost_rec_ll = refl
decode-code haunted_ll = refl

pub eq_of_same : (t u : LlName) → same t u ≡ true → t ≡ u
eq_of_same t u e =
    let c : code t ≡ code u = ground arith in sym (decode-code t) ∙ ap decode c ∙ decode-code u

pub same_refl : (t : LlName) → same t t ≡ true
same_refl t = ground arith

pub same_sym : (t u : LlName) → same t u ≡ same u t
same_sym t u = ground arith

-- The lists that have the node, if any has.
abbrev pub holds : Option LlName → LlName → Bool
holds none u = false
holds (some t) u = same u t

-- The division is by the length of a list that has a node.
pub calc_p_freq-le :
    (ghost_rec ghost_freq p : ℕ)
    → (ghost_freq == 0) ≡ false
    → Ensures (λ q. q ≤ p) (calc_p_freq ghost_rec ghost_freq p)
unfolding calc_p_freq quotient
calc_p_freq-le gr gf p e = elim (Bool-cases (ltb gf gr)) [
  | inl a ↦ rw (a, e) (lowered (gr / gf))
  | inr a ↦ rw a (lowered 1)
]
  where
    lowered : (d : ℕ) → (if ltb d p then p - d else 0) ≤ p
    lowered d = ground arith

pub calc_p_rec-le :
    (cap ghost_rec ghost_freq p : ℕ)
    → (ghost_rec == 0) ≡ false
    → p ≤ cap
    → Ensures (λ q. (p ≤ q) × (q ≤ cap)) (calc_p_rec cap ghost_rec ghost_freq p)
unfolding calc_p_rec quotient
calc_p_rec-le cap gr gf p e l =
    let fits : ltb cap p ≡ false = ground arith in
    elim (Bool-cases (ltb gr gf)) [
      | inl a ↦ rw (a, e, fits) (raised (gf / gr))
      | inr a ↦ rw (a, fits) (raised 1)
    ]
  where
    raised :
        (d : ℕ)
        → (p ≤ (if leb d (cap - p) then p + d else cap))
          × ((if leb d (cap - p) then p + d else cap) ≤ cap)
    raised d = ground (arith, l)

module _ {ℓ} {A : Type ℓ} where
  pub get_elem?-set :
      (xs : List A) (n m : ℕ) (a b : A)
      → get_elem? xs n ≡ some b
      → get_elem? (set xs n a) m ≡ (if m == n then some a else get_elem? xs m)
  unfolding set
  get_elem?-set [] n m a b e = cc
  get_elem?-set (x ∷ xs) zero zero a b e = refl
  get_elem?-set (x ∷ xs) zero (suc m) a b e = ground arith
  get_elem?-set (x ∷ xs) (suc n) zero a b e = ground arith
  get_elem?-set (x ∷ xs) (suc n) (suc m) a b e = ground (arith, get_elem?-set xs n m a b)

module _ {ℓ κ} {K : Type ℓ} {V : Type κ} ⦃h : HashEq K⦄ where
  -- From `s` to `s'` only the node `n` went elsewhere, and only its payload changed.
  pub record Track (cap : ℕ) (s s' : Arc K V) (n : ℕ) (o : Option LlName) (i : CacheItemInner K)
      : Type (ℓ ⊔ κ) where
    pub has_node :
        (u : LlName) (m : ℕ) → has m (s'.lls u) ≡ (if m == n then holds o u else has m (s.lls u))
    pub distinct : (u : LlName) → nodup (s'.lls u) ≡ true
    pub payload : (m : ℕ) → get_elem? s'.nodes m ≡ (if m == n then some i else get_elem? s.nodes m)
    pub cache : s'.cache ≡ s.cache
    pub min_txid : s'.min_txid ≡ s.min_txid
    pub light : s'.p ≤ cap

  pub extract-Track :
      (cap : ℕ) (s s' : Arc K V) (n : ℕ) (t : LlName) (i : CacheItemInner K)
      → Track cap s s' n (some t) i
      → Ensures (λ z. Track cap s z n none i) (extract t n s')
  unfolding extract
  extract-Track cap s s' n t i w =
      let in_t : has n (s'.lls t) ≡ true = ground (arith, w.has_node t n, same_refl t) in
      Ensures-bind (Extracted n (s'.lls t)) _ (Order.extract n (s'.lls t)) _
        (extract-Extracted n (s'.lls t) (w.distinct t) in_t)
        λ xs e x. record {
          has_node = λ u m. elim (Bool-cases (same t u)) [
            | inl f ↦ rw f (
                subst (λ v. has m xs ≡ (if m == n then false else has m (s.lls v)))
                  (eq_of_same t u f) (ground (arith, x.others m, w.has_node t m)))
            | inr f ↦ rw f (ground (arith, w.has_node u m, same_sym t u))
          ];
          distinct = λ u. elim (Bool-cases (same t u)) [
            | inl f ↦ rw f x.distinct
            | inr f ↦ rw f (w.distinct u)
          ];
          payload = w.payload;
          cache = w.cache;
          min_txid = w.min_txid;
          light = w.light;
        }

  pub append_n-Track :
      (cap : ℕ) (s s' : Arc K V) (n : ℕ) (t : LlName) (i : CacheItemInner K)
      → Track cap s s' n none i
      → Track cap s (append_n t n s') n (some t) i
  unfolding append_n Order.append_n
  append_n-Track cap s s' n t i w =
      let out : has n (s'.lls t) ≡ false = ground (arith, w.has_node t n) in
      record {
        has_node = λ u m. elim (Bool-cases (same t u)) [
          | inl f ↦ rw f (
              subst
                (λ v. has m (s'.lls t ++ n ∷ []) ≡ (if m == n then same v t else has m (s.lls v)))
                (eq_of_same t u f)
                (ground (arith, has-append m n (s'.lls t), w.has_node t m, same_refl t)))
          | inr f ↦ rw f (ground (arith, w.has_node u m, same_sym t u))
        ];
        distinct = λ u. elim (Bool-cases (same t u)) [
          | inl f ↦ rw f (nodup-append n (s'.lls t) out (w.distinct t))
          | inr f ↦ rw f (w.distinct u)
        ];
        payload = w.payload;
        cache = w.cache;
        min_txid = w.min_txid;
        light = w.light;
      }

  pub touch-Track :
      (cap : ℕ) (s s' : Arc K V) (n : ℕ) (t : LlName) (i : CacheItemInner K)
      → Track cap s s' n (some t) i
      → Ensures (λ z. Track cap s z n (some t) i) (touch t n s')
  unfolding touch
  touch-Track cap s s' n t i w =
      let in_t : has n (s'.lls t) ≡ true = ground (arith, w.has_node t n, same_refl t) in
      Ensures-bind (Touched (s'.lls t)) _ (Order.touch n (s'.lls t)) _
        (touch-Touched n (s'.lls t) (w.distinct t) in_t)
        λ xs e x. record {
          has_node = λ u m. elim (Bool-cases (same t u)) [
            | inl f ↦ rw f (
                subst (λ v. has m xs ≡ (if m == n then same v t else has m (s.lls v)))
                  (eq_of_same t u f) (x.members m ∙ w.has_node t m))
            | inr f ↦ rw f (w.has_node u m)
          ];
          distinct = λ u. elim (Bool-cases (same t u)) [
            | inl f ↦ rw f x.distinct
            | inr f ↦ rw f (w.distinct u)
          ];
          payload = w.payload;
          cache = w.cache;
          min_txid = w.min_txid;
          light = w.light;
        }

  pub node_of-Track :
      (cap : ℕ) (s s' : Arc K V) (n : ℕ) (o : Option LlName) (i : CacheItemInner K)
      → Track cap s s' n o i
      → get_elem? s'.nodes n ≡ some i
  node_of-Track cap s s' n o i w = ground (arith, w.payload n)

  pub txid_of-Track :
      (cap : ℕ) (s s' : Arc K V) (n : ℕ) (o : Option LlName) (i : CacheItemInner K)
      → Track cap s s' n o i
      → txid_of n s' ≡ some i.txid
  unfolding txid_of
  txid_of-Track cap s s' n o i w = rw (node_of-Track cap s s' n o i w) refl

  pub stamp-Track :
      (cap : ℕ) (s s' : Arc K V) (n : ℕ) (o : Option LlName) (i : CacheItemInner K) (x : ℕ)
      → Track cap s s' n o i
      → Ensures (λ z. Track cap s z n o (record i { txid = x })) (stamp n x s')
  unfolding stamp
  stamp-Track cap s s' n o i x w =
      let at = node_of-Track cap s s' n o i w in
      rw at record {
        has_node = w.has_node;
        distinct = w.distinct;
        payload = λ m.
            ground (arith, w.payload m, get_elem?-set s'.nodes n m (record i { txid = x }) i at);
        cache = w.cache;
        min_txid = w.min_txid;
        light = w.light;
      }

  pub weigh_freq-Track :
      (cap : ℕ) (s s' : Arc K V) (n : ℕ) (i : CacheItemInner K)
      → Track cap s s' n (some ghost_freq_ll) i
      → Ensures (λ z. Track cap s z n (some ghost_freq_ll) i) (weigh_freq s')
  unfolding weigh_freq
  weigh_freq-Track cap s s' n i w =
      let some_ghost : (length (s'.lls ghost_freq_ll) == 0) ≡ false =
        length_of_has n (s'.lls ghost_freq_ll) (w.has_node ghost_freq_ll n ∙ ground arith) in
      Ensures-bind (λ q. q ≤ s'.p) _
        (calc_p_freq (length (s'.lls ghost_rec_ll)) (length (s'.lls ghost_freq_ll)) s'.p) _
        (calc_p_freq-le (length (s'.lls ghost_rec_ll)) (length (s'.lls ghost_freq_ll)) s'.p
          some_ghost)
        λ q e l. record {
          has_node = w.has_node;
          distinct = w.distinct;
          payload = w.payload;
          cache = w.cache;
          min_txid = w.min_txid;
          light = omega (arith, l, w.light);
        }

  pub weigh_rec-Track :
      (cap : ℕ) (s s' : Arc K V) (n : ℕ) (i : CacheItemInner K)
      → Track cap s s' n (some ghost_rec_ll) i
      → Ensures (λ z. Track cap s z n (some ghost_rec_ll) i) (weigh_rec cap s')
  unfolding weigh_rec
  weigh_rec-Track cap s s' n i w =
      let some_ghost : (length (s'.lls ghost_rec_ll) == 0) ≡ false =
        length_of_has n (s'.lls ghost_rec_ll) (w.has_node ghost_rec_ll n ∙ ground arith) in
      Ensures-bind (λ q. (s'.p ≤ q) × (q ≤ cap)) _
        (calc_p_rec cap (length (s'.lls ghost_rec_ll)) (length (s'.lls ghost_freq_ll)) s'.p) _
        (calc_p_rec-le cap (length (s'.lls ghost_rec_ll)) (length (s'.lls ghost_freq_ll)) s'.p
          some_ghost w.light)
        λ q e l. record {
          has_node = w.has_node;
          distinct = w.distinct;
          payload = w.payload;
          cache = w.cache;
          min_txid = w.min_txid;
          light = l.1;
        }
