-- ===== src/BpTree/Map/Blocks.antt =====
-- src/bptree/mod.rs: the superblocks of a map as a chain in the order of their transactions.
use concread.BpTree.Cursor.{SuperBlock}
use concread.BpTree.Map.{Block, BptreeMap, sealed, publish, commit_prep}
use concread.Slice.{set}
use concread.Prelude.{
  ℕ, zero, suc, ◌+◌, ◌≤◌, List, [], ◌∷◌, ◌++◌, none, some, ◌≡◌, refl, ap, ◌∙◌, length, get_elem?,
  arith, Ensures, length-append, is_some, true, get_elem?-append, get_elem?-end,
}

module _ {ℓ κ} {K : Type ℓ} {V : Type κ} where
  -- Superblock `i` before the superblocks `bs`: the last one holds no nodes to release and pins
  -- nothing; each other one holds the nodes that its successor no longer reaches, and pins the
  -- successor.
  abbrev IsLinked : ℕ → Block K V → List (Block K V) → Type 0
  IsLinked i b [] = (b.last_seen ≡ none) × (b.pin_next ≡ none)
  IsLinked i b (c ∷ bs) = (is_some b.last_seen ≡ true) × (b.pin_next ≡ some (suc i))

  -- Superblock `i` is of transaction `base + i`.
  abbrev pub IsChained : ℕ → ℕ → List (Block K V) → Type 0
  IsChained base i [] = Unit
  IsChained base i (b ∷ bs) =
      (b.sblock.txid ≡ base + i) × IsLinked i b bs × IsChained base (suc i) bs

  -- The newest superblock.
  pub newest :
      (base i : ℕ) (bs : List (Block K V)) (idx : ℕ)
      → IsChained base i bs
      → idx + 1 ≡ length bs
      → (b : Block K V) × (get_elem? bs idx ≡ some b)
        × (b.sblock.txid ≡ base + i + idx)
        × (b.last_seen ≡ none)
        × (b.pin_next ≡ none)
  newest base i [] idx w e = absurd (omega arith)
  newest base i (b ∷ []) zero w e = (b, refl, w.0 ∙ omega arith, w.1.0, w.1.1)
  newest base i (b ∷ c ∷ bs) zero w e = absurd (omega arith)
  newest base i (b ∷ bs) (suc idx) w e =
      let (d, at, t, l, p) = newest base (suc i) bs idx w.2 (omega arith) in
      (d, at, t ∙ omega arith, l, p)

  pub txid_at :
      (base i : ℕ) (bs : List (Block K V)) (idx : ℕ) (b : Block K V)
      → IsChained base i bs
      → get_elem? bs idx ≡ some b
      → (b.sblock.txid ≡ base + i + idx) × (idx + 1 ≤ length bs)
  txid_at base i [] idx b w e = cc
  txid_at base i (x ∷ bs) zero b w e = (same x b e w.0, omega arith)
    where
      same :
          (x b : Block K V)
          → some x ≡ some b
          → x.sblock.txid ≡ base + i
          → b.sblock.txid ≡ base + i + 0
      same x b e t = let u : b.sblock.txid ≡ x.sblock.txid = cc in u ∙ t ∙ omega arith
  txid_at base i (x ∷ bs) (suc idx) b w e =
      let (t, l) = txid_at base (suc i) bs idx b w.2 e in (t ∙ omega arith, omega arith)

  linked :
      (i : ℕ) (b : Block K V) (bs : List (Block K V)) (idx : ℕ) (old new : Block K V)
      → IsLinked i b bs
      → idx + 1 ≡ length bs
      → IsLinked i b (set bs idx old ++ new ∷ [])
  unfolding set
  linked i b [] idx old new w e = absurd (omega arith)
  linked i b (c ∷ bs) zero old new w e = w
  linked i b (c ∷ bs) (suc idx) old new w e = w

  -- A new superblock at the end of the chain.
  pub chained :
      (base i : ℕ) (bs : List (Block K V)) (idx : ℕ) (old new : Block K V)
      → IsChained base i bs
      → idx + 1 ≡ length bs
      → old.sblock.txid ≡ base + i + idx
      → is_some old.last_seen ≡ true
      → old.pin_next ≡ some (i + length bs)
      → new.sblock.txid ≡ base + i + length bs
      → (new.last_seen ≡ none) × (new.pin_next ≡ none)
      → IsChained base i (set bs idx old ++ new ∷ [])
  unfolding set
  chained base i [] idx old new w e t s p t' n = absurd (omega arith)
  chained base i (b ∷ []) zero old new w e t s p t' n =
      (t ∙ omega arith, (s, p ∙ ap some (omega arith)), (t' ∙ omega arith, n, tt))
  chained base i (b ∷ c ∷ bs) zero old new w e t s p t' n = absurd (omega arith)
  chained base i (b ∷ bs) (suc idx) old new w e t s p t' n = (
    w.0,
    linked i b bs idx old new w.1 (omega arith),
    chained base (suc i) bs idx old new w.2 (omega arith) (t ∙ omega arith) s
        (p ∙ ap some (omega arith)) (t' ∙ omega arith) n,
  )

  -- Every superblock stays what it was.
  abbrev pub Keeps : List (Block K V) → List (Block K V) → Type (ℓ ⊔ κ)
  Keeps bs bs' =
      (i : ℕ) (b : Block K V)
      → get_elem? bs i ≡ some b
      → (b' : Block K V) × (get_elem? bs' i ≡ some b') × (b'.sblock ≡ b.sblock)

  pub Keeps-set :
      (bs : List (Block K V)) (idx : ℕ) (b old new : Block K V)
      → get_elem? bs idx ≡ some b
      → old.sblock ≡ b.sblock
      → Keeps bs (set bs idx old ++ new ∷ [])
  unfolding set
  Keeps-set [] idx b old new e s i c h = cc
  Keeps-set (x ∷ bs) zero b old new e s zero c h = (old, refl, cc)
  Keeps-set (x ∷ bs) zero b old new e s (suc i) c h =
      (c, get_elem?-append bs (new ∷ []) i c h, refl)
  Keeps-set (x ∷ bs) (suc idx) b old new e s zero c h = (c, h, refl)
  Keeps-set (x ∷ bs) (suc idx) b old new e s (suc i) c h = Keeps-set bs idx b old new e s i c h

  pub Keeps-refl : (bs : List (Block K V)) → Keeps bs bs
  Keeps-refl bs i b e = (b, e, refl)

  get_elem?-set_last :
      (bs : List (Block K V)) (idx : ℕ) (old new : Block K V)
      → get_elem? (set bs idx old ++ new ∷ []) (length bs) ≡ some new
  unfolding set
  get_elem?-set_last [] idx old new = refl
  get_elem?-set_last (x ∷ bs) zero old new = get_elem?-end bs new
  get_elem?-set_last (x ∷ bs) (suc idx) old new = get_elem?-set_last bs idx old new

  length-set_last :
      (bs : List (Block K V)) (idx : ℕ) (old new : Block K V)
      → length (set bs idx old ++ new ∷ []) ≡ length bs + 1
  unfolding set
  length-set_last [] idx old new = refl
  length-set_last (x ∷ bs) zero old new = omega (arith, length-append bs (new ∷ []))
  length-set_last (x ∷ bs) (suc idx) old new = omega (arith, length-set_last bs idx old new)

  -- The chain of a map, of which the newest superblock is the active one.
  pub record IsOrdered (base : ℕ) (m : BptreeMap K V) : Type 0 where
    pub chain : IsChained base 0 m.blocks
    pub last : m.active + 1 ≡ length m.blocks

  pub record Published (base : ℕ) (m : BptreeMap K V) (sb : SuperBlock K V) (m' : BptreeMap K V)
      : Type (ℓ ⊔ κ) where
    pub ordered : IsOrdered base m'
    pub keeps : Keeps m.blocks m'.blocks
    pub one_more : length m'.blocks ≡ length m.blocks + 1
    pub block : Block K V
    pub found : get_elem? m'.blocks m'.active ≡ some block
    pub stored : block.sblock ≡ sb

  -- The superblock of the next transaction goes to the end of the chain, and no assertion fails.
  pub publish-Published :
      (base : ℕ) (m : BptreeMap K V) (f : SuperBlock K V × List ℕ)
      → IsOrdered base m
      → f.0.txid ≡ base + length m.blocks
      → Ensures (Published base m f.0) (publish K V m (sealed K V f))
  unfolding publish commit_prep
  publish-Published base m f w e =
      let (b, at, t, l, p) = newest base 0 m.blocks m.active w.chain w.last in
      let old : Block K V = record b { last_seen = some f.1; pin_next = some (length m.blocks) } in
      let new : Block K V = record { sblock = f.0; last_seen = none; pin_next = none } in
      rw (at, l)
        record {
          ordered = record {
            chain =
                chained base 0 m.blocks m.active old new w.chain w.last t refl
                  (ap some (omega arith)) (e ∙ omega arith) (refl, refl);
            last = omega (arith, length-set_last m.blocks m.active old new);
          };
          keeps = Keeps-set m.blocks m.active b old new at refl;
          one_more = length-set_last m.blocks m.active old new;
          block = new;
          found = get_elem?-set_last m.blocks m.active old new;
          stored = refl;
        }
