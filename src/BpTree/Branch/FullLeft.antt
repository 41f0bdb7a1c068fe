-- ===== src/BpTree/Branch/FullLeft.antt =====
-- A full branch that takes one more child to the left of another one.
use concread.BpTree.Branch.{node_at, splice, insert_left, add_node_left}
use concread.BpTree.Branch.Full.{Cut, list_of_seven}
use concread.BpTree.States.{BranchInsertState}
use concread.Ord.{Ord}
use concread.Prelude.{
  ℕ, zero, suc, ◌≤◌, List, [], ◌∷◌, ◌++◌, ◌≡◌, refl, arith, length, Option, some, ◌>>=◌,
}
use concread.Slice.{slice_insert}

-- What stays, or what stays with its last separator moved up to the least key of the last node.
pub data Rekeyed {ℓ κ} {K : Type ℓ} {A : Type κ} (lk : K) (l : A) (kept kept' : List (K × A))
    : Type (ℓ ⊔ κ) where
  same : kept' ≡ kept → Rekeyed lk l kept kept'
  last :
      (front : List (K × A)) (j : K)
      → kept ≡ front ++ (j, l) ∷ []
      → kept' ≡ front ++ (lk, l) ∷ []
      → Rekeyed lk l kept kept'

module _ {ℓ κ} {K : Type ℓ} {A : Type κ} ⦃o : Ord K⦄ (min : A → Option K) (n t : ℕ) (f l : A)
    (nkey lk : K) where
  pub record IsCutLeft (rest : List (K × A)) (idx : ℕ) : Type (ℓ ⊔ κ) where
    pub sib : A
    pub kept : List (K × A)
    pub kept' : List (K × A)
    pub left : A
    pub right : A
    pub found : node_at f rest idx ≡ some sib
    pub out :
        add_node_left min (record { nid = n; txid = t; first = f; rest = rest }) l idx
        ≡ some (
          record {
            nid = n;
            txid = t;
            first = (splice f rest idx l ((nkey, sib) ∷ [])).0;
            rest = kept';
          },
          BranchInsertState.split left right,
        )
    pub cut : Cut (splice f rest idx l ((nkey, sib) ∷ [])).1 kept left right
    pub rekeyed : Rekeyed lk l kept kept'

  IsCut-seven :
      (a b c d e g h : K × A) (idx : ℕ)
      → idx ≤ 7
      → min l ≡ some lk
      → (node_at f (a ∷ b ∷ c ∷ d ∷ e ∷ g ∷ h ∷ []) idx >>= min) ≡ some nkey
      → IsCutLeft (a ∷ b ∷ c ∷ d ∷ e ∷ g ∷ h ∷ []) idx
  unfolding node_at splice insert_left add_node_left slice_insert
  IsCut-seven a b c d e g h zero le min_l sib_key = record {
    sib = f;
    kept = (nkey, f) ∷ a ∷ b ∷ c ∷ d ∷ e ∷ [];
    kept' = (nkey, f) ∷ a ∷ b ∷ c ∷ d ∷ e ∷ [];
    left = g.1;
    right = h.1;
    found = refl;
    out = rw sib_key;
    cut = record { left_key = g.0; right_key = h.0; whole = refl; length_kept = refl };
    rekeyed = same refl;
  }
  IsCut-seven a b c d e g h (suc zero) le min_l sib_key = record {
    sib = a.1;
    kept = (a.0, l) ∷ (nkey, a.1) ∷ b ∷ c ∷ d ∷ e ∷ [];
    kept' = (a.0, l) ∷ (nkey, a.1) ∷ b ∷ c ∷ d ∷ e ∷ [];
    left = g.1;
    right = h.1;
    found = refl;
    out = rw sib_key;
    cut = record { left_key = g.0; right_key = h.0; whole = refl; length_kept = refl };
    rekeyed = same refl;
  }
  IsCut-seven a b c d e g h (suc (suc zero)) le min_l sib_key = record {
    sib = b.1;
    kept = a ∷ (b.0, l) ∷ (nkey, b.1) ∷ c ∷ d ∷ e ∷ [];
    kept' = a ∷ (b.0, l) ∷ (nkey, b.1) ∷ c ∷ d ∷ e ∷ [];
    left = g.1;
    right = h.1;
    found = refl;
    out = rw sib_key;
    cut = record { left_key = g.0; right_key = h.0; whole = refl; length_kept = refl };
    rekeyed = same refl;
  }
  IsCut-seven a b c d e g h (suc (suc (suc zero))) le min_l sib_key = record {
    sib = c.1;
    kept = a ∷ b ∷ (c.0, l) ∷ (nkey, c.1) ∷ d ∷ e ∷ [];
    kept' = a ∷ b ∷ (c.0, l) ∷ (nkey, c.1) ∷ d ∷ e ∷ [];
    left = g.1;
    right = h.1;
    found = refl;
    out = rw sib_key;
    cut = record { left_key = g.0; right_key = h.0; whole = refl; length_kept = refl };
    rekeyed = same refl;
  }
  IsCut-seven a b c d e g h (suc (suc (suc (suc zero)))) le min_l sib_key = record {
    sib = d.1;
    kept = a ∷ b ∷ c ∷ (d.0, l) ∷ (nkey, d.1) ∷ e ∷ [];
    kept' = a ∷ b ∷ c ∷ (d.0, l) ∷ (nkey, d.1) ∷ e ∷ [];
    left = g.1;
    right = h.1;
    found = refl;
    out = rw sib_key;
    cut = record { left_key = g.0; right_key = h.0; whole = refl; length_kept = refl };
    rekeyed = same refl;
  }
  IsCut-seven a b c d e g h (suc (suc (suc (suc (suc zero))))) le min_l sib_key = record {
    sib = e.1;
    kept = a ∷ b ∷ c ∷ d ∷ (e.0, l) ∷ (nkey, e.1) ∷ [];
    kept' = a ∷ b ∷ c ∷ d ∷ (e.0, l) ∷ (nkey, e.1) ∷ [];
    left = g.1;
    right = h.1;
    found = refl;
    out = rw sib_key;
    cut = record { left_key = g.0; right_key = h.0; whole = refl; length_kept = refl };
    rekeyed = same refl;
  }
  IsCut-seven a b c d e g h (suc (suc (suc (suc (suc (suc zero)))))) le min_l sib_key = record {
    sib = g.1;
    kept = a ∷ b ∷ c ∷ d ∷ e ∷ (g.0, l) ∷ [];
    kept' = a ∷ b ∷ c ∷ d ∷ e ∷ (lk, l) ∷ [];
    left = g.1;
    right = h.1;
    found = refl;
    out = rw min_l;
    cut = record { left_key = nkey; right_key = h.0; whole = refl; length_kept = refl };
    rekeyed = last (a ∷ b ∷ c ∷ d ∷ e ∷ []) g.0 refl refl;
  }
  IsCut-seven a b c d e g h (suc (suc (suc (suc (suc (suc (suc zero))))))) le min_l sib_key =
      record {
        sib = h.1;
        kept = a ∷ b ∷ c ∷ d ∷ e ∷ g ∷ [];
        kept' = a ∷ b ∷ c ∷ d ∷ e ∷ g ∷ [];
        left = l;
        right = h.1;
        found = refl;
        out = refl;
        cut = record { left_key = h.0; right_key = nkey; whole = refl; length_kept = refl };
        rekeyed = same refl;
      }
  IsCut-seven a b c d e g h (suc (suc (suc (suc (suc (suc (suc (suc idx)))))))) le min_l sib_key =
      absurd (omega arith)

  -- A full branch that takes a child to the left of the one at `idx` keeps the first seven nodes of
  -- what it then holds and splits off the last two; at most the key of the new child is recomputed
  -- from it.
  pub add_node_left-IsCutLeft :
      (rest : List (K × A)) (idx : ℕ)
      → length rest ≡ 7
      → idx ≤ 7
      → min l ≡ some lk
      → (node_at f rest idx >>= min) ≡ some nkey
      → IsCutLeft rest idx
  add_node_left-IsCutLeft rest idx len le min_l sib_key =
      let (a, b, c, d, e, g, h, is) = list_of_seven rest len in
      rw is (IsCut-seven a b c d e g h idx le min_l (rw is at sib_key))
