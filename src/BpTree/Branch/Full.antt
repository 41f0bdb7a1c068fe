-- ===== src/BpTree/Branch/Full.antt =====
-- A full branch that takes one more child: its first seven nodes stay, the last two split off.
use concread.BpTree.Branch.{Branch, node_at, add_node_full}
use concread.BpTree.States.{BranchInsertState}
use concread.Prelude.{
  ℕ, zero, suc, ◌≤◌, List, [], ◌∷◌, ◌++◌, ◌≡◌, refl, arith, length, Option, some,
}
use concread.Slice.{slice_insert}

module _ {ℓ} {A : Type ℓ} where
  pub list_of_seven :
      (xs : List A) → length xs ≡ 7 → (a b c d e f g : A) × (xs ≡ a ∷ b ∷ c ∷ d ∷ e ∷ f ∷ g ∷ [])
  list_of_seven (a ∷ b ∷ c ∷ d ∷ e ∷ f ∷ g ∷ []) h = (a, b, c, d, e, f, g, refl)
  list_of_seven _ h = absurd (omega arith)

-- `rest` with one more child, cut into what stays and the two nodes that split off.
pub record Cut {ℓ κ} {K : Type ℓ} {A : Type κ} (all kept : List (K × A)) (l r : A)
    : Type (ℓ ⊔ κ) where
  pub left_key : K
  pub right_key : K
  pub whole : all ≡ kept ++ (left_key, l) ∷ (right_key, r) ∷ []
  pub length_kept : length kept ≡ 6

module _ {ℓ κ} {K : Type ℓ} {A : Type κ} (n t : ℕ) (f : A) where
  abbrev branch : List (K × A) → Branch K A
  branch rest = record { nid = n; txid = t; first = f; rest = rest }

  abbrev pub IsCut : List (K × A) → Option (Branch K A × BranchInsertState A) → Type (ℓ ⊔ κ)
  IsCut all out =
      (kept : List (K × A)) × (l r : A) × (out ≡ some (branch kept, BranchInsertState.split l r))
      × Cut all kept l r

  IsCut-seven :
      (a b c d e g h : K × A) (node : A) (kr : K) (idx : ℕ)
      → idx ≤ 7
      → let rest = a ∷ b ∷ c ∷ d ∷ e ∷ g ∷ h ∷ [] in
        IsCut (slice_insert rest (kr, node) idx) (add_node_full (branch rest) node kr idx)
  unfolding add_node_full node_at slice_insert
  IsCut-seven a b c d e g h node kr zero le = (
    (kr, node) ∷ a ∷ b ∷ c ∷ d ∷ e ∷ [],
    g.1,
    h.1,
    refl,
    record { left_key = g.0; right_key = h.0; whole = refl; length_kept = refl },
  )
  IsCut-seven a b c d e g h node kr (suc zero) le = (
    a ∷ (kr, node) ∷ b ∷ c ∷ d ∷ e ∷ [],
    g.1,
    h.1,
    refl,
    record { left_key = g.0; right_key = h.0; whole = refl; length_kept = refl },
  )
  IsCut-seven a b c d e g h node kr (suc (suc zero)) le = (
    a ∷ b ∷ (kr, node) ∷ c ∷ d ∷ e ∷ [],
    g.1,
    h.1,
    refl,
    record { left_key = g.0; right_key = h.0; whole = refl; length_kept = refl },
  )
  IsCut-seven a b c d e g h node kr (suc (suc (suc zero))) le = (
    a ∷ b ∷ c ∷ (kr, node) ∷ d ∷ e ∷ [],
    g.1,
    h.1,
    refl,
    record { left_key = g.0; right_key = h.0; whole = refl; length_kept = refl },
  )
  IsCut-seven a b c d e g h node kr (suc (suc (suc (suc zero)))) le = (
    a ∷ b ∷ c ∷ d ∷ (kr, node) ∷ e ∷ [],
    g.1,
    h.1,
    refl,
    record { left_key = g.0; right_key = h.0; whole = refl; length_kept = refl },
  )
  IsCut-seven a b c d e g h node kr (suc (suc (suc (suc (suc zero))))) le = (
    a ∷ b ∷ c ∷ d ∷ e ∷ (kr, node) ∷ [],
    g.1,
    h.1,
    refl,
    record { left_key = g.0; right_key = h.0; whole = refl; length_kept = refl },
  )
  IsCut-seven a b c d e g h node kr (suc (suc (suc (suc (suc (suc zero)))))) le = (
    a ∷ b ∷ c ∷ d ∷ e ∷ g ∷ [],
    node,
    h.1,
    refl,
    record { left_key = kr; right_key = h.0; whole = refl; length_kept = refl },
  )
  IsCut-seven a b c d e g h node kr (suc (suc (suc (suc (suc (suc (suc zero))))))) le = (
    a ∷ b ∷ c ∷ d ∷ e ∷ g ∷ [],
    h.1,
    node,
    refl,
    record { left_key = h.0; right_key = kr; whole = refl; length_kept = refl },
  )
  IsCut-seven a b c d e g h node kr (suc (suc (suc (suc (suc (suc (suc (suc idx)))))))) le =
      absurd (omega arith)

  -- A full branch that takes one more child, at any index, keeps the first seven nodes of what it
  -- then holds, in order, and splits off the last two.
  pub add_node_full-Cut :
      (rest : List (K × A)) (node : A) (kr : K) (idx : ℕ)
      → length rest ≡ 7
      → idx ≤ 7
      → IsCut (slice_insert rest (kr, node) idx) (add_node_full (branch rest) node kr idx)
  add_node_full-Cut rest node kr idx len le =
      let (a, b, c, d, e, g, h, is) = list_of_seven rest len in
      rw is (IsCut-seven a b c d e g h node kr idx le)
