-- ===== src/CowCell/Spec.antt =====
-- What src/cowcell/mod.rs promises: one current value, one draft at most, and snapshots that nothing
-- changes.
use concread.Prelude.{ℕ, zero, suc, List, [], ◌∷◌, Option, none, some, ◌>>=◌, get_elem?}

pub record Spec {ℓ} (A : Type ℓ) : Type ℓ where
  pub current : A
  pub draft : Option A
  pub snapshots : List A

-- What is asked of the cell; a snapshot is named by its place, the last one taken first.
pub data SpecOp {ℓ} (A : Type ℓ) : Type ℓ where
  see : SpecOp A
  copy : ℕ → SpecOp A
  forget : ℕ → SpecOp A
  open_draft : SpecOp A
  edit : (A → A) → SpecOp A
  discard : SpecOp A
  replace : SpecOp A

module _ {ℓ} {A : Type ℓ} where
  abbrev pub without : ℕ → List A → List A
  without n [] = []
  without zero (x ∷ xs) = xs
  without (suc n) (x ∷ xs) = x ∷ without n xs

  -- The answer to each; `none` if it may not be asked.
  abbrev pub answer : SpecOp A → Spec A → Option (Spec A)
  answer see a = some (record a { snapshots = a.current ∷ a.snapshots })
  answer (copy n) a = do
    x ← get_elem? a.snapshots n
    some (record a { snapshots = x ∷ a.snapshots })
  answer (forget n) a = do
    x ← get_elem? a.snapshots n
    some (record a { snapshots = without n a.snapshots })
  answer open_draft a = elim a.draft [
    | none ↦ some (record a { draft = some a.current })
    | some x ↦ none
  ]
  answer (edit f) a = do x ← a.draft; some (record a { draft = some (f x) })
  answer discard a = do x ← a.draft; some (record a { draft = none })
  answer replace a = do x ← a.draft; some (record a { current = x; draft = none })

  -- The answer to a history, of which the last request comes first, from the value `x` on.
  abbrev pub answers : A → List (SpecOp A) → Option (Spec A)
  answers x [] = some (record { current = x; draft = none; snapshots = [] })
  answers x (o ∷ os) = do a ← answers x os; answer o a
