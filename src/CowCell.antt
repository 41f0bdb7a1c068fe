-- ===== src/CowCell.antt =====
-- src/cowcell/mod.rs: a value behind a lock for writers, of which readers hold the generation that
-- was active when they began.
pub mod System
pub mod Spec
pub mod Views
pub mod Refine
pub mod Tests
use concread.Prelude.{
  ℕ, List, [], ◌∷◌, ◌++◌, Bool, true, false, Option, none, some, ◌>>=◌, length, get_elem?,
  if◌then◌else◌, is_some,
}

-- The values that were put behind an `Arc`, in the order of their allocation; an `Arc` is the place
-- of its value. `locked` is the lock `write`.
pub record CowCell {ℓ} (A : Type ℓ) : Type ℓ where
  pub locked : Bool
  pub active : ℕ
  pub values : List A

pub record CowCellReadTxn : Type 0 where
  pub value : ℕ

pub record CowCellWriteTxn {ℓ} (A : Type ℓ) : Type ℓ where
  pub work : Option A
  pub read : ℕ

module _ {ℓ} {A : Type ℓ} where
  unfoldable pub new : A → CowCell A
  new first = record { locked = false; active = 0; values = first ∷ [] }

  unfoldable pub read : CowCell A → CowCellReadTxn
  read c = record { value = c.active }

  -- The lock is free.
  unfoldable pub write : CowCell A → CowCell A × CowCellWriteTxn A
  write c = (record c { locked = true }, record { work = none; read = c.active })

  unfoldable pub try_write : CowCell A → CowCell A × Option (CowCellWriteTxn A)
  try_write c = if c.locked then (c, none) else ((write c).0, some (write c).1)

  unfoldable pub publish : CowCell A → Option A → CowCell A
  publish c none = c
  publish c (some nd) = record c { active = length c.values; values = c.values ++ nd ∷ [] }

  -- The guard of the lock is dropped with the transaction.
  unfoldable pub unlock : CowCell A → CowCell A
  unlock c = record c { locked = false }

  unfoldable pub commit : CowCell A → CowCellWriteTxn A → CowCell A
  commit c t = unlock (publish c t.work)

  unfoldable pub deref_read : CowCell A → CowCellReadTxn → Option A
  deref_read c r = get_elem? c.values r.value

  abbrev pub work_or : Option A → Option A → Option A
  work_or (some v) r = some v
  work_or none r = r

  unfoldable pub deref_write : CowCell A → CowCellWriteTxn A → Option A
  deref_write c t = work_or t.work (get_elem? c.values t.read)

  -- The copy that the first `get_mut` of a transaction makes.
  unfoldable pub copied : CowCell A → CowCellWriteTxn A → Option (CowCellWriteTxn A)
  copied c t =
      if is_some t.work
      then some t
      else do v ← get_elem? c.values t.read; some (record t { work = some v })

  -- `get_mut`, and a write of `f` through the reference that it returns.
  unfoldable pub get_mut : CowCell A → (A → A) → CowCellWriteTxn A → Option (CowCellWriteTxn A)
  get_mut c f t = do u ← copied c t; v ← u.work; some (record u { work = some (f v) })
