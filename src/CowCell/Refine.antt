-- ===== src/CowCell/Refine.antt =====
-- src/cowcell/mod.rs: the interleavings of readers and writers against the specification.
use concread.CowCell.{
  CowCell, CowCellReadTxn, CowCellWriteTxn, new, read, write, try_write, commit, publish, unlock,
  get_mut, copied, work_or, deref_read, deref_write,
}
use concread.CowCell.Spec.{Spec, SpecOp, open_draft, without, answer, answers}
use concread.CowCell.System.{
  System, Step, begin_read, clone_read, end_read, begin_write, change, rollback, commit_write,
  Reach, start, later, asked, history,
}
use concread.CowCell.Views.{
  IsDraft, Snapshots, Views, IsDraft-Drafted, IsDraft-none, Snapshots-Split, Snapshots-kept,
}
use mathlib.Core.Option
use concread.Prelude.{
  List, [], ◌∷◌, ◌++◌, true, false, Option, none, some, ◌≡◌, refl, ap, subst, sym, ◌∙◌, get_elem?,
  get_elem?-append, get_elem?-end, Ensures, Ensures-some, Ensures-imp, Ensures-bind, length,
  Option-cases, Bool-cases, inl, inr, ◌⊎◌, ◌≢◌,
}

module _ {ℓ} {A : Type ℓ} where
  -- What a write through `get_mut` gives a transaction that sees `x`.
  abbrev pub IsEdit : CowCell A → (A → A) → CowCellWriteTxn A → A → CowCellWriteTxn A → Type ℓ
  IsEdit c f t x u = (u.read ≡ t.read) × (deref_write c u ≡ some (f x))

  sees_none :
      (c : CowCell A) (t : CowCellWriteTxn A) (x : A)
      → t.work ≡ none
      → deref_write c t ≡ some x
      → get_elem? c.values t.read ≡ some x
  unfolding deref_write
  sees_none c t x p e = subst (λ w. work_or w (get_elem? c.values t.read) ≡ some x) p e

  sees_some :
      (c : CowCell A) (t : CowCellWriteTxn A) (x v : A)
      → t.work ≡ some v
      → deref_write c t ≡ some x
      → some v ≡ some x
  unfolding deref_write
  sees_some c t x v p e = subst (λ w. work_or w (get_elem? c.values t.read) ≡ some x) p e

  get_mut-IsEdit :
      (c : CowCell A) (f : A → A) (t : CowCellWriteTxn A) (x : A)
      → deref_write c t ≡ some x
      → Ensures (IsEdit c f t x) (get_mut c f t)
  unfolding get_mut copied deref_write
  get_mut-IsEdit c f t x e = elim (Option-cases t.work) [
    | inl p ↦ rw (p, sees_none c t x p e) (refl, refl)
    | inr (v, p) ↦ rw p (refl, ap (Option.map f) (sees_some c t x v p e))
  ]

  publish-current :
      (c : CowCell A) (t : CowCellWriteTxn A) (x : A)
      → t.read ≡ c.active
      → deref_write c t ≡ some x
      → get_elem? (publish c t.work).values (publish c t.work).active ≡ some x
  unfolding publish deref_write
  publish-current c t x b e = elim (Option-cases t.work) [
    | inl p ↦ rw p (ap (get_elem? c.values) (sym b) ∙ sees_none c t x p e)
    | inr (v, p) ↦ rw p (get_elem?-end c.values v ∙ sees_some c t x v p e)
  ]

  -- No commit takes a value from a reader.
  publish-kept :
      (c : CowCell A) (nd : Option A) (r : CowCellReadTxn) (x : A)
      → deref_read c r ≡ some x
      → deref_read (publish c nd) r ≡ some x
  unfolding publish deref_read
  publish-kept c none r x e = e
  publish-kept c (some nd) r x e = get_elem?-append c.values (nd ∷ []) r.value x e

  -- The specification answers, and the cell shows its answer.
  abbrev Follows : System A → SpecOp A → Spec A → Type ℓ
  Follows s o a = Ensures (Views s) (answer o a)

  readers-Views :
      (s : System A) (a : Spec A) (rs : List CowCellReadTxn) (zs : List A)
      → Views s a
      → Snapshots s.cell rs zs
      → Views (record s { readers = rs }) (record a { snapshots = zs })
  readers-Views s a rs zs w k = record { current = w.current; draft = w.draft; snapshots = k }

  open_draft-answer :
      (a : Spec A)
      → a.draft ≡ none
      → answer open_draft a ≡ some (record a { draft = some a.current })
  open_draft-answer a e = rw e refl

  -- Every step of the cell is the one that it asks of the specification.
  Step-Follows : {s t : System A} {a : Spec A} (st : Step s t) → Views s a → Follows t (asked st) a
  unfolding read write commit unlock deref_read deref_write
  Step-Follows {s} {a = a} begin_read w =
      readers-Views s a _ (a.current ∷ a.snapshots) w (w.current, w.snapshots)
  Step-Follows {s} {a = a} (clone_read xs ys r e) w =
      let p =
        Snapshots-Split s.cell xs ys r a.snapshots
          (subst (λ rs. Snapshots s.cell rs a.snapshots) e w.snapshots) in
      rw p.at (readers-Views s a _ (p.value ∷ a.snapshots) w (p.sees, w.snapshots))
  Step-Follows {s} {a = a} (end_read xs ys r e) w =
      let p =
        Snapshots-Split s.cell xs ys r a.snapshots
          (subst (λ rs. Snapshots s.cell rs a.snapshots) e w.snapshots) in
      rw p.at (readers-Views s a _ (without (length xs) a.snapshots) w p.others)
  Step-Follows {s} {a = a} (begin_write free) w =
      let (no_writer, no_draft) = IsDraft-none s.cell s.writers a.draft free w.draft in
      rw (open_draft-answer a no_draft) record {
        current = w.current;
        draft = rw no_writer (refl, refl, w.current);
        snapshots =
            Snapshots-kept s.cell (write s.cell).0 (λ r x e. e) s.readers a.snapshots w.snapshots;
      }
  Step-Follows {s} {a = a} (change xs ys t u f e g) w =
      let p =
        IsDraft-Drafted s.cell xs ys t a.draft
          (subst (λ ts. IsDraft s.cell ts a.draft) e w.draft) in
      let q =
        Ensures-some (IsEdit s.cell f t p.value) (get_mut s.cell f t) u
          (get_mut-IsEdit s.cell f t p.value p.sees) g in
      rw p.drafted record {
        current = w.current;
        draft = rw (p.before, p.after) (p.locked, q.0 ∙ p.began, q.1);
        snapshots = w.snapshots;
      }
  Step-Follows {s} {a = a} (rollback xs ys t e) w =
      let p =
        IsDraft-Drafted s.cell xs ys t a.draft
          (subst (λ ts. IsDraft s.cell ts a.draft) e w.draft) in
      rw p.drafted record {
        current = w.current;
        draft = rw (p.before, p.after) (refl, refl);
        snapshots =
            Snapshots-kept s.cell (unlock s.cell) (λ r x e. e) s.readers a.snapshots w.snapshots;
      }
  Step-Follows {s} {a = a} (commit_write xs ys t e) w =
      let p =
        IsDraft-Drafted s.cell xs ys t a.draft
          (subst (λ ts. IsDraft s.cell ts a.draft) e w.draft) in
      rw p.drafted record {
        current = publish-current s.cell t p.value p.began p.sees;
        draft = rw (p.before, p.after) (refl, refl);
        snapshots =
            Snapshots-kept s.cell (commit s.cell t) (publish-kept s.cell t.work) s.readers
              a.snapshots w.snapshots;
      }

  -- In every interleaving of readers and writers of a cell, the specification answers everything that
  -- the steps ask of it, and the cell shows the answer to that history: the active value is the
  -- current one; a writer is open exactly if there is a draft, is the only one, holds the lock, and
  -- sees the draft; and each reader sees its snapshot, taken from the value that was current when it
  -- began.
  pub Reach-Views :
      {x : A} {s : System A} (r : Reach x s) → Ensures (Views s) (answers x (history r))
  unfolding new
  Reach-Views start = record { current = refl; draft = (refl, refl); snapshots = tt }
  Reach-Views {x} {s} (later r st) =
      Ensures-bind (Views _) (Views s) (answers x (history r)) (answer (asked st)) (Reach-Views r)
        λ a e w. Step-Follows st w

  -- The state of the specification after the history.
  Reach-Spec : {x : A} {s : System A} → Reach x s → (a : Spec A) × Views s a
  Reach-Spec {x} {s} r = some_answer (answers x (history r)) (Reach-Views r)
    where
      some_answer : (o : Option (Spec A)) → Ensures (Views s) o → (a : Spec A) × Views s a
      some_answer none w = elim w [ ]
      some_answer (some a) w = (a, w)

  -- In a reachable state get_mut of an open writer does not panic, and the transaction then sees what
  -- was written to the value that it saw.
  pub get_mut-deref_write :
      {x : A} {s : System A} (xs ys : List (CowCellWriteTxn A)) (t : CowCellWriteTxn A) (f : A → A)
      → Reach x s
      → s.writers ≡ xs ++ t ∷ ys
      → Ensures
          (λ u. deref_write s.cell u ≡ Option.map f (deref_write s.cell t))
          (get_mut s.cell f t)
  get_mut-deref_write {s = s} xs ys t f reach e =
      let (a, w) = Reach-Spec reach in
      let p =
        IsDraft-Drafted s.cell xs ys t a.draft
          (subst (λ ts. IsDraft s.cell ts a.draft) e w.draft) in
      Ensures-imp (IsEdit s.cell f t p.value) _ (get_mut s.cell f t)
        (get_mut-IsEdit s.cell f t p.value p.sees) λ u q. q.1 ∙ ap (Option.map f) (sym p.sees)

  -- In a reachable state try_write gives a writer exactly if no writer is open, which sees the active
  -- value, and else leaves the cell as it was.
  pub try_write-deref_write :
      {x : A} {s : System A}
      → Reach x s
      → ((s.writers ≡ [])
          × (t : CowCellWriteTxn A) × ((try_write s.cell).1 ≡ some t)
          × (deref_write (try_write s.cell).0 t ≡ deref_read s.cell (read s.cell)))
        ⊎ ((s.writers ≢ []) × (try_write s.cell ≡ (s.cell, none)))
  unfolding try_write write read deref_read deref_write
  try_write-deref_write {s = s} reach =
      let (a, w) = Reach-Spec reach in
      elim (Bool-cases s.cell.locked) [
        | inl e ↦ inr (
          (λ n.
              let d = subst (λ ts. IsDraft s.cell ts a.draft) n w.draft in
              let no : true ≡ false = sym e ∙ d.0 in absurd cc),
          rw e refl,
        )
        | inr e ↦ inl (
          (IsDraft-none s.cell s.writers a.draft e w.draft).0,
          (write s.cell).1,
          rw e refl,
          rw e refl,
        )
      ]
