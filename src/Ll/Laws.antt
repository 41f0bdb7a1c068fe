-- ===== src/Ll/Laws.antt =====
-- Which nodes a list has after its operations.
use concread.Ll.Order.{has, nodup, erase, is_last, append_n, extract, touch}
use concread.Prelude.{
  ℕ, suc, List, [], ◌∷◌, ◌++◌, true, false, ◌≡◌, refl, ◌==◌, if◌then◌else◌, length, Ensures,
  Bool-cases, inl, inr, arith, length-append,
}

pub has-append :
    (m n : ℕ) (xs : List ℕ) → has m (xs ++ n ∷ []) ≡ (if m == n then true else has m xs)
has-append m n [] = ground arith
has-append m n (x ∷ xs) = ground (arith, has-append m n xs)

pub nodup-append :
    (n : ℕ) (xs : List ℕ) → has n xs ≡ false → nodup xs ≡ true → nodup (xs ++ n ∷ []) ≡ true
nodup-append n [] out d = refl
nodup-append n (x ∷ xs) out d = ground (arith, nodup-append n xs, has-append x n xs)

pub has-erase :
    (m n : ℕ) (xs : List ℕ)
    → nodup xs ≡ true
    → has m (erase n xs) ≡ (if m == n then false else has m xs)
has-erase m n [] d = ground arith
has-erase m n (x ∷ xs) d = ground (arith, has-erase m n xs)

pub nodup-erase : (n : ℕ) (xs : List ℕ) → nodup xs ≡ true → nodup (erase n xs) ≡ true
nodup-erase n [] d = refl
nodup-erase n (x ∷ xs) d = ground (arith, nodup-erase n xs, has-erase x n xs)

pub length-erase : (n : ℕ) (xs : List ℕ) → has n xs ≡ true → length xs ≡ suc (length (erase n xs))
length-erase n [] e = cc
length-erase n (x ∷ xs) e = ground (arith, length-erase n xs)

pub length_of_has : (n : ℕ) (xs : List ℕ) → has n xs ≡ true → (length xs == 0) ≡ false
length_of_has n [] e = cc
length_of_has n (x ∷ xs) e = ground arith

pub has_of_is_last : (n : ℕ) (xs : List ℕ) → is_last n xs ≡ true → has n xs ≡ true
has_of_is_last n [] e = cc
has_of_is_last n (x ∷ []) e = ground arith
has_of_is_last n (x ∷ y ∷ xs) e = ground (arith, has_of_is_last n (y ∷ xs))

-- A list of which `n` was taken out.
pub record Extracted (n : ℕ) (xs ys : List ℕ) : Type 0 where
  pub others : (m : ℕ) → has m ys ≡ (if m == n then false else has m xs)
  pub distinct : nodup ys ≡ true
  pub one_less : length xs ≡ suc (length ys)

pub extract-Extracted :
    (n : ℕ) (xs : List ℕ)
    → nodup xs ≡ true
    → has n xs ≡ true
    → Ensures (Extracted n xs) (extract n xs)
unfolding extract
extract-Extracted n xs d e = rw e record {
  others = λ m. has-erase m n xs d;
  distinct = nodup-erase n xs d;
  one_less = length-erase n xs e;
}

-- A list of the same nodes in another order.
pub record Touched (xs ys : List ℕ) : Type 0 where
  pub members : (m : ℕ) → has m ys ≡ has m xs
  pub distinct : nodup ys ≡ true
  pub as_long : length ys ≡ length xs

pub touch-Touched :
    (n : ℕ) (xs : List ℕ) → nodup xs ≡ true → has n xs ≡ true → Ensures (Touched xs) (touch n xs)
unfolding touch extract append_n
touch-Touched n xs d e = elim (Bool-cases (is_last n xs)) [
  | inl l ↦ rw l record { members = λ m. refl; distinct = d; as_long = refl }
  | inr l ↦
      rw (l, e)
        record {
          members = λ m. ground (arith, has-append m n (erase n xs), has-erase m n xs d);
          distinct =
              nodup-append n (erase n xs) (ground (arith, has-erase n n xs d)) (nodup-erase n xs d);
          as_long = omega (arith, length-append (erase n xs) (n ∷ []), length-erase n xs e);
        }
]
