-- ===== src/Ll/Order.antt =====
-- What src/arcache/ll.rs does to a list, seen as its nodes from the head to the tail.
use concread.Prelude.{
  ℕ, List, [], ◌∷◌, ◌++◌, Bool, true, false, Option, none, some, ◌>>=◌, ◌==◌, ◌||◌, ◌&&◌, not,
  if◌then◌else◌,
}

abbrev pub has : ℕ → List ℕ → Bool
has n [] = false
has n (x ∷ xs) = (n == x) || has n xs

abbrev pub nodup : List ℕ → Bool
nodup [] = true
nodup (x ∷ xs) = not (has x xs) && nodup xs

abbrev pub erase : ℕ → List ℕ → List ℕ
erase n [] = []
erase n (x ∷ xs) = let rest = erase n xs in if n == x then xs else x ∷ rest

abbrev pub is_last : ℕ → List ℕ → Bool
is_last n [] = false
is_last n (x ∷ []) = n == x
is_last n (x ∷ y ∷ xs) = is_last n (y ∷ xs)

unfoldable pub append_n : ℕ → List ℕ → List ℕ
append_n n xs = xs ++ n ∷ []

-- A node that is not in the list is a failed assertion.
unfoldable pub extract : ℕ → List ℕ → Option (List ℕ)
extract n xs = if has n xs then some (erase n xs) else none

unfoldable pub touch : ℕ → List ℕ → Option (List ℕ)
touch n xs = if is_last n xs then some xs else do ys ← extract n xs; some (append_n n ys)

unfoldable pub pop : List ℕ → Option (ℕ × List ℕ)
pop [] = none
pop (x ∷ xs) = some (x, xs)
