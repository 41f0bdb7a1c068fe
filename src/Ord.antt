-- ===== src/Ord.antt =====
-- The bound `K: Ord`: a three-way comparison with the laws that the trait documents. `Equal` is
-- read as equality.
use Prim.Native.Nat.{compare, Ordering}
use Prim.Native.Nat.Ordering.{lt, eq, gt}
use concread.Prelude.{ℕ, ◌≡◌, arith, Bool, true, false}

pub record Ord {ℓ} (K : Type ℓ) : Type ℓ where
  -- `self.cmp(other)`
  pub cmp : K → K → Ordering
  -- strictly below is transitive
  pub lt_trans : (x y z : K) → cmp x y ≡ lt → cmp y z ≡ lt → cmp x z ≡ lt
  -- the two strict answers are each other's converse
  pub gt_of_lt : (x y : K) → cmp x y ≡ lt → cmp y x ≡ gt
  pub lt_of_gt : (x y : K) → cmp x y ≡ gt → cmp y x ≡ lt
  -- the answer `Equal` and equality agree
  pub eq_of_cmp : (x y : K) → cmp x y ≡ eq → x ≡ y
  pub cmp_refl : (x : K) → cmp x x ≡ eq
  -- what the slot of a key holds once the key was dropped in it
  pub dropped : K → K

-- Keys without a destructor, whose slots hold them still.
abbrev pub IsPlain {ℓ} : (K : Type ℓ) ⦃o : Ord K⦄ → Type ℓ
IsPlain K ⦃o⦄ = (k : K) → o.dropped k ≡ k

pub nat_trans : (x y z : ℕ) → compare x y ≡ lt → compare y z ≡ lt → compare x z ≡ lt
nat_trans x y z p q = ground arith

pub nat_swap : (x y : ℕ) → compare x y ≡ lt → compare y x ≡ gt
nat_swap x y p = ground arith

pub nat_swap_back : (x y : ℕ) → compare x y ≡ gt → compare y x ≡ lt
nat_swap_back x y p = ground arith

pub nat_same : (x y : ℕ) → compare x y ≡ eq → x ≡ y
nat_same x y p = ground arith

pub nat_self : (x : ℕ) → compare x x ≡ eq
nat_self x = ground arith

instance abbrev pub nat_ord : Ord ℕ
nat_ord = record {
  cmp = compare;
  lt_trans = nat_trans;
  gt_of_lt = nat_swap;
  lt_of_gt = nat_swap_back;
  eq_of_cmp = nat_same;
  cmp_refl = nat_self;
  dropped = λ n. n;
}

-- The comparison does not answer `Greater`.
abbrev pub not_gt : Ordering → Bool
not_gt gt = false
not_gt _ = true

infix 50 ◌≺◌ ◌≼◌
abbrev pub ◌≺◌ {ℓ} : {K : Type ℓ} ⦃o : Ord K⦄ → K → K → Type 0
◌≺◌ ⦃o⦄ a b = o.cmp a b ≡ lt

abbrev pub ◌≼◌ {ℓ} : {K : Type ℓ} ⦃o : Ord K⦄ → K → K → Type 0
◌≼◌ ⦃o⦄ a b = not_gt (o.cmp a b) ≡ true

module _ {ℓ} {K : Type ℓ} ⦃o : Ord K⦄ where
  pub le_of_lt : (a b : K) → a ≺ b → a ≼ b
  le_of_lt a b h = ground arith

  pub le_refl : (a : K) → a ≼ a
  le_refl a = ground (arith, o.cmp_refl a)

  pub lt_le_trans : (a b c : K) → a ≺ b → b ≼ c → a ≺ c
  lt_le_trans a b c p q = ground (arith, o.lt_trans a b c, o.eq_of_cmp b c)

  pub le_lt_trans : (a b c : K) → a ≼ b → b ≺ c → a ≺ c
  le_lt_trans a b c p q = ground (arith, o.lt_trans a b c, o.eq_of_cmp a b)

  pub le_trans : (a b c : K) → a ≼ b → b ≼ c → a ≼ c
  le_trans a b c p q = ground (arith, o.lt_trans a b c, o.eq_of_cmp a b, o.eq_of_cmp b c)

  pub le_of_not_lt : (a b : K) → o.cmp a b ≡ gt → b ≼ a
  le_of_not_lt a b h = ground (arith, o.lt_of_gt a b)
