-- ===== src/Arc/Overflow.antt =====
-- src/arcache/mod.rs: an eviction that subtracts too much.
use concread.Arc.{Arc, rec_ll, freq_ll, ll_len}
use concread.Arc.Evict.{debug_assert, rec_target, evict_over, evict}
use concread.Assoc.{HashEq}
use concread.Prelude.{ℕ, ◌+◌, ◌-◌, ◌<◌, true, false, none, ◌≡◌, refl, arith, length, ltb, leb}

rec_target-overflow :
    (most rec_len freq_len : ℕ) → most < freq_len → rec_target true most rec_len freq_len 0 ≡ none
unfolding rec_target debug_assert
rec_target-overflow most rec_len freq_len f =
    let long : leb (rec_len + freq_len - most) rec_len ≡ false = ground (arith, f) in rw long refl

module _ {ℓ κ} {K : Type ℓ} {V : Type κ} ⦃h : HashEq K⦄ where
  -- With debug assertions, an eviction at weight 0 panics whenever the frequent list alone has more
  -- items than the cache has room for.
  pub evict-overflow :
      (most x : ℕ) (s : Arc K V) → s.p ≡ 0 → most < ll_len freq_ll s → evict true most x s ≡ none
  unfolding evict evict_over debug_assert
  evict-overflow most x s e f =
      let over : ltb most (length (s.lls rec_ll) + length (s.lls freq_ll)) ≡ true =
        ground (arith, f) in
      let light : leb 0 most ≡ true = ground arith in
      rw
        (
          e,
          light,
          over,
          rec_target-overflow most (length (s.lls rec_ll)) (length (s.lls freq_ll)) f,
        )
        refl
