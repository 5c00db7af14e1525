-- ===== src/Combat/Ratings.antt =====
-- Hit, critical and defense ratings in basis points (internal/combat/ratings.go). Ratings are
-- int32 or uint32 values; `defense + 20` wraps at 32 bits, as it does in the source.
use astrahold_server.Common.{
  Option, none, some, ◌%◌, ℕ, ◌+◌, ◌-◌, ◌*◌, ◌/◌, ◌≤◌, ◌<◌, ◌≡◌, ltb, leb, ◌==◌, if◌then◌else◌,
  add_u32, max_u32, arith, ℤ, pos, negsuc,
}
use native.Mathlib.Nat.{div-mul-le_self, div-lt_iff_lt-mul}

-- The difference of two int64 values that are far from the bounds.
unfoldable pub difference : ℤ → ℤ → ℤ
difference (pos a) (pos b) = if leb b a then pos (a - b) else negsuc (b - a - 1)
difference (pos a) (negsuc b) = pos (a + b + 1)
difference (negsuc a) (pos b) = negsuc (a + b)
difference (negsuc a) (negsuc b) = if leb a b then pos (b - a) else negsuc (a - b - 1)

-- 9000 and fifty for each point of the difference, from 7500 to 9800.
unfoldable pub clamped_chance : ℤ → ℕ
clamped_chance (pos d) = if ltb 9800 (9000 + d * 50) then 9800 else 9000 + d * 50
clamped_chance (negsuc n) = if ltb 1500 ((n + 1) * 50) then 7500 else 9000 - (n + 1) * 50

unfoldable pub physical_hit_chance_basis_points : ℤ → ℤ → ℕ
unfolding difference clamped_chance
physical_hit_chance_basis_points hit evasion = clamped_chance (difference hit evasion)

unfoldable pub critical_chance_basis_points : ℕ → ℕ → ℕ
critical_chance_basis_points attribute_bonus rating =
    let chance = 500 + attribute_bonus + rating * 50 in if ltb 3000 chance then 3000 else chance

-- `none` where the division by zero panics.
unfoldable pub defense_mitigation_basis_points : ℕ → Option ℕ
defense_mitigation_basis_points defense =
    if defense == 0
    then some 0
    else if add_u32 defense 20 == 0
    then none
    else some (defense * 10000 / add_u32 defense 20 % 4294967296)

unfoldable pub remaining_basis_points_after_mitigation : ℕ → ℕ
remaining_basis_points_after_mitigation mitigation =
    if leb 10000 mitigation then 0 else 10000 - mitigation

unfoldable pub combine_remaining_basis_points : ℕ → ℕ → ℕ
combine_remaining_basis_points first second =
    let a = if ltb 10000 first then 10000 else first in
    let b = if ltb 10000 second then 10000 else second in a * b / 10000

-- The order of the integers.
abbrev pub AtMost : ℤ → ℤ → Type 0
AtMost (pos a) (pos b) = a ≤ b
AtMost (pos a) (negsuc b) = ⊥
AtMost (negsuc a) (pos b) = Unit
AtMost (negsuc a) (negsuc b) = b ≤ a

difference-AtMost-hit : (a b c : ℤ) → AtMost a b → AtMost (difference a c) (difference b c)
unfolding difference
difference-AtMost-hit a b c h = ground arith

difference-AtMost-evasion : (a b c : ℤ) → AtMost a b → AtMost (difference c b) (difference c a)
unfolding difference
difference-AtMost-evasion a b c h = ground arith

clamped_chance-AtMost : (a b : ℤ) → AtMost a b → clamped_chance a ≤ clamped_chance b
unfolding clamped_chance
clamped_chance-AtMost a b h = ground arith

clamped_chance-bounds : (a : ℤ) → (7500 ≤ clamped_chance a) × (clamped_chance a ≤ 9800)
unfolding clamped_chance
clamped_chance-bounds a = ground arith

-- The chance to hit is between 75% and 98%, does not fall when the hit rating of the attacker
-- grows, and does not grow when the evasion of the target does.
pub physical_hit_chance-bounds :
    (hit evasion more : ℤ)
    → let chance = physical_hit_chance_basis_points in
      ((7500 ≤ chance hit evasion) × (chance hit evasion ≤ 9800))
      × (AtMost hit more → chance hit evasion ≤ chance more evasion)
      × (AtMost evasion more → chance hit more ≤ chance hit evasion)
unfolding physical_hit_chance_basis_points
physical_hit_chance-bounds hit evasion more = (
  clamped_chance-bounds (difference hit evasion),
  λ h.
      clamped_chance-AtMost (difference hit evasion) (difference more evasion)
        (difference-AtMost-hit hit more evasion h),
  λ h.
      clamped_chance-AtMost (difference hit more) (difference hit evasion)
        (difference-AtMost-evasion evasion more hit h),
)

div_below : (n d k : ℕ) → 0 < d → n < k * d → n / d < k
div_below n d k positive h = (div-lt_iff_lt-mul {k = d} {x = n} {y = k} positive).1 h

div_next : (n d : ℕ) → 0 < d → n < (n / d + 1) * d
div_next n d positive = (div-lt_iff_lt-mul {k = d} {x = n} {y = n / d + 1} positive).0 (omega arith)

-- For a defense below the last twenty values of uint32 the mitigation is a number below 100% that
-- stays within one basis point of defense / (defense + 20).
pub defense_mitigation-bounds :
    (defense : ℕ)
    → defense + 20 ≤ max_u32
    → (m : ℕ) × (defense_mitigation_basis_points defense ≡ some m)
      × (m < 10000)
      × (m * (defense + 20) ≤ defense * 10000)
      × (defense * 10000 < (m + 1) * (defense + 20))
unfolding defense_mitigation_basis_points
defense_mitigation-bounds defense h =
    let d = defense + 20 in
    let m = defense * 10000 / d in
    let low = div-mul-le_self (defense * 10000) d in
    let small = div_below (defense * 10000) d 10000 (omega arith) (omega arith) in
    (m, ground (arith, small), small, low, div_next (defense * 10000) d (omega arith))

-- The mitigation of a uint32 defense panics, by a division by zero, exactly for the one defense at
-- which the sum with twenty wraps to zero.
pub defense_mitigation-panics :
    (defense : ℕ)
    → defense ≤ max_u32
    → ((defense_mitigation_basis_points defense ≡ none) → defense ≡ 4294967276)
      × (defense ≡ 4294967276 → defense_mitigation_basis_points defense ≡ none)
unfolding defense_mitigation_basis_points
defense_mitigation-panics defense h = (ground arith, ground arith)
