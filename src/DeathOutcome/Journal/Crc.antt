-- ===== src/DeathOutcome/Journal/Crc.antt =====
-- CRC-32 with the Castagnoli polynomial, as hash/crc32 computes it. A register is its bits, the
-- lowest first.
use astrahold_server.Common.{
  ℕ, zero, suc, ◌+◌, ◌*◌, ◌/◌, ◌%◌, ◌<◌, ◌∙◌, ◌≡◌, refl, Bool, true, false, not, List, [], ◌∷◌,
  ◌==◌, if◌then◌else◌, subst, arith, length, codes,
}

abbrev xor : Bool → Bool → Bool
xor true b = not b
xor false b = b

-- The low `count` bits of a number.
unfoldable pub bits : ℕ → ℕ → List Bool
bits zero n = []
bits (suc count) n = (n % 2 == 1) ∷ bits count (n / 2)

unfoldable pub value : List Bool → ℕ
value [] = 0
value (b ∷ bs) = (if b then 1 else 0) + 2 * value bs

-- The register keeps its length.
unfoldable pub xor_bits : List Bool → List Bool → List Bool
xor_bits [] bs = []
xor_bits (a ∷ r) [] = a ∷ r
xor_bits (a ∷ r) (b ∷ bs) = xor a b ∷ xor_bits r bs

unfoldable pub shifted : List Bool → List Bool
shifted [] = false ∷ []
shifted (b ∷ bs) = b ∷ shifted bs

-- 0x82F63B78
abbrev polynomial : ℕ
polynomial = 2197175160

-- One bit of the input.
unfoldable pub shift : List Bool → List Bool
unfolding shifted xor_bits bits
shift [] = []
shift (b ∷ bs) = if b then xor_bits (shifted bs) (bits 32 polynomial) else shifted bs

unfoldable pub shift_times : ℕ → List Bool → List Bool
unfolding shift
shift_times zero r = r
shift_times (suc n) r = shift_times n (shift r)

unfoldable pub update : List Bool → List ℕ → List Bool
unfolding xor_bits bits shift_times
update r [] = r
update r (b ∷ bs) = update (shift_times 8 (xor_bits r (bits 8 b))) bs

abbrev pub ones : List Bool
ones = bits 32 4294967295

unfoldable pub checksum : List ℕ → ℕ
unfolding update value xor_bits bits
checksum payload = value (xor_bits (update ones payload) ones)

-- The check value of CRC-32C.
checksum_of_digits : checksum (codes "123456789") ≡ 3808858755
unfolding checksum
checksum_of_digits = refl

xor_bits-size : (r bs : List Bool) → length (xor_bits r bs) ≡ length r
unfolding xor_bits
xor_bits-size [] bs = refl
xor_bits-size (a ∷ r) [] = refl
xor_bits-size (a ∷ r) (b ∷ bs) = rw (xor_bits-size r bs) refl

shifted-size : (r : List Bool) → length (shifted r) ≡ suc (length r)
unfolding shifted
shifted-size [] = refl
shifted-size (b ∷ r) = rw (shifted-size r) refl

shift-size : (r : List Bool) → length (shift r) ≡ length r
unfolding shift
shift-size [] = refl
shift-size (true ∷ r) = rw (xor_bits-size (shifted r) (bits 32 polynomial)) (shifted-size r)
shift-size (false ∷ r) = shifted-size r

shift_times-size : (n : ℕ) (r : List Bool) → length (shift_times n r) ≡ length r
unfolding shift_times
shift_times-size zero r = refl
shift_times-size (suc n) r = shift_times-size n (shift r) ∙ shift-size r

update-size : (r : List Bool) (bs : List ℕ) → length (update r bs) ≡ length r
unfolding update
update-size r [] = refl
update-size r (b ∷ bs) =
    update-size (shift_times 8 (xor_bits r (bits 8 b))) bs
    ∙ (shift_times-size 8 (xor_bits r (bits 8 b)) ∙ xor_bits-size r (bits 8 b))

-- 2 ^ n
power : ℕ → ℕ
power zero = 1
power (suc n) = 2 * power n

value-bounds : (r : List Bool) → value r < power (length r)
unfolding value power
value-bounds [] = ground arith
value-bounds (true ∷ r) = ground (arith, value-bounds r)
value-bounds (false ∷ r) = ground (arith, value-bounds r)

-- A checksum is a 32-bit number.
pub checksum-bounds : (payload : List ℕ) → checksum payload < 4294967296
unfolding checksum power
checksum-bounds payload =
    let r = update ones payload in
    subst (λ n. value (xor_bits r ones) < power n) (xor_bits-size r ones ∙ update-size ones payload)
      (value-bounds (xor_bits r ones))
