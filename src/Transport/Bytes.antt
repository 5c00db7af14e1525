-- ===== src/Transport/Bytes.antt =====
-- Big-endian numbers (encoding/binary) and slices of bytes.
use astrahold_server.Common.{
  ℕ, zero, suc, ◌+◌, ◌*◌, ◌/◌, ◌%◌, ◌≡◌, refl, List, [], ◌∷◌, arith, length, sym, ◌∙◌,
}

infixr 30 ◌+++◌
unfoldable pub ◌+++◌ : List ℕ → List ℕ → List ℕ
[] +++ ys = ys
(x ∷ xs) +++ ys = x ∷ (xs +++ ys)

-- The low `count` bytes of a number, the highest first.
unfoldable pub put : ℕ → ℕ → List ℕ
unfolding ◌+++◌
put zero n = []
put (suc count) n = put count (n / 256) +++ (n % 256 ∷ [])

-- The number that bytes write, after a prefix with the value `high`.
unfoldable pub number : ℕ → List ℕ → ℕ
number high [] = high
number high (b ∷ bs) = number (high * 256 + b) bs

unfoldable pub skip : ℕ → List ℕ → List ℕ
skip zero bs = bs
skip (suc count) [] = []
skip (suc count) (b ∷ bs) = skip count bs

unfoldable pub take : ℕ → List ℕ → List ℕ
take zero bs = []
take (suc count) [] = []
take (suc count) (b ∷ bs) = b ∷ take count bs

unfoldable pub slice : ℕ → ℕ → List ℕ → List ℕ
unfolding take skip
slice from count bs = take count (skip from bs)

number-append :
    (high : ℕ) (bs : List ℕ) (b : ℕ) → number high (bs +++ (b ∷ [])) ≡ number high bs * 256 + b
unfolding number ◌+++◌
number-append high [] b = refl
number-append high (c ∷ bs) b = number-append (high * 256 + c) bs b

-- The number fits in so many bytes.
abbrev pub Fits : ℕ → ℕ → Type 0
Fits zero n = n ≡ 0
Fits (suc count) n = Fits count (n / 256)

-- Reading back what was put gives the number.
pub number-put : (count n : ℕ) → Fits count n → number 0 (put count n) ≡ n
unfolding put number
number-put zero n h = sym h
number-put (suc count) n h =
    number-append 0 (put count (n / 256)) (n % 256) ∙ omega (arith, number-put count (n / 256) h)

pub length-append : (xs ys : List ℕ) → length (xs +++ ys) ≡ length xs + length ys
unfolding ◌+++◌
length-append [] ys = omega arith
length-append (x ∷ xs) ys = omega (arith, length-append xs ys)

pub take-append : (xs ys : List ℕ) → take (length xs) (xs +++ ys) ≡ xs
unfolding take ◌+++◌
take-append [] ys = refl
take-append (x ∷ xs) ys = rw (take-append xs ys) refl

pub skip-append : (xs ys : List ℕ) → skip (length xs) (xs +++ ys) ≡ ys
unfolding skip ◌+++◌
skip-append [] ys = refl
skip-append (x ∷ xs) ys = skip-append xs ys

pub append_assoc : (xs ys zs : List ℕ) → (xs +++ ys) +++ zs ≡ xs +++ (ys +++ zs)
unfolding ◌+++◌
append_assoc [] ys zs = refl
append_assoc (x ∷ xs) ys zs = rw (append_assoc xs ys zs) refl
