-- ===== src/Identity.antt =====
-- The identity that a player character carries (internal/characteridentity/identity.go).
-- NewEphemeral reads random bytes and is not modelled.
use astrahold_server.Common.{
  ℕ, ◌+◌, ◌-◌, ◌≡◌, arith, Bool, true, false, not, ◌&&◌, ◌||◌, [], ◌∷◌, leb, ◌==◌, if◌then◌else◌,
  Text, text_key, codes, length, is_empty,
}

-- The string type Assurance: its two constants, and every other string.
pub data Assurance : Type 0 where
  ephemeral trusted : Assurance
  unknown : Text → Assurance

pub data Error : Type 0 where
  invalid_id invalid_assurance : Error

pub record Binding : Type 0 where
  pub id : Text
  pub assurance : Assurance

abbrev pub max_id_length : ℕ
max_id_length = 128

abbrev pub ephemeral_prefix : Text
ephemeral_prefix = codes "ephemeral:"

-- value[:length(prefix)] == prefix, with its length test.
unfoldable pub has_prefix : Text → Text → Bool
has_prefix [] value = true
has_prefix (c ∷ prefix) [] = false
has_prefix (c ∷ prefix) (d ∷ value) = c == d && has_prefix prefix value

abbrev between : ℕ → ℕ → ℕ → Bool
between lo hi c = leb lo c && leb c hi

abbrev is_id_byte : ℕ → Bool
is_id_byte c =
    between b'a' b'z' c
    || between b'A' b'Z' c
    || between b'0' b'9' c
    || c == b'.'
    || c == b'_'
    || c == b':'
    || c == b'-'

abbrev is_hex_byte : ℕ → Bool
is_hex_byte c = between b'0' b'9' c || between b'a' b'f' c

-- A loop that returns false at the first byte that fails.
unfoldable pub all : (ℕ → Bool) → Text → Bool
all p [] = true
all p (c ∷ s) = p c && all p s

unfoldable pub drop : ℕ → Text → Text
drop n [] = []
drop n (c ∷ s) = let rest = drop (n - 1) s in if n == 0 then c ∷ s else rest

assured : Assurance → Text → Bool
assured ephemeral value =
    length value == length ephemeral_prefix + 32
    && has_prefix ephemeral_prefix value
    && all is_hex_byte (drop (length ephemeral_prefix) value)
assured trusted value = not (has_prefix ephemeral_prefix value)
assured (unknown _) value = false

-- A string of valid bytes is ASCII, so that its code points are its bytes; any other string
-- fails the test of the bytes, whatever its length.
unfoldable pub valid : Binding → Bool
unfolding all has_prefix drop assured
valid b =
    not (is_empty b.id)
    && leb (length b.id) max_id_length
    && all is_id_byte b.id
    && assured b.assurance b.id

abbrev known : Assurance → Bool
known (unknown _) = false
known _ = true

pub data Result : Type 0 where
  ok : Binding → Result
  err : Error → Result

unfoldable pub new : Text → Assurance → Result
unfolding valid
new value assurance =
    let binding : Binding = record { id = value; assurance = assurance } in
    if valid binding
    then ok binding
    else if known assurance
    then err invalid_id
    else err invalid_assurance

unfoldable pub new_trusted : Text → Result
unfolding new
new_trusted value = if has_prefix ephemeral_prefix value then err invalid_id else new value trusted

ends_false : (a b c : Bool) → (a && b && c && false) ≡ false
ends_false a b c = ground arith

-- A string that names no assurance is never that of a valid identity.
pub valid_unknown : (id a : Text) → valid (record { id = id; assurance = unknown a }) ≡ false
unfolding valid
valid_unknown id a =
    ends_false (not (is_empty id)) (leb (length id) max_id_length) (all is_id_byte id)
