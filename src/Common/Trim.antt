-- ===== src/Common/Trim.antt =====
-- strings.TrimSpace of the Go standard library, on code points.
use Prim.Native.Nat.{ℕ}
use mathlib.Core.Path.{◌≡◌, refl}
use mathlib.Core.Bool.{Bool, true, false, ◌&&◌, ◌||◌}
use mathlib.Core.List.{[], ◌∷◌, reverse}
use astrahold_server.Common.Tests.{leb, ◌==◌}
use astrahold_server.Common.Keys.{Text, codes}

-- unicode.IsSpace
abbrev is_space : ℕ → Bool
is_space c =
    (leb 0x9 c && leb c 0xd)
    || c == 0x20
    || c == 0x85
    || c == 0xa0
    || c == 0x1680
    || (leb 0x2000 c && leb c 0x200a)
    || c == 0x2028
    || c == 0x2029
    || c == 0x202f
    || c == 0x205f
    || c == 0x3000

trim_left : Text → Text
trim_left [] = []
trim_left (c ∷ s) = let rest = trim_left s in elim (is_space c) [ true ↦ rest | false ↦ c ∷ s ]

unfoldable pub trim_space : Text → Text
unfolding trim_left
trim_space s = reverse (trim_left (reverse (trim_left s)))

trim_space_runs : trim_space (codes "  fire bolt\t ") ≡ codes "fire bolt"
unfolding trim_space
trim_space_runs = refl
