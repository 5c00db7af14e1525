-- ===== src/Examples/Learning.antt =====
-- A run of NewSet (internal/learnedskills/set.go).
use astrahold_server.Common.{
  ◌≡◌, refl, inr, true, List, [], ◌∷◌, Text, codes, arith, Text-discrete, ℕ_discrete,
}
use astrahold_server.Skills.{LearnedSet, new_set, lookup_skill, find, holds, definitions}
use astrahold_server.Skills.Learned.{all_known, fresh}
use astrahold_server.Skills.Canonical.{IsCanonical, new_set_succeeds}

abbrev wanted : List Text
wanted = codes "haste" ∷ codes "guard" ∷ codes "fire-bolt" ∷ []

wanted-known : all_known wanted ≡ true
unfolding all_known lookup_skill find definitions Text-discrete ℕ_discrete
wanted-known = refl

wanted-fresh : fresh wanted [] ≡ true
unfolding fresh holds Text-discrete ℕ_discrete
wanted-fresh = refl

new_set_succeeds_example : (s : LearnedSet) × (new_set wanted ≡ inr s) × IsCanonical wanted s
new_set_succeeds_example = new_set_succeeds wanted (omega arith) wanted-known wanted-fresh
