-- ===== src/Skills.antt =====
-- The catalog of skills and the sets of learned skills (internal/skillcatalog/catalog.go,
-- internal/learnedskills/set.go). byID is a search of the definitions, whose ids differ.
pub mod Learned
pub mod Counting
pub mod Canonical
use astrahold_server.Common.{
  ℕ, zero, suc, ◌+◌, ◌%◌, ◌⊎◌, inl, inr, Bool, true, false, not, ◌&&◌, ◌||◌, Option, none, some,
  List, [], ◌∷◌, ltb, leb, ◌==◌, ◌=?◌, if◌then◌else◌, Text, text_key, codes, length,
}

pub record Definition : Type 0 where
  pub id : Text
  pub category : Text
  pub activation : Text
  pub combat_loadout_eligible : Bool

pub data Error : Type 0 where
  unknown_skill not_combat_loadout_skill duplicate_skill combat_loadout_too_large : Error
  too_many_skills invalid_set : Error

abbrev skill : Text → Text → Text → Bool → Definition
skill id category activation eligible = record {
  id = id;
  category = category;
  activation = activation;
  combat_loadout_eligible = eligible;
}

abbrev combat : Text → Text → Definition
combat id category = skill id category (codes "active") true

unfoldable pub definitions : List Definition
definitions =
    skill (codes "random-teleport") (codes "universal") (codes "active") false
    ∷ skill (codes "sunlight") (codes "universal") (codes "active") false
    ∷ skill (codes "guard") (codes "universal") (codes "active") false
    ∷ skill (codes "heal") (codes "universal") (codes "active") false
    ∷ combat (codes "heavy-strike") (codes "melee")
    ∷ combat (codes "flurry") (codes "melee")
    ∷ combat (codes "cleave") (codes "melee")
    ∷ combat (codes "execute") (codes "melee")
    ∷ combat (codes "piercing-shot") (codes "ranged")
    ∷ combat (codes "rapid-shot") (codes "ranged")
    ∷ combat (codes "volley") (codes "ranged")
    ∷ combat (codes "pinning-shot") (codes "ranged")
    ∷ combat (codes "fire-bolt") (codes "magic")
    ∷ combat (codes "frost-burst") (codes "magic")
    ∷ combat (codes "meteor") (codes "magic")
    ∷ combat (codes "arcane-lance") (codes "magic")
    ∷ skill (codes "strong-physique") (codes "support") (codes "passive") false
    ∷ skill (codes "clear-meridians") (codes "support") (codes "passive") false
    ∷ skill (codes "spirit-concentration") (codes "support") (codes "passive") false
    ∷ skill (codes "haste") (codes "support") (codes "active") false
    ∷ []

unfoldable pub find : Text → List Definition → Option Definition
find id [] = none
find id (d ∷ ds) = let rest = find id ds in if id =? d.id then some d else rest

unfoldable pub lookup_skill : Text → Option Definition
unfolding find
lookup_skill id = find id definitions

unfoldable pub holds : Text → List Text → Bool
holds x [] = false
holds x (y ∷ ys) = x =? y || holds x ys

-- The loop of ValidateCombatLoadout.
unfoldable pub loadout_from : List Text → List Text → Option Error
unfolding lookup_skill holds
loadout_from [] seen = none
loadout_from (id ∷ ids) seen =
    let rest = loadout_from ids (id ∷ seen) in
    elim (lookup_skill id) [
      | none ↦ some unknown_skill
      | some d ↦
          if not d.combat_loadout_eligible
          then some not_combat_loadout_skill
          else if holds id seen
          then some duplicate_skill
          else rest
    ]

unfoldable pub validate_combat_loadout : List Text → Option Error
unfolding loadout_from
validate_combat_loadout ids =
    if ltb 6 (length ids) then some combat_loadout_too_large else loadout_from ids []

-- The array of ids and the number of those in use, a uint8.
pub record LearnedSet : Type 0 where
  pub ids : List Text
  pub count : ℕ

unfoldable pub copies : ℕ → List Text
copies zero = []
copies (suc n) = [] ∷ copies n

unfoldable pub empty_set : LearnedSet
unfolding copies
empty_set = record { ids = copies 20; count = 0 }

unfoldable pub set_at : ℕ → Text → List Text → List Text
set_at i x [] = []
set_at zero x (y ∷ ys) = x ∷ ys
set_at (suc i) x (y ∷ ys) = y ∷ set_at i x ys

unfoldable pub first_ids : ℕ → List Text → List Text
first_ids zero xs = []
first_ids (suc n) [] = []
first_ids (suc n) (x ∷ xs) = x ∷ first_ids n xs

-- The first loop of NewSet.
unfoldable pub request : List Text → List Text → Error ⊎ List Text
unfolding lookup_skill holds
request [] seen = inr seen
request (id ∷ ids) seen =
    let rest = request ids (id ∷ seen) in
    elim (lookup_skill id) [
      | none ↦ inl unknown_skill
      | some d ↦ if holds id seen then inl duplicate_skill else rest
    ]

unfoldable pub put_id : LearnedSet → Text → LearnedSet
unfolding set_at
put_id s id = record { ids = set_at s.count id s.ids; count = (s.count + 1) % 256 }

-- The second loop of NewSet.
unfoldable pub fill : List Text → List Definition → LearnedSet → Error ⊎ LearnedSet
unfolding holds put_id
fill requested [] s = inr s
fill requested (d ∷ ds) s = elim (holds d.id requested) [
  | true ↦ elim (leb (length s.ids) s.count) [
    | true ↦ inl too_many_skills
    | false ↦ fill requested ds (put_id s d.id)
  ]
  | false ↦ fill requested ds s
]

unfoldable pub counted : List Text → LearnedSet → Error ⊎ LearnedSet
counted requested s = if s.count == length requested then inr s else inl invalid_set

unfoldable pub build_set : List Text → Error ⊎ LearnedSet
unfolding fill counted empty_set
build_set requested = elim (fill requested definitions empty_set) [
  | inl e ↦ inl e
  | inr s ↦ counted requested s
]

unfoldable pub new_set : List Text → Error ⊎ LearnedSet
unfolding request build_set empty_set
new_set ids =
    if ltb 20 (length ids)
    then inl too_many_skills
    else if length ids == 0
    then inr empty_set
    else elim (request ids []) [ inl e ↦ inl e | inr requested ↦ build_set requested ]

unfoldable pub ids_of : LearnedSet → List Text
unfolding first_ids
ids_of s = first_ids s.count s.ids

unfoldable pub contains_skill : LearnedSet → Text → Bool
unfolding ids_of holds
contains_skill s id = holds id (ids_of s)

unfoldable pub same_texts : List Text → List Text → Bool
same_texts [] [] = true
same_texts [] (y ∷ ys) = false
same_texts (x ∷ xs) [] = false
same_texts (x ∷ xs) (y ∷ ys) = x =? y && same_texts xs ys

unfoldable pub same_set : LearnedSet → LearnedSet → Bool
unfolding same_texts
same_set s t = s.count == t.count && same_texts s.ids t.ids

unfoldable pub validate_set : LearnedSet → Option Error
unfolding new_set ids_of same_set
validate_set s =
    if ltb (length s.ids) s.count then some invalid_set else elim (new_set (ids_of s)) [
      | inl e ↦ some e
      | inr canonical ↦ if same_set canonical s then none else some invalid_set
    ]
