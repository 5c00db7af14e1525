-- ===== src/Threat.antt =====
-- Threat tables (internal/threat/threat.go). A table of Go ranges over its map in no fixed order:
-- the entries of the association list stand in the order of one such run.
pub mod Highest
use astrahold_server.Common.{
  ℕ, ◌+◌, ◌-◌, Bool, true, false, not, ◌&&◌, ◌||◌, Option, none, some, [], ◌∷◌, nat_key, Map,
  max_u64, ltb, ◌==◌, if◌then◌else◌, lookup, insert, delete, get_or, length,
}

pub record Table : Type 0 where
  pub values : Map ℕ ℕ

unfoldable pub new : Table
new = record { values = [] }

unfoldable pub value : Table → ℕ → ℕ
value t entity = get_or 0 (lookup entity t.values)

-- The new value of an entry: the sum, at most the largest uint64.
unfoldable pub saturated : ℕ → ℕ → ℕ
saturated current amount = if ltb (max_u64 - current) amount then max_u64 else current + amount

unfoldable pub add : Table → ℕ → ℕ → Table
unfolding saturated value
add t entity amount =
    if entity == 0 || amount == 0
    then t
    else record { values = insert entity (saturated (value t entity) amount) t.values }

unfoldable pub remove : Table → ℕ → Table
remove t entity = if entity == 0 then t else record { values = delete entity t.values }

unfoldable pub clear : Table → Table
clear t = record { values = [] }

unfoldable pub table_length : Table → ℕ
table_length t = length t.values

-- The validator of the caller; a nil one is `none`.
abbrev pub Validator : Type 0
Validator = Option (ℕ → Bool)

abbrev pub allows : Validator → ℕ → Bool
allows none entity = true
allows (some valid) entity = valid entity

abbrev pub counts : Validator → ℕ → ℕ → Bool
counts valid entity value = not (entity == 0) && not (value == 0) && allows valid entity

-- bestID, bestThreat and found.
pub record Best : Type 0 where
  pub entity : ℕ
  pub threat : ℕ
  pub found : Bool

unfoldable pub better : Best → ℕ → ℕ → Bool
better b entity value =
    not b.found || ltb b.threat value || (value == b.threat && ltb entity b.entity)

unfoldable pub visit : Validator → Best → ℕ → ℕ → Best
unfolding better
visit valid b entity value =
    if counts valid entity value && better b entity value
    then record { entity = entity; threat = value; found = true }
    else b

-- The loop over the entries: the entries that are kept, and the best of them.
unfoldable pub scan : Validator → Best → Map ℕ ℕ → Map ℕ ℕ × Best
unfolding visit
scan valid b [] = ([], b)
scan valid b ((entity, value) ∷ entries) =
    let rest = scan valid (visit valid b entity value) entries in
    (if counts valid entity value then (entity, value) ∷ rest.0 else rest.0, rest.1)

abbrev pub nothing : Best
nothing = record { entity = 0; threat = 0; found = false }

unfoldable pub highest_valid : Table → Validator → Table × Best
unfolding scan
highest_valid t valid = let r = scan valid nothing t.values in (record { values = r.0 }, r.1)
