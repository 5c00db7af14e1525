-- ===== src/Loot.antt =====
-- Loot tables (internal/loot/catalog.go). A chance is a uint16 of basis points.
pub mod Drops
use astrahold_server.Common.{
  ℕ, ◌≡◌, refl, ◌⊎◌, inl, inr, Bool, true, false, not, ◌&&◌, ◌||◌, Option, none, some, List, [],
  ◌∷◌, Text, text_key, Map, ltb, ◌==◌, if◌then◌else◌, is_empty, is_some, lookup, insert,
}

pub data Error : Type 0 where
  invalid_definition duplicate_source_archetype : Error

pub data Result (A : Type 0) : Type 0 where
  ok : A → Result A
  err : Error → Result A

pub Result-cases :
    {A : Type 0} (r : Result A) → ((a : A) × (r ≡ ok a)) ⊎ ((e : Error) × (r ≡ err e))
Result-cases (ok a) = inl (a, refl)
Result-cases (err e) = inr (e, refl)

pub record Drop : Type 0 where
  pub item_archetype_id : Text
  pub chance_basis_points : ℕ

unfoldable pub includes_roll : Drop → ℕ → Bool
includes_roll d roll = ltb 0 d.chance_basis_points && ltb roll d.chance_basis_points

pub record SourceTable : Type 0 where
  pub source_archetype_id : Text
  pub drops : List Drop

pub record Definition : Type 0 where
  pub revision : Text
  pub tables : List SourceTable

pub record Catalog : Type 0 where
  pub revision : Text
  pub by_source : Map Text (List Drop)

abbrev pub bad_drop : Drop → Bool
bad_drop d = is_empty d.item_archetype_id || ltb 10000 d.chance_basis_points

-- A chance of zero stands for certainty.
abbrev pub normal : Drop → Drop
normal d = if d.chance_basis_points == 0 then record d { chance_basis_points = 10000 } else d

-- The inner loop: `none` where it returns an error.
unfoldable pub copy_drops : List Drop → Option (List Drop)
copy_drops [] = some []
copy_drops (d ∷ ds) =
    let rest = copy_drops ds in
    if bad_drop d then none else elim rest [ none ↦ none | some copied ↦ some (normal d ∷ copied) ]

-- The outer loop.
unfoldable pub add_tables : List SourceTable → Map Text (List Drop) → Result (Map Text (List Drop))
add_tables [] by_source = ok by_source
add_tables (t ∷ ts) by_source = elim (is_empty t.source_archetype_id || is_empty t.drops) [
  | true ↦ err invalid_definition
  | false ↦ elim (is_some (lookup t.source_archetype_id by_source)) [
    | true ↦ err duplicate_source_archetype
    | false ↦ elim (copy_drops t.drops) [
      | none ↦ err invalid_definition
      | some drops ↦ add_tables ts (insert t.source_archetype_id drops by_source)
    ]
  ]
]

unfoldable pub new : Definition → Result Catalog
new d =
    if is_empty d.revision || is_empty d.tables
    then err invalid_definition
    else elim (add_tables d.tables []) [
      | err e ↦ err e
      | ok by_source ↦ ok (record { revision = d.revision; by_source = by_source })
    ]

unfoldable pub drops_for : Catalog → Text → Option (List Drop)
drops_for c source = if is_empty source then none else lookup source c.by_source
