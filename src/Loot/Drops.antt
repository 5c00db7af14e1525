-- ===== src/Loot/Drops.antt =====
-- What a catalog answers.
use astrahold_server.Common.{
  ◌≤◌, ◌<◌, ◌≡◌, ◌≢◌, ◌⊎◌, inl, inr, false, none, some, List, [], ◌∷◌, Text, text_key, Map,
  is_empty, lookup, insert, lookup-insert, arith, Option-cases, sym,
}
use astrahold_server.Loot.{
  Result-cases, ok, Drop, SourceTable, Definition, Catalog, copy_drops, add_tables, new, drops_for,
}

abbrev pub IsIn : SourceTable → List SourceTable → Type 0
IsIn t [] = ⊥
IsIn t (u ∷ ts) = (u ≡ t) ⊎ IsIn t ts

-- The drops that stand for those of a table: the same items, each with its own chance, or with
-- certainty where the chance is zero.
abbrev pub Stand : List Drop → List Drop → Type 0
Stand [] [] = Unit
Stand (d ∷ ds) (c ∷ cs) =
    ((c.item_archetype_id ≡ d.item_archetype_id)
      × (is_empty c.item_archetype_id ≡ false)
      × (0 < c.chance_basis_points)
      × (c.chance_basis_points ≤ 10000)
      × (d.chance_basis_points ≢ 0 → c.chance_basis_points ≡ d.chance_basis_points)
      × (d.chance_basis_points ≡ 0 → c.chance_basis_points ≡ 10000))
    × Stand ds cs
Stand _ _ = ⊥

copy_drops-Stand : (ds cs : List Drop) → copy_drops ds ≡ some cs → Stand ds cs
unfolding copy_drops
copy_drops-Stand [] [] e = tt
copy_drops-Stand [] (c ∷ cs) e = ground arith
copy_drops-Stand (d ∷ ds) [] e = ground arith
copy_drops-Stand (d ∷ ds) (c ∷ cs) e = ground (arith, copy_drops-Stand ds cs)

-- What a step of the outer loop does when the loop succeeds.
add_tables_step :
    (t : SourceTable) (ts : List SourceTable) (m r : Map Text (List Drop))
    → add_tables (t ∷ ts) m ≡ ok r
    → (drops : List Drop) × (copy_drops t.drops ≡ some drops)
      × (is_empty t.source_archetype_id ≡ false)
      × (lookup t.source_archetype_id m ≡ none)
      × (add_tables ts (insert t.source_archetype_id drops m) ≡ ok r)
unfolding add_tables
add_tables_step t ts m r e = elim (Option-cases (copy_drops t.drops)) [
  | inl bad ↦ ground arith
  | inr (drops, good) ↦ (drops, good, ground arith, ground arith, ground arith)
]

add_tables_keeps :
    (ts : List SourceTable) (m r : Map Text (List Drop)) (source : Text) (drops : List Drop)
    → add_tables ts m ≡ ok r
    → lookup source m ≡ some drops
    → lookup source r ≡ some drops
unfolding add_tables
add_tables_keeps [] m r source drops e h = ground arith
add_tables_keeps (t ∷ ts) m r source drops e h =
    let (copied, good, named, free, rest) = add_tables_step t ts m r e in
    add_tables_keeps ts (insert t.source_archetype_id copied m) r source drops rest
      (ground (arith, lookup-insert t.source_archetype_id source copied m))

add_tables_has :
    (ts : List SourceTable) (m r : Map Text (List Drop)) (t : SourceTable)
    → add_tables ts m ≡ ok r
    → IsIn t ts
    → (drops : List Drop) × (copy_drops t.drops ≡ some drops)
      × (is_empty t.source_archetype_id ≡ false)
      × (lookup t.source_archetype_id r ≡ some drops)
add_tables_has [] m r t e nowhere = elim nowhere [ ]
add_tables_has (u ∷ ts) m r t e (inl same) =
    let (copied, good, named, free, rest) = add_tables_step u ts m r e in
    let kept =
      add_tables_keeps ts (insert u.source_archetype_id copied m) r u.source_archetype_id copied
        rest (ground (arith, lookup-insert u.source_archetype_id u.source_archetype_id copied m)) in
    rw (sym same) (copied, good, named, kept)
add_tables_has (u ∷ ts) m r t e (inr there) =
    let (copied, good, named, free, rest) = add_tables_step u ts m r e in
    add_tables_has ts (insert u.source_archetype_id copied m) r t rest there

-- A catalog that New builds answers for every table of its definition the drops of that table, in
-- their order, with chances from one to ten thousand basis points: no table replaces another.
pub drops_for-new :
    (d : Definition) (c : Catalog) (t : SourceTable)
    → new d ≡ ok c
    → IsIn t d.tables
    → (drops : List Drop) × (drops_for c t.source_archetype_id ≡ some drops) × Stand t.drops drops
unfolding new drops_for
drops_for-new d c t e here = elim (Result-cases (add_tables d.tables [])) [
  | inr (bad, f) ↦ ground arith
  | inl (r, f) ↦
      let (drops, copied, named, found) = add_tables_has d.tables [] r t f here in
      (drops, ground arith, copy_drops-Stand t.drops drops copied)
]
