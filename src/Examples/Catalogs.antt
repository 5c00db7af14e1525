-- ===== src/Examples/Catalogs.antt =====
-- Runs of the loot tables (internal/loot/catalog.go).
use astrahold_server.Common.{[], ◌∷◌, codes}
use astrahold_server.Loot.{SourceTable, Definition, Catalog}

abbrev wolf : SourceTable
wolf = record {
  source_archetype_id = codes "wolf";
  drops =
      record { item_archetype_id = codes "fang"; chance_basis_points = 0 }
      ∷ record { item_archetype_id = codes "pelt"; chance_basis_points = 2500 }
      ∷ [];
}

abbrev bear : SourceTable
bear = record {
  source_archetype_id = codes "bear";
  drops = record { item_archetype_id = codes "claw"; chance_basis_points = 9000 } ∷ [];
}

abbrev wild : Definition
wild = record { revision = codes "v1"; tables = bear ∷ wolf ∷ [] }

abbrev wild_catalog : Catalog
wild_catalog = record {
  revision = codes "v1";
  by_source =
      (codes "bear", bear.drops)
      ∷ (
        codes "wolf",
        record { item_archetype_id = codes "fang"; chance_basis_points = 10000 }
            ∷ record { item_archetype_id = codes "pelt"; chance_basis_points = 2500 }
            ∷ [],
      )
      ∷ [];
}
