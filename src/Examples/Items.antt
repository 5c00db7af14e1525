-- ===== src/Examples/Items.antt =====
-- Runs of the inventory (internal/inventory).
use astrahold_server.Common.{◌≡◌, none, List, [], ◌∷◌, arith, pos, Text, codes, ◌↔◌}
use astrahold_server.Inventory.{
  Inventory, Instance, WeightPolicy, new_with_weight_policy, quantity, exchange,
}
use astrahold_server.Inventory.Slot.{main_hand, off_hand}
use astrahold_server.Inventory.Valid.{IsValid}
use astrahold_server.Inventory.History.{
  Call, adds, exchanges, equips, unequips, adds_instance, equips_instance, step, run,
  run-new-IsValid, step-IsValid,
}
use astrahold_server.Inventory.Atomic.{Atomic, step-Atomic}
use astrahold_server.Inventory.Trade.{exchange-remove-add, removed_first, added_then}

abbrev sword : Text
sword = codes "sword"

abbrev potion : Text
potion = codes "potion"

abbrev ring : Instance
ring = record { id = codes "ring-1"; item_archetype_id = codes "ring"; affixes = [] }

abbrev policy : WeightPolicy
policy = record {
  max_weight = 100;
  default_unit_weight = 2;
  unit_weights = (codes "sword", 30) ∷ [];
}

abbrev calls : List Call
calls =
    adds sword 2
    ∷ adds potion 5
    ∷ equips main_hand sword
    ∷ exchanges potion 2 (codes "gold") 3
    ∷ adds_instance ring
    ∷ equips_instance off_hand (codes "ring-1")
    ∷ unequips main_hand
    ∷ []

abbrev packed : Inventory
packed = run (new_with_weight_policy (pos 8) policy) calls

run-new-IsValid_example : IsValid packed
run-new-IsValid_example =
    run-new-IsValid (pos 8) policy calls (omega arith, omega arith, (omega arith, tt))
      (omega arith, (omega arith, (tt, ((omega arith, omega arith), (tt, (tt, (tt, tt)))))))

step-Atomic_example : Atomic packed (adds potion 4)
step-Atomic_example = step-Atomic packed (adds potion 4)

abbrev stocked : Inventory
stocked = run (new_with_weight_policy (pos 4) policy) (adds sword 2 ∷ [])

stocked-IsValid : IsValid stocked
stocked-IsValid =
    run-new-IsValid (pos 4) policy (adds sword 2 ∷ []) (omega arith, omega arith, (omega arith, tt))
      (omega arith, tt)

step-IsValid_example : IsValid (step stocked (equips main_hand sword)).0
step-IsValid_example = step-IsValid stocked (equips main_hand sword) tt stocked-IsValid

exchange-remove-add_example :
    (((exchange stocked sword 1 potion 3).1 ≡ none) ↔ (
      ((removed_first stocked sword 1 potion 3).1 ≡ none)
      × ((added_then stocked sword 1 potion 3).1 ≡ none)))
    × ((exchange stocked sword 1 potion 3).1 ≡ none
        → ((b : Text)
            → quantity (exchange stocked sword 1 potion 3).0 b
              ≡ quantity (added_then stocked sword 1 potion 3).0 b)
          × ((exchange stocked sword 1 potion 3).0.current_weight
              ≡ (added_then stocked sword 1 potion 3).0.current_weight))
exchange-remove-add_example = exchange-remove-add stocked sword 1 potion 3 stocked-IsValid
