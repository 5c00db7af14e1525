-- ===== src/Inventory/Stacks.antt =====
-- What the writes to one stack keep of the map of stacks.
use astrahold_server.Common.{
  ℕ, ◌+◌, ◌≤◌, ◌≡◌, none, ◌≢◌, Text, arith, Distinct, Entries, lookup, length, insert-Distinct,
  delete-Distinct, insert-Entries, delete-Entries, lookup-Entries, length-insert, length-delete,
  lookup-insert, lookup-delete, get_or, text_key, max_u32, Map, if◌then◌else◌, ◌==◌,
}
use astrahold_server.Inventory.{Inventory, put_remaining}
use astrahold_server.Inventory.Valid.{IsQuantity}
use astrahold_server.Inventory.Slot.{slot_key}

-- What writing the rest of a stack does to the map.
module _ (k : Text) (r : ℕ) (m : Map Text ℕ) where
  pub put_remaining-Distinct : Distinct m → Distinct (put_remaining k r m)
  put_remaining-Distinct d = ground (arith, insert-Distinct k r m, delete-Distinct k m)

  pub put_remaining-quantities :
      r ≤ max_u32 → Entries IsQuantity m → Entries IsQuantity (put_remaining k r m)
  put_remaining-quantities h d =
      ground (arith, insert-Entries IsQuantity k r m, delete-Entries IsQuantity k m)

  pub length-put_remaining :
      Distinct m
      → lookup k m ≢ none
      → length (put_remaining k r m) + (if r == 0 then 1 else 0) ≡ length m
  length-put_remaining d h = ground (arith, length-insert k r m, length-delete k m d)

  pub lookup-put_remaining_ne : (j : Text) → k ≢ j → lookup j (put_remaining k r m) ≡ lookup j m
  lookup-put_remaining_ne j h = ground (arith, lookup-insert k j r m, lookup-delete k j m)

-- The quantity that the stack of an archetype holds.
abbrev pub held : Inventory → Text → ℕ
held i k = get_or 0 (lookup k i.stacks)

pub held-le : (m : Map Text ℕ) (k : Text) → Entries IsQuantity m → get_or 0 (lookup k m) ≤ max_u32
held-le m k h = ground (arith, lookup-Entries IsQuantity k m (get_or 0 (lookup k m)) h)
