-- ===== src/Examples/Stores.antt =====
-- Runs of the threat tables, the effects, the target resources and the ownership store
-- (internal/threat, internal/status, internal/targetresource and internal/siegeownership).
use astrahold_server.Common.{
  ℕ, ◌≡◌, refl, ◌⊎◌, inr, true, false, none, some, List, [], ◌∷◌, arith, Text, codes, lookup,
  ℕ_discrete, Text-discrete, Distinct, nat_key,
}
use astrahold_server.Threat.{Table, highest_valid, counts, nothing}
use astrahold_server.Threat.Highest.{Beats, IsCandidate, highest_valid-Best, highest_valid-order}
use astrahold_server.Status
use astrahold_server.Status.Effects.{
  run, writes, run-writes, apply-value, apply_call, value_call, remove_call,
}
use astrahold_server.TargetResource
use astrahold_server.TargetResource.Cooldown.{try_gain_cools_down}
use astrahold_server.TargetResource.{resource_key}
use astrahold_server.TargetResource.Bounds.{
  run-new_store-IsValid, spend-gain, try_gain_call, gain_call, spend_call, clear_call,
}
use astrahold_server.Siege.{CastleOwnershipState, CastleOwnershipTransfer}
use astrahold_server.Ownership
use astrahold_server.Ownership.{
  answer, answer_write, write_locked, failure, revision_conflict, written, not_written, not_synced,
  transferred, load_locked, loaded, commit, load_or_create, wire_of, decoded,
}
use astrahold_server.Ownership.Commits.{
  commit-retry, commit-fences, commit-elsewhere, load_or_create_once,
}

abbrev table : Table
table = record { values = (4, 10) ∷ (2, 30) ∷ (7, 30) ∷ [] }

abbrev turned_table : Table
turned_table = record { values = (7, 30) ∷ (4, 10) ∷ (2, 30) ∷ [] }

highest_is_lowest_entity :
    (highest_valid table none).1 ≡ record { entity = 2; threat = 30; found = true }
unfolding highest_valid
highest_is_lowest_entity = refl

table-Distinct : Distinct table.values
unfolding lookup
table-Distinct = ground arith

turned_table-Distinct : Distinct turned_table.values
unfolding lookup
turned_table-Distinct = ground arith

same_tables : (entity : ℕ) → lookup entity table.values ≡ lookup entity turned_table.values
unfolding lookup
same_tables entity = ground arith

highest_valid-order_example : (highest_valid table none).1 ≡ (highest_valid turned_table none).1
highest_valid-order_example =
    highest_valid-order table turned_table none table-Distinct turned_table-Distinct same_tables

highest_valid-Best_example :
    let r = (highest_valid table none).1 in
    ((r ≡ nothing) ⊎ IsCandidate none table.values r)
    × ((entity threat : ℕ)
        → lookup entity table.values ≡ some threat
        → counts none entity threat ≡ true
        → Beats r entity threat)
highest_valid-Best_example = highest_valid-Best table none table-Distinct

abbrev fortify : Text
fortify = codes "self_damage_reduction"

abbrev effect_calls : List Status.Effects.Call
effect_calls =
    apply_call 10 fortify 45 62
    ∷ value_call 10 fortify 70
    ∷ apply_call 11 fortify 20 100
    ∷ remove_call 10 fortify
    ∷ []

run-writes_example :
    (Status.value (run Status.new_store effect_calls) 11 fortify 80).1
    ≡ (Status.value (run Status.new_store (writes effect_calls)) 11 fortify 80).1
run-writes_example = run-writes effect_calls 11 fortify 80 (omega arith, tt) (ground arith) refl

abbrev flaw : TargetResource.ResourceKey
flaw = (10, 20, codes "flaw")

abbrev resource_calls : List TargetResource.Bounds.Call
resource_calls =
    try_gain_call flaw 1 3 5 55 ∷ gain_call flaw 9 3 ∷ spend_call flaw 2 ∷ clear_call 20 ∷ []

run-new_store-IsValid_example :
    TargetResource.Bounds.IsValid
      (TargetResource.Bounds.run TargetResource.new_store resource_calls)
run-new_store-IsValid_example =
    run-new_store-IsValid resource_calls
      ((omega arith, omega arith), ((omega arith, omega arith), (omega arith, (tt, tt))))

abbrev one_state : TargetResource.State
one_state = record { current = 1; max = 3; ready_tick = 55 }

abbrev one_resource : TargetResource.Store
one_resource = record { states = (flaw, one_state) ∷ [] }

one_resource-IsValid : TargetResource.Bounds.IsValid one_resource
unfolding lookup TargetResource.valid_key
one_resource-IsValid = (ground arith, λ key st e. ground arith)

abbrev built : TargetResource.Gain
built = TargetResource.try_gain one_resource flaw 1 3 60 110

built_changed : built.2 ≡ true
unfolding TargetResource.try_gain TargetResource.valid_key lookup Text-discrete ℕ_discrete
    TargetResource.ResourceKey-discrete
built_changed = refl

-- A spend and a TryGain with another maximum come between.
abbrev between : List TargetResource.Bounds.Call
between =
    TargetResource.Bounds.spend_call flaw 2
    ∷ TargetResource.Bounds.try_gain_call flaw 1 5 70 80
    ∷ TargetResource.Bounds.clear_call 77
    ∷ []

try_gain_cools_down_example :
    let u = TargetResource.Bounds.run built.0 between in
    ((TargetResource.try_gain u flaw 1 4 100 150).0 ≡ u)
    × ((TargetResource.try_gain u flaw 1 4 100 150).2 ≡ false)
try_gain_cools_down_example =
    try_gain_cools_down one_resource flaw 1 3 60 110 between 100 150 1 4 one_resource-IsValid
      (omega arith, omega arith) (omega arith, ((omega arith, omega arith), (omega arith, tt)))
      (tt, (inr (omega arith), (refl, tt))) built_changed (omega arith)

abbrev world : Text
world = codes "w"

abbrev red : Text
red = codes "red"

abbrev blue : Text
blue = codes "blue"

abbrev owned : CastleOwnershipState
owned = record {
  revision = 1;
  owner_id = blue;
  previous_owner_id = [];
  last_transfer_match_id = [];
}

abbrev owned_store : Ownership.Store
owned_store = record { files = (world, decoded (wire_of world owned)) ∷ [] }

owned_store_loads : load_locked owned_store world ≡ loaded owned
unfolding load_locked lookup Text-discrete ℕ_discrete
owned_store_loads = refl

abbrev transfer : CastleOwnershipTransfer
transfer = record {
  expected_revision = 1;
  previous_owner_id = blue;
  owner_id = red;
  match_id = codes "m";
}

abbrev rival : CastleOwnershipTransfer
rival = record transfer { match_id = codes "n" }

transfer-Applies : Ownership.Commits.Applies world transfer owned
unfolding Text-discrete ℕ_discrete
transfer-Applies = (refl, refl, refl, refl, omega arith)

commit-retry_example :
    let r = commit (commit owned_store world transfer not_synced).0 world transfer written in
    (r.1 ≡ answer (transferred owned transfer) false)
    × (load_locked r.0 world ≡ loaded (transferred owned transfer))
commit-retry_example =
    commit-retry owned_store world transfer owned owned_store_loads transfer-Applies not_synced

commit-fences_example :
    let after = (commit owned_store world transfer written).0 in
    commit after world rival written ≡ (after, failure revision_conflict)
commit-fences_example =
    commit-fences owned_store world transfer owned owned_store_loads transfer-Applies rival written
      refl refl (inr (ground arith))
