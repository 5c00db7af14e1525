-- ===== src/Penalty.antt =====
-- The penalty of a death, once for each defeat (internal/deathpenalty/policy.go). Load and LoadFile
-- are not modelled.
pub mod Once
use astrahold_server.Common.{
  ℕ, ◌≡◌, ◌⊎◌, inl, inr, Bool, true, false, not, ◌&&◌, ◌||◌, Option, none, some, List, [], ◌∷◌, ltb,
  ◌==◌, ◌=?◌, if◌then◌else◌, Text, text_key, nat_key, codes, is_empty, Map, lookup, insert, delete,
  get_or,
}

pub data Error : Type 0 where
  unsupported_schema invalid_definition invalid_entity invalid_revision : Error
  revision_regression : Error

pub record Definition : Type 0 where
  pub schema_version : ℕ
  pub revision : Text
  pub checkpoint_forfeit_contexts : List Text

unfoldable pub valid_death_context : Text → Bool
valid_death_context c = c =? codes "pve" || c =? codes "pvp" || c =? codes "siege"

unfoldable pub holds : Text → List Text → Bool
holds c [] = false
holds c (d ∷ ds) = c =? d || holds c ds

-- The loop of Validate over the contexts, and of NewService, which leaves the same set.
unfoldable pub validate_contexts : List Text → List Text → Option (List Text)
unfolding valid_death_context holds
validate_contexts [] seen = some seen
validate_contexts (c ∷ cs) seen =
    let rest = validate_contexts cs (c ∷ seen) in
    if not (valid_death_context c) || holds c seen then none else rest

unfoldable pub validate : Definition → Option Error
unfolding validate_contexts
validate d =
    if not (d.schema_version == 1)
    then some unsupported_schema
    else if is_empty d.revision
    then some invalid_definition
    else elim (validate_contexts d.checkpoint_forfeit_contexts []) [
      | none ↦ some invalid_definition
      | some _ ↦ none
    ]

pub record Service : Type 0 where
  pub revision : Text
  pub checkpoint_forfeit : List Text
  pub applied_revision : Map ℕ ℕ

-- A set is the list of its members.
unfoldable pub new_service : Definition → Error ⊎ Service
unfolding validate
new_service d = elim (validate d) [
  | some e ↦ inl e
  | none ↦ inr (record {
    revision = d.revision;
    checkpoint_forfeit = d.checkpoint_forfeit_contexts;
    applied_revision = [];
  })
]

unfoldable pub forfeits_checkpoint : Service → Text → Bool
unfolding holds
forfeits_checkpoint s c = holds c s.checkpoint_forfeit

-- Whether the checkpoint is forfeited, and whether the revision was applied now.
pub record Decision : Type 0 where
  pub forfeit_checkpoint : Bool
  pub applied : Bool

abbrev pub not_again : Decision
not_again = record { forfeit_checkpoint = false; applied = false }

-- Apply of a valid request, by the last applied revision of the entity.
unfoldable pub apply_after : Service → ℕ → ℕ → Text → ℕ → Service × (Error ⊎ Decision)
unfolding forfeits_checkpoint
apply_after s entity revision context last =
    if ltb revision last
    then (s, inl revision_regression)
    else if revision == last
    then (s, inr not_again)
    else (
      record s { applied_revision = insert entity revision s.applied_revision },
      inr (record { forfeit_checkpoint = forfeits_checkpoint s context; applied = true }),
    )

unfoldable pub apply : Service → ℕ → ℕ → Text → Service × (Error ⊎ Decision)
unfolding apply_after valid_death_context
apply s entity revision context =
    if entity == 0
    then (s, inl invalid_entity)
    else if revision == 0
    then (s, inl invalid_revision)
    else if valid_death_context context
    then apply_after s entity revision context (get_or 0 (lookup entity s.applied_revision))
    else (s, inl invalid_definition)

unfoldable pub remove : Service → ℕ → Service
remove s entity = record s { applied_revision = delete entity s.applied_revision }
