-- ===== src/Penalty/Once.antt =====
-- Each defeat is applied at most once.
use astrahold_server.Common.{
  ℕ, ◌+◌, ◌≤◌, ◌<◌, ◌≡◌, ◌≢◌, refl, ◌⊎◌, inl, inr, Bool, true, false, ◌&&◌, List, [], ◌∷◌, ltb,
  ◌==◌, if◌then◌else◌, Text, nat_key, lookup, get_or, lookup-insert, lookup-delete, subst, arith,
  Bool-cases,
}
use astrahold_server.Penalty.{
  Service, Decision, Error, apply, apply_after, remove, valid_death_context,
}

pub record Request : Type 0 where
  pub entity : ℕ
  pub revision : ℕ
  pub context : Text

abbrev pub applies : Error ⊎ Decision → Bool
applies (inl _) = false
applies (inr d) = d.applied

abbrev is_defeat : ℕ → ℕ → Request → Bool
is_defeat entity revision r = r.entity == entity && r.revision == revision

pub data Call : Type 0 where
  apply_call : Request → Call
  remove_call : ℕ → Call

-- How often the calls, one after another, apply this defeat of this entity.
unfoldable pub times_applied : ℕ → ℕ → Service → List Call → ℕ
times_applied entity revision s [] = 0
times_applied entity revision s (apply_call r ∷ cs) =
    let a = apply s r.entity r.revision r.context in
    let rest = times_applied entity revision a.0 cs in
    (if is_defeat entity revision r && applies a.1 then 1 else 0) + rest
times_applied entity revision s (remove_call other ∷ cs) =
    times_applied entity revision (remove s other) cs

-- No call removes the entity.
abbrev pub AreStays : ℕ → List Call → Type 0
AreStays entity [] = Unit
AreStays entity (apply_call _ ∷ cs) = AreStays entity cs
AreStays entity (remove_call other ∷ cs) = (other ≢ entity) × AreStays entity cs

abbrev pub last_applied : Service → ℕ → ℕ
last_applied s entity = get_or 0 (lookup entity s.applied_revision)

-- What Apply does to the revisions.
pub record Moves (s : Service) (r : Request) (a : Service × (Error ⊎ Decision)) : Type 0 where
  pub elsewhere : (entity : ℕ) → entity ≢ r.entity → last_applied a.0 entity ≡ last_applied s entity
  pub once :
      ((applies a.1 ≡ true)
        × (last_applied s r.entity < r.revision)
        × (last_applied a.0 r.entity ≡ r.revision))
      ⊎ ((applies a.1 ≡ false) × (last_applied a.0 r.entity ≡ last_applied s r.entity))

stays : (s : Service) (r : Request) (e : Error ⊎ Decision) → applies e ≡ false → Moves s r (s, e)
stays s r e h = record { elsewhere = λ entity other. refl; once = inr (h, refl) }

apply_after-Moves :
    (s : Service) (r : Request)
    → Moves s r (apply_after s r.entity r.revision r.context (last_applied s r.entity))
unfolding apply_after
apply_after-Moves s r = elim (Bool-cases (ltb r.revision (last_applied s r.entity))) [
  | inl older ↦ rw (older, apply_after) (stays s r _ refl)
  | inr current ↦ elim (Bool-cases (r.revision == last_applied s r.entity)) [
    | inl again ↦ rw (current, apply_after, again) (stays s r _ refl)
    | inr newer ↦
        rw (current, apply_after, newer)
          (record {
            elsewhere = λ entity other.
                ground (arith, other, lookup-insert r.entity entity r.revision s.applied_revision);
            once = inl (
              refl,
              ground (arith, current, newer),
              ground (arith, lookup-insert r.entity r.entity r.revision s.applied_revision),
            );
          })
  ]
]

apply-Moves : (s : Service) (r : Request) → Moves s r (apply s r.entity r.revision r.context)
unfolding apply
apply-Moves s r = elim (Bool-cases (r.entity == 0)) [
  | inl no_entity ↦ rw (no_entity, apply) (stays s r _ refl)
  | inr entity ↦ elim (Bool-cases (r.revision == 0)) [
    | inl no_revision ↦ rw (entity, apply, no_revision) (stays s r _ refl)
    | inr revision ↦ elim (Bool-cases (valid_death_context r.context)) [
      | inl known ↦ rw (entity, apply, revision, known) (apply_after-Moves s r)
      | inr unknown ↦ rw (entity, apply, revision, unknown) (stays s r _ refl)
    ]
  ]
]

-- The summand of one request.
abbrev counted : ℕ → ℕ → Request → Service × (Error ⊎ Decision) → ℕ
counted entity revision r a = if is_defeat entity revision r && applies a.1 then 1 else 0

-- A request that counts leaves the revision of the defeat; any other leaves no older revision.
counted-Moves :
    (entity revision : ℕ) (s : Service) (r : Request) (a : Service × (Error ⊎ Decision))
    → Moves s r a
    → (last_applied s entity ≤ last_applied a.0 entity)
      × (((counted entity revision r a ≡ 1)
            × (last_applied s entity < revision)
            × (last_applied a.0 entity ≡ revision))
          ⊎ (counted entity revision r a ≡ 0))
counted-Moves entity revision s r a m = elim (Bool-cases (r.entity == entity)) [
  | inr other ↦ ground (arith, m.elsewhere entity, other)
  | inl same ↦ at_entity entity (ground (arith, same)) (Bool-cases (r.revision == revision))
]
  where
    at_entity :
        (e : ℕ)
        → r.entity ≡ e
        → ((r.revision == revision) ≡ true) ⊎ ((r.revision == revision) ≡ false)
        → (last_applied s e ≤ last_applied a.0 e)
          × (((counted e revision r a ≡ 1)
                × (last_applied s e < revision)
                × (last_applied a.0 e ≡ revision))
              ⊎ (counted e revision r a ≡ 0))
    at_entity e same cases =
        subst
          (λ k.
            (last_applied s k ≤ last_applied a.0 k)
            × (((counted k revision r a ≡ 1)
                  × (last_applied s k < revision)
                  × (last_applied a.0 k ≡ revision))
                ⊎ (counted k revision r a ≡ 0)))
          same (ground (arith, m.once, cases))

remove-last_applied :
    (s : Service) (other entity : ℕ)
    → other ≢ entity
    → last_applied (remove s other) entity ≡ last_applied s entity
unfolding remove
remove-last_applied s other entity h =
    ground (arith, h, lookup-delete other entity s.applied_revision)

times_applied_past :
    (entity revision : ℕ) (s : Service) (cs : List Call)
    → AreStays entity cs
    → revision ≤ last_applied s entity
    → times_applied entity revision s cs ≡ 0
unfolding times_applied
times_applied_past entity revision s [] k h = refl
times_applied_past entity revision s (apply_call r ∷ cs) k h =
    let a = apply s r.entity r.revision r.context in
    let m = counted-Moves entity revision s r a (apply-Moves s r) in
    let later = times_applied_past entity revision a.0 cs k (ground (arith, m, h)) in
    ground (arith, m, h, later)
times_applied_past entity revision s (remove_call other ∷ cs) k h =
    times_applied_past entity revision (remove s other) cs k.1
      (ground (arith, h, remove-last_applied s other entity k.0))

-- Whatever the calls, and in whatever order, while none removes the entity: a defeat of it is
-- applied at most once.
pub times_applied-bounds :
    (entity revision : ℕ) (s : Service) (cs : List Call)
    → AreStays entity cs
    → times_applied entity revision s cs ≤ 1
unfolding times_applied
times_applied-bounds entity revision s [] k = omega arith
times_applied-bounds entity revision s (apply_call r ∷ cs) k =
    let a = apply s r.entity r.revision r.context in
    elim (counted-Moves entity revision s r a (apply-Moves s r)).1 [
      | inl counts ↦
          ground
            (arith, counts, times_applied_past entity revision a.0 cs k (ground (arith, counts)))
      | inr none_now ↦ ground (arith, none_now, times_applied-bounds entity revision a.0 cs k)
    ]
times_applied-bounds entity revision s (remove_call other ∷ cs) k =
    times_applied-bounds entity revision (remove s other) cs k.1

apply-applies :
    (s : Service) (r : Request)
    → r.entity ≢ 0
    → valid_death_context r.context ≡ true
    → last_applied s r.entity < r.revision
    → applies (apply s r.entity r.revision r.context).1 ≡ true
unfolding apply apply_after
apply-applies s r e c n =
    let entity : (r.entity == 0) ≡ false = ground (arith, e) in
    let revision : (r.revision == 0) ≡ false = ground (arith, n) in
    let newer : (ltb r.revision (last_applied s r.entity) ≡ false)
        × ((r.revision == last_applied s r.entity) ≡ false) =
      ground (arith, n) in
    rw (entity, apply, revision, c, apply_after, newer.0, newer.1) refl

remove-forgets : (s : Service) (entity : ℕ) → last_applied (remove s entity) entity ≡ 0
unfolding remove
remove-forgets s entity = ground (arith, lookup-delete entity entity s.applied_revision)

-- A request of a new defeat, in a known context, is applied now, and not again by any calls of
-- Apply and Remove among which none is a Remove of its entity; once its entity was removed, the
-- same request is applied again.
pub times_applied_once :
    (s : Service) (r : Request) (cs : List Call)
    → r.entity ≢ 0
    → valid_death_context r.context ≡ true
    → last_applied s r.entity < r.revision
    → AreStays r.entity cs
    → (times_applied r.entity r.revision s (apply_call r ∷ cs) ≡ 1)
      × (applies
            (apply
              (remove (apply s r.entity r.revision r.context).0 r.entity)
              r.entity
              r.revision
              r.context).1
          ≡ true)
unfolding times_applied
times_applied_once s r cs e c n k =
    let a = apply s r.entity r.revision r.context in
    let now : counted r.entity r.revision r a ≡ 1 = ground (arith, apply-applies s r e c n) in
    let m = counted-Moves r.entity r.revision s r a (apply-Moves s r) in
    (
      ground (arith, now, m, times_applied_past r.entity r.revision a.0 cs k),
      apply-applies (remove a.0 r.entity) r e c (ground (arith, n, remove-forgets a.0 r.entity)),
    )
