-- ===== src/Respawn/Policy.antt =====
-- What a validated policy gives each death: a spawn point of the policy, of an allowed class.
use astrahold_server.Common.{
  Distinct, ℕ, ◌≡◌, refl, ◌⊎◌, inl, inr, Bool, true, false, not, ◌&&◌, ◌||◌, Option, none, some,
  List, [], ◌∷◌, ◌==◌, if◌then◌else◌, ℤ, pos, negsuc, Text, text_key, nat_key, is_empty, arith,
  Bool-cases, Option-cases, subst, length, Map, lookup, insert, Entries, insert-Entries,
}
use astrahold_server.Scene.{is_finite}
use astrahold_server.Respawn.{
  valid_point, Error, unsupported_schema, invalid_definition, invalid_tick_rate, required_contexts,
  SpawnPoint, ContextRule, Definition, PointTable, member, validate, validate_points,
  validate_classes, validate_rules, validate_contexts, valid_rule, valid_death_context,
  positive_finite64, default_allowed,
}
use astrahold_server.Respawn.Service.{
  Service, Scheduled, RuntimeRule, point_table, class_set, rule_table, runtime_rule, build_service,
  new_service,
}

-- The default point of the rule is a point of the table, of an allowed class.
abbrev pub IsBound : Map Text SpawnPoint → RuntimeRule → Type 0
IsBound points r =
    (p : SpawnPoint) × (lookup r.default_point points ≡ some p)
    × (member p.spawn_class r.allowed ≡ true)

-- A point whose position holds no NaN and no infinity.
abbrev pub IsPlaced : SpawnPoint → Type 0
IsPlaced p =
    (is_finite p.position.x ≡ true)
    × (is_finite p.position.y ≡ true)
    × (is_finite p.position.z ≡ true)

-- Every pending respawn stands under its entity, once.
pub record IsTable (pending : Map ℕ Scheduled) : Type 0 where
  pub keyed : Entries (λ entity d. d.entity_id ≡ entity) pending
  pub distinct : Distinct pending

pub record IsValid (s : Service) : Type 0 where
  pub named : Entries (λ id p. p.id ≡ id) s.points
  pub placed : Entries (λ _ p. IsPlaced p) s.points
  pub bound : Entries (λ context r. IsBound s.points r) s.rules
  pub waiting : IsTable s.pending

some_injective {ℓ} : {A : Type ℓ} (a b : A) → some a ≡ some b → a ≡ b
some_injective a b h = ground (arith, h)

unless-some {ℓ} :
    {A : Type ℓ} (b : Bool) (o : Option A) (a : A) → (if b then none else o) ≡ some a → o ≡ some a
unless-some true o a h = ground (arith, h)
unless-some false o a h = h

unless-refuses {ℓ} :
    {A : Type ℓ} (b : Bool) (o : Option A) (a : A) → (if b then none else o) ≡ some a → b ≡ false
unless-refuses true o a h = ground (arith, h)
unless-refuses false o a h = refl

when-some {ℓ} :
    {A : Type ℓ} (b : Bool) (o : Option A) (a : A)
    → (if b then o else none) ≡ some a
    → (b ≡ true) × (o ≡ some a)
when-some true o a h = (refl, h)
when-some false o a h = ground (arith, h)

validate_points-table :
    (ps : List SpawnPoint) (t u : PointTable)
    → validate_points ps t ≡ some u
    → u.points ≡ point_table ps t.points
unfolding validate_points point_table
validate_points-table [] t u h = ground (arith, h)
validate_points-table (p ∷ ps) t u h =
    validate_points-table ps _ u (unless-some _ (validate_points ps _) u h)

valid_point-IsPlaced : (p : SpawnPoint) → valid_point p ≡ true → IsPlaced p
unfolding valid_point
valid_point-IsPlaced p h = ground (arith, h)

accepted_point : (v known : Bool) → not v || known ≡ false → v ≡ true
accepted_point v known h = ground (arith, h)

validate_points-IsPlaced :
    (ps : List SpawnPoint) (t u : PointTable)
    → validate_points ps t ≡ some u
    → Entries (λ _ p. IsPlaced p) t.points
    → Entries (λ _ p. IsPlaced p) u.points
unfolding validate_points
validate_points-IsPlaced [] t u h e =
    subst (λ v. Entries (λ _ p. IsPlaced p) v.points) (some_injective t u h) e
validate_points-IsPlaced (p ∷ ps) t u h e =
    let w = unless-some _ (validate_points ps _) u h in
    validate_points-IsPlaced ps _ u w (
      insert-Entries (λ _ q. IsPlaced q) p.id p t.points
        (valid_point-IsPlaced p (accepted_point _ _ (unless-refuses _ (validate_points ps _) u h)))
        e)

validate_classes-set :
    (counts : Map Text ℕ) (cs allowed result : List Text)
    → validate_classes counts cs allowed ≡ some result
    → result ≡ class_set cs allowed
unfolding validate_classes class_set
validate_classes-set counts [] allowed result h = ground (arith, h)
validate_classes-set counts (c ∷ cs) allowed result h =
    validate_classes-set counts cs (c ∷ allowed) result
      (unless-some _ (validate_classes counts cs (c ∷ allowed)) result h)

last_test : (a b c d e f : Bool) → a && b && c && d && e && f ≡ true → f ≡ true
last_test a b c d e f h = ground (arith, h)

-- The tests of a rule that concern its classes and its default point.
unfoldable classes_test : PointTable → ContextRule → Bool
classes_test t r = elim (validate_classes t.class_counts r.allowed_spawn_classes []) [
  | none ↦ false
  | some allowed ↦ default_allowed (lookup r.default_spawn_point t.points) allowed
]

valid_rule-classes :
    (t : PointTable) (seen : List Text) (r : ContextRule)
    → valid_rule t seen r ≡ true
    → classes_test t r ≡ true
unfolding valid_rule classes_test
valid_rule-classes t seen r h =
    last_test (valid_death_context r.context) (positive_finite64 r.respawn_delay_seconds)
      (not (is_empty r.default_spawn_point)) (not (is_empty r.allowed_spawn_classes))
      (not (member r.context seen)) (classes_test t r) h

impossible : {A : Type 0} → false ≡ true → A
impossible h = ground (arith, h)

default_allowed-some :
    (o : Option SpawnPoint) (allowed : List Text)
    → default_allowed o allowed ≡ true
    → (p : SpawnPoint) × (o ≡ some p) × (member p.spawn_class allowed ≡ true)
unfolding default_allowed
default_allowed-some (some p) allowed h = (p, refl, h)
default_allowed-some none allowed h = impossible h

valid_rule-IsBound :
    (t : PointTable) (seen : List Text) (r : ContextRule) (delay : ℕ)
    → valid_rule t seen r ≡ true
    → IsBound t.points (runtime_rule r delay)
unfolding runtime_rule classes_test
valid_rule-IsBound t seen r delay h =
    let c = valid_rule-classes t seen r h in
    elim (Option-cases (validate_classes t.class_counts r.allowed_spawn_classes [])) [
      | inl failed ↦ ground (arith, c, failed)
      | inr (allowed, good) ↦
          let d =
            default_allowed-some (lookup r.default_spawn_point t.points) allowed
              (rw (good, classes_test) at c) in
          (
            d.0,
            d.1,
            subst (λ set. member d.0.spawn_class set ≡ true)
                (validate_classes-set t.class_counts r.allowed_spawn_classes [] allowed good) d.2,
          )
    ]

-- The rules of a validated list are bound.
rule_table-bound :
    (delay_of : ℕ → ℕ → Option ℕ) (hz : ℕ) (t : PointTable) (rs : List ContextRule)
    (seen seen' : List Text) (rules rules' : Map Text RuntimeRule)
    → validate_rules t rs seen ≡ some seen'
    → rule_table delay_of hz rs rules ≡ some rules'
    → Entries (λ context r. IsBound t.points r) rules
    → Entries (λ context r. IsBound t.points r) rules'
unfolding validate_rules rule_table
rule_table-bound delay_of hz t [] seen seen' rules rules' v h b =
    subst (λ m. Entries (λ context r. IsBound t.points r) m) (some_injective rules rules' h) b
rule_table-bound delay_of hz t (r ∷ rs) seen seen' rules rules' v h b =
    let w = when-some (valid_rule t seen r) (validate_rules t rs (r.context ∷ seen)) seen' v in
    elim (Option-cases (delay_of r.respawn_delay_seconds hz)) [
      | inl failed ↦ ground (arith, h, failed)
      | inr (delay, good) ↦
          rule_table-bound delay_of hz t rs (r.context ∷ seen) seen'
            (insert r.context (runtime_rule r delay) rules) rules' w.1 (rw (good, rule_table) at h)
            (insert-Entries (λ context q. IsBound t.points q) r.context (runtime_rule r delay) rules
              (valid_rule-IsBound t seen r delay w.0) b)
    ]

point_table-named :
    (ps : List SpawnPoint) (points : Map Text SpawnPoint)
    → Entries (λ id p. p.id ≡ id) points
    → Entries (λ id p. p.id ≡ id) (point_table ps points)
unfolding point_table
point_table-named [] points h = h
point_table-named (p ∷ ps) points h =
    point_table-named ps (insert p.id p points)
      (insert-Entries (λ id q. q.id ≡ id) p.id p points refl h)

same_service : (r : Error ⊎ Service) (a b : Service) → r ≡ inr a → r ≡ inr b → a ≡ b
same_service r a b h k = ground (arith, h, k)

refused_service :
    (r : Error ⊎ Service) (e : Error) (s : Service) {A : Type 0} → r ≡ inl e → r ≡ inr s → A
refused_service r e s h k = ground (arith, h, k)

refused_policy : (o : Option Error) (e : Error) {A : Type 0} → o ≡ some e → o ≡ none → A
refused_policy o e h k = ground (arith, h, k)

abbrev built_service : Definition → Map Text RuntimeRule → Service
built_service d table = record {
  revision = d.revision;
  points = point_table d.spawn_points [];
  rules = table;
  checkpoints = [];
  pending = [];
}

built_service-IsValid :
    (d : Definition) (t : PointTable) (table : Map Text RuntimeRule)
    → t.points ≡ point_table d.spawn_points []
    → Entries (λ _ p. IsPlaced p) t.points
    → Entries (λ context r. IsBound t.points r) table
    → IsValid (built_service d table)
built_service-IsValid d t table same placed b = record {
  named = point_table-named d.spawn_points [] tt;
  placed = subst (λ points. Entries (λ _ p. IsPlaced p) points) same placed;
  bound = subst (λ points. Entries (λ context r. IsBound points r) table) same b;
  waiting = record { keyed = tt; distinct = tt };
}

-- The service of a policy that NewService accepts.
build_service-IsValid :
    (delay_of : ℕ → ℕ → Option ℕ) (hz : ℕ) (d : Definition) (t : PointTable) (seen : List Text)
    (s : Service)
    → validate_points d.spawn_points (record { points = []; class_counts = [] }) ≡ some t
    → validate_rules t d.contexts [] ≡ some seen
    → build_service delay_of hz d ≡ inr s
    → IsValid s
unfolding build_service
build_service-IsValid delay_of hz d t seen s points rules h =
    elim (Option-cases (rule_table delay_of hz d.contexts [])) [
      | inl failed ↦ ground (arith, h, failed)
      | inr (table, built) ↦
          let same : built_service d table ≡ s =
            same_service _ (built_service d table) s refl (rw (built, build_service) at h) in
          subst IsValid same (
            built_service-IsValid d t table
              (validate_points-table d.spawn_points (record { points = []; class_counts = [] }) t
                points)
              (validate_points-IsPlaced d.spawn_points (record { points = []; class_counts = [] }) t
                points tt)
              (rule_table-bound delay_of hz t d.contexts [] seen [] table rules built tt))
    ]

validate_contexts-rules :
    (d : Definition) (t : PointTable)
    → validate_contexts d t ≡ none
    → (seen : List Text) × (validate_rules t d.contexts [] ≡ some seen)
unfolding validate_contexts
validate_contexts-rules d t h = elim (Bool-cases (length d.contexts == length required_contexts)) [
  | inr other ↦ refused_policy _ invalid_definition refl (rw (other, validate_contexts) at h)
  | inl three ↦ elim (Option-cases (validate_rules t d.contexts [])) [
    | inl bad ↦ refused_policy _ invalid_definition refl (rw (three, bad, validate_contexts) at h)
    | inr (seen, good) ↦ (seen, good)
  ]
]

validate-tables :
    (d : Definition)
    → validate d ≡ none
    → (t : PointTable) × (seen : List Text) × (validate_points d.spawn_points
          (record { points = []; class_counts = [] })
        ≡ some t)
      × (validate_rules t d.contexts [] ≡ some seen)
unfolding validate
validate-tables d h = elim (Bool-cases (d.schema_version == 2)) [
  | inr other ↦ refused_policy _ unsupported_schema refl (rw (other, validate) at h)
  | inl schema ↦ elim (Bool-cases (is_empty d.revision || is_empty d.spawn_points)) [
    | inl missing ↦ refused_policy _ invalid_definition refl (rw (schema, missing, validate) at h)
    | inr there ↦
        elim (Option-cases
          (validate_points d.spawn_points (record { points = []; class_counts = [] }))) [
            | inl bad ↦
                refused_policy _ invalid_definition refl (rw (schema, there, bad, validate) at h)
            | inr (t, good) ↦
                let r = validate_contexts-rules d t (rw (schema, there, good, validate) at h) in
                (t, r.0, good, r.1)
          ]
  ]
]

pub new_service-IsValid :
    (delay_of : ℕ → ℕ → Option ℕ) (d : Definition) (hz : ℤ) (s : Service)
    → new_service delay_of d hz ≡ inr s
    → IsValid s
unfolding new_service
new_service-IsValid delay_of d hz s h = elim (Option-cases (validate d)) [
  | inr (e, refuses) ↦ refused_service _ e s refl (rw (refuses, new_service) at h)
  | inl accepts ↦
      let v = validate-tables d accepts in
      for_rate hz v.0 v.1 v.2 v.3 (rw (accepts, new_service) at h)
]
  where
    for_rate :
        (rate : ℤ) (t : PointTable) (seen : List Text)
        → validate_points d.spawn_points (record { points = []; class_counts = [] }) ≡ some t
        → validate_rules t d.contexts [] ≡ some seen
        → elim rate [
          | negsuc _ ↦ inl invalid_tick_rate
          | pos n ↦ if n == 0 then inl invalid_tick_rate else build_service delay_of n d
        ]
          ≡ inr s
        → IsValid s
    for_rate (negsuc _) t seen p r k = refused_service _ invalid_tick_rate s refl k
    for_rate (pos n) t seen p r k = elim (Bool-cases (n == 0)) [
      | inl zero_rate ↦ refused_service _ invalid_tick_rate s refl (rw (zero_rate) at k)
      | inr rate ↦ build_service-IsValid delay_of n d t seen s p r (rw (rate) at k)
    ]
