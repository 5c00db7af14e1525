-- ===== src/Respawn/Due.antt =====
-- The respawns that are due, and their order.
use astrahold_server.Common.{
  Option, ℤ, Bool, ℕ, ◌≤◌, ◌≡◌, ◌≢◌, refl, ◌∙◌, ◌⊎◌, ◌↔◌, inl, inr, true, false, none, some, List,
  [], ◌∷◌, leb, nat_key, arith, Bool-cases, sym, subst, ap, Map, lookup,
}
use astrahold_server.Scene.{Position}
use astrahold_server.Respawn.{SpawnPoint, Definition}
use astrahold_server.Respawn.Service.{
  Service, Scheduled, before, insert_due, due_of, due, new_service,
}
use astrahold_server.Respawn.Policy.{IsTable, new_service-IsValid}
use astrahold_server.Respawn.Calls.{Call, run, run-IsValid}

-- All of the list stand behind `a`.
abbrev pub AreBehind : Scheduled → List Scheduled → Type 0
AreBehind a [] = Unit
AreBehind a (b ∷ bs) = (before a b ≡ true) × AreBehind a bs

-- Each stands before all of the later ones, so none stands twice.
abbrev pub IsSorted : List Scheduled → Type 0
IsSorted [] = Unit
IsSorted (a ∷ rest) = AreBehind a rest × IsSorted rest

abbrev pub IsIn : Scheduled → List Scheduled → Type 0
IsIn x [] = false ≡ true
IsIn x (b ∷ bs) = (x ≡ b) ⊎ IsIn x bs

before_trans : (a b c : Scheduled) → before a b ≡ true → before b c ≡ true → before a c ≡ true
unfolding before
before_trans a b c h k = ground (arith, h, k)

before_total :
    (a b : Scheduled) → a.entity_id ≢ b.entity_id → before b a ≡ false → before a b ≡ true
unfolding before
before_total a b other h = ground (arith, other, h)

AreBehind-trans :
    (a b : Scheduled) (bs : List Scheduled) → before a b ≡ true → AreBehind b bs → AreBehind a bs
AreBehind-trans a b [] h s = tt
AreBehind-trans a b (c ∷ cs) h s = (before_trans a b c h s.0, AreBehind-trans a b cs h s.1)

insert_due-AreBehind :
    (a d : Scheduled) (bs : List Scheduled)
    → before a d ≡ true
    → AreBehind a bs
    → AreBehind a (insert_due d bs)
unfolding insert_due
insert_due-AreBehind a d [] h s = (h, tt)
insert_due-AreBehind a d (b ∷ bs) h s = elim (Bool-cases (before b d)) [
  | inl first ↦ rw (first) (s.0, insert_due-AreBehind a d bs h s.1)
  | inr last ↦ rw (last) (h, s)
]

insert_due-IsSorted :
    (d : Scheduled) (bs : List Scheduled)
    → ((x : Scheduled) → IsIn x bs → d.entity_id ≢ x.entity_id)
    → IsSorted bs
    → IsSorted (insert_due d bs)
unfolding insert_due
insert_due-IsSorted d [] others s = (tt, tt)
insert_due-IsSorted d (b ∷ bs) others s = elim (Bool-cases (before b d)) [
  | inl first ↦ rw (first) (
    insert_due-AreBehind b d bs first s.0,
    insert_due-IsSorted d bs (λ x h. others x (inr h)) s.1,
  )
  | inr last ↦
      let leads = before_total d b (others b (inl refl)) last in
      rw (last) ((leads, AreBehind-trans d b bs leads s.0), s)
]

insert_due-from :
    (d x : Scheduled) (bs : List Scheduled) → IsIn x (insert_due d bs) → (x ≡ d) ⊎ IsIn x bs
unfolding insert_due
insert_due-from d x [] h = h
insert_due-from d x (b ∷ bs) h = elim (Bool-cases (before b d)) [
  | inl first ↦ elim (rw (first) at h) [
    | inl same ↦ inr (inl same)
    | inr later ↦ elim (insert_due-from d x bs later) [
      | inl added ↦ inl added
      | inr old ↦ inr (inr old)
    ]
  ]
  | inr last ↦ rw (last) at h
]

insert_due-into :
    (d x : Scheduled) (bs : List Scheduled) → (x ≡ d) ⊎ IsIn x bs → IsIn x (insert_due d bs)
unfolding insert_due
insert_due-into d x [] h = h
insert_due-into d x (b ∷ bs) h = elim (Bool-cases (before b d)) [
  | inl first ↦ rw (first) (passed (insert_due-into d x bs) h)
  | inr last ↦ rw (last) h
]
  where
    passed :
        ((x ≡ d) ⊎ IsIn x bs → IsIn x (insert_due d bs))
        → (x ≡ d) ⊎ IsIn x (b ∷ bs)
        → (x ≡ b) ⊎ IsIn x (insert_due d bs)
    passed into (inl added) = inr (into (inl added))
    passed into (inr (inl same)) = inl same
    passed into (inr (inr old)) = inr (into (inr old))

abbrev Waits : ℕ → Map ℕ Scheduled → Scheduled → Type 0
Waits tick pending x = (lookup x.entity_id pending ≡ some x) × (x.due_tick ≤ tick)

abbrev tail_table : (k : ℕ) (d : Scheduled) (m : Map ℕ Scheduled) → IsTable ((k, d) ∷ m) → IsTable m
tail_table k d m t = record { keyed = t.keyed.1; distinct = t.distinct.1 }

lookup-first : (k : ℕ) (d : Scheduled) (m : Map ℕ Scheduled) → lookup k ((k, d) ∷ m) ≡ some d
unfolding lookup
lookup-first k d m = ground arith

lookup-later :
    (k j : ℕ) (d x : Scheduled) (m : Map ℕ Scheduled)
    → lookup k m ≡ none
    → lookup j m ≡ some x
    → lookup j ((k, d) ∷ m) ≡ some x
unfolding lookup
lookup-later k j d x m a h = ground (arith, a, h)

lookup-either :
    (k j : ℕ) (d x : Scheduled) (m : Map ℕ Scheduled)
    → lookup j ((k, d) ∷ m) ≡ some x
    → (x ≡ d) ⊎ (lookup j m ≡ some x)
unfolding lookup
lookup-either k j d x m h = ground (arith, h)

due_of-Waits :
    (tick : ℕ) (m : Map ℕ Scheduled) (x : Scheduled)
    → IsTable m
    → IsIn x (due_of tick m)
    → Waits tick m x
unfolding due_of
due_of-Waits tick [] x t h = ground (arith, h)
due_of-Waits tick ((k, d) ∷ m) x t h = elim (Bool-cases (leb d.due_tick tick)) [
  | inl ready ↦ elim (insert_due-from d x (due_of tick m) (rw (ready) at h)) [
    | inl same ↦ subst (Waits tick ((k, d) ∷ m)) (sym same) (
      subst (λ e. lookup e ((k, d) ∷ m) ≡ some d) (sym t.keyed.0) (lookup-first k d m),
      ground (arith, ready),
    )
    | inr rest ↦ older (due_of-Waits tick m x (tail_table k d m t) rest)
  ]
  | inr waits ↦ older (due_of-Waits tick m x (tail_table k d m t) (rw (waits) at h))
]
  where
    older : Waits tick m x → Waits tick ((k, d) ∷ m) x
    older w = (lookup-later k x.entity_id d x m t.distinct.0 w.0, w.1)

never_both : {A : Type 0} (o : Option Scheduled) (x : Scheduled) → o ≡ none → o ≡ some x → A
never_both o x h k = ground (arith, h, k)

-- The entity of a new entry is none of those that wait.
due_of-others :
    (tick k : ℕ) (d : Scheduled) (m : Map ℕ Scheduled)
    → IsTable ((k, d) ∷ m)
    → (x : Scheduled) → IsIn x (due_of tick m)
    → d.entity_id ≢ x.entity_id
due_of-others tick k d m t x h = λ same.
    let w = due_of-Waits tick m x (tail_table k d m t) h in
    never_both (lookup k m) x t.distinct.0
      (subst (λ e. lookup e m ≡ some x) (sym same ∙ t.keyed.0) w.0)

due_of-IsSorted :
    (tick : ℕ) (pending : Map ℕ Scheduled) → IsTable pending → IsSorted (due_of tick pending)
unfolding due_of
due_of-IsSorted tick [] t = tt
due_of-IsSorted tick ((k, d) ∷ pending) t =
    let rest = due_of-IsSorted tick pending (tail_table k d pending t) in
    elim (Bool-cases (leb d.due_tick tick)) [
      | inl ready ↦
          rw (ready)
            (insert_due-IsSorted d (due_of tick pending) (due_of-others tick k d pending t) rest)
      | inr waits ↦ rw (waits) rest
    ]

nothing_there : (x : Scheduled) → lookup x.entity_id [] ≡ some x → false ≡ true
unfolding lookup
nothing_there x h = ground (arith, h)

due_of-IsIn :
    (tick : ℕ) (m : Map ℕ Scheduled) (x : Scheduled) → Waits tick m x → IsIn x (due_of tick m)
unfolding due_of
due_of-IsIn tick [] x w = nothing_there x w.0
due_of-IsIn tick ((k, d) ∷ m) x w = elim (lookup-either k x.entity_id d x m w.0) [
  | inl same ↦ elim (Bool-cases (leb d.due_tick tick)) [
    | inl ready ↦ rw (ready) (insert_due-into d x (due_of tick m) (inl same))
    | inr waits ↦ ground (arith, waits, ap (λ y. y.due_tick) same, w.1)
  ]
  | inr rest ↦ elim (Bool-cases (leb d.due_tick tick)) [
    | inl ready ↦
        rw (ready) (insert_due-into d x (due_of tick m) (inr (due_of-IsIn tick m x (rest, w.1))))
    | inr waits ↦ rw (waits) (due_of-IsIn tick m x (rest, w.1))
  ]
]

due-IsSorted :
    (s : Service) (tick : ℕ)
    → IsTable s.pending
    → IsSorted (due s tick)
      × ((x : Scheduled)
          → IsIn x (due s tick) ↔ ((lookup x.entity_id s.pending ≡ some x) × (x.due_tick ≤ tick)))
unfolding due
due-IsSorted s tick t = (
  due_of-IsSorted tick s.pending t,
  λ x. (due_of-Waits tick s.pending x t, due_of-IsIn tick s.pending x),
)

-- With a policy that NewService accepted, whatever was called since: Due returns exactly the
-- pending respawns whose tick has come, each once, by tick and then by entity.
pub due-run :
    (delay_of : ℕ → ℕ → Option ℕ) (in_range : Position → SpawnPoint → Bool) (d : Definition)
    (hz : ℤ) (first : Service) (cs : List Call) (tick : ℕ)
    → new_service delay_of d hz ≡ inr first
    → let s = run in_range first cs in
      IsSorted (due s tick)
      × ((x : Scheduled)
          → IsIn x (due s tick) ↔ ((lookup x.entity_id s.pending ≡ some x) × (x.due_tick ≤ tick)))
due-run delay_of in_range d hz first cs tick accepted =
    let s = run in_range first cs in
    let v = run-IsValid in_range first cs (new_service-IsValid delay_of d hz first accepted) in
    due-IsSorted s tick v.waiting
