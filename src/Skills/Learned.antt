-- ===== src/Skills/Learned.antt =====
-- NewSet answers the requested skills in the order of the catalog
-- (internal/learnedskills/set.go).
use astrahold_server.Common.{
  Text-discrete, ℕ_discrete, ℕ, zero, suc, ◌+◌, ◌%◌, ◌≤◌, ◌<◌, ◌≡◌, refl, ◌∙◌, sym, subst, ap, ◌⊎◌,
  inl, inr, Bool, true, false, not, ◌&&◌, ◌||◌, List, [], ◌∷◌, ◌++◌, leb, ◌=?◌, if◌then◌else◌, Text,
  text_key, length, append_assoc, append-nil, arith, Bool-cases, Option-cases, is_some,
}
use astrahold_server.Skills.{
  Definition, Error, definitions, find, lookup_skill, holds, LearnedSet, set_at, first_ids, request,
  put_id, fill, unknown_skill, duplicate_skill,
}

abbrev pub names : List Definition → List Text
names [] = []
names (d ∷ ds) = d.id ∷ names ds

-- The requested names, in the order of the definitions.
unfoldable pub picked : List Text → List Definition → List Text
picked r [] = []
picked r (d ∷ ds) = let rest = picked r ds in if holds d.id r then d.id ∷ rest else rest

pub =?-sound : (x y : Text) → (x =? y) ≡ true → x ≡ y
=?-sound x y h = ground (arith, h)

length-set_at : (i : ℕ) (x : Text) (xs : List Text) → length (set_at i x xs) ≡ length xs
unfolding set_at
length-set_at i x [] = refl
length-set_at zero x (y ∷ ys) = refl
length-set_at (suc i) x (y ∷ ys) = ground (arith, length-set_at i x ys)

first_ids-set_at :
    (i : ℕ) (x : Text) (xs : List Text)
    → i < length xs
    → first_ids (i + 1) (set_at i x xs) ≡ first_ids i xs ++ (x ∷ [])
unfolding set_at first_ids
first_ids-set_at i x [] h = ground (arith, h)
first_ids-set_at zero x (y ∷ ys) h = refl
first_ids-set_at (suc i) x (y ∷ ys) h = ground (arith, first_ids-set_at i x ys (omega (arith, h)))

put_id_lem :
    (s : LearnedSet) (x : Text)
    → s.count < length s.ids
    → length s.ids < 256
    → let t = put_id s x in
      (t.count ≡ s.count + 1)
      × (length t.ids ≡ length s.ids)
      × (first_ids t.count t.ids ≡ first_ids s.count s.ids ++ (x ∷ []))
unfolding put_id
put_id_lem s x h small =
    let wraps : (s.count + 1) % 256 ≡ s.count + 1 = omega (arith, h, small) in
    (
      wraps,
      length-set_at s.count x s.ids,
      ap (λ n. first_ids n (set_at s.count x s.ids)) wraps ∙ first_ids-set_at s.count x s.ids h,
    )

-- What the second loop of NewSet leaves.
pub record Filled (r : List Text) (ds : List Definition) (s : LearnedSet) : Type 0 where
  pub set : LearnedSet
  pub filled : fill r ds s ≡ inr set
  pub used : first_ids set.count set.ids ≡ first_ids s.count s.ids ++ picked r ds
  pub counts : set.count ≡ s.count + length (picked r ds)
  pub size : length set.ids ≡ length s.ids

pub fill-Filled :
    (r : List Text) (ds : List Definition) (s : LearnedSet)
    → s.count + length ds ≤ length s.ids
    → length s.ids < 256
    → Filled r ds s
unfolding fill picked
fill-Filled r [] s h small = record {
  set = s;
  filled = refl;
  used = sym (append-nil (first_ids s.count s.ids));
  counts = omega arith;
  size = refl;
}
fill-Filled r (d ∷ ds) s h small = elim (Bool-cases (holds d.id r)) [
  | inr skipped ↦
      let f = fill-Filled r ds s (omega (arith, h)) small in
      record {
        set = f.set;
        filled = rw (skipped, fill) f.filled;
        used = rw (skipped, picked) f.used;
        counts = rw (skipped, picked) f.counts;
        size = f.size;
      }
  | inl wanted ↦
      let t = put_id s d.id in
      let room : leb (length s.ids) s.count ≡ false = ground (arith, h) in
      let p = put_id_lem s d.id (omega (arith, h)) small in
      let f = fill-Filled r ds t (ground (arith, h, p)) (ground (arith, small, p)) in
      record {
        set = f.set;
        filled = rw (wanted, fill, room) f.filled;
        used =
            f.used
            ∙ ap (λ front. front ++ picked r ds) p.2
            ∙ append_assoc (first_ids s.count s.ids) (d.id ∷ []) (picked r ds)
            ∙ ap (λ rest. first_ids s.count s.ids ++ rest) (rw (wanted, picked) refl);
        counts = rw (wanted, picked) ground (arith, f.counts, p);
        size = f.size ∙ p.1;
      }
]

pub fill-same :
    (r q : List Text) (ds : List Definition) (s : LearnedSet)
    → ((x : Text) → holds x r ≡ holds x q)
    → fill r ds s ≡ fill q ds s
unfolding fill
fill-same r q [] s h = refl
fill-same r q (d ∷ ds) s h = elim (Bool-cases (holds d.id q)) [
  | inr skipped ↦ rw (h d.id, fill, skipped) (fill-same r q ds s h)
  | inl wanted ↦ elim (Bool-cases (leb (length s.ids) s.count)) [
    | inl full ↦ rw (h d.id, fill, wanted, full) refl
    | inr room ↦ rw (h d.id, fill, wanted, room) (fill-same r q ds (put_id s d.id) h)
  ]
]

-- All of the names are known skills.
unfoldable pub all_known : List Text → Bool
unfolding lookup_skill
all_known [] = true
all_known (id ∷ ids) = is_some (lookup_skill id) && all_known ids

-- No name is seen twice.
unfoldable pub fresh : List Text → List Text → Bool
fresh [] seen = true
fresh (id ∷ ids) seen = not (holds id seen) && fresh ids (id ∷ seen)

pub record Requested (ids seen r : List Text) : Type 0 where
  pub known : all_known ids ≡ true
  pub distinct : fresh ids seen ≡ true
  pub members : (x : Text) → holds x r ≡ holds x ids || holds x seen
  pub size : length r ≡ length ids + length seen

no_set :
    (r : Error ⊎ List Text) (e : Error) (q : List Text) {A : Type 0} → r ≡ inl e → r ≡ inr q → A
no_set r e q h k = ground (arith, h, k)

same_request : (q r : List Text) (x : Error ⊎ List Text) → x ≡ inr q → x ≡ inr r → q ≡ r
same_request q r x h k = ground (arith, h, k)

-- What the first loop of NewSet collects when it accepts the names.
pub request-Requested : (ids seen r : List Text) → request ids seen ≡ inr r → Requested ids seen r
unfolding request all_known fresh holds
request-Requested [] seen r h =
    let same = same_request seen r _ refl h in
    record {
      known = refl;
      distinct = refl;
      members = λ x. ap (λ q. holds x q) (sym same);
      size = ap (λ q. length q) (sym same) ∙ omega arith;
    }
request-Requested (id ∷ ids) seen r h = elim (Option-cases (lookup_skill id)) [
  | inl missing ↦ no_set _ unknown_skill r refl (rw (missing, request) at h)
  | inr (d, found) ↦ elim (Bool-cases (holds id seen)) [
    | inl twice ↦ no_set _ duplicate_skill r refl (rw (found, twice, request) at h)
    | inr once ↦
        let q = request-Requested ids (id ∷ seen) r (rw (found, once, request) at h) in
        record {
          known = rw (found, all_known) q.known;
          distinct = rw (once, fresh) q.distinct;
          members = λ x. ground (arith, q.members x);
          size = omega (arith, q.size);
        }
  ]
]

pub request_succeeds :
    (ids seen : List Text)
    → all_known ids ≡ true
    → fresh ids seen ≡ true
    → (r : List Text) × (request ids seen ≡ inr r)
unfolding request all_known fresh
request_succeeds [] seen k f = (seen, refl)
request_succeeds (id ∷ ids) seen k f = elim (Option-cases (lookup_skill id)) [
  | inl missing ↦ ground (arith, k, missing)
  | inr (d, found) ↦ elim (Bool-cases (holds id seen)) [
    | inl twice ↦ ground (arith, f, twice)
    | inr once ↦
        rw (found, once, request)
          (request_succeeds ids (id ∷ seen) (rw (found, all_known) at k) (rw (once, fresh) at f))
  ]
]

is_some-find : (x : Text) (ds : List Definition) → is_some (find x ds) ≡ holds x (names ds)
unfolding find holds
is_some-find x [] = refl
is_some-find x (d ∷ ds) = ground (arith, is_some-find x ds)

pub all_known-holds :
    (x : Text) (ids : List Text)
    → all_known ids ≡ true
    → holds x ids ≡ true
    → holds x (names definitions) ≡ true
unfolding all_known holds lookup_skill
all_known-holds x [] k h = ground (arith, h)
all_known-holds x (id ∷ ids) k h = elim (Bool-cases (x =? id)) [
  | inl same ↦
      subst (λ y. holds y (names definitions) ≡ true) (sym (=?-sound x id same))
        (sym (is_some-find id definitions) ∙ first_test _ _ k)
  | inr other ↦ all_known-holds x ids (last_test _ _ k) (rw (other) at h)
]
  where
    first_test : (a b : Bool) → a && b ≡ true → a ≡ true
    first_test a b h = ground (arith, h)

    last_test : (a b : Bool) → a && b ≡ true → b ≡ true
    last_test a b h = ground (arith, h)

pub holds-picked :
    (x : Text) (r : List Text) (ds : List Definition)
    → holds x (picked r ds) ≡ holds x (names ds) && holds x r
unfolding holds picked
holds-picked x r [] = refl
holds-picked x r (d ∷ ds) = elim (Bool-cases (x =? d.id)) [
  | inl same ↦
      let as_first = ap (λ y. holds y r) (=?-sound x d.id same) in
      ground (arith, same, as_first, holds-picked x r ds)
  | inr other ↦ ground (arith, other, holds-picked x r ds)
]

pub fresh-picked :
    (r : List Text) (ds : List Definition) (seen few : List Text)
    → fresh (names ds) seen ≡ true
    → ((x : Text) → holds x few ≡ true → holds x seen ≡ true)
    → fresh (picked r ds) few ≡ true
unfolding fresh picked holds
fresh-picked r [] seen few f s = refl
fresh-picked r (d ∷ ds) seen few f s = elim (Bool-cases (holds d.id r)) [
  | inr skipped ↦
      rw (skipped, picked)
        (fresh-picked r ds (d.id ∷ seen) few (ground (arith, f)) (λ x h. ground (arith, s x h)))
  | inl wanted ↦
      rw (wanted, picked)
        (ground (
          arith,
          f,
          s d.id,
          fresh-picked r ds (d.id ∷ seen) (d.id ∷ few) (ground (arith, f))
              (λ x h. ground (arith, s x, h)),
        ))
]

pub all_known-picked :
    (r : List Text) (ds : List Definition)
    → all_known (names ds) ≡ true
    → all_known (picked r ds) ≡ true
unfolding all_known picked
all_known-picked r [] k = refl
all_known-picked r (d ∷ ds) k = ground (arith, k, all_known-picked r ds)

pub definitions-known : all_known (names definitions) ≡ true
unfolding definitions all_known lookup_skill find Text-discrete ℕ_discrete
definitions-known = refl

pub definitions-fresh : fresh (names definitions) [] ≡ true
unfolding definitions fresh holds Text-discrete ℕ_discrete
definitions-fresh = refl
