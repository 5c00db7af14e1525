-- ===== src/Skills/Canonical.antt =====
-- NewSet accepts every list of different known skills, and its sets are canonical
-- (internal/learnedskills/set.go).
use astrahold_server.Common.{
  ◌+◌, ◌≤◌, ◌<◌, ◌≡◌, ◌≢◌, refl, ◌∙◌, sym, ap, inl, inr, true, false, ◌&&◌, ◌||◌, none, List, [],
  ◌∷◌, ◌++◌, ltb, ◌==◌, =?-refl, Text, text_key, length, arith, Bool-cases,
}
use astrahold_server.Skills.{
  definitions, holds, LearnedSet, empty_set, copies, first_ids, request, counted, build_set,
  new_set, ids_of, contains_skill, same_texts, same_set, validate_set,
}
use astrahold_server.Skills.Learned.{
  names, picked, all_known, fresh, Filled, fill-Filled, fill-same, request-Requested,
  request_succeeds, all_known-holds, holds-picked, fresh-picked, all_known-picked,
  definitions-known, definitions-fresh,
}
use astrahold_server.Skills.Counting.{length-picked, picked-nil}

same_texts_refl : (xs : List Text) → same_texts xs xs ≡ true
unfolding same_texts
same_texts_refl [] = refl
same_texts_refl (x ∷ xs) = ground (arith, =?-refl x, same_texts_refl xs)

-- The set holds the names, once each and in the order of the catalog; Validate accepts it; and
-- NewSet of its own names is the same set.
pub record IsCanonical (ids : List Text) (s : LearnedSet) : Type 0 where
  pub ordered : ids_of s ≡ picked ids definitions
  pub contained : (x : Text) → contains_skill s x ≡ holds x ids
  pub validated : validate_set s ≡ none
  pub reread : new_set (ids_of s) ≡ inr s

same_count : (s : LearnedSet) → (s.count == s.count) ≡ true
same_count s = ground arith

validate_set-reread :
    (s : LearnedSet) → s.count ≤ length s.ids → new_set (ids_of s) ≡ inr s → validate_set s ≡ none
unfolding validate_set same_set
validate_set-reread s c h =
    let fits : ltb (length s.ids) s.count ≡ false = ground (arith, c) in
    rw (fits, validate_set, h, same_set, same_texts_refl s.ids, same_count s) refl

known_names :
    (ids : List Text) (x : Text)
    → all_known ids ≡ true
    → holds x (names definitions) && holds x ids ≡ holds x ids
known_names ids x k = elim (Bool-cases (holds x ids)) [
  | inl there ↦ ground (arith, there, all_known-holds x ids k there)
  | inr absent ↦ ground (arith, absent)
]

-- The set that NewSet builds of names that are not none.
record Built (ids : List Text) : Type 0 where
  set : LearnedSet
  built : new_set ids ≡ inr set
  same :
      (r : List Text)
      → ((x : Text) → holds x r ≡ holds x ids)
      → length r ≡ length ids
      → build_set r ≡ inr set
  used : ids_of set ≡ picked ids definitions
  fits : set.count ≤ length set.ids

empty_count : empty_set.count ≡ 0
unfolding empty_set
empty_count = refl

build_set-Filled :
    (ids r : List Text) (f : Filled ids definitions empty_set)
    → ((x : Text) → holds x r ≡ holds x ids)
    → length r ≡ length ids
    → length (picked ids definitions) ≡ length ids
    → build_set r ≡ inr f.set
unfolding build_set counted
build_set-Filled ids r f same size all =
    let filled = fill-same r ids definitions empty_set same ∙ f.filled in
    let enough : (f.set.count == length r) ≡ true =
      ground (arith, f.counts, size, all, empty_count) in
    rw (filled, build_set, counted, enough) refl

new_set-request :
    (ids r : List Text)
    → length ids ≤ 20
    → length ids ≢ 0
    → request ids [] ≡ inr r
    → new_set ids ≡ build_set r
unfolding new_set
new_set-request ids r few some_id q =
    let small : ltb 20 (length ids) ≡ false = ground (arith, few) in
    let there : (length ids == 0) ≡ false = ground (arith, some_id) in
    rw (small, new_set, there, q) refl

definitions-fit : empty_set.count + length definitions ≤ length empty_set.ids
unfolding definitions empty_set copies
definitions-fit = omega arith

empty_set-small : length empty_set.ids < 256
unfolding empty_set copies
empty_set-small = omega arith

empty_size : length empty_set.ids ≡ 20
unfolding empty_set copies
empty_size = omega arith

empty_ids : first_ids empty_set.count empty_set.ids ≡ []
unfolding empty_set first_ids
empty_ids = refl

or_nothing : (x : Text) (ids : List Text) → holds x ids || holds x [] ≡ holds x ids
unfolding holds
or_nothing x ids = ground arith

-- What NewSet makes of known names that all differ.
new_set-Built :
    (ids : List Text)
    → length ids ≤ 20
    → length ids ≢ 0
    → all_known ids ≡ true
    → fresh ids [] ≡ true
    → Built ids
unfolding ids_of
new_set-Built ids few some_id k f =
    let filled = fill-Filled ids definitions empty_set definitions-fit empty_set-small in
    let all = length-picked ids [] definitions f (λ x. all_known-holds x ids k) definitions-fresh in
    let r = request_succeeds ids [] k f in
    let q = request-Requested ids [] r.0 r.1 in
    let builds =
      λ (p : List Text) (e : (x : Text) → holds x p ≡ holds x ids) (n : length p ≡ length ids).
        build_set-Filled ids p filled e n all in
    record {
      set = filled.set;
      built =
          new_set-request ids r.0 few some_id r.1
          ∙ builds r.0 (λ x. q.members x ∙ or_nothing x ids) (omega (arith, q.size));
      same = builds;
      used = filled.used ∙ ap (λ front. front ++ picked ids definitions) empty_ids;
      fits = omega (arith, filled.counts, filled.size, all, empty_count, empty_size, few);
    }

-- NewSet of the names in the order of the catalog builds the same set.
new_set-picked :
    (ids : List Text) (b : Built ids)
    → length ids ≤ 20
    → length ids ≢ 0
    → all_known ids ≡ true
    → fresh ids [] ≡ true
    → new_set (picked ids definitions) ≡ inr b.set
new_set-picked ids b few some_id k f =
    let p = picked ids definitions in
    let all = length-picked ids [] definitions f (λ x. all_known-holds x ids k) definitions-fresh in
    let fresh_p = fresh-picked ids definitions [] [] definitions-fresh (λ x h. h) in
    let r = request_succeeds p [] (all_known-picked ids definitions definitions-known) fresh_p in
    let q = request-Requested p [] r.0 r.1 in
    new_set-request p r.0 (ground (arith, all, few)) (ground (arith, all, some_id)) r.1
    ∙ b.same r.0
        (λ x. q.members x ∙ or_nothing x p ∙ holds-picked x ids definitions ∙ known_names ids x k)
        (omega (arith, q.size, all))

Built-IsCanonical :
    (ids : List Text) (b : Built ids)
    → length ids ≤ 20
    → length ids ≢ 0
    → all_known ids ≡ true
    → fresh ids [] ≡ true
    → IsCanonical ids b.set
unfolding contains_skill
Built-IsCanonical ids b few some_id k f =
    let again = ap (λ xs. new_set xs) b.used ∙ new_set-picked ids b few some_id k f in
    record {
      ordered = b.used;
      contained =
          λ x. ap (λ xs. holds x xs) b.used ∙ holds-picked x ids definitions ∙ known_names ids x k;
      validated = validate_set-reread b.set b.fits again;
      reread = again;
    }

new_set-empty : new_set [] ≡ inr empty_set
unfolding new_set
new_set-empty = refl

empty_set-IsCanonical : IsCanonical [] empty_set
unfolding ids_of contains_skill
empty_set-IsCanonical =
    let again = ap (λ xs. new_set xs) empty_ids ∙ new_set-empty in
    record {
      ordered = empty_ids ∙ sym (picked-nil definitions);
      contained = λ x. ap (λ xs. holds x xs) empty_ids;
      validated = validate_set-reread empty_set (omega (arith, empty_count)) again;
      reread = again;
    }

-- NewSet of at most twenty different known skills, in any order, succeeds with their canonical set.
pub new_set_succeeds :
    (ids : List Text)
    → length ids ≤ 20
    → all_known ids ≡ true
    → fresh ids [] ≡ true
    → (s : LearnedSet) × (new_set ids ≡ inr s) × IsCanonical ids s
new_set_succeeds [] few k f = (empty_set, new_set-empty, empty_set-IsCanonical)
new_set_succeeds (id ∷ ids) few k f =
    let some_id : length (id ∷ ids) ≢ 0 = omega arith in
    let b = new_set-Built (id ∷ ids) few some_id k f in
    (b.set, b.built, Built-IsCanonical (id ∷ ids) b few some_id k f)
