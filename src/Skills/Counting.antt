-- ===== src/Skills/Counting.antt =====
-- How many of the requested names NewSet finds in the catalog
-- (internal/learnedskills/set.go).
use astrahold_server.Common.{
  ◌+◌, ◌≡◌, refl, subst, ap, inl, inr, true, false, List, [], ◌∷◌, ◌=?◌, =?-refl, Text, text_key,
  length, arith, Bool-cases,
}
use astrahold_server.Skills.{Definition, holds}
use astrahold_server.Skills.Learned.{names, picked, fresh, =?-sound}

fresh-holds :
    (x : Text) (ids seen : List Text)
    → fresh ids seen ≡ true
    → holds x seen ≡ true
    → holds x ids ≡ false
unfolding fresh holds
fresh-holds x [] seen f h = refl
fresh-holds x (id ∷ ids) seen f h = elim (Bool-cases (x =? id)) [
  | inl same ↦
      let there = subst (λ y. holds y seen ≡ true) (=?-sound x id same) h in
      ground (arith, f, there)
  | inr other ↦ rw (other) (fresh-holds x ids (id ∷ seen) (ground (arith, f)) (ground (arith, h)))
]

picked-same :
    (r q : List Text) (ds : List Definition)
    → ((x : Text) → holds x r ≡ holds x q)
    → picked r ds ≡ picked q ds
unfolding picked
picked-same r q [] h = refl
picked-same r q (d ∷ ds) h = ground (arith, h d.id, picked-same r q ds h)

pub picked-nil : (ds : List Definition) → picked [] ds ≡ []
unfolding picked holds
picked-nil [] = refl
picked-nil (d ∷ ds) = picked-nil ds

picked_unnamed :
    (x : Text) (r : List Text) (ds : List Definition)
    → holds x (names ds) ≡ false
    → picked (x ∷ r) ds ≡ picked r ds
unfolding picked holds
picked_unnamed x r [] h = refl
picked_unnamed x r (d ∷ ds) h =
    ground (arith, h, =?-sym x d.id, picked_unnamed x r ds (ground (arith, h)))
  where
    =?-sym : (a b : Text) → (a =? b) ≡ (b =? a)
    =?-sym a b = ground arith

length-picked_named :
    (x : Text) (r : List Text) (ds : List Definition) (seen : List Text)
    → holds x r ≡ false
    → holds x (names ds) ≡ true
    → fresh (names ds) seen ≡ true
    → length (picked (x ∷ r) ds) ≡ length (picked r ds) + 1
unfolding picked holds fresh
length-picked_named x r [] seen a n f = ground (arith, n)
length-picked_named x r (d ∷ ds) seen a n f = elim (Bool-cases (x =? d.id)) [
  | inl same ↦
      let e = =?-sound x d.id same in
      let absent = subst (λ y. holds y r ≡ false) e a in
      let later =
        fresh-holds x (names ds) (d.id ∷ seen) (ground (arith, f)) (ground (arith, same)) in
      let back = subst (λ y. (y =? x) ≡ true) e (=?-refl x) in
      ground (arith, absent, back, picked_unnamed x r ds later)
  | inr other ↦
      let back : (d.id =? x) ≡ false = ground (arith, other) in
      ground (
        arith,
        back,
        length-picked_named x r ds (d.id ∷ seen) a (rw (other) at n) (ground (arith, f)),
      )
]

seen_first : (x : Text) (xs : List Text) → holds x (x ∷ xs) ≡ true
unfolding holds
seen_first x xs = ground (arith, =?-refl x)

holds_later : (x y : Text) (ys : List Text) → holds x ys ≡ true → holds x (y ∷ ys) ≡ true
unfolding holds
holds_later x y ys h = ground (arith, h)

pub length-picked :
    (ids seen : List Text) (ds : List Definition)
    → fresh ids seen ≡ true
    → ((x : Text) → holds x ids ≡ true → holds x (names ds) ≡ true)
    → fresh (names ds) [] ≡ true
    → length (picked ids ds) ≡ length ids
unfolding fresh
length-picked [] seen ds f n d = ap (λ l. length l) (picked-nil ds)
length-picked (id ∷ ids) seen ds f n d =
    let tail : fresh ids (id ∷ seen) ≡ true = ground (arith, f) in
    let absent = fresh-holds id ids (id ∷ seen) tail (seen_first id seen) in
    let rest = length-picked ids (id ∷ seen) ds tail (λ x h. n x (holds_later x id ids h)) d in
    ground (arith, rest, length-picked_named id ids ds [] absent (n id (seen_first id ids)) d)
