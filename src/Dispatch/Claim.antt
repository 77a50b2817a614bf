-- ===== src/Dispatch/Claim.antt =====
-- apps/worker/src/dispatch.ts: what a claim takes, and what it leaves.
use mathlib.Core.List.{Perm}
use mathlib.Core.List.Perm
use protect_platform.Prelude.{
  drop, ◌++◌, take-append-drop, All-drop, leb_false→lt, leb→le, inr, inl, Bool-cases, ℕ, zero, suc,
  ◌≤◌, String, ◌≡◌, refl, List, [], ◌∷◌, arith, length, take, length-take, keep, map, leb, All,
}
use protect_platform.Store.{OutboxEvent}
use protect_platform.Dispatch.{row_id, is_eligible, insert_by_age, order_by_age, claimed_ids}

-- Rows in the order of their age.
abbrev pub Older : OutboxEvent → OutboxEvent → Type 0
Older x y = x.created_at ≤ y.created_at

abbrev IsSorted : List OutboxEvent → Type 0
IsSorted [] = Unit {0}
IsSorted (r ∷ rows) = All (Older r) rows × IsSorted rows

Older-All :
    (x y : OutboxEvent) (rows : List OutboxEvent)
    → Older x y
    → All (Older y) rows
    → All (Older x) rows
Older-All x y [] h a = tt
Older-All x y (r ∷ rows) h (p, a) = (omega arith, Older-All x y rows h a)

insert-Older :
    (x r : OutboxEvent) (rows : List OutboxEvent)
    → Older x r
    → All (Older x) rows
    → All (Older x) (insert_by_age r rows)
unfolding insert_by_age
insert-Older x r [] p h = (p, h)
insert-Older x r (y ∷ ys) p (q, h) = elim (Bool-cases (leb r.created_at y.created_at)) [
  | inl young ↦ rw young (p, (q, h))
  | inr old ↦ rw old (q, insert-Older x r ys p h)
]

insert-IsSorted :
    (r : OutboxEvent) (rows : List OutboxEvent) → IsSorted rows → IsSorted (insert_by_age r rows)
unfolding insert_by_age
insert-IsSorted r [] h = (tt, tt)
insert-IsSorted r (y ∷ ys) (a, h) = elim (Bool-cases (leb r.created_at y.created_at)) [
  | inl young ↦
      let older : Older r y = leb→le r.created_at y.created_at young in
      rw young ((older, Older-All r y ys older a), (a, h))
  | inr old ↦
      let older : Older y r = omega (arith, leb_false→lt r.created_at y.created_at old) in
      rw old (insert-Older y r ys older a, insert-IsSorted r ys h)
]

order-IsSorted : (rows : List OutboxEvent) → IsSorted (order_by_age rows)
unfolding order_by_age
order-IsSorted [] = tt
order-IsSorted (r ∷ rows) = insert-IsSorted r (order_by_age rows) (order-IsSorted rows)

insert-perm : (r : OutboxEvent) (rows : List OutboxEvent) → Perm (insert_by_age r rows) (r ∷ rows)
unfolding insert_by_age
insert-perm r [] = Perm.refl (r ∷ [])
insert-perm r (y ∷ ys) = elim (Bool-cases (leb r.created_at y.created_at)) [
  | inl young ↦ rw young (Perm.refl (r ∷ y ∷ ys))
  | inr old ↦ rw old (Perm.trans (Perm.cons y (insert-perm r ys)) (Perm.swap r y ys))
]

order-perm : (rows : List OutboxEvent) → Perm (order_by_age rows) rows
unfolding order_by_age
order-perm [] = Perm.refl []
order-perm (r ∷ rows) =
    Perm.trans (insert-perm r (order_by_age rows)) (Perm.cons r (order-perm rows))

-- What comes first in sorted rows is older than what comes later.
split-Older :
    (n : ℕ) (rows : List OutboxEvent)
    → IsSorted rows
    → All (λ x. All (Older x) (drop n rows)) (take n rows)
split-Older zero rows h = tt
split-Older (suc n) [] h = tt
split-Older (suc n) (r ∷ rows) (a, h) = (All-drop (Older r) n rows a, split-Older n rows h)

-- A claim takes rows that are pending, due and not locked, at most as many as the limit, and none
-- of the eligible rows that it leaves is older than one that it takes.
pub claim_takes_oldest :
    (now limit : ℕ) (locked : List String) (rows : List OutboxEvent)
    → (first rest : List OutboxEvent) × (claimed_ids now limit locked rows ≡ map row_id first)
      × Perm (first ++ rest) (keep (is_eligible now locked) rows)
      × (length first ≤ limit)
      × All (λ x. All (Older x) rest) first
unfolding claimed_ids
claim_takes_oldest now limit locked rows =
    let sorted = order_by_age (keep (is_eligible now locked) rows) in
    (
      take limit sorted,
      drop limit sorted,
      refl,
      rw (take-append-drop limit sorted) (order-perm (keep (is_eligible now locked) rows)),
      omega (arith, length-take limit sorted),
      split-Older limit sorted (order-IsSorted (keep (is_eligible now locked) rows)),
    )
