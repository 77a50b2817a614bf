-- ===== src/Dashboard/Series/Counts.antt =====
-- Buckets: a row is counted in exactly one of them.
use protect_platform.Dashboard.Series.{
  Bucket, buckets_of, count_at, insert_key, count_in, add_key, sort_keys, add_keys,
}
use protect_platform.Prelude.{
  All-imp, none, some, sym, inr, refl, true, arith, if◌then◌else◌, ◌||◌, false, ◌≤◌, map, inl,
  or_else, ◌≡◌, All, create, eqb, Bool-cases, [], ◌+◌, any, count_where, Bool, ◌∷◌, List, ℕ,
}

occurs : ℕ → List ℕ → ℕ
occurs b keys = count_where (eqb b) keys

-- No bucket is there twice.
abbrev pub IsDistinct : List ℕ → Type 0
IsDistinct keys = (b : ℕ) → count_where (eqb b) keys ≤ 1

module _ (q : ℕ → Bool) where
  any-create : (k : ℕ) (ks : List ℕ) → any q (create k ks) ≡ (any q ks || q k)
  any-create k [] = ground arith
  any-create k (j ∷ ks) = ground (arith, any-create k ks)

  count-create : (k : ℕ) (ks : List ℕ) → count_where q (create k ks) ≡ count_where q (k ∷ ks)
  count-create k [] = refl
  count-create k (j ∷ ks) = ground (arith, count-create k ks)

  any-insert_key : (k : ℕ) (ks : List ℕ) → any q (insert_key k ks) ≡ (any q ks || q k)
  any-insert_key k [] = ground arith
  any-insert_key k (j ∷ ks) = ground (arith, any-insert_key k ks)

  count-insert_key :
      (k : ℕ) (ks : List ℕ) → count_where q (insert_key k ks) ≡ count_where q (k ∷ ks)
  count-insert_key k [] = refl
  count-insert_key k (j ∷ ks) = ground (arith, count-insert_key k ks)

  pub any-sort_keys : (ks : List ℕ) → any q (sort_keys ks) ≡ any q ks
  unfolding sort_keys
  any-sort_keys [] = refl
  any-sort_keys (k ∷ ks) = ground (arith, any-insert_key k (sort_keys ks), any-sort_keys ks)

  count-sort_keys : (ks : List ℕ) → count_where q (sort_keys ks) ≡ count_where q ks
  unfolding sort_keys
  count-sort_keys [] = refl
  count-sort_keys (k ∷ ks) = ground (arith, count-insert_key k (sort_keys ks), count-sort_keys ks)

any_same : (b : ℕ) (ks : List ℕ) → any (eqb b) ks ≡ false → count_where (eqb b) ks ≡ 0
any_same b [] h = refl
any_same b (k ∷ ks) h = ground (arith, any_same b ks)

pub any_once :
    (b : ℕ) (ks : List ℕ) → IsDistinct ks → any (eqb b) ks ≡ true → count_where (eqb b) ks ≡ 1
any_once b ks distinct h = omega (arith, distinct b, some_there ks h)
  where
    some_there : (js : List ℕ) → any (eqb b) js ≡ true → 1 ≤ count_where (eqb b) js
    some_there [] e = absurd (ground (arith, e))
    some_there (j ∷ js) e = ground (arith, e, some_there js)

add_key-IsDistinct : (k : ℕ) (ks : List ℕ) → IsDistinct ks → IsDistinct (add_key k ks)
add_key-IsDistinct k ks distinct b = elim (Bool-cases (any (eqb k) ks)) [
  | inl there ↦ rw there (distinct b)
  | inr new ↦ rw new (ground (arith, count-create (eqb b) k ks, distinct b, any_same k ks new))
]

pub add_keys-IsDistinct : (js ks : List ℕ) → IsDistinct ks → IsDistinct (add_keys js ks)
unfolding add_keys
add_keys-IsDistinct [] ks distinct = distinct
add_keys-IsDistinct (j ∷ js) ks distinct =
    add_keys-IsDistinct js (add_key j ks) (add_key-IsDistinct j ks distinct)

pub sort_keys-IsDistinct : (ks : List ℕ) → IsDistinct ks → IsDistinct (sort_keys ks)
sort_keys-IsDistinct ks distinct b = rw (count-sort_keys (eqb b) ks) (distinct b)

any-add_key : (b k : ℕ) (ks : List ℕ) → any (eqb b) (add_key k ks) ≡ (any (eqb b) ks || eqb b k)
any-add_key b k ks = elim (Bool-cases (any (eqb k) ks)) [
  | inl there ↦ elim (Bool-cases (eqb b k)) [
    | inl same ↦ let e : b ≡ k = ground (arith, same) in rw e (ground (arith, there))
    | inr other ↦ ground (arith, there, other)
  ]
  | inr new ↦ ground (arith, new, any-create (eqb b) k ks)
]

pub any-add_keys :
    (b : ℕ) (js ks : List ℕ) → any (eqb b) (add_keys js ks) ≡ (any (eqb b) ks || any (eqb b) js)
unfolding add_keys
any-add_keys b [] ks = ground arith
any-add_keys b (j ∷ js) ks = ground (arith, any-add_keys b js (add_key j ks), any-add_key b j ks)

-- The sum of a number over a list of buckets.
abbrev pub sum_over : (ℕ → ℕ) → List ℕ → ℕ
sum_over f [] = 0
sum_over f (b ∷ bs) = f b + sum_over f bs

abbrev pub bucket_with : (ℕ → ℕ) → ℕ → Bucket
bucket_with f b = record { bucket = b; c = f b }

count_at-map :
    (b : ℕ) (f : ℕ → ℕ) (ks : List ℕ)
    → count_at b (map (bucket_with f) ks) ≡ (if any (eqb b) ks then some (f b) else none)
count_at-map b f [] = refl
count_at-map b f (k ∷ ks) = elim (Bool-cases (eqb b k)) [
  | inl same ↦ let e : b ≡ k = ground (arith, same) in rw e (ground (arith, count_at-map k f ks))
  | inr other ↦ ground (arith, other, count_at-map b f ks)
]

module _ {A : Type 0} (at : A → ℕ) (p : A → Bool) where
  sum_over-more :
      (r : A) (rows : List A) (keys : List ℕ)
      → sum_over (count_in at p (r ∷ rows)) keys
        ≡ (if p r then count_where (eqb (at r)) keys else 0) + sum_over (count_in at p rows) keys
  sum_over-more r rows [] = ground arith
  sum_over-more r rows (b ∷ keys) = ground (arith, sum_over-more r rows keys)

  sum_over_none : (keys : List ℕ) → sum_over (count_in at p []) keys ≡ 0
  sum_over_none [] = refl
  sum_over_none (b ∷ keys) = ground (arith, sum_over_none keys)

  -- Where each row's bucket is there once, the counts of the buckets sum up to that of the rows.
  pub sum_over-count_in :
      (rows : List A) (keys : List ℕ)
      → IsDistinct keys
      → All (λ r. any (eqb (at r)) keys ≡ true) rows
      → sum_over (count_in at p rows) keys ≡ count_where p rows
  sum_over-count_in [] keys distinct h = sum_over_none keys
  sum_over-count_in (r ∷ rows) keys distinct (here, rest) = ground (
    arith,
    sum_over-more r rows keys,
    any_once (at r) keys distinct here,
    sum_over-count_in rows keys distinct rest,
  )

  -- A bucket that no row has counts nothing.
  pub count_in_none :
      (rows : List A) (b : ℕ) → any (eqb b) (map at rows) ≡ false → count_in at p rows b ≡ 0
  count_in_none [] b h = refl
  count_in_none (r ∷ rows) b h = ground (arith, count_in_none rows b)

  -- The rows of a query by buckets, read as a map, count each bucket, also one that is not there.
  pub count_at-buckets_of :
      (rows : List A) (b : ℕ)
      → or_else (count_at b (map (bucket_with (count_in at p rows)) (buckets_of at rows))) 0
        ≡ count_in at p rows b
  count_at-buckets_of rows b = elim (Bool-cases (any (eqb b) (buckets_of at rows))) [
    | inl there ↦ rw (count_at-map b (count_in at p rows) (buckets_of at rows), there)
    | inr missing ↦
        let none_here : any (eqb b) (map at rows) ≡ false = ground (
          arith,
          missing,
          any-sort_keys (eqb b) (add_keys (map at rows) []),
          any-add_keys b (map at rows) [],
        ) in
        rw (count_at-map b (count_in at p rows) (buckets_of at rows), missing)
          (sym (count_in_none rows b none_here))
  ]

  -- Every row has its bucket among those of the query.
  pub buckets_of-any :
      (rows : List A) → All (λ r. any (eqb (at r)) (buckets_of at rows) ≡ true) rows
  buckets_of-any rows =
      All-imp (λ r. any (eqb (at r)) (map at rows) ≡ true)
        (λ r. any (eqb (at r)) (buckets_of at rows) ≡ true) rows
        (λ r h. ground (
          arith,
          h,
          any-sort_keys (eqb (at r)) (add_keys (map at rows) []),
          any-add_keys (at r) (map at rows) [],
        ))
        (any-map rows)
    where
      any-map : (rs : List A) → All (λ r. any (eqb (at r)) (map at rs) ≡ true) rs
      any-map [] = tt
      any-map (r ∷ rs) = (
        ground arith,
        All-imp (λ s. any (eqb (at s)) (map at rs) ≡ true)
            (λ s. any (eqb (at s)) (map at (r ∷ rs)) ≡ true) rs (λ s h. ground (arith, h))
            (any-map rs),
      )
