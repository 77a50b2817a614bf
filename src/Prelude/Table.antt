-- ===== src/Prelude/Table.antt =====
-- A database table: its rows in insertion order. `find` is `findUnique` on a key column, `update`
-- an `UPDATE … WHERE key = k`, `remove` a `DELETE … WHERE key = k`. `create` appends a row.
use Prim.Native.String.{String}
use mathlib.Core.Path.{◌≡◌, refl}
use mathlib.Core.Bool.{Bool}
use mathlib.Core.Option.{Option, none, some}
use mathlib.Core.List.{List, [], ◌∷◌, ◌++◌, map}
use native.Mathlib.Omega.{arith}
use text.Mathlib.Text.{◌==◌}
use text.Mathlib.TextEquality.{eq_iff}
use mathlib.Core.Logic.{inl, inr}
use protect_platform.Prelude.Tests.{if◌then◌else◌, Option-cases}

module _ {A : Type 0} where
  -- The first row that passes a test: `findFirst`.
  unfoldable pub find_first : (A → Bool) → List A → Option A
  find_first p [] = none
  find_first p (x ∷ xs) = let rest = find_first p xs in if p x then some x else rest

  unfoldable pub find : (A → String) → String → List A → Option A
  find key k [] = none
  find key k (x ∷ xs) = let rest = find key k xs in if key x == k then some x else rest

  unfoldable pub update : (A → String) → String → (A → A) → List A → List A
  update key k f [] = []
  update key k f (x ∷ xs) = (if key x == k then f x else x) ∷ update key k f xs

  unfoldable pub remove : (A → String) → String → List A → List A
  remove key k [] = []
  remove key k (x ∷ xs) = let rest = remove key k xs in if key x == k then rest else x ∷ rest

  abbrev pub create : A → List A → List A
  create x xs = xs ++ (x ∷ [])

  -- The second row if the first is missing.
  abbrev pub or_row : Option A → Option A → Option A
  or_row none o = o
  or_row (some a) o = some a

  abbrev pub map_row : (A → A) → Option A → Option A
  map_row f none = none
  map_row f (some a) = some (f a)

  abbrev pub put_row : (A → String) → String → A → (A → A) → Option A → List A → List A
  put_row key k row change none xs = create row xs
  put_row key k row change (some old) xs = update key k change xs

  -- `upsert({ where: { key: k }, create: row, update: change })`
  unfoldable pub upsert : (A → String) → String → A → (A → A) → List A → List A
  upsert key k row change xs = put_row key k row change (find key k xs) xs

  -- The row after an upsert.
  abbrev pub row_or : A → (A → A) → Option A → A
  row_or row change none = row
  row_or row change (some old) = change old

  module _ (key : A → String) where
    pub find-create :
        (k : String) (x : A) (xs : List A)
        → find key k (create x xs) ≡ or_row (find key k xs) (if key x == k then some x else none)
    unfolding find
    find-create k x [] = refl
    find-create k x (y ∷ xs) = ground (arith, find-create k x xs)

    pub find-update :
        (k j : String) (f : A → A) (xs : List A)
        → ((a : A) → key (f a) ≡ key a)
        → find key j (update key k f xs)
          ≡ (if k == j then map_row f (find key k xs) else find key j xs)
    unfolding find update
    find-update k j f [] h = ground arith
    find-update k j f (x ∷ xs) h = ground (
      arith,
      h x,
      find-update k j f xs h,
      eq_iff k j,
      eq_iff (key x) k,
      eq_iff (key x) j,
      eq_iff (key (f x)) j,
    )

    pub find-remove :
        (k j : String) (xs : List A)
        → find key j (remove key k xs) ≡ (if k == j then none else find key j xs)
    unfolding find remove
    find-remove k j [] = ground arith
    find-remove k j (x ∷ xs) =
        ground (arith, find-remove k j xs, eq_iff k j, eq_iff (key x) k, eq_iff (key x) j)

    pub find-upsert :
        (k j : String) (row : A) (change : A → A) (xs : List A)
        → key row ≡ k
        → ((a : A) → key (change a) ≡ key a)
        → find key j (upsert key k row change xs)
          ≡ (if k == j then some (row_or row change (find key k xs)) else find key j xs)
    unfolding upsert
    find-upsert k j row change xs is_key keeps = elim (Option-cases (find key k xs)) [
      | inl missing ↦ rw (missing, find-create j row xs) (ground (arith, eq_iff k j, missing))
      | inr (a, there) ↦
          rw (there, find-update k j change xs keeps) (ground (arith, eq_iff k j, there))
    ]

    -- A row that is found has the key that was asked for.
    pub find-key : (k : String) (a : A) (xs : List A) → find key k xs ≡ some a → key a ≡ k
    unfolding find
    find-key k a (x ∷ xs) h = ground (arith, eq_iff (key x) k, find-key k a xs)
    find-key k a [] h = ground arith

  -- A row found by another column after an update that leaves that column alone.
  pub find-update_other :
      (key other : A → String) (k j : String) (f : A → A) (xs : List A)
      → ((a : A) → other (f a) ≡ other a)
      → find other j (update key k f xs)
        ≡ map_row (λ a. if key a == k then f a else a) (find other j xs)
  unfolding find update
  find-update_other key other k j f [] h = refl
  find-update_other key other k j f (x ∷ xs) h =
      ground (arith, h x, find-update_other key other k j f xs h)

  -- A change of every row that leaves the keys alone.
  pub find-map :
      (key : A → String) (k : String) (f : A → A) (xs : List A)
      → ((a : A) → key (f a) ≡ key a)
      → find key k (map f xs) ≡ map_row f (find key k xs)
  unfolding find
  find-map key k f [] h = refl
  find-map key k f (x ∷ xs) h = ground (arith, h x, find-map key k f xs h)
