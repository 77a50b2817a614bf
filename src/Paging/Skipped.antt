-- ===== src/Paging/Skipped.antt =====
-- apps/api/src/users/users.service.ts and apps/api/src/audit/audit.service.ts: the row of the cursor is
-- on neither of the two pages that it separates.
use protect_platform.Paging.{page_of_read, from_cursor, cursor_page}
use protect_platform.Prelude.{
  sym, ◌∙◌, take_short, ◌≤◌, inr, take-take_more, inl, Bool-cases, length-take, true, ap, ltb, min,
  length-append, suc, refl, eq_iff, drop, some, [], arith, eq_refl, none, ◌+◌, ◌≡◌, ◌≢◌, ◌∷◌,
  length, take, ℕ, All, append, List, String,
}

module _ {A : Type 0} (id : A → String) where
  -- No row before the cursor has its identifier.
  abbrev pub IsNew : String → List A → Type 0
  IsNew k rows = All (λ x. id x ≢ k) rows

  from_cursor-append :
      (x : A) (before rest : List A)
      → IsNew (id x) before
      → from_cursor id (id x) (append before (x ∷ rest)) ≡ x ∷ rest
  unfolding from_cursor
  from_cursor-append x [] rest new = rw (eq_refl (id x)) refl
  from_cursor-append x (y ∷ ys) rest (other, new) =
      ground (arith, other, eq_iff (id y) (id x), from_cursor-append x ys rest new)

  take-append_cons :
      (x : A) (before rest : List A)
      → (take (length before) (append before (x ∷ rest)) ≡ before)
        × (take (length before + 1) (append before (x ∷ rest)) ≡ append before (x ∷ []))
        × (drop (length before) (append before (x ∷ [])) ≡ x ∷ [])
        × (take (length before) (append before (x ∷ [])) ≡ before)
  take-append_cons x [] rest = (refl, refl, refl, refl)
  take-append_cons x (y ∷ ys) rest =
      let (one, two, three, four) = take-append_cons x ys rest in
      let more : suc (length ys) + 1 ≡ suc (length ys + 1) = omega arith in
      (ap (λ l. y ∷ l) one, rw more (ap (λ l. y ∷ l) two), three, ap (λ l. y ∷ l) four)

  page_of_read-items :
      (limit : ℕ) (xs : List A)
      → (page_of_read id limit (take (limit + 1) xs)).items ≡ take limit xs
  page_of_read-items limit xs =
      let read = take (limit + 1) xs in
      let count : length read ≡ min (limit + 1) (length xs) = length-take (limit + 1) xs in
      elim (Bool-cases (ltb limit (length read))) [
        | inl more ↦ rw more (take-take_more limit xs)
        | inr done ↦
            let short : length xs ≤ limit = ground (arith, done, count) in
            rw done
              (take_short (limit + 1) xs (omega (arith, short)) ∙ sym (take_short limit xs short))
      ]

  -- A first page that is full ends before the row of its cursor, and the page from this cursor on begins
  -- behind it: the row is on neither page.
  pub cursor_page_skips :
      (limit : ℕ) (lost : A) (before rest : List A)
      → length before ≡ limit
      → IsNew (id lost) before
      → ((cursor_page id limit none (append before (lost ∷ rest))).items ≡ before)
        × ((cursor_page id limit none (append before (lost ∷ rest))).next_cursor ≡ some (id lost))
        × ((cursor_page id limit (some (id lost)) (append before (lost ∷ rest))).items
            ≡ take limit rest)
  unfolding cursor_page
  cursor_page_skips limit lost before rest full new =
      let (one, two, three, four) = take-append_cons lost before rest in
      let size : length (append before (lost ∷ [])) ≡ limit + 1 =
        omega (arith, full, length-append before (lost ∷ [])) in
      let more : ltb limit (length (append before (lost ∷ []))) ≡ true = ground (arith, size) in
      let read : take (limit + 1) (append before (lost ∷ rest)) ≡ append before (lost ∷ []) =
        rw (← full) two in
      (
        rw (read, more, ← full) four,
        rw (read, more, ← full, three) refl,
        rw (from_cursor-append lost before rest new) (page_of_read-items limit rest),
      )
