-- ===== src/Dashboard/Polled.antt =====
-- apps/api/src/dashboard/dashboard.service.ts: which audit rows an open dashboard is sent.
use protect_platform.Store.{Db, AuditLog}
use protect_platform.Dashboard.{last_time, is_after, insert_by_time, oldest_first, poll_audit_since}
use protect_platform.Prelude.{
  take_short, All-take, length-take, ◌∙◌, ◌+◌, true, ◌<◌, sym, ap, inr, suc, refl, keep, false, inl,
  ◌≡◌, leb, arith, [], count_where, Bool-cases, take, ◌∷◌, length, any, All, ◌≤◌, Bool, ℕ, List,
}

abbrev IsSorted : List AuditLog → Type 0
IsSorted [] = Unit
IsSorted (r ∷ rs) = All (λ s. r.timestamp ≤ s.timestamp) rs × IsSorted rs

module _ (P : AuditLog → Type 0) where
  All-insert_by_time :
      (r : AuditLog) (rs : List AuditLog) → P r → All P rs → All P (insert_by_time r rs)
  All-insert_by_time r [] one h = (one, tt)
  All-insert_by_time r (s ∷ ss) one (first, rest) =
      elim (Bool-cases (leb r.timestamp s.timestamp)) [
        | inl before ↦ rw before (one, (first, rest))
        | inr behind ↦ rw behind (first, All-insert_by_time r ss one rest)
      ]

  All-oldest_first : (rs : List AuditLog) → All P rs → All P (oldest_first rs)
  unfolding oldest_first
  All-oldest_first [] h = tt
  All-oldest_first (r ∷ rs) (first, rest) =
      All-insert_by_time r (oldest_first rs) first (All-oldest_first rs rest)

All-raise :
    (m n : ℕ) (rs : List AuditLog)
    → m ≤ n
    → All (λ s. n ≤ s.timestamp) rs
    → All (λ s. m ≤ s.timestamp) rs
All-raise m n [] le h = tt
All-raise m n (r ∷ rs) le (first, rest) = (omega (arith, le, first), All-raise m n rs le rest)

insert_by_time-IsSorted :
    (r : AuditLog) (rs : List AuditLog) → IsSorted rs → IsSorted (insert_by_time r rs)
insert_by_time-IsSorted r [] h = (tt, tt)
insert_by_time-IsSorted r (s ∷ ss) (above, sorted) =
    elim (Bool-cases (leb r.timestamp s.timestamp)) [
      | inl before ↦
          let le : r.timestamp ≤ s.timestamp = ground (arith, before) in
          rw before ((le, All-raise r.timestamp s.timestamp ss le above), (above, sorted))
      | inr behind ↦
          let le : s.timestamp ≤ r.timestamp = ground (arith, behind) in
          rw behind (
            All-insert_by_time (λ t. s.timestamp ≤ t.timestamp) r ss le above,
            insert_by_time-IsSorted r ss sorted,
          )
    ]

oldest_first-IsSorted : (rs : List AuditLog) → IsSorted (oldest_first rs)
unfolding oldest_first
oldest_first-IsSorted [] = tt
oldest_first-IsSorted (r ∷ rs) =
    insert_by_time-IsSorted r (oldest_first rs) (oldest_first-IsSorted rs)

last_time-above :
    (n d : ℕ) (rs : List AuditLog) → n ≤ d → All (λ s. n ≤ s.timestamp) rs → n ≤ last_time d rs
last_time-above n d [] le h = le
last_time-above n d (r ∷ rs) le (first, rest) = last_time-above n r.timestamp rs first rest

-- No row of a sorted list is younger than its last.
any-last_time :
    (d : ℕ) (rs : List AuditLog) → IsSorted rs → any (is_after (last_time d rs)) rs ≡ false
any-last_time d [] h = refl
any-last_time d (r ∷ rs) (above, sorted) =
    let le = last_time-above r.timestamp r.timestamp rs (omega arith) above in
    let later = any-last_time r.timestamp rs sorted in ground (arith, le, later)

count-insert_by_time :
    (p : AuditLog → Bool) (r : AuditLog) (rs : List AuditLog)
    → count_where p (insert_by_time r rs) ≡ count_where p (r ∷ rs)
count-insert_by_time p r [] = refl
count-insert_by_time p r (s ∷ ss) = ground (arith, count-insert_by_time p r ss)

count-oldest_first :
    (p : AuditLog → Bool) (rs : List AuditLog) → count_where p (oldest_first rs) ≡ count_where p rs
unfolding oldest_first
count-oldest_first p [] = refl
count-oldest_first p (r ∷ rs) =
    ground (arith, count-insert_by_time p r (oldest_first rs), count-oldest_first p rs)

count-always : (rs : List AuditLog) → count_where (λ r. true) rs ≡ length rs
count-always [] = refl
count-always (r ∷ rs) = ap suc (count-always rs)

count-none : (p : AuditLog → Bool) (rs : List AuditLog) → any p rs ≡ false → count_where p rs ≡ 0
count-none p [] h = refl
count-none p (r ∷ rs) h = ground (arith, h, count-none p rs)

length-oldest_first : (rs : List AuditLog) → length (oldest_first rs) ≡ length rs
length-oldest_first rs =
    sym (count-always (oldest_first rs)) ∙ count-oldest_first (λ r. true) rs ∙ count-always rs

-- Where at most 100 rows are younger than the time that is polled from, the poll sends each of them,
-- and no row of the table is younger than the watermark that it leaves: none is sent twice or missed.
pub poll_audit_since_complete :
    (since : ℕ) (db : Db)
    → count_where (is_after since) db.audit ≤ 100
    → ((p : AuditLog → Bool)
        → count_where p (poll_audit_since since db).0
          ≡ count_where p (keep (is_after since) db.audit))
      × (count_where (is_after (poll_audit_since since db).1) (keep (is_after since) db.audit) ≡ 0)
unfolding poll_audit_since
poll_audit_since_complete since db h =
    let rows = keep (is_after since) db.audit in
    let sent = oldest_first rows in
    let short : take 100 sent ≡ sent =
      take_short 100 sent (omega (arith, h, length-oldest_first rows)) in
    rw short (
      λ p. count-oldest_first p rows,
      sym (count-oldest_first (is_after (last_time since sent)) rows)
          ∙ count-none (is_after (last_time since sent)) sent
              (any-last_time since sent (oldest_first-IsSorted rows)),
    )

keep_passing :
    (p : AuditLog → Bool) (rs : List AuditLog) → All (λ r. p r ≡ true) rs → keep p rs ≡ rs
keep_passing p [] h = refl
keep_passing p (r ∷ rs) (first, rest) = rw first (ap (λ l. r ∷ l) (keep_passing p rs rest))

keep_failing :
    (p : AuditLog → Bool) (rs : List AuditLog) → All (λ r. p r ≡ false) rs → keep p rs ≡ []
keep_failing p [] h = refl
keep_failing p (r ∷ rs) (first, rest) = rw first (keep_failing p rs rest)

module _ (time : ℕ) where
  abbrev pub IsAt : AuditLog → Type 0
  IsAt r = r.timestamp ≡ time

  is_after-before :
      (since : ℕ) (rs : List AuditLog)
      → since < time
      → All IsAt rs
      → All (λ r. is_after since r ≡ true) rs
  is_after-before since [] lt h = tt
  is_after-before since (r ∷ rs) lt (first, rest) =
      (ground (arith, lt, first), is_after-before since rs lt rest)

  is_after-same : (rs : List AuditLog) → All IsAt rs → All (λ r. is_after time r ≡ false) rs
  is_after-same [] h = tt
  is_after-same (r ∷ rs) (first, rest) = (ground (arith, first), is_after-same rs rest)

  last_time-same : (rs : List AuditLog) → All IsAt rs → last_time time rs ≡ time
  last_time-same [] h = refl
  last_time-same (r ∷ rs) (first, rest) = rw first (last_time-same rs rest)

  last_time-some :
      (d : ℕ) (rs : List AuditLog) → 0 < length rs → All IsAt rs → last_time d rs ≡ time
  last_time-some d [] pos h = ground (arith, pos)
  last_time-some d (r ∷ rs) pos (first, rest) = rw first (last_time-same rs rest)

  -- Of more than 100 rows that were written in the same millisecond a poll sends 100, and the poll
  -- from the watermark it leaves sends nothing: the other rows are never sent.
  pub poll_audit_since_loses :
      (since n : ℕ) (db : Db)
      → All IsAt db.audit
      → since < time
      → length db.audit ≡ 100 + n
      → (length (poll_audit_since since db).0 ≡ 100)
        × ((poll_audit_since (poll_audit_since since db).1 db).0 ≡ [])
  unfolding poll_audit_since oldest_first
  poll_audit_since_loses since n db same lt many =
      let kept = keep_passing (is_after since) db.audit (is_after-before since db.audit lt same) in
      let sent = take 100 (oldest_first db.audit) in
      let full : length sent ≡ 100 =
        omega
          (arith, length-take 100 (oldest_first db.audit), length-oldest_first db.audit, many) in
      let watermark : last_time since sent ≡ time =
        last_time-some since sent (omega (arith, full))
          (All-take IsAt 100 (oldest_first db.audit) (All-oldest_first IsAt db.audit same)) in
      let nothing = keep_failing (is_after time) db.audit (is_after-same db.audit same) in
      rw kept (full, rw (watermark, nothing) refl)
