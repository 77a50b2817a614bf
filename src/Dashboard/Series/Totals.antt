-- ===== src/Dashboard/Series/Totals.antt =====
-- The series loses no row and counts none twice.
use protect_platform.Dashboard.{is_flag_created, count_flag_creates_since}
use protect_platform.Dashboard.Series.Counts.{
  buckets_of-any, sum_over-count_in, count_at-buckets_of, any-add_keys, add_keys-IsDistinct,
  any-sort_keys, bucket_with, sort_keys-IsDistinct, sum_over, IsDistinct,
}
use protect_platform.Store.{Db, AuditLog, GuildMemberCache}
use protect_platform.Prelude.{
  All-imp, ◌∙◌, true, All, leb, ◌&&◌, keep, refl, [], arith, ◌||◌, ◌+◌, count_where, Bool, eqb, ◌∷◌,
  ◌≡◌, map, any, List, ℕ,
}
use protect_platform.Dashboard.Series.{
  Bucket, point, member_time, buckets_of, seen_since, is_report_created, is_counted, audit_time,
  count_in, member_first_seen_buckets, is_flag_row, always, is_report_row, audit_bucket,
  flag_bucket, audit_buckets_flag_and_report, start_of, report_bucket, add_keys, sort_keys,
  merge_sparse_series, build_merged_series, SeriesPoint, Trunc,
}

-- The sum of a column of a series.
abbrev pub total : (SeriesPoint → ℕ) → List SeriesPoint → ℕ
total column [] = 0
total column (p ∷ ps) = column p + total column ps

total-map :
    (column : SeriesPoint → ℕ) (f : ℕ → SeriesPoint) (g : ℕ → ℕ) (keys : List ℕ)
    → ((b : ℕ) → column (f b) ≡ g b)
    → total column (map f keys) ≡ sum_over g keys
total-map column f g [] same = refl
total-map column f g (b ∷ keys) same = ground (arith, same b, total-map column f g keys same)

-- The columns of a query are maps from its buckets.
flag_rows_of :
    (t : Trunc) (rows : List AuditLog) (ks : List ℕ)
    → map flag_bucket (map (audit_bucket t rows) ks)
      ≡ map (bucket_with (count_in (audit_time t) is_flag_row rows)) ks
flag_rows_of t rows [] = refl
flag_rows_of t rows (k ∷ ks) = rw (flag_rows_of t rows ks)

report_rows_of :
    (t : Trunc) (rows : List AuditLog) (ks : List ℕ)
    → map report_bucket (map (audit_bucket t rows) ks)
      ≡ map (bucket_with (count_in (audit_time t) is_report_row rows)) ks
report_rows_of t rows [] = refl
report_rows_of t rows (k ∷ ks) = rw (report_rows_of t rows ks)

map-start_of : (f : ℕ → ℕ) (ks : List ℕ) → map start_of (map (bucket_with f) ks) ≡ ks
map-start_of f [] = refl
map-start_of f (k ∷ ks) = rw (map-start_of f ks)

module _ (f g h : List ℕ) where
  -- The keys of a series, from those of its three columns.
  abbrev keys : List ℕ
  keys = sort_keys (add_keys h (add_keys g (add_keys f [])))

  keys-IsDistinct : IsDistinct keys
  keys-IsDistinct = sort_keys-IsDistinct (add_keys h (add_keys g (add_keys f []))) (
      add_keys-IsDistinct h (add_keys g (add_keys f []))
        (add_keys-IsDistinct g (add_keys f []) (add_keys-IsDistinct f [] (λ b. omega arith))))

  keys-any : (b : ℕ) → any (eqb b) keys ≡ (any (eqb b) f || any (eqb b) g || any (eqb b) h)
  keys-any b = ground (
    arith,
    any-sort_keys (eqb b) (add_keys h (add_keys g (add_keys f []))),
    any-add_keys b h (add_keys g (add_keys f [])),
    any-add_keys b g (add_keys f []),
    any-add_keys b f [],
  )

count-keep_flags :
    (start : ℕ) (rs : List AuditLog)
    → count_where is_flag_row (keep (is_counted start) rs)
      ≡ count_where (λ r. is_flag_created r.action && leb start r.timestamp) rs
count-keep_flags start [] = refl
count-keep_flags start (r ∷ rs) = ground (arith, count-keep_flags start rs)

count-keep_reports :
    (start : ℕ) (rs : List AuditLog)
    → count_where is_report_row (keep (is_counted start) rs)
      ≡ count_where (λ r. is_report_created r.action && leb start r.timestamp) rs
count-keep_reports start [] = refl
count-keep_reports start (r ∷ rs) = ground (arith, count-keep_reports start rs)

count-always :
    (ms : List GuildMemberCache) (p : GuildMemberCache → Bool)
    → count_where always (keep p ms) ≡ count_where p ms
count-always [] p = refl
count-always (m ∷ ms) p = ground (arith, count-always ms p)

module _ (start : ℕ) (t : Trunc) (db : Db) where
  abbrev rows : List AuditLog
  rows = keep (is_counted start) db.audit

  abbrev seen : List GuildMemberCache
  seen = keep (seen_since start) db.members

  abbrev audit_keys : List ℕ
  audit_keys = buckets_of (audit_time t) rows

  abbrev member_keys : List ℕ
  member_keys = buckets_of (member_time t) seen

  abbrev all_keys : List ℕ
  all_keys = keys audit_keys audit_keys member_keys

  abbrev flag_column : List Bucket
  flag_column = map (bucket_with (count_in (audit_time t) is_flag_row rows)) audit_keys

  abbrev report_column : List Bucket
  report_column = map (bucket_with (count_in (audit_time t) is_report_row rows)) audit_keys

  abbrev member_column : List Bucket
  member_column = map (bucket_with (count_in (member_time t) always seen)) member_keys

  build_merged_series_lem :
      build_merged_series start t db ≡ map (point flag_column report_column member_column) all_keys
  unfolding build_merged_series merge_sparse_series audit_buckets_flag_and_report
      member_first_seen_buckets
  build_merged_series_lem = rw (
    flag_rows_of t rows audit_keys,
    report_rows_of t rows audit_keys,
    map-start_of (count_in (audit_time t) is_flag_row rows) audit_keys,
    map-start_of (count_in (audit_time t) is_report_row rows) audit_keys,
    map-start_of (count_in (member_time t) always seen) member_keys,
  )

  audit_keys-any : All (λ r. any (eqb (audit_time t r)) all_keys ≡ true) rows
  audit_keys-any =
      All-imp (λ r. any (eqb (audit_time t r)) audit_keys ≡ true)
        (λ r. any (eqb (audit_time t r)) all_keys ≡ true) rows
        (λ r h. ground (arith, h, keys-any audit_keys audit_keys member_keys (audit_time t r)))
        (buckets_of-any (audit_time t) is_flag_row rows)

  member_keys-any : All (λ m. any (eqb (member_time t m)) all_keys ≡ true) seen
  member_keys-any =
      All-imp (λ m. any (eqb (member_time t m)) member_keys ≡ true)
        (λ m. any (eqb (member_time t m)) all_keys ≡ true) seen
        (λ m h. ground (arith, h, keys-any audit_keys audit_keys member_keys (member_time t m)))
        (buckets_of-any (member_time t) always seen)

  -- A column whose points count the audit rows of a kind adds up to their number.
  audit_total :
      (column : SeriesPoint → ℕ) (p : AuditLog → Bool)
      → ((b : ℕ)
          → column (point flag_column report_column member_column b)
            ≡ count_in (audit_time t) p rows b)
      → total column (build_merged_series start t db) ≡ count_where p rows
  audit_total column p same = rw build_merged_series_lem (
      total-map column (point flag_column report_column member_column)
        (count_in (audit_time t) p rows) all_keys same
      ∙ sum_over-count_in (audit_time t) p rows all_keys
          (keys-IsDistinct audit_keys audit_keys member_keys) audit_keys-any)

  member_total :
      total (λ p. p.member_joins) (build_merged_series start t db) ≡ count_where always seen
  member_total = rw build_merged_series_lem (
      total-map (λ p. p.member_joins) (point flag_column report_column member_column)
        (count_in (member_time t) always seen) all_keys
        (count_at-buckets_of (member_time t) always seen)
      ∙ sum_over-count_in (member_time t) always seen all_keys
          (keys-IsDistinct audit_keys audit_keys member_keys) member_keys-any)

-- The points of a series add up to what there is to count since its own start: the flags that were
-- created, as `countFlagCreatesSince` counts them from that same start, the reports that were
-- created, and the members that were seen for the first time.
pub build_merged_series-total :
    (start : ℕ) (t : Trunc) (db : Db)
    → (total (λ p. p.flag_creates) (build_merged_series start t db)
        ≡ count_flag_creates_since start db)
      × (total (λ p. p.report_creates) (build_merged_series start t db)
          ≡ count_where (λ r. is_report_created r.action && leb start r.timestamp) db.audit)
      × (total (λ p. p.member_joins) (build_merged_series start t db)
          ≡ count_where (seen_since start) db.members)
unfolding count_flag_creates_since
build_merged_series-total start t db = (
  audit_total start t db (λ p. p.flag_creates) is_flag_row
        (count_at-buckets_of (audit_time t) is_flag_row (rows start t db))
      ∙ count-keep_flags start db.audit,
  audit_total start t db (λ p. p.report_creates) is_report_row
        (count_at-buckets_of (audit_time t) is_report_row (rows start t db))
      ∙ count-keep_reports start db.audit,
  member_total start t db ∙ count-always db.members (seen_since start),
)
