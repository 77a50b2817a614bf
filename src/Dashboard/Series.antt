-- ===== src/Dashboard/Series.antt =====
-- apps/api/src/dashboard/dashboard.service.ts: the series over time. Times are milliseconds, and a
-- bucket is the time at which it starts.
use protect_platform.Dashboard.{is_flag_created}
use protect_platform.Prelude.{
  ◌||◌, some, create, eqb, ◌&&◌, or_row, false, any, none, count_where, true, leb, [], keep, ◌-◌,
  Bool, ◌/◌, or_else, ◌∷◌, Option, map, ◌*◌, if◌then◌else◌, List, ℕ,
}
use protect_platform.Store.{flag_created, Db, AuditAction, GuildMemberCache, AuditLog}
pub mod Counts
mod Totals
mod Tests

-- `'hour' | 'day'`
pub data Trunc : Type 0 where
  hour day : Trunc

abbrev width : Trunc → ℕ
width Trunc.hour = 3600000
width Trunc.day = 86400000

-- `date_trunc` of a time in UTC.
unfoldable pub date_trunc : Trunc → ℕ → ℕ
date_trunc t time = time / width t * width t

-- A `Set` of buckets in the order in which they are added.
abbrev pub add_key : ℕ → List ℕ → List ℕ
add_key k keys = if any (eqb k) keys then keys else create k keys

unfoldable pub add_keys : List ℕ → List ℕ → List ℕ
add_keys [] keys = keys
add_keys (k ∷ ks) keys = add_keys ks (add_key k keys)

abbrev pub insert_key : ℕ → List ℕ → List ℕ
insert_key k [] = k ∷ []
insert_key k (j ∷ js) = let rest = insert_key k js in if leb k j then k ∷ j ∷ js else j ∷ rest

unfoldable pub sort_keys : List ℕ → List ℕ
sort_keys [] = []
sort_keys (k ∷ ks) = insert_key k (sort_keys ks)

-- `GROUP BY 1 ORDER BY 1`: the buckets of the rows.
abbrev pub buckets_of : {A : Type 0} → (A → ℕ) → List A → List ℕ
buckets_of at rows = sort_keys (add_keys (map at rows) [])

-- `count(*) FILTER (WHERE p)` of the rows in a bucket.
abbrev pub count_in : {A : Type 0} → (A → ℕ) → (A → Bool) → List A → ℕ → ℕ
count_in at p rows b = count_where (λ r. p r && eqb b (at r)) rows

abbrev pub is_report_created : AuditAction → Bool
is_report_created AuditAction.report_created = true
is_report_created _ = false

abbrev pub is_flag_row : AuditLog → Bool
is_flag_row r = is_flag_created r.action

abbrev pub is_report_row : AuditLog → Bool
is_report_row r = is_report_created r.action

abbrev pub is_counted : ℕ → AuditLog → Bool
is_counted start r = leb start r.timestamp && (is_flag_row r || is_report_row r)

pub record AuditBucket : Type 0 where
  pub bucket : ℕ
  pub fc : ℕ
  pub rc : ℕ

abbrev pub audit_time : Trunc → AuditLog → ℕ
audit_time t r = date_trunc t r.timestamp

abbrev audit_bucket : Trunc → List AuditLog → ℕ → AuditBucket
audit_bucket t rows b = record {
  bucket = b;
  fc = count_in (audit_time t) is_flag_row rows b;
  rc = count_in (audit_time t) is_report_row rows b;
}

unfoldable pub audit_buckets_flag_and_report : ℕ → Trunc → Db → List AuditBucket
audit_buckets_flag_and_report start t db =
    let rows = keep (is_counted start) db.audit in
    map (audit_bucket t rows) (buckets_of (audit_time t) rows)

pub record Bucket : Type 0 where
  pub bucket : ℕ
  pub c : ℕ

abbrev pub seen_since : ℕ → GuildMemberCache → Bool
seen_since start m = leb start m.first_seen_at

abbrev pub always : GuildMemberCache → Bool
always m = true

abbrev pub member_time : Trunc → GuildMemberCache → ℕ
member_time t m = date_trunc t m.first_seen_at

abbrev member_bucket : Trunc → List GuildMemberCache → ℕ → Bucket
member_bucket t rows b = record { bucket = b; c = count_in (member_time t) always rows b }

unfoldable pub member_first_seen_buckets : ℕ → Trunc → Db → List Bucket
member_first_seen_buckets start t db =
    let rows = keep (seen_since start) db.members in
    map (member_bucket t rows) (buckets_of (member_time t) rows)

pub record SeriesPoint : Type 0 where
  pub bucket : ℕ
  pub flag_creates : ℕ
  pub report_creates : ℕ
  pub member_joins : ℕ

-- `new Map(rows).get(b)`, where the last row of a bucket wins.
abbrev pub count_at : ℕ → List Bucket → Option ℕ
count_at b [] = none
count_at b (r ∷ rs) = or_row (count_at b rs) (if eqb b r.bucket then some r.c else none)

abbrev pub start_of : Bucket → ℕ
start_of r = r.bucket

abbrev pub point : List Bucket → List Bucket → List Bucket → ℕ → SeriesPoint
point flag_rows report_rows member_rows b = record {
  bucket = b;
  flag_creates = or_else (count_at b flag_rows) 0;
  report_creates = or_else (count_at b report_rows) 0;
  member_joins = or_else (count_at b member_rows) 0;
}

-- The keys are texts in the source, whose order is that of the times.
abbrev pub series_keys : List Bucket → List Bucket → List Bucket → List ℕ
series_keys flag_rows report_rows member_rows = sort_keys (
    add_keys (map start_of member_rows)
      (add_keys (map start_of report_rows) (add_keys (map start_of flag_rows) [])))

unfoldable pub merge_sparse_series : List Bucket → List Bucket → List Bucket → List SeriesPoint
merge_sparse_series flag_rows report_rows member_rows =
    map (point flag_rows report_rows member_rows) (series_keys flag_rows report_rows member_rows)

abbrev pub flag_bucket : AuditBucket → Bucket
flag_bucket r = record { bucket = r.bucket; c = r.fc }

abbrev pub report_bucket : AuditBucket → Bucket
report_bucket r = record { bucket = r.bucket; c = r.rc }

unfoldable pub build_merged_series : ℕ → Trunc → Db → List SeriesPoint
build_merged_series start t db =
    let combined = audit_buckets_flag_and_report start t db in
    merge_sparse_series (map flag_bucket combined) (map report_bucket combined)
      (member_first_seen_buckets start t db)

-- `'24h' | '7d' | '30d'`
pub data Range : Type 0 where
  last_24h last_7d last_30d : Range

abbrev day_ms : ℕ
day_ms = 24 * 60 * 60 * 1000

abbrev pub start_at : Range → ℕ → ℕ
start_at Range.last_24h now = now - day_ms
start_at Range.last_7d now = now - 7 * day_ms
start_at Range.last_30d now = now - 30 * day_ms

abbrev pub trunc_of : Range → Trunc
trunc_of Range.last_24h = Trunc.hour
trunc_of Range.last_7d = Trunc.day
trunc_of Range.last_30d = Trunc.day

unfoldable pub get_admin_analytics : Range → ℕ → Db → List SeriesPoint
get_admin_analytics range now db = build_merged_series (start_at range now) (trunc_of range) db
