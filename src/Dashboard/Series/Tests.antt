-- ===== src/Dashboard/Series/Tests.antt =====
-- A run of the series, and its theorem at a concrete input.
use protect_platform.Dashboard.{count_flag_creates_since}
use protect_platform.Samples.{empty_db}
use protect_platform.Dashboard.Series.Totals.{build_merged_series-total, total}
use protect_platform.Prelude.{arith, ◌≢◌, leb, refl, ◌&&◌, count_where, [], ◌≡◌, ◌∷◌, none, ℕ}
use protect_platform.Store.{ActorKind, AuditLog, GuildMemberCache, Db, AuditAction}
use protect_platform.Dashboard.Series.{
  seen_since, Range, date_trunc, sort_keys, is_report_created, add_keys, member_first_seen_buckets,
  audit_buckets_flag_and_report, merge_sparse_series, Trunc, get_admin_analytics,
  build_merged_series,
}

abbrev row : AuditAction → ℕ → AuditLog
row action time = record {
  timestamp = time;
  action = action;
  entity_type = "flag";
  entity_id = "f";
  target_id = none;
  actor_discord_id = none;
  actor_kind = ActorKind.user;
  correlation_id = none;
  metadata = [];
}

abbrev seen_at : ℕ → GuildMemberCache
seen_at time = record {
  id = "m1";
  guild_id = "5";
  discord_user_id = "7";
  username = none;
  global_name = none;
  avatar_hash = none;
  first_seen_at = time;
  source = "join";
}

-- The second hour has two flags and a report, the third a member, and the first is before the start.
abbrev counted : Db
counted = record empty_db {
  audit =
      row AuditAction.flag_created 10
      ∷ row AuditAction.flag_created 7100000
      ∷ row AuditAction.report_created 3700000
      ∷ row AuditAction.flag_created 3600000
      ∷ row AuditAction.flag_deleted 3600000
      ∷ [];
  members = seen_at 7200001 ∷ [];
}

points :
    build_merged_series 3600000 Trunc.hour counted
    ≡ record { bucket = 3600000; flag_creates = 2; report_creates = 1; member_joins = 0 }
      ∷ record { bucket = 7200000; flag_creates = 0; report_creates = 0; member_joins = 1 }
      ∷ []
unfolding build_merged_series merge_sparse_series audit_buckets_flag_and_report
    member_first_seen_buckets add_keys sort_keys date_trunc
points = refl

analytics : get_admin_analytics Range.last_24h 7200002 counted ≢ []
unfolding get_admin_analytics build_merged_series merge_sparse_series audit_buckets_flag_and_report
    member_first_seen_buckets add_keys sort_keys date_trunc
analytics = λ e. ground (arith, e)

build_merged_series-total_example :
    (total (λ p. p.flag_creates) (build_merged_series 3600000 Trunc.hour counted)
      ≡ count_flag_creates_since 3600000 counted)
    × (total (λ p. p.report_creates) (build_merged_series 3600000 Trunc.hour counted)
        ≡ count_where (λ r. is_report_created r.action && leb 3600000 r.timestamp) counted.audit)
    × (total (λ p. p.member_joins) (build_merged_series 3600000 Trunc.hour counted)
        ≡ count_where (seen_since 3600000) counted.members)
build_merged_series-total_example = build_merged_series-total 3600000 Trunc.hour counted
