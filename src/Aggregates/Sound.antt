-- ===== src/Aggregates/Sound.antt =====
-- Every serial run of the transactions keeps users and flags in step.
use protect_platform.Reports.Intake.Recorded.{
  create_instant_tx-IsConsistent, create_pending_tx-IsConsistent,
}
use protect_platform.Reports.Review.Kept.{reject_tx-keeps, approve_tx-HasReportedUser}
use protect_platform.Reports.Review.Approved.{approve_tx-IsApproved}
use protect_platform.Flags.Admin.{patched}
use protect_platform.Worker.Decay.Faded.{decay_user-IsConsistent, decay_user-HasDecayed}
use protect_platform.Aggregates.Unique.{
  update-HasUniqueIds, map-HasUniqueIds, remove-HasUniqueIds, create-HasUniqueIds,
}
use protect_platform.Flags.Created.{create_flag_tx-IsFlagged}
use protect_platform.Worker.Decay.{decay_user, DecayJob}
use protect_platform.Aggregates.{
  decay, report_instant, report_pending, reject, approve, patch_flag, delete_flag, none_yet, flag,
  then_, Change, Changes,
}
use protect_platform.Shared.Levels.{clean}
use protect_platform.Flags.Admin.Rescored.{
  patch_flag_tx-IsRescored, delete_flag_tx-IsRescored, HasUniqueIds,
}
use protect_platform.Scores.Consistency.{IsConsistent}
use protect_platform.Prelude.{arith, inr, inl, ok, Option, String, ◌≡◌}
use protect_platform.Store.{Env, Db}
use protect_platform.Policy.{level_from_score, FlagPolicy}
use protect_platform.Js.{Js}

-- What the aggregate of users and flags promises: the invariant of scores, and the primary key.
pub record IsSound (policy : FlagPolicy) (db : Db) : Type 0 where
  pub consistent : IsConsistent policy db.users db.flags
  pub unique : HasUniqueIds db.flags

module _ (js : Js) (policy : FlagPolicy) (starts : level_from_score policy 0 ≡ clean) where
  decay_user-HasUniqueIds :
      (job : DecayJob) (env : Env) (id : String) (r : Option String) (db db' : Db)
      → HasUniqueIds db.flags
      → decay_user js job env id db ≡ ok (r, db')
      → HasUniqueIds db'.flags
  decay_user-HasUniqueIds job env id r db db' unique h =
      elim (decay_user-HasDecayed js job env id db r db' h) [
        | inl (_, same) ↦ rw same unique
        | inr (_, _, _, flags', _) ↦
            rw flags' (map-HasUniqueIds _ db.flags (λ g. ground arith) unique)
      ]

  Change-IsSound : {db db' : Db} → Change js policy db db' → IsSound policy db → IsSound policy db'
  Change-IsSound {db} {db'} (flag env dto principal result fresh h) s =
      let done =
        create_flag_tx-IsFlagged policy env dto principal db (fresh.unused 0) starts s.consistent
          result db' h in
      record {
        consistent = done.consistent;
        unique = rw done.flags (create-HasUniqueIds _ db.flags (fresh.unused_flag 1) s.unique);
      }
  Change-IsSound {db} {db'} (delete_flag env actor target flag_id after h) s =
      let (done, flags') =
        delete_flag_tx-IsRescored policy env target db s.consistent s.unique actor flag_id after db'
          h in
      record {
        consistent = done.consistent;
        unique = rw flags' (remove-HasUniqueIds flag_id db.flags s.unique);
      }
  Change-IsSound {db} {db'} (patch_flag env actor target flag_id body after h) s =
      let (done, flags', _) =
        patch_flag_tx-IsRescored policy env target db s.consistent s.unique actor flag_id body after
          db' h in
      record {
        consistent = done.consistent;
        unique =
            rw flags'
              (update-HasUniqueIds flag_id (patched body) db.flags (λ g. ground arith) s.unique);
      }
  Change-IsSound {db} {db'} (approve env id admin severity saved fresh h) s =
      let done =
        approve_tx-IsApproved js policy env id admin severity db saved db' s.consistent
          (approve_tx-HasReportedUser js policy env id admin severity saved db db' h) h in
      record {
        consistent = done.consistent;
        unique = rw done.flags (create-HasUniqueIds _ db.flags (fresh.unused_flag 0) s.unique);
      }
  Change-IsSound {db} {db'} (reject env id admin remark u h) s =
      let (users', flags') = reject_tx-keeps env id admin remark u db db' h in
      record { consistent = rw (users', flags') s.consistent; unique = rw flags' s.unique }
  Change-IsSound {db} {db'} (report_pending env dto r fresh h) s =
      let (kept, flags') =
        create_pending_tx-IsConsistent policy env dto db starts fresh.distinct (fresh.unused 0)
          (fresh.unused 1) s.consistent js r db' h in
      record { consistent = kept; unique = rw flags' s.unique }
  Change-IsSound {db} {db'} (report_instant env dto r saved fresh h) s =
      let (kept, uid, flags') =
        create_instant_tx-IsConsistent policy env dto db starts fresh.distinct (fresh.unused 0)
          (fresh.unused 1) s.consistent js r saved db' h in
      record {
        consistent = kept;
        unique = rw flags' (create-HasUniqueIds _ db.flags (fresh.unused_flag 3) s.unique);
      }
  Change-IsSound {db} {db'} (decay job env id r shared h) s = record {
    consistent = decay_user-IsConsistent js policy job env id db r db' shared s.consistent h;
    unique = decay_user-HasUniqueIds job env id r db db' s.unique h;
  }

  -- Where flags, deletions, changes of flags, reports, approvals, rejections and the decay of single
  -- users run one after the other, none beginning its reads before the one before it has committed,
  -- each user's score stays the sum of the effective weights of the user's flags, each level the one
  -- that the policy gives for that score, and identifiers of flags stay distinct, whatever the order.
  -- This holds at the start, score 0 is CLEAN under the policy, new rows have fresh identifiers, and
  -- the worker has the thresholds of the API.
  pub Changes-IsSound :
      {db db' : Db} → Changes js policy db db' → IsSound policy db → IsSound policy db'
  Changes-IsSound none_yet s = s
  Changes-IsSound (then_ before last) s = Change-IsSound last (Changes-IsSound before s)
