-- ===== src/Flags/Admin/Repeated.antt =====
-- apps/api/src/admin/admin-flags.service.ts and schema.prisma: the event of a changed flag has an
-- idempotency key that names the user and the flag only, and the column is unique.
use protect_platform.Prelude.{
  String, ◌≡◌, ◌≢◌, refl, true, false, some, ◌==◌, arith, ok, find, update, find-update_other,
  if◌then◌else◌,
}
use protect_platform.Policy.{FlagPolicy}
use protect_platform.Store.{
  User, Db, Env, bind-ok, check-ok, has_key, enqueue, enqueue-key, log_with_tx, log-outbox,
}
use protect_platform.Scores.{score_of, user_id, discord_key, recompute_user}
use protect_platform.Scores.Raising.{recomputed_user, recompute_user-writes}
use protect_platform.Flags.Admin.{
  flag_key, AdminPatchFlagDto, patch_key, patched, with_flag, patch_found, patch_flag_tx,
}
use protect_platform.Flags.Admin.Reads.{with_flag-ok}

-- What the key of a change finds in the outbox before it and leaves there.
record IsKeyed (target flag_id : String) (db db' : Db) : Type 0 where
  before : User
  is_before : find discord_key target db.users ≡ some before
  unused : has_key (some (patch_key before.id flag_id)) db.outbox ≡ false
  used : has_key (some (patch_key before.id flag_id)) db'.outbox ≡ true
  after : User
  is_after : find discord_key target db'.users ≡ some after
  same_id : after.id ≡ before.id

module _ (policy : FlagPolicy) (target flag_id : String) where
  patch_flag_tx-IsKeyed :
      (env : Env) (actor : String) (body : AdminPatchFlagDto) (db : Db) (after : User) (db' : Db)
      → patch_flag_tx policy env actor target flag_id body db ≡ ok (after, db')
      → IsKeyed target flag_id db db'
  unfolding patch_flag_tx patch_found
  patch_flag_tx-IsKeyed env actor body db after db' h =
      let (changes, h0) =
        check-ok _ _
          (λ _. with_flag target flag_id (patch_found policy env actor target flag_id body)) db h in
      let (u, g, there, of_user, h1) =
        with_flag-ok target db flag_id (patch_found policy env actor target flag_id body) h0 in
      let patched_db : Db = record db { flags = update flag_key flag_id (patched body) db.flags } in
      let (_, mid, computed, h2) = bind-ok (recompute_user policy env u.id) _ patched_db h1 in
      let (_, mid', logged, h3) = bind-ok (log_with_tx env _) _ mid h2 in
      let (_, last, queued, end) = bind-ok (enqueue env (env.uuid 0) _) _ mid' h3 in
      let (outbox, users) = recompute_user-writes policy env u.id patched_db computed in
      let (outbox', users') = log-outbox env _ mid logged in
      let (new, there_now, users'') =
        enqueue-key env (env.uuid 0) (patch_key u.id flag_id) _ _ mid' queued in
      let same : last ≡ db' = ground arith in
      let change = recomputed_user policy env u.id (score_of u.id patched_db.flags) in
      let kept : db'.users ≡ update user_id u.id change db.users =
        rw (← same, users'', users', users) refl in
      record {
        before = u;
        is_before = there;
        unused = rw (← outbox, ← outbox') new;
        used = rw (← same) there_now;
        after = if u.id == u.id then change u else u;
        is_after =
            rw
              (
                kept,
                find-update_other user_id discord_key u.id target change db.users (λ v. refl),
                there,
              )
              refl;
        same_id = ground arith;
      }

  -- A flag that has been changed once cannot be changed again: the event of the second change has
  -- the key of the first, which the unique index refuses, whoever changes what and when.
  pub patch_flag_tx_once :
      (env env' : Env) (actor actor' : String) (body body' : AdminPatchFlagDto) (db db' db'' : Db)
      (after after' : User)
      → patch_flag_tx policy env actor target flag_id body db ≡ ok (after, db')
      → patch_flag_tx policy env' actor' target flag_id body' db' ≢ ok (after', db'')
  patch_flag_tx_once env env' actor actor' body body' db db' db'' after after' h again =
      let first = patch_flag_tx-IsKeyed env actor body db after db' h in
      let second = patch_flag_tx-IsKeyed env' actor' body' db' after' db'' again in
      ground (arith, first.used, second.unused, first.is_after, second.is_before, first.same_id)
