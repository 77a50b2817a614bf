-- ===== src/AuditLogs.antt =====
-- apps/api/src/audit/audit.service.ts: `list`, the audit rows that pass a filter, page by page. The
-- identifiers of the rows, which the database makes, are a parameter.
use protect_platform.Paging.Skipped.{cursor_page_skips, IsNew}
use protect_platform.Paging.{cursor_page, CursorPage}
use protect_platform.Store.{Db, AuditLog, AuditAction}
use protect_platform.Prelude.{
  eqb, take, length, append, [], if◌then◌else◌, ◌≡◌, ◌==◌, leb, keep, none, ◌∷◌, false, List, ◌&&◌,
  some, true, Bool, String, ℕ, Option,
}

pub record AuditListFilter : Type 0 where
  pub limit : ℕ
  pub action : Option AuditAction
  pub actor_discord_id : Option String
  pub target_id : Option String
  pub since : Option ℕ
  pub until : Option ℕ
  pub cursor : Option String

abbrev action_code : AuditAction → ℕ
action_code AuditAction.flag_created = 0
action_code AuditAction.flag_deleted = 1
action_code AuditAction.flag_updated = 2
action_code AuditAction.report_created = 3
action_code AuditAction.report_approved = 4
action_code AuditAction.report_rejected = 5
action_code AuditAction.server_config_updated = 6
action_code AuditAction.guild_discovered = 7
action_code AuditAction.entitlement_updated = 8
action_code AuditAction.license_key_generated = 9
action_code AuditAction.license_key_redeemed = 10
action_code AuditAction.license_key_revoked = 11

abbrev passes_action : Option AuditAction → AuditAction → Bool
passes_action none a = true
passes_action (some wanted) a = eqb (action_code a) (action_code wanted)

abbrev passes_text : Option String → Option String → Bool
passes_text none s = true
passes_text (some wanted) none = false
passes_text (some wanted) (some s) = s == wanted

abbrev not_older : Option ℕ → ℕ → Bool
not_older none t = true
not_older (some since) t = leb since t

abbrev not_younger : Option ℕ → ℕ → Bool
not_younger none t = true
not_younger (some until) t = leb t until

module _ (id : AuditLog → String) where
  abbrev pub passes : AuditListFilter → AuditLog → Bool
  passes filter r =
      passes_action filter.action r.action
      && passes_text filter.actor_discord_id r.actor_discord_id
      && passes_text filter.target_id r.target_id
      && not_older filter.since r.timestamp
      && not_younger filter.until r.timestamp

  abbrev insert_newest : AuditLog → List AuditLog → List AuditLog
  insert_newest r [] = r ∷ []
  insert_newest r (s ∷ ss) =
      let rest = insert_newest r ss in if leb s.timestamp r.timestamp then r ∷ s ∷ ss else s ∷ rest

  unfoldable pub newest_rows : List AuditLog → List AuditLog
  newest_rows [] = []
  newest_rows (r ∷ rs) = insert_newest r (newest_rows rs)

  pub list_audit : AuditListFilter → Db → CursorPage AuditLog
  list_audit filter db =
      cursor_page id filter.limit filter.cursor (newest_rows (keep (passes filter) db.audit))

  -- The row between two pages of audit rows is on neither of them.
  pub list_audit_skips :
      (filter : AuditListFilter) (db : Db) (before rest : List AuditLog) (lost : AuditLog)
      → newest_rows (keep (passes filter) db.audit) ≡ append before (lost ∷ rest)
      → length before ≡ filter.limit
      → IsNew id (id lost) before
      → ((list_audit (record filter { cursor = none }) db).items ≡ before)
        × ((list_audit (record filter { cursor = none }) db).next_cursor ≡ some (id lost))
        × ((list_audit (record filter { cursor = some (id lost) }) db).items
            ≡ take filter.limit rest)
  unfolding list_audit
  list_audit_skips filter db before rest lost ordered full new =
      rw ordered (cursor_page_skips id filter.limit lost before rest full new)
