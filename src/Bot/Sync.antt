-- ===== src/Bot/Sync.antt =====
-- apps/bot/src/services/memberSync.ts: the members of a guild are sent to the API in batches, and the
-- elevated ones are reported in the guild's channel. Messages and the texts in them are left out; a
-- message that cannot be sent is not modelled.
use protect_platform.Servers.Members.{Hit, GuildMemberBatchRow}
use protect_platform.Prelude.{
  zero, drop, false, take, none, leb, suc, true, ◌+◌, not, map, String, length, [], if◌then◌else◌,
  ◌∷◌, some, append, Bool, Option, ℕ, List,
}
pub mod Uploaded
pub mod Capped
mod Tests

abbrev chunk_size : ℕ
chunk_size = 400

abbrev scan_chunk : ℕ
scan_chunk = 500

abbrev pub alert_cap : ℕ
alert_cap = 35

-- `for (let i = 0; i < rows.length; i += size)` with `rows.slice(i, i + size)`, for at most `fuel`
-- chunks.
unfoldable pub chunks_in : {A : Type 0} → (size fuel : ℕ) → List A → List (List A)
chunks_in size zero rows = []
chunks_in size (suc fuel) [] = []
chunks_in size (suc fuel) (row ∷ rows) =
    take size (row ∷ rows) ∷ chunks_in size fuel (drop size (row ∷ rows))

abbrev pub chunks : {A : Type 0} → ℕ → List A → List (List A)
chunks size rows = chunks_in size (length rows) rows

-- The requests to the API, and the messages to the guild's channel and to the administrators.
pub data SyncStep : Type 0 where
  started snapshot cap_notice sync_done failed : SyncStep
  uploaded : List GuildMemberBatchRow → SyncStep
  scanned : List String → SyncStep
  alerted : Hit → SyncStep
  completed : ℕ → SyncStep

-- What the API and Discord answer: the members, none if they cannot be fetched; whether a batch is
-- accepted and the end is; the channel for alerts, none if there is none to send to; and the hits of
-- a scan, none if it fails.
pub record SyncWorld : Type 0 where
  pub members : Option (List GuildMemberBatchRow)
  pub accepts : List GuildMemberBatchRow → Bool
  pub accepts_done : Bool
  pub can_alert : Bool
  pub scan : List String → Option (List Hit)

-- One alert for each hit until the cap; the number that is sent in all.
unfoldable pub alert_hits : ℕ → List Hit → List SyncStep × ℕ
alert_hits sent [] = ([], sent)
alert_hits sent (u ∷ us) =
    let rest = alert_hits (sent + 1) us in
    if leb alert_cap sent then ([], sent) else (alerted u ∷ rest.0, rest.1)

abbrev pub cap_line : ℕ → List SyncStep
cap_line sent = if leb alert_cap sent then cap_notice ∷ [] else []

-- A scan that fails ends the alerts without a notice.
abbrev pub after_scan : Option (List Hit) → ℕ → (ℕ → List SyncStep) → List SyncStep
after_scan none sent rest = []
after_scan (some hits) sent rest =
    let said = alert_hits sent hits in
    append said.0 (if leb alert_cap said.1 then cap_line said.1 else rest said.1)

unfoldable pub scan_chunks : SyncWorld → List (List String) → ℕ → List SyncStep
scan_chunks world [] sent = cap_line sent
scan_chunks world (ids ∷ rest) sent =
    scanned ids ∷ after_scan (world.scan ids) sent (λ n. scan_chunks world rest n)

abbrev pub row_id : GuildMemberBatchRow → String
row_id row = row.discord_user_id

abbrev pub is_empty_list : List String → Bool
is_empty_list [] = true
is_empty_list (x ∷ xs) = false

unfoldable pub post_sync_elevation_alerts : SyncWorld → List String → List SyncStep
post_sync_elevation_alerts world ids =
    if is_empty_list ids
    then []
    else if not world.can_alert
    then []
    else scan_chunks world (chunks scan_chunk ids) 0

-- The batches are sent one after the other; the first that is refused ends them.
unfoldable pub upload : SyncWorld → List (List GuildMemberBatchRow) → List SyncStep × Bool
upload world [] = ([], true)
upload world (rows ∷ rest) =
    let later = upload world rest in
    if world.accepts rows then (uploaded rows ∷ later.0, later.1) else ([], false)

abbrev pub on_failure : List SyncStep
on_failure = failed ∷ sync_done ∷ []

abbrev pub finish : SyncWorld → List GuildMemberBatchRow → List SyncStep
finish world rows = append (post_sync_elevation_alerts world (map row_id rows)) (
    if world.accepts_done then sync_done ∷ completed (length rows) ∷ [] else sync_done ∷ on_failure)

abbrev pub after_upload :
    SyncWorld → List GuildMemberBatchRow → List SyncStep × Bool → List SyncStep
after_upload world rows (steps, true) = append steps (finish world rows)
after_upload world rows (steps, false) = append steps on_failure

abbrev pub with_members : SyncWorld → Option (List GuildMemberBatchRow) → List SyncStep
with_members world none = on_failure
with_members world (some rows) =
    snapshot ∷ after_upload world rows (upload world (chunks chunk_size rows))

unfoldable pub sync_guild_members_to_api : SyncWorld → List SyncStep
sync_guild_members_to_api world = started ∷ with_members world world.members
