-- ===== src/Reports/AntiAbuse/Slots.antt =====
-- apps/api/src/reports/reports-anti-abuse.service.ts: what a refused report, one that is rolled back,
-- and a day of reports do to the counters.
use protect_platform.Prelude.Int.{pos, decr-incr, decr, ℤ, above, incr}
use protect_platform.Redis.{Redis}
use protect_platform.Reports.AntiAbuse.{
  free_slots, cooldown_key, give_back, claim_slots, set_count, count_of, Limits,
}
use protect_platform.Prelude.{
  ltb, true, Bool, ap, ◌∙◌, ◌≤◌, ◌+◌, [], ◌∷◌, List, ℕ, lookup-delete, eq_iff, put, refl, eq_refl,
  lookup-put, arith, ◌==◌, some, none, err, false, ApiError, ok, Result, lookup, ◌≡◌, Option,
  String, if◌then◌else◌,
}

-- Two states of Redis in which every counter and every cooldown reads the same.
pub record IsSame (r s : Redis) : Type 0 where
  pub counts : (id : String) → count_of id s ≡ count_of id r
  pub cooldowns : (key : String) → lookup key s.cooldowns ≡ lookup key r.cooldowns

count_of-set :
    (k id : String) (n : ℤ) (r : Redis)
    → count_of id (set_count k n r) ≡ (if k == id then n else count_of id r)
count_of-set k id n r = ground (arith, lookup-put k id n r.day_counts)

module _ (k : String) (r : Redis) where
  abbrev counted : Redis
  counted = set_count k (incr (count_of k r)) r

  -- Counting up and back down changes no counter.
  recounted : (id : String) → count_of id (give_back k counted) ≡ count_of id r
  recounted id = ground (
    arith,
    count_of-set k id (decr (count_of k counted)) counted,
    count_of-set k id (incr (count_of k r)) r,
    count_of-set k k (incr (count_of k r)) r,
    eq_refl k,
    eq_iff k id,
    decr-incr (count_of k r),
  )

  recounted-IsSame : IsSame r (give_back k counted)
  recounted-IsSame = record { counts = recounted; cooldowns = λ key. refl }

-- How many accepted claims of the reporter `id` a claim is.
abbrev pub accepts : String → String → Result (Unit {0}) → ℕ
accepts id reporter (ok u) = if reporter == id then 1 else 0
accepts id reporter (err e) = 0

abbrev pub is_ok : Result (Unit {0}) → Bool
is_ok (ok u) = true
is_ok (err e) = false

module _ (limits : Limits) (reporter : String) (guild_id : Option String) (r r' : Redis) where
  -- A report that is refused for the daily cap or the cooldown leaves every counter and every
  -- cooldown as it was.
  pub claim_slots_refused :
      (e : ApiError) → claim_slots limits reporter guild_id r ≡ (err e, r') → IsSame r r'
  unfolding claim_slots
  claim_slots_refused e h =
      let same : give_back reporter (counted reporter r) ≡ r' = ground arith in
      rw (← same) (recounted-IsSame reporter r)

  -- The state of a report that is let in.
  let_in :
      claim_slots limits reporter guild_id r ≡ (ok tt, r')
      → (record (counted reporter r) {
        cooldowns = put (cooldown_key reporter guild_id) "1" r.cooldowns;
      }
          ≡ r')
        × (above (incr (count_of reporter r)) limits.max_per_day ≡ false)
        × (lookup (cooldown_key reporter guild_id) r.cooldowns ≡ none)
  unfolding claim_slots
  let_in h = (ground arith, ground arith, ground arith)

  let_in-IsSame :
      lookup (cooldown_key reporter guild_id) r.cooldowns ≡ none
      → IsSame r (
          free_slots reporter guild_id (record (counted reporter r) {
            cooldowns = put (cooldown_key reporter guild_id) "1" r.cooldowns;
          }))
  let_in-IsSame idle = record {
    counts = recounted reporter r;
    cooldowns = λ key.
        let own = cooldown_key reporter guild_id in
        ground (
          arith,
          lookup-delete own key (put own "1" r.cooldowns),
          lookup-put own key "1" r.cooldowns,
          idle,
          eq_iff own key,
        );
  }

  -- A report that is let in counts one up and starts the cooldown, which did not run before, and
  -- giving the slots back leaves every counter and every cooldown as before.
  pub claim_slots_undone :
      claim_slots limits reporter guild_id r ≡ (ok tt, r')
      → (count_of reporter r' ≡ incr (count_of reporter r))
        × (lookup (cooldown_key reporter guild_id) r.cooldowns ≡ none)
        × (lookup (cooldown_key reporter guild_id) r'.cooldowns ≡ some "1")
        × IsSame r (free_slots reporter guild_id r')
  claim_slots_undone h =
      let (same, below, idle) = let_in h in
      let own = cooldown_key reporter guild_id in
      rw (← same) (
        ground (
          arith,
          count_of-set reporter reporter (incr (count_of reporter r)) r,
          eq_refl reporter,
        ),
        idle,
        ground (arith, lookup-put own own "1" r.cooldowns, eq_refl own),
        let_in-IsSame idle,
      )

  -- One claim, seen by any reporter.
  claimed-count :
      (result : Result (Unit {0})) (id : String) (c : ℕ)
      → claim_slots limits reporter guild_id r ≡ (result, r')
      → count_of id r ≡ pos c
      → c ≤ limits.max_per_day
      → (count_of id r' ≡ pos (c + accepts id reporter result))
        × (c + accepts id reporter result ≤ limits.max_per_day)
  claimed-count (err e) id c h counts below =
      ground (arith, (claim_slots_refused e h).counts id, counts, below)
  claimed-count (ok u) id c h counts below =
      let (same, room, idle) = let_in h in
      rw (← same) (
        ground (
          arith,
          count_of-set reporter id (incr (count_of reporter r)) r,
          eq_iff reporter id,
          room,
          counts,
          below,
        ))

-- Claims one after the other: the state after them, and how many of a reporter's are accepted.
unfoldable pub claim_all : Limits → List (String × Option String) → Redis → Redis
claim_all limits [] r = r
claim_all limits ((reporter, guild_id) ∷ claims) r =
    claim_all limits claims (claim_slots limits reporter guild_id r).1

unfoldable pub accepted : Limits → String → List (String × Option String) → Redis → ℕ
accepted limits id [] r = 0
accepted limits id ((reporter, guild_id) ∷ claims) r =
    let (result, r') = claim_slots limits reporter guild_id r in
    accepts id reporter result + accepted limits id claims r'

claimed_all :
    (limits : Limits) (id : String) (claims : List (String × Option String)) (r : Redis) (c : ℕ)
    → count_of id r ≡ pos c
    → c ≤ limits.max_per_day
    → (count_of id (claim_all limits claims r) ≡ pos (c + accepted limits id claims r))
      × (c + accepted limits id claims r ≤ limits.max_per_day)
unfolding claim_all accepted
claimed_all limits id [] r c counts below = ground (arith, counts, below)
claimed_all limits id ((reporter, guild_id) ∷ claims) r c counts below =
    let (result, r') = claim_slots limits reporter guild_id r in
    let one = accepts id reporter result in
    let (now, room) = claimed-count limits reporter guild_id r r' result id c refl counts below in
    let (last, end) = claimed_all limits id claims r' (c + one) now room in
    (last ∙ ap pos (omega arith), omega (arith, end))

-- A claim of the reporter is accepted exactly if the cap leaves room and no cooldown runs.
abbrev pub has_room : Limits → ℕ → Option String → Bool
has_room limits n none = ltb n limits.max_per_day
has_room limits n (some v) = false

claim_slots-has_room :
    (limits : Limits) (id : String) (guild_id : Option String) (r : Redis) (n : ℕ)
    → count_of id r ≡ pos n
    → is_ok (claim_slots limits id guild_id r).0
      ≡ has_room limits n (lookup (cooldown_key id guild_id) r.cooldowns)
unfolding claim_slots
claim_slots-has_room limits id guild_id r n counts = ground (arith, counts)

-- Of the claims that come one after the other while no counter expires and no slot is given back,
-- each one that is accepted counts its reporter one up and no other claim counts anybody, and no more
-- of a reporter's are accepted than the daily cap leaves. The reporter's next claim is accepted
-- exactly if the cap leaves room for it and the reporter's cooldown for that guild does not run.
pub claim_slots-IsCapped :
    (limits : Limits) (id : String) (claims : List (String × Option String)) (r : Redis) (c : ℕ)
    (guild_id : Option String)
    → count_of id r ≡ pos c
    → c ≤ limits.max_per_day
    → let after = claim_all limits claims r in
      (count_of id after ≡ pos (c + accepted limits id claims r))
      × (c + accepted limits id claims r ≤ limits.max_per_day)
      × (is_ok (claim_slots limits id guild_id after).0
          ≡ has_room limits
              (c + accepted limits id claims r)
              (lookup (cooldown_key id guild_id) after.cooldowns))
claim_slots-IsCapped limits id claims r c guild_id counts below =
    let (now, room) = claimed_all limits id claims r c counts below in
    (
      now,
      room,
      claim_slots-has_room limits id guild_id (claim_all limits claims r)
          (c + accepted limits id claims r) now,
    )
