-- ===== src/Flags/Authorized.antt =====
-- apps/api/src/flags/flags.service.ts: what an accepted flag says of the one who made it.
use protect_platform.Prelude.{
  refl, ◌&&◌, [], eqb, is_some, ◌∷◌, ◌==◌, List, not, false, ℕ, ◌≡◌, ◌≢◌, ◌⊎◌, inl, inr, Bool-cases,
  Option-cases, true, some, arith, eq_iff, find, ok,
}
use protect_platform.Policy.{FlagPolicy, admin_override_weight}
use protect_platform.Store.{
  FlagSource, trusted_command, admin_override, TrustedUser, Db, Env, bind-ok,
}
use protect_platform.Auth.{role_code, has_role, AppRole, AuthIdentity, RequestPrincipal}
use protect_platform.Flags.{
  is_user, CreateFlagDto, CreatedFlag, acting_id, use_admin_override, weight_of, authorize_flag,
  add_flag, report_flag, create_flag_tx,
}

abbrev pub Holds : AppRole → List AppRole → Type 0
Holds r [] = ⊥
Holds r (x ∷ roles) = (x ≡ r) ⊎ Holds r roles

-- In whose name a flag is asked for: users in their own, the bot in anybody's, with a severity.
abbrev pub SpeaksFor : CreateFlagDto → RequestPrincipal → Type 0
SpeaksFor dto principal =
    (principal.identity ≡ AuthIdentity.user dto.actor_discord_id)
    ⊎ ((principal.identity ≡ AuthIdentity.bot) × (is_some dto.severity ≡ true))

-- The two ways to a flag.
abbrev pub ByOverride : FlagPolicy → CreateFlagDto → RequestPrincipal → ℕ → FlagSource → Type 0
ByOverride policy dto principal weight source =
    (source ≡ admin_override)
    × (dto.admin_override ≡ true)
    × (principal.identity ≡ AuthIdentity.user dto.actor_discord_id)
    × Holds AppRole.admin principal.roles
    × (weight ≡ admin_override_weight policy)

abbrev pub ByTrust : FlagPolicy → CreateFlagDto → Db → ℕ → FlagSource → Type 0
ByTrust policy dto db weight source =
    (source ≡ trusted_command)
    × (dto.admin_override ≡ false)
    × (trusted : TrustedUser) × (find (λ (t : TrustedUser). t.discord_user_id) dto.actor_discord_id
          db.trusted
        ≡ some trusted)
    × (weight ≡ weight_of policy dto trusted)

admin-role_code : (x : AppRole) → eqb (role_code x) 0 ≡ true → x ≡ AppRole.admin
admin-role_code AppRole.admin h = refl
admin-role_code AppRole.trusted h = ground arith
admin-role_code AppRole.user h = ground arith
admin-role_code AppRole.checker h = ground arith
admin-role_code AppRole.bot h = ground arith

has_role-Holds :
    (roles : List AppRole) → has_role AppRole.admin roles ≡ true → Holds AppRole.admin roles
has_role-Holds [] h = cc h
has_role-Holds (x ∷ roles) h = elim (Bool-cases (eqb (role_code x) 0)) [
  | inl same ↦ inl (admin-role_code x same)
  | inr other ↦ inr (has_role-Holds roles (ground (arith, other, h)))
]

speaks :
    (dto : CreateFlagDto) (principal : RequestPrincipal)
    → not (dto.actor_discord_id == acting_id principal.identity dto.actor_discord_id)
        && is_user principal.identity
      ≡ false
    → not (is_user principal.identity)
        && not (use_admin_override dto principal)
        && not (is_some dto.severity)
      ≡ false
    → SpeaksFor dto principal
speaks dto principal own severe = by_identity principal.identity refl
  where
    by_identity : (i : AuthIdentity) → principal.identity ≡ i → SpeaksFor dto principal
    by_identity (AuthIdentity.user id) e =
        inl (ground (arith, e, own, eq_iff dto.actor_discord_id id))
    by_identity AuthIdentity.bot e = inr (e, ground (arith, e, severe))

module _ (policy : FlagPolicy) (dto : CreateFlagDto) (principal : RequestPrincipal) (db : Db) where
  authorized :
      {weight : ℕ} {source : FlagSource} {mid : Db}
      → authorize_flag policy dto principal db ≡ ok ((weight, source), mid)
      → SpeaksFor dto principal
        × (dto.actor_discord_id ≢ dto.target_discord_id)
        × (acting_id principal.identity dto.actor_discord_id ≡ dto.actor_discord_id)
  unfolding authorize_flag
  authorized h =
      let actor = acting_id principal.identity dto.actor_discord_id in
      let own = speaks dto principal (ground arith) (ground arith) in
      let same : actor ≡ dto.actor_discord_id = elim own [
        | inl u ↦ rw u refl
        | inr (b, s) ↦ rw b refl
      ] in
      (own, ground (arith, same, eq_iff actor dto.target_discord_id), same)

  by_right :
      {weight : ℕ} {source : FlagSource} {mid : Db}
      → authorize_flag policy dto principal db ≡ ok ((weight, source), mid)
      → SpeaksFor dto principal
      → acting_id principal.identity dto.actor_discord_id ≡ dto.actor_discord_id
      → ByOverride policy dto principal weight source ⊎ ByTrust policy dto db weight source
  unfolding authorize_flag
  by_right h own same = elim (Bool-cases (use_admin_override dto principal)) [
    | inl used ↦
        let is_own : principal.identity ≡ AuthIdentity.user dto.actor_discord_id = elim own [
          | inl u ↦ u
          | inr (b, s) ↦ absurd (ground (arith, b, used))
        ] in
        inl (
          ground arith,
          ground arith,
          is_own,
          has_role-Holds principal.roles (ground (arith, used)),
          ground arith,
        )
    | inr unused ↦
        elim (Option-cases
          (find (λ (t : TrustedUser). t.discord_user_id) dto.actor_discord_id db.trusted)) [
            | inl missing ↦ absurd (ground (arith, same))
            | inr (trusted, e) ↦
                inr (ground (arith, same), ground arith, trusted, e, ground (arith, same))
          ]
  ]

  -- Nobody flags themselves, users act under their own identifier, and the bot names an actor and a
  -- severity. The flag either is an override, asked for by an authenticated user who holds the ADMIN
  -- role, with the override weight, or comes from an actor that the table of trusted users holds, with
  -- the weight of its severity or of the actor's trust.
  pub create_flag_tx_authorized :
      (env : Env) (result : CreatedFlag) (db' : Db)
      → create_flag_tx policy env dto principal db ≡ ok (result, db')
      → SpeaksFor dto principal
        × (dto.actor_discord_id ≢ dto.target_discord_id)
        × (ByOverride policy dto principal result.weight result.source
            ⊎ ByTrust policy dto db result.weight result.source)
  unfolding create_flag_tx
  create_flag_tx_authorized env result db' h =
      let actor = acting_id principal.identity dto.actor_discord_id in
      let ((weight, source), mid, passed, rest) =
        bind-ok (authorize_flag policy dto principal) _ db h in
      let ((uid, saved), mid', _, rest') =
        bind-ok (add_flag policy env dto actor weight source) _ mid rest in
      let (_, last, _, end) =
        bind-ok (report_flag env dto principal uid weight source saved) _ mid' rest' in
      let w : weight ≡ result.weight = ground arith in
      let s : source ≡ result.source = ground arith in
      let (own, not_self, same) = authorized passed in
      (own, not_self, rw (← w, ← s) (by_right passed own same))
