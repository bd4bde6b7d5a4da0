-- ===== src/Programs/Registry/Laws.antt =====
-- The vaults and the tiers of programs/bonded_registry/src/lib.rs.
use chainpipe.Base.{
  ℕ, ◌+◌, ◌≤◌, ◌≡◌, ◌≢◌, sym, ap, subst, some, inl, inr, arith, Bool-cases, ltb, min,
}
use chainpipe.Base.Maps.{lookup-write}
use chainpipe.Base.Results.{returned, ok-injective, ok}
use chainpipe.Base.Encodings.{text_eq, text_eq_sound, text_eq_refl}
use chainpipe.Sdk.Platform.{PublicKey}
use chainpipe.Sdk.Accounts.{AgentStake}
use chainpipe.Programs.Runtime.{
  Balances, Runtime, TransferLaw, find, require-holds, present-holds, checked_add, absent,
}
use chainpipe.Programs.Runtime.Laws.{portion_bound, transfer_untouched}
use chainpipe.Programs.Registry.{
  Registry, RegistryConfig, tier_for, tier_for_lenient, put_stake, new_stake, stake_and_register,
  add_stake, slash_amount,
}

-- A stake account has the tier of its amount, and its vault holds the amount.
pub record IsBackedStake (rt : Runtime) (tokens : Balances) (agent : PublicKey) (stake : AgentStake)
    : Type 0 where
  pub tiered : stake.tier ≡ tier_for_lenient stake.stake_amount
  pub held : stake.stake_amount ≤ tokens stake.stake_mint (rt.stake_key agent)

abbrev pub IsBacked : Runtime → Registry → Type 0
IsBacked rt r =
    (agent : PublicKey) (stake : AgentStake)
    → find agent r.stakes ≡ some stake
    → IsBackedStake rt r.tokens agent stake

-- Vaults of different agents are different accounts, and none is the account of a wallet.
pub record VaultLaw (rt : Runtime) : Type 0 where
  pub separate : (a b : PublicKey) → rt.stake_key a ≡ rt.stake_key b → a ≡ b

abbrev pub IsWallet : Runtime → PublicKey → Type 0
IsWallet rt key = (agent : PublicKey) → key ≢ rt.stake_key agent

-- The mint of the agent's stake.
abbrev pub IsOwnMint : PublicKey → PublicKey → Registry → Type 0
IsOwnMint agent mint r =
    (stake : AgentStake) → find agent r.stakes ≡ some stake → mint ≡ stake.stake_mint

tier_for-tier_for_lenient :
    (amount tier : ℕ) → tier_for amount ≡ ok tier → tier ≡ tier_for_lenient amount
unfolding tier_for tier_for_lenient
tier_for-tier_for_lenient amount tier e = ground arith

pub slash_amount_bound :
    (rt : Runtime) (config : RegistryConfig) (stake : AgentStake) (bps : ℕ)
    → bps ≤ 10_000
    → slash_amount rt config stake bps ≤ stake.stake_amount
slash_amount_bound rt config stake bps h =
    portion_bound stake.stake_amount (min bps config.max_slash_bps) (omega arith)

module _ (rt : Runtime) (law : TransferLaw rt) (vaults : VaultLaw rt) where
  -- Writing one backed account keeps the registry backed, if no other vault lost anything.
  pub put_stake-IsBacked :
      (agent : PublicKey) (stake : AgentStake) (r : Registry) (tokens : Balances)
      → IsBackedStake rt tokens agent stake
      → ((other mint : PublicKey)
          → other ≢ agent
          → r.tokens mint (rt.stake_key other) ≤ tokens mint (rt.stake_key other))
      → IsBacked rt r
      → IsBacked rt (put_stake agent stake (record r { tokens = tokens }))
  put_stake-IsBacked agent stake r tokens fresh kept h a s e = elim (Bool-cases (text_eq agent a)) [
    | inl same ↦
        let here : stake ≡ s = ground (arith, lookup-write a agent stake r.stakes, same) in
        subst (λ x. IsBackedStake rt tokens x s) (text_eq_sound agent a same)
          (subst (IsBackedStake rt tokens agent) here fresh)
    | inr other ↦
        let there : find a r.stakes ≡ some s =
          ground (arith, lookup-write a agent stake r.stakes, other) in
        let differs : a ≢ agent = ground (arith, text_eq_refl agent, other) in
        record {
          tiered = (h a s there).tiered;
          held = omega (arith, (h a s there).held, kept a s.stake_mint differs);
        }
  ]

  -- The vault of one agent is left alone by a transfer between a wallet and another agent's vault.
  deposit_elsewhere :
      (mint agent : PublicKey) (amount : ℕ) (b b' : Balances) (other m : PublicKey)
      → rt.transfer mint agent (rt.stake_key agent) amount b ≡ ok b'
      → IsWallet rt agent
      → other ≢ agent
      → b m (rt.stake_key other) ≤ b' m (rt.stake_key other)
  deposit_elsewhere mint agent amount b b' other m e w h = omega (
    arith,
    transfer_untouched rt law mint agent (rt.stake_key agent) amount b b' m (rt.stake_key other) e
        (λ q. w other (sym q)) (λ q. h (vaults.separate other agent q)),
  )

  pub withdrawal_elsewhere :
      (mint agent to : PublicKey) (amount : ℕ) (b b' : Balances) (other m : PublicKey)
      → rt.transfer mint (rt.stake_key agent) to amount b ≡ ok b'
      → IsWallet rt to
      → other ≢ agent
      → b m (rt.stake_key other) ≤ b' m (rt.stake_key other)
  withdrawal_elsewhere mint agent to amount b b' other m e w h = omega (
    arith,
    transfer_untouched rt law mint (rt.stake_key agent) to amount b b' m (rt.stake_key other) e
        (λ q. h (vaults.separate other agent q)) (λ q. w other (sym q)),
  )

  pub stake_and_register-IsBacked :
      (agent mint : PublicKey) (amount : ℕ) (r r' : Registry)
      → IsWallet rt agent
      → IsBacked rt r
      → stake_and_register rt agent mint amount r ≡ ok r'
      → IsBacked rt r'
  unfolding stake_and_register
  stake_and_register-IsBacked agent mint amount r r' w h e =
      let (new, e1) = require-holds (absent (find agent r.stakes)) "already in use" _ r' e in
      let (tier, tiered, e2) = returned (tier_for amount) _ r' e1 in
      let (tokens, moved, e3) =
        returned (rt.transfer mint agent (rt.stake_key agent) amount r.tokens) _ r' e2 in
      let more = law.given mint agent (rt.stake_key agent) amount r.tokens tokens moved (w agent) in
      subst (IsBacked rt) (ok-injective e3) (
        put_stake-IsBacked agent (new_stake agent mint amount tier) r tokens
          (record {
            tiered = tier_for-tier_for_lenient amount tier tiered;
            held = omega (arith, more);
          })
          (λ other m differs.
            deposit_elsewhere mint agent amount r.tokens tokens other m moved w differs)
          h)

  pub add_stake-IsBacked :
      (agent mint : PublicKey) (amount : ℕ) (r r' : Registry)
      → IsWallet rt agent
      → IsOwnMint agent mint r
      → IsBacked rt r
      → add_stake rt agent mint amount r ≡ ok r'
      → IsBacked rt r'
  unfolding add_stake
  add_stake-IsBacked agent mint amount r r' w own h e =
      let (stake, there, e1) = present-holds (find agent r.stakes) "AccountNotInitialized" _ r' e in
      let (positive, e2) = require-holds (ltb 0 amount) "StakeTooLow" _ r' e1 in
      let (tokens, moved, e3) =
        returned (rt.transfer mint agent (rt.stake_key agent) amount r.tokens) _ r' e2 in
      let (total, summed, e4) = returned (checked_add 64 stake.stake_amount amount) _ r' e3 in
      let (tier, tiered, e5) = returned (tier_for total) _ r' e4 in
      let more = law.given mint agent (rt.stake_key agent) amount r.tokens tokens moved (w agent) in
      let same : mint ≡ stake.stake_mint = own stake there in
      let sum : total ≡ stake.stake_amount + amount = ground (arith, summed) in
      subst (IsBacked rt) (ok-injective e5) (
        put_stake-IsBacked agent (record stake { stake_amount = total; tier = tier }) r tokens
          (record {
            tiered = tier_for-tier_for_lenient total tier tiered;
            held = omega (
              arith,
              more,
              sum,
              (h agent stake there).held,
              ap (λ m. tokens m (rt.stake_key agent)) same,
              ap (λ m. r.tokens m (rt.stake_key agent)) same,
            );
          })
          (λ other m differs.
            deposit_elsewhere mint agent amount r.tokens tokens other m moved w differs)
          h)
