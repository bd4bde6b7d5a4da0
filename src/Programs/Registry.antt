-- ===== src/Programs/Registry.antt =====
-- programs/bonded_registry/src/lib.rs: stakes, their tiers and the jobs that are open. The bumps, the
-- events and the growth of old accounts are left out.
pub mod Laws
pub mod Operator
pub mod Calls
pub mod Kept
pub mod Runs
pub mod Tokens
pub mod Unbound
use chainpipe.Base.{
  ℕ, ◌-◌, ◌*◌, ◌/◌, ◌^◌, Bool, true, false, List, [], ◌∷◌, Option, none, some, if◌then◌else◌, ltb,
  leb, ◌==◌, min,
}
use chainpipe.Base.Int.{ℤ, pos, negsuc}
use chainpipe.Base.Results.{Result, ok, throws, ◌>>=◌, ◌>>◌}
use chainpipe.Base.Encodings.{text_eq}
use chainpipe.Sdk.Platform.{PublicKey}
use chainpipe.Sdk.Accounts.{AgentStake}
use chainpipe.Programs.Runtime.{
  Balances, Runtime, require, present, checked_add, saturating_add, find, put, absent,
}

abbrev pub tier1_min : ℕ
tier1_min = 10_000_000

abbrev pub tier2_min : ℕ
tier2_min = 100_000_000

abbrev pub tier3_min : ℕ
tier3_min = 1_000_000_000

unfoldable pub tier_for : ℕ → Result ℕ
tier_for amount =
    if leb tier3_min amount
    then ok 3
    else if leb tier2_min amount
    then ok 2
    else if leb tier1_min amount
    then ok 1
    else throws "StakeTooLow"

unfoldable pub tier_for_lenient : ℕ → ℕ
tier_for_lenient amount =
    if leb tier3_min amount
    then 3
    else if leb tier2_min amount
    then 2
    else if leb tier1_min amount
    then 1
    else 0

pub record RegistryConfig : Type 0 where
  pub operator : PublicKey
  pub dag_escrow_authority : PublicKey
  pub slash_bps : ℕ
  pub cooldown_slots : ℕ
  pub max_slash_bps : ℕ
  pub pending_operator : PublicKey

pub record Registry : Type 0 where
  pub config : RegistryConfig
  -- The stake account of each agent.
  pub stakes : List (PublicKey × AgentStake)
  pub tokens : Balances

abbrev pub put_stake : PublicKey → AgentStake → Registry → Registry
put_stake agent stake r = record r { stakes = put agent stake r.stakes }

-- `slot as i64`
abbrev pub as_i64 : ℕ → ℤ
as_i64 n = if ltb n (2 ^ 63) then pos n else negsuc (2 ^ 64 - 1 - n)

abbrev pub is_positive : ℤ → Bool
is_positive (pos n) = ltb 0 n
is_positive (negsuc n) = false

-- `value as u64`
abbrev pub as_u64 : ℤ → ℕ
as_u64 (pos n) = n
as_u64 (negsuc n) = 2 ^ 64 - 1 - n

abbrev pub new_stake : PublicKey → PublicKey → ℕ → ℕ → AgentStake
new_stake agent mint amount tier = record {
  agent = agent;
  stake_mint = mint;
  stake_amount = amount;
  tier = tier;
  open_jobs = 0;
  total_settled = 0;
  total_slashed = 0;
  unstake_requested_at = pos 0;
  bump = 0;
}

module _ (rt : Runtime) where
  -- The account is made by the instruction (`init`), which refuses one that is there.
  unfoldable pub stake_and_register : PublicKey → PublicKey → ℕ → Registry → Result Registry
  stake_and_register agent mint amount r = do
    require (absent (find agent r.stakes)) "already in use"
    tier ← tier_for amount
    tokens ← rt.transfer mint agent (rt.stake_key agent) amount r.tokens
    ok (put_stake agent (new_stake agent mint amount tier) (record r { tokens = tokens }))

  -- Agent, mint and amount: the mint is not compared with that of the stake.
  unfoldable pub add_stake : PublicKey → PublicKey → ℕ → Registry → Result Registry
  add_stake agent mint amount r = do
    stake ← present (find agent r.stakes) "AccountNotInitialized"
    require (ltb 0 amount) "StakeTooLow"
    tokens ← rt.transfer mint agent (rt.stake_key agent) amount r.tokens
    total ← checked_add 64 stake.stake_amount amount
    tier ← tier_for total
    ok (
        put_stake agent (record stake { stake_amount = total; tier = tier })
          (record r { tokens = tokens }))

  unfoldable pub request_unstake : PublicKey → ℕ → Registry → Result Registry
  request_unstake agent slot r = do
    stake ← present (find agent r.stakes) "AccountNotInitialized"
    require (ltb 0 stake.tier) "AgentNotRegistered"
    require (stake.open_jobs == 0) "HasOpenJobs"
    ok (put_stake agent (record stake { unstake_requested_at = as_i64 slot }) r)

  unfoldable pub execute_unstake : PublicKey → ℕ → Registry → Result Registry
  execute_unstake agent slot r = do
    stake ← present (find agent r.stakes) "AccountNotInitialized"
    require (is_positive stake.unstake_requested_at) "UnstakeNotRequested"
    require (stake.open_jobs == 0) "HasOpenJobs"
    ready_at ← checked_add 64 (as_u64 stake.unstake_requested_at) r.config.cooldown_slots
    require (leb ready_at slot) "CooldownNotElapsed"
    tokens ← rt.transfer stake.stake_mint (rt.stake_key agent) agent stake.stake_amount r.tokens
    ok (
        put_stake agent (record stake { stake_amount = 0; tier = 0; unstake_requested_at = pos 0 })
          (record r { tokens = tokens }))

  -- `slash_amount`, of at most `max_slash_bps`.
  abbrev pub slash_amount : RegistryConfig → AgentStake → ℕ → ℕ
  slash_amount config stake slash_bps =
      stake.stake_amount * min slash_bps config.max_slash_bps / 10_000

  abbrev pub slashed : AgentStake → ℕ → AgentStake
  slashed stake amount = record stake {
    stake_amount = stake.stake_amount - amount;
    tier = tier_for_lenient (stake.stake_amount - amount);
    total_slashed = saturating_add (2 ^ 32 - 1) stake.total_slashed 1;
  }

  -- `transfer` if there is something to transfer.
  abbrev pub transfer_some : PublicKey → PublicKey → PublicKey → ℕ → Balances → Result Balances
  transfer_some mint from to amount tokens =
      if ltb 0 amount then rt.transfer mint from to amount tokens else ok tokens

  -- Authority, mint (`has_one = stake_mint`), owner of the account that receives.
  unfoldable pub slash_stake :
      PublicKey → PublicKey → PublicKey → PublicKey → ℕ → Registry → Result Registry
  slash_stake authority mint agent consumer slash_bps r = do
    stake ← present (find agent r.stakes) "AccountNotInitialized"
    require (text_eq stake.stake_mint mint) "ConstraintHasOne"
    require (leb slash_bps 10_000) "InvalidSlashBps"
    require (text_eq authority r.config.dag_escrow_authority) "UnauthorizedCaller"
    tokens ←
        transfer_some mint (rt.stake_key agent) consumer (slash_amount r.config stake slash_bps)
          r.tokens
    ok (
        put_stake agent (slashed stake (slash_amount r.config stake slash_bps))
          (record r { tokens = tokens }))

  unfoldable pub increment_open_jobs : PublicKey → PublicKey → Registry → Result Registry
  increment_open_jobs authority agent r = do
    stake ← present (find agent r.stakes) "AccountNotInitialized"
    require (text_eq authority r.config.dag_escrow_authority) "UnauthorizedCaller"
    jobs ← checked_add 32 stake.open_jobs 1
    ok (put_stake agent (record stake { open_jobs = jobs }) r)

  abbrev pub closed_job : Bool → AgentStake → AgentStake
  closed_job settled stake = record stake {
    open_jobs = stake.open_jobs - 1;
    total_settled =
        if settled then saturating_add (2 ^ 32 - 1) stake.total_settled 1 else stake.total_settled;
  }

  unfoldable pub decrement_open_jobs : PublicKey → PublicKey → Bool → Registry → Result Registry
  decrement_open_jobs authority agent settled r = do
    stake ← present (find agent r.stakes) "AccountNotInitialized"
    require (text_eq authority r.config.dag_escrow_authority) "UnauthorizedCaller"
    ok (put_stake agent (closed_job settled stake) r)
