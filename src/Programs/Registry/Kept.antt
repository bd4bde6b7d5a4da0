-- ===== src/Programs/Registry/Kept.antt =====
-- The vaults stay backed through the other instructions of programs/bonded_registry/src/lib.rs.
use chainpipe.Base.{
  ℕ, ◌+◌, ◌≤◌, ◌≡◌, ◌≢◌, refl, sym, ap, subst, Bool, some, inl, inr, arith, Bool-cases, ltb, leb,
  ◌==◌,
}
use chainpipe.Base.Int.{pos}
use chainpipe.Base.Results.{ok, returned, ok-injective}
use chainpipe.Base.Encodings.{text_eq, text_eq_sound}
use chainpipe.Sdk.Platform.{PublicKey}
use chainpipe.Sdk.Accounts.{AgentStake}
use chainpipe.Programs.Runtime.{
  Balances, Runtime, TransferLaw, find, require-holds, present-holds, checked_add,
}
use chainpipe.Programs.Registry.{
  Registry, put_stake, request_unstake, execute_unstake, slash_amount, slashed, slash_stake,
  increment_open_jobs, decrement_open_jobs, closed_job, transfer_some, tier_for_lenient,
  is_positive, as_u64, as_i64,
}
use chainpipe.Programs.Registry.Laws.{
  IsBacked, VaultLaw, IsWallet, put_stake-IsBacked, withdrawal_elsewhere,
}

module _ (rt : Runtime) (law : TransferLaw rt) (vaults : VaultLaw rt) where
  -- A write that keeps mint, amount and tier.
  booked-IsBacked :
      (agent : PublicKey) (stake booked : AgentStake) (r : Registry)
      → find agent r.stakes ≡ some stake
      → booked.stake_mint ≡ stake.stake_mint
      → booked.stake_amount ≡ stake.stake_amount
      → booked.tier ≡ stake.tier
      → IsBacked rt r
      → IsBacked rt (put_stake agent booked r)
  booked-IsBacked agent stake booked r there mints amounts tiers h =
      put_stake-IsBacked rt law vaults agent booked r r.tokens
        (record {
          tiered = ground (arith, (h agent stake there).tiered, amounts, tiers);
          held = ground (arith, (h agent stake there).held, amounts, mints);
        })
        (λ other m differs. omega arith) h

  pub request_unstake-IsBacked :
      (agent : PublicKey) (slot : ℕ) (r r' : Registry)
      → IsBacked rt r
      → request_unstake rt agent slot r ≡ ok r'
      → IsBacked rt r'
  unfolding request_unstake
  request_unstake-IsBacked agent slot r r' h e =
      let (stake, there, e1) = present-holds (find agent r.stakes) "AccountNotInitialized" _ r' e in
      let (staked, e2) = require-holds (ltb 0 stake.tier) "AgentNotRegistered" _ r' e1 in
      let (idle, e3) = require-holds (stake.open_jobs == 0) "HasOpenJobs" _ r' e2 in
      subst (IsBacked rt) (ok-injective e3) (
        booked-IsBacked agent stake (record stake { unstake_requested_at = as_i64 slot }) r there
          refl refl refl h)

  pub increment_open_jobs-IsBacked :
      (authority agent : PublicKey) (r r' : Registry)
      → IsBacked rt r
      → increment_open_jobs rt authority agent r ≡ ok r'
      → IsBacked rt r'
  unfolding increment_open_jobs
  increment_open_jobs-IsBacked authority agent r r' h e =
      let (stake, there, e1) = present-holds (find agent r.stakes) "AccountNotInitialized" _ r' e in
      let (allowed, e2) =
        require-holds (text_eq authority r.config.dag_escrow_authority) "UnauthorizedCaller" _ r'
          e1 in
      let (jobs, counted, e3) = returned (checked_add 32 stake.open_jobs 1) _ r' e2 in
      subst (IsBacked rt) (ok-injective e3)
        (booked-IsBacked agent stake (record stake { open_jobs = jobs }) r there refl refl refl h)

  pub decrement_open_jobs-IsBacked :
      (authority agent : PublicKey) (settled : Bool) (r r' : Registry)
      → IsBacked rt r
      → decrement_open_jobs rt authority agent settled r ≡ ok r'
      → IsBacked rt r'
  unfolding decrement_open_jobs
  decrement_open_jobs-IsBacked authority agent settled r r' h e =
      let (stake, there, e1) = present-holds (find agent r.stakes) "AccountNotInitialized" _ r' e in
      let (allowed, e2) =
        require-holds (text_eq authority r.config.dag_escrow_authority) "UnauthorizedCaller" _ r'
          e1 in
      subst (IsBacked rt) (ok-injective e2)
        (booked-IsBacked agent stake (closed_job rt settled stake) r there refl refl refl h)

  pub execute_unstake-IsBacked :
      (agent : PublicKey) (slot : ℕ) (r r' : Registry)
      → IsWallet rt agent
      → IsBacked rt r
      → execute_unstake rt agent slot r ≡ ok r'
      → IsBacked rt r'
  unfolding execute_unstake
  execute_unstake-IsBacked agent slot r r' w h e =
      let (stake, there, e1) = present-holds (find agent r.stakes) "AccountNotInitialized" _ r' e in
      let (asked, e2) =
        require-holds (is_positive stake.unstake_requested_at) "UnstakeNotRequested" _ r' e1 in
      let (idle, e3) = require-holds (stake.open_jobs == 0) "HasOpenJobs" _ r' e2 in
      let (ready_at, summed, e4) =
        returned (checked_add 64 (as_u64 stake.unstake_requested_at) r.config.cooldown_slots) _ r'
          e3 in
      let (waited, e5) = require-holds (leb ready_at slot) "CooldownNotElapsed" _ r' e4 in
      let (tokens, moved, e6) =
        returned
          (rt.transfer stake.stake_mint (rt.stake_key agent) agent stake.stake_amount r.tokens) _ r'
          e5 in
      subst (IsBacked rt) (ok-injective e6) (
        put_stake-IsBacked rt law vaults agent
          (record stake { stake_amount = 0; tier = 0; unstake_requested_at = pos 0 }) r tokens
          (record { tiered = unfold tier_for_lenient in refl; held = omega arith })
          (λ other m differs.
            withdrawal_elsewhere rt law vaults stake.stake_mint agent agent stake.stake_amount
              r.tokens tokens other m moved w differs)
          h)

  -- What a slash takes from the vault, and what it leaves in the others.
  transfer_some_lem :
      (mint agent consumer : PublicKey) (amount : ℕ) (b b' : Balances)
      → transfer_some rt mint (rt.stake_key agent) consumer amount b ≡ ok b'
      → IsWallet rt consumer
      → (b' mint (rt.stake_key agent) + amount ≡ b mint (rt.stake_key agent))
        × ((other m : PublicKey)
            → other ≢ agent
            → b m (rt.stake_key other) ≤ b' m (rt.stake_key other))
  transfer_some_lem mint agent consumer amount b b' e w = elim (Bool-cases (ltb 0 amount)) [
    | inl some_left ↦
        let moved : rt.transfer mint (rt.stake_key agent) consumer amount b ≡ ok b' =
          ground (arith, e, some_left) in
        (
          law.taken mint (rt.stake_key agent) consumer amount b b' moved (λ q. w agent (sym q)),
          λ other m differs.
              withdrawal_elsewhere rt law vaults mint agent consumer amount b b' other m moved w
                differs,
        )
    | inr nothing ↦
        let same : b ≡ b' = ground (arith, e, nothing) in
        (
          ground (arith, nothing, same),
          λ other m differs.
              subst (λ x. b m (rt.stake_key other) ≤ x m (rt.stake_key other)) same (omega arith),
        )
  ]

  pub slash_stake-IsBacked :
      (authority mint agent consumer : PublicKey) (bps : ℕ) (r r' : Registry)
      → IsWallet rt consumer
      → IsBacked rt r
      → slash_stake rt authority mint agent consumer bps r ≡ ok r'
      → IsBacked rt r'
  unfolding slash_stake
  slash_stake-IsBacked authority mint agent consumer bps r r' w h e =
      let (stake, there, e1) = present-holds (find agent r.stakes) "AccountNotInitialized" _ r' e in
      let (mints, e2) = require-holds (text_eq stake.stake_mint mint) "ConstraintHasOne" _ r' e1 in
      let (portion, e3) = require-holds (leb bps 10_000) "InvalidSlashBps" _ r' e2 in
      let (allowed, e4) =
        require-holds (text_eq authority r.config.dag_escrow_authority) "UnauthorizedCaller" _ r'
          e3 in
      let amount : ℕ = slash_amount rt r.config stake bps in
      let (tokens, moved, e5) =
        returned (transfer_some rt mint (rt.stake_key agent) consumer amount r.tokens) _ r' e4 in
      let (taken, elsewhere) =
        transfer_some_lem mint agent consumer amount r.tokens tokens moved w in
      let same : stake.stake_mint ≡ mint = text_eq_sound stake.stake_mint mint mints in
      subst (IsBacked rt) (ok-injective e5) (
        put_stake-IsBacked rt law vaults agent (slashed rt stake amount) r tokens
          (record {
            tiered = refl;
            held = omega (
              arith,
              (h agent stake there).held,
              taken,
              ap (λ x. r.tokens x (rt.stake_key agent)) same,
              ap (λ x. tokens x (rt.stake_key agent)) same,
            );
          })
          elsewhere h)
