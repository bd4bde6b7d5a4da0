-- ===== src/Programs/Registry/Unbound.antt =====
-- add_stake of programs/bonded_registry/src/lib.rs with another mint than that of the stake.
use chainpipe.Base.{ℕ, ◌+◌, ◌^◌, ◌<◌, ◌≤◌, ◌≡◌, ◌≢◌, sym, some, arith}
use chainpipe.Base.Results.{ok}
use chainpipe.Sdk.Platform.{PublicKey}
use chainpipe.Sdk.Accounts.{AgentStake}
use chainpipe.Programs.Runtime.{Runtime, TransferLaw, find, put}
use chainpipe.Programs.Registry.{Registry, add_stake, tier_for}
use chainpipe.Base.Encodings.{text_eq_refl}
use chainpipe.Base.Maps.{lookup-write}

-- An agent with a stake that holds an amount of at least 1000000000 of a mint other than that of
-- its stake is given tier 3 by add_stake for this amount, if the sum with its stake is below 2 ^
-- 64, while the vault in the mint of the stake holds what it held.
pub add_stake_any_mint :
    (rt : Runtime) (law : TransferLaw rt) (agent mint : PublicKey) (amount : ℕ) (stake : AgentStake)
    (r : Registry)
    → find agent r.stakes ≡ some stake
    → mint ≢ stake.stake_mint
    → amount ≤ r.tokens mint agent
    → 1_000_000_000 ≤ amount
    → stake.stake_amount + amount < 2 ^ 64
    → (r' : Registry) × (add_stake rt agent mint amount r ≡ ok r')
      × (find agent r'.stakes
          ≡ some (record stake { stake_amount = stake.stake_amount + amount; tier = 3 }))
      × (r'.tokens stake.stake_mint (rt.stake_key agent)
          ≡ r.tokens stake.stake_mint (rt.stake_key agent))
unfolding add_stake tier_for
add_stake_any_mint rt law agent mint amount stake r there other held large fits =
    let (tokens, moved) = law.carried mint agent (rt.stake_key agent) amount r.tokens held in
    let raised : AgentStake = record stake {
      stake_amount = stake.stake_amount + amount;
      tier = 3;
    } in
    (
      record r { tokens = tokens; stakes = put agent raised r.stakes },
      ground (arith, there, moved, large, fits),
      ground (arith, lookup-write agent agent raised r.stakes, text_eq_refl agent),
      law.other_mints mint agent (rt.stake_key agent) amount r.tokens tokens stake.stake_mint
          (rt.stake_key agent) moved (λ q. other (sym q)),
    )
