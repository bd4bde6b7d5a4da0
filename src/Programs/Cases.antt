-- ===== src/Programs/Cases.antt =====
-- An agent, its stake and a pipeline of two nodes, on which the theorems about the programs are
-- applied.
use chainpipe.Base.{
  ℕ, ◌≡◌, ◌≢◌, refl, ap, false, List, [], ◌∷◌, none, some, arith, if◌then◌else◌, replicate,
}
use chainpipe.Base.Int.{pos}
use chainpipe.Base.Results.{Result, ok, throws}
use chainpipe.Sdk.Platform.{PublicKey}
use chainpipe.Programs.Runtime.{option-injective}
use chainpipe.Programs.Registry.Laws.{IsOwnMint}
use chainpipe.Programs.Registry.{stake_and_register, tier_for, new_stake}
use chainpipe.Programs.Registry.Calls.{run_calls}
use chainpipe.Sdk.Accounts.{AgentStake, PipelineAccount, PipelineNode, pending, active, job_settled}
use chainpipe.Programs.Runtime.{Balances, find}
use chainpipe.Programs.Registry.{Registry}
use chainpipe.Programs.Registry.Calls.{
  RegistryCall, registered, added, opened, slashing, closed, requested, executed,
}
use chainpipe.Programs.Registry.Laws.{IsWallet}
use chainpipe.Programs.Bridge.{Bridge, record_outcome, job_record}
use chainpipe.Programs.Bridge.Calls.{BridgeCall, completion, failure, run_records}
use chainpipe.Programs.Escrow.{Escrow, EscrowConfig}
use chainpipe.Programs.Escrow.Opening.{NodeConfig, create_pipeline}
use chainpipe.Programs.Escrow.Money.{IsSolvent}
use chainpipe.Programs.Escrow.Budget.{create_pipeline_lem}
use chainpipe.Programs.Ledger.{
  runtime, runtime-TransferLaw, ledger_transfer, same_account, debited, credited,
}

abbrev pub agent_key : PublicKey
agent_key = 60 ∷ []

abbrev pub consumer_key : PublicKey
consumer_key = 50 ∷ []

abbrev pub usdc : PublicKey
usdc = 4 ∷ []

abbrev pub authority : PublicKey
authority = 1 ∷ []

abbrev pub vault_key : PublicKey
vault_key = 80 ∷ []

abbrev pub opening_balances : Balances
opening_balances m owner =
    if same_account m owner usdc agent_key
    then 50_000_000
    else if same_account m owner usdc consumer_key
    then 1_500
    else 0

abbrev pub registry : Registry
registry = record {
  config = record {
    operator = 8 ∷ [];
    dag_escrow_authority = authority;
    slash_bps = 500;
    cooldown_slots = 10;
    max_slash_bps = 10_000;
    pending_operator = [];
  };
  stakes = [];
  tokens = opening_balances;
}

abbrev pub bridge : Bridge
bridge = record {
  config = record {
    operator = 8 ∷ [];
    dag_escrow_authority = authority;
    dag_escrow_program = 2 ∷ [];
    ema_alpha_bps = 1_000;
    pending_operator = [];
  };
  reputations = [];
  job_records = [];
}

abbrev pub head_or : PublicKey → ℕ
head_or [] = 0
head_or (c ∷ rest) = c

pub IsWallet-key : (c : ℕ) → c ≢ 115 → IsWallet runtime (c ∷ [])
IsWallet-key c h agent e = h (ap head_or e)

-- A stake, a job, its slash, and an attempt to leave early.
abbrev pub registry_calls : List RegistryCall
registry_calls =
    registered agent_key usdc 20_000_000
    ∷ added agent_key usdc 1_000_000
    ∷ opened authority agent_key
    ∷ slashing authority usdc agent_key consumer_key 500
    ∷ closed authority agent_key false
    ∷ requested agent_key 7
    ∷ executed agent_key 9
    ∷ []

pub own_mint :
    IsOwnMint agent_key usdc
      (run_calls runtime (registered agent_key usdc 20_000_000 ∷ []) registry)
unfolding stake_and_register ledger_transfer tier_for
own_mint stake e = ap (λ (s : AgentStake). s.stake_mint) (option-injective e)

-- A registry in which the agent holds a mint that is worth nothing.
abbrev pub worthless : PublicKey
worthless = 5 ∷ []

abbrev pub agent_stake : AgentStake
agent_stake = new_stake agent_key usdc 20_000_000 1

abbrev pub staked : Registry
staked = record registry {
  stakes = (agent_key, agent_stake) ∷ [];
  tokens = credited worthless agent_key 2_000_000_000 opening_balances;
}

abbrev pub bridge_calls : List BridgeCall
bridge_calls =
    completion authority (9 ∷ []) agent_key (pos 500) 120
    ∷ failure authority (9 ∷ []) agent_key 121
    ∷ failure authority (10 ∷ []) agent_key 122
    ∷ []

abbrev pub recorded : Bridge
recorded = run_records runtime (completion authority (9 ∷ []) agent_key (pos 500) 120 ∷ []) bridge

pub job_recorded :
    find (9 ∷ []) recorded.job_records
    ≡ some (job_record (9 ∷ []) agent_key job_settled (pos 500) 120)
unfolding record_outcome
job_recorded = refl

abbrev pub config : EscrowConfig
config = record {
  operator = 8 ∷ [];
  facilitator_authority = 7 ∷ [];
  fee_bps = 100;
  paused = false;
  dispute_slots = 150;
  pending_operator = [];
}

abbrev pub node_configs : List NodeConfig
node_configs =
    record {
      allocation_usdc = 600;
      deadline_slots_from_now = 900;
      dependency_mask = 0;
      required_tier = 0;
    }
    ∷ record {
      allocation_usdc = 400;
      deadline_slots_from_now = 1_900;
      dependency_mask = 1;
      required_tier = 0;
    }
    ∷ []

abbrev pub node : ℕ → ℕ → ℕ → ℕ → PipelineNode
node i allocation deadline mask = record {
  pipeline = vault_key;
  node_index = i;
  agent = [];
  allocation_usdc = allocation;
  deadline_slot = deadline;
  dependency_mask = mask;
  status = pending;
  settled_at_slot = 0;
  job_id = replicate 32 0;
  required_tier = 0;
  bump = 0;
}

abbrev pub first_node : PipelineNode
first_node = node 0 600 1_000 0

abbrev pub account : PipelineAccount
account = record {
  consumer = consumer_key;
  total_nodes = 2;
  total_usdc_locked = 1_000;
  nodes_settled = 0;
  nodes_expired = 0;
  status = active;
  nonce = 5;
  stake_mint = usdc;
  settled_mask = 0;
  bump = 0;
}

abbrev pub escrow : Escrow
escrow = record {
  config = config;
  dag_authority = authority;
  key = vault_key;
  pipeline = account;
  nodes = some first_node ∷ some (node 1 400 2_000 1) ∷ [];
  settlements = none ∷ none ∷ [];
  registry = record registry {
    tokens = credited usdc vault_key 1_000 (debited usdc consumer_key 1_000 opening_balances);
  };
  bridge = bridge;
}

pub created :
    create_pipeline runtime config authority registry bridge consumer_key usdc vault_key
      node_configs 5 100
    ≡ ok escrow
unfolding create_pipeline ledger_transfer
created = refl

pub vault_apart : (agent : PublicKey) → vault_key ≢ 115 ∷ agent
vault_apart agent e = let bad : ◌≡◌ {A = ℕ} 80 115 = ap head_or e in omega (arith, bad)

pub different_heads : (a b : PublicKey) → head_or a ≢ head_or b → a ≢ b
different_heads a b h e = h (ap head_or e)

pub escrow-IsSolvent : IsSolvent runtime escrow
escrow-IsSolvent =
    let made =
      create_pipeline_lem runtime runtime-TransferLaw config authority registry bridge consumer_key
        usdc vault_key node_configs 5 100 escrow created (omega arith) vault_apart
        (different_heads consumer_key vault_key (λ e. omega (arith, e))) in
    made.0

abbrev pub from_ok : Escrow → Result Escrow → Escrow
from_ok d (ok e) = e
from_ok d (throws t) = d

-- The same escrow with an agent that has a stake.
abbrev pub ready : Escrow
ready = record escrow {
  registry = record escrow.registry { stakes = (agent_key, agent_stake) ∷ [] };
}

pub ready-IsSolvent : IsSolvent runtime ready
ready-IsSolvent = record {
  backed = escrow-IsSolvent.backed;
  fee = escrow-IsSolvent.fee;
  apart = escrow-IsSolvent.apart;
}
