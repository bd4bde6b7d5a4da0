-- ===== src/Programs/Tests.antt =====
-- The theorems about the programs applied to an agent, its stake and a pipeline of two nodes.
use chainpipe.Base.{
  ℕ, zero, suc, ◌+◌, ◌<◌, ◌≡◌, ◌^◌, refl, true, false, List, [], ◌∷◌, Option, none, some, arith,
  set,
}
use chainpipe.Base.Int.{pos}
use chainpipe.Base.Results.{Result, ok}
use chainpipe.Sdk.Accounts.{
  PipelineNode, NodeSettlement, NodeStatus, submitted, settled, expired, job_settled, is_submitted,
}
use chainpipe.Programs.Runtime.{find}
use chainpipe.Programs.Registry.Calls.{run_calls}
use chainpipe.Programs.Registry.Laws.{IsBacked}
use chainpipe.Programs.Registry.Runs.{run_calls-IsBacked}
use chainpipe.Programs.Bridge.{record_outcome, job_record}
use chainpipe.Programs.Bridge.Calls.{run_records}
use chainpipe.Programs.Bridge.Laws.{IsScored, run_records-IsScored}
use chainpipe.Programs.Bridge.Once.{run_records_keeps}
use chainpipe.Programs.Escrow.{Escrow, account_at, meets, within}
use chainpipe.Programs.Escrow.Opening.{claim_node, cancel_pipeline}
use chainpipe.Programs.Escrow.Settling.{
  complete_node, finalize_node, window_end, with_status, fee_of, new_settlement,
}
use chainpipe.Programs.Escrow.Expiring.{
  Sweep, cascaded, cascade, sweep, sweep_one, falls, expire_node, expired_node,
}
use chainpipe.Programs.Escrow.Expiring.Rounds.{cascaded_ends}
use chainpipe.Programs.Escrow.Expiring.Fallen.{IsIndexed}
use chainpipe.Programs.Escrow.Expiring.Cascade.{cascaded_lem, IsCascade}
use chainpipe.Programs.Escrow.Calls.{EscrowCall, claim, complete, expire, run_escrow}
use chainpipe.Programs.Escrow.Weights.{owed}
use chainpipe.Programs.Escrow.Money.{IsSolvent}
use chainpipe.Programs.Escrow.Budget.{create_pipeline_lem}
use chainpipe.Programs.Escrow.Fates.{Follows}
use chainpipe.Programs.Escrow.Histories.{run_escrow-Follows}
use chainpipe.Programs.Escrow.Payout.{Split, finalize_node_pays}
use chainpipe.Programs.Escrow.Recovery.{expire_overdue, cancel_pipeline_drains}
use chainpipe.Programs.Escrow.Runs.{run_escrow-IsSolvent}
use chainpipe.Programs.Ledger.{runtime, runtime-TransferLaw, runtime-VaultLaw, ledger_transfer}
use chainpipe.Programs.Registry.{new_stake, increment_open_jobs, decrement_open_jobs}
use chainpipe.Programs.Registry.{Registry, add_stake}
use chainpipe.Programs.Registry.Unbound.{add_stake_any_mint}
use chainpipe.Programs.Cases.{
  own_mint, worthless, agent_stake, staked, agent_key, registry_calls, consumer_key, usdc,
  authority, vault_key, registry, bridge, IsWallet-key, bridge_calls, recorded, job_recorded,
  config, node_configs, node, first_node, escrow, created, vault_apart, different_heads,
  escrow-IsSolvent, ready, ready-IsSolvent, from_ok,
}

run_calls-IsBacked_example : IsBacked runtime (run_calls runtime registry_calls registry)
run_calls-IsBacked_example =
    run_calls-IsBacked runtime runtime-TransferLaw runtime-VaultLaw registry_calls registry
      (
        IsWallet-key 60 (λ e. omega (arith, e)),
        (
          (IsWallet-key 60 (λ e. omega (arith, e)), own_mint),
          (
            tt,
            (
              IsWallet-key 50 (λ e. omega (arith, e)),
              (tt, (tt, (IsWallet-key 60 (λ e. omega (arith, e)), tt))),
            ),
          ),
        ),
      )
      (λ agent stake e. absurd (cc))

add_stake_any_mint_example :
    (r' : Registry) × (add_stake runtime agent_key worthless 1_500_000_000 staked ≡ ok r')
    × (find agent_key r'.stakes
        ≡ some (record agent_stake { stake_amount = 1_520_000_000; tier = 3 }))
    × (r'.tokens usdc (115 ∷ agent_key) ≡ staked.tokens usdc (115 ∷ agent_key))
add_stake_any_mint_example =
    add_stake_any_mint runtime runtime-TransferLaw agent_key worthless 1_500_000_000 agent_stake
      staked refl (different_heads worthless usdc (λ e. omega (arith, e))) (omega arith)
      (omega arith) (omega arith)

run_records-IsScored_example : IsScored (run_records runtime bridge_calls bridge)
run_records-IsScored_example =
    run_records-IsScored runtime bridge_calls bridge
      (record { bounded = λ agent rep e. absurd (cc); known = λ j job e. absurd (cc) })

run_records_keeps_example :
    find (9 ∷ []) (run_records runtime bridge_calls recorded).job_records
    ≡ some (job_record (9 ∷ []) agent_key job_settled (pos 500) 120)
run_records_keeps_example =
    run_records_keeps runtime bridge_calls recorded (9 ∷ [])
      (job_record (9 ∷ []) agent_key job_settled (pos 500) 120) job_recorded

create_pipeline_lem_example :
    IsSolvent runtime escrow
    × (owed escrow.nodes ≡ escrow.pipeline.total_usdc_locked)
    × (0 < escrow.pipeline.total_usdc_locked)
    × (escrow.registry.tokens usdc vault_key
        ≡ registry.tokens usdc vault_key + escrow.pipeline.total_usdc_locked)
    × (escrow.registry.tokens usdc consumer_key + escrow.pipeline.total_usdc_locked
        ≡ registry.tokens usdc consumer_key)
    × ((i : ℕ) (node : PipelineNode)
        → account_at escrow.nodes i ≡ some node
        → (node.node_index ≡ i) × (node.dependency_mask < 2 ^ i))
create_pipeline_lem_example =
    create_pipeline_lem runtime runtime-TransferLaw config authority registry bridge consumer_key
      usdc vault_key node_configs 5 100 escrow created (omega arith) vault_apart
      (different_heads consumer_key vault_key (λ e. omega (arith, e)))

-- The first node is claimed and paid, the second expires, with a call that fails in between.
abbrev escrow_calls : List EscrowCall
escrow_calls =
    claim agent_key 0 101
    ∷ complete (7 ∷ []) usdc agent_key 0 (pos 500) 120
    ∷ expire usdc 1 (0 ∷ []) none 1_500
    ∷ expire usdc 1 (0 ∷ []) none 2_001
    ∷ []

abbrev statuses : List (Option PipelineNode) → List (Option NodeStatus)
statuses [] = []
statuses (none ∷ rest) = none ∷ statuses rest
statuses (some n ∷ rest) = some n.status ∷ statuses rest

escrow_calls_outcome :
    statuses (run_escrow runtime escrow_calls ready).nodes ≡ some settled ∷ some expired ∷ []
unfolding claim_node complete_node expire_node cascade sweep sweep_one falls meets within
    ledger_transfer increment_open_jobs decrement_open_jobs record_outcome
escrow_calls_outcome = refl

run_escrow-IsSolvent_example : IsSolvent runtime (run_escrow runtime escrow_calls ready)
run_escrow-IsSolvent_example =
    run_escrow-IsSolvent runtime runtime-TransferLaw escrow_calls ready ready-IsSolvent
      (tt, (tt, (tt, (tt, tt))))

run_escrow-Follows_example : Follows ready.nodes (run_escrow runtime escrow_calls ready).nodes
run_escrow-Follows_example = run_escrow-Follows runtime escrow_calls ready

cascaded_ends_example : (r : Result Sweep) × (cascaded (1 ∷ 0 ∷ []) 0 first_node escrow ≡ some r)
cascaded_ends_example = cascaded_ends (1 ∷ 0 ∷ []) 0 first_node escrow

abbrev second_node : PipelineNode
second_node = node 1 400 2_000 1

-- Two more: one that depends on the second, and one that depends on nothing.
abbrev four_nodes : Escrow
four_nodes = record escrow {
  nodes =
      some first_node
      ∷ some second_node
      ∷ some (node 2 300 2_000 2)
      ∷ some (node 3 200 2_000 0)
      ∷ [];
}

-- Three nodes fall if the first is overdue; the account of the last is passed first and stays.
abbrev three_fallen : Sweep
three_fallen = record {
  nodes =
      some first_node
      ∷ some (expired_node second_node)
      ∷ some (expired_node (node 2 300 2_000 2))
      ∷ some (node 3 200 2_000 0)
      ∷ [];
  expired_bits = 7;
  refund_total = 1_300;
  expired_count = 3;
  changed = false;
}

swept_three : cascaded (3 ∷ 2 ∷ 1 ∷ []) 0 first_node four_nodes ≡ some (ok three_fallen)
unfolding cascade sweep sweep_one falls meets
swept_three = refl

-- With the first node expired before, the third, which depends on it, stays when the second falls.
abbrev after_expiry : Escrow
after_expiry = record escrow {
  nodes =
      some (expired_node first_node) ∷ some (node 1 400 2_000 0) ∷ some (node 2 300 9_000 1) ∷ [];
}

abbrev none_fallen : Sweep
none_fallen = record {
  nodes = after_expiry.nodes;
  expired_bits = 2;
  refund_total = 400;
  expired_count = 1;
  changed = false;
}

earlier_expiry_ignored :
    cascaded (2 ∷ 0 ∷ []) 1 (node 1 400 2_000 0) after_expiry ≡ some (ok none_fallen)
unfolding cascade sweep sweep_one falls meets
earlier_expiry_ignored = refl

four-IsIndexed : IsIndexed four_nodes.nodes
four-IsIndexed zero n e = ground (arith, e)
four-IsIndexed (suc zero) n e = ground (arith, e)
four-IsIndexed (suc (suc zero)) n e = ground (arith, e)
four-IsIndexed (suc (suc (suc zero))) n e = ground (arith, e)
four-IsIndexed (suc (suc (suc (suc k)))) n e = ground (arith, e)

cascaded_lem_example :
    IsCascade (3 ∷ 2 ∷ 1 ∷ []) 0 four_nodes.nodes three_fallen.nodes
    × (owed three_fallen.nodes + three_fallen.refund_total
        ≡ owed four_nodes.nodes + first_node.allocation_usdc)
cascaded_lem_example =
    cascaded_lem (3 ∷ 2 ∷ 1 ∷ []) 0 first_node four_nodes three_fallen four-IsIndexed swept_three

expire_overdue_example :
    (e' : Escrow) × (expire_node runtime usdc 0 [] none 1_001 escrow ≡ ok e')
    × (account_at e'.nodes 0 ≡ some (expired_node first_node))
    × (e'.registry.tokens usdc consumer_key ≡ escrow.registry.tokens usdc consumer_key + 600)
expire_overdue_example =
    expire_overdue runtime runtime-TransferLaw 0 1_001 first_node escrow escrow-IsSolvent
      (different_heads vault_key consumer_key (λ e. omega (arith, e))) refl refl (omega arith)

cancel_pipeline_drains_example :
    (e' : Escrow) × (cancel_pipeline runtime consumer_key usdc [] escrow ≡ ok e')
    × (e'.registry.tokens usdc vault_key ≡ 0)
    × (e'.nodes ≡ escrow.nodes)
cancel_pipeline_drains_example =
    cancel_pipeline_drains runtime runtime-TransferLaw escrow refl
      (different_heads vault_key consumer_key (λ e. omega (arith, e)))

-- The first node after a claim and a submission in slot 120, and the finalize that pays it.
abbrev submitted_node : PipelineNode
submitted_node = record first_node {
  agent = agent_key;
  status = submitted;
  settled_at_slot = 120;
  job_id = 9 ∷ [];
}

abbrev settlement : NodeSettlement
settlement = new_settlement runtime vault_key 0 (pos 500) [] [] 0 120 150

abbrev waiting : Escrow
waiting = record escrow {
  nodes = some submitted_node ∷ some second_node ∷ [];
  settlements = some settlement ∷ none ∷ [];
  registry = record escrow.registry {
    stakes = (agent_key, record (new_stake agent_key usdc 20_000_000 1) { open_jobs = 1 }) ∷ [];
  };
}

abbrev finalized : Escrow
finalized = from_ok waiting (finalize_node runtime usdc agent_key 0 271 waiting)

finalizes : finalize_node runtime usdc agent_key 0 271 waiting ≡ ok finalized
unfolding finalize_node ledger_transfer decrement_open_jobs record_outcome
finalizes = refl

finalize_node_pays_example :
    (window_end settlement < 271)
    × (settlement.disputed ≡ false)
    × (is_submitted submitted_node.status ≡ true)
    × (finalized.nodes ≡ set waiting.nodes 0 (some (with_status settled 271 submitted_node)))
    × Split usdc vault_key agent_key
        (8 ∷ [])
        600
        (fee_of config 600)
        waiting.registry.tokens
        finalized.registry.tokens
finalize_node_pays_example =
    finalize_node_pays runtime runtime-TransferLaw usdc agent_key 0 271 submitted_node settlement
      waiting finalized finalizes refl refl (omega arith)
      (different_heads vault_key agent_key (λ e. omega (arith, e)))
      (different_heads vault_key (8 ∷ []) (λ e. omega (arith, e)))
      (different_heads agent_key (8 ∷ []) (λ e. omega (arith, e)))
