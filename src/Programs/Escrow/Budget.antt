-- ===== src/Programs/Escrow/Budget.antt =====
-- What create_pipeline of programs/dag_escrow/src/lib.rs makes: a funded pipeline without cycles.
use chainpipe.Base.{
  ℕ, zero, suc, ◌+◌, ◌^◌, ◌<◌, ◌≤◌, ◌≡◌, ◌≢◌, refl, sym, ap, subst, ◌∙◌, not, ◌&&◌, List, [], ◌∷◌,
  some, arith, ltb, leb, length, ltb→lt,
}
use chainpipe.Base.Results.{ok, returned, ok-injective}
use chainpipe.Sdk.Platform.{PublicKey}
use chainpipe.Sdk.Accounts.{PipelineNode}
use chainpipe.Programs.Runtime.{Runtime, TransferLaw, require-holds, checked_add, option-injective}
use chainpipe.Programs.Registry.{Registry}
use chainpipe.Programs.Bridge.{Bridge}
use chainpipe.Programs.Escrow.{Escrow, EscrowConfig, account_at, max_nodes}
use chainpipe.Programs.Escrow.Opening.{NodeConfig, check_dag, new_node, new_nodes, create_pipeline}
use chainpipe.Programs.Escrow.Weights.{owed}
use chainpipe.Programs.Escrow.Money.{IsSolvent}

abbrev sum_allocations : List NodeConfig → ℕ
sum_allocations [] = 0
sum_allocations (c ∷ rest) = c.allocation_usdc + sum_allocations rest

-- Dependencies on nodes before the i-th, the (i+1)-th, ...
abbrev AllEarlier : ℕ → List NodeConfig → Type 0
AllEarlier i [] = Unit
AllEarlier i (c ∷ rest) = (c.dependency_mask < 2 ^ i) × AllEarlier (suc i) rest

check_dag_lem :
    (i : ℕ) (configs : List NodeConfig) (total sum : ℕ)
    → check_dag i configs total ≡ ok sum
    → (sum ≡ total + sum_allocations configs) × AllEarlier i configs
check_dag_lem i [] total sum e = (sym (ok-injective e) ∙ omega arith, tt)
check_dag_lem i (c ∷ rest) total sum e =
    let (early, e1) = require-holds (ltb c.dependency_mask (2 ^ i)) "InvalidDag" _ sum e in
    let (total', added, e2) = returned (checked_add 64 total c.allocation_usdc) _ sum e1 in
    let (sums, others) = check_dag_lem (suc i) rest total' sum e2 in
    let step : total' ≡ total + c.allocation_usdc = ground (arith, added) in
    (omega (arith, sums, step), (ltb→lt c.dependency_mask (2 ^ i) early, others))

owed-new_nodes :
    (rt : Runtime) (key : PublicKey) (slot i : ℕ) (configs : List NodeConfig)
    → owed (new_nodes rt key slot i configs) ≡ sum_allocations configs
owed-new_nodes rt key slot i [] = refl
owed-new_nodes rt key slot i (c ∷ rest) = omega (arith, owed-new_nodes rt key slot (suc i) rest)

new_nodes_earlier :
    (rt : Runtime) (key : PublicKey) (slot i : ℕ) (configs : List NodeConfig) (j : ℕ)
    (node : PipelineNode)
    → AllEarlier i configs
    → account_at (new_nodes rt key slot i configs) j ≡ some node
    → (node.node_index ≡ i + j) × (node.dependency_mask < 2 ^ (i + j))
new_nodes_earlier rt key slot i [] j node h e = absurd (cc)
new_nodes_earlier rt key slot i (c ∷ rest) zero node (early, others) e =
    let same : new_node rt key slot i c ≡ node = option-injective e in
    let sum : i ≡ i + 0 = omega arith in
    (
      ap (λ (n : PipelineNode). n.node_index) (sym same) ∙ sum,
      subst (λ k. node.dependency_mask < 2 ^ k) sum
          (subst (λ (n : PipelineNode). n.dependency_mask < 2 ^ i) same early),
    )
new_nodes_earlier rt key slot i (c ∷ rest) (suc j) node (early, others) e =
    let (index, mask) = new_nodes_earlier rt key slot (suc i) rest j node others e in
    let sum : suc i + j ≡ i + suc j = omega arith in
    (index ∙ sum, subst (λ k. node.dependency_mask < 2 ^ k) sum mask)

-- A pipeline that create_pipeline makes locks exactly the sum of its allocations, above 0, which the
-- vault receives from the consumer in the mint of the pipeline; the vault is solvent; and the i-th
-- node depends on nodes before it alone, so that there are no cycles. The conditions: a fee of at most
-- 100%, a vault that is the account of no stake and not the consumer's.
pub create_pipeline_lem :
    (rt : Runtime) (law : TransferLaw rt) (config : EscrowConfig) (dag_authority : PublicKey)
    (registry : Registry) (bridge : Bridge) (consumer mint key : PublicKey)
    (configs : List NodeConfig) (nonce slot : ℕ) (e : Escrow)
    → create_pipeline rt config dag_authority registry bridge consumer mint key configs nonce slot
      ≡ ok e
    → config.fee_bps ≤ 10_000
    → ((agent : PublicKey) → key ≢ rt.stake_key agent)
    → consumer ≢ key
    → IsSolvent rt e
      × (owed e.nodes ≡ e.pipeline.total_usdc_locked)
      × (0 < e.pipeline.total_usdc_locked)
      × (e.registry.tokens mint key ≡ registry.tokens mint key + e.pipeline.total_usdc_locked)
      × (e.registry.tokens mint consumer + e.pipeline.total_usdc_locked
          ≡ registry.tokens mint consumer)
      × ((i : ℕ) (node : PipelineNode)
          → account_at e.nodes i ≡ some node
          → (node.node_index ≡ i) × (node.dependency_mask < 2 ^ i))
unfolding create_pipeline
create_pipeline_lem rt law config dag_authority registry bridge consumer mint key configs nonce slot
      e k low apart two =
    let (running, k1) = require-holds (not config.paused) "Paused" _ e k in
    let (counted, k2) =
      require-holds (leb 1 (length configs) && leb (length configs) max_nodes) "InvalidNodeCount" _
        e k1 in
    let (total, checked, k3) = returned (check_dag 0 configs 0) _ e k2 in
    let (funds, k4) = require-holds (ltb 0 total) "EmptyPipeline" _ e k3 in
    let (tokens, moved, k5) =
      returned (rt.transfer mint consumer key total registry.tokens) _ e k4 in
    let (sums, early) = check_dag_lem 0 configs 0 total checked in
    let owes = owed-new_nodes rt key slot 0 configs in
    let given = law.given mint consumer key total registry.tokens tokens moved two in
    let taken = law.taken mint consumer key total registry.tokens tokens moved two in
    let made = ok-injective k5 in
    (
      subst (IsSolvent rt) made
          (record { backed = omega (arith, owes, sums, given); fee = low; apart = apart }),
      subst (λ (x : Escrow). owed x.nodes ≡ x.pipeline.total_usdc_locked) made
          (omega (arith, owes, sums)),
      subst (λ (x : Escrow). 0 < x.pipeline.total_usdc_locked) made (ltb→lt 0 total funds),
      subst
          (λ (x : Escrow).
            x.registry.tokens mint key ≡ registry.tokens mint key + x.pipeline.total_usdc_locked)
          made given,
      subst
          (λ (x : Escrow).
            x.registry.tokens mint consumer + x.pipeline.total_usdc_locked
            ≡ registry.tokens mint consumer)
          made taken,
      λ i node there.
          let zero_plus : 0 + i ≡ i = omega arith in
          subst (λ k. (node.node_index ≡ k) × (node.dependency_mask < 2 ^ k)) zero_plus
            (new_nodes_earlier rt key slot 0 configs i node early
              (ap (λ (x : Escrow). account_at x.nodes i) made ∙ there)),
    )
