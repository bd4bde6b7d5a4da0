-- ===== src/Programs/Escrow.antt =====
-- programs/dag_escrow/src/lib.rs: one pipeline with the accounts of the programs that it calls, and the
-- instructions of the operator. Rent, bumps, events and the growth of old accounts are left out.
pub mod Opening
pub mod Weights
pub mod Fates
pub mod Money
pub mod Solvency
pub mod Disputes
pub mod Lifecycle
pub mod Refunds
pub mod Runs
pub mod Budget
pub mod Payout
pub mod Verdicts
pub mod Histories
pub mod Recovery
pub mod Settling
pub mod Expiring
pub mod Calls
use chainpipe.Base.{
  ℕ, zero, suc, ◌+◌, ◌-◌, ◌*◌, ◌/◌, ◌≡◌, ◌≢◌, String, Bool, true, false, not, ◌&&◌, ◌||◌, List, [],
  ◌∷◌, Option, none, some, if◌then◌else◌, ltb, leb, ◌==◌,
}
use chainpipe.Base.Results.{Result, ok, throws, ◌>>=◌, ◌>>◌}
use chainpipe.Base.Encodings.{text_eq}
use chainpipe.Sdk.Platform.{PublicKey}
use chainpipe.Sdk.Accounts.{
  PipelineAccount, PipelineNode, NodeSettlement, NodeStatus, PipelineStatus, pending, claimed,
  submitted, disputed, settled, expired, active, completed, partially_refunded,
}
use chainpipe.Dashboard.Masks.{has_bit, set_bit}
use chainpipe.Programs.Runtime.{Runtime, require, present, saturating_add}
use chainpipe.Programs.Registry.{Registry}
use chainpipe.Programs.Bridge.{Bridge}

abbrev pub max_nodes : ℕ
max_nodes = 16

abbrev pub default_dispute_slots : ℕ
default_dispute_slots = 150

pub record EscrowConfig : Type 0 where
  pub operator : PublicKey
  pub facilitator_authority : PublicKey
  pub fee_bps : ℕ
  pub paused : Bool
  pub dispute_slots : ℕ
  pub pending_operator : PublicKey

unfoldable pub initialize : Runtime → PublicKey → ℕ → PublicKey → Result EscrowConfig
initialize rt operator fee_bps facilitator = do
  require (leb fee_bps 10_000) "InvalidFeeBps"
  ok (record {
    operator = operator;
    facilitator_authority = facilitator;
    fee_bps = fee_bps;
    paused = false;
    dispute_slots = default_dispute_slots;
    pending_operator = rt.default_key;
  })

-- The instructions of the operator: the signer must be the operator of the account (`has_one`).
pub data OperatorCall : Type 0 where
  set_facilitator_authority : PublicKey → OperatorCall
  set_paused : Bool → OperatorCall
  set_dispute_window : ℕ → OperatorCall
  propose_operator : PublicKey → OperatorCall
  accept_operator : OperatorCall

unfoldable pub operate : Runtime → PublicKey → OperatorCall → EscrowConfig → Result EscrowConfig
operate rt signer (set_facilitator_authority new) c = do
  require (text_eq signer c.operator) "ConstraintHasOne"
  ok (record c { facilitator_authority = new })
operate rt signer (set_paused paused) c = do
  require (text_eq signer c.operator) "ConstraintHasOne"
  ok (record c { paused = paused })
operate rt signer (set_dispute_window slots) c = do
  require (text_eq signer c.operator) "ConstraintHasOne"
  require (leb 30 slots && leb slots 5_184_000) "InvalidDisputeWindow"
  ok (record c { dispute_slots = slots })
operate rt signer (propose_operator new) c = do
  require (text_eq signer c.operator) "ConstraintHasOne"
  ok (record c { pending_operator = new })
operate rt signer accept_operator c = do
  require (not (text_eq c.pending_operator rt.default_key)) "NoPendingOperator"
  require (text_eq signer c.pending_operator) "NotPendingOperator"
  ok (record c { operator = c.pending_operator; pending_operator = rt.default_key })

-- A pipeline, its nodes and settlements by index (none: no such account, or closed), and the other
-- programs' accounts. All token balances are in `registry.tokens`; the vault belongs to `key`.
pub record Escrow : Type 0 where
  pub config : EscrowConfig
  pub dag_authority : PublicKey
  pub key : PublicKey
  pub pipeline : PipelineAccount
  pub nodes : List (Option PipelineNode)
  pub settlements : List (Option NodeSettlement)
  pub registry : Registry
  pub bridge : Bridge

-- The account at an index.
abbrev pub account_at {ℓ} : {A : Type ℓ} → List (Option A) → ℕ → Option A
account_at [] i = none
account_at (x ∷ xs) zero = x
account_at (x ∷ xs) (suc i) = account_at xs i

abbrev pub node_account : ℕ → Escrow → Result PipelineNode
node_account i e = do
  node ← present (account_at e.nodes i) "AccountNotInitialized"
  require (node.node_index == i) "InvalidNodeAccount"
  ok node

-- `a & b != 0` and `(mask & settled) == mask`, on the 64 bits.
abbrev pub meets_below : ℕ → ℕ → ℕ → Bool
meets_below zero a b = false
meets_below (suc k) a b = has_bit a k && has_bit b k || meets_below k a b

abbrev pub within_below : ℕ → ℕ → ℕ → Bool
within_below zero mask all = true
within_below (suc k) mask all = (not (has_bit mask k) || has_bit all k) && within_below k mask all

unfoldable pub meets : ℕ → ℕ → Bool
meets a b = meets_below 64 a b

unfoldable pub within : ℕ → ℕ → Bool
within mask all = within_below 64 mask all

-- A transfer out of the vault of the pipeline, signed by the pipeline.
abbrev pub pay_from_vault : Runtime → PublicKey → PublicKey → ℕ → Escrow → Result Escrow
pay_from_vault rt mint to amount e = do
  tokens ← rt.transfer mint e.key to amount e.registry.tokens
  ok (record e { registry = record e.registry { tokens = tokens } })

abbrev pub pay_some : Runtime → PublicKey → PublicKey → ℕ → Escrow → Result Escrow
pay_some rt mint to amount e = if ltb 0 amount then pay_from_vault rt mint to amount e else ok e
