-- ===== src/Programs/Escrow/Expiring.antt =====
-- Expiry of an overdue node with the nodes that depend on it, from programs/dag_escrow/src/lib.rs.
pub mod Laws
pub mod Rounds
pub mod Closure
pub mod Fallen
pub mod Marking
pub mod Cascade
use chainpipe.Base.{
  ℕ, zero, suc, ◌+◌, ◌-◌, ◌≡◌, ◌^◌, String, Bool, true, false, not, ◌&&◌, ◌||◌, List, [], ◌∷◌,
  Option, none, some, if◌then◌else◌, ltb, leb, ◌==◌, set, length,
}
use chainpipe.Base.Results.{Result, ok, throws, ◌>>=◌, ◌>>◌}
use chainpipe.Base.Encodings.{text_eq}
use chainpipe.Sdk.Platform.{PublicKey}
use chainpipe.Sdk.Accounts.{PipelineNode, NodeStatus, expired, is_pending, is_claimed}
use chainpipe.Dashboard.Masks.{has_bit, set_bit}
use chainpipe.Programs.Runtime.{Runtime, require, present, checked_add}
use chainpipe.Programs.Escrow.{Escrow, node_account, account_at, meets, pay_some}
use chainpipe.Programs.Escrow.Settling.{penalize, count_expired}

-- The variables of the loop, with the node accounts that it writes.
pub record Sweep : Type 0 where
  pub nodes : List (Option PipelineNode)
  pub expired_bits : ℕ
  pub refund_total : ℕ
  pub expired_count : ℕ
  pub changed : Bool

abbrev pub expired_node : PipelineNode → PipelineNode
expired_node node = record node { status = expired }

-- Whether the body of the loop expires the node.
unfoldable pub falls : PipelineNode → ℕ → Bool
falls node bits =
    not (has_bit bits node.node_index)
    && (is_pending node.status && meets node.dependency_mask bits)

abbrev pub expire_at : ℕ → PipelineNode → ℕ → Sweep → Sweep
expire_at i node refund s = record {
  nodes = set s.nodes i (some (expired_node node));
  expired_bits = set_bit s.expired_bits node.node_index;
  refund_total = refund;
  expired_count = s.expired_count + 1;
  changed = true;
}

abbrev pub expire_counted : ℕ → PipelineNode → Sweep → Result Sweep
expire_counted i node s =
    checked_add 64 s.refund_total node.allocation_usdc >>= λ refund. ok (expire_at i node refund s)

-- The body of the inner loop, for the account of the node with index i.
unfoldable pub sweep_one : PublicKey → ℕ → Sweep → Result Sweep
sweep_one key i s = do
  node ← present (account_at s.nodes i) "AccountDidNotDeserialize"
  require (text_eq node.pipeline key) "InvalidNodeAccount"
  if falls node s.expired_bits then expire_counted i node s else ok s

-- One pass over the accounts that were passed.
unfoldable pub sweep : PublicKey → List ℕ → Sweep → Result Sweep
sweep key [] s = ok s
sweep key (i ∷ rest) s = do s' ← sweep_one key i s; sweep key rest s'

-- `if !changed { break; }`
abbrev pub pass_again : (Sweep → Option (Result Sweep)) → Sweep → Bool → Option (Result Sweep)
pass_again next s true = next s
pass_again next s false = some (ok s)

abbrev pub after_pass : (Sweep → Option (Result Sweep)) → Result Sweep → Option (Result Sweep)
after_pass next (throws e) = some (throws e)
after_pass next (ok s) = pass_again next s s.changed

-- The outer loop, with a bound on its passes; none if the bound is too small.
unfoldable pub cascade : ℕ → PublicKey → List ℕ → Sweep → Option (Result Sweep)
cascade zero key passed s = none
cascade (suc k) key passed s =
    after_pass (cascade k key passed) (sweep key passed (record s { changed = false }))

abbrev pub first_sweep : Escrow → ℕ → PipelineNode → Sweep
first_sweep e i node = record {
  nodes = e.nodes;
  expired_bits = set_bit 0 i;
  refund_total = node.allocation_usdc;
  expired_count = 1;
  changed = false;
}

-- One pass more than there are nodes.
abbrev pub cascaded : List ℕ → ℕ → PipelineNode → Escrow → Option (Result Sweep)
cascaded passed i node e = cascade (suc (length e.nodes)) e.key passed (first_sweep e i node)

-- Optional accounts: the agents of the stake account and of the reputation that are passed.
pub record SlashAccounts : Type 0 where
  pub stake_agent : PublicKey
  pub agent : PublicKey

abbrev pub penalize_passed :
    Runtime → PublicKey → Option SlashAccounts → PipelineNode → ℕ → Escrow → Result Escrow
penalize_passed rt mint passed node slot e = do
  accounts ← present passed "MissingSlashAccounts"
  require (text_eq accounts.stake_agent node.agent) "AgentMismatch"
  require (text_eq accounts.agent node.agent) "AgentMismatch"
  penalize rt mint node slot e

abbrev pub swept : ℕ → PipelineNode → Sweep → Escrow → Escrow
swept i node s e = record e { nodes = set s.nodes i (some (expired_node node)) }

-- Mint, node index, the indices of the other node accounts passed, the optional accounts, slot;
-- anyone signs.
unfoldable pub expire_node :
    Runtime → PublicKey → ℕ → List ℕ → Option SlashAccounts → ℕ → Escrow → Result Escrow
expire_node rt mint i passed accounts slot e = do
  node ← node_account i e
  require (is_pending node.status || is_claimed node.status) "NodeNotExpirable"
  require (ltb node.deadline_slot slot) "DeadlineNotPassed"
  outcome ← present (cascaded passed i node e) "unreachable"
  s ← outcome
  refunded ← pay_some rt mint e.pipeline.consumer s.refund_total (swept i node s e)
  let counted = record refunded { pipeline = count_expired s.expired_count refunded.pipeline }
  if is_claimed node.status then penalize_passed rt mint accounts node slot counted else ok counted
