-- ===== src/Programs/Escrow/Weights.antt =====
-- Sums over the node accounts of a pipeline, for programs/dag_escrow/src/lib.rs.
use chainpipe.Base.{
  ℕ, zero, suc, ◌+◌, ◌≤◌, ◌≡◌, ◌≢◌, refl, ap, List, [], ◌∷◌, Option, none, some, arith, set, length,
  true,
}
use chainpipe.Sdk.Accounts.{
  PipelineNode, NodeStatus, pending, claimed, submitted, disputed, settled, expired, is_pending,
  is_claimed, is_submitted, is_disputed,
}
use chainpipe.Programs.Escrow.{account_at}

abbrev pub weigh_account : (PipelineNode → ℕ) → Option PipelineNode → ℕ
weigh_account f none = 0
weigh_account f (some node) = f node

abbrev pub weigh : (PipelineNode → ℕ) → List (Option PipelineNode) → ℕ
weigh f [] = 0
weigh f (x ∷ xs) = weigh_account f x + weigh f xs

-- A node that is written changes the sum by its own weight.
pub weigh-set :
    (f : PipelineNode → ℕ) (xs : List (Option PipelineNode)) (i : ℕ) (node : PipelineNode)
    (x : Option PipelineNode)
    → account_at xs i ≡ some node
    → weigh f (set xs i x) + f node ≡ weigh f xs + weigh_account f x
weigh-set f [] i node x e = absurd (cc)
weigh-set f (y ∷ xs) zero node x e = omega (arith, ap (weigh_account f) e)
weigh-set f (y ∷ xs) (suc i) node x e = omega (arith, weigh-set f xs i node x e)

-- A node weighs no more than all together.
pub weigh_part :
    (f : PipelineNode → ℕ) (xs : List (Option PipelineNode)) (i : ℕ) (node : PipelineNode)
    → account_at xs i ≡ some node
    → f node ≤ weigh f xs
weigh_part f [] i node e = absurd (cc)
weigh_part f (y ∷ xs) zero node e = omega (arith, ap (weigh_account f) e)
weigh_part f (y ∷ xs) (suc i) node e = omega (arith, weigh_part f xs i node e)

pub account_at-set_self :
    (xs : List (Option PipelineNode)) (i : ℕ) (node : PipelineNode) (x : Option PipelineNode)
    → account_at xs i ≡ some node
    → account_at (set xs i x) i ≡ x
account_at-set_self [] i node x e = absurd (cc)
account_at-set_self (y ∷ xs) zero node x e = refl
account_at-set_self (y ∷ xs) (suc i) node x e = account_at-set_self xs i node x e

pub account_at-set_ne :
    (xs : List (Option PipelineNode)) (i j : ℕ) (x : Option PipelineNode)
    → i ≢ j
    → account_at (set xs i x) j ≡ account_at xs j
account_at-set_ne [] i j x h = refl
account_at-set_ne (y ∷ xs) zero zero x h = absurd (h refl)
account_at-set_ne (y ∷ xs) zero (suc j) x h = refl
account_at-set_ne (y ∷ xs) (suc i) zero x h = refl
account_at-set_ne (y ∷ xs) (suc i) (suc j) x h = account_at-set_ne xs i j x (λ e. h (ap suc e))

-- The allocation of a node that is neither settled nor expired.
abbrev pub open_at : NodeStatus → ℕ → ℕ
open_at pending amount = amount
open_at claimed amount = amount
open_at submitted amount = amount
open_at disputed amount = amount
open_at settled amount = 0
open_at expired amount = 0

abbrev pub open_allocation : PipelineNode → ℕ
open_allocation node = open_at node.status node.allocation_usdc

-- What the pipeline still owes.
abbrev pub owed : List (Option PipelineNode) → ℕ
owed nodes = weigh open_allocation nodes

abbrev pub pending_one : NodeStatus → ℕ
pending_one pending = 1
pending_one _ = 0

abbrev pub count_pending : List (Option PipelineNode) → ℕ
count_pending nodes = weigh (λ node. pending_one node.status) nodes

pending_one_bound : (s : NodeStatus) → pending_one s ≤ 1
pending_one_bound pending = omega arith
pending_one_bound claimed = omega arith
pending_one_bound submitted = omega arith
pending_one_bound disputed = omega arith
pending_one_bound settled = omega arith
pending_one_bound expired = omega arith

pub count_pending_bound : (nodes : List (Option PipelineNode)) → count_pending nodes ≤ length nodes
count_pending_bound [] = omega arith
count_pending_bound (none ∷ nodes) = omega (arith, count_pending_bound nodes)
count_pending_bound (some node ∷ nodes) =
    omega (arith, pending_one_bound node.status, count_pending_bound nodes)

-- A status in which the allocation is still open.
pub claimed_open : (s : NodeStatus) (amount : ℕ) → is_claimed s ≡ true → open_at s amount ≡ amount
claimed_open claimed amount h = refl
claimed_open pending amount h = refl
claimed_open submitted amount h = refl
claimed_open disputed amount h = refl
claimed_open settled amount h = absurd (cc)
claimed_open expired amount h = absurd (cc)

pub submitted_open :
    (s : NodeStatus) (amount : ℕ) → is_submitted s ≡ true → open_at s amount ≡ amount
submitted_open submitted amount h = refl
submitted_open pending amount h = refl
submitted_open claimed amount h = refl
submitted_open disputed amount h = refl
submitted_open settled amount h = absurd (cc)
submitted_open expired amount h = absurd (cc)

pub disputed_open : (s : NodeStatus) (amount : ℕ) → is_disputed s ≡ true → open_at s amount ≡ amount
disputed_open disputed amount h = refl
disputed_open pending amount h = refl
disputed_open claimed amount h = refl
disputed_open submitted amount h = refl
disputed_open settled amount h = absurd (cc)
disputed_open expired amount h = absurd (cc)

pub pending_open : (s : NodeStatus) (amount : ℕ) → is_pending s ≡ true → open_at s amount ≡ amount
pending_open pending amount h = refl
pending_open claimed amount h = refl
pending_open submitted amount h = refl
pending_open disputed amount h = refl
pending_open settled amount h = absurd (cc)
pending_open expired amount h = absurd (cc)
