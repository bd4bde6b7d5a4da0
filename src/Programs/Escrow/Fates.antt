-- ===== src/Programs/Escrow/Fates.antt =====
-- The life of a node of programs/dag_escrow/src/lib.rs as a state machine, and what it is for a list of
-- node accounts to follow it.
use chainpipe.Base.{
  ℕ, ◌≡◌, ◌≢◌, refl, sym, ap, subst, ◌∙◌, Bool, true, ◌||◌, false, List, Option, none, some, inl,
  inr, arith, Bool-cases, Option-cases, ◌==◌, set,
}
use chainpipe.Sdk.Accounts.{
  PipelineNode, NodeStatus, pending, claimed, submitted, disputed, settled, expired, is_pending,
  is_claimed, is_submitted, is_disputed,
}
use chainpipe.Programs.Runtime.{option-injective}
use chainpipe.Programs.Escrow.{account_at}
use chainpipe.Programs.Escrow.Weights.{account_at-set_self, account_at-set_ne}

-- The comments of the program: claimed by an agent; completed at once or submitted; disputed in the
-- window or finalized after it; a dispute resolved either way; overdue while pending or claimed.
abbrev pub can_step : NodeStatus → NodeStatus → Bool
can_step pending claimed = true
can_step pending expired = true
can_step claimed settled = true
can_step claimed submitted = true
can_step claimed expired = true
can_step submitted disputed = true
can_step submitted settled = true
can_step disputed settled = true
can_step disputed expired = true
can_step _ _ = false

pub data Becomes : NodeStatus → NodeStatus → Type 0 where
  same_status : {s t : NodeStatus} → s ≡ t → Becomes s t
  steps : {s t : NodeStatus} (u : NodeStatus) → can_step s u ≡ true → Becomes u t → Becomes s t

pub Becomes-trans : {s t u : NodeStatus} → Becomes s t → Becomes t u → Becomes s u
Becomes-trans {u} (same_status e) k = subst (λ x. Becomes x u) (sym e) k
Becomes-trans (steps v h rest) k = steps v h (Becomes-trans rest k)

pub one_step : {s t : NodeStatus} → can_step s t ≡ true → Becomes s t
one_step {t} h = steps t h (same_status refl)

-- What may be at the place of a node later: nothing, if it was still pending, or the node with the
-- same terms.
abbrev pub Fate : PipelineNode → Option PipelineNode → Type 0
Fate node none = Becomes node.status pending
Fate node (some later) =
    Becomes node.status later.status
    × (later.allocation_usdc ≡ node.allocation_usdc)
    × (later.dependency_mask ≡ node.dependency_mask)

pub record Follows (nodes nodes' : List (Option PipelineNode)) : Type 0 where
  pub fate :
      (j : ℕ) (node : PipelineNode)
      → account_at nodes j ≡ some node
      → Fate node (account_at nodes' j)
  pub absent : (j : ℕ) → account_at nodes j ≡ none → account_at nodes' j ≡ none

pub Fate-refl : (node : PipelineNode) → Fate node (some node)
Fate-refl node = (same_status refl, refl, refl)

pub Follows-refl : (nodes : List (Option PipelineNode)) → Follows nodes nodes
Follows-refl nodes = record {
  fate = λ j node e. subst (Fate node) (sym e) (Fate-refl node);
  absent = λ j e. e;
}

Fate-trans :
    (node later : PipelineNode) (x : Option PipelineNode)
    → Fate node (some later)
    → Fate later x
    → Fate node x
Fate-trans node later none (b, amount, mask) k = Becomes-trans b k
Fate-trans node later (some last) (b, amount, mask) (c, amount', mask') =
    (Becomes-trans b c, amount' ∙ amount, mask' ∙ mask)

pub Follows-trans : (a b c : List (Option PipelineNode)) → Follows a b → Follows b c → Follows a c
Follows-trans a b c h k = record {
  fate = λ j node e. elim (Option-cases (account_at b j)) [
    | inl gone ↦
        subst (Fate node) (sym (k.absent j gone)) (subst (Fate node) gone (h.fate j node e))
    | inr (later, there) ↦
        Fate-trans node later (account_at c j) (subst (Fate node) there (h.fate j node e))
          (k.fate j later there)
  ];
  absent = λ j e. k.absent j (h.absent j e);
}

-- One node account is written.
pub set-Follows :
    (nodes : List (Option PipelineNode)) (i : ℕ) (node : PipelineNode) (x : Option PipelineNode)
    → account_at nodes i ≡ some node
    → Fate node x
    → Follows nodes (set nodes i x)
set-Follows nodes i node x there f = record {
  fate = λ j other e. elim (Bool-cases (i == j)) [
    | inl same ↦
        let place : i ≡ j = ground (arith, same) in
        let one : node ≡ other = option-injective (sym there ∙ ap (account_at nodes) place ∙ e) in
        subst (λ k. Fate other (account_at (set nodes i x) k)) place
          (subst (Fate other) (sym (account_at-set_self nodes i node x there))
            (subst (λ n. Fate n x) one f))
    | inr apart ↦
        let places : i ≢ j = λ q. ground (arith, q, apart) in
        subst (Fate other) (sym (account_at-set_ne nodes i j x places ∙ e)) (Fate-refl other)
  ];
  absent = λ j e.
      account_at-set_ne nodes i j x
        (λ q. let bad : some node ≡ none = sym there ∙ ap (account_at nodes) q ∙ e in cc)
      ∙ e;
}

pub claimed_steps :
    (s : NodeStatus)
    → is_claimed s ≡ true
    → (can_step s settled ≡ true) × (can_step s submitted ≡ true) × (can_step s expired ≡ true)
claimed_steps claimed h = (refl, refl, refl)
claimed_steps pending h = absurd (cc)
claimed_steps submitted h = absurd (cc)
claimed_steps disputed h = absurd (cc)
claimed_steps settled h = absurd (cc)
claimed_steps expired h = absurd (cc)

pub submitted_steps :
    (s : NodeStatus)
    → is_submitted s ≡ true
    → (can_step s settled ≡ true) × (can_step s disputed ≡ true)
submitted_steps submitted h = (refl, refl)
submitted_steps pending h = absurd (cc)
submitted_steps claimed h = absurd (cc)
submitted_steps disputed h = absurd (cc)
submitted_steps settled h = absurd (cc)
submitted_steps expired h = absurd (cc)

pub disputed_steps :
    (s : NodeStatus)
    → is_disputed s ≡ true
    → (can_step s settled ≡ true) × (can_step s expired ≡ true)
disputed_steps disputed h = (refl, refl)
disputed_steps pending h = absurd (cc)
disputed_steps claimed h = absurd (cc)
disputed_steps submitted h = absurd (cc)
disputed_steps settled h = absurd (cc)
disputed_steps expired h = absurd (cc)

pub pending_steps :
    (s : NodeStatus)
    → is_pending s ≡ true
    → (can_step s claimed ≡ true) × (can_step s expired ≡ true)
pending_steps pending h = (refl, refl)
pending_steps claimed h = absurd (cc)
pending_steps submitted h = absurd (cc)
pending_steps disputed h = absurd (cc)
pending_steps settled h = absurd (cc)
pending_steps expired h = absurd (cc)

pub expirable_steps :
    (s : NodeStatus) → is_pending s || is_claimed s ≡ true → can_step s expired ≡ true
expirable_steps pending h = refl
expirable_steps claimed h = refl
expirable_steps submitted h = absurd (cc)
expirable_steps disputed h = absurd (cc)
expirable_steps settled h = absurd (cc)
expirable_steps expired h = absurd (cc)
