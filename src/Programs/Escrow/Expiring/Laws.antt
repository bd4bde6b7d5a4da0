-- ===== src/Programs/Escrow/Expiring/Laws.antt =====
-- What the loop of expire_node does to the nodes, in programs/dag_escrow/src/lib.rs.
use chainpipe.Base.{
  ℕ, ◌+◌, ◌≤◌, ◌≡◌, ◌≢◌, refl, sym, ap, subst, ◌∙◌, Bool, true, false, List, [], ◌∷◌, Option, some,
  inl, inr, arith, Bool-cases,
}
use chainpipe.Base.Results.{ok, returned, ok-injective}
use chainpipe.Base.Encodings.{text_eq}
use chainpipe.Sdk.Platform.{PublicKey}
use chainpipe.Sdk.Accounts.{
  PipelineNode, NodeStatus, pending, claimed, submitted, disputed, settled, expired, is_pending,
}
use chainpipe.Dashboard.Masks.{has_bit}
use chainpipe.Dashboard.Masks.Laws.{has_bit-set_bit}
use chainpipe.Programs.Runtime.{require-holds, present-holds, checked_add}
use chainpipe.Programs.Escrow.{account_at}
use chainpipe.Programs.Escrow.Weights.{
  owed, count_pending, weigh-set, open_allocation, open_at, pending_one, account_at-set_ne,
}
use chainpipe.Programs.Escrow.Fates.{
  Follows, Follows-refl, Follows-trans, set-Follows, one_step, can_step,
}
use chainpipe.Programs.Escrow.Expiring.{
  Sweep, sweep_one, sweep, falls, expire_at, expire_counted, expired_node,
}

abbrev pub flag : Bool → ℕ
flag true = 1
flag false = 0

-- What a part of the loop keeps: the allocations of the nodes that fall move to the refund, each
-- change takes a pending node away, and nodes whose bit is set are left alone.
pub record Sweeps (s s' : Sweep) : Type 0 where
  pub moved : owed s'.nodes + s'.refund_total ≡ owed s.nodes + s.refund_total
  pub fewer : count_pending s'.nodes + flag s'.changed ≤ count_pending s.nodes + flag s.changed
  pub kept :
      (j : ℕ) (node : PipelineNode)
      → has_bit s.expired_bits node.node_index ≡ true
      → account_at s.nodes j ≡ some node
      → (account_at s'.nodes j ≡ some node) × (has_bit s'.expired_bits node.node_index ≡ true)
  pub follows : Follows s.nodes s'.nodes

pub Sweeps-refl : (s : Sweep) → Sweeps s s
Sweeps-refl s = record {
  moved = refl;
  fewer = omega arith;
  kept = λ j node set_already there. (there, set_already);
  follows = Follows-refl s.nodes;
}

pub Sweeps-trans : (s t u : Sweep) → Sweeps s t → Sweeps t u → Sweeps s u
Sweeps-trans s t u h k = record {
  moved = k.moved ∙ h.moved;
  fewer = omega (arith, h.fewer, k.fewer);
  kept = λ j node set_already there.
      let (there', set_still) = h.kept j node set_already there in k.kept j node set_still there';
  follows = Follows-trans s.nodes t.nodes u.nodes h.follows k.follows;
}

pending_weights :
    (s : NodeStatus) (amount : ℕ)
    → is_pending s ≡ true
    → (pending_one s ≡ 1) × (open_at s amount ≡ amount)
pending_weights pending amount h = (refl, refl)
pending_weights claimed amount h = absurd (cc)
pending_weights submitted amount h = absurd (cc)
pending_weights disputed amount h = absurd (cc)
pending_weights settled amount h = absurd (cc)
pending_weights expired amount h = absurd (cc)

pending_falls : (s : NodeStatus) → is_pending s ≡ true → can_step s expired ≡ true
pending_falls pending h = refl
pending_falls claimed h = absurd (cc)
pending_falls submitted h = absurd (cc)
pending_falls disputed h = absurd (cc)
pending_falls settled h = absurd (cc)
pending_falls expired h = absurd (cc)

some-injective : {a b : PipelineNode} → some a ≡ some b → a ≡ b
some-injective e = cc

different_places :
    (xs : List (Option PipelineNode)) (i j : ℕ) (x y : PipelineNode) (f : PipelineNode → Bool)
    → account_at xs i ≡ some x
    → account_at xs j ≡ some y
    → f x ≡ false
    → f y ≡ true
    → i ≢ j
different_places xs i j x y f here there off on same =
    let one : x ≡ y = some-injective (sym here ∙ ap (account_at xs) same ∙ there) in
    let both : true ≡ false = sym on ∙ ap f (sym one) ∙ off in cc

expire_at-Sweeps :
    (i : ℕ) (node : PipelineNode) (s : Sweep)
    → account_at s.nodes i ≡ some node
    → falls node s.expired_bits ≡ true
    → Sweeps s (expire_at i node (s.refund_total + node.allocation_usdc) s)
unfolding falls
expire_at-Sweeps i node s there down =
    let unset : has_bit s.expired_bits node.node_index ≡ false = ground (arith, down) in
    let waiting : is_pending node.status ≡ true = ground (arith, down) in
    let (one, whole) = pending_weights node.status node.allocation_usdc waiting in
    record {
      moved =
          omega (
            arith,
            weigh-set open_allocation s.nodes i node (some (expired_node node)) there,
            whole,
          );
      fewer = omega (
        arith,
        weigh-set (λ n. pending_one n.status) s.nodes i node (some (expired_node node)) there,
        one,
      );
      kept = λ j other set_already found.
          let apart : i ≢ j =
            different_places s.nodes i j node other
              (λ (n : PipelineNode). has_bit s.expired_bits n.node_index) there found unset
              set_already in
          (
            account_at-set_ne s.nodes i j (some (expired_node node)) apart ∙ found,
            ground (
              arith,
              has_bit-set_bit s.expired_bits node.node_index other.node_index,
              set_already,
            ),
          );
      follows =
          set-Follows s.nodes i node (some (expired_node node)) there
            (one_step (pending_falls node.status waiting), refl, refl);
    }

sweep_one-Sweeps :
    (key : PublicKey) (i : ℕ) (s s' : Sweep) → sweep_one key i s ≡ ok s' → Sweeps s s'
unfolding sweep_one
sweep_one-Sweeps key i s s' e =
    let (node, there, e1) =
      present-holds (account_at s.nodes i) "AccountDidNotDeserialize" _ s' e in
    let (own, e2) = require-holds (text_eq node.pipeline key) "InvalidNodeAccount" _ s' e1 in
    elim (Bool-cases (falls node s.expired_bits)) [
      | inl down ↦
          let counted : expire_counted i node s ≡ ok s' = ground (arith, down, e2) in
          let (refund, summed, e3) =
            returned (checked_add 64 s.refund_total node.allocation_usdc) _ s' counted in
          let sum : refund ≡ s.refund_total + node.allocation_usdc = ground (arith, summed) in
          subst (Sweeps s) (ok-injective e3) (
            subst (λ x. Sweeps s (expire_at i node x s)) (sym sum)
              (expire_at-Sweeps i node s there down))
      | inr up ↦ let same : s ≡ s' = ground (arith, up, e2) in subst (Sweeps s) same (Sweeps-refl s)
    ]

pub sweep-Sweeps :
    (key : PublicKey) (passed : List ℕ) (s s' : Sweep) → sweep key passed s ≡ ok s' → Sweeps s s'
unfolding sweep
sweep-Sweeps key [] s s' e = subst (Sweeps s) (ok-injective e) (Sweeps-refl s)
sweep-Sweeps key (i ∷ rest) s s' e =
    let (t, one, e1) = returned (sweep_one key i s) _ s' e in
    Sweeps-trans s t s' (sweep_one-Sweeps key i s t one) (sweep-Sweeps key rest t s' e1)
