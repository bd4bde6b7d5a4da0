-- ===== src/Facilitator/Verifier/Overdue.antt =====
-- When facilitator/src/verifier.ts lets a node be expired.
use chainpipe.Base.{
  ℕ, ◌≡◌, ap, ◌∙◌, some, true, false, ◌||◌, arith, inl, inr, Option-cases, Bool-cases, get_elem?,
  ◌<◌, leb,
}
use chainpipe.Base.Results.{ok, Result-cases}
use chainpipe.Sdk.Platform.{Platform, PublicKey}
use chainpipe.Sdk.Accounts.{PipelineNode, is_settled, is_expired}
use chainpipe.Sdk.Network.{Network, Session}
use chainpipe.Sdk.Client.Reads.{PipelineView, get_pipeline}
use chainpipe.Facilitator.Service.{Config}
use chainpipe.Facilitator.Verifier.{Verification, check_overdue, verify_expirable}

module _ (pf : Platform) (cfg : Config) (net : Network) where
  -- What holds of a node that verifyExpirable lets through.
  pub record IsOverdue (pipeline : PublicKey) (i : ℕ) (s : Session) (node : PipelineNode)
      : Type 0 where
    pub view : PipelineView
    pub fetched : (get_pipeline pf cfg.addresses net pipeline s).0 ≡ ok (some view)
    pub present : get_elem? view.nodes i ≡ some node
    pub open_node : (is_settled node.status || is_expired node.status) ≡ false
    pub slot : ℕ
    pub deadline : ℕ
    pub slot_read : net.slot (get_pipeline pf cfg.addresses net pipeline s).1.asked ≡ ok slot
    pub deadline_read : pf.to_number node.deadline_slot ≡ ok deadline
    pub late : deadline < slot

  check_overdue_ok :
      (node : PipelineNode) (s : Session) (v : Verification)
      → (check_overdue pf cfg net node s).0 ≡ ok v
      → v.is_ok ≡ true
      → ((is_settled node.status || is_expired node.status) ≡ false)
        × (v.node ≡ some node)
        × ((slot : ℕ) × (deadline : ℕ) × (net.slot s.asked ≡ ok slot)
            × (pf.to_number node.deadline_slot ≡ ok deadline)
            × (deadline < slot))
  check_overdue_ok node s v e h =
      elim (Bool-cases (is_settled node.status || is_expired node.status)) [
        | inl closed ↦ ground (arith, closed)
        | inr still ↦ elim (Result-cases (net.slot s.asked)) [
          | inr bad ↦ ground (arith, still, bad)
          | inl (slot, read) ↦ elim (Result-cases (pf.to_number node.deadline_slot)) [
            | inr bad ↦ ground (arith, still, read, bad)
            | inl (deadline, num) ↦
                let late : leb slot deadline ≡ false = ground (arith, still, read, num) in
                (
                  still,
                  ground (arith, still, read, num, late),
                  (slot, deadline, read, num, ground (arith, late)),
                )
          ]
        ]
      ]

  -- A node is called expirable only if the pipeline was found and holds it, it is neither settled
  -- nor expired, and the slot that was read afterwards is past its deadline.
  pub verify_expirable_sound :
      (pipeline : PublicKey) (i : ℕ) (s : Session) (v : Verification)
      → (verify_expirable pf cfg net pipeline i s).0 ≡ ok v
      → v.is_ok ≡ true
      → (node : PipelineNode) × (v.node ≡ some node) × IsOverdue pipeline i s node
  unfolding verify_expirable
  verify_expirable_sound pipeline i s v e h =
      elim (Result-cases (get_pipeline pf cfg.addresses net pipeline s).0) [
        | inr bad ↦ ground arith
        | inl (found, got) ↦ elim (Option-cases found) [
          | inl missing ↦ ground arith
          | inr (view, here) ↦ elim (Option-cases (get_elem? view.nodes i)) [
            | inl missing ↦ ground arith
            | inr (node, present) ↦
                let (still, named, (slot, deadline, read, num, late)) =
                  check_overdue_ok node (get_pipeline pf cfg.addresses net pipeline s).1 v
                    (ground arith) h in
                (
                  node,
                  named,
                  record {
                    view = view;
                    fetched = got ∙ ap ok here;
                    present = present;
                    open_node = still;
                    slot = slot;
                    deadline = deadline;
                    slot_read = read;
                    deadline_read = num;
                    late = late;
                  },
                )
          ]
        ]
      ]
