-- ===== src/Facilitator/Verifier/Laws.antt =====
-- When facilitator/src/verifier.ts accepts a completion.
use chainpipe.Base.{
  ℕ, suc, ◌≤◌, ◌≡◌, ap, ◌∙◌, true, false, not, ◌&&◌, some, arith, get_elem?, inl, inr, Bool-cases,
  Option-cases, ltb,
}
use chainpipe.Base.Results.{ok, Result-cases}
use chainpipe.Base.Text.{Bytes, Text, to_uint8, text_encode}
use chainpipe.Sdk.Platform.{Platform, PublicKey}
use chainpipe.Sdk.Accounts.{PipelineNode, is_claimed}
use chainpipe.Sdk.Delivery.{delivery_message}
use chainpipe.Sdk.Network.{Network, Session}
use chainpipe.Sdk.Client.Reads.{PipelineView, get_pipeline}
use chainpipe.Facilitator.Service.{Config}
use chainpipe.Facilitator.Verifier.{
  Verification, accepted, is_empty, check_delivery, check_deadline, check_node,
  delivery_hash_mismatch, verify_completion,
}

module _ (pf : Platform) (cfg : Config) (net : Network) where
  -- The session after the slot was read.
  abbrev later : Session → Session
  later s = record s { asked = suc s.asked }

  pub record IsInTime (node : PipelineNode) (uri : Text) (result : Bytes) (s : Session)
      : Type 0 where
    pub slot : ℕ
    pub deadline : ℕ
    pub slot_read : net.slot s.asked ≡ ok slot
    pub deadline_read : pf.to_number node.deadline_slot ≡ ok deadline
    pub in_time : slot ≤ deadline
    pub no_mismatch :
        (not (is_empty uri) && cfg.verify_delivery_on) ≡ true
        → (delivery_hash_mismatch pf cfg net uri result (later s)).0 ≡ ok false

  check_delivery_ok :
      (node : PipelineNode) (result : Bytes) (uri : Text) (s : Session) (v : Verification)
      → (check_delivery pf cfg net node result uri s).0 ≡ ok v
      → v.is_ok ≡ true
      → (v ≡ accepted pf cfg net node)
        × ((not (is_empty uri) && cfg.verify_delivery_on) ≡ true
            → (delivery_hash_mismatch pf cfg net uri result s).0 ≡ ok false)
  check_delivery_ok node result uri s v e h =
      ground (arith, Result-cases (delivery_hash_mismatch pf cfg net uri result s).0)

  check_deadline_ok :
      (node : PipelineNode) (result : Bytes) (uri : Text) (s : Session) (v : Verification)
      → (check_deadline pf cfg net node result uri s).0 ≡ ok v
      → v.is_ok ≡ true
      → (v ≡ accepted pf cfg net node) × IsInTime node uri result s
  check_deadline_ok node result uri s v e h = elim (Result-cases (net.slot s.asked)) [
    | inr bad ↦ ground arith
    | inl (slot, read) ↦ elim (Result-cases (pf.to_number node.deadline_slot)) [
      | inr bad ↦ ground arith
      | inl (deadline, num) ↦
          let late : ltb deadline slot ≡ false = ground arith in
          let rest = check_delivery_ok node result uri (later s) v (ground arith) h in
          (
            rest.0,
            record {
              slot = slot;
              deadline = deadline;
              slot_read = read;
              deadline_read = num;
              in_time = ground (arith, late);
              no_mismatch = rest.1;
            },
          )
    ]
  ]

  -- The message that has to be signed for a node.
  abbrev pub message_of : PublicKey → ℕ → PipelineNode → Bytes → Text → Bytes
  message_of pipeline i node result uri =
      delivery_message pf pipeline i (to_uint8 node.job_id) result (text_encode uri)

  -- What holds of a request that is accepted: its view of the pipeline and its node in it.
  pub record Acceptance (pipeline : PublicKey) (i : ℕ) (signature result : Bytes) (uri : Text)
      (s : Session) (v : Verification) : Type 0 where
    pub view : PipelineView
    pub node : PipelineNode
    pub fetched : (get_pipeline pf cfg.addresses net pipeline s).0 ≡ ok (some view)
    pub present : get_elem? view.nodes i ≡ some node
    pub claimed_node : is_claimed node.status ≡ true
    pub signed :
        pf.verify_detached (message_of pipeline i node result uri) signature node.agent ≡ ok true
    pub timely : IsInTime node uri result (get_pipeline pf cfg.addresses net pipeline s).1
    pub answer : v ≡ accepted pf cfg net node

  check_node_ok :
      (pipeline : PublicKey) (i : ℕ) (signature result : Bytes) (uri : Text) (node : PipelineNode)
      (s : Session) (v : Verification)
      → (check_node pf cfg net pipeline i signature result uri node s).0 ≡ ok v
      → v.is_ok ≡ true
      → (is_claimed node.status ≡ true)
        × (pf.verify_detached (message_of pipeline i node result uri) signature node.agent
            ≡ ok true)
        × ((check_deadline pf cfg net node result uri s).0 ≡ ok v)
  check_node_ok pipeline i signature result uri node s v e h = ground (
    arith,
    Result-cases (pf.verify_detached (message_of pipeline i node result uri) signature node.agent),
  )

  -- A completion is accepted only if the pipeline was found and holds the node, the node is claimed,
  -- its agent signed the message for exactly this job, result and pointer, the slot read afterwards
  -- is not past the node's deadline, and, when a pointer is given and checking is on, the bytes
  -- behind it do not differ from the result; the answer then names this node, its agent and its job.
  pub verify_completion_sound :
      (pipeline : PublicKey) (i : ℕ) (signature result : Bytes) (uri : Text) (s : Session)
      (v : Verification)
      → (verify_completion pf cfg net pipeline i signature result uri s).0 ≡ ok v
      → v.is_ok ≡ true
      → Acceptance pipeline i signature result uri s v
  unfolding verify_completion
  verify_completion_sound pipeline i signature result uri s v e h =
      elim (Result-cases (get_pipeline pf cfg.addresses net pipeline s).0) [
        | inr bad ↦ ground arith
        | inl (found, got) ↦ elim (Option-cases found) [
          | inl missing ↦ ground arith
          | inr (view, here) ↦ elim (Option-cases (get_elem? view.nodes i)) [
            | inl missing ↦ ground arith
            | inr (node, present) ↦
                let (claimed_node, signed, rest) =
                  check_node_ok pipeline i signature result uri node
                    (get_pipeline pf cfg.addresses net pipeline s).1 v (ground arith) h in
                let (answer, timely) =
                  check_deadline_ok node result uri (get_pipeline pf cfg.addresses net pipeline s).1
                    v rest h in
                record {
                  view = view;
                  node = node;
                  fetched = got ∙ ap ok here;
                  present = present;
                  claimed_node = claimed_node;
                  signed = signed;
                  timely = timely;
                  answer = answer;
                }
          ]
        ]
      ]

  check_delivery_complete :
      (node : PipelineNode) (result : Bytes) (uri : Text) (s : Session)
      → ((not (is_empty uri) && cfg.verify_delivery_on) ≡ true
          → (delivery_hash_mismatch pf cfg net uri result s).0 ≡ ok false)
      → (check_delivery pf cfg net node result uri s).0 ≡ ok (accepted pf cfg net node)
  check_delivery_complete node result uri s h =
      elim (Bool-cases (not (is_empty uri) && cfg.verify_delivery_on)) [
        | inl on ↦ ground (arith, h on)
        | inr off ↦ ground (arith, off)
      ]

  check_deadline_complete :
      (node : PipelineNode) (result : Bytes) (uri : Text) (s : Session)
      → IsInTime node uri result s
      → (check_deadline pf cfg net node result uri s).0 ≡ ok (accepted pf cfg net node)
  check_deadline_complete node result uri s t = ground (
    arith,
    t.slot_read,
    t.deadline_read,
    t.in_time,
    check_delivery_complete node result uri (later s) t.no_mismatch,
  )

  -- A request is accepted, with the answer that names its node, agent and job, if the pipeline was
  -- found and holds the node, the node is claimed, its agent signed the message, the slot is not
  -- past the deadline, and the check of the pointer, where it is made, finds no mismatch.
  pub verify_completion_complete :
      (pipeline : PublicKey) (i : ℕ) (signature result : Bytes) (uri : Text) (s : Session)
      (v : Verification)
      → Acceptance pipeline i signature result uri s v
      → ((verify_completion pf cfg net pipeline i signature result uri s).0 ≡ ok v)
        × (v.is_ok ≡ true)
  unfolding verify_completion
  verify_completion_complete pipeline i signature result uri s v a = (
    ground (
      arith,
      a.fetched,
      a.present,
      a.claimed_node,
      a.signed,
      a.answer,
      check_deadline_complete a.node result uri (get_pipeline pf cfg.addresses net pipeline s).1
          a.timely,
    ),
    ground (arith, a.answer),
  )
