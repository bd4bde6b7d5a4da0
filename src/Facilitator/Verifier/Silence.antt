-- ===== src/Facilitator/Verifier/Silence.antt =====
-- The checks of facilitator/src/verifier.ts and replay.ts only read: they send no transaction.
use chainpipe.Base.{ℕ, suc, ◌≡◌, refl, Option, none, some, arith, inl, inr, Option-cases, get_elem?}
use chainpipe.Base.Results.{Result-cases}
use chainpipe.Base.Text.{Bytes, Text}
use chainpipe.Sdk.Platform.{Platform, PublicKey}
use chainpipe.Sdk.Accounts.{PipelineNode}
use chainpipe.Sdk.Delivery.{resolve_uri}
use chainpipe.Sdk.Network.{Network, Session}
use chainpipe.Sdk.Client.Reads.{PipelineView, get_pipeline}
use chainpipe.Sdk.Client.Silence.{IsSilent, get_pipeline-IsSilent}
use chainpipe.Facilitator.Service.{Config, Seen}
use chainpipe.Facilitator.Replay.{is_replay}
use chainpipe.Facilitator.Verifier.{
  delivery_hash_mismatch, check_delivery, check_deadline, check_node, check_view, check_expiry,
  verify_completion, verify_expirable,
}

module _ (pf : Platform) (cfg : Config) (net : Network) where
  mismatch-IsSilent :
      (uri : Text) (result : Bytes) → IsSilent (delivery_hash_mismatch pf cfg net uri result)
  unfolding delivery_hash_mismatch
  mismatch-IsSilent uri result s =
      elim (Result-cases (net.http s.asked (resolve_uri cfg.gateway uri))) [
        | inr bad ↦ ground arith
        | inl (resp, got) ↦ ground (arith, Result-cases resp.body)
      ]

  check_delivery-IsSilent :
      (node : PipelineNode) (result : Bytes) (uri : Text)
      → IsSilent (check_delivery pf cfg net node result uri)
  check_delivery-IsSilent node result uri s = ground (arith, mismatch-IsSilent uri result s)

  check_deadline-IsSilent :
      (node : PipelineNode) (result : Bytes) (uri : Text)
      → IsSilent (check_deadline pf cfg net node result uri)
  check_deadline-IsSilent node result uri s = ground (
    arith,
    Result-cases (net.slot s.asked),
    Result-cases (pf.to_number node.deadline_slot),
    check_delivery-IsSilent node result uri (record s { asked = suc s.asked }),
  )

  check_node-IsSilent :
      (pipeline : PublicKey) (i : ℕ) (signature result : Bytes) (uri : Text) (node : PipelineNode)
      → IsSilent (check_node pf cfg net pipeline i signature result uri node)
  check_node-IsSilent pipeline i signature result uri node s =
      ground (arith, check_deadline-IsSilent node result uri s)

  check_view-IsSilent :
      (pipeline : PublicKey) (i : ℕ) (signature result : Bytes) (uri : Text)
      (view : Option PipelineView)
      → IsSilent (check_view pf cfg net pipeline i signature result uri view)
  check_view-IsSilent pipeline i signature result uri none s = refl
  check_view-IsSilent pipeline i signature result uri (some p) s =
      elim (Option-cases (get_elem? p.nodes i)) [
        | inl missing ↦ ground arith
        | inr (node, here) ↦
            ground (arith, check_node-IsSilent pipeline i signature result uri node s)
      ]

  pub verify_completion-IsSilent :
      (pipeline : PublicKey) (i : ℕ) (signature result : Bytes) (uri : Text)
      → IsSilent (verify_completion pf cfg net pipeline i signature result uri)
  unfolding verify_completion
  verify_completion-IsSilent pipeline i signature result uri s =
      elim (Result-cases (get_pipeline pf cfg.addresses net pipeline s).0) [
        | inr bad ↦ ground (arith, get_pipeline-IsSilent pf cfg.addresses net pipeline s)
        | inl (view, got) ↦ ground (
          arith,
          get_pipeline-IsSilent pf cfg.addresses net pipeline s,
          check_view-IsSilent pipeline i signature result uri view
              (get_pipeline pf cfg.addresses net pipeline s).1,
        )
      ]

  check_expiry-IsSilent :
      (i : ℕ) (view : Option PipelineView) → IsSilent (check_expiry pf cfg net i view)
  check_expiry-IsSilent i none s = refl
  check_expiry-IsSilent i (some p) s = elim (Option-cases (get_elem? p.nodes i)) [
    | inl missing ↦ ground arith
    | inr (node, here) ↦
        ground
          (arith, Result-cases (net.slot s.asked), Result-cases (pf.to_number node.deadline_slot))
  ]

  pub verify_expirable-IsSilent :
      (pipeline : PublicKey) (i : ℕ) → IsSilent (verify_expirable pf cfg net pipeline i)
  unfolding verify_expirable
  verify_expirable-IsSilent pipeline i s =
      elim (Result-cases (get_pipeline pf cfg.addresses net pipeline s).0) [
        | inr bad ↦ ground (arith, get_pipeline-IsSilent pf cfg.addresses net pipeline s)
        | inl (view, got) ↦ ground (
          arith,
          get_pipeline-IsSilent pf cfg.addresses net pipeline s,
          check_expiry-IsSilent i view (get_pipeline pf cfg.addresses net pipeline s).1,
        )
      ]

  pub is_replay_silent :
      (job : Bytes) (seen : Seen) (s : Session)
      → (is_replay pf cfg.addresses net job seen s).2.sent ≡ s.sent
  unfolding is_replay
  is_replay_silent job seen s = ground arith
