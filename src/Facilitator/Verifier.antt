-- ===== src/Facilitator/Verifier.antt =====
-- facilitator/src/verifier.ts: the checks of a completion and of an expiry against the chain.
pub mod Laws
pub mod Mismatch
pub mod Silence
pub mod Overdue
use chainpipe.Base.{
  ℕ, String, Bool, true, false, not, ◌&&◌, ◌||◌, List, [], ◌∷◌, Option, none, some, ltb, leb,
  get_elem?, if◌then◌else◌,
}
use chainpipe.Base.Text.{Bytes, Text, codes, to_uint8, text_encode}
use chainpipe.Base.Encodings.{text_eq, starts_with, to_hex}
use chainpipe.Sdk.Platform.{Platform, PublicKey}
use chainpipe.Sdk.Accounts.{PipelineNode, is_claimed, is_settled, is_expired}
use chainpipe.Sdk.Delivery.{delivery_message, resolve_uri}
use chainpipe.Sdk.Network.{Network, HttpResponse, M, pure, lift, ask, catch, ◌>>=◌}
use chainpipe.Sdk.Client.Reads.{PipelineView, get_pipeline}
use chainpipe.Facilitator.Service.{Config}

-- `CompletionVerification`
pub record Verification : Type 0 where
  pub is_ok : Bool
  pub reason : Option String
  pub node : Option PipelineNode
  pub agent : Option PublicKey
  pub job_id : Option Bytes

abbrev pub refused : String → Verification
refused why = record { is_ok = false; reason = some why; node = none; agent = none; job_id = none }

-- `/^https?:\/\//.test(url)`
abbrev pub is_http : Text → Bool
is_http url = starts_with url (codes "http://") || starts_with url (codes "https://")

abbrev pub is_empty : Text → Bool
is_empty [] = true
is_empty (_ ∷ _) = false

module _ (pf : Platform) (cfg : Config) (net : Network) where
  -- What follows the `fetch` in the `try` of deliveryHashMismatch.
  abbrev compare_fetched : Bytes → HttpResponse → M Bool
  compare_fetched result_hash resp =
      if resp.is_ok
      then (do
        bytes ← lift resp.body
        pure (not (text_eq (to_hex (pf.sha256 bytes)) (to_hex result_hash))))
      else pure false

  unfoldable pub delivery_hash_mismatch : Text → Bytes → M Bool
  delivery_hash_mismatch uri result_hash =
      let url = resolve_uri cfg.gateway uri in
      if is_http url
      then catch (ask (λ t. net.http t url) >>= compare_fetched result_hash) (λ _. pure false)
      else pure false

  abbrev pub accepted : PipelineNode → Verification
  accepted node = record {
    is_ok = true;
    reason = none;
    node = some node;
    agent = some node.agent;
    job_id = some (to_uint8 node.job_id);
  }

  -- The last check, of the bytes behind the pointer.
  abbrev check_delivery : PipelineNode → Bytes → Text → M Verification
  check_delivery node result_hash uri =
      if not (is_empty uri) && cfg.verify_delivery_on
      then (do
        mismatch ← delivery_hash_mismatch uri result_hash
        pure (
            if mismatch
            then refused "result_hash does not match fetched output"
            else accepted node))
      else pure (accepted node)

  -- The deadline, after the signature.
  abbrev check_deadline : PipelineNode → Bytes → Text → M Verification
  check_deadline node result_hash uri = do
    slot ← ask net.slot
    deadline ← lift (pf.to_number node.deadline_slot)
    if ltb deadline slot
        then pure (refused "deadline has passed")
        else check_delivery node result_hash uri

  -- The checks of a node that is there.
  abbrev check_node : PublicKey → ℕ → Bytes → Bytes → Text → PipelineNode → M Verification
  check_node pipeline i signature result_hash uri node =
      if is_claimed node.status
      then (do
        sig_ok ← lift (
            pf.verify_detached
              (delivery_message pf pipeline i (to_uint8 node.job_id) result_hash (text_encode uri))
              signature node.agent)
        if sig_ok
            then check_deadline node result_hash uri
            else pure (refused "invalid agent signature (must sign the uri-bound deliveryMessage)"))
      else pure (refused "node is not Claimed")

  abbrev check_view : PublicKey → ℕ → Bytes → Bytes → Text → Option PipelineView → M Verification
  check_view pipeline i signature result_hash uri none = pure (refused "pipeline not found")
  check_view pipeline i signature result_hash uri (some p) = elim (get_elem? p.nodes i) [
    | none ↦ pure (refused "node not found")
    | some node ↦ check_node pipeline i signature result_hash uri node
  ]

  unfoldable pub verify_completion : PublicKey → ℕ → Bytes → Bytes → Text → M Verification
  verify_completion pipeline i signature result_hash uri =
      get_pipeline pf cfg.addresses net pipeline >>= check_view pipeline i signature result_hash uri

  -- `verifyExpirable`, with the fields that it sets.
  abbrev check_overdue : PipelineNode → M Verification
  check_overdue node =
      if is_settled node.status || is_expired node.status
      then pure (refused "node already finalized")
      else (do
        slot ← ask net.slot
        deadline ← lift (pf.to_number node.deadline_slot)
        pure (
            if leb slot deadline then refused "deadline not passed" else record {
              is_ok = true;
              reason = none;
              node = some node;
              agent = none;
              job_id = none;
            }))

  abbrev check_expiry : ℕ → Option PipelineView → M Verification
  check_expiry i none = pure (refused "pipeline not found")
  check_expiry i (some p) = elim (get_elem? p.nodes i) [
    | none ↦ pure (refused "node not found")
    | some node ↦ check_overdue node
  ]

  unfoldable pub verify_expirable : PublicKey → ℕ → M Verification
  verify_expirable pipeline i = get_pipeline pf cfg.addresses net pipeline >>= check_expiry i
