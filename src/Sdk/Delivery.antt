-- ===== src/Sdk/Delivery.antt =====
-- Proof of delivery in sdk/src/pipeline.ts: the message that an agent signs, and the check of a
-- delivered output against the hash on the chain.
pub mod Laws
use chainpipe.Base.{
  ℕ, ◌%◌, String, Bool, true, false, List, [], ◌∷◌, ◌++◌, Option, none, some, drop, if◌then◌else◌,
}
use chainpipe.Base.Results.{Result, ok, throws}
use chainpipe.Base.Text.{Bytes, Text, codes, to_uint8}
use chainpipe.Base.Encodings.{text_eq, starts_with, to_hex}
use chainpipe.Sdk.Platform.{Platform, PublicKey}
use chainpipe.Sdk.Accounts.{NodeSettlement}
use chainpipe.Sdk.Uri.{decode_uri}
use chainpipe.Sdk.Network.{Network, HttpResponse, M, pure, lift, ask, catch, ◌>>=◌}

-- pipeline ‖ nodeIndex ‖ jobId ‖ resultHash ‖ sha256(uriBytes), through `Uint8Array.from`.
unfoldable pub delivery_message : Platform → PublicKey → ℕ → Bytes → Bytes → Bytes → Bytes
delivery_message pf pipeline node_index job_id result_hash uri_bytes =
    to_uint8 (pipeline ++ ((node_index % 256) ∷ (job_id ++ (result_hash ++ pf.sha256 uri_bytes))))

abbrev pub ipfs_scheme : Text
ipfs_scheme = codes "ipfs://"

-- Where a delivery pointer is fetched from.
unfoldable pub resolve_uri : Text → Text → Text
resolve_uri gateway uri = if starts_with uri ipfs_scheme then gateway ++ drop 7 uri else uri

-- `fetch ${resp.status}`, or the error that was caught.
pub data FetchFailure : Type 0 where
  fetch_status : ℕ → FetchFailure
  caught : String → FetchFailure

pub record DeliveryCheck : Type 0 where
  pub is_ok : Bool
  pub uri : Text
  pub expected_hash : Text
  pub actual_hash : Option Text
  pub reason : Option FetchFailure

abbrev pub hashed : Text → Text → Text → DeliveryCheck
hashed uri expected actual = record {
  is_ok = text_eq actual expected;
  uri = uri;
  expected_hash = expected;
  actual_hash = some actual;
  reason = none;
}

abbrev pub unhashed : Text → Text → FetchFailure → DeliveryCheck
unhashed uri expected why = record {
  is_ok = false;
  uri = uri;
  expected_hash = expected;
  actual_hash = none;
  reason = some why;
}

module _ (pf : Platform) (net : Network) where
  -- What follows the `fetch` in the `try`.
  abbrev check_response : Text → Text → HttpResponse → M DeliveryCheck
  check_response uri expected resp =
      if resp.is_ok
      then (do bytes ← lift resp.body; pure (hashed uri expected (to_hex (pf.sha256 bytes))))
      else pure (unhashed uri expected (fetch_status resp.status))

  -- `verifyDelivery`, where a `fetch` is available.
  unfoldable pub verify_delivery : NodeSettlement → Text → M DeliveryCheck
  verify_delivery settlement gateway =
      let uri = decode_uri settlement.uri settlement.uri_len in
      let expected = to_hex (to_uint8 settlement.result_hash) in
      catch (ask (λ t. net.http t (resolve_uri gateway uri)) >>= check_response uri expected)
        (λ e. pure (unhashed uri expected (caught e)))
