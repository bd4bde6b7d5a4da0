-- ===== src/Facilitator/Tests.antt =====
-- The theorems on the facilitator applied to one chain and concrete requests.
mod Closing
mod Parts
use chainpipe.Base.{
  ◌≡◌, ◌≢◌, ◌↔◌, ◌⊎◌, refl, true, false, Bool, [], ◌∷◌, none, some, replicate, arith, ◌≤◌,
}
use chainpipe.Base.Results.{ok}
use chainpipe.Base.Text.{Bytes, codes, to_uint8, text_encode}
use chainpipe.Base.Encodings.{to_hex, from_base64}
use chainpipe.Samples.{
  platform, platform-DigestLaw, config, pipeline_key, account, node, network, start, no_byte,
}
use chainpipe.Sdk.Accounts.{JobRecord}
use chainpipe.Sdk.Delivery.{delivery_message, resolve_uri}
use chainpipe.Sdk.Client.Reads.{PipelineView, get_pipeline, get_job_record, get_agent_reputation}
use chainpipe.Sdk.Client.Sends.{complete_node}
use chainpipe.Sdk.Network.{Network}
use chainpipe.Sdk.Accounts.{submitted}
use chainpipe.Sdk.Client.Sends.{finalize_node}
use chainpipe.Facilitator.Verifier.{verify_expirable}
use chainpipe.Facilitator.Verifier.Overdue.{IsOverdue, verify_expirable_sound}
use chainpipe.Facilitator.Server.Close.{CloseBody, expire, finalize, resolve}
use chainpipe.Facilitator.Server.Laws.Closed.{
  IsFinalized, expire_refused, finalize_refused, resolve_refused, finalize_settles,
}
use chainpipe.Facilitator.Scorer.{score_delta, score_delta_bounds, score_delta_mono}
use chainpipe.Facilitator.Input.{decode_signature, into_hash_buffer}
use chainpipe.Facilitator.Input.Laws.{hex_result_lost}
use chainpipe.Facilitator.Replay.{is_replay, has_key, mark_recorded}
use chainpipe.Facilitator.Replay.Laws.{is_replay_iff, is_replay_remembers}
use chainpipe.Facilitator.Verifier.{accepted, verify_completion, delivery_hash_mismatch}
use chainpipe.Facilitator.Verifier.Laws.{
  Acceptance, verify_completion_sound, verify_completion_complete,
}
use chainpipe.Facilitator.Verifier.Mismatch.{IsDisproved, delivery_hash_mismatch_iff}
use chainpipe.Facilitator.Server.Settle.{SettleBody, complete, submit, result_hash_bytes}
use chainpipe.Facilitator.Server.Laws.Refusal.{complete_refused, submit_refused}
use chainpipe.Facilitator.Server.Laws.Replayed.{complete_replayed}

-- A delivery of three bytes behind a pointer, with the digest of three bytes as its result.
abbrev good_body : SettleBody
good_body = record {
  pipeline_pda = some pipeline_key;
  node_index = some 0;
  agent_signature = some (codes "PDI=");
  result_hash = some (codes "Aw==");
  uri = some (codes "https://x");
}

abbrev signature : Bytes
signature = 60 ∷ 50 ∷ []

abbrev result : Bytes
result = 3 ∷ replicate 31 0

good_body-read : decode_signature no_byte (codes "PDI=") ≡ signature
unfolding decode_signature from_base64
good_body-read = refl

abbrev bad_body : SettleBody
bad_body = record good_body { result_hash = none }

refused_status : (complete platform config no_byte network bad_body [] start).0.status ≡ 400
unfolding complete verify_completion get_pipeline is_replay decode_signature from_base64
    delivery_message delivery_hash_mismatch resolve_uri to_hex result_hash_bytes into_hash_buffer
    complete_node mark_recorded get_agent_reputation
refused_status = refl

-- A result that is not what the pointer gives is refused, and nothing is sent.
complete_refused_example : (complete platform config no_byte network bad_body [] start).2.sent ≡ []
complete_refused_example =
    complete_refused platform config no_byte network bad_body [] start
      (ground (arith, refused_status)) (ground (arith, refused_status))

submit_refused_status : (submit platform config no_byte network bad_body [] start).0.status ≡ 400
unfolding submit verify_completion get_pipeline is_replay decode_signature from_base64
    delivery_message delivery_hash_mismatch resolve_uri to_hex result_hash_bytes into_hash_buffer
submit_refused_status = refl

submit_refused_example : (submit platform config no_byte network bad_body [] start).2.sent ≡ []
submit_refused_example =
    submit_refused platform config no_byte network bad_body [] start
      (ground (arith, submit_refused_status)) (ground (arith, submit_refused_status))

abbrev view : PipelineView
view = record { account = account; nodes = node ∷ [] }

view_fetched :
    (get_pipeline platform config.addresses network pipeline_key start).0 ≡ ok (some view)
unfolding get_pipeline
view_fetched = refl

job_seen : has_key (to_hex (to_uint8 node.job_id)) (codes "0506" ∷ []) ≡ true
unfolding to_hex
job_seen = refl

complete_replayed_example :
    let (resp, seen', s') =
      complete platform config no_byte network good_body (codes "0506" ∷ []) start in
    (resp.status ≡ 409) × (seen' ≡ codes "0506" ∷ []) × (s'.sent ≡ [])
complete_replayed_example =
    complete_replayed platform config no_byte network good_body (codes "0506" ∷ []) start
      pipeline_key view node refl refl view_fetched refl job_seen

verification_made :
    (verify_completion platform config network pipeline_key 0 signature result
      (codes "https://x")
      start).0
    ≡ ok (accepted platform config network node)
unfolding verify_completion get_pipeline delivery_message delivery_hash_mismatch resolve_uri to_hex
verification_made = refl

verify_completion_sound_example :
    Acceptance platform config network pipeline_key 0 signature result
      (codes "https://x")
      start
      (accepted platform config network node)
verify_completion_sound_example =
    verify_completion_sound platform config network pipeline_key 0 signature result
      (codes "https://x") start (accepted platform config network node) verification_made refl

agent_signed :
    platform.verify_detached
      (delivery_message platform pipeline_key 0
        (to_uint8 node.job_id)
        result
        (text_encode (codes "https://x")))
      signature
      node.agent
    ≡ ok true
unfolding delivery_message
agent_signed = refl

pointer_agrees :
    (delivery_hash_mismatch platform config network
      (codes "https://x")
      result
      (record { asked = 3; sent = [] })).0
    ≡ ok false
unfolding delivery_hash_mismatch resolve_uri to_hex
pointer_agrees = refl

-- The session after the two reads of the pipeline and its node.
view_read :
    (get_pipeline platform config.addresses network pipeline_key start).1
    ≡ record { asked = 2; sent = [] }
unfolding get_pipeline
view_read = refl

acceptance :
    Acceptance platform config network pipeline_key 0 signature result
      (codes "https://x")
      start
      (accepted platform config network node)
unfolding get_pipeline
acceptance = record {
  view = view;
  node = node;
  fetched = view_fetched;
  present = refl;
  claimed_node = refl;
  signed = agent_signed;
  timely = record {
    slot = 100;
    deadline = 400;
    slot_read = refl;
    deadline_read = refl;
    in_time = omega arith;
    no_mismatch = λ _. pointer_agrees;
  };
  answer = refl;
}

verify_completion_complete_example :
    ((verify_completion platform config network pipeline_key 0 signature result
        (codes "https://x")
        start).0
      ≡ ok (accepted platform config network node))
    × (true ≡ true)
verify_completion_complete_example =
    verify_completion_complete platform config network pipeline_key 0 signature result
      (codes "https://x") start (accepted platform config network node) acceptance

delivery_hash_mismatch_iff_example :
    ((b : Bool) × ((delivery_hash_mismatch platform config network
          (codes "https://x")
          result
          start).0
        ≡ ok b))
    × (((delivery_hash_mismatch platform config network (codes "https://x") result start).0
          ≡ ok true)
        ↔ IsDisproved platform config network (codes "https://x") result start)
delivery_hash_mismatch_iff_example =
    delivery_hash_mismatch_iff platform config network (codes "https://x") result start
      platform-DigestLaw (ground arith)
