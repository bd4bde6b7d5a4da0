-- ===== src/Facilitator/Tests/Parts.antt =====
-- The theorems on the replay guard, the score and the reading of results applied to concrete jobs.
use chainpipe.Base.{◌≡◌, ◌≢◌, ◌↔◌, ◌⊎◌, refl, true, false, [], ◌∷◌, some, arith, ◌≤◌}
use chainpipe.Base.Results.{ok}
use chainpipe.Base.Text.{codes}
use chainpipe.Base.Encodings.{to_hex}
use chainpipe.Samples.{platform, config, network, start, no_byte}
use chainpipe.Sdk.Accounts.{JobRecord}
use chainpipe.Sdk.Client.Reads.{get_job_record}
use chainpipe.Facilitator.Scorer.{score_delta, score_delta_bounds, score_delta_mono}
use chainpipe.Facilitator.Input.{decode_signature, into_hash_buffer}
use chainpipe.Facilitator.Input.Laws.{hex_result_lost}
use chainpipe.Facilitator.Replay.{is_replay, has_key}
use chainpipe.Facilitator.Replay.Laws.{is_replay_iff, is_replay_remembers}

new_job : (is_replay platform config.addresses network (5 ∷ []) [] start).0 ≡ ok false
unfolding is_replay to_hex
new_job = refl

is_replay_iff_example : (false ≡ true) ↔ (
    (has_key (to_hex (5 ∷ [])) [] ≡ true)
    ⊎ ((r : JobRecord) × ((get_job_record platform config.addresses network (5 ∷ []) start).0
          ≡ ok (some r))))
is_replay_iff_example =
    is_replay_iff platform config.addresses network (5 ∷ []) [] start false new_job

old_job :
    (is_replay platform config.addresses network (5 ∷ 6 ∷ []) (codes "0506" ∷ []) start).0 ≡ ok true
unfolding is_replay to_hex
old_job = refl

is_replay_remembers_example :
    is_replay platform config.addresses network
      (5 ∷ 6 ∷ [])
      (is_replay platform config.addresses network (5 ∷ 6 ∷ []) (codes "0506" ∷ []) start).1
      start
    ≡ (
      ok true,
      (is_replay platform config.addresses network (5 ∷ 6 ∷ []) (codes "0506" ∷ []) start).1,
      start,
    )
is_replay_remembers_example =
    is_replay_remembers platform config.addresses network (5 ∷ 6 ∷ []) (codes "0506" ∷ []) start
      old_job start

score_delta_bounds_example : (200 ≤ score_delta 100 400) × (score_delta 100 400 ≤ 1000)
score_delta_bounds_example = score_delta_bounds 100 400

score_delta_mono_example : score_delta 150 300 ≤ score_delta 100 400
score_delta_mono_example = score_delta_mono 100 150 400 300 (omega arith) (omega arith)

hex_result_lost_example :
    into_hash_buffer (decode_signature no_byte (to_hex (171 ∷ 205 ∷ []))) ≢ 171 ∷ 205 ∷ []
hex_result_lost_example = hex_result_lost no_byte 171 205 [] (ground arith)
