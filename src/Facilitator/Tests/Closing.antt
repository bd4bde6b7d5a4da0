-- ===== src/Facilitator/Tests/Closing.antt =====
-- The theorems on expiry, finalization and disputes applied to a late and to a submitted node.
use chainpipe.Base.{◌≡◌, refl, true, [], none, some, arith}
use chainpipe.Base.Results.{ok}
use chainpipe.Samples.{platform, config, pipeline_key, node, network, start}
use chainpipe.Sdk.Client.Reads.{get_pipeline}
use chainpipe.Sdk.Network.{Network}
use chainpipe.Sdk.Accounts.{PipelineNode, submitted}
use chainpipe.Sdk.Client.Sends.{finalize_node}
use chainpipe.Facilitator.Verifier.{verify_expirable}
use chainpipe.Facilitator.Verifier.Overdue.{IsOverdue, verify_expirable_sound}
use chainpipe.Facilitator.Server.Close.{CloseBody, expire, finalize, resolve}
use chainpipe.Facilitator.Server.Laws.Closed.{
  IsFinalized, expire_refused, finalize_refused, finalize_settles,
}

-- The same chain after the deadline, and with the node submitted.
abbrev late_network : Network
late_network = record network { slot = λ t. ok 500 }

abbrev submitted_network : Network
submitted_network = record network {
  node = λ t key. ok (some (record node { status = submitted }));
}

expirable :
    (verify_expirable platform config late_network pipeline_key 0 start).0
    ≡ ok (record { is_ok = true; reason = none; node = some node; agent = none; job_id = none })
unfolding verify_expirable get_pipeline
expirable = refl

verify_expirable_sound_example :
    (n : PipelineNode) × (some node ≡ some n)
    × IsOverdue platform config late_network pipeline_key 0 start n
verify_expirable_sound_example =
    verify_expirable_sound platform config late_network pipeline_key 0 start
      (record { is_ok = true; reason = none; node = some node; agent = none; job_id = none })
      expirable refl

abbrev close_body : CloseBody
close_body = record { pipeline_pda = some pipeline_key; node_index = some 0; upheld = some true }

early_status : (expire platform config network close_body [] start).0.status ≡ 400
unfolding expire verify_expirable get_pipeline
early_status = refl

expire_refused_example : (expire platform config network close_body [] start).2.sent ≡ []
expire_refused_example =
    expire_refused platform config network close_body [] start (ground (arith, early_status))
      (ground (arith, early_status))

unsubmitted_status : (finalize platform config network close_body [] start).0.status ≡ 400
unfolding finalize get_pipeline
unsubmitted_status = refl

finalize_refused_example : (finalize platform config network close_body [] start).2.sent ≡ []
finalize_refused_example =
    finalize_refused platform config network close_body [] start
      (ground (arith, unsubmitted_status)) (ground (arith, unsubmitted_status))

undisputed_status : (resolve platform config network close_body [] start).0.status ≡ 400
unfolding resolve get_pipeline
undisputed_status = refl

finalized_status : (finalize platform config submitted_network close_body [] start).0.status ≡ 200
unfolding finalize get_pipeline finalize_node
finalized_status = refl

finalize_settles_example :
    IsFinalized platform config submitted_network close_body start
      (finalize platform config submitted_network close_body [] start).2.sent
finalize_settles_example =
    finalize_settles platform config submitted_network close_body [] start finalized_status
