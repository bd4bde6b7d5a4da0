-- ===== src/Programs/Bridge/Laws.antt =====
-- Scores stay in range and a job is recorded once, in programs/reputation_bridge/src/lib.rs.
use chainpipe.Base.{
  ℕ, ◌≤◌, ◌≡◌, refl, sym, subst, ap, ◌∙◌, List, [], ◌∷◌, some, inl, inr, arith, Bool-cases,
}
use chainpipe.Base.Int.{ℤ, pos, negsuc}
use chainpipe.Base.Maps.{lookup-write}
use chainpipe.Base.Results.{ok, Result-cases, ok-injective}
use chainpipe.Base.Text.{Bytes}
use chainpipe.Base.Encodings.{text_eq, text_eq_refl}
use chainpipe.Sdk.Platform.{PublicKey}
use chainpipe.Sdk.Accounts.{AgentReputation, JobRecord, JobOutcome, job_settled, job_failed}
use chainpipe.Programs.Runtime.{Runtime, require-holds, find, put, absent}
use chainpipe.Programs.Bridge.{
  Bridge, apply_ema, adjustment, clamped, record_outcome, init_rep_if_new, failure_delta,
  job_record, updated, opened_reputation,
}
use chainpipe.Programs.Bridge.Calls.{
  BridgeCall, completion, failure, apply_record, run_records, kept_bridge, managed,
}
use chainpipe.Base.Results.{returned}
use chainpipe.Programs.Bridge.Operator.{govern_bridge}

-- Every score is at most EMA_MAX, and every job that is recorded belongs to an agent with a score.
pub record IsScored (b : Bridge) : Type 0 where
  pub bounded :
      (agent : PublicKey) (rep : AgentReputation)
      → find agent b.reputations ≡ some rep
      → rep.ema_score ≤ 10_000
  pub known :
      (job_id : Bytes) (job : JobRecord)
      → find job_id b.job_records ≡ some job
      → (rep : AgentReputation) × (find job.agent b.reputations ≡ some rep)

clamped_bound : (old : ℕ) (adj : ℤ) → clamped old adj ≤ 10_000
clamped_bound old (pos a) = omega arith
clamped_bound old (negsuc a) = omega arith

apply_ema_bound : (old : ℕ) (delta : ℤ) (alpha_bps : ℕ) → apply_ema old delta alpha_bps ≤ 10_000
unfolding apply_ema
apply_ema_bound old delta alpha_bps = clamped_bound old (adjustment delta alpha_bps)

module _ (rt : Runtime) where
  updated_bound :
      (job_id : Bytes) (agent : PublicKey) (outcome : JobOutcome) (delta : ℤ) (alpha_bps slot : ℕ)
      (rep : AgentReputation)
      → (updated rt job_id agent outcome delta alpha_bps slot rep).ema_score ≤ 10_000
  updated_bound job_id agent job_settled delta alpha_bps slot rep =
      apply_ema_bound (init_rep_if_new rt agent rep).ema_score delta alpha_bps
  updated_bound job_id agent job_failed delta alpha_bps slot rep =
      apply_ema_bound (init_rep_if_new rt agent rep).ema_score delta alpha_bps

  -- Writing a bounded score and a job of that agent.
  written-IsScored :
      (job_id : Bytes) (agent : PublicKey) (rep : AgentReputation) (job : JobRecord) (b : Bridge)
      → rep.ema_score ≤ 10_000
      → job.agent ≡ agent
      → IsScored b
      → IsScored (record b {
        reputations = put agent rep b.reputations;
        job_records = put job_id job b.job_records;
      })
  written-IsScored job_id agent rep job b low owner h = record {
    bounded = λ a x e. elim (Bool-cases (text_eq agent a)) [
      | inl same ↦ ground (arith, lookup-write a agent rep b.reputations, same, e, low)
      | inr other ↦ h.bounded a x (ground (arith, lookup-write a agent rep b.reputations, other, e))
    ];
    known = λ j x e. elim (Bool-cases (text_eq job_id j)) [
      | inl same ↦
          let here : job ≡ x = ground (arith, lookup-write j job_id job b.job_records, same, e) in
          subst (λ y. (r : AgentReputation) × (find y (put agent rep b.reputations) ≡ some r))
            (sym owner ∙ ap (λ (y : JobRecord). y.agent) here)
            (rep, ground (arith, lookup-write agent agent rep b.reputations, text_eq_refl agent))
      | inr other ↦
          let (old, there) =
            h.known j x (ground (arith, lookup-write j job_id job b.job_records, other, e)) in
          elim (Bool-cases (text_eq agent x.agent)) [
            | inl same ↦ (rep, ground (arith, lookup-write x.agent agent rep b.reputations, same))
            | inr apart ↦
                (old, ground (arith, lookup-write x.agent agent rep b.reputations, apart, there))
          ]
    ];
  }

  record_outcome-IsScored :
      (authority : PublicKey) (job_id : Bytes) (agent : PublicKey) (outcome : JobOutcome)
      (delta : ℤ) (slot : ℕ) (b b' : Bridge)
      → IsScored b
      → record_outcome rt authority job_id agent outcome delta slot b ≡ ok b'
      → IsScored b'
  unfolding record_outcome
  record_outcome-IsScored authority job_id agent outcome delta slot b b' h e =
      let (new, e1) = require-holds (absent (find job_id b.job_records)) "already in use" _ b' e in
      let (allowed, e2) =
        require-holds (text_eq authority b.config.dag_escrow_authority) "UnauthorizedCaller" _ b'
          e1 in
      let old = opened_reputation rt (find agent b.reputations) in
      subst IsScored (ok-injective e2) (
        written-IsScored job_id agent
          (updated rt job_id agent outcome delta b.config.ema_alpha_bps slot old)
          (job_record job_id agent outcome delta slot) b
          (updated_bound job_id agent outcome delta b.config.ema_alpha_bps slot old) refl h)

  apply_record-IsScored :
      (c : BridgeCall) (b b' : Bridge) → IsScored b → apply_record rt c b ≡ ok b' → IsScored b'
  apply_record-IsScored (completion authority job_id agent delta slot) b b' h e =
      record_outcome-IsScored authority job_id agent job_settled delta slot b b' h e
  apply_record-IsScored (failure authority job_id agent slot) b b' h e =
      record_outcome-IsScored authority job_id agent job_failed failure_delta slot b b' h e
  apply_record-IsScored (managed signer c) b b' h e =
      let (config, did, e1) = returned (govern_bridge rt signer c b.config) _ b' e in
      subst IsScored (ok-injective e1) (record { bounded = h.bounded; known = h.known })

  -- If every score is at most 10000 and every recorded job belongs to an agent with a score, then
  -- this is so after any sequence of reputation_bridge transactions, failed ones included.
  pub run_records-IsScored :
      (calls : List BridgeCall) (b : Bridge) → IsScored b → IsScored (run_records rt calls b)
  run_records-IsScored [] b h = h
  run_records-IsScored (c ∷ calls) b h = elim (Result-cases (apply_record rt c b)) [
    | inl (b', did) ↦
        subst (λ x. IsScored (run_records rt calls (kept_bridge b x))) (sym did)
          (run_records-IsScored calls b' (apply_record-IsScored c b b' h did))
    | inr (e, failed) ↦
        subst (λ x. IsScored (run_records rt calls (kept_bridge b x))) (sym failed)
          (run_records-IsScored calls b h)
  ]
