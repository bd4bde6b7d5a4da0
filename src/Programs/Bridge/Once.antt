-- ===== src/Programs/Bridge/Once.antt =====
-- A job has one outcome for ever, in programs/reputation_bridge/src/lib.rs.
use chainpipe.Base.{
  ℕ, ◌≡◌, sym, ap, subst, ◌∙◌, true, List, [], ◌∷◌, some, inl, inr, arith, Bool-cases,
}
use chainpipe.Base.Int.{ℤ}
use chainpipe.Base.Maps.{lookup-write}
use chainpipe.Base.Results.{ok, Result-cases, ok-injective}
use chainpipe.Base.Text.{Bytes}
use chainpipe.Base.Encodings.{text_eq, text_eq_sound}
use chainpipe.Sdk.Platform.{PublicKey}
use chainpipe.Sdk.Accounts.{JobRecord, JobOutcome, job_settled, job_failed}
use chainpipe.Programs.Runtime.{Runtime, require-holds, find, put, absent}
use chainpipe.Programs.Bridge.{Bridge, record_outcome, failure_delta, job_record}
use chainpipe.Programs.Bridge.Calls.{
  BridgeCall, completion, failure, apply_record, run_records, kept_bridge, managed,
}
use chainpipe.Programs.Bridge.Operator.{govern_bridge}
use chainpipe.Base.Results.{returned}

module _ (rt : Runtime) where
  -- An outcome leaves the records of other jobs alone, and there was none of its own.
  record_outcome_lem :
      (authority : PublicKey) (job_id : Bytes) (agent : PublicKey) (outcome : JobOutcome)
      (delta : ℤ) (slot : ℕ) (b b' : Bridge)
      → record_outcome rt authority job_id agent outcome delta slot b ≡ ok b'
      → (absent (find job_id b.job_records) ≡ true)
        × (b'.job_records ≡ put job_id (job_record job_id agent outcome delta slot) b.job_records)
  unfolding record_outcome
  record_outcome_lem authority job_id agent outcome delta slot b b' e =
      let (new, e1) = require-holds (absent (find job_id b.job_records)) "already in use" _ b' e in
      let (allowed, e2) =
        require-holds (text_eq authority b.config.dag_escrow_authority) "UnauthorizedCaller" _ b'
          e1 in
      (new, sym (ap (λ (x : Bridge). x.job_records) (ok-injective e2)))

  record_outcome_keeps :
      (authority : PublicKey) (job_id : Bytes) (agent : PublicKey) (outcome : JobOutcome)
      (delta : ℤ) (slot : ℕ) (b b' : Bridge) (j : Bytes) (job : JobRecord)
      → record_outcome rt authority job_id agent outcome delta slot b ≡ ok b'
      → find j b.job_records ≡ some job
      → find j b'.job_records ≡ some job
  record_outcome_keeps authority job_id agent outcome delta slot b b' j job e there =
      let (new, written) = record_outcome_lem authority job_id agent outcome delta slot b b' e in
      elim (Bool-cases (text_eq job_id j)) [
        | inl same ↦ ground (arith, new, there, text_eq_sound job_id j same)
        | inr other ↦
            ap (find j) written
            ∙ ground (
              arith,
              lookup-write j job_id (job_record job_id agent outcome delta slot) b.job_records,
              other,
              there,
            )
      ]

  apply_record_keeps :
      (c : BridgeCall) (b b' : Bridge) (j : Bytes) (job : JobRecord)
      → apply_record rt c b ≡ ok b'
      → find j b.job_records ≡ some job
      → find j b'.job_records ≡ some job
  apply_record_keeps (completion authority job_id agent delta slot) b b' j job e there =
      record_outcome_keeps authority job_id agent job_settled delta slot b b' j job e there
  apply_record_keeps (failure authority job_id agent slot) b b' j job e there =
      record_outcome_keeps authority job_id agent job_failed failure_delta slot b b' j job e there
  apply_record_keeps (managed signer c) b b' j job e there =
      let (config, did, e1) = returned (govern_bridge rt signer c b.config) _ b' e in
      subst (λ (x : Bridge). find j x.job_records ≡ some job) (ok-injective e1) there

  -- Once an outcome of a job is recorded, no later sequence of reputation_bridge transactions
  -- changes or removes the record of that job.
  pub run_records_keeps :
      (calls : List BridgeCall) (b : Bridge) (j : Bytes) (job : JobRecord)
      → find j b.job_records ≡ some job
      → find j (run_records rt calls b).job_records ≡ some job
  run_records_keeps [] b j job there = there
  run_records_keeps (c ∷ calls) b j job there = elim (Result-cases (apply_record rt c b)) [
    | inl (b', did) ↦
        subst (λ x. find j (run_records rt calls (kept_bridge b x)).job_records ≡ some job)
          (sym did) (run_records_keeps calls b' j job (apply_record_keeps c b b' j job did there))
    | inr (e, failed) ↦
        subst (λ x. find j (run_records rt calls (kept_bridge b x)).job_records ≡ some job)
          (sym failed) (run_records_keeps calls b j job there)
  ]
