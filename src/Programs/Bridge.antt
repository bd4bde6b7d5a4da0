-- ===== src/Programs/Bridge.antt =====
-- programs/reputation_bridge/src/lib.rs: the outcomes of jobs and the scores of agents. The bumps and
-- the events are left out.
pub mod Operator
pub mod Calls
pub mod Laws
pub mod Once
use chainpipe.Base.{
  ℕ, zero, suc, ◌+◌, ◌-◌, ◌*◌, ◌/◌, ◌^◌, List, [], ◌∷◌, Option, none, some, min, Bool,
  if◌then◌else◌,
}
use chainpipe.Base.Int.{ℤ, pos, negsuc}
use chainpipe.Base.Results.{Result, ok, throws, ◌>>=◌, ◌>>◌}
use chainpipe.Base.Text.{Bytes}
use chainpipe.Base.Encodings.{text_eq}
use chainpipe.Sdk.Platform.{PublicKey}
use chainpipe.Sdk.Accounts.{AgentReputation, JobRecord, JobOutcome, job_settled, job_failed}
use chainpipe.Programs.Runtime.{Runtime, require, saturating_add, find, put, absent}

abbrev pub initial_ema : ℕ
initial_ema = 5_000

abbrev pub ema_max : ℕ
ema_max = 10_000

-- -5000
abbrev pub failure_delta : ℤ
failure_delta = negsuc 4_999

-- -n
abbrev pub negated : ℕ → ℤ
negated zero = pos 0
negated (suc n) = negsuc n

-- `delta * alpha_bps / 10_000`, which rounds towards zero.
abbrev pub adjustment : ℤ → ℕ → ℤ
adjustment (pos d) alpha_bps = pos (d * alpha_bps / 10_000)
adjustment (negsuc d) alpha_bps = negated (suc d * alpha_bps / 10_000)

-- `(old as i64 + adj).clamp(0, EMA_MAX)`
abbrev pub clamped : ℕ → ℤ → ℕ
clamped old (pos a) = min (old + a) ema_max
clamped old (negsuc a) = min (old - suc a) ema_max

unfoldable pub apply_ema : ℕ → ℤ → ℕ → ℕ
apply_ema old delta alpha_bps = clamped old (adjustment delta alpha_bps)

pub record BridgeConfig : Type 0 where
  pub operator : PublicKey
  pub dag_escrow_program : PublicKey
  pub dag_escrow_authority : PublicKey
  pub ema_alpha_bps : ℕ
  pub pending_operator : PublicKey

pub record Bridge : Type 0 where
  pub config : BridgeConfig
  pub reputations : List (PublicKey × AgentReputation)
  -- By job id, the seed of their address.
  pub job_records : List (Bytes × JobRecord)

-- The account as `init_if_needed` leaves it: zeroed, if it was not there.
abbrev pub opened_reputation : Runtime → Option AgentReputation → AgentReputation
opened_reputation rt none = record {
  agent = rt.default_key;
  ema_score = 0;
  total_settled = 0;
  total_failed = 0;
  last_job_id = [];
  last_updated_slot = 0;
  bump = 0;
}
opened_reputation rt (some rep) = rep

abbrev pub init_rep_if_new : Runtime → PublicKey → AgentReputation → AgentReputation
init_rep_if_new rt agent rep =
    if text_eq rep.agent rt.default_key
    then record rep { agent = agent; ema_score = initial_ema; total_settled = 0; total_failed = 0 }
    else rep

abbrev pub scored : JobOutcome → ℕ → AgentReputation → AgentReputation
scored job_settled score rep = record rep {
  ema_score = score;
  total_settled = saturating_add (2 ^ 32 - 1) rep.total_settled 1;
}
scored job_failed score rep = record rep {
  ema_score = score;
  total_failed = saturating_add (2 ^ 32 - 1) rep.total_failed 1;
}

abbrev pub updated :
    Runtime → Bytes → PublicKey → JobOutcome → ℤ → ℕ → ℕ → AgentReputation → AgentReputation
updated rt job_id agent outcome delta alpha_bps slot rep =
    let rep' = init_rep_if_new rt agent rep in
    record (scored outcome (apply_ema rep'.ema_score delta alpha_bps) rep') {
      last_job_id = job_id;
      last_updated_slot = slot;
    }

abbrev pub job_record : Bytes → PublicKey → JobOutcome → ℤ → ℕ → JobRecord
job_record job_id agent outcome delta slot = record {
  job_id = job_id;
  agent = agent;
  outcome = outcome;
  score_delta = delta;
  recorded_at_slot = slot;
  bump = 0;
}

-- What both instructions do: the job record is made by them (`init`) and so must be new, the caller
-- must be the authority (`gate`).
unfoldable pub record_outcome :
    Runtime → PublicKey → Bytes → PublicKey → JobOutcome → ℤ → ℕ → Bridge → Result Bridge
record_outcome rt authority job_id agent outcome delta slot b = do
  require (absent (find job_id b.job_records)) "already in use"
  require (text_eq authority b.config.dag_escrow_authority) "UnauthorizedCaller"
  ok (record b {
    reputations =
        put agent
          (updated rt job_id agent outcome delta b.config.ema_alpha_bps slot
            (opened_reputation rt (find agent b.reputations)))
          b.reputations;
    job_records = put job_id (job_record job_id agent outcome delta slot) b.job_records;
  })

-- Authority, job, agent, score delta, slot.
abbrev pub record_completion :
    Runtime → PublicKey → Bytes → PublicKey → ℤ → ℕ → Bridge → Result Bridge
record_completion rt authority job_id agent delta slot b =
    record_outcome rt authority job_id agent job_settled delta slot b

abbrev pub record_failure : Runtime → PublicKey → Bytes → PublicKey → ℕ → Bridge → Result Bridge
record_failure rt authority job_id agent slot b =
    record_outcome rt authority job_id agent job_failed failure_delta slot b
