-- ===== src/Programs/Bridge/Calls.antt =====
-- The instructions of programs/reputation_bridge/src/lib.rs, one after another.
use chainpipe.Base.{ℕ, List, [], ◌∷◌}
use chainpipe.Base.Int.{ℤ}
use chainpipe.Base.Text.{Bytes}
use chainpipe.Base.Results.{Result, ok, throws, ◌>>=◌}
use chainpipe.Sdk.Platform.{PublicKey}
use chainpipe.Programs.Runtime.{Runtime}
use chainpipe.Programs.Bridge.{Bridge, record_completion, record_failure}
use chainpipe.Programs.Bridge.Operator.{BridgeOperatorCall, govern_bridge}

pub data BridgeCall : Type 0 where
  completion : PublicKey → Bytes → PublicKey → ℤ → ℕ → BridgeCall
  failure : PublicKey → Bytes → PublicKey → ℕ → BridgeCall
  managed : PublicKey → BridgeOperatorCall → BridgeCall

abbrev pub apply_record : Runtime → BridgeCall → Bridge → Result Bridge
apply_record rt (completion authority job_id agent delta slot) b =
    record_completion rt authority job_id agent delta slot b
apply_record rt (failure authority job_id agent slot) b =
    record_failure rt authority job_id agent slot b
apply_record rt (managed signer c) b =
    govern_bridge rt signer c b.config >>= λ config. ok (record b { config = config })

abbrev pub kept_bridge : Bridge → Result Bridge → Bridge
kept_bridge b (ok b') = b'
kept_bridge b (throws e) = b

abbrev pub run_records : Runtime → List BridgeCall → Bridge → Bridge
run_records rt [] b = b
run_records rt (c ∷ rest) b = run_records rt rest (kept_bridge b (apply_record rt c b))
