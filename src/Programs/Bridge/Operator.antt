-- ===== src/Programs/Bridge/Operator.antt =====
-- The instructions of the operator of programs/reputation_bridge/src/lib.rs.
use chainpipe.Base.{ℕ, not, leb}
use chainpipe.Base.Results.{Result, ok, ◌>>◌}
use chainpipe.Base.Encodings.{text_eq}
use chainpipe.Sdk.Platform.{PublicKey}
use chainpipe.Programs.Runtime.{Runtime, require}
use chainpipe.Programs.Bridge.{BridgeConfig}

-- Operator, program and authority of dag_escrow, weight of a score.
unfoldable pub initialize_bridge :
    Runtime → PublicKey → PublicKey → PublicKey → ℕ → Result BridgeConfig
initialize_bridge rt operator program authority ema_alpha_bps = do
  require (leb ema_alpha_bps 10_000) "InvalidAlpha"
  ok (record {
    operator = operator;
    dag_escrow_program = program;
    dag_escrow_authority = authority;
    ema_alpha_bps = ema_alpha_bps;
    pending_operator = rt.default_key;
  })

pub data BridgeOperatorCall : Type 0 where
  set_bridge_authority : PublicKey → BridgeOperatorCall
  propose_bridge_operator : PublicKey → BridgeOperatorCall
  accept_bridge_operator : BridgeOperatorCall

-- The signer must be the operator of the account (`has_one`), or the proposed one.
unfoldable pub govern_bridge :
    Runtime → PublicKey → BridgeOperatorCall → BridgeConfig → Result BridgeConfig
govern_bridge rt signer (set_bridge_authority new) c = do
  require (text_eq signer c.operator) "ConstraintHasOne"
  ok (record c { dag_escrow_authority = new })
govern_bridge rt signer (propose_bridge_operator new) c = do
  require (text_eq signer c.operator) "ConstraintHasOne"
  ok (record c { pending_operator = new })
govern_bridge rt signer accept_bridge_operator c = do
  require (not (text_eq c.pending_operator rt.default_key)) "NoPendingOperator"
  require (text_eq signer c.pending_operator) "NotPendingOperator"
  ok (record c { operator = c.pending_operator; pending_operator = rt.default_key })
