-- ===== src/Programs/Registry/Operator.antt =====
-- The instructions of the operator of programs/bonded_registry/src/lib.rs.
use chainpipe.Base.{ℕ, not, leb}
use chainpipe.Base.Results.{Result, ok, ◌>>◌}
use chainpipe.Base.Encodings.{text_eq}
use chainpipe.Sdk.Platform.{PublicKey}
use chainpipe.Programs.Runtime.{Runtime, require}
use chainpipe.Programs.Registry.{RegistryConfig}

-- Operator, slash share, cooldown, authority of dag_escrow.
unfoldable pub initialize_registry : Runtime → PublicKey → ℕ → ℕ → PublicKey → Result RegistryConfig
initialize_registry rt operator slash_bps cooldown_slots authority = do
  require (leb slash_bps 10_000) "InvalidSlashBps"
  ok (record {
    operator = operator;
    dag_escrow_authority = authority;
    slash_bps = slash_bps;
    cooldown_slots = cooldown_slots;
    max_slash_bps = 10_000;
    pending_operator = rt.default_key;
  })

pub data RegistryOperatorCall : Type 0 where
  set_registry_authority : PublicKey → RegistryOperatorCall
  set_max_slash_bps : ℕ → RegistryOperatorCall
  propose_registry_operator : PublicKey → RegistryOperatorCall
  accept_registry_operator : RegistryOperatorCall

-- The signer must be the operator of the account (`has_one`), or the proposed one.
unfoldable pub govern_registry :
    Runtime → PublicKey → RegistryOperatorCall → RegistryConfig → Result RegistryConfig
govern_registry rt signer (set_registry_authority new) c = do
  require (text_eq signer c.operator) "ConstraintHasOne"
  ok (record c { dag_escrow_authority = new })
govern_registry rt signer (set_max_slash_bps bps) c = do
  require (text_eq signer c.operator) "ConstraintHasOne"
  require (leb bps 10_000) "InvalidSlashBps"
  ok (record c { max_slash_bps = bps })
govern_registry rt signer (propose_registry_operator new) c = do
  require (text_eq signer c.operator) "ConstraintHasOne"
  ok (record c { pending_operator = new })
govern_registry rt signer accept_registry_operator c = do
  require (not (text_eq c.pending_operator rt.default_key)) "NoPendingOperator"
  require (text_eq signer c.pending_operator) "NotPendingOperator"
  ok (record c { operator = c.pending_operator; pending_operator = rt.default_key })
