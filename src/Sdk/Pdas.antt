-- ===== src/Sdk/Pdas.antt =====
-- sdk/src/pdas.ts: the derived addresses. (dashboard/lib/sdk.ts holds the same functions again.)
use chainpipe.Base.{ℕ, zero, suc, ◌/◌, ◌%◌, ◌^◌, [], ◌∷◌, ltb, if◌then◌else◌}
use chainpipe.Base.Results.{Result, ok, throws}
use chainpipe.Base.Text.{Bytes, codes}
use chainpipe.Sdk.Platform.{Platform, PublicKey}
use chainpipe.Sdk.Accounts.{Addresses}

-- k bytes of a number, the lowest first.
abbrev pub le_bytes : ℕ → ℕ → Bytes
le_bytes zero n = []
le_bytes (suc k) n = (n % 256) ∷ le_bytes k (n / 256)

-- `writeBigUInt64LE`, which refuses a number of more than 64 bits.
unfoldable pub write_big_uint64_le : ℕ → Result Bytes
write_big_uint64_le nonce =
    if ltb nonce (2 ^ 64) then ok (le_bytes 8 nonce) else throws "ERR_OUT_OF_RANGE"

module _ (pf : Platform) (a : Addresses) where
  open pf use {find_program_address, associated_token_address}
  open a use {bonded_registry, dag_escrow, reputation_bridge}

  abbrev pub registry_config_pda : PublicKey
  registry_config_pda = find_program_address (codes "config" ∷ []) bonded_registry

  abbrev pub agent_stake_pda : PublicKey → PublicKey
  agent_stake_pda agent = find_program_address (codes "agent_stake" ∷ agent ∷ []) bonded_registry

  abbrev pub bridge_config_pda : PublicKey
  bridge_config_pda = find_program_address (codes "bridge_config" ∷ []) reputation_bridge

  abbrev pub reputation_pda : PublicKey → PublicKey
  reputation_pda agent = find_program_address (codes "reputation" ∷ agent ∷ []) reputation_bridge

  abbrev pub job_record_pda : Bytes → PublicKey
  job_record_pda job_id = find_program_address (codes "job_record" ∷ job_id ∷ []) reputation_bridge

  abbrev pub pipeline_config_pda : PublicKey
  pipeline_config_pda = find_program_address (codes "pipeline_config" ∷ []) dag_escrow

  abbrev pub dag_authority_pda : PublicKey
  dag_authority_pda = find_program_address (codes "dag_authority" ∷ []) dag_escrow

  unfoldable pub pipeline_pda : PublicKey → ℕ → Result PublicKey
  unfolding write_big_uint64_le
  pipeline_pda consumer nonce = elim (write_big_uint64_le nonce) [
    | ok nonce_buf ↦
        ok (find_program_address (codes "pipeline" ∷ consumer ∷ nonce_buf ∷ []) dag_escrow)
    | throws e ↦ throws e
  ]

  -- `Buffer.from([index])` keeps the low eight bits.
  abbrev pub node_pda : PublicKey → ℕ → PublicKey
  node_pda pipeline index =
      find_program_address (codes "node" ∷ pipeline ∷ ((index % 256) ∷ []) ∷ []) dag_escrow

  abbrev pub settlement_pda : PublicKey → PublicKey
  settlement_pda node = find_program_address (codes "settlement" ∷ node ∷ []) dag_escrow

  abbrev pub vault_ata : PublicKey → PublicKey → PublicKey
  vault_ata mint owner_pda = associated_token_address mint owner_pda
