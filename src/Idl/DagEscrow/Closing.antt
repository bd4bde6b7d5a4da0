-- ===== src/Idl/DagEscrow/Closing.antt =====
-- sdk/src/idl/dag_escrow.ts: disputes, expiry and cancellation.
use chainpipe.Base.{true, false, [], ◌∷◌, none, some}
use chainpipe.Base.Text.{codes}
use chainpipe.Idl.Schema.{
  u8, bool_type, byte_array, const_seed, account_seed, Instruction, plain, fixed, fixed_optional,
  signer, optional, derived, token_program, associated_token_program,
}

abbrev pub dispute_node : Instruction
dispute_node = record {
  program = "3FqvkzppD4ciwkGLrcNoTHUCeHwNbWtot18CkrBdXiJd";
  name = "disputeNode";
  discriminator = 109 ∷ 31 ∷ 184 ∷ 48 ∷ 169 ∷ 52 ∷ 45 ∷ 236 ∷ [];
  accounts =
      plain "pipeline" false
      ∷ plain "node" true
      ∷ derived "settlement" true (record {
        seeds = const_seed (codes "settlement") ∷ account_seed "node" ∷ [];
        program = none;
      })
      ∷ signer "consumer" false
      ∷ [];
  args = ("nodeIndex", u8) ∷ ("reasonHash", byte_array 32) ∷ ("reasonCode", u8) ∷ [];
}

abbrev pub finalize_node : Instruction
finalize_node = record {
  program = "3FqvkzppD4ciwkGLrcNoTHUCeHwNbWtot18CkrBdXiJd";
  name = "finalizeNode";
  discriminator = 124 ∷ 145 ∷ 166 ∷ 100 ∷ 42 ∷ 92 ∷ 177 ∷ 180 ∷ [];
  accounts =
      derived "pipelineConfig" false
        (record { seeds = const_seed (codes "pipeline_config") ∷ []; program = none })
      ∷ plain "pipeline" true
      ∷ plain "node" true
      ∷ derived "settlement" true (record {
        seeds = const_seed (codes "settlement") ∷ account_seed "node" ∷ [];
        program = none;
      })
      ∷ signer "caller" true
      ∷ derived "vault" true (record {
        seeds = account_seed "pipeline" ∷ const_seed token_program ∷ account_seed "stakeMint" ∷ [];
        program = some associated_token_program;
      })
      ∷ plain "stakeMint" false
      ∷ plain "agent" false
      ∷ plain "agentTokenAccount" true
      ∷ plain "operatorTreasury" true
      ∷ derived "dagAuthority" false
          (record { seeds = const_seed (codes "dag_authority") ∷ []; program = none })
      ∷ plain "registryConfig" true
      ∷ plain "agentStake" true
      ∷ fixed "bondedRegistryProgram" "26AB6S5crQAkhfx928bnWSHfpQE6wp2Sdt4afFtk7crq"
      ∷ plain "bridgeConfig" true
      ∷ plain "agentReputation" true
      ∷ plain "jobRecord" true
      ∷ fixed "reputationBridgeProgram" "6RRfs1Ho1bJ3JWXSy3xVth4BTGHWwVwum74ph2LRWWsf"
      ∷ fixed "tokenProgram" "TokenkegQfeZyiNwAJbNbGKPFXCWuBvf9Ss623VQ5DA"
      ∷ fixed "systemProgram" "11111111111111111111111111111111"
      ∷ [];
  args = ("nodeIndex", u8) ∷ [];
}

abbrev pub resolve_dispute : Instruction
resolve_dispute = record {
  program = "3FqvkzppD4ciwkGLrcNoTHUCeHwNbWtot18CkrBdXiJd";
  name = "resolveDispute";
  discriminator = 231 ∷ 6 ∷ 202 ∷ 6 ∷ 96 ∷ 103 ∷ 12 ∷ 230 ∷ [];
  accounts =
      derived "pipelineConfig" false
        (record { seeds = const_seed (codes "pipeline_config") ∷ []; program = none })
      ∷ plain "pipeline" true
      ∷ plain "node" true
      ∷ derived "settlement" true (record {
        seeds = const_seed (codes "settlement") ∷ account_seed "node" ∷ [];
        program = none;
      })
      ∷ signer "facilitator" true
      ∷ derived "vault" true (record {
        seeds = account_seed "pipeline" ∷ const_seed token_program ∷ account_seed "stakeMint" ∷ [];
        program = some associated_token_program;
      })
      ∷ plain "stakeMint" false
      ∷ plain "agent" false
      ∷ plain "agentTokenAccount" true
      ∷ plain "operatorTreasury" true
      ∷ plain "consumerTokenAccount" true
      ∷ derived "dagAuthority" false
          (record { seeds = const_seed (codes "dag_authority") ∷ []; program = none })
      ∷ plain "registryConfig" true
      ∷ plain "agentStake" true
      ∷ plain "agentStakeVault" true
      ∷ fixed "bondedRegistryProgram" "26AB6S5crQAkhfx928bnWSHfpQE6wp2Sdt4afFtk7crq"
      ∷ plain "bridgeConfig" true
      ∷ plain "agentReputation" true
      ∷ plain "jobRecord" true
      ∷ fixed "reputationBridgeProgram" "6RRfs1Ho1bJ3JWXSy3xVth4BTGHWwVwum74ph2LRWWsf"
      ∷ fixed "tokenProgram" "TokenkegQfeZyiNwAJbNbGKPFXCWuBvf9Ss623VQ5DA"
      ∷ fixed "systemProgram" "11111111111111111111111111111111"
      ∷ [];
  args = ("nodeIndex", u8) ∷ ("upheld", bool_type) ∷ [];
}

abbrev pub expire_node : Instruction
expire_node = record {
  program = "3FqvkzppD4ciwkGLrcNoTHUCeHwNbWtot18CkrBdXiJd";
  name = "expireNode";
  discriminator = 78 ∷ 77 ∷ 194 ∷ 111 ∷ 100 ∷ 41 ∷ 18 ∷ 81 ∷ [];
  accounts =
      derived "pipelineConfig" false
        (record { seeds = const_seed (codes "pipeline_config") ∷ []; program = none })
      ∷ plain "pipeline" true
      ∷ plain "node" true
      ∷ derived "vault" true (record {
        seeds = account_seed "pipeline" ∷ const_seed token_program ∷ account_seed "stakeMint" ∷ [];
        program = some associated_token_program;
      })
      ∷ plain "stakeMint" false
      ∷ plain "consumerTokenAccount" true
      ∷ signer "caller" true
      ∷ derived "dagAuthority" false
          (record { seeds = const_seed (codes "dag_authority") ∷ []; program = none })
      ∷ optional "registryConfig" true
      ∷ optional "agentStake" true
      ∷ optional "agentStakeVault" true
      ∷ fixed_optional "bondedRegistryProgram" "26AB6S5crQAkhfx928bnWSHfpQE6wp2Sdt4afFtk7crq"
      ∷ optional "bridgeConfig" true
      ∷ optional "agentReputation" true
      ∷ optional "jobRecord" true
      ∷ optional "agent" false
      ∷ fixed_optional "reputationBridgeProgram" "6RRfs1Ho1bJ3JWXSy3xVth4BTGHWwVwum74ph2LRWWsf"
      ∷ fixed "tokenProgram" "TokenkegQfeZyiNwAJbNbGKPFXCWuBvf9Ss623VQ5DA"
      ∷ fixed "systemProgram" "11111111111111111111111111111111"
      ∷ [];
  args = ("nodeIndex", u8) ∷ [];
}

abbrev pub cancel_pipeline : Instruction
cancel_pipeline = record {
  program = "3FqvkzppD4ciwkGLrcNoTHUCeHwNbWtot18CkrBdXiJd";
  name = "cancelPipeline";
  discriminator = 183 ∷ 254 ∷ 33 ∷ 72 ∷ 36 ∷ 118 ∷ 101 ∷ 58 ∷ [];
  accounts =
      plain "pipeline" true
      ∷ signer "consumer" true
      ∷ plain "stakeMint" false
      ∷ derived "vault" true (record {
        seeds = account_seed "pipeline" ∷ const_seed token_program ∷ account_seed "stakeMint" ∷ [];
        program = some associated_token_program;
      })
      ∷ derived "consumerTokenAccount" true (record {
        seeds = account_seed "consumer" ∷ const_seed token_program ∷ account_seed "stakeMint" ∷ [];
        program = some associated_token_program;
      })
      ∷ fixed "tokenProgram" "TokenkegQfeZyiNwAJbNbGKPFXCWuBvf9Ss623VQ5DA"
      ∷ [];
  args = [];
}
