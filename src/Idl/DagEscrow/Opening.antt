-- ===== src/Idl/DagEscrow/Opening.antt =====
-- sdk/src/idl/dag_escrow.ts: from a pipeline's creation to the completion of a node.
use chainpipe.Base.{true, false, [], ◌∷◌, none, some}
use chainpipe.Base.Text.{codes}
use chainpipe.Idl.Schema.{
  u8, u64, i16, byte_array, vec_defined, const_seed, account_seed, arg_seed, Instruction, plain,
  fixed, signer, derived, token_program, associated_token_program,
}

abbrev pub create_pipeline : Instruction
create_pipeline = record {
  program = "3FqvkzppD4ciwkGLrcNoTHUCeHwNbWtot18CkrBdXiJd";
  name = "createPipeline";
  discriminator = 2 ∷ 163 ∷ 168 ∷ 112 ∷ 105 ∷ 112 ∷ 10 ∷ 96 ∷ [];
  accounts =
      derived "pipelineConfig" false
        (record { seeds = const_seed (codes "pipeline_config") ∷ []; program = none })
      ∷ derived "pipeline" true (record {
        seeds = const_seed (codes "pipeline") ∷ account_seed "consumer" ∷ arg_seed "nonce" ∷ [];
        program = none;
      })
      ∷ signer "consumer" true
      ∷ plain "stakeMint" false
      ∷ derived "consumerTokenAccount" true (record {
        seeds = account_seed "consumer" ∷ const_seed token_program ∷ account_seed "stakeMint" ∷ [];
        program = some associated_token_program;
      })
      ∷ derived "vault" true (record {
        seeds = account_seed "pipeline" ∷ const_seed token_program ∷ account_seed "stakeMint" ∷ [];
        program = some associated_token_program;
      })
      ∷ fixed "tokenProgram" "TokenkegQfeZyiNwAJbNbGKPFXCWuBvf9Ss623VQ5DA"
      ∷ fixed "associatedTokenProgram" "ATokenGPvbdGVxr1b2hvZbsiqW5xWH25efTNsLJA8knL"
      ∷ fixed "systemProgram" "11111111111111111111111111111111"
      ∷ [];
  args = ("nodeConfigs", vec_defined "nodeConfig") ∷ ("nonce", u64) ∷ [];
}

abbrev pub claim_node : Instruction
claim_node = record {
  program = "3FqvkzppD4ciwkGLrcNoTHUCeHwNbWtot18CkrBdXiJd";
  name = "claimNode";
  discriminator = 174 ∷ 6 ∷ 2 ∷ 112 ∷ 101 ∷ 127 ∷ 211 ∷ 53 ∷ [];
  accounts =
      derived "pipelineConfig" false
        (record { seeds = const_seed (codes "pipeline_config") ∷ []; program = none })
      ∷ plain "pipeline" true
      ∷ plain "node" true
      ∷ signer "agent" false
      ∷ plain "agentStake" true
      ∷ plain "registryConfig" false
      ∷ derived "dagAuthority" false
          (record { seeds = const_seed (codes "dag_authority") ∷ []; program = none })
      ∷ fixed "bondedRegistryProgram" "26AB6S5crQAkhfx928bnWSHfpQE6wp2Sdt4afFtk7crq"
      ∷ [];
  args = ("nodeIndex", u8) ∷ [];
}

abbrev pub complete_node : Instruction
complete_node = record {
  program = "3FqvkzppD4ciwkGLrcNoTHUCeHwNbWtot18CkrBdXiJd";
  name = "completeNode";
  discriminator = 21 ∷ 239 ∷ 8 ∷ 243 ∷ 214 ∷ 77 ∷ 140 ∷ 38 ∷ [];
  accounts =
      derived "pipelineConfig" false
        (record { seeds = const_seed (codes "pipeline_config") ∷ []; program = none })
      ∷ plain "pipeline" true
      ∷ plain "node" true
      ∷ signer "facilitator" true
      ∷ derived "vault" true (record {
        seeds = account_seed "pipeline" ∷ const_seed token_program ∷ account_seed "stakeMint" ∷ [];
        program = some associated_token_program;
      })
      ∷ plain "stakeMint" false
      ∷ plain "agent" false
      ∷ plain "agentTokenAccount" true
      ∷ plain "operatorTreasury" true
      ∷ derived "dagAuthority" false
          (record { seeds = const_seed (codes "dag_authority") ∷ []; program = none })
      ∷ plain "registryConfig" true
      ∷ plain "agentStake" true
      ∷ fixed "bondedRegistryProgram" "26AB6S5crQAkhfx928bnWSHfpQE6wp2Sdt4afFtk7crq"
      ∷ plain "bridgeConfig" true
      ∷ plain "agentReputation" true
      ∷ plain "jobRecord" true
      ∷ fixed "reputationBridgeProgram" "6RRfs1Ho1bJ3JWXSy3xVth4BTGHWwVwum74ph2LRWWsf"
      ∷ fixed "tokenProgram" "TokenkegQfeZyiNwAJbNbGKPFXCWuBvf9Ss623VQ5DA"
      ∷ fixed "systemProgram" "11111111111111111111111111111111"
      ∷ [];
  args = ("nodeIndex", u8) ∷ ("scoreDelta", i16) ∷ ("resultHash", byte_array 32) ∷ [];
}

abbrev pub submit_completion : Instruction
submit_completion = record {
  program = "3FqvkzppD4ciwkGLrcNoTHUCeHwNbWtot18CkrBdXiJd";
  name = "submitCompletion";
  discriminator = 155 ∷ 236 ∷ 211 ∷ 88 ∷ 53 ∷ 120 ∷ 74 ∷ 196 ∷ [];
  accounts =
      derived "pipelineConfig" false
        (record { seeds = const_seed (codes "pipeline_config") ∷ []; program = none })
      ∷ plain "pipeline" false
      ∷ plain "node" true
      ∷ signer "facilitator" true
      ∷ plain "agent" false
      ∷ derived "settlement" true (record {
        seeds = const_seed (codes "settlement") ∷ account_seed "node" ∷ [];
        program = none;
      })
      ∷ fixed "systemProgram" "11111111111111111111111111111111"
      ∷ [];
  args =
      ("nodeIndex", u8)
      ∷ ("scoreDelta", i16)
      ∷ ("resultHash", byte_array 32)
      ∷ ("uri", byte_array 96)
      ∷ ("uriLen", u8)
      ∷ [];
}
