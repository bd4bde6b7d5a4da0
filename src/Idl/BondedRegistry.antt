-- ===== src/Idl/BondedRegistry.antt =====
-- The instructions of bonded_registry that the client sends, from sdk/src/idl/bonded_registry.ts.
use chainpipe.Base.{true, false, [], ◌∷◌, none, some}
use chainpipe.Base.Text.{codes}
use chainpipe.Idl.Schema.{u64, const_seed, account_seed, Instruction, plain, fixed, signer, derived}
use chainpipe.Idl.Schema.{token_program, associated_token_program}

abbrev pub stake_and_register : Instruction
stake_and_register = record {
  program = "26AB6S5crQAkhfx928bnWSHfpQE6wp2Sdt4afFtk7crq";
  name = "stakeAndRegister";
  discriminator = 201 ∷ 136 ∷ 88 ∷ 53 ∷ 7 ∷ 58 ∷ 127 ∷ 238 ∷ [];
  accounts =
      derived "agentStake" true (record {
        seeds = const_seed (codes "agent_stake") ∷ account_seed "agent" ∷ [];
        program = none;
      })
      ∷ signer "agent" true
      ∷ plain "stakeMint" false
      ∷ derived "agentTokenAccount" true (record {
        seeds = account_seed "agent" ∷ const_seed token_program ∷ account_seed "stakeMint" ∷ [];
        program = some associated_token_program;
      })
      ∷ derived "vault" true (record {
        seeds =
            account_seed "agentStake" ∷ const_seed token_program ∷ account_seed "stakeMint" ∷ [];
        program = some associated_token_program;
      })
      ∷ fixed "tokenProgram" "TokenkegQfeZyiNwAJbNbGKPFXCWuBvf9Ss623VQ5DA"
      ∷ fixed "associatedTokenProgram" "ATokenGPvbdGVxr1b2hvZbsiqW5xWH25efTNsLJA8knL"
      ∷ fixed "systemProgram" "11111111111111111111111111111111"
      ∷ [];
  args = ("stakeAmount", u64) ∷ [];
}

abbrev pub add_stake : Instruction
add_stake = record {
  program = "26AB6S5crQAkhfx928bnWSHfpQE6wp2Sdt4afFtk7crq";
  name = "addStake";
  discriminator = 58 ∷ 135 ∷ 189 ∷ 105 ∷ 160 ∷ 120 ∷ 165 ∷ 224 ∷ [];
  accounts =
      derived "agentStake" true (record {
        seeds = const_seed (codes "agent_stake") ∷ account_seed "agent" ∷ [];
        program = none;
      })
      ∷ signer "agent" true
      ∷ plain "stakeMint" false
      ∷ plain "agentTokenAccount" true
      ∷ derived "vault" true (record {
        seeds =
            account_seed "agentStake" ∷ const_seed token_program ∷ account_seed "stakeMint" ∷ [];
        program = some associated_token_program;
      })
      ∷ fixed "tokenProgram" "TokenkegQfeZyiNwAJbNbGKPFXCWuBvf9Ss623VQ5DA"
      ∷ [];
  args = ("additionalAmount", u64) ∷ [];
}

abbrev pub request_unstake : Instruction
request_unstake = record {
  program = "26AB6S5crQAkhfx928bnWSHfpQE6wp2Sdt4afFtk7crq";
  name = "requestUnstake";
  discriminator = 44 ∷ 154 ∷ 110 ∷ 253 ∷ 160 ∷ 202 ∷ 54 ∷ 34 ∷ [];
  accounts =
      derived "agentStake" true (record {
        seeds = const_seed (codes "agent_stake") ∷ account_seed "agent" ∷ [];
        program = none;
      })
      ∷ signer "agent" false
      ∷ [];
  args = [];
}

abbrev pub execute_unstake : Instruction
execute_unstake = record {
  program = "26AB6S5crQAkhfx928bnWSHfpQE6wp2Sdt4afFtk7crq";
  name = "executeUnstake";
  discriminator = 136 ∷ 166 ∷ 210 ∷ 104 ∷ 134 ∷ 184 ∷ 142 ∷ 230 ∷ [];
  accounts =
      derived "config" false (record { seeds = const_seed (codes "config") ∷ []; program = none })
      ∷ derived "agentStake" true (record {
        seeds = const_seed (codes "agent_stake") ∷ account_seed "agent" ∷ [];
        program = none;
      })
      ∷ signer "agent" true
      ∷ plain "stakeMint" false
      ∷ derived "vault" true (record {
        seeds =
            account_seed "agentStake" ∷ const_seed token_program ∷ account_seed "stakeMint" ∷ [];
        program = some associated_token_program;
      })
      ∷ derived "agentTokenAccount" true (record {
        seeds = account_seed "agent" ∷ const_seed token_program ∷ account_seed "stakeMint" ∷ [];
        program = some associated_token_program;
      })
      ∷ fixed "tokenProgram" "TokenkegQfeZyiNwAJbNbGKPFXCWuBvf9Ss623VQ5DA"
      ∷ [];
  args = [];
}
