-- ===== src/Sdk/Calls/Shape.antt =====
-- A call of a program: method, arguments, named and remaining accounts, signers.
use chainpipe.Base.{ℕ, String, Bool, List, Option}
use chainpipe.Sdk.Platform.{PublicKey}

-- An entry of `nodes` in sdk/src/pipeline.ts.
pub record NodeInput : Type 0 where
  pub allocation_usdc : ℕ
  pub deadline_slots_from_now : ℕ
  pub dependency_mask : ℕ
  pub required_tier : ℕ

pub data Arg : Type 0 where
  number : ℕ → Arg
  byte_list : List ℕ → Arg
  flag : Bool → Arg
  node_configs : List NodeInput → Arg

pub record AccountMeta : Type 0 where
  pub pubkey : PublicKey
  pub is_writable : Bool
  pub is_signer : Bool

pub record Call : Type 0 where
  pub program : PublicKey
  pub method : String
  pub args : List Arg
  pub accounts : List (String × Option PublicKey)
  pub remaining : List AccountMeta
  pub signers : List PublicKey
