-- ===== src/Samples.antt =====
-- A small platform and a small network on which the theorems are applied: a chain with one pipeline
-- of one claimed node. A signature is valid if it is the key followed by the first byte of the
-- message, an address is the seeds one after the other, and a digest is the number of bytes in 32 cells.
use chainpipe.Base.{
  if◌then◌else◌, ℕ, ◌%◌, List, [], ◌∷◌, ◌++◌, true, none, some, length, replicate, take,
}
use chainpipe.Base.Results.{ok}
use chainpipe.Base.Text.{Bytes, Text, AllBytes, codes}
use chainpipe.Base.Encodings.{text_eq}
use chainpipe.Base.{arith}
use chainpipe.Sdk.Platform.{Platform, PublicKey}
use chainpipe.Idl.Schema.{token_program, associated_token_program}
use chainpipe.Sdk.Accounts.{Addresses, PipelineAccount, PipelineNode, claimed, active}
use chainpipe.Sdk.Network.{Network, Session}
use chainpipe.Facilitator.Service.{Config}

abbrev joined : List Bytes → Bytes
joined [] = []
joined (b ∷ bs) = b ++ joined bs

abbrev pub platform : Platform
platform = record {
  sha256 = λ m. length m % 256 ∷ replicate 31 0;
  verify_detached = λ m signature key. ok (text_eq signature (key ++ take 1 m));
  find_program_address = λ seeds program. joined seeds ++ program;
  associated_token_address =
      λ mint owner. joined (owner ∷ token_program ∷ mint ∷ []) ++ associated_token_program;
  token_program_id = 6 ∷ [];
  associated_token_program_id = 7 ∷ [];
  system_program_id = [];
  parse_key = ok;
  to_base58 = λ key. key;
  to_number = ok;
}

pub platform-DigestLaw : (m : Bytes) → AllBytes (platform.sha256 m)
platform-DigestLaw m = ground arith

abbrev pub addresses : Addresses
addresses = record {
  bonded_registry = 1 ∷ [];
  dag_escrow = 2 ∷ [];
  reputation_bridge = 3 ∷ [];
  usdc_mint = 4 ∷ [];
}

abbrev pub config : Config
config = record {
  facilitator = 8 ∷ [];
  operator_treasury = 9 ∷ [];
  addresses = addresses;
  gateway = codes "https://gw";
  verify_delivery_on = true;
  faucet_enabled = true;
}

abbrev pub pipeline_key : PublicKey
pipeline_key = 50 ∷ []

abbrev pub agent_key : PublicKey
agent_key = 60 ∷ []

abbrev pub account : PipelineAccount
account = record {
  consumer = 70 ∷ [];
  total_nodes = 1;
  total_usdc_locked = 1000;
  nodes_settled = 0;
  nodes_expired = 0;
  status = active;
  nonce = 1;
  stake_mint = 4 ∷ [];
  settled_mask = 0;
  bump = 255;
}

abbrev pub node : PipelineNode
node = record {
  pipeline = pipeline_key;
  node_index = 0;
  agent = agent_key;
  allocation_usdc = 1000;
  deadline_slot = 400;
  dependency_mask = 0;
  status = claimed;
  settled_at_slot = 0;
  job_id = 5 ∷ 6 ∷ [];
  required_tier = 1;
  bump = 254;
}

-- The same chain at every moment, at slot 100; what is fetched is three bytes long.
abbrev pub network : Network
network = record {
  pipeline = λ t key. ok (some account);
  node = λ t key. ok (some node);
  settlement = λ t key. ok none;
  stake = λ t key. ok none;
  reputation = λ t key. ok none;
  job_record = λ t key. ok none;
  all_pipelines = λ t. ok ((pipeline_key, account) ∷ []);
  pipelines_at_8 =
      λ t key. ok (if text_eq account.consumer key then (pipeline_key, account) ∷ [] else []);
  all_stakes = λ t. ok [];
  slot = λ t. ok 100;
  rpc = λ t call. ok "signature";
  http = λ t url. ok (record { is_ok = true; status = 200; body = ok (1 ∷ 2 ∷ 3 ∷ []) });
}

abbrev pub start : Session
start = record { asked = 0; sent = [] }

abbrev pub no_byte : Text → ℕ
no_byte t = 0
