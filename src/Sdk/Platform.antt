-- ===== src/Sdk/Platform.antt =====
-- What the client takes from packages that are not in the repository, as the fields of a record:
-- @noble/hashes, tweetnacl, @solana/web3.js and @solana/spl-token. Nothing is assumed of a field
-- here; a theorem that needs a documented property of one names it as a hypothesis.
use chainpipe.Base.{ℕ, Bool, List}
use chainpipe.Base.Results.{Result}
use chainpipe.Base.Text.{Bytes, Text}

-- A key, by its bytes (`toBytes`, `toBuffer`).
abbrev pub PublicKey : Type 0
PublicKey = Bytes

pub record Platform : Type 0 where
  pub sha256 : Bytes → Bytes
  -- `nacl.sign.detached.verify(msg, sig, key)`, which throws on a wrong length.
  pub verify_detached : Bytes → Bytes → PublicKey → Result Bool
  -- `PublicKey.findProgramAddressSync(seeds, program)[0]`
  pub find_program_address : List Bytes → PublicKey → PublicKey
  -- `getAssociatedTokenAddressSync(mint, owner)`, for an owner that it does not refuse.
  pub associated_token_address : PublicKey → PublicKey → PublicKey
  pub token_program_id : PublicKey
  pub associated_token_program_id : PublicKey
  pub system_program_id : PublicKey
  -- `new PublicKey(text)`, which throws on a text that is no key, and `toBase58`.
  pub parse_key : Text → Result PublicKey
  pub to_base58 : PublicKey → Text
  -- `toNumber` of a BN, which throws above 2^53.
  pub to_number : ℕ → Result ℕ
