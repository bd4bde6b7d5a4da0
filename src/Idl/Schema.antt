-- ===== src/Idl/Schema.antt =====
-- The shape of the entries of `instructions` in sdk/src/idl/dag_escrow.ts.
use chainpipe.Base.{[], ◌∷◌, ℕ, String, Bool, true, false, List, Option, none, some}
use chainpipe.Base.Text.{Bytes}

pub data ArgType : Type 0 where
  u8 u64 i16 bool_type : ArgType
  byte_array : ℕ → ArgType
  vec_defined : String → ArgType

-- A seed of a derived address: constant bytes, the key of another account, or an argument.
pub data Seed : Type 0 where
  const_seed : Bytes → Seed
  account_seed : String → Seed
  arg_seed : String → Seed

-- With no `program` the address is derived from the program that is called.
pub record Pda : Type 0 where
  pub seeds : List Seed
  pub program : Option Bytes

pub record AccountItem : Type 0 where
  pub name : String
  pub writable : Bool
  pub signer : Bool
  pub optional : Bool
  pub pda : Option Pda
  -- A fixed address, in base 58.
  pub address : Option String

-- With the `address` of the program that the description is of.
pub record Instruction : Type 0 where
  pub program : String
  pub name : String
  pub discriminator : Bytes
  pub accounts : List AccountItem
  pub args : List (String × ArgType)

-- An account that is neither signer nor optional nor derived.
abbrev pub plain : String → Bool → AccountItem
plain n w = record {
  name = n;
  writable = w;
  signer = false;
  optional = false;
  pda = none;
  address = none;
}

abbrev pub signer : String → Bool → AccountItem
signer n w = record {
  name = n;
  writable = w;
  signer = true;
  optional = false;
  pda = none;
  address = none;
}

abbrev pub optional : String → Bool → AccountItem
optional n w = record {
  name = n;
  writable = w;
  signer = false;
  optional = true;
  pda = none;
  address = none;
}

abbrev pub fixed : String → String → AccountItem
fixed n a = record {
  name = n;
  writable = false;
  signer = false;
  optional = false;
  pda = none;
  address = some a;
}

abbrev pub fixed_optional : String → String → AccountItem
fixed_optional n a = record {
  name = n;
  writable = false;
  signer = false;
  optional = true;
  pda = none;
  address = some a;
}

abbrev pub derived : String → Bool → Pda → AccountItem
derived n w p = record {
  name = n;
  writable = w;
  signer = false;
  optional = false;
  pda = some p;
  address = none;
}

-- The key of the token program, a constant seed of every token account.
abbrev pub token_program : Bytes
token_program =
    6 ∷ 221 ∷ 246 ∷ 225 ∷ 215 ∷ 101 ∷ 161 ∷ 147 ∷ 217 ∷ 203 ∷ 225 ∷ 70 ∷ 206 ∷ 235 ∷ 121 ∷ 172 ∷ 28
    ∷ 180 ∷ 133 ∷ 237 ∷ 95 ∷ 91 ∷ 55 ∷ 145 ∷ 58 ∷ 140 ∷ 245 ∷ 133 ∷ 126 ∷ 255 ∷ 0 ∷ 169 ∷ []

-- The key of the program that token accounts are derived from.
abbrev pub associated_token_program : Bytes
associated_token_program =
    140 ∷ 151 ∷ 37 ∷ 143 ∷ 78 ∷ 36 ∷ 137 ∷ 241 ∷ 187 ∷ 61 ∷ 16 ∷ 41 ∷ 20 ∷ 142 ∷ 13 ∷ 131 ∷ 11 ∷ 90
    ∷ 19 ∷ 153 ∷ 218 ∷ 255 ∷ 16 ∷ 132 ∷ 4 ∷ 142 ∷ 123 ∷ 216 ∷ 219 ∷ 233 ∷ 248 ∷ 89 ∷ []
