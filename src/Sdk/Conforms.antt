-- ===== src/Sdk/Conforms.antt =====
-- When a call of the client fits an instruction of the interface that Anchor generated for the
-- program (sdk/src/idl): the independent description that the calls are held against.
pub mod Deployed
pub mod Opening
pub mod Settling
pub mod Resolving
pub mod Staking
pub mod Laws
use chainpipe.Base.{
  ℕ, String, ◌≡◌, Bool, true, false, ◌&&◌, List, [], ◌∷◌, Option, none, some, map, length,
  if◌then◌else◌, ◌==◌, ◌^◌, ltb,
}
use text.Mathlib.Text.{◌==◌ as str_eq}
use chainpipe.Base.Text.{Bytes, codes}
use chainpipe.Base.Results.{ok}
use chainpipe.Idl.Schema.{
  ArgType, u8, u64, i16, bool_type, byte_array, vec_defined, Seed, const_seed, account_seed,
  arg_seed, Pda, AccountItem, Instruction,
}
use chainpipe.Sdk.Platform.{Platform, PublicKey}
use chainpipe.Sdk.Pdas.{le_bytes}
use chainpipe.Sdk.Calls.Shape.{Arg, number, byte_list, flag, node_configs, NodeInput, Call}

-- `none`: the account is not named; `some none`: it is given as null.
abbrev pub find_account : String → List (String × Option PublicKey) → Option (Option PublicKey)
find_account name [] = none
find_account name ((n, key) ∷ rest) = if str_eq n name then some key else find_account name rest

abbrev pub is_supplied : List (String × Option PublicKey) → AccountItem → Bool
is_supplied accounts item = elim (find_account item.name accounts) [
  | none ↦ false
  | some none ↦ item.optional
  | some (some key) ↦ true
]

abbrev pub all_supplied : List (String × Option PublicKey) → List AccountItem → Bool
all_supplied accounts [] = true
all_supplied accounts (item ∷ items) = is_supplied accounts item && all_supplied accounts items

abbrev pub node_fits : NodeInput → Bool
node_fits n =
    ltb n.allocation_usdc (2 ^ 64)
    && ltb n.deadline_slots_from_now (2 ^ 64)
    && (ltb n.dependency_mask (2 ^ 64) && ltb n.required_tier 256)

abbrev pub all_nodes_fit : List NodeInput → Bool
all_nodes_fit [] = true
all_nodes_fit (n ∷ nodes) = node_fits n && all_nodes_fit nodes

-- An argument that the coder takes for a type, with its range or its number of bytes.
abbrev pub fits : ArgType → Arg → Bool
fits u8 (number n) = ltb n 256
fits u64 (number n) = ltb n (2 ^ 64)
fits i16 (number n) = ltb n (2 ^ 15)
fits bool_type (flag b) = true
fits (byte_array n) (byte_list bs) = length bs == n
fits (vec_defined name) (node_configs nodes) = str_eq name "nodeConfig" && all_nodes_fit nodes
fits _ _ = false

abbrev pub args_fit : List (String × ArgType) → List Arg → Bool
args_fit [] [] = true
args_fit [] (a ∷ as') = false
args_fit ((n, t) ∷ ts) [] = false
args_fit ((n, t) ∷ ts) (a ∷ as') = fits t a && args_fit ts as'

abbrev pub arg_bytes : Arg → Bytes
arg_bytes (number n) = le_bytes 8 n
arg_bytes (byte_list bs) = bs
arg_bytes _ = []

abbrev pub arg_seed_bytes : String → List (String × ArgType) → List Arg → Bytes
arg_seed_bytes name ((n, t) ∷ ts) (a ∷ as') =
    if str_eq n name then arg_bytes a else arg_seed_bytes name ts as'
arg_seed_bytes name _ _ = []

abbrev pub key_bytes : Option (Option PublicKey) → Bytes
key_bytes (some (some key)) = key
key_bytes _ = []

abbrev pub seed_bytes : Instruction → Call → Seed → Bytes
seed_bytes ix c (const_seed bs) = bs
seed_bytes ix c (account_seed path) = key_bytes (find_account path c.accounts)
seed_bytes ix c (arg_seed name) = arg_seed_bytes name ix.args c.args

abbrev pub program_of : Call → Option Bytes → PublicKey
program_of c none = c.program
program_of c (some program) = program

-- The address that the program itself derives for an account.
abbrev pub derive : Platform → Instruction → Call → Pda → PublicKey
derive pf ix c p = pf.find_program_address (map (seed_bytes ix c) p.seeds) (program_of c p.program)

abbrev pub IsPlaced : Platform → Instruction → Call → String → Option Pda → Type 0
IsPlaced pf ix c name none = Unit
IsPlaced pf ix c name (some p) = find_account name c.accounts ≡ some (some (derive pf ix c p))

abbrev pub AllPlaced : Platform → Instruction → Call → List AccountItem → Type 0
AllPlaced pf ix c [] = Unit
AllPlaced pf ix c (item ∷ items) = IsPlaced pf ix c item.name item.pda × AllPlaced pf ix c items

abbrev pub IsSigned : Call → String → Bool → Type 0
IsSigned c name false = Unit
IsSigned c name true = c.signers ≡ key_bytes (find_account name c.accounts) ∷ []

abbrev pub AllSigned : Call → List AccountItem → Type 0
AllSigned c [] = Unit
AllSigned c (item ∷ items) = IsSigned c item.name item.signer × AllSigned c items

-- A program account with a fixed address; null where it is left out.
abbrev pub IsKey : Platform → String → Option (Option PublicKey) → Type 0
IsKey pf address (some (some key)) = pf.parse_key (codes address) ≡ ok key
IsKey pf address _ = Unit

abbrev pub IsFixed : Platform → Call → String → Option String → Type 0
IsFixed pf c name none = Unit
IsFixed pf c name (some address) = IsKey pf address (find_account name c.accounts)

abbrev pub AllFixed : Platform → Call → List AccountItem → Type 0
AllFixed pf c [] = Unit
AllFixed pf c (item ∷ items) = IsFixed pf c item.name item.address × AllFixed pf c items

abbrev pub find_arg : String → List (String × Arg) → Option Arg
find_arg name [] = none
find_arg name ((n, a) ∷ rest) = if str_eq n name then some a else find_arg name rest

-- Each argument is the value given under its name.
abbrev pub AllGiven : List (String × Arg) → List (String × ArgType) → List Arg → Type 0
AllGiven given ((n, t) ∷ ts) (a ∷ as') = (find_arg n given ≡ some a) × AllGiven given ts as'
AllGiven given _ _ = Unit

-- For the values that the caller gave, by the names of the instruction's arguments.
pub record Conforms (pf : Platform) (ix : Instruction) (c : Call) (given : List (String × Arg))
    : Type 0 where
  pub program_called : pf.parse_key (codes ix.program) ≡ ok c.program
  pub method_named : c.method ≡ ix.name
  pub accounts_supplied : all_supplied c.accounts ix.accounts ≡ true
  pub none_extra : length c.accounts ≡ length ix.accounts
  pub arguments_fit : args_fit ix.args c.args ≡ true
  pub arguments_given : AllGiven given ix.args c.args
  pub accounts_signed : AllSigned c ix.accounts
  pub accounts_placed : AllPlaced pf ix c ix.accounts
  pub accounts_fixed : AllFixed pf c ix.accounts
