-- ===== src/Programs/Runtime.antt =====
-- What the programs take from the runtime and from packages that are not in the repository: the token
-- program, the hash, the addresses of accounts. Nothing is assumed of a field here.
pub mod Laws
use chainpipe.Base.{
  ℕ, ◌+◌, ◌≤◌, ◌≡◌, ◌≢◌, ◌^◌, String, Bool, true, false, refl, sym, ap, ◌∙◌, List, Option, none,
  some, if◌then◌else◌, ltb,
}
use chainpipe.Base.Results.{Result, ok, throws, ◌>>◌, ◌>>=◌}
use chainpipe.Base.Maps.{lookup, write}
use chainpipe.Base.Text.{Bytes}
use chainpipe.Base.Encodings.{text_eq}
use chainpipe.Sdk.Platform.{PublicKey}

-- The amount in the token account of an owner for a mint.
abbrev pub Balances : Type 0
Balances = PublicKey → PublicKey → ℕ

pub record Runtime : Type 0 where
  -- `token::transfer_checked`: mint, owner of the source, owner of the destination, amount.
  pub transfer : PublicKey → PublicKey → PublicKey → ℕ → Balances → Result Balances
  pub hashv : List Bytes → Bytes
  -- The stake account of an agent, which owns the agent's stake vault.
  pub stake_key : PublicKey → PublicKey
  -- The account of a node of a pipeline, by its index.
  pub node_key : PublicKey → ℕ → PublicKey
  pub default_key : PublicKey

-- What the token program documents of a transfer between token accounts that exist and are not frozen:
-- it is carried out exactly if the source holds the amount, and then it moves the amount and changes
-- no other balance.
pub record TransferLaw (rt : Runtime) : Type 0 where
  pub funded :
      (mint from to : PublicKey) (amount : ℕ) (b b' : Balances)
      → rt.transfer mint from to amount b ≡ ok b'
      → amount ≤ b mint from
  pub carried :
      (mint from to : PublicKey) (amount : ℕ) (b : Balances)
      → amount ≤ b mint from
      → (b' : Balances) × (rt.transfer mint from to amount b ≡ ok b')
  pub taken :
      (mint from to : PublicKey) (amount : ℕ) (b b' : Balances)
      → rt.transfer mint from to amount b ≡ ok b'
      → from ≢ to
      → b' mint from + amount ≡ b mint from
  pub given :
      (mint from to : PublicKey) (amount : ℕ) (b b' : Balances)
      → rt.transfer mint from to amount b ≡ ok b'
      → from ≢ to
      → b' mint to ≡ b mint to + amount
  pub itself :
      (mint owner : PublicKey) (amount : ℕ) (b b' : Balances)
      → rt.transfer mint owner owner amount b ≡ ok b'
      → b' mint owner ≡ b mint owner
  pub others :
      (mint from to : PublicKey) (amount : ℕ) (b b' : Balances) (owner : PublicKey)
      → rt.transfer mint from to amount b ≡ ok b'
      → owner ≢ from
      → owner ≢ to
      → b' mint owner ≡ b mint owner
  pub other_mints :
      (mint from to : PublicKey) (amount : ℕ) (b b' : Balances) (m owner : PublicKey)
      → rt.transfer mint from to amount b ≡ ok b'
      → m ≢ mint
      → b' m owner ≡ b m owner

-- `require!(test, error)`
abbrev pub require : Bool → String → Result (Unit {0})
require test e = if test then ok tt else throws e

pub require-holds :
    {B : Type 0} (test : Bool) (e : String) (k : Result B) (b : B)
    → (require test e >> k) ≡ ok b
    → (test ≡ true) × (k ≡ ok b)
require-holds true e k b h = (refl, h)
require-holds false e k b h = absurd (cc)

-- An optional account or value, with the error for its absence.
abbrev pub present {ℓ} : {A : Type ℓ} → Option A → String → Result A
present none e = throws e
present (some a) e = ok a

pub option-injective {ℓ} : {A : Type ℓ} {a b : A} → some a ≡ some b → a ≡ b
option-injective e = cc

pub present-holds :
    {A B : Type 0} (o : Option A) (e : String) (f : A → Result B) (b : B)
    → (present o e >>= f) ≡ ok b
    → (a : A) × (o ≡ some a) × (f a ≡ ok b)
present-holds none e f b h = absurd (cc)
present-holds (some a) e f b h = (a, refl, h)

pub after_some :
    {A B : Type 0} (o : Option A) (e : String) (f : A → Result B) (a : A) (b : B)
    → o ≡ some a
    → (present o e >>= f) ≡ ok b
    → f a ≡ ok b
after_some none e f a b h k = absurd (cc)
after_some (some x) e f a b h k = sym (ap f (option-injective h)) ∙ k

-- `checked_add` of u64 and u32, and the additions that saturate.
abbrev pub checked_add : ℕ → ℕ → ℕ → Result ℕ
checked_add bits a b = if ltb (a + b) (2 ^ bits) then ok (a + b) else throws "MathOverflow"

abbrev pub saturating_add : ℕ → ℕ → ℕ → ℕ
saturating_add top a b = if ltb (a + b) top then a + b else top

-- Accounts of one kind, by the key that their address is derived from.
abbrev pub find {ℓ} : {A : Type ℓ} → PublicKey → List (PublicKey × A) → Option A
find k accounts = lookup text_eq k accounts

abbrev pub put {ℓ} : {A : Type ℓ} → PublicKey → A → List (PublicKey × A) → List (PublicKey × A)
put k a accounts = write text_eq k a accounts

abbrev pub absent {ℓ} : {A : Type ℓ} → Option A → Bool
absent none = true
absent (some a) = false
