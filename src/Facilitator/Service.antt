-- ===== src/Facilitator/Service.antt =====
-- A handler of facilitator/src/server.ts as a function of the process memory (the replay guard's
-- set) and of the session with the network. An `await` that throws leaves what was written before.
use chainpipe.Base.{ℕ, String, Bool, List, Option}
use chainpipe.Base.Results.{Result, ok, throws}
use chainpipe.Base.Text.{Text}
use chainpipe.Sdk.Platform.{PublicKey}
use chainpipe.Sdk.Accounts.{Addresses}
use chainpipe.Sdk.Network.{Session, M}

-- facilitator/src/config.ts with the environment read: IPFS_GATEWAY, FACILITATOR_VERIFY_DELIVERY
-- and FAUCET_ENABLED are fields here.
pub record Config : Type 0 where
  pub facilitator : PublicKey
  pub operator_treasury : PublicKey
  pub addresses : Addresses
  pub gateway : Text
  pub verify_delivery_on : Bool
  pub faucet_enabled : Bool

-- The keys of the jobs that the guard has seen.
abbrev pub Seen : Type 0
Seen = List Text

abbrev pub F {ℓ} : Type ℓ → Type ℓ
F A = Seen → Session → Result A × Seen × Session

abbrev pub pure {ℓ} : {A : Type ℓ} → A → F A
pure a seen s = (ok a, seen, s)

infixl 5 ◌>>=◌ ◌>>◌
abbrev pub ◌>>=◌ {ℓ κ} : {A : Type ℓ} {B : Type κ} → F A → (A → F B) → F B
◌>>=◌ m f seen s =
    let (r, seen', s') = m seen s in
    elim r [ ok a ↦ f a seen' s' | throws e ↦ (throws e, seen', s') ]

abbrev pub ◌>>◌ {ℓ κ} : {A : Type ℓ} {B : Type κ} → F A → F B → F B
m >> k = m >>= λ _. k

-- A call that does not touch the guard.
abbrev pub call {ℓ} : {A : Type ℓ} → M A → F A
call m seen s = let (r, s') = m s in (r, seen, s')

abbrev pub lift {ℓ} : {A : Type ℓ} → Result A → F A
lift r seen s = (r, seen, s)

-- The JSON that a handler answers with; the explorer links, which repeat the signature, are left out.
pub data Body : Type 0 where
  error : String → Body
  -- "could not fetch uri" with the status, and "fetch/hash failed" with the error.
  unfetched : ℕ → Body
  hash_failed : String → Body
  completed : String → ℕ → Option ℕ → Body
  expired : String → ℕ → Option Text → Body
  submitted : String → Text → ℕ → ℕ → Body
  finalized : String → Body
  resolved : String → Bool → Body
  result_hash : Text → Body
  settlement : Text → Text → ℕ → ℕ → Bool → Body

pub record Response : Type 0 where
  pub status : ℕ
  pub body : Body

abbrev pub respond : ℕ → Body → F Response
respond status body = pure (record { status = status; body = body })

-- The `catch` around a handler.
abbrev pub answered : ℕ → F Response → Seen → Session → Response × Seen × Session
answered status m seen s =
    let (r, seen', s') = m seen s in
    elim r [
      | ok response ↦ (response, seen', s')
      | throws e ↦ (record { status = status; body = error e }, seen', s')
    ]
