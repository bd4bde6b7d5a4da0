-- ===== src/Sdk/Network.antt =====
-- The network as the client meets it: the RPC node (`connection`, Anchor's account clients) and
-- `fetch`. Each question is answered at a moment, the number of questions asked before, so other
-- parties may change the chain between any two awaits. A call that is sent is kept in the log.
use chainpipe.Base.{ℕ, suc, String, Bool, List, ◌∷◌, Option, none, some}
use chainpipe.Base.Results.{Result, ok, throws}
use chainpipe.Base.Text.{Bytes, Text}
use chainpipe.Sdk.Platform.{PublicKey}
use chainpipe.Sdk.Accounts.{
  PipelineAccount, PipelineNode, NodeSettlement, AgentStake, AgentReputation, JobRecord,
}
use chainpipe.Sdk.Calls.Shape.{Call}

-- The answer of `fetch`: `resp.ok`, `resp.status` and what `arrayBuffer` gives.
pub record HttpResponse : Type 0 where
  pub is_ok : Bool
  pub status : ℕ
  pub body : Result Bytes

pub record Network : Type 0 where
  pub pipeline : ℕ → PublicKey → Result (Option PipelineAccount)
  pub node : ℕ → PublicKey → Result (Option PipelineNode)
  pub settlement : ℕ → PublicKey → Result (Option NodeSettlement)
  pub stake : ℕ → PublicKey → Result (Option AgentStake)
  pub reputation : ℕ → PublicKey → Result (Option AgentReputation)
  pub job_record : ℕ → PublicKey → Result (Option JobRecord)
  pub all_pipelines : ℕ → Result (List (PublicKey × PipelineAccount))
  -- The pipelines with a key at offset 8, where the consumer is stored (`memcmp`).
  pub pipelines_at_8 : ℕ → PublicKey → Result (List (PublicKey × PipelineAccount))
  pub all_stakes : ℕ → Result (List (PublicKey × AgentStake))
  pub slot : ℕ → Result ℕ
  pub rpc : ℕ → Call → Result String
  pub http : ℕ → Text → Result HttpResponse

-- How many questions were asked, and the calls that were sent, the last one first.
pub record Session : Type 0 where
  pub asked : ℕ
  pub sent : List Call

abbrev pub M {ℓ} : Type ℓ → Type ℓ
M A = Session → Result A × Session

abbrev pub pure {ℓ} : {A : Type ℓ} → A → M A
pure a s = (ok a, s)

abbrev pub fail {ℓ} : {A : Type ℓ} → String → M A
fail e s = (throws e, s)

infixl 5 ◌>>=◌ ◌>>◌
abbrev pub ◌>>=◌ {ℓ κ} : {A : Type ℓ} {B : Type κ} → M A → (A → M B) → M B
◌>>=◌ m f s = let (r, s') = m s in elim r [ ok a ↦ f a s' | throws e ↦ (throws e, s') ]

abbrev pub ◌>>◌ {ℓ κ} : {A : Type ℓ} {B : Type κ} → M A → M B → M B
m >> k = m >>= λ _. k

abbrev pub lift {ℓ} : {A : Type ℓ} → Result A → M A
lift r s = (r, s)

-- `try { m } catch { h }`
abbrev pub catch {ℓ} : {A : Type ℓ} → M A → (String → M A) → M A
catch m h s = let (r, s') = m s in elim r [ ok a ↦ (ok a, s') | throws e ↦ h e s' ]

-- One question to the network.
abbrev pub ask {ℓ} : {A : Type ℓ} → (ℕ → Result A) → M A
ask q s = (q s.asked, record s { asked = suc s.asked })

-- Anchor's `fetch` of an account, which throws on a missing one.
abbrev pub existing {ℓ} : {A : Type ℓ} → Option A → M A
existing none = fail "Account does not exist or has no data"
existing (some a) = pure a

-- `.rpc()`
abbrev pub send : Network → Call → M String
send net c s = (net.rpc s.asked c, record { asked = suc s.asked; sent = c ∷ s.sent })
