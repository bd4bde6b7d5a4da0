-- ===== src/Sdk/Client/Silence.antt =====
-- The functions of the client that only read send nothing, whether they return or throw.
use chainpipe.Base.{ℕ, zero, suc, ◌≡◌, refl, arith, inl, inr, Option-cases}
use chainpipe.Base.Results.{Result-cases}
use chainpipe.Sdk.Platform.{Platform, PublicKey}
use chainpipe.Sdk.Accounts.{Addresses}
use chainpipe.Sdk.Network.{Network, Session, M}
use chainpipe.Sdk.Client.Reads.{fetch_nodes, get_pipeline}

abbrev pub IsSilent {ℓ} : {A : Type ℓ} → M A → Type 0
IsSilent m = (s : Session) → (m s).1.sent ≡ s.sent

module _ (pf : Platform) (a : Addresses) (net : Network) where
  fetch_nodes-IsSilent :
      (pipeline : PublicKey) (k i : ℕ) → IsSilent (fetch_nodes pf a net pipeline k i)
  unfolding fetch_nodes
  fetch_nodes-IsSilent pipeline zero i s = refl
  fetch_nodes-IsSilent pipeline (suc k) i s =
      ground (arith, fetch_nodes-IsSilent pipeline k (suc i) (record s { asked = suc s.asked }))

  pub get_pipeline-IsSilent : (pipeline : PublicKey) → IsSilent (get_pipeline pf a net pipeline)
  unfolding get_pipeline
  get_pipeline-IsSilent pipeline s = elim (Result-cases (net.pipeline s.asked pipeline)) [
    | inr bad ↦ ground arith
    | inl (found, got) ↦ elim (Option-cases found) [
      | inl missing ↦ ground arith
      | inr (account, here) ↦ ground (
        arith,
        fetch_nodes-IsSilent pipeline account.total_nodes 0 (record s { asked = suc s.asked }),
      )
    ]
  ]
