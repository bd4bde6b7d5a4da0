-- ===== src/Sdk/Conforms/Deployed.antt =====
-- What the packages document of their keys, and where the programs are deployed.
use chainpipe.Base.{◌≡◌, ap, ◌∙◌, [], ◌∷◌}
use chainpipe.Base.Results.{ok, returned, ok-injective}
use chainpipe.Base.Text.{codes}
use chainpipe.Idl.Schema.{token_program, associated_token_program}
use chainpipe.Sdk.Platform.{Platform, PublicKey}
use chainpipe.Sdk.Accounts.{Addresses}
use chainpipe.Sdk.Deployment.{devnet_addresses}

-- What @solana/spl-token documents: the token account of an owner is derived from the owner, the
-- token program and the mint, under the associated token program.
abbrev pub TokenAccountLaw : Platform → Type 0
TokenAccountLaw pf =
    (mint owner : PublicKey)
    → pf.associated_token_address mint owner
      ≡ pf.find_program_address (owner ∷ token_program ∷ mint ∷ []) associated_token_program

-- What @solana/spl-token and @solana/web3.js document: the keys of their programs.
pub record ProgramIdsLaw (pf : Platform) : Type 0 where
  pub token :
      pf.parse_key (codes "TokenkegQfeZyiNwAJbNbGKPFXCWuBvf9Ss623VQ5DA") ≡ ok pf.token_program_id
  pub associated :
      pf.parse_key (codes "ATokenGPvbdGVxr1b2hvZbsiqW5xWH25efTNsLJA8knL")
      ≡ ok pf.associated_token_program_id
  pub system : pf.parse_key (codes "11111111111111111111111111111111") ≡ ok pf.system_program_id

-- The programs are those of the deployment; the mint is any.
pub record IsDeployed (pf : Platform) (a : Addresses) : Type 0 where
  pub registry_at :
      pf.parse_key (codes "26AB6S5crQAkhfx928bnWSHfpQE6wp2Sdt4afFtk7crq") ≡ ok a.bonded_registry
  pub escrow_at :
      pf.parse_key (codes "3FqvkzppD4ciwkGLrcNoTHUCeHwNbWtot18CkrBdXiJd") ≡ ok a.dag_escrow
  pub bridge_at :
      pf.parse_key (codes "6RRfs1Ho1bJ3JWXSy3xVth4BTGHWwVwum74ph2LRWWsf") ≡ ok a.reputation_bridge

pub devnet-IsDeployed :
    (pf : Platform) (mint : PublicKey) (d : Addresses)
    → devnet_addresses pf ≡ ok d
    → IsDeployed pf (record d { usdc_mint = mint })
unfolding devnet_addresses
devnet-IsDeployed pf mint d e =
    let (b, one, e1) =
      returned (pf.parse_key (codes "26AB6S5crQAkhfx928bnWSHfpQE6wp2Sdt4afFtk7crq")) _ d e in
    let (g, two, e2) =
      returned (pf.parse_key (codes "3FqvkzppD4ciwkGLrcNoTHUCeHwNbWtot18CkrBdXiJd")) _ d e1 in
    let (r, three, e3) =
      returned (pf.parse_key (codes "6RRfs1Ho1bJ3JWXSy3xVth4BTGHWwVwum74ph2LRWWsf")) _ d e2 in
    let (m, four, e4) =
      returned (pf.parse_key (codes "4zMMC9srt5Ri5X14GAgXhaHii3GnPAEERYPJgZJDncDU")) _ d e3 in
    let same = ok-injective e4 in
    record {
      registry_at = one ∙ ap (λ (x : Addresses). ok x.bonded_registry) same;
      escrow_at = two ∙ ap (λ (x : Addresses). ok x.dag_escrow) same;
      bridge_at = three ∙ ap (λ (x : Addresses). ok x.reputation_bridge) same;
    }
