-- ===== src/Sdk/Deployment.antt =====
-- DEVNET_ADDRESSES of sdk/src/addresses.ts.
use chainpipe.Base.Results.{Result, ok, ◌>>=◌}
use chainpipe.Base.Text.{codes}
use chainpipe.Sdk.Platform.{Platform}
use chainpipe.Sdk.Accounts.{Addresses}

-- The keys are read when the module is loaded.
unfoldable pub devnet_addresses : Platform → Result Addresses
devnet_addresses pf = do
  bonded_registry ← pf.parse_key (codes "26AB6S5crQAkhfx928bnWSHfpQE6wp2Sdt4afFtk7crq")
  dag_escrow ← pf.parse_key (codes "3FqvkzppD4ciwkGLrcNoTHUCeHwNbWtot18CkrBdXiJd")
  reputation_bridge ← pf.parse_key (codes "6RRfs1Ho1bJ3JWXSy3xVth4BTGHWwVwum74ph2LRWWsf")
  usdc_mint ← pf.parse_key (codes "4zMMC9srt5Ri5X14GAgXhaHii3GnPAEERYPJgZJDncDU")
  ok (record {
    bonded_registry = bonded_registry;
    dag_escrow = dag_escrow;
    reputation_bridge = reputation_bridge;
    usdc_mint = usdc_mint;
  })
