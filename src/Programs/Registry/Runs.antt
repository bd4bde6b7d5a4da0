-- ===== src/Programs/Registry/Runs.antt =====
-- The vaults stay backed through every sequence of transactions of
-- programs/bonded_registry/src/lib.rs.
use chainpipe.Base.{◌≡◌, sym, subst, inl, inr, List, [], ◌∷◌}
use chainpipe.Base.Results.{ok, Result-cases}
use chainpipe.Programs.Runtime.{Runtime, TransferLaw}
use chainpipe.Programs.Registry.{Registry}
use chainpipe.Programs.Registry.Calls.{
  RegistryCall, registered, added, requested, executed, slashing, opened, closed, apply_call,
  run_calls, kept_or, governed,
}
use chainpipe.Base.Results.{returned, ok-injective}
use chainpipe.Programs.Registry.Operator.{govern_registry}
use chainpipe.Programs.Registry.Laws.{
  IsBacked, IsOwnMint, VaultLaw, IsWallet, stake_and_register-IsBacked, add_stake-IsBacked,
}
use chainpipe.Programs.Registry.Kept.{
  request_unstake-IsBacked, increment_open_jobs-IsBacked, decrement_open_jobs-IsBacked,
  execute_unstake-IsBacked, slash_stake-IsBacked,
}

-- The agents and consumers are wallets, and an agent adds to its stake in the mint of the stake.
abbrev pub IsOrderly : Runtime → RegistryCall → Registry → Type 0
IsOrderly rt (registered agent mint amount) r = IsWallet rt agent
IsOrderly rt (added agent mint amount) r = IsWallet rt agent × IsOwnMint agent mint r
IsOrderly rt (requested agent slot) r = Unit
IsOrderly rt (executed agent slot) r = IsWallet rt agent
IsOrderly rt (slashing authority mint agent consumer bps) r = IsWallet rt consumer
IsOrderly rt (opened authority agent) r = Unit
IsOrderly rt (closed authority agent settled) r = Unit
IsOrderly rt (governed signer c) r = Unit

abbrev pub AllOrderly : Runtime → List RegistryCall → Registry → Type 0
AllOrderly rt [] r = Unit
AllOrderly rt (c ∷ rest) r = IsOrderly rt c r × AllOrderly rt rest (kept_or r (apply_call rt c r))

module _ (rt : Runtime) (law : TransferLaw rt) (vaults : VaultLaw rt) where
  apply_call-IsBacked :
      (c : RegistryCall) (r r' : Registry)
      → IsOrderly rt c r
      → IsBacked rt r
      → apply_call rt c r ≡ ok r'
      → IsBacked rt r'
  apply_call-IsBacked (registered agent mint amount) r r' w h e =
      stake_and_register-IsBacked rt law vaults agent mint amount r r' w h e
  apply_call-IsBacked (added agent mint amount) r r' (w, own) h e =
      add_stake-IsBacked rt law vaults agent mint amount r r' w own h e
  apply_call-IsBacked (requested agent slot) r r' w h e =
      request_unstake-IsBacked rt law vaults agent slot r r' h e
  apply_call-IsBacked (executed agent slot) r r' w h e =
      execute_unstake-IsBacked rt law vaults agent slot r r' w h e
  apply_call-IsBacked (slashing authority mint agent consumer bps) r r' w h e =
      slash_stake-IsBacked rt law vaults authority mint agent consumer bps r r' w h e
  apply_call-IsBacked (opened authority agent) r r' w h e =
      increment_open_jobs-IsBacked rt law vaults authority agent r r' h e
  apply_call-IsBacked (closed authority agent settled) r r' w h e =
      decrement_open_jobs-IsBacked rt law vaults authority agent settled r r' h e
  apply_call-IsBacked (governed signer c) r r' w h e =
      let (config, did, e1) = returned (govern_registry rt signer c r.config) _ r' e in
      subst (IsBacked rt) (ok-injective e1) h

  -- If every stake account has the tier of its amount and a vault that holds it, and the vaults of
  -- different agents differ, then this is so after any sequence of bonded_registry transactions,
  -- failed ones included, in which agents and consumers are wallets and add_stake is given the
  -- mint of the stake.
  pub run_calls-IsBacked :
      (calls : List RegistryCall) (r : Registry)
      → AllOrderly rt calls r
      → IsBacked rt r
      → IsBacked rt (run_calls rt calls r)
  run_calls-IsBacked [] r w h = h
  run_calls-IsBacked (c ∷ calls) r (w, ws) h =
      run_calls-IsBacked calls (kept_or r (apply_call rt c r)) ws
        (elim (Result-cases (apply_call rt c r)) [
          | inl (r', did) ↦
              subst (λ x. IsBacked rt (kept_or r x)) (sym did) (apply_call-IsBacked c r r' w h did)
          | inr (failure, failed) ↦ subst (λ x. IsBacked rt (kept_or r x)) (sym failed) h
        ])
