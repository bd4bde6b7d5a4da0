-- ===== src/Programs/Registry/Tokens.antt =====
-- What the instructions that dag_escrow calls do to token balances, in
-- programs/bonded_registry/src/lib.rs.
use chainpipe.Base.{ℕ, ◌≤◌, ◌≡◌, ◌≢◌, sym, ap, subst, Bool, inl, inr, arith, Bool-cases, ltb, leb}
use chainpipe.Base.Results.{ok, returned, ok-injective}
use chainpipe.Base.Encodings.{text_eq}
use chainpipe.Sdk.Platform.{PublicKey}
use chainpipe.Programs.Runtime.{
  Runtime, TransferLaw, find, require-holds, present-holds, checked_add,
}
use chainpipe.Programs.Runtime.Laws.{transfer_spares}
use chainpipe.Programs.Registry.{
  Registry, increment_open_jobs, decrement_open_jobs, slash_stake, slash_amount, transfer_some,
}

module _ (rt : Runtime) where
  pub increment_open_jobs_tokens :
      (authority agent : PublicKey) (r r' : Registry)
      → increment_open_jobs rt authority agent r ≡ ok r'
      → r'.tokens ≡ r.tokens
  unfolding increment_open_jobs
  increment_open_jobs_tokens authority agent r r' e =
      let (stake, there, e1) = present-holds (find agent r.stakes) "AccountNotInitialized" _ r' e in
      let (allowed, e2) =
        require-holds (text_eq authority r.config.dag_escrow_authority) "UnauthorizedCaller" _ r'
          e1 in
      let (jobs, counted, e3) = returned (checked_add 32 stake.open_jobs 1) _ r' e2 in
      sym (ap (λ (x : Registry). x.tokens) (ok-injective e3))

  pub decrement_open_jobs_tokens :
      (authority agent : PublicKey) (settled : Bool) (r r' : Registry)
      → decrement_open_jobs rt authority agent settled r ≡ ok r'
      → r'.tokens ≡ r.tokens
  unfolding decrement_open_jobs
  decrement_open_jobs_tokens authority agent settled r r' e =
      let (stake, there, e1) = present-holds (find agent r.stakes) "AccountNotInitialized" _ r' e in
      let (allowed, e2) =
        require-holds (text_eq authority r.config.dag_escrow_authority) "UnauthorizedCaller" _ r'
          e1 in
      sym (ap (λ (x : Registry). x.tokens) (ok-injective e2))

  -- A slash takes nothing from an account that is not the stake vault.
  pub slash_stake_spares :
      TransferLaw rt
      → (authority mint agent consumer : PublicKey) (bps : ℕ) (r r' : Registry)
        (m owner : PublicKey)
      → slash_stake rt authority mint agent consumer bps r ≡ ok r'
      → owner ≢ rt.stake_key agent
      → r.tokens m owner ≤ r'.tokens m owner
  unfolding slash_stake
  slash_stake_spares law authority mint agent consumer bps r r' m owner e h =
      let (stake, there, e1) = present-holds (find agent r.stakes) "AccountNotInitialized" _ r' e in
      let (mints, e2) = require-holds (text_eq stake.stake_mint mint) "ConstraintHasOne" _ r' e1 in
      let (portion, e3) = require-holds (leb bps 10_000) "InvalidSlashBps" _ r' e2 in
      let (allowed, e4) =
        require-holds (text_eq authority r.config.dag_escrow_authority) "UnauthorizedCaller" _ r'
          e3 in
      let amount : ℕ = slash_amount rt r.config stake bps in
      let (tokens, moved, e5) =
        returned (transfer_some rt mint (rt.stake_key agent) consumer amount r.tokens) _ r' e4 in
      let after : tokens ≡ r'.tokens = ap (λ (x : Registry). x.tokens) (ok-injective e5) in
      subst (λ x. r.tokens m owner ≤ x m owner) after
        (elim (Bool-cases (ltb 0 amount)) [
          | inl some_left ↦
              let did : rt.transfer mint (rt.stake_key agent) consumer amount r.tokens ≡ ok tokens =
                ground (arith, moved, some_left) in
              transfer_spares rt law mint (rt.stake_key agent) consumer amount r.tokens tokens m
                owner did h
          | inr nothing ↦
              let same : r.tokens ≡ tokens = ground (arith, moved, nothing) in
              subst (λ x. r.tokens m owner ≤ x m owner) same (omega arith)
        ])
