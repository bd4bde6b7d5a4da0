-- ===== src/Programs/Registry/Calls.antt =====
-- The instructions of programs/bonded_registry/src/lib.rs, one after another.
use chainpipe.Base.{ℕ, Bool, List, [], ◌∷◌}
use chainpipe.Base.Results.{Result, ok, throws, ◌>>=◌}
use chainpipe.Sdk.Platform.{PublicKey}
use chainpipe.Programs.Runtime.{Runtime}
use chainpipe.Programs.Registry.{
  Registry, stake_and_register, add_stake, request_unstake, execute_unstake, slash_stake,
  increment_open_jobs, decrement_open_jobs,
}
use chainpipe.Programs.Registry.Operator.{RegistryOperatorCall, govern_registry}

-- The instructions of the program, with their signer or authority first.
pub data RegistryCall : Type 0 where
  registered : PublicKey → PublicKey → ℕ → RegistryCall
  added : PublicKey → PublicKey → ℕ → RegistryCall
  requested executed : PublicKey → ℕ → RegistryCall
  slashing : PublicKey → PublicKey → PublicKey → PublicKey → ℕ → RegistryCall
  opened : PublicKey → PublicKey → RegistryCall
  closed : PublicKey → PublicKey → Bool → RegistryCall
  governed : PublicKey → RegistryOperatorCall → RegistryCall

abbrev pub apply_call : Runtime → RegistryCall → Registry → Result Registry
apply_call rt (registered agent mint amount) r = stake_and_register rt agent mint amount r
apply_call rt (added agent mint amount) r = add_stake rt agent mint amount r
apply_call rt (requested agent slot) r = request_unstake rt agent slot r
apply_call rt (executed agent slot) r = execute_unstake rt agent slot r
apply_call rt (slashing authority mint agent consumer bps) r =
    slash_stake rt authority mint agent consumer bps r
apply_call rt (opened authority agent) r = increment_open_jobs rt authority agent r
apply_call rt (closed authority agent settled) r = decrement_open_jobs rt authority agent settled r
apply_call rt (governed signer c) r =
    govern_registry rt signer c r.config >>= λ config. ok (record r { config = config })

-- A transaction that fails leaves the accounts as they were.
abbrev pub kept_or : Registry → Result Registry → Registry
kept_or r (ok r') = r'
kept_or r (throws e) = r

abbrev pub run_calls : Runtime → List RegistryCall → Registry → Registry
run_calls rt [] r = r
run_calls rt (c ∷ rest) r = run_calls rt rest (kept_or r (apply_call rt c r))
