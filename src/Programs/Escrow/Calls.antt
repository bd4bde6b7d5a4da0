-- ===== src/Programs/Escrow/Calls.antt =====
-- The instructions of programs/dag_escrow/src/lib.rs on a pipeline, one after another.
use chainpipe.Base.{ℕ, List, [], ◌∷◌, Option, Bool}
use chainpipe.Base.Int.{ℤ}
use chainpipe.Base.Results.{Result, ok, throws, ◌>>=◌}
use chainpipe.Base.Text.{Bytes}
use chainpipe.Sdk.Platform.{PublicKey}
use chainpipe.Programs.Runtime.{Runtime}
use chainpipe.Programs.Escrow.{Escrow, OperatorCall, operate}
use chainpipe.Programs.Escrow.Opening.{claim_node, cancel_pipeline}
use chainpipe.Programs.Escrow.Settling.{
  complete_node, submit_completion, dispute_node, finalize_node, resolve_dispute,
}
use chainpipe.Programs.Escrow.Expiring.{expire_node, SlashAccounts}

-- With the arguments in the order of the instructions' functions.
pub data EscrowCall : Type 0 where
  claim : PublicKey → ℕ → ℕ → EscrowCall
  complete : PublicKey → PublicKey → PublicKey → ℕ → ℤ → ℕ → EscrowCall
  submit : PublicKey → PublicKey → ℕ → ℤ → Bytes → List ℕ → ℕ → ℕ → EscrowCall
  dispute : PublicKey → ℕ → ℕ → EscrowCall
  finalize : PublicKey → PublicKey → ℕ → ℕ → EscrowCall
  resolve : PublicKey → PublicKey → PublicKey → ℕ → Bool → ℕ → EscrowCall
  expire : PublicKey → ℕ → List ℕ → Option SlashAccounts → ℕ → EscrowCall
  cancel : PublicKey → PublicKey → List ℕ → EscrowCall
  operated : PublicKey → OperatorCall → EscrowCall

abbrev pub apply_escrow : Runtime → EscrowCall → Escrow → Result Escrow
apply_escrow rt (claim agent i slot) e = claim_node rt agent i slot e
apply_escrow rt (complete signer mint agent i score slot) e =
    complete_node rt signer mint agent i score slot e
apply_escrow rt (submit signer agent i score result_hash uri uri_len slot) e =
    submit_completion rt signer agent i score result_hash uri uri_len slot e
apply_escrow rt (dispute consumer i slot) e = dispute_node consumer i slot e
apply_escrow rt (finalize mint agent i slot) e = finalize_node rt mint agent i slot e
apply_escrow rt (resolve signer mint agent i upheld slot) e =
    resolve_dispute rt signer mint agent i upheld slot e
apply_escrow rt (expire mint i passed accounts slot) e =
    expire_node rt mint i passed accounts slot e
apply_escrow rt (cancel consumer mint passed) e = cancel_pipeline rt consumer mint passed e
apply_escrow rt (operated signer c) e =
    operate rt signer c e.config >>= λ config. ok (record e { config = config })

-- A transaction that fails changes nothing.
abbrev pub kept_escrow : Escrow → Result Escrow → Escrow
kept_escrow e (ok e') = e'
kept_escrow e (throws t) = e

abbrev pub run_escrow : Runtime → List EscrowCall → Escrow → Escrow
run_escrow rt [] e = e
run_escrow rt (c ∷ rest) e = run_escrow rt rest (kept_escrow e (apply_escrow rt c e))
