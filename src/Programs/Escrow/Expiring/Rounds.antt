-- ===== src/Programs/Escrow/Expiring/Rounds.antt =====
-- The outer loop of expire_node in programs/dag_escrow/src/lib.rs: how many passes it makes, and what
-- it leaves.
use chainpipe.Base.{
  ℕ, zero, suc, ◌<◌, ◌≡◌, ap, ◌∙◌, false, List, some, inl, inr, arith, Bool-cases, length,
}
use chainpipe.Base.Results.{Result, ok, throws, Result-cases}
use chainpipe.Sdk.Platform.{PublicKey}
use chainpipe.Sdk.Accounts.{PipelineNode}
use chainpipe.Programs.Escrow.{Escrow}
use chainpipe.Programs.Escrow.Weights.{count_pending, count_pending_bound}
use chainpipe.Programs.Escrow.Expiring.{
  Sweep, sweep, cascade, cascaded, first_sweep, after_pass, pass_again,
}
use chainpipe.Programs.Escrow.Expiring.Laws.{sweep-Sweeps, flag}

-- A bound above the number of pending nodes is enough passes.
cascade_ends :
    (fuel : ℕ) (key : PublicKey) (passed : List ℕ) (s : Sweep)
    → count_pending s.nodes < fuel
    → (r : Result Sweep) × (cascade fuel key passed s ≡ some r)
unfolding cascade
cascade_ends zero key passed s h = absurd (omega arith)
cascade_ends (suc fuel) key passed s h =
    let next = cascade fuel key passed in
    elim (Result-cases (sweep key passed (record s { changed = false }))) [
      | inr (e, failed) ↦ (throws e, ap (after_pass next) failed)
      | inl (s', did) ↦
          let h' = sweep-Sweeps key passed (record s { changed = false }) s' did in
          elim (Bool-cases s'.changed) [
            | inr quiet ↦ (ok s', ap (after_pass next) did ∙ ap (pass_again next s') quiet)
            | inl again ↦
                let less : count_pending s'.nodes < fuel =
                  omega (arith, h'.fewer, ap flag again, h) in
                let (r, rest) = cascade_ends fuel key passed s' less in
                (r, ap (after_pass next) did ∙ ap (pass_again next s') again ∙ rest)
          ]
    ]

-- The loop over the accounts that were passed to expire_node ends, whatever the nodes and the
-- accounts: it makes at most one pass more than the pipeline has nodes.
pub cascaded_ends :
    (passed : List ℕ) (i : ℕ) (node : PipelineNode) (e : Escrow)
    → (r : Result Sweep) × (cascaded passed i node e ≡ some r)
cascaded_ends passed i node e =
    cascade_ends (suc (length e.nodes)) e.key passed (first_sweep e i node)
      (omega (arith, count_pending_bound e.nodes))
