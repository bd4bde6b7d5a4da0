-- ===== src/Programs/Escrow/Expiring/Closure.antt =====
-- The nodes that the loop of expire_node leaves, in programs/dag_escrow/src/lib.rs.
use chainpipe.Base.{
  ℕ, zero, suc, ◌+◌, ◌≡◌, sym, ap, subst, ◌∙◌, true, false, List, [], ◌∷◌, some, inl, inr, arith,
  ◌⊎◌, Bool-cases, length,
}
use chainpipe.Base.Results.{Result, ok, returned, ok-injective, Result-cases}
use chainpipe.Base.Encodings.{text_eq}
use chainpipe.Sdk.Platform.{PublicKey}
use chainpipe.Sdk.Accounts.{PipelineNode}
use chainpipe.Programs.Runtime.{require-holds, present-holds, checked_add}
use chainpipe.Programs.Escrow.{Escrow, account_at}
use chainpipe.Programs.Escrow.Weights.{owed}
use chainpipe.Programs.Escrow.Fates.{Follows-trans}
use chainpipe.Programs.Escrow.Expiring.{
  Sweep, sweep_one, sweep, falls, cascade, cascaded, first_sweep, after_pass, pass_again,
  expire_counted,
}
use chainpipe.Programs.Escrow.Expiring.Laws.{Sweeps, sweep-Sweeps}

-- A node stays: if it is pending, it depends on no node that expired.
abbrev pub Stays : ℕ → Sweep → Type 0
Stays j s =
    (node : PipelineNode) → account_at s.nodes j ≡ some node → falls node s.expired_bits ≡ false

abbrev pub AllStay : List ℕ → Sweep → Type 0
AllStay [] s = Unit
AllStay (j ∷ rest) s = Stays j s × AllStay rest s

-- One account: it was left alone, or the sweep has changed something.
sweep_one_cases :
    (key : PublicKey) (i : ℕ) (s s' : Sweep)
    → sweep_one key i s ≡ ok s'
    → (s'.changed ≡ true) ⊎ ((s ≡ s') × Stays i s)
unfolding sweep_one
sweep_one_cases key i s s' e =
    let (node, there, e1) =
      present-holds (account_at s.nodes i) "AccountDidNotDeserialize" _ s' e in
    let (own, e2) = require-holds (text_eq node.pipeline key) "InvalidNodeAccount" _ s' e1 in
    elim (Bool-cases (falls node s.expired_bits)) [
      | inl down ↦
          let counted : expire_counted i node s ≡ ok s' = ground (arith, down, e2) in
          let (refund, summed, e3) =
            returned (checked_add 64 s.refund_total node.allocation_usdc) _ s' counted in
          inl (sym (ap (λ (x : Sweep). x.changed) (ok-injective e3)))
      | inr up ↦
          let same : s ≡ s' = ground (arith, up, e2) in
          inr (same, λ other found. ground (arith, up, found, there))
    ]

-- A pass that has changed something says so at its end.
sweep_changed :
    (key : PublicKey) (passed : List ℕ) (s s' : Sweep)
    → sweep key passed s ≡ ok s'
    → s.changed ≡ true
    → s'.changed ≡ true
unfolding sweep
sweep_changed key [] s s' e h = sym (ap (λ (x : Sweep). x.changed) (ok-injective e)) ∙ h
sweep_changed key (i ∷ rest) s s' e h =
    let (t, one, e1) = returned (sweep_one key i s) _ s' e in
    elim (sweep_one_cases key i s t one) [
      | inl on ↦ sweep_changed key rest t s' e1 on
      | inr (same, stays) ↦
          sweep_changed key rest t s' e1 (sym (ap (λ (x : Sweep). x.changed) same) ∙ h)
    ]

-- A pass that changed nothing found nothing to expire.
quiet_sweep :
    (key : PublicKey) (passed : List ℕ) (s s' : Sweep)
    → sweep key passed s ≡ ok s'
    → s'.changed ≡ false
    → (s ≡ s') × AllStay passed s
unfolding sweep
quiet_sweep key [] s s' e h = (ok-injective e, tt)
quiet_sweep key (i ∷ rest) s s' e h =
    let (t, one, e1) = returned (sweep_one key i s) _ s' e in
    elim (sweep_one_cases key i s t one) [
      | inl on ↦ absurd (let loud = sweep_changed key rest t s' e1 on in cc)
      | inr (same, stays) ↦
          let (still, others) = quiet_sweep key rest t s' e1 h in
          (same ∙ still, (stays, subst (AllStay rest) (sym same) others))
    ]

-- The loop does what its passes do, and leaves no passed node that should fall.
pub record Ends (passed : List ℕ) (s s' : Sweep) : Type 0 where
  pub passes : Sweeps (record s { changed = false }) s'
  pub stays : AllStay passed s'

pub some_result : {a b : Result Sweep} → some a ≡ some b → a ≡ b
some_result e = cc

forget_flag :
    (s s' : Sweep)
    → Sweeps (record s { changed = false }) s'
    → s'.changed ≡ true
    → (u : Sweep) → Sweeps (record s' { changed = false }) u
    → Sweeps (record s { changed = false }) u
forget_flag s s' h on u k = record {
  moved = k.moved ∙ h.moved;
  fewer = omega (arith, h.fewer, k.fewer);
  kept = λ j node set_already there.
      let (there', set_still) = h.kept j node set_already there in k.kept j node set_still there';
  follows = Follows-trans s.nodes s'.nodes u.nodes h.follows k.follows;
}

pub cascade-Ends :
    (fuel : ℕ) (key : PublicKey) (passed : List ℕ) (s s' : Sweep)
    → cascade fuel key passed s ≡ some (ok s')
    → Ends passed s s'
unfolding cascade
cascade-Ends zero key passed s s' e = absurd (cc)
cascade-Ends (suc fuel) key passed s s' e =
    let next = cascade fuel key passed in
    elim (Result-cases (sweep key passed (record s { changed = false }))) [
      | inr (t, failed) ↦
          absurd (let bad = some_result (sym (ap (after_pass next) failed) ∙ e) in cc)
      | inl (t, did) ↦
          let h = sweep-Sweeps key passed (record s { changed = false }) t did in
          elim (Bool-cases t.changed) [
            | inr quiet ↦
                let last : t ≡ s' = ok-injective (
                  some_result
                    (sym (ap (after_pass next) did ∙ ap (pass_again next t) quiet) ∙ e)) in
                let (still, stay) =
                  quiet_sweep key passed (record s { changed = false }) t did quiet in
                record {
                  passes = subst (Sweeps (record s { changed = false })) last h;
                  stays = subst (AllStay passed) (still ∙ last) stay;
                }
            | inl again ↦
                let rest : cascade fuel key passed t ≡ some (ok s') =
                  sym (ap (after_pass next) did ∙ ap (pass_again next t) again) ∙ e in
                let more = cascade-Ends fuel key passed t s' rest in
                record { passes = forget_flag s t h again s' more.passes; stays = more.stays }
          ]
    ]

-- When the loop of expire_node returns, no node whose account was passed is still pending and depends
-- on a node that expired; the refund and what is still open add up to what was open before, with the
-- allocation of the node that is overdue.
pub cascaded_lem :
    (passed : List ℕ) (i : ℕ) (node : PipelineNode) (e : Escrow) (s : Sweep)
    → cascaded passed i node e ≡ some (ok s)
    → AllStay passed s × (owed s.nodes + s.refund_total ≡ owed e.nodes + node.allocation_usdc)
cascaded_lem passed i node e s done =
    let h = cascade-Ends (suc (length e.nodes)) e.key passed (first_sweep e i node) s done in
    (h.stays, h.passes.moved)
