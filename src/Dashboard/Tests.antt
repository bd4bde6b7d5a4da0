-- ===== src/Dashboard/Tests.antt =====
-- The theorems on the dashboard's builder applied to three drafts in a chain.
use chainpipe.Base.{zero, suc, set, some, true}
use chainpipe.Base.Results.{ok}
use chainpipe.Sdk.Accounts.{PipelineNode}
use chainpipe.Programs.Escrow.{Escrow}
use chainpipe.Programs.Escrow.Opening.{claim_node, claimed_node}
use chainpipe.Programs.Ledger.{runtime}
use chainpipe.Programs.Cases.{agent_stake, ready, agent_key, vault_key, first_node, node}
use chainpipe.Dashboard.Masks.{has_bit}
use chainpipe.Dashboard.Work.{settled_at, is_claimable, deps_settled}
use chainpipe.Dashboard.Work.Laws.{claimable_claims}
use chainpipe.Base.{ℕ, ◌^◌, ◌<◌, ◌≡◌, refl, List, [], ◌∷◌, some, none, arith}
use chainpipe.Base.Int.{pos}
use chainpipe.Dashboard.Masks.{deps_of}
use chainpipe.Dashboard.Masks.Laws.{passing}
use chainpipe.Dashboard.Builder.{Draft, Builder, new_draft, sent_mask, mask_bits}
use chainpipe.Dashboard.Builder.Laws.{is_earlier_dep, deps_of-sent_mask}

-- The third one lists its dependencies in reverse, one of them twice, and one that is not there.
abbrev last_draft : Draft
last_draft = record (new_draft 3) { deps = 2 ∷ 9 ∷ 1 ∷ 2 ∷ [] }

abbrev drafts : List Draft
drafts = new_draft 1 ∷ new_draft 2 ∷ last_draft ∷ []

last_mask : sent_mask drafts last_draft ≡ pos 3
unfolding sent_mask mask_bits
last_mask = refl

deps_of-sent_mask_example :
    (m : ℕ) × (sent_mask drafts last_draft ≡ pos m)
    × (m < 2 ^ 2)
    × (deps_of m ≡ passing (is_earlier_dep drafts 2 last_draft.deps) 16 0)
deps_of-sent_mask_example = deps_of-sent_mask drafts last_draft 2 (omega arith) refl

abbrev builder : Builder
builder = record { nodes = drafts; next_id = 4; selected = none }

abbrev shown : List PipelineNode
shown = first_node ∷ node 1 400 2_000 1 ∷ []

none_settled : (j : ℕ) → settled_at shown j ≡ true → has_bit 0 j ≡ true
none_settled zero h = absurd (cc)
none_settled (suc zero) h = absurd (cc)
none_settled (suc (suc j)) h = absurd (cc)

listed : is_claimable [] 1 shown first_node ≡ true
unfolding is_claimable deps_settled deps_of
listed = refl

claimable_claims_example :
    (e' : Escrow) × (claim_node runtime agent_key 0 101 ready ≡ ok e')
    × (e'.nodes
        ≡ set ready.nodes 0 (some (claimed_node runtime vault_key 0 agent_key 101 first_node)))
claimable_claims_example =
    claimable_claims runtime [] agent_key 0 101 shown first_node agent_stake ready listed refl
      (omega arith) none_settled refl refl refl refl refl (omega arith)
