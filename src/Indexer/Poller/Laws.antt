-- ===== src/Indexer/Poller/Laws.antt =====
-- What a poll of indexer/src/poller.ts leaves in the store.
use chainpipe.Base.{
  ℕ, suc, ◌≤◌, ◌≡◌, sym, subst, String, ◌⊎◌, List, [], ◌∷◌, some, arith, inl, inr, Bool-cases, ltb,
}
use chainpipe.Base.Results.{ok, throws, Result-cases, ok-injective}
use chainpipe.Sdk.Platform.{Platform, PublicKey}
use chainpipe.Sdk.Accounts.{Addresses, AgentStake}
use chainpipe.Sdk.Pdas.{reputation_pda}
use chainpipe.Sdk.Network.{Network, Session}
use chainpipe.Sdk.Client.Reads.{AgentWithReputation, join_reputation, get_agents_by_tier}
use chainpipe.Indexer.Stats.{compute_stats}
use chainpipe.Indexer.Store.{StoreData, update}
use chainpipe.Indexer.Poller.{fetch_all, poll_once, tick}

abbrev pub AllFromTier : ℕ → List AgentWithReputation → Type 0
AllFromTier tier [] = Unit
AllFromTier tier (a ∷ agents) = (tier ≤ a.stake.tier) × AllFromTier tier agents

-- The statistics are those of the pipelines and agents beside them.
pub record IsPolled (now : ℕ) (d d' : StoreData) : Type 0 where
  pub specs_kept : d'.specs ≡ d.specs
  pub dated : d'.updated_at ≡ now
  pub counted : d'.stats ≡ some (compute_stats d'.agents d'.pipelines)
  pub staked : AllFromTier 1 d'.agents

module _ (pf : Platform) (a : Addresses) (net : Network) where
  join_reputation-AllFromTier :
      (tier : ℕ) (stakes : List (PublicKey × AgentStake)) (s : Session)
      (out : List AgentWithReputation)
      → (join_reputation pf a net tier stakes s).0 ≡ ok out
      → AllFromTier tier out
  unfolding join_reputation
  join_reputation-AllFromTier tier [] s out e = subst (AllFromTier tier) (ok-injective e) tt
  join_reputation-AllFromTier tier ((key, stake) ∷ stakes) s out e =
      elim (Bool-cases (ltb stake.tier tier)) [
        | inl low ↦ join_reputation-AllFromTier tier stakes s out (ground (arith, low))
        | inr high ↦
            elim (Result-cases (net.reputation s.asked (reputation_pda pf a stake.agent))) [
              | inr bad ↦ ground (arith, high, bad)
              | inl (rep, read) ↦
                  let s1 : Session = record s { asked = suc s.asked } in
                  elim (Result-cases (join_reputation pf a net tier stakes s1).0) [
                    | inr bad ↦ ground (arith, high, read, bad)
                    | inl (more, got) ↦
                        let whole : out
                            ≡ record { stake = stake; address = key; reputation = rep } ∷ more =
                          ground (arith, high, read, got) in
                        subst (AllFromTier tier) (sym whole) (
                          ground (arith, high),
                          join_reputation-AllFromTier tier stakes s1 more got,
                        )
                  ]
            ]
      ]

  agents-AllFromTier :
      (tier : ℕ) (s : Session) (out : List AgentWithReputation)
      → (get_agents_by_tier pf a net tier s).0 ≡ ok out
      → AllFromTier tier out
  unfolding get_agents_by_tier
  agents-AllFromTier tier s out e = elim (Result-cases (net.all_stakes s.asked)) [
    | inr bad ↦ ground arith
    | inl (stakes, got) ↦
        join_reputation-AllFromTier tier stakes (record s { asked = suc s.asked }) out
          (ground arith)
  ]

  poll_once-IsPolled :
      (now : ℕ) (d d' : StoreData) (s : Session)
      → (poll_once pf a net now d s).0 ≡ ok d'
      → IsPolled now d d'
  unfolding poll_once update
  poll_once-IsPolled now d d' s e = elim (Result-cases (get_agents_by_tier pf a net 1 s).0) [
    | inr bad ↦ ground arith
    | inl (agents, got) ↦
        let s1 : Session = (get_agents_by_tier pf a net 1 s).1 in
        elim (Result-cases (net.all_pipelines s1.asked)) [
          | inr bad ↦ ground arith
          | inl (listed, all) ↦
              elim (Result-cases
                (fetch_all pf a net listed (record s1 { asked = suc s1.asked })).0) [
                  | inr bad ↦ ground arith
                  | inl (raw, fetched) ↦
                      let done : d' ≡ update raw agents (compute_stats agents raw) now d =
                        ground arith in
                      record {
                        specs_kept = ground (arith, done);
                        dated = ground (arith, done);
                        counted = ground (arith, done);
                        staked =
                            subst (λ x. AllFromTier 1 x.agents) (sym done)
                              (agents-AllFromTier 1 s agents got);
                      }
                ]
        ]
  ]

  -- A tick of the poller either leaves the whole store as it was, when any read of the chain throws,
  -- or replaces it in one go: the stored specs are kept, the time is the one given, every agent
  -- has tier 1 at least, and the statistics are those of the pipelines and agents stored with them.
  pub tick_lem :
      (now : ℕ) (d : StoreData) (s : Session)
      → (((tick pf a net now d s).0 ≡ d)
          × ((e : String) × ((poll_once pf a net now d s).0 ≡ throws e)))
        ⊎ IsPolled now d (tick pf a net now d s).0
  unfolding tick
  tick_lem now d s = elim (Result-cases (poll_once pf a net now d s).0) [
    | inr (e, bad) ↦ inl (ground (arith, bad), (e, bad))
    | inl (d', got) ↦
        let same : (tick pf a net now d s).0 ≡ d' = ground (arith, got) in
        inr (subst (IsPolled now d) (sym same) (poll_once-IsPolled now d d' s got))
  ]
