-- ===== src/Indexer/Specs/Laws.antt =====
-- Which specs indexer/src/api.ts serves: they were signed by the pipeline's consumer.
use chainpipe.Base.{
  ℕ, zero, suc, ◌≢◌, ◌≡◌, refl, sym, ap, ◌∙◌, subst, List, [], ◌∷◌, Bool, true, false, Option, none,
  some, map, get_elem?, arith, inl, inr, Option-cases, Bool-cases, ◌==◌, ◌||◌,
}
use chainpipe.Base.Results.{Result, ok-injective, ok, throws, Result-cases}
use chainpipe.Base.Maps.{lookup, lookup-write}
use chainpipe.Base.Text.{Bytes, Text}
use chainpipe.Base.Encodings.{text_eq, text_eq_sound, from_base64}
use chainpipe.Sdk.Platform.{Platform, PublicKey}
use chainpipe.Sdk.Accounts.{Addresses, PipelineNode}
use chainpipe.Sdk.Network.{Network, Session}
use chainpipe.Indexer.Stats.{RawPipeline}
use chainpipe.Indexer.Store.{NodeSpec, SpecEntry, StoreData, set_specs, empty}
use chainpipe.Indexer.Poller.{tick}
use chainpipe.Indexer.Poller.Laws.{tick_lem}
use chainpipe.Indexer.Specs.{
  SentSpec, SpecBody, spec_message, fill_nodes, check_signed, store_specs, post_spec,
  post_spec_present, text_or_empty, with_node_spec, bare_node, with_specs, is_absent,
}

module _ (pf : Platform) where
  -- The entry of a pipeline was made of specs that its consumer signed for that pipeline.
  pub record IsSigned (pipeline : Text) (entry : SpecEntry) : Type 0 where
    pub sent : List SentSpec
    pub signature : Bytes
    pub key : PublicKey
    pub parsed : pf.parse_key entry.consumer ≡ ok key
    pub verified : pf.verify_detached (spec_message pipeline sent) signature key ≡ ok true
    pub made : entry.nodes ≡ fill_nodes sent []

  abbrev pub IsAuthentic : StoreData → Type 0
  IsAuthentic d =
      (pipeline : Text) (entry : SpecEntry)
      → lookup text_eq pipeline d.specs ≡ some entry
      → IsSigned pipeline entry

  set_specs-IsAuthentic :
      (pipeline consumer : Text) (sent : List SentSpec) (d : StoreData) (signature : Bytes)
      (key : PublicKey)
      → pf.parse_key consumer ≡ ok key
      → pf.verify_detached (spec_message pipeline sent) signature key ≡ ok true
      → IsAuthentic d
      → IsAuthentic (set_specs pipeline consumer (fill_nodes sent []) d)
  unfolding set_specs
  set_specs-IsAuthentic pipeline consumer sent d signature key parsed verified h p entry e =
      elim (Bool-cases (text_eq pipeline p)) [
        | inl same ↦
            let fresh : SpecEntry = record { consumer = consumer; nodes = fill_nodes sent [] } in
            let its : IsSigned pipeline fresh = record {
              sent = sent;
              signature = signature;
              key = key;
              parsed = parsed;
              verified = verified;
              made = refl;
            } in
            let stored_entry : fresh ≡ entry =
              ground (arith, lookup-write p pipeline fresh d.specs, same) in
            subst (λ q. IsSigned q entry) (text_eq_sound pipeline p same)
              (subst (IsSigned pipeline) stored_entry its)
        | inr other ↦ h p entry (
            ground (
              arith,
              lookup-write p pipeline (record { consumer = consumer; nodes = fill_nodes sent [] })
                  d.specs,
              other,
            ))
      ]

  store_specs-IsAuthentic :
      (pipeline consumer signature : Text) (sent : List SentSpec) (d : StoreData) (r : Result Bool)
      → check_signed pf pipeline consumer signature sent ≡ r
      → IsAuthentic d
      → IsAuthentic (store_specs pf pipeline consumer sent r d).1
  store_specs-IsAuthentic pipeline consumer signature sent d (throws e) c h = h
  store_specs-IsAuthentic pipeline consumer signature sent d (ok false) c h = h
  store_specs-IsAuthentic pipeline consumer signature sent d (ok true) c h =
      elim (Result-cases (pf.parse_key consumer)) [
        | inr bad ↦ ground arith
        | inl (key, parsed) ↦
            set_specs-IsAuthentic pipeline consumer sent d (from_base64 signature) key parsed
              (ground arith) h
      ]

  present-IsAuthentic :
      (pipeline consumer signature : Text) (sent : Option (List SentSpec)) (d : StoreData)
      → IsAuthentic d
      → IsAuthentic (post_spec_present pf pipeline consumer signature sent d).1
  present-IsAuthentic pipeline consumer signature none d h = h
  present-IsAuthentic pipeline consumer signature (some sent) d h =
      store_specs-IsAuthentic pipeline consumer signature sent d _ refl h

  post_spec-IsAuthentic :
      (body : SpecBody) (d : StoreData) → IsAuthentic d → IsAuthentic (post_spec pf body d).1
  unfolding post_spec
  post_spec-IsAuthentic body d h =
      elim (Bool-cases
        (is_absent body.pipeline_pda || is_absent body.consumer || is_absent body.signature)) [
          | inl absent ↦
              subst IsAuthentic {x = d} {y = (post_spec pf body d).1} (ground (arith, absent)) h
          | inr full ↦
              subst IsAuthentic
                {x = (post_spec_present pf (text_or_empty body.pipeline_pda)
                  (text_or_empty body.consumer) (text_or_empty body.signature) body.specs d).1}
                {y = (post_spec pf body d).1} (ground (arith, full))
                (present-IsAuthentic (text_or_empty body.pipeline_pda) (text_or_empty body.consumer)
                  (text_or_empty body.signature) body.specs d h)
        ]

  tick-IsAuthentic :
      (a : Addresses) (net : Network) (now : ℕ) (d : StoreData) (s : Session)
      → IsAuthentic d
      → IsAuthentic (tick pf a net now d s).0
  tick-IsAuthentic a net now d s h = elim (tick_lem pf a net now d s) [
    | inl (same, threw) ↦ subst IsAuthentic (sym same) h
    | inr done ↦ λ p entry e. h p entry (ap (lookup text_eq p) (sym done.specs_kept) ∙ e)
  ]

  -- The changes of the store: a request to /spec, or a poll.
  pub data Step (a : Addresses) (net : Network) : StoreData → StoreData → Type 0 where
    posted : {d : StoreData} (body : SpecBody) → Step a net d (post_spec pf body d).1
    polled : {d : StoreData} (now : ℕ) (s : Session) → Step a net d (tick pf a net now d s).0

  pub data Reachable (a : Addresses) (net : Network) : StoreData → Type 0 where
    started : Reachable a net empty
    stepped : {d d' : StoreData} → Reachable a net d → Step a net d d' → Reachable a net d'

  Step-IsAuthentic :
      (a : Addresses) (net : Network) {d d' : StoreData}
      → Step a net d d'
      → IsAuthentic d
      → IsAuthentic d'
  Step-IsAuthentic a net (posted {d} body) h = post_spec-IsAuthentic body d h
  Step-IsAuthentic a net (polled {d} now s) h = tick-IsAuthentic a net now d s h

  Reachable-IsAuthentic :
      (a : Addresses) (net : Network) {d : StoreData} → Reachable a net d → IsAuthentic d
  Reachable-IsAuthentic a net started = λ p entry e. ground arith
  Reachable-IsAuthentic a net (stepped r s) =
      Step-IsAuthentic a net s (Reachable-IsAuthentic a net r)

  -- The specs were signed for this pipeline by this key, and the spec stands for this index in them.
  pub record IsSignedSpec (pipeline : Text) (key : PublicKey) (index : ℕ) (spec : NodeSpec)
      : Type 0 where
    pub sent : List SentSpec
    pub signature : Bytes
    pub verified : pf.verify_detached (spec_message pipeline sent) signature key ≡ ok true
    pub listed : lookup ◌==◌ index (fill_nodes sent []) ≡ some spec

  with_node_spec-listed :
      (entry : SpecEntry) (nodes : List PipelineNode) (i : ℕ) (n : PipelineNode) (spec : NodeSpec)
      → get_elem? (map (with_node_spec entry) nodes) i ≡ some (n, some spec)
      → (get_elem? nodes i ≡ some n) × (lookup ◌==◌ n.node_index entry.nodes ≡ some spec)
  with_node_spec-listed entry [] i n spec e = ground arith
  with_node_spec-listed entry (m ∷ nodes) zero n spec e = ground arith
  with_node_spec-listed entry (m ∷ nodes) (suc i) n spec e =
      with_node_spec-listed entry nodes i n spec e

  bare_node-unlisted :
      (nodes : List PipelineNode) (i : ℕ) (n : PipelineNode) (spec : NodeSpec)
      → get_elem? (map bare_node nodes) i ≢ some (n, some spec)
  bare_node-unlisted [] i n spec e = ground arith
  bare_node-unlisted (m ∷ nodes) zero n spec e = ground arith
  bare_node-unlisted (m ∷ nodes) (suc i) n spec e = bare_node-unlisted nodes i n spec e

  -- After any requests and polls, whoever sent them: a spec that is served with the i-th node of a
  -- pipeline stands for that node's index in specs that were signed for this pipeline with the key
  -- of the consumer that the pipeline names on the chain, provided a key printed in base 58 is
  -- read back as that key.
  pub served_spec_signed :
      (a : Addresses) (net : Network) (d : StoreData) (p : RawPipeline) (i : ℕ) (n : PipelineNode)
      (spec : NodeSpec)
      → Reachable a net d
      → ((k : PublicKey) → pf.parse_key (pf.to_base58 k) ≡ ok k)
      → get_elem? (with_specs pf d p) i ≡ some (n, some spec)
      → (get_elem? p.view.nodes i ≡ some n)
        × IsSignedSpec (pf.to_base58 p.address) p.view.account.consumer n.node_index spec
  unfolding with_specs
  served_spec_signed a net d p i n spec r law e =
      elim (Option-cases (lookup text_eq (pf.to_base58 p.address) d.specs)) [
        | inl missing ↦ absurd (bare_node-unlisted p.view.nodes i n spec (ground (arith, missing)))
        | inr (entry, here) ↦
            elim (Bool-cases (text_eq entry.consumer (pf.to_base58 p.view.account.consumer))) [
              | inr other ↦
                  absurd (bare_node-unlisted p.view.nodes i n spec (ground (arith, here, other)))
              | inl same ↦
                  let s = Reachable-IsAuthentic a net r (pf.to_base58 p.address) entry here in
                  let its =
                    with_node_spec-listed entry p.view.nodes i n spec
                      (ground (arith, here, same)) in
                  let its_key : s.key ≡ p.view.account.consumer = ok-injective (
                    sym s.parsed
                    ∙ ap pf.parse_key (text_eq_sound _ _ same)
                    ∙ law p.view.account.consumer) in
                  (
                    its.0,
                    record {
                      sent = s.sent;
                      signature = s.signature;
                      verified =
                          subst
                            (λ k.
                              pf.verify_detached (spec_message (pf.to_base58 p.address) s.sent)
                                s.signature k
                              ≡ ok true)
                            its_key s.verified;
                      listed = ap (lookup ◌==◌ n.node_index) (sym s.made) ∙ its.1;
                    },
                  )
            ]
      ]
