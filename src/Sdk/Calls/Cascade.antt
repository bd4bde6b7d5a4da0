-- ===== src/Sdk/Calls/Cascade.antt =====
-- The node accounts that expireNode of sdk/src/pipeline.ts passes along for the cascade.
use chainpipe.Base.{
  ℕ, zero, suc, ◌+◌, ◌-◌, ◌≤◌, ◌<◌, ◌≡◌, ◌≢◌, refl, ap, sym, ◌∙◌, some, false, ◌&&◌, ltb, leb, ◌==◌,
  if◌then◌else◌, length, get_elem?, arith, inl, inr, Bool-cases,
}
use chainpipe.Sdk.Platform.{Platform, PublicKey}
use chainpipe.Sdk.Accounts.{Addresses, PipelineNode, PipelineAccount}
use chainpipe.Sdk.Pdas.{node_pda}
use chainpipe.Sdk.Calls.Pipeline.{writable_meta, other_metas_from, expire_node_call}

-- The place of index j among the indices from i on less the target.
abbrev pub place : ℕ → ℕ → ℕ → ℕ
place target i j = if leb i target && ltb target j then j - i - 1 else j - i

module _ (pf : Platform) (a : Addresses) (pipeline : PublicKey) (target : ℕ) where
  length-others_past :
      (k i : ℕ) → target < i → length (other_metas_from pf a pipeline target k i) ≡ k
  length-others_past zero i h = refl
  length-others_past (suc k) i h =
      let other : (i == target) ≡ false = ground arith in
      ground (arith, other, length-others_past k (suc i) (omega arith))

  length-others :
      (k i : ℕ)
      → i ≤ target
      → target < i + k
      → suc (length (other_metas_from pf a pipeline target k i)) ≡ k
  length-others zero i h l = absurd (omega arith)
  length-others (suc k) i h l = elim (Bool-cases (i == target)) [
    | inl same ↦
        let past : target < suc i = ground (arith, same) in
        ground (arith, same, length-others_past k (suc i) past)
    | inr other ↦
        let before : suc i ≤ target = ground (arith, other) in
        ground (arith, other, length-others k (suc i) before (omega arith))
  ]

  others_place :
      (k i j : ℕ)
      → i ≤ j
      → j < i + k
      → j ≢ target
      → get_elem? (other_metas_from pf a pipeline target k i) (place target i j)
        ≡ some (writable_meta pf a (node_pda pf a pipeline j))
  others_place zero i j h l n = absurd (omega arith)
  others_place (suc k) i j h l n = elim (Bool-cases (i == target)) [
    | inl same ↦
        let later : suc i ≤ j = ground (arith, same, n) in
        let shift : place target i j ≡ place target (suc i) j = ground (arith, same, later) in
        ground (arith, same, shift, others_place k (suc i) j later (omega arith) n)
    | inr other ↦ elim (Bool-cases (i == j)) [
      | inl here ↦
          let first : place target i j ≡ 0 = ground (arith, here) in
          let index : i ≡ j = ground (arith, here) in
          ground
            (arith, other, first, ap (λ x. writable_meta pf a (node_pda pf a pipeline x)) index)
      | inr further ↦
          let later : suc i ≤ j = ground (arith, further) in
          let shift : place target i j ≡ suc (place target (suc i) j) =
            ground (arith, other, later) in
          ground (arith, other, shift, others_place k (suc i) j later (omega arith) n)
    ]
  ]

  -- The call of expireNode passes along one account fewer than the pipeline has nodes, and for
  -- every index j but the target's, at its place in ascending order, the node account of j as
  -- writable.
  pub expire_node_call_others :
      (caller : PublicKey) (n : PipelineNode) (p : PipelineAccount) (j : ℕ)
      → target < p.total_nodes
      → j < p.total_nodes
      → j ≢ target
      → let metas = (expire_node_call pf a caller pipeline target n p).remaining in
        (suc (length metas) ≡ p.total_nodes)
        × (get_elem? metas (if ltb target j then j - 1 else j)
            ≡ some (writable_meta pf a (node_pda pf a pipeline j)))
  expire_node_call_others caller n p j h l k =
      let same : place target 0 j ≡ (if ltb target j then j - 1 else j) = ground arith in
      (
        length-others p.total_nodes 0 (omega arith) (omega arith),
        ap (get_elem? (other_metas_from pf a pipeline target p.total_nodes 0)) (sym same)
            ∙ others_place p.total_nodes 0 j (omega arith) (omega arith) k,
      )
