-- ===== src/Sdk/Client/Places.antt =====
-- At which place of `nodes` getPipeline of sdk/src/pipeline.ts puts a node.
use chainpipe.Base.{
  ℕ, zero, suc, ◌+◌, ◌<◌, ◌≡◌, refl, ap, ◌∙◌, sym, List, [], ◌∷◌, Option, some, length, get_elem?,
  arith,
}
use chainpipe.Base.Results.{Result, ok}
use chainpipe.Sdk.Platform.{Platform, PublicKey}
use chainpipe.Sdk.Accounts.{Addresses, PipelineNode, PipelineAccount}
use chainpipe.Sdk.Pdas.{node_pda}
use chainpipe.Sdk.Network.{Network, Session}
use chainpipe.Sdk.Client.Reads.{fetch_nodes, get_pipeline}

module _ (pf : Platform) (a : Addresses) (net : Network) where
  -- The j-th node of a list is the answer to the j-th of the questions asked from t on, which is for
  -- the node with index i + j.
  pub record IsPlaced (pipeline : PublicKey) (t i : ℕ) (out : List PipelineNode) : Type 0 where
    pub answers :
        (j : ℕ) (n : PipelineNode)
        → get_elem? out j ≡ some n
        → net.node (t + j) (node_pda pf a pipeline (i + j)) ≡ ok (some n)

  moved :
      (pipeline : PublicKey) (t t' i i' : ℕ) (r : Result (Option PipelineNode))
      → t ≡ t'
      → i ≡ i'
      → net.node t (node_pda pf a pipeline i) ≡ r
      → net.node t' (node_pda pf a pipeline i') ≡ r
  moved pipeline t t' i i' r p q h =
      sym (ap (λ x. net.node x (node_pda pf a pipeline i')) p)
      ∙ sym (ap (λ x. net.node t (node_pda pf a pipeline x)) q)
      ∙ h

  cons-IsPlaced :
      (pipeline : PublicKey) (t i : ℕ) (n : PipelineNode) (rest : List PipelineNode)
      → net.node t (node_pda pf a pipeline i) ≡ ok (some n)
      → IsPlaced pipeline (suc t) (suc i) rest
      → (j : ℕ) (m : PipelineNode) → get_elem? (n ∷ rest) j ≡ some m
      → net.node (t + j) (node_pda pf a pipeline (i + j)) ≡ ok (some m)
  cons-IsPlaced pipeline t i n rest here placed zero m e =
      let same : n ≡ m = ground (arith, e) in
      moved pipeline t (t + 0) i (i + 0) (ok (some m)) (omega arith) (omega arith)
        (here ∙ ap (λ x. ok (some x)) same)
  cons-IsPlaced pipeline t i n rest here placed (suc j) m e =
      moved pipeline (suc t + j) (t + suc j) (suc i + j) (i + suc j) (ok (some m)) (omega arith)
        (omega arith) (placed.answers j m e)

  -- The questions of the loop that has k rounds left at index i, asked from t on, find an account.
  abbrev pub AllFound : PublicKey → ℕ → ℕ → ℕ → Type 0
  AllFound pipeline k t i =
      (j : ℕ)
      → j < k
      → (n : PipelineNode) × (net.node (t + j) (node_pda pf a pipeline (i + j)) ≡ ok (some n))

  all_but_first :
      (pipeline : PublicKey) (k t i : ℕ)
      → AllFound pipeline (suc k) t i
      → AllFound pipeline k (suc t) (suc i)
  all_but_first pipeline k t i found j h =
      let (n, here) = found (suc j) (omega (arith, h)) in
      (
        n,
        moved pipeline (t + suc j) (suc t + j) (i + suc j) (suc i + j) (ok (some n)) (omega arith)
            (omega arith) here,
      )

  fetch_nodes-IsPlaced :
      (pipeline : PublicKey) (k i : ℕ) (s : Session)
      → AllFound pipeline k s.asked i
      → (out : List PipelineNode) × ((fetch_nodes pf a net pipeline k i s).0 ≡ ok out)
        × (length out ≡ k)
        × IsPlaced pipeline s.asked i out
  unfolding fetch_nodes
  fetch_nodes-IsPlaced pipeline zero i s found =
      ([], refl, refl, record { answers = λ j n h. ground (arith, h) })
  fetch_nodes-IsPlaced pipeline (suc k) i s found =
      let (n, first) = found 0 (omega arith) in
      let here : net.node s.asked (node_pda pf a pipeline i) ≡ ok (some n) =
        moved pipeline (s.asked + 0) s.asked (i + 0) i (ok (some n)) (omega arith) (omega arith)
          first in
      let later : Session = record s { asked = suc s.asked } in
      let (rest, got, size, placed) =
        fetch_nodes-IsPlaced pipeline k (suc i) later (all_but_first pipeline k s.asked i found) in
      (
        n ∷ rest,
        ground (arith, here, got),
        ap suc size,
        record { answers = cons-IsPlaced pipeline s.asked i n rest here placed },
      )

  -- If the pipeline's account is found, and after it, one after the other, the node accounts of the
  -- indices below the number of nodes that it counts, then getPipeline gives the account with that
  -- many nodes, and the j-th of them is what was read at the derived address of index j.
  pub get_pipeline-IsPlaced :
      (pipeline : PublicKey) (s : Session) (account : PipelineAccount)
      → net.pipeline s.asked pipeline ≡ ok (some account)
      → AllFound pipeline account.total_nodes (suc s.asked) 0
      → (nodes : List PipelineNode) × ((get_pipeline pf a net pipeline s).0
          ≡ ok (some (record { account = account; nodes = nodes })))
        × (length nodes ≡ account.total_nodes)
        × IsPlaced pipeline (suc s.asked) 0 nodes
  unfolding get_pipeline
  get_pipeline-IsPlaced pipeline s account there found =
      let later : Session = record s { asked = suc s.asked } in
      let (nodes, got, size, placed) =
        fetch_nodes-IsPlaced pipeline account.total_nodes 0 later found in
      (nodes, ground (arith, there, got), size, placed)
