-- ===== src/Indexer/Specs.antt =====
-- The job specs of indexer/src/api.ts: specMessage, withSpecs and POST /spec. The fields of the
-- body and of its specs are of the expected JSON types, a field of the body that is absent being
-- `none`; a missing `specs` is no array.
pub mod Laws
use chainpipe.Base.{
  ℕ, zero, suc, ◌+◌, ◌-◌, ◌/◌, ◌<◌, List, [], ◌∷◌, ◌++◌, Bool, true, false, ◌||◌, Option, none,
  some, String, if◌then◌else◌, ltb, leb, ◌==◌, length, map,
}
use chainpipe.Base.Results.{Result, ok, throws}
use chainpipe.Base.Text.{Bytes, Text, codes, text_encode}
use chainpipe.Base.Encodings.{text_eq, decimal, from_base64}
use chainpipe.Sdk.Platform.{Platform}
use chainpipe.Sdk.Accounts.{PipelineNode}
use chainpipe.Base.Maps.{lookup, write}
use chainpipe.Indexer.Store.{NodeSpec, SpecEntry, StoreData, set_specs}
use chainpipe.Indexer.Stats.{RawPipeline}

pub record SentSpec : Type 0 where
  pub node_index : ℕ
  pub spec : NodeSpec

-- Before the first element with an index that is not smaller: a stable sort by the index.
abbrev pub insert_spec : SentSpec → List SentSpec → List SentSpec
insert_spec s [] = s ∷ []
insert_spec s (t ∷ ts) = if leb s.node_index t.node_index then s ∷ t ∷ ts else t ∷ insert_spec s ts

abbrev pub sort_specs : List SentSpec → List SentSpec
sort_specs [] = []
sort_specs (s ∷ specs) = insert_spec s (sort_specs specs)

abbrev pub spec_line : SentSpec → Text
spec_line s =
    decimal s.node_index
    ++ 0x1f ∷ s.spec.skill
    ++ 0x1f ∷ s.spec.description
    ++ 0x1f ∷ s.spec.input_uri

-- `.join("\n")`
abbrev pub join_lines : List Text → Text
join_lines [] = []
join_lines (t ∷ []) = t
join_lines (t ∷ u ∷ rest) = t ++ 10 ∷ join_lines (u ∷ rest)

unfoldable pub spec_message : Text → List SentSpec → Bytes
spec_message pipeline specs =
    text_encode (
      codes "chainpipe-spec" ++ 10 ∷ pipeline ++ 10 ∷ join_lines (map spec_line (sort_specs specs)))

-- `text.slice(0, n)`, which counts UTF-16 units: a pair that does not fit leaves its first half.
abbrev pub slice_units : ℕ → Text → Text
slice_units zero t = []
slice_units (suc n) [] = []
slice_units (suc zero) (c ∷ t) = (if ltb c 0x10000 then c else 0xd800 + (c - 0x10000) / 0x400) ∷ []
slice_units (suc (suc n)) (c ∷ t) =
    let short = slice_units (suc n) t in
    let long = slice_units n t in c ∷ (if ltb c 0x10000 then short else long)

abbrev pub cut_spec : NodeSpec → NodeSpec
cut_spec s = record {
  skill = slice_units 64 s.skill;
  description = slice_units 600 s.description;
  input_uri = slice_units 300 s.input_uri;
}

-- The loop that fills `nodes`.
abbrev pub fill_nodes : List SentSpec → List (ℕ × NodeSpec) → List (ℕ × NodeSpec)
fill_nodes [] nodes = nodes
fill_nodes (s ∷ specs) nodes = fill_nodes specs (write ◌==◌ s.node_index (cut_spec s.spec) nodes)

pub record SpecBody : Type 0 where
  pub pipeline_pda : Option Text
  pub consumer : Option Text
  pub signature : Option Text
  pub specs : Option (List SentSpec)

-- The status and, on success, the number of nodes.
pub data SpecAnswer : Type 0 where
  stored : ℕ → SpecAnswer
  missing_fields : SpecAnswer
  wrong_signature : SpecAnswer
  failed : String → SpecAnswer

abbrev pub text_or_empty : Option Text → Text
text_or_empty none = []
text_or_empty (some t) = t

abbrev pub is_absent : Option Text → Bool
is_absent none = true
is_absent (some []) = true
is_absent (some (c ∷ t)) = false

module _ (pf : Platform) where
  -- `nacl.sign.detached.verify(msg, Buffer.from(signature, "base64"), new PublicKey(consumer).toBytes())`
  abbrev pub check_signed : Text → Text → Text → List SentSpec → Result Bool
  check_signed pipeline consumer signature specs = elim (pf.parse_key consumer) [
    | ok key ↦ pf.verify_detached (spec_message pipeline specs) (from_base64 signature) key
    | throws e ↦ throws e
  ]

  abbrev pub store_specs :
      Text → Text → List SentSpec → Result Bool → StoreData → SpecAnswer × StoreData
  store_specs pipeline consumer specs (throws e) d = (failed e, d)
  store_specs pipeline consumer specs (ok false) d = (wrong_signature, d)
  store_specs pipeline consumer specs (ok true) d =
      (stored (length (fill_nodes specs [])), set_specs pipeline consumer (fill_nodes specs []) d)

  abbrev pub post_spec_present :
      Text → Text → Text → Option (List SentSpec) → StoreData → SpecAnswer × StoreData
  post_spec_present pipeline consumer signature none d = (missing_fields, d)
  post_spec_present pipeline consumer signature (some specs) d =
      store_specs pipeline consumer specs (check_signed pipeline consumer signature specs) d

  unfoldable pub post_spec : SpecBody → StoreData → SpecAnswer × StoreData
  post_spec body d =
      if is_absent body.pipeline_pda || is_absent body.consumer || is_absent body.signature
      then (missing_fields, d)
      else post_spec_present (text_or_empty body.pipeline_pda) (text_or_empty body.consumer)
          (text_or_empty body.signature) body.specs d

-- `{ ...n, ...(entry.nodes[n.nodeIndex] ?? {}) }`: a node with the spec shown beside it.
abbrev pub with_node_spec : SpecEntry → PipelineNode → PipelineNode × Option NodeSpec
with_node_spec entry n = (n, lookup ◌==◌ n.node_index entry.nodes)

abbrev pub bare_node : PipelineNode → PipelineNode × Option NodeSpec
bare_node n = (n, none)

module _ (pf : Platform) where
  abbrev pub with_entry : RawPipeline → Option SpecEntry → List (PipelineNode × Option NodeSpec)
  with_entry p none = map bare_node p.view.nodes
  with_entry p (some entry) =
      if text_eq entry.consumer (pf.to_base58 p.view.account.consumer)
      then map (with_node_spec entry) p.view.nodes
      else map bare_node p.view.nodes

  -- The nodes that `withSpecs` serves for a pipeline.
  unfoldable pub with_specs : StoreData → RawPipeline → List (PipelineNode × Option NodeSpec)
  with_specs d p = with_entry p (lookup text_eq (pf.to_base58 p.address) d.specs)
