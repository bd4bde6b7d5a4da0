-- ===== src/Indexer/Store.antt =====
-- indexer/src/store.ts: what the indexer keeps. The objects of SpecStore, keyed by texts and by
-- node indices, are association lists in which a key occurs once; pipelines and agents stand as
-- they were fetched, before `serialize`; the file behind the store, which only serves a restart, is
-- left out.
use chainpipe.Base.{ℕ, List, [], Option, none, some}
use chainpipe.Base.Maps.{write}
use chainpipe.Base.Text.{Text}
use chainpipe.Base.Encodings.{text_eq}
use chainpipe.Sdk.Client.Reads.{AgentWithReputation}
use chainpipe.Indexer.Stats.{RawPipeline, Stats}

pub record NodeSpec : Type 0 where
  pub skill : Text
  pub description : Text
  pub input_uri : Text

-- `{ consumer, nodes }`
pub record SpecEntry : Type 0 where
  pub consumer : Text
  pub nodes : List (ℕ × NodeSpec)

abbrev pub SpecStore : Type 0
SpecStore = List (Text × SpecEntry)

pub record StoreData : Type 0 where
  pub pipelines : List RawPipeline
  pub agents : List AgentWithReputation
  pub stats : Option Stats
  pub specs : SpecStore
  pub updated_at : ℕ

abbrev pub empty : StoreData
empty = record { pipelines = []; agents = []; stats = none; specs = []; updated_at = 0 }

unfoldable pub update :
    List RawPipeline → List AgentWithReputation → Stats → ℕ → StoreData → StoreData
update pipelines agents stats updated_at data_kept = record {
  pipelines = pipelines;
  agents = agents;
  stats = some stats;
  specs = data_kept.specs;
  updated_at = updated_at;
}

unfoldable pub set_specs : Text → Text → List (ℕ × NodeSpec) → StoreData → StoreData
set_specs pipeline consumer nodes data_kept = record data_kept {
  specs = write text_eq pipeline (record { consumer = consumer; nodes = nodes }) data_kept.specs;
}
