-- ===== src/Facilitator/Replay.antt =====
-- facilitator/src/replay.ts: the replay guard, a set in memory before the job records on the chain.
pub mod Laws
use chainpipe.Base.{Bool, true, false, ◌||◌, List, [], ◌∷◌, Option, none, some, if◌then◌else◌}
use chainpipe.Base.Text.{Bytes, Text}
use chainpipe.Base.Encodings.{text_eq, to_hex}
use chainpipe.Sdk.Platform.{Platform}
use chainpipe.Sdk.Accounts.{Addresses, JobRecord}
use chainpipe.Sdk.Network.{Network}
use chainpipe.Sdk.Client.Reads.{get_job_record}
use chainpipe.Facilitator.Service.{Seen, F, pure, call, ◌>>=◌}

-- `seen.has(key)` and `seen.add(key)`
abbrev pub has_key : Text → Seen → Bool
has_key k [] = false
has_key k (j ∷ seen) = text_eq j k || has_key k seen

abbrev pub add_key : Text → Seen → Seen
add_key k seen = if has_key k seen then seen else k ∷ seen

unfoldable pub mark_recorded : Bytes → F (Unit {0})
mark_recorded job_id seen s = pure tt (add_key (to_hex job_id) seen) s

module _ (pf : Platform) (a : Addresses) (net : Network) where
  abbrev remember : Bytes → Option JobRecord → F Bool
  remember job_id none seen s = pure false seen s
  remember job_id (some _) seen s = pure true (add_key (to_hex job_id) seen) s

  unfoldable pub is_replay : Bytes → F Bool
  unfolding get_job_record
  is_replay job_id seen s =
      if has_key (to_hex job_id) seen
      then pure true seen s
      else (call (get_job_record pf a net job_id) >>= remember job_id) seen s
