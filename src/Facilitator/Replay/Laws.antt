-- ===== src/Facilitator/Replay/Laws.antt =====
-- The replay guard of facilitator/src/replay.ts.
use chainpipe.Base.{
  ◌≡◌, ap, ◌∙◌, ◌↔◌, true, Bool, some, arith, inl, inr, Option-cases, Bool-cases, ◌⊎◌,
}
use chainpipe.Base.Results.{ok, Result-cases}
use chainpipe.Base.Text.{Bytes, Text}
use chainpipe.Base.Encodings.{to_hex, text_eq_refl}
use chainpipe.Sdk.Platform.{Platform}
use chainpipe.Sdk.Accounts.{Addresses, JobRecord}
use chainpipe.Sdk.Network.{Network, Session}
use chainpipe.Sdk.Client.Reads.{get_job_record}
use chainpipe.Facilitator.Service.{Seen}
use chainpipe.Facilitator.Replay.{has_key, add_key, is_replay}

pub has_key-add_key : (k : Text) (seen : Seen) → has_key k (add_key k seen) ≡ true
has_key-add_key k seen = ground (arith, text_eq_refl k)

add_key_keeps :
    (k j : Text) (seen : Seen) → has_key k seen ≡ true → has_key k (add_key j seen) ≡ true
add_key_keeps k j seen h = ground arith

module _ (pf : Platform) (a : Addresses) (net : Network) where
  -- When the guard answers, its answer is yes exactly if the job's key was in memory or the
  -- registry holds a record of the job.
  pub is_replay_iff :
      (job : Bytes) (seen : Seen) (s : Session) (b : Bool)
      → (is_replay pf a net job seen s).0 ≡ ok b
      → (b ≡ true)
        ↔ (has_key (to_hex job) seen ≡ true)
          ⊎ ((r : JobRecord) × ((get_job_record pf a net job s).0 ≡ ok (some r)))
  unfolding is_replay
  is_replay_iff job seen s b e = elim (Bool-cases (has_key (to_hex job) seen)) [
    | inl held ↦ (λ _. inl held, λ _. ground (arith, held))
    | inr new ↦ elim (Result-cases (get_job_record pf a net job s).0) [
      | inr bad ↦ ground (arith, new, bad)
      | inl (found, got) ↦ elim (Option-cases found) [
        | inl missing ↦ ground (arith, new, got, missing)
        | inr (r, here) ↦ (λ _. inr (r, got ∙ ap ok here), λ _. ground (arith, new, got, here))
      ]
    ]
  ]

  -- A job that the guard called a replay it calls a replay again in any later session with the
  -- network, without a question to it and without a change.
  pub is_replay_remembers :
      (job : Bytes) (seen : Seen) (s : Session)
      → (is_replay pf a net job seen s).0 ≡ ok true
      → (t : Session)
      → is_replay pf a net job (is_replay pf a net job seen s).1 t
        ≡ (ok true, (is_replay pf a net job seen s).1, t)
  unfolding is_replay
  is_replay_remembers job seen s e t = ground (arith, has_key-add_key (to_hex job) seen)

  -- A key that was in memory is still there.
  pub is_replay_keeps :
      (k : Text) (job : Bytes) (seen : Seen) (s : Session)
      → has_key k seen ≡ true
      → has_key k (is_replay pf a net job seen s).1 ≡ true
  unfolding is_replay
  is_replay_keeps k job seen s h = ground (arith, add_key_keeps k (to_hex job) seen h)
