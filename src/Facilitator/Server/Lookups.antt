-- ===== src/Facilitator/Server/Lookups.antt =====
-- POST /hash and GET /settlement of facilitator/src/server.ts.
use chainpipe.Base.{ℕ, ◌+◌, Option, none, some, if◌then◌else◌}
use chainpipe.Base.Text.{Text, to_uint8}
use chainpipe.Base.Encodings.{to_hex}
use chainpipe.Base.Results.{ok, throws}
use chainpipe.Sdk.Platform.{Platform}
use chainpipe.Sdk.Accounts.{NodeSettlement}
use chainpipe.Sdk.Uri.{decode_uri}
use chainpipe.Sdk.Delivery.{resolve_uri}
use chainpipe.Sdk.Network.{Network, Session, HttpResponse, ask}
use chainpipe.Sdk.Client.Reads.{get_settlement}
use chainpipe.Facilitator.Service.{
  Config, F, lift, call, ◌>>=◌, Seen, Response, respond, answered, error, unfetched, hash_failed,
  result_hash, settlement,
}
use chainpipe.Facilitator.Server.Settle.{dispute_slots, or_empty, is_missing}

module _ (pf : Platform) (cfg : Config) (net : Network) where
  abbrev pub hash_fetched : HttpResponse → F Response
  hash_fetched resp =
      if resp.is_ok
      then (do bytes ← lift resp.body; respond 200 (result_hash (to_hex (pf.sha256 bytes))))
      else respond 400 (unfetched resp.status)

  -- The `catch` of /hash.
  abbrev pub hash_answered : F Response → Seen → Session → Response × Seen × Session
  hash_answered m seen s =
      let (r, seen', s') = m seen s in
      elim r [
        | ok response ↦ (response, seen', s')
        | throws e ↦ (record { status = 502; body = hash_failed e }, seen', s')
      ]

  unfoldable pub hash : Option Text → Seen → Session → Response × Seen × Session
  hash uri = hash_answered (
      if is_missing uri
      then respond 400 (error "uri required")
      else call (ask (λ t. net.http t (resolve_uri cfg.gateway (or_empty uri)))) >>= hash_fetched)

  abbrev pub show_settlement : Option NodeSettlement → F Response
  show_settlement none = respond 404 (error "settlement not found")
  show_settlement (some s) = respond 200 (
      settlement (decode_uri s.uri s.uri_len) (to_hex (to_uint8 s.result_hash)) s.submitted_at_slot
        (s.submitted_at_slot + dispute_slots) s.disputed)

  -- The two path parameters, parsed.
  unfoldable pub read_settlement : Text → ℕ → Seen → Session → Response × Seen × Session
  read_settlement pipeline_pda i = answered 500 (do
    pipeline ← lift (pf.parse_key pipeline_pda)
    s ← call (get_settlement pf cfg.addresses net pipeline i)
    show_settlement s)
