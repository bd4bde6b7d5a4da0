-- ===== src/Sdk/Tests.antt =====
-- The theorems on the client applied to concrete keys, texts and calls.
use chainpipe.Base.{
  suc, get_elem?, some, ℕ, ◌%◌, ◌≡◌, ◌↔◌, refl, true, List, [], ◌∷◌, replicate, length, arith,
}
use chainpipe.Base.Int.{pos}
use chainpipe.Base.Results.{ok}
use chainpipe.Base.Text.{Bytes, codes, strip_bom, text_encode}
use chainpipe.Samples.{
  platform, platform-DigestLaw, addresses, account, pipeline_key, node, network, start,
}
use chainpipe.Idl.DagEscrow
use chainpipe.Sdk.Accounts.{Addresses, PipelineAccount, PipelineNode, NodeSettlement}
use chainpipe.Sdk.Uri.{
  EncodedUri, max_uri_len, padded, encode_uri, encode_uri_fits, decode_uri, decode_uri-encode_uri,
}
use chainpipe.Sdk.Pdas.{node_pda}
use chainpipe.Sdk.Calls.Pipeline.{writable_meta, expire_node_call}
use chainpipe.Sdk.Calls.Cascade.{expire_node_call_others}
use chainpipe.Sdk.Calls.Settlement.{complete_node_call}
use chainpipe.Sdk.Platform.{Platform}
use chainpipe.Sdk.Deployment.{devnet_addresses}
use chainpipe.Sdk.Calls.Shape.{number, byte_list}
use chainpipe.Sdk.Conforms.{Conforms}
use chainpipe.Sdk.Conforms.Laws.{completes, SdkCall-Conforms}
use chainpipe.Sdk.Network.{HttpResponse}
use chainpipe.Sdk.Client.Reads.{get_pipeline}
use chainpipe.Sdk.Client.Places.{IsPlaced, get_pipeline-IsPlaced}
use chainpipe.Sdk.Delivery.{DeliveryCheck, delivery_message, resolve_uri, verify_delivery}
use chainpipe.Sdk.Delivery.Laws.{delivery_message-injective, verify_delivery_iff, IsDelivery}

-- A platform that takes each text for the key it spells.
abbrev spelled : Platform
spelled = record platform {
  token_program_id = codes "TokenkegQfeZyiNwAJbNbGKPFXCWuBvf9Ss623VQ5DA";
  associated_token_program_id = codes "ATokenGPvbdGVxr1b2hvZbsiqW5xWH25efTNsLJA8knL";
  system_program_id = codes "11111111111111111111111111111111";
}

abbrev devnet : Addresses
devnet = record {
  bonded_registry = codes "26AB6S5crQAkhfx928bnWSHfpQE6wp2Sdt4afFtk7crq";
  dag_escrow = codes "3FqvkzppD4ciwkGLrcNoTHUCeHwNbWtot18CkrBdXiJd";
  reputation_bridge = codes "6RRfs1Ho1bJ3JWXSy3xVth4BTGHWwVwum74ph2LRWWsf";
  usdc_mint = codes "4zMMC9srt5Ri5X14GAgXhaHii3GnPAEERYPJgZJDncDU";
}

abbrev own_mint : Addresses
own_mint = record devnet { usdc_mint = 4 ∷ [] }

devnet_read : devnet_addresses spelled ≡ ok devnet
unfolding devnet_addresses
devnet_read = refl

SdkCall-Conforms_example :
    Conforms spelled DagEscrow.complete_node
      (complete_node_call spelled own_mint
        (8 ∷ [])
        pipeline_key
        0
        (60 ∷ [])
        800
        (9 ∷ [])
        (replicate 32 3)
        node)
      (("nodeIndex", number 0)
        ∷ ("scoreDelta", number 800)
        ∷ ("resultHash", byte_list (replicate 32 3))
        ∷ [])
SdkCall-Conforms_example =
    SdkCall-Conforms spelled (4 ∷ []) devnet (λ mint owner. refl)
      (record { token = refl; associated = refl; system = refl }) devnet_read
      (completes (8 ∷ []) pipeline_key 0 (60 ∷ []) 800 (9 ∷ []) (replicate 32 3) node (omega arith)
        (omega arith) refl)

message_parts : IsDelivery (replicate 32 1) (replicate 32 2) (replicate 32 3)
message_parts = record {
  pipeline_size = refl;
  job_size = refl;
  result_size = refl;
  pipeline_bytes = ground arith;
  job_bytes = ground arith;
  result_bytes = ground arith;
}

-- Node 1 and node 257 are signed for alike.
same_message :
    delivery_message platform (replicate 32 1) 1 (replicate 32 2) (replicate 32 3) (4 ∷ [])
    ≡ delivery_message platform (replicate 32 1) 257 (replicate 32 2) (replicate 32 3) (5 ∷ [])
unfolding delivery_message
same_message = refl

abbrev filled : ℕ → Bytes
filled b = replicate 32 b

delivery_message-injective_example :
    (filled 1 ≡ filled 1)
    × (1 % 256 ≡ 257 % 256)
    × (filled 2 ≡ filled 2)
    × (filled 3 ≡ filled 3)
    × (platform.sha256 (4 ∷ []) ≡ platform.sha256 (5 ∷ []))
delivery_message-injective_example =
    delivery_message-injective platform (replicate 32 1) (replicate 32 1) 1 257 (replicate 32 2)
      (replicate 32 2) (replicate 32 3) (replicate 32 3) (4 ∷ []) (5 ∷ []) platform-DigestLaw
      message_parts message_parts same_message

abbrev settled_record : NodeSettlement
settled_record = record {
  node = 1 ∷ [];
  result_hash = 3 ∷ replicate 31 0;
  uri = codes "https://x";
  uri_len = 9;
  submitted_at_slot = 1;
  dispute_slots = 150;
  score_delta = pos 900;
  disputed = true;
  bump = 1;
}

verify_delivery_iff_example :
    ((c : DeliveryCheck) × ((verify_delivery platform network settled_record
          (codes "https://gw")
          start).0
        ≡ ok c)
      × (c.is_ok ≡ true))
    ↔ ((resp : HttpResponse) × (bytes : Bytes) × (network.http start.asked (
            resolve_uri (codes "https://gw") (decode_uri settled_record.uri settled_record.uri_len))
          ≡ ok resp)
        × (resp.is_ok ≡ true)
        × (resp.body ≡ ok bytes)
        × (platform.sha256 bytes ≡ settled_record.result_hash))
verify_delivery_iff_example =
    verify_delivery_iff platform network settled_record (codes "https://gw") start
      platform-DigestLaw (ground arith)

abbrev letters : EncodedUri
letters = padded (104 ∷ 105 ∷ [])

letters_encoded : encode_uri (104 ∷ 105 ∷ []) ≡ ok letters
unfolding text_encode
letters_encoded = encode_uri_fits (104 ∷ 105 ∷ []) (ground arith)

decode_uri-encode_uri_example :
    (length letters.bytes ≡ max_uri_len)
    × (decode_uri letters.bytes letters.len ≡ strip_bom (104 ∷ 105 ∷ []))
decode_uri-encode_uri_example =
    decode_uri-encode_uri (104 ∷ 105 ∷ []) (ground arith) letters_encoded

get_pipeline-IsPlaced_example :
    (nodes : List PipelineNode) × ((get_pipeline platform addresses network pipeline_key start).0
      ≡ ok (some (record { account = account; nodes = nodes })))
    × (length nodes ≡ 1)
    × IsPlaced platform addresses network pipeline_key 1 0 nodes
get_pipeline-IsPlaced_example =
    get_pipeline-IsPlaced platform addresses network pipeline_key start account refl
      (λ j h. (node, refl))

abbrev three_nodes : PipelineAccount
three_nodes = record account { total_nodes = 3 }

-- Of three nodes the second is expired: the third account comes at place 1.
expire_node_call_others_example :
    let metas =
      (expire_node_call platform addresses (8 ∷ []) pipeline_key 1 node three_nodes).remaining in
    (suc (length metas) ≡ 3)
    × (get_elem? metas 1
        ≡ some (writable_meta platform addresses (node_pda platform addresses pipeline_key 2)))
expire_node_call_others_example =
    expire_node_call_others platform addresses pipeline_key 1 (8 ∷ []) node three_nodes 2
      (omega arith) (omega arith) (ground arith)
