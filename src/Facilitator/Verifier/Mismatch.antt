-- ===== src/Facilitator/Verifier/Mismatch.antt =====
-- When facilitator/src/verifier.ts takes a delivery for disproved, and when it lets a node expire.
use chainpipe.Base.{◌≡◌, ◌≢◌, ◌↔◌, ap, Bool, true, false, arith, inl, inr, Bool-cases}
use chainpipe.Base.Results.{ok, Result-cases}
use chainpipe.Base.Text.{Bytes, Text, AllBytes}
use chainpipe.Base.Encodings.{text_eq, text_eq_sound, text_eq_refl, to_hex, to_hex-injective}
use chainpipe.Sdk.Platform.{Platform}
use chainpipe.Sdk.Delivery.{resolve_uri}
use chainpipe.Sdk.Delivery.Laws.{DigestLaw}
use chainpipe.Sdk.Network.{Network, HttpResponse, Session}
use chainpipe.Facilitator.Service.{Config}
use chainpipe.Facilitator.Verifier.{is_http, delivery_hash_mismatch}

module _ (pf : Platform) (cfg : Config) (net : Network) where
  -- The pointer was fetched, and other bytes came than those with this digest.
  pub record IsDisproved (uri : Text) (result : Bytes) (s : Session) : Type 0 where
    pub resp : HttpResponse
    pub bytes : Bytes
    pub supported : is_http (resolve_uri cfg.gateway uri) ≡ true
    pub fetched : net.http s.asked (resolve_uri cfg.gateway uri) ≡ ok resp
    pub succeeded : resp.is_ok ≡ true
    pub read : resp.body ≡ ok bytes
    pub differs : pf.sha256 bytes ≢ result

  digests_differ :
      (bytes result : Bytes)
      → text_eq (to_hex (pf.sha256 bytes)) (to_hex result) ≡ false
      → pf.sha256 bytes ≢ result
  digests_differ bytes result h e =
      cc (h, ap (λ x. text_eq (to_hex x) (to_hex result)) e, text_eq_refl (to_hex result))

  differing_texts :
      (bytes result : Bytes)
      → DigestLaw pf
      → AllBytes result
      → pf.sha256 bytes ≢ result
      → text_eq (to_hex (pf.sha256 bytes)) (to_hex result) ≡ false
  differing_texts bytes result digests wf h =
      elim (Bool-cases (text_eq (to_hex (pf.sha256 bytes)) (to_hex result))) [
        | inl same ↦ absurd (
            h (
              to_hex-injective (pf.sha256 bytes) result (digests bytes) wf
                (text_eq_sound _ _ same)))
        | inr other ↦ other
      ]

  mismatch_sound :
      (uri : Text) (result : Bytes) (s : Session)
      → (delivery_hash_mismatch pf cfg net uri result s).0 ≡ ok true
      → IsDisproved uri result s
  unfolding delivery_hash_mismatch
  mismatch_sound uri result s h =
      elim (Result-cases (net.http s.asked (resolve_uri cfg.gateway uri))) [
        | inr bad ↦ ground arith
        | inl (resp, got) ↦ elim (Result-cases resp.body) [
          | inr bad ↦ ground arith
          | inl (bytes, read) ↦ record {
            resp = resp;
            bytes = bytes;
            supported = ground arith;
            fetched = got;
            succeeded = ground arith;
            read = read;
            differs = digests_differ bytes result (ground arith);
          }
        ]
      ]

  mismatch_of_disproved :
      (uri : Text) (result : Bytes) (s : Session)
      → DigestLaw pf
      → AllBytes result
      → IsDisproved uri result s
      → (delivery_hash_mismatch pf cfg net uri result s).0 ≡ ok true
  unfolding delivery_hash_mismatch
  mismatch_of_disproved uri result s digests wf d = ground (
    arith,
    d.supported,
    d.fetched,
    d.succeeded,
    d.read,
    differing_texts d.bytes result digests wf d.differs,
  )

  answers :
      (uri : Text) (result : Bytes) (s : Session)
      → (b : Bool) × ((delivery_hash_mismatch pf cfg net uri result s).0 ≡ ok b)
  unfolding delivery_hash_mismatch
  answers uri result s = elim (Result-cases (delivery_hash_mismatch pf cfg net uri result s).0) [
    | inl (b, e) ↦ (b, e)
    | inr (x, e) ↦ ground arith
  ]

  -- If digests and the result are byte strings, the check never throws, and it answers true exactly
  -- when the pointer has an http(s) address, was fetched with success, and the digest of what came is
  -- not the result.
  pub delivery_hash_mismatch_iff :
      (uri : Text) (result : Bytes) (s : Session)
      → DigestLaw pf
      → AllBytes result
      → ((b : Bool) × ((delivery_hash_mismatch pf cfg net uri result s).0 ≡ ok b))
        × (((delivery_hash_mismatch pf cfg net uri result s).0 ≡ ok true)
            ↔ IsDisproved uri result s)
  delivery_hash_mismatch_iff uri result s digests wf = (
    answers uri result s,
    (mismatch_sound uri result s, mismatch_of_disproved uri result s digests wf),
  )
