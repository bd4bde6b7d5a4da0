-- ===== src/Sdk/Delivery/Laws.antt =====
-- What a signed delivery message commits to, and what a passed check of a delivery shows.
use chainpipe.Base.{
  inl, inr, ℕ, ◌%◌, ◌≡◌, ◌↔◌, refl, ap, sym, ◌∙◌, [], ◌∷◌, ◌++◌, arith, length, true,
}
use chainpipe.Base.Text.{Bytes, Text, AllBytes, to_uint8, to_uint8_id}
use chainpipe.Base.Results.{ok, Result-cases}
use chainpipe.Base.Encodings.{text_eq, text_eq_sound, text_eq_refl, to_hex, to_hex-injective}
use chainpipe.Sdk.Platform.{Platform, PublicKey}
use chainpipe.Sdk.Accounts.{NodeSettlement}
use chainpipe.Sdk.Uri.{decode_uri}
use chainpipe.Sdk.Network.{Network, HttpResponse, Session}
use chainpipe.Sdk.Delivery.{delivery_message, DeliveryCheck, verify_delivery, resolve_uri, hashed}

append-injective : (a b c d : Bytes) → length a ≡ length b → a ++ c ≡ b ++ d → (a ≡ b) × (c ≡ d)
append-injective [] [] c d l e = (refl, e)
append-injective [] (y ∷ b) c d l e = absurd (omega arith)
append-injective (x ∷ a) [] c d l e = absurd (omega arith)
append-injective (x ∷ a) (y ∷ b) c d l e = ground (arith, append-injective a b c d)

-- The parts of a message: a pipeline, a job and a result of 32 bytes each.
pub record IsDelivery (pipeline job_id result_hash : Bytes) : Type 0 where
  pub pipeline_size : length pipeline ≡ 32
  pub job_size : length job_id ≡ 32
  pub result_size : length result_hash ≡ 32
  pub pipeline_bytes : AllBytes pipeline
  pub job_bytes : AllBytes job_id
  pub result_bytes : AllBytes result_hash

-- Digests are byte strings: what @noble/hashes documents of its output.
abbrev pub DigestLaw : Platform → Type 0
DigestLaw pf = (m : Bytes) → AllBytes (pf.sha256 m)

AllBytes-append : (xs ys : Bytes) → AllBytes xs → AllBytes ys → AllBytes (xs ++ ys)
AllBytes-append [] ys h k = k
AllBytes-append (x ∷ xs) ys (l, h) k = (l, AllBytes-append xs ys h k)

-- On byte strings the wrap of `Uint8Array.from` changes nothing.
delivery_message-eq-append :
    (pf : Platform) (pipeline : PublicKey) (i : ℕ) (job result uri : Bytes)
    → DigestLaw pf
    → IsDelivery pipeline job result
    → delivery_message pf pipeline i job result uri
      ≡ pipeline ++ ((i % 256) ∷ (job ++ (result ++ pf.sha256 uri)))
unfolding delivery_message
delivery_message-eq-append pf pipeline i job result uri digests v =
    to_uint8_id (pipeline ++ ((i % 256) ∷ (job ++ (result ++ pf.sha256 uri)))) (
      AllBytes-append pipeline _ v.pipeline_bytes (
        omega arith,
        AllBytes-append job _ v.job_bytes (AllBytes-append result _ v.result_bytes (digests uri)),
      ))

-- If digests are byte strings and pipelines, jobs and results are byte strings of length 32, two
-- messages are equal only if pipeline, node index (as a byte), job and result are, and the digests
-- of the two delivery pointers are.
pub delivery_message-injective :
    (pf : Platform) (pipeline pipeline' : PublicKey) (i i' : ℕ)
    (job job' result result' uri uri' : Bytes)
    → DigestLaw pf
    → IsDelivery pipeline job result
    → IsDelivery pipeline' job' result'
    → delivery_message pf pipeline i job result uri
      ≡ delivery_message pf pipeline' i' job' result' uri'
    → (pipeline ≡ pipeline')
      × (i % 256 ≡ i' % 256)
      × (job ≡ job')
      × (result ≡ result')
      × (pf.sha256 uri ≡ pf.sha256 uri')
delivery_message-injective pf p p' i i' job job' result result' uri uri' digests v w e =
    let whole =
      sym (delivery_message-eq-append pf p i job result uri digests v)
      ∙ e
      ∙ delivery_message-eq-append pf p' i' job' result' uri' digests w in
    let (same_pipeline, tail) =
      append-injective p p' _ _ (v.pipeline_size ∙ sym w.pipeline_size) whole in
    let same_index : i % 256 ≡ i' % 256 = cc tail in
    let after : job ++ (result ++ pf.sha256 uri) ≡ job' ++ (result' ++ pf.sha256 uri') = cc tail in
    let (same_job, last) = append-injective job job' _ _ (v.job_size ∙ sym w.job_size) after in
    let (same_result, same_uri) =
      append-injective result result' _ _ (v.result_size ∙ sym w.result_size) last in
    (same_pipeline, same_index, same_job, same_result, same_uri)

-- The comparison of the two hexadecimal texts is a comparison of the digests.
digests_compared :
    (pf : Platform) (bytes result : Bytes)
    → DigestLaw pf
    → AllBytes result
    → text_eq (to_hex (pf.sha256 bytes)) (to_hex (to_uint8 result)) ≡ true
    → pf.sha256 bytes ≡ result
digests_compared pf bytes result digests wf h =
    to_hex-injective (pf.sha256 bytes) result (digests bytes) wf
      (text_eq_sound _ _ h ∙ ap to_hex (to_uint8_id result wf))

same_digests :
    (pf : Platform) (bytes result : Bytes)
    → AllBytes result
    → pf.sha256 bytes ≡ result
    → text_eq (to_hex (pf.sha256 bytes)) (to_hex (to_uint8 result)) ≡ true
same_digests pf bytes result wf e = rw (to_uint8_id result wf, e) (text_eq_refl (to_hex result))

module _ (pf : Platform) (net : Network) where
  delivery_passed :
      (x : NodeSettlement) (gateway : Text) (s : Session) (c : DeliveryCheck)
      → DigestLaw pf
      → AllBytes x.result_hash
      → (verify_delivery pf net x gateway s).0 ≡ ok c
      → c.is_ok ≡ true
      → (resp : HttpResponse) × (bytes : Bytes) × (net.http s.asked
            (resolve_uri gateway (decode_uri x.uri x.uri_len))
          ≡ ok resp)
        × (resp.is_ok ≡ true)
        × (resp.body ≡ ok bytes)
        × (pf.sha256 bytes ≡ x.result_hash)
  unfolding verify_delivery
  delivery_passed x gateway s c digests wf e h =
      elim (Result-cases (net.http s.asked (resolve_uri gateway (decode_uri x.uri x.uri_len)))) [
        | inr bad ↦ ground arith
        | inl (resp, got) ↦ elim (Result-cases resp.body) [
          | inr bad ↦ ground arith
          | inl (bytes, read) ↦ (
            resp,
            bytes,
            got,
            ground arith,
            read,
            ground (arith, digests_compared pf bytes x.result_hash digests wf),
          )
        ]
      ]

  delivery_passes :
      (x : NodeSettlement) (gateway : Text) (s : Session) (resp : HttpResponse) (bytes : Bytes)
      → AllBytes x.result_hash
      → net.http s.asked (resolve_uri gateway (decode_uri x.uri x.uri_len)) ≡ ok resp
      → resp.is_ok ≡ true
      → resp.body ≡ ok bytes
      → pf.sha256 bytes ≡ x.result_hash
      → (c : DeliveryCheck) × ((verify_delivery pf net x gateway s).0 ≡ ok c) × (c.is_ok ≡ true)
  unfolding verify_delivery
  delivery_passes x gateway s resp bytes wf got up read same = (
    hashed (decode_uri x.uri x.uri_len) (to_hex (to_uint8 x.result_hash))
        (to_hex (pf.sha256 bytes)),
    ground arith,
    same_digests pf bytes x.result_hash wf same,
  )

  -- If digests and the result hash on the chain are byte strings, a delivery check passes exactly
  -- when the pointer was fetched with success and the digest of the bytes that came is that hash.
  pub verify_delivery_iff :
      (x : NodeSettlement) (gateway : Text) (s : Session)
      → DigestLaw pf
      → AllBytes x.result_hash
      → ((c : DeliveryCheck) × ((verify_delivery pf net x gateway s).0 ≡ ok c) × (c.is_ok ≡ true))
        ↔ ((resp : HttpResponse) × (bytes : Bytes) × (net.http s.asked
                (resolve_uri gateway (decode_uri x.uri x.uri_len))
              ≡ ok resp)
            × (resp.is_ok ≡ true)
            × (resp.body ≡ ok bytes)
            × (pf.sha256 bytes ≡ x.result_hash))
  verify_delivery_iff x gateway s digests wf = (
    (λ (c, e, h). delivery_passed x gateway s c digests wf e h),
    (λ (resp, bytes, got, up, read, same).
        delivery_passes x gateway s resp bytes wf got up read same),
  )
