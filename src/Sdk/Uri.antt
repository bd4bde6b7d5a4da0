-- ===== src/Sdk/Uri.antt =====
-- The delivery pointer of sdk/src/pipeline.ts: a text in a fixed buffer of 96 bytes with its length.
-- dashboard/lib/sdk.ts holds the same two functions again.
use native.Mathlib.Decide.{dec_le}
use native.Mathlib.Numerals.{unary_clauses}
use chainpipe.Base.{
  ℕ, zero, suc, ◌-◌, ◌≤◌, ◌<◌, ◌≡◌, refl, sym, ap, ◌∙◌, subst, List, [], ◌∷◌, ◌++◌, arith, ltb,
  if◌then◌else◌, length, set, take, drop, replicate, length-append, length-replicate,
}
use chainpipe.Base.Results.{Result, ok, throws, ok-injective}
use chainpipe.Base.Text.{
  Bytes, Text, AllScalar, text_encode, text_decode, strip_bom, text_decode-text_encode, to_uint8,
  to_uint8_id, text_encode-AllBytes,
}

abbrev pub max_uri_len : ℕ
max_uri_len = 96

pub record EncodedUri : Type 0 where
  pub bytes : List ℕ
  pub len : ℕ

-- `enc.forEach((b, i) => (bytes[i] = b))`, from index i on.
write_from : ℕ → Bytes → List ℕ → List ℕ
write_from i [] buffer = buffer
write_from i (b ∷ enc) buffer = write_from (suc i) enc (set buffer i b)

unfoldable pub encode_uri : Text → Result EncodedUri
unfolding write_from
encode_uri uri =
    let enc = text_encode uri in
    if ltb max_uri_len (length enc)
    then throws "uri exceeds 96 bytes"
    else ok (record { bytes = write_from 0 enc (replicate max_uri_len 0); len = length enc })

unfoldable pub decode_uri : List ℕ → ℕ → Text
decode_uri uri uri_len = text_decode (to_uint8 (take uri_len uri))

set-append : (xs ys : List ℕ) (y v : ℕ) → set (xs ++ y ∷ ys) (length xs) v ≡ xs ++ v ∷ ys
set-append [] ys y v = refl
set-append (x ∷ xs) ys y v = ap (λ t. x ∷ t) (set-append xs ys y v)

append_snoc : (xs ys : List ℕ) (y : ℕ) → (xs ++ y ∷ []) ++ ys ≡ xs ++ y ∷ ys
append_snoc [] ys y = refl
append_snoc (x ∷ xs) ys y = ap (λ t. x ∷ t) (append_snoc xs ys y)

length-snoc : (xs : List ℕ) (y : ℕ) → length (xs ++ y ∷ []) ≡ suc (length xs)
length-snoc [] y = refl
length-snoc (x ∷ xs) y = ap suc (length-snoc xs y)

-- The loop overwrites the cells from `done` on, and leaves those behind the text.
write_from-append :
    (done enc rest : List ℕ)
    → length enc ≤ length rest
    → write_from (length done) enc (done ++ rest) ≡ done ++ (enc ++ drop (length enc) rest)
unfolding write_from
write_from-append done [] rest h = refl
write_from-append done (b ∷ enc) [] h = absurd (omega arith)
write_from-append done (b ∷ enc) (y ∷ rest) h =
    rw (set-append done rest y b, ← append_snoc done rest b, ← length-snoc done b)
      (write_from-append (done ++ b ∷ []) enc rest (omega arith)
        ∙ append_snoc done (enc ++ drop (length enc) rest) b)

drop-replicate : (n m : ℕ) → drop {A = ℕ} n (replicate m 0) ≡ replicate (m - n) 0
drop-replicate zero m = simp unary_clauses
drop-replicate (suc n) zero = let e : zero - suc n ≡ zero = omega arith in rw e
drop-replicate (suc n) (suc m) = simp unary_clauses (drop-replicate n m)

take-length-append : (xs ys : List ℕ) → take (length xs) (xs ++ ys) ≡ xs
take-length-append [] ys = refl
take-length-append (x ∷ xs) ys = ap (λ t. x ∷ t) (take-length-append xs ys)

-- What the buffer holds: the bytes of the text, then zeros up to 96.
abbrev pub padded : Text → EncodedUri
padded uri = record {
  bytes = text_encode uri ++ replicate (max_uri_len - length (text_encode uri)) 0;
  len = length (text_encode uri);
}

pub encode_uri_fits :
    (uri : Text) → length (text_encode uri) ≤ max_uri_len → encode_uri uri ≡ ok (padded uri)
unfolding encode_uri
encode_uri_fits uri h = ground (
  arith,
  write_from-append [] (text_encode uri) (replicate max_uri_len 0),
  drop-replicate (length (text_encode uri)) max_uri_len,
)

pub encode_uri_too_long :
    (uri : Text)
    → max_uri_len < length (text_encode uri)
    → encode_uri uri ≡ throws "uri exceeds 96 bytes"
unfolding encode_uri
encode_uri_too_long uri h = ground arith

-- The buffer that `encodeUri` returns has exactly 96 cells, and the length it gives is within it.
pub encode_uri-size :
    (uri : Text) {e : EncodedUri}
    → encode_uri uri ≡ ok e
    → (length e.bytes ≡ max_uri_len) × (e.len ≤ max_uri_len)
encode_uri-size uri {e} h = elim (dec_le (length (text_encode uri)) max_uri_len) [
  | yes fits ↦
      let same : padded uri ≡ e = ok-injective (sym (encode_uri_fits uri fits) ∙ h) in
      subst (λ x. (length x.bytes ≡ max_uri_len) × (x.len ≤ max_uri_len)) same
        (
          omega (
            arith,
            length-append {0} (text_encode uri)
                (replicate (max_uri_len - length (text_encode uri)) 0),
            length-replicate {0} (max_uri_len - length (text_encode uri)) (zero),
          ),
          fits,
        )
  | no long ↦ absurd (cc (encode_uri_too_long uri (omega arith)))
]

decode_uri-padded :
    (uri : Text) → AllScalar uri → decode_uri (padded uri).bytes (padded uri).len ≡ strip_bom uri
unfolding decode_uri
decode_uri-padded uri v =
    rw
      (
        take-length-append (text_encode uri) (replicate (max_uri_len - length (text_encode uri)) 0),
        to_uint8_id (text_encode uri) (text_encode-AllBytes uri v),
      )
      (text_decode-text_encode uri v)

-- What `encodeUri` returns for a text of Unicode scalar values is a buffer of exactly 96 cells, and
-- `decodeUri` reads the same text back from it, less one leading byte order mark.
pub decode_uri-encode_uri :
    (uri : Text) {e : EncodedUri}
    → AllScalar uri
    → encode_uri uri ≡ ok e
    → (length e.bytes ≡ max_uri_len) × (decode_uri e.bytes e.len ≡ strip_bom uri)
decode_uri-encode_uri uri {e} v h = elim (dec_le (length (text_encode uri)) max_uri_len) [
  | yes fits ↦
      let same : padded uri ≡ e = ok-injective (sym (encode_uri_fits uri fits) ∙ h) in
      (
        (encode_uri-size uri h).0,
        subst (λ x. decode_uri x.bytes x.len ≡ strip_bom uri) same (decode_uri-padded uri v),
      )
  | no long ↦ absurd (cc (encode_uri_too_long uri (omega arith)))
]
