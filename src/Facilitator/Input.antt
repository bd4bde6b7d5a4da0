-- ===== src/Facilitator/Input.antt =====
-- `decodeSignature` of facilitator/src/server.ts, which reads a signature or a result hash from the
-- body of a request, and the 32-byte buffer that a result hash is put into.
pub mod Laws
use chainpipe.Base.{
  ℕ, zero, suc, List, [], ◌∷◌, ◌++◌, ◌==◌, ◌-◌, if◌then◌else◌, take, replicate, length, map,
}
use chainpipe.Base.Text.{Bytes, Text}
use chainpipe.Base.Encodings.{includes_char, from_base64}

-- `s.split(",")`: the field that is being read comes first.
abbrev pub push_char : ℕ → List Text → List Text
push_char c [] = (c ∷ []) ∷ []
push_char c (field ∷ fields) = (c ∷ field) ∷ fields

pub split_commas : Text → List Text
split_commas [] = [] ∷ []
split_commas (c ∷ t) =
    let fields = split_commas t in if c == 44 then [] ∷ fields else push_char c fields

-- `js_byte` stands for `Number` and the wrap of `Uint8Array.from`: the byte that a field becomes.
unfoldable pub decode_signature : (Text → ℕ) → Text → Bytes
unfolding split_commas
decode_signature js_byte t =
    if includes_char 44 t then map js_byte (split_commas t) else from_base64 t

-- `resultHashBytes.set(decoded.slice(0, 32))` on 32 zeros.
unfoldable pub into_hash_buffer : Bytes → Bytes
into_hash_buffer decoded = let head = take 32 decoded in head ++ replicate (32 - length head) 0
