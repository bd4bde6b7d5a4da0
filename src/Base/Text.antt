-- ===== src/Base/Text.antt =====
-- Text as the list of its code points, bytes as numbers, and the platform's `TextEncoder` and
-- `TextDecoder` (the UTF-8 of the Encoding Standard).
use native.Mathlib.Decide.{dec_lt}
use Prim.Native.Nat.{ℕ, ◌+◌, ◌-◌, ◌*◌, ◌/◌, ◌%◌, ◌≤◌, ◌<◌}
use Prim.Native.Char.{code}
use Prim.Native.String.{String}
use mathlib.Core.Path.{◌≡◌, refl, ap, ◌∙◌}
use mathlib.Core.Logic.{◌≢◌, ◌⊎◌}
use mathlib.Core.Bool.{◌&&◌}
use mathlib.Core.List.{List, [], ◌∷◌, ◌++◌}
use native.Mathlib.Omega.{arith}
use chainpipe.Base.Tests.{ltb, leb, ◌==◌, if◌then◌else◌}

abbrev pub Bytes : Type 0
Bytes = List ℕ

abbrev pub Text : Type 0
Text = List ℕ

-- The code points of a literal.
abbrev pub codes : String → Text
codes String.[] = []
codes (String.◌∷◌ c s) = code c ∷ codes s

-- What a well-formed string may hold: a code point that is no surrogate.
abbrev pub IsScalar : ℕ → Type 0
IsScalar c = (c < 0xd800) ⊎ ((0xe000 ≤ c) × (c < 0x110000))

abbrev pub AllScalar : Text → Type 0
AllScalar [] = Unit
AllScalar (c ∷ t) = IsScalar c × AllScalar t

unfoldable pub encode_char : ℕ → Bytes
encode_char c =
    if ltb c 0x80
    then c ∷ []
    else if ltb c 0x800
    then (0xc0 + c / 64) ∷ (0x80 + c % 64) ∷ []
    else if ltb c 0x10000
    then (0xe0 + c / 4096) ∷ (0x80 + c / 64 % 64) ∷ (0x80 + c % 64) ∷ []
    else (0xf0 + c / 262144) ∷ (0x80 + c / 4096 % 64) ∷ (0x80 + c / 64 % 64) ∷ (0x80 + c % 64) ∷ []

-- `new TextEncoder().encode(s)`
unfoldable pub text_encode : Text → Bytes
unfolding encode_char
text_encode [] = []
text_encode (c ∷ t) = encode_char c ++ text_encode t

-- The decoder between two bytes: `more n acc lo hi` waits for n bytes, the next in lo..hi.
pub data Pending : Type 0 where
  start : Pending
  more : ℕ → ℕ → ℕ → ℕ → Pending

lead : ℕ → Text × Pending
lead b =
    if ltb b 0x80
    then (b ∷ [], start)
    else if leb 0xc2 b && leb b 0xdf
    then ([], more 1 (b - 0xc0) 0x80 0xbf)
    else if leb 0xe0 b && leb b 0xef
    then (
      [],
      more 2 (b - 0xe0) (if b == 0xe0 then 0xa0 else 0x80) (if b == 0xed then 0x9f else 0xbf),
    )
    else if leb 0xf0 b && leb b 0xf4
    then (
      [],
      more 3 (b - 0xf0) (if b == 0xf0 then 0x90 else 0x80) (if b == 0xf4 then 0x8f else 0xbf),
    )
    else (0xfffd ∷ [], start)

replaced : Text × Pending → Text × Pending
replaced (t, p) = (0xfffd ∷ t, p)

continue : ℕ → ℕ → ℕ → Text × Pending
continue n acc b =
    if n == 1
    then ((acc * 64 + (b - 0x80)) ∷ [], start)
    else ([], more (n - 1) (acc * 64 + (b - 0x80)) 0x80 0xbf)

next : Pending → ℕ → Text × Pending
unfolding lead replaced continue
next start b = lead b
next (more n acc lo hi) b = if leb lo b && leb b hi then continue n acc b else replaced (lead b)

finish : Pending → Text
finish start = []
finish (more _ _ _ _) = 0xfffd ∷ []

decode_from : Pending → Bytes → Text
unfolding next finish
decode_from p [] = finish p
decode_from p (b ∷ bs) = let (t, p') = next p b in t ++ decode_from p' bs

unfoldable pub strip_bom : Text → Text
strip_bom [] = []
strip_bom (c ∷ t) = if c == 0xfeff then t else c ∷ t

-- `new TextDecoder().decode(bytes)`: errors are replaced, one leading mark is dropped.
unfoldable pub text_decode : Bytes → Text
unfolding strip_bom decode_from
text_decode bs = strip_bom (decode_from start bs)

decode_char_one :
    (c : ℕ) (r : Bytes)
    → c < 0x80
    → decode_from start (encode_char c ++ r) ≡ c ∷ decode_from start r
unfolding decode_from encode_char
decode_char_one c r h = ground arith

decode_char_two :
    (c : ℕ) (r : Bytes)
    → 0x80 ≤ c
    → c < 0x800
    → decode_from start (encode_char c ++ r) ≡ c ∷ decode_from start r
unfolding decode_from encode_char
decode_char_two c r h k = ground arith

decode_char_three :
    (c : ℕ) (r : Bytes)
    → 0x800 ≤ c
    → c < 0x10000
    → IsScalar c
    → decode_from start (encode_char c ++ r) ≡ c ∷ decode_from start r
unfolding decode_from encode_char
decode_char_three c r h k v = ground arith

decode_char_four :
    (c : ℕ) (r : Bytes)
    → 0x10000 ≤ c
    → c < 0x110000
    → decode_from start (encode_char c ++ r) ≡ c ∷ decode_from start r
unfolding decode_from encode_char
decode_char_four c r h k = ground arith

decode_char :
    (c : ℕ) (r : Bytes)
    → IsScalar c
    → decode_from start (encode_char c ++ r) ≡ c ∷ decode_from start r
decode_char c r v = elim (dec_lt c 0x80) [
  | yes a ↦ decode_char_one c r a
  | no a ↦ elim (dec_lt c 0x800) [
    | yes b ↦ decode_char_two c r (omega arith) b
    | no b ↦ elim (dec_lt c 0x10000) [
      | yes d ↦ decode_char_three c r (omega arith) d v
      | no d ↦ decode_char_four c r (omega arith) (omega arith)
    ]
  ]
]

decode_from-text_encode : (t : Text) → AllScalar t → decode_from start (text_encode t) ≡ t
unfolding text_encode
decode_from-text_encode [] h = unfold decode_from in refl
decode_from-text_encode (c ∷ t) (v, h) =
    decode_char c (text_encode t) v ∙ ap (λ u. c ∷ u) (decode_from-text_encode t h)

-- Decoding what the encoder wrote gives the text back, less a leading byte order mark.
pub text_decode-text_encode : (t : Text) → AllScalar t → text_decode (text_encode t) ≡ strip_bom t
unfolding text_decode
text_decode-text_encode t h = ap strip_bom (decode_from-text_encode t h)

pub strip_bom_self : (c : ℕ) (t : Text) → c ≢ 0xfeff → strip_bom (c ∷ t) ≡ c ∷ t
unfolding strip_bom
strip_bom_self c t h = ground arith

-- `Uint8Array.from(xs)` on numbers that are no bytes wraps them.
abbrev pub to_uint8 : List ℕ → Bytes
to_uint8 [] = []
to_uint8 (b ∷ bs) = (b % 256) ∷ to_uint8 bs

abbrev pub AllBytes : List ℕ → Type 0
AllBytes [] = Unit
AllBytes (b ∷ bs) = (b < 256) × AllBytes bs

pub to_uint8_id : (bs : Bytes) → AllBytes bs → to_uint8 bs ≡ bs
to_uint8_id [] h = refl
to_uint8_id (b ∷ bs) (l, h) = ground (arith, to_uint8_id bs h)

AllBytes-append : (xs ys : Bytes) → AllBytes xs → AllBytes ys → AllBytes (xs ++ ys)
AllBytes-append [] ys h k = k
AllBytes-append (x ∷ xs) ys (l, h) k = (l, AllBytes-append xs ys h k)

encode_char-AllBytes : (c : ℕ) → IsScalar c → AllBytes (encode_char c)
unfolding encode_char
encode_char-AllBytes c v = ground arith

pub text_encode-AllBytes : (t : Text) → AllScalar t → AllBytes (text_encode t)
unfolding text_encode
text_encode-AllBytes [] h = tt
text_encode-AllBytes (c ∷ t) (v, h) =
    AllBytes-append (encode_char c) (text_encode t) (encode_char-AllBytes c v)
      (text_encode-AllBytes t h)
