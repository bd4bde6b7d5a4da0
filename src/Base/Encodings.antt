-- ===== src/Base/Encodings.antt =====
-- Texts made of bytes: equality of texts, prefixes, hexadecimal, and the base64 reader of Node's
-- `Buffer`, which takes both alphabets, passes over other characters and stops at the padding.
use Prim.Native.Nat.{ℕ, zero, suc, ◌+◌, ◌-◌, ◌*◌, ◌/◌, ◌%◌, ◌<◌}
use mathlib.Core.Path.{◌≡◌, refl}
use mathlib.Core.Bool.{Bool, true, false, ◌&&◌, ◌||◌}
use mathlib.Core.List.{List, [], ◌∷◌}
use mathlib.Core.Option.{Option, none, some}
use native.Mathlib.Omega.{arith}
use chainpipe.Base.Tests.{ltb, leb, ◌==◌, if◌then◌else◌}
use chainpipe.Base.Text.{Bytes, Text, AllBytes}

-- `a === b` on texts.
abbrev pub text_eq : Text → Text → Bool
text_eq [] [] = true
text_eq [] (d ∷ u) = false
text_eq (c ∷ t) [] = false
text_eq (c ∷ t) (d ∷ u) = c == d && text_eq t u

pub text_eq_sound : (t u : Text) → text_eq t u ≡ true → t ≡ u
text_eq_sound [] [] h = refl
text_eq_sound [] (d ∷ u) h = cc
text_eq_sound (c ∷ t) [] h = cc
text_eq_sound (c ∷ t) (d ∷ u) h = ground (arith, text_eq_sound t u)

pub text_eq_refl : (t : Text) → text_eq t t ≡ true
text_eq_refl [] = refl
text_eq_refl (c ∷ t) = ground (arith, text_eq_refl t)

-- `t.startsWith(prefix)`
abbrev pub starts_with : Text → Text → Bool
starts_with t [] = true
starts_with [] (p ∷ ps) = false
starts_with (c ∷ t) (p ∷ ps) = c == p && starts_with t ps

-- `t.includes(c)` for one character.
abbrev pub includes_char : ℕ → Text → Bool
includes_char p [] = false
includes_char p (c ∷ t) = c == p || includes_char p t

abbrev pub hex_digit : ℕ → ℕ
hex_digit n = if ltb n 10 then 48 + n else 87 + n

-- `Buffer.from(bytes).toString("hex")`
unfoldable pub to_hex : Bytes → Text
to_hex [] = []
to_hex (b ∷ bs) = hex_digit (b / 16) ∷ hex_digit (b % 16) ∷ to_hex bs

hex_digit-injective : (m n : ℕ) → m < 16 → n < 16 → hex_digit m ≡ hex_digit n → m ≡ n
hex_digit-injective m n h k e = ground arith

hex_byte_injective :
    (a b : ℕ)
    → a < 256
    → b < 256
    → hex_digit (a / 16) ≡ hex_digit (b / 16)
    → hex_digit (a % 16) ≡ hex_digit (b % 16)
    → a ≡ b
hex_byte_injective a b h k e f = omega (
  arith,
  hex_digit-injective (a / 16) (b / 16) (omega arith) (omega arith) e,
  hex_digit-injective (a % 16) (b % 16) (omega arith) (omega arith) f,
)

-- Two byte strings with the same hexadecimal text are the same.
pub to_hex-injective : (a b : Bytes) → AllBytes a → AllBytes b → to_hex a ≡ to_hex b → a ≡ b
unfolding to_hex
to_hex-injective [] [] h k e = refl
to_hex-injective [] (y ∷ b) h k e = cc
to_hex-injective (x ∷ a) [] h k e = cc
to_hex-injective (x ∷ a) (y ∷ b) h k e =
    ground (arith, hex_byte_injective x y, to_hex-injective a b)

-- The value of a base64 character.
abbrev pub base64_value : ℕ → Option ℕ
base64_value c =
    if leb 65 c && leb c 90
    then some (c - 65)
    else if leb 97 c && leb c 122
    then some (c - 71)
    else if leb 48 c && leb c 57
    then some (c + 4)
    else if c == 43 || c == 45
    then some 62
    else if c == 47 || c == 95
    then some 63
    else none

-- The sextets up to the padding.
abbrev pub push_sextet : Option ℕ → List ℕ → List ℕ
push_sextet none rest = rest
push_sextet (some v) rest = v ∷ rest

unfoldable pub sextets : Text → List ℕ
sextets [] = []
sextets (c ∷ t) = let rest = sextets t in if c == 61 then [] else push_sextet (base64_value c) rest

unfoldable pub pack_sextets : List ℕ → Bytes
pack_sextets (p ∷ q ∷ r ∷ s ∷ t) =
    (p * 4 + q / 16) ∷ (q % 16 * 16 + r / 4) ∷ (r % 4 * 64 + s) ∷ pack_sextets t
pack_sextets (p ∷ q ∷ r ∷ []) = (p * 4 + q / 16) ∷ (q % 16 * 16 + r / 4) ∷ []
pack_sextets (p ∷ q ∷ []) = (p * 4 + q / 16) ∷ []
pack_sextets _ = []

-- `Buffer.from(text, "base64")`
unfoldable pub from_base64 : Text → Bytes
unfolding sextets pack_sextets
from_base64 t = pack_sextets (sextets t)

-- The decimal digits of a number before a text; one digit is left per unit of fuel.
abbrev digits_onto : ℕ → ℕ → Text → Text
digits_onto zero n t = t
digits_onto (suc fuel) n t =
    let rest = digits_onto fuel (n / 10) ((48 + n % 10) ∷ t) in
    if ltb n 10 then (48 + n % 10) ∷ t else rest

-- `String(n)` of a natural number below 10^21, and `toString` of a BN.
unfoldable pub decimal : ℕ → Text
decimal n = digits_onto (suc n) n []
