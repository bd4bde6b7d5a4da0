-- ===== src/Facilitator/Input/Laws.antt =====
-- What becomes of a result hash that is sent as hexadecimal text, as the dashboard sends it
-- (dashboard/app/work/page.tsx).
use chainpipe.Base.{
  ℕ, ◌+◌, ◌*◌, ◌/◌, ◌%◌, ◌<◌, ◌≡◌, ◌≢◌, refl, ap, sym, ◌∙◌, false, [], ◌∷◌, arith, ◌==◌, ltb,
  if◌then◌else◌,
}
use chainpipe.Base.Text.{Bytes, Text, AllBytes}
use chainpipe.Base.Encodings.{hex_digit, to_hex, includes_char, from_base64, sextets}
use chainpipe.Facilitator.Input.{decode_signature, into_hash_buffer}

hex_digit_not_comma : (n : ℕ) → n < 16 → (hex_digit n == 44) ≡ false
hex_digit_not_comma n h = ground arith

to_hex_no_comma : (bs : Bytes) → AllBytes bs → includes_char 44 (to_hex bs) ≡ false
unfolding to_hex
to_hex_no_comma [] h = refl
to_hex_no_comma (b ∷ bs) (l, h) =
    ground (arith, hex_digit_not_comma (b / 16), hex_digit_not_comma (b % 16), to_hex_no_comma bs h)

-- The sextet that a hexadecimal digit stands for when it is read as base64.
abbrev hex_sextet : ℕ → ℕ
hex_sextet n = if ltb n 10 then n + 52 else n + 16

sextets-hex_digit :
    (n : ℕ) (t : Text) → n < 16 → sextets (hex_digit n ∷ t) ≡ hex_sextet n ∷ sextets t
unfolding sextets
sextets-hex_digit n t h = ground arith

abbrev first : Bytes → ℕ
first [] = 256
first (b ∷ bs) = b

-- The first byte that base64 makes of two hexadecimal digits.
first-from_base64 :
    (b c : ℕ) (bs : Bytes)
    → b < 256
    → c < 256
    → first (from_base64 (to_hex (b ∷ c ∷ bs))) ≡ hex_sextet (b / 16) * 4 + hex_sextet (b % 16) / 16
unfolding to_hex from_base64
first-from_base64 b c bs h k = rw (
  sextets-hex_digit (b / 16) (hex_digit (b % 16) ∷ to_hex (c ∷ bs)) (omega arith),
  sextets-hex_digit (b % 16) (to_hex (c ∷ bs)) (omega arith),
  sextets-hex_digit (c / 16) (hex_digit (c % 16) ∷ to_hex bs) (omega arith),
  sextets-hex_digit (c % 16) (to_hex bs) (omega arith),
)

sextet_moves : (b : ℕ) → b < 256 → hex_sextet (b / 16) * 4 + hex_sextet (b % 16) / 16 ≢ b
sextet_moves b h = ground arith

first-into_hash_buffer : (bs : Bytes) → first bs ≢ 256 → first (into_hash_buffer bs) ≡ first bs
unfolding into_hash_buffer
first-into_hash_buffer [] h = absurd (h refl)
first-into_hash_buffer (b ∷ bs) h = refl

-- A result hash of two bytes or more that comes as hexadecimal text is never recovered: it is read
-- as base64, and already its first byte comes out as another one.
pub hex_result_lost :
    (js_byte : Text → ℕ) (b c : ℕ) (bs : Bytes)
    → AllBytes (b ∷ c ∷ bs)
    → into_hash_buffer (decode_signature js_byte (to_hex (b ∷ c ∷ bs))) ≢ b ∷ c ∷ bs
unfolding decode_signature
hex_result_lost js_byte b c bs wf e =
    let same : into_hash_buffer (from_base64 (to_hex (b ∷ c ∷ bs))) ≡ b ∷ c ∷ bs =
      rw (to_hex_no_comma (b ∷ c ∷ bs) wf) at e in
    let read = first-from_base64 b c bs wf.0 wf.1.0 in
    let named : first (from_base64 (to_hex (b ∷ c ∷ bs))) ≢ 256 = ground (arith, read) in
    let kept = first-into_hash_buffer (from_base64 (to_hex (b ∷ c ∷ bs))) named in
    sextet_moves b wf.0 (sym read ∙ sym kept ∙ ap first same)
