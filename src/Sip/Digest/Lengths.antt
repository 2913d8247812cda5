-- ===== src/Sip/Digest/Lengths.antt =====
-- A hash that keeps only the length, and lower case hexadecimal digits: tests run with them.
use wjmmmdvm.Base.{
  ℕ, ◌+◌, ◌/◌, ◌%◌, ◌≡◌, arith, true, List, [], ◌∷◌, All, length, if◌then◌else◌, ltb,
}
use wjmmmdvm.Base.Text.{Text}
use wjmmmdvm.Sip.Digest.{Hashing, is_hex_digit}

abbrev pub hex_digit : ℕ → ℕ
hex_digit n = if ltb (n % 16) 10 then 48 + n % 16 else 87 + n % 16

abbrev pub hex_encode : List ℕ → Text
hex_encode [] = []
hex_encode (b ∷ bytes) = hex_digit (b / 16) ∷ hex_digit b ∷ hex_encode bytes

hex_digit_lem : (n : ℕ) → is_hex_digit (hex_digit n) ≡ true
hex_digit_lem n = ground arith

pub hex_encode_lem : (bytes : List ℕ) → All (λ c. is_hex_digit c ≡ true) (hex_encode bytes)
hex_encode_lem [] = tt
hex_encode_lem (b ∷ bytes) = (hex_digit_lem (b / 16), (hex_digit_lem b, hex_encode_lem bytes))

abbrev pub hashing : Hashing
hashing = record {
  md5 = λ bytes. (length bytes % 256) ∷ 7 ∷ [];
  hex_encode = hex_encode;
  hex_encode_digits = hex_encode_lem;
}
