-- ===== src/Node/Address.antt =====
-- Addresses as text: `parse_ip` of magnum-tcp/src/main.rs and `format_ip` of ipv4.rs. Text is a list
-- of bytes.
use magnus_tcp.Base.{
  ℕ, ◌+◌, ◌/◌, ◌%◌, ◌≡◌, ap, ◌∙◌, Option, some, List, [], ◌∷◌, ◌++◌, ltb, ◌==◌, if◌then◌else◌,
  arith,
}
use magnus_tcp.Text.Decimal.{parse_digits, parse_unsigned}
use magnus_tcp.Net.{Ipv4Addr, IsAddr, IsByte, MagnumError, Result, ok, err}

-- `s.split('.')`: a part more than there are dots.
unfoldable pub split_dots : List ℕ → List (List ℕ)
split_dots [] = [] ∷ []
split_dots (c ∷ cs) =
    let rest = split_dots cs in
    if c == 0x2e then [] ∷ rest else elim rest [ [] ↦ [] | part ∷ parts ↦ (c ∷ part) ∷ parts ]

-- `p.parse::<u8>()`.
unfoldable pub parse_u8 : List ℕ → Option ℕ
parse_u8 s = parse_unsigned 255 s

-- The four parts, once there are four.
unfoldable pub parse_parts : List ℕ → (a b c d : Option ℕ) → Result Ipv4Addr
parse_parts s (some a) (some b) (some c) (some d) = ok (record { b0 = a; b1 = b; b2 = c; b3 = d })
parse_parts s _ _ _ _ = err (MagnumError.invalid_ip s)

unfoldable pub four_parts : List ℕ → List (List ℕ) → Result Ipv4Addr
four_parts s (a ∷ b ∷ c ∷ d ∷ []) =
    parse_parts s (parse_u8 a) (parse_u8 b) (parse_u8 c) (parse_u8 d)
four_parts s _ = err (MagnumError.invalid_ip s)

unfoldable pub parse_ip : List ℕ → Result Ipv4Addr
parse_ip s = four_parts s (split_dots s)

-- A `u8` in decimal.
unfoldable pub format_u8 : ℕ → List ℕ
format_u8 n =
    if ltb n 10
    then (0x30 + n) ∷ []
    else (if ltb n 100
        then (0x30 + n / 10) ∷ (0x30 + n % 10) ∷ []
        else (0x30 + n / 100) ∷ (0x30 + n / 10 % 10) ∷ (0x30 + n % 10) ∷ [])

unfoldable pub format_ip : Ipv4Addr → List ℕ
format_ip a =
    format_u8 a.b0 ++ 0x2e ∷ (format_u8 a.b1 ++ 0x2e ∷ (format_u8 a.b2 ++ 0x2e ∷ format_u8 a.b3))

parse_u8-format_u8 : (n : ℕ) → IsByte n → parse_u8 (format_u8 n) ≡ some n
unfolding parse_u8 parse_unsigned parse_digits format_u8
parse_u8-format_u8 n h = ground arith

-- A number ends at the dot behind it.
split_dots-format_u8 :
    (n : ℕ) (rest : List ℕ)
    → IsByte n
    → split_dots (format_u8 n ++ 0x2e ∷ rest) ≡ format_u8 n ∷ split_dots rest
unfolding split_dots format_u8
split_dots-format_u8 n rest h = ground arith

split_dots-last : (n : ℕ) → IsByte n → split_dots (format_u8 n) ≡ format_u8 n ∷ []
unfolding split_dots format_u8
split_dots-last n h = ground arith

split_dots-format_ip :
    (a : Ipv4Addr)
    → IsAddr a
    → split_dots (format_ip a)
      ≡ format_u8 a.b0 ∷ format_u8 a.b1 ∷ format_u8 a.b2 ∷ format_u8 a.b3 ∷ []
unfolding format_ip
split_dots-format_ip a v =
    split_dots-format_u8 a.b0 (format_u8 a.b1 ++ 0x2e ∷ (format_u8 a.b2 ++ 0x2e ∷ format_u8 a.b3))
      v.b0_byte
    ∙ ap (λ r. format_u8 a.b0 ∷ r)
        (split_dots-format_u8 a.b1 (format_u8 a.b2 ++ 0x2e ∷ format_u8 a.b3) v.b1_byte
          ∙ ap (λ r. format_u8 a.b1 ∷ r)
              (split_dots-format_u8 a.b2 (format_u8 a.b3) v.b2_byte
                ∙ ap (λ r. format_u8 a.b2 ∷ r) (split_dots-last a.b3 v.b3_byte)))

-- An address of four bytes that is written out as text is read back.
pub parse_ip-format_ip : (a : Ipv4Addr) → IsAddr a → parse_ip (format_ip a) ≡ ok a
unfolding parse_ip four_parts parse_parts
parse_ip-format_ip a v = rw (
  split_dots-format_ip a v,
  parse_u8-format_u8 a.b0 v.b0_byte,
  parse_u8-format_u8 a.b1 v.b1_byte,
  parse_u8-format_u8 a.b2 v.b2_byte,
  parse_u8-format_u8 a.b3 v.b3_byte,
)
