-- ===== src/Text/Decimal.antt =====
-- Numbers in decimal, as `format!` of magnum-tcp/src/main.rs writes them.
use mathlib.Core.WellFounded.{Acc, Acc-prop}
use mathlib.Core.WellFounded
use mathlib.Core.Logic.{ite, if_pos, if_neg}
use magnus_tcp.Base.{
  ℕ, ◌+◌, ◌-◌, ◌*◌, ◌/◌, ◌%◌, ◌≤◌, ◌<◌, ◌≡◌, ap, ◌∙◌, ◌&&◌, Option, none, some, List, [], ◌∷◌, ◌++◌,
  All, leb, ◌==◌, dite, dec_le, lt_wf, if◌then◌else◌, arith,
}

emit : (n : ℕ) → Acc ◌<◌ n → List ℕ → List ℕ
emit n (Acc.intro _ smaller) out =
    dite (dec_le 10 n) (λ h. emit (n / 10) (smaller (n / 10) (omega arith)) ((b'0' + n % 10) ∷ out))
      (λ _. (b'0' + n) ∷ out)

-- `n.to_string()`: each round emits the last digit.
unfoldable pub decimal : ℕ → List ℕ
unfolding emit
decimal n = emit n (lt_wf.apply n) []

-- `s.parse::<u8>()`, `s.parse::<u32>()`, once a digit must follow: no number is above `limit`.
unfoldable pub parse_digits : (limit : ℕ) → List ℕ → ℕ → Option ℕ
parse_digits limit [] acc = some acc
parse_digits limit (c ∷ cs) acc =
    let v = acc * 10 + (c - b'0') in
    let rest = parse_digits limit cs v in
    if leb b'0' c && (leb c b'9' && leb v limit) then rest else none

-- Text with a digit at least.
abbrev pub parse_some_digits : (limit : ℕ) → List ℕ → Option ℕ
parse_some_digits limit [] = none
parse_some_digits limit (c ∷ cs) = parse_digits limit (c ∷ cs) 0

-- Decimal digits, perhaps behind a plus sign, of a number that is not above `limit`.
unfoldable pub parse_unsigned : (limit : ℕ) → List ℕ → Option ℕ
parse_unsigned limit [] = none
parse_unsigned limit (c ∷ cs) =
    if c == b'+' then parse_some_digits limit cs else parse_some_digits limit (c ∷ cs)

-- The number that the digits at the front write, behind digits that write `acc`, and what follows.
unfoldable pub read_decimal : List ℕ → ℕ → ℕ × List ℕ
read_decimal [] acc = (acc, [])
read_decimal (c ∷ s) acc =
    let (n, rest) = read_decimal s (acc * 10 + (c - b'0')) in
    if leb b'0' c && leb c b'9' then (n, rest) else (acc, c ∷ s)

-- Whatever shows that the rounds end, a number of more digits than one emits its last one and goes on.
emit_round :
    (n : ℕ) (w : Acc ◌<◌ n) (w' : Acc ◌<◌ (n / 10)) (out : List ℕ)
    → emit n w out ≡ ite (dec_le 10 n) (emit (n / 10) w' ((b'0' + n % 10) ∷ out)) ((b'0' + n) ∷ out)
unfolding emit
emit_round n (Acc.intro _ smaller) w' out = λ i.
    dite (dec_le 10 n)
      (λ h. emit (n / 10) (Acc-prop (smaller (n / 10) (omega arith)) w' i) ((b'0' + n % 10) ∷ out))
      (λ _. (b'0' + n) ∷ out)

-- The digits of a number, in front of what is there.
digits : ℕ → List ℕ → List ℕ
digits n out = emit n (lt_wf.apply n) out

digits_round :
    (n : ℕ) (out : List ℕ)
    → digits n out ≡ ite (dec_le 10 n) (digits (n / 10) ((b'0' + n % 10) ∷ out)) ((b'0' + n) ∷ out)
unfolding digits
digits_round n out = emit_round n _ _ out

read_last :
    (n : ℕ) (out : List ℕ) → read_decimal ((b'0' + n % 10) ∷ out) (n / 10) ≡ read_decimal out n
unfolding read_decimal
read_last n out =
    let whole : n / 10 * 10 + (b'0' + n % 10 - b'0') ≡ n = omega arith in
    ground (arith, ap (λ k. read_decimal out k) whole)

read_only : (n : ℕ) (out : List ℕ) → n < 10 → read_decimal ((b'0' + n) ∷ out) 0 ≡ read_decimal out n
unfolding read_decimal
read_only n out h =
    let whole : 0 * 10 + (b'0' + n - b'0') ≡ n = omega arith in
    ground (arith, ap (λ k. read_decimal out k) whole)

read_decimal-digits : (n : ℕ) (out : List ℕ) → read_decimal (digits n out) 0 ≡ read_decimal out n
read_decimal-digits n =
    WellFounded.induction lt_wf
      {C = λ m. (out : List ℕ) → read_decimal (digits m out) 0 ≡ read_decimal out m} n
      (λ m ih out. grind (arith, digits_round m out, read_last m out, read_only m out, ih (m / 10)))

digits-append : (n : ℕ) (out rest : List ℕ) → digits n out ++ rest ≡ digits n (out ++ rest)
digits-append n =
    WellFounded.induction lt_wf
      {C = λ m. (out rest : List ℕ) → digits m out ++ rest ≡ digits m (out ++ rest)} n
      (λ m ih out rest.
        grind (arith, digits_round m out, digits_round m (out ++ rest), ih (m / 10)))

abbrev pub IsAscii : List ℕ → Type 0
IsAscii s = All (λ c. c < 0x80) s

digits-IsAscii : (n : ℕ) (out : List ℕ) → IsAscii out → IsAscii (digits n out)
digits-IsAscii n =
    WellFounded.induction lt_wf {C = λ m. (out : List ℕ) → IsAscii out → IsAscii (digits m out)} n
      (λ m ih out h. elim (dec_le 10 m) [
        | yes big ↦
            rw (digits_round m out ∙ if_pos (dec_le 10 m) big _ _)
              (ih (m / 10) (omega arith) ((b'0' + m % 10) ∷ out) (omega arith, h))
        | no small ↦ rw (digits_round m out ∙ if_neg (dec_le 10 m) small _ _) (omega arith, h)
      ])

-- Text that follows a number and starts with no digit ends it.
pub read_decimal-decimal :
    (n c : ℕ) (rest : List ℕ) → c < b'0' → read_decimal (decimal n ++ c ∷ rest) 0 ≡ (n, c ∷ rest)
unfolding decimal digits read_decimal
read_decimal-decimal n c rest h =
    ap (λ s. read_decimal s 0) (digits-append n [] (c ∷ rest))
    ∙ read_decimal-digits n (c ∷ rest)
    ∙ ground arith

pub decimal-IsAscii : (n : ℕ) → IsAscii (decimal n)
unfolding decimal digits
decimal-IsAscii n = digits-IsAscii n [] tt

pub two_digits : (n : ℕ) → 10 ≤ n → n < 100 → decimal n ≡ (b'0' + n / 10) ∷ (b'0' + n % 10) ∷ []
unfolding decimal digits
two_digits n big small =
    grind (arith, digits_round n [], digits_round (n / 10) ((b'0' + n % 10) ∷ []))
