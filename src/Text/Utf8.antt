-- ===== src/Text/Utf8.antt =====
-- UTF-8, which `std::str::from_utf8` and `into_bytes` of magnum-tcp/src/main.rs read and write.
use magnus_tcp.Base.{
  ℕ, zero, suc, ◌+◌, ◌-◌, ◌*◌, ◌/◌, ◌%◌, ◌≤◌, ◌<◌, ◌≡◌, ◌⊎◌, inl, inr, refl, ap, sym, ◌∙◌,
  Bool-cases, Option-cases, Bool, ◌&&◌, Option, none, some, List, [], ◌∷◌, ◌++◌, append_assoc,
  length, drop, length-append, All, ltb, leb, ◌==◌, if◌then◌else◌, arith,
}

-- A `char`: a code point that is no surrogate.
abbrev pub IsScalar : ℕ → Type 0
IsScalar c = (c < 0x11_0000) × ((c < 0xD800) ⊎ (0xE000 ≤ c))

unfoldable pub encode_char : ℕ → List ℕ
encode_char c =
    if ltb c 0x80
    then c ∷ []
    else (if ltb c 0x800
        then (0xC0 + c / 0x40) ∷ (0x80 + c % 0x40) ∷ []
        else (if ltb c 0x1_0000
            then (0xE0 + c / 0x1000) ∷ (0x80 + c / 0x40 % 0x40) ∷ (0x80 + c % 0x40) ∷ []
            else (0xF0 + c / 0x4_0000)
              ∷ (0x80 + c / 0x1000 % 0x40)
              ∷ (0x80 + c / 0x40 % 0x40)
              ∷ (0x80 + c % 0x40)
              ∷ []))

-- `s.into_bytes()` and `s.as_bytes()`.
unfoldable pub encode : List ℕ → List ℕ
encode [] = []
encode (c ∷ s) = encode_char c ++ encode s

abbrev is_between : (lo hi b : ℕ) → Bool
is_between lo hi b = leb lo b && leb b hi

-- The bounds of a second byte, which keep out encodings that are too long, surrogates and numbers
-- that are too large.
abbrev lowest : ℕ → ℕ
lowest b0 = if b0 == 0xE0 then 0xA0 else (if b0 == 0xF0 then 0x90 else 0x80)

abbrev highest : ℕ → ℕ
highest b0 = if b0 == 0xED then 0x9F else (if b0 == 0xF4 then 0x8F else 0xBF)

unfoldable decode_two : ℕ → List ℕ → Option (ℕ × List ℕ)
decode_two b0 (b1 ∷ rest) =
    if is_between 0x80 0xBF b1 then some ((b0 - 0xC0) * 0x40 + (b1 - 0x80), rest) else none
decode_two b0 _ = none

unfoldable decode_three : ℕ → List ℕ → Option (ℕ × List ℕ)
decode_three b0 (b1 ∷ b2 ∷ rest) =
    if is_between (lowest b0) (highest b0) b1 && is_between 0x80 0xBF b2
    then some ((b0 - 0xE0) * 0x1000 + (b1 - 0x80) * 0x40 + (b2 - 0x80), rest)
    else none
decode_three b0 _ = none

unfoldable decode_four : ℕ → List ℕ → Option (ℕ × List ℕ)
decode_four b0 (b1 ∷ b2 ∷ b3 ∷ rest) =
    if is_between (lowest b0) (highest b0) b1
      && (is_between 0x80 0xBF b2 && is_between 0x80 0xBF b3)
    then some
        ((b0 - 0xF0) * 0x4_0000 + (b1 - 0x80) * 0x1000 + (b2 - 0x80) * 0x40 + (b3 - 0x80), rest)
    else none
decode_four b0 _ = none

-- The first character, and the bytes behind it.
unfoldable pub decode_char : List ℕ → Option (ℕ × List ℕ)
unfolding decode_two decode_three decode_four
decode_char [] = none
decode_char (b0 ∷ rest) =
    if ltb b0 0x80
    then some (b0, rest)
    else (if is_between 0xC2 0xDF b0
        then decode_two b0 rest
        else (if is_between 0xE0 0xEF b0
            then decode_three b0 rest
            else (if is_between 0xF0 0xF4 b0 then decode_four b0 rest else none)))

-- At most `n` characters.
unfoldable pub decode : ℕ → List ℕ → Option (List ℕ)
decode n [] = some []
decode zero (b ∷ bs) = none
decode (suc n) (b ∷ bs) = elim (decode_char (b ∷ bs)) [
  | none ↦ none
  | some (c, rest) ↦ elim (decode n rest) [ none ↦ none | some cs ↦ some (c ∷ cs) ]
]

-- `std::str::from_utf8(bytes)`. A character takes a byte at least, so there are as many rounds as bytes.
unfoldable pub from_utf8 : List ℕ → Option (List ℕ)
from_utf8 bytes = decode (length bytes) bytes

-- How many bytes at the front, where no character starts, one replacement character stands for: as
-- many as could begin a character, one at least.
unfoldable bad_length : List ℕ → ℕ
bad_length (b0 ∷ b1 ∷ b2 ∷ rest) =
    if is_between 0xE0 0xF4 b0 && is_between (lowest b0) (highest b0) b1
    then (if is_between 0xF0 0xF4 b0 && is_between 0x80 0xBF b2 then 3 else 2)
    else 1
bad_length (b0 ∷ b1 ∷ []) =
    if is_between 0xE0 0xF4 b0 && is_between (lowest b0) (highest b0) b1 then 2 else 1
bad_length _ = 1

-- At most `n` characters.
unfoldable decode_lossy : ℕ → List ℕ → List ℕ
unfolding bad_length
decode_lossy n [] = []
decode_lossy zero (b ∷ bs) = []
decode_lossy (suc n) (b ∷ bs) =
    let (c, rest) = elim (decode_char (b ∷ bs)) as (λ _. ℕ × List ℕ) [
      | none ↦ (0xFFFD, drop (bad_length (b ∷ bs)) (b ∷ bs))
      | some (c, rest) ↦ (c, rest)
    ] in
    c ∷ decode_lossy n rest

-- `String::from_utf8_lossy(bytes)`.
unfoldable pub from_utf8_lossy : List ℕ → List ℕ
unfolding decode_lossy
from_utf8_lossy bytes = decode_lossy (length bytes) bytes

sound_two :
    (b0 : ℕ) (bs : List ℕ) (c : ℕ) (rest : List ℕ)
    → 0xC2 ≤ b0
    → b0 ≤ 0xDF
    → decode_two b0 bs ≡ some (c, rest)
    → encode_char c ++ rest ≡ b0 ∷ bs
unfolding encode_char decode_two
sound_two b0 [] c rest lo hi e = ground arith
sound_two b0 (b1 ∷ bs) c rest lo hi e = ground arith

sound_three :
    (b0 : ℕ) (bs : List ℕ) (c : ℕ) (rest : List ℕ)
    → 0xE0 ≤ b0
    → b0 ≤ 0xEF
    → decode_three b0 bs ≡ some (c, rest)
    → encode_char c ++ rest ≡ b0 ∷ bs
unfolding encode_char decode_three
sound_three b0 [] c rest lo hi e = ground arith
sound_three b0 (b1 ∷ []) c rest lo hi e = ground arith
sound_three b0 (b1 ∷ b2 ∷ bs) c rest lo hi e = ground arith

sound_four :
    (b0 : ℕ) (bs : List ℕ) (c : ℕ) (rest : List ℕ)
    → 0xF0 ≤ b0
    → b0 ≤ 0xF4
    → decode_four b0 bs ≡ some (c, rest)
    → encode_char c ++ rest ≡ b0 ∷ bs
unfolding encode_char decode_four
sound_four b0 [] c rest lo hi e = ground arith
sound_four b0 (b1 ∷ []) c rest lo hi e = ground arith
sound_four b0 (b1 ∷ b2 ∷ []) c rest lo hi e = ground arith
sound_four b0 (b1 ∷ b2 ∷ b3 ∷ bs) c rest lo hi e = ground arith

decode_char-encode_char :
    (c : ℕ) (rest : List ℕ) → IsScalar c → decode_char (encode_char c ++ rest) ≡ some (c, rest)
unfolding encode_char decode_char decode_two decode_three decode_four
decode_char-encode_char c rest v = ground arith

ascii_char : (c : ℕ) → c < 0x80 → encode_char c ≡ c ∷ []
unfolding encode_char
ascii_char c h = ground arith

sound :
    (bs : List ℕ) (c : ℕ) (rest : List ℕ)
    → decode_char bs ≡ some (c, rest)
    → encode_char c ++ rest ≡ bs
unfolding decode_char
sound [] c rest e = ground arith
sound (b ∷ bs) c rest e = elim (Bool-cases (ltb b 0x80)) [
  | inl small ↦ ground (arith, ascii_char b)
  | inr big ↦ elim (Bool-cases (is_between 0xC2 0xDF b)) [
    | inl two ↦ sound_two b bs c rest (ground arith) (ground arith) (ground arith)
    | inr more ↦ elim (Bool-cases (is_between 0xE0 0xEF b)) [
      | inl three ↦ sound_three b bs c rest (ground arith) (ground arith) (ground arith)
      | inr most ↦ sound_four b bs c rest (ground arith) (ground arith) (ground arith)
    ]
  ]
]

some-decode : (n : ℕ) (bs cs : List ℕ) → decode n bs ≡ some cs → encode cs ≡ bs
unfolding decode encode
some-decode n [] cs e = ground arith
some-decode zero (b ∷ bs) cs e = ground arith
some-decode (suc n) (b ∷ bs) cs e = elim (Option-cases (decode_char (b ∷ bs))) [
  | inl nothing ↦ ground arith
  | inr ((c, rest), first) ↦ elim (Option-cases (decode n rest)) [
    | inl nothing ↦ ground arith
    | inr (cs', later) ↦
        let whole : c ∷ cs' ≡ cs = ground arith in
        ap encode (sym whole)
        ∙ ap (λ r. encode_char c ++ r) (some-decode n rest cs' later)
        ∙ sound (b ∷ bs) c rest first
  ]
]

pub encode-from_utf8 : (bs cs : List ℕ) → from_utf8 bs ≡ some cs → encode cs ≡ bs
unfolding from_utf8
encode-from_utf8 bs cs e = some-decode (length bs) bs cs e

length-encode_char : (c : ℕ) → 0 < length (encode_char c)
unfolding encode_char
length-encode_char c = ground arith

encode_char_cons :
    (c : ℕ) (bs : List ℕ) (n : ℕ)
    → decode (suc n) (encode_char c ++ bs) ≡ elim (decode_char (encode_char c ++ bs)) [
      | none ↦ none
      | some (c', rest) ↦ elim (decode n rest) [ none ↦ none | some cs ↦ some (c' ∷ cs) ]
    ]
unfolding decode encode_char
encode_char_cons c bs n = ground arith

decode-encode :
    (n : ℕ) (cs : List ℕ)
    → All IsScalar cs
    → length (encode cs) ≤ n
    → decode n (encode cs) ≡ some cs
unfolding decode encode
decode-encode zero [] v h = refl
decode-encode (suc n) [] v h = refl
decode-encode zero (c ∷ cs) v h =
    absurd (omega (arith, length-encode_char c, length-append (encode_char c) (encode cs)))
decode-encode (suc n) (c ∷ cs) (v, vs) h =
    encode_char_cons c (encode cs) n
    ∙ rw (
      decode_char-encode_char c (encode cs) v,
      decode-encode n cs vs
          (omega (arith, length-encode_char c, length-append (encode_char c) (encode cs))),
    )

pub encode_ascii : (s : List ℕ) → All (λ c. c < 0x80) s → encode s ≡ s
unfolding encode encode_char
encode_ascii [] h = refl
encode_ascii (c ∷ s) (h, hs) = ground (arith, encode_ascii s hs)

pub encode-append : (s t : List ℕ) → encode (s ++ t) ≡ encode s ++ encode t
unfolding encode
encode-append [] t = refl
encode-append (c ∷ s) t =
    ap (λ r. encode_char c ++ r) (encode-append s t)
    ∙ sym (append_assoc (encode_char c) (encode s) (encode t))
