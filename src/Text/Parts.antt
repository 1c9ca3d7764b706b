-- ===== src/Text/Parts.antt =====
-- What the text operations of magnum-tcp/src/main.rs keep of a text has the properties of its
-- characters, and characters below 2 ^ 22 are written as bytes.
use magnus_tcp.Base.{
  ℕ, ◌<◌, List, [], ◌∷◌, Option, none, some, All, All-append, All-before, All-behind, arith,
}
use magnus_tcp.Net.{IsByte}
use magnus_tcp.Text.{skip_whitespace, word, after_word, next_word, first_line}
use magnus_tcp.Text.Utf8.{encode, encode_char}

-- What UTF-8 of at most four bytes, the first of them 255 at most, can write.
abbrev pub IsCode : ℕ → Type 0
IsCode c = c < 0x40_0000

encode_char-IsByte : (c : ℕ) → IsCode c → All IsByte (encode_char c)
unfolding encode_char
encode_char-IsByte c h = ground arith

encode_char-IsCode : (c : ℕ) → All IsByte (encode_char c) → IsCode c
unfolding encode_char
encode_char-IsCode c h = ground arith

pub encode-IsByte : (s : List ℕ) → All IsCode s → All IsByte (encode s)
unfolding encode
encode-IsByte [] h = tt
encode-IsByte (c ∷ s) (h, hs) =
    All-append IsByte (encode_char c) (encode s) (encode_char-IsByte c h) (encode-IsByte s hs)

pub encode-IsCode : (s : List ℕ) → All IsByte (encode s) → All IsCode s
unfolding encode
encode-IsCode [] h = tt
encode-IsCode (c ∷ s) h = (
  encode_char-IsCode c (All-before IsByte (encode_char c) (encode s) h),
  encode-IsCode s (All-behind IsByte (encode_char c) (encode s) h),
)

module _ (P : ℕ → Type 0) where
  All-skip_whitespace : (s : List ℕ) → All P s → All P (skip_whitespace s)
  unfolding skip_whitespace
  All-skip_whitespace [] h = tt
  All-skip_whitespace (c ∷ s) (h, hs) = ground (arith, All-skip_whitespace s hs)

  All-word : (s : List ℕ) → All P s → All P (word s)
  unfolding word
  All-word [] h = tt
  All-word (c ∷ s) (h, hs) = ground (arith, All-word s hs)

  All-after_word : (s : List ℕ) → All P s → All P (after_word s)
  unfolding after_word
  All-after_word [] h = tt
  All-after_word (c ∷ s) (h, hs) = ground (arith, All-after_word s hs)

  pub All-first_line : (s : List ℕ) → All P s → All P (first_line s)
  unfolding first_line
  All-first_line [] h = tt
  All-first_line (c ∷ s) (h, hs) = ground (arith, All-first_line s hs)

  -- The word and the rest, if there are any.
  abbrev pub AllBoth : Option (List ℕ × List ℕ) → Type 0
  AllBoth none = Unit
  AllBoth (some (w, rest)) = All P w × All P rest

  split_word :
      (s : List ℕ)
      → All P s
      → AllBoth (elim s [ [] ↦ none | c ∷ rest ↦ some (word (c ∷ rest), after_word (c ∷ rest)) ])
  split_word [] h = tt
  split_word (c ∷ s) h = (All-word (c ∷ s) h, All-after_word (c ∷ s) h)

  pub next_word-AllBoth : (s : List ℕ) → All P s → AllBoth (next_word s)
  unfolding next_word
  next_word-AllBoth s h = split_word (skip_whitespace s) (All-skip_whitespace s h)
