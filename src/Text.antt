-- ===== src/Text.antt =====
-- Text of the standard library, as magnum-tcp/src/main.rs uses it: a `str` is the list of its
-- characters' code points, and a byte string the list of its bytes.
use Prim.Native.Char.{code}
use Prim.Native.String.{String}
use magnus_tcp.Base.{
  ℕ, zero, suc, ◌+◌, Bool, true, false, ◌&&◌, ◌||◌, Option, none, some, List, [], ◌∷◌, leb, ◌==◌,
  if◌then◌else◌,
}
pub mod Utf8
pub mod Decimal
pub mod Parts

-- A literal.
abbrev pub codes : String → List ℕ
codes String.[] = []
codes (String.◌∷◌ c s) = code c ∷ codes s

-- `a == b`.
abbrev pub text_eq : List ℕ → List ℕ → Bool
text_eq [] [] = true
text_eq (a ∷ as') (b ∷ bs) = (a == b) && text_eq as' bs
text_eq _ _ = false

-- `s.starts_with(prefix)`.
unfoldable pub starts_with : (s prefix : List ℕ) → Bool
starts_with s [] = true
starts_with [] (p ∷ ps) = false
starts_with (c ∷ s) (p ∷ ps) = (c == p) && starts_with s ps

-- `s.windows(n).any(|w| w == pattern)`, where the pattern has `n` bytes, one at least.
unfoldable pub has_window : (s pattern : List ℕ) → Bool
has_window [] pattern = false
has_window (c ∷ s) pattern = starts_with (c ∷ s) pattern || has_window s pattern

-- `s.find(pattern)`, for a pattern that is not empty.
unfoldable pub find : (s pattern : List ℕ) → Option ℕ
find [] pattern = none
find (c ∷ s) pattern =
    let later : Option ℕ = elim (find s pattern) [ none ↦ none | some i ↦ some (i + 1) ] in
    if starts_with (c ∷ s) pattern then some 0 else later

-- `char::is_whitespace`: the characters with the Unicode property White_Space.
unfoldable pub is_whitespace : ℕ → Bool
is_whitespace c =
    (leb 9 c && leb c 13)
    || (c == 0x20)
    || (c == 0x85)
    || (c == 0xA0)
    || (c == 0x1680)
    || (leb 0x2000 c && leb c 0x200A)
    || (c == 0x2028)
    || (c == 0x2029)
    || (c == 0x202F)
    || (c == 0x205F)
    || (c == 0x3000)

unfoldable pub skip_whitespace : List ℕ → List ℕ
skip_whitespace [] = []
skip_whitespace (c ∷ s) = let rest = skip_whitespace s in if is_whitespace c then rest else c ∷ s

-- The characters up to the next white space.
unfoldable pub word : List ℕ → List ℕ
word [] = []
word (c ∷ s) = let rest = word s in if is_whitespace c then [] else c ∷ rest

unfoldable pub after_word : List ℕ → List ℕ
after_word [] = []
after_word (c ∷ s) = let rest = after_word s in if is_whitespace c then c ∷ s else rest

-- One `next` of `s.split_whitespace()`: the word and the text behind it.
unfoldable pub next_word : List ℕ → Option (List ℕ × List ℕ)
next_word s = elim (skip_whitespace s) [
  | [] ↦ none
  | c ∷ rest ↦ some (word (c ∷ rest), after_word (c ∷ rest))
]

-- `s.lines().next().unwrap_or("")`: a line ends with "\n" or "\r\n".
unfoldable pub first_line : List ℕ → List ℕ
first_line [] = []
first_line (c ∷ s) =
    let rest = first_line s in
    if (c == 10) || ((c == 13) && starts_with s (10 ∷ [])) then [] else c ∷ rest
