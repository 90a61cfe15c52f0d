-- ===== src/Server/Text.antt =====
-- What server/src/video.rs uses of Rust's text functions, on the characters of a text, with the
-- lemmas on words and lines.
use Prim.Native.Char.{Char, code}
use Prim.Native.String.{String}
use pessi_streamer.Base.{
  ℕ, zero, suc, ◌≡◌, ◌⊎◌, refl, ap, inl, inr, Bool, false, ◌&&◌, ◌||◌, Option, none, some, List, [],
  ◌∷◌, ◌++◌, arith, nat_eq, ◌==◌, leb, if◌then◌else◌, is_empty, contains, All, Bool-cases,
}

abbrev pub chars : String → List Char
chars String.[] = []
chars (String.◌∷◌ c s) = c ∷ chars s

abbrev pub text : List Char → String
text [] = String.[]
text (c ∷ cs) = String.◌∷◌ c (text cs)

pub chars-text : (l : List Char) → chars (text l) ≡ l
chars-text [] = refl
chars-text (c ∷ cs) = ap (λ l. c ∷ l) (chars-text cs)

-- `char::is_whitespace`: the property White_Space of Unicode.
abbrev spaces : List ℕ
spaces = 32 ∷ 133 ∷ 160 ∷ 5760 ∷ 8232 ∷ 8233 ∷ 8239 ∷ 8287 ∷ 12288 ∷ []

unfoldable pub is_whitespace : Char → Bool
unfolding contains
is_whitespace c =
    contains spaces (code c)
    || (leb 9 (code c) && leb (code c) 13)
    || (leb 8192 (code c) && leb (code c) 8202)

unfoldable pub trim_start : List Char → List Char
trim_start [] = []
trim_start (c ∷ s) = let rest = trim_start s in if is_whitespace c then rest else c ∷ s

unfoldable pub trim_end : List Char → List Char
trim_end [] = []
trim_end (c ∷ s) =
    let rest = trim_end s in if is_whitespace c && is_empty rest then [] else c ∷ rest

unfoldable pub trim : List Char → List Char
unfolding trim_start trim_end
trim s = trim_end (trim_start s)

abbrev pub starts_with : ℕ → List Char → Bool
starts_with n [] = false
starts_with n (c ∷ s) = code c == n

-- A character in front of the first line.
abbrev pub onto_first : Char → List (List Char) → List (List Char)
onto_first c [] = (c ∷ []) ∷ []
onto_first c (l ∷ ls) = (c ∷ l) ∷ ls

-- `BufRead::lines`: a line ends with a line feed, or a carriage return and a line feed.
unfoldable pub lines : List Char → List (List Char)
lines [] = []
lines (c ∷ s) =
    let rest = lines s in
    if code c == b'\n'
    then [] ∷ rest
    else if (code c == b'\r') && starts_with b'\n' s
    then rest
    else onto_first c rest

-- `split(' ')`
unfoldable pub split : List Char → List (List Char)
split [] = [] ∷ []
split (c ∷ s) = let rest = split s in if code c == b' ' then [] ∷ rest else onto_first c rest

-- `nth(n)`
unfoldable pub nth {ℓ} : {A : Type ℓ} → ℕ → List A → Option A
nth n [] = none
nth zero (x ∷ xs) = some x
nth (suc n) (x ∷ xs) = nth n xs

abbrev pub IsWord : List Char → Type 0
IsWord = All (λ c. is_whitespace c ≡ false)

abbrev pub IsLine : List Char → Type 0
IsLine = All (λ c. ((code c == b'\n') ≡ false) × ((code c == b'\r') ≡ false))

abbrev pub space : Char
space = " "

abbrev pub newline : Char
newline = "\n"

pub lines-line : (l s : List Char) → IsLine l → lines (l ++ newline ∷ s) ≡ l ∷ lines s
unfolding lines
lines-line [] s h = refl
lines-line (c ∷ l) s h = rw (h.0.0, h.0.1, lines-line l s h.1) refl

not_feed :
    (c : Char) → is_whitespace c ≡ false → ((code c == b'\n') ≡ false) × ((code c == b'\r') ≡ false)
unfolding is_whitespace contains
not_feed c h = (ground (arith, h), ground (arith, h))

not_space : (c : Char) → is_whitespace c ≡ false → (code c == b' ') ≡ false
unfolding is_whitespace contains
not_space c h = ground (arith, h)

pub IsLine-of_word : (w : List Char) → IsWord w → IsLine w
IsLine-of_word [] h = tt
IsLine-of_word (c ∷ w) h = (not_feed c h.0, IsLine-of_word w h.1)

pub trim_end-word : (w s : List Char) → IsWord w → trim_end (w ++ s) ≡ w ++ trim_end s
unfolding trim_end
trim_end-word [] s h = refl
trim_end-word (c ∷ w) s h = rw (h.0, trim_end-word w s h.1) refl

-- What follows a space is trimmed to nothing, or to a text that begins with the space.
pub trim_end-space :
    (s : List Char) → (trim_end (space ∷ s) ≡ []) ⊎ (trim_end (space ∷ s) ≡ space ∷ trim_end s)
unfolding trim_end is_whitespace contains
trim_end-space s = elim (Bool-cases (is_empty (trim_end s))) [
  | inl e ↦ inl (rw e refl)
  | inr e ↦ inr (rw e refl)
]

pub split-word : (w s : List Char) → IsWord w → split (w ++ space ∷ s) ≡ w ∷ split s
unfolding split
split-word [] s h = refl
split-word (c ∷ w) s h = rw (not_space c h.0, split-word w s h.1) refl

pub split-last : (w : List Char) → IsWord w → split w ≡ w ∷ []
unfolding split
split-last [] h = refl
split-last (c ∷ w) h = rw (not_space c h.0, split-last w h.1) refl
