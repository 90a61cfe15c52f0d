-- ===== src/Server/Listing.antt =====
-- What `ffmpeg -encoders` writes, read back (server/src/video.rs).
use Prim.Native.Char.{Char}
use Prim.Native.String.{String}
use pessi_streamer.Base.{
  string_eq, ◌≡◌, ◌⊎◌, ◌∙◌, refl, ap, inl, inr, true, false, some, List, [], ◌∷◌, ◌++◌, is_empty,
  contains, All, All-append, retain, map,
}
use mathlib.Core.List.{append-nil}
use pessi_streamer.Server.Text.{
  text, chars-text, is_whitespace, trim, trim_start, trim_end, lines, starts_with, split, nth,
  IsWord, IsLine, space, newline, lines-line, IsLine-of_word, trim_end-word, trim_end-space,
  split-word, split-last,
}
use pessi_streamer.Server.Encoder.{second_words, encoder_names, list_encoders}

-- A line of what `ffmpeg -encoders` writes: a video encoder, or another line.
pub record Encoder : Type 0 where
  pub flags : List Char
  pub name : List Char
  pub description : List Char

pub data Row : Type 0 where
  encoder : Encoder → Row
  other : List Char → Row

abbrev vee : Char
vee = "V"

abbrev pub shown : Row → List Char
shown (encoder e) = space ∷ vee ∷ (e.flags ++ space ∷ (e.name ++ space ∷ e.description))
shown (other l) = l

abbrev pub IsRow : Row → Type 0
IsRow (encoder e) =
    IsWord e.flags × IsWord e.name × (is_empty e.name ≡ false) × IsLine e.description
IsRow (other l) = IsLine l × (starts_with b'V' (trim l) ≡ false)

abbrev pub printed : List Row → List Char
printed [] = []
printed (r ∷ rs) = shown r ++ newline ∷ printed rs

abbrev pub names : List Row → List String
names [] = []
names (encoder e ∷ rs) = text e.name ∷ names rs
names (other l ∷ rs) = names rs

IsLine-shown : (r : Row) → IsRow r → IsLine (shown r)
IsLine-shown (encoder e) (flags, name, _, description) =
    let named =
      All-append _ e.name (space ∷ e.description) (IsLine-of_word e.name name)
        ((refl, refl), description) in
    let flagged =
      All-append _ e.flags (space ∷ (e.name ++ space ∷ e.description))
        (IsLine-of_word e.flags flags) ((refl, refl), named) in
    ((refl, refl), ((refl, refl), flagged))
IsLine-shown (other l) (line, _) = line

is_empty-append : (w s : List Char) → is_empty w ≡ false → is_empty (w ++ s) ≡ false
is_empty-append [] s h = cc
is_empty-append (c ∷ w) s h = refl

trim_end-filled :
    (s : List Char) → is_empty (trim_end s) ≡ false → trim_end (space ∷ s) ≡ space ∷ trim_end s
unfolding trim_end is_whitespace contains
trim_end-filled s h = rw h refl

-- The rest of a row after its name, once the line is trimmed: nothing, or another word.
rest_of_row :
    (e : Encoder)
    → IsRow (encoder e)
    → trim (shown (encoder e))
      ≡ vee ∷ (e.flags ++ space ∷ (e.name ++ trim_end (space ∷ e.description)))
unfolding trim trim_start trim_end is_whitespace contains
rest_of_row e (flags, name, filled, description) =
    let tail = trim_end-word e.name (space ∷ e.description) name in
    let middle =
      trim_end-filled (e.name ++ space ∷ e.description)
        (ap is_empty tail ∙ is_empty-append e.name (trim_end (space ∷ e.description)) filled) in
    ap (λ l. vee ∷ l)
      (trim_end-word e.flags (space ∷ (e.name ++ space ∷ e.description)) flags
        ∙ ap (λ l. e.flags ++ l) (middle ∙ ap (λ l. space ∷ l) tail))

split-name :
    (w t : List Char)
    → IsWord w
    → (t ≡ []) ⊎ ((s : List Char) × (t ≡ space ∷ s))
    → nth 0 (split (w ++ t)) ≡ some w
unfolding nth
split-name w t h (inl e) = rw (e, append-nil w, split-last w h) refl
split-name w t h (inr (s, e)) = rw e (rw (split-word w s h) refl)

second_word :
    (e : Encoder) → IsRow (encoder e) → nth 1 (split (trim (shown (encoder e)))) ≡ some e.name
unfolding nth is_whitespace contains
second_word e (flags, name, filled, description) =
    let tail : (trim_end (space ∷ e.description) ≡ [])
        ⊎ ((s : List Char) × (trim_end (space ∷ e.description) ≡ space ∷ s)) =
      elim (trim_end-space e.description) [ inl gone ↦ inl gone | inr kept ↦ inr (_, kept) ] in
    ap (λ l. nth 1 (split l)) (rest_of_row e (flags, name, filled, description))
    ∙ (ap (nth 1)
          (split-word (vee ∷ e.flags) (e.name ++ trim_end (space ∷ e.description)) (refl, flags))
        ∙ split-name e.name (trim_end (space ∷ e.description)) name tail)

encoder_names-line :
    (l s : List Char)
    → IsLine l
    → encoder_names (l ++ newline ∷ s)
      ≡ second_words (retain (starts_with b'V') (trim l ∷ map trim (lines s)))
unfolding encoder_names
encoder_names-line l s h =
    ap (λ ls. second_words (retain (starts_with b'V') (map trim ls))) (lines-line l s h)

second_words-encoder :
    (e : Encoder) (ls : List (List Char)) (ns : List String)
    → IsRow (encoder e)
    → second_words (retain (starts_with b'V') ls) ≡ some ns
    → second_words (retain (starts_with b'V') (trim (shown (encoder e)) ∷ ls))
      ≡ some (text e.name ∷ ns)
unfolding second_words retain
second_words-encoder e ls ns h rest =
    let video : starts_with b'V' (trim (shown (encoder e))) ≡ true =
      ap (starts_with b'V') (rest_of_row e h) in
    rw (video, second_word e h, rest) refl

encoder_names-printed :
    (rs : List Row) → All IsRow rs → encoder_names (printed rs) ≡ some (names rs)
unfolding encoder_names second_words retain lines
encoder_names-printed [] h = refl
encoder_names-printed (encoder e ∷ rs) (row, rest) =
    encoder_names-line (shown (encoder e)) (printed rs) (IsLine-shown (encoder e) row)
    ∙ second_words-encoder e (map trim (lines (printed rs))) (names rs) row
        (encoder_names-printed rs rest)
encoder_names-printed (other l ∷ rs) ((line, no_vee), rest) =
    encoder_names-line l (printed rs) line ∙ rw no_vee (encoder_names-printed rs rest)

-- The names that `list_encoders` returns, for every text that lists video encoders, each as a space,
-- the flags with `V` first, the name and a description, among lines that do not begin with `V`.
pub list_encoders_lem :
    (rs : List Row) → All IsRow rs → list_encoders (some (text (printed rs))) ≡ some (names rs)
unfolding list_encoders
list_encoders_lem rs h = rw (chars-text (printed rs)) (encoder_names-printed rs h)
