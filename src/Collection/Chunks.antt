-- ===== src/Collection/Chunks.antt =====
-- src/mei/infrastructure/collection/parser.py: `chunk_text`. A chunk is the list of the paragraphs that
-- it joins by blank lines. The split of a text into its stripped paragraphs that are not empty, and the
-- number of characters of a text, are parameters.
pub mod Partition
-- `DEFAULT_CHUNK_CHARS`
use middle_east_geopolitic.Common.{
  not, ◌&&◌, false, ◌+◌, true, ltb, str_eq, ◌++◌, [], if◌then◌else◌, ◌∷◌, Bool, ℕ, String, List,
}

abbrev pub default_chunk_chars : ℕ
default_chunk_chars = 4000

-- `len` of the joined paragraphs: two line feeds between any two of them.
abbrev pub joined_size : (String → ℕ) → List String → ℕ
joined_size size [] = 0
joined_size size (p ∷ []) = size p
joined_size size (p ∷ q ∷ rest) = size p + 2 + joined_size size (q ∷ rest)

abbrev pub is_empty : List String → Bool
is_empty [] = true
is_empty (p ∷ ps) = false

-- One pass of the loop: the chunks that it closes, and the new `current`.
unfoldable pub take_paragraph :
    (String → ℕ) → ℕ → List String → String → List (List String) × List String
take_paragraph size max_chars current p =
    if ltb max_chars (joined_size size (current ++ (p ∷ []))) && not (is_empty current)
    then (current ∷ [], p ∷ [])
    else ([], current ++ (p ∷ []))

-- `if current: chunks.append(current)`
abbrev pub last_chunk : List String → List (List String)
last_chunk [] = []
last_chunk (p ∷ ps) = (p ∷ ps) ∷ []

unfoldable pub chunk_paragraphs : (String → ℕ) → ℕ → List String → List String → List (List String)
chunk_paragraphs size max_chars current [] = last_chunk current
chunk_paragraphs size max_chars current (p ∷ ps) =
    let (closed, next) = take_paragraph size max_chars current p in
    closed ++ chunk_paragraphs size max_chars next ps

-- `chunks or [text]`
abbrev pub or_whole : List (List String) → String → List (List String)
or_whole [] text = (text ∷ []) ∷ []
or_whole (c ∷ cs) text = c ∷ cs

unfoldable pub chunk_text : (String → ℕ) → (String → List String) → ℕ → String → List (List String)
chunk_text size paragraphs max_chars text =
    if str_eq text ""
    then []
    else or_whole (chunk_paragraphs size max_chars [] (paragraphs text)) text
