-- ===== src/Investigations/Keywords.antt =====
-- `extract_keywords` of src/mei/application/services/investigations.py.
use Prim.Native.Char.{Char, code}
use Prim.Native.String.{String, count}
use middle_east_geopolitic.Common.{
  Bool, List, [], ◌∷◌, ◌++◌, ◌&&◌, ◌||◌, not, leb, ltb, ◌==◌, str_elem, true, false, if◌then◌else◌,
}

-- `[A-Za-z0-9']`
abbrev pub is_word_char : Char → Bool
is_word_char c =
    (leb 65 (code c) && leb (code c) 90)
    || (leb 97 (code c) && leb (code c) 122)
    || (leb 48 (code c) && leb (code c) 57)
    || code c == 39

-- The run of such characters that ends here.
abbrev pub end_word : String → List String
end_word String.[] = []
end_word (String.◌∷◌ c s) = String.◌∷◌ c s ∷ []

abbrev pub snoc : String → Char → String
snoc String.[] c = String.◌∷◌ c String.[]
snoc (String.◌∷◌ d s) c = String.◌∷◌ d (snoc s c)

-- `re.findall`: the longest runs of such characters, from the run so far.
unfoldable pub find_words : String → String → List String
find_words run String.[] = end_word run
find_words run (String.◌∷◌ c s) = elim (is_word_char c) [
  | true ↦ find_words (snoc run c) s
  | false ↦ end_word run ++ find_words String.[] s
]

-- `_STOPWORDS`
abbrev pub stopwords : List String
stopwords =
    "the" ∷ "a" ∷ "an" ∷ "is" ∷ "are" ∷ "was" ∷ "were" ∷ "of" ∷ "to" ∷ "in" ∷ "on" ∷ "for" ∷ "and"
    ∷ "or" ∷ "did" ∷ "does" ∷ "do" ∷ "will" ∷ "has" ∷ "have" ∷ "had" ∷ "what" ∷ "how" ∷ "why"
    ∷ "who" ∷ "when" ∷ "where" ∷ "which" ∷ "with" ∷ "that" ∷ "this" ∷ "be" ∷ "been" ∷ "being" ∷ "at"
    ∷ "by" ∷ "from" ∷ "as" ∷ "it" ∷ "its" ∷ []

abbrev pub is_keyword : (String → String) → List String → String → Bool
is_keyword lower seen token =
    ltb 2 (count token) && not (str_elem (lower token) stopwords) && not (str_elem token seen)

-- The loop over the tokens.
unfoldable pub keep_keywords : (String → String) → List String → List String → List String
keep_keywords lower seen [] = seen
keep_keywords lower seen (t ∷ ts) =
    keep_keywords lower (if is_keyword lower seen t then seen ++ (t ∷ []) else seen) ts

-- `extract_keywords`. `lower` is Python's `str.lower`.
unfoldable pub extract_keywords : (String → String) → String → List String
extract_keywords lower text = keep_keywords lower [] (find_words "" text)
