-- ===== src/Collection/Chunks/Partition.antt =====
-- The chunks of a text are its paragraphs, grouped.
use middle_east_geopolitic.Common.{
  Bool-cases, length, sym, arith, not, inl, ◌∙◌, ◌⊎◌, refl, false, ◌≤◌, ap, ◌&&◌, inr, All, ◌≡◌,
  ltb, str_eq, [], ℕ, ◌∷◌, ◌++◌, String, List,
}
use middle_east_geopolitic.Collection.Chunks.{
  or_whole, joined_size, is_empty, last_chunk, take_paragraph, chunk_paragraphs, chunk_text,
}

abbrev pub concat : List (List String) → List String
concat [] = []
concat (c ∷ cs) = c ++ concat cs

append-nil : (xs : List String) → xs ++ [] ≡ xs
append-nil [] = refl
append-nil (x ∷ xs) = ap (λ ys. x ∷ ys) (append-nil xs)

append_assoc : (xs ys zs : List String) → (xs ++ ys) ++ zs ≡ xs ++ (ys ++ zs)
append_assoc [] ys zs = refl
append_assoc (x ∷ xs) ys zs = ap (λ us. x ∷ us) (append_assoc xs ys zs)

-- A chunk holds a paragraph, and it is within the limit or it is one paragraph.
abbrev pub IsChunk : (String → ℕ) → ℕ → List String → Type 0
IsChunk size max_chars c =
    (is_empty c ≡ false) × ((joined_size size c ≤ max_chars) ⊎ (length c ≡ 1))

-- What `current` is: nothing yet, or a chunk.
abbrev Pending : (String → ℕ) → ℕ → List String → Type 0
Pending size max_chars [] = Unit
Pending size max_chars (p ∷ ps) = IsChunk size max_chars (p ∷ ps)

single-IsChunk : (size : String → ℕ) (max_chars : ℕ) (p : String) → IsChunk size max_chars (p ∷ [])
single-IsChunk size max_chars p = (refl, inr refl)

append-Pending :
    (size : String → ℕ) (max_chars : ℕ) (current : List String) (p : String)
    → joined_size size (current ++ (p ∷ [])) ≤ max_chars
    → Pending size max_chars (current ++ (p ∷ []))
append-Pending size max_chars [] p h = single-IsChunk size max_chars p
append-Pending size max_chars (q ∷ qs) p h = (refl, inl h)

-- The first pass takes its paragraph whatever its size.
start-Pending :
    (size : String → ℕ) (max_chars : ℕ) (current : List String) (p : String)
    → (ltb max_chars (joined_size size (current ++ (p ∷ []))) && not (is_empty current)) ≡ false
    → Pending size max_chars (current ++ (p ∷ []))
start-Pending size max_chars [] p h = single-IsChunk size max_chars p
start-Pending size max_chars (q ∷ qs) p h = append-Pending size max_chars (q ∷ qs) p (ground arith)

last_chunk-fits :
    (size : String → ℕ) (max_chars : ℕ) (current : List String)
    → Pending size max_chars current
    → (concat (last_chunk current) ≡ current) × All (IsChunk size max_chars) (last_chunk current)
last_chunk-fits size max_chars [] h = (refl, tt)
last_chunk-fits size max_chars (p ∷ ps) h = (append-nil (p ∷ ps), (h, tt))

Pending-IsChunk :
    (size : String → ℕ) (max_chars : ℕ) (current : List String)
    → Pending size max_chars current
    → is_empty current ≡ false
    → IsChunk size max_chars current
Pending-IsChunk size max_chars [] h e = cc
Pending-IsChunk size max_chars (p ∷ ps) h e = h

chunk_paragraphs-partition :
    (size : String → ℕ) (max_chars : ℕ) (current ps : List String)
    → Pending size max_chars current
    → (concat (chunk_paragraphs size max_chars current ps) ≡ current ++ ps)
      × All (IsChunk size max_chars) (chunk_paragraphs size max_chars current ps)
unfolding chunk_paragraphs take_paragraph
chunk_paragraphs-partition size max_chars current [] h =
    let (c, a) = last_chunk-fits size max_chars current h in (c ∙ sym (append-nil current), a)
chunk_paragraphs-partition size max_chars current (p ∷ ps) h =
    elim (Bool-cases
      (ltb max_chars (joined_size size (current ++ (p ∷ []))) && not (is_empty current))) [
        | inl e ↦
            let (c, a) =
              chunk_paragraphs-partition size max_chars (p ∷ []) ps
                (single-IsChunk size max_chars p) in
            let b = Pending-IsChunk size max_chars current h (ground arith) in
            rw (e, chunk_paragraphs) (ap (λ xs. current ++ xs) c, (b, a))
        | inr e ↦
            let (c, a) =
              chunk_paragraphs-partition size max_chars (current ++ (p ∷ [])) ps
                (start-Pending size max_chars current p e) in
            rw (e, chunk_paragraphs) (c ∙ append_assoc current (p ∷ []) ps, a)
      ]

-- Of a text that has paragraphs, the chunks joined are exactly its paragraphs in order; each chunk holds
-- one at least, and a chunk over the limit is a single paragraph.
pub chunk_text-partition :
    (size : String → ℕ) (paragraphs : String → List String) (max_chars : ℕ) (text p : String)
    (ps : List String)
    → str_eq text "" ≡ false
    → paragraphs text ≡ p ∷ ps
    → (concat (chunk_text size paragraphs max_chars text) ≡ p ∷ ps)
      × All (IsChunk size max_chars) (chunk_text size paragraphs max_chars text)
unfolding chunk_text
chunk_text-partition size paragraphs max_chars text p ps h e =
    let k = chunk_paragraphs-partition size max_chars [] (p ∷ ps) tt in
    rw (h, e, chunk_text) (whole (chunk_paragraphs size max_chars [] (p ∷ ps)) k)
  where
    whole :
        (cs : List (List String))
        → (concat cs ≡ p ∷ ps) × All (IsChunk size max_chars) cs
        → (concat (or_whole cs text) ≡ p ∷ ps) × All (IsChunk size max_chars) (or_whole cs text)
    whole [] k = cc (k.0)
    whole (c ∷ cs) k = k
