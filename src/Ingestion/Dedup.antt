-- ===== src/Ingestion/Dedup.antt =====
-- src/mei/infrastructure/collection/dedup.py: the fingerprint of a text. A text is the list of its code
-- points. `lower` is Python's `str.lower`, and `hash` the first eight bytes of the SHA-256 of a text; both
-- are parameters. A fingerprint is the number that its sixteen hexadecimal digits write.
pub mod Majority
use Prim.Native.Nat.{◌/◌, ◌%◌}
use middle_east_geopolitic.Common.{
  take, length, ◌||◌, false, if◌then◌else◌, ◌&&◌, true, ℕ, zero, suc, ◌+◌, ◌*◌, Bool, List, [], ◌∷◌,
  ◌++◌, leb, ltb, ◌==◌,
}
use middle_east_geopolitic.Common.Int.{negsuc, pos, ◌+ℤ◌, ltb_ℤ, ℤ}

abbrev pub Text : Type 0
Text = List ℕ

-- `[a-z0-9]`
abbrev pub is_token_char : ℕ → Bool
is_token_char c = (leb 97 c && leb c 122) || (leb 48 c && leb c 57)

-- `if tokens: …`, for a run of such characters that ends here
abbrev pub end_token : Text → List Text
end_token [] = []
end_token (c ∷ cs) = (c ∷ cs) ∷ []

-- `re.findall`: the longest runs of such characters, from the run so far.
unfoldable pub find_tokens : Text → Text → List Text
find_tokens run [] = end_token run
find_tokens run (c ∷ cs) = elim (is_token_char c) [
  | true ↦ find_tokens (run ++ (c ∷ [])) cs
  | false ↦ end_token run ++ find_tokens [] cs
]

unfoldable pub normalize_tokens : (Text → Text) → Text → List Text
normalize_tokens lower text = find_tokens [] (lower text)

-- `" ".join(tokens)`
abbrev pub join_tokens : List Text → Text
join_tokens [] = []
join_tokens (t ∷ []) = t
join_tokens (t ∷ u ∷ rest) = t ++ (32 ∷ join_tokens (u ∷ rest))

abbrev pub shingle_size : ℕ
shingle_size = 4

abbrev pub fingerprint_bits : ℕ
fingerprint_bits = 64

-- The windows of `size` tokens, one for each position where as many are left.
unfoldable pub windows : ℕ → List Text → List Text
windows size [] = []
windows size (t ∷ ts) =
    let rest = windows size ts in
    if leb size (length (t ∷ ts)) then join_tokens (take size (t ∷ ts)) ∷ rest else []

abbrev whole : List Text → List Text
whole [] = []
whole (t ∷ ts) = join_tokens (t ∷ ts) ∷ []

unfoldable pub shingles : ℕ → List Text → List Text
shingles size tokens = if ltb (length tokens) size then whole tokens else windows size tokens

-- `(x >> bit) & 1`
unfoldable pub has_bit : ℕ → ℕ → Bool
has_bit x zero = x % 2 == 1
has_bit x (suc bit) = has_bit (x / 2) bit

-- `x | 1 << bit`
unfoldable pub set_bit : ℕ → ℕ → ℕ
set_bit x zero = x / 2 * 2 + 1
set_bit x (suc bit) = set_bit (x / 2) bit * 2 + x % 2

abbrev pub vote : ℕ → ℕ → ℤ → ℤ
vote h bit w = w +ℤ (if has_bit h bit then pos 1 else negsuc 0)

-- The loop over the bits, for one shingle: the weights from `bit` on.
unfoldable pub add_votes : ℕ → ℕ → List ℤ → List ℤ
add_votes h bit [] = []
add_votes h bit (w ∷ ws) = vote h bit w ∷ add_votes h (bit + 1) ws

unfoldable pub weigh_shingles : (Text → ℕ) → List ℤ → List Text → List ℤ
weigh_shingles hash weights [] = weights
weigh_shingles hash weights (s ∷ ss) = weigh_shingles hash (add_votes (hash s) 0 weights) ss

-- `[0] * n`
abbrev pub zeros : ℕ → List ℤ
zeros zero = []
zeros (suc n) = pos 0 ∷ zeros n

-- The last loop, from the fingerprint so far.
unfoldable pub collect_bits : ℕ → ℕ → List ℤ → ℕ
collect_bits bit fingerprint [] = fingerprint
collect_bits bit fingerprint (w ∷ ws) =
    collect_bits (bit + 1) (if ltb_ℤ (pos 0) w then set_bit fingerprint bit else fingerprint) ws

abbrev of_shingles : (Text → ℕ) → List Text → ℕ
of_shingles hash [] = 0
of_shingles hash (s ∷ ss) = collect_bits 0 0 (weigh_shingles hash (zeros fingerprint_bits) (s ∷ ss))

unfoldable pub compute_fingerprint : (Text → Text) → (Text → ℕ) → Text → ℕ
compute_fingerprint lower hash text =
    of_shingles hash (shingles shingle_size (normalize_tokens lower text))
