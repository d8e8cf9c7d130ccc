-- ===== src/Ingestion/Dedup/Majority.antt =====
-- The fingerprint of src/mei/infrastructure/collection/dedup.py, bit by bit: the loops over the weights
-- take a vote.
use middle_east_geopolitic.Ingestion.Dedup.{
  of_shingles, normalize_tokens, shingle_size, shingles, fingerprint_bits, vote, add_votes,
  compute_fingerprint, zeros, weigh_shingles, ◌%◌, ◌/◌, collect_bits, set_bit, Text, has_bit,
}
use middle_east_geopolitic.Common.{
  ltb, ap, length, ◌<◌, ◌∙◌, ◌*◌, refl, arith, zero, [], true, suc, ◌==◌, ◌+◌, ◌∷◌, if◌then◌else◌,
  false, ◌≡◌, List, ℕ,
}
use middle_east_geopolitic.Common.Int.{neg_part, pos_part, sub_ℕ, ltb_ℤ, pos, ℤ}

-- How many of the shingles have the bit in their hash.
abbrev pub supporters : (Text → ℕ) → ℕ → List Text → ℕ
supporters hash bit [] = 0
supporters hash bit (s ∷ ss) = (if has_bit (hash s) bit then 1 else 0) + supporters hash bit ss

abbrev nth : ℕ → List ℤ → ℤ
nth i [] = pos 0
nth zero (w ∷ ws) = w
nth (suc i) (w ∷ ws) = nth i ws

has_bit-zero : (bit : ℕ) → has_bit 0 bit ≡ false
unfolding has_bit
has_bit-zero zero = refl
has_bit-zero (suc bit) = has_bit-zero bit

has_bit-set_bit :
    (x bit c : ℕ) → has_bit (set_bit x bit) c ≡ (if bit == c then true else has_bit x c)
unfolding has_bit set_bit
has_bit-set_bit x zero zero = ground arith
has_bit-set_bit x zero (suc c) =
    let e : (x / 2 * 2 + 1) / 2 ≡ x / 2 = omega arith in rw e (ground arith)
has_bit-set_bit x (suc bit) zero = ground arith
has_bit-set_bit x (suc bit) (suc c) =
    let e : (set_bit (x / 2) bit * 2 + x % 2) / 2 ≡ set_bit (x / 2) bit = omega arith in
    rw e (ground (arith, has_bit-set_bit (x / 2) bit c))

-- The loop leaves the bits before its start alone.
collect_bits_below :
    (bit x : ℕ) (ws : List ℤ) (c : ℕ) → c < bit → has_bit (collect_bits bit x ws) c ≡ has_bit x c
unfolding collect_bits
collect_bits_below bit x [] c h = refl
collect_bits_below bit x (w ∷ ws) c h =
    let chosen = if ltb_ℤ (pos 0) w then set_bit x bit else x in
    collect_bits_below (bit + 1) chosen ws c (omega arith) ∙ ground (arith, has_bit-set_bit x bit c)

-- A bit that is not set yet becomes what its weight says.
has_bit-collect_bits :
    (bit x : ℕ) (ws : List ℤ) (i c : ℕ)
    → c ≡ bit + i
    → has_bit x c ≡ false
    → has_bit (collect_bits bit x ws) c ≡ ltb_ℤ (pos 0) (nth i ws)
unfolding collect_bits
has_bit-collect_bits bit x [] i c e h = ground arith
has_bit-collect_bits bit x (w ∷ ws) zero c e h =
    let chosen = if ltb_ℤ (pos 0) w then set_bit x bit else x in
    collect_bits_below (bit + 1) chosen ws c (omega arith) ∙ ground (arith, has_bit-set_bit x bit c)
has_bit-collect_bits bit x (w ∷ ws) (suc i) c e h =
    let chosen = if ltb_ℤ (pos 0) w then set_bit x bit else x in
    has_bit-collect_bits (bit + 1) chosen ws i c (omega arith)
      (ground (arith, has_bit-set_bit x bit c))

-- The weight at a bit, from its start: up by one for each supporter and down by one for each other.
abbrev tally : ℤ → ℕ → ℕ → ℤ
tally w up total = sub_ℕ (pos_part w + up + up) (neg_part w + total)

nth-add_votes :
    (h bit : ℕ) (ws : List ℤ) (i c : ℕ)
    → c ≡ bit + i
    → i < length ws
    → nth i (add_votes h bit ws) ≡ vote h c (nth i ws)
unfolding add_votes
nth-add_votes h bit [] i c e l = absurd (omega arith)
nth-add_votes h bit (w ∷ ws) zero c e l = let p : c ≡ bit = omega arith in rw p refl
nth-add_votes h bit (w ∷ ws) (suc i) c e l =
    nth-add_votes h (bit + 1) ws i c (omega arith) (omega arith)

length-add_votes : (h bit : ℕ) (ws : List ℤ) → length (add_votes h bit ws) ≡ length ws
unfolding add_votes
length-add_votes h bit [] = refl
length-add_votes h bit (w ∷ ws) = ap suc (length-add_votes h (bit + 1) ws)

nth-weigh_shingles :
    (hash : Text → ℕ) (ws : List ℤ) (ss : List Text) (i : ℕ)
    → i < length ws
    → nth i (weigh_shingles hash ws ss) ≡ tally (nth i ws) (supporters hash i ss) (length ss)
unfolding weigh_shingles
nth-weigh_shingles hash ws [] i l = ground arith
nth-weigh_shingles hash ws (s ∷ ss) i l =
    nth-weigh_shingles hash (add_votes (hash s) 0 ws) ss i
      (omega (arith, length-add_votes (hash s) 0 ws))
    ∙ rw (nth-add_votes (hash s) 0 ws i i (omega arith) l) (ground arith)

nth-zeros : (n i : ℕ) → nth i (zeros n) ≡ pos 0
nth-zeros zero i = ground arith
nth-zeros (suc n) zero = refl
nth-zeros (suc n) (suc i) = nth-zeros n i

length-zeros : (n : ℕ) → length (zeros n) ≡ n
length-zeros zero = refl
length-zeros (suc n) = ap suc (length-zeros n)

collected-majority :
    (hash : Text → ℕ) (ss : List Text) (bit : ℕ)
    → bit < fingerprint_bits
    → has_bit (collect_bits 0 0 (weigh_shingles hash (zeros fingerprint_bits) ss)) bit
      ≡ ltb (length ss) (2 * supporters hash bit ss)
collected-majority hash ss bit l =
    has_bit-collect_bits 0 0 (weigh_shingles hash (zeros fingerprint_bits) ss) bit bit (omega arith)
      (has_bit-zero bit)
    ∙ rw
        (
          nth-weigh_shingles hash (zeros fingerprint_bits) ss bit
              (omega (arith, length-zeros fingerprint_bits)),
          nth-zeros fingerprint_bits bit,
        )
        (ground arith)

-- Each of the 64 bits of a fingerprint is set exactly when more than half of the shingles of the text have
-- the bit in their hash; a text with no shingle has none set.
pub compute_fingerprint-majority :
    (lower : Text → Text) (hash : Text → ℕ) (text : Text) (bit : ℕ)
    → bit < fingerprint_bits
    → has_bit (compute_fingerprint lower hash text) bit
      ≡ ltb
          (length (shingles shingle_size (normalize_tokens lower text)))
          (2 * supporters hash bit (shingles shingle_size (normalize_tokens lower text)))
unfolding compute_fingerprint
compute_fingerprint-majority lower hash text bit l =
    majority_of (shingles shingle_size (normalize_tokens lower text))
  where
    majority_of :
        (ss : List Text)
        → has_bit (of_shingles hash ss) bit ≡ ltb (length ss) (2 * supporters hash bit ss)
    majority_of [] = has_bit-zero bit
    majority_of (s ∷ ss) = collected-majority hash (s ∷ ss) bit l
