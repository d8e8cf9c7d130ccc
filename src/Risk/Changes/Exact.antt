-- ===== src/Risk/Changes/Exact.antt =====
-- What `diff_changed_indicators` of src/mei/application/services/risk_engine.py lists.
use middle_east_geopolitic.Common.{
  Bool-cases, if_both, arith, ◌⊎◌, Option-cases, ◌≡◌, refl, sym, subst, All, true, false, List, [],
  ◌∷◌, Option, some, none, String, str_eq, eq_iff, if◌then◌else◌, inl, inr, Elem,
}
use middle_east_geopolitic.Common.Float.{Float}
use middle_east_geopolitic.Risk.Models.{ContributionRecord}
use middle_east_geopolitic.Risk.Changes.{
  prior_record, prior_value, has_moved, magnitude, changed_codes, diff_changed_indicators,
}

module _ {F : Type 0} ⦃fl : Float F⦄ where
  -- No two records have the same code.
  abbrev DistinctCodes : List (ContributionRecord F) → Type 0
  DistinctCodes [] = Unit
  DistinctCodes (r ∷ rs) =
      All (λ (q : ContributionRecord F). str_eq q.indicator_code r.indicator_code ≡ false) rs
      × DistinctCodes rs

  -- What counts as a change: a value that came or went, or that moved by more than the tolerance.
  pub data Moved (epsilon : F) : Option F → Option F → Type 0 where
    came : (a : F) → Moved epsilon (some a) none
    went : (b : F) → Moved epsilon none (some b)
    moved :
        (a b : F) → fl.lt epsilon (magnitude (fl.sub a b)) ≡ true → Moved epsilon (some a) (some b)

  -- What the earlier records say of a code.
  abbrev SaidOf : String → List (ContributionRecord F) → Option F → Type 0
  SaidOf code rs v =
      ((r : ContributionRecord F) × Elem r rs
        × (r.indicator_code ≡ code)
        × (r.normalized_value ≡ v))
      ⊎ (All (λ (r : ContributionRecord F). str_eq r.indicator_code code ≡ false) rs × (v ≡ none))

  -- A record whose value is another one than that of the earlier records.
  abbrev pub IsChange : F → List (ContributionRecord F) → ContributionRecord F → Type 0
  IsChange epsilon previous r =
      (v : Option F) × SaidOf r.indicator_code previous v × Moved epsilon r.normalized_value v

  -- A record with this code has the property.
  abbrev pub Names : (ContributionRecord F → Type 0) → List (ContributionRecord F) → String → Type 0
  Names P rs code = (r : ContributionRecord F) × Elem r rs × (r.indicator_code ≡ code) × P r

  has_moved-Moved :
      (epsilon : F) (v u : Option F) → has_moved epsilon v u ≡ true → Moved epsilon v u
  has_moved-Moved epsilon none none h = cc
  has_moved-Moved epsilon none (some b) h = went b
  has_moved-Moved epsilon (some a) none h = came a
  has_moved-Moved epsilon (some a) (some b) h = moved a b h

  Moved-has_moved :
      (epsilon : F) (v u : Option F) → Moved epsilon v u → has_moved epsilon v u ≡ true
  Moved-has_moved epsilon _ _ (came a) = refl
  Moved-has_moved epsilon _ _ (went b) = refl
  Moved-has_moved epsilon _ _ (moved a b h) = h

  absent :
      (code : String) (rs : List (ContributionRecord F))
      → All (λ (q : ContributionRecord F). str_eq q.indicator_code code ≡ false) rs
      → prior_record code rs ≡ none
  unfolding prior_record
  absent code [] h = refl
  absent code (r ∷ rs) h = rw (absent code rs h.1, h.0) refl

  prior_record-own :
      (r : ContributionRecord F) (rs : List (ContributionRecord F))
      → DistinctCodes rs
      → Elem r rs
      → prior_record r.indicator_code rs ≡ some r
  unfolding prior_record
  prior_record-own r [] d h = elim h [ ]
  prior_record-own r (q ∷ rs) d (inl e) =
      subst (λ (x : ContributionRecord F). prior_record x.indicator_code (q ∷ rs) ≡ some x) (sym e)
        (rw (absent q.indicator_code rs d.0, (eq_iff q.indicator_code q.indicator_code).1 refl)
          refl)
  prior_record-own r (q ∷ rs) d (inr m) = rw (prior_record-own r rs d.1 m) refl

  prior_record-found :
      (code : String) (rs : List (ContributionRecord F)) (q : ContributionRecord F)
      → prior_record code rs ≡ some q
      → Elem q rs × (str_eq q.indicator_code code ≡ true)
  unfolding prior_record
  prior_record-found code [] q h = cc
  prior_record-found code (r ∷ rs) q h = ground (arith, prior_record-found code rs q)

  prior_record-none :
      (code : String) (rs : List (ContributionRecord F))
      → prior_record code rs ≡ none
      → All (λ (q : ContributionRecord F). str_eq q.indicator_code code ≡ false) rs
  unfolding prior_record
  prior_record-none code [] h = tt
  prior_record-none code (r ∷ rs) h = ground (arith, prior_record-none code rs)

  -- What the dictionary has for a code is said of it, and nothing else is.
  prior_record-SaidOf :
      (code : String) (rs : List (ContributionRecord F))
      → SaidOf code rs (prior_value (prior_record code rs))
  prior_record-SaidOf code rs = elim (Option-cases (prior_record code rs)) [
    | inl e ↦ rw e (inr (prior_record-none code rs e, refl))
    | inr (q, e) ↦
        let (m, t) = prior_record-found code rs q e in
        rw e (inl (q, m, (eq_iff q.indicator_code code).0 t, refl))
  ]

  SaidOf-prior_record :
      (code : String) (rs : List (ContributionRecord F)) (v : Option F)
      → DistinctCodes rs
      → SaidOf code rs v
      → prior_value (prior_record code rs) ≡ v
  SaidOf-prior_record code rs v d (inl (r, m, e, k)) =
      subst (λ c. prior_value (prior_record c rs) ≡ v) e (rw (prior_record-own r rs d m) k)
  SaidOf-prior_record code rs v d (inr (h, k)) = rw (absent code rs h) (sym k)

  IsChange-sound :
      (epsilon : F) (previous : List (ContributionRecord F)) (r : ContributionRecord F)
      → has_moved epsilon r.normalized_value (prior_value (prior_record r.indicator_code previous))
        ≡ true
      → IsChange epsilon previous r
  IsChange-sound epsilon previous r h =
      (_, prior_record-SaidOf r.indicator_code previous, has_moved-Moved epsilon _ _ h)

  IsChange-complete :
      (epsilon : F) (previous : List (ContributionRecord F)) (r : ContributionRecord F)
      → DistinctCodes previous
      → IsChange epsilon previous r
      → has_moved epsilon r.normalized_value (prior_value (prior_record r.indicator_code previous))
        ≡ true
  IsChange-complete epsilon previous r d (v, s, m) =
      rw (SaidOf-prior_record r.indicator_code previous v d s) (Moved-has_moved epsilon _ v m)

  Names-later :
      (P : ContributionRecord F → Type 0) (r : ContributionRecord F)
      (rs : List (ContributionRecord F)) (code : String)
      → Names P rs code
      → Names P (r ∷ rs) code
  Names-later P r rs code (q, m, e, h) = (q, inr m, e, h)

  here_or_later :
      (epsilon : F) (previous rs : List (ContributionRecord F)) (r : ContributionRecord F)
      (code : String) (later : List String)
      → has_moved epsilon r.normalized_value (prior_value (prior_record r.indicator_code previous))
        ≡ true
      → (Elem code later → Names (IsChange epsilon previous) rs code)
      → Elem code (r.indicator_code ∷ later)
      → Names (IsChange epsilon previous) (r ∷ rs) code
  here_or_later epsilon previous rs r code later e ih (inl k) =
      (r, inl refl, sym k, IsChange-sound epsilon previous r e)
  here_or_later epsilon previous rs r code later e ih (inr m) =
      Names-later (IsChange epsilon previous) r rs code (ih m)

  changed_codes_sound :
      (epsilon : F) (previous rs : List (ContributionRecord F)) (code : String)
      → Elem code (changed_codes epsilon previous rs)
      → Names (IsChange epsilon previous) rs code
  unfolding changed_codes
  changed_codes_sound epsilon previous [] code h = elim h [ ]
  changed_codes_sound epsilon previous (r ∷ rs) code h =
      elim (Bool-cases (
        has_moved epsilon r.normalized_value
          (prior_value (prior_record r.indicator_code previous)))) [
            | inr e ↦
                Names-later (IsChange epsilon previous) r rs code
                  (changed_codes_sound epsilon previous rs code (rw e at h))
            | inl e ↦
                here_or_later epsilon previous rs r code (changed_codes epsilon previous rs) e
                  (changed_codes_sound epsilon previous rs code) (rw e at h)
          ]

  changed_codes_complete :
      (epsilon : F) (previous rs : List (ContributionRecord F)) (q : ContributionRecord F)
      → has_moved epsilon q.normalized_value (prior_value (prior_record q.indicator_code previous))
        ≡ true
      → Elem q rs
      → Elem q.indicator_code (changed_codes epsilon previous rs)
  unfolding changed_codes
  changed_codes_complete epsilon previous [] q h m = elim m [ ]
  changed_codes_complete epsilon previous (r ∷ rs) q h (inl e) =
      subst
        (λ (x : ContributionRecord F). Elem q.indicator_code (
          if has_moved epsilon x.normalized_value
            (prior_value (prior_record x.indicator_code previous))
          then x.indicator_code ∷ changed_codes epsilon previous rs
          else changed_codes epsilon previous rs))
        e (rw h (inl refl))
  changed_codes_complete epsilon previous (r ∷ rs) q h (inr m) =
      let k = changed_codes_complete epsilon previous rs q h m in
      if_both (Elem q.indicator_code)
        (has_moved epsilon r.normalized_value
          (prior_value (prior_record r.indicator_code previous)))
        _ _ (inr k) k

  -- Where there is something to compare with: a code is listed exactly when a record of the new breakdown
  -- with that code has a value that came, went, or moved by more than the tolerance since the record of
  -- that code in the earlier one, whose codes differ from one another.
  pub diff_changed_indicators_iff :
      (epsilon : F) (p : ContributionRecord F) (ps current : List (ContributionRecord F))
      (code : String)
      → DistinctCodes (p ∷ ps)
      → (Elem code (diff_changed_indicators epsilon (p ∷ ps) current)
          → Names (IsChange epsilon (p ∷ ps)) current code)
        × (Names (IsChange epsilon (p ∷ ps)) current code
            → Elem code (diff_changed_indicators epsilon (p ∷ ps) current))
  unfolding diff_changed_indicators
  diff_changed_indicators_iff epsilon p ps current code d = (
    changed_codes_sound epsilon (p ∷ ps) current code,
    (λ (r, m, e, h).
        subst (λ c. Elem c (changed_codes epsilon (p ∷ ps) current)) e
          (changed_codes_complete epsilon (p ∷ ps) current r
            (IsChange-complete epsilon (p ∷ ps) r d h) m)),
  )
