-- ===== src/Casework/Extraction/Columns.antt =====
-- The limits of the columns that src/mei/application/services/extraction.py fills with what a model read:
-- src/mei/domain/events/models.py and src/mei/domain/claims/models.py. What a reply may hold has no limit.
use middle_east_geopolitic.Common.{
  leb, ◌≡◌, refl, All, Bool, true, ◌&&◌, ℕ, List, [], ◌∷◌, String, arith,
}
use Prim.Native.String.{count}
use middle_east_geopolitic.Casework.Models.{CaseStore, Event, EventActor, Claim}
use middle_east_geopolitic.Casework.Extraction.Models.{
  ExtractedEvent, ExtractedEventActor, ExtractedClaim, ExtractionResult,
}

-- A column takes a text of at most so many characters.
unfoldable pub is_within : ℕ → String → Bool
is_within limit t = leb (count t) limit

abbrev all_of : {A : Type 0} → (A → Bool) → List A → Bool
all_of test [] = true
all_of test (x ∷ xs) = test x && all_of test xs

all_of-All :
    {A : Type 0}
    → (test : A → Bool) (xs : List A) → All (λ x. test x ≡ true) xs
    → all_of test xs ≡ true
all_of-All test [] h = refl
all_of-All test (x ∷ xs) h = ground (arith, all_of-All test xs h.1)

module _ {F : Type 0} (fits : ℕ → String → Bool) where
  abbrev pub event_fits : Event F → Bool
  event_fits e = fits 100 e.event_type && fits 500 e.title

  abbrev link_fits : EventActor F → Bool
  link_fits l = fits 50 l.role

  abbrev claim_fits : Claim F → Bool
  claim_fits c = fits 100 c.claim_type

  -- The database takes the rows.
  unfoldable pub rows_fit : CaseStore F → Bool
  rows_fit s =
      all_of event_fits s.events && all_of link_fits s.event_actors && all_of claim_fits s.claims

  pub record StoreFits (s : CaseStore F) : Type 0 where
    pub events_fit : All (λ e. event_fits e ≡ true) s.events
    pub links_fit : All (λ l. link_fits l ≡ true) s.event_actors
    pub claims_fit : All (λ c. claim_fits c ≡ true) s.claims

  pub rows_fit_complete : (s : CaseStore F) → StoreFits s → rows_fit s ≡ true
  unfolding rows_fit
  rows_fit_complete s h = ground (
    arith,
    all_of-All event_fits s.events h.events_fit,
    all_of-All link_fits s.event_actors h.links_fit,
    all_of-All claim_fits s.claims h.claims_fit,
  )

-- What a model read fits.
module _ (fits : ℕ → String → Bool) where
  abbrev pub ActorFits : ExtractedEventActor → Type 0
  ActorFits a = fits 50 a.role ≡ true

  abbrev pub EventFits : ExtractedEvent → Type 0
  EventFits x = ((fits 100 x.event_type && fits 500 x.title) ≡ true) × All ActorFits x.actors

  abbrev pub ClaimFits : {F : Type 0} → ExtractedClaim F → Type 0
  ClaimFits x = fits 100 x.claim_type ≡ true

  abbrev pub ReplyFits : {F : Type 0} → ExtractionResult F → Type 0
  ReplyFits x = All EventFits x.events × All (λ c. ClaimFits c) x.claims
