-- ===== src/Casework/Extraction/Covers.antt =====
-- The set of links that `_persist_event` of src/mei/application/services/extraction.py keeps: with it no
-- actor is linked to an event twice in one role.
use middle_east_geopolitic.Casework.Models.{EventActor}
use middle_east_geopolitic.Common.Rows.{first?}
use middle_east_geopolitic.Common.{
  refl, if◌then◌else◌, Bool, none, eq_iff, inr, arith, inl, false, Bool-cases, true, [], ◌≡◌, All,
  ◌∷◌, ◌==◌, List, String, ℕ,
}
use middle_east_geopolitic.Casework.Extraction.Models.{has_link}
use middle_east_geopolitic.Casework.Extraction.Clusters.{event_link, links_of}
use middle_east_geopolitic.Casework.Repository.{same_link}

pub has_link_here :
    (actor : ℕ) (role : String) (links : List (ℕ × String))
    → has_link actor role ((actor, role) ∷ links) ≡ true
has_link_here actor role links = ground (arith, eq_iff role role)

has_link_later :
    (x : ℕ × String) (links : List (ℕ × String)) (actor : ℕ) (role : String)
    → has_link actor role links ≡ true
    → has_link actor role (x ∷ links) ≡ true
has_link_later (a, r) links actor role h = ground (arith, h)

module _ {F : Type 0} where
  -- Each link of the event in the table is in the list.
  abbrev pub Covers : ℕ → List (ℕ × String) → List (EventActor F) → Type 0
  Covers event links rows =
      All (λ l. (l.event_id == event) ≡ true → has_link l.actor_id l.role links ≡ true) rows

  pub Covers-grow :
      (event : ℕ) (x : ℕ × String) (links : List (ℕ × String)) (rows : List (EventActor F))
      → Covers event links rows
      → Covers event (x ∷ links) rows
  Covers-grow event x links [] h = tt
  Covers-grow event x links (l ∷ ls) h =
      ((λ e. has_link_later x links l.actor_id l.role (h.0 e)), Covers-grow event x links ls h.1)

  listed-Covers :
      (event : ℕ) (l : EventActor F) (ls : List (EventActor F)) (rest : List (ℕ × String))
      (same : Bool)
      → (l.event_id == event) ≡ same
      → Covers event rest ls
      → Covers event (if same then (l.actor_id, l.role) ∷ rest else rest) (l ∷ ls)
  listed-Covers event l ls rest true e h = (
    (λ _. has_link_here l.actor_id l.role rest),
    Covers-grow event (l.actor_id, l.role) rest ls h,
  )
  listed-Covers event l ls rest false e h = ((λ k. cc), h)

  pub links_of-Covers :
      (event : ℕ) (rows : List (EventActor F)) → Covers event (links_of event rows) rows
  links_of-Covers event [] = tt
  links_of-Covers event (l ∷ ls) =
      listed-Covers event l ls (links_of event ls) (l.event_id == event) refl
        (links_of-Covers event ls)

  no_other :
      (event actor : ℕ) (role : String) (links : List (ℕ × String)) (l : EventActor F)
      → ((l.event_id == event) ≡ true → has_link l.actor_id l.role links ≡ true)
      → has_link actor role links ≡ false
      → same_link (event_link event actor role) l ≡ true
      → ⊥
  no_other event actor role links l h k e =
      let a : actor ≡ l.actor_id = ground (arith, e) in
      let r : role ≡ l.role = (eq_iff role l.role).0 (ground (arith, e)) in
      let m : (l.event_id == event) ≡ true = ground (arith, e) in cc (h m, k, a, r)

  differs :
      (event actor : ℕ) (role : String) (links : List (ℕ × String)) (l : EventActor F)
      → ((l.event_id == event) ≡ true → has_link l.actor_id l.role links ≡ true)
      → has_link actor role links ≡ false
      → same_link (event_link event actor role) l ≡ false
  differs event actor role links l h k =
      elim (Bool-cases (same_link (event_link event actor role) l)) [
        | inl e ↦ absurd (no_other event actor role links l h k e)
        | inr e ↦ e
      ]

  pub no_such_link :
      (event actor : ℕ) (role : String) (links : List (ℕ × String)) (rows : List (EventActor F))
      → Covers event links rows
      → has_link actor role links ≡ false
      → first? (same_link (event_link event actor role)) rows ≡ none
  unfolding first?
  no_such_link event actor role links [] h k = refl
  no_such_link event actor role links (l ∷ ls) h k =
      rw (differs event actor role links l h.0 k) (no_such_link event actor role links ls h.1 k)
