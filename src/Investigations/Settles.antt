-- ===== src/Investigations/Settles.antt =====
-- How a run of an investigation ends.
use middle_east_geopolitic.Common.{
  ◌≡◌, refl, sym, subst, All, Elem, All-impl, Bool, true, false, Bool-cases, inl, inr, List, [],
  ◌∷◌, ◌++◌, some, ◌==◌, ◌||◌, not, arith, ℕ,
}
use middle_east_geopolitic.Common.Result.{ok_inj, ◌>>◌, bind-ok, Result, Error, ok, err}
use middle_east_geopolitic.Common.Rows.{update, order_asc, insert_asc}
use middle_east_geopolitic.Common.Rows.Laws.{select_complete}
use middle_east_geopolitic.Common.Rows.First.{All-from}
use middle_east_geopolitic.Common.Float.{Float}
use middle_east_geopolitic.Casework.Models.{CaseStore}
use middle_east_geopolitic.Ingestion.Models.{Document}
use middle_east_geopolitic.Investigations.Models.{
  Output, completed, is_open, Findings, InvestigationStep, Investigation, InvestigationBrief,
  InvestigationStore, get_investigation, get_steps,
}
use middle_east_geopolitic.Investigations.Service.{
  change_step, has_raised, Statement, Answers, Database, Texts, start, finish, search, store_report,
  begin_step, end_step, run_steps, complete, attempt, caught, and_complete, execute_investigation,
  investigate, brief_of, after, change_investigation, started_step, completed_step, output_of,
  concluded_row, started_row,
}

module _ {A : Type 0} where
  -- After a change, the rows that pass a test on what it does not touch have what it gives them.
  update-tested :
      (P : A → Type 0) (test : A → Bool) (f : A → A)
      → ((a : A) → P (f a))
      → (xs : List A) → All (λ a. test a ≡ true → P a) (update test f xs)
  unfolding update
  update-tested P test f give [] = tt
  update-tested P test f give (x ∷ xs) = elim (Bool-cases (test x)) [
    | inl e ↦ rw e ((λ _. give x), update-tested P test f give xs)
    | inr e ↦ rw e ((λ k. cc), update-tested P test f give xs)
  ]

  insert_asc-head : (key : A → ℕ) (a : A) (xs : List A) → Elem a (insert_asc key a xs)
  unfolding insert_asc
  insert_asc-head key a [] = inl refl
  insert_asc-head key a (x ∷ xs) = ground (arith, insert_asc-head key a xs)

  insert_asc-tail : (key : A → ℕ) (a b : A) (xs : List A) → Elem b xs → Elem b (insert_asc key a xs)
  unfolding insert_asc
  insert_asc-tail key a b [] h = elim h [ ]
  insert_asc-tail key a b (x ∷ xs) h = ground (arith, insert_asc-tail key a b xs)

  order_asc_complete : (key : A → ℕ) (b : A) (xs : List A) → Elem b xs → Elem b (order_asc key xs)
  unfolding order_asc
  order_asc_complete key b [] h = elim h [ ]
  order_asc_complete key b (x ∷ xs) (inl e) =
      subst (λ a. Elem a (order_asc key (x ∷ xs))) (sym e)
        (insert_asc-head key x (order_asc key xs))
  order_asc_complete key b (x ∷ xs) (inr h) =
      insert_asc-tail key x b _ (order_asc_complete key b xs h)

  last_of : (xs : List A) (a : A) → Elem a (xs ++ (a ∷ []))
  last_of [] a = inl refl
  last_of (x ∷ xs) a = inr (last_of xs a)

module _ {F : Type 0} where
  -- The run is completed and its report is stored.
  abbrev pub Ended : List (InvestigationBrief F) → Investigation F → Type 0
  Ended rs v =
      (v.status ≡ completed) × (b : InvestigationBrief F) × Elem b rs × (v.report_id ≡ some b.id)

  pub record IsSettled (i : ℕ) (t : InvestigationStore F) : Type 0 where
    pub steps_lem : All (λ x. (x.investigation_id == i) ≡ true → is_open x.status ≡ false) t.steps
    pub investigations_lem : All (λ v. (v.id == i) ≡ true → Ended t.reports v) t.investigations

  abbrev any_step : ℕ → List (InvestigationStep F) → Bool
  any_step i [] = false
  any_step i (x ∷ xs) = i == x.id || any_step i xs

  -- The step is of another investigation, has ended, or is still to come.
  abbrev waits : ℕ → List (InvestigationStep F) → InvestigationStep F → Bool
  waits i rest x = not (x.investigation_id == i) || not (is_open x.status) || any_step x.id rest

  any_step_complete :
      (x : InvestigationStep F) (xs : List (InvestigationStep F))
      → Elem x xs
      → any_step x.id xs ≡ true
  any_step_complete x [] h = elim h [ ]
  any_step_complete x (y ∷ ys) (inl e) = rw e (ground arith)
  any_step_complete x (y ∷ ys) (inr h) = ground (arith, any_step_complete x ys h)

  updates-waits :
      (now i : ℕ) (o : Output F) (x : InvestigationStep F) (rest xs : List (InvestigationStep F))
      → All (λ y. waits i (x ∷ rest) y ≡ true) xs
      → All
          (λ y. waits i rest y ≡ true)
          (update
            (λ y. y.id == x.id)
            (completed_step now o)
            (update (λ y. y.id == x.id) (started_step now) xs))
  unfolding update
  updates-waits now i o x rest [] h = tt
  updates-waits now i o x rest (y ∷ ys) h = elim (Bool-cases (y.id == x.id)) [
    | inl e ↦ rw (e, e) (ground arith, updates-waits now i o x rest ys h.1)
    | inr e ↦ rw (e, e) (ground (arith, h.0), updates-waits now i o x rest ys h.1)
  ]

  after_both :
      (P : Result (Unit {0}) × InvestigationStore F → Type 0) (r : Result (Unit {0}))
      (s : InvestigationStore F) (rest : Result (Unit {0}) × InvestigationStore F)
      → ((e : Error) → P (err e, s))
      → P rest
      → P (after r s rest)
  after_both P (err e) s rest h k = h e
  after_both P (ok u) s rest h k = k

  -- What the loop leaves if it ends without an exception.
  abbrev Ran : ℕ → Result (Unit {0}) × InvestigationStore F → Type 0
  Ran i (err e, s) = Unit {0}
  Ran i (ok u, s) = All (λ y. waits i [] y ≡ true) s.steps

  run_steps-Ran :
      (db : Answers) (now i : ℕ) (f : Findings F) (xs : List (InvestigationStep F))
      (s : InvestigationStore F)
      → All (λ y. waits i xs y ≡ true) s.steps
      → Ran i (run_steps db now f xs s)
  unfolding run_steps
  run_steps-Ran db now i f [] s h = h
  run_steps-Ran db now i f (x ∷ xs) s h =
      after_both (Ran i) (db (begin_step x.id)) _ _ (λ e. tt)
        (after_both (Ran i) (db (end_step x.id)) _ _ (λ e. tt)
          (run_steps-Ran db now i f xs _
            (updates-waits now i (output_of x.step_type f) x xs s.steps h)))

  get_steps-waits :
      (i : ℕ) (s : InvestigationStore F) → All (λ y. waits i (get_steps i s) y ≡ true) s.steps
  unfolding get_steps
  get_steps-waits i s =
      All-from (λ y. waits i (get_steps i s) y ≡ true) s.steps
        (λ y m. elim (Bool-cases (y.investigation_id == i)) [
          | inr e ↦ ground arith
          | inl e ↦
              let k = any_step_complete y (get_steps i s) (
                order_asc_complete (λ x. x.sequence) y _
                  (select_complete (λ (x : InvestigationStep F). x.investigation_id == i) s.steps y
                    m e)) in
              ground (arith, k)
        ])

  -- What the body of the `try` leaves if it ends without an exception.
  abbrev Done : ℕ → Result (Unit {0}) × InvestigationStore F → Type 0
  Done i (err e, s) = Unit {0}
  Done i (ok u, s) = IsSettled i s

  complete-Done :
      (db : Answers) (now fresh i : ℕ) (v : Investigation F) (f : Findings F)
      (s : InvestigationStore F)
      → All (λ y. waits i [] y ≡ true) s.steps
      → Done i (complete db now fresh i v f s)
  unfolding complete
  complete-Done db now fresh i v f s h =
      after_both (Done i) (db store_report) _ _ (λ e. tt)
        (record {
          steps_lem = All-impl _ _ (λ x k e. ground (arith, k, e)) s.steps h;
          investigations_lem =
              update-tested (Ended (s.reports ++ (brief_of fresh v f ∷ []))) (λ v. v.id == i)
                (concluded_row now f (some fresh))
                (λ u. (refl, brief_of fresh v f, last_of s.reports _, refl)) s.investigations;
        })

  and_complete-Done :
      (db : Answers) (now fresh i : ℕ) (v : Investigation F) (f : Findings F)
      (p : Result (Unit {0}) × InvestigationStore F)
      → Ran i p
      → Done i (and_complete db now fresh i v f p)
  and_complete-Done db now fresh i v f (err e, s) h = tt
  and_complete-Done db now fresh i v f (ok u, s) h = complete-Done db now fresh i v f s h

  attempt-Done :
      (db : Answers) (now fresh i : ℕ) (v : Investigation F) (f : Findings F)
      (s : InvestigationStore F)
      → Done i (attempt db now fresh i v f s)
  unfolding attempt
  attempt-Done db now fresh i v f s =
      after_both (Done i) (db search) _ _ (λ e. tt)
        (and_complete-Done db now fresh i v f _
          (run_steps-Ran db now i f (get_steps i s) s (get_steps-waits i s)))

  -- A body of the `try` that has raised is followed by a statement that raises.
  caught-IsSettled :
      (db : Database) (now i : ℕ) (p : Result (Unit {0}) × InvestigationStore F)
      (t : InvestigationStore F)
      → ((q : Statement) → (e : Error) × (db true q ≡ err e))
      → Done i p
      → (db (has_raised p) finish >> ok (caught now i p)) ≡ ok t
      → IsSettled i t
  caught-IsSettled db now i (err e, s) t aborts h k = let (x, y) = aborts finish in cc (rw y at k)
  caught-IsSettled db now i (ok u, s) t aborts h k =
      let (_, _, e) = bind-ok (db false finish) _ k in subst (IsSettled i) (ok_inj e) h

  run_steps-answered :
      (db : Answers) (now : ℕ) (f : Findings F) (xs : List (InvestigationStep F))
      (s : InvestigationStore F)
      → ((q : Statement) → db q ≡ ok tt)
      → (t : InvestigationStore F) × (run_steps db now f xs s ≡ (ok tt, t))
  unfolding run_steps
  run_steps-answered db now f [] s h = (s, refl)
  run_steps-answered db now f (x ∷ xs) s h =
      let out = completed_step now (output_of x.step_type f) in
      let (t, e) =
        run_steps-answered db now f xs
          (change_step x.id out (change_step x.id (started_step now) s)) h in
      (t, rw (h (begin_step x.id), h (end_step x.id)) e)

  attempt-answered :
      (db : Answers) (now fresh i : ℕ) (v : Investigation F) (f : Findings F)
      (s : InvestigationStore F)
      → ((q : Statement) → db q ≡ ok tt)
      → (t : InvestigationStore F) × (attempt db now fresh i v f s ≡ (ok tt, t))
  unfolding attempt complete
  attempt-answered db now fresh i v f s h =
      let (t, e) = run_steps-answered db now f (get_steps i s) s h in
      ((attempt db now fresh i v f s).1, rw (h search, e, h store_report) refl)

module _ {F : Type 0} ⦃fl : Float F⦄ where
  -- In a database that answers no statement of a transaction after one that raised: the run of a stored
  -- investigation returns if the statements are answered. Where it returns, each of its steps has ended, and
  -- the investigation is completed and names a report that is stored; so none is ever stored as failed.
  pub execute_investigation-settles :
      (w : Texts F) (db : Database) (now fresh i : ℕ) (documents : List Document)
      (cases : CaseStore F) (s : InvestigationStore F) (v : Investigation F)
      → ((q : Statement) → (e : Error) × (db true q ≡ err e))
      → get_investigation i s ≡ some v
      → (((q : Statement) → db false q ≡ ok tt)
          → (t : InvestigationStore F) × (execute_investigation w db now fresh i documents cases s
              ≡ ok t))
        × ((t : InvestigationStore F)
            → execute_investigation w db now fresh i documents cases s ≡ ok t
            → IsSettled i t)
  unfolding execute_investigation
  execute_investigation-settles w db now fresh i documents cases s v aborts h =
      let f = investigate w v.question documents cases in
      let s1 = change_investigation i (started_row now) s in
      (
        (λ a.
            let (t, e) = attempt-answered (db false) now fresh i v f s1 a in
            (t, rw (h, a start, e, a finish) refl)),
        (λ t k.
            let (_, _, e) = bind-ok (db false start) _ (rw h at k) in
            caught-IsSettled db now i (attempt (db false) now fresh i v f s1) t aborts
              (attempt-Done (db false) now fresh i v f s1) e),
      )
