-- ===== src/Scheduler/Twice.antt =====
-- A second pass of the scheduler (apps/api/src/scheduler.ts) at the same time runs nothing.
use evergent.Base.{
  ℕ, Bool, true, false, not, ◌&&◌, ◌||◌, List, [], ◌∷◌, Option, some, String, ◌≡◌, refl, sym, ap,
  subst, ◌∙◌, filterb, length, str_eq, eq_iff, Bool-cases, Option-cases, inl, inr, arith, ◌⊎◌, ◌≤◌,
  All-map, All-both, any, any-filterb_both, filterb_none, is_some,
}
use evergent.Base.Result.{Result, ok, error}
use evergent.Base.StringMap.{get, get-set, values, IsKeyed, IsKeyed-set, get-IsKeyed}
use evergent.Schedules.{
  is_running, ScheduleRecord, ScheduleStore, SchedulePatch, patched, update_schedule, is_due,
  list_due,
}
use evergent.Schedules.Listing.{list_due-is_due, list_due-IsStored, any-list_due}
use evergent.Schedules.Validation.{
  Calendar, ExpressionValidation, runs_at, refused, validate_schedule_expression,
}
use evergent.Scheduler.{
  AgentInfo, SchedulerState, ran, patch_after, ran_at, after_callback, run_schedule, count_of,
  is_agent_active, is_eligible, run_due,
}
use evergent.Scheduler.Pass.{run_all, run_due_lem}

-- A patch that keeps the id and notes the time of the run.
abbrev Marks : ℕ → SchedulePatch → Type 0
Marks now patch = (e : ScheduleRecord) → ((patch e).id ≡ e.id) × ((patch e).last_run_at ≡ some now)

patch_after-Marks : (now : ℕ) (v : ExpressionValidation) → Marks now (patch_after now v)
patch_after-Marks now (runs_at t) e = (refl, refl)
patch_after-Marks now (refused message) e = (refl, refl)

-- A schedule that has run at a time is stored under an id.
abbrev HasRun : ℕ → String → ScheduleStore → Type 0
HasRun now id s = (e : ScheduleRecord) × (get id s ≡ some e) × (e.last_run_at ≡ some now)

-- The two stores have the same under an id, or the schedule has run.
abbrev KeptOrRan : ℕ → ScheduleStore → ScheduleStore → Type 0
KeptOrRan now s s' = (j : String) → (get j s' ≡ get j s) ⊎ HasRun now j s'

-- What a marking update does.
update_marked :
    (now c : ℕ) (id : String) (patch : SchedulePatch) (s : ScheduleStore)
    → Marks now patch
    → IsKeyed (λ r. r.id) s
    → IsKeyed (λ r. r.id) (update_schedule c id patch s).0
      × KeptOrRan now s (update_schedule c id patch s).0
      × (is_some (get id s) ≡ true → HasRun now id (update_schedule c id patch s).0)
unfolding update_schedule
update_marked now c id patch s marks keyed = elim (Option-cases (get id s)) [
  | inl gone ↦ rw (gone, update_schedule) (keyed, (λ j. inl refl), (λ h. cc))
  | inr (e, here) ↦
      let own = get-IsKeyed (λ r. r.id) id e s keyed here ∙ sym ((marks e).0) in
      let at = λ (j : String). get-set j id (patched c patch e) s in
      rw (here, update_schedule)
        (
          IsKeyed-set (λ r. r.id) id (patched c patch e) s own keyed,
          (λ j. elim (Bool-cases (str_eq id j)) [
            | inl same ↦ inr (patched c patch e, at j ∙ rw same refl, (marks e).1)
            | inr other ↦ inl (at j ∙ rw other refl)
          ]),
          (λ h. (patched c patch e, at id ∙ ground (arith, eq_iff id id), (marks e).1)),
        )
]

HasRun-self :
    (now : ℕ) (j : String) (s : ScheduleStore) (e : ScheduleRecord)
    → HasRun now j s
    → get j s ≡ some e
    → e.last_run_at ≡ some now
HasRun-self now j s e (x, there, ran_then) at =
    let same : x ≡ e = cc in sym (ap (λ r. r.last_run_at) same) ∙ ran_then

never_again : (b : Bool) (now : ℕ) → (b && not (ran_at now (some now))) ≡ false
never_again b now = ground arith

HasRun-later :
    (now : ℕ) (j : String) (s s' : ScheduleStore)
    → KeptOrRan now s s'
    → HasRun now j s
    → HasRun now j s'
HasRun-later now j s s' step (e, at, ran_then) = elim (step j) [
  | inl kept ↦ (e, kept ∙ at, ran_then)
  | inr has_run ↦ has_run
]

KeptOrRan-trans :
    (now : ℕ) (s s1 s2 : ScheduleStore)
    → KeptOrRan now s s1
    → KeptOrRan now s1 s2
    → KeptOrRan now s s2
KeptOrRan-trans now s s1 s2 first second j = elim (first j) [
  | inr has_run ↦ inr (HasRun-later now j s1 s2 second has_run)
  | inl kept ↦ elim (second j) [ inl kept_too ↦ inl (kept_too ∙ kept) | inr has_run ↦ inr has_run ]
]

module _ {W R : Type 0} (clock : W → ℕ) (cal : Calendar)
    (execute : ScheduleRecord → ℕ → W → W × Result R) where
  after_callback_effect :
      (r : ScheduleRecord) (now : ℕ) (s : ScheduleStore) (w : W × Result R)
      → IsKeyed (λ r. r.id) s
      → let s' = (after_callback clock cal execute r now s w).0.schedules in
        IsKeyed (λ r. r.id) s'
        × KeptOrRan now s s'
        × (is_some (get r.id s) ≡ true → HasRun now r.id s')
  unfolding after_callback
  after_callback_effect r now s (w, error message) keyed =
      update_marked now (clock w) r.id (ran now) s (λ e. (refl, refl)) keyed
  after_callback_effect r now s (w, ok result) keyed =
      let v =
        validate_schedule_expression cal (clock w) (some r.schedule_expression) (some r.timezone) in
      update_marked now (clock w) r.id (patch_after now v) s (patch_after-Marks now v) keyed

  run_all_effect :
      (now : ℕ) (rs : List ScheduleRecord) (st : SchedulerState W) (executed : ℕ)
      → IsKeyed (λ r. r.id) st.schedules
      → let s' = (run_all clock cal execute now rs st executed).0.schedules in
        IsKeyed (λ r. r.id) s'
        × KeptOrRan now st.schedules s'
        × ((j : String)
            → any (λ r. str_eq r.id j) rs ≡ true
            → is_some (get j st.schedules) ≡ true
            → HasRun now j s')
  unfolding run_schedule
  run_all_effect now [] st executed keyed = (keyed, (λ j. inl refl), (λ j h k. cc))
  run_all_effect now (r ∷ rs) st executed keyed =
      let run = run_schedule clock cal execute r now st in
      let (keyed1, first, own) =
        after_callback_effect r now st.schedules (execute r now st.world) keyed in
      let (keyed2, rest, others) = run_all_effect now rs run.0 (count_of run.1 executed) keyed1 in
      (
        keyed2,
        KeptOrRan-trans now _ _ _ first rest,
        (λ j h stored. elim (Bool-cases (str_eq r.id j)) [
          | inl same ↦
              let id_is : r.id ≡ j = (eq_iff r.id j).0 same in
              HasRun-later now j _ _ rest (
                subst (λ i. HasRun now i run.0.schedules) id_is
                  (own (subst (λ i. is_some (get i st.schedules) ≡ true) (sym id_is) stored)))
          | inr other ↦ elim (first j) [
            | inl kept ↦
                let left : any (λ x. str_eq x.id j) rs ≡ true =
                  sym (ap (λ b. b || any (λ x. str_eq x.id j) rs) other) ∙ h in
                others j left (ap is_some kept ∙ stored)
            | inr has_run ↦ HasRun-later now j _ _ rest has_run
          ]
        ]),
      )

  module _ (agent_of : String → Option AgentInfo) where
    ran-not_eligible :
        (now : ℕ) (e : ScheduleRecord)
        → e.last_run_at ≡ some now
        → is_eligible agent_of now e ≡ false
    unfolding is_eligible
    ran-not_eligible now e h =
        let before = is_running e.status && is_agent_active (agent_of e.agent_id) in
        ap (λ o. before && not (ran_at now o)) h ∙ never_again before now

    -- After a pass no stored schedule that is due may still run.
    settled :
        (now : ℕ) (st : SchedulerState W) (e : ScheduleRecord)
        → IsKeyed (λ r. r.id) st.schedules
        → length (filterb (is_due now) (values st.schedules)) ≤ 100
        → let s' = (run_due clock cal execute agent_of now st).0.schedules in
          get e.id s' ≡ some e → is_due now e ≡ true → is_eligible agent_of now e ≡ false
    settled now st e keyed few at due =
        let rs = filterb (is_eligible agent_of now) (list_due now 100 st.schedules) in
        let whole = ap (λ p. p.0.schedules) (run_due_lem clock cal execute agent_of now st).0 in
        let (_, kept_or_ran, runs) = run_all_effect now rs st 0 keyed in
        let at' = sym (ap (get e.id) whole) ∙ at in
        elim (Bool-cases (is_eligible agent_of now e)) [
          | inr no_more ↦ no_more
          | inl eligible ↦ elim (kept_or_ran e.id) [
            | inr has_run ↦ ran-not_eligible now e (HasRun-self now e.id _ e has_run at')
            | inl kept ↦
                let before : get e.id st.schedules ≡ some e = sym kept ∙ at' in
                let p = λ (r : ScheduleRecord). str_eq r.id e.id in
                let listed : any p rs ≡ true =
                  any-filterb_both p (is_eligible agent_of now) (list_due now 100 st.schedules)
                  ∙ any-list_due (λ r. p r && is_eligible agent_of now r) now 100 st.schedules e.id
                      e few before due (ground (arith, eq_iff e.id e.id, eligible)) in
                let has_run = runs e.id listed (ap is_some before) in
                ran-not_eligible now e (HasRun-self now e.id _ e has_run at')
          ]
        ]

    -- Where at most 100 schedules are due, a second pass at the same time calls nothing and changes
    -- nothing, whatever the callback returned or threw in the first.
    pub run_due_twice :
        (now : ℕ) (st : SchedulerState W)
        → IsKeyed (λ r. r.id) st.schedules
        → length (filterb (is_due now) (values st.schedules)) ≤ 100
        → let after = (run_due clock cal execute agent_of now st).0 in
          run_due clock cal execute agent_of now after ≡ (after, 0)
    run_due_twice now st keyed few =
        let after = (run_due clock cal execute agent_of now st).0 in
        let whole = ap (λ p. p.0.schedules) (run_due_lem clock cal execute agent_of now st).0 in
        let rs = filterb (is_eligible agent_of now) (list_due now 100 st.schedules) in
        let (keyed', _, _) = run_all_effect now rs st 0 keyed in
        let keyed_after : IsKeyed (λ r. r.id) after.schedules =
          subst (IsKeyed (λ r. r.id)) (sym whole) keyed' in
        let none_left : filterb (is_eligible agent_of now) (list_due now 100 after.schedules) ≡ [] =
          filterb_none (is_eligible agent_of now) (list_due now 100 after.schedules) (
            All-map _ _ (λ e (due, at). settled now st e keyed few at due)
              (list_due now 100 after.schedules)
              (All-both _ _ (list_due now 100 after.schedules)
                (list_due-is_due now 100 after.schedules)
                (list_due-IsStored now 100 after.schedules keyed_after))) in
        (run_due_lem clock cal execute agent_of now after).0
        ∙ ap (λ xs. run_all clock cal execute now xs after 0) none_left
