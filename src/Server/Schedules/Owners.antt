-- ===== src/Server/Schedules/Owners.antt =====
-- The handlers of schedules leave the schedules of other owners alone.
use evergent.Shared.{AgentIntent}
use evergent.Agents.{Directory, can_access_agent}
use evergent.Base.{
  is_some, ℕ, true, false, Option, none, some, String, ◌≡◌, ◌≢◌, refl, sym, ap, ◌∙◌, inl, inr,
  Option-cases, eq_iff, arith, if_elim,
}
use evergent.Base.Floats.{Floats}
use evergent.Base.StringMap.{get, get-set_ne, get-delete_ne}
use evergent.Schedules.{
  ScheduleRecord, ScheduleStore, SchedulePatch, create_schedule, update_schedule, delete_schedule,
  patched,
}
use evergent.Schedules.Validation.{
  Calendar, ExpressionValidation, runs_at, refused, validate_schedule_expression,
  validate_schedule_intent,
}
use evergent.Server.Schedules.{
  ScheduleReply, ScheduleBody, Draw, create_checked, create_validated, handle_create_schedule, owns,
  can_access_schedule, by_validation, rescheduled, update_found, handle_update_schedule,
}
use evergent.Server.Schedules.Changes.{
  ScheduleAction, ScheduleRequest, creation, change, removal, action, serve, handle_delete_schedule,
  act_found, handle_schedule_action, with_status, status_after,
}

-- Every schedule that the requester does not own is stored as before.
abbrev pub KeepsOthers : Option String → ScheduleStore → ScheduleStore → Type 0
KeepsOthers owner s s' =
    (j : String) (r : ScheduleRecord) → get j s ≡ some r → owns owner r ≡ false → get j s' ≡ some r

get-update_other :
    (now : ℕ) (id : String) (patch : SchedulePatch) (s : ScheduleStore) (j : String)
    → id ≢ j
    → get j (update_schedule now id patch s).0 ≡ get j s
unfolding update_schedule
get-update_other now id patch s j h = elim (Option-cases (get id s)) [
  | inl gone ↦ rw (gone, update_schedule) refl
  | inr (e, here) ↦ rw (here, update_schedule) (get-set_ne j id (patched now patch e) s h)
]

-- A schedule that may be accessed is not another owner's.
access-differs :
    (owner : Option String) (id j : String) (s : ScheduleStore) (r : ScheduleRecord)
    → can_access_schedule owner id s ≡ true
    → get j s ≡ some r
    → owns owner r ≡ false
    → id ≢ j
unfolding can_access_schedule
access-differs owner id j s r access at other same =
    let here : get id s ≡ some r = ap (λ i. get i s) same ∙ at in
    let mine : can_access_schedule owner id s ≡ owns owner r =
      rw (here, can_access_schedule) refl in
    let no : false ≡ true = sym other ∙ sym mine ∙ access in cc

update_keeps :
    (owner : Option String) (now : ℕ) (id : String) (patch : SchedulePatch) (s : ScheduleStore)
    → can_access_schedule owner id s ≡ true
    → KeepsOthers owner s (update_schedule now id patch s).0
update_keeps owner now id patch s access j r at other =
    get-update_other now id patch s j (access-differs owner id j s r access at other) ∙ at

module _ (F : Floats) (cal : Calendar) where
  by_validation_keeps :
      (owner : Option String) (now : ℕ) (id expression : String) (v : ExpressionValidation)
      (s : ScheduleStore)
      → can_access_schedule owner id s ≡ true
      → KeepsOthers owner s (by_validation F cal now id expression v s).0
  by_validation_keeps owner now id expression (refused message) s access = λ j r at other. at
  by_validation_keeps owner now id expression (runs_at t) s access =
      update_keeps owner now id (rescheduled F cal expression t) s access

  update_found_keeps :
      (owner : Option String) (now : ℕ) (id : String) (expression : Option String)
      (found : Option ScheduleRecord) (s : ScheduleStore)
      → can_access_schedule owner id s ≡ true
      → KeepsOthers owner s (update_found F cal now id expression found s).0
  update_found_keeps owner now id expression none s access = λ j r at other. at
  update_found_keeps owner now id none (some x) s access =
      update_keeps owner now id (λ e. e) s access
  update_found_keeps owner now id (some expression) (some x) s access =
      by_validation_keeps owner now id expression
        (validate_schedule_expression cal now (some expression) (some x.timezone)) s access

  handle_update_schedule_keeps :
      (owner : Option String) (now : ℕ) (id : String) (expression : Option String)
      (s : ScheduleStore)
      → KeepsOthers owner s (handle_update_schedule F cal now owner id expression s).0
  unfolding handle_update_schedule
  handle_update_schedule_keeps owner now id expression s =
      if_elim (λ (p : ScheduleStore × ScheduleReply). KeepsOthers owner s p.0)
        (can_access_schedule owner id s) _ _
        (λ access. update_found_keeps owner now id expression (get id s) s access)
        (λ denied j r at other. at)

  create_validated_keeps :
      (c : Draw) (owner agent_id : String) (b : ScheduleBody) (intent : Option AgentIntent)
      (v : ExpressionValidation) (s : ScheduleStore)
      → get c.id s ≡ none
      → KeepsOthers (some owner) s (create_validated F cal c owner agent_id b intent v s).0
  unfolding create_schedule
  create_validated_keeps c owner agent_id b intent (refused message) s fresh = λ j r at other. at
  create_validated_keeps c owner agent_id b none (runs_at t) s fresh = λ j r at other. at
  create_validated_keeps c owner agent_id b (some intent) (runs_at t) s fresh = λ j r at other.
      get-set_ne j c.id _ s
        (λ same. let no : none ≡ some r = sym fresh ∙ ap (λ i. get i s) same ∙ at in cc)
      ∙ at

  create_checked_keeps :
      (o : Option String) (c : Draw) (owner agent_id : String) (b : ScheduleBody)
      (s : ScheduleStore)
      → get c.id s ≡ none
      → KeepsOthers (some owner) s (create_checked F cal o c owner agent_id b s).0
  create_checked_keeps (some message) c owner agent_id b s fresh = λ j r at other. at
  create_checked_keeps none c owner agent_id b s fresh =
      create_validated_keeps c owner agent_id b b.intent _ s fresh

  handle_create_schedule_keeps :
      (c : Draw) (owner agent_id : String) (b : ScheduleBody) (d : Directory) (s : ScheduleStore)
      → get c.id s ≡ none
      → KeepsOthers (some owner) s (handle_create_schedule F cal c owner agent_id b d s).1
  unfolding handle_create_schedule
  handle_create_schedule_keeps c owner agent_id b d s fresh =
      if_elim (λ (p : Directory × ScheduleStore × ScheduleReply). KeepsOthers (some owner) s p.1)
        ((can_access_agent (some owner) agent_id d).1) _ _
        (λ allowed.
          create_checked_keeps (validate_schedule_intent F b.intent) c owner agent_id b s fresh)
        (λ denied j r at other. at)

handle_delete_schedule_keeps :
    (owner : Option String) (id : String) (s : ScheduleStore)
    → KeepsOthers owner s (handle_delete_schedule owner id s).0
unfolding handle_delete_schedule delete_schedule
handle_delete_schedule_keeps owner id s =
    if_elim (λ (p : ScheduleStore × ScheduleReply). KeepsOthers owner s p.0)
      (can_access_schedule owner id s) _ _
      (λ access j r at other.
        let kept = get-delete_ne j id s (access-differs owner id j s r access at other) ∙ at in
        if_elim (λ (p : ScheduleStore × ScheduleReply). get j p.0 ≡ some r) (is_some (get id s)) _ _
          (λ there. kept) (λ gone. kept))
      (λ denied j r at other. at)

act_found_keeps :
    (owner : Option String) (now : ℕ) (id : String) (act : ScheduleAction)
    (found : Option ScheduleRecord) (s : ScheduleStore)
    → can_access_schedule owner id s ≡ true
    → KeepsOthers owner s (act_found now id act found s).0
act_found_keeps owner now id act none s access = λ j r at other. at
act_found_keeps owner now id act (some x) s access =
    update_keeps owner now id (with_status (status_after act)) s access

handle_schedule_action_keeps :
    (owner : Option String) (now : ℕ) (id : String) (act : ScheduleAction) (s : ScheduleStore)
    → KeepsOthers owner s (handle_schedule_action now owner id act s).0
unfolding handle_schedule_action
handle_schedule_action_keeps owner now id act s =
    if_elim (λ (p : ScheduleStore × ScheduleReply). KeepsOthers owner s p.0)
      (can_access_schedule owner id s) _ _
      (λ access. act_found_keeps owner now id act (get id s) s access) (λ denied j r at other. at)

not_own : (r : ScheduleRecord) (owner : String) → r.owner_id ≢ owner → owns (some owner) r ≡ false
not_own r owner h = ground (arith, eq_iff r.owner_id owner)

-- The id of a new schedule is that of no stored one.
abbrev pub IsNew : ScheduleRequest → ScheduleStore → Type 0
IsNew (creation c agent_id b) s = get c.id s ≡ none
IsNew (change now id expression) s = Unit
IsNew (removal id) s = Unit
IsNew (action now id act) s = Unit

-- Whatever an authenticated owner requests of the schedules, a creation with a new id, a change, a
-- removal, a pause, a resumption or a disabling, every schedule of another owner is stored as before.
pub serve_keeps :
    (F : Floats) (cal : Calendar) (owner : String) (q : ScheduleRequest) (d : Directory)
    (s : ScheduleStore)
    → IsNew q s
    → (j : String) (r : ScheduleRecord) → get j s ≡ some r
    → r.owner_id ≢ owner
    → get j (serve F cal owner q d s).1 ≡ some r
serve_keeps F cal owner (creation c agent_id b) d s new j r at other =
    handle_create_schedule_keeps F cal c owner agent_id b d s new j r at (not_own r owner other)
serve_keeps F cal owner (change now id expression) d s new j r at other =
    handle_update_schedule_keeps F cal (some owner) now id expression s j r at
      (not_own r owner other)
serve_keeps F cal owner (removal id) d s new j r at other =
    handle_delete_schedule_keeps (some owner) id s j r at (not_own r owner other)
serve_keeps F cal owner (action now id act) d s new j r at other =
    handle_schedule_action_keeps (some owner) now id act s j r at (not_own r owner other)
