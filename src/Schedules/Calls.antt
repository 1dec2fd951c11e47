-- ===== src/Schedules/Calls.antt =====
-- The calls of a schedule store (packages/database/src/schedule-types.ts), and the abstract store: a
-- function from ids to records.
use evergent.Base.{
  ℕ, Bool, List, [], ◌∷◌, Option, none, some, String, if◌then◌else◌, str_eq, is_some, ◌≡◌, refl,
}
use evergent.Schedules.{ScheduleRecord, SchedulePatch, patched}

-- The calls of a store, and what they return.
pub data Call : Type 0 where
  create : ScheduleRecord → Call
  look_up : String → Call
  change : ℕ → String → SchedulePatch → Call
  drop : String → Call

pub data Answer : Type 0 where
  created : ScheduleRecord → Answer
  found : Option ScheduleRecord → Answer
  changed : Option ScheduleRecord → Answer
  dropped : Bool → Answer
  failed : Answer

-- The answers to a list of calls.
module _ {S : Type 0} (step : Call → S → S × Answer) where
  abbrev pub answers : List Call → S → List Answer
  answers [] s = []
  answers (c ∷ calls) s = (step c s).1 ∷ answers calls (step c s).0

-- The abstract store.
abbrev pub View : Type 0
View = String → Option ScheduleRecord

abbrev pub put : String → Option ScheduleRecord → View → View
put id o v = λ j. if str_eq id j then o else v j

abbrev pub patch_option : ℕ → SchedulePatch → Option ScheduleRecord → Option ScheduleRecord
patch_option now patch none = none
patch_option now patch (some e) = some (patched now patch e)

abbrev pub abstract_step : Call → View → View × Answer
abstract_step (create r) v = (put r.id (some r) v, created r)
abstract_step (look_up id) v = (v, found (v id))
abstract_step (change now id patch) v =
    (put id (patch_option now patch (v id)) v, changed (patch_option now patch (v id)))
abstract_step (drop id) v = (put id none v, dropped (is_some (v id)))

-- A patch that leaves the id, the agent, the owner and the time of creation.
abbrev pub KeepsIdentity : SchedulePatch → Type 0
KeepsIdentity patch =
    (r : ScheduleRecord)
    → ((patch r).id ≡ r.id)
      × ((patch r).agent_id ≡ r.agent_id)
      × ((patch r).owner_id ≡ r.owner_id)
      × ((patch r).created_at ≡ r.created_at)

-- New records have new ids, and patches keep what identifies a record.
abbrev pub IsAllowed : Call → View → Type 0
IsAllowed (create r) v = v r.id ≡ none
IsAllowed (look_up id) v = Unit
IsAllowed (change now id patch) v = KeepsIdentity patch
IsAllowed (drop id) v = Unit

abbrev pub AreAllowed : List Call → View → Type 0
AreAllowed [] v = Unit
AreAllowed (c ∷ calls) v = IsAllowed c v × AreAllowed calls (abstract_step c v).0

-- A simulation gives equal answers.
module _ {S : Type 0} (step : Call → S → S × Answer) (Shows : S → View → Type 0)
    (simulates : (c : Call) (s : S) (v : View)
      → Shows s v
      → IsAllowed c v
      → Shows (step c s).0 (abstract_step c v).0 × ((step c s).1 ≡ (abstract_step c v).1)) where
  pub answers-simulated :
      (calls : List Call) (s : S) (v : View)
      → Shows s v
      → AreAllowed calls v
      → answers step calls s ≡ answers abstract_step calls v
  answers-simulated [] s v shows allowed = refl
  answers-simulated (c ∷ calls) s v shows allowed =
      let (after, same) = simulates c s v shows allowed.0 in
      let rest = answers-simulated calls (step c s).0 (abstract_step c v).0 after allowed.1 in
      rw (same, rest) refl
