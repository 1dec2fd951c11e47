-- ===== src/Schedules/Memory.antt =====
-- `InMemoryScheduleStore` of packages/database/src/schedule-store.ts call by call against the
-- abstract store.
use evergent.Base.{
  ℕ, none, some, String, is_some, ◌≡◌, refl, sym, ap, ◌∙◌, inl, inr, arith, eq_iff, Option-cases,
}
use evergent.Base.StringMap.{
  get, get-set, get-delete, IsKeyed, IsKeyed-set, IsKeyed-delete, get-IsKeyed,
}
use evergent.Schedules.{
  ScheduleRecord, ScheduleStore, SchedulePatch, create_schedule, patched, update_schedule,
  delete_schedule,
}
use evergent.Schedules.Calls.{
  Call, create, look_up, change, drop, Answer, created, found, changed, dropped, View, put,
  patch_option, abstract_step, KeepsIdentity, IsAllowed,
}

abbrev pub memory_step : Call → ScheduleStore → ScheduleStore × Answer
memory_step (create r) s = ((create_schedule r s).0, created (create_schedule r s).1)
memory_step (look_up id) s = (s, found (get id s))
memory_step (change now id patch) s =
    ((update_schedule now id patch s).0, changed (update_schedule now id patch s).1)
memory_step (drop id) s = ((delete_schedule id s).0, dropped (delete_schedule id s).1)

-- The store in memory shows each record under its id.
abbrev pub IsShown : ScheduleStore → View → Type 0
IsShown s v = IsKeyed (λ r. r.id) s × ((j : String) → get j s ≡ v j)

memory_create :
    (r : ScheduleRecord) (s : ScheduleStore) (v : View)
    → IsShown s v
    → IsShown (create_schedule r s).0 (put r.id (some r) v)
unfolding create_schedule
memory_create r s v shows = (
  IsKeyed-set (λ x. x.id) r.id r s refl shows.0,
  (λ j. get-set j r.id r s ∙ ground (arith, shows.1 j)),
)

memory_change :
    (now : ℕ) (id : String) (patch : SchedulePatch) (s : ScheduleStore) (v : View)
    → IsShown s v
    → KeepsIdentity patch
    → IsShown (update_schedule now id patch s).0 (put id (patch_option now patch (v id)) v)
      × ((update_schedule now id patch s).1 ≡ patch_option now patch (v id))
unfolding update_schedule
memory_change now id patch s v shows keeps = elim (Option-cases (get id s)) [
  | inl gone ↦
      let none_there : v id ≡ none = sym (shows.1 id) ∙ gone in
      rw (gone, update_schedule, none_there)
        ((shows.0, (λ j. shows.1 j ∙ ground (arith, eq_iff id j))), refl)
  | inr (e, here) ↦
      let there : v id ≡ some e = sym (shows.1 id) ∙ here in
      let own : id ≡ (patched now patch e).id =
        get-IsKeyed (λ r. r.id) id e s shows.0 here ∙ sym ((keeps e).0) in
      rw (here, update_schedule, there)
        (
          (
            IsKeyed-set (λ r. r.id) id (patched now patch e) s own shows.0,
            (λ j. get-set j id (patched now patch e) s ∙ ground (arith, shows.1 j)),
          ),
          refl,
        )
]

pub memory-simulates :
    (c : Call) (s : ScheduleStore) (v : View)
    → IsShown s v
    → IsAllowed c v
    → IsShown (memory_step c s).0 (abstract_step c v).0
      × ((memory_step c s).1 ≡ (abstract_step c v).1)
unfolding create_schedule delete_schedule
memory-simulates (create r) s v shows allowed = (memory_create r s v shows, refl)
memory-simulates (look_up id) s v shows allowed = (shows, ap found (shows.1 id))
memory-simulates (change now id patch) s v shows allowed =
    let (after, same) = memory_change now id patch s v shows allowed in (after, ap changed same)
memory-simulates (drop id) s v shows allowed = (
  (
    IsKeyed-delete (λ r. r.id) id s shows.0,
    (λ j. get-delete (λ r. r.id) j id s shows.0 ∙ ground (arith, shows.1 j)),
  ),
  ap (λ o. dropped (is_some o)) (shows.1 id),
)
