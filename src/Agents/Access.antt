-- ===== src/Agents/Access.antt =====
-- Who may act for an agent.
use evergent.Base.{
  true, Option, none, some, String, ◌≡◌, refl, sym, ap, ◌∙◌, ◌↔◌, inl, inr, Option-cases, eq_iff,
}
use evergent.Base.StringMap.{get}
use evergent.Agents.{Entry, Directory, resolve_agent, same_owner, can_access_agent}

-- The owner that the directory has for an agent: the map's, and where the map has none the store's.
abbrev stored_owner : String → Directory → Option String
stored_owner agent_id d = elim d.agent_store [
  | none ↦ none
  | some store ↦ elim (get agent_id store) [ none ↦ none | some a ↦ some a.owner_id ]
]

abbrev pub owner_of : String → Directory → Option String
owner_of agent_id d = elim (get agent_id d.agents) [
  | some e ↦ some e.owner_id
  | none ↦ stored_owner agent_id d
]

abbrev owner_in : Option Entry → Option String
owner_in none = none
owner_in (some e) = some e.owner_id

resolve_agent-owner :
    (agent_id : String) (d : Directory)
    → owner_in (resolve_agent agent_id d).1 ≡ owner_of agent_id d
unfolding resolve_agent
resolve_agent-owner agent_id d = elim (Option-cases (get agent_id d.agents)) [
  | inr (e, at) ↦
      let there : owner_in (resolve_agent agent_id d).1 ≡ some e.owner_id =
        rw (at, resolve_agent) refl in
      let back : owner_of agent_id d ≡ some e.owner_id = rw (at, owner_of) refl in there ∙ sym back
  | inl at ↦ elim (Option-cases d.agent_store) [
    | inl no_store ↦
        let there : owner_in (resolve_agent agent_id d).1 ≡ none =
          rw (at, resolve_agent, no_store) refl in
        let back : owner_of agent_id d ≡ none = rw (at, owner_of, no_store) refl in there ∙ sym back
    | inr (store, has) ↦ elim (Option-cases (get agent_id store)) [
      | inl gone ↦
          let there : owner_in (resolve_agent agent_id d).1 ≡ none =
            rw (at, resolve_agent, has, gone) refl in
          let back : owner_of agent_id d ≡ none = rw (at, owner_of, has, stored_owner, gone) refl in
          there ∙ sym back
      | inr (a, here) ↦
          let there : owner_in (resolve_agent agent_id d).1 ≡ some a.owner_id =
            rw (at, resolve_agent, has, here) refl in
          let back : owner_of agent_id d ≡ some a.owner_id =
            rw (at, owner_of, has, stored_owner, here) refl in
          there ∙ sym back
    ]
  ]
]

same_owner_iff :
    (entry : Option Entry) (owner : Option String)
    → (same_owner entry owner ≡ true)
      ↔ ((o : String) × (owner ≡ some o) × (owner_in entry ≡ some o))
same_owner_iff none owner = ((λ h. cc), (λ (o, _, h). cc))
same_owner_iff (some e) none = ((λ h. cc), (λ (o, h, _). cc))
same_owner_iff (some e) (some owner) = (
  (λ h. (owner, refl, ap some ((eq_iff e.owner_id owner).0 h))),
  (λ (o, h, k). let same : e.owner_id ≡ owner = cc in (eq_iff e.owner_id owner).1 same),
)

-- A request may act for an agent exactly if it is authenticated and the directory has the agent as
-- one of its owner's, whether the agent is in the map or only in the store.
pub can_access_agent_iff :
    (owner : Option String) (agent_id : String) (d : Directory)
    → ((can_access_agent owner agent_id d).1 ≡ true)
      ↔ ((o : String) × (owner ≡ some o) × (owner_of agent_id d ≡ some o))
unfolding can_access_agent
can_access_agent_iff owner agent_id d =
    let (there, back) = same_owner_iff (resolve_agent agent_id d).1 owner in
    let same = resolve_agent-owner agent_id d in
    ((λ h. let (o, e, k) = there h in (o, e, sym same ∙ k)), (λ (o, e, k). back (o, e, same ∙ k)))
