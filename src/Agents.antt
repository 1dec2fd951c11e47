-- ===== src/Agents.antt =====
-- `Agent` of packages/shared/src/types.ts, `InMemoryAgentStore` of
-- packages/database/src/agent-store.ts, and the access to agents, activities and approvals that
-- `ResourceAuthorizationService` of packages/database/src/authorization.ts grants.
pub mod Access
use evergent.Base.{
  ℕ, Bool, true, false, List, [], ◌∷◌, Option, none, some, String, filterb, take, min, max, leb,
  if◌then◌else◌, str_eq, get_or_else, is_some,
}
use evergent.Base.Floats.{Floats}
use evergent.Base.Sort.{sort}
use evergent.Base.StringMap.{StringMap, get, set, delete, values}
use evergent.Activity.{ActivityStore, get_activity}
use evergent.Approval.{ApprovalStore}

pub data AgentStatus : Type 0 where
  active paused disabled : AgentStatus

abbrev pub is_active : AgentStatus → Bool
is_active active = true
is_active paused = false
is_active disabled = false

-- The text that stands for a status.
abbrev pub agent_status_text : AgentStatus → String
agent_status_text active = "active"
agent_status_text paused = "paused"
agent_status_text disabled = "disabled"

pub record Agent : Type 0 where
  pub id : String
  pub display_name : String
  pub description : String
  pub owner_id : String
  pub stellar_address : String
  pub capabilities : List String
  pub status : AgentStatus
  pub is_enabled : Bool
  pub created_at : ℕ
  pub updated_at : ℕ

pub record CreateAgentInput : Type 0 where
  pub id : Option String
  pub display_name : String
  pub description : Option String
  pub capabilities : Option (List String)
  pub owner_id : String
  pub stellar_address : Option String
  pub status : Option AgentStatus

abbrev pub AgentStore : Type 0
AgentStore = StringMap Agent

-- `create`, with the random id and the clock's time as arguments
unfoldable pub create_agent : String → ℕ → CreateAgentInput → AgentStore → AgentStore × Agent
create_agent random_id now input s =
    let status = get_or_else input.status active in
    let agent : Agent = record {
      id = get_or_else input.id random_id;
      display_name = input.display_name;
      description = get_or_else input.description "";
      owner_id = input.owner_id;
      stellar_address = get_or_else input.stellar_address "";
      capabilities = get_or_else input.capabilities [];
      status = status;
      is_enabled = is_active status;
      created_at = now;
      updated_at = now;
    } in
    (set agent.id agent s, agent)

unfoldable pub get_agent_for_owner : String → String → AgentStore → Option Agent
get_agent_for_owner id owner_id s = elim (get id s) [
  | none ↦ none
  | some a ↦ if str_eq a.owner_id owner_id then some a else none
]

abbrev newest_first : Agent → Agent → Bool
newest_first a b = leb b.created_at a.created_at

unfoldable pub list_agents_by_owner : String → ℕ → AgentStore → List Agent
unfolding sort
list_agents_by_owner owner_id limit s =
    take (max 1 (min limit 200))
      (sort newest_first (filterb (λ a. str_eq a.owner_id owner_id) (values s)))

-- `update`: the patch with the status that it sets, if it sets one. The id stays.
unfoldable pub update_agent :
    String → (Agent → Agent) → Option AgentStatus → AgentStore → AgentStore × Option Agent
update_agent id patch status s = elim (get id s) [
  | none ↦ (s, none)
  | some existing ↦
      let patched = record (patch existing) { id = existing.id } in
      let updated : Agent = elim status [
        | none ↦ patched
        | some new ↦ record patched { status = new; is_enabled = is_active new }
      ] in
      (set id updated s, some updated)
]

unfoldable pub delete_agent : String → AgentStore → AgentStore × Bool
delete_agent id s = (delete id s, is_some (get id s))

-- What the service remembers of an agent.
pub record Entry : Type 0 where
  pub id : String
  pub owner_id : String

-- The map of known agents, and the agent store if there is one: `AuthorizationContext`. The server's
-- own context, `defaultAuthzCtx` of apps/api/src/index.ts, has the map only, which is `none` here.
pub record Directory : Type 0 where
  pub agents : StringMap Entry
  pub agent_store : Option AgentStore

-- `resolveAgent`
unfoldable pub resolve_agent : String → Directory → Directory × Option Entry
resolve_agent agent_id d = elim (get agent_id d.agents) [
  | some cached ↦ (d, some cached)
  | none ↦ elim d.agent_store [
    | none ↦ (d, none)
    | some store ↦ elim (get agent_id store) [
      | none ↦ (d, none)
      | some a ↦
          let entry : Entry = record { id = a.id; owner_id = a.owner_id } in
          (record d { agents = set agent_id entry d.agents }, some entry)
    ]
  ]
]

-- `agent?.ownerId === ctx.ownerId`: an agent that is missing gives `undefined`, and a request that
-- is not authenticated has `null`, which differ.
abbrev pub same_owner : Option Entry → Option String → Bool
same_owner none owner = false
same_owner (some e) none = false
same_owner (some e) (some owner) = str_eq e.owner_id owner

-- `canAccessAgent`, which `canSubmitIntent` and `canChangeAgentStatus` call
unfoldable pub can_access_agent : Option String → String → Directory → Directory × Bool
unfolding resolve_agent
can_access_agent owner_id agent_id d =
    let (d', entry) = resolve_agent agent_id d in (d', same_owner entry owner_id)

-- `canAccessApproval`, which `canApprove` and `canReject` call
unfoldable pub can_access_approval :
    Option String → String → ApprovalStore → Directory → Directory × Bool
unfolding can_access_agent
can_access_approval owner_id approval_id approvals d = elim (get approval_id approvals) [
  | none ↦ (d, false)
  | some a ↦ can_access_agent owner_id a.agent_id d
]

-- `canAccessActivity`
unfoldable pub can_access_activity :
    (F : Floats) → Option String → String → ActivityStore F → Directory → Directory × Bool
unfolding can_access_agent get_activity
can_access_activity F owner_id activity_id s d = elim (get_activity F activity_id s) [
  | none ↦ (d, false)
  | some a ↦ can_access_agent owner_id a.agent_id d
]
