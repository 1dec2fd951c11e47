-- ===== src/Server/Scheduling.antt =====
-- What apps/api/src/index.ts gives to the scheduler, its callback and its view of the agents, and the
-- handler that changes an agent's status. The server keeps its own map of agents beside the store.
pub mod Status
use evergent.Base.{ℕ, Bool, true, false, Option, none, some, String, if◌then◌else◌, str_eq}
use evergent.Base.StringMap.{StringMap, get}
use evergent.Shared.{AgentIntent, PolicyDecision, allow}
use evergent.Execution.{ExecutionRecord, ExecutionStatus}
use evergent.Execution.Store.{Store}
use evergent.Execution.Queue.{enqueue}
use evergent.Agents.{
  AgentStatus, active, paused, disabled, Agent, AgentStore, update_agent, Directory,
  can_access_agent,
}
use evergent.Schedules.{ScheduleRecord}
use evergent.Scheduler.{AgentInfo}
use evergent.Pipeline.{PipelineOutcome, OutcomeStatus, outcome}

-- The map of agents and the agent store.
pub record KnownAgents : Type 0 where
  pub agents : StringMap Agent
  pub agent_store : AgentStore

abbrev pub info_of : Agent → AgentInfo
info_of a = record { id = a.id; status = a.status; owner_id = a.owner_id }

abbrev pub stored_info : String → AgentStore → Option AgentInfo
stored_info id s = elim (get id s) [ none ↦ none | some a ↦ some (info_of a) ]

-- `agentStatusStore.get`: the map first, and the store for an agent that the map does not have
unfoldable pub agent_status : KnownAgents → String → Option AgentInfo
agent_status k id = elim (get id k.agents) [
  | some a ↦ some (info_of a)
  | none ↦ stored_info id k.agent_store
]

-- The execution that stands for a run of a schedule, with a new id and the time.
abbrev pub execution_for : String → ℕ → ScheduleRecord → ExecutionRecord
execution_for id now r = record {
  id = id;
  owner_id = r.owner_id;
  agent_id = r.agent_id;
  approval_id = none;
  activity_id = none;
  intent = r.intent;
  status = ExecutionStatus.queued;
  policy_decision = none;
  simulation_result = none;
  tx_hash = none;
  submitted_hash = none;
  error = none;
  attempt = 0;
  next_retry_at = none;
  started_at = none;
  completed_at = none;
  error_class = none;
  created_at = now;
  updated_at = now;
}

abbrev pub enqueued_decision : ScheduleRecord → PolicyDecision
enqueued_decision r = record {
  result = allow;
  reason = "schedule enqueued";
  rule = "scheduler";
  intent = some r.intent;
}

-- The scheduler's callback where the queue is enabled.
unfoldable pub enqueue_schedule : String → ℕ → ScheduleRecord → Store → Store × PipelineOutcome
unfolding enqueue
enqueue_schedule id now r s = (
  enqueue (execution_for id now r) s,
  outcome OutcomeStatus.submitted "schedule enqueued for execution" (enqueued_decision r),
)

-- What `handleUpdateAgentStatus` answers.
pub data StatusReply : Type 0 where
  problem : ℕ → String → StatusReply
  changed : String → AgentStatus → StatusReply

-- One of the three texts that a status may be.
abbrev pub read_status : Option String → Option AgentStatus
read_status none = none
read_status (some s) =
    if str_eq s "active"
    then some active
    else if str_eq s "paused"
    then some paused
    else if str_eq s "disabled"
    then some disabled
    else none

abbrev pub after_update : AgentStore × Option Agent → AgentStore × StatusReply
after_update (s, none) = (s, problem 404 "not found")
after_update (s, some a) = (s, changed a.id a.status)

abbrev pub by_status : Option AgentStatus → String → AgentStore → AgentStore × StatusReply
by_status none id s = (s, problem 400 "invalid status")
by_status (some status) id s = after_update (update_agent id (λ a. a) (some status) s)

-- `handleUpdateAgentStatus`, with the `status` of the body, if it is a string
unfoldable pub handle_update_agent_status :
    Option String
    → String
    → Option String
    → Directory
    → KnownAgents
    → Directory × KnownAgents × StatusReply
unfolding can_access_agent update_agent
handle_update_agent_status owner id status d k =
    let (d', allowed) = can_access_agent owner id d in
    let (s', reply) = by_status (read_status status) id k.agent_store in
    if allowed then (d', record k { agent_store = s' }, reply) else (d', k, problem 404 "not found")
