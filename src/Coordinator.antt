-- ===== src/Coordinator.antt =====
-- `AccountSequenceCoordinator` of apps/api/src/account-sequence-coordinator.ts: the calls of
-- `runExclusive`, and the turns of the event loop that start a task when the one before it in its queue
-- has settled, settle it, and clean up after it. A task is named by the number of its call, and a
-- queue object by its first task.
pub mod Joining
pub mod Steps
pub mod Order
pub mod Exclusion
pub mod Overlap
use evergent.Base.{
  ℕ, suc, Bool, true, false, Option, none, some, String, if◌then◌else◌, ◌==◌, str_eq, is_some, ◌≡◌,
  ◌⊎◌,
}

-- `{ tail }`, whose tail is the promise of its latest task
pub record AccountQueue : Type 0 where
  pub id : ℕ
  pub tail : ℕ

pub data TaskStatus : Type 0 where
  waiting running settled : TaskStatus

pub record Task : Type 0 where
  pub account : String
  pub queue : ℕ
  -- The task whose promise it is chained to, or none for `Promise.resolve()`.
  pub previous : Option ℕ
  pub status : TaskStatus

pub record Coordinator : Type 0 where
  pub accounts : String → Option AccountQueue
  pub tasks : ℕ → Option Task
  pub next : ℕ

abbrev pub initial : Coordinator
initial = record { accounts = λ a. none; tasks = λ i. none; next = 0 }

abbrev pub put {ℓ} : {A : Type ℓ} → ℕ → A → (ℕ → A) → ℕ → A
put i x f j = if i == j then x else f j

abbrev pub put_account :
    String → Option AccountQueue → (String → Option AccountQueue) → String → Option AccountQueue
put_account a x f b = if str_eq a b then x else f b

-- The queue that a call joins, whose tail is the call's own task then, and the tail before.
abbrev pub joined : ℕ → Option AccountQueue → AccountQueue
joined i none = record { id = i; tail = i }
joined i (some q) = record { id = q.id; tail = i }

abbrev pub tail_before : Option AccountQueue → Option ℕ
tail_before none = none
tail_before (some q) = some q.tail

-- `runExclusive(accountId, task)`, up to the promise that it returns
unfoldable pub run_exclusive : String → Coordinator → Coordinator
run_exclusive a s =
    let queue = joined s.next (s.accounts a) in
    record {
      accounts = put_account a (some queue) s.accounts;
      tasks =
          put s.next
            (some (record {
              account = a;
              queue = queue.id;
              previous = tail_before (s.accounts a);
              status = waiting;
            }))
            s.tasks;
      next = suc s.next;
    }

abbrev pub with_status : TaskStatus → Task → Task
with_status status t = record t { status = status }

abbrev pub set_status : ℕ → Task → TaskStatus → Coordinator → Coordinator
set_status i t status s = record s { tasks = put i (some (with_status status t)) s.tasks }

-- Whether the account's queue is a given object. `current.tail === queue.tail` compares the tail of
-- that object with itself, and is true then.
abbrev pub is_current : ℕ → Option AccountQueue → Bool
is_current queue none = false
is_current queue (some q) = q.id == queue

-- The callback of `queue.tail.then` of a task
unfoldable pub clean_up : Task → Coordinator → Coordinator
clean_up t s =
    if is_current t.queue (s.accounts t.account)
    then record s { accounts = put_account t.account none s.accounts }
    else s

-- `isAccountPending`
abbrev pub is_account_pending : String → Coordinator → Bool
is_account_pending a s = is_some (s.accounts a)

-- The task that a task is chained to has settled, if there is one.
abbrev pub IsReadyAfter : Coordinator → Option ℕ → Type 0
IsReadyAfter s none = Unit
IsReadyAfter s (some p) = (b : Task) × (s.tasks p ≡ some b) × (b.status ≡ settled)

abbrev pub IsReady : Coordinator → Task → Type 0
IsReady s t = IsReadyAfter s t.previous
