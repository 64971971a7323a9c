-- ===== src/Node/Lifecycle.antt =====
-- The rest of `main` of crates/ursa/src/main.rs, with `wait_until_ctrlc` of crates/ursa/src/ursa/mod.rs: four
-- tasks run until they end or are cancelled, main waits for Ctrl-C, spawns the shutdown and returns, which
-- ends the process. The order in which these take their steps is left open.
pub mod Shutdown
mod Tests
use ursa.Prelude.{ℕ, ◌+◌, ◌≡◌, ◌≢◌, Option, none, some, Bool, true, false}

pub data Task : Type 0 where
  rpc_task service_task metrics_task provider_task : Task

pub data TaskState : Type 0 where
  running ended cancelled : TaskState

pub data Phase : Type 0 where
  waiting stopping returned : Phase

pub record Process : Type 0 where
  pub phase : Phase
  pub flag : Bool
  pub interrupts : ℕ
  pub tasks : Task → TaskState
  pub cancels : ℕ

abbrev pub init : Process
init = record { phase = waiting; flag = true; interrupts = 0; tasks = λ t. running; cancels = 0 }

-- The order of the shutdown.
abbrev pub index : Task → ℕ
index rpc_task = 0
index service_task = 1
index metrics_task = 2
index provider_task = 3

abbrev pub same_task : Task → Task → Bool
same_task rpc_task rpc_task = true
same_task service_task service_task = true
same_task metrics_task metrics_task = true
same_task provider_task provider_task = true
same_task _ _ = false

pub set_task : Task → TaskState → (Task → TaskState) → Task → TaskState
set_task t st tasks u = elim (same_task t u) [ true ↦ st | false ↦ tasks u ]

-- A task that has ended cannot be cancelled any more.
abbrev pub cancel_task : TaskState → TaskState
cancel_task running = cancelled
cancel_task ended = ended
cancel_task cancelled = cancelled

pub data Step (p : Process) : Process → Type 0 where
  interrupt : p.phase ≢ returned → Step p (record p { flag = false; interrupts = p.interrupts + 1 })
  look : p.phase ≡ waiting → p.flag ≡ true → Step p p
  leave : p.phase ≡ waiting → p.flag ≡ false → Step p (record p { phase = stopping })
  finish :
      (t : Task)
      → p.phase ≢ returned
      → p.tasks t ≡ running
      → Step p (record p { tasks = set_task t ended p.tasks })
  cancel :
      (t : Task)
      → p.phase ≡ stopping
      → p.cancels ≡ index t
      → Step p (record p {
        tasks = set_task t (cancel_task (p.tasks t)) p.tasks;
        cancels = p.cancels + 1;
      })
  quit : p.phase ≡ stopping → Step p (record p { phase = returned })

pub data Reach (p : Process) : Process → Type 0 where
  here : Reach p p
  later : {q r : Process} → Reach p q → Step q r → Reach p r
