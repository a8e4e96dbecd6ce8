-- ===== src/RenderJob/Visitors.antt =====
-- internal/renderjob/manager.go: `Enable`, `Status`, `Cancel` and `Counts`.
pub mod Isolation
use go_graphics.Common.{
  ℕ, String, Bool, true, false, ◌&&◌, Option, none, some, length, if◌then◌else◌, ◌==◌,
}
use go_graphics.Common.Dict.{lookup, insert, sum_of}
use go_graphics.Common.Int.{ℤ}
use go_graphics.Common.Names.{contains, discard}
use go_graphics.RenderJob.Model.{
  Manager, Job, State, Status, expired, cancelled, failed, is_running, is_ready, is_live, older,
}
use go_graphics.RenderJob.Admission.{queued_jobs}

unfoldable pub enable : Bool → Manager → Manager
enable on m = record m { enabled = on }

abbrev pub gone_message : String
gone_message = "This sample is no longer available. Generate it again."

abbrev pub failed_message : String
failed_message = "This sample could not finish. Try again when you are ready."

abbrev pub is_failed : State → Bool
is_failed failed = true
is_failed _ = false

-- A ready job whose image is gone or too old is shown as expired.
abbrev pub shown_state : ℕ → String → Manager → State → State
shown_state now id m s =
    if is_ready s
    then elim (lookup id m.artifacts) [
      | none ↦ expired
      | some a ↦ if older now a.created m.cfg.max_age then expired else s
    ]
    else s

unfoldable pub status : ℕ → Manager → String → String → Status
status now m owner id = elim (lookup id m.jobs) [
  | none ↦ record { id = id; state = expired; message = gone_message }
  | some j ↦
      if contains owner j.subscribers
      then (record {
        id = id;
        state = shown_state now id m j.state;
        message = if is_failed (shown_state now id m j.state) then failed_message else "";
      })
      else record { id = id; state = expired; message = gone_message }
]

abbrev pub unsubscribed : String → Job → Job
unsubscribed owner j = record j { subscribers = discard owner j.subscribers }

abbrev pub is_abandoned : Job → Bool
is_abandoned j = (length j.subscribers == 0) && is_live j.state

-- The new state, and the context that is cancelled, by the address of its job.
unfoldable pub cancel : String → String → Manager → Manager × Option ℕ
cancel owner id m = elim (lookup id m.jobs) [
  | none ↦ (m, none)
  | some j ↦
      if is_abandoned (unsubscribed owner j)
      then (
        record m { jobs = insert id (record (unsubscribed owner j) { state = cancelled }) m.jobs },
        if j.cancel then some j.ref else none,
      )
      else (record m { jobs = insert id (unsubscribed owner j) m.jobs }, none)
]

-- The numbers of queued jobs, running jobs and files, and the bytes of the files.
unfoldable pub counts : Manager → ℕ × ℕ × ℕ × ℤ
counts m = (
  queued_jobs m,
  sum_of (λ j. if is_running j.state then 1 else 0) m.jobs,
  length m.artifacts,
  m.bytes,
)
