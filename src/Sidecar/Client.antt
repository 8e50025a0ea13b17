-- ===== src/Sidecar/Client.antt =====
-- apps/desktop/src/main/sidecar-session.ts: `createPromiseSidecarClient`, its guard and the process that
-- it launches, as a machine. The launcher and the protocol are the environment: an event says how a
-- launch, a session or a stop has ended. A reason or an error that is no SidecarSessionError is `none`.
pub mod Exclusive
use open_chords.Prelude.{
  ℕ, suc, ◌+◌, ◌-◌, String, Bool, true, false, not, ◌&&◌, ◌||◌, Option, none, some, List, [], ◌∷◌,
  ◌++◌, if◌then◌else◌,
}
use open_chords.Sidecar.{
  SidecarSessionErrorCode, SidecarSessionError, session_error, busy, cancelled, cleanup_failure,
  disposed, invalid_request, launch_failure, timeout,
}
use open_chords.Sidecar.Messages.{SidecarSessionResult}
use open_chords.Sidecar.Inbox.{Lifecycle, live, aborted, normalized}

pub data Outcome : Type 0 where
  resolved : SidecarSessionResult → Outcome
  thrown : SidecarSessionError → Outcome

-- Where the call is that has entered: its launch is pending, a process that came too late is stopped
-- before the call throws, the protocol runs, or the process is stopped after it.
pub data Stage : Type 0 where
  launching discarding running : Stage
  releasing : (outcome : Outcome) → Stage

pub record Client : Type 0 where
  -- the guard
  pub active : Bool
  pub is_disposed : Bool
  -- the call that has entered, and its signals: that of its request, and the two combined ones
  pub stage : Option Stage
  pub request_aborted : Bool
  pub acquisition : Lifecycle
  -- the processes that were launched, the reasons with which they were stopped (`none` is
  -- "completed"), the calls that have entered, and how they have ended
  pub launches : ℕ
  pub stops : List (Option SidecarSessionErrorCode)
  pub entered : ℕ
  pub outcomes : List Outcome
  -- the calls that were refused
  pub refusals : List SidecarSessionError

abbrev pub new_client : Client
new_client = record {
  active = false;
  is_disposed = false;
  stage = none;
  request_aborted = false;
  acquisition = live;
  launches = 0;
  stops = [];
  entered = 0;
  outcomes = [];
  refusals = [];
}

pub data ClientEvent : Type 0 where
  -- a call of `runSession`, with a request that is valid or not, and aborted already or not
  run_session : (valid is_aborted : Bool) → ClientEvent
  launched : ClientEvent
  launch_failed : Option SidecarSessionError → ClientEvent
  settled : Outcome → ClientEvent
  stopped stop_failed : ClientEvent
  abort_request : (reason : Option SidecarSessionError) → ClientEvent
  time_out dispose : ClientEvent

abbrev pub acquisition_abort_error : Bool → Lifecycle → SidecarSessionError
acquisition_abort_error true acquisition =
    session_error cancelled "Sidecar acquisition was cancelled"
acquisition_abort_error false (aborted (some reason)) = reason
acquisition_abort_error false _ = session_error cancelled "Sidecar acquisition was interrupted"

-- The first signal that aborts gives the combined signal its reason.
abbrev pub combined : Lifecycle → Option SidecarSessionError → Lifecycle
combined live reason = aborted reason
combined (aborted earlier) reason = aborted earlier

-- The reason with which `runSession` stops its process.
abbrev pub stop_reason : Outcome → Option SidecarSessionErrorCode
stop_reason (resolved r) = none
stop_reason (thrown failure) = some failure.code

abbrev pub late_reason : Lifecycle → SidecarSessionErrorCode
late_reason (aborted (some reason)) = reason.code
late_reason _ = cancelled

abbrev pub cleanup_error : SidecarSessionError
cleanup_error = session_error cleanup_failure "Sidecar cleanup failed"

-- `guard.leave()`, with what the call gives back or throws.
abbrev pub leave : Client → Outcome → Client
leave c outcome = record c { active = false; stage = none; outcomes = outcome ∷ c.outcomes }

abbrev pub refuse : Client → SidecarSessionErrorCode → String → Client
refuse c code message = record c { refusals = session_error code message ∷ c.refusals }

-- `guard.enter()`, and the start of `acquireSidecarProcess`: a request that is aborted already is not
-- launched.
abbrev pub enter : Client → Bool → Client
enter c is_aborted =
    let next = record c {
      active = true;
      stage = some launching;
      request_aborted = is_aborted;
      acquisition = if is_aborted then aborted none else live;
      entered = suc c.entered;
    } in
    if is_aborted then leave next (thrown (acquisition_abort_error true (aborted none))) else next

abbrev pub call : Client → Bool → Bool → Client
call c valid is_aborted =
    if not valid
    then refuse c invalid_request "Invalid sidecar request"
    else if c.is_disposed
    then refuse c disposed "Sidecar client is disposed"
    else if c.active
    then refuse c busy "Only one sidecar session may run at a time"
    else enter c is_aborted

-- The process is there; it is stopped where the signal has been aborted in the meantime.
abbrev pub after_launch : Client → Lifecycle → Client
after_launch c live = record c { stage = some running; launches = suc c.launches }
after_launch c (aborted reason) = record c {
  stage = some discarding;
  launches = suc c.launches;
  stops = some (late_reason (aborted reason)) ∷ c.stops;
}

abbrev pub is_cleanup_failure : SidecarSessionErrorCode → Bool
is_cleanup_failure cleanup_failure = true
is_cleanup_failure _ = false

abbrev pub launch_error : Option SidecarSessionError → SidecarSessionError
launch_error (some failure) = failure
launch_error none = session_error launch_failure "Sidecar launch failed"

abbrev pub unless_aborted : Bool → Lifecycle → SidecarSessionError → SidecarSessionError
unless_aborted request_aborted live failure = failure
unless_aborted request_aborted (aborted reason) failure =
    acquisition_abort_error request_aborted (aborted reason)

-- What a launch that fails throws.
abbrev pub failed_launch : Client → Option SidecarSessionError → SidecarSessionError
failed_launch c none = unless_aborted c.request_aborted c.acquisition (launch_error none)
failed_launch c (some failure) =
    if is_cleanup_failure failure.code
    then failure
    else unless_aborted c.request_aborted c.acquisition failure

-- An event of the call that has entered, at its stage.
abbrev pub on_launched : Client → Option Stage → Client
on_launched c (some launching) = after_launch c c.acquisition
on_launched c _ = c

abbrev pub on_launch_failed : Client → Option SidecarSessionError → Option Stage → Client
on_launch_failed c error (some launching) = leave c (thrown (failed_launch c error))
on_launch_failed c error _ = c

abbrev pub on_settled : Client → Outcome → Option Stage → Client
on_settled c outcome (some running) = record c {
  stage = some (releasing outcome);
  stops = stop_reason outcome ∷ c.stops;
}
on_settled c outcome _ = c

abbrev pub on_stopped : Client → Option Stage → Client
on_stopped c (some discarding) =
    leave c (thrown (acquisition_abort_error c.request_aborted c.acquisition))
on_stopped c (some (releasing outcome)) = leave c outcome
on_stopped c _ = c

abbrev pub on_stop_failed : Client → Option Stage → Client
on_stop_failed c (some discarding) = leave c (thrown cleanup_error)
on_stop_failed c (some (releasing outcome)) = leave c (thrown cleanup_error)
on_stop_failed c _ = c

unfoldable pub client_step : Client → ClientEvent → Client
client_step c (run_session valid is_aborted) = call c valid is_aborted
client_step c (abort_request reason) =
    if c.active
    then record c { request_aborted = true; acquisition = combined c.acquisition reason }
    else c
client_step c time_out =
    if c.active
    then record c {
      acquisition =
          combined c.acquisition (some (session_error timeout "Sidecar session timed out"));
    }
    else c
client_step c dispose =
    if c.active
    then record c {
      is_disposed = true;
      acquisition =
          combined c.acquisition
            (some (session_error disposed "Sidecar client was disposed during a session"));
    }
    else record c { is_disposed = true }
client_step c launched = on_launched c c.stage
client_step c (launch_failed error) = on_launch_failed c error c.stage
client_step c (settled outcome) = on_settled c outcome c.stage
client_step c stopped = on_stopped c c.stage
client_step c stop_failed = on_stop_failed c c.stage

unfoldable pub run_client : Client → List ClientEvent → Client
unfolding client_step
run_client c [] = c
run_client c (event ∷ events) = run_client (client_step c event) events
