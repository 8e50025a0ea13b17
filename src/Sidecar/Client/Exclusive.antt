-- ===== src/Sidecar/Client/Exclusive.antt =====
-- One process at a time, each stopped once, and one outcome for each call.
use open_chords.Prelude.{
  ℕ, String, ◌+◌, ap, ◌∙◌, ◌≡◌, refl, Bool, true, false, not, Option, none, some, List, [], ◌∷◌,
  arith, length, if◌then◌else◌,
}
use open_chords.Sidecar.{SidecarSessionErrorCode, SidecarSessionError}
use open_chords.Sidecar.Inbox.{Lifecycle, live, aborted}
use open_chords.Sidecar.Client.{
  Outcome, Stage, launching, running, discarding, releasing, Client, new_client, ClientEvent,
  run_session, launched, launch_failed, settled, stopped, stop_failed, abort_request, time_out,
  dispose, enter, call, after_launch, on_launched, on_launch_failed, on_settled, on_stopped,
  on_stop_failed, client_step, run_client, refuse, leave,
}

-- How many processes run, and how many calls have entered and not ended.
abbrev pub processes : Option Stage → ℕ
processes (some running) = 1
processes _ = 0

abbrev pub calls : Option Stage → ℕ
calls none = 0
calls (some stage) = 1

abbrev pub is_inside : Option Stage → Bool
is_inside none = false
is_inside (some stage) = true

pub record IsExclusive (c : Client) : Type 0 where
  pub guarded : c.active ≡ is_inside c.stage
  pub stopped_once : c.launches ≡ length c.stops + processes c.stage
  pub answered_once : c.entered ≡ length c.outcomes + calls c.stage

-- What the record says where the stage is known.
Facts : Client → Option Stage → Type 0
Facts c stage =
    (c.active ≡ is_inside stage)
    × (c.launches ≡ length c.stops + processes stage)
    × (c.entered ≡ length c.outcomes + calls stage)

facts : (c : Client) (stage : Option Stage) → c.stage ≡ stage → IsExclusive c → Facts c stage
unfolding Facts
facts c stage e i = (
  i.guarded ∙ ap is_inside e,
  i.stopped_once ∙ ap (λ s. length c.stops + processes s) e,
  i.answered_once ∙ ap (λ s. length c.outcomes + calls s) e,
)

enter-IsExclusive :
    (c : Client) (is_aborted : Bool) (stage : Option Stage)
    → c.active ≡ false
    → Facts c stage
    → IsExclusive (enter c is_aborted)
unfolding Facts
enter-IsExclusive c is_aborted (some stage) idle (g, h, k) = absurd (ground arith)
enter-IsExclusive c true none idle (g, h, k) = record {
  guarded = refl;
  stopped_once = omega arith;
  answered_once = omega arith;
}
enter-IsExclusive c false none idle (g, h, k) = record {
  guarded = refl;
  stopped_once = omega arith;
  answered_once = omega arith;
}

-- A change of what the record does not speak of.
unchanged : (c : Client) → IsExclusive c → Facts c c.stage
unfolding Facts
unchanged c i = (i.guarded, i.stopped_once, i.answered_once)

if-IsExclusive :
    (test : Bool) (c d : Client)
    → (test ≡ true → IsExclusive c)
    → (test ≡ false → IsExclusive d)
    → IsExclusive (if test then c else d)
if-IsExclusive true c d h k = h refl
if-IsExclusive false c d h k = k refl

call-IsExclusive :
    (c : Client) (valid is_aborted : Bool) → IsExclusive c → IsExclusive (call c valid is_aborted)
unfolding Facts
call-IsExclusive c valid is_aborted i =
    let (g, h, k) = unchanged c i in
    let refused : (code : SidecarSessionErrorCode)
        → (message : String) → IsExclusive (refuse c code message) =
      λ code message. record { guarded = g; stopped_once = h; answered_once = k } in
    if-IsExclusive (not valid) _ _ (λ e. refused _ _)
      (λ e.
        if-IsExclusive c.is_disposed _ _ (λ e. refused _ _)
          (λ e.
            if-IsExclusive c.active _ _ (λ e. refused _ _)
              (λ idle. enter-IsExclusive c is_aborted c.stage idle (g, h, k))))

leave-IsExclusive :
    (c : Client) (outcome : Outcome) (stage : Stage)
    → processes (some stage) ≡ 0
    → Facts c (some stage)
    → IsExclusive (leave c outcome)
unfolding Facts
leave-IsExclusive c outcome stage halted (g, h, k) = record {
  guarded = refl;
  stopped_once = omega arith;
  answered_once = omega arith;
}

after_launch-IsExclusive :
    (c : Client) (acquisition : Lifecycle)
    → Facts c (some launching)
    → IsExclusive (after_launch c acquisition)
unfolding Facts
after_launch-IsExclusive c live (g, h, k) = record {
  guarded = g;
  stopped_once = omega arith;
  answered_once = k;
}
after_launch-IsExclusive c (aborted reason) (g, h, k) = record {
  guarded = g;
  stopped_once = omega arith;
  answered_once = k;
}

launched-IsExclusive :
    (c : Client) (stage : Option Stage)
    → c.stage ≡ stage
    → IsExclusive c
    → IsExclusive (on_launched c stage)
launched-IsExclusive c none e i = i
launched-IsExclusive c (some launching) e i =
    after_launch-IsExclusive c c.acquisition (facts c (some launching) e i)
launched-IsExclusive c (some running) e i = i
launched-IsExclusive c (some discarding) e i = i
launched-IsExclusive c (some (releasing outcome)) e i = i

launch_failed-IsExclusive :
    (c : Client) (error : Option SidecarSessionError) (stage : Option Stage)
    → c.stage ≡ stage
    → IsExclusive c
    → IsExclusive (on_launch_failed c error stage)
launch_failed-IsExclusive c error none e i = i
launch_failed-IsExclusive c error (some launching) e i =
    leave-IsExclusive c _ launching refl (facts c (some launching) e i)
launch_failed-IsExclusive c error (some running) e i = i
launch_failed-IsExclusive c error (some discarding) e i = i
launch_failed-IsExclusive c error (some (releasing outcome)) e i = i

settled-IsExclusive :
    (c : Client) (outcome : Outcome) (stage : Option Stage)
    → c.stage ≡ stage
    → IsExclusive c
    → IsExclusive (on_settled c outcome stage)
unfolding Facts
settled-IsExclusive c outcome none e i = i
settled-IsExclusive c outcome (some launching) e i = i
settled-IsExclusive c outcome (some running) e i =
    let (g, h, k) = facts c (some running) e i in
    record { guarded = g; stopped_once = omega arith; answered_once = k }
settled-IsExclusive c outcome (some discarding) e i = i
settled-IsExclusive c outcome (some (releasing other)) e i = i

stopped-IsExclusive :
    (c : Client) (stage : Option Stage)
    → c.stage ≡ stage
    → IsExclusive c
    → IsExclusive (on_stopped c stage) × IsExclusive (on_stop_failed c stage)
stopped-IsExclusive c none e i = (i, i)
stopped-IsExclusive c (some launching) e i = (i, i)
stopped-IsExclusive c (some running) e i = (i, i)
stopped-IsExclusive c (some discarding) e i =
    let f = facts c (some discarding) e i in
    (leave-IsExclusive c _ discarding refl f, leave-IsExclusive c _ discarding refl f)
stopped-IsExclusive c (some (releasing outcome)) e i =
    let f = facts c (some (releasing outcome)) e i in
    (
      leave-IsExclusive c _ (releasing outcome) refl f,
      leave-IsExclusive c _ (releasing outcome) refl f,
    )

client_step-IsExclusive :
    (c : Client) (event : ClientEvent) → IsExclusive c → IsExclusive (client_step c event)
unfolding client_step Facts
client_step-IsExclusive c (run_session valid is_aborted) i = call-IsExclusive c valid is_aborted i
client_step-IsExclusive c launched i = launched-IsExclusive c c.stage refl i
client_step-IsExclusive c (launch_failed error) i = launch_failed-IsExclusive c error c.stage refl i
client_step-IsExclusive c (settled outcome) i = settled-IsExclusive c outcome c.stage refl i
client_step-IsExclusive c stopped i = (stopped-IsExclusive c c.stage refl i).0
client_step-IsExclusive c stop_failed i = (stopped-IsExclusive c c.stage refl i).1
client_step-IsExclusive c (abort_request reason) i =
    let (g, h, k) = unchanged c i in
    if-IsExclusive c.active _ _ (λ e. record { guarded = g; stopped_once = h; answered_once = k })
      (λ e. i)
client_step-IsExclusive c time_out i =
    let (g, h, k) = unchanged c i in
    if-IsExclusive c.active _ _ (λ e. record { guarded = g; stopped_once = h; answered_once = k })
      (λ e. i)
client_step-IsExclusive c dispose i =
    let (g, h, k) = unchanged c i in
    if-IsExclusive c.active _ _ (λ e. record { guarded = g; stopped_once = h; answered_once = k })
      (λ e. record { guarded = g; stopped_once = h; answered_once = k })

run_inv :
    (c : Client) (events : List ClientEvent) → IsExclusive c → IsExclusive (run_client c events)
unfolding run_client
run_inv c [] i = i
run_inv c (event ∷ events) i =
    run_inv (client_step c event) events (client_step-IsExclusive c event i)

-- Whatever the order of calls, launches, sessions, stops, aborts and disposals is, the client has at
-- most one call inside and at most one process running: every process that was launched has been
-- stopped exactly once, but for the one of a protocol that runs, and every call that entered has
-- ended exactly once, but for the one inside, which is there just where the guard is active.
pub run_client-IsExclusive :
    (events : List ClientEvent) → IsExclusive (run_client new_client events)
run_client-IsExclusive events =
    run_inv new_client events
      (record { guarded = refl; stopped_once = omega arith; answered_once = omega arith })
