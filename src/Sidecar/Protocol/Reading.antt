-- ===== src/Sidecar/Protocol/Reading.antt =====
-- A session that returns has read the conversation that it is meant to have.
use open_chords.Prelude.{
  ℕ, ◌≡◌, refl, ap, sym, subst, ◌∙◌, inl, inr, Bool, true, false, Option, none, some, List, [], ◌∷◌,
  ◌++◌, map, arith, Bool-cases,
}
use mathlib.Core.List.{append-nil}
use open_chords.Sidecar.{SidecarSessionError}
use open_chords.Sidecar.Messages.{
  SidecarMessage, SidecarSessionRequest, SidecarSessionResult, Round, continued, finished, broken,
  round,
}
use open_chords.Sidecar.Protocol.{
  Phase, starting, active, cancelling, acking, cleaning, returned, failed, rejected, Session,
  Action, arrive, pump_failed, pump_ended, written, write_failed, abort_request, expire, resume,
  abort_lifecycle, look_active, look_inbox, is_cooperative, give_up, ack_round, cleanup_round,
  terminal_failure, after_round, check_message, wanted, is_ack, is_cleanup, take_active, take_ack,
  take_cleanup, resumed, can_expire, after_write, step, run, start_session,
}
use open_chords.Sidecar.Inbox.{Look, took, stopped, waits}
use open_chords.Sidecar.Protocol.Conversation.{
  Reports, reported, alive, Converses, greeted, round-IsHandshake_inv, round-IsHeartbeat_inv,
  round-IsResult_inv, round-unaccepted,
}

module _ {J : Type 0} where
  abbrev pub taken_of : Look J → List J
  taken_of (took m rest) = m ∷ []
  taken_of _ = []

  -- The messages that the loop takes from the inbox in a step, and in a run.
  abbrev pub taken_by : Phase → Session J → List J
  taken_by (active accepted expected) s = taken_of (look_active accepted s)
  taken_by _ s = []

  abbrev pub taken : Session J → Action J → List J
  taken s resume = taken_by s.phase s
  taken s _ = []

abbrev Owes : SidecarSessionRequest → Phase → List SidecarMessage → SidecarSessionResult → Type 0
Owes request starting ms r = Converses request ms r
Owes request (active false expected) ms r = Converses request ms r
Owes request (active true expected) ms r = Reports request expected ms r
Owes request (returned r') ms r = (ms ≡ []) × (r' ≡ r)
Owes request _ ms r = true ≡ false

module _ {J : Type 0} (validate : J → Option SidecarMessage) (request : SidecarSessionRequest) where
  abbrev pub reads : Session J → List (Action J) → List J
  reads s [] = []
  reads s (a ∷ actions) = taken s a ++ reads (step validate request s a) actions

  give_up-Owes :
      (s : Session J) (failure : SidecarSessionError) (expected : ℕ) (ms : List SidecarMessage)
      (r : SidecarSessionResult)
      → Owes request (give_up s failure expected).phase ms r
      → true ≡ false
  give_up-Owes s failure expected ms r h = elim (Bool-cases (is_cooperative failure.code)) [
    | inl asks ↦ rw asks at h
    | inr throws ↦ rw throws at h
  ]

  continued-Owes :
      (accepted accepted' : Bool) (expected expected' : ℕ) (v : Option SidecarMessage)
      (ms : List SidecarMessage) (r : SidecarSessionResult)
      → round request accepted expected v ≡ continued accepted' expected'
      → Owes request (active accepted' expected') ms r
      → (message : SidecarMessage) × (v ≡ some message)
        × Owes request (active accepted expected) (message ∷ ms) r
  unfolding round
  continued-Owes accepted accepted' expected expected' none ms r e h = cc
  continued-Owes false accepted' expected expected' (some m) ms r e h =
      let (greeting, a, n) = round-IsHandshake_inv request expected expected' accepted' m e in
      (m, refl, greeted greeting (rw (a, n) at h))
  continued-Owes true accepted' expected expected' (some m) ms r e h =
      let (beat, a, n) = round-IsHeartbeat_inv request expected expected' accepted' m e in
      (m, refl, alive beat (rw (a, n) at h))

  finished-Owes :
      (accepted : Bool) (expected : ℕ) (v : Option SidecarMessage) (r : SidecarSessionResult)
      → round request accepted expected v ≡ finished r
      → (message : SidecarMessage) × (v ≡ some message)
        × Owes request (active accepted expected) (message ∷ []) r
  unfolding round
  finished-Owes accepted expected none r e = cc
  finished-Owes false expected (some m) r e =
      absurd (round-unaccepted request expected (some m) r e)
  finished-Owes true expected (some m) r e =
      (m, refl, reported (round-IsResult_inv request expected m r e))

  round-Owes :
      (s : Session J) (accepted : Bool) (expected : ℕ) (v : Option SidecarMessage) (o : Round)
      (ms : List SidecarMessage) (r : SidecarSessionResult)
      → round request accepted expected v ≡ o
      → Owes request (after_round s o).phase ms r
      → (message : SidecarMessage) × (v ≡ some message)
        × Owes request (active accepted expected) (message ∷ ms) r
  round-Owes s accepted expected v (continued accepted' expected') ms r e h =
      continued-Owes accepted accepted' expected expected' v ms r e h
  round-Owes s accepted expected v (finished r') ms r e (none_left, same) =
      rw none_left (finished-Owes accepted expected v r (e ∙ ap (λ r. finished r) same))
  round-Owes s accepted expected v (broken failure expected') ms r e h =
      absurd (ground (arith, give_up-Owes s (terminal_failure s failure) expected' ms r h))

  -- What a step reads, before what is owed after it.
  abbrev Reads : List J → Phase → List SidecarMessage → SidecarSessionResult → Type 0
  Reads js p ms r =
      (read : List SidecarMessage) × (map validate js ≡ map (λ m. some m) read)
      × Owes request p (read ++ ms) r

  active-Owes :
      (s : Session J) (accepted : Bool) (expected : ℕ) (look : Look J) (ms : List SidecarMessage)
      (r : SidecarSessionResult)
      → s.phase ≡ active accepted expected
      → Owes request (take_active validate request s accepted expected look).phase ms r
      → Reads (taken_of look) (active accepted expected) ms r
  active-Owes s accepted expected waits ms r e h = ([], refl, subst (λ p. Owes request p ms r) e h)
  active-Owes s accepted expected (stopped failure) ms r e h =
      absurd (ground (arith, give_up-Owes s (terminal_failure s failure) expected ms r h))
  active-Owes s accepted expected (took m rest) ms r e h =
      let (message, valid, owed) =
        round-Owes (record s { messages = rest }) accepted expected (validate m) _ ms r refl h in
      (message ∷ [], ap (λ v. v ∷ []) valid, owed)

  ack-Owes :
      (s : Session J) (failure : SidecarSessionError) (expected : ℕ)
      (check : Option SidecarSessionError) (last : Bool) (ms : List SidecarMessage)
      (r : SidecarSessionResult)
      → Owes request (ack_round s failure expected check last).phase ms r
      → true ≡ false
  ack-Owes s failure expected (some error) last ms r h = h
  ack-Owes s failure expected none true ms r h = h
  ack-Owes s failure expected none false ms r h = h

  cleanup-Owes :
      (s : Session J) (failure : SidecarSessionError) (expected : ℕ)
      (check : Option SidecarSessionError) (last : Bool) (ms : List SidecarMessage)
      (r : SidecarSessionResult)
      → Owes request (cleanup_round s failure expected check last).phase ms r
      → true ≡ false
  cleanup-Owes s failure expected (some error) last ms r h = h
  cleanup-Owes s failure expected none true ms r h = h
  cleanup-Owes s failure expected none false ms r h = h

  take_ack-Owes :
      (s : Session J) (failure : SidecarSessionError) (expected : ℕ) (look : Look J)
      (ms : List SidecarMessage) (r : SidecarSessionResult)
      → s.phase ≡ acking failure expected
      → Owes request (take_ack validate request s failure expected look).phase ms r
      → true ≡ false
  take_ack-Owes s failure expected waits ms r e h = subst (λ p. Owes request p ms r) e h
  take_ack-Owes s failure expected (stopped error) ms r e h = h
  take_ack-Owes s failure expected (took m rest) ms r e h =
      ack-Owes (record s { messages = rest }) failure expected
        (check_message request expected (validate m)) (wanted is_ack (validate m)) ms r h

  take_cleanup-Owes :
      (s : Session J) (failure : SidecarSessionError) (expected : ℕ) (look : Look J)
      (ms : List SidecarMessage) (r : SidecarSessionResult)
      → s.phase ≡ cleaning failure expected
      → Owes request (take_cleanup validate request s failure expected look).phase ms r
      → true ≡ false
  take_cleanup-Owes s failure expected waits ms r e h = subst (λ p. Owes request p ms r) e h
  take_cleanup-Owes s failure expected (stopped error) ms r e h = h
  take_cleanup-Owes s failure expected (took m rest) ms r e h =
      cleanup-Owes (record s { messages = rest }) failure expected
        (check_message request expected (validate m)) (wanted is_cleanup (validate m)) ms r h

  resumed-Owes :
      (p : Phase) (s : Session J) (ms : List SidecarMessage) (r : SidecarSessionResult)
      → s.phase ≡ p
      → Owes request (resumed validate request p s).phase ms r
      → Reads (taken_by p s) p ms r
  unfolding resumed
  resumed-Owes starting s ms r e h = ([], refl, subst (λ p. Owes request p ms r) e h)
  resumed-Owes (active accepted expected) s ms r e h =
      active-Owes s accepted expected (look_active accepted s) ms r e h
  resumed-Owes (cancelling failure expected) s ms r e h =
      ([], refl, subst (λ p. Owes request p ms r) e h)
  resumed-Owes (acking failure expected) s ms r e h =
      ([], refl, take_ack-Owes s failure expected (look_inbox s) ms r e h)
  resumed-Owes (cleaning failure expected) s ms r e h =
      ([], refl, take_cleanup-Owes s failure expected (look_inbox s) ms r e h)
  resumed-Owes (returned r') s ms r e h = ([], refl, subst (λ p. Owes request p ms r) e h)
  resumed-Owes (failed failure) s ms r e h = ([], refl, subst (λ p. Owes request p ms r) e h)
  resumed-Owes rejected s ms r e h = ([], refl, subst (λ p. Owes request p ms r) e h)

  written-Owes :
      (p next : Phase) (ms : List SidecarMessage) (r : SidecarSessionResult)
      → (Owes request next ms r → Converses request ms r)
      → Owes request (after_write p next) ms r
      → Owes request p ms r
  written-Owes starting next ms r start h = start h
  written-Owes (active accepted expected) next ms r start h = h
  written-Owes (cancelling failure expected) next ms r start h = h
  written-Owes (acking failure expected) next ms r start h = h
  written-Owes (cleaning failure expected) next ms r start h = h
  written-Owes (returned r') next ms r start h = h
  written-Owes (failed failure) next ms r start h = h
  written-Owes rejected next ms r start h = h

  step-Owes :
      (s : Session J) (a : Action J) (ms : List SidecarMessage) (r : SidecarSessionResult)
      → Owes request (step validate request s a).phase ms r
      → Reads (taken s a) s.phase ms r
  unfolding step
  step-Owes s (arrive m) ms r h = ([], refl, h)
  step-Owes s (pump_failed e) ms r h = ([], refl, h)
  step-Owes s pump_ended ms r h = ([], refl, h)
  step-Owes s abort_request ms r h = ([], refl, h)
  step-Owes s (abort_lifecycle reason) ms r h = ([], refl, h)
  step-Owes s written ms r h = ([], refl, written-Owes s.phase (active false 0) ms r (λ h. h) h)
  step-Owes s write_failed ms r h =
      ([], refl, written-Owes s.phase rejected ms r (λ h. absurd (ground arith)) h)
  step-Owes s expire ms r h = elim (Bool-cases (can_expire s.phase s)) [
    | inl runs_out ↦ ([], refl, rw runs_out at h)
    | inr kept ↦ ([], refl, rw kept at h)
  ]
  step-Owes s resume ms r h = resumed-Owes s.phase s ms r refl h

  map-append : (xs ys : List J) → map validate (xs ++ ys) ≡ map validate xs ++ map validate ys
  map-append [] ys = refl
  map-append (x ∷ xs) ys = ap (λ zs. validate x ∷ zs) (map-append xs ys)

  some-append :
      (xs ys : List SidecarMessage)
      → map (λ (m : SidecarMessage). some m) (xs ++ ys)
        ≡ map (λ m. some m) xs ++ map (λ m. some m) ys
  some-append [] ys = refl
  some-append (x ∷ xs) ys = ap (λ zs. some x ∷ zs) (some-append xs ys)

  run-Owes :
      (s : Session J) (actions : List (Action J)) (r : SidecarSessionResult)
      → (run validate request s actions).phase ≡ returned r
      → Reads (reads s actions) s.phase [] r
  unfolding run
  run-Owes s [] r h = ([], refl, rw h (refl, refl))
  run-Owes s (a ∷ actions) r h =
      let (later, valid, owed) = run-Owes (step validate request s a) actions r h in
      let nothing = append-nil later in
      let (first, read, owes) =
        step-Owes s a later r
          (subst (λ ms. Owes request (step validate request s a).phase ms r) nothing owed) in
      (
        first ++ later,
        map-append (taken s a) (reads (step validate request s a) actions)
            ∙ ap (λ xs. xs ++ map validate (reads (step validate request s a) actions)) read
            ∙ ap (λ ys. map (λ m. some m) first ++ ys) valid
            ∙ sym (some-append first later),
        subst (λ ms. Owes request s.phase ms r) (sym (append-nil (first ++ later))) owes,
      )

  -- A session that returns a result, whatever the order of the steps was, has read just these messages
  -- in its loop: a handshake of the session, heartbeats that count from 1, and the result, which has the
  -- ids of the request.
  pub run-Converses :
      (actions : List (Action J)) (r : SidecarSessionResult)
      → (run validate request start_session actions).phase ≡ returned r
      → (ms : List SidecarMessage) × (map validate (reads start_session actions)
          ≡ map (λ m. some m) ms)
        × Converses request ms r
  run-Converses actions r h =
      let (ms, valid, owed) = run-Owes start_session actions r h in
      (ms, valid, subst (λ ms. Converses request ms r) (append-nil ms) owed)
