-- ===== src/Sidecar/Protocol/Completion.antt =====
-- A process that speaks as it is meant to is heard to the end.
use open_chords.Prelude.{
  ℕ, suc, ◌≡◌, refl, ap, sym, ◌∙◌, Bool, true, false, Option, some, List, [], ◌∷◌, ◌++◌, map,
}
use mathlib.Core.List.{append_assoc, append-nil}
use open_chords.Sidecar.{given}
use open_chords.Sidecar.Messages.{
  SidecarMessage, SidecarSessionRequest, SidecarSessionResult, Round, continued, finished, round,
}
use open_chords.Sidecar.Frames.{Ending, closed, never, failed, Decoded, decode_sidecar_frames}
use open_chords.Sidecar.Frames.Chunks.{concat}
use open_chords.Sidecar.Frames.RoundTrip.{encode_all, decode-encode}
use open_chords.Sidecar.Protocol.{
  Phase, active, returned, Session, Action, arrive, pump_failed, pump_ended, written, resume,
  after_round, resumed, step, run, start_session,
}
use open_chords.Sidecar.Protocol.Conversation.{
  Reports, reported, alive, Converses, greeted, round-handshake, round-heartbeat, round-result,
}

-- What `#pump` does with what the decoder yields.
abbrev pub pump_end : {J : Type 0} → Ending → List (Action J)
pump_end closed = pump_ended ∷ []
pump_end never = []
pump_end (failed e) = pump_failed e ∷ []

abbrev pub pump : {J : Type 0} → Decoded J → List (Action J)
pump d = map arrive d.messages ++ pump_end d.ending

-- As many looks at the inbox as there are messages.
abbrev pub looks : {J : Type 0} → List J → List (Action J)
looks js = map (λ j. resume) js

-- A session without trouble, with messages in its inbox.
abbrev quiet : {J : Type 0} → List J → Bool → Phase → Session J
quiet js ended p = record start_session { messages = js; ended = ended; phase = p }

module _ {J : Type 0} (validate : J → Option SidecarMessage) (request : SidecarSessionRequest) where
  look_step :
      (j : J) (js : List J) (ended accepted : Bool) (n : ℕ) (m : SidecarMessage) (o : Round)
      → validate j ≡ some m
      → round request accepted n (some m) ≡ o
      → step validate request (quiet (j ∷ js) ended (active accepted n)) resume
        ≡ after_round (quiet js ended (active accepted n)) o
  unfolding step resumed
  look_step j js ended accepted n m o valid e =
      ap (after_round (quiet js ended (active accepted n)))
        (ap (round request accepted n) valid ∙ e)

  -- The first look takes the first message; the others follow.
  looked :
      (j : J) (js : List J) (ended accepted : Bool) (n : ℕ) (m : SidecarMessage) (o : Round)
      (r : SidecarSessionResult)
      → validate j ≡ some m
      → round request accepted n (some m) ≡ o
      → (run validate request (after_round (quiet js ended (active accepted n)) o) (looks js)).phase
        ≡ returned r
      → (run validate request (quiet (j ∷ js) ended (active accepted n)) (looks (j ∷ js))).phase
        ≡ returned r
  unfolding run
  looked j js ended accepted n m o r valid e later =
      ap (λ s. (run validate request s (looks js)).phase)
        (look_step j js ended accepted n m o valid e)
      ∙ later

  hear-Reports :
      (n : ℕ) (ms : List SidecarMessage) (r : SidecarSessionResult) (js : List J) (ended : Bool)
      → Reports request n ms r
      → map validate js ≡ map (λ m. some m) ms
      → (run validate request (quiet js ended (active true n)) (looks js)).phase ≡ returned r
  unfolding run
  hear-Reports n ms r [] ended (reported h) e = cc
  hear-Reports n ms r [] ended (alive h reports) e = cc
  hear-Reports n ms r (j ∷ []) ended (reported {m} h) e =
      looked j [] ended true n m (finished r) r (cc) (round-result request n m r h) refl
  hear-Reports n ms r (j ∷ k ∷ js) ended (reported h) e = cc
  hear-Reports n ms r (j ∷ js) ended (alive {m} {ms = later} h reports) e =
      looked j js ended true n m (continued true (suc n)) r (cc) (round-heartbeat request n m h)
        (hear-Reports (suc n) later r js ended reports cc)

  hear_all :
      (ms : List SidecarMessage) (r : SidecarSessionResult) (js : List J) (ended : Bool)
      → Converses request ms r
      → map validate js ≡ map (λ m. some m) ms
      → (run validate request (quiet js ended (active false 0)) (looks js)).phase ≡ returned r
  hear_all ms r [] ended (greeted h reports) e = cc
  hear_all ms r (j ∷ js) ended (greeted {m} {ms = later} h reports) e =
      looked j js ended false 0 m (continued true 1) r (cc) (round-handshake request 0 m h)
        (hear-Reports 1 later r js ended reports cc)

  arrived :
      (js done : List J) (p : Phase) (actions : List (Action J))
      → run validate request (quiet done false p) (map arrive js ++ actions)
        ≡ run validate request (quiet (done ++ js) false p) actions
  unfolding run step
  arrived [] done p actions =
      ap (λ js. run validate request (quiet js false p) actions) (sym (append-nil done))
  arrived (j ∷ js) done p actions =
      arrived js (done ++ (j ∷ [])) p actions
      ∙ ap (λ js. run validate request (quiet js false p) actions) (append_assoc done (j ∷ []) js)

  -- Where the process writes, in frames that are cut into chunks anyhow, the messages of a conversation
  -- that ends with the result, and then closes its output, the session returns the result when it has
  -- looked at its inbox once for each message.
  pub run-decode :
      (parse : List ℕ → Option J) (stringify : J → List ℕ) (chunks : List (List ℕ)) (js : List J)
      (ms : List SidecarMessage) (r : SidecarSessionResult)
      → ((j : J) → parse (stringify j) ≡ some j)
      → encode_all stringify js ≡ given (concat chunks)
      → map validate js ≡ map (λ m. some m) ms
      → Converses request ms r
      → (run validate request start_session
          (written ∷ (pump (decode_sidecar_frames parse chunks) ++ looks js))).phase
        ≡ returned r
  unfolding run step
  run-decode parse stringify chunks js ms r inverse encoded valid conversation =
      let decoded = decode-encode stringify parse js chunks inverse encoded in
      ap (λ d. (run validate request (quiet [] false (active false 0)) (pump d ++ looks js)).phase)
        decoded
      ∙ ap (λ actions. (run validate request (quiet [] false (active false 0)) actions).phase)
          (append_assoc (map arrive js) (pump_ended ∷ []) (looks js))
      ∙ ap (λ s. s.phase) (arrived js [] (active false 0) (pump_ended ∷ looks js))
      ∙ hear_all ms r js true conversation valid
