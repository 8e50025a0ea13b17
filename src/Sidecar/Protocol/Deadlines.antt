-- ===== src/Sidecar/Protocol/Deadlines.antt =====
-- The timers end a session, whatever the process does not do.
use open_chords.Sidecar.Protocol.Work.{
  waits_left, work, take_active-lt, take_ack-lt, take_cleanup-lt,
}
use open_chords.Sidecar.Protocol.Looks.{
  Looks, look_messages-Looks, look_signals-Looks, look_expired-Looks, Sees_lem,
}
use open_chords.Prelude.{
  ◌∙◌, ℕ, suc, ◌+◌, ◌≤◌, ◌<◌, ◌≡◌, refl, sym, ap, subst, ◌⊎◌, inl, inr, Bool, true, false, Option,
  List, [], ◌∷◌, arith, length, Bool-cases, if◌then◌else◌,
}
use open_chords.Sidecar.{timeout}
use open_chords.Sidecar.Messages.{SidecarMessage, SidecarSessionRequest}
use open_chords.Sidecar.Protocol.{
  Phase, starting, active, cancelling, acking, cleaning, returned, failed, rejected, Session,
  Action, expire, resume, written, write_failed, after_write, deadline_code, look_active,
  look_inbox, is_waiting, resumed, can_expire, step, run,
}

-- The function has returned or thrown.
abbrev pub IsOver : Phase → Type 0
IsOver (returned r) = true ≡ true
IsOver (failed failure) = true ≡ true
IsOver rejected = true ≡ true
IsOver _ = true ≡ false

-- The function does not wait for a write.
abbrev HasWritten : Phase → Type 0
HasWritten starting = true ≡ false
HasWritten (cancelling failure expected) = true ≡ false
HasWritten _ = true ≡ true

-- A write ends, in success or not.
abbrev pub write_end : {J : Type 0} → Bool → Action J
write_end true = written
write_end false = write_failed

-- A round: a write that is pending ends, the timer runs out, where the function waits, and the
-- function goes on. There is a round for each of the Booleans.
unfoldable pub deadlines : {J : Type 0} → List Bool → List (Action J)
deadlines [] = []
deadlines (succeeds ∷ writes) = write_end succeeds ∷ expire ∷ resume ∷ deadlines writes

module _ {J : Type 0} (validate : J → Option SidecarMessage) (request : SidecarSessionRequest) where
  -- The timer and the function that goes on, from the phase `p`.
  abbrev ticked : Phase → Session J → Session J
  unfolding resumed
  ticked p s =
      resumed validate request p (if can_expire p s then record s { expired = true } else s)

  tick_lem :
      (s : Session J)
      → step validate request (step validate request s expire) resume ≡ ticked s.phase s
  unfolding step
  tick_lem s = elim (Bool-cases (can_expire s.phase s)) [
    | inl runs_out ↦ rw runs_out refl
    | inr kept ↦ rw kept refl
  ]

  inbox-Looks : (s : Session J) → Looks s.messages (look_inbox s)
  inbox-Looks s =
      look_expired-Looks s.messages s.expired timeout _
        (look_messages-Looks s.messages s.failure s.ended)

  active-Looks : (accepted : Bool) (s : Session J) → Looks s.messages (look_active accepted s)
  active-Looks accepted s = look_expired-Looks s.messages s.expired (deadline_code accepted) _ (
      look_signals-Looks s.messages s.lifecycle s.request_aborted _
        (look_messages-Looks s.messages s.failure s.ended))

  ticked-lt :
      (p : Phase) (s : Session J)
      → s.phase ≡ p
      → HasWritten p
      → IsOver (ticked p s).phase ⊎ (work (ticked p s) < length s.messages + waits_left p)
  unfolding resumed
  ticked-lt (active accepted expected) s e h =
      elim (Bool-cases (is_waiting (look_active accepted s))) [
        | inl w ↦ rw w (
            inr (
              take_active-lt validate request (record s { expired = true }) accepted expected
                (look_active accepted (record s { expired = true })) refl))
        | inr w ↦ rw w (
            inr (
              take_active-lt validate request s accepted expected (look_active accepted s)
                (Sees_lem s.messages (look_active accepted s) w (active-Looks accepted s))))
      ]
  ticked-lt (acking failure expected) s e h = elim (Bool-cases (is_waiting (look_inbox s))) [
    | inl w ↦ rw w (
        inr (
          take_ack-lt validate request (record s { expired = true }) failure expected
            (look_inbox (record s { expired = true })) refl))
    | inr w ↦ rw w (
        inr (
          take_ack-lt validate request s failure expected (look_inbox s)
            (Sees_lem s.messages (look_inbox s) w (inbox-Looks s))))
  ]
  ticked-lt (cleaning failure expected) s e h = elim (Bool-cases (is_waiting (look_inbox s))) [
    | inl w ↦ rw w (
        inr (
          take_cleanup-lt validate request (record s { expired = true }) failure expected
            (look_inbox (record s { expired = true })) refl))
    | inr w ↦ rw w (
        inr (
          take_cleanup-lt validate request s failure expected (look_inbox s)
            (Sees_lem s.messages (look_inbox s) w (inbox-Looks s))))
  ]
  ticked-lt starting s e h = absurd (ground arith)
  ticked-lt (cancelling failure expected) s e h = absurd (ground arith)
  ticked-lt (returned r) s e h = inl (rw e refl)
  ticked-lt (failed failure) s e h = inl (rw e refl)
  ticked-lt rejected s e h = inl (rw e refl)

  waits_left_le : (p : Phase) (n : ℕ) → n + waits_left p ≤ n + 3
  waits_left_le starting n = omega arith
  waits_left_le (active accepted expected) n = omega arith
  waits_left_le (cancelling failure expected) n = omega arith
  waits_left_le (acking failure expected) n = omega arith
  waits_left_le (cleaning failure expected) n = omega arith
  waits_left_le (returned r) n = omega arith
  waits_left_le (failed failure) n = omega arith
  waits_left_le rejected n = omega arith

  over_lem : (p : Phase) → waits_left p ≡ 0 → IsOver p
  over_lem starting h = absurd (omega arith)
  over_lem (cancelling failure expected) h = absurd (omega arith)
  over_lem (active accepted expected) h = absurd (omega arith)
  over_lem (acking failure expected) h = absurd (omega arith)
  over_lem (cleaning failure expected) h = absurd (omega arith)
  over_lem (returned r) h = refl
  over_lem (failed failure) h = refl
  over_lem rejected h = refl

  ticked-IsOver : (p : Phase) (s : Session J) → s.phase ≡ p → IsOver p → IsOver (ticked p s).phase
  unfolding resumed
  ticked-IsOver (active accepted expected) s e h = absurd (ground arith)
  ticked-IsOver (acking failure expected) s e h = absurd (ground arith)
  ticked-IsOver (cleaning failure expected) s e h = absurd (ground arith)
  ticked-IsOver starting s e h = absurd (ground arith)
  ticked-IsOver (cancelling failure expected) s e h = absurd (ground arith)
  ticked-IsOver (returned r) s e h = rw e refl
  ticked-IsOver (failed failure) s e h = rw e refl
  ticked-IsOver rejected s e h = rw e refl

  abbrev next_phase : Bool → Phase
  next_phase true = active false 0
  next_phase false = rejected

  -- The state in which a write has ended, and a round from it.
  abbrev ended : Bool → Session J → Session J
  ended succeeds s = record s { phase = after_write s.phase (next_phase succeeds) }

  abbrev rounded : Bool → Session J → Session J
  rounded succeeds s = ticked (ended succeeds s).phase (ended succeeds s)

  write_lem :
      (succeeds : Bool) (s : Session J)
      → step validate request s (write_end succeeds) ≡ ended succeeds s
  unfolding step
  write_lem true s = refl
  write_lem false s = refl

  after_write_lem :
      (succeeds : Bool) (p : Phase)
      → HasWritten (after_write p (next_phase succeeds))
        × (waits_left (after_write p (next_phase succeeds)) ≤ waits_left p)
  after_write_lem true starting = (refl, omega arith)
  after_write_lem false starting = (refl, omega arith)
  after_write_lem succeeds (active accepted expected) = (refl, omega arith)
  after_write_lem succeeds (cancelling failure expected) = (refl, omega arith)
  after_write_lem succeeds (acking failure expected) = (refl, omega arith)
  after_write_lem succeeds (cleaning failure expected) = (refl, omega arith)
  after_write_lem succeeds (returned r) = (refl, omega arith)
  after_write_lem succeeds (failed failure) = (refl, omega arith)
  after_write_lem succeeds rejected = (refl, omega arith)

  after_write-IsOver : (p next : Phase) → IsOver p → IsOver (after_write p next)
  after_write-IsOver starting next h = absurd (ground arith)
  after_write-IsOver (active accepted expected) next h = h
  after_write-IsOver (cancelling failure expected) next h = h
  after_write-IsOver (acking failure expected) next h = h
  after_write-IsOver (cleaning failure expected) next h = h
  after_write-IsOver (returned r) next h = h
  after_write-IsOver (failed failure) next h = h
  after_write-IsOver rejected next h = h

  deadlines-cons :
      (succeeds : Bool) (writes : List Bool) (s : Session J)
      → run validate request (rounded succeeds s) (deadlines writes)
        ≡ run validate request s (deadlines (succeeds ∷ writes))
  unfolding run deadlines
  deadlines-cons succeeds writes s = sym (
      ap
        (λ t.
          run validate request (step validate request (step validate request t expire) resume)
            (deadlines writes))
        (write_lem succeeds s)
      ∙ ap (λ t. run validate request t (deadlines writes)) (tick_lem (ended succeeds s)))

  round_ends :
      (n : ℕ) (succeeds : Bool) (s : Session J)
      → IsOver s.phase ⊎ (work s ≤ suc n)
      → IsOver (rounded succeeds s).phase ⊎ (work (rounded succeeds s) ≤ n)
  round_ends n succeeds s (inl over) = inl (
      ticked-IsOver (ended succeeds s).phase (ended succeeds s) refl
        (after_write-IsOver s.phase (next_phase succeeds) over))
  round_ends n succeeds s (inr bound) =
      let (has_written, less_work) = after_write_lem succeeds s.phase in
      elim (ticked-lt (ended succeeds s).phase (ended succeeds s) refl has_written) [
        | inl over ↦ inl over
        | inr less ↦ inr (omega arith)
      ]

  deadlines_end :
      (writes : List Bool) (s : Session J)
      → IsOver s.phase ⊎ (work s ≤ length writes)
      → IsOver (run validate request s (deadlines writes)).phase
  unfolding run deadlines
  deadlines_end [] s (inl over) = over
  deadlines_end [] s (inr bound) = over_lem s.phase (omega arith)
  deadlines_end (succeeds ∷ writes) s h =
      subst (λ t. IsOver t.phase) (deadlines-cons succeeds writes s)
        (deadlines_end writes (rounded succeeds s) (round_ends (length writes) succeeds s h))

  -- From any state of a session, if the process writes nothing more, each write to it ends, in success
  -- or not, and each wait for it runs into its timer, the function has returned or thrown after as many
  -- rounds of these as there are messages in the inbox, and three more.
  pub run-IsOver :
      (s : Session J) (writes : List Bool)
      → length s.messages + 3 ≤ length writes
      → IsOver (run validate request s (deadlines writes)).phase
  run-IsOver s writes enough =
      deadlines_end writes s (inr (omega (arith, waits_left_le s.phase (length s.messages))))
