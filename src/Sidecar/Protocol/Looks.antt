-- ===== src/Sidecar/Protocol/Looks.antt =====
-- What a look at the inbox says of its messages.
use open_chords.Prelude.{◌≡◌, refl, Bool, true, false, Option, none, some, List, [], ◌∷◌, arith}
use open_chords.Sidecar.{SidecarSessionError, SidecarSessionErrorCode}
use open_chords.Sidecar.Protocol.{is_waiting}
use open_chords.Sidecar.Inbox.{
  Lifecycle, live, aborted, Look, took, stopped, waits, look_messages, look_signals, look_expired,
}

-- A look that does not wait, at these messages.
abbrev pub Sees : {J : Type 0} → List J → Look J → Type 0
Sees messages (took m rest) = messages ≡ m ∷ rest
Sees messages (stopped failure) = true ≡ true
Sees messages waits = true ≡ false

abbrev pub Looks : {J : Type 0} → List J → Look J → Type 0
Looks messages waits = true ≡ true
Looks messages look = Sees messages look

module _ {J : Type 0} where
  pub look_messages-Looks :
      (messages : List J) (failure : Option SidecarSessionError) (ended : Bool)
      → Looks messages (look_messages messages failure ended)
  look_messages-Looks (m ∷ rest) failure ended = refl
  look_messages-Looks [] (some failure) ended = refl
  look_messages-Looks [] none true = refl
  look_messages-Looks [] none false = refl

  pub look_signals-Looks :
      (messages : List J) (lifecycle : Lifecycle) (request_aborted : Bool) (look : Look J)
      → Looks messages look
      → Looks messages (look_signals lifecycle request_aborted look)
  look_signals-Looks messages (aborted reason) request_aborted look h = refl
  look_signals-Looks messages live true look h = refl
  look_signals-Looks messages live false look h = h

  pub look_expired-Looks :
      (messages : List J) (expired : Bool) (code : SidecarSessionErrorCode) (look : Look J)
      → Looks messages look
      → Looks messages (look_expired expired code look)
  look_expired-Looks messages true code look h = refl
  look_expired-Looks messages false code look h = h

  pub Sees_lem :
      (messages : List J) (look : Look J)
      → is_waiting look ≡ false
      → Looks messages look
      → Sees messages look
  Sees_lem messages waits w h = absurd (ground arith)
  Sees_lem messages (took m rest) w h = h
  Sees_lem messages (stopped failure) w h = h
