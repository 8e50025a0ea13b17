-- ===== src/Sidecar/Protocol/Conversation.antt =====
-- The conversation that a session is meant to have, said without the machine.
use open_chords.Prelude.{
  ℕ, suc, ◌≡◌, ◌≢◌, Bool, true, false, Option, none, some, List, [], ◌∷◌, arith, eq_iff, includes,
}
use open_chords.Sidecar.Messages.{
  SidecarMessage, handshake, heartbeat, result, remote_error, cancel_ack, cleanup_complete,
  SidecarSessionRequest, SidecarSessionResult, continued, finished, validate_session_message, round,
}

module _ (request : SidecarSessionRequest) where
  -- A handshake of the session.
  abbrev pub IsHandshake : SidecarMessage → Type 0
  IsHandshake (handshake capabilities manifest_hash nonce) =
      (nonce ≡ request.nonce)
      × (manifest_hash ≡ request.manifest_hash)
      × (includes "analysis" capabilities ≡ true)
  IsHandshake _ = true ≡ false

  -- A heartbeat of the session, with the sequence `n`.
  abbrev pub IsHeartbeat : ℕ → SidecarMessage → Type 0
  IsHeartbeat n (heartbeat nonce sequence) = (nonce ≡ request.nonce) × (sequence ≡ n)
  IsHeartbeat n _ = true ≡ false

  -- The result of the session, with the sequence `n`.
  abbrev pub IsResult : ℕ → SidecarMessage → SidecarSessionResult → Type 0
  IsResult n (result artifact base) r =
      (base.nonce ≡ request.nonce)
      × (base.sequence ≡ n)
      × (base.job_id ≡ request.job_id)
      × (base.request_id ≡ request.request_id)
      × (r.artifact ≡ artifact)
      × (r.job_id ≡ request.job_id)
      × (r.request_id ≡ request.request_id)
  IsResult n _ r = true ≡ false

  -- Heartbeats that count on from `n`, and the result that counts on from them.
  pub data Reports : ℕ → List SidecarMessage → SidecarSessionResult → Type 0 where
    reported :
        {n : ℕ} {m : SidecarMessage} {r : SidecarSessionResult}
        → IsResult n m r
        → Reports n (m ∷ []) r
    alive :
        {n : ℕ} {m : SidecarMessage} {ms : List SidecarMessage} {r : SidecarSessionResult}
        → IsHeartbeat n m
        → Reports (suc n) ms r
        → Reports n (m ∷ ms) r

  -- The handshake, and the reports from the sequence 1.
  pub data Converses : List SidecarMessage → SidecarSessionResult → Type 0 where
    greeted :
        {m : SidecarMessage} {ms : List SidecarMessage} {r : SidecarSessionResult}
        → IsHandshake m
        → Reports 1 ms r
        → Converses (m ∷ ms) r

  pub round-handshake :
      (expected : ℕ) (m : SidecarMessage)
      → IsHandshake m
      → round request false expected (some m) ≡ continued true 1
  unfolding round
  round-handshake expected (handshake capabilities manifest_hash nonce) h =
      ground (arith, eq_iff nonce request.nonce, eq_iff manifest_hash request.manifest_hash)
  round-handshake expected (heartbeat nonce sequence) h = cc
  round-handshake expected (result artifact base) h = cc
  round-handshake expected (remote_error code message base) h = cc
  round-handshake expected (cancel_ack base) h = cc
  round-handshake expected (cleanup_complete base) h = cc

  pub round-IsHandshake_inv :
      (expected expected' : ℕ) (accepted : Bool) (m : SidecarMessage)
      → round request false expected (some m) ≡ continued accepted expected'
      → IsHandshake m × (accepted ≡ true) × (expected' ≡ 1)
  unfolding round
  round-IsHandshake_inv expected expected' accepted (handshake capabilities manifest_hash nonce) h =
      ground (arith, eq_iff nonce request.nonce, eq_iff manifest_hash request.manifest_hash)
  round-IsHandshake_inv expected expected' accepted (heartbeat nonce sequence) h = cc
  round-IsHandshake_inv expected expected' accepted (result artifact base) h = cc
  round-IsHandshake_inv expected expected' accepted (remote_error code message base) h = cc
  round-IsHandshake_inv expected expected' accepted (cancel_ack base) h = cc
  round-IsHandshake_inv expected expected' accepted (cleanup_complete base) h = cc

  pub round-heartbeat :
      (n : ℕ) (m : SidecarMessage)
      → IsHeartbeat n m
      → round request true n (some m) ≡ continued true (suc n)
  unfolding round validate_session_message
  round-heartbeat n (heartbeat nonce sequence) h = ground (arith, eq_iff nonce request.nonce)
  round-heartbeat n (handshake capabilities manifest_hash nonce) h = cc
  round-heartbeat n (result artifact base) h = cc
  round-heartbeat n (remote_error code message base) h = cc
  round-heartbeat n (cancel_ack base) h = cc
  round-heartbeat n (cleanup_complete base) h = cc

  pub round-IsHeartbeat_inv :
      (n n' : ℕ) (accepted : Bool) (m : SidecarMessage)
      → round request true n (some m) ≡ continued accepted n'
      → IsHeartbeat n m × (accepted ≡ true) × (n' ≡ suc n)
  unfolding round validate_session_message
  round-IsHeartbeat_inv n n' accepted (heartbeat nonce sequence) h =
      ground (arith, eq_iff nonce request.nonce)
  round-IsHeartbeat_inv n n' accepted (handshake capabilities manifest_hash nonce) h =
      absurd (ground arith)
  round-IsHeartbeat_inv n n' accepted (result artifact base) h = absurd (ground arith)
  round-IsHeartbeat_inv n n' accepted (remote_error code message base) h = absurd (ground arith)
  round-IsHeartbeat_inv n n' accepted (cancel_ack base) h = absurd (ground arith)
  round-IsHeartbeat_inv n n' accepted (cleanup_complete base) h = absurd (ground arith)

  pub round-result :
      (n : ℕ) (m : SidecarMessage) (r : SidecarSessionResult)
      → IsResult n m r
      → round request true n (some m) ≡ finished r
  unfolding round validate_session_message
  round-result n (result artifact base) r h = ground (
    arith,
    eq_iff base.nonce request.nonce,
    eq_iff base.job_id request.job_id,
    eq_iff base.request_id request.request_id,
  )
  round-result n (heartbeat nonce sequence) r h = cc
  round-result n (handshake capabilities manifest_hash nonce) r h = cc
  round-result n (remote_error code message base) r h = cc
  round-result n (cancel_ack base) r h = cc
  round-result n (cleanup_complete base) r h = cc

  pub round-IsResult_inv :
      (n : ℕ) (m : SidecarMessage) (r : SidecarSessionResult)
      → round request true n (some m) ≡ finished r
      → IsResult n m r
  unfolding round validate_session_message
  round-IsResult_inv n (result artifact base) r h = ground (
    arith,
    eq_iff base.nonce request.nonce,
    eq_iff base.job_id request.job_id,
    eq_iff base.request_id request.request_id,
  )
  round-IsResult_inv n (heartbeat nonce sequence) r h = absurd (ground arith)
  round-IsResult_inv n (handshake capabilities manifest_hash nonce) r h = absurd (ground arith)
  round-IsResult_inv n (remote_error code message base) r h = absurd (ground arith)
  round-IsResult_inv n (cancel_ack base) r h = absurd (ground arith)
  round-IsResult_inv n (cleanup_complete base) r h = absurd (ground arith)

  pub round-unaccepted :
      (n : ℕ) (m : Option SidecarMessage) (r : SidecarSessionResult)
      → round request false n m ≢ finished r
  unfolding round
  round-unaccepted n none r h = cc
  round-unaccepted n (some (handshake capabilities manifest_hash nonce)) r h = absurd (ground arith)
  round-unaccepted n (some (heartbeat nonce sequence)) r h = cc
  round-unaccepted n (some (result artifact base)) r h = cc
  round-unaccepted n (some (remote_error code message base)) r h = cc
  round-unaccepted n (some (cancel_ack base)) r h = cc
  round-unaccepted n (some (cleanup_complete base)) r h = cc
