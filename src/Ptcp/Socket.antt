-- ===== src/Ptcp/Socket.antt =====
-- `ptcp_request` and `ptcp_read` of rust-engine/src/ptcp.rs: what they make of the results that the
-- UDP socket gives, one after the other, and the lines that go to the standard output.
pub mod Exchange
use dahua_p2p_bridge.Common.{
  ◌∙◌, ℕ, zero, suc, ◌<◌, ◌≤◌, ◌≡◌, refl, ◌⊎◌, inl, inr, ◌||◌, List, [], ◌∷◌, ◌++◌, All, ltb, ◌==◌,
  if◌then◌else◌, arith, Option, none, some, Result, ok, panic,
}
use dahua_p2p_bridge.Bytes.{codes}
use dahua_p2p_bridge.Ptcp.Wire.{PtcpPacket, serialize_packet, parse_packet}
use dahua_p2p_bridge.Ptcp.Print.{print_packet, try_print_data}
use dahua_p2p_bridge.Settings.{packet_log_enabled, packet_debug_enabled, idle_reconnect_seconds}
use dahua_p2p_bridge.Ptcp.Session.{from_secs}

-- How a call ends: with a value, with the exit of the process, or not yet.
pub data Ending {ℓ} (A : Type ℓ) : Type ℓ where
  returned : A → Ending A
  exited : ℕ → Ending A
  pending : Ending A

-- A result of `send`.
pub data SendResult : Type 0 where
  accepted : SendResult
  refused : SendResult
  failed : SendResult

-- The loop over the attempts; `returned` holds the datagram that the socket took.
unfoldable pub attempt_send : List ℕ → ℕ → List SendResult → Ending (List ℕ)
attempt_send datagram zero results = exited 75
attempt_send datagram (suc attempts) [] = pending
attempt_send datagram (suc attempts) (accepted ∷ results) = returned datagram
attempt_send datagram (suc attempts) (refused ∷ results) = attempt_send datagram attempts results
attempt_send datagram (suc attempts) (failed ∷ results) = exited 75

-- The lines for a packet that is logged.
abbrev pub log_lines : List ℕ → List ℕ → PtcpPacket → List (List ℕ)
log_lines mark peer packet =
    (mark ++ peer) ∷ (print_packet packet ∷ (try_print_data packet.body ++ (codes "---" ∷ [])))

-- `restart_on_socket_error` goes on with a value, and exits without one.
unfoldable pub restart_on_socket_error {ℓ κ} :
    {A : Type ℓ}
    → {B : Type κ} → Option A
    → (A → Ending B × List (List ℕ))
    → Ending B × List (List ℕ)
restart_on_socket_error none next = (exited 75, [])
restart_on_socket_error (some a) next = next a

-- `peer` is the text of the peer's address, none where the lookup fails, and `debug` the variable that
-- `packet_log_enabled` reads.
unfoldable pub ptcp_request :
    Option (List ℕ)
    → Option (List ℕ)
    → PtcpPacket
    → List SendResult
    → Ending (List ℕ) × List (List ℕ)
unfolding restart_on_socket_error
ptcp_request debug peer packet results = restart_on_socket_error peer λ address. (
  attempt_send (serialize_packet packet) 4 results,
  if packet_log_enabled debug packet.body then log_lines (codes ">>> ") address packet else [],
)

-- A result of `recv` within its time limit of 15 seconds.
pub data ReadResult : Type 0 where
  datagram : List ℕ → ReadResult
  read_refused : ReadResult
  read_failed : ReadResult
  timed_out : ReadResult

-- The loop of `ptcp_read`, up to the datagram that it parses. Each result comes with the time since
-- `recovery_started`; `idle_limit` counts seconds.
unfoldable pub read_datagram : ℕ → List (ℕ × ReadResult) → Ending (List ℕ)
read_datagram idle_limit [] = pending
read_datagram idle_limit ((elapsed, datagram bytes) ∷ results) = returned bytes
read_datagram idle_limit ((elapsed, read_refused) ∷ results) =
    let rest = read_datagram idle_limit results in
    if ltb elapsed (from_secs 15) then rest else exited 75
read_datagram idle_limit ((elapsed, read_failed) ∷ results) = exited 75
read_datagram idle_limit ((elapsed, timed_out) ∷ results) =
    let rest = read_datagram idle_limit results in
    if (idle_limit == 0) || ltb elapsed (from_secs idle_limit) then rest else exited 75

-- What `ptcp_read` makes of the datagram: a packet, or a panic.
unfoldable pub received :
    Option (List ℕ) → List ℕ → Ending (List ℕ) → Ending (Result PtcpPacket) × List (List ℕ)
received debug address (exited code) = (exited code, [])
received debug address pending = (pending, [])
received debug address (returned bytes) =
    let packet = parse_packet bytes in
    (
      returned packet,
      elim packet [
        | ok p ↦ if packet_log_enabled debug p.body then log_lines (codes "<<< ") address p else []
        | panic e ↦ []
      ],
    )

unfoldable pub ptcp_read :
    Option (List ℕ)
    → Option (List ℕ)
    → Option (List ℕ)
    → List (ℕ × ReadResult)
    → Ending (Result PtcpPacket) × List (List ℕ)
unfolding restart_on_socket_error received
ptcp_read debug idle peer results = restart_on_socket_error peer λ address.
    (let (ending, lines) =
        received debug address (read_datagram (idle_reconnect_seconds idle) results) in
      (
        ending,
        (if packet_debug_enabled debug then (codes "### " ++ address) ∷ [] else []) ++ lines,
      ))

-- As many refusals.
abbrev pub refusals : ℕ → List SendResult
refusals zero = []
refusals (suc k) = refused ∷ refusals k

attempt_send_course :
    (d : List ℕ) (attempts k : ℕ) (rest : List SendResult)
    → (k < attempts → attempt_send d attempts (refusals k ++ (accepted ∷ rest)) ≡ returned d)
      × (k < attempts → attempt_send d attempts (refusals k ++ (failed ∷ rest)) ≡ exited 75)
      × (attempts ≤ k → attempt_send d attempts (refusals k ++ rest) ≡ exited 75)
unfolding attempt_send
attempt_send_course d zero k rest =
    (λ h. absurd (omega (arith, h)), λ h. absurd (omega (arith, h)), λ h. refl)
attempt_send_course d (suc n) zero rest = (λ h. refl, λ h. refl, λ h. absurd (omega (arith, h)))
attempt_send_course d (suc n) (suc k) rest =
    let (a, b, c) = attempt_send_course d n k rest in
    (λ h. a (omega (arith, h)), λ h. b (omega (arith, h)), λ h. c (omega (arith, h)))

-- Up to three refused attempts are made good by the next one, which sends the serialised packet; any
-- other error of one of the first four attempts, a fourth refusal, and a peer that is not found exit
-- with 75.
pub ptcp_request_course :
    (debug : Option (List ℕ)) (address : List ℕ) (p : PtcpPacket) (k : ℕ) (rest : List SendResult)
    → (k < 4
        → (ptcp_request debug (some address) p (refusals k ++ (accepted ∷ rest))).0
          ≡ returned (serialize_packet p))
      × (k < 4
          → (ptcp_request debug (some address) p (refusals k ++ (failed ∷ rest))).0 ≡ exited 75)
      × (4 ≤ k → (ptcp_request debug (some address) p (refusals k ++ rest)).0 ≡ exited 75)
      × (ptcp_request debug none p rest ≡ (exited 75, []))
unfolding ptcp_request
ptcp_request_course debug address p k rest =
    let (a, b, c) = attempt_send_course (serialize_packet p) 4 k rest in (a, b, c, refl)

-- A result that the read bears with: a refusal in the first 15 seconds, and silence unless there is a
-- limit to it that is over.
abbrev pub IsBorne : ℕ → ℕ × ReadResult → Type 0
IsBorne idle_limit (elapsed, read_refused) = elapsed < from_secs 15
IsBorne idle_limit (elapsed, timed_out) = (idle_limit ≡ 0) ⊎ (elapsed < from_secs idle_limit)
IsBorne idle_limit (elapsed, _) = ⊥

-- Whatever it bears with comes first, the read goes on with what comes next.
read_datagram-IsBorne :
    (idle_limit : ℕ) (before after : List (ℕ × ReadResult))
    → All (IsBorne idle_limit) before
    → read_datagram idle_limit (before ++ after) ≡ read_datagram idle_limit after
unfolding read_datagram
read_datagram-IsBorne limit [] after h = refl
read_datagram-IsBorne limit ((t, datagram bytes) ∷ before) after h = absurd h.0
read_datagram-IsBorne limit ((t, read_failed) ∷ before) after h = absurd h.0
read_datagram-IsBorne limit ((t, read_refused) ∷ before) after h =
    let now = h.0 in ground (arith, now, read_datagram-IsBorne limit before after h.1)
read_datagram-IsBorne limit ((t, timed_out) ∷ before) after h = elim h.0 [
  | inl never ↦ ground (arith, never, read_datagram-IsBorne limit before after h.1)
  | inr early ↦ ground (arith, early, read_datagram-IsBorne limit before after h.1)
]

-- Whatever the read bears with comes first, it returns the datagram that comes next; and what comes
-- next makes it exit with 75 if it is silence after a limit that is not 0, a refusal after 15 seconds,
-- or any other error. Without a limit silence never makes it exit.
pub read_datagram_course :
    (idle_limit elapsed : ℕ) (bytes : List ℕ) (before rest : List (ℕ × ReadResult))
    → All (IsBorne idle_limit) before
    → (read_datagram idle_limit (before ++ ((elapsed, datagram bytes) ∷ rest)) ≡ returned bytes)
      × (0 < idle_limit
          → from_secs idle_limit ≤ elapsed
          → read_datagram idle_limit (before ++ ((elapsed, timed_out) ∷ rest)) ≡ exited 75)
      × (from_secs 15 ≤ elapsed
          → read_datagram idle_limit (before ++ ((elapsed, read_refused) ∷ rest)) ≡ exited 75)
      × (read_datagram idle_limit (before ++ ((elapsed, read_failed) ∷ rest)) ≡ exited 75)
unfolding read_datagram
read_datagram_course limit t bytes before rest h = (
  read_datagram-IsBorne limit before _ h,
  λ limited late. read_datagram-IsBorne limit before _ h ∙ ground (arith, limited, late),
  λ late. read_datagram-IsBorne limit before _ h ∙ ground (arith, late),
  read_datagram-IsBorne limit before _ h,
)
