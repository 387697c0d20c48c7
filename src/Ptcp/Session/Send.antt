-- ===== src/Ptcp/Session/Send.antt =====
-- A run of `send`: the packets with content make up a stream, and every packet fits the wire.
use dahua_p2p_bridge.Common.{
  ℕ, ◌+◌, ◌≡◌, refl, Bool-cases, inl, inr, List, [], ◌∷◌, All, ltb, ltb→lt, if◌then◌else◌, arith,
}
use dahua_p2p_bridge.Common.Words.{IsU32}
use dahua_p2p_bridge.Ptcp.Wire.{PtcpBody, PtcpPacket, sync, len}
use dahua_p2p_bridge.Ptcp.Wire.RoundTrip.{IsWireBody, IsWirePacket}
use dahua_p2p_bridge.Ptcp.Session.{PtcpSession, send, packet_pid}
use dahua_p2p_bridge.Ptcp.Stream.{stream_bytes, counter, IsStream}

-- `send` on one body after the other, each with its reading of the clock, and the packets made.
unfoldable pub send_all : PtcpSession → List (ℕ × PtcpBody) → PtcpSession × List PtcpPacket
send_all s [] = (s, [])
send_all s ((now, body) ∷ bodies) =
    let (s', p) = send now s body in let (s'', ps) = send_all s' bodies in (s'', p ∷ ps)

-- The packets that carry bytes.
abbrev pub content : List PtcpPacket → List PtcpPacket
content [] = []
content (p ∷ ps) = if ltb 0 (len p.body) then p ∷ content ps else content ps

abbrev pub body_bytes : List (ℕ × PtcpBody) → ℕ
body_bytes [] = 0
body_bytes ((now, body) ∷ bodies) = len body + body_bytes bodies

pub content-cons-IsStream :
    (base a : ℕ) (p : PtcpPacket) (ps : List PtcpPacket)
    → p.sent ≡ counter base a
    → IsStream base (a + len p.body) (content ps)
    → IsStream base a (content (p ∷ ps))
content-cons-IsStream base a p ps e s = elim (Bool-cases (ltb 0 (len p.body))) [
  | inl full ↦ rw full (e, ltb→lt _ _ full, s)
  | inr bare ↦ let zero_bytes : a + len p.body ≡ a = ground arith in rw bare (rw zero_bytes at s)
]

-- The packets that carry bytes follow each other without a gap, from the session's offset on.
pub send_all-IsStream :
    (bodies : List (ℕ × PtcpBody)) (s : PtcpSession) (base a : ℕ)
    → s.sent ≡ counter base a
    → IsStream base a (content (send_all s bodies).1)
unfolding send_all send
send_all-IsStream [] s base a e = tt
send_all-IsStream ((now, body) ∷ bodies) s base a e =
    let (s', p) = send now s body in
    content-cons-IsStream base a p (send_all s' bodies).1 e
      (send_all-IsStream bodies s' base (a + len body) (omega arith))

-- No byte is added or dropped.
pub send_all-bytes :
    (bodies : List (ℕ × PtcpBody)) (s : PtcpSession)
    → stream_bytes (content (send_all s bodies).1) ≡ body_bytes bodies
unfolding send_all send
send_all-bytes [] s = refl
send_all-bytes ((now, body) ∷ bodies) s = ground (arith, send_all-bytes bodies (send now s body).0)

-- The counters of a session are u32.
pub record HasCounters (s : PtcpSession) : Type 0 where
  pub sent_fits : IsU32 s.sent
  pub recv_fits : IsU32 s.recv
  pub count_fits : IsU32 s.count
  pub id_fits : IsU32 s.id
  pub rmid_fits : IsU32 s.rmid

packet_pid-lt : (body : PtcpBody) (count : ℕ) → IsU32 (packet_pid body count)
packet_pid-lt sync count = omega arith
packet_pid-lt _ count = omega arith

-- Every packet of a run fits the wire, if the bodies do, and the counters stay u32.
pub send_all-IsWirePacket :
    (bodies : List (ℕ × PtcpBody)) (s : PtcpSession)
    → HasCounters s
    → All (λ b. IsWireBody b.1) bodies
    → All IsWirePacket (send_all s bodies).1
unfolding send_all send
send_all-IsWirePacket [] s c h = tt
send_all-IsWirePacket ((now, body) ∷ bodies) s c h = (
  record {
    sent_fits = c.sent_fits;
    recv_fits = c.recv_fits;
    pid_fits = packet_pid-lt body s.count;
    lmid_fits = c.id_fits;
    rmid_fits = c.rmid_fits;
    body_fits = h.0;
  },
  send_all-IsWirePacket bodies (send now s body).0
      (record {
        sent_fits = omega arith;
        recv_fits = c.recv_fits;
        count_fits = omega arith;
        id_fits = omega arith;
        rmid_fits = c.rmid_fits;
      })
      h.1,
)
