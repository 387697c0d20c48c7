-- ===== src/Ptcp/Transfer.antt =====
-- One session sends, `serialize` and `parse` carry the packets over a network that may lose, repeat
-- and reorder them, and another session with strict ordering receives.
use dahua_p2p_bridge.Common.{
  ℕ, ◌^◌, ◌<◌, ◌≡◌, refl, sym, ap, ◌∙◌, Bool-cases, inl, inr, List, [], ◌∷◌, ◌++◌, map, In, All,
  ltb, if◌then◌else◌, Result, ok, ◌>>=◌, arith,
}
use mathlib.Core.List.{map-append}
use dahua_p2p_bridge.Ptcp.Wire.{PtcpBody, PtcpPacket, len, parse_packet, serialize_packet}
use dahua_p2p_bridge.Ptcp.Wire.RoundTrip.{IsWireBody, IsWirePacket, parse_packet-serialize_packet}
use dahua_p2p_bridge.Ptcp.Session.{PtcpSession, send}
use dahua_p2p_bridge.Ptcp.Session.Send.{
  send_all, content, body_bytes, HasCounters, send_all-IsStream, send_all-bytes,
  send_all-IsWirePacket,
}
use dahua_p2p_bridge.Ptcp.Stream.{IsStream}
use dahua_p2p_bridge.Ptcp.Receive.{Readings, recv}
use dahua_p2p_bridge.Ptcp.Receive.Progress.{Arrives}
use dahua_p2p_bridge.Ptcp.Receive.Strict.{
  Arrival, recv_all, strict_session, recv_all-prefix, recv_all_complete,
}

-- `parse` and `recv` on one datagram after the other; a datagram that does not parse is a panic.
unfoldable pub recv_datagrams :
    PtcpSession → List (Readings × List ℕ) → Result (PtcpSession × List PtcpPacket)
recv_datagrams s [] = ok (s, [])
recv_datagrams s ((r, datagram) ∷ rest) = do
  p ← parse_packet datagram
  let (s', ready) = recv r s p
  (s'', more) ← recv_datagrams s' rest
  ok (s'', ready ++ more)

abbrev pub datagrams : List Arrival → List (Readings × List ℕ)
datagrams = map λ a. (a.0, serialize_packet a.1)

-- The bodies with bytes.
abbrev pub content_bodies : List (ℕ × PtcpBody) → List PtcpBody
content_bodies [] = []
content_bodies ((now, body) ∷ bodies) =
    if ltb 0 (len body) then body ∷ content_bodies bodies else content_bodies bodies

abbrev bodies_of : List PtcpPacket → List PtcpBody
bodies_of = map λ p. p.body

send_all-bodies :
    (bodies : List (ℕ × PtcpBody)) (s : PtcpSession)
    → bodies_of (content (send_all s bodies).1) ≡ content_bodies bodies
unfolding send_all send
send_all-bodies [] s = refl
send_all-bodies ((now, body) ∷ bodies) s =
    ground (arith, send_all-bodies bodies (send now s body).0)

-- Datagrams that carry packets fit for the wire parse, so the run is that of the packets.
pub recv_datagrams-serialize :
    (arrivals : List Arrival) (s : PtcpSession)
    → All (λ a. IsWirePacket a.1) arrivals
    → recv_datagrams s (datagrams arrivals) ≡ ok (recv_all s arrivals)
unfolding recv_datagrams recv_all
recv_datagrams-serialize [] s h = refl
recv_datagrams-serialize ((r, p) ∷ arrivals) s h =
    rw (parse_packet-serialize_packet p h.0, recv_datagrams-serialize arrivals (recv r s p).0 h.1)

pub All-In :
    (ps : List PtcpPacket) (p : PtcpPacket) → All IsWirePacket ps → In p ps → IsWirePacket p
All-In [] p h i = absurd i
All-In (x ∷ ps) p h (inl e) = rw e h.0
All-In (x ∷ ps) p h (inr i) = All-In ps p h.1 i

-- A packet that was sent is one of the stream, or carries no bytes.
pub In-content : (ps : List PtcpPacket) (p : PtcpPacket) → In p ps → Arrives (content ps) p
In-content [] p i = absurd i
In-content (x ∷ ps) p (inl e) = elim (Bool-cases (ltb 0 (len x.body))) [
  | inl full ↦ rw full (inl (inl e))
  | inr bare ↦ rw bare (inr (ap (λ (q : PtcpPacket). len q.body) e ∙ ground arith))
]
In-content (x ∷ ps) p (inr i) = elim (Bool-cases (ltb 0 (len x.body))) [
  | inl full ↦ rw full (elim (In-content ps p i) [ inl j ↦ inl (inr j) | inr e ↦ inr e ])
  | inr bare ↦ rw bare (In-content ps p i)
]

-- Each arrival is one of the packets that were sent.
abbrev pub SentBefore : List PtcpPacket → List Arrival → Type 0
SentBefore ps arrivals = All (λ a. In a.1 ps) arrivals

arrivals_fit :
    (ps : List PtcpPacket) (arrivals : List Arrival)
    → All IsWirePacket ps
    → SentBefore ps arrivals
    → All (λ a. IsWirePacket a.1) arrivals
arrivals_fit ps [] w h = tt
arrivals_fit ps (a ∷ arrivals) w h = (All-In ps a.1 w h.0, arrivals_fit ps arrivals w h.1)

arrivals_arrive :
    (ps : List PtcpPacket) (arrivals : List Arrival)
    → SentBefore ps arrivals
    → All (λ a. Arrives (content ps) a.1) arrivals
arrivals_arrive ps [] h = tt
arrivals_arrive ps (a ∷ arrivals) h = (In-content ps a.1 h.0, arrivals_arrive ps arrivals h.1)

module _ (a : PtcpSession) (bodies : List (ℕ × PtcpBody)) (arrivals : List Arrival)
    (now sent count id rmid : ℕ) (counters : HasCounters a)
    (wire : All (λ b. IsWireBody b.1) bodies) (small : body_bytes bodies < 2 ^ 31)
    (before : SentBefore (send_all a bodies).1 arrivals) where
  abbrev receiver : PtcpSession
  receiver = strict_session now sent a.sent count id rmid

  stream : IsStream a.sent 0 (content (send_all a bodies).1)
  stream = send_all-IsStream bodies a a.sent 0 (omega (arith, counters.sent_fits))

  parsed : recv_datagrams receiver (datagrams arrivals) ≡ ok (recv_all receiver arrivals)
  parsed =
      recv_datagrams-serialize arrivals receiver
        (arrivals_fit _ arrivals (send_all-IsWirePacket bodies a counters wire) before)

  -- However the network loses, repeats and reorders the datagrams of a run of `send`, none of them
  -- makes the receiver panic, and the bodies that it has delivered are a prefix of those sent with
  -- content. The receiver starts at the sender's offset, with strict ordering; the bodies fit the
  -- wire and are less than 2 ^ 31 bytes together.
  pub transfer_prefix :
      (out : PtcpSession × List PtcpPacket) × (rest : List PtcpBody) × (recv_datagrams receiver
          (datagrams arrivals)
        ≡ ok out)
      × (content_bodies bodies ≡ map (λ p. p.body) out.1 ++ rest)
  transfer_prefix =
      let (rest, split, end_at) =
        recv_all-prefix now sent a.sent count id rmid _ arrivals counters.sent_fits stream
          (rw (send_all-bytes bodies a) small) (arrivals_arrive _ arrivals before) in
      (
        recv_all receiver arrivals,
        bodies_of rest,
        parsed,
        sym (send_all-bodies bodies a) ∙ ap bodies_of split ∙ map-append _ _ _,
      )

  -- Once each of the datagrams with content has arrived, in any order, all of the bodies with
  -- content have been delivered, in the order in which they were sent.
  pub transfer_complete :
      ((q : PtcpPacket) → In q (content (send_all a bodies).1) → In q (map (λ x. x.1) arrivals))
      → (out : PtcpSession × List PtcpPacket) × (recv_datagrams receiver (datagrams arrivals)
          ≡ ok out)
        × (map (λ p. p.body) out.1 ≡ content_bodies bodies)
  transfer_complete every =
      let whole =
        recv_all_complete now sent a.sent count id rmid _ arrivals counters.sent_fits stream
          (rw (send_all-bytes bodies a) small) (arrivals_arrive _ arrivals before) every in
      (recv_all receiver arrivals, parsed, ap bodies_of whole ∙ send_all-bodies bodies a)
