-- ===== src/Engine/Run/Flow.antt =====
-- How the camera's packets come through the session: what `dh_reader` has handed on, holds, and is going
-- to read.
use dahua_p2p_bridge.Common.{
  ℕ, ◌≡◌, ◌<◌, ◌^◌, refl, ◌⊎◌, inl, inr, List, [], ◌∷◌, ◌++◌, append-nil, append_assoc, In,
  In-append_left, In-append_right, All, map,
}
use dahua_p2p_bridge.Ptcp.Wire.{PtcpPacket, PtcpBody, empty}
use dahua_p2p_bridge.Ptcp.Session.{PtcpSession}
use dahua_p2p_bridge.Ptcp.Stream.{stream_bytes, IsStream}
use dahua_p2p_bridge.Ptcp.Receive.{Readings, recv}
use dahua_p2p_bridge.Ptcp.Receive.Progress.{Progress, Arrives, recv-Progress}
use dahua_p2p_bridge.Ptcp.Receive.Kept.{Kept, recv-Kept}
use dahua_p2p_bridge.Ptcp.Receive.Strict.{all-Kept}
use dahua_p2p_bridge.Engine.{
  Shared, ReaderAt, reading, answering, handing, after_recv, dh_reader_at,
}
use dahua_p2p_bridge.Engine.Dispatch.{dispatch-session}
use dahua_p2p_bridge.Engine.Run.Inbound.{SameInbound, Progress-SameInbound, send-SameInbound}

-- The packets that `recv` has delivered and `dh_reader` has not handed on yet.
abbrev pub in_hand : ReaderAt → List PtcpPacket
in_hand reading = []
in_hand (answering packets) = packets
in_hand (handing packets) = packets

abbrev pub packets_in : List (Readings × PtcpPacket) → List PtcpPacket
packets_in = map λ a. a.1

-- The packet that `dh_reader` hands on next.
abbrev pub in_front : ReaderAt → List PtcpPacket
in_front (handing (p ∷ packets)) = p ∷ []
in_front _ = []

-- `done` of the camera's packets `ps` have been handed on; `arrivals` is all that ever arrives.
pub record Flow (base : ℕ) (ps arrivals : List PtcpPacket) (session : PtcpSession)
    (inbox : List (Readings × PtcpPacket)) (held done : List PtcpPacket) : Type 0 where
  pub stands : Progress base ps session (done ++ held)
  pub arrive : All (λ a. Arrives ps a.1) inbox
  pub kept :
      (q : PtcpPacket)
      → In q ps
      → In q arrivals
      → Kept q (session, done ++ held) ⊎ In q (packets_in inbox)

session_Kept :
    (q : PtcpPacket) (s t : PtcpSession) (done : List PtcpPacket)
    → t.pending ≡ s.pending
    → Kept q (s, done)
    → Kept q (t, done)
session_Kept q s t done e k = rw e k

pub in_hand-after_recv :
    (body : PtcpBody) (packets : List PtcpPacket) → in_hand (after_recv body packets) ≡ packets
in_hand-after_recv empty packets = refl
in_hand-after_recv _ packets = refl

module _ (base : ℕ) (ps arrivals : List PtcpPacket) where
  -- A change of the session that leaves the receiving side alone.
  pub silent-Flow :
      (session session' : PtcpSession) (inbox : List (Readings × PtcpPacket))
      (held done : List PtcpPacket)
      → SameInbound session' session
      → Flow base ps arrivals session inbox held done
      → Flow base ps arrivals session' inbox held done
  unfolding SameInbound
  silent-Flow session session' inbox held done e g = record {
    stands = Progress-SameInbound base ps session session' (done ++ held) e g.stands;
    arrive = g.arrive;
    kept = λ q i j. elim (g.kept q i j) [
      | inl k ↦ inl (session_Kept q session session' (done ++ held) e.1 k)
      | inr later ↦ inr later
    ];
  }

  -- A delivered packet is handed on.
  pub hand-Flow :
      (session : PtcpSession) (p : PtcpPacket) (inbox : List (Readings × PtcpPacket))
      (held done : List PtcpPacket)
      → Flow base ps arrivals session inbox (p ∷ held) done
      → Flow base ps arrivals session inbox held (done ++ (p ∷ []))
  hand-Flow session p inbox held done g = record {
    stands = rw append_assoc g.stands;
    arrive = g.arrive;
    kept = λ q i j. rw append_assoc (g.kept q i j);
  }

  -- A packet that `dh_reader` holds is one of the camera's.
  pub held-In :
      (session : PtcpSession) (p : PtcpPacket) (inbox : List (Readings × PtcpPacket))
      (held done : List PtcpPacket)
      → Flow base ps arrivals session inbox (p ∷ held) done
      → In p ps
  held-In session p inbox held done g =
      rw g.stands.held.split
        (In-append_left p _ g.stands.held.left (In-append_right p done (p ∷ held) (inl refl)))

  module _ (stream : IsStream base 0 ps) (small : stream_bytes ps < 2 ^ 31) where
    -- A packet arrives.
    pub recv-Flow :
        (session : PtcpSession) (r : Readings) (p : PtcpPacket)
        (inbox : List (Readings × PtcpPacket)) (done : List PtcpPacket)
        → Flow base ps arrivals session ((r, p) ∷ inbox) [] done
        → Flow base ps arrivals (recv r session p).0 inbox (recv r session p).1 done
    recv-Flow session r p inbox done g =
        let before : Progress base ps session done = rw append-nil at g.stands in
        let next = recv-Kept base ps stream small session p done before r in
        record {
          stands = recv-Progress base ps stream small r session p done before g.arrive.0;
          arrive = g.arrive.1;
          kept = λ q i j. elim (g.kept q i j) [
            | inl k ↦ inl (next q g.arrive.0 i (inr (rw append-nil at k)))
            | inr (inl e) ↦ inl (next q g.arrive.0 i (inl e))
            | inr (inr later) ↦ inr later
          ];
        }

    -- A turn of `dh_reader`.
    pub reader-Flow :
        (now : ℕ) (s : Shared) (inbox : List (Readings × PtcpPacket)) (at : ReaderAt)
        (done : List PtcpPacket)
        → Flow base ps arrivals s.session inbox (in_hand at) done
        → let e = (dh_reader_at now s inbox at).0 in
          Flow base ps arrivals e.shared.session e.inbox (in_hand e.reader) (done ++ in_front at)
    unfolding dh_reader_at
    reader-Flow now s [] reading done g = rw (append-nil done) g
    reader-Flow now s ((r, p) ∷ inbox) reading done g =
        rw (append-nil done, in_hand-after_recv) (recv-Flow s.session r p inbox done g)
    reader-Flow now s inbox (answering packets) done g =
        rw (append-nil done)
          (silent-Flow s.session _ inbox packets done (send-SameInbound now s.session empty) g)
    reader-Flow now s inbox (handing []) done g = rw (append-nil done) g
    reader-Flow now s inbox (handing (p ∷ packets)) done g =
        rw (dispatch-session p.body s) (hand-Flow s.session p inbox packets done g)

    -- All of the camera's packets have arrived and been read, and nothing is held: all were handed on.
    pub whole-Flow :
        (session : PtcpSession) (done : List PtcpPacket)
        → Flow base ps arrivals session [] [] done
        → ((q : PtcpPacket) → In q ps → In q arrivals)
        → done ≡ ps
    whole-Flow session done g every =
        all-Kept base ps stream small session done (rw append-nil at g.stands) (λ q i.
          elim (g.kept q i (every q i)) [ inl k ↦ rw append-nil at k | inr later ↦ absurd later ])
