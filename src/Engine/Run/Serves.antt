-- ===== src/Engine/Run/Serves.antt =====
-- Every turn keeps a realm's channel and the camera's packets in step.
use dahua_p2p_bridge.Common.{
  ℕ, ◌≡◌, ◌<◌, ◌^◌, inl, inr, Bool-cases, Option-cases, some, List, [], ◌∷◌, ◌++◌, append-nil, In,
}
use mathlib.Core.Path.{subst}
use mathlib.Core.Option.{some-injective, none-ne-some}
use dahua_p2p_bridge.Ptcp.Wire.{PtcpPacket, empty}
use dahua_p2p_bridge.Ptcp.Session.{PtcpSession}
use dahua_p2p_bridge.Ptcp.Stream.{stream_bytes, IsStream}
use dahua_p2p_bridge.Ptcp.Receive.{Readings, recv}
use dahua_p2p_bridge.Ptcp.Retransmit.{due_retransmissions, has_retransmission_stall}
use dahua_p2p_bridge.Engine.{
  Shared, Engine, ReaderAt, reading, answering, handing, event_body, dispatch, dh_reader_at,
  dh_writer_round, retransmit_round,
}
use dahua_p2p_bridge.Engine.Dispatch.{
  IsOpen, Closes, payloads_of, payloads_of-append, dispatch-IsOpen, dispatch-session,
}
use dahua_p2p_bridge.Engine.Run.{Turn, reads, writes, resends, turn, run}
use dahua_p2p_bridge.Engine.Run.Flow.{
  in_hand, in_hand-after_recv, Flow, silent-Flow, recv-Flow, hand-Flow, held-In,
}
use dahua_p2p_bridge.Engine.Run.Inbound.{
  SameInbound, send-SameInbound, due_retransmissions-SameInbound,
}

-- `dh_reader` has handed on `done` of the camera's packets `ps`, and the realm's channel carries
-- their data; `arrivals` is all that ever arrives.
pub record Serves (base : ℕ) (ps arrivals : List PtcpPacket) (realm handle : ℕ) (s : Shared)
    (inbox : List (Readings × PtcpPacket)) (held done : List PtcpPacket) : Type 0 where
  pub flow : Flow base ps arrivals s.session inbox held done
  pub serves : IsOpen s realm handle (payloads_of realm done)

IsOpen-session :
    (s : Shared) (session : PtcpSession) (realm handle : ℕ) (sent : List (List ℕ))
    → IsOpen s realm handle sent
    → IsOpen (record s { session = session }) realm handle sent
IsOpen-session s session realm handle sent o = record {
  registered = o.registered;
  own = o.own;
  channel = o.channel;
}

module _ (base : ℕ) (ps arrivals : List PtcpPacket) (stream : IsStream base 0 ps)
    (small : stream_bytes ps < 2 ^ 31) (realm handle : ℕ)
    (open_to : (p : PtcpPacket) → In p ps → ¬ Closes realm p.body) where
  abbrev Stands : Engine → Type 0
  Stands e =
      (done : List PtcpPacket) × Serves base ps arrivals realm handle e.shared e.inbox
        (in_hand e.reader) done

  -- A turn that leaves the receiving side alone.
  silent-Serves :
      (s : Shared) (session : PtcpSession) (inbox : List (Readings × PtcpPacket))
      (held done : List PtcpPacket)
      → SameInbound session s.session
      → Serves base ps arrivals realm handle s inbox held done
      → Serves base ps arrivals realm handle (record s { session = session }) inbox held done
  silent-Serves s session inbox held done e g = record {
    flow = silent-Flow base ps arrivals s.session session inbox held done e g.flow;
    serves = IsOpen-session s session realm handle _ g.serves;
  }

  -- A packet arrives.
  recv-Serves :
      (s : Shared) (r : Readings) (p : PtcpPacket) (inbox : List (Readings × PtcpPacket))
      (done : List PtcpPacket)
      → Serves base ps arrivals realm handle s ((r, p) ∷ inbox) [] done
      → Serves base ps arrivals realm handle
          (record s { session = (recv r s.session p).0 })
          inbox
          (recv r s.session p).1
          done
  recv-Serves s r p inbox done g = record {
    flow = recv-Flow base ps arrivals stream small s.session r p inbox done g.flow;
    serves = IsOpen-session s _ realm handle _ g.serves;
  }

  -- A delivered packet is handed on.
  hand-Serves :
      (s : Shared) (p : PtcpPacket) (inbox : List (Readings × PtcpPacket))
      (held done : List PtcpPacket)
      → Serves base ps arrivals realm handle s inbox (p ∷ held) done
      → Serves base ps arrivals realm handle (dispatch s p.body) inbox held (done ++ (p ∷ []))
  hand-Serves s p inbox held done g = record {
    flow =
        rw (dispatch-session p.body s)
          (hand-Flow base ps arrivals s.session p inbox held done g.flow);
    serves =
        rw (payloads_of-append, append-nil)
          (dispatch-IsOpen s realm handle (payloads_of realm done) p.body g.serves
            (open_to p (held-In base ps arrivals s.session p inbox held done g.flow)));
  }

  reader-Stands :
      (now : ℕ) (s : Shared) (inbox : List (Readings × PtcpPacket)) (at : ReaderAt)
      (done : List PtcpPacket)
      → Serves base ps arrivals realm handle s inbox (in_hand at) done
      → Stands (dh_reader_at now s inbox at).0
  unfolding dh_reader_at
  reader-Stands now s [] reading done g = (done, g)
  reader-Stands now s ((r, p) ∷ inbox) reading done g =
      (done, rw in_hand-after_recv (recv-Serves s r p inbox done g))
  reader-Stands now s inbox (answering packets) done g =
      (done, silent-Serves s _ inbox packets done (send-SameInbound now s.session empty) g)
  reader-Stands now s inbox (handing []) done g = (done, g)
  reader-Stands now s inbox (handing (p ∷ packets)) done g =
      (done ++ (p ∷ []), hand-Serves s p inbox packets done g)

  turn-Stands :
      (t : Turn) (e e' : Engine) (sent : List PtcpPacket)
      → Stands e
      → turn e t ≡ some (e', sent)
      → Stands e'
  unfolding turn dh_writer_round retransmit_round
  turn-Stands (reads now) e e' sent (done, g) is =
      subst (λ x. Stands x.0) (some-injective _ _ is)
        (reader-Stands now e.shared e.inbox e.reader done g)
  turn-Stands (writes now event) e e' sent (done, g) is =
      subst (λ x. Stands x.0) (some-injective _ _ is)
        (
          done,
          silent-Serves e.shared _ e.inbox _ done
              (send-SameInbound now e.shared.session (event_body event)) g,
        )
  turn-Stands (resends due_at tested_at) e e' sent (done, g) is =
      let ticked = (due_retransmissions due_at e.shared.session).0 in
      elim (Bool-cases (has_retransmission_stall tested_at ticked)) [
        | inl stalls ↦ absurd (none-ne-some (e', sent) (rw (turn, retransmit_round, stalls) at is))
        | inr goes_on ↦
            subst (λ x. Stands x.0)
              (some-injective _ _ (rw (turn, retransmit_round, goes_on) at is))
              (
                done,
                silent-Serves e.shared ticked e.inbox _ done
                    (due_retransmissions-SameInbound due_at e.shared.session) g,
              )
      ]

  pub run-Stands : (turns : List Turn) (e : Engine) → Stands e → Stands (run e turns).0
  unfolding run
  run-Stands [] e g = g
  run-Stands (t ∷ turns) e g = elim (Option-cases (turn e t)) [
    | inl is ↦ rw (run, is) g
    | inr ((e', sent), is) ↦ rw (run, is) (run-Stands turns e' (turn-Stands t e e' sent g is))
  ]
