-- ===== src/Engine/Reader.antt =====
-- The acknowledgements of `dh_reader`.
use dahua_p2p_bridge.Common.{
  ℕ, ◌≡◌, ◌≢◌, refl, ◌∙◌, inl, inr, Bool-cases, Option-cases, Option, none, some, List, [], ◌∷◌,
  All,
}
use dahua_p2p_bridge.Ptcp.Wire.{PtcpBody, PtcpPacket, empty}
use dahua_p2p_bridge.Ptcp.Session.{PtcpSession, send, acknowledge_sent}
use dahua_p2p_bridge.Ptcp.Receive.{
  Readings, recv, recv_beyond_gap, note_header, store_beyond_gap, skip_to, skips_gap, next_start,
  drain_contiguous,
}
use dahua_p2p_bridge.Ptcp.Receive.Cases.{recv_cases}
use dahua_p2p_bridge.Ptcp.Retransmit.{due_retransmissions, has_retransmission_stall}
use dahua_p2p_bridge.Engine.Run.{Turn, reads, writes, resends, turn, run}
use mathlib.Core.Option.{some-injective, none-ne-some}
use mathlib.Core.Path.{subst}
use dahua_p2p_bridge.Engine.{
  Shared, Engine, reading, answering, handing, after_recv, dh_reader_at, dh_writer_round,
  retransmit_round,
}

-- `recv` notes the peer's message id, whatever else it does.
recv-rmid : (r : Readings) (s : PtcpSession) (p : PtcpPacket) → ((recv r s p).0).rmid ≡ p.lmid
unfolding drain_contiguous note_header acknowledge_sent store_beyond_gap recv_beyond_gap
recv-rmid r s p =
    recv_cases (λ out. (out.0).rmid ≡ p.lmid) r s p (λ _. refl) (λ _ _. refl) (λ _ _ _ _. beyond)
  where
    skipped : (t : PtcpSession) (o : Option ℕ) → ((skip_to r t o).0).rmid ≡ t.rmid
    skipped t none = unfold skip_to in refl
    skipped t (some start) = unfold skip_to in refl

    stored : PtcpSession
    stored = store_beyond_gap r (note_header s p) p

    beyond : ((recv_beyond_gap r (note_header s p) p).0).rmid ≡ p.lmid
    beyond = elim (Bool-cases (skips_gap r stored p)) [
      | inl skips ↦ rw skips (skipped stored (next_start stored.recv stored.pending))
      | inr stays ↦ rw stays refl
    ]

-- What a turn of the other tasks leaves alone.
record IsSameReader (e e' : Engine) : Type 0 where
  place : e'.reader ≡ e.reader
  offset : e'.shared.session.recv ≡ e.shared.session.recv
  message : e'.shared.session.rmid ≡ e.shared.session.rmid

-- A turn of `dh_writer` or of the retransmission task.
abbrev pub IsOther : Turn → Type 0
IsOther (reads now) = ⊥
IsOther _ = Unit

turn-IsSameReader :
    (t : Turn) (e e' : Engine) (sent : List PtcpPacket)
    → IsOther t
    → turn e t ≡ some (e', sent)
    → IsSameReader e e'
unfolding turn dh_writer_round retransmit_round send due_retransmissions
turn-IsSameReader (reads now) e e' sent h is = absurd h
turn-IsSameReader (writes now event) e e' sent h is =
    subst (λ x. IsSameReader e x.0) (some-injective _ _ is)
      (record { place = refl; offset = refl; message = refl })
turn-IsSameReader (resends due_at tested_at) e e' sent h is =
    let ticked = (due_retransmissions due_at e.shared.session).0 in
    elim (Bool-cases (has_retransmission_stall tested_at ticked)) [
      | inl stalls ↦ absurd (none-ne-some (e', sent) (rw (turn, retransmit_round, stalls) at is))
      | inr goes_on ↦
          subst (λ x. IsSameReader e x.0)
            (some-injective _ _ (rw (turn, retransmit_round, goes_on) at is))
            (record { place = refl; offset = refl; message = refl })
    ]

run-IsSameReader :
    (turns : List Turn) (e : Engine) → All IsOther turns → IsSameReader e (run e turns).0
unfolding run
run-IsSameReader [] e h = record { place = refl; offset = refl; message = refl }
run-IsSameReader (t ∷ turns) e h = elim (Option-cases (turn e t)) [
  | inl is ↦ rw (run, is) (record { place = refl; offset = refl; message = refl })
  | inr ((e', sent), is) ↦
      let a = turn-IsSameReader t e e' sent h.0 is in
      let b = run-IsSameReader turns e' h.1 in
      rw (run, is)
        (record {
          place = b.place ∙ a.place;
          offset = b.offset ∙ a.offset;
          message = b.message ∙ a.message;
        })
]

-- The answer to a packet that is not empty: one empty packet, with the receive offset that `recv`
-- left and the peer's message id.
pub record IsAck (r : Readings) (session : PtcpSession) (p ack : PtcpPacket) : Type 0 where
  pub is_empty : ack.body ≡ empty
  pub acknowledges : ack.recv ≡ ((recv r session p).0).recv
  pub echoes : ack.rmid ≡ p.lmid

after_recv-answering :
    (body : PtcpBody) (packets : List PtcpPacket)
    → body ≢ empty
    → after_recv body packets ≡ answering packets
after_recv-answering empty packets h = absurd (h refl)
after_recv-answering _ packets h = refl

-- `dh_reader` reads the packet `p`. If it is empty, `dh_reader` goes on to hand on what `recv`
-- delivers. If not, then after any turns of the other tasks its next turn sends one packet, and this
-- is the acknowledgement. So two engines never acknowledge each other's acknowledgements.
pub dh_reader_at-IsAck :
    (now later : ℕ) (s : Shared) (r : Readings) (p : PtcpPacket)
    (inbox : List (Readings × PtcpPacket)) (turns : List Turn)
    → All IsOther turns
    → let e = (dh_reader_at now s ((r, p) ∷ inbox) reading).0 in
      let e' = (run e turns).0 in
      (p.body ≡ empty → e.reader ≡ handing (recv r s.session p).1)
      × (p.body ≢ empty
          → (ack : PtcpPacket) × ((dh_reader_at later e'.shared e'.inbox e'.reader).1 ≡ ack ∷ [])
            × IsAck r s.session p ack)
unfolding dh_reader_at
dh_reader_at-IsAck now later s r p inbox turns h =
    let e = (dh_reader_at now s ((r, p) ∷ inbox) reading).0 in
    let e' = (run e turns).0 in
    let same = run-IsSameReader turns e h in
    (
      λ bare. rw bare refl,
      λ full. (
        (send later e'.shared.session empty).1,
        rw (same.place ∙ after_recv-answering p.body _ full) refl,
        unfold send in
            record {
              is_empty = refl;
              acknowledges = same.offset;
              echoes = same.message ∙ recv-rmid r s.session p;
            },
      ),
    )
