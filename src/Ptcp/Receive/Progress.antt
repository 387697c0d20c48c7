-- ===== src/Ptcp/Receive/Progress.antt =====
-- One call of `recv` without permission to skip, on a packet of a stream: what is delivered is the
-- next piece of the stream.
use dahua_p2p_bridge.Common.{
  ℕ, ◌+◌, ◌^◌, ◌<◌, ◌≡◌, ◌≢◌, refl, sym, ap, ◌∙◌, ◌⊎◌, inl, inr, true, false, none, List, ◌++◌,
  append-nil, append_assoc, length, In, In-append_cases, arith, ne→==,
}
use mathlib.Core.Path.{subst}
use mathlib.Core.Bool.{false≢true}
use native.Mathlib.Nat.{zero-add}
use dahua_p2p_bridge.Common.HashMap.{lookup, insert, lookup-insert, In-insert}
use dahua_p2p_bridge.Ptcp.Wire.{PtcpPacket, len}
use dahua_p2p_bridge.Ptcp.Sequence.{sequence_after, sequence_after-offset}
use dahua_p2p_bridge.Ptcp.Session.{PtcpSession, packet_end, acknowledge_sent}
use dahua_p2p_bridge.Ptcp.Stream.{
  stream_bytes, stream_bytes-append, counter, IsStream, IsStream-append, position,
  counter_injective,
}
use dahua_p2p_bridge.Ptcp.Receive.{Readings, recv, note_header, drain_contiguous, store_beyond_gap}
use dahua_p2p_bridge.Ptcp.Receive.Drain.{drain_loop-lookup}
use dahua_p2p_bridge.Ptcp.Receive.OnStream.{Waiting, drain_loop-Drains}
use dahua_p2p_bridge.Ptcp.Receive.Cases.{recv_cases, stored_at_front, recv_beyond_gap_strict}

-- A session that has delivered `done` of the stream `ps`, and holds back later packets of it only.
pub record Held (base : ℕ) (ps : List PtcpPacket) (s : PtcpSession) (done : List PtcpPacket)
    : Type 0 where
  pub left : List PtcpPacket
  pub split : ps ≡ done ++ left
  pub recv_at : s.recv ≡ counter base (stream_bytes done)
  pub waiting : Waiting left s.pending
  pub strict : s.allow_gap_skip ≡ false

-- Between two calls the next packet is not among those held back.
pub record Progress (base : ℕ) (ps : List PtcpPacket) (s : PtcpSession) (done : List PtcpPacket)
    : Type 0 where
  pub held : Held base ps s done
  pub drained : lookup s.recv s.pending ≡ none

-- What arrives: a packet of the stream, or one without bytes.
abbrev pub Arrives : List PtcpPacket → PtcpPacket → Type 0
Arrives ps p = In p ps ⊎ (len p.body ≡ 0)

module _ (base : ℕ) (ps : List PtcpPacket) (stream : IsStream base 0 ps)
    (small : stream_bytes ps < 2 ^ 31) where
  module _ (s : PtcpSession) (done : List PtcpPacket) (g : Held base ps s done) where
    done_bytes : stream_bytes done + stream_bytes g.left < 2 ^ 31
    done_bytes = omega (arith, ap stream_bytes g.split, stream_bytes-append done g.left)

    pub left-IsStream : IsStream base (stream_bytes done) g.left
    left-IsStream = rw zero-add at ((IsStream-append base 0 done g.left (rw g.split at stream)).1)

    -- A packet that was delivered starts before the receive offset.
    pub done_before :
        (p : PtcpPacket) → In p done → (p.sent ≢ s.recv) × (sequence_after p.sent s.recv ≡ false)
    done_before p i =
        let q =
          position base 0 done p (IsStream-append base 0 done g.left (rw g.split at stream)).0 i in
        let low : q.at < stream_bytes done = omega (arith, q.has_bytes, q.before_end) in
        let below : stream_bytes done < 2 ^ 31 = omega (arith, done_bytes) in
        (
          λ e. absurd (
              omega (
                arith,
                low,
                counter_injective base q.at (stream_bytes done) (omega arith) below
                    (sym q.has_counter ∙ e ∙ g.recv_at),
              )),
          rw (q.has_counter, g.recv_at)
              (sequence_after-offset base q.at (stream_bytes done) (omega arith) below
                ∙ ground (arith, low)),
        )

    -- A packet that is left starts at the offset or after it, and ends after it.
    pub left_after :
        (p : PtcpPacket)
        → In p g.left
        → (p.sent ≢ s.recv → sequence_after p.sent s.recv ≡ true)
          × (sequence_after (packet_end p) s.recv ≡ true)
    left_after p i =
        let q = position base (stream_bytes done) g.left p left-IsStream i in
        let room : q.at + len p.body < 2 ^ 31 = omega (arith, q.before_end, done_bytes) in
        let start = q.after_start in
        let some_bytes = q.has_bytes in
        let below : stream_bytes done < 2 ^ 31 = omega (arith, done_bytes) in
        let end_at : packet_end p ≡ counter base (q.at + len p.body) =
          omega (arith, q.has_counter) in
        (
          λ ne.
              let apart : q.at ≢ stream_bytes done =
                (λ e. ne (q.has_counter ∙ ap (counter base) e ∙ sym g.recv_at)) in
              rw (q.has_counter, g.recv_at)
                (sequence_after-offset base q.at (stream_bytes done) (omega arith) below
                  ∙ ground (arith, start, apart)),
          rw (end_at, g.recv_at)
              (sequence_after-offset base (q.at + len p.body) (stream_bytes done) room below
                ∙ ground (arith, start, some_bytes)),
        )

    -- So a packet of the stream that `recv` does not find old is still to be delivered.
    pub is_left :
        (p : PtcpPacket)
        → In p ps
        → (p.sent ≡ s.recv) ⊎ (sequence_after p.sent s.recv ≡ true)
        → In p g.left
    is_left p i h = elim (In-append_cases p done g.left (subst (In p) g.split i)) [
      | inr l ↦ l
      | inl d ↦
          let (ne, before) = done_before p d in
          elim h [ inl at ↦ absurd (ne at) | inr after ↦ absurd (false≢true (sym before ∙ after)) ]
    ]

    Waiting-insert : (p : PtcpPacket) → In p g.left → Waiting g.left (insert p.sent p s.pending)
    Waiting-insert p i e h = elim (In-insert e p.sent p s.pending h) [
      | inl new ↦ rw new (i, refl)
      | inr old ↦ g.waiting e old
    ]

    drain_contiguous-Progress :
        (now : ℕ) → let (s', ready) = drain_contiguous now s in Progress base ps s' (done ++ ready)
    unfolding drain_contiguous
    drain_contiguous-Progress now =
        let d =
          drain_loop-Drains base (stream_bytes done) (length s.pending) s.recv s.pending g.left
            left-IsStream done_bytes g.recv_at g.waiting in
        record {
          held = record {
            left = d.left;
            split = g.split ∙ ap (◌++◌ done) d.split ∙ sym (append_assoc done _ d.left);
            recv_at = d.recv_at ∙ ap (counter base) (sym (stream_bytes-append done _));
            waiting = d.waiting;
            strict = g.strict;
          };
          drained = drain_loop-lookup (length s.pending) s.recv s.pending (omega arith);
        }

  -- `recv` delivers the next packets of the stream, and keeps the invariant.
  pub recv-Progress :
      (r : Readings) (s : PtcpSession) (p : PtcpPacket) (done : List PtcpPacket)
      → Progress base ps s done
      → Arrives ps p
      → let (s', ready) = recv r s p in Progress base ps s' (done ++ ready)
  unfolding note_header acknowledge_sent store_beyond_gap
  recv-Progress r s p done g arrives =
      recv_cases (λ (s', ready). Progress base ps s' (done ++ ready)) r s p
        (λ aside. rw append-nil (same_Progress g))
        (λ has_bytes at.
          drain_contiguous-Progress (stored_at_front (note_header s p) p) done
            (front_Held (is_left s done g.held p (on_stream has_bytes) (inl at))) r.drained)
        (λ has_bytes off after fresh.
          rw (recv_beyond_gap_strict r (note_header s p) p g.held.strict, append-nil)
            (record {
              held = stored_Held (is_left s done g.held p (on_stream has_bytes) (inr after));
              drained = rw (lookup-insert, ne→== p.sent s.recv off) g.drained;
            }))
    where
      on_stream : len p.body ≢ 0 → In p ps
      on_stream h = elim arrives [ inl i ↦ i | inr e ↦ absurd (h e) ]

      same_Progress : Progress base ps s done → Progress base ps (note_header s p) done
      same_Progress g' = record {
        held = record {
          left = g'.held.left;
          split = g'.held.split;
          recv_at = g'.held.recv_at;
          waiting = g'.held.waiting;
          strict = g'.held.strict;
        };
        drained = g'.drained;
      }

      front_Held : In p g.held.left → Held base ps (stored_at_front (note_header s p) p) done
      front_Held i = record {
        left = g.held.left;
        split = g.held.split;
        recv_at = g.held.recv_at;
        waiting = Waiting-insert s done g.held p i;
        strict = g.held.strict;
      }

      stored_Held : In p g.held.left → Held base ps (store_beyond_gap r (note_header s p) p) done
      stored_Held i = record {
        left = g.held.left;
        split = g.held.split;
        recv_at = g.held.recv_at;
        waiting = Waiting-insert s done g.held p i;
        strict = g.held.strict;
      }
