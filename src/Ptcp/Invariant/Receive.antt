-- ===== src/Ptcp/Invariant/Receive.antt =====
-- `recv` keeps the invariant of a session.
use dahua_p2p_bridge.Common.{
  ℕ, ◌≤◌, ◌≡◌, ◌≢◌, refl, ap, inl, inr, false, not, Bool-cases, Option, none, some, List, [], ◌∷◌,
  In, length, if◌then◌else◌, ==_refl, ne→==, arith,
}
use dahua_p2p_bridge.Common.Words.{IsU32}
use dahua_p2p_bridge.Common.HashMap.{
  lookup, insert, remove, contains_key, lookup-insert, In-insert, length-insert_new,
  length-remove-le,
}
use dahua_p2p_bridge.Ptcp.Wire.{PtcpPacket}
use dahua_p2p_bridge.Ptcp.Wire.RoundTrip.{IsWirePacket}
use dahua_p2p_bridge.Ptcp.Session.{
  PtcpSession, TrackedPacket, prune, acknowledge_sent, max_sent_window,
}
use dahua_p2p_bridge.Ptcp.Session.Send.{HasCounters}
use dahua_p2p_bridge.Ptcp.Session.Window.{length-prune-le}
use dahua_p2p_bridge.Ptcp.Receive.{
  Readings, recv, recv_beyond_gap, note_header, store_beyond_gap, skips_gap, skip_to, next_start,
  drain_contiguous, drain_loop, is_empty,
}
use dahua_p2p_bridge.Ptcp.Receive.Drain.{
  drain_loop-lookup, drain_loop-subset, drain_loop-length, drain_loop-front,
}
use dahua_p2p_bridge.Ptcp.Receive.Cases.{recv_cases, stored_at_front}
use dahua_p2p_bridge.Ptcp.Receive.Skip.{next_start-IsNearest}
use dahua_p2p_bridge.Ptcp.Retransmit.Budget.{HasRetries}
use dahua_p2p_bridge.Ptcp.Invariant.{IsValid}

prune-HasRetries :
    (b : ℕ) (window : List TrackedPacket) → HasRetries window → HasRetries (prune b window)
unfolding prune
prune-HasRetries b [] h = tt
prune-HasRetries b (t ∷ window) h = ground (arith, prune-HasRetries b window h.1)

note_header-IsValid :
    (s : PtcpSession) (p : PtcpPacket) → IsWirePacket p → IsValid s → IsValid (note_header s p)
unfolding note_header acknowledge_sent
note_header-IsValid s p w v = record {
  counters = omega arith;
  waits = record {
    keyed = v.waits.keyed;
    counted = v.waits.counted;
    open_gap = v.waits.open_gap;
    shut_gap = v.waits.shut_gap;
  };
  drained = v.drained;
  window = omega (arith, v.window, length-prune-le p.recv s.sent_window);
  retries = prune-HasRetries p.recv s.sent_window v.retries;
}

-- The gap fields that a drain sets agree with what it leaves.
gap_fields :
    {A : Type 0} (left : List A) (since : Option ℕ)
    → (since ≡ none → length left ≡ 0)
    → ((if not (is_empty left) then 1 else 0) ≤ length left)
      × ((if not (is_empty left) then since else none) ≡ none → length left ≡ 0)
      × (length left ≡ 0 → (if not (is_empty left) then since else none) ≡ none)
gap_fields [] since h = (omega arith, λ _. refl, λ _. refl)
gap_fields (x ∷ left) since h = (omega arith, h, λ e. absurd (omega arith))

drain_contiguous-IsValid :
    (now : ℕ) (t : PtcpSession)
    → HasCounters t
    → ((e : ℕ × PtcpPacket) → In e t.pending → (e.0 ≡ (e.1).sent) × IsU32 e.0)
    → length t.sent_window ≤ max_sent_window
    → HasRetries t.sent_window
    → (t.gap_since ≡ none → length (drain_loop (length t.pending) t.recv t.pending).pending ≡ 0)
    → IsValid (drain_contiguous now t).0
unfolding drain_contiguous
drain_contiguous-IsValid now t c keyed window retries open_gap =
    let fuel = length t.pending in
    let (counted, open_gap', shut_gap) =
      gap_fields (drain_loop fuel t.recv t.pending).pending t.gap_since open_gap in
    record {
      counters = omega (arith, (drain_loop-length fuel t.recv t.pending c.recv_fits).1);
      waits = record {
        keyed = λ e i. keyed e (drain_loop-subset fuel t.recv t.pending e i);
        counted = counted;
        open_gap = open_gap';
        shut_gap = shut_gap;
      };
      drained = drain_loop-lookup fuel t.recv t.pending (omega arith);
      window = window;
      retries = retries;
    }

module _ (s : PtcpSession) (p : PtcpPacket) (w : IsWirePacket p) (v : IsValid s) where
  keyed_insert :
      (e : ℕ × PtcpPacket) → In e (insert p.sent p s.pending) → (e.0 ≡ (e.1).sent) × IsU32 e.0
  keyed_insert e i = elim (In-insert e p.sent p s.pending i) [
    | inl new ↦ rw new (refl, w.sent_fits)
    | inr old ↦ v.waits.keyed e old
  ]

  -- The first packet of a session with no gap goes straight through.
  front_leaves_none :
      s.gap_since ≡ none
      → p.sent ≡ s.recv
      → length
          (drain_loop
            (length (insert p.sent p s.pending))
            s.recv
            (insert p.sent p s.pending)).pending
        ≡ 0
  unfolding insert
  front_leaves_none e at =
      let m = insert p.sent p s.pending in
      let found : lookup s.recv m ≡ some p = rw (lookup-insert, at, ==_refl s.recv) in
      let (rest, ready) = drain_loop-front (length (remove p.sent s.pending)) s.recv m p found in
      omega (
        arith,
        v.waits.open_gap e,
        length-remove-le p.sent s.pending,
        (drain_loop-length (length m) s.recv m v.counters.recv_fits).0,
        ap length ready,
      )

  store_beyond_gap-IsValid :
      (r : Readings)
      → p.sent ≢ s.recv
      → contains_key p.sent s.pending ≡ false
      → IsValid (store_beyond_gap r s p)
  unfolding store_beyond_gap
  store_beyond_gap-IsValid r off fresh = record {
    counters = omega arith;
    waits = record {
      keyed = keyed_insert;
      counted = omega (arith, length-insert_new p.sent p s.pending fresh, v.waits.counted);
      open_gap = λ e. ground arith;
      shut_gap = λ e. absurd (omega (arith, length-insert_new p.sent p s.pending fresh));
    };
    drained = rw (lookup-insert, ne→== p.sent s.recv off) v.drained;
    window = v.window;
    retries = v.retries;
  }

  -- Where a gap is given up, the drain starts at the counter of a pending packet.
  skip_to-IsValid :
      (r : Readings) (o : Option ℕ)
      → next_start s.recv (insert p.sent p s.pending) ≡ o
      → IsValid (store_beyond_gap r s p)
      → IsValid (skip_to r (store_beyond_gap r s p) o).0
  unfolding skip_to store_beyond_gap
  skip_to-IsValid r none e stored = stored
  skip_to-IsValid r (some start) e stored =
      drain_contiguous-IsValid r.drained _ (omega (arith, start_fits)) keyed_insert v.window
        v.retries (λ shut. ground arith)
    where
      start_fits : IsU32 start
      start_fits = elim (next_start-IsNearest s.recv (insert p.sent p s.pending)) [
        | inl (none_there, _) ↦ cc
        | inr (k, found, n) ↦
            let same : k ≡ start = cc in rw same at ((keyed_insert (k, n.packet) n.is_pending).1)
      ]

  recv_beyond_gap-IsValid :
      (r : Readings)
      → p.sent ≢ s.recv
      → contains_key p.sent s.pending ≡ false
      → IsValid (recv_beyond_gap r s p).0
  unfolding recv_beyond_gap
  recv_beyond_gap-IsValid r off fresh =
      let stored = store_beyond_gap-IsValid r off fresh in
      elim (Bool-cases (skips_gap r (store_beyond_gap r s p) p)) [
        | inr keep ↦ rw keep stored
        | inl skip ↦ rw skip (unfold store_beyond_gap in skip_to-IsValid r _ refl stored)
      ]

  front-IsValid :
      (now : ℕ) → p.sent ≡ s.recv → IsValid (drain_contiguous now (stored_at_front s p)).0
  front-IsValid now at =
      drain_contiguous-IsValid now (stored_at_front s p) (omega arith) keyed_insert v.window
        v.retries (λ e. front_leaves_none e at)

-- `recv` keeps the invariant, for any packet that can come off the wire.
pub recv-IsValid :
    (r : Readings) (s : PtcpSession) (p : PtcpPacket)
    → IsWirePacket p
    → IsValid s
    → IsValid (recv r s p).0
recv-IsValid r s p w v =
    let v' = note_header-IsValid s p w v in
    recv_cases (λ out. IsValid out.0) r s p (λ _. v')
      (λ _ at.
        front-IsValid (note_header s p) p w v' r.drained
          (unfold note_header acknowledge_sent in at))
      (λ _ off _ fresh.
        recv_beyond_gap-IsValid (note_header s p) p w v' r
          (unfold note_header acknowledge_sent in off)
          (unfold note_header acknowledge_sent in fresh))
