-- ===== src/Ptcp/Invariant/Run.antt =====
-- Every operation keeps the invariant of a session.
use dahua_p2p_bridge.Common.{
  ℕ, ◌≡◌, refl, ap, inl, inr, Bool, Bool-cases, List, [], ◌∷◌, ◌++◌, length, ltb, leb,
  if◌then◌else◌, arith,
}
use dahua_p2p_bridge.Common.Words.{IsU32}
use dahua_p2p_bridge.Ptcp.Wire.{PtcpBody, PtcpPacket, len}
use dahua_p2p_bridge.Ptcp.Wire.RoundTrip.{IsWirePacket}
use dahua_p2p_bridge.Ptcp.Session.{
  PtcpSession, TrackedPacket, from_state, set_allow_gap_skip, send, track, max_sent_window,
  pop_front,
}
use dahua_p2p_bridge.Ptcp.Session.Window.{send-window-le}
use dahua_p2p_bridge.Ptcp.Receive.{Readings, recv}
use dahua_p2p_bridge.Ptcp.Retransmit.{retransmit, due_retransmissions}
use dahua_p2p_bridge.Ptcp.Retransmit.Budget.{HasRetries, retransmit_keeps, length-tracked}
use dahua_p2p_bridge.Ptcp.Invariant.{IsValid, from_state-IsValid, set_allow_gap_skip-IsValid}
use dahua_p2p_bridge.Ptcp.Invariant.Receive.{recv-IsValid}

HasRetries-append :
    (window : List TrackedPacket) (t : TrackedPacket)
    → t.retries ≡ 0
    → HasRetries window
    → HasRetries (window ++ (t ∷ []))
HasRetries-append [] t e h = omega arith
HasRetries-append (x ∷ window) t e h = (h.0, HasRetries-append window t e h.1)

HasRetries-pop_front :
    (window : List TrackedPacket) → HasRetries window → HasRetries (pop_front window)
HasRetries-pop_front [] h = tt
HasRetries-pop_front (x ∷ window) h = h.1

track-HasRetries :
    (now : ℕ) (p : PtcpPacket) (window : List TrackedPacket)
    → HasRetries window
    → HasRetries (track now p window)
unfolding track
track-HasRetries now p window h =
    HasRetries-append (if leb max_sent_window (length window) then pop_front window else window)
      (record { packet = p; last_sent = now; retries = 0 }) refl
      (elim (Bool-cases (leb max_sent_window (length window))) [
        | inl full ↦ rw full (HasRetries-pop_front window h)
        | inr room ↦ rw room h
      ])

-- `send` keeps the invariant.
pub send-IsValid :
    (now : ℕ) (s : PtcpSession) (body : PtcpBody) → IsValid s → IsValid (send now s body).0
unfolding send
send-IsValid now s body v = record {
  counters = omega arith;
  waits = record {
    keyed = v.waits.keyed;
    counted = v.waits.counted;
    open_gap = v.waits.open_gap;
    shut_gap = v.waits.shut_gap;
  };
  drained = v.drained;
  window = send-window-le now s body v.window;
  retries = elim (Bool-cases (ltb 0 (len body))) [
    | inl full ↦ rw full (track-HasRetries now _ s.sent_window v.retries)
    | inr bare ↦ rw bare v.retries
  ];
}

-- A tick of the retransmission task keeps the invariant.
pub due_retransmissions-IsValid :
    (now : ℕ) (s : PtcpSession) → IsValid s → IsValid (due_retransmissions now s).0
unfolding due_retransmissions
due_retransmissions-IsValid now s v =
    let (retries, same) = retransmit_keeps now s.sent_window v.retries in
    record {
      counters = omega arith;
      waits = record {
        keyed = v.waits.keyed;
        counted = v.waits.counted;
        open_gap = v.waits.open_gap;
        shut_gap = v.waits.shut_gap;
      };
      drained = v.drained;
      window = omega (
        arith,
        ap length same,
        length-tracked (retransmit now s.sent_window).0,
        length-tracked s.sent_window,
        v.window,
      );
      retries = retries;
    }

-- What the tasks of the engine do to the session that they share, one lock at a time.
pub data Step : PtcpSession → PtcpSession → Type 0 where
  sends : (now : ℕ) (s : PtcpSession) (body : PtcpBody) → Step s (send now s body).0
  receives :
      (r : Readings) (s : PtcpSession) (p : PtcpPacket) → IsWirePacket p → Step s (recv r s p).0
  ticks : (now : ℕ) (s : PtcpSession) → Step s (due_retransmissions now s).0

pub data Reach (s : PtcpSession) : PtcpSession → Type 0 where
  start : Reach s s
  next : {t u : PtcpSession} → Reach s t → Step t u → Reach s u

Step-IsValid : {s t : PtcpSession} → Step s t → IsValid s → IsValid t
Step-IsValid (sends now s body) v = send-IsValid now s body v
Step-IsValid (receives r s p w) v = recv-IsValid r s p w v
Step-IsValid (ticks now s) v = due_retransmissions-IsValid now s v

Reach-IsValid : {s t : PtcpSession} → IsValid s → Reach s t → IsValid t
Reach-IsValid v start = v
Reach-IsValid v (next r step) = Step-IsValid step (Reach-IsValid v r)

-- Whatever order the tasks take the lock in, a session that was made by `from_state` keeps the
-- invariant, with permission to skip or without.
pub Reach-from_state-IsValid :
    (now sent recv count id rmid : ℕ) (allow : Bool) (t : PtcpSession)
    → IsU32 sent
    → IsU32 recv
    → IsU32 count
    → IsU32 id
    → IsU32 rmid
    → Reach (set_allow_gap_skip (from_state now sent recv count id rmid) allow) t
    → IsValid t
Reach-from_state-IsValid now sent recv count id rmid allow t a b c d e =
    Reach-IsValid (
      set_allow_gap_skip-IsValid _ allow (from_state-IsValid now sent recv count id rmid a b c d e))
