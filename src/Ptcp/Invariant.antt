-- ===== src/Ptcp/Invariant.antt =====
-- The invariant of a session, and that every operation of rust-engine/src/ptcp.rs keeps it.
pub mod Receive
pub mod Run
use dahua_p2p_bridge.Common.{
  ℕ, suc, ◌+◌, ◌-◌, ◌≤◌, ◌<◌, ◌≡◌, ◌≢◌, refl, sym, ap, ◌∙◌, ◌⊎◌, inl, inr, Bool, true, false, not,
  Bool-cases, Option, none, some, List, [], ◌∷◌, ◌++◌, In, All, length, ltb, leb, if◌then◌else◌,
  ◌==◌, ==_refl, ne→==, arith,
}
use dahua_p2p_bridge.Common.Words.{IsU32}
use dahua_p2p_bridge.Common.HashMap.{
  HashMap, lookup, insert, remove, contains_key, lookup-insert, In-insert, length-insert_new,
  length-remove-le,
}
use dahua_p2p_bridge.Ptcp.Wire.{PtcpBody, PtcpPacket, len}
use dahua_p2p_bridge.Ptcp.Wire.RoundTrip.{IsWirePacket}
use dahua_p2p_bridge.Ptcp.Session.{
  PtcpSession, TrackedPacket, from_state, set_allow_gap_skip, send, track, prune, acknowledge_sent,
  max_sent_window, max_retransmits,
}
use dahua_p2p_bridge.Ptcp.Session.Send.{HasCounters}
use dahua_p2p_bridge.Ptcp.Session.Window.{send-window-le, length-prune-le}
use dahua_p2p_bridge.Ptcp.Receive.{
  Readings, recv, recv_beyond_gap, note_header, store_beyond_gap, skips_gap, skip_to, next_start,
  drain_contiguous, drain_loop, get_or_insert, is_empty,
}
use dahua_p2p_bridge.Ptcp.Receive.Drain.{
  drain_loop-lookup, drain_loop-subset, drain_loop-length, drain_loop-front,
}
use dahua_p2p_bridge.Ptcp.Receive.Cases.{recv_cases, stored_at_front}
use dahua_p2p_bridge.Ptcp.Receive.Skip.{IsNearest, next_start-IsNearest}
use dahua_p2p_bridge.Ptcp.Retransmit.{due_retransmissions}
use dahua_p2p_bridge.Ptcp.Retransmit.Budget.{HasRetries}

-- The part about packets that wait: each stands under its own counter, a u32; the count of a gap is
-- at most their number; a gap is open exactly while some wait.
pub record WaitsWell (s : PtcpSession) : Type 0 where
  pub keyed : (e : ℕ × PtcpPacket) → In e s.pending → (e.0 ≡ (e.1).sent) × IsU32 e.0
  pub counted : s.gap_packets ≤ length s.pending
  pub open_gap : s.gap_since ≡ none → length s.pending ≡ 0
  pub shut_gap : length s.pending ≡ 0 → s.gap_since ≡ none

pub record IsValid (s : PtcpSession) : Type 0 where
  pub counters : HasCounters s
  pub waits : WaitsWell s
  pub drained : lookup s.recv s.pending ≡ none
  pub window : length s.sent_window ≤ max_sent_window
  pub retries : HasRetries s.sent_window

pub from_state-IsValid :
    (now sent recv count id rmid : ℕ)
    → IsU32 sent
    → IsU32 recv
    → IsU32 count
    → IsU32 id
    → IsU32 rmid
    → IsValid (from_state now sent recv count id rmid)
unfolding from_state lookup
from_state-IsValid now sent recv count id rmid a b c d e = record {
  counters = omega arith;
  waits = record {
    keyed = λ x i. absurd i;
    counted = omega arith;
    open_gap = λ _. refl;
    shut_gap = λ _. refl;
  };
  drained = refl;
  window = omega arith;
  retries = tt;
}

pub set_allow_gap_skip-IsValid :
    (s : PtcpSession) (allow : Bool) → IsValid s → IsValid (set_allow_gap_skip s allow)
unfolding set_allow_gap_skip
set_allow_gap_skip-IsValid s allow v = record {
  counters = omega arith;
  waits = record {
    keyed = v.waits.keyed;
    counted = v.waits.counted;
    open_gap = v.waits.open_gap;
    shut_gap = v.waits.shut_gap;
  };
  drained = v.drained;
  window = v.window;
  retries = v.retries;
}
