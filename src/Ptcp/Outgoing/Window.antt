-- ===== src/Ptcp/Outgoing/Window.antt =====
-- What the operations of a session do to its sending side.
use dahua_p2p_bridge.Common.{
  ℕ, ◌≡◌, refl, ap, ◌⊎◌, ◌||◌, inl, inr, Bool-cases, Option-cases, List, [], ◌∷◌, In,
  In-append_cases, length, leb, if◌then◌else◌, ◌==◌,
}
use dahua_p2p_bridge.Ptcp.Wire.{PtcpPacket}
use dahua_p2p_bridge.Ptcp.Session.{
  PtcpSession, TrackedPacket, track, prune, packet_end, pop_front, max_sent_window,
}
use dahua_p2p_bridge.Ptcp.Sequence.{sequence_after}
use dahua_p2p_bridge.Ptcp.Receive.{
  Readings, recv, recv_beyond_gap, note_header, store_beyond_gap, skips_gap, skip_to, next_start,
  drain_contiguous,
}
use dahua_p2p_bridge.Ptcp.Receive.Cases.{recv_cases}
use dahua_p2p_bridge.Ptcp.Retransmit.{is_due, retransmit}

pub In-prune :
    (b : ℕ) (t : TrackedPacket) (window : List TrackedPacket) → In t (prune b window) → In t window
unfolding prune
In-prune b t [] i = i
In-prune b t (x ∷ window) i =
    elim (Bool-cases (packet_end x.packet == b || sequence_after b (packet_end x.packet))) [
      | inl gone ↦ inr (In-prune b t window (rw gone at i))
      | inr stays ↦ rw stays at i
    ]

In-pop_front :
    (t : TrackedPacket) (window : List TrackedPacket) → In t (pop_front window) → In t window
In-pop_front t [] i = i
In-pop_front t (x ∷ window) i = inr i

-- The window after `send` has the packet that was sent, and else what it had.
pub In-track :
    (now : ℕ) (p : PtcpPacket) (t : TrackedPacket) (window : List TrackedPacket)
    → In t (track now p window)
    → (t.packet ≡ p) ⊎ In t window
unfolding track
In-track now p t window i =
    elim (In-append_cases t
      (if leb max_sent_window (length window) then pop_front window else window) _ i) [
        | inl old ↦ elim (Bool-cases (leb max_sent_window (length window))) [
          | inl full ↦ inr (In-pop_front t window (rw full at old))
          | inr room ↦ inr (rw room at old)
        ]
        | inr (inl e) ↦ inl (ap (λ x. x.packet) e)
        | inr (inr i') ↦ absurd i'
      ]

-- The packets that are tracked after a tick, and those that are sent again, were tracked before.
pub In-retransmit :
    (now : ℕ) (window : List TrackedPacket)
    → ((t : TrackedPacket)
        → In t (retransmit now window).0
        → (t' : TrackedPacket) × In t' window × (t.packet ≡ t'.packet))
      × ((p : PtcpPacket)
          → In p (retransmit now window).1
          → (t' : TrackedPacket) × In t' window × (p ≡ t'.packet))
unfolding retransmit
In-retransmit now [] = (λ t i. absurd i, λ p i. absurd i)
In-retransmit now (x ∷ window) =
    let (kept, again) = In-retransmit now window in
    elim (Bool-cases (is_due now x)) [
      | inl due ↦ rw due (
        λ t i. elim i [
          | inl e ↦ (x, inl refl, ap (λ z. z.packet) e)
          | inr j ↦ let (t', k, same) = kept t j in (t', inr k, same)
        ],
        λ p i. elim i [
          | inl e ↦ (x, inl refl, e)
          | inr j ↦ let (t', k, same) = again p j in (t', inr k, same)
        ],
      )
      | inr waits ↦ rw waits (
        λ t i. elim i [
          | inl e ↦ (x, inl refl, ap (λ z. z.packet) e)
          | inr j ↦ let (t', k, same) = kept t j in (t', inr k, same)
        ],
        λ p i. let (t', k, same) = again p i in (t', inr k, same),
      )
    ]

-- The sending sides agree.
abbrev pub SameOutbound : PtcpSession → PtcpSession → Type 0
SameOutbound s t = (s.sent ≡ t.sent) × (s.sent_window ≡ t.sent_window)

recv_beyond_gap-SameOutbound :
    (r : Readings) (s : PtcpSession) (p : PtcpPacket) → SameOutbound (recv_beyond_gap r s p).0 s
unfolding recv_beyond_gap store_beyond_gap skip_to drain_contiguous
recv_beyond_gap-SameOutbound r s p = elim (Bool-cases (skips_gap r (store_beyond_gap r s p) p)) [
  | inr waits ↦ rw (recv_beyond_gap, waits) (refl, refl)
  | inl skips ↦
      elim (Option-cases
        (next_start (store_beyond_gap r s p).recv (store_beyond_gap r s p).pending)) [
          | inl e ↦ rw (recv_beyond_gap, skips, e) (refl, refl)
          | inr (start, e) ↦ rw (recv_beyond_gap, skips, e) (refl, refl)
        ]
]

-- Of the sending side `recv` changes only the window, by the acknowledgement.
pub recv-SameOutbound :
    (r : Readings) (s : PtcpSession) (p : PtcpPacket)
    → ((recv r s p).0.sent ≡ s.sent) × ((recv r s p).0.sent_window ≡ prune p.recv s.sent_window)
unfolding note_header drain_contiguous
recv-SameOutbound r s p =
    recv_cases (λ out. (out.0.sent ≡ s.sent) × (out.0.sent_window ≡ prune p.recv s.sent_window)) r s
      p (λ _. (refl, refl)) (λ _ _. (refl, refl))
      (λ _ _ _ _. recv_beyond_gap-SameOutbound r (note_header s p) p)
