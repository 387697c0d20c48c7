-- ===== src/Ptcp/Retransmit/Budget.antt =====
-- How often a packet can be sent again.
use dahua_p2p_bridge.Common.{
  ℕ, suc, ◌+◌, ◌-◌, ◌≤◌, ◌≡◌, refl, ap, ◌∙◌, List, [], ◌∷◌, ◌++◌, length, All, Bool, Bool-cases,
  inl, inr, ◌*◌, if◌then◌else◌, arith,
}
use dahua_p2p_bridge.Ptcp.Wire.{PtcpPacket}
use dahua_p2p_bridge.Ptcp.Session.{PtcpSession, TrackedPacket, max_retransmits}
use dahua_p2p_bridge.Ptcp.Session.Window.{tracked}
use dahua_p2p_bridge.Ptcp.Retransmit.{retransmit, due_retransmissions}

abbrev pub HasRetries : List TrackedPacket → Type 0
HasRetries = All λ t. t.retries ≤ max_retransmits

-- How many of the packets pass a test.
abbrev pub count : (PtcpPacket → Bool) → List PtcpPacket → ℕ
count test [] = 0
count test (p ∷ packets) = (if test p then 1 else 0) + count test packets

-- How many more times the packets of a window that pass a test may be sent.
abbrev pub budget : (PtcpPacket → Bool) → List TrackedPacket → ℕ
budget test [] = 0
budget test (t ∷ window) =
    (if test t.packet then max_retransmits - t.retries else 0) + budget test window

count-append :
    (test : PtcpPacket → Bool) (xs ys : List PtcpPacket)
    → count test (xs ++ ys) ≡ count test xs + count test ys
count-append test [] ys = omega arith
count-append test (x ∷ xs) ys = omega (arith, count-append test xs ys)

budget_bound :
    (test : PtcpPacket → Bool) (window : List TrackedPacket)
    → budget test window ≤ 50 * count test (tracked window)
budget_bound test [] = omega arith
budget_bound test (t ∷ window) =
    let ih = budget_bound test window in
    elim (Bool-cases (test t.packet)) [
      | inl passes ↦ rw passes (omega (arith, ih))
      | inr fails ↦ rw fails (omega (arith, ih))
    ]

pub retransmit_keeps :
    (now : ℕ) (window : List TrackedPacket)
    → HasRetries window
    → let (window', due) = retransmit now window in
      HasRetries window' × (tracked window' ≡ tracked window)
unfolding retransmit
retransmit_keeps now [] h = (tt, refl)
retransmit_keeps now (t ∷ window) h =
    let (ih, same) = retransmit_keeps now window h.1 in ground (arith, h.0, ih, same)

retransmit-budget :
    (test : PtcpPacket → Bool) (now : ℕ) (window : List TrackedPacket)
    → HasRetries window
    → let (window', due) = retransmit now window in
      budget test window ≡ budget test window' + count test due
unfolding retransmit
retransmit-budget test now [] h = refl
retransmit-budget test now (t ∷ window) h =
    let ih = retransmit-budget test now window h.1 in
    elim (Bool-cases (test t.packet)) [
      | inl passes ↦ ground (arith, passes, h.0, ih)
      | inr fails ↦ ground (arith, fails, h.0, ih)
    ]

-- A tick of the retransmission task at each of the given instants, and all that it sends.
unfoldable pub tick_all : PtcpSession → List ℕ → PtcpSession × List PtcpPacket
tick_all s [] = (s, [])
tick_all s (now ∷ nows) =
    let (s', due) = due_retransmissions now s in
    let (s'', more) = tick_all s' nows in (s'', due ++ more)

tick_all_spends :
    (test : PtcpPacket → Bool) (nows : List ℕ) (s : PtcpSession)
    → HasRetries s.sent_window
    → let (s', due) = tick_all s nows in
      HasRetries s'.sent_window
      × (tracked s'.sent_window ≡ tracked s.sent_window)
      × (budget test s.sent_window ≡ budget test s'.sent_window + count test due)
unfolding tick_all due_retransmissions
tick_all_spends test [] s h = (h, refl, omega arith)
tick_all_spends test (now ∷ nows) s h =
    let (h', same) = retransmit_keeps now s.sent_window h in
    let spent = retransmit-budget test now s.sent_window h in
    let (s', due) = due_retransmissions now s in
    let (h'', same', spent') = tick_all_spends test nows s' h' in
    (h'', same' ∙ same, rw count-append (omega (arith, spent, spent')))

-- With no acknowledgement, however many ticks pass, the packets stay tracked, and whatever test picks
-- out packets: those that pass it are sent again at most 50 times for each that is tracked, and what is
-- sent of them and what is left of their budget add up. So each tracked packet is sent again unchanged,
-- at most 50 times, and nothing else is sent.
pub tick_all-budget :
    (test : PtcpPacket → Bool) (nows : List ℕ) (s : PtcpSession)
    → HasRetries s.sent_window
    → let (s', due) = tick_all s nows in
      HasRetries s'.sent_window
      × (tracked s'.sent_window ≡ tracked s.sent_window)
      × (budget test s.sent_window ≡ budget test s'.sent_window + count test due)
      × (count test due ≤ 50 * count test (tracked s.sent_window))
tick_all-budget test nows s h =
    let (kept, same, spent) = tick_all_spends test nows s h in
    (kept, same, spent, omega (arith, spent, budget_bound test s.sent_window))

pub length-tracked : (window : List TrackedPacket) → length (tracked window) ≡ length window
length-tracked [] = refl
length-tracked (t ∷ window) = ap suc (length-tracked window)
