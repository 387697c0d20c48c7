-- ===== src/Ptcp/Receive/Strict.antt =====
-- A run of `recv` without permission to skip, over any arrivals of a stream: packets may be lost,
-- repeated and reordered.
use dahua_p2p_bridge.Common.{
  ℕ, ◌<◌, ◌^◌, ◌≡◌, refl, sym, ap, ◌∙◌, inl, inr, false, List, [], ◌∷◌, ◌++◌, append-nil,
  append_assoc, map, In, All, In-append_right, ◌⊎◌, arith,
}
use dahua_p2p_bridge.Common.Words.{IsU32}
use dahua_p2p_bridge.Common.HashMap.{lookup}
use dahua_p2p_bridge.Ptcp.Wire.{PtcpPacket}
use dahua_p2p_bridge.Ptcp.Session.{PtcpSession, from_state, set_allow_gap_skip}
use dahua_p2p_bridge.Ptcp.Stream.{stream_bytes, counter, IsStream}
use dahua_p2p_bridge.Ptcp.Receive.{Readings, recv}
use dahua_p2p_bridge.Ptcp.Receive.Progress.{
  Progress, Arrives, recv-Progress, done_before, left-IsStream,
}
use dahua_p2p_bridge.Ptcp.Receive.Kept.{Kept, recv-Kept}

abbrev pub Arrival : Type 0
Arrival = Readings × PtcpPacket

-- `recv` on one packet after the other, and all that it delivers.
unfoldable pub recv_all : PtcpSession → List Arrival → PtcpSession × List PtcpPacket
recv_all s [] = (s, [])
recv_all s ((r, p) ∷ arrivals) =
    let (s', ready) = recv r s p in let (s'', more) = recv_all s' arrivals in (s'', ready ++ more)

-- The state in which the engine starts, with strict ordering.
abbrev pub strict_session : ℕ → ℕ → ℕ → ℕ → ℕ → ℕ → PtcpSession
strict_session now sent recv count id rmid =
    set_allow_gap_skip (from_state now sent recv count id rmid) false

module _ (base : ℕ) (ps : List PtcpPacket) (stream : IsStream base 0 ps)
    (small : stream_bytes ps < 2 ^ 31) where
  recv_all-Progress :
      (arrivals : List Arrival) (s : PtcpSession) (done : List PtcpPacket)
      → Progress base ps s done
      → All (λ a. Arrives ps a.1) arrivals
      → let (s', ready) = recv_all s arrivals in Progress base ps s' (done ++ ready)
  unfolding recv_all
  recv_all-Progress [] s done g h = rw append-nil g
  recv_all-Progress ((r, p) ∷ arrivals) s done g h =
      let g' = recv-Progress base ps stream small r s p done g h.0 in
      rw (← append_assoc)
        (recv_all-Progress arrivals (recv r s p).0 (done ++ (recv r s p).1) g' h.1)

  recv_all-Kept :
      (arrivals : List Arrival) (s : PtcpSession) (done : List PtcpPacket) (q : PtcpPacket)
      → Progress base ps s done
      → All (λ a. Arrives ps a.1) arrivals
      → In q ps
      → Kept q (s, done) ⊎ In q (map (λ a. a.1) arrivals)
      → let (s', ready) = recv_all s arrivals in Kept q (s', done ++ ready)
  unfolding recv_all
  recv_all-Kept [] s done q g h j (inl k) = rw append-nil k
  recv_all-Kept [] s done q g h j (inr i) = absurd i
  recv_all-Kept ((r, p) ∷ arrivals) s done q g h j k =
      let g' = recv-Progress base ps stream small r s p done g h.0 in
      let step = recv-Kept base ps stream small s p done g r q h.0 j in
      rw (← append_assoc) (
        recv_all-Kept arrivals (recv r s p).0 (done ++ (recv r s p).1) q g' h.1 j (elim k [
          | inl k' ↦ inl (step (inr k'))
          | inr (inl e) ↦ inl (step (inl e))
          | inr (inr i) ↦ inr i
        ]))

  -- If all of the stream is delivered or pending, nothing is left.
  pub all-Kept :
      (s : PtcpSession) (done : List PtcpPacket)
      → Progress base ps s done
      → ((q : PtcpPacket) → In q ps → Kept q (s, done))
      → done ≡ ps
  all-Kept s done g kept = go g.held.left refl
    where
      go : (left : List PtcpPacket) → g.held.left ≡ left → done ≡ ps
      go [] e = sym (g.held.split ∙ ap (◌++◌ done) e ∙ append-nil done)
      go (x ∷ xs) e =
          let here : In x g.held.left = rw e (inl refl) in
          let front = (rw e at (left-IsStream base ps stream small s done g.held)).0 in
          let at_recv : x.sent ≡ s.recv = front ∙ sym g.held.recv_at in
          elim (kept x (rw g.held.split (In-append_right x done g.held.left here))) [
            | inl d ↦ absurd ((done_before base ps stream small s done g.held x d).0 at_recv)
            | inr l ↦ cc (ap (λ k. lookup k s.pending) at_recv, g.drained, l)
          ]

pub strict_session-Progress :
    (now sent base count id rmid : ℕ) (ps : List PtcpPacket)
    → IsU32 base
    → Progress base ps (strict_session now sent base count id rmid) []
unfolding from_state set_allow_gap_skip lookup
strict_session-Progress now sent base count id rmid ps h = record {
  held = record {
    left = ps;
    split = refl;
    recv_at = omega arith;
    waiting = λ e i. absurd i;
    strict = refl;
  };
  drained = refl;
}

-- Strict ordering delivers a piece of the stream from its front, nothing twice and nothing out of
-- order: after any arrivals what has been delivered is a prefix of what was sent, and the receive
-- offset is its end.
pub recv_all-prefix :
    (now sent base count id rmid : ℕ) (ps : List PtcpPacket) (arrivals : List Arrival)
    → IsU32 base
    → IsStream base 0 ps
    → stream_bytes ps < 2 ^ 31
    → All (λ a. Arrives ps a.1) arrivals
    → let (s', delivered) = recv_all (strict_session now sent base count id rmid) arrivals in
      (rest : List PtcpPacket) × (ps ≡ delivered ++ rest)
      × (s'.recv ≡ counter base (stream_bytes delivered))
recv_all-prefix now sent base count id rmid ps arrivals h stream small arrive =
    let s = strict_session now sent base count id rmid in
    let g = strict_session-Progress now sent base count id rmid ps h in
    let g' = recv_all-Progress base ps stream small arrivals s [] g arrive in
    (g'.held.left, g'.held.split, g'.held.recv_at)

-- And it waits for no packet that has arrived: once every packet of the stream has arrived, in any
-- order, the whole stream has been delivered.
pub recv_all_complete :
    (now sent base count id rmid : ℕ) (ps : List PtcpPacket) (arrivals : List Arrival)
    → IsU32 base
    → IsStream base 0 ps
    → stream_bytes ps < 2 ^ 31
    → All (λ a. Arrives ps a.1) arrivals
    → ((q : PtcpPacket) → In q ps → In q (map (λ a. a.1) arrivals))
    → (recv_all (strict_session now sent base count id rmid) arrivals).1 ≡ ps
recv_all_complete now sent base count id rmid ps arrivals h stream small arrive every =
    let s = strict_session now sent base count id rmid in
    let g = strict_session-Progress now sent base count id rmid ps h in
    let g' = recv_all-Progress base ps stream small arrivals s [] g arrive in
    all-Kept base ps stream small _ _ g'
      λ q i. recv_all-Kept base ps stream small arrivals s [] q g arrive i (inr (every q i))
