-- ===== src/Ptcp/Receive/Order.antt =====
-- What one call of `recv` delivers, with permission to skip or without.
use dahua_p2p_bridge.Common.{
  ℕ, ◌+◌, ◌≤◌, ◌≡◌, refl, ◌⊎◌, inl, inr, Bool, true, false, not, ◌&&◌, ◌||◌, Bool-cases, List, [],
  ◌∷◌, In, leb, leb→le, length, any, arith,
}
use dahua_p2p_bridge.Common.HashMap.{HashMap, insert, In-insert}
use dahua_p2p_bridge.Ptcp.Wire.{PtcpPacket}
use dahua_p2p_bridge.Ptcp.Session.{PtcpSession, acknowledge_sent, gap_packet_limit}
use dahua_p2p_bridge.Ptcp.Receive.{
  Readings, recv, recv_beyond_gap, note_header, store_beyond_gap, skips_gap, skip_to, gap_expired,
  get_or_insert, is_payload, is_recovery_command, drain_contiguous,
}
use dahua_p2p_bridge.Ptcp.Receive.Drain.{IsChain, chain_end, Keyed, drain_loop-IsChain}
use dahua_p2p_bridge.Ptcp.Receive.Cases.{recv_cases, stored_at_front}
use dahua_p2p_bridge.Ptcp.Receive.Skip.{IsNearest, next_start-IsNearest}

-- The packets that wait once `p` is stored.
abbrev pub with_packet : PtcpSession → PtcpPacket → HashMap PtcpPacket
with_packet s p = insert p.sent p s.pending

-- Why a gap may be given up: it is older than the timeout, or no payload waits behind it and it is a
-- recovery command that arrived, or the 32nd packet beyond the gap.
abbrev MayGiveUp : Readings → PtcpSession → PtcpPacket → Type 0
MayGiveUp r s p =
    (gap_expired r (get_or_insert s.gap_since r.gap_opened) ≡ true)
    ⊎ (((e : ℕ × PtcpPacket) → In e (with_packet s p) → is_payload (e.1).body ≡ false)
        × ((is_recovery_command p ≡ true) ⊎ (gap_packet_limit ≤ s.gap_packets + 1)))

pub record Skips (r : Readings) (s : PtcpSession) (p : PtcpPacket) (start : ℕ) : Type 0 where
  pub allowed : s.allow_gap_skip ≡ true
  pub may : MayGiveUp r s p
  pub nearest : IsNearest s.recv (with_packet s p) start

-- A call delivers a chain from `start` to the new receive offset.
pub record Delivers (r : Readings) (s : PtcpSession) (p : PtcpPacket)
    (out : PtcpSession × List PtcpPacket) : Type 0 where
  pub start : ℕ
  pub chain : IsChain start out.1
  pub at_end : (out.0).recv ≡ chain_end start out.1
  pub from : (start ≡ s.recv) ⊎ Skips r s p start

any-false :
    {A : Type 0} (test : A → Bool) (xs : List A) (x : A)
    → any test xs ≡ false
    → In x xs
    → test x ≡ false
any-false test [] x e i = absurd i
any-false test (y ∷ ys) x e (inl same) = rw same (ground arith)
any-false test (y ∷ ys) x e (inr i) = any-false test ys x (ground arith) i

skip_test :
    (allow safe expired recovery limit : Bool)
    → (allow && (safe || expired) && (recovery || limit || expired)) ≡ true
    → (allow ≡ true) × ((expired ≡ true) ⊎ ((safe ≡ true) × ((recovery ≡ true) ⊎ (limit ≡ true))))
skip_test allow safe expired recovery limit e = ground arith

skips_gap-MayGiveUp :
    (r : Readings) (s : PtcpSession) (p : PtcpPacket)
    → skips_gap r (store_beyond_gap r s p) p ≡ true
    → (s.allow_gap_skip ≡ true) × MayGiveUp r s p
unfolding skips_gap store_beyond_gap
skips_gap-MayGiveUp r s p e =
    let video = λ (x : ℕ × PtcpPacket). is_payload (x.1).body in
    let (allowed, why) =
      skip_test s.allow_gap_skip (not (is_payload p.body) && not (any video (with_packet s p)))
        (gap_expired r (get_or_insert s.gap_since r.gap_opened)) (is_recovery_command p)
        (leb gap_packet_limit (s.gap_packets + 1)) e in
    (
      allowed,
      elim why [
        | inl expired ↦ inl expired
        | inr (safe, reason) ↦ inr (
          λ x i. any-false video (with_packet s p) x (ground arith) i,
          elim reason [ inl recovery ↦ inl recovery | inr limit ↦ inr (leb→le _ _ limit) ],
        )
      ],
    )

drain_contiguous-Delivers :
    (now : ℕ) (r : Readings) (s s' : PtcpSession) (p : PtcpPacket)
    → Keyed s'.pending
    → (s'.recv ≡ s.recv) ⊎ Skips r s p s'.recv
    → Delivers r s p (drain_contiguous now s')
unfolding drain_contiguous
drain_contiguous-Delivers now r s s' p h from =
    let d = drain_loop-IsChain (length s'.pending) s'.recv s'.pending h in
    record { start = s'.recv; chain = d.0; at_end = d.1; from = from }

Delivers-nothing :
    (r : Readings) (s s' : PtcpSession) (p : PtcpPacket)
    → s'.recv ≡ s.recv
    → Delivers r s p (s', [])
Delivers-nothing r s s' p e = record { start = s.recv; chain = tt; at_end = e; from = inl refl }

pub Keyed-insert : (s : PtcpSession) (p : PtcpPacket) → Keyed s.pending → Keyed (with_packet s p)
Keyed-insert s p h e i = elim (In-insert e p.sent p s.pending i) [
  | inl new ↦ rw new refl
  | inr old ↦ h e old
]

recv_beyond_gap-Delivers :
    (r : Readings) (s : PtcpSession) (p : PtcpPacket)
    → Keyed s.pending
    → Delivers r s p (recv_beyond_gap r s p)
unfolding recv_beyond_gap skip_to store_beyond_gap
recv_beyond_gap-Delivers r s p h = elim (Bool-cases (skips_gap r (store_beyond_gap r s p) p)) [
  | inr keep ↦ rw keep (Delivers-nothing r s _ p refl)
  | inl skip ↦ elim (next_start-IsNearest s.recv (with_packet s p)) [
    | inl (e, far) ↦ rw (skip, e) (Delivers-nothing r s _ p refl)
    | inr (start, e, n) ↦
        let (allowed, may) = skips_gap-MayGiveUp r s p skip in
        rw (skip, e)
          (drain_contiguous-Delivers r.drained r s _ p (Keyed-insert s p h)
            (inr (record { allowed = allowed; may = may; nearest = n })))
  ]
]

-- The header of the packet changes nothing that matters here.
before_header :
    (r : Readings) (s : PtcpSession) (p : PtcpPacket) {out : PtcpSession × List PtcpPacket}
    → Delivers r (note_header s p) p out
    → Delivers r s p out
unfolding note_header acknowledge_sent
before_header r s p d = record {
  start = d.start;
  chain = d.chain;
  at_end = d.at_end;
  from = elim d.from [
    | inl e ↦ inl e
    | inr k ↦ inr (record { allowed = k.allowed; may = k.may; nearest = k.nearest })
  ];
}

-- What a call of `recv` delivers is contiguous and ends at the new receive offset. It starts at the
-- old offset, or at the nearest pending packet, if skipping is allowed and the gap may be given up.
pub recv-Delivers :
    (r : Readings) (s : PtcpSession) (p : PtcpPacket)
    → Keyed s.pending
    → Delivers r s p (recv r s p)
unfolding note_header acknowledge_sent
recv-Delivers r s p h =
    recv_cases (Delivers r s p) r s p (λ _. Delivers-nothing r s _ p refl)
      (λ _ _.
        drain_contiguous-Delivers r.drained r s (stored_at_front (note_header s p) p) p
          (Keyed-insert s p h) (inl refl))
      (λ _ _ _ _. before_header r s p (recv_beyond_gap-Delivers r (note_header s p) p h))
