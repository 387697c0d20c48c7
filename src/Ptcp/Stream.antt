-- ===== src/Ptcp/Stream.antt =====
-- The byte stream behind the packets of one direction, without wrap-around: what `sent` and `recv`
-- of rust-engine/src/ptcp.rs stand for while a session has sent less than 2 ^ 31 bytes past `base`.
use dahua_p2p_bridge.Common.{
  ℕ, ◌+◌, ◌%◌, ◌^◌, ◌≤◌, ◌<◌, ◌≡◌, sym, ap, ◌∙◌, inl, inr, List, [], ◌∷◌, ◌++◌, In, arith,
}
use dahua_p2p_bridge.Common.Words.{u32_mod}
use native.Mathlib.Nat.{add-zero, add_assoc}
use dahua_p2p_bridge.Ptcp.Wire.{PtcpPacket, len}

-- The bytes of a list of packets.
abbrev pub stream_bytes : List PtcpPacket → ℕ
stream_bytes [] = 0
stream_bytes (p ∷ ps) = len p.body + stream_bytes ps

pub stream_bytes-append :
    (xs ys : List PtcpPacket) → stream_bytes (xs ++ ys) ≡ stream_bytes xs + stream_bytes ys
stream_bytes-append [] ys = omega arith
stream_bytes-append (x ∷ xs) ys = omega (arith, stream_bytes-append xs ys)

-- The counter at a position of the stream.
abbrev pub counter : ℕ → ℕ → ℕ
counter base a = (base + a) % u32_mod

-- Packets with content, each starting where the one before it ends, the first at position `a`.
abbrev pub IsStream : ℕ → ℕ → List PtcpPacket → Type 0
IsStream base a [] = Unit {0}
IsStream base a (p ∷ ps) =
    (p.sent ≡ counter base a) × (0 < len p.body) × IsStream base (a + len p.body) ps

-- Where a packet of the stream stands.
pub record Position (base a : ℕ) (ps : List PtcpPacket) (p : PtcpPacket) : Type 0 where
  pub at : ℕ
  pub after_start : a ≤ at
  pub has_counter : p.sent ≡ counter base at
  pub has_bytes : 0 < len p.body
  pub before_end : at + len p.body ≤ a + stream_bytes ps

pub position :
    (base a : ℕ) (ps : List PtcpPacket) (p : PtcpPacket)
    → IsStream base a ps
    → In p ps
    → Position base a ps p
position base a [] p s i = absurd i
position base a (x ∷ ps) p s (inl e) = record {
  at = a;
  after_start = omega arith;
  has_counter = ap (λ (q : PtcpPacket). q.sent) e ∙ s.0;
  has_bytes = rw e s.1;
  before_end = omega (arith, ap (λ (q : PtcpPacket). len q.body) e);
}
position base a (x ∷ ps) p s (inr i) =
    let q = position base (a + len x.body) ps p s.2 i in
    record {
      at = q.at;
      after_start = omega (arith, q.after_start);
      has_counter = q.has_counter;
      has_bytes = q.has_bytes;
      before_end = omega (arith, q.before_end);
    }

-- A stream splits where a list does.
pub IsStream-append :
    (base a : ℕ) (xs ys : List PtcpPacket)
    → IsStream base a (xs ++ ys)
    → IsStream base a xs × IsStream base (a + stream_bytes xs) ys
IsStream-append base a [] ys s = (tt, rw (add-zero) s)
IsStream-append base a (x ∷ xs) ys s =
    let (front, back) = IsStream-append base (a + len x.body) xs ys s.2 in
    ((s.0, s.1, front), rw (← add_assoc) back)

-- Two positions less than 2 ^ 31 bytes apart have the same counter only if they are the same.
pub counter_injective :
    (base a b : ℕ) → a < 2 ^ 31 → b < 2 ^ 31 → counter base a ≡ counter base b → a ≡ b
counter_injective base a b ha hb e = omega arith

-- The packet at the front of a stream is the only one with its counter.
pub In-front :
    (base a : ℕ) (x : PtcpPacket) (ps : List PtcpPacket) (p : PtcpPacket)
    → IsStream base a (x ∷ ps)
    → a + stream_bytes (x ∷ ps) < 2 ^ 31
    → In p (x ∷ ps)
    → p.sent ≡ counter base a
    → p ≡ x
In-front base a x ps p s h (inl e) c = e
In-front base a x ps p s h (inr i) c =
    let q = position base (a + len x.body) ps p s.2 i in
    absurd (
      omega (
        arith,
        q.after_start,
        q.before_end,
        q.has_bytes,
        s.1,
        counter_injective base a q.at (omega (arith, q.before_end)) (omega (arith, q.before_end))
            (sym c ∙ q.has_counter),
      ))

-- A counter names one packet of the stream.
pub sent_injective :
    (base a : ℕ) (ps : List PtcpPacket) (p q : PtcpPacket)
    → IsStream base a ps
    → a + stream_bytes ps < 2 ^ 31
    → In p ps
    → In q ps
    → p.sent ≡ q.sent
    → p ≡ q
sent_injective base a [] p q s h i j e = absurd i
sent_injective base a (x ∷ ps) p q s h (inl i) j e =
    i ∙ sym (In-front base a x ps q s h j (sym e ∙ ap (λ (t : PtcpPacket). t.sent) i ∙ s.0))
sent_injective base a (x ∷ ps) p q s h (inr i) (inl j) e =
    In-front base a x ps p s h (inr i) (e ∙ ap (λ (t : PtcpPacket). t.sent) j ∙ s.0) ∙ sym j
sent_injective base a (x ∷ ps) p q s h (inr i) (inr j) e =
    sent_injective base (a + len x.body) ps p q s.2 (omega arith) i j e
