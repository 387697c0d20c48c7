-- ===== src/Ptcp/Outgoing.antt =====
-- What a session sends while it also receives and retransmits, over a network to a session that receives
-- with strict ordering.
pub mod Window
use dahua_p2p_bridge.Common.{
  ℕ, ◌+◌, ◌<◌, ◌^◌, ◌≡◌, refl, sym, ap, ◌∙◌, inl, inr, true, Bool-cases, List, [], ◌∷◌, ◌++◌,
  append-nil, map, length, length-append, In, In-append_left, In-append_right, In-append_cases, All,
  All-append, ltb, ltb→lt, if◌then◌else◌, ok, arith,
}
use mathlib.Core.List.{map-append}
use native.Mathlib.Nat.{add-zero, add_assoc}
use dahua_p2p_bridge.Ptcp.Wire.{PtcpBody, PtcpPacket, len}
use dahua_p2p_bridge.Ptcp.Wire.RoundTrip.{IsWireBody, IsWirePacket}
use dahua_p2p_bridge.Ptcp.Session.{PtcpSession, TrackedPacket, send}
use dahua_p2p_bridge.Ptcp.Session.Send.{
  content, send_all, content-cons-IsStream, send_all-IsWirePacket,
}
use dahua_p2p_bridge.Ptcp.Stream.{stream_bytes, stream_bytes-append, counter, IsStream}
use dahua_p2p_bridge.Ptcp.Receive.{Readings, recv}
use dahua_p2p_bridge.Ptcp.Receive.Progress.{Arrives}
use dahua_p2p_bridge.Ptcp.Receive.Strict.{
  Arrival, recv_all, strict_session, recv_all-prefix, recv_all_complete,
}
use dahua_p2p_bridge.Ptcp.Retransmit.{due_retransmissions}
use dahua_p2p_bridge.Ptcp.Invariant.{IsValid}
use dahua_p2p_bridge.Ptcp.Invariant.Receive.{recv-IsValid}
use dahua_p2p_bridge.Ptcp.Invariant.Run.{send-IsValid, due_retransmissions-IsValid}
use dahua_p2p_bridge.Ptcp.Transfer.{
  recv_datagrams, datagrams, content_bodies, In-content, All-In, recv_datagrams-serialize,
}
use dahua_p2p_bridge.Ptcp.Outgoing.Window.{In-prune, In-track, In-retransmit, recv-SameOutbound}

content-append : (xs ys : List PtcpPacket) → content (xs ++ ys) ≡ content xs ++ content ys
content-append [] ys = refl
content-append (x ∷ xs) ys = elim (Bool-cases (ltb 0 (len x.body))) [
  | inl full ↦ rw full (ap (◌∷◌ x) (content-append xs ys))
  | inr bare ↦ rw bare (content-append xs ys)
]

append-IsStream :
    (base a : ℕ) (xs ys : List PtcpPacket)
    → IsStream base a xs
    → IsStream base (a + stream_bytes xs) ys
    → IsStream base a (xs ++ ys)
append-IsStream base a [] ys s t = rw add-zero at t
append-IsStream base a (x ∷ xs) ys s t =
    (s.0, s.1, append-IsStream base (a + len x.body) xs ys s.2 (rw (← add_assoc) at t))

content_bytes : (p : PtcpPacket) → stream_bytes (content (p ∷ [])) ≡ len p.body
content_bytes p = ground arith

content_body :
    (now : ℕ) (p : PtcpPacket)
    → map (λ q. q.body) (content (p ∷ [])) ≡ content_bodies ((now, p.body) ∷ [])
content_body now p = elim (Bool-cases (ltb 0 (len p.body))) [
  | inl full ↦ rw full refl
  | inr bare ↦ rw bare refl
]

-- The bytes of some bodies.
abbrev pub total_len : List PtcpBody → ℕ
total_len [] = 0
total_len (body ∷ bodies) = len body + total_len bodies

total_len-stream_bytes : (ps : List PtcpPacket) → total_len (map (λ p. p.body) ps) ≡ stream_bytes ps
total_len-stream_bytes [] = refl
total_len-stream_bytes (p ∷ ps) = omega (arith, total_len-stream_bytes ps)

content-In :
    (ps : List PtcpPacket) (q : PtcpPacket)
    → In q (content ps)
    → In q ps × (ltb 0 (len q.body) ≡ true)
content-In [] q i = absurd i
content-In (p ∷ ps) q i = elim (Bool-cases (ltb 0 (len p.body))) [
  | inl full ↦ elim (rw full at i) [
    | inl e ↦ (inl e, ap (λ (x : PtcpPacket). ltb 0 (len x.body)) e ∙ full)
    | inr j ↦ let (k, h) = content-In ps q j in (inr k, h)
  ]
  | inr bare ↦ let (k, h) = content-In ps q (rw bare at i) in (inr k, h)
]

In-full_content :
    (ps : List PtcpPacket) (q : PtcpPacket)
    → In q ps
    → ltb 0 (len q.body) ≡ true
    → In q (content ps)
In-full_content [] q i h = absurd i
In-full_content (p ∷ ps) q (inl e) h =
    rw (sym (ap (λ (x : PtcpPacket). ltb 0 (len x.body)) e) ∙ h) (inl e)
In-full_content (p ∷ ps) q (inr i) h = elim (Bool-cases (ltb 0 (len p.body))) [
  | inl full ↦ rw full (inr (In-full_content ps q i h))
  | inr bare ↦ rw bare (In-full_content ps q i h)
]

-- The session has made some packets, whose contents are these bodies, one behind the other in its
-- counters from `base` on; whatever it tracks and whatever has been sent is one of these packets.
pub record Outgoing (base : ℕ) (s : PtcpSession) (contents : List PtcpBody) (sent : List PtcpPacket)
    : Type 0 where
  pub made : List PtcpPacket
  pub valid : IsValid s
  pub at : s.sent ≡ counter base (stream_bytes (content made))
  pub stream : IsStream base 0 (content made)
  pub wire : All IsWirePacket made
  pub window : (t : TrackedPacket) → In t s.sent_window → In t.packet made
  pub out : (p : PtcpPacket) → In p sent → In p made
  pub put_out : (p : PtcpPacket) → In p made → In p sent
  pub carries : map (λ p. p.body) (content made) ≡ contents

module _ (base : ℕ) (s : PtcpSession) (contents : List PtcpBody) (sent : List PtcpPacket)
    (o : Outgoing base s contents sent) where
  send-window :
      (now : ℕ) (body : PtcpBody) (t : TrackedPacket)
      → In t (send now s body).0.sent_window
      → In t.packet (o.made ++ ((send now s body).1 ∷ []))
  unfolding send
  send-window now body t i = elim (Bool-cases (ltb 0 (len body))) [
    | inl full ↦ elim (In-track now _ t s.sent_window (rw full at i)) [
      | inl new ↦ In-append_right t.packet o.made _ (inl new)
      | inr old ↦ In-append_left t.packet o.made _ (o.window t old)
    ]
    | inr bare ↦ In-append_left t.packet o.made _ (o.window t (rw bare at i))
  ]

  pub send-Outgoing :
      (now : ℕ) (body : PtcpBody)
      → IsWireBody body
      → Outgoing base
          (send now s body).0
          (contents ++ content_bodies ((now, body) ∷ []))
          (sent ++ ((send now s body).1 ∷ []))
  unfolding send
  send-Outgoing now body fits =
      let p : PtcpPacket = (send now s body).1 in
      record {
        made = o.made ++ (p ∷ []);
        valid = send-IsValid now s body o.valid;
        at = rw (content-append, stream_bytes-append, content_bytes p) (omega (arith, o.at));
        stream = rw content-append (
            append-IsStream base 0 (content o.made) _ o.stream (
              content-cons-IsStream base (0 + stream_bytes (content o.made)) p []
                (omega (arith, o.at)) tt));
        wire = All-append IsWirePacket o.made _ o.wire (
            unfold send_all in
            (send_all-IsWirePacket ((now, body) ∷ []) s o.valid.counters (fits, tt)));
        window = send-window now body;
        out = λ q i. elim (In-append_cases q sent (p ∷ []) i) [
          | inl old ↦ In-append_left q o.made _ (o.out q old)
          | inr new ↦ In-append_right q o.made _ new
        ];
        put_out = λ q i. elim (In-append_cases q o.made (p ∷ []) i) [
          | inl old ↦ In-append_left q sent _ (o.put_out q old)
          | inr new ↦ In-append_right q sent _ new
        ];
        carries =
            rw (content-append, map-append, o.carries)
              (ap (λ b. contents ++ b) (content_body now p));
      }

  pub recv-Outgoing :
      (r : Readings) (p : PtcpPacket) → IsWirePacket p → Outgoing base (recv r s p).0 contents sent
  recv-Outgoing r p fits =
      let (same, pruned) = recv-SameOutbound r s p in
      record {
        made = o.made;
        valid = recv-IsValid r s p fits o.valid;
        at = same ∙ o.at;
        stream = o.stream;
        wire = o.wire;
        window = λ t i. o.window t (In-prune p.recv t s.sent_window (rw pruned at i));
        out = o.out;
        put_out = o.put_out;
        carries = o.carries;
      }

  pub due_retransmissions-Outgoing :
      (now : ℕ)
      → Outgoing base (due_retransmissions now s).0 contents (sent ++ (due_retransmissions now s).1)
  unfolding due_retransmissions
  due_retransmissions-Outgoing now =
      let (kept, again) = In-retransmit now s.sent_window in
      record {
        made = o.made;
        valid = due_retransmissions-IsValid now s o.valid;
        at = o.at;
        stream = o.stream;
        wire = o.wire;
        window = λ t i. (let (t', j, same) = kept t i in rw same (o.window t' j));
        out = λ q i. elim (In-append_cases q sent _ i) [
          | inl old ↦ o.out q old
          | inr new ↦ let (t', j, same) = again q new in rw same (o.window t' j)
        ];
        put_out = λ q i. In-append_left q sent _ (o.put_out q i);
        carries = o.carries;
      }

  -- Over a network that loses, repeats and reorders what was sent, a session that receives with strict
  -- ordering from `base` on delivers a prefix of the contents, and all of them once every packet with
  -- content has arrived.
  pub outgoing_delivered :
      (arrivals : List Arrival) (now camera_sent count id rmid : ℕ)
      → base < 2 ^ 32
      → total_len contents < 2 ^ 31
      → All (λ a. In a.1 sent) arrivals
      → (out : PtcpSession × List PtcpPacket) × (rest : List PtcpBody) × (recv_datagrams
            (strict_session now camera_sent base count id rmid)
            (datagrams arrivals)
          ≡ ok out)
        × (contents ≡ map (λ p. p.body) out.1 ++ rest)
        × (((q : PtcpPacket) → In q (content sent) → In q (map (λ a. a.1) arrivals)) → rest ≡ [])
  outgoing_delivered arrivals now camera_sent count id rmid fits few before =
      let small : stream_bytes (content o.made) < 2 ^ 31 =
        omega (arith, few, ap total_len o.carries, total_len-stream_bytes (content o.made)) in
      let from_made = arrivals_made arrivals before in
      let arrive = made_arrive arrivals from_made in
      let receiver = strict_session now camera_sent base count id rmid in
      let (rest, split, end_at) =
        recv_all-prefix now camera_sent base count id rmid (content o.made) arrivals fits o.stream
          small arrive in
      (
        recv_all receiver arrivals,
        map (λ p. p.body) rest,
        recv_datagrams-serialize arrivals receiver (made_fit arrivals from_made),
        sym o.carries ∙ ap (map (λ p. p.body)) split ∙ map-append _ _ _,
        λ every. ap (map (λ p. p.body)) (
            none_left (recv_all receiver arrivals).1 (content o.made) rest split (
              recv_all_complete now camera_sent base count id rmid (content o.made) arrivals fits
                o.stream small arrive
                (λ q i.
                  (let (j, full) = content-In o.made q i in
                    every q (In-full_content sent q (o.put_out q j) full))))),
      )
    where
      arrivals_made : (xs : List Arrival) → All (λ a. In a.1 sent) xs → All (λ a. In a.1 o.made) xs
      arrivals_made [] h = tt
      arrivals_made (a ∷ xs) h = (o.out a.1 h.0, arrivals_made xs h.1)

      made_arrive :
          (xs : List Arrival)
          → All (λ a. In a.1 o.made) xs
          → All (λ a. Arrives (content o.made) a.1) xs
      made_arrive [] h = tt
      made_arrive (a ∷ xs) h = (In-content o.made a.1 h.0, made_arrive xs h.1)

      made_fit : (xs : List Arrival) → All (λ a. In a.1 o.made) xs → All (λ a. IsWirePacket a.1) xs
      made_fit [] h = tt
      made_fit (a ∷ xs) h = (All-In o.made a.1 o.wire h.0, made_fit xs h.1)

      none_left : (xs whole ys : List PtcpPacket) → whole ≡ xs ++ ys → xs ≡ whole → ys ≡ []
      none_left xs whole [] e same = refl
      none_left xs whole (y ∷ ys) e same =
          absurd (omega (arith, ap length e, length-append xs (y ∷ ys), ap length same))
