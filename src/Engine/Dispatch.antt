-- ===== src/Engine/Dispatch.antt =====
-- What `dh_reader` hands on: each realm's channel gets the payloads of that realm, in order, and no
-- others.
use dahua_p2p_bridge.Common.{
  ℕ, ◌≡◌, ◌≢◌, refl, sym, ap, ◌∙◌, inl, inr, true, false, Bool-cases, Option, none, some,
  Option-cases, List, [], ◌∷◌, ◌++◌, append-nil, append_assoc, if◌then◌else◌, ◌==◌, ==→eq, ne→==,
  arith,
}
use dahua_p2p_bridge.Common.HashMap.{lookup, remove, lookup-remove, lookup-insert}
use dahua_p2p_bridge.Ptcp.Wire.{PtcpPayload, PtcpBody, PtcpPacket, payload, status, bytes_eq}
use dahua_p2p_bridge.Engine.{
  Shared, conn_text, disc_text, push_channel, on_conn, on_disc, on_payload, dispatch,
}

-- The data that a body carries for a realm, if any.
abbrev pub body_data : ℕ → PtcpBody → List (List ℕ)
body_data realm (payload p) = if p.realm == realm then p.bytes ∷ [] else []
body_data realm _ = []

-- The data of the payloads for one realm, in order.
abbrev pub payloads_of : ℕ → List PtcpPacket → List (List ℕ)
payloads_of realm [] = []
payloads_of realm (p ∷ packets) = body_data realm p.body ++ payloads_of realm packets

pub payloads_of-append :
    (realm : ℕ) (xs ys : List PtcpPacket)
    → payloads_of realm (xs ++ ys) ≡ payloads_of realm xs ++ payloads_of realm ys
payloads_of-append realm [] ys = refl
payloads_of-append realm (x ∷ xs) ys =
    rw (payloads_of-append realm xs ys) (sym (append_assoc (body_data realm x.body) _ _))

-- A body that closes the realm.
abbrev pub Closes : ℕ → PtcpBody → Type 0
Closes realm (status r text) = (r ≡ realm) × (bytes_eq text disc_text ≡ true)
Closes realm _ = ⊥

-- The realm's entry in `channels` is `handle`, no other realm has it, and over that channel `sent`
-- has been sent to a receiver that is there.
pub record IsOpen (s : Shared) (realm handle : ℕ) (sent : List (List ℕ)) : Type 0 where
  pub registered : lookup realm s.channels ≡ some handle
  pub own : (other : ℕ) → lookup other s.channels ≡ some handle → other ≡ realm
  pub channel : lookup handle s.queues ≡ some (record { queue = sent; has_receiver = true })

module _ (s : Shared) (realm handle : ℕ) (sent : List (List ℕ))
    (o : IsOpen s realm handle sent) where
  -- Removing another realm.
  removed_own : (other k : ℕ) → lookup k (remove other s.channels) ≡ some handle → k ≡ realm
  removed_own other k e = ground (arith, lookup-remove other k s.channels, o.own k)

  on_conn-IsOpen : (r : ℕ) → IsOpen (on_conn s r) realm handle sent
  unfolding on_conn
  on_conn-IsOpen r = record { registered = o.registered; own = o.own; channel = o.channel }

  on_disc-IsOpen : (r : ℕ) → r ≢ realm → IsOpen (on_disc s r) realm handle sent
  unfolding on_disc
  on_disc-IsOpen r off = record {
    registered = rw (lookup-remove, ne→== r realm off) o.registered;
    own = removed_own r;
    channel = o.channel;
  }

  -- Data for another channel leaves this one alone; data for this one goes to its end.
  push_channel-lookup :
      (k : ℕ) (bytes : List ℕ)
      → lookup handle (push_channel k bytes s.queues)
        ≡ some (record {
          queue = sent ++ (if k == handle then bytes ∷ [] else []);
          has_receiver = true;
        })
  unfolding push_channel
  push_channel-lookup k bytes = elim (Bool-cases (k == handle)) [
    | inl same ↦
        let e : lookup k s.queues ≡ some (record { queue = sent; has_receiver = true }) =
          rw (==→eq k handle same) o.channel in
        rw (e, push_channel) (rw (lookup-insert, same))
    | inr off ↦
        rw (off, append-nil)
          (elim (Option-cases (lookup k s.queues)) [
            | inl e ↦ rw (e, push_channel) o.channel
            | inr (c, e) ↦
                rw (e, push_channel)
                  (elim (Bool-cases c.has_receiver) [
                    | inl there ↦ rw there (rw (lookup-insert, off) o.channel)
                    | inr gone ↦ rw gone o.channel
                  ])
          ])
  ]

  -- An entry names this channel exactly if it is the realm's.
  handle_test : (r k : ℕ) → lookup r s.channels ≡ some k → (k == handle) ≡ (r == realm)
  handle_test r k e = elim (Bool-cases (r == realm)) [
    | inl same ↦
        let at_realm = ap (λ (x : ℕ). lookup x s.channels) (==→eq r realm same) in
        let k_is : k ≡ handle = cc (at_realm, e, o.registered) in ground (arith, k_is, same)
    | inr off ↦
        let only = o.own r in
        let ne : k ≢ handle = λ same.
          (let at : r ≡ realm = only (e ∙ ap {B = Option ℕ} some same) in
            ground (arith, at, off)) in
        rw (off, ne→== k handle ne) refl
  ]

  on_payload-IsOpen :
      (p : PtcpPayload) → IsOpen (on_payload s p) realm handle (sent ++ body_data realm (payload p))
  unfolding on_payload
  on_payload-IsOpen p = elim (Option-cases (lookup p.realm s.channels)) [
    | inl e ↦ rw (e, on_payload, unregistered p.realm e, append-nil) o
    | inr (k, e) ↦
        rw (e, on_payload, ← handle_test p.realm k e)
          (record {
            registered = o.registered;
            own = o.own;
            channel = push_channel-lookup k p.bytes;
          })
  ]
    where
      unregistered : (r : ℕ) → lookup r s.channels ≡ none → (r == realm) ≡ false
      unregistered r e =
          ne→== r realm (λ same. cc (ap (λ x. lookup x s.channels) same, e, o.registered))

  status-IsOpen :
      (r : ℕ) (text : List ℕ)
      → ¬ Closes realm (status r text)
      → IsOpen (dispatch s (status r text)) realm handle sent
  unfolding dispatch
  status-IsOpen r text h = elim (Bool-cases (bytes_eq text conn_text)) [
    | inl conn ↦ rw conn (on_conn-IsOpen r)
    | inr other ↦ elim (Bool-cases (bytes_eq text disc_text)) [
      | inl disc ↦ rw (other, disc) (on_disc-IsOpen r (λ e. h (e, disc)))
      | inr neither ↦ rw (other, neither) o
    ]
  ]

-- A body that does not close the realm leaves its channel open, with the body's data for the realm
-- at the end of what was sent over it.
pub dispatch-IsOpen :
    (s : Shared) (realm handle : ℕ) (sent : List (List ℕ)) (body : PtcpBody)
    → IsOpen s realm handle sent
    → ¬ Closes realm body
    → IsOpen (dispatch s body) realm handle (sent ++ body_data realm body)
unfolding dispatch
dispatch-IsOpen s realm handle sent (status r text) o h =
    rw append-nil (status-IsOpen s realm handle sent o r text h)
dispatch-IsOpen s realm handle sent (payload p) o h = on_payload-IsOpen s realm handle sent o p
dispatch-IsOpen s realm handle sent _ o h = rw append-nil o

status_session :
    (r : ℕ) (text : List ℕ) (s : Shared) → (dispatch s (status r text)).session ≡ s.session
unfolding dispatch on_conn on_disc
status_session r text s = elim (Bool-cases (bytes_eq text conn_text)) [
  | inl conn ↦ rw conn refl
  | inr other ↦ elim (Bool-cases (bytes_eq text disc_text)) [
    | inl disc ↦ rw (other, disc) refl
    | inr neither ↦ rw (other, neither) refl
  ]
]

payload_session : (q : PtcpPayload) (s : Shared) → (on_payload s q).session ≡ s.session
unfolding on_payload
payload_session q s = elim (Option-cases (lookup q.realm s.channels)) [
  | inl e ↦ rw (on_payload, e) refl
  | inr (k, e) ↦ rw (on_payload, e) refl
]

-- Handing a packet on leaves the session alone.
pub dispatch-session : (body : PtcpBody) (s : Shared) → (dispatch s body).session ≡ s.session
unfolding dispatch
dispatch-session (status r text) s = status_session r text s
dispatch-session (payload q) s = payload_session q s
dispatch-session _ s = refl
