-- ===== src/Engine/Carried.antt =====
-- What a client's channel carries: the payloads of its realm in a stretch of what `dh_reader` handed on.
use dahua_p2p_bridge.Common.{
  ℕ, ◌≡◌, ◌≢◌, refl, sym, ap, ◌∙◌, inl, inr, Bool, true, false, Bool-cases, Option, none, some,
  Option-cases, List, [], ◌∷◌, ◌++◌, append-nil, append_assoc, length, ◌==◌, ==→eq, ==_refl,
}
use dahua_p2p_bridge.Common.HashMap.{HashMap, lookup, remove, lookup-insert, lookup-remove}
use mathlib.Core.Option.{some-injective, none-ne-some}
use dahua_p2p_bridge.Ptcp.Wire.{PtcpPayload, PtcpBody, PtcpPacket, payload, status, bytes_eq}
use dahua_p2p_bridge.Engine.{
  Shared, Channel, conn_text, disc_text, push_channel, on_conn, on_disc, on_payload, dispatch,
}
use dahua_p2p_bridge.Engine.Dispatch.{body_data, payloads_of, payloads_of-append}

-- Over the channel has been sent what the packets of `during` carry for the realm. These were handed on
-- next to each other, the first `opened_at` packets came before them, and none came after them as long
-- as the realm's entry names the channel and its receiver is there.
pub record IsCarried (handed : List PtcpPacket) (s : Shared) (handle realm opened_at : ℕ)
    : Type 0 where
  pub before : List PtcpPacket
  pub during : List PtcpPacket
  pub after : List PtcpPacket
  pub split : handed ≡ before ++ (during ++ after)
  pub opened : length before ≡ opened_at
  pub has_receiver : Bool
  pub channel :
      lookup handle s.queues
      ≡ some (record { queue = payloads_of realm during; has_receiver = has_receiver })
  pub live : has_receiver ≡ true → lookup realm s.channels ≡ some handle → after ≡ []

-- The channels are as before, and no entry is new.
pub record Shrinks (s s' : Shared) : Type 0 where
  pub same_queues : s'.queues ≡ s.queues
  pub fewer :
      (realm handle : ℕ)
      → lookup realm s'.channels ≡ some handle
      → lookup realm s.channels ≡ some handle

pub Shrinks-remove :
    (s s' : Shared) (realm : ℕ)
    → s'.queues ≡ s.queues
    → s'.channels ≡ remove realm s.channels
    → Shrinks s s'
Shrinks-remove s s' realm same e = record {
  same_queues = same;
  fewer = λ r h at. elim (Bool-cases (realm == r)) [
    | inl here ↦ absurd (none-ne-some h (rw (e, lookup-remove, here) at at))
    | inr other ↦ rw (e, lookup-remove, other) at at
  ];
}

pub Shrinks-IsCarried :
    (handed : List PtcpPacket) (s s' : Shared) (handle realm opened_at : ℕ)
    → Shrinks s s'
    → IsCarried handed s handle realm opened_at
    → IsCarried handed s' handle realm opened_at
Shrinks-IsCarried handed s s' handle realm opened_at t c = record {
  before = c.before;
  during = c.during;
  after = c.after;
  split = c.split;
  opened = c.opened;
  has_receiver = c.has_receiver;
  channel = rw (t.same_queues) c.channel;
  live = λ there at. c.live there (t.fewer realm handle at);
}

module _ (handed : List PtcpPacket) (s : Shared) (handle realm opened_at : ℕ) (p : PtcpPacket)
    (c : IsCarried handed s handle realm opened_at) where
  -- The packet goes past the channel.
  past_IsCarried :
      (c.has_receiver ≡ true → lookup realm s.channels ≢ some handle)
      → IsCarried (handed ++ (p ∷ [])) s handle realm opened_at
  past_IsCarried off = record {
    before = c.before;
    during = c.during;
    after = c.after ++ (p ∷ []);
    split = ap (λ h. h ++ (p ∷ [])) c.split ∙ rw (append_assoc, append_assoc) refl;
    opened = c.opened;
    has_receiver = c.has_receiver;
    channel = c.channel;
    live = λ there at. absurd (off there at);
  }

  -- The packet goes to the end of what the channel carries.
  grow_IsCarried :
      (queues : HashMap Channel)
      → c.after ≡ []
      → lookup handle queues
        ≡ some (record {
          queue = payloads_of realm c.during ++ body_data realm p.body;
          has_receiver = c.has_receiver;
        })
      → IsCarried (handed ++ (p ∷ [])) (record s { queues = queues }) handle realm opened_at
  grow_IsCarried queues none_after e = record {
    before = c.before;
    during = c.during ++ (p ∷ []);
    after = [];
    split =
        ap (λ h. h ++ (p ∷ [])) c.split
        ∙ rw (none_after, append-nil, append-nil, append_assoc) refl;
    opened = c.opened;
    has_receiver = c.has_receiver;
    channel = e ∙ rw (payloads_of-append, append-nil) refl;
    live = λ there at. refl;
  }

  -- The packet has nothing for the realm.
  silent_IsCarried :
      body_data realm p.body ≡ [] → IsCarried (handed ++ (p ∷ [])) s handle realm opened_at
  silent_IsCarried silent = by_after c.after refl
    where
      by_after :
          (a : List PtcpPacket)
          → c.after ≡ a
          → IsCarried (handed ++ (p ∷ [])) s handle realm opened_at
      by_after [] e = grow_IsCarried s.queues e (c.channel ∙ rw (silent, append-nil) refl)
      by_after (x ∷ xs) e = past_IsCarried (λ there at. cc (c.live there at, e))

on_conn-Shrinks : (s : Shared) (realm : ℕ) → Shrinks s (on_conn s realm)
unfolding on_conn
on_conn-Shrinks s realm = record { same_queues = refl; fewer = λ r h at. at }

on_disc-Shrinks : (s : Shared) (realm : ℕ) → Shrinks s (on_disc s realm)
unfolding on_disc
on_disc-Shrinks s realm = Shrinks-remove s (on_disc s realm) realm refl refl

status-Shrinks :
    (s : Shared) (realm : ℕ) (text : List ℕ) → Shrinks s (dispatch s (status realm text))
unfolding dispatch
status-Shrinks s realm text = elim (Bool-cases (bytes_eq text conn_text)) [
  | inl conn ↦ rw conn (on_conn-Shrinks s realm)
  | inr other ↦ elim (Bool-cases (bytes_eq text disc_text)) [
    | inl disc ↦ rw (other, disc) (on_disc-Shrinks s realm)
    | inr neither ↦ rw (other, neither) (record { same_queues = refl; fewer = λ r h at. at })
  ]
]

module _ (s : Shared) (handle : ℕ) where
  push_channel-there :
      (queue : List (List ℕ)) (bytes : List ℕ)
      → lookup handle s.queues ≡ some (record { queue = queue; has_receiver = true })
      → lookup handle (push_channel handle bytes s.queues)
        ≡ some (record { queue = queue ++ (bytes ∷ []); has_receiver = true })
  unfolding push_channel
  push_channel-there queue bytes e = rw (e, push_channel, lookup-insert, ==_refl handle) refl

  push_channel-gone :
      (queue : List (List ℕ)) (bytes : List ℕ)
      → lookup handle s.queues ≡ some (record { queue = queue; has_receiver = false })
      → push_channel handle bytes s.queues ≡ s.queues
  unfolding push_channel
  push_channel-gone queue bytes e = rw (e, push_channel) refl

  push_channel-other :
      (k : ℕ) (bytes : List ℕ)
      → (k == handle) ≡ false
      → lookup handle (push_channel k bytes s.queues) ≡ lookup handle s.queues
  unfolding push_channel
  push_channel-other k bytes off = elim (Option-cases (lookup k s.queues)) [
    | inl e ↦ rw (e, push_channel) refl
    | inr (c, e) ↦ elim (Bool-cases c.has_receiver) [
      | inl there ↦ rw (e, push_channel, there, lookup-insert, off) refl
      | inr gone ↦ rw (e, push_channel, gone) refl
    ]
  ]

pub same_queues_IsCarried :
    (handed : List PtcpPacket) (s : Shared) (queues : HashMap Channel) (handle realm opened_at : ℕ)
    → lookup handle queues ≡ lookup handle s.queues
    → IsCarried handed s handle realm opened_at
    → IsCarried handed (record s { queues = queues }) handle realm opened_at
same_queues_IsCarried handed s queues handle realm opened_at e c = record {
  before = c.before;
  during = c.during;
  after = c.after;
  split = c.split;
  opened = c.opened;
  has_receiver = c.has_receiver;
  channel = e ∙ c.channel;
  live = c.live;
}

module _ (handed : List PtcpPacket) (s : Shared) (handle realm opened_at : ℕ) (p : PtcpPacket)
    (q : PtcpPayload) (is : p.body ≡ payload q)
    (own : (r : ℕ) → lookup r s.channels ≡ some handle → r ≡ realm)
    (c : IsCarried handed s handle realm opened_at) where
  -- The payload's entry does not name the channel.
  elsewhere_IsCarried :
      (o : Option ℕ)
      → lookup q.realm s.channels ≡ o
      → o ≢ some handle
      → IsCarried (handed ++ (p ∷ [])) s handle realm opened_at
  elsewhere_IsCarried o e off = elim (Bool-cases (q.realm == realm)) [
    | inl same ↦ past_IsCarried handed s handle realm opened_at p c λ there at.
        off (sym e ∙ ap (λ (r : ℕ). lookup r s.channels) (==→eq q.realm realm same) ∙ at)
    | inr other ↦ silent_IsCarried handed s handle realm opened_at p c (rw (is, other) refl)
  ]

  -- The payload's entry names the channel.
  here_IsCarried :
      lookup q.realm s.channels ≡ some handle
      → IsCarried
          (handed ++ (p ∷ []))
          (record s { queues = push_channel handle q.bytes s.queues })
          handle
          realm
          opened_at
  here_IsCarried e =
      let same : q.realm ≡ realm = own q.realm e in
      let at : lookup realm s.channels ≡ some handle =
        ap (λ (r : ℕ). lookup r s.channels) (sym same) ∙ e in
      elim (Bool-cases c.has_receiver) [
        | inl there ↦ grow_IsCarried handed s handle realm opened_at p c _ (c.live there at) (
            push_channel-there s handle (payloads_of realm c.during) q.bytes (rw there at c.channel)
            ∙ rw (is, same, ==_refl realm, there) refl)
        | inr gone ↦
            rw
              (push_channel-gone s handle (payloads_of realm c.during) q.bytes
                (rw gone at c.channel))
              (past_IsCarried handed s handle realm opened_at p c λ there _. cc (there, gone))
      ]

  on_payload-IsCarried : IsCarried (handed ++ (p ∷ [])) (on_payload s q) handle realm opened_at
  unfolding on_payload
  on_payload-IsCarried = elim (Option-cases (lookup q.realm s.channels)) [
    | inl e ↦ rw (on_payload, e) (elsewhere_IsCarried none e (λ h. none-ne-some handle h))
    | inr (k, e) ↦ elim (Bool-cases (k == handle)) [
      | inl same ↦
          let is_handle = ==→eq k handle same in
          rw (on_payload, e, is_handle) (here_IsCarried (e ∙ ap {B = Option ℕ} some is_handle))
      | inr off ↦
          rw (on_payload, e)
            (same_queues_IsCarried (handed ++ (p ∷ [])) s _ handle realm opened_at
              (push_channel-other s handle k q.bytes off)
              (elsewhere_IsCarried (some k) e
                (λ h. cc (some-injective k handle h, off, ==_refl handle))))
    ]
  ]

-- Handing a packet on keeps what every channel carries in step.
pub dispatch-IsCarried :
    (handed : List PtcpPacket) (s : Shared) (handle realm opened_at : ℕ) (p : PtcpPacket)
    → ((r : ℕ) → lookup r s.channels ≡ some handle → r ≡ realm)
    → IsCarried handed s handle realm opened_at
    → IsCarried (handed ++ (p ∷ [])) (dispatch s p.body) handle realm opened_at
unfolding dispatch
dispatch-IsCarried handed s handle realm opened_at p own c = by_body p.body refl
  where
    by_body :
        (body : PtcpBody)
        → p.body ≡ body
        → IsCarried (handed ++ (p ∷ [])) (dispatch s body) handle realm opened_at
    by_body (payload q) is = on_payload-IsCarried handed s handle realm opened_at p q is own c
    by_body (status r text) is =
        Shrinks-IsCarried _ s _ handle realm opened_at (status-Shrinks s r text)
          (silent_IsCarried handed s handle realm opened_at p c (rw is refl))
    by_body _ is = silent_IsCarried handed s handle realm opened_at p c (rw is refl)

on_payload_channels : (q : PtcpPayload) (s : Shared) → (on_payload s q).channels ≡ s.channels
unfolding on_payload
on_payload_channels q s = elim (Option-cases (lookup q.realm s.channels)) [
  | inl e ↦ rw (on_payload, e) refl
  | inr (k, e) ↦ rw (on_payload, e) refl
]

-- Handing a packet on makes no new entry.
pub dispatch-fewer :
    (s : Shared) (body : PtcpBody) (realm handle : ℕ)
    → lookup realm (dispatch s body).channels ≡ some handle
    → lookup realm s.channels ≡ some handle
unfolding dispatch
dispatch-fewer s (status r text) realm handle at = (status-Shrinks s r text).fewer realm handle at
dispatch-fewer s (payload q) realm handle at = rw (on_payload_channels q s) at at
dispatch-fewer s _ realm handle at = at
