-- ===== src/System/Served.antt =====
-- What every client is served while all tasks of the engine take their steps in any order.
use dahua_p2p_bridge.Common.{
  ℕ, ◌<◌, ◌^◌, ◌≡◌, refl, sym, ap, ◌∙◌, inr, Bool, true, false, Option, some, List, [], ◌∷◌, ◌++◌,
  append-nil, append_assoc, In, All, length, drop, drop-length-append,
}
use mathlib.Core.Option.{some-injective, none-ne-some}
use dahua_p2p_bridge.Common.Words.{IsU32}
use dahua_p2p_bridge.Common.HashMap.{HashMap, lookup}
use dahua_p2p_bridge.Ptcp.Wire.{PtcpPacket}
use dahua_p2p_bridge.Ptcp.Session.{PtcpSession}
use dahua_p2p_bridge.Ptcp.Stream.{stream_bytes, IsStream}
use dahua_p2p_bridge.Ptcp.Receive.{Readings}
use dahua_p2p_bridge.Ptcp.Receive.Progress.{Arrives}
use dahua_p2p_bridge.Ptcp.Receive.Strict.{strict_session-Progress}
use dahua_p2p_bridge.Engine.{
  Shared, Channel, ReaderAt, reading, answering, handing, event_body, dh_reader_at, dh_writer_round,
}
use dahua_p2p_bridge.Engine.Dispatch.{payloads_of}
use dahua_p2p_bridge.Engine.Run.Flow.{
  in_hand, in_front, packets_in, Flow, silent-Flow, reader-Flow, whole-Flow,
}
use dahua_p2p_bridge.Engine.Run.Inbound.{send-SameInbound, due_retransmissions-SameInbound}
use dahua_p2p_bridge.Settings.{allow_gap_skip}
use dahua_p2p_bridge.Client.Connection.{is_onvif, open_realm}
use dahua_p2p_bridge.Client.Startup.{Cli, adopt_session, initial_shared}
use dahua_p2p_bridge.System.{
  Client, System, Step, reads, takes, resends, beats, opens, asks, binds, receives, ends, closes,
  relays, finishes, hangs_up, initial, new_client, stop, writer_run,
}
use dahua_p2p_bridge.System.Quiet.{
  session-Shrinks, bind_realm-Shrinks, reader_ends-Shrinks, process_writer-Shrinks,
  retransmit_round-session, bind_realm_session, reader_ends_session, process_writer_session,
}
use dahua_p2p_bridge.System.Reach.{Reach, start, next}
use dahua_p2p_bridge.System.Channels.{
  HasChannels, shrink-HasChannels, put-HasChannels, drop-HasChannels, hand-HasChannels,
  open-HasChannels,
}

reader-HasChannels :
    (now : ℕ) (handed : List PtcpPacket) (s : Shared) (inbox : List (Readings × PtcpPacket))
    (at : ReaderAt) (clients : HashMap Client) (n : ℕ)
    → HasChannels handed s clients n
    → HasChannels (handed ++ in_front at) (dh_reader_at now s inbox at).0.shared clients n
unfolding dh_reader_at
reader-HasChannels now handed s [] reading clients n w = rw (append-nil handed) w
reader-HasChannels now handed s ((r, p) ∷ inbox) reading clients n w =
    rw (append-nil handed) (shrink-HasChannels handed s clients n w _ (session-Shrinks s _))
reader-HasChannels now handed s inbox (answering packets) clients n w =
    rw (append-nil handed) (shrink-HasChannels handed s clients n w _ (session-Shrinks s _))
reader-HasChannels now handed s inbox (handing []) clients n w = rw (append-nil handed) w
reader-HasChannels now handed s inbox (handing (p ∷ packets)) clients n w =
    hand-HasChannels handed s clients n w p

abbrev pub IsWell : System → Type 0
IsWell y = HasChannels y.handed y.engine.shared y.clients y.next

stop-IsWell :
    (y : System) (handle : ℕ) (c : Client) (channel : Channel) (closed : Bool)
    (chunks : List (List ℕ)) (result : Bool)
    → lookup handle y.clients ≡ some c
    → lookup handle y.engine.shared.queues ≡ some channel
    → IsWell y
    → IsWell (stop y handle c channel (writer_run y c closed chunks result))
stop-IsWell y handle c channel closed chunks result e there w =
    let s' = (writer_run y c closed chunks result).shared in
    let t = process_writer-Shrinks c.rewrite c.realm y.engine.shared closed chunks _ in
    put-HasChannels y.handed _ y.clients y.next
      (drop-HasChannels y.handed s' y.clients y.next
        (shrink-HasChannels y.handed y.engine.shared y.clients y.next w s' t) handle channel
        (ap (lookup handle) t.same_queues ∙ there))
      handle c _ e refl refl

Step-IsWell : (y y' : System) → Step y y' → IsWell y → IsWell y'
unfolding dh_writer_round
Step-IsWell y _ (reads now) w =
    reader-HasChannels now y.handed y.engine.shared y.engine.inbox y.engine.reader y.clients y.next
      w
Step-IsWell y _ (takes now event events e) w =
    shrink-HasChannels y.handed y.engine.shared y.clients y.next w _
      (session-Shrinks y.engine.shared _)
Step-IsWell y _ (resends due_at tested_at s packets e) w =
    rw (← (retransmit_round-session due_at tested_at y.engine.shared s packets e).0) (
      shrink-HasChannels y.handed y.engine.shared y.clients y.next w _
        (session-Shrinks y.engine.shared _))
Step-IsWell y _ (beats room) w = w
Step-IsWell y _ (opens service realm port small fits permit) w =
    open-HasChannels y.handed y.engine.shared y.clients y.next w
      (new_client service realm port (length y.handed)) refl
Step-IsWell y _ (asks handle c e at room) w =
    put-HasChannels y.handed y.engine.shared y.clients y.next w handle c _ e refl refl
Step-IsWell y _ (binds handle c address port e at not_yet told) w =
    put-HasChannels y.handed _ y.clients y.next
      (shrink-HasChannels y.handed y.engine.shared y.clients y.next w _
        (bind_realm-Shrinks c.service address port y.engine.shared c.realm))
      handle c _ e refl refl
Step-IsWell y _ (receives handle c st bytes e at chunk few room) w =
    put-HasChannels y.handed y.engine.shared y.clients y.next w handle c _ e refl refl
Step-IsWell y _ (ends handle c st e at room) w =
    put-HasChannels y.handed y.engine.shared y.clients y.next w handle c _ e refl refl
Step-IsWell y _ (closes handle c e at) w =
    put-HasChannels y.handed _ y.clients y.next
      (shrink-HasChannels y.handed y.engine.shared y.clients y.next w _
        (reader_ends-Shrinks c.realm (is_onvif c.service) y.engine.shared))
      handle c _ e refl refl
Step-IsWell y _ (relays handle n c channel result e at there more goes_on) w =
    put-HasChannels y.handed y.engine.shared y.clients y.next w handle c _ e refl refl
Step-IsWell y _ (finishes handle n c channel result e at there more done) w =
    stop-IsWell y handle c channel false _ result e there w
Step-IsWell y _ (hangs_up handle n c channel e at there all gone) w =
    stop-IsWell y handle c channel true channel.queue true e there w

module _ (base : ℕ) (ps arrivals : List PtcpPacket) (stream : IsStream base 0 ps)
    (small : stream_bytes ps < 2 ^ 31) where
  abbrev pub Flows : System → Type 0
  Flows y =
      Flow base ps arrivals y.engine.shared.session y.engine.inbox (in_hand y.engine.reader)
        y.handed

  -- A step that leaves the session, the inbox and `dh_reader` alone.
  same-Flows :
      (y : System) (session : PtcpSession)
      → y.engine.shared.session ≡ session
      → Flows y
      → Flow base ps arrivals session y.engine.inbox (in_hand y.engine.reader) y.handed
  same-Flows y session e g = rw (← e) g

  Step-Flows : (y y' : System) → Step y y' → Flows y → Flows y'
  unfolding dh_writer_round open_realm
  Step-Flows y _ (reads now) g =
      reader-Flow base ps arrivals stream small now y.engine.shared y.engine.inbox y.engine.reader
        y.handed g
  Step-Flows y _ (takes now event events e) g =
      silent-Flow base ps arrivals y.engine.shared.session _ y.engine.inbox _ y.handed
        (send-SameInbound now y.engine.shared.session (event_body event)) g
  Step-Flows y _ (resends due_at tested_at s packets e) g =
      rw (← (retransmit_round-session due_at tested_at y.engine.shared s packets e).0) (
        silent-Flow base ps arrivals y.engine.shared.session _ y.engine.inbox _ y.handed
          (due_retransmissions-SameInbound due_at y.engine.shared.session) g)
  Step-Flows y _ (beats room) g = g
  Step-Flows y _ (opens service realm port small_realm small_port permit) g = g
  Step-Flows y _ (asks handle c e at room) g = g
  Step-Flows y _ (binds handle c address port e at not_yet told) g =
      same-Flows y _ (bind_realm_session c.service address port y.engine.shared c.realm) g
  Step-Flows y _ (receives handle c st bytes e at chunk few room) g = g
  Step-Flows y _ (ends handle c st e at room) g = g
  Step-Flows y _ (closes handle c e at) g =
      same-Flows y _ (reader_ends_session c.realm (is_onvif c.service) y.engine.shared) g
  Step-Flows y _ (relays handle n c channel result e at there more goes_on) g = g
  Step-Flows y _ (finishes handle n c channel result e at there more done) g =
      same-Flows y _ (process_writer_session c.rewrite c.realm y.engine.shared false _ _) g
  Step-Flows y _ (hangs_up handle n c channel e at there all gone) g =
      same-Flows y _ (process_writer_session c.rewrite c.realm y.engine.shared true _ _) g

  Reach-Flows : (y y' : System) → Reach y y' → Flows y → Flows y'
  Reach-Flows y _ start g = g
  Reach-Flows y y' (next r t) g = Step-Flows _ y' t (Reach-Flows y _ r g)

pub Reach-IsWell : (y y' : System) → Reach y y' → IsWell y → IsWell y'
Reach-IsWell y _ start w = w
Reach-IsWell y y' (next r t) w = Step-IsWell _ y' t (Reach-IsWell y _ r w)

module _ (now : ℕ) (args : Cli) (gap_variable : Option (List ℕ))
    (inbox : List (Readings × PtcpPacket)) where
  pub initial-IsWell : IsWell (initial now args gap_variable inbox)
  unfolding initial_shared lookup
  initial-IsWell = record {
    below = λ h c e. absurd (none-ne-some c e);
    named = λ r h e. absurd (none-ne-some h e);
    carried = λ h c e. absurd (none-ne-some c e);
  }

  module _ (ps : List PtcpPacket) (y : System) (handle : ℕ) (c : Client)
      (strict : allow_gap_skip gap_variable ≡ false) (fits : IsU32 args.session_recv)
      (stream : IsStream args.session_recv 0 ps) (small : stream_bytes ps < 2 ^ 31)
      (arrive : All (λ a. Arrives ps a.1) inbox)
      (reached : Reach (initial now args gap_variable inbox) y)
      (is_client : lookup handle y.clients ≡ some c) where
    flows : Flows args.session_recv ps (packets_in inbox) stream small y
    unfolding initial_shared adopt_session
    flows = Reach-Flows args.session_recv ps (packets_in inbox) stream small _ y reached (record {
      stands = rw strict (
          strict_session-Progress now args.session_sent args.session_recv args.session_count
            args.session_id args.session_rmid ps fits);
      arrive = arrive;
      kept = λ q i j. inr j;
    })

    -- What was handed on comes first in the camera's packets.
    pub handed_first : (rest : List PtcpPacket) × (ps ≡ y.handed ++ rest)
    handed_first =
        let held = flows.stands.held in
        (in_hand y.engine.reader ++ held.left, held.split ∙ append_assoc y.handed _ held.left)

    -- Strict ordering, that is, P2P_ALLOW_GAP_SKIP does not allow gaps to be skipped. In every state that
    -- the tasks of the engine reach from the start, by steps in any order, with any number of clients that
    -- come and go: what was sent over a client's channel are the payloads of its realm in a stretch of the
    -- camera's packets, which starts where the client opened its realm. The camera's packets with content
    -- are one stream from the engine's receive offset, a u32, of less than 2 ^ 31 bytes; what arrives are
    -- packets of this stream, in any order and any number of times, and packets without bytes.
    pub client_served :
        (before : List PtcpPacket) × (during : List PtcpPacket) × (rest : List PtcpPacket)
        × (has_receiver : Bool) × (ps ≡ before ++ (during ++ rest))
        × (length before ≡ c.opened_at)
        × (lookup handle y.engine.shared.queues
            ≡ some (record { queue = payloads_of c.realm during; has_receiver = has_receiver }))
    client_served =
        let g = (Reach-IsWell _ y reached initial-IsWell).carried handle c is_client in
        let (rest, split) = handed_first in
        (
          g.before,
          g.during,
          g.after ++ rest,
          g.has_receiver,
          split ∙ rw (g.split, append_assoc, append_assoc) refl,
          g.opened,
          g.channel,
        )

    module _ (queue : List (List ℕ)) (named : lookup c.realm y.engine.shared.channels ≡ some handle)
        (open_channel : lookup handle y.engine.shared.queues
          ≡ some (record { queue = queue; has_receiver = true })) where
      -- As long as the realm's entry names the client's channel and the receiver is there, the client
      -- misses nothing of what was handed on since it opened the realm.
      served_until_now : queue ≡ payloads_of c.realm (drop c.opened_at y.handed)
      served_until_now =
          let g = (Reach-IsWell _ y reached initial-IsWell).carried handle c is_client in
          let same = some-injective _ _ (sym open_channel ∙ g.channel) in
          let alive : g.has_receiver ≡ true = sym (ap (λ (x : Channel). x.has_receiver) same) in
          let whole : y.handed ≡ g.before ++ g.during =
            g.split ∙ rw (g.live alive named, append-nil) refl in
          let from_there : drop c.opened_at y.handed ≡ g.during =
            rw (← g.opened, whole) (drop-length-append g.before g.during) in
          ap (λ (x : Channel). x.queue) same ∙ ap (payloads_of c.realm) (sym from_there)

      -- Strict ordering, and a network, as for `client_served`, in every state that the tasks of the engine
      -- reach: once every packet of the camera has arrived and `dh_reader` has taken up all that arrived and
      -- waits, a client whose realm's entry still names its channel, with its receiver there, has been sent
      -- the payloads of its realm in all of the camera's packets from the place on where it opened the realm.
      pub client_served_complete :
          ((q : PtcpPacket) → In q ps → In q (packets_in inbox))
          → y.engine.inbox ≡ []
          → y.engine.reader ≡ reading
          → queue ≡ payloads_of c.realm (drop c.opened_at ps)
      client_served_complete every no_inbox waits =
          let all_handed : y.handed ≡ ps =
            whole-Flow args.session_recv ps (packets_in inbox) stream small y.engine.shared.session
              y.handed (rw (no_inbox, waits) at flows) every in
          served_until_now ∙ ap (λ qs. payloads_of c.realm (drop c.opened_at qs)) all_handed
