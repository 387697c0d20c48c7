-- ===== src/System/Heard.antt =====
-- What the camera hears of every client while all tasks of the engine take their steps in any order.
use dahua_p2p_bridge.Common.{
  ℕ, ◌<◌, ◌^◌, ◌≡◌, refl, sym, ap, ◌∙◌, Option, some, List, [], ◌∷◌, ◌++◌, append-nil, append_assoc,
  map, In, All, length, ok, arith,
}
use mathlib.Core.Option.{none-ne-some}
use mathlib.Core.List.{map-append}
use dahua_p2p_bridge.Common.Words.{IsU32}
use dahua_p2p_bridge.Common.HashMap.{lookup}
use dahua_p2p_bridge.Ptcp.Wire.{PtcpBody, PtcpPacket}
use dahua_p2p_bridge.Ptcp.Wire.RoundTrip.{IsWirePacket}
use dahua_p2p_bridge.Ptcp.Session.{PtcpSession, from_state, set_allow_gap_skip}
use dahua_p2p_bridge.Ptcp.Session.Send.{content}
use dahua_p2p_bridge.Ptcp.Receive.{Readings}
use dahua_p2p_bridge.Ptcp.Receive.Strict.{Arrival, strict_session}
use dahua_p2p_bridge.Ptcp.Invariant.{from_state-IsValid, set_allow_gap_skip-IsValid}
use dahua_p2p_bridge.Ptcp.Transfer.{recv_datagrams, datagrams}
use dahua_p2p_bridge.Ptcp.Outgoing.{total_len, outgoing_delivered}
use dahua_p2p_bridge.Engine.{PtcpEvent, beat, connect, event_body}
use dahua_p2p_bridge.Engine.Dispatch.{body_data}
use dahua_p2p_bridge.Settings.{allow_gap_skip}
use dahua_p2p_bridge.Client.Reader.{got, process_reader, reader_ends, note_request}
use dahua_p2p_bridge.Client.Upload.{bodies_of, data_of, data_of-content_bodies, event_data}
use dahua_p2p_bridge.Client.Connection.{is_onvif}
use dahua_p2p_bridge.Client.Startup.{Cli, adopt_session, initial_shared}
use dahua_p2p_bridge.System.{
  Client, System, Step, reads, takes, resends, beats, opens, asks, binds, receives, ends, closes,
  relays, finishes, hangs_up, initial, new_client, serving, asking, closing,
}
use dahua_p2p_bridge.System.Events.{
  IsAlone, IsHeard, event_data-append, post-IsHeard, quiet-IsHeard, open-IsHeard, append-IsHeard,
  received_data, ended_data,
}
use dahua_p2p_bridge.System.Reach.{Reach, start, next}
use dahua_p2p_bridge.System.Served.{IsWell, initial-IsWell, Reach-IsWell}
use dahua_p2p_bridge.System.Sent.{contents_of, Sends, Reach-IsSent}

abbrev all_events : System → List PtcpEvent
all_events y = map (λ e. e.1) y.taken ++ y.events

abbrev Hears : System → Type 0
Hears y = IsHeard y.clients (all_events y)

Step-IsHeard : (y y' : System) → Step y y' → IsWell y → Hears y → Hears y'
unfolding event_body
Step-IsHeard y _ (reads now) w g = g
Step-IsHeard y _ (takes now event events e) w g = rw (map-append, append_assoc, ← e) g
Step-IsHeard y _ (resends due_at tested_at s packets e) w g = g
Step-IsHeard y _ (beats room) w g =
    rw (← append_assoc (map (λ e. e.1) y.taken))
      (append-IsHeard y.clients (all_events y) (beat ∷ []) (λ realm. refl) g)
Step-IsHeard y _ (opens service realm port small_realm small_port permit) w g =
    open-IsHeard y.clients (all_events y) y.next (new_client service realm port (length y.handed)) g
      w.below refl
Step-IsHeard y _ (asks handle c e at room) w g = rw append_assoc at (
    post-IsHeard y.clients (all_events y) g handle c (record c { reader = asking }) e refl
      (connect c.realm c.remote_port ∷ []) (sym (append-nil c.chunks)) (λ realm off. refl))
Step-IsHeard y _ (binds handle c address port e at not_yet told) w g =
    quiet-IsHeard y.clients (all_events y) g handle c _ e refl refl
Step-IsHeard y _ (receives handle c st bytes e at chunk few room) w g =
    let (mine, others) =
      received_data c.realm (is_onvif c.service) st y.engine.shared bytes chunk in
    rw append_assoc at (
      post-IsHeard y.clients (all_events y) g handle c
        (record c {
          reader = serving (note_request (is_onvif c.service) st bytes);
          chunks = c.chunks ++ (bytes ∷ []);
        })
        e refl (process_reader c.realm (is_onvif c.service) st y.engine.shared (got bytes ∷ [])).1
        (ap (λ b. c.chunks ++ b) mine) others)
Step-IsHeard y _ (ends handle c st e at room) w g = rw append_assoc at (
    post-IsHeard y.clients (all_events y) g handle c (record c { reader = closing }) e refl
      (reader_ends c.realm (is_onvif c.service) y.engine.shared).1
      (sym (append-nil c.chunks)
        ∙ ap (λ b. c.chunks ++ b)
            (sym (ended_data c.realm c.realm (is_onvif c.service) y.engine.shared)))
      (λ realm off. ended_data c.realm realm (is_onvif c.service) y.engine.shared))
Step-IsHeard y _ (closes handle c e at) w g =
    quiet-IsHeard y.clients (all_events y) g handle c _ e refl refl
Step-IsHeard y _ (relays handle n c channel result e at there more goes_on) w g =
    quiet-IsHeard y.clients (all_events y) g handle c _ e refl refl
Step-IsHeard y _ (finishes handle n c channel result e at there more done) w g =
    quiet-IsHeard y.clients (all_events y) g handle c _ e refl refl
Step-IsHeard y _ (hangs_up handle n c channel e at there all gone) w g =
    quiet-IsHeard y.clients (all_events y) g handle c _ e refl refl

Reach-IsHeard : (y y' : System) → Reach y y' → IsWell y → Hears y → Hears y'
Reach-IsHeard y _ start w g = g
Reach-IsHeard y y' (next {before} r t) w g =
    Step-IsHeard before y' t (Reach-IsWell y before r w) (Reach-IsHeard y before r w g)

data_of-append :
    (realm : ℕ) (xs ys : List PtcpBody)
    → data_of realm (xs ++ ys) ≡ data_of realm xs ++ data_of realm ys
data_of-append realm [] ys = refl
data_of-append realm (body ∷ xs) ys =
    rw (data_of-append realm xs ys) (sym (append_assoc (body_data realm body) _ _))

data_of-contents_of :
    (realm : ℕ) (taken : List (ℕ × PtcpEvent))
    → data_of realm (contents_of taken) ≡ event_data realm (map (λ e. e.1) taken)
data_of-contents_of realm taken = data_of-content_bodies realm (bodies_of taken) ∙ same taken
  where
    same :
        (xs : List (ℕ × PtcpEvent))
        → data_of realm (map (λ b. b.1) (bodies_of xs)) ≡ event_data realm (map (λ e. e.1) xs)
    same [] = refl
    same ((now, event) ∷ xs) = ap (◌++◌ (body_data realm (event_body event))) (same xs)

module _ (now : ℕ) (args : Cli) (gap_variable : Option (List ℕ))
    (inbox : List (Readings × PtcpPacket)) (y : System) (small_sent : IsU32 args.session_sent)
    (small_recv : IsU32 args.session_recv) (small_count : IsU32 args.session_count)
    (small_id : IsU32 args.session_id) (small_rmid : IsU32 args.session_rmid)
    (fits : All (λ a. IsWirePacket a.1) inbox)
    (reached : Reach (initial now args gap_variable inbox) y) where
  sends : Sends args.session_sent y
  unfolding initial_shared adopt_session from_state set_allow_gap_skip lookup
  sends = Reach-IsSent args.session_sent _ y reached (record {
    outgoing = record {
      made = [];
      valid = set_allow_gap_skip-IsValid _ (allow_gap_skip gap_variable) (
          from_state-IsValid now args.session_sent args.session_recv args.session_count
            args.session_id args.session_rmid small_sent small_recv small_count small_id
            small_rmid);
      at = omega (arith, small_sent);
      stream = tt;
      wire = tt;
      window = λ t i. absurd i;
      out = λ p i. i;
      put_out = λ p i. i;
      carries = refl;
    };
    inbox_fits = fits;
    events_fit = tt;
    realms_fit = λ h c e. absurd (none-ne-some c e);
  })

  hears : Hears y
  unfolding lookup
  hears =
      Reach-IsHeard _ y reached (initial-IsWell now args gap_variable inbox)
        (record { own = λ h c e alone. absurd (none-ne-some c e); foreign = λ realm off. refl })

  module _ (handle : ℕ) (c : Client) (arrivals : List Arrival) (later camera_sent count id rmid : ℕ)
      (is_client : lookup handle y.clients ≡ some c) (alone : IsAlone y.clients handle c.realm)
      (few : total_len (contents_of y.taken) < 2 ^ 31)
      (from_engine : All (λ a. In a.1 y.sent) arrivals) where
    abbrev camera : PtcpSession
    camera = strict_session later camera_sent args.session_sent count id rmid

    -- What the client sent is what the camera's session delivers for its realm, what of it did not arrive
    -- and what is still in the queue.
    chunks_heard :
        (out : PtcpSession × List PtcpPacket) × (left : List (List ℕ)) × (recv_datagrams camera
            (datagrams arrivals)
          ≡ ok out)
        × (c.chunks ≡ data_of c.realm (map (λ p. p.body) out.1) ++ left)
        × (y.events ≡ []
            → ((q : PtcpPacket) → In q (content y.sent) → In q (map (λ a. a.1) arrivals))
            → left ≡ [])
    chunks_heard =
        let (out, rest, reads_all, split, complete) =
          outgoing_delivered args.session_sent y.engine.shared.session (contents_of y.taken) y.sent
            sends.outgoing arrivals later camera_sent count id rmid small_sent few from_engine in
        let heard : data_of c.realm (contents_of y.taken) ++ event_data c.realm y.events
            ≡ c.chunks =
          rw data_of-contents_of (
            sym (event_data-append c.realm (map (λ x. x.1) y.taken) y.events)
            ∙ hears.own handle c is_client alone) in
        (
          out,
          data_of c.realm rest ++ event_data c.realm y.events,
          reads_all,
          sym heard ∙ rw (split, data_of-append, append_assoc) refl,
          λ idle every. rw (complete every, idle) refl,
        )

    -- In every state that the tasks of the engine reach from the start, by steps in any order, with any
    -- number of clients that come and go: let any of the packets that went to the camera arrive, in any
    -- order and as often as the network repeats them. A session of the camera that receives with strict
    -- ordering from the engine's first counter on reads all of these datagrams, and delivers for the
    -- realm of a client, which no other client has drawn, a prefix of the chunks that the client sent, in
    -- their order. The engine's session numbers and the packets of the camera fit the wire, and the
    -- contents that `dh_writer` has taken are less than 2 ^ 31 bytes.
    pub client_heard :
        (out : PtcpSession × List PtcpPacket) × (left : List (List ℕ)) × (recv_datagrams camera
            (datagrams arrivals)
          ≡ ok out)
        × (c.chunks ≡ data_of c.realm (map (λ p. p.body) out.1) ++ left)
    client_heard =
        let (out, left, reads_all, split, complete) = chunks_heard in (out, left, reads_all, split)

    -- As in `client_heard`, when `dh_writer` has emptied its queue and every packet with content that went
    -- to the camera has arrived at least once: the camera's session has delivered for the client's realm
    -- exactly the chunks that the client sent, in their order.
    pub client_heard_complete :
        y.events ≡ []
        → ((q : PtcpPacket) → In q (content y.sent) → In q (map (λ a. a.1) arrivals))
        → (out : PtcpSession × List PtcpPacket) × (recv_datagrams camera (datagrams arrivals)
            ≡ ok out)
          × (data_of c.realm (map (λ p. p.body) out.1) ≡ c.chunks)
    client_heard_complete idle every =
        let (out, left, reads_all, split, complete) = chunks_heard in
        (out, reads_all, sym (split ∙ rw (complete idle every) (append-nil _)))
