-- ===== src/System/Settles.antt =====
-- The engine gets through what waits for it: `dh_writer` and `dh_reader` of
-- rust-engine/src/process.rs alone empty the queue and the inbox, with the same outcome as their loops
-- when nothing comes in between.
use dahua_p2p_bridge.Common.{
  ℕ, ◌≡◌, refl, sym, ap, ◌∙◌, List, [], ◌∷◌, ◌++◌, append-nil, append_assoc, map,
}
use dahua_p2p_bridge.Ptcp.Wire.{PtcpBody, PtcpPacket, empty}
use dahua_p2p_bridge.Ptcp.Session.{send}
use dahua_p2p_bridge.Ptcp.Receive.{Readings, recv}
use dahua_p2p_bridge.Engine.{
  Shared, PtcpEvent, ReaderAt, reading, answering, handing, after_recv, dispatch, dh_reader_at,
}
use dahua_p2p_bridge.Engine.Run.Flow.{in_front}
use dahua_p2p_bridge.Client.Upload.{write_all}
use dahua_p2p_bridge.System.{System, Step, reads, takes}

-- What `dh_reader` leaves, the packets that it handed on, and those that it sent.
pub record ReadRun : Type 0 where
  pub shared : Shared
  pub handed : List PtcpPacket
  pub sent : List PtcpPacket

-- The loop over the packets that `recv` delivered.
abbrev pub hand_on : Shared → List PtcpPacket → Shared
hand_on s [] = s
hand_on s (p ∷ packets) = hand_on (dispatch s p.body) packets

-- The acknowledgement of a packet that is not empty.
abbrev pub acknowledge : ℕ → Shared → PtcpBody → Shared × List PtcpPacket
acknowledge now s empty = (s, [])
acknowledge now s _ =
    let (session, ack) = send now s.session empty in (record s { session = session }, ack ∷ [])

-- The loop of `dh_reader` over all that arrives, with no other task in between.
unfoldable pub dh_reader_loop : ℕ → Shared → List (Readings × PtcpPacket) → ReadRun
dh_reader_loop now s [] = record { shared = s; handed = []; sent = [] }
dh_reader_loop now s ((r, p) ∷ inbox) =
    let (session, packets) = recv r s.session p in
    let (s', acks) = acknowledge now (record s { session = session }) p.body in
    let run = dh_reader_loop now (hand_on s' packets) inbox in
    record { shared = run.shared; handed = packets ++ run.handed; sent = acks ++ run.sent }

-- The rest of an iteration, from the place of `dh_reader` on, and the loop behind it.
abbrev pub read_on : ℕ → Shared → List (Readings × PtcpPacket) → ReaderAt → ReadRun
read_on now s inbox reading = dh_reader_loop now s inbox
read_on now s inbox (handing packets) =
    let run = dh_reader_loop now (hand_on s packets) inbox in
    record { shared = run.shared; handed = packets ++ run.handed; sent = run.sent }
read_on now s inbox (answering packets) =
    let (session, ack) = send now s.session empty in
    let run = dh_reader_loop now (hand_on (record s { session = session }) packets) inbox in
    record { shared = run.shared; handed = packets ++ run.handed; sent = ack ∷ run.sent }

-- A step of `dh_reader` or of `dh_writer`.
abbrev pub IsOwn : (y y' : System) → Step y y' → Type 0
IsOwn y _ (reads now) = Unit
IsOwn y _ (takes now event events e) = Unit
IsOwn y _ _ = ⊥

-- A run in which only `dh_reader` and `dh_writer` take steps.
pub data OwnReach (y : System) : System → Type 0 where
  own_start : OwnReach y y
  own_next :
      {before after : System}
      → OwnReach y before
      → (t : Step before after) → IsOwn before after t
      → OwnReach y after

-- `dh_reader` alone gets from `y` to where its loop ends with this run.
record Reads (x y : System) (run : ReadRun) : Type 0 where
  later : System
  own : OwnReach x later
  engine : later.engine ≡ record { shared = run.shared; reader = reading; inbox = [] }
  handed : later.handed ≡ y.handed ++ run.handed
  sent : later.sent ≡ y.sent ++ run.sent
  taken : later.taken ≡ y.taken
  events : later.events ≡ y.events
  clients : later.clients ≡ y.clients

-- A system with `dh_reader` at this place.
abbrev place : System → Shared → ReaderAt → List (Readings × PtcpPacket) → System
place y s at inbox = record y { engine = record { shared = s; reader = at; inbox = inbox } }

abbrev stepped : ℕ → System → System
stepped now y = record y {
  engine = (dh_reader_at now y.engine.shared y.engine.inbox y.engine.reader).0;
  handed = y.handed ++ in_front y.engine.reader;
  sent = y.sent ++ (dh_reader_at now y.engine.shared y.engine.inbox y.engine.reader).1;
}

module _ (now : ℕ) (x : System) where
  read_step : (y : System) → OwnReach x y → OwnReach x (stepped now y)
  read_step y r = own_next r (reads now) tt

  before_Reads :
      (y : System) (run : ReadRun)
      → Reads x (stepped now y) run
      → Reads x y (record {
        shared = run.shared;
        handed = in_front y.engine.reader ++ run.handed;
        sent = (dh_reader_at now y.engine.shared y.engine.inbox y.engine.reader).1 ++ run.sent;
      })
  before_Reads y run g = record {
    later = g.later;
    own = g.own;
    engine = g.engine;
    handed = g.handed ∙ append_assoc y.handed _ _;
    sent = g.sent ∙ append_assoc y.sent _ _;
    taken = g.taken;
    events = g.events;
    clients = g.clients;
  }

  abbrev Loops : List (Readings × PtcpPacket) → Type 0
  Loops inbox =
      (y : System) (s : Shared)
      → OwnReach x (place y s reading inbox)
      → Reads x (place y s reading inbox) (dh_reader_loop now s inbox)

  handing-Reads :
      (inbox : List (Readings × PtcpPacket))
      → Loops inbox
      → (packets : List PtcpPacket) (y : System) (s : Shared)
      → OwnReach x (place y s (handing packets) inbox)
      → Reads x (place y s (handing packets) inbox) (read_on now s inbox (handing packets))
  unfolding dh_reader_at
  handing-Reads inbox loops [] y s r =
      let z = place y s (handing []) inbox in
      before_Reads z _ (loops (stepped now z) s (read_step z r))
  handing-Reads inbox loops (p ∷ packets) y s r =
      let z = place y s (handing (p ∷ packets)) inbox in
      before_Reads z _
        (handing-Reads inbox loops packets (stepped now z) (dispatch s p.body) (read_step z r))

  answering-Reads :
      (inbox : List (Readings × PtcpPacket))
      → Loops inbox
      → (packets : List PtcpPacket) (y : System) (s : Shared)
      → OwnReach x (place y s (answering packets) inbox)
      → Reads x (place y s (answering packets) inbox) (read_on now s inbox (answering packets))
  unfolding dh_reader_at
  answering-Reads inbox loops packets y s r =
      let z = place y s (answering packets) inbox in
      before_Reads z _ (
        handing-Reads inbox loops packets (stepped now z) (stepped now z).engine.shared
          (read_step z r))

  after_recv-Reads :
      (inbox : List (Readings × PtcpPacket))
      → Loops inbox
      → (body : PtcpBody) (packets : List PtcpPacket) (y : System) (s : Shared)
      → OwnReach x (place y s (after_recv body packets) inbox)
      → let (s', acks) = acknowledge now s body in
        let run = dh_reader_loop now (hand_on s' packets) inbox in
        Reads x
          (place y s (after_recv body packets) inbox)
          (record { shared = run.shared; handed = packets ++ run.handed; sent = acks ++ run.sent })
  after_recv-Reads inbox loops empty packets y s r = handing-Reads inbox loops packets y s r
  after_recv-Reads inbox loops _ packets y s r = answering-Reads inbox loops packets y s r

  loop-Reads : (inbox : List (Readings × PtcpPacket)) → Loops inbox
  unfolding dh_reader_at dh_reader_loop
  loop-Reads [] y s r = record {
    later = place y s reading [];
    own = r;
    engine = refl;
    handed = sym (append-nil y.handed);
    sent = sym (append-nil y.sent);
    taken = refl;
    events = refl;
    clients = refl;
  }
  loop-Reads ((r, p) ∷ inbox) y s reached =
      let z = place y s reading ((r, p) ∷ inbox) in
      before_Reads z _ (
        after_recv-Reads inbox (loop-Reads inbox) p.body (recv r s.session p).1 (stepped now z)
          (stepped now z).engine.shared (read_step z reached))

  place-Reads :
      (inbox : List (Readings × PtcpPacket)) (at : ReaderAt) (y : System) (s : Shared)
      → OwnReach x (place y s at inbox)
      → Reads x (place y s at inbox) (read_on now s inbox at)
  place-Reads inbox reading y s r = loop-Reads inbox y s r
  place-Reads inbox (answering packets) y s r =
      answering-Reads inbox (loop-Reads inbox) packets y s r
  place-Reads inbox (handing packets) y s r = handing-Reads inbox (loop-Reads inbox) packets y s r

-- `dh_writer` takes all that waits, each event at this instant.
abbrev pub at_instant : ℕ → List PtcpEvent → List (ℕ × PtcpEvent)
at_instant now = map λ event. (now, event)

record Writes (x y : System) (now : ℕ) (events : List PtcpEvent) : Type 0 where
  later : System
  own : OwnReach x later
  engine :
      later.engine
      ≡ record y.engine { shared = (write_all y.engine.shared (at_instant now events)).0 }
  idle : later.events ≡ []
  taken : later.taken ≡ y.taken ++ at_instant now events
  sent : later.sent ≡ y.sent ++ (write_all y.engine.shared (at_instant now events)).1
  handed : later.handed ≡ y.handed
  clients : later.clients ≡ y.clients

take_events :
    (now : ℕ) (x : System) (events : List PtcpEvent) (y : System)
    → OwnReach x y
    → y.events ≡ events
    → Writes x y now events
unfolding write_all
take_events now x [] y r e = record {
  later = y;
  own = r;
  engine = refl;
  idle = e;
  taken = sym (append-nil y.taken);
  sent = sym (append-nil y.sent);
  handed = refl;
  clients = refl;
}
take_events now x (event ∷ events) y r e =
    let g = take_events now x events _ (own_next r (takes now event events e) tt) refl in
    record {
      later = g.later;
      own = g.own;
      engine = g.engine;
      idle = g.idle;
      taken = g.taken ∙ append_assoc y.taken _ _;
      sent = g.sent ∙ append_assoc y.sent _ _;
      handed = g.handed;
      clients = g.clients;
    }

-- From every state, finitely many steps of `dh_writer` and `dh_reader` alone lead to the state that
-- their two loops leave if one runs after the other with no task in between: `dh_writer` has taken
-- every event that waited, in order, and sent its packet; `dh_reader` has given all that arrived to
-- `recv`, acknowledged what is not empty, handed on every packet that `recv` delivered, in order, and
-- waits; and the clients are as before.
pub engine_settles :
    (now : ℕ) (y : System)
    → let (s, packets) = write_all y.engine.shared (at_instant now y.events) in
      let run = read_on now s y.engine.inbox y.engine.reader in
      (y' : System) × OwnReach y y'
      × (y'.engine ≡ record { shared = run.shared; reader = reading; inbox = [] })
      × (y'.events ≡ [])
      × (y'.taken ≡ y.taken ++ at_instant now y.events)
      × (y'.handed ≡ y.handed ++ run.handed)
      × (y'.sent ≡ y.sent ++ (packets ++ run.sent))
      × (y'.clients ≡ y.clients)
engine_settles now y =
    let w = take_events now y y.events y own_start refl in
    let (s, packets) = write_all y.engine.shared (at_instant now y.events) in
    let at_place : w.later ≡ place w.later s y.engine.reader y.engine.inbox =
      ap (λ e. record w.later { engine = e }) w.engine in
    let g = place-Reads now y y.engine.inbox y.engine.reader w.later s (rw at_place at w.own) in
    (
      g.later,
      g.own,
      g.engine,
      g.events ∙ w.idle,
      g.taken ∙ w.taken,
      g.handed ∙ ap (λ h. h ++ (read_on now s y.engine.inbox y.engine.reader).handed) w.handed,
      g.sent
          ∙ ap (λ h. h ++ (read_on now s y.engine.inbox y.engine.reader).sent) w.sent
          ∙ append_assoc y.sent packets _,
      g.clients ∙ w.clients,
    )
