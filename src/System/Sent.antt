-- ===== src/System/Sent.antt =====
-- What the engine sends while all of its tasks take their steps in any order.
use dahua_p2p_bridge.Common.{
  ℕ, ◌≤◌, ◌≡◌, refl, ap, ◌∙◌, inl, inr, Bool, true, false, Bool-cases, some, List, [], ◌∷◌, ◌++◌,
  append-nil, All, All-append, length, ltb, ◌==◌, arith,
}
use mathlib.Core.Option.{some-injective}
use mathlib.Core.List.{map-append}
use dahua_p2p_bridge.Common.Words.{IsU32}
use dahua_p2p_bridge.Common.HashMap.{HashMap, lookup, insert, lookup-insert}
use dahua_p2p_bridge.Utf8.{is_utf8}
use dahua_p2p_bridge.Ptcp.Wire.{PtcpBody, PtcpPacket, empty, len}
use dahua_p2p_bridge.Ptcp.Wire.RoundTrip.{IsWireBody, IsWirePacket}
use dahua_p2p_bridge.Ptcp.Session.{PtcpSession}
use dahua_p2p_bridge.Ptcp.Receive.{Readings}
use dahua_p2p_bridge.Ptcp.Transfer.{content_bodies}
use dahua_p2p_bridge.Ptcp.Outgoing.{
  Outgoing, send-Outgoing, recv-Outgoing, due_retransmissions-Outgoing,
}
use dahua_p2p_bridge.Engine.{
  Shared, ReaderAt, reading, answering, handing, PtcpEvent, event_body, dh_reader_at,
  dh_writer_round,
}
use dahua_p2p_bridge.Engine.Dispatch.{dispatch-session}
use dahua_p2p_bridge.Client.Reader.{ReaderState, got, process_reader, reader_ends, IsChunk}
use dahua_p2p_bridge.Client.Upload.{bodies_of}
use dahua_p2p_bridge.Client.Connection.{is_onvif, open_realm}
use dahua_p2p_bridge.System.{
  Client, System, Step, reads, takes, resends, beats, opens, asks, binds, receives, ends, closes,
  relays, finishes, hangs_up, new_client,
}
use dahua_p2p_bridge.System.Reach.{Reach, start, next}
use dahua_p2p_bridge.System.Quiet.{
  bind_realm_session, reader_ends_session, process_writer_session, retransmit_round-session,
}

-- The bodies with content of the events that `dh_writer` took.
abbrev pub contents_of : List (ℕ × PtcpEvent) → List PtcpBody
contents_of taken = content_bodies (bodies_of taken)

content_bodies-append :
    (xs ys : List (ℕ × PtcpBody))
    → content_bodies (xs ++ ys) ≡ content_bodies xs ++ content_bodies ys
content_bodies-append [] ys = refl
content_bodies-append ((now, body) ∷ xs) ys = elim (Bool-cases (ltb 0 (len body))) [
  | inl full ↦ rw full (ap (◌∷◌ body) (content_bodies-append xs ys))
  | inr bare ↦ rw bare (content_bodies-append xs ys)
]

contents_of-append :
    (taken : List (ℕ × PtcpEvent)) (now : ℕ) (event : PtcpEvent)
    → contents_of (taken ++ ((now, event) ∷ []))
      ≡ contents_of taken ++ content_bodies ((now, event_body event) ∷ [])
contents_of-append taken now event =
    ap content_bodies (map-append _ taken _) ∙ content_bodies-append (bodies_of taken) _

-- A turn of `dh_reader`.
reader-Outgoing :
    (base now : ℕ) (contents : List PtcpBody) (sent : List PtcpPacket) (s : Shared)
    (inbox : List (Readings × PtcpPacket)) (at : ReaderAt)
    → All (λ a. IsWirePacket a.1) inbox
    → Outgoing base s.session contents sent
    → let (e, out) = dh_reader_at now s inbox at in
      Outgoing base e.shared.session contents (sent ++ out) × All (λ a. IsWirePacket a.1) e.inbox
unfolding dh_reader_at len
reader-Outgoing base now contents sent s [] reading h o = (rw (append-nil sent) o, tt)
reader-Outgoing base now contents sent s ((r, p) ∷ inbox) reading h o =
    (rw (append-nil sent) (recv-Outgoing base s.session contents sent o r p h.0), h.1)
reader-Outgoing base now contents sent s inbox (answering packets) h o =
    (rw (append-nil contents) at (send-Outgoing base s.session contents sent o now empty tt), h)
reader-Outgoing base now contents sent s inbox (handing []) h o = (rw (append-nil sent) o, h)
reader-Outgoing base now contents sent s inbox (handing (p ∷ packets)) h o =
    (rw (dispatch-session p.body s, append-nil sent) o, h)

-- The counters of the session follow what `dh_writer` took, and all that is to be sent fits the wire.
pub record IsSent (base : ℕ) (session : PtcpSession) (taken : List (ℕ × PtcpEvent))
    (sent : List PtcpPacket) (inbox : List (Readings × PtcpPacket)) (events : List PtcpEvent)
    (clients : HashMap Client) : Type 0 where
  pub outgoing : Outgoing base session (contents_of taken) sent
  pub inbox_fits : All (λ a. IsWirePacket a.1) inbox
  pub events_fit : All (λ e. IsWireBody (event_body e)) events
  pub realms_fit :
      (handle : ℕ) (c : Client)
      → lookup handle clients ≡ some c
      → IsU32 c.realm × IsU32 c.remote_port

abbrev pub Sends : ℕ → System → Type 0
Sends base y = IsSent base y.engine.shared.session y.taken y.sent y.engine.inbox y.events y.clients

put_realms_fit :
    (clients : HashMap Client) (handle : ℕ) (c : Client)
    → IsU32 c.realm × IsU32 c.remote_port
    → ((h : ℕ) (d : Client) → lookup h clients ≡ some d → IsU32 d.realm × IsU32 d.remote_port)
    → (h : ℕ) (d : Client) → lookup h (insert handle c clients) ≡ some d
    → IsU32 d.realm × IsU32 d.remote_port
put_realms_fit clients handle c own fit h d e = elim (Bool-cases (handle == h)) [
  | inl same ↦ rw (← some-injective c d (rw (lookup-insert, same) at e)) own
  | inr other ↦ fit h d (rw (lookup-insert, other) at e)
]

received_fits :
    (realm : ℕ) (persistent_realm : Bool) (st : ReaderState) (s : Shared) (bytes : List ℕ)
    → IsU32 realm
    → length bytes ≤ 4096
    → IsChunk bytes
    → All
        (λ e. IsWireBody (event_body e))
        (process_reader realm persistent_realm st s (got bytes ∷ [])).1
unfolding process_reader event_body
received_fits realm p st s [] fits few chunk = absurd (chunk refl)
received_fits realm p st s (b ∷ bytes) fits few chunk = ((fits, omega (arith, few)), tt)

ended_fits :
    (realm : ℕ) (persistent_realm : Bool) (s : Shared)
    → IsU32 realm
    → All (λ e. IsWireBody (event_body e)) (reader_ends realm persistent_realm s).1
unfolding reader_ends event_body is_utf8
ended_fits realm true s fits = tt
ended_fits realm false s fits = ((fits, refl), tt)

-- A task of a client leaves the session alone, changes the client, and may post an event.
client-IsSent :
    (base : ℕ) (y : System) (session : PtcpSession) (posted : List PtcpEvent) (handle : ℕ)
    (c : Client)
    → Sends base y
    → y.engine.shared.session ≡ session
    → All (λ e. IsWireBody (event_body e)) posted
    → IsU32 c.realm × IsU32 c.remote_port
    → IsSent base session y.taken y.sent y.engine.inbox
        (y.events ++ posted)
        (insert handle c y.clients)
client-IsSent base y session posted handle c g same fit own = record {
  outgoing = rw (← same) g.outgoing;
  inbox_fits = g.inbox_fits;
  events_fit = All-append _ y.events posted g.events_fit fit;
  realms_fit = put_realms_fit y.clients handle c own g.realms_fit;
}

quiet-IsSent :
    (base : ℕ) (y : System) (session : PtcpSession) (handle : ℕ) (c : Client)
    → Sends base y
    → y.engine.shared.session ≡ session
    → IsU32 c.realm × IsU32 c.remote_port
    → IsSent base session y.taken y.sent y.engine.inbox y.events (insert handle c y.clients)
quiet-IsSent base y session handle c g same own =
    rw append-nil at (client-IsSent base y session [] handle c g same tt own)

Step-IsSent : (base : ℕ) (y y' : System) → Step y y' → Sends base y → Sends base y'
unfolding dh_writer_round open_realm event_body
Step-IsSent base y _ (reads now) g =
    let (o, h) =
      reader-Outgoing base now (contents_of y.taken) y.sent y.engine.shared y.engine.inbox
        y.engine.reader g.inbox_fits g.outgoing in
    record { outgoing = o; inbox_fits = h; events_fit = g.events_fit; realms_fit = g.realms_fit }
Step-IsSent base y _ (takes now event events e) g =
    let fit = rw e at g.events_fit in
    record {
      outgoing = rw (contents_of-append y.taken now event) (
          send-Outgoing base y.engine.shared.session (contents_of y.taken) y.sent g.outgoing now
            (event_body event) fit.0);
      inbox_fits = g.inbox_fits;
      events_fit = fit.1;
      realms_fit = g.realms_fit;
    }
Step-IsSent base y _ (resends due_at tested_at s packets e) g =
    let (same, out) = retransmit_round-session due_at tested_at y.engine.shared s packets e in
    record {
      outgoing =
          rw (← same, ← out)
            (due_retransmissions-Outgoing base y.engine.shared.session (contents_of y.taken) y.sent
              g.outgoing due_at);
      inbox_fits = g.inbox_fits;
      events_fit = g.events_fit;
      realms_fit = g.realms_fit;
    }
Step-IsSent base y _ (beats room) g = record {
  outgoing = g.outgoing;
  inbox_fits = g.inbox_fits;
  events_fit = All-append _ y.events _ g.events_fit (tt, tt);
  realms_fit = g.realms_fit;
}
Step-IsSent base y _ (opens service realm port small_realm small_port permit) g =
    quiet-IsSent base y _ y.next (new_client service realm port (length y.handed)) g refl
      (small_realm, small_port)
Step-IsSent base y _ (asks handle c e at room) g =
    client-IsSent base y _ _ handle _ g refl (g.realms_fit handle c e, tt) (g.realms_fit handle c e)
Step-IsSent base y _ (binds handle c address port e at not_yet told) g =
    quiet-IsSent base y _ handle _ g
      (bind_realm_session c.service address port y.engine.shared c.realm) (g.realms_fit handle c e)
Step-IsSent base y _ (receives handle c st bytes e at chunk few room) g =
    client-IsSent base y _ _ handle _ g refl
      (received_fits c.realm (is_onvif c.service) st y.engine.shared bytes
        (g.realms_fit handle c e).0 few chunk)
      (g.realms_fit handle c e)
Step-IsSent base y _ (ends handle c st e at room) g =
    client-IsSent base y _ _ handle _ g refl
      (ended_fits c.realm (is_onvif c.service) y.engine.shared (g.realms_fit handle c e).0)
      (g.realms_fit handle c e)
Step-IsSent base y _ (closes handle c e at) g =
    quiet-IsSent base y _ handle _ g
      (reader_ends_session c.realm (is_onvif c.service) y.engine.shared) (g.realms_fit handle c e)
Step-IsSent base y _ (relays handle n c channel result e at there more goes_on) g =
    quiet-IsSent base y _ handle _ g refl (g.realms_fit handle c e)
Step-IsSent base y _ (finishes handle n c channel result e at there more done) g =
    quiet-IsSent base y _ handle _ g
      (process_writer_session c.rewrite c.realm y.engine.shared false _ _) (g.realms_fit handle c e)
Step-IsSent base y _ (hangs_up handle n c channel e at there all gone) g =
    quiet-IsSent base y _ handle _ g
      (process_writer_session c.rewrite c.realm y.engine.shared true _ _) (g.realms_fit handle c e)

pub Reach-IsSent : (base : ℕ) (y y' : System) → Reach y y' → Sends base y → Sends base y'
Reach-IsSent base y _ start g = g
Reach-IsSent base y y' (next r t) g = Step-IsSent base _ y' t (Reach-IsSent base y _ r g)
