-- ===== src/System/Confirmed.antt =====
-- The tasks of a client start only behind the camera's CONN for its realm.
use dahua_p2p_bridge.Common.{
  ℕ, ◌≤◌, ◌≡◌, ◌≢◌, refl, sym, ap, ◌∙◌, inl, inr, Bool, true, false, Option, none, some,
  Option-cases, List, [], ◌∷◌, ◌++◌, append-nil, length,
}
use mathlib.Core.Option.{some-injective, none-ne-some}
use dahua_p2p_bridge.Common.HashMap.{HashMap, lookup}
use dahua_p2p_bridge.Ptcp.Wire.{PtcpPacket}
use dahua_p2p_bridge.Ptcp.Receive.{Readings}
use dahua_p2p_bridge.Http.{HttpRewriteConfig}
use dahua_p2p_bridge.Engine.{
  Shared, ReaderAt, reading, answering, handing, dh_reader_at, dh_writer_round,
}
use dahua_p2p_bridge.Engine.Run.Flow.{in_front}
use dahua_p2p_bridge.Client.Reader.{reader_ends}
use dahua_p2p_bridge.Client.Writer.{collect_response, write_response, process_writer}
use dahua_p2p_bridge.Client.Writer.Relays.{process_writer_relay}
use dahua_p2p_bridge.Client.Connection.{
  Service, rtsp, onvif_http, is_onvif, value, bind_realm, open_realm,
}
use dahua_p2p_bridge.Client.Startup.{Cli, initial_shared}
use dahua_p2p_bridge.System.{
  Client, System, unstarted, writing, Step, reads, takes, resends, beats, opens, asks, binds,
  receives, ends, closes, relays, finishes, hangs_up, initial, new_client,
}
use dahua_p2p_bridge.System.Quiet.{retransmit_round-session}
use dahua_p2p_bridge.System.Reach.{Reach, start, next}
use dahua_p2p_bridge.System.Served.{IsWell, initial-IsWell, Reach-IsWell}
use dahua_p2p_bridge.System.Owed.{opened-le}
use dahua_p2p_bridge.System.Told.{
  Confirmed, IsConfirmed, put-IsConfirmed, open-IsConfirmed, hand-IsConfirmed,
}

abbrev Confirms : List PtcpPacket → Shared → HashMap Client → Type 0
Confirms handed s clients = IsConfirmed handed s.conn_channels s.connected clients

-- A change that leaves the entries and who was told as they are.
same-Confirms :
    (handed : List PtcpPacket) (s : Shared) (conns : HashMap ℕ) (connected : List ℕ)
    (clients : HashMap Client)
    → (conns ≡ s.conn_channels) × (connected ≡ s.connected)
    → Confirms handed s clients
    → IsConfirmed handed conns connected clients
same-Confirms handed s conns connected clients (same, same_told) g = rw (same, same_told) g

reader-Confirms :
    (now : ℕ) (handed : List PtcpPacket) (s : Shared) (inbox : List (Readings × PtcpPacket))
    (at : ReaderAt) (clients : HashMap Client)
    → ((h : ℕ) (c : Client) → lookup h clients ≡ some c → c.opened_at ≤ length handed)
    → Confirms handed s clients
    → Confirms (handed ++ in_front at) (dh_reader_at now s inbox at).0.shared clients
unfolding dh_reader_at
reader-Confirms now handed s [] reading clients early g = rw (append-nil handed) g
reader-Confirms now handed s ((r, p) ∷ inbox) reading clients early g = rw (append-nil handed) g
reader-Confirms now handed s inbox (answering packets) clients early g = rw (append-nil handed) g
reader-Confirms now handed s inbox (handing []) clients early g = rw (append-nil handed) g
reader-Confirms now handed s inbox (handing (p ∷ packets)) clients early g =
    hand-IsConfirmed handed s clients p early g

bind_realm_told :
    (service : Service) (address : Option (List ℕ × ℕ)) (port : ℕ) (s : Shared) (realm : ℕ)
    → let s' = (bind_realm service (value true) address port s realm).0 in
      (s'.conn_channels ≡ s.conn_channels) × (s'.connected ≡ s.connected)
unfolding bind_realm
bind_realm_told rtsp address port s realm = (refl, refl)
bind_realm_told onvif_http address port s realm = (refl, refl)

reader_ends_told :
    (realm : ℕ) (persistent_realm : Bool) (s : Shared)
    → let s' = (reader_ends realm persistent_realm s).0 in
      (s'.conn_channels ≡ s.conn_channels) × (s'.connected ≡ s.connected)
unfolding reader_ends
reader_ends_told realm true s = (refl, refl)
reader_ends_told realm false s = (refl, refl)

process_writer_told :
    (rewrite : Option HttpRewriteConfig) (realm : ℕ) (s : Shared) (closed : Bool)
    (chunks : List (List ℕ)) (results : List Bool)
    → let s' = (process_writer rewrite realm s closed chunks results).shared in
      (s'.conn_channels ≡ s.conn_channels) × (s'.connected ≡ s.connected)
unfolding process_writer write_response
process_writer_told none realm s closed chunks results =
    let same = (process_writer_relay realm s closed chunks results).0 in
    (ap (λ x. x.conn_channels) same, ap (λ x. x.connected) same)
process_writer_told (some config) realm s closed chunks results =
    elim (Option-cases (collect_response closed [] chunks)) [
      | inl e ↦ rw (process_writer, write_response, e) (refl, refl)
      | inr (response, e) ↦ rw (process_writer, write_response, e) (refl, refl)
    ]

running : (n : ℕ) (c : Client) → c.writer ≡ writing n → c.writer ≢ unstarted
running n c at fresh = cc (at, fresh)

abbrev Told : System → Type 0
Told y = Confirms y.handed y.engine.shared y.clients

Step-Told : (y y' : System) → Step y y' → IsWell y → Told y → Told y'
unfolding dh_writer_round open_realm
Step-Told y _ (reads now) w g =
    reader-Confirms now y.handed y.engine.shared y.engine.inbox y.engine.reader y.clients
      (λ h c e. opened-le y h c w e) g
Step-Told y _ (takes now event events e) w g = g
Step-Told y _ (resends due_at tested_at s packets e) w g =
    rw (← (retransmit_round-session due_at tested_at y.engine.shared s packets e).0) g
Step-Told y _ (beats room) w g = g
Step-Told y _ (opens service realm port small_realm small_port permit) w g =
    open-IsConfirmed y.handed _ _ y.clients g y.next
      (new_client service realm port (length y.handed)) w.below refl
Step-Told y _ (asks handle c e at room) w g =
    put-IsConfirmed y.handed _ _ y.clients g handle c _ e refl refl (g.started handle c e)
Step-Told y _ (binds handle c address port e at not_yet told) w g =
    put-IsConfirmed y.handed _ _ y.clients
      (same-Confirms y.handed y.engine.shared _ _ y.clients
        (bind_realm_told c.service address port y.engine.shared c.realm) g)
      handle c _ e refl refl (λ runs. known)
  where
    known : Confirmed y.handed c.realm c.opened_at
    known = let (d, f, is_told) = g.told handle told in rw (some-injective c d (sym e ∙ f)) is_told
Step-Told y _ (receives handle c st bytes e at chunk few room) w g =
    put-IsConfirmed y.handed _ _ y.clients g handle c _ e refl refl (g.started handle c e)
Step-Told y _ (ends handle c st e at room) w g =
    put-IsConfirmed y.handed _ _ y.clients g handle c _ e refl refl (g.started handle c e)
Step-Told y _ (closes handle c e at) w g =
    put-IsConfirmed y.handed _ _ y.clients
      (same-Confirms y.handed y.engine.shared _ _ y.clients
        (reader_ends_told c.realm (is_onvif c.service) y.engine.shared) g)
      handle c _ e refl refl (g.started handle c e)
Step-Told y _ (relays handle n c channel result e at there more goes_on) w g =
    put-IsConfirmed y.handed _ _ y.clients g handle c _ e refl refl
      (λ runs. g.started handle c e (running n c at))
Step-Told y _ (finishes handle n c channel result e at there more done) w g =
    put-IsConfirmed y.handed _ _ y.clients
      (same-Confirms y.handed y.engine.shared _ _ y.clients
        (process_writer_told c.rewrite c.realm y.engine.shared false _ _) g)
      handle c _ e refl refl (λ runs. g.started handle c e (running n c at))
Step-Told y _ (hangs_up handle n c channel e at there all gone) w g =
    put-IsConfirmed y.handed _ _ y.clients
      (same-Confirms y.handed y.engine.shared _ _ y.clients
        (process_writer_told c.rewrite c.realm y.engine.shared true _ _) g)
      handle c _ e refl refl (λ runs. g.started handle c e (running n c at))

Reach-Told : (y y' : System) → Reach y y' → IsWell y → Told y → Told y'
Reach-Told y _ start w g = g
Reach-Told y y' (next {before} r t) w g =
    Step-Told before y' t (Reach-IsWell y before r w) (Reach-Told y before r w g)

-- In every state that the tasks of the engine reach from the start, by steps in any order, whatever the
-- policy for gaps and whatever arrives: a client whose two tasks have started is one for whose realm
-- `dh_reader` has handed on the camera's CONN, behind the place where the client opened the realm.
pub tasks-Confirmed :
    (now : ℕ) (args : Cli) (gap_variable : Option (List ℕ)) (inbox : List (Readings × PtcpPacket))
    (y : System) (handle : ℕ) (c : Client)
    → Reach (initial now args gap_variable inbox) y
    → lookup handle y.clients ≡ some c
    → c.writer ≢ unstarted
    → Confirmed y.handed c.realm c.opened_at
unfolding initial_shared lookup
tasks-Confirmed now args gap_variable inbox y handle c reached is_client runs =
    (Reach-Told _ y reached (initial-IsWell now args gap_variable inbox) (record {
      named = λ r h e. absurd (none-ne-some h e);
      told = λ h i. absurd i;
      started = λ h d e s. absurd (none-ne-some d e);
    })).started
      handle c is_client runs
