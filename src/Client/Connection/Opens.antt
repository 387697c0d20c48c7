-- ===== src/Client/Connection/Opens.antt =====
-- What `handle_client` does to the shared state.
use dahua_p2p_bridge.Common.{
  ℕ, ◌≡◌, ◌≢◌, refl, sym, ap, ◌∙◌, inl, inr, true, false, Bool-cases, Option, none, some, List, [],
  ◌∷◌, append-nil, ◌==◌, ==→eq, ==_refl, ne→==, if◌then◌else◌,
}
use mathlib.Core.Bool.{false≢true}
use dahua_p2p_bridge.Common.HashMap.{HashMap, lookup, remove, lookup-insert, lookup-remove}
use dahua_p2p_bridge.Ptcp.Wire.{status}
use dahua_p2p_bridge.Engine.{Shared, connect, conn_text, dispatch}
use dahua_p2p_bridge.Engine.Dispatch.{IsOpen, dispatch-IsOpen}
use dahua_p2p_bridge.Client.Connection.{
  Service, rtsp, onvif_http, is_onvif, open_realm, gives_up, exits, waits, serves, request_realm,
  Answer, value, sender_gone, no_answer, http_rewrite, bind_realm,
}

-- No entry names the channel yet.
abbrev pub IsNew : ℕ → Shared → Type 0
IsNew tx s = (other : ℕ) → lookup other s.channels ≢ some tx

module _ (s : Shared) (realm tx conn : ℕ) where
  -- The realm's channel is open, with nothing sent over it.
  open_realm-IsOpen : IsNew tx s → IsOpen (open_realm s realm tx conn) realm tx []
  unfolding open_realm
  open_realm-IsOpen new = record {
    registered = rw (lookup-insert, ==_refl realm) refl;
    own = λ other e. elim (Bool-cases (realm == other)) [
      | inl same ↦ sym (==→eq realm other same)
      | inr differs ↦ absurd (new other (rw (lookup-insert, differs) at e))
    ];
    channel = rw (lookup-insert, ==_refl tx) refl;
  }

  -- The channels of other realms are as before.
  open_realm-other :
      (realm' handle : ℕ) (sent : List (List ℕ))
      → realm' ≢ realm
      → IsNew tx s
      → IsOpen s realm' handle sent
      → IsOpen (open_realm s realm tx conn) realm' handle sent
  unfolding open_realm
  open_realm-other realm' handle sent off new o =
      let away : (realm == realm') ≡ false = ne→== realm realm' (λ e. off (sym e)) in
      let apart : (tx == handle) ≡ false =
        ne→== tx handle (λ e. new realm' (o.registered ∙ ap {B = Option ℕ} some (sym e))) in
      record {
        registered = rw (lookup-insert, away) o.registered;
        own = λ other e. elim (Bool-cases (realm == other)) [
          | inl same ↦
              let handed : some tx ≡ some handle = rw (lookup-insert, same) at e in
              absurd (new realm' (o.registered ∙ sym handed))
          | inr differs ↦ o.own other (rw (lookup-insert, differs) at e)
        ];
        channel = rw (lookup-insert, apart) o.channel;
      }

-- `handle_client` asks for a bind: the realm's channel is open with nothing sent over it, those of
-- other realms are as before, and the event for the camera carries the realm. If `dh_writer` is gone,
-- or an ONVIF client gets no permit, nothing is sent, and the realm has no entry after a failed send.
pub request_realm_opens :
    (service : Service) (s : Shared) (realm remote_port tx conn : ℕ)
    → IsNew tx s
    → (let (s', events, outcome) = request_realm service true true s realm remote_port tx conn in
        (outcome ≡ waits)
        × (events ≡ connect realm remote_port ∷ [])
        × IsOpen s' realm tx []
        × (lookup realm s'.conn_channels ≡ some conn)
        × ((realm' handle : ℕ) (sent : List (List ℕ))
            → realm' ≢ realm
            → IsOpen s realm' handle sent
            → IsOpen s' realm' handle sent))
      × (let (s', events, outcome) = request_realm service true false s realm remote_port tx conn in
          (outcome ≡ gives_up)
          × (events ≡ [])
          × (lookup realm s'.channels ≡ none)
          × (lookup realm s'.conn_channels ≡ none))
      × (request_realm onvif_http false true s realm remote_port tx conn ≡ (s, [], gives_up))
unfolding request_realm
request_realm_opens rtsp s realm remote_port tx conn new = (
  (
    refl,
    refl,
    open_realm-IsOpen s realm tx conn new,
    rw (lookup-insert, ==_refl realm) refl,
    λ realm' handle sent off o. open_realm-other s realm tx conn realm' handle sent off new o,
  ),
  (refl, refl, rw (lookup-remove, ==_refl realm) refl, rw (lookup-remove, ==_refl realm) refl),
  refl,
)
request_realm_opens onvif_http s realm remote_port tx conn new = (
  (
    refl,
    refl,
    open_realm-IsOpen s realm tx conn new,
    rw (lookup-insert, ==_refl realm) refl,
    λ realm' handle sent off o. open_realm-other s realm tx conn realm' handle sent off new o,
  ),
  (refl, refl, rw (lookup-remove, ==_refl realm) refl, rw (lookup-remove, ==_refl realm) refl),
  refl,
)

-- The camera's CONN for the realm is passed on to the client that waits, takes the entry out so that it
-- is passed on once, and keeps the channel open with what was sent over it.
dispatch-status_conn :
    (s : Shared) (realm handle conn : ℕ) (sent : List (List ℕ))
    → IsOpen s realm handle sent
    → lookup realm s.conn_channels ≡ some conn
    → let s' = dispatch s (status realm conn_text) in
      (s'.connected ≡ conn ∷ s.connected)
      × (lookup realm s'.conn_channels ≡ none)
      × IsOpen s' realm handle sent
unfolding dispatch
dispatch-status_conn s realm handle conn sent o e = (
  rw e refl,
  rw (lookup-remove, ==_refl realm) refl,
  rw append-nil at
      (dispatch-IsOpen s realm handle sent (status realm conn_text) o (λ c. false≢true c.1)),
)

-- The answer true makes `handle_client` start the two tasks, for ONVIF with the addresses that the
-- client reached, and names the realm as that of ONVIF; it leaves the channels alone. Any other answer,
-- a lost sender and a time-out take the realm out and exit with 75.
bind_realm_answers :
    (service : Service) (address : Option (List ℕ × ℕ)) (port : ℕ) (s : Shared) (realm : ℕ)
    (answer : Answer)
    → (let (s', outcome) = bind_realm service (value true) address port s realm in
        (outcome ≡ serves (is_onvif service) (http_rewrite service address port))
        × (s'.onvif_realm ≡ (if is_onvif service then some realm else s.onvif_realm))
        × (s'.channels ≡ s.channels)
        × (s'.conn_channels ≡ s.conn_channels)
        × (s'.queues ≡ s.queues))
      × (answer ≢ value true
          → let (s', outcome) = bind_realm service answer address port s realm in
            (outcome ≡ exits 75)
            × (lookup realm s'.channels ≡ none)
            × (lookup realm s'.conn_channels ≡ none))
unfolding bind_realm
bind_realm_answers service address port s realm answer = (bound service, failed answer)
  where
    bound :
        (service : Service)
        → let (s', outcome) = bind_realm service (value true) address port s realm in
          (outcome ≡ serves (is_onvif service) (http_rewrite service address port))
          × (s'.onvif_realm ≡ (if is_onvif service then some realm else s.onvif_realm))
          × (s'.channels ≡ s.channels)
          × (s'.conn_channels ≡ s.conn_channels)
          × (s'.queues ≡ s.queues)
    bound rtsp = (refl, refl, refl, refl, refl)
    bound onvif_http = (refl, refl, refl, refl, refl)

    gone : (m : HashMap ℕ) → lookup realm (remove realm m) ≡ none
    gone m = rw (lookup-remove, ==_refl realm) refl

    failed :
        (a : Answer)
        → a ≢ value true
        → let (s', outcome) = bind_realm service a address port s realm in
          (outcome ≡ exits 75)
          × (lookup realm s'.channels ≡ none)
          × (lookup realm s'.conn_channels ≡ none)
    failed (value true) h = absurd (h refl)
    failed (value false) h = (refl, gone s.channels, gone s.conn_channels)
    failed sender_gone h = (refl, gone s.channels, gone s.conn_channels)
    failed no_answer h = (refl, gone s.channels, gone s.conn_channels)
