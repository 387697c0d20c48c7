-- ===== src/System/Quiet.antt =====
-- What the tasks of the engine leave alone in `Shared`.
use dahua_p2p_bridge.Common.{
  ℕ, ◌≡◌, refl, sym, ap, inl, inr, Bool, true, false, Bool-cases, Option, none, some, Option-cases,
  List, [],
}
use mathlib.Core.Option.{some-injective, none-ne-some}
use dahua_p2p_bridge.Ptcp.Wire.{PtcpPacket}
use dahua_p2p_bridge.Ptcp.Session.{PtcpSession}
use dahua_p2p_bridge.Ptcp.Retransmit.{due_retransmissions, has_retransmission_stall}
use dahua_p2p_bridge.Http.{HttpRewriteConfig}
use dahua_p2p_bridge.Engine.{Shared, retransmit_round}
use dahua_p2p_bridge.Engine.Carried.{Shrinks, Shrinks-remove}
use dahua_p2p_bridge.Client.Reader.{reader_ends}
use dahua_p2p_bridge.Client.Writer.{collect_response, write_response, process_writer}
use dahua_p2p_bridge.Client.Writer.Relays.{process_writer_relay}
use dahua_p2p_bridge.Client.Connection.{Service, rtsp, onvif_http, value, bind_realm}

pub session-Shrinks :
    (s : Shared) (session : PtcpSession) → Shrinks s (record s { session = session })
session-Shrinks s session = record { same_queues = refl; fewer = λ r h at. at }

pub bind_realm-Shrinks :
    (service : Service) (address : Option (List ℕ × ℕ)) (port : ℕ) (s : Shared) (realm : ℕ)
    → Shrinks s (bind_realm service (value true) address port s realm).0
unfolding bind_realm
bind_realm-Shrinks rtsp address port s realm = record { same_queues = refl; fewer = λ r h at. at }
bind_realm-Shrinks onvif_http address port s realm = record {
  same_queues = refl;
  fewer = λ r h at. at;
}

pub reader_ends-Shrinks :
    (realm : ℕ) (persistent_realm : Bool) (s : Shared)
    → Shrinks s (reader_ends realm persistent_realm s).0
unfolding reader_ends
reader_ends-Shrinks realm true s = record { same_queues = refl; fewer = λ r h at. at }
reader_ends-Shrinks realm false s = Shrinks-remove s _ realm refl refl

pub process_writer-Shrinks :
    (rewrite : Option HttpRewriteConfig) (realm : ℕ) (s : Shared) (closed : Bool)
    (chunks : List (List ℕ)) (results : List Bool)
    → Shrinks s (process_writer rewrite realm s closed chunks results).shared
unfolding process_writer write_response
process_writer-Shrinks none realm s closed chunks results =
    rw ((process_writer_relay realm s closed chunks results).0)
      (record { same_queues = refl; fewer = λ r h at. at })
process_writer-Shrinks (some config) realm s closed chunks results =
    elim (Option-cases (collect_response closed [] chunks)) [
      | inl e ↦
          rw (process_writer, write_response, e)
            (record { same_queues = refl; fewer = λ r h at. at })
      | inr (response, e) ↦
          rw (process_writer, write_response, e) (Shrinks-remove s _ realm refl refl)
    ]

-- What a round of the retransmission task leaves.
pub retransmit_round-session :
    (due_at tested_at : ℕ) (s s' : Shared) (packets : List PtcpPacket)
    → retransmit_round due_at tested_at s ≡ some (s', packets)
    → (record s { session = (due_retransmissions due_at s.session).0 } ≡ s')
      × ((due_retransmissions due_at s.session).1 ≡ packets)
unfolding retransmit_round
retransmit_round-session due_at tested_at s s' packets e =
    elim (Bool-cases
      (has_retransmission_stall tested_at (due_retransmissions due_at s.session).0)) [
        | inl stalls ↦ absurd (none-ne-some (s', packets) (rw (retransmit_round, stalls) at e))
        | inr goes_on ↦
            let same = some-injective _ _ (rw (retransmit_round, goes_on) at e) in
            (ap (λ x. x.0) same, ap (λ x. x.1) same)
      ]

-- None of the clients' tasks touches the session.
pub bind_realm_session :
    (service : Service) (address : Option (List ℕ × ℕ)) (port : ℕ) (s : Shared) (realm : ℕ)
    → s.session ≡ (bind_realm service (value true) address port s realm).0.session
unfolding bind_realm
bind_realm_session rtsp address port s realm = refl
bind_realm_session onvif_http address port s realm = refl

pub reader_ends_session :
    (realm : ℕ) (persistent_realm : Bool) (s : Shared)
    → s.session ≡ (reader_ends realm persistent_realm s).0.session
unfolding reader_ends
reader_ends_session realm true s = refl
reader_ends_session realm false s = refl

pub process_writer_session :
    (rewrite : Option HttpRewriteConfig) (realm : ℕ) (s : Shared) (closed : Bool)
    (chunks : List (List ℕ)) (results : List Bool)
    → s.session ≡ (process_writer rewrite realm s closed chunks results).shared.session
unfolding process_writer write_response
process_writer_session none realm s closed chunks results =
    ap (λ x. x.session) (sym (process_writer_relay realm s closed chunks results).0)
process_writer_session (some config) realm s closed chunks results =
    elim (Option-cases (collect_response closed [] chunks)) [
      | inl e ↦ rw (process_writer, write_response, e) refl
      | inr (response, e) ↦ rw (process_writer, write_response, e) refl
    ]
