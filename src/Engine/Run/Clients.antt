-- ===== src/Engine/Run/Clients.antt =====
-- What a client gets while the tasks of the engine take turns: the payloads of its realm.
use dahua_p2p_bridge.Common.{
  ◌∙◌, append_assoc, ℕ, ◌≡◌, ◌<◌, ◌^◌, inr, some, true, List, [], ◌++◌, In, All,
}
use dahua_p2p_bridge.Common.HashMap.{lookup}
use dahua_p2p_bridge.Ptcp.Wire.{PtcpPacket}
use dahua_p2p_bridge.Ptcp.Stream.{stream_bytes, IsStream}
use dahua_p2p_bridge.Ptcp.Receive.Progress.{Arrives}
use dahua_p2p_bridge.Ptcp.Receive.Strict.{strict_session, strict_session-Progress}
use dahua_p2p_bridge.Common.Words.{IsU32}
use dahua_p2p_bridge.Engine.{Engine, reading}
use dahua_p2p_bridge.Engine.Dispatch.{IsOpen, Closes, payloads_of}
use dahua_p2p_bridge.Engine.Run.{Turn, run}
use dahua_p2p_bridge.Engine.Run.Flow.{packets_in, in_hand, whole-Flow}
use dahua_p2p_bridge.Engine.Run.Serves.{Serves, run-Stands}

-- A realm just registered, with a receiver for its channel and nothing sent over it, on a session
-- with strict ordering that starts at the camera's offset `base`, before anything arrives.
pub record IsReady (base : ℕ) (e : Engine) (realm handle : ℕ) : Type 0 where
  pub fresh :
      (now : ℕ) × (sent : ℕ) × (count : ℕ) × (id : ℕ) × (rmid : ℕ) × (e.shared.session
        ≡ strict_session now sent base count id rmid)
  pub registered : IsOpen e.shared realm handle []
  pub idle : e.reader ≡ reading

module _ (base : ℕ) (ps : List PtcpPacket) (e : Engine) (realm handle : ℕ) (turns : List Turn)
    (fits : IsU32 base) (ready : IsReady base e realm handle) (stream : IsStream base 0 ps)
    (small : stream_bytes ps < 2 ^ 31)
    (open_to : (p : PtcpPacket) → In p ps → ¬ Closes realm p.body)
    (arrive : All (λ a. Arrives ps a.1) e.inbox) where
  ready-Serves : Serves base ps (packets_in e.inbox) realm handle e.shared e.inbox [] []
  ready-Serves =
      let (now, sent, count, id, rmid, same) = ready.fresh in
      record {
        flow = record {
          stands = rw same (strict_session-Progress now sent base count id rmid ps fits);
          arrive = arrive;
          kept = λ q i j. inr j;
        };
        serves = ready.registered;
      }

  -- However the turns of the tasks interleave, and however the camera's packets are lost, repeated
  -- and reordered, what was sent over a realm's channel are the payloads of that realm in a prefix of
  -- the camera's packets: nothing else, in order, and each once. The camera does not close the
  -- realm, its packets are less than 2 ^ 31 bytes, ordering is strict, and the client stays.
  run_channel_prefix :
      (done : List PtcpPacket) × (rest : List PtcpPacket) × (ps ≡ done ++ rest)
      × (lookup handle (run e turns).0.shared.queues
          ≡ some (record { queue = payloads_of realm done; has_receiver = true }))
  run_channel_prefix =
      let (done, g) =
        run-Stands base ps (packets_in e.inbox) stream small realm handle open_to turns e
          ([], rw ready.idle ready-Serves) in
      (
        done,
        in_hand (run e turns).0.reader ++ g.flow.stands.held.left,
        g.flow.stands.held.split ∙ append_assoc done _ g.flow.stands.held.left,
        g.serves.channel,
      )

  -- If all of the camera's packets arrive, in any order, then all payloads of the realm have been
  -- sent over its channel once `dh_reader` waits again and has read all that arrived.
  pub run_channel_complete :
      ((q : PtcpPacket) → In q ps → In q (packets_in e.inbox))
      → (run e turns).0.inbox ≡ []
      → (run e turns).0.reader ≡ reading
      → lookup handle (run e turns).0.shared.queues
        ≡ some (record { queue = payloads_of realm ps; has_receiver = true })
  run_channel_complete every read waits =
      let (done, g) =
        run-Stands base ps (packets_in e.inbox) stream small realm handle open_to turns e
          ([], rw ready.idle ready-Serves) in
      let whole : done ≡ ps =
        whole-Flow base ps (packets_in e.inbox) stream small _ done (rw (read, waits) at g.flow)
          every in
      rw (← whole) g.serves.channel
