-- ===== src/System/Written.antt =====
-- What the RTSP clients have been written, while all tasks of the engine take their steps in any order.
use dahua_p2p_bridge.Common.{
  ℕ, ◌+◌, ◌≤◌, ◌<◌, ◌^◌, ◌≡◌, refl, sym, ap, Bool, true, false, Option, none, some, List, [], ◌++◌,
  append-nil, append_assoc, length, take, drop, take-append-drop, drop-append_le, In, All, arith,
}
use mathlib.Core.Option.{none-ne-some}
use dahua_p2p_bridge.Common.Words.{IsU32}
use dahua_p2p_bridge.Common.HashMap.{lookup, insert}
use dahua_p2p_bridge.Ptcp.Wire.{PtcpPacket}
use dahua_p2p_bridge.Ptcp.Stream.{stream_bytes, IsStream}
use dahua_p2p_bridge.Ptcp.Receive.{Readings}
use dahua_p2p_bridge.Ptcp.Receive.Progress.{Arrives}
use dahua_p2p_bridge.Engine.{Channel, reading}
use dahua_p2p_bridge.Engine.Dispatch.{payloads_of, payloads_of-append}
use dahua_p2p_bridge.Engine.Run.Flow.{packets_in}
use dahua_p2p_bridge.Settings.{allow_gap_skip}
use dahua_p2p_bridge.Client.Startup.{Cli}
use dahua_p2p_bridge.System.{
  Client, System, writing, stopped, Step, reads, takes, resends, beats, opens, asks, binds,
  receives, ends, closes, relays, finishes, hangs_up, initial, new_client, writer_run,
}
use dahua_p2p_bridge.System.Reach.{Reach, start, next}
use dahua_p2p_bridge.System.Served.{
  IsWell, initial-IsWell, Reach-IsWell, handed_first, client_served_complete,
}
use dahua_p2p_bridge.System.Owed.{
  owed, HasWritten, AllWritten, put-AllWritten, grow-HasWritten, opened-le, run_written, run_counts,
  none_over,
}

stop-AllWritten :
    (y : System) (handle : ℕ) (c : Client) (channel : Channel) (closed : Bool)
    (first rest : List (List ℕ)) (result : Bool)
    → IsWell y
    → lookup handle y.clients ≡ some c
    → lookup handle y.engine.shared.queues ≡ some channel
    → channel.queue ≡ first ++ rest
    → AllWritten y.handed y.clients
    → AllWritten y.handed (
        insert handle
          (record c { writer = stopped; written = (writer_run y c closed first result).written })
          y.clients)
stop-AllWritten y handle c channel closed first rest result w e there split g =
    put-AllWritten y.handed y.clients handle _ g (λ plain.
      let (left, is) =
        run_written y handle c channel closed first rest result w e there split plain in
      record { left = left; prefix = is; count = λ n s. absurd (stopped-ne-writing n s) })
  where
    stopped-ne-writing : (n : ℕ) → stopped ≡ writing n → ⊥
    stopped-ne-writing n s = cc s

Step-AllWritten :
    (y y' : System)
    → Step y y'
    → IsWell y
    → AllWritten y.handed y.clients
    → AllWritten y'.handed y'.clients
Step-AllWritten y _ (reads now) w g =
    λ h c e plain. grow-HasWritten y.handed _ c (opened-le y h c w e) (g h c e plain)
Step-AllWritten y _ (takes now event events e) w g = g
Step-AllWritten y _ (resends due_at tested_at s packets e) w g = g
Step-AllWritten y _ (beats room) w g = g
Step-AllWritten y _ (opens service realm port small_realm small_port permit) w g =
    put-AllWritten y.handed y.clients y.next _ g (λ plain. record {
      left = owed y.handed (new_client service realm port (length y.handed));
      prefix = refl;
      count = λ n s. cc s;
    })
Step-AllWritten y _ (asks handle c e at room) w g =
    put-AllWritten y.handed y.clients handle _ g (λ plain. record {
      left = (g handle c e plain).left;
      prefix = (g handle c e plain).prefix;
      count = (g handle c e plain).count;
    })
Step-AllWritten y _ (binds handle c address port e at not_yet told) w g =
    put-AllWritten y.handed y.clients handle _ g
      (λ plain. record { left = owed y.handed c; prefix = refl; count = λ n s. cc s })
Step-AllWritten y _ (receives handle c st bytes e at chunk few room) w g =
    put-AllWritten y.handed y.clients handle _ g (λ plain. record {
      left = (g handle c e plain).left;
      prefix = (g handle c e plain).prefix;
      count = (g handle c e plain).count;
    })
Step-AllWritten y _ (ends handle c st e at room) w g =
    put-AllWritten y.handed y.clients handle _ g (λ plain. record {
      left = (g handle c e plain).left;
      prefix = (g handle c e plain).prefix;
      count = (g handle c e plain).count;
    })
Step-AllWritten y _ (closes handle c e at) w g =
    put-AllWritten y.handed y.clients handle _ g (λ plain. record {
      left = (g handle c e plain).left;
      prefix = (g handle c e plain).prefix;
      count = (g handle c e plain).count;
    })
Step-AllWritten y _ (relays handle n c channel result e at there more goes_on) w g =
    put-AllWritten y.handed y.clients handle _ g (λ plain.
      let (left, is) =
        run_written y handle c channel false (take (n + 1) channel.queue)
          (drop (n + 1) channel.queue) result w e there
          (sym (take-append-drop (n + 1) channel.queue)) plain in
      record {
        left = left;
        prefix = is;
        count = λ k s. cc (run_counts y c channel n result plain more goes_on, s);
      })
Step-AllWritten y _ (finishes handle n c channel result e at there more done) w g =
    stop-AllWritten y handle c channel false (take (n + 1) channel.queue)
      (drop (n + 1) channel.queue) result w e there (sym (take-append-drop (n + 1) channel.queue)) g
Step-AllWritten y _ (hangs_up handle n c channel e at there all gone) w g =
    stop-AllWritten y handle c channel true channel.queue [] true w e there
      (sym (append-nil channel.queue)) g

Reach-AllWritten :
    (y y' : System)
    → Reach y y'
    → IsWell y
    → AllWritten y.handed y.clients
    → AllWritten y'.handed y'.clients
Reach-AllWritten y _ start w g = g
Reach-AllWritten y y' (next {before} r t) w g =
    Step-AllWritten before y' t (Reach-IsWell y before r w) (Reach-AllWritten y before r w g)

module _ (now : ℕ) (args : Cli) (gap_variable : Option (List ℕ))
    (inbox : List (Readings × PtcpPacket)) (ps : List PtcpPacket) (y : System) (handle : ℕ)
    (c : Client) (strict : allow_gap_skip gap_variable ≡ false) (fits : IsU32 args.session_recv)
    (stream : IsStream args.session_recv 0 ps) (small : stream_bytes ps < 2 ^ 31)
    (arrive : All (λ a. Arrives ps a.1) inbox)
    (reached : Reach (initial now args gap_variable inbox) y)
    (is_client : lookup handle y.clients ≡ some c) (plain : c.rewrite ≡ none) where
  well : IsWell y
  well = Reach-IsWell _ y reached (initial-IsWell now args gap_variable inbox)

  has_written : HasWritten y.handed c
  unfolding lookup
  has_written =
      Reach-AllWritten _ y reached (initial-IsWell now args gap_variable inbox)
        (λ h d e no_rewrite. absurd (none-ne-some d e)) handle c is_client plain

  -- Strict ordering, that is, P2P_ALLOW_GAP_SKIP does not allow gaps to be skipped. In every state that
  -- the tasks of the engine reach from the start, by steps in any order, with any number of clients that
  -- come and go: a client whose responses are not rewritten, as that of RTSP, has been written the first
  -- payloads of its realm in the camera's packets from the place on where it opened the realm, unchanged
  -- and in their order. The camera's packets with content are one stream from the engine's receive offset,
  -- a u32, of less than 2 ^ 31 bytes; what arrives are packets of this stream, in any order and any number
  -- of times, and packets without bytes.
  pub client_written :
      (left : List (List ℕ)) × (payloads_of c.realm (drop c.opened_at ps) ≡ c.written ++ left)
  client_written =
      let (rest, split) =
        handed_first now args gap_variable inbox ps y handle c strict fits stream small arrive
          reached is_client in
      (
        has_written.left ++ payloads_of c.realm rest,
        rw
            (
              split,
              drop-append_le c.opened_at y.handed rest (opened-le y handle c well is_client),
              payloads_of-append,
              has_written.prefix,
            )
            (append_assoc c.written has_written.left _),
      )

  -- Strict ordering, a network and a client as for `client_written`, in every state that the tasks of the
  -- engine reach: once every packet of the camera has arrived and `dh_reader` has taken up all that arrived
  -- and waits, a client whose realm's entry still names its channel, with its receiver there, and whose
  -- writer has taken all that was sent over the channel, has been written exactly the payloads of its realm
  -- in all of the camera's packets from the place on where it opened the realm.
  pub client_written_complete :
      (queue : List (List ℕ)) (n : ℕ)
      → lookup c.realm y.engine.shared.channels ≡ some handle
      → lookup handle y.engine.shared.queues ≡ some (record { queue = queue; has_receiver = true })
      → c.writer ≡ writing n
      → length queue ≤ n
      → ((q : PtcpPacket) → In q ps → In q (packets_in inbox))
      → y.engine.inbox ≡ []
      → y.engine.reader ≡ reading
      → c.written ≡ payloads_of c.realm (drop c.opened_at ps)
  client_written_complete queue n named open_channel at all_taken every no_inbox waits =
      let sent =
        client_served_complete now args gap_variable inbox ps y handle c strict fits stream small
          arrive reached is_client queue named open_channel every no_inbox waits in
      let (left, split) = client_written in
      none_over _ c.written left split
        (omega (arith, ap length sent, has_written.count n at, all_taken))
