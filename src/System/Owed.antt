-- ===== src/System/Owed.antt =====
-- What an RTSP client has been written of what came over its channel.
use dahua_p2p_bridge.Common.{
  ℕ, ◌+◌, ◌≤◌, ◌<◌, ◌≡◌, refl, sym, ap, ◌∙◌, inl, inr, Bool, true, false, Bool-cases, none, some,
  List, [], ◌∷◌, ◌++◌, append-nil, append_assoc, length, length-append, take, drop, replicate, ◌-◌,
  drop-append_le, length-take_le, drop-length-append, ◌==◌, arith,
}
use mathlib.Core.Option.{some-injective}
use dahua_p2p_bridge.Common.HashMap.{HashMap, lookup, insert, lookup-insert}
use dahua_p2p_bridge.Ptcp.Wire.{PtcpPacket}
use dahua_p2p_bridge.Engine.{Channel}
use dahua_p2p_bridge.Engine.Dispatch.{payloads_of, payloads_of-append}
use dahua_p2p_bridge.Client.Writer.Relays.{process_writer_relay, process_writer_goes_on}
use dahua_p2p_bridge.System.{Client, System, writing, writer_run}
use dahua_p2p_bridge.System.Served.{IsWell}

-- The payloads of a client's realm in what was handed on since it opened the realm.
abbrev pub owed : List PtcpPacket → Client → List (List ℕ)
owed handed c = payloads_of c.realm (drop c.opened_at handed)

-- The client has been written the first of these payloads, as many as its writer has taken.
pub record HasWritten (handed : List PtcpPacket) (c : Client) : Type 0 where
  pub left : List (List ℕ)
  pub prefix : owed handed c ≡ c.written ++ left
  pub count : (n : ℕ) → c.writer ≡ writing n → length c.written ≡ n

abbrev pub AllWritten : List PtcpPacket → HashMap Client → Type 0
AllWritten handed clients =
    (handle : ℕ) (c : Client)
    → lookup handle clients ≡ some c
    → c.rewrite ≡ none
    → HasWritten handed c

pub put-AllWritten :
    (handed : List PtcpPacket) (clients : HashMap Client) (handle : ℕ) (c : Client)
    → AllWritten handed clients
    → (c.rewrite ≡ none → HasWritten handed c)
    → AllWritten handed (insert handle c clients)
put-AllWritten handed clients handle c g own h d e plain = elim (Bool-cases (handle == h)) [
  | inl same ↦
      let is : c ≡ d = some-injective c d (rw (lookup-insert, same) at e) in
      rw (← is) (own (ap (λ x. x.rewrite) is ∙ plain))
  | inr other ↦ g h d (rw (lookup-insert, other) at e) plain
]

pub grow-HasWritten :
    (handed more : List PtcpPacket) (c : Client)
    → c.opened_at ≤ length handed
    → HasWritten handed c
    → HasWritten (handed ++ more) c
grow-HasWritten handed more c early g = record {
  left = g.left ++ payloads_of c.realm more;
  prefix =
      rw (drop-append_le c.opened_at handed more early, payloads_of-append, g.prefix)
        (append_assoc c.written g.left _);
  count = g.count;
}

pub opened-le :
    (y : System) (handle : ℕ) (c : Client)
    → IsWell y
    → lookup handle y.clients ≡ some c
    → c.opened_at ≤ length y.handed
opened-le y handle c w e =
    let g = w.carried handle c e in
    omega (arith, g.opened, ap length g.split, length-append g.before (g.during ++ g.after))

-- What has been sent over a client's channel is the first that it is owed.
queue_owed :
    (y : System) (handle : ℕ) (c : Client) (channel : Channel)
    → IsWell y
    → lookup handle y.clients ≡ some c
    → lookup handle y.engine.shared.queues ≡ some channel
    → (later : List (List ℕ)) × (owed y.handed c ≡ channel.queue ++ later)
queue_owed y handle c channel w e there =
    let g = w.carried handle c e in
    let same = some-injective _ _ (sym there ∙ g.channel) in
    (
      payloads_of c.realm g.after,
      rw (g.split, ← g.opened, drop-length-append, payloads_of-append, same) refl,
    )

-- A run of the writer over what has come first over its channel.
pub run_written :
    (y : System) (handle : ℕ) (c : Client) (channel : Channel) (closed : Bool)
    (first rest : List (List ℕ)) (result : Bool)
    → IsWell y
    → lookup handle y.clients ≡ some c
    → lookup handle y.engine.shared.queues ≡ some channel
    → channel.queue ≡ first ++ rest
    → c.rewrite ≡ none
    → (left : List (List ℕ)) × (owed y.handed c
        ≡ (writer_run y c closed first result).written ++ left)
run_written y handle c channel closed first rest result w e there split plain =
    let (later, is) = queue_owed y handle c channel w e there in
    let (unwritten, cut) =
      (process_writer_relay c.realm y.engine.shared closed first
        (replicate (length first - 1) true ++ (result ∷ []))).1 in
    let written = (writer_run y c closed first result).written in
    let cut' : first ≡ written ++ unwritten = rw plain cut in
    (
      unwritten ++ (rest ++ later),
      is
          ∙ ap (λ xs. xs ++ later) split
          ∙ append_assoc first rest later
          ∙ ap (λ xs. xs ++ (rest ++ later)) cut'
          ∙ append_assoc written unwritten (rest ++ later),
    )

-- The writer that goes on has written all chunks that it has taken.
pub run_counts :
    (y : System) (c : Client) (channel : Channel) (n : ℕ) (result : Bool)
    → c.rewrite ≡ none
    → n < length channel.queue
    → (writer_run y c false (take (n + 1) channel.queue) result).has_ended ≡ false
    → length (writer_run y c false (take (n + 1) channel.queue) result).written ≡ n + 1
run_counts y c channel n result plain more goes_on =
    let size = length-take_le (n + 1) channel.queue (omega (arith, more)) in
    let all_written =
      process_writer_goes_on c.realm y.engine.shared (take (n + 1) channel.queue) result
        (omega (arith, size)) (rw plain at goes_on) in
    rw plain (ap length all_written ∙ size)

pub none_over :
    (xs written left : List (List ℕ))
    → xs ≡ written ++ left
    → length xs ≤ length written
    → written ≡ xs
none_over xs written [] e few = sym (append-nil written) ∙ sym e
none_over xs written (x ∷ left) e few =
    absurd (omega (arith, few, ap length e, length-append written (x ∷ left)))
