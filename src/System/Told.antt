-- ===== src/System/Told.antt =====
-- Who has been told that the camera has bound its realm.
use dahua_p2p_bridge.Common.{
  ℕ, ◌≤◌, ◌<◌, ◌≡◌, ◌≢◌, refl, sym, ap, ◌∙◌, inl, inr, true, Bool-cases, some, List, [], ◌∷◌, ◌++◌,
  append_assoc, length, In, ◌==◌, ==→eq, ==_refl, ne→==, arith,
}
use mathlib.Core.Option.{some-injective}
use dahua_p2p_bridge.Common.HashMap.{HashMap, lookup, insert, lookup-insert}
use dahua_p2p_bridge.Ptcp.Wire.{PtcpPacket, status}
use dahua_p2p_bridge.Engine.{Shared, conn_text, dispatch}
use dahua_p2p_bridge.Engine.Told.{dispatch_conn_fewer, dispatch_told}
use dahua_p2p_bridge.Client.Connection.{}
use dahua_p2p_bridge.System.{Client, unstarted}

-- The camera's CONN for a realm is among what was handed on, behind at least so many packets.
abbrev pub Confirmed : List PtcpPacket → ℕ → ℕ → Type 0
Confirmed handed realm opened_at =
    (before : List PtcpPacket) × (p : PtcpPacket) × (after : List PtcpPacket) × (handed
      ≡ before ++ (p ∷ after))
    × (opened_at ≤ length before)
    × (p.body ≡ status realm conn_text)

grow-Confirmed :
    (handed more : List PtcpPacket) (realm opened_at : ℕ)
    → Confirmed handed realm opened_at
    → Confirmed (handed ++ more) realm opened_at
grow-Confirmed handed more realm opened_at (before, p, after, split, late, is_conn) =
    (before, p, after ++ more, rw split (append_assoc before (p ∷ after) more), late, is_conn)

-- An entry of `conn_channels` is that of a client with its realm; a client that has been told, and one
-- whose tasks have started, is confirmed.
pub record IsConfirmed (handed : List PtcpPacket) (conns : HashMap ℕ) (connected : List ℕ)
    (clients : HashMap Client) : Type 0 where
  pub named :
      (realm handle : ℕ)
      → lookup realm conns ≡ some handle
      → (c : Client) × (lookup handle clients ≡ some c) × (c.realm ≡ realm)
  pub told :
      (handle : ℕ)
      → In handle connected
      → (c : Client) × (lookup handle clients ≡ some c) × Confirmed handed c.realm c.opened_at
  pub started :
      (handle : ℕ) (c : Client)
      → lookup handle clients ≡ some c
      → c.writer ≢ unstarted
      → Confirmed handed c.realm c.opened_at

module _ (handed : List PtcpPacket) (conns : HashMap ℕ) (connected : List ℕ)
    (clients : HashMap Client) (g : IsConfirmed handed conns connected clients) where
  pub put-IsConfirmed :
      (handle : ℕ) (c c' : Client)
      → lookup handle clients ≡ some c
      → c'.realm ≡ c.realm
      → c'.opened_at ≡ c.opened_at
      → (c'.writer ≢ unstarted → Confirmed handed c.realm c.opened_at)
      → IsConfirmed handed conns connected (insert handle c' clients)
  put-IsConfirmed handle c c' e same_realm same_time starts = record {
    named = λ r h at.
        let (d, f, is) = g.named r h at in
        elim (Bool-cases (handle == h)) [
          | inl same ↦ (
            c',
            rw (lookup-insert, same) refl,
            same_realm ∙ ap (λ x. x.realm) (is_c h d same f) ∙ is,
          )
          | inr other ↦ (d, rw (lookup-insert, other) f, is)
        ];
    told = λ h i.
        let (d, f, known) = g.told h i in
        elim (Bool-cases (handle == h)) [
          | inl same ↦
              (c', rw (lookup-insert, same) refl, rw (same_realm, same_time, is_c h d same f) known)
          | inr other ↦ (d, rw (lookup-insert, other) f, known)
        ];
    started = λ h d f runs. elim (Bool-cases (handle == h)) [
      | inl same ↦
          let is : c' ≡ d = some-injective c' d (rw (lookup-insert, same) at f) in
          rw (← is, same_realm, same_time) (starts (rw is runs))
      | inr other ↦ g.started h d (rw (lookup-insert, other) at f) runs
    ];
  }
    where
      is_c : (h : ℕ) (d : Client) → (handle == h) ≡ true → lookup h clients ≡ some d → c ≡ d
      is_c h d same f =
          some-injective c d (sym e ∙ ap (λ (k : ℕ). lookup k clients) (==→eq handle h same) ∙ f)

  pub open-IsConfirmed :
      (n : ℕ) (c : Client)
      → ((h : ℕ) (d : Client) → lookup h clients ≡ some d → h < n)
      → c.writer ≡ unstarted
      → IsConfirmed handed (insert c.realm n conns) connected (insert n c clients)
  open-IsConfirmed n c below fresh = record {
    named = λ r h at. elim (Bool-cases (c.realm == r)) [
      | inl here ↦
          let is : n ≡ h = some-injective n h (rw (lookup-insert, here) at at) in
          (c, rw (lookup-insert, is, ==_refl h) refl, ==→eq c.realm r here)
      | inr elsewhere ↦
          let (d, f, is) = g.named r h (rw (lookup-insert, elsewhere) at at) in (d, still h d f, is)
    ];
    told = λ h i. (let (d, f, known) = g.told h i in (d, still h d f, known));
    started = λ h d f runs. elim (Bool-cases (n == h)) [
      | inl same ↦
          let is : c ≡ d = some-injective c d (rw (lookup-insert, same) at f) in
          absurd (runs (ap (λ x. x.writer) (sym is) ∙ fresh))
      | inr other ↦ g.started h d (rw (lookup-insert, other) at f) runs
    ];
  }
    where
      still :
          (h : ℕ) (d : Client) → lookup h clients ≡ some d → lookup h (insert n c clients) ≡ some d
      still h d f =
          rw (lookup-insert, ne→== n h (λ same. absurd (omega (arith, same, below h d f)))) f

  more-IsConfirmed : (more : List PtcpPacket) → IsConfirmed (handed ++ more) conns connected clients
  more-IsConfirmed more = record {
    named = g.named;
    told = λ h i.
        (let (c, f, known) = g.told h i in
          (c, f, grow-Confirmed handed more c.realm c.opened_at known));
    started = λ h c f runs. grow-Confirmed handed more c.realm c.opened_at (g.started h c f runs);
  }

-- A packet is handed on.
pub hand-IsConfirmed :
    (handed : List PtcpPacket) (s : Shared) (clients : HashMap Client) (p : PtcpPacket)
    → ((h : ℕ) (c : Client) → lookup h clients ≡ some c → c.opened_at ≤ length handed)
    → IsConfirmed handed s.conn_channels s.connected clients
    → IsConfirmed
        (handed ++ (p ∷ []))
        (dispatch s p.body).conn_channels
        (dispatch s p.body).connected
        clients
hand-IsConfirmed handed s clients p early g =
    let grown = more-IsConfirmed handed s.conn_channels s.connected clients g (p ∷ []) in
    record {
      named = λ r h at. g.named r h (dispatch_conn_fewer s p.body r h at);
      told = λ h i. elim (dispatch_told s p.body h i) [
        | inl before ↦ grown.told h before
        | inr (r, is_conn, at) ↦
            let (c, f, is) = g.named r h at in
            (
              c,
              f,
              (
                handed,
                p,
                [],
                refl,
                early h c f,
                is_conn ∙ ap (λ (x : ℕ). status x conn_text) (sym is),
              ),
            )
      ];
      started = grown.started;
    }
