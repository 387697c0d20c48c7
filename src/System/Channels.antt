-- ===== src/System/Channels.antt =====
-- The clients' channels: no two clients share one, and each carries the payloads of its realm.
use dahua_p2p_bridge.Common.{
  ℕ, ◌+◌, ◌<◌, ◌≡◌, refl, sym, ap, ◌∙◌, inl, inr, true, false, Bool-cases, Option, some, List, [],
  ◌∷◌, ◌++◌, append-nil, length, ◌==◌, ==→eq, ==_refl, ne→==, arith,
}
use mathlib.Core.Option.{some-injective}
use dahua_p2p_bridge.Common.HashMap.{HashMap, lookup, insert, lookup-insert}
use dahua_p2p_bridge.Ptcp.Wire.{PtcpPacket}
use dahua_p2p_bridge.Engine.{Shared, Channel, dispatch}
use dahua_p2p_bridge.Engine.Dispatch.{payloads_of}
use dahua_p2p_bridge.Engine.Carried.{
  IsCarried, Shrinks, Shrinks-IsCarried, same_queues_IsCarried, dispatch-IsCarried, dispatch-fewer,
}
use dahua_p2p_bridge.Client.Connection.{open_realm}
use dahua_p2p_bridge.System.{Client}

-- The handles are below `next`, an entry of `channels` names the channel of a client with its realm, and
-- every client's channel carries the payloads of its realm.
pub record HasChannels (handed : List PtcpPacket) (s : Shared) (clients : HashMap Client) (next : ℕ)
    : Type 0 where
  pub below : (handle : ℕ) (c : Client) → lookup handle clients ≡ some c → handle < next
  pub named :
      (realm handle : ℕ)
      → lookup realm s.channels ≡ some handle
      → (c : Client) × (lookup handle clients ≡ some c) × (c.realm ≡ realm)
  pub carried :
      (handle : ℕ) (c : Client)
      → lookup handle clients ≡ some c
      → IsCarried handed s handle c.realm c.opened_at

module _ (handed : List PtcpPacket) (s : Shared) (clients : HashMap Client) (next : ℕ)
    (w : HasChannels handed s clients next) where
  -- A client's entries are for its realm.
  own_realm :
      (handle : ℕ) (c : Client)
      → lookup handle clients ≡ some c
      → (r : ℕ) → lookup r s.channels ≡ some handle
      → r ≡ c.realm
  own_realm handle c e r at =
      let (c', e', same) = w.named r handle at in
      sym same ∙ ap (λ x. x.realm) (some-injective c' c (sym e' ∙ e))

  pub shrink-HasChannels : (s' : Shared) → Shrinks s s' → HasChannels handed s' clients next
  shrink-HasChannels s' t = record {
    below = w.below;
    named = λ r h at. w.named r h (t.fewer r h at);
    carried = λ h c e. Shrinks-IsCarried handed s s' h c.realm c.opened_at t (w.carried h c e);
  }

  -- A client changes, but for its realm and when it opened.
  pub put-HasChannels :
      (handle : ℕ) (c c' : Client)
      → lookup handle clients ≡ some c
      → c'.realm ≡ c.realm
      → c'.opened_at ≡ c.opened_at
      → HasChannels handed s (insert handle c' clients) next
  put-HasChannels handle c c' e same_realm same_time = record {
    below = λ h d f. elim (Bool-cases (handle == h)) [
      | inl same ↦ rw (← ==→eq handle h same) (w.below handle c e)
      | inr other ↦ w.below h d (rw (lookup-insert, other) at f)
    ];
    named = λ r h at. elim (Bool-cases (handle == h)) [
      | inl same ↦ (
        c',
        rw (lookup-insert, same) refl,
        same_realm
            ∙ sym
                (own_realm handle c e r (at ∙ ap {B = Option ℕ} some (sym (==→eq handle h same)))),
      )
      | inr other ↦ let (d, f, is) = w.named r h at in (d, rw (lookup-insert, other) f, is)
    ];
    carried = λ h d f. elim (Bool-cases (handle == h)) [
      | inl same ↦
          let is : c' ≡ d = some-injective c' d (rw (lookup-insert, same) at f) in
          rw (← is, same_realm, same_time, ← ==→eq handle h same) (w.carried handle c e)
      | inr other ↦ w.carried h d (rw (lookup-insert, other) at f)
    ];
  }

  -- A receiver is dropped.
  pub drop-HasChannels :
      (handle : ℕ) (channel : Channel)
      → lookup handle s.queues ≡ some channel
      → HasChannels handed
          (record s { queues = insert handle (record channel { has_receiver = false }) s.queues })
          clients
          next
  drop-HasChannels handle channel e = record {
    below = w.below;
    named = w.named;
    carried = λ h c f. elim (Bool-cases (handle == h)) [
      | inl same ↦
          let g = w.carried h c f in
          let is : channel
              ≡ record { queue = payloads_of c.realm g.during; has_receiver = g.has_receiver } =
            some-injective _ _
              (sym e ∙ ap (λ (k : ℕ). lookup k s.queues) (==→eq handle h same) ∙ g.channel) in
          record {
            before = g.before;
            during = g.during;
            after = g.after;
            split = g.split;
            opened = g.opened;
            has_receiver = false;
            channel = rw (lookup-insert, same, is) refl;
            live = λ there at. cc there;
          }
      | inr other ↦
          same_queues_IsCarried handed s _ h c.realm c.opened_at (rw (lookup-insert, other) refl)
            (w.carried h c f)
    ];
  }

  -- A packet is handed on.
  pub hand-HasChannels :
      (p : PtcpPacket) → HasChannels (handed ++ (p ∷ [])) (dispatch s p.body) clients next
  hand-HasChannels p = record {
    below = w.below;
    named = λ r h at. w.named r h (dispatch-fewer s p.body r h at);
    carried = λ h c e.
        dispatch-IsCarried handed s h c.realm c.opened_at p (own_realm h c e) (w.carried h c e);
  }

  -- A client opens its realm, over a new channel.
  pub open-HasChannels :
      (c : Client)
      → c.opened_at ≡ length handed
      → HasChannels handed (open_realm s c.realm next next) (insert next c clients) (next + 1)
  unfolding open_realm
  open-HasChannels c now = record {
    below = λ h d f. elim (Bool-cases (next == h)) [
      | inl same ↦ omega (arith, ==→eq next h same)
      | inr other ↦ omega (arith, w.below h d (rw (lookup-insert, other) at f))
    ];
    named = λ r h at. elim (Bool-cases (c.realm == r)) [
      | inl here ↦
          let is : next ≡ h = some-injective next h (rw (lookup-insert, here) at at) in
          (c, rw (lookup-insert, is, ==_refl h) refl, ==→eq c.realm r here)
      | inr elsewhere ↦
          let (d, f, is) = w.named r h (rw (lookup-insert, elsewhere) at at) in
          (
            d,
            rw (lookup-insert, ne→== next h (λ e. absurd (omega (arith, e, w.below h d f)))) f,
            is,
          )
    ];
    carried = λ h d f. elim (Bool-cases (next == h)) [
      | inl same ↦
          let is : c ≡ d = some-injective c d (rw (lookup-insert, same) at f) in
          record {
            before = handed;
            during = [];
            after = [];
            split = sym (append-nil handed);
            opened = sym now ∙ ap (λ x. x.opened_at) is;
            has_receiver = true;
            channel = rw (lookup-insert, same) refl;
            live = λ there at. refl;
          }
      | inr other ↦
          let g = w.carried h d (rw (lookup-insert, other) at f) in
          record {
            before = g.before;
            during = g.during;
            after = g.after;
            split = g.split;
            opened = g.opened;
            has_receiver = g.has_receiver;
            channel = rw (lookup-insert, other) g.channel;
            live = λ there at. elim (Bool-cases (c.realm == d.realm)) [
              | inl here ↦
                  cc (some-injective next h (rw (lookup-insert, here) at at), other, ==_refl h)
              | inr elsewhere ↦ g.live there (rw (lookup-insert, elsewhere) at at)
            ];
          }
    ];
  }
