-- ===== src/System/Permits.antt =====
-- The one permit of `onvif_slots`: ONVIF clients are served one after the other.
use dahua_p2p_bridge.Common.{
  ℕ, ◌+◌, ◌-◌, ◌≤◌, ◌≡◌, ◌≢◌, refl, sym, ap, ◌∙◌, ◌⊎◌, inl, inr, true, Bool-cases, Option, some,
  List, length, ◌==◌, ==_refl, ==→eq, arith,
}
use mathlib.Core.Option.{some-injective, none-ne-some}
use dahua_p2p_bridge.Common.HashMap.{HashMap, lookup, insert, lookup-insert}
use dahua_p2p_bridge.Ptcp.Receive.{Readings}
use dahua_p2p_bridge.Ptcp.Wire.{PtcpPacket}
use dahua_p2p_bridge.Client.Connection.{is_onvif}
use dahua_p2p_bridge.Client.Startup.{Cli}
use dahua_p2p_bridge.System.{
  Client, System, writing, stopped, Step, reads, takes, resends, beats, opens, asks, binds,
  receives, ends, closes, relays, finishes, hangs_up, initial, new_client, permits_of,
}
use dahua_p2p_bridge.System.Reach.{Reach, start, next}

-- An ONVIF client from the permit to the end of its writer.
pub record HoldsPermit (clients : HashMap Client) (handle : ℕ) (c : Client) : Type 0 where
  pub is_client : lookup handle clients ≡ some c
  pub onvif : is_onvif c.service ≡ true
  pub goes_on : c.writer ≢ stopped

-- The permit is there, or one client holds it.
pub record IsExclusive (clients : HashMap Client) (permits : ℕ) : Type 0 where
  pub few : permits ≤ 1
  pub held : (handle : ℕ) (c : Client) → HoldsPermit clients handle c → permits ≡ 0
  pub alone :
      (handle handle' : ℕ) (c c' : Client)
      → HoldsPermit clients handle c
      → HoldsPermit clients handle' c'
      → handle ≡ handle'

module _ (clients : HashMap Client) (permits : ℕ) (x : IsExclusive clients permits) where
  -- Whoever holds the permit after a change of one client held it before, or is this client.
  before_change :
      (handle : ℕ) (c : Client) (h : ℕ) (d : Client)
      → HoldsPermit (insert handle c clients) h d
      → (HoldsPermit clients h d × (handle ≢ h)) ⊎ ((handle ≡ h) × (c ≡ d))
  before_change handle c h d p = elim (Bool-cases (handle == h)) [
    | inl same ↦
        inr (==→eq handle h same, some-injective c d (rw (lookup-insert, same) at p.is_client))
    | inr other ↦ inl (
      record {
        is_client = rw (lookup-insert, other) at p.is_client;
        onvif = p.onvif;
        goes_on = p.goes_on;
      },
      λ e. cc (e, other, ==_refl h),
    )
  ]

  put-IsExclusive :
      (handle : ℕ) (c c' : Client)
      → lookup handle clients ≡ some c
      → c'.service ≡ c.service
      → (c'.writer ≢ stopped → c.writer ≢ stopped)
      → IsExclusive (insert handle c' clients) permits
  put-IsExclusive handle c c' e same_service still =
      let held_before : (h : ℕ) (d : Client)
          → HoldsPermit (insert handle c' clients) h d
          → (d' : Client) × HoldsPermit clients h d' =
        λ h d p. elim (before_change handle c' h d p) [
          | inl (q, off) ↦ (d, q)
          | inr (same, is) ↦ (
            c,
            record {
              is_client = rw (← same) e;
              onvif = ap is_onvif (sym same_service ∙ ap (λ z. z.service) is) ∙ p.onvif;
              goes_on = still (rw is p.goes_on);
            },
          )
        ] in
      record {
        few = x.few;
        held = λ h d p. x.held h _ (held_before h d p).1;
        alone = λ h h' d d' p p'. x.alone h h' _ _ (held_before h d p).1 (held_before h' d' p').1;
      }

  -- A client opens with a permit if it needs one.
  open-IsExclusive :
      (handle : ℕ) (c : Client)
      → permits_of c.service ≤ permits
      → IsExclusive (insert handle c clients) (permits - permits_of c.service)
  open-IsExclusive handle c enough = elim (Bool-cases (is_onvif c.service)) [
    | inl onvif ↦
        let one : permits ≡ 1 = ground (arith, onvif, enough, x.few) in
        let nobody : (h : ℕ) (d : Client) → HoldsPermit clients h d → ⊥ =
          λ h d p. omega (arith, one, x.held h d p) in
        record {
          few = omega (arith, one);
          held = λ h d p. ground (arith, one, onvif);
          alone = λ h h' d d' p p'. elim (before_change handle c h d p) [
            | inl (q, off) ↦ absurd (nobody h d q)
            | inr (same, is) ↦ elim (before_change handle c h' d' p') [
              | inl (q, off) ↦ absurd (nobody h' d' q)
              | inr (same', is') ↦ sym same ∙ same'
            ]
          ];
        }
    | inr rtsp ↦
        let before : (h : ℕ) (d : Client)
            → HoldsPermit (insert handle c clients) h d
            → HoldsPermit clients h d =
          λ h d p. elim (before_change handle c h d p) [
            | inl (q, off) ↦ q
            | inr (same, is) ↦ cc (rtsp, ap (λ z. is_onvif z.service) is, p.onvif)
          ] in
        record {
          few = ground (arith, rtsp, x.few);
          held = λ h d p.
              (let none_left = x.held h d (before h d p) in ground (arith, rtsp, none_left));
          alone = λ h h' d d' p p'. x.alone h h' d d' (before h d p) (before h' d' p');
        }
  ]

  -- A writer returns, and its permit is back.
  stop-IsExclusive :
      (handle n : ℕ) (c : Client) (written : List (List ℕ))
      → lookup handle clients ≡ some c
      → c.writer ≡ writing n
      → IsExclusive
          (insert handle (record c { writer = stopped; written = written }) clients)
          (permits + permits_of c.service)
  stop-IsExclusive handle n c written e at =
      let off : (h : ℕ) (d : Client)
          → HoldsPermit (insert handle (record c { writer = stopped; written = written }) clients) h
              d
          → HoldsPermit clients h d × (handle ≢ h) =
        λ h d p.
          elim (before_change handle (record c { writer = stopped; written = written }) h d p) [
            | inl q ↦ q
            | inr (same, is) ↦ absurd (p.goes_on (sym (ap (λ z. z.writer) is)))
          ] in
      elim (Bool-cases (is_onvif c.service)) [
        | inl onvif ↦
            let own : HoldsPermit clients handle c = record {
              is_client = e;
              onvif = onvif;
              goes_on = λ s. writing-ne-stopped n (sym at ∙ s);
            } in
            let nobody : (h : ℕ) (d : Client)
                → HoldsPermit
                    (insert handle (record c { writer = stopped; written = written }) clients) h d
                → ⊥ =
              λ h d p. (off h d p).1 (x.alone handle h c d own (off h d p).0) in
            record {
              few = (let none_left = x.held handle c own in ground (arith, onvif, none_left));
              held = λ h d p. absurd (nobody h d p);
              alone = λ h h' d d' p p'. absurd (nobody h d p);
            }
        | inr rtsp ↦ record {
          few = ground (arith, rtsp, x.few);
          held = λ h d p.
              (let none_left = x.held h d (off h d p).0 in ground (arith, rtsp, none_left));
          alone = λ h h' d d' p p'. x.alone h h' d d' (off h d p).0 (off h' d' p').0;
        }
      ]
    where
      writing-ne-stopped : (k : ℕ) → writing k ≢ stopped
      writing-ne-stopped k s = cc s

abbrev Holds : System → Type 0
Holds y = IsExclusive y.clients y.permits

Step-IsExclusive : (y y' : System) → Step y y' → Holds y → Holds y'
Step-IsExclusive y _ (reads now) x = x
Step-IsExclusive y _ (takes now event events e) x = x
Step-IsExclusive y _ (resends due_at tested_at s packets e) x = x
Step-IsExclusive y _ (beats room) x = x
Step-IsExclusive y _ (opens service realm port small_realm small_port permit) x =
    open-IsExclusive y.clients y.permits x y.next (new_client service realm port (length y.handed))
      permit
Step-IsExclusive y _ (asks handle c e at room) x =
    put-IsExclusive y.clients y.permits x handle c _ e refl (λ h. h)
Step-IsExclusive y _ (binds handle c address port e at not_yet told) x =
    put-IsExclusive y.clients y.permits x handle c _ e refl (λ h s. cc (not_yet, s))
Step-IsExclusive y _ (receives handle c st bytes e at chunk few room) x =
    put-IsExclusive y.clients y.permits x handle c _ e refl (λ h. h)
Step-IsExclusive y _ (ends handle c st e at room) x =
    put-IsExclusive y.clients y.permits x handle c _ e refl (λ h. h)
Step-IsExclusive y _ (closes handle c e at) x =
    put-IsExclusive y.clients y.permits x handle c _ e refl (λ h. h)
Step-IsExclusive y _ (relays handle n c channel result e at there more goes_on) x =
    put-IsExclusive y.clients y.permits x handle c _ e refl (λ h s. cc (at, s))
Step-IsExclusive y _ (finishes handle n c channel result e at there more done) x =
    stop-IsExclusive y.clients y.permits x handle n c _ e at
Step-IsExclusive y _ (hangs_up handle n c channel e at there all gone) x =
    stop-IsExclusive y.clients y.permits x handle n c _ e at

Reach-IsExclusive : (y y' : System) → Reach y y' → Holds y → Holds y'
Reach-IsExclusive y _ start x = x
Reach-IsExclusive y y' (next r t) x = Step-IsExclusive _ y' t (Reach-IsExclusive y _ r x)

-- In every state that the tasks of the engine reach from the start, at most one ONVIF client is between
-- its permit and the end of its writer, and while there is one no permit is left, so that no other ONVIF
-- client opens a realm.
pub onvif_alone :
    (now : ℕ) (args : Cli) (gap_variable : Option (List ℕ)) (inbox : List (Readings × PtcpPacket))
    (y : System) (handle handle' : ℕ) (c c' : Client)
    → Reach (initial now args gap_variable inbox) y
    → HoldsPermit y.clients handle c
    → HoldsPermit y.clients handle' c'
    → (handle ≡ handle') × (c ≡ c') × (y.permits ≡ 0)
unfolding lookup
onvif_alone now args gap_variable inbox y handle handle' c c' reached p p' =
    let x = Reach-IsExclusive _ y reached (record {
      few = omega arith;
      held = λ h d q. absurd (none-ne-some d q.is_client);
      alone = λ h h' d d' q q'. absurd (none-ne-some d q.is_client);
    }) in
    let same = x.alone handle handle' c c' p p' in
    (
      same,
      some-injective c c'
          (sym p.is_client ∙ ap (λ (k : ℕ). lookup k y.clients) same ∙ p'.is_client),
      x.held handle c p,
    )
