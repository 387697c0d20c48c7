-- ===== src/System/Events.antt =====
-- The data events of the clients, in the order of the queue to `dh_writer`.
use dahua_p2p_bridge.Common.{
  ℕ, ◌<◌, ◌≡◌, ◌≢◌, refl, sym, ap, ◌∙◌, inl, inr, Bool, true, false, Bool-cases, some, List, [],
  ◌∷◌, ◌++◌, append-nil, append_assoc, ◌==◌, ==→eq, ==_refl, ne→==, arith,
}
use mathlib.Core.Option.{some-injective}
use dahua_p2p_bridge.Common.HashMap.{HashMap, lookup, insert, lookup-insert}
use dahua_p2p_bridge.Engine.{Shared, PtcpEvent, event_body}
use dahua_p2p_bridge.Engine.Dispatch.{body_data}
use dahua_p2p_bridge.Client.Reader.{ReaderState, got, process_reader, reader_ends, IsChunk}
use dahua_p2p_bridge.Client.Upload.{event_data}
use dahua_p2p_bridge.System.{Client}

pub event_data-append :
    (realm : ℕ) (xs ys : List PtcpEvent)
    → event_data realm (xs ++ ys) ≡ event_data realm xs ++ event_data realm ys
event_data-append realm [] ys = refl
event_data-append realm (e ∷ xs) ys =
    rw (event_data-append realm xs ys) (sym (append_assoc (body_data realm (event_body e)) _ _))

-- No other client has drawn the realm.
abbrev pub IsAlone : HashMap Client → ℕ → ℕ → Type 0
IsAlone clients handle realm =
    (h : ℕ) (c : Client) → lookup h clients ≡ some c → c.realm ≡ realm → h ≡ handle

-- The data of the events so far are, for the realm of a client that has it alone, what the client sent,
-- and for a realm of no client there are none.
pub record IsHeard (clients : HashMap Client) (events : List PtcpEvent) : Type 0 where
  pub own :
      (handle : ℕ) (c : Client)
      → lookup handle clients ≡ some c
      → IsAlone clients handle c.realm
      → event_data c.realm events ≡ c.chunks
  pub foreign :
      (realm : ℕ)
      → ((h : ℕ) (c : Client) → lookup h clients ≡ some c → c.realm ≢ realm)
      → event_data realm events ≡ []

module _ (clients : HashMap Client) (events : List PtcpEvent) (g : IsHeard clients events)
    (handle : ℕ) (c c' : Client) (e : lookup handle clients ≡ some c)
    (same_realm : c'.realm ≡ c.realm) where
  IsAlone-before :
      (h realm : ℕ) → IsAlone (insert handle c' clients) h realm → IsAlone clients h realm
  IsAlone-before h realm alone k d f is = elim (Bool-cases (handle == k)) [
    | inl same ↦
        let c_is : c ≡ d =
          some-injective c d (sym e ∙ ap (λ (j : ℕ). lookup j clients) (==→eq handle k same) ∙ f) in
        alone k c' (rw (lookup-insert, same) refl) (same_realm ∙ ap (λ z. z.realm) c_is ∙ is)
    | inr other ↦ alone k d (rw (lookup-insert, other) f) is
  ]

  no_client_before :
      (realm : ℕ)
      → ((h : ℕ) (d : Client) → lookup h (insert handle c' clients) ≡ some d → d.realm ≢ realm)
      → (h : ℕ) (d : Client) → lookup h clients ≡ some d
      → d.realm ≢ realm
  no_client_before realm off h d f is = elim (Bool-cases (handle == h)) [
    | inl same ↦
        let c_is : c ≡ d =
          some-injective c d (sym e ∙ ap (λ (j : ℕ). lookup j clients) (==→eq handle h same) ∙ f) in
        off h c' (rw (lookup-insert, same) refl) (same_realm ∙ ap (λ z. z.realm) c_is ∙ is)
    | inr other ↦ off h d (rw (lookup-insert, other) f) is
  ]

  -- The client posts events: those for its realm carry its new chunks, and there are none for others.
  pub post-IsHeard :
      (posted : List PtcpEvent)
      → c'.chunks ≡ c.chunks ++ event_data c.realm posted
      → ((realm : ℕ) → realm ≢ c.realm → event_data realm posted ≡ [])
      → IsHeard (insert handle c' clients) (events ++ posted)
  post-IsHeard posted grows others = record {
    own = λ h d f alone. elim (Bool-cases (handle == h)) [
      | inl same ↦
          let d_is : c' ≡ d = some-injective c' d (rw (lookup-insert, same) at f) in
          let alone' = IsAlone-before h d.realm alone in
          let before : event_data c.realm events ≡ c.chunks = g.own handle c e (λ k z w is.
            alone' k z w (is ∙ sym same_realm ∙ ap (λ x. x.realm) d_is)
            ∙ sym (==→eq handle h same)) in
          rw (← d_is, same_realm, event_data-append, before) (sym grows)
      | inr other ↦
          let old = rw (lookup-insert, other) at f in
          let off : d.realm ≢ c.realm = λ is. cc (
            alone handle c' (rw (lookup-insert, ==_refl handle) refl) (same_realm ∙ sym is),
            other,
            ==_refl handle,
          ) in
          rw (event_data-append, others d.realm off, append-nil)
            (g.own h d old (IsAlone-before h d.realm alone))
    ];
    foreign = λ realm off.
        let none_before = no_client_before realm off in
        rw
          (
            event_data-append,
            g.foreign realm none_before,
            others realm (λ is. none_before handle c e (sym is)),
          )
          refl;
  }

  pub quiet-IsHeard : c'.chunks ≡ c.chunks → IsHeard (insert handle c' clients) events
  quiet-IsHeard same =
      rw append-nil at (post-IsHeard [] (same ∙ sym (append-nil c.chunks)) (λ realm off. refl))

-- A client opens a realm, under a new handle.
pub open-IsHeard :
    (clients : HashMap Client) (events : List PtcpEvent) (n : ℕ) (c : Client)
    → IsHeard clients events
    → ((h : ℕ) (d : Client) → lookup h clients ≡ some d → h < n)
    → c.chunks ≡ []
    → IsHeard (insert n c clients) events
open-IsHeard clients events n c g below empty = record {
  own = λ h d f alone. elim (Bool-cases (n == h)) [
    | inl same ↦
        let d_is : c ≡ d = some-injective c d (rw (lookup-insert, same) at f) in
        rw (← d_is, empty)
          (g.foreign c.realm (λ k z w is. absurd (
            omega (
              arith,
              below k z w,
              ==→eq n h same,
              alone k z (still k z w) (is ∙ ap (λ x. x.realm) d_is),
            ))))
    | inr other ↦
        g.own h d (rw (lookup-insert, other) at f) (λ k z w is. alone k z (still k z w) is)
  ];
  foreign = λ realm off. g.foreign realm (λ k z w. off k z (still k z w));
}
  where
    still :
        (k : ℕ) (z : Client) → lookup k clients ≡ some z → lookup k (insert n c clients) ≡ some z
    still k z w =
        rw (lookup-insert, ne→== n k (λ same. absurd (omega (arith, same, below k z w)))) w

pub received_data :
    (realm : ℕ) (persistent_realm : Bool) (st : ReaderState) (s : Shared) (bytes : List ℕ)
    → IsChunk bytes
    → (bytes ∷ []
        ≡ event_data realm (process_reader realm persistent_realm st s (got bytes ∷ [])).1)
      × ((other : ℕ)
          → other ≢ realm
          → event_data other (process_reader realm persistent_realm st s (got bytes ∷ [])).1 ≡ [])
unfolding process_reader event_body
received_data realm p st s [] chunk = absurd (chunk refl)
received_data realm p st s (b ∷ bytes) chunk =
    (rw (==_refl realm) refl, λ other off. rw (ne→== realm other (λ e. off (sym e))) refl)

pub ended_data :
    (realm other : ℕ) (persistent_realm : Bool) (s : Shared)
    → event_data other (reader_ends realm persistent_realm s).1 ≡ []
unfolding reader_ends event_body
ended_data realm other true s = refl
ended_data realm other false s = refl

-- Events without data change nothing.
pub append-IsHeard :
    (clients : HashMap Client) (events posted : List PtcpEvent)
    → ((realm : ℕ) → event_data realm posted ≡ [])
    → IsHeard clients events
    → IsHeard clients (events ++ posted)
append-IsHeard clients events posted silent g = record {
  own = λ h c e alone. rw (event_data-append, silent c.realm, append-nil) (g.own h c e alone);
  foreign = λ realm off. rw (event_data-append, silent realm, append-nil) (g.foreign realm off);
}
