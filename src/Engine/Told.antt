-- ===== src/Engine/Told.antt =====
-- Whom `dh_reader` tells that the camera has bound a realm.
use dahua_p2p_bridge.Common.{
  ℕ, ◌≡◌, refl, sym, ap, ◌∙◌, ◌⊎◌, inl, inr, true, Bool-cases, Option, some, Option-cases, List, [],
  ◌∷◌, In, ◌==◌, ==→eq,
}
use mathlib.Core.Bool.{false≢true}
use mathlib.Core.Option.{none-ne-some}
use dahua_p2p_bridge.Common.HashMap.{HashMap, lookup, remove, lookup-remove}
use dahua_p2p_bridge.Ptcp.Wire.{PtcpPayload, PtcpBody, payload, status, bytes_eq}
use dahua_p2p_bridge.Engine.{
  Shared, conn_text, disc_text, on_conn, on_disc, on_payload, dispatch, notify,
}

bytes_eq→eq : (xs ys : List ℕ) → bytes_eq xs ys ≡ true → xs ≡ ys
bytes_eq→eq [] [] h = refl
bytes_eq→eq [] (y ∷ ys) h = cc h
bytes_eq→eq (x ∷ xs) [] h = cc h
bytes_eq→eq (x ∷ xs) (y ∷ ys) h = elim (Bool-cases (x == y)) [
  | inl same ↦ cc (==→eq x y same, bytes_eq→eq xs ys (rw same at h))
  | inr other ↦ absurd (false≢true (rw other at h))
]

lookup-remove_fewer :
    (conns : HashMap ℕ) (gone realm handle : ℕ)
    → lookup realm (remove gone conns) ≡ some handle
    → lookup realm conns ≡ some handle
lookup-remove_fewer conns gone realm handle at = elim (Bool-cases (gone == realm)) [
  | inl same ↦ absurd (none-ne-some handle (rw (lookup-remove, same) at at))
  | inr other ↦ rw (lookup-remove, other) at at
]

on_payload_told :
    (s : Shared) (q : PtcpPayload)
    → ((on_payload s q).conn_channels ≡ s.conn_channels)
      × ((on_payload s q).connected ≡ s.connected)
unfolding on_payload
on_payload_told s q = elim (Option-cases (lookup q.realm s.channels)) [
  | inl e ↦ rw (on_payload, e) (refl, refl)
  | inr (k, e) ↦ rw (on_payload, e) (refl, refl)
]

-- Handing a packet on makes no new entry of `conn_channels`.
pub dispatch_conn_fewer :
    (s : Shared) (body : PtcpBody) (realm handle : ℕ)
    → lookup realm (dispatch s body).conn_channels ≡ some handle
    → lookup realm s.conn_channels ≡ some handle
unfolding dispatch on_conn on_disc
dispatch_conn_fewer s (status r text) realm handle at =
    elim (Bool-cases (bytes_eq text conn_text)) [
      | inl conn ↦ lookup-remove_fewer s.conn_channels r realm handle (rw (dispatch, conn) at at)
      | inr other ↦ elim (Bool-cases (bytes_eq text disc_text)) [
        | inl disc ↦
            lookup-remove_fewer s.conn_channels r realm handle (rw (dispatch, other, disc) at at)
        | inr neither ↦ rw (dispatch, other, neither) at at
      ]
    ]
dispatch_conn_fewer s (payload q) realm handle at = rw (on_payload_told s q).0 at at
dispatch_conn_fewer s _ realm handle at = at

told_by :
    (s : Shared) (r handle : ℕ)
    → In handle (notify (lookup r s.conn_channels) s.connected)
    → In handle s.connected ⊎ (lookup r s.conn_channels ≡ some handle)
told_by s r handle i = elim (Option-cases (lookup r s.conn_channels)) [
  | inl e ↦ inl (rw e at i)
  | inr (k, e) ↦ elim (rw e at i) [
    | inl same ↦ inr (e ∙ ap {B = Option ℕ} some (sym same))
    | inr before ↦ inl before
  ]
]

-- Who is told had an entry of `conn_channels` for the realm of the CONN that is handed on.
pub dispatch_told :
    (s : Shared) (body : PtcpBody) (handle : ℕ)
    → In handle (dispatch s body).connected
    → In handle s.connected
      ⊎ ((realm : ℕ) × (body ≡ status realm conn_text)
          × (lookup realm s.conn_channels ≡ some handle))
unfolding dispatch on_conn on_disc
dispatch_told s (status r text) handle i = elim (Bool-cases (bytes_eq text conn_text)) [
  | inl conn ↦ elim (told_by s r handle (rw (dispatch, conn) at i)) [
    | inl before ↦ inl before
    | inr at ↦ inr (r, ap (status r) (bytes_eq→eq text conn_text conn), at)
  ]
  | inr other ↦ elim (Bool-cases (bytes_eq text disc_text)) [
    | inl disc ↦ inl (rw (dispatch, other, disc) at i)
    | inr neither ↦ inl (rw (dispatch, other, neither) at i)
  ]
]
dispatch_told s (payload q) handle i = inl (rw (on_payload_told s q).1 at i)
dispatch_told s _ handle i = inl i
