-- ===== src/Http/Message/Later.antt =====
-- What more bytes change about a message.
use dahua_p2p_bridge.Common.{
  ℕ, zero, suc, ◌≤◌, ◌≡◌, refl, ap, inl, inr, true, Bool-cases, Option, none, some, Option-cases,
  List, [], ◌∷◌, ◌++◌, length, length-append, take, arith,
}
use mathlib.Core.Bool.{false≢true}
use dahua_p2p_bridge.Utf8.{from_utf8_lossy}
use dahua_p2p_bridge.Bytes.{same_case, starts_with, find}
use dahua_p2p_bridge.Bytes.Search.{find_inside}
use dahua_p2p_bridge.Http.Message.{
  header_mark, header_end, content_length, has_body, message_complete, http_response_complete,
}

starts_with-append :
    (p bs more : List ℕ)
    → length p ≤ length bs
    → starts_with same_case p (bs ++ more) ≡ starts_with same_case p bs
unfolding starts_with
starts_with-append [] bs more h = refl
starts_with-append (x ∷ p) [] more h = absurd (omega (arith, h))
starts_with-append (x ∷ p) (b ∷ bs) more h =
    rw (starts_with-append p bs more (omega (arith, h))) refl

-- What was found first is still found first.
find-append :
    (p bs more : List ℕ) (i : ℕ)
    → find same_case p bs ≡ some i
    → find same_case p (bs ++ more) ≡ some i
unfolding find
find-append p [] more i h = cc h
find-append p (b ∷ bs) more i h =
    let inside = (find_inside same_case p (b ∷ bs) i h).0 in
    let front = starts_with-append p (b ∷ bs) more (omega (arith, inside)) in
    elim (Bool-cases (starts_with same_case p (b ∷ bs))) [
      | inl here ↦ rw (front, here) (rw (find, here) at h)
      | inr away ↦ elim (Option-cases (find same_case p bs)) [
        | inl e ↦ cc (rw (find, away, e) at h)
        | inr (j, e) ↦ rw (front, away, find-append p bs more j e) (rw (find, away, e) at h)
      ]
    ]

take-append : (n : ℕ) (bs more : List ℕ) → n ≤ length bs → take n (bs ++ more) ≡ take n bs
take-append zero bs more h = refl
take-append (suc n) [] more h = absurd (omega (arith, h))
take-append (suc n) (b ∷ bs) more h = ap (◌∷◌ b) (take-append n bs more (omega (arith, h)))

has_body-le :
    (total later h : ℕ) (n : Option ℕ)
    → total ≤ later
    → has_body total h n ≡ true
    → has_body later h n ≡ true
has_body-le total later h none le full = refl
has_body-le total later h (some n) le full = ground (arith, le, full)

-- A message that is complete stays so.
pub http_response_complete-append :
    (message more : List ℕ)
    → http_response_complete message ≡ true
    → http_response_complete (message ++ more) ≡ true
unfolding http_response_complete message_complete
http_response_complete-append message more full = elim (Option-cases (header_end message)) [
  | inl e ↦ absurd (false≢true (rw (message_complete, e) at full))
  | inr (h, e) ↦
      let inside = (find_inside same_case header_mark message h e).0 in
      let said = content_length (from_utf8_lossy (take h message)) in
      let body : has_body (length message) h said ≡ true = rw (message_complete, e) at full in
      rw
        (
          message_complete,
          find-append header_mark message more h e,
          take-append h message more (omega (arith, inside)),
        )
        (has_body-le (length message) (length (message ++ more)) h said
          (omega (arith, length-append message more)) body)
]
