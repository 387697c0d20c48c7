-- ===== src/Client/Writer/Relays.antt =====
-- The loop of `process_writer` that relays to an RTSP client.
use dahua_p2p_bridge.Common.{
  ℕ, ◌≤◌, All, length, arith, ◌≡◌, refl, ap, Bool, true, false, none, List, [], ◌∷◌, ◌++◌,
  if◌then◌else◌, ◌+◌, ◌-◌, ◌<◌, sym, ◌∙◌, replicate, length-append,
}
use mathlib.Core.Bool.{false≢true}
use dahua_p2p_bridge.Engine.{Shared}
use dahua_p2p_bridge.Client.Writer.{
  socket_closed, Announced, note_response, note_media, note_data, relay, unannounced,
  process_writer,
}

-- How many notices can still come before the loop ends.
abbrev to_come : Announced → ℕ
to_come a = (if a.response_announced then 0 else 1) + (if a.media_announced then 0 else 1)

note_response-to_come :
    (a : Announced) (bytes : List ℕ)
    → length (note_response a bytes).1 + to_come (note_response a bytes).0 ≡ to_come a
unfolding note_response
note_response-to_come a bytes = ground arith

note_media-to_come :
    (a : Announced) (bytes : List ℕ)
    → length (note_media a bytes).1 + to_come (note_media a bytes).0 ≡ to_come a
unfolding note_media
note_media-to_come a bytes = ground arith

note_data-to_come :
    (a : Announced) (bytes : List ℕ)
    → length (note_data a bytes).1 + to_come (note_data a bytes).0 ≡ to_come a
unfolding note_data
note_data-to_come a bytes =
    let (a', responses) = note_response a bytes in
    let (a'', media) = note_media a' bytes in
    omega (
      arith,
      length-append responses media,
      note_response-to_come a bytes,
      note_media-to_come a' bytes,
    )

relay-printed :
    (a : Announced) (s : Shared) (closed : Bool) (chunks : List (List ℕ)) (results : List Bool)
    → length (relay a s closed chunks results).printed ≤ to_come a + 1
unfolding relay
relay-printed a s closed [] results = omega arith
relay-printed a s closed (chunk ∷ chunks) [] = omega (arith, note_data-to_come a chunk)
relay-printed a s closed (chunk ∷ chunks) (false ∷ results) =
    omega
      (arith, note_data-to_come a chunk, length-append (note_data a chunk).1 (socket_closed ∷ []))
relay-printed a s closed (chunk ∷ chunks) (true ∷ results) =
    let (a', notices) = note_data a chunk in
    omega (
      arith,
      note_data-to_come a chunk,
      length-append notices (relay a' s closed chunks results).printed,
      relay-printed a' s closed chunks results,
    )

relay-written :
    (a : Announced) (s : Shared) (closed : Bool) (chunks : List (List ℕ)) (results : List Bool)
    → let run = relay a s closed chunks results in
      (run.shared ≡ s)
      × ((rest : List (List ℕ)) × (chunks ≡ run.written ++ rest))
      × (All (λ r. r ≡ true) results → length chunks ≤ length results → run.written ≡ chunks)
unfolding relay
relay-written a s closed [] results = (refl, ([], refl), λ _ _. refl)
relay-written a s closed (chunk ∷ chunks) [] =
    (refl, (chunk ∷ chunks, refl), λ _ h. absurd (omega (arith, h)))
relay-written a s closed (chunk ∷ chunks) (false ∷ results) =
    (refl, (chunk ∷ chunks, refl), λ h _. cc (h.0))
relay-written a s closed (chunk ∷ chunks) (true ∷ results) =
    let (same, (rest, split), whole) =
      relay-written (note_data a chunk).0 s closed chunks results in
    (same, (rest, ap (◌∷◌ chunk) split), λ h k. ap (◌∷◌ chunk) (whole h.1 (omega (arith, k))))

-- The writer of an RTSP client writes a prefix of what comes over the channel, chunk by chunk and
-- unchanged, and all of it if no write fails; it leaves `channels` alone, and prints at most three
-- lines, however much comes.
pub process_writer_relay :
    (realm : ℕ) (s : Shared) (closed : Bool) (chunks : List (List ℕ)) (results : List Bool)
    → let run = process_writer none realm s closed chunks results in
      (run.shared ≡ s)
      × ((rest : List (List ℕ)) × (chunks ≡ run.written ++ rest))
      × (All (λ r. r ≡ true) results → length chunks ≤ length results → run.written ≡ chunks)
      × (length run.printed ≤ 3)
unfolding process_writer
process_writer_relay realm s closed chunks results =
    let (same, split, whole) = relay-written unannounced s closed chunks results in
    (same, split, whole, relay-printed unannounced s closed chunks results)

relay_fails :
    (a : Announced) (s : Shared) (closed : Bool) (chunk : List ℕ) (chunks : List (List ℕ))
    → (relay a s closed (chunk ∷ chunks) (replicate (length chunks) true ++ (false ∷ []))).has_ended
      ≡ true
unfolding relay
relay_fails a s closed chunk [] = refl
relay_fails a s closed chunk (next ∷ chunks) =
    relay_fails (note_data a chunk).0 s closed next chunks

relay_succeeds :
    (a : Announced) (s : Shared) (closed : Bool) (chunk : List ℕ) (chunks : List (List ℕ))
    → (relay a s closed (chunk ∷ chunks) (replicate (length chunks) true ++ (true ∷ []))).written
      ≡ chunk ∷ chunks
unfolding relay
relay_succeeds a s closed chunk [] = refl
relay_succeeds a s closed chunk (next ∷ chunks) =
    ap (◌∷◌ chunk) (relay_succeeds (note_data a chunk).0 s closed next chunks)

one_less : (chunk : List ℕ) (chunks : List (List ℕ)) → length (chunk ∷ chunks) - 1 ≡ length chunks
one_less chunk chunks = omega arith

-- While the channel is open the loop goes on only behind a write that succeeds; all chunks are written.
pub process_writer_goes_on :
    (realm : ℕ) (s : Shared) (chunks : List (List ℕ)) (result : Bool)
    → 0 < length chunks
    → let run =
        process_writer none realm s false chunks
          (replicate (length chunks - 1) true ++ (result ∷ [])) in
      run.has_ended ≡ false → run.written ≡ chunks
unfolding process_writer
process_writer_goes_on realm s [] result some_chunk goes_on = absurd (omega (arith, some_chunk))
process_writer_goes_on realm s (chunk ∷ chunks) true some_chunk goes_on =
    rw (one_less chunk chunks) (relay_succeeds unannounced s false chunk chunks)
process_writer_goes_on realm s (chunk ∷ chunks) false some_chunk goes_on = absurd (
    false≢true
      (sym (rw (one_less chunk chunks) at goes_on) ∙ relay_fails unannounced s false chunk chunks))
