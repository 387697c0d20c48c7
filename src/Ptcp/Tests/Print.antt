-- ===== src/Ptcp/Tests/Print.antt =====
-- What is printed of packets, at concrete inputs.
use dahua_p2p_bridge.Common.{ℕ, ◌≡◌, refl, false, List, [], ◌∷◌, ◌++◌, take, arith}
use dahua_p2p_bridge.Bytes.{codes, starts_with}
use dahua_p2p_bridge.Bytes.Decimal.{to_decimal}
use dahua_p2p_bridge.Ptcp.Wire.{PtcpPayload, PtcpPacket, command, payload, bind}
use dahua_p2p_bridge.Ptcp.Print.{print_body, print_packet, looks_like_http, try_print_data}
use dahua_p2p_bridge.Ptcp.Print.Readable.{
  read_dump, print_body-read_dump, try_print_data-http_starts,
}

abbrev bound : PtcpPacket
bound = record { sent = 10; recv = 0; pid = 0x0100_ffeb; lmid = 1; rmid = 0; body = bind 7 554 }

prints_packet :
    print_packet bound
    ≡ codes
        "PTCPPacket { sent: 10, recv: 0, pid: 0x0100ffeb, lmid: 0x00000001, rmid: 0x00000000, body: Bind { realm: 0x00000007, port: 554 } }"
unfolding print_packet to_decimal
prints_packet = refl

abbrev media : PtcpPayload
media = record { realm = 7; bytes = b'$' ∷ 0 ∷ 255 ∷ [] }

abbrev recovery : List ℕ
recovery = 10 ∷ 0 ∷ 171 ∷ 0 ∷ []

print_body-read_dump_example :
    ((shown : List ℕ) × (print_body (command recovery) ≡ codes "Command([" ++ (shown ++ codes "])"))
      × (read_dump shown ≡ recovery))
    × ((shown : List ℕ) × (print_body (payload media)
          ≡ codes "length: 3, realm: 0x00000007, data: [" ++ (shown ++ codes "]"))
        × (read_dump shown ≡ take 16 media.bytes))
unfolding to_decimal
print_body-read_dump_example = print_body-read_dump media recovery (omega arith) (omega arith)

try_print_data-http_starts_example :
    (try_print_data (payload media) ≡ codes "PTCP payload: 3 bytes (binary)" ∷ [])
    × ((rest : List ℕ) → media.bytes ≡ b'$' ∷ rest → looks_like_http media.bytes ≡ false)
unfolding to_decimal starts_with
try_print_data-http_starts_example = try_print_data-http_starts media
