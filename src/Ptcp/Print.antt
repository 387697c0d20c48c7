-- ===== src/Ptcp/Print.antt =====
-- What rust-engine/src/ptcp.rs prints of packets: the Debug formatters and `try_print_data`.
pub mod Readable
use dahua_p2p_bridge.Common.{
  ℕ, ◌+◌, ◌-◌, ◌/◌, ◌%◌, Bool, true, false, ◌||◌, List, [], ◌∷◌, ◌++◌, any, length, take, leb, ltb,
  if◌then◌else◌,
}
use dahua_p2p_bridge.Utf8.{from_utf8_lossy}
use dahua_p2p_bridge.Bytes.{codes, same_case, eq_bytes, starts_with}
use dahua_p2p_bridge.Bytes.Decimal.{to_decimal}
use dahua_p2p_bridge.Ptcp.Wire.{
  PtcpPayload, PtcpBody, PtcpPacket, sync, command, payload, bind, status, heartbeat, empty,
}

abbrev pub hex_digit : ℕ → ℕ
hex_digit d = if ltb d 10 then b'0' + d else b'a' + (d - 10)

-- `{:02x}` of a byte.
abbrev pub hex_byte : ℕ → List ℕ
hex_byte b = hex_digit (b / 16) ∷ hex_digit (b % 16) ∷ []

-- `{:08x}` of a u32.
abbrev pub hex_word : ℕ → List ℕ
hex_word n =
    hex_byte (n / 0x100_0000 % 256)
    ++ (hex_byte (n / 0x1_0000 % 256) ++ (hex_byte (n / 256 % 256) ++ hex_byte (n % 256)))

-- The bytes in hexadecimal, with a space between two of them.
unfoldable pub dump : List ℕ → List ℕ
dump [] = []
dump (b ∷ []) = hex_byte b
dump (b ∷ (c ∷ bytes)) = hex_byte b ++ (b' ' ∷ dump (c ∷ bytes))

unfoldable pub print_payload : PtcpPayload → List ℕ
unfolding dump
print_payload p =
    codes "length: "
    ++ (to_decimal (length p.bytes)
        ++ (codes ", realm: 0x"
            ++ (hex_word p.realm
                ++ (codes ", data: ["
                    ++ (dump (take 16 p.bytes)
                        ++ ((if ltb 16 (length p.bytes) then codes " ..." else [])
                            ++ codes "]"))))))

unfoldable pub print_body : PtcpBody → List ℕ
unfolding print_payload
print_body sync = codes "Sync"
print_body (command bytes) = codes "Command([" ++ (dump bytes ++ codes "])")
print_body (payload p) = print_payload p
print_body (bind realm port) =
    codes "Bind { realm: 0x"
    ++ (hex_word realm ++ (codes ", port: " ++ (to_decimal port ++ codes " }")))
print_body (status realm text) =
    codes "Status { realm: 0x" ++ (hex_word realm ++ (codes ", status: " ++ (text ++ codes " }")))
print_body heartbeat = codes "Heartbeat"
print_body empty = codes "Empty"

unfoldable pub print_packet : PtcpPacket → List ℕ
unfolding print_body
print_packet p =
    codes "PTCPPacket { sent: "
    ++ (to_decimal p.sent
        ++ (codes ", recv: "
            ++ (to_decimal p.recv
                ++ (codes ", pid: 0x"
                    ++ (hex_word p.pid
                        ++ (codes ", lmid: 0x"
                            ++ (hex_word p.lmid
                                ++ (codes ", rmid: 0x"
                                    ++ (hex_word p.rmid
                                        ++ (codes ", body: "
                                            ++ (print_body p.body ++ codes " }")))))))))))

-- `windows(n)`
unfoldable pub windows : ℕ → List ℕ → List (List ℕ)
windows n [] = []
windows n (b ∷ bytes) =
    let rest = windows n bytes in
    if leb n (length (b ∷ bytes)) then take n (b ∷ bytes) ∷ rest else rest

-- The literal of the source: its backslashes are escaped.
abbrev pub escaped_mark : List ℕ
escaped_mark = codes "\\r\\n\\r\\n"

abbrev pub http_starts : List (List ℕ)
http_starts = codes "GET " ∷ codes "POST " ∷ codes "PUT " ∷ codes "DELETE " ∷ codes "HTTP/" ∷ []

unfoldable pub looks_like_http : List ℕ → Bool
unfolding windows eq_bytes starts_with
looks_like_http bytes =
    any (λ window. eq_bytes same_case window escaped_mark) (windows 4 bytes)
    || any (λ start. starts_with same_case start bytes) http_starts

-- The lines that it prints.
unfoldable pub try_print_data : PtcpBody → List (List ℕ)
unfolding looks_like_http
try_print_data (payload p) =
    (if looks_like_http p.bytes
      then from_utf8_lossy p.bytes
      else codes "PTCP payload: " ++ (to_decimal (length p.bytes) ++ codes " bytes (binary)"))
    ∷ []
try_print_data _ = []
