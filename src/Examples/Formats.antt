-- ===== src/Examples/Formats.antt =====
-- The packet formats on concrete inputs.
use magnus_tcp.Base.{
  ℕ, ◌/◌, ◌*◌, ◌≤◌, ◌++◌, length, take, All, drop, ◌%◌, ◌≡◌, ◌↔◌, List, [], ◌∷◌, arith,
}
use magnus_tcp.Net.{IsByte, be16, MagnumError, ok, err, byte_at}
use magnus_tcp.Header
use magnus_tcp.Header.{TcpSegment}
use magnus_tcp.Header.Damage.{Fits, build-Fits, whole_sum, parse-accepts_iff, parse-damaged}
use magnus_tcp.Header.RoundTrip.{segment_of, parse-build}
use magnus_tcp.Checksum.Laws.{word_total}
use magnus_tcp.Ipv4
use magnus_tcp.Ipv4.Accepts.{ihl_of, parse-packet_iff}
use magnus_tcp.Pcap.Laws.{Capture}
use magnus_tcp.Examples.{client_ip, server_ip, hello, hello_builder, hello_builder-IsValid}

parse-build_example :
    Header.parse (Header.build hello_builder) client_ip server_ip ≡ ok (segment_of hello_builder)
parse-build_example = parse-build hello_builder hello_builder-IsValid

-- The segment with "hello", its third byte apart.
abbrev hello_end : List ℕ
hello_end = drop 3 (Header.build hello_builder)

hello-Fits : Fits (Header.build hello_builder) client_ip server_ip
hello-Fits = build-Fits hello_builder hello_builder-IsValid

parse-accepts_iff_example :
    let raw = Header.build hello_builder in
    let header_words = byte_at raw 12 / 16 % 16 in
    ((seg : TcpSegment) × (Header.parse raw client_ip server_ip ≡ ok seg)) ↔ (
      (20 ≤ length raw)
      × (5 ≤ header_words)
      × (header_words * 4 ≤ length raw)
      × (whole_sum raw client_ip server_ip % 65535 ≡ 0))
parse-accepts_iff_example =
    parse-accepts_iff (Header.build hello_builder) client_ip server_ip hello-Fits

-- The port 80 becomes 65360.
parse-damaged_example :
    (e : MagnumError) × (Header.parse ((48 ∷ 57 ∷ []) ++ 255 ∷ hello_end) client_ip server_ip
      ≡ err e)
unfolding Header.build Header.segment_bytes
parse-damaged_example =
    parse-damaged (48 ∷ 57 ∷ []) hello_end 0 255 client_ip server_ip (segment_of hello_builder)
      hello-Fits (omega arith) (omega arith) (parse-build hello_builder hello_builder-IsValid)

abbrev hello_packet : List ℕ
hello_packet = Ipv4.build_packet client_ip server_ip 6 hello

hello_packet-IsByte : All IsByte hello_packet
unfolding Ipv4.build_packet Ipv4.header_bytes
hello_packet-IsByte = omega arith

parse-packet_iff_example :
    let header_len = ihl_of hello_packet * 4 in
    let total_len = be16 (byte_at hello_packet 2) (byte_at hello_packet 3) in
    ((p : Ipv4.Ipv4Packet) × (Ipv4.parse hello_packet ≡ ok p)) ↔ (
      (20 ≤ length hello_packet)
      × (5 ≤ ihl_of hello_packet)
      × (header_len ≤ length hello_packet)
      × (word_total (take header_len hello_packet) % 65535 ≡ 0)
      × (header_len ≤ total_len)
      × (total_len ≤ length hello_packet))
parse-packet_iff_example = parse-packet_iff hello_packet hello_packet-IsByte

abbrev captures : List Capture
captures =
    record { at = 1_700_000_000_123_456; packet = hello }
    ∷ record { at = 1_700_000_001_000_000; packet = [] }
    ∷ []
