-- ===== src/Tests/Sockets.antt =====
-- src/resolver.c on a row of `/proc/net/tcp`, with a reader of hexadecimal digits for `sscanf`.
use if_flow.Base.{
  ℕ, zero, suc, ◌+◌, ◌-◌, ◌*◌, ◌/◌, ◌%◌, ◌^◌, ◌<◌, ◌≡◌, refl, ap, ◌∙◌, arith, false, ◌&&◌, Option,
  none, some, [], ◌∷◌, Bytes, codes, leb, if◌then◌else◌,
}
use if_flow.Resolver.Sockets.{parse_row}
use if_flow.Resolver.Sockets.Printed.{Column, line_of, ReadsHex, hex_upper, hex_byte, hex_port}
use if_flow.Resolver.Sockets.RoundTrip.{Row, columns, IsRow, address_of, parse_row-row}

hex_value : ℕ → Option ℕ
hex_value c =
    if leb b'0' c && leb c b'9'
    then some (c - b'0')
    else if leb b'A' c && leb c b'F'
    then some (c - 55)
    else none

scan_loop : ℕ → ℕ → Bytes → ℕ × Bytes
scan_loop zero n s = (n, s)
scan_loop (suc room) n [] = (n, [])
scan_loop (suc room) n (c ∷ s) = elim (hex_value c) [
  | none ↦ (n, c ∷ s)
  | some v ↦ scan_loop room (n * 16 + v) s
]

abbrev starts_at : ℕ → Bytes → Option ℕ → Option (ℕ × Bytes)
starts_at room s none = none
starts_at room s (some v) = some (scan_loop room v s)

-- `%x` and `%2x`, of at most eight digits.
unfoldable pub scan_hex : Option ℕ → Bytes → Option (ℕ × Bytes)
unfolding hex_value scan_loop
scan_hex none [] = none
scan_hex none (c ∷ s) = starts_at 7 s (hex_value c)
scan_hex (some width) [] = none
scan_hex (some width) (c ∷ s) = starts_at (width - 1) s (hex_value c)

hex_value-upper : (n : ℕ) → n < 16 → hex_value (hex_upper n) ≡ some n
unfolding hex_value
hex_value-upper n h = ground arith

scan_loop-digit :
    (room acc d : ℕ) (s : Bytes)
    → d < 16
    → scan_loop (suc room) acc (hex_upper d ∷ s) ≡ scan_loop room (acc * 16 + d) s
scan_loop-digit room acc d s h =
    let read = hex_value-upper d h in unfold scan_loop in rw (read, scan_loop) refl

reads_byte : (b : ℕ) (s : Bytes) → b < 256 → scan_hex (some 2) (hex_byte b s) ≡ some (b, s)
unfolding scan_hex
reads_byte b s h =
    let whole : b / 16 * 16 + b % 16 ≡ b = omega arith in
    ap (starts_at 1 (hex_upper (b % 16) ∷ s)) (hex_value-upper (b / 16) (omega arith))
    ∙ ap some (scan_loop-digit 0 (b / 16) (b % 16) s (omega arith) ∙ ap (λ n. (n, s)) whole)

reads_port : (p : ℕ) → p < 2 ^ 16 → scan_hex none (hex_port p) ≡ some (p, [])
unfolding scan_hex
reads_port p h =
    let d3 = p / 4096 in
    let d2 = p / 256 % 16 in
    let d1 = p / 16 % 16 in
    let d0 = p % 16 in
    let whole : ((d3 * 16 + d2) * 16 + d1) * 16 + d0 ≡ p = omega arith in
    ap (starts_at 7 (hex_upper d2 ∷ hex_upper d1 ∷ hex_upper d0 ∷ []))
      (hex_value-upper d3 (omega arith))
    ∙ ap some (
        scan_loop-digit 6 d3 d2 (hex_upper d1 ∷ hex_upper d0 ∷ []) (omega arith)
        ∙ scan_loop-digit 5 (d3 * 16 + d2) d1 (hex_upper d0 ∷ []) (omega arith)
        ∙ scan_loop-digit 4 ((d3 * 16 + d2) * 16 + d1) d0 [] (omega arith)
        ∙ ap (λ n. (n, [])) whole)

pub scan_hex-ReadsHex : ReadsHex scan_hex
scan_hex-ReadsHex = record { reads_byte = reads_byte; reads_port = reads_port }

abbrev column : Bytes → Column
column word = record { blanks = 0; word = word }

-- 10.0.0.2:40000 to 10.0.0.9:443, inode 4711
abbrev pub row : Row
row = record {
  sl = record { blanks = 2; word = codes "0:" };
  local_blanks = 0;
  local_address = record { b0 = 10; b1 = 0; b2 = 0; b3 = 2; port = 40000 };
  rem_blanks = 0;
  rem_address = record { b0 = 10; b1 = 0; b2 = 0; b3 = 9; port = 443 };
  st = column (codes "01");
  queues = column (codes "00000000:00000000");
  timer = column (codes "00:00000000");
  retrnsmt = column (codes "00000000");
  uid = column (codes "1000");
  timeout = column (codes "0");
  inode = column (codes "4711");
  more = column (codes "1") ∷ [];
}

pub row-IsRow : IsRow row
row-IsRow = record {
  sl_word = ground arith;
  local_range = ground arith;
  rem_range = ground arith;
  others = ground arith;
  inode_fits = ground arith;
}

parse_row-row_example :
    parse_row scan_hex (λ a. none) false 6 (line_of (columns row))
    ≡ some (record {
      proto = 6;
      src_ip = address_of row.local_address;
      src_port = 40000;
      dst_ip = address_of row.rem_address;
      dst_port = 443;
      inode = codes "4711";
    })
parse_row-row_example = parse_row-row scan_hex (λ a. none) row scan_hex-ReadsHex row-IsRow 6
