-- ===== src/Resolver/Sockets/RoundTrip.antt =====
-- src/resolver.c: a row that the kernel prints for an IPv4 socket is read back.
use if_flow.Base.{
  c_str, ℕ, ◌/◌, ◌%◌, ◌^◌, ◌<◌, ◌≡◌, refl, ap, ◌∙◌, true, false, Option, some, List, [], ◌∷◌, ◌++◌,
  map, Bytes, arith, length, length-append, take, All, safe_copy, safe_copy_all, ltb, ◌==◌,
}
use if_flow.Flow.{if_flow_max_ip_str}
use if_flow.Json.{decimal}
use if_flow.Json.Length.{ten_to, length-decimal}
use if_flow.Resolver.ProcFs.{token_loop, cut_at}
use if_flow.Resolver.Sockets.{dotted, decode_ipv4_proc, parse_row}
use if_flow.Resolver.Sockets.Printed.{
  is_plain, IsWord, Column, line_of, word_of, tokens_lem, c_str-line, hex_upper, Endpoint,
  IsEndpoint, hex_byte, hex_port, hex_address, endpoint_word, ReadsHex,
}

length-decimal_byte : (b : ℕ) → b < 256 → length (decimal b) < 4
length-decimal_byte b h =
    let below : b < ten_to 3 = unfold ten_to in omega (arith, h) in
    omega (arith, length-decimal 2 b below)

dotted_fits : (a b c d : ℕ) → a < 256 → b < 256 → c < 256 → d < 256 → length (dotted a b c d) < 16
unfolding dotted
dotted_fits a b c d ha hb hc hd = omega (
  arith,
  length-decimal_byte a ha,
  length-decimal_byte b hb,
  length-decimal_byte c hc,
  length-decimal_byte d hd,
  length-append (decimal a) (b'.' ∷ (decimal b ++ (b'.' ∷ (decimal c ++ (b'.' ∷ decimal d))))),
  length-append (decimal b) (b'.' ∷ (decimal c ++ (b'.' ∷ decimal d))),
  length-append (decimal c) (b'.' ∷ decimal d),
)

hex_upper_plain : (n : ℕ) → (is_plain (hex_upper n) ≡ true) × ((hex_upper n == b':') ≡ false)
hex_upper_plain n = ground arith

All-hex_byte :
    (b : ℕ) (s : Bytes)
    → All (λ c. is_plain c ≡ true) s
    → All (λ c. is_plain c ≡ true) (hex_byte b s)
All-hex_byte b s h = ((hex_upper_plain (b / 16)).0, ((hex_upper_plain (b % 16)).0, h))

-- The text of an address.
abbrev pub address_of : Endpoint → Bytes
address_of e = dotted e.b0 e.b1 e.b2 e.b3

cut_at-hex_byte :
    (b : ℕ) (s front back : Bytes)
    → cut_at b':' s ≡ some (front, back)
    → cut_at b':' (hex_byte b s) ≡ some (hex_byte b front, back)
unfolding cut_at
cut_at-hex_byte b s front back h =
    rw ((hex_upper_plain (b / 16)).1, (hex_upper_plain (b % 16)).1, h) refl

module _ (e : Endpoint) (v : IsEndpoint e) where
  address_fits : length (address_of e) < if_flow_max_ip_str
  address_fits =
      let short = dotted_fits e.b0 e.b1 e.b2 e.b3 v.b0_byte v.b1_byte v.b2_byte v.b3_byte in
      omega (arith, short)

  endpoint_word-IsWord : IsWord (endpoint_word e)
  endpoint_word-IsWord =
      let behind = b':' ∷ hex_port e.port in
      let port : All (λ c. is_plain c ≡ true) behind = (
        refl,
        (
          (hex_upper_plain (e.port / 4096)).0,
          (
            (hex_upper_plain (e.port / 256 % 16)).0,
            ((hex_upper_plain (e.port / 16 % 16)).0, ((hex_upper_plain (e.port % 16)).0, tt)),
          ),
        ),
      ) in
      (
        refl,
        All-hex_byte e.b3 (hex_byte e.b2 (hex_byte e.b1 (hex_byte e.b0 behind))) (
            All-hex_byte e.b2 (hex_byte e.b1 (hex_byte e.b0 behind))
              (All-hex_byte e.b1 (hex_byte e.b0 behind) (All-hex_byte e.b0 behind port))),
      )

  cut_at-endpoint : cut_at b':' (endpoint_word e) ≡ some (hex_address e, hex_port e.port)
  cut_at-endpoint = cut_at-hex_byte e.b3 _ _ _ (
      cut_at-hex_byte e.b2 _ _ _ (
        cut_at-hex_byte e.b1 _ _ _ (
          cut_at-hex_byte e.b0 (b':' ∷ hex_port e.port) [] (hex_port e.port)
            (unfold cut_at in refl))))

  copied_word : safe_copy [] 128 (some (endpoint_word e)) ≡ endpoint_word e
  copied_word = safe_copy_all [] 128 (endpoint_word e) (omega arith)

  decode_ipv4_proc-hex :
      (scan_hex : Option ℕ → Bytes → Option (ℕ × Bytes)) (inet_ntop : Bytes → Option Bytes)
      → ReadsHex scan_hex
      → decode_ipv4_proc scan_hex inet_ntop (hex_address e) if_flow_max_ip_str ≡ some (address_of e)
  unfolding decode_ipv4_proc
  decode_ipv4_proc-hex scan_hex inet_ntop r =
      rw
        (
          r.reads_byte e.b3 (hex_byte e.b2 (hex_byte e.b1 (hex_byte e.b0 []))) v.b3_byte,
          r.reads_byte e.b2 (hex_byte e.b1 (hex_byte e.b0 [])) v.b2_byte,
          r.reads_byte e.b1 (hex_byte e.b0 []) v.b1_byte,
          r.reads_byte e.b0 [] v.b0_byte,
          safe_copy_all [] if_flow_max_ip_str (address_of e) address_fits,
        )
        refl

-- A row of the table: the two addresses among the other columns.
pub record Row : Type 0 where
  pub sl : Column
  pub local_blanks : ℕ
  pub local_address : Endpoint
  pub rem_blanks : ℕ
  pub rem_address : Endpoint
  pub st : Column
  pub queues : Column
  pub timer : Column
  pub retrnsmt : Column
  pub uid : Column
  pub timeout : Column
  pub inode : Column
  pub more : List Column

abbrev pub behind_sl : Row → List Column
behind_sl r =
    record { blanks = r.local_blanks; word = endpoint_word r.local_address }
    ∷ record { blanks = r.rem_blanks; word = endpoint_word r.rem_address }
    ∷ r.st
    ∷ r.queues
    ∷ r.timer
    ∷ r.retrnsmt
    ∷ r.uid
    ∷ r.timeout
    ∷ r.inode
    ∷ r.more

abbrev pub columns : Row → List Column
columns r = r.sl ∷ behind_sl r

-- The columns are words, and the addresses are made of bytes and 16-bit ports.
pub record IsRow (r : Row) : Type 0 where
  pub sl_word : IsWord r.sl.word
  pub local_range : IsEndpoint r.local_address
  pub rem_range : IsEndpoint r.rem_address
  pub others :
      All
        (λ c. IsWord c.word)
        (r.st ∷ r.queues ∷ r.timer ∷ r.retrnsmt ∷ r.uid ∷ r.timeout ∷ r.inode ∷ r.more)
  pub inode_fits : length r.inode.word < 64

module _ (scan_hex : Option ℕ → Bytes → Option (ℕ × Bytes)) (inet_ntop : Bytes → Option Bytes)
    (r : Row) (reads : ReadsHex scan_hex) (v : IsRow r) where
  row_tokens : token_loop [] (c_str (line_of (columns r))) ≡ map word_of (columns r)
  row_tokens =
      let words : All (λ c. IsWord c.word) (columns r) = (
        v.sl_word,
        (
          endpoint_word-IsWord r.local_address v.local_range,
          (endpoint_word-IsWord r.rem_address v.rem_range, v.others),
        ),
      ) in
      ap (token_loop []) (c_str-line (columns r) words) ∙ tokens_lem r.sl (behind_sl r) words

  -- Whatever its other columns hold, a row that the kernel prints gives the protocol, the two
  -- addresses in dotted form, the two ports and the inode, if `sscanf` reads the digits of the
  -- kernel and the inode fits its buffer.
  pub parse_row-row :
      (proto : ℕ)
      → parse_row scan_hex inet_ntop false proto (line_of (columns r))
        ≡ some (record {
          proto = proto;
          src_ip = address_of r.local_address;
          src_port = r.local_address.port;
          dst_ip = address_of r.rem_address;
          dst_port = r.rem_address.port;
          inode = r.inode.word;
        })
  unfolding parse_row
  parse_row-row proto =
      let enough : ltb (length (take 32 (map word_of (columns r)))) 10 ≡ false = ground arith in
      let local_port : r.local_address.port % 2 ^ 16 ≡ r.local_address.port =
        omega (arith, v.local_range.port_u16) in
      let rem_port : r.rem_address.port % 2 ^ 16 ≡ r.rem_address.port =
        omega (arith, v.rem_range.port_u16) in
      rw
        (
          row_tokens,
          enough,
          copied_word r.local_address v.local_range,
          copied_word r.rem_address v.rem_range,
          cut_at-endpoint r.local_address v.local_range,
          cut_at-endpoint r.rem_address v.rem_range,
          decode_ipv4_proc-hex r.local_address v.local_range scan_hex inet_ntop reads,
          decode_ipv4_proc-hex r.rem_address v.rem_range scan_hex inet_ntop reads,
          reads.reads_port r.local_address.port v.local_range.port_u16,
          reads.reads_port r.rem_address.port v.rem_range.port_u16,
          safe_copy_all [] if_flow_max_ip_str (address_of r.local_address)
              (address_fits r.local_address v.local_range),
          safe_copy_all [] if_flow_max_ip_str (address_of r.rem_address)
              (address_fits r.rem_address v.rem_range),
          safe_copy_all [] 64 r.inode.word v.inode_fits,
          local_port,
          rem_port,
        )
        refl
