-- ===== src/Resolver/Sockets.antt =====
-- src/resolver.c: the rows of the kernel's socket tables. `scan_hex` stands for the conversion `%x`
-- of `sscanf`, with or without a width: the number, below 2 ^ 32, and what follows it. `inet_ntop`
-- gives the text of the 16 bytes of an IPv6 address.
pub mod Printed
pub mod RoundTrip
use if_flow.Base.{
  c_str, ℕ, zero, suc, ◌+◌, ◌-◌, ◌*◌, ◌/◌, ◌%◌, ◌^◌, Bool, true, false, not, Option, none, some,
  List, [], ◌∷◌, ◌++◌, Bytes, safe_copy, length, get_elem?, take, ltb, if◌then◌else◌,
}
use if_flow.Flow.{if_flow_max_ip_str}
use if_flow.Json.{decimal}
use if_flow.Resolver.ProcFs.{fgets_lines, cut_at, token_loop}

pub record ProcConn : Type 0 where
  pub proto : ℕ
  pub src_ip : Bytes
  pub src_port : ℕ
  pub dst_ip : Bytes
  pub dst_port : ℕ
  pub inode : Bytes

infixl 5 ◌>>=◌ ◌>>◌
abbrev pub ◌>>=◌ {ℓ κ} : {A : Type ℓ} {B : Type κ} → Option A → (A → Option B) → Option B
none >>= f = none
some a >>= f = f a

abbrev pub ◌>>◌ {ℓ} : {B : Type ℓ} → Option (Unit {0}) → Option B → Option B
m >> k = m >>= λ _. k

-- `if (!b) continue;`
abbrev pub require : Bool → Option (Unit {0})
require true = some tt
require false = none

-- `"%u.%u.%u.%u"`
unfoldable pub dotted : ℕ → ℕ → ℕ → ℕ → Bytes
unfolding decimal
dotted a b c d = decimal a ++ (b'.' ∷ (decimal b ++ (b'.' ∷ (decimal c ++ (b'.' ∷ decimal d)))))

-- The bytes of an unsigned int, the lowest first.
abbrev pub le_bytes : ℕ → Bytes
le_bytes v = (v % 256) ∷ (v / 2 ^ 8 % 256) ∷ (v / 2 ^ 16 % 256) ∷ (v / 2 ^ 24 % 256) ∷ []

module _ (scan_hex : Option ℕ → Bytes → Option (ℕ × Bytes)) (inet_ntop : Bytes → Option Bytes) where
  unfoldable pub decode_ipv4_proc : Bytes → ℕ → Option Bytes
  unfolding dotted
  decode_ipv4_proc hex out_sz = do
    require (not (ltb (length hex) 8))
    (b3, s3) ← scan_hex (some 2) hex
    (b2, s2) ← scan_hex (some 2) s3
    (b1, s1) ← scan_hex (some 2) s2
    (b0, s0) ← scan_hex (some 2) s1
    some (safe_copy [] out_sz (some (dotted b0 b1 b2 b3)))

  unfoldable pub decode_ipv6_proc : Bytes → Option Bytes
  decode_ipv6_proc hex = do
    require (not (ltb (length hex) 32))
    (p0, s0) ← scan_hex (some 8) hex
    (p1, s1) ← scan_hex (some 8) s0
    (p2, s2) ← scan_hex (some 8) s1
    (p3, s3) ← scan_hex (some 8) s2
    inet_ntop (le_bytes p0 ++ (le_bytes p1 ++ (le_bytes p2 ++ le_bytes p3)))

  abbrev decode : Bool → Bytes → Option Bytes
  decode is_v6 hex = if is_v6 then decode_ipv6_proc hex else decode_ipv4_proc hex if_flow_max_ip_str

  -- The body of the loop for one line; `none` is its `continue`.
  unfoldable pub parse_row : Bool → ℕ → Bytes → Option ProcConn
  unfolding decode_ipv4_proc decode_ipv6_proc c_str token_loop cut_at
  parse_row is_v6 proto line = do
    let parts = take 32 (token_loop [] (c_str line))
    require (not (ltb (length parts) 10))
    local_buf ← get_elem? parts 1
    remote_buf ← get_elem? parts 2
    inode ← get_elem? parts 9
    (local_ip, local_port) ← cut_at b':' (safe_copy [] 128 (some local_buf))
    (remote_ip, remote_port) ← cut_at b':' (safe_copy [] 128 (some remote_buf))
    ip1 ← decode is_v6 local_ip
    ip2 ← decode is_v6 remote_ip
    (p1, _) ← scan_hex none local_port
    (p2, _) ← scan_hex none remote_port
    some (record {
      proto = proto;
      src_ip = safe_copy [] if_flow_max_ip_str (some ip1);
      src_port = p1 % 2 ^ 16;
      dst_ip = safe_copy [] if_flow_max_ip_str (some ip2);
      dst_port = p2 % 2 ^ 16;
      inode = safe_copy [] 64 (some inode);
    })

  -- `room` rows still fit.
  unfoldable pub rows_loop : Bool → ℕ → ℕ → List Bytes → List ProcConn
  unfolding parse_row
  rows_loop is_v6 proto zero lines = []
  rows_loop is_v6 proto (suc room) [] = []
  rows_loop is_v6 proto (suc room) (line ∷ lines) = elim (parse_row is_v6 proto line) [
    | none ↦ rows_loop is_v6 proto (suc room) lines
    | some conn ↦ conn ∷ rows_loop is_v6 proto room lines
  ]

  abbrev behind_header : Bool → ℕ → ℕ → List Bytes → List ProcConn
  behind_header is_v6 proto max_conns [] = []
  behind_header is_v6 proto max_conns (header ∷ lines) = rows_loop is_v6 proto max_conns lines

  -- The rows of a file, which has a line of headings; lines are read with a buffer of 1024 bytes.
  unfoldable pub parse_proc_net_file : Option Bytes → Bool → ℕ → ℕ → List ProcConn
  unfolding rows_loop fgets_lines
  parse_proc_net_file none is_v6 proto max_conns = []
  parse_proc_net_file (some content) is_v6 proto max_conns =
      behind_header is_v6 proto max_conns (fgets_lines 1023 content)
