-- ===== src/Parser/TlsSni/Hello.antt =====
-- The ClientHello messages that `parser_extract_tls_sni` of src/parser.c is meant to read, written
-- by the layout of TLS. A message is any bytes in this form, and anything may follow it.
use if_flow.Base.{ℕ, ◌+◌, ◌≡◌, ◌≢◌, List, [], ◌∷◌, ◌++◌, Bytes, length, All}
use if_flow.Parser.Cursor.{u16}

-- A vector with its length in one byte, or in two.
abbrev pub vec8 : Bytes → Bytes
vec8 xs = length xs ∷ xs

abbrev pub vec16 : Bytes → Bytes
vec16 xs = u16 (length xs) ++ xs

pub record Extension : Type 0 where
  pub type : ℕ
  pub body : Bytes

-- An extension that is not the server name.
pub record IsOther (x : Extension) : Type 0 where
  pub not_server_name : x.type ≢ 0

abbrev pub extension : Extension → Bytes → Bytes
extension x rest = u16 x.type ++ (u16 (length x.body) ++ (x.body ++ rest))

abbrev pub extensions : List Extension → Bytes → Bytes
extensions [] rest = rest
extensions (x ∷ xs) rest = extension x (extensions xs rest)

-- The server name extension with one host name.
abbrev pub server_name : Bytes → Bytes → Bytes
server_name name rest =
    u16 0
    ++ (u16 (5 + length name)
        ++ (u16 (3 + length name) ++ (0 ∷ (u16 (length name) ++ (name ++ rest)))))

-- `head` is the version and length of the record, `body` the length of the message, the version and
-- the random.
pub record Hello : Type 0 where
  pub head : Bytes
  pub body : Bytes
  pub sid : Bytes
  pub suites : Bytes
  pub compressions : Bytes
  pub before : List Extension
  pub name : Bytes
  pub after : Bytes

-- The extension block.
abbrev pub block : Hello → Bytes
block m = extensions m.before (server_name m.name m.after)

abbrev pub hello : Hello → Bytes → Bytes
hello m rest =
    0x16
    ∷ (m.head
        ++ (0x01
            ∷ (m.body
                ++ (vec8 m.sid
                    ++ (u16 (length m.suites)
                        ++ (m.suites
                            ++ (vec8 m.compressions
                                ++ (u16 (length (block m)) ++ (block m ++ rest)))))))))

pub record IsHello (m : Hello) : Type 0 where
  pub head_size : length m.head ≡ 4
  pub body_size : length m.body ≡ 37
  pub others : All IsOther m.before
  pub no_nul : All (λ c. c ≢ 0) m.name
