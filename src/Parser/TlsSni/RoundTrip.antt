-- ===== src/Parser/TlsSni/RoundTrip.antt =====
-- `parser_extract_tls_sni` of src/parser.c reads back the server name of a ClientHello.
use mathlib.Core.List.{append_assoc}
use if_flow.Base.{
  ℕ, zero, suc, ◌+◌, ◌≤◌, ◌<◌, ◌≡◌, refl, false, some, List, [], ◌∷◌, ◌++◌, Bytes, arith, length,
  length-append, All, ◌∙◌, ap, c_str, c_str-all, ◌==◌, subst,
}
use if_flow.Parser.Reads.{ok, read_u16}
use if_flow.Parser.Cursor.{At, At-start, At-skip, At-read, At-slice, At-u16, u16}
use if_flow.Parser.TlsSni.{
  name_loop, ext_loop, skip_u8, field_u16, open_hello, find_extensions, parser_extract_tls_sni,
}
use if_flow.Parser.TlsSni.Hello.{
  Extension, IsOther, extensions, server_name, Hello, IsHello, block, hello, vec8,
}

module _ (payload : Bytes) where
  skip_u8-At :
      (p q : ℕ) (xs rest : Bytes)
      → p + 1 + length xs ≡ q
      → At payload p (vec8 xs ++ rest)
      → (skip_u8 payload p ≡ ok q) × At payload q rest
  unfolding skip_u8
  skip_u8-At p q xs rest e a =
      let b = At-skip (vec8 xs) q (omega arith) a in
      (rw (At-read (length xs) (xs ++ rest) a) (ground (arith, b.size)), b)

  field_u16-At :
      (p n : ℕ) (rest : Bytes)
      → n ≤ length rest
      → At payload p (u16 n ++ rest)
      → (field_u16 payload p ≡ ok (p + 2, n)) × At payload (p + 2) rest
  unfolding field_u16
  field_u16-At p n rest h a =
      let b = At-skip (u16 n) (p + 2) refl a in (rw (At-u16 n rest a) (ground (arith, b.size)), b)

  name_loop-At :
      (fuel out_sz q q_end : ℕ) (name rest : Bytes)
      → 0 < fuel
      → 0 < length name
      → length name < out_sz
      → q + 3 + length name ≡ q_end
      → At payload q (0 ∷ (u16 (length name) ++ (name ++ rest)))
      → name_loop fuel payload out_sz q q_end ≡ ok (some (c_str name))
  unfolding name_loop
  name_loop-At zero out_sz q q_end name rest f n s e a = absurd (omega arith)
  name_loop-At (suc fuel) out_sz q q_end name rest f n s e a =
      let b = At-skip (0 ∷ []) (q + 1) refl a in
      let c = At-skip (u16 (length name)) (q + 3) (omega arith) b in
      rw (At-read 0 _ a, At-u16 (length name) _ b, At-slice name rest c) (ground arith)

  -- The loop at the server name extension.
  ext_loop-name :
      (fuel out_sz ex ex_end : ℕ) (name rest : Bytes)
      → ex_end < ex + fuel
      → 0 < length name
      → length name < out_sz
      → ex + 9 + length name ≤ ex_end
      → At payload ex (server_name name rest)
      → ext_loop fuel payload out_sz ex ex_end ≡ ok (c_str name)
  unfolding ext_loop
  ext_loop-name zero out_sz ex ex_end name rest f n s e a = absurd (omega arith)
  ext_loop-name (suc fuel) out_sz ex ex_end name rest f n s e a =
      let b = At-skip (u16 0) (ex + 2) refl a in
      let c = At-skip (u16 (5 + length name)) (ex + 4) (omega arith) b in
      let d = At-skip (u16 (3 + length name)) (ex + 4 + 2) refl c in
      let found =
        name_loop-At (length payload) out_sz (ex + 4 + 2) (ex + 4 + (5 + length name)) name rest
          (omega (arith, a.size)) n s (omega arith) d in
      rw (At-u16 0 _ a, At-u16 (5 + length name) _ b) (ground (arith, found))

  -- The loop passes over the extensions in front of it.
  ext_loop-At :
      (before : List Extension) (fuel out_sz ex ex_end : ℕ) (name rest : Bytes)
      → ex_end < ex + fuel
      → 0 < length name
      → length name < out_sz
      → ex + length (extensions before (server_name name [])) ≤ ex_end
      → All IsOther before
      → At payload ex (extensions before (server_name name rest))
      → ext_loop fuel payload out_sz ex ex_end ≡ ok (c_str name)
  ext_loop-At [] fuel out_sz ex ex_end name rest f n s e o a =
      ext_loop-name fuel out_sz ex ex_end name rest f n s (omega (arith, e, length-append name []))
        a
  ext_loop-At (x ∷ before) zero out_sz ex ex_end name rest f n s e o a = absurd (omega (arith, e))
  ext_loop-At (x ∷ before) (suc fuel) out_sz ex ex_end name rest f n s e o a =
      let b = At-skip (u16 x.type) (ex + 2) refl a in
      let c = At-skip (u16 (length x.body)) (ex + 4) (omega arith) b in
      let d = At-skip x.body (ex + 4 + length x.body) refl c in
      let long = length-append x.body (extensions before (server_name name [])) in
      let later =
        ext_loop-At before fuel out_sz (ex + 4 + length x.body) ex_end name rest (omega arith) n s
          (omega (arith, e, long)) o.1 d in
      passed (ground (arith, e, long)) (At-u16 x.type _ a) (At-u16 (length x.body) _ b) later
    where
      passed :
          ex + 4 + length x.body ≤ ex_end
          → read_u16 payload ex ≡ ok x.type
          → read_u16 payload (ex + 2) ≡ ok (length x.body)
          → ext_loop fuel payload out_sz (ex + 4 + length x.body) ex_end ≡ ok (c_str name)
          → ext_loop (suc fuel) payload out_sz ex ex_end ≡ ok (c_str name)
      passed h p q later = unfold ext_loop in rw (p, q) (ground (arith, o.0.not_server_name))

length-block :
    (before : List Extension) (name after : Bytes)
    → length (extensions before (server_name name []))
      ≤ length (extensions before (server_name name after))
length-block [] name after = omega (arith, length-append name [], length-append name after)
length-block (x ∷ before) name after = omega (
  arith,
  length-append x.body (extensions before (server_name name [])),
  length-append x.body (extensions before (server_name name after)),
  length-block before name after,
)

open_hello-At :
    (head body rest : Bytes)
    → length head ≡ 4
    → length body ≡ 37
    → let payload = 0x16 ∷ (head ++ (0x01 ∷ (body ++ rest))) in
      (open_hello payload ≡ ok 43) × At payload 43 rest
unfolding open_hello
open_hello-At head body rest h b =
    let payload : Bytes = 0x16 ∷ (head ++ (0x01 ∷ (body ++ rest))) in
    let start = At-start payload in
    let first = At-skip (0x16 ∷ []) 1 refl start in
    let second = At-skip head 5 (omega arith) first in
    let third = At-skip (0x01 ∷ []) 6 refl second in
    let fourth = At-skip body 43 (omega arith) third in
    (ground (arith, At-read 0x16 _ start, At-read 0x01 _ second, fourth.size), fourth)

-- The bytes of the message behind its random.
abbrev fields : Hello → Bytes → Bytes
fields m rest =
    vec8 m.sid
    ++ (u16 (length m.suites)
        ++ (m.suites ++ (vec8 m.compressions ++ (u16 (length (block m)) ++ (block m ++ rest)))))

find_extensions-At :
    (payload : Bytes) (m : Hello) (rest : Bytes)
    → open_hello payload ≡ ok 43
    → At payload 43 (fields m rest)
    → (ex : ℕ) × (0 < ex)
      × (find_extensions payload ≡ ok (ex, length (block m)))
      × At payload ex (block m ++ rest)
unfolding find_extensions
find_extensions-At payload m rest o a =
    let sid = skip_u8-At payload 43 (44 + length m.sid) m.sid _ (omega arith) a in
    let suites =
      field_u16-At payload (44 + length m.sid) (length m.suites) _
        (omega (
          arith,
          length-append m.suites
              (vec8 m.compressions ++ (u16 (length (block m)) ++ (block m ++ rest))),
        ))
        sid.1 in
    let p = 44 + length m.sid + 2 + length m.suites in
    let behind = At-skip m.suites p refl suites.1 in
    let comp = skip_u8-At payload p (p + 1 + length m.compressions) m.compressions _ refl behind in
    let exts =
      field_u16-At payload (p + 1 + length m.compressions) (length (block m)) _
        (omega (arith, length-append (block m) rest)) comp.1 in
    (p + 1 + length m.compressions + 2, omega arith, rw (o, sid.0, suites.0, comp.0) exts.0, exts.1)

extensions-append :
    (before : List Extension) (name after rest : Bytes)
    → extensions before (server_name name after) ++ rest
      ≡ extensions before (server_name name (after ++ rest))
extensions-append [] name after rest = rw (append_assoc name after rest)
extensions-append (x ∷ before) name after rest = rw (
  append_assoc x.body (extensions before (server_name name after)) rest,
  extensions-append before name after rest,
)

-- A ClientHello with a server name is read back, whatever its other fields and extensions are and
-- whatever follows it, if the name is not empty, has no NUL and fits the buffer.
pub parser_extract_tls_sni-hello :
    (m : Hello) (rest : Bytes) (out_sz : ℕ)
    → IsHello m
    → 0 < length m.name
    → length m.name < out_sz
    → parser_extract_tls_sni (hello m rest) out_sz ≡ ok m.name
unfolding parser_extract_tls_sni
parser_extract_tls_sni-hello m rest out_sz h n s =
    let opened = open_hello-At m.head m.body (fields m rest) h.head_size h.body_size in
    let (ex, behind, found, at) = find_extensions-At (hello m rest) m rest opened.0 opened.1 in
    let at' = subst (At (hello m rest) ex) (extensions-append m.before m.name m.after rest) at in
    let pos : (out_sz == 0) ≡ false = ground arith in
    let read_back =
      ext_loop-At (hello m rest) m.before (length (hello m rest)) out_sz ex (ex + length (block m))
        m.name (m.after ++ rest) (omega (arith, at.size, length-append (block m) rest)) n s
        (omega (arith, length-block m.before m.name m.after)) h.others at' in
    rw (pos, found) (read_back ∙ ap ok (c_str-all m.name h.no_nul))
