-- ===== src/Tests/Payloads.antt =====
-- The payload readers of src/parser.c on the ClientHello of `run_selftest` in src/main.c.
use if_flow.Base.{arith, ℕ, zero, suc, ◌≡◌, refl, [], ◌∷◌, Bytes, codes}
use if_flow.Parser.Reads.{ok, Gives}
use if_flow.Parser.TlsSni.{parser_extract_tls_sni}
use if_flow.Parser.TlsSni.Safe.{IsText, parser_extract_tls_sni-Gives}
use if_flow.Parser.TlsSni.Hello.{Hello, IsHello, hello}
use if_flow.Parser.TlsSni.RoundTrip.{parser_extract_tls_sni-hello}
use if_flow.Parser.HttpHost.{parser_extract_http_host, tolower}
use if_flow.Parser.HttpHost.Safe.{IsHost, parser_extract_http_host-Gives}
use if_flow.Parser.HttpHost.RoundTrip.{
  Request, IsRequest, request, parser_extract_http_host-request,
}
use if_flow.Agent.Selftest.Cases.{tls_client_hello, http_req}

abbrev zeros : ℕ → Bytes
zeros zero = []
zeros (suc n) = 0 ∷ zeros n

selftest_sni : parser_extract_tls_sni tls_client_hello 256 ≡ ok (codes "example.org")
unfolding parser_extract_tls_sni
selftest_sni = refl

parser_extract_tls_sni-Gives_example :
    Gives (IsText tls_client_hello 256) (parser_extract_tls_sni tls_client_hello 256)
parser_extract_tls_sni-Gives_example = parser_extract_tls_sni-Gives tls_client_hello 256

selftest_host : parser_extract_http_host http_req 256 ≡ ok (codes "api.example.org")
unfolding parser_extract_http_host
selftest_host = refl

parser_extract_http_host-Gives_example :
    Gives (IsHost http_req 256) (parser_extract_http_host http_req 256)
parser_extract_http_host-Gives_example = parser_extract_http_host-Gives http_req 256

abbrev sample_hello : Hello
sample_hello = record {
  head = 3 ∷ 1 ∷ 0 ∷ 100 ∷ [];
  body = 0 ∷ 0 ∷ 96 ∷ 3 ∷ 3 ∷ zeros 32;
  sid = 7 ∷ 8 ∷ [];
  suites = 0x13 ∷ 1 ∷ 0x13 ∷ 2 ∷ [];
  compressions = 0 ∷ [];
  before = record { type = 10; body = 0 ∷ 2 ∷ 0 ∷ 29 ∷ [] } ∷ [];
  name = codes "api.example.org";
  after = 0 ∷ 16 ∷ 0 ∷ 0 ∷ [];
}

sample_hello-IsHello : IsHello sample_hello
sample_hello-IsHello = record {
  head_size = refl;
  body_size = refl;
  others = (record { not_server_name = omega arith }, tt);
  no_nul = ground arith;
}

parser_extract_tls_sni-hello_example :
    parser_extract_tls_sni (hello sample_hello (9 ∷ [])) 256 ≡ ok (codes "api.example.org")
parser_extract_tls_sni-hello_example =
    parser_extract_tls_sni-hello sample_hello (9 ∷ []) 256 sample_hello-IsHello (omega arith)
      (omega arith)

abbrev sample_request : Request
sample_request = record {
  line = codes "GET /index HTTP/1.1";
  key = codes "hOST";
  pad = codes "  ";
  host = codes "api.example.org:8080";
  stop = b'\r';
  rest = codes "\nHost: other\r\n";
}

sample_request-IsRequest : IsRequest sample_request
unfolding tolower
sample_request-IsRequest = record {
  one_line = ground arith;
  is_key = refl;
  blanks = ground arith;
  no_end = ground arith;
  no_blank_first = refl;
  no_blank_last = refl;
  no_nul = ground arith;
  is_stop = refl;
}

-- A name ends at its first NUL, and so does the value of a Host header, behind the trimming.
name_with_nul :
    parser_extract_tls_sni (hello (record sample_hello { name = b'a' ∷ 0 ∷ b'b' ∷ [] }) []) 256
    ≡ ok (codes "a")
unfolding parser_extract_tls_sni
name_with_nul = refl

host_with_nul :
    parser_extract_http_host
      (request (record sample_request { host = b'a' ∷ b' ' ∷ 0 ∷ b'b' ∷ b' ' ∷ [] }))
      256
    ≡ ok (codes "a ")
unfolding parser_extract_http_host
host_with_nul = refl

parser_extract_http_host-request_example :
    parser_extract_http_host (request sample_request) 256 ≡ ok (codes "api.example.org:8080")
parser_extract_http_host-request_example =
    parser_extract_http_host-request sample_request 256 sample_request-IsRequest (omega arith)
      (omega arith)
