-- ===== src/Examples/Queries.antt =====
-- DNS messages of src/LwipRuntime.cpp, written and read.
use ovpn2ss.Common.{◌≡◌, refl, Option, none, some, Bytes, [], ◌∷◌, codes, replicate, arith}
use ovpn2ss.Common.Outcome.{Result, ok, err, bad_dns_label}
use ovpn2ss.Dns.Packet.{read_u8, read_u16, skip_dns_name}
use ovpn2ss.Dns.Query.{dns_type_a, make_dns_query}
use ovpn2ss.Dns.Response.{IpAddr, ip4, parse_dns_response}
use ovpn2ss.Dns.InBounds.{parse_dns_response_in}
use ovpn2ss.Dns.Names.{make_dns_query_total}
use ovpn2ss.Dns.Guards.{IsAnswer, parse_dns_response-IsAnswer}
use ovpn2ss.Dns.Exchange.{reply, a_record, parse_dns_response-make_dns_query}

abbrev host : Bytes
host = codes "a.bc"

abbrev question : Bytes
question = 1 ∷ 97 ∷ 2 ∷ 98 ∷ 99 ∷ 0 ∷ 0 ∷ 1 ∷ 0 ∷ 1 ∷ []

abbrev query : Bytes
query = 2 ∷ 1 ∷ 1 ∷ 0 ∷ 0 ∷ 1 ∷ 0 ∷ 0 ∷ 0 ∷ 0 ∷ 0 ∷ 0 ∷ question

abbrev answer : Bytes
answer = reply 0x8180 query (a_record (0 ∷ 0 ∷ 0 ∷ 60 ∷ []) (10 ∷ 0 ∷ 0 ∷ 1 ∷ []) [])

query_made : make_dns_query 513 host dns_type_a ≡ some (ok query)
unfolding make_dns_query
query_made = refl

-- An empty label is refused.
label_refused : make_dns_query 513 (codes "a..b") dns_type_a ≡ some (err bad_dns_label)
unfolding make_dns_query
label_refused = refl

-- A name that points behind the end of the packet is stuck there.
name_cut_off : skip_dns_name (3 ∷ 97 ∷ []) 0 ≡ ok none
unfolding skip_dns_name read_u8
name_cut_off = refl

answer_read : parse_dns_response answer 513 dns_type_a ≡ ok (some (ip4 10 0 0 1))
unfolding parse_dns_response skip_dns_name read_u16 read_u8
answer_read = refl

make_dns_query_total_example : (r : Result Bytes) × (make_dns_query 513 host dns_type_a ≡ some r)
make_dns_query_total_example = make_dns_query_total 513 host dns_type_a

parse_dns_response_in_example :
    (result : Option IpAddr) × (parse_dns_response (replicate 30 192) 513 dns_type_a ≡ ok result)
parse_dns_response_in_example = parse_dns_response_in (replicate 30 192) 513 dns_type_a

parse_dns_response-IsAnswer_example : IsAnswer answer 513
parse_dns_response-IsAnswer_example =
    parse_dns_response-IsAnswer answer 513 dns_type_a (ip4 10 0 0 1) answer_read

parse_dns_response-make_dns_query_example :
    parse_dns_response answer 513 dns_type_a ≡ ok (some (ip4 10 0 0 1))
parse_dns_response-make_dns_query_example =
    parse_dns_response-make_dns_query 513 0x8180 host query 0 0 0 60 10 0 0 1 [] (omega arith)
      (omega arith) refl refl (omega arith) query_made
