-- ===== src/Dns/Checks.antt =====
-- Concrete messages and addresses, and the theorems at some.
use netdiag.Prelude.{
  ℕ, ◌≡◌, refl, inl, true, false, none, some, List, [], ◌∷◌, arith, replicate, concat,
}
use netdiag.Routes.Model.{IpAddr}
use netdiag.Dns.Model.{type_a, type_aaaa, RCode, Error, Outcome, Returns}
use netdiag.Dns.Encode.{split, trim_end, encode_query}
use netdiag.Dns.Decode.{skip_name, decode_response}
use netdiag.Dns.Nat64.{extract_nat64_prefix}
use netdiag.Dns.Total.{Any, decode_response-Returns}
use netdiag.Dns.RoundTrip.{IsAddressOf, respond, expected, decode_response-respond}
use netdiag.Dns.Embed.{embed, well_known, recovered, extract-embed, extract-embed_64}
use netdiag.Dns.Probe.{Queried, probe}

-- "ab.c" and "ab.c."
abbrev short_name : List ℕ
short_name = 97 ∷ 98 ∷ 46 ∷ 99 ∷ []

abbrev dotted_name : List ℕ
dotted_name = 97 ∷ 98 ∷ 46 ∷ 99 ∷ 46 ∷ []

abbrev short_query : List ℕ
short_query =
    0x12 ∷ 0x34 ∷ 1 ∷ 0 ∷ 0 ∷ 1 ∷ 0 ∷ 0 ∷ 0 ∷ 0 ∷ 0 ∷ 0 ∷ 2 ∷ 97 ∷ 98 ∷ 1 ∷ 99 ∷ 0 ∷ 0 ∷ 1 ∷ 0 ∷ 1
    ∷ []

query_encoded : encode_query 0x1234 short_name type_a ≡ Outcome.ok short_query
unfolding encode_query
query_encoded = refl

trailing_dot : encode_query 0x1234 dotted_name type_a ≡ Outcome.ok short_query
unfolding encode_query
trailing_dot = refl

long_label :
    encode_query 1 (replicate 64 97) type_a ≡ Outcome.err (Error.label_too_long (replicate 64 97))
unfolding encode_query
long_label = refl

abbrev address_bytes : List ℕ
address_bytes = 93 ∷ 184 ∷ 216 ∷ 34 ∷ []

-- A response of one address, and one to another query.
answered :
    decode_response (respond short_query 0x1234 0x8180 type_a (address_bytes ∷ [])) 0x1234 type_a
    ≡ Outcome.ok (record {
      addresses = IpAddr.v4 address_bytes ∷ [];
      rcode = RCode.no_error;
      truncated = false;
      authoritative = false;
      answer_count = 1;
    })
unfolding decode_response respond netdiag.Dns.Model.word_at skip_name netdiag.Dns.Model.from_u8
answered = refl

mismatched :
    decode_response (respond short_query 0x1234 0x8180 type_a []) 0xabcd type_a
    ≡ Outcome.err (Error.wrong_id 0x1234 0xabcd)
unfolding decode_response respond netdiag.Dns.Model.word_at
mismatched = refl

cut_pointer : skip_name (1 ∷ 97 ∷ 192 ∷ []) 0 ≡ Outcome.err Error.truncated_pointer
unfolding skip_name
cut_pointer = refl

no_records :
    (probe (λ a. "") "s" "r" "h" type_aaaa (Queried.answer 7 (expected 0x8180 type_aaaa []))).detail
    ≡ "AAAA h returned NOERROR with no records"
unfolding probe expected netdiag.Dns.Model.from_u8 concat
no_records = refl

native_address :
    extract_nat64_prefix
      (0x26 ∷ 6 ∷ 0x47 ∷ 0 ∷ 0x47 ∷ 0 ∷ 0 ∷ 0 ∷ 0 ∷ 0 ∷ 0 ∷ 0 ∷ 0 ∷ 0 ∷ 0x11 ∷ 0x11 ∷ [])
    ≡ none
unfolding extract_nat64_prefix
native_address = refl

decode_response-Returns_example : Returns Any (decode_response short_query 0x1234 type_a)
decode_response-Returns_example = decode_response-Returns short_query 0x1234 type_a

decode_response-respond_example :
    (query : List ℕ) × (encode_query 0x1234 short_name type_a ≡ Outcome.ok query)
    × (decode_response (respond query 0x1234 0x8180 type_a (address_bytes ∷ [])) 0x1234 type_a
        ≡ Outcome.ok (expected 0x8180 type_a (address_bytes ∷ [])))
unfolding split trim_end IsAddressOf
decode_response-respond_example =
    decode_response-respond short_name 0x1234 0x8180 type_a (address_bytes ∷ [])
      (omega arith, (omega arith, tt)) (omega arith) (omega arith) (omega arith) (omega arith)
      (omega arith) (inl (refl, refl), tt)

-- 64:ff9b::/96 and 2001:db8:1:2::/64
extract-embed_example :
    (extract_nat64_prefix (embed (0 ∷ 0x64 ∷ 0xff ∷ 0x9b ∷ []) (well_known false))
      ≡ some (recovered (0 ∷ 0x64 ∷ 0xff ∷ 0x9b ∷ [])))
    × (extract_nat64_prefix (embed (0 ∷ 0x64 ∷ 0xff ∷ 0x9b ∷ 0 ∷ []) (well_known false))
        ≡ some (recovered (0 ∷ 0x64 ∷ 0xff ∷ 0x9b ∷ 0 ∷ [])))
    × (extract_nat64_prefix (embed (0 ∷ 0x64 ∷ 0xff ∷ 0x9b ∷ 0 ∷ 0 ∷ []) (well_known false))
        ≡ some (recovered (0 ∷ 0x64 ∷ 0xff ∷ 0x9b ∷ 0 ∷ 0 ∷ [])))
    × (extract_nat64_prefix
          (embed (0 ∷ 0x64 ∷ 0xff ∷ 0x9b ∷ 0 ∷ 0 ∷ 0 ∷ 0 ∷ 0 ∷ 0 ∷ 0 ∷ 0 ∷ []) (well_known false))
        ≡ some (recovered (0 ∷ 0x64 ∷ 0xff ∷ 0x9b ∷ 0 ∷ 0 ∷ 0 ∷ 0 ∷ 0 ∷ 0 ∷ 0 ∷ 0 ∷ [])))
extract-embed_example =
    extract-embed 0 0x64 0xff 0x9b 0 0 0 0 0 0 0 0 false
      (refl, (refl, (refl, (refl, (refl, (refl, (refl, (refl, tt))))))))

extract-embed_64_example :
    (extract_nat64_prefix (embed (0x20 ∷ 1 ∷ 0xd ∷ 0xb8 ∷ 0 ∷ 1 ∷ 0 ∷ 2 ∷ []) (well_known true))
      ≡ some (recovered (0x20 ∷ 1 ∷ 0xd ∷ 0xb8 ∷ 0 ∷ 1 ∷ 0 ∷ [])))
    × (extract_nat64_prefix (embed (0x20 ∷ 1 ∷ 0xd ∷ 0xb8 ∷ 0 ∷ 1 ∷ 0 ∷ []) (well_known true))
        ≡ none)
extract-embed_64_example =
    extract-embed_64 0x20 1 0xd 0xb8 0 1 0 2 0 0 0 0 true (refl, (refl, (refl, (refl, tt))))
