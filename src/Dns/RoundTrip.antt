-- ===== src/Dns/RoundTrip.antt =====
-- A query of daemon/src/probe/dns.rs, answered: what the decoder makes of the response.
use netdiag.Prelude.{
  ℕ, suc, ◌+◌, ◌/◌, ◌%◌, ◌^◌, ◌≤◌, ◌<◌, ◌≡◌, refl, sym, ap, ◌∙◌, ◌⊎◌, inl, inr, false, List, [],
  ◌∷◌, ◌++◌, map, arith, ltb, leb, ◌==◌, ◌!=◌, if◌then◌else◌, test_bit, low_bits, length, drop, All,
  length-append, IsU16, u16_be, be16,
}
use netdiag.Routes.Model.{IpAddr}
use netdiag.Dns.Model.{type_a, type_aaaa, from_u8, Outcome, ◌>>=◌, word_at}
use netdiag.Dns.Encode.{split, trim_end, query_header, encode_query}
use netdiag.Dns.Decode.{
  skip_pointer, skip_loop, skip_name, skip_questions, bytes_between, addresses_in, read_answers,
  Response, decode_body, decode_response,
}
use netdiag.Dns.Append.{at-append, word_at-append, bytes_between-append, u16_be-be16}
use netdiag.Dns.Names.{
  IsShort, wire_labels, encode_labels-wire_labels, skip_name-wire_labels, append_assoc,
}

-- A record of a server: a pointer to the name of the question, the type, the class, a time to live, the data.
unfoldable pub record_of : ℕ → List ℕ → List ℕ
record_of qtype data_ =
    (192 ∷ 12 ∷ be16 qtype) ++ (be16 1 ++ (be16 0 ++ (be16 300 ++ (be16 (length data_) ++ data_))))

unfoldable pub records_of : ℕ → List (List ℕ) → List ℕ
unfolding record_of
records_of qtype [] = []
records_of qtype (d ∷ ds) = record_of qtype d ++ records_of qtype ds

-- The data of an address record.
unfoldable pub IsAddressOf : ℕ → List ℕ → Type 0
IsAddressOf qtype d = ((qtype ≡ type_a) × (length d ≡ 4)) ⊎ ((qtype ≡ type_aaaa) × (length d ≡ 16))

unfoldable pub address_of : ℕ → List ℕ → IpAddr
address_of qtype d = if qtype == type_a then IpAddr.v4 d else IpAddr.v6 d

addresses_in-IsAddressOf :
    (qtype : ℕ) (d : List ℕ)
    → IsAddressOf qtype d
    → addresses_in qtype qtype d (length d) ≡ address_of qtype d ∷ []
unfolding addresses_in address_of IsAddressOf
addresses_in-IsAddressOf qtype d (inl (t, l)) = rw (t, l) refl
addresses_in-IsAddressOf qtype d (inr (t, l)) = rw (t, l) refl

-- One record is read.
read_answers-record :
    (n : ℕ) (buf : List ℕ) (qtype offset past rtype rdlength : ℕ) (rdata : List ℕ)
    (rest : List IpAddr)
    → offset < length buf
    → skip_name buf offset ≡ Outcome.ok past
    → word_at buf past ≡ Outcome.ok rtype
    → word_at buf (past + 8) ≡ Outcome.ok rdlength
    → past + 10 + rdlength ≤ length buf
    → bytes_between buf (past + 10) (past + 10 + rdlength) ≡ Outcome.ok rdata
    → read_answers n buf qtype (past + 10 + rdlength) ≡ Outcome.ok rest
    → read_answers (suc n) buf qtype offset
      ≡ Outcome.ok (addresses_in rtype qtype rdata rdlength ++ rest)
unfolding read_answers
read_answers-record n buf qtype offset past rtype rdlength rdata rest inside skip t l fits data_
      more =
    let a : leb (length buf) offset ≡ false = ground arith in
    let b : ltb (length buf) (past + 10) ≡ false = ground arith in
    let c : ltb (length buf) (past + 10 + rdlength) ≡ false = ground arith in
    rw (a, skip) (rw (b, t, l) (rw (c, data_, more) refl))

skip_name-pointer :
    (pre rest : List ℕ)
    → skip_name (pre ++ 192 ∷ 12 ∷ rest) (length pre) ≡ Outcome.ok (length pre + 2)
unfolding skip_name skip_loop skip_pointer
skip_name-pointer pre rest =
    let size = length-append pre (192 ∷ 12 ∷ rest) in
    let a : leb (length (pre ++ 192 ∷ 12 ∷ rest)) (length pre) ≡ false = rw size (ground arith) in
    let b : leb (length (pre ++ 192 ∷ 12 ∷ rest)) (length pre + 1) ≡ false =
      rw size (ground arith) in
    rw (a, at-append pre (192 ∷ 12 ∷ rest) 0 (length pre) (omega arith)) (rw b refl)

read_answers-records :
    (ds : List (List ℕ)) (pre : List ℕ) (qtype : ℕ)
    → IsU16 qtype
    → All (IsAddressOf qtype) ds
    → read_answers (length ds) (pre ++ records_of qtype ds) qtype (length pre)
      ≡ Outcome.ok (map (address_of qtype) ds)
unfolding records_of record_of read_answers word_at IsAddressOf
read_answers-records [] pre qtype q h = refl
read_answers-records (d ∷ ds) pre qtype q (a, h) =
    let ys = record_of qtype d ++ records_of qtype ds in
    let buf = pre ++ ys in
    let small : length d < 2 ^ 16 = ground (arith, a) in
    let size : length buf ≡ length pre + 12 + length d + length (records_of qtype ds) =
      rw (length-append pre ys, length-append (record_of qtype d) (records_of qtype ds))
        (omega arith) in
    read_answers-record (length ds) buf qtype (length pre) (length pre + 2) qtype (length d) d
      (map (address_of qtype) ds) (omega arith) (skip_name-pointer pre _)
      (word_at-append pre ys 2 (length pre + 2) refl ∙ ap Outcome.ok (u16_be-be16 qtype q))
      (word_at-append pre ys 10 (length pre + 2 + 8) (omega arith)
        ∙ ap Outcome.ok (u16_be-be16 (length d) small))
      (omega arith)
      (bytes_between-append pre ys d (records_of qtype ds) 12 (length pre + 2 + 10)
        (length pre + 2 + 10 + length d) (omega arith) refl refl (omega arith))
      (ap (λ b. read_answers (length ds) b qtype (length pre + 2 + 10 + length d))
          (sym (append_assoc pre (record_of qtype d) (records_of qtype ds)))
        ∙ ap (read_answers (length ds) ((pre ++ record_of qtype d) ++ records_of qtype ds) qtype)
            (rw (length-append pre (record_of qtype d)) (omega arith))
        ∙ read_answers-records ds (pre ++ record_of qtype d) qtype q h)
    ∙ ap (λ addresses. Outcome.ok (addresses ++ map (address_of qtype) ds))
        (addresses_in-IsAddressOf qtype d a)

-- What a server sends: the id of the query, flags of its own, the question of the query, a record for each
-- address.
unfoldable pub respond : List ℕ → ℕ → ℕ → ℕ → List (List ℕ) → List ℕ
unfolding records_of
respond query id flags qtype ds =
    ((be16 id ++ (be16 flags ++ (be16 1 ++ (be16 (length ds) ++ (be16 0 ++ be16 0)))))
      ++ drop 12 query)
    ++ records_of qtype ds

-- The response that has these flags and addresses.
unfoldable pub expected : ℕ → ℕ → List (List ℕ) → Response
unfolding address_of
expected flags qtype ds = record {
  addresses = map (address_of qtype) ds;
  rcode = from_u8 (low_bits flags 4);
  truncated = test_bit flags 9;
  authoritative = test_bit flags 10;
  answer_count = length ds;
}

decode_body-parts :
    (buf : List ℕ) (qtype flags ancount offset : ℕ) (addresses : List IpAddr)
    → word_at buf 2 ≡ Outcome.ok flags
    → word_at buf 4 ≡ Outcome.ok 1
    → word_at buf 6 ≡ Outcome.ok ancount
    → skip_questions 1 buf 12 ≡ Outcome.ok offset
    → read_answers ancount buf qtype offset ≡ Outcome.ok addresses
    → decode_body buf qtype
      ≡ Outcome.ok (record {
        addresses = addresses;
        rcode = from_u8 (low_bits flags 4);
        truncated = test_bit flags 9;
        authoritative = test_bit flags 10;
        answer_count = ancount;
      })
unfolding decode_body
decode_body-parts buf qtype flags ancount offset addresses f q n skip read =
    rw (f, q, n) (rw skip (rw read refl))

-- The query of a name.
query_of : ℕ → List (List ℕ) → ℕ → List ℕ
query_of id labels qtype = query_header id ++ wire_labels labels ++ 0 ∷ be16 qtype ++ be16 1

header_of : ℕ → ℕ → ℕ → List ℕ
header_of id flags count = be16 id ++ (be16 flags ++ (be16 1 ++ (be16 count ++ (be16 0 ++ be16 0))))

append_assoc_four : (w x y r : List ℕ) → ((w ++ x) ++ y) ++ r ≡ w ++ (x ++ (y ++ r))
append_assoc_four w x y r = append_assoc (w ++ x) y r ∙ append_assoc w x (y ++ r)

skip_questions-respond :
    (labels : List (List ℕ)) (id flags qtype : ℕ) (ds : List (List ℕ))
    → All IsShort labels
    → length labels ≤ 128
    → skip_questions 1 (respond (query_of id labels qtype) id flags qtype ds) 12
      ≡ Outcome.ok (17 + length (wire_labels labels))
unfolding skip_questions respond query_of header_of
skip_questions-respond labels id flags qtype ds h few =
    let head = header_of id flags (length ds) in
    let tail = 0 ∷ be16 qtype in
    let rest = be16 qtype ++ (be16 1 ++ records_of qtype ds) in
    let skip : skip_name (head ++ (wire_labels labels ++ 0 ∷ rest)) 12
        ≡ Outcome.ok (12 + length (wire_labels labels) + 1) =
      skip_name-wire_labels labels head rest h few in
    ap (λ body. skip_name (head ++ body) 12 >>= λ past. Outcome.ok (past + 4))
      (append_assoc_four (wire_labels labels) tail (be16 1) (records_of qtype ds))
    ∙ ap (λ o. o >>= λ past. Outcome.ok (past + 4)) skip
    ∙ ap Outcome.ok (omega arith)

read_answers-respond :
    (labels : List (List ℕ)) (id flags qtype : ℕ) (ds : List (List ℕ))
    → IsU16 qtype
    → All (IsAddressOf qtype) ds
    → read_answers
        (length ds)
        (respond (query_of id labels qtype) id flags qtype ds)
        qtype
        (17 + length (wire_labels labels))
      ≡ Outcome.ok (map (address_of qtype) ds)
unfolding respond query_of header_of
read_answers-respond labels id flags qtype ds q h =
    let head = header_of id flags (length ds) in
    let question = wire_labels labels ++ 0 ∷ be16 qtype ++ be16 1 in
    ap (read_answers (length ds) (respond (query_of id labels qtype) id flags qtype ds) qtype) (
      rw
        (
          length-append (wire_labels labels ++ 0 ∷ be16 qtype) (be16 1),
          length-append (wire_labels labels) (0 ∷ be16 qtype),
        )
        (omega arith))
    ∙ read_answers-records ds (head ++ question) qtype q h

answered :
    (labels : List (List ℕ)) (id flags qtype : ℕ) (ds : List (List ℕ))
    → All IsShort labels
    → length labels ≤ 128
    → IsU16 id
    → IsU16 flags
    → IsU16 qtype
    → length ds < 2 ^ 16
    → All (IsAddressOf qtype) ds
    → decode_response (respond (query_of id labels qtype) id flags qtype ds) id qtype
      ≡ Outcome.ok (expected flags qtype ds)
unfolding decode_response respond query_of word_at expected
answered labels id flags qtype ds short few i f q n h =
    let buf = respond (query_of id labels qtype) id flags qtype ds in
    let a : ltb (length buf) 12 ≡ false = ground arith in
    let same : (u16_be (id / 256 % 256) (id % 256) != id) ≡ false =
      rw (u16_be-be16 id i) (ground arith) in
    rw (a, same)
      (decode_body-parts buf qtype flags (length ds) (17 + length (wire_labels labels))
        (map (address_of qtype) ds) (ap Outcome.ok (u16_be-be16 flags f)) refl
        (ap Outcome.ok (u16_be-be16 (length ds) n))
        (skip_questions-respond labels id flags qtype ds short few)
        (read_answers-respond labels id flags qtype ds q h))

-- A name of at most 128 labels, each of at most 63 bytes, has a query; and the response that answers the query
-- with addresses of its type, and with any flags, decodes to those addresses, in order, with the code
-- and the flags that were sent.
pub decode_response-respond :
    (name : List ℕ) (id flags qtype : ℕ) (ds : List (List ℕ))
    → All IsShort (split (trim_end name))
    → length (split (trim_end name)) ≤ 128
    → IsU16 id
    → IsU16 flags
    → IsU16 qtype
    → length ds < 2 ^ 16
    → All (IsAddressOf qtype) ds
    → (query : List ℕ) × (encode_query id name qtype ≡ Outcome.ok query)
      × (decode_response (respond query id flags qtype ds) id qtype
          ≡ Outcome.ok (expected flags qtype ds))
unfolding encode_query query_of
decode_response-respond name id flags qtype ds short few i f q n h =
    let labels = split (trim_end name) in
    (
      query_of id labels qtype,
      rw (encode_labels-wire_labels labels short) refl,
      answered labels id flags qtype ds short few i f q n h,
    )
