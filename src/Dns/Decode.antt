-- ===== src/Dns/Decode.antt =====
-- daemon/src/probe/dns.rs: `skip_name` and `decode_response`. The loop of `skip_name` has fuel for 129 rounds.
use netdiag.Prelude.{
  ℕ, zero, suc, ◌+◌, ◌-◌, ◌/◌, ◌%◌, Bool, false, not, ◌&&◌, List, [], ◌∷◌, ◌++◌, ltb, leb, ◌==◌,
  ◌!=◌, if◌then◌else◌, test_bit, low_bits, length, take, drop,
}
use netdiag.Routes.Model.{IpAddr}
use netdiag.Dns.Model.{type_a, type_aaaa, RCode, from_u8, Error, Outcome, ◌>>=◌, at, word_at}

-- `len & 0xc0 == 0xc0`
abbrev pub is_pointer : ℕ → Bool
is_pointer len = len / 64 % 4 == 3

unfoldable pub skip_pointer : List ℕ → ℕ → Bool → Outcome ℕ
skip_pointer buf offset jumped =
    if leb (length buf) (offset + 1)
    then Outcome.err Error.truncated_pointer
    else Outcome.ok (if not jumped then offset + 2 else offset)

unfoldable pub skip_loop : ℕ → List ℕ → ℕ → Bool → ℕ → Outcome ℕ
unfolding skip_pointer
skip_loop zero buf offset jumped steps = Outcome.unfinished
skip_loop (suc fuel) buf offset jumped steps =
    if leb (length buf) offset then Outcome.err Error.name_past_end else (do
      len ← at buf offset
      let next = skip_loop fuel buf (offset + 1 + len) false (steps + 1) in
          if is_pointer len
          then skip_pointer buf offset jumped
          else if len == 0
          then Outcome.ok (offset + 1)
          else if ltb 128 (steps + 1)
          then Outcome.err Error.too_many_labels
          else next)

unfoldable pub skip_name : List ℕ → ℕ → Outcome ℕ
unfolding skip_loop
skip_name buf offset = skip_loop 129 buf offset false 0

unfoldable pub skip_questions : ℕ → List ℕ → ℕ → Outcome ℕ
skip_questions zero buf offset = Outcome.ok offset
skip_questions (suc n) buf offset = do past ← skip_name buf offset; skip_questions n buf (past + 4)

-- `&buf[i..j]`
abbrev pub bytes_between : List ℕ → ℕ → ℕ → Outcome (List ℕ)
bytes_between bs i j =
    if leb i j && leb j (length bs) then Outcome.ok (take (j - i) (drop i bs)) else Outcome.panicked

-- The addresses that one record adds. Its data has `rdlength` bytes.
unfoldable pub addresses_in : ℕ → ℕ → List ℕ → ℕ → List IpAddr
addresses_in rtype qtype rdata rdlength =
    if rtype == qtype
    then (if qtype == type_a && rdlength == 4
        then IpAddr.v4 rdata ∷ []
        else if qtype == type_aaaa && rdlength == 16
        then IpAddr.v6 rdata ∷ []
        else [])
    else []

unfoldable pub read_answers : ℕ → List ℕ → ℕ → ℕ → Outcome (List IpAddr)
unfolding addresses_in
read_answers zero buf qtype offset = Outcome.ok []
read_answers (suc n) buf qtype offset = if leb (length buf) offset then Outcome.ok [] else (do
  past ← skip_name buf offset
  if ltb (length buf) (past + 10) then Outcome.ok [] else (do
    rtype ← word_at buf past
    rdlength ← word_at buf (past + 8)
    if ltb (length buf) (past + 10 + rdlength) then Outcome.ok [] else (do
      rdata ← bytes_between buf (past + 10) (past + 10 + rdlength)
      rest ← read_answers n buf qtype (past + 10 + rdlength)
      Outcome.ok (addresses_in rtype qtype rdata rdlength ++ rest))))

pub record Response : Type 0 where
  pub addresses : List IpAddr
  pub rcode : RCode
  pub truncated : Bool
  pub authoritative : Bool
  pub answer_count : ℕ

unfoldable pub decode_body : List ℕ → ℕ → Outcome Response
unfolding skip_questions read_answers
decode_body buf qtype = do
  flags ← word_at buf 2
  qdcount ← word_at buf 4
  ancount ← word_at buf 6
  offset ← skip_questions qdcount buf 12
  addresses ← read_answers ancount buf qtype offset
  Outcome.ok (record {
    addresses = addresses;
    rcode = from_u8 (low_bits flags 4);
    truncated = test_bit flags 9;
    authoritative = test_bit flags 10;
    answer_count = ancount;
  })

unfoldable pub decode_response : List ℕ → ℕ → ℕ → Outcome Response
unfolding decode_body
decode_response buf expect_id qtype =
    if ltb (length buf) 12 then Outcome.err Error.short_response else (do
      id ← word_at buf 0
      if id != expect_id then Outcome.err (Error.wrong_id id expect_id) else decode_body buf qtype)
