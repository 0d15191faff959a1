-- ===== src/Dns/Total.antt =====
-- The decoder of daemon/src/probe/dns.rs returns, whatever bytes a server sends.
use netdiag.Prelude.{
  ℕ, zero, suc, ◌+◌, ◌≤◌, ◌<◌, Bool, false, ◌&&◌, List, arith, ltb, leb, ◌==◌, ◌!=◌, length,
}
use netdiag.Dns.Model.{
  at, word_at, Returns, >>=-Returns, if-Returns, Anything, at-Returns, word_at-Returns,
}
use netdiag.Dns.Decode.{
  is_pointer, skip_pointer, skip_loop, skip_name, skip_questions, bytes_between, read_answers,
  decode_body, decode_response,
}

-- An offset that is not past the end, a value of which nothing is said.
abbrev pub IsWithin : List ℕ → ℕ → Type 0
IsWithin buf offset = offset ≤ length buf

abbrev pub Any {ℓ} : {A : Type ℓ} → A → Type 0
Any a = Unit

skip_pointer-Returns :
    (buf : List ℕ) (offset : ℕ) (jumped : Bool)
    → offset < length buf
    → Returns (IsWithin buf) (skip_pointer buf offset jumped)
unfolding skip_pointer
skip_pointer-Returns buf offset jumped h =
    if-Returns (IsWithin buf) (leb (length buf) (offset + 1)) _ _ (λ e. tt) (λ e. ground arith)

skip_loop-Returns :
    (fuel : ℕ) (buf : List ℕ) (offset : ℕ) (jumped : Bool) (steps : ℕ)
    → steps ≤ 128
    → 129 ≤ fuel + steps
    → Returns (IsWithin buf) (skip_loop fuel buf offset jumped steps)
unfolding skip_loop
skip_loop-Returns zero buf offset jumped steps h enough = absurd (omega arith)
skip_loop-Returns (suc fuel) buf offset jumped steps h enough =
    if-Returns (IsWithin buf) (leb (length buf) offset) _ _ (λ e. tt)
      (λ inside.
        let within : offset < length buf = ground arith in
        >>=-Returns Anything (IsWithin buf) (at buf offset) _ (at-Returns buf offset within)
          (λ len u.
            if-Returns (IsWithin buf) (is_pointer len) _ _
              (λ e. skip_pointer-Returns buf offset jumped within)
              (λ e.
                if-Returns (IsWithin buf) (len == 0) _ _ (λ z. omega arith)
                  (λ z.
                    if-Returns (IsWithin buf) (ltb 128 (steps + 1)) _ _ (λ many. tt)
                      (λ few.
                        skip_loop-Returns fuel buf (offset + 1 + len) false (steps + 1)
                          (ground arith) (omega arith))))))

-- From every offset of every message, the walk over a name ends, within 129 labels, without reading past the
-- end, in an error or at an offset that is not past the end.
pub skip_name-Returns : (buf : List ℕ) (offset : ℕ) → Returns (IsWithin buf) (skip_name buf offset)
unfolding skip_name
skip_name-Returns buf offset = skip_loop-Returns 129 buf offset false 0 (omega arith) (omega arith)

skip_questions-Returns :
    (n : ℕ) (buf : List ℕ) (offset : ℕ) → Returns Anything (skip_questions n buf offset)
unfolding skip_questions
skip_questions-Returns zero buf offset = tt
skip_questions-Returns (suc n) buf offset =
    >>=-Returns (IsWithin buf) Anything (skip_name buf offset) _ (skip_name-Returns buf offset)
      (λ past w. skip_questions-Returns n buf (past + 4))

bytes_between-Returns :
    (bs : List ℕ) (i j : ℕ) → i ≤ j → j ≤ length bs → Returns Any (bytes_between bs i j)
bytes_between-Returns bs i j h k =
    if-Returns Any (leb i j && leb j (length bs)) _ _ (λ e. tt) (λ e. ground arith)

read_answers-Returns :
    (n : ℕ) (buf : List ℕ) (qtype offset : ℕ) → Returns Any (read_answers n buf qtype offset)
unfolding read_answers
read_answers-Returns zero buf qtype offset = tt
read_answers-Returns (suc n) buf qtype offset =
    if-Returns Any (leb (length buf) offset) _ _ (λ e. tt)
      (λ inside.
        >>=-Returns (IsWithin buf) Any (skip_name buf offset) _ (skip_name-Returns buf offset)
          (λ past w.
            if-Returns Any (ltb (length buf) (past + 10)) _ _ (λ e. tt)
              (λ head.
                >>=-Returns Anything Any (word_at buf past) _
                  (word_at-Returns buf past (ground arith))
                  (λ rtype u.
                    >>=-Returns Anything Any (word_at buf (past + 8)) _
                      (word_at-Returns buf (past + 8) (ground arith))
                      (λ rdlength v.
                        if-Returns Any (ltb (length buf) (past + 10 + rdlength)) _ _ (λ e. tt)
                          (λ data_.
                            >>=-Returns Any Any
                              (bytes_between buf (past + 10) (past + 10 + rdlength)) _
                              (bytes_between-Returns buf (past + 10) (past + 10 + rdlength)
                                (omega arith) (ground arith))
                              (λ rdata x.
                                >>=-Returns Any Any
                                  (read_answers n buf qtype (past + 10 + rdlength)) _
                                  (read_answers-Returns n buf qtype (past + 10 + rdlength))
                                  (λ rest y. tt))))))))

decode_body-Returns :
    (buf : List ℕ) (qtype : ℕ) → 12 ≤ length buf → Returns Any (decode_body buf qtype)
unfolding decode_body
decode_body-Returns buf qtype h =
    >>=-Returns Anything Any (word_at buf 2) _ (word_at-Returns buf 2 (omega arith)) (λ flags a.
      >>=-Returns Anything Any (word_at buf 4) _ (word_at-Returns buf 4 (omega arith)) (λ qdcount b.
        >>=-Returns Anything Any (word_at buf 6) _ (word_at-Returns buf 6 (omega arith))
          (λ ancount c.
            >>=-Returns Anything Any (skip_questions qdcount buf 12) _
              (skip_questions-Returns qdcount buf 12)
              (λ offset d.
                >>=-Returns Any Any (read_answers ancount buf qtype offset) _
                  (read_answers-Returns ancount buf qtype offset) (λ addresses e. tt)))))

-- Whatever bytes a server sends, the decoder returns a response or an error: its loops end, and no index or
-- slice is out of range.
pub decode_response-Returns :
    (buf : List ℕ) (expect_id qtype : ℕ) → Returns Any (decode_response buf expect_id qtype)
unfolding decode_response
decode_response-Returns buf expect_id qtype =
    if-Returns Any (ltb (length buf) 12) _ _ (λ e. tt)
      (λ e.
        >>=-Returns Anything Any (word_at buf 0) _ (word_at-Returns buf 0 (ground arith)) (λ id u.
          if-Returns Any (id != expect_id) _ _ (λ d. tt)
            (λ d. decode_body-Returns buf qtype (ground arith))))
