-- ===== src/Dns/Encode.antt =====
-- daemon/src/probe/dns.rs: `encode_query`. A name is its bytes.
use netdiag.Prelude.{ℕ, ◌&&◌, List, [], ◌∷◌, ◌++◌, ltb, ◌==◌, if◌then◌else◌, length, is_empty, be16}
use netdiag.Dns.Model.{Error, Outcome, ◌>>=◌}

-- `b'.'`
abbrev pub dot : ℕ
dot = 46

-- `split('.')`: the pieces between the dots, of which there is one more than dots.
abbrev pub push_first : ℕ → List (List ℕ) → List (List ℕ)
push_first b [] = (b ∷ []) ∷ []
push_first b (label ∷ labels) = (b ∷ label) ∷ labels

unfoldable pub split : List ℕ → List (List ℕ)
split [] = [] ∷ []
split (b ∷ bs) = let rest = split bs in if b == dot then [] ∷ rest else push_first b rest

-- `trim_end_matches('.')`
unfoldable pub trim_end : List ℕ → List ℕ
trim_end [] = []
trim_end (b ∷ bs) = let rest = trim_end bs in if b == dot && is_empty rest then [] else b ∷ rest

unfoldable pub encode_labels : List (List ℕ) → Outcome (List ℕ)
encode_labels [] = Outcome.ok []
encode_labels (label ∷ labels) =
    let rest = encode_labels labels in
    if is_empty label
    then rest
    else if ltb 63 (length label)
    then Outcome.err (Error.label_too_long label)
    else (do bytes ← rest; Outcome.ok ((length label ∷ label) ++ bytes))

-- Recursion desired, one question, no records.
abbrev pub query_header : ℕ → List ℕ
query_header id = be16 id ++ be16 0x0100 ++ be16 1 ++ be16 0 ++ be16 0 ++ be16 0

unfoldable pub encode_query : ℕ → List ℕ → ℕ → Outcome (List ℕ)
unfolding encode_labels trim_end split
encode_query id name qtype = do
  labels ← encode_labels (split (trim_end name))
  Outcome.ok (query_header id ++ labels ++ 0 ∷ be16 qtype ++ be16 1)
