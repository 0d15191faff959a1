-- ===== src/Watch/Severity.antt =====
-- proto/netdiag/v1/event.proto: `EventSeverity`, by its numbers.
use netdiag.Prelude.{ℕ}

abbrev pub debug : ℕ
debug = 1

abbrev pub info : ℕ
info = 2

abbrev pub notice : ℕ
notice = 3

abbrev pub warning : ℕ
warning = 4
