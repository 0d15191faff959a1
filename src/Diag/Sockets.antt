-- ===== src/Diag/Sockets.antt =====
-- daemon/src/diag/mod.rs: `check_socket_states`. A quotient of two f32s above 0.25 is a product here, which is the
-- same for counts below 2 ^ 22.
use netdiag.Prelude.{
  ℕ, ◌-◌, ◌*◌, min, ◌&&◌, List, [], ◌∷◌, ltb, leb, ◌==◌, if◌then◌else◌, length, filter, concat,
  show,
}
use netdiag.Capture.Model.{family_v6}
use netdiag.Diag.Builder.{CheckId, Check, start, ev, pass, fail, warn, skip, finish}
use netdiag.Diag.State.{Socket, SocketSummary, DiagState}

abbrev pub syn_sent_threshold : ℕ
syn_sent_threshold = 5

abbrev pub close_wait_threshold : ℕ
close_wait_threshold = 20

-- `TcpState::SynSent` is 2.
unfoldable pub syn_sent_v6 : List Socket → ℕ
syn_sent_v6 sockets = length (filter (λ s. s.state == 2 && s.family == family_v6) sockets)

unfoldable pub judge_sockets : SocketSummary → Check → Check
unfolding finish
judge_sockets s c =
    if s.total == 0
    then skip "no sockets were readable" c
    else if leb syn_sent_threshold s.syn_sent
    then fail
        (concat (
          show s.syn_sent
          ∷ " sockets are stuck in SYN_SENT: SYNs are leaving and nothing is answering"
          ∷ []))
        c
    else if leb close_wait_threshold s.close_wait
    then warn
        (concat (
          show s.close_wait
          ∷ " sockets are in CLOSE_WAIT, which usually means an app is not closing connections the "
          ∷ "peer already finished with"
          ∷ []))
        c
    else if ltb 0 s.retransmitting
        && ltb 0 s.established
        && ltb s.established (4 * s.retransmitting)
    then warn
        (concat (
          show s.retransmitting
          ∷ " of "
          ∷ show s.established
          ∷ " established connections are retransmitting"
          ∷ []))
        c
    else pass
        (concat
          (show s.total ∷ " sockets, " ∷ show s.established ∷ " established, nothing stuck" ∷ []))
        c

unfoldable pub check_socket_states : DiagState → Check
unfolding judge_sockets syn_sent_v6 start ev
check_socket_states state =
    let s = state.socket_summary in
    let v6 = syn_sent_v6 state.sockets in
    judge_sockets s (
      ev "retransmitting" (show s.retransmitting) (
        ev "time_wait" (show s.time_wait) (
          ev "fin_wait" (show s.fin_wait) (
            ev "close_wait" (show s.close_wait) (
              ev "syn_sent" (show s.syn_sent) (
                ev "established" (show s.established) (
                  ev "total" (show s.total) (
                    ev "syn_sent_v6" (show v6) (
                      ev "syn_sent_v4" (show (s.syn_sent - min v6 s.syn_sent))
                        (start CheckId.suspicious_tcp_states "TCP socket states"))))))))))
