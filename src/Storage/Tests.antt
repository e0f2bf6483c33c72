-- ===== src/Storage/Tests.antt =====
-- A pipe on a concrete exchange.
use nanokube.Prelude.{ℕ, ◌≤◌, ◌≡◌, refl, true, some, List, [], ◌∷◌, ◌++◌, arith, str}
use nanokube.Storage.Pipe.{
  Pipe, new_pipe, capacity, Event, client_sends, client_receives, closes_send, server_sends,
  server_receives, returns, client_send, client_recv, client_end, close_send, server_send,
  server_recv, return, Run, stop, go,
}
use nanokube.Storage.Pipe.Order.{
  requests, taken, answers, read, returned, Run-new_pipe, Run-client_ends,
}

abbrev asking : List (Event ℕ ℕ)
asking =
    client_sends 1
    ∷ client_sends 2
    ∷ server_receives 1
    ∷ server_sends 10
    ∷ closes_send
    ∷ server_receives 2
    ∷ []

abbrev asked : Pipe ℕ ℕ
asked = record new_pipe { resps = 10 ∷ []; close_sent = true }

asking-Run : Run new_pipe asking asked
asking-Run = go (client_send _ 1 refl (omega arith)) (
    go (client_send _ 2 refl (omega arith)) (
      go (server_recv _ 1 (2 ∷ []) refl) (
        go (server_send _ 10 refl (omega arith))
          (go (close_send _) (go (server_recv _ 2 [] refl) (stop _))))))

Run-new_pipe_example :
    (requests asking ≡ taken asking ++ [])
    × (answers asking ≡ read asking ++ 10 ∷ [])
    × (0 ≤ capacity)
    × (1 ≤ capacity)
Run-new_pipe_example = Run-new_pipe asked asking asking-Run

abbrev answering : List (Event ℕ ℕ)
answering = server_sends 7 ∷ returns (some (str "lost")) ∷ client_receives 7 ∷ []

abbrev answered : Pipe ℕ ℕ
answered = record new_pipe { done = true; err = some (str "lost") }

answering-Run : Run new_pipe answering answered
answering-Run =
    go (server_send _ 7 refl (omega arith))
      (go (return _ (some (str "lost")) refl) (go (client_recv _ 7 [] refl) (stop _)))

Run-client_ends_example :
    (read answering ≡ answers answering) × (returned answering ≡ some (str "lost") ∷ [])
Run-client_ends_example =
    Run-client_ends answered answered answering (some (str "lost")) answering-Run
      (client_end answered refl refl)
