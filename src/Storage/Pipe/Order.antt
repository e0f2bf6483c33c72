-- ===== src/Storage/Pipe/Order.antt =====
-- What is sent is what is received, in its order, and nothing is lost before an end is told.
use nanokube.Prelude.{
  ◌≤◌, ◌≡◌, refl, sym, ap, ◌∙◌, ◌⊎◌, inl, inr, true, false, Option, List, [], ◌∷◌, ◌++◌, arith,
  length, length-append, Str,
}
use mathlib.Core.List.{append_assoc, append-nil}
use nanokube.Storage.Pipe.{
  Pipe, new_pipe, capacity, Event, client_sends, client_receives, client_ends, server_sends,
  server_receives, server_ends, returns, Step, client_send, client_recv, client_end, client_fail,
  close_send, server_send, server_recv, server_end, server_fail, return, cancel, Run, stop, go,
}

module _ {A B : Type 0} where
  unfoldable pub requests : List (Event A B) → List A
  requests [] = []
  requests (client_sends a ∷ es) = a ∷ requests es
  requests (_ ∷ es) = requests es

  unfoldable pub taken : List (Event A B) → List A
  taken [] = []
  taken (server_receives a ∷ es) = a ∷ taken es
  taken (_ ∷ es) = taken es

  unfoldable pub answers : List (Event A B) → List B
  answers [] = []
  answers (server_sends b ∷ es) = b ∷ answers es
  answers (_ ∷ es) = answers es

  unfoldable pub read : List (Event A B) → List B
  read [] = []
  read (client_receives b ∷ es) = b ∷ read es
  read (_ ∷ es) = read es

  -- One step, and what stands before it in a run.
  record Moves (p : Pipe A B) (e : Event A B) (q : Pipe A B) : Type 0 where
    reqs :
        (es : List (Event A B)) (xs : List A)
        → q.reqs ++ requests es ≡ taken es ++ xs
        → p.reqs ++ requests (e ∷ es) ≡ taken (e ∷ es) ++ xs
    resps :
        (es : List (Event A B)) (ys : List B)
        → q.resps ++ answers es ≡ read es ++ ys
        → p.resps ++ answers (e ∷ es) ≡ read (e ∷ es) ++ ys
    room :
        (length p.reqs ≤ capacity) × (length p.resps ≤ capacity)
        → (length q.reqs ≤ capacity) × (length q.resps ≤ capacity)

  Step-Moves : (p q : Pipe A B) (e : Event A B) → Step p e q → Moves p e q
  unfolding requests taken answers read
  Step-Moves p q e (client_send _ a live small) = record {
    reqs = λ es xs h. sym (append_assoc p.reqs (a ∷ []) (requests es)) ∙ h;
    resps = λ es ys h. h;
    room = λ h. (omega (arith, length-append p.reqs (a ∷ [])), h.1);
  }
  Step-Moves p q e (client_recv _ b bs has) = record {
    reqs = λ es xs h. h;
    resps = λ es ys h. ap (λ t. t ++ answers es) has ∙ ap (◌∷◌ b) h;
    room = λ h. (h.0, omega (arith, ap (λ (t : List B). length t) has, h.1));
  }
  Step-Moves p q e (server_send _ b live small) = record {
    reqs = λ es xs h. h;
    resps = λ es ys h. sym (append_assoc p.resps (b ∷ []) (answers es)) ∙ h;
    room = λ h. (h.0, omega (arith, length-append p.resps (b ∷ [])));
  }
  Step-Moves p q e (server_recv _ a rest has) = record {
    reqs = λ es xs h. ap (λ t. t ++ requests es) has ∙ ap (◌∷◌ a) h;
    resps = λ es ys h. h;
    room = λ h. (omega (arith, ap (λ (t : List A). length t) has, h.0), h.1);
  }
  Step-Moves p q e (client_end _ _ _) = record {
    reqs = λ es xs h. h;
    resps = λ es ys h. h;
    room = λ h. h;
  }
  Step-Moves p q e (client_fail _ _) = record {
    reqs = λ es xs h. h;
    resps = λ es ys h. h;
    room = λ h. h;
  }
  Step-Moves p q e (close_send _) = record {
    reqs = λ es xs h. h;
    resps = λ es ys h. h;
    room = λ h. h;
  }
  Step-Moves p q e (server_end _ _ _) = record {
    reqs = λ es xs h. h;
    resps = λ es ys h. h;
    room = λ h. h;
  }
  Step-Moves p q e (server_fail _ _) = record {
    reqs = λ es xs h. h;
    resps = λ es ys h. h;
    room = λ h. h;
  }
  Step-Moves p q e (return _ _ _) = record {
    reqs = λ es xs h. h;
    resps = λ es ys h. h;
    room = λ h. h;
  }
  Step-Moves p q e (cancel _) = record { reqs = λ es xs h. h; resps = λ es ys h. h; room = λ h. h }

  Run-order :
      (p q : Pipe A B) (es : List (Event A B))
      → Run p es q
      → (p.reqs ++ requests es ≡ taken es ++ q.reqs) × (p.resps ++ answers es ≡ read es ++ q.resps)
  unfolding requests taken answers read
  Run-order p q [] (stop _) = (append-nil p.reqs, append-nil p.resps)
  Run-order p q (e ∷ es) (go {q = m} s rest) =
      let moves = Step-Moves p m e s in
      let (a, b) = Run-order m q es rest in (moves.reqs es q.reqs a, moves.resps es q.resps b)

  Run-room :
      (p q : Pipe A B) (es : List (Event A B))
      → Run p es q
      → (length p.reqs ≤ capacity) × (length p.resps ≤ capacity)
      → (length q.reqs ≤ capacity) × (length q.resps ≤ capacity)
  Run-room p q [] (stop _) h = h
  Run-room p q (e ∷ es) (go {q = m} s rest) h = Run-room m q es rest ((Step-Moves p m e s).room h)

  -- In every run of a new pipe, however the calls interleave and whenever it is cancelled, what the
  -- client sent is what the server received and what is in the channel, in this order, and so for
  -- the answers; and no channel holds more than its capacity.
  pub Run-new_pipe :
      (q : Pipe A B) (es : List (Event A B))
      → Run new_pipe es q
      → (requests es ≡ taken es ++ q.reqs)
        × (answers es ≡ read es ++ q.resps)
        × (length q.reqs ≤ capacity)
        × (length q.resps ≤ capacity)
  Run-new_pipe q es run =
      let (a, b) = Run-order new_pipe q es run in
      let (m, n) = Run-room new_pipe q es run (omega arith, omega arith) in (a, b, m, n)

  server_ends-empty :
      (q q' : Pipe A B) (e : Event A B) → Step q e q' → e ≡ server_ends → q.reqs ≡ []
  server_ends-empty q q' e (server_end _ empty _) h = empty
  server_ends-empty q q' e _ h = cc

  -- The errors that the handler returned with, one for each time.
  unfoldable pub returned : List (Event A B) → List (Option Str)
  returned [] = []
  returned (returns e ∷ es) = e ∷ returned es
  returned (_ ∷ es) = returned es

  -- What a pipe keeps of the handler's return, behind these events.
  record Keeps (p : Pipe A B) (es : List (Event A B)) (q : Pipe A B) : Type 0 where
    late : p.done ≡ true → (q.done ≡ true) × (q.err ≡ p.err) × (returned es ≡ [])
    early :
        p.done ≡ false
        → ((q.done ≡ false) × (returned es ≡ [])) ⊎ ((q.done ≡ true) × (returned es ≡ q.err ∷ []))

  Step-Keeps :
      (p m q : Pipe A B) (e : Event A B) (es : List (Event A B))
      → Step p e m
      → Keeps m es q
      → Keeps p (e ∷ es) q
  unfolding returned
  Step-Keeps p m q e es (client_send _ _ _ _) k = record { late = k.late; early = k.early }
  Step-Keeps p m q e es (client_recv _ _ _ _) k = record { late = k.late; early = k.early }
  Step-Keeps p m q e es (client_end _ _ _) k = record { late = k.late; early = k.early }
  Step-Keeps p m q e es (client_fail _ _) k = record { late = k.late; early = k.early }
  Step-Keeps p m q e es (close_send _) k = record { late = k.late; early = k.early }
  Step-Keeps p m q e es (server_send _ _ _ _) k = record { late = k.late; early = k.early }
  Step-Keeps p m q e es (server_recv _ _ _ _) k = record { late = k.late; early = k.early }
  Step-Keeps p m q e es (server_end _ _ _) k = record { late = k.late; early = k.early }
  Step-Keeps p m q e es (server_fail _ _) k = record { late = k.late; early = k.early }
  Step-Keeps p m q e es (cancel _) k = record { late = k.late; early = k.early }
  Step-Keeps p m q e es (return _ why live) k =
      let (done, same_one, none_left) = k.late refl in
      record {
        late = λ h. cc (h, live);
        early = λ h. inr (done, ap (◌∷◌ why) none_left ∙ ap (λ w. w ∷ []) (sym same_one));
      }

  Run-Keeps : (p q : Pipe A B) (es : List (Event A B)) → Run p es q → Keeps p es q
  unfolding returned
  Run-Keeps p q [] (stop _) = record { late = λ h. (h, refl, refl); early = λ h. inl (h, refl) }
  Run-Keeps p q (e ∷ es) (go {q = m} s rest) = Step-Keeps p m q e es s (Run-Keeps m q es rest)

  client_ends-empty :
      (q q' : Pipe A B) (e : Event A B) (why : Option Str)
      → Step q e q'
      → e ≡ client_ends why
      → (q.resps ≡ []) × (q.err ≡ why) × (q.done ≡ true)
  client_ends-empty q q' e why (client_end _ empty over) h = (empty, cc, over)
  client_ends-empty q q' e why _ h = cc

  -- When the server is told of the end of the requests, it has received every one that was sent.
  Run-server_ends :
      (q q' : Pipe A B) (es : List (Event A B))
      → Run new_pipe es q
      → Step q server_ends q'
      → taken es ≡ requests es
  Run-server_ends q q' es run s =
      let (a, _, _, _) = Run-new_pipe q es run in
      sym (
        a
        ∙ ap (λ t. taken es ++ t) (server_ends-empty q q' server_ends s refl)
        ∙ append-nil (taken es))

  -- When the client is told of the end of the answers, it has received every one that was sent, and
  -- the handler has returned exactly once, with the error, or with none, that the client is told.
  pub Run-client_ends :
      (q q' : Pipe A B) (es : List (Event A B)) (why : Option Str)
      → Run new_pipe es q
      → Step q (client_ends why) q'
      → (read es ≡ answers es) × (returned es ≡ why ∷ [])
  Run-client_ends q q' es why run s =
      let (_, b, _, _) = Run-new_pipe q es run in
      let (empty, told, over) = client_ends-empty q q' (client_ends why) why s refl in
      let once : returned es ≡ q.err ∷ [] = elim ((Run-Keeps new_pipe q es run).early refl) [
        | inl (live, _) ↦ cc (live, over)
        | inr (_, e) ↦ e
      ] in
      (sym (b ∙ ap (λ t. read es ++ t) empty ∙ append-nil (read es)), once ∙ ap (λ w. w ∷ []) told)
