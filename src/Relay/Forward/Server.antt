-- ===== src/Relay/Forward/Server.antt =====
-- crates/relay/relay-core/src/forward.rs: what a server's task leaves behind.
use cli_pocket.Prelude.{ℕ, ◌≡◌, refl, List, ok, Result-cases, inl, inr, arith}
use cli_pocket.Prelude.Dict.{lookup, lookup-insert, lookup-remove}
use cli_pocket.Proto.Wire.{ServerId, server_register_ok}
use cli_pocket.Relay.Caps.{CapsInner, try_add_server, drop_server_ticket, checked_pred}
use cli_pocket.Relay.Registry.{
  Sender, ServerRegistry, ServerRegistration, ServerSlot, register, unregister, ctrl,
}
use cli_pocket.Relay.State.{Relay, Outside, M, ◌>>=◌, ◌>>◌, on_exit}
use cli_pocket.Relay.Pairs.{encode_ctrl_frame, send_server_msg}
use cli_pocket.Relay.Forward.Sockets.{Item, read_binary_frame}
use cli_pocket.Relay.Forward.{
  decode, expect_server_register, add_server_ticket, drop_server, register_server,
  drop_registration, server_read_loop, run_registered, run_server_side,
}
use cli_pocket.Relay.Forward.Quiet.{
  Quiet, Quiet-bind, Quiet-encode_ctrl_frame, Quiet-send_server_msg, Quiet-server_read_loop,
}

-- The registered servers and their count are as they were.
pub record LeavesNoTrace (s t : Relay) : Type 0 where
  pub servers : t.caps.servers ≡ s.caps.servers
  pub registered : (k : ServerId) → lookup k t.registry.servers ≡ lookup k s.registry.servers

unregister-register :
    (r : ServerRegistry) (slot : ServerSlot) {r' : ServerRegistry} {h : ServerRegistration}
    (k : ServerId)
    → register r slot ≡ ok (r', h)
    → lookup k (unregister r' h).0.servers ≡ lookup k r.servers
unfolding register unregister
unregister-register r slot {r'} {h} k e = ground (
  arith,
  lookup-insert slot.server_id slot.server_id
      (record { slot = slot; generation = r.next_generation }) r.servers,
  lookup-insert slot.server_id k (record { slot = slot; generation = r.next_generation }) r.servers,
  lookup-remove slot.server_id k r'.servers,
)

ticket_back :
    (c : CapsInner) {c' : CapsInner}
    → try_add_server c ≡ ok c'
    → checked_pred c'.servers ≡ c.servers
unfolding try_add_server
ticket_back c e = ground arith

module _ (env : Outside) where
  Quiet-serve :
      (server_id : ServerId) (tx : Sender) (rest : List (ℕ × Item))
      → Quiet (do
        frame ← encode_ctrl_frame env server_register_ok
        send_server_msg env tx (ctrl frame)
        server_read_loop env server_id tx rest)
  Quiet-serve server_id tx rest =
      Quiet-bind _ _ (Quiet-encode_ctrl_frame env server_register_ok) (λ frame.
        Quiet-bind _ _ (Quiet-send_server_msg env tx (ctrl frame))
          (λ _. Quiet-server_read_loop env server_id tx rest))

  abbrev serve : ServerId → Sender → List (ℕ × Item) → M (Unit {0})
  serve server_id tx rest = do
    registration ← register_server server_id tx
    on_exit (drop_registration registration) do
      frame ← encode_ctrl_frame env server_register_ok
      send_server_msg env tx (ctrl frame)
      server_read_loop env server_id tx rest

  serve-LeavesNoTrace :
      (server_id : ServerId) (tx : Sender) (rest : List (ℕ × Item)) (t : Relay)
      → LeavesNoTrace t (serve server_id tx rest t).1
  unfolding register_server on_exit drop_registration ◌>>=◌
  serve-LeavesNoTrace server_id tx rest t =
      elim (Result-cases (register t.registry (record { server_id = server_id; tx = tx }))) [
        | inr (x, e) ↦ rw e (record { servers = refl; registered = λ k. refl })
        | inl ((r, h), e) ↦
            let q = (Quiet-serve server_id tx rest).at (record t { registry = r }) in
            rw e (record {
              servers = q.servers;
              registered = λ k.
                  rw q.registry (
                    unregister-register t.registry (record { server_id = server_id; tx = tx }) k e);
            })
      ]

  run_registered-LeavesNoTrace :
      (server_id : ServerId) (tx : Sender) (rest : List (ℕ × Item)) (s : Relay)
      → LeavesNoTrace s (run_registered env server_id tx rest s).1
  unfolding run_registered add_server_ticket drop_server drop_server_ticket on_exit ◌>>=◌
  run_registered-LeavesNoTrace server_id tx rest s = elim (Result-cases (try_add_server s.caps)) [
    | inr (x, e) ↦ rw e (record { servers = refl; registered = λ k. refl })
    | inl (c, e) ↦
        let kept = serve-LeavesNoTrace server_id tx rest (record s { caps = c }) in
        rw e (record {
          servers = rw kept.servers (ticket_back s.caps e);
          registered = kept.registered;
        })
  ]

  -- Whatever a server sends and however its task ends, the count of servers and the registered
  -- servers are as they were before the connection.
  pub run_server_side-LeavesNoTrace :
      (tx : Sender) (stream : List (ℕ × Item)) (s : Relay)
      → LeavesNoTrace s (run_server_side env tx stream s).1
  unfolding run_server_side ◌>>=◌
  run_server_side-LeavesNoTrace tx stream s = elim (Result-cases (read_binary_frame stream)) [
    | inr (x, e) ↦ rw e (record { servers = refl; registered = λ k. refl })
    | inl ((first, rest), e) ↦ elim (Result-cases (decode env first)) [
      | inr (x, f) ↦ rw e (rw f (record { servers = refl; registered = λ k. refl }))
      | inl (wire, f) ↦ elim (Result-cases (expect_server_register env wire)) [
        | inr (x, g) ↦ rw e (rw f (rw g (record { servers = refl; registered = λ k. refl })))
        | inl (id, g) ↦ rw e (rw f (rw g (run_registered-LeavesNoTrace id tx rest s)))
      ]
    ]
  ]
