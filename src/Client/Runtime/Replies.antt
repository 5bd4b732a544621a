-- ===== src/Client/Runtime/Replies.antt =====
-- crates/client/client-core/src/session.rs: who waits for a reply, and who got one.
pub mod Inbound
pub mod Runs
use cli_pocket.Prelude.{
  ℕ, ◌+◌, ◌<◌, ◌≡◌, refl, sym, ◌∙◌, ap, Bool, true, false, Option, none, some, Result, ok, err,
  ◌==◌, if◌then◌else◌, Bool-cases, Option-cases, inl, inr, ◌⊎◌, arith, subst, ==_iff,
}
use cli_pocket.Prelude.Dict.{
  Dict, lookup, insert, remove, contains_key, lookup-insert, lookup-remove,
}
use cli_pocket.Client.Errors.{ClientError}
use cli_pocket.Client.Runtime.{RuntimeState, RequestTxn, Answer, answer, fail_txn}

abbrev pub reply_of : RequestTxn → Option ℕ
reply_of (RequestTxn.open_terminal _ reply) = some reply
reply_of (RequestTxn.read_history _ reply) = some reply
reply_of (RequestTxn.create_terminal reply) = some reply
reply_of (RequestTxn.list_terminals reply) = some reply
reply_of (RequestTxn.get_config reply) = some reply
reply_of (RequestTxn.set_config reply) = some reply
reply_of RequestTxn.send_input_ack = none
reply_of RequestTxn.resize_ack = none
reply_of (RequestTxn.kill_terminal reply) = reply

-- A pending request will answer the reply.
abbrev pub IsOwed : RuntimeState → ℕ → Type 0
IsOwed s reply =
    (id : ℕ) × (txn : RequestTxn) × (lookup id s.pending_requests ≡ some txn)
    × (reply_of txn ≡ some reply)

abbrev pub IsAnswered : RuntimeState → ℕ → Type 0
IsAnswered s reply = contains_key reply s.answers ≡ true

abbrev pub AnswersStand : RuntimeState → RuntimeState → Type 0
AnswersStand s t =
    (reply : ℕ) (value : Answer)
    → lookup reply s.answers ≡ some value
    → lookup reply t.answers ≡ some value

-- An answer stands, and who is owed one gets it or is owed it still.
pub record IsCarried (s t : RuntimeState) : Type 0 where
  pub kept : AnswersStand s t
  pub owed : (reply : ℕ) → IsOwed s reply → IsOwed t reply ⊎ IsAnswered t reply

-- Besides, no request is new.
pub record IsHandled (s t : RuntimeState) : Type 0 where
  pub carried : IsCarried s t
  pub fewer :
      (id : ℕ) (txn : RequestTxn)
      → lookup id t.pending_requests ≡ some txn
      → lookup id s.pending_requests ≡ some txn
  pub counter : t.next_request_id ≡ s.next_request_id

-- Every pending request has a number that was given out.
abbrev pub IsNumbered : RuntimeState → Type 0
IsNumbered s =
    (id : ℕ) (txn : RequestTxn) → lookup id s.pending_requests ≡ some txn → id < s.next_request_id

contains : {V : Type 0} (k : ℕ) (v : V) (m : Dict V) → lookup k m ≡ some v → contains_key k m ≡ true
contains k v m e = ground arith

contained :
    {V : Type 0} (k : ℕ) (m : Dict V) → contains_key k m ≡ true → (v : V) × (lookup k m ≡ some v)
contained k m e = elim (Option-cases (lookup k m)) [
  | inl absent ↦ ground arith
  | inr (v, there) ↦ (v, there)
]

pub IsAnswered-kept :
    (s t : RuntimeState) (reply : ℕ) → AnswersStand s t → IsAnswered s reply → IsAnswered t reply
IsAnswered-kept s t reply c a =
    let (v, there) = contained reply s.answers a in contains reply v t.answers (c reply v there)

pub IsCarried-self : (s : RuntimeState) → IsCarried s s
IsCarried-self s = record { kept = λ reply value e. e; owed = λ reply o. inl o }

pub IsCarried-trans : {s t u : RuntimeState} → IsCarried s t → IsCarried t u → IsCarried s u
IsCarried-trans {s} {t} {u} c d = record {
  kept = λ reply value e. d.kept reply value (c.kept reply value e);
  owed = λ reply o. elim (c.owed reply o) [
    | inl still ↦ d.owed reply still
    | inr a ↦ inr (IsAnswered-kept t u reply d.kept a)
  ];
}

pub kept-answer :
    (reply : ℕ) (value : Answer) (s : RuntimeState) → AnswersStand s (answer reply value s)
unfolding answer
kept-answer reply value s other v e = ground (arith, lookup-insert reply other value s.answers)

pub answer-IsAnswered :
    (reply : ℕ) (value : Answer) (s : RuntimeState) → IsAnswered (answer reply value s) reply
unfolding answer
answer-IsAnswered reply value s = ground (arith, lookup-insert reply reply value s.answers)

pub pending-answer :
    (reply : ℕ) (value : Answer) (s : RuntimeState)
    → (answer reply value s).pending_requests ≡ s.pending_requests
unfolding answer
pending-answer reply value s = ground arith

pub counter-answer :
    (reply : ℕ) (value : Answer) (s : RuntimeState)
    → (answer reply value s).next_request_id ≡ s.next_request_id
unfolding answer
counter-answer reply value s = ground arith

-- `t` is `s` without the request `id`, as far as the replies go.
pub record IsWithout (id : ℕ) (s t : RuntimeState) : Type 0 where
  pub pending : t.pending_requests ≡ remove id s.pending_requests
  pub answers : t.answers ≡ s.answers
  pub counter : t.next_request_id ≡ s.next_request_id

module _ (id : ℕ) (s t : RuntimeState) (w : IsWithout id s t) (txn : RequestTxn)
    (found : lookup id s.pending_requests ≡ some txn) where
  still_pending :
      (other : ℕ) (x : RequestTxn)
      → lookup other s.pending_requests ≡ some x
      → (id == other) ≡ false
      → lookup other t.pending_requests ≡ some x
  still_pending other x e ne = rw (w.pending, lookup-remove id other s.pending_requests, ne) e

  was_pending :
      (other : ℕ) (x : RequestTxn)
      → lookup other t.pending_requests ≡ some x
      → lookup other s.pending_requests ≡ some x
  was_pending other x e = ground (arith, w.pending, lookup-remove id other s.pending_requests)

  -- Who is owed an answer by the request that was taken out.
  same_reply :
      (o : ℕ) (x : RequestTxn) (reply other : ℕ)
      → (id == o) ≡ true
      → lookup o s.pending_requests ≡ some x
      → reply_of txn ≡ some reply
      → reply_of x ≡ some other
      → reply ≡ other
  same_reply o x reply other same e r q =
      let i : id ≡ o = (==_iff id o).0 same in
      let y : some txn ≡ some x = sym found ∙ ap (λ k. lookup k s.pending_requests) i ∙ e in cc

  pub resolved :
      (reply : ℕ) (value : Answer) → reply_of txn ≡ some reply → IsHandled s (answer reply value t)
  resolved reply value r = record {
    carried = record {
      kept = λ other v e. kept-answer reply value t other v (rw w.answers e);
      owed = λ other o. elim (Bool-cases (id == o.0)) [
        | inl same ↦ inr (
            subst (IsAnswered (answer reply value t))
              (same_reply o.0 o.1 reply other same o.2 r o.3) (answer-IsAnswered reply value t))
        | inr ne ↦
            inl (o.0, o.1, rw (pending-answer reply value t) (still_pending o.0 o.1 o.2 ne), o.3)
      ];
    };
    fewer = λ other x e. was_pending other x (rw (← pending-answer reply value t) e);
    counter = counter-answer reply value t ∙ w.counter;
  }

  no_reply :
      (o : ℕ) (x : RequestTxn) (other : ℕ)
      → (id == o) ≡ true
      → lookup o s.pending_requests ≡ some x
      → reply_of txn ≡ none
      → reply_of x ≡ some other
      → ⊥
  no_reply o x other same e r q =
      let i : id ≡ o = (==_iff id o).0 same in
      let y : some txn ≡ some x = sym found ∙ ap (λ k. lookup k s.pending_requests) i ∙ e in cc

  pub silent : reply_of txn ≡ none → IsHandled s t
  silent r = record {
    carried = record {
      kept = λ other v e. rw w.answers e;
      owed = λ other o. elim (Bool-cases (id == o.0)) [
        | inl same ↦ absurd (no_reply o.0 o.1 other same o.2 r o.3)
        | inr ne ↦ inl (o.0, o.1, still_pending o.0 o.1 o.2 ne, o.3)
      ];
    };
    fewer = was_pending;
    counter = w.counter;
  }

-- Failing the request that was taken out.
pub failed_txn :
    (id : ℕ) (s t : RuntimeState) (e : ClientError) (txn : RequestTxn)
    → IsWithout id s t
    → lookup id s.pending_requests ≡ some txn
    → IsHandled s (fail_txn e txn t)
unfolding fail_txn
failed_txn id s t e (RequestTxn.open_terminal terminal reply) w found =
    resolved id s t w (RequestTxn.open_terminal terminal reply) found reply (err e) refl
failed_txn id s t e (RequestTxn.read_history terminal reply) w found =
    resolved id s t w (RequestTxn.read_history terminal reply) found reply (err e) refl
failed_txn id s t e (RequestTxn.create_terminal reply) w found =
    resolved id s t w (RequestTxn.create_terminal reply) found reply (err e) refl
failed_txn id s t e (RequestTxn.list_terminals reply) w found =
    resolved id s t w (RequestTxn.list_terminals reply) found reply (err e) refl
failed_txn id s t e (RequestTxn.get_config reply) w found =
    resolved id s t w (RequestTxn.get_config reply) found reply (err e) refl
failed_txn id s t e (RequestTxn.set_config reply) w found =
    resolved id s t w (RequestTxn.set_config reply) found reply (err e) refl
failed_txn id s t e (RequestTxn.kill_terminal (some reply)) w found =
    resolved id s t w (RequestTxn.kill_terminal (some reply)) found reply (err e) refl
failed_txn id s t e RequestTxn.send_input_ack w found =
    silent id s t w RequestTxn.send_input_ack found refl
failed_txn id s t e RequestTxn.resize_ack w found = silent id s t w RequestTxn.resize_ack found refl
failed_txn id s t e (RequestTxn.kill_terminal none) w found =
    silent id s t w (RequestTxn.kill_terminal none) found refl
