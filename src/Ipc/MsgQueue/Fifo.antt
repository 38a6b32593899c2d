-- ===== src/Ipc/MsgQueue/Fifo.antt =====
-- kernel/src/ipc/msg_queue.rs: messages keep their size, their number its bound, and a payload arrives
-- as it was sent.
use alaphi_os.Base.{
  ltb, ℕ, ◌-◌, ◌≤◌, ◌<◌, ◌≡◌, sym, ap, refl, true, false, List, [], ◌∷◌, ◌++◌, min, length, take,
  replicate, arith, length-append, length-replicate, take_left, Bool-cases, inl, inr, All,
  All-append, subst,
}
use alaphi_os.Base.Bytes.{Bytes}
use alaphi_os.Ipc.Channel.{returns}
use alaphi_os.Ipc.MsgQueue.{MsgQueue, msg_size, max_messages, padded, send, recv, recv_from, close}

-- Every message has the size of a message, and there are at most as many as fit.
pub record Valid (q : MsgQueue) : Type 0 where
  pub sizes : All (λ m. length m ≡ msg_size) q.queue
  pub fits : length q.queue ≤ max_messages

length-padded : (payload : Bytes) → length payload ≤ msg_size → length (padded payload) ≡ msg_size
unfolding padded
length-padded payload h = omega (
  arith,
  length-append payload (replicate (msg_size - length payload) 0),
  length-replicate {A = ℕ} (msg_size - length payload) 0,
)

-- A payload is the start of its message.
take-padded :
    (payload : Bytes)
    → length payload ≤ msg_size
    → take (min (length payload) msg_size) (padded payload) ≡ payload
unfolding padded
take-padded payload small =
    take_left payload (replicate (msg_size - length payload) 0) (min (length payload) msg_size)
      (omega arith)

send-accepted :
    (payload : Bytes) (q : MsgQueue)
    → length payload ≤ msg_size
    → q.is_closed ≡ false
    → length q.queue < max_messages
    → send payload q ≡ (record q { queue = q.queue ++ padded payload ∷ [] }, returns tt)
unfolding send
send-accepted payload q small opened room =
    let short : ltb msg_size (length payload) ≡ false = ground arith in
    let free : ltb (length q.queue) max_messages ≡ true = ground arith in
    simp (short, opened, free) refl

-- A payload of at most 256 bytes that is sent to an open queue without messages is what a `recv` of
-- that many bytes returns next, and the queue is then as it was.
pub send-recv_roundtrip :
    (payload : Bytes) (q : MsgQueue)
    → length payload ≤ msg_size
    → q.is_closed ≡ false
    → q.queue ≡ []
    → recv (length payload) (send payload q).0 ≡ (q, returns payload)
unfolding recv recv_from
send-recv_roundtrip payload q small opened empty =
    rw (send-accepted payload q small opened (rw empty (omega arith)), empty)
      (ap (λ t. (record q { queue = [] }, returns t)) (take-padded payload small))

send-refused :
    (payload : Bytes) (q : MsgQueue)
    → (length payload ≤ msg_size → q.is_closed ≡ false → max_messages ≤ length q.queue)
    → (send payload q).0 ≡ q
unfolding send
send-refused payload q h = ground arith

accepted_Valid :
    (payload : Bytes) (q : MsgQueue)
    → length payload ≤ msg_size
    → length q.queue < max_messages
    → Valid q
    → Valid (record q { queue = q.queue ++ padded payload ∷ [] })
accepted_Valid payload q small room v = record {
  sizes =
      All-append (λ m. length m ≡ msg_size) q.queue (padded payload ∷ []) v.sizes
        (length-padded payload small, tt);
  fits = omega (arith, length-append q.queue (padded payload ∷ []));
}

send-Valid_open :
    (payload : Bytes) (q : MsgQueue)
    → length payload ≤ msg_size
    → q.is_closed ≡ false
    → Valid q
    → Valid (send payload q).0
send-Valid_open payload q small opened v = elim (Bool-cases (ltb (length q.queue) max_messages)) [
  | inl e ↦
      let room : length q.queue < max_messages = ground arith in
      subst (λ x. Valid x.0) (sym (send-accepted payload q small opened room))
        (accepted_Valid payload q small room v)
  | inr e ↦
      let full : max_messages ≤ length q.queue = ground arith in
      subst Valid (sym (send-refused payload q (λ s o. full))) v
]

send-Valid : (payload : Bytes) (q : MsgQueue) → Valid q → Valid (send payload q).0
send-Valid payload q v = elim (Bool-cases (ltb msg_size (length payload))) [
  | inl e ↦
      let large : msg_size < length payload = ground arith in
      subst Valid (sym (send-refused payload q (λ small opened. absurd (omega arith)))) v
  | inr e ↦
      let small : length payload ≤ msg_size = ground arith in
      elim (Bool-cases q.is_closed) [
        | inl shut ↦
            subst Valid (sym (send-refused payload q (λ s opened. absurd (ground arith)))) v
        | inr opened ↦ send-Valid_open payload q small opened v
      ]
]

recv_from-nil : (n : ℕ) (q : MsgQueue) → (recv_from n [] q).0 ≡ q
unfolding recv_from
recv_from-nil n q = ground arith

recv_from-Valid :
    (n : ℕ) (messages : List Bytes) (q : MsgQueue)
    → q.queue ≡ messages
    → Valid q
    → Valid (recv_from n messages q).0
unfolding recv_from
recv_from-Valid n [] q e v = subst Valid (sym (recv_from-nil n q)) v
recv_from-Valid n (msg ∷ rest) q e v = record {
  sizes = (subst (All (λ m. length m ≡ msg_size)) e v.sizes).1;
  fits = omega (arith, v.fits, ap length e);
}

recv-Valid : (n : ℕ) (q : MsgQueue) → Valid q → Valid (recv n q).0
unfolding recv
recv-Valid n q v = recv_from-Valid n q.queue q refl v

-- Sending, receiving and closing, whatever they return, keep every message at 256 bytes and the
-- number of messages within 128.
pub calls-Valid :
    (payload : Bytes) (n : ℕ) (q : MsgQueue)
    → Valid q
    → Valid (send payload q).0 × Valid (recv n q).0 × Valid (close q)
unfolding close
calls-Valid payload n q v =
    (send-Valid payload q v, recv-Valid n q v, record { sizes = v.sizes; fits = v.fits })
