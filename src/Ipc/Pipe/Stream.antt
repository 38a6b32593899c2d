-- ===== src/Ipc/Pipe/Stream.antt =====
-- kernel/src/ipc/pipe.rs: the sections of any number of senders and receivers, in any order.
use mathlib.Core.Option.{some-injective}
use alaphi_os.Base.{
  ltb, ℕ, ◌-◌, ◌≤◌, ◌<◌, ◌≡◌, ◌∙◌, sym, ap, refl, Bool, true, false, some, [], ◌∷◌, ◌++◌, ◌==◌, min,
  length, take, drop, if◌then◌else◌, arith, append-nil, append_assoc, take-append-drop,
  length-append, length-take, length-drop, Bool-cases, inl, inr, subst,
}
use alaphi_os.Base.Bytes.{Bytes}
use alaphi_os.Ipc.Channel.{closed, Outcome, returns, fails, waits}
use alaphi_os.Ipc.Pipe.{Pipe, pipe_buf, send, recv, close}
use alaphi_os.Ipc.Pipe.Sections.{sent, sent_closed, send-sent, sent_all, sent_some}

-- The bytes that a section of `send` has taken from the caller.
unfoldable pub taken : Bytes → Outcome (Unit {0}) Bytes → Bytes
taken bytes (returns r) = bytes
taken bytes (fails e) = []
taken bytes (waits rest) = take (length bytes - length rest) bytes

-- The bytes that a section of `recv` hands out.
unfoldable pub given : Outcome Bytes ℕ → Bytes
given (returns got) = got
given (fails e) = []
given (waits n) = []

-- Sections one after another, with the bytes that went in and those that came out.
pub data Sections (p : Pipe) : Bytes → Bytes → Pipe → Type 0 where
  begins : Sections p [] [] p
  sends :
      (i o bytes : Bytes) (q r : Pipe) (out : Outcome (Unit {0}) Bytes)
      → Sections p i o q
      → send bytes q ≡ some (r, out)
      → Sections p (i ++ taken bytes out) o r
  receives :
      (i o : Bytes) (n : ℕ) (q : Pipe)
      → Sections p i o q
      → Sections p i (o ++ given (recv n q).1) (recv n q).0
  closes : (i o : Bytes) (q : Pipe) → Sections p i o q → Sections p i o (close q)

-- A section of `send` adds what it takes, stays in the bound and never opens the pipe again.
pub record Adds (p q : Pipe) (new : Bytes) : Type 0 where
  pub added : q.buf ≡ p.buf ++ new
  pub bound : length p.buf ≤ pipe_buf → length q.buf ≤ pipe_buf
  pub same : q.is_closed ≡ p.is_closed
  pub refused : p.is_closed ≡ true → new ≡ []

Adds-nothing : (p : Pipe) → Adds p (sent [] p).0 (taken [] (sent [] p).1)
unfolding sent taken
Adds-nothing p = record {
  added = sym (append-nil p.buf);
  bound = λ h. h;
  same = refl;
  refused = λ h. refl;
}

Adds-refused : (p : Pipe) (bytes : Bytes) → Adds p p (taken bytes (fails closed))
unfolding taken
Adds-refused p bytes = record {
  added = sym (append-nil p.buf);
  bound = λ h. h;
  same = refl;
  refused = λ h. refl;
}

Adds-whole :
    (p : Pipe) (bytes : Bytes)
    → p.is_closed ≡ false
    → length bytes ≤ pipe_buf - length p.buf
    → Adds p (record p { buf = p.buf ++ bytes }) (taken bytes (returns tt))
unfolding taken
Adds-whole p bytes opened fits = record {
  added = refl;
  bound = λ h. omega (arith, length-append p.buf bytes);
  same = refl;
  refused = λ h. ground arith;
}

Adds-part :
    (p : Pipe) (bytes : Bytes)
    → p.is_closed ≡ false
    → pipe_buf - length p.buf < length bytes
    → Adds p
        (record p { buf = p.buf ++ take (pipe_buf - length p.buf) bytes })
        (taken bytes (waits (drop (pipe_buf - length p.buf) bytes)))
unfolding taken
Adds-part p bytes opened short =
    let room = pipe_buf - length p.buf in
    let count : length bytes - length (drop room bytes) ≡ room =
      omega (arith, length-drop room bytes) in
    record {
      added = ap (λ n. p.buf ++ take n bytes) (sym count);
      bound = λ h. omega (arith, length-append p.buf (take room bytes), length-take room bytes);
      same = refl;
      refused = λ h. ground arith;
    }

Adds-sent : (bytes : Bytes) (p : Pipe) → Adds p (sent bytes p).0 (taken bytes (sent bytes p).1)
Adds-sent [] p = Adds-nothing p
Adds-sent (b ∷ rest) p =
    let goal : Pipe × Outcome (Unit {0}) Bytes → Type 0 = λ x. Adds p x.0 (taken (b ∷ rest) x.1) in
    elim (Bool-cases p.is_closed) [
      | inl e ↦ subst goal (sym (sent_closed b rest p e)) (Adds-refused p (b ∷ rest))
      | inr e ↦ elim (Bool-cases (ltb (pipe_buf - length p.buf) (length (b ∷ rest)))) [
        | inl short ↦
            subst goal (sym (sent_some b rest p e short)) (Adds-part p (b ∷ rest) e ground arith)
        | inr fits ↦
            subst goal (sym (sent_all b rest p e fits)) (Adds-whole p (b ∷ rest) e ground arith)
      ]
    ]

recv-empty :
    (n : ℕ) (p : Pipe) (b : Bool)
    → p.is_closed ≡ b
    → (length p.buf == 0) ≡ true
    → recv n p ≡ (if b then (p, returns []) else (p, waits n))
unfolding recv
recv-empty n p b c e = simp (e, c) refl

recv-some :
    (n : ℕ) (p : Pipe)
    → (length p.buf == 0) ≡ false
    → recv n p ≡ (
      record p { buf = drop (min n (length p.buf)) p.buf },
      returns (take (min n (length p.buf)) p.buf),
    )
unfolding recv
recv-some n p e = simp e refl

-- A section of `recv` hands out the front of the buffer.
abbrev Takes : Pipe → Pipe × Outcome Bytes ℕ → Type 0
Takes p x =
    (p.buf ≡ given x.1 ++ x.0.buf) × (length x.0.buf ≤ length p.buf) × (x.0.is_closed ≡ p.is_closed)

Takes-nothing :
    (n : ℕ) (p : Pipe) (b : Bool) → Takes p (if b then (p, returns []) else (p, waits n))
unfolding given
Takes-nothing n p true = (refl, omega arith, refl)
Takes-nothing n p false = (refl, omega arith, refl)

Takes-some : (n : ℕ) (p : Pipe) → Takes p (record p { buf = drop n p.buf }, returns (take n p.buf))
unfolding given
Takes-some n p = (sym (take-append-drop n p.buf), omega (arith, length-drop n p.buf), refl)

recv-Takes : (n : ℕ) (p : Pipe) → Takes p (recv n p)
recv-Takes n p = elim (Bool-cases (length p.buf == 0)) [
  | inl e ↦
      subst (Takes p) (sym (recv-empty n p p.is_closed refl e)) (Takes-nothing n p p.is_closed)
  | inr e ↦ subst (Takes p) (sym (recv-some n p e)) (Takes-some (min n (length p.buf)) p)
]

send-Adds :
    (bytes : Bytes) (p q : Pipe) (out : Outcome (Unit {0}) Bytes)
    → send bytes p ≡ some (q, out)
    → Adds p q (taken bytes out)
send-Adds bytes p q out e =
    let same : sent bytes p ≡ (q, out) = some-injective _ _ (sym (send-sent bytes p) ∙ e) in
    subst (λ x. Adds p x.0 (taken bytes x.1)) same (Adds-sent bytes p)

-- Whatever senders and receivers interleave on a pipe, their sections neither lose nor duplicate nor
-- reorder a byte: the bytes that came out, followed by those in the buffer, are those that were in
-- the buffer followed by those that went in. The buffer stays within 4096 bytes.
pub Sections-fifo :
    (p q : Pipe) (i o : Bytes)
    → length p.buf ≤ pipe_buf
    → Sections p i o q
    → (p.buf ++ i ≡ o ++ q.buf) × (length q.buf ≤ pipe_buf)
unfolding close
Sections-fifo p _ _ _ h begins = (append-nil p.buf, h)
Sections-fifo p _ _ _ h (sends i o bytes q r out s e) =
    let (now, bound) = Sections-fifo p q i o h s in
    let adds = send-Adds bytes q r out e in
    (
      sym (append_assoc p.buf i (taken bytes out))
          ∙ ap (λ t. t ++ taken bytes out) now
          ∙ append_assoc o q.buf (taken bytes out)
          ∙ ap (λ t. o ++ t) (sym adds.added),
      adds.bound bound,
    )
Sections-fifo p _ _ _ h (receives i o n q s) =
    let (now, bound) = Sections-fifo p q i o h s in
    let (front, shorter, same) = recv-Takes n q in
    (
      now ∙ ap (λ t. o ++ t) front ∙ sym (append_assoc o (given (recv n q).1) (recv n q).0.buf),
      omega arith,
    )
Sections-fifo p _ _ _ h (closes i o q s) = Sections-fifo p q i o h s

-- On a pipe that is closed, no section adds a byte, and it stays closed.
pub Sections-closed :
    (p q : Pipe) (i o : Bytes)
    → p.is_closed ≡ true
    → Sections p i o q
    → (i ≡ []) × (q.is_closed ≡ true)
unfolding close
Sections-closed p _ _ _ h begins = (refl, h)
Sections-closed p _ _ _ h (sends i o bytes q r out s e) =
    let (none_in, shut) = Sections-closed p q i o h s in
    let adds = send-Adds bytes q r out e in (rw (none_in, adds.refused shut) refl, adds.same ∙ shut)
Sections-closed p _ _ _ h (receives i o n q s) =
    let (none_in, shut) = Sections-closed p q i o h s in
    let (front, shorter, same) = recv-Takes n q in (none_in, same ∙ shut)
Sections-closed p _ _ _ h (closes i o q s) = ((Sections-closed p q i o h s).0, refl)
