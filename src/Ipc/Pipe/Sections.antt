-- ===== src/Ipc/Pipe/Sections.antt =====
-- kernel/src/ipc/pipe.rs: what a section of `send` comes to.
use alaphi_os.Base.{
  ltb, ℕ, zero, suc, ◌-◌, ◌≤◌, ◌<◌, ◌≡◌, ◌∙◌, sym, ap, refl, true, false, some, [], ◌∷◌, ◌++◌, ◌==◌,
  min, length, take, drop, if◌then◌else◌, arith, append-nil, length-append, length-take,
  length-drop, Bool-cases, inl, inr,
}
use alaphi_os.Base.Bytes.{Bytes}
use alaphi_os.Ipc.Channel.{closed, Outcome, returns, fails, waits}
use alaphi_os.Ipc.Pipe.{Pipe, pipe_buf, send_loop, send}

-- What a section of `send` comes to: all of the data if there is room for it, else as much as there
-- is room for, and the call waits with what is left.
unfoldable pub sent : Bytes → Pipe → Pipe × Outcome (Unit {0}) Bytes
sent [] p = (p, returns tt)
sent (b ∷ rest) p =
    let room = pipe_buf - length p.buf in
    if p.is_closed
    then (p, fails closed)
    else (if ltb room (length (b ∷ rest))
        then (record p { buf = p.buf ++ take room (b ∷ rest) }, waits (drop room (b ∷ rest)))
        else (record p { buf = p.buf ++ b ∷ rest }, returns tt))

send_loop_closed :
    (b : ℕ) (rest : Bytes) (p : Pipe)
    → p.is_closed ≡ true
    → send_loop (suc (suc (length rest))) (b ∷ rest) p ≡ some (sent (b ∷ rest) p)
unfolding send_loop sent
send_loop_closed b rest p e = rw e refl

-- A full pipe.
send_loop_full :
    (n : ℕ) (rest : Bytes) (p : Pipe)
    → 0 < length rest
    → p.is_closed ≡ false
    → pipe_buf ≤ length p.buf
    → send_loop (suc n) rest p ≡ some (p, waits rest)
unfolding send_loop
send_loop_full n [] p nonempty opened full = absurd (omega arith)
send_loop_full n (b ∷ rest) p nonempty opened full =
    let none_left : pipe_buf - length p.buf ≡ 0 = omega arith in rw (opened, none_left) refl

send_loop_done :
    (n : ℕ) (rest : Bytes) (p : Pipe)
    → length rest ≡ 0
    → send_loop (suc n) rest p ≡ some (p, returns tt)
unfolding send_loop
send_loop_done n [] p e = refl
send_loop_done n (b ∷ rest) p e = absurd (omega arith)

-- A round with room writes what fits.
send_loop_round :
    (n k : ℕ) (b : ℕ) (rest : Bytes) (p : Pipe)
    → p.is_closed ≡ false
    → 0 < pipe_buf - length p.buf
    → min (length (b ∷ rest)) (pipe_buf - length p.buf) ≡ k
    → send_loop (suc n) (b ∷ rest) p
      ≡ send_loop n (drop k (b ∷ rest)) (record p { buf = p.buf ++ take k (b ∷ rest) })
unfolding send_loop
send_loop_round n k b rest p opened room e =
    let some_left : (pipe_buf - length p.buf == 0) ≡ false = ground arith in
    rw (opened, some_left, e) refl

take_all : (n : ℕ) (xs : Bytes) → length xs ≤ n → take n xs ≡ xs
take_all zero [] h = refl
take_all (suc n) [] h = refl
take_all zero (x ∷ xs) h = absurd (omega arith)
take_all (suc n) (x ∷ xs) h = ap (λ t. x ∷ t) (take_all n xs (omega arith))

-- All of the data fits.
send_loop_all :
    (n : ℕ) (b : ℕ) (rest : Bytes) (p : Pipe)
    → p.is_closed ≡ false
    → length (b ∷ rest) ≤ pipe_buf - length p.buf
    → send_loop (suc (suc n)) (b ∷ rest) p ≡ some (record p { buf = p.buf ++ b ∷ rest }, returns tt)
send_loop_all n b rest p opened fits =
    let k = length (b ∷ rest) in
    let whole = take_all k (b ∷ rest) (omega arith) in
    send_loop_round (suc n) k b rest p opened (omega arith) (omega arith)
    ∙ send_loop_done n (drop k (b ∷ rest)) (record p { buf = p.buf ++ take k (b ∷ rest) })
        (omega (arith, length-drop k (b ∷ rest)))
    ∙ ap (λ t. some (record p { buf = p.buf ++ t }, returns tt)) whole

-- Only some of it fits.
send_loop-some :
    (n : ℕ) (b : ℕ) (rest : Bytes) (p : Pipe)
    → p.is_closed ≡ false
    → 0 < pipe_buf - length p.buf
    → pipe_buf - length p.buf < length (b ∷ rest)
    → send_loop (suc (suc n)) (b ∷ rest) p
      ≡ some (
        record p { buf = p.buf ++ take (pipe_buf - length p.buf) (b ∷ rest) },
        waits (drop (pipe_buf - length p.buf) (b ∷ rest)),
      )
send_loop-some n b rest p opened room short =
    let k = pipe_buf - length p.buf in
    let p' = record p { buf = p.buf ++ take k (b ∷ rest) } in
    send_loop_round (suc n) k b rest p opened room (omega arith)
    ∙ send_loop_full n (drop k (b ∷ rest)) p' (omega (arith, length-drop k (b ∷ rest))) opened
        (omega (arith, length-append p.buf (take k (b ∷ rest)), length-take k (b ∷ rest)))

pub sent_closed :
    (b : ℕ) (rest : Bytes) (p : Pipe) → p.is_closed ≡ true → sent (b ∷ rest) p ≡ (p, fails closed)
unfolding sent
sent_closed b rest p e = simp e refl

pub sent_all :
    (b : ℕ) (rest : Bytes) (p : Pipe)
    → p.is_closed ≡ false
    → ltb (pipe_buf - length p.buf) (length (b ∷ rest)) ≡ false
    → sent (b ∷ rest) p ≡ (record p { buf = p.buf ++ b ∷ rest }, returns tt)
unfolding sent
sent_all b rest p opened e = simp (opened, e) refl

pub sent_some :
    (b : ℕ) (rest : Bytes) (p : Pipe)
    → p.is_closed ≡ false
    → ltb (pipe_buf - length p.buf) (length (b ∷ rest)) ≡ true
    → sent (b ∷ rest) p ≡ (
      record p { buf = p.buf ++ take (pipe_buf - length p.buf) (b ∷ rest) },
      waits (drop (pipe_buf - length p.buf) (b ∷ rest)),
    )
unfolding sent
sent_some b rest p opened e = simp (opened, e) refl

-- No room: nothing is written.
nothing_fits :
    (b : ℕ) (rest : Bytes) (p : Pipe) (k : ℕ)
    → k ≡ 0
    → ◌≡◌ {A = Pipe × Outcome (Unit {0}) Bytes}
        (record p { buf = p.buf ++ take k (b ∷ rest) }, waits (drop k (b ∷ rest)))
        (p, waits (b ∷ rest))
nothing_fits b rest p k e =
    ap (λ j. (record p { buf = p.buf ++ take j (b ∷ rest) }, waits (drop j (b ∷ rest)))) e
    ∙ ap (λ t. (record p { buf = t }, waits (b ∷ rest))) (append-nil p.buf)

send_loop_open :
    (b : ℕ) (rest : Bytes) (p : Pipe)
    → p.is_closed ≡ false
    → send_loop (suc (suc (length rest))) (b ∷ rest) p ≡ some (sent (b ∷ rest) p)
send_loop_open b rest p opened =
    let k = pipe_buf - length p.buf in
    elim (Bool-cases (ltb k (length (b ∷ rest)))) [
      | inr e ↦
          let fits : length (b ∷ rest) ≤ k = ground arith in
          send_loop_all (length rest) b rest p opened fits
          ∙ ap some (sym (sent_all b rest p opened e))
      | inl e ↦
          let short : k < length (b ∷ rest) = ground arith in
          elim (Bool-cases (k == 0)) [
            | inl z ↦
                let full : k ≡ 0 = ground arith in
                send_loop_full (suc (length rest)) (b ∷ rest) p (omega arith) opened (omega arith)
                ∙ ap some (sym (sent_some b rest p opened e ∙ nothing_fits b rest p k full))
            | inr nz ↦
                let room : 0 < k = ground arith in
                send_loop-some (length rest) b rest p opened room short
                ∙ ap some (sym (sent_some b rest p opened e))
          ]
    ]

-- A section of `send` always ends within its fuel, and comes to this: a closed pipe refuses data;
-- data that fits is written whole; of other data as much is written as there is room for, and the
-- call waits with exactly what is left.
pub send-sent : (rest : Bytes) (p : Pipe) → send rest p ≡ some (sent rest p)
unfolding send sent
send-sent [] p = send_loop_done 0 [] p refl
send-sent (b ∷ rest) p = elim (Bool-cases p.is_closed) [
  | inl e ↦ send_loop_closed b rest p e
  | inr e ↦ send_loop_open b rest p e
]
