-- ===== src/Io/Send.antt =====
-- What util_send_all of src/util.c does after an interrupted call of send.
use audited_objects.Prelude.{
  ℕ, suc, ◌+◌, ◌-◌, ◌%◌, ◌^◌, ◌≤◌, ◌<◌, ◌≡◌, refl, ap, ◌∙◌, ◌++◌, [], some, Bytes, ltb, length,
  take, drop, take_all, length-take, length-drop, arith, true, false,
}
use audited_objects.Prelude.Int.{pos}
use audited_objects.Prelude.Word.{to_i64}
use audited_objects.Io.{moved, interrupted, Calls, send_loop, send_all}

-- One round that sends something.
send_round :
    (ev : Calls) (f k m total : ℕ) (buf sent : Bytes)
    → ev k ≡ moved m
    → total < length buf
    → send_loop (suc f) ev k buf total sent ≡ (
        let got = take (suc m) (drop total buf) in
        send_loop f ev (k + 1) buf ((total + length got) % 2 ^ 64) (sent ++ got))
unfolding send_loop
send_round ev f k m total buf sent e h =
    let more : ltb total (length buf) ≡ true = ground arith in rw more (rw (e, send_loop) refl)

-- An interrupted round.
send_interrupted :
    (ev : Calls) (f k total : ℕ) (buf sent : Bytes)
    → ev k ≡ interrupted
    → total < length buf
    → send_loop (suc f) ev k buf total sent
      ≡ send_loop f ev (k + 1) buf ((total + (2 ^ 64 - 1)) % 2 ^ 64) sent
unfolding send_loop
send_interrupted ev f k total buf sent e h =
    let more : ltb total (length buf) ≡ true = ground arith in rw more (rw (e, send_loop) refl)

send_done :
    (ev : Calls) (f k total : ℕ) (buf sent : Bytes)
    → length buf ≤ total
    → send_loop (suc f) ev k buf total sent ≡ some (to_i64 total, sent)
unfolding send_loop
send_done ev f k total buf sent h =
    let done : ltb total (length buf) ≡ false = ground arith in rw done refl

as_ssize : (n : ℕ) → n < 2 ^ 63 → to_i64 n ≡ pos n
unfolding to_i64
as_ssize n h = ground arith

-- A call of send that is interrupted takes a byte back: if the first call sends `m + 1` bytes, but not
-- all, the second is interrupted and the third sends all that it is given, the last byte of the first
-- call is sent again, and util_send_all returns the length of the buffer.
pub send_all-resent :
    (ev : Calls) (buf : Bytes) (m r : ℕ)
    → length buf < 2 ^ 63
    → suc m < length buf
    → length buf ≤ r
    → ev 0 ≡ moved m
    → ev 1 ≡ interrupted
    → ev 2 ≡ moved r
    → send_all 4 ev buf ≡ some (pos (length buf), take (suc m) buf ++ drop m buf)
unfolding send_all
send_all-resent ev buf m r small less all e₀ e₁ e₂ =
    let rest : take (suc r) (drop m buf) ≡ drop m buf =
      take_all (suc r) (drop m buf) (omega (arith, length-drop m buf)) in
    send_round ev 3 0 m 0 buf [] e₀ (omega arith)
    ∙ ap (λ t. send_loop 3 ev 1 buf t (take (suc m) buf)) (omega (arith, length-take (suc m) buf))
    ∙ send_interrupted ev 2 1 (suc m) buf (take (suc m) buf) e₁ less
    ∙ ap (λ t. send_loop 2 ev 2 buf t (take (suc m) buf)) (omega arith)
    ∙ send_round ev 1 2 r m buf (take (suc m) buf) e₂ (omega arith)
    ∙ ap (λ g. send_loop 1 ev 3 buf ((m + length g) % 2 ^ 64) (take (suc m) buf ++ g)) rest
    ∙ ap (λ t. send_loop 1 ev 3 buf t (take (suc m) buf ++ drop m buf))
        (omega (arith, length-drop m buf))
    ∙ send_done ev 0 3 (length buf) buf (take (suc m) buf ++ drop m buf) (omega arith)
    ∙ ap (λ c. some (c, take (suc m) buf ++ drop m buf)) (as_ssize (length buf) small)
