-- ===== src/Io.antt =====
-- util_send_all, util_read_all and util_write_all of src/util.c: transfers that go on after interrupted
-- calls and short counts. The loops run on fuel, one unit for each system call; `none` is that the
-- function has not returned yet.
pub mod Live
pub mod Send
mod Tests
use audited_objects.Prelude.{
  ℕ, zero, suc, ◌+◌, ◌-◌, ◌%◌, ◌^◌, Bool, true, false, ltb, if◌then◌else◌, List, [], ◌∷◌, ◌++◌,
  Option, none, some, Bytes, length, take, drop,
}
use audited_objects.Prelude.Int.{ℤ, pos, negsuc}
use audited_objects.Prelude.Word.{to_i64}

-- What a call of read, write or send does: it transfers at most one byte more than the number, of
-- those asked for, or it fails with EINTR, EAGAIN or another error.
pub data Event : Type 0 where
  moved : ℕ → Event
  interrupted : Event
  again : Event
  failed : Event

-- The system: what its calls do, in their order.
abbrev pub Calls : Type 0
Calls = ℕ → Event

-- The loops of util_write_all. `sofar` is 0 when the inner loop goes round, and its sum into `total` is
-- left out by the `break`. `sent` is what write took, and `k` counts the calls.
unfoldable pub write_loop : ℕ → Calls → ℕ → Bytes → ℕ → Bytes → Option (ℤ × Bytes)
write_loop zero ev k p total sent = none
write_loop (suc f) ev k [] total sent = some (pos total, sent)
write_loop (suc f) ev k (b ∷ p) total sent = elim (ev k) [
  | moved m ↦ write_loop f ev (k + 1) (drop m p) total (sent ++ (b ∷ take m p))
  | interrupted ↦ write_loop f ev (k + 1) (b ∷ p) (total + 0) sent
  | again ↦ write_loop f ev (k + 1) (b ∷ p) (total + 0) sent
  | failed ↦ some (negsuc 0, sent)
]

-- `util_write_all`
unfoldable pub write_all : ℕ → Calls → Bytes → Option (ℤ × Bytes)
unfolding write_loop
write_all f ev buf = write_loop f ev 0 buf 0 []

-- The loop of util_read_all over a file whose rest is `src`; `out` is what the buffer has.
unfoldable pub read_loop : ℕ → Calls → ℕ → ℕ → ℕ → Bytes → Bytes → Option (ℤ × Bytes)
read_loop zero ev k n nleft src out = none
read_loop (suc f) ev k n zero src out = some (pos n, out)
read_loop (suc f) ev k n (suc nleft) [] out = elim (ev k) [
  | moved m ↦ some (pos (n - suc nleft), out)
  | interrupted ↦ read_loop f ev (k + 1) n (suc nleft) [] out
  | again ↦ some (negsuc 0, out)
  | failed ↦ some (negsuc 0, out)
]
read_loop (suc f) ev k n (suc nleft) (b ∷ src) out = elim (ev k) [
  | moved m ↦
      (let got = take nleft (take m src) in
        read_loop f ev (k + 1) n (nleft - length got) (drop (length got) src) (out ++ (b ∷ got)))
  | interrupted ↦ read_loop f ev (k + 1) n (suc nleft) (b ∷ src) out
  | again ↦ some (negsuc 0, out)
  | failed ↦ some (negsuc 0, out)
]

-- `util_read_all`
unfoldable pub read_all : ℕ → Calls → ℤ → ℕ → Bytes → Option (ℤ × Bytes)
unfolding read_loop
read_all f ev (negsuc fd) n src = some (negsuc 0, [])
read_all f ev (pos fd) n src = read_loop f ev 0 n n src []

-- The loop of util_send_all: after an interrupted call the -1 is added to `total`, a size_t.
unfoldable pub send_loop : ℕ → Calls → ℕ → Bytes → ℕ → Bytes → Option (ℤ × Bytes)
send_loop zero ev k buf total sent = none
send_loop (suc f) ev k buf total sent =
    let next : Option (ℤ × Bytes) = elim (ev k) [
      | moved m ↦
          (let got = take (suc m) (drop total buf) in
            send_loop f ev (k + 1) buf ((total + length got) % 2 ^ 64) (sent ++ got))
      | interrupted ↦ send_loop f ev (k + 1) buf ((total + (2 ^ 64 - 1)) % 2 ^ 64) sent
      | again ↦ some (negsuc 0, sent)
      | failed ↦ some (negsuc 0, sent)
    ] in
    if ltb total (length buf) then next else some (to_i64 total, sent)

-- `util_send_all`
unfoldable pub send_all : ℕ → Calls → Bytes → Option (ℤ × Bytes)
unfolding send_loop
send_all f ev buf = send_loop f ev 0 buf 0 []
