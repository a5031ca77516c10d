-- ===== src/Io/Tests.antt =====
-- Tests of the transfers of src/util.c, and instances of their theorems.
use audited_objects.Prelude.{
  ℕ, zero, suc, ◌%◌, ◌≡◌, refl, Bool-cases, inl, inr, ◌==◌, if◌then◌else◌, [], some, Bytes, codes,
  arith,
}
use audited_objects.Prelude.Int.{pos, negsuc}
use audited_objects.Prelude.Word.{to_i64}
use audited_objects.Io.{moved, interrupted, failed, Calls, write_all, read_all, send_all}
use audited_objects.Io.Live.{IsFair, NeverFails, OnlyInterrupted, write_all-sent, read_all-found}
use audited_objects.Io.Send.{send_all-resent}

-- Every other call is interrupted, and the others transfer two bytes.
stutter : Calls
stutter k = if k % 2 == 0 then interrupted else moved 1

stutter-IsFair : IsFair stutter
unfolding stutter
stutter-IsFair k = elim (Bool-cases (k % 2 == 0)) [
  | inl e ↦ (1, 1, ground arith)
  | inr e ↦ (0, 1, ground arith)
]

stutter-NeverFails : NeverFails stutter
unfolding stutter
stutter-NeverFails k h = ground arith

stutter-OnlyInterrupted : OnlyInterrupted stutter
unfolding stutter
stutter-OnlyInterrupted k = (λ h. ground arith, λ h. ground arith)

abbrev text : Bytes
text = codes "audit"

wrote : write_all 7 stutter text ≡ some (pos 0, text)
unfolding write_all stutter
wrote = refl

-- A call that fails ends it.
write_fails : write_all 2 (λ k. failed) text ≡ some (negsuc 0, [])
unfolding write_all
write_fails = refl

read_short : read_all 9 stutter (pos 3) 9 text ≡ some (pos 5, text)
unfolding read_all stutter
read_short = refl

read_closed : read_all 9 stutter (negsuc 0) 9 text ≡ some (negsuc 0, [])
unfolding read_all
read_closed = refl

-- An interrupted call at the start.
send_interrupted : send_all 9 stutter text ≡ some (negsuc 0, [])
unfolding send_all stutter to_i64
send_interrupted = refl

burst : Calls
burst zero = moved 1
burst (suc zero) = interrupted
burst (suc (suc k)) = moved 9

write_all-sent_example : (f : ℕ) × (write_all f stutter text ≡ some (pos 0, text))
write_all-sent_example = write_all-sent stutter stutter-IsFair stutter-NeverFails text

read_all-found_example : (f : ℕ) × (read_all f stutter (pos 3) 4 text ≡ some (pos 4, codes "audi"))
read_all-found_example = read_all-found stutter stutter-IsFair stutter-OnlyInterrupted 4 3 text

send_all-resent_example : send_all 4 burst text ≡ some (pos 5, codes "auudit")
unfolding burst
send_all-resent_example =
    send_all-resent burst text 1 9 (omega arith) (omega arith) (omega arith) refl refl refl
