-- ===== src/Io/Live.antt =====
-- The transfers of src/util.c end, and transfer everything, whatever interrupts them.
use audited_objects.Prelude.{
  inr, inl, ◌⊎◌, ℕ, zero, suc, ◌+◌, ◌-◌, ◌≤◌, ◌≡◌, ◌≢◌, ◌⊎◌, inl, inr, refl, sym, ap, ◌∙◌, [], ◌∷◌,
  ◌++◌, some, Bytes, length, take, drop, take-append-drop, length-drop, length-take, arith,
}
use mathlib.Core.List.{append_assoc, append-nil}
use audited_objects.Prelude.Int.{pos}
use audited_objects.Io.{
  Event, moved, interrupted, again, failed, Calls, write_loop, write_all, read_loop, read_all,
}

-- Again and again a call transfers something.
abbrev pub IsFair : Calls → Type 0
IsFair ev = (k : ℕ) → (j : ℕ) × (m : ℕ) × (ev (k + j) ≡ moved m)

abbrev pub NeverFails : Calls → Type 0
NeverFails ev = (k : ℕ) → ev k ≢ failed

module _ (ev : Calls) (fair : IsFair ev) (sound : NeverFails ev) where
  -- The function has returned 0 and sent the rest.
  Ends : ℕ → Bytes → Bytes → Type 0
  Ends k p sent = (f : ℕ) × (write_loop f ev k p 0 sent ≡ some (pos 0, sent ++ p))

  taken :
      (k m b : ℕ) (p sent : Bytes)
      → ev k ≡ moved m
      → Ends (k + 1) (drop m p) (sent ++ (b ∷ take m p))
      → Ends k (b ∷ p) sent
  unfolding Ends write_loop
  taken k m b p sent e (f, h) = (
    suc f,
    rw (e, write_loop)
        (h
          ∙ ap (λ s. some (pos 0, s))
              (append_assoc sent (b ∷ take m p) (drop m p)
                ∙ ap (λ s. sent ++ (b ∷ s)) (take-append-drop m p))),
  )

  retried :
      (k b : ℕ) (p sent : Bytes) (e : Event)
      → ev k ≡ e
      → (e ≡ interrupted) ⊎ (e ≡ again)
      → Ends (k + 1) (b ∷ p) sent
      → Ends k (b ∷ p) sent
  unfolding Ends write_loop
  retried k b p sent e q (inl i) (f, h) = (suc f, rw (q ∙ i, write_loop) h)
  retried k b p sent e q (inr i) (f, h) = (suc f, rw (q ∙ i, write_loop) h)

  module _ (n : ℕ) (shorter : (k : ℕ) (p sent : Bytes) → length p ≤ n → Ends k p sent) where
    -- One call: it transfers something, or it has to be made again.
    one_write :
        (k b : ℕ) (p sent : Bytes) (x : Event)
        → ev k ≡ x
        → length p ≤ n
        → (((m : ℕ) → ev k ≢ moved m) → Ends (k + 1) (b ∷ p) sent)
        → Ends k (b ∷ p) sent
    one_write k b p sent (moved m) e le next =
        taken k m b p sent e
          (shorter (k + 1) (drop m p) (sent ++ (b ∷ take m p)) (omega (arith, length-drop m p)))
    one_write k b p sent interrupted e le next =
        retried k b p sent interrupted e (inl refl) (next (λ m h. cc))
    one_write k b p sent again e le next = retried k b p sent again e (inr refl) (next (λ m h. cc))
    one_write k b p sent failed e le next = absurd (sound k e)

    -- The call that transfers something comes after `j` others at most.
    write_waits :
        (j k m b : ℕ) (p sent : Bytes) → ev (k + j) ≡ moved m → length p ≤ n → Ends k (b ∷ p) sent
    write_waits zero k m b p sent e le =
        one_write k b p sent (ev k) refl le (λ ne. absurd (ne m (ap ev (omega arith) ∙ e)))
    write_waits (suc j) k m b p sent e le =
        one_write k b p sent (ev k) refl le
          (λ ne. write_waits j (k + 1) m b p sent (ap ev (omega arith) ∙ e) le)

  write_loop-Ends : (n k : ℕ) (p sent : Bytes) → length p ≤ n → Ends k p sent
  unfolding Ends write_loop
  write_loop-Ends n k [] sent le = (1, ap (λ s. some (pos 0, s)) (sym (append-nil sent)))
  write_loop-Ends zero k (b ∷ p) sent le = absurd (omega arith)
  write_loop-Ends (suc n) k (b ∷ p) sent le =
      let (j, m, e) = fair k in write_waits n (write_loop-Ends n) j k m b p sent e (omega arith)

  -- util_write_all returns after finitely many calls, and write has taken the whole of the buffer, in
  -- order and once, if no call fails but for EINTR and EAGAIN, and again and again one transfers
  -- something. What it returns is 0, whatever the length of the buffer.
  pub write_all-sent : (buf : Bytes) → (f : ℕ) × (write_all f ev buf ≡ some (pos 0, buf))
  unfolding write_all Ends
  write_all-sent buf = write_loop-Ends (length buf) 0 buf [] (omega arith)

take_split : (g n : ℕ) (xs : Bytes) → g ≤ n → take g xs ++ take (n - g) (drop g xs) ≡ take n xs
take_split zero n xs h = ap (λ k. take k xs) (omega arith)
take_split (suc g) zero xs h = absurd (omega arith)
take_split (suc g) (suc n) [] h = take_nil (suc n - suc g)
  where
    take_nil : (k : ℕ) → take {A = ℕ} k [] ≡ []
    take_nil zero = refl
    take_nil (suc k) = refl
take_split (suc g) (suc n) (x ∷ xs) h =
    ap (λ l. x ∷ l)
      (ap (λ k. take g xs ++ take k (drop g xs)) (omega arith) ∙ take_split g n xs (omega arith))

take_got : (a m : ℕ) (xs : Bytes) → take (length (take a (take m xs))) xs ≡ take a (take m xs)
take_got zero m xs = refl
take_got (suc a) zero xs = refl
take_got (suc a) (suc m) [] = refl
take_got (suc a) (suc m) (x ∷ xs) = ap (λ l. x ∷ l) (take_got a m xs)

-- The other calls are interrupted.
abbrev pub OnlyInterrupted : Calls → Type 0
OnlyInterrupted ev = (k : ℕ) → (ev k ≢ failed) × (ev k ≢ again)

module _ (ev : Calls) (fair : IsFair ev) (sound : OnlyInterrupted ev) (n : ℕ) where
  -- The function has returned the number of the bytes that it found, and these stand in the buffer.
  Found : ℕ → ℕ → Bytes → Bytes → Type 0
  Found k nleft src out =
      (f : ℕ) × (read_loop f ev k n nleft src out
        ≡ some (pos (n - (nleft - length src)), out ++ take nleft src))

  found_none : (k : ℕ) (src out : Bytes) → Found k 0 src out
  unfolding Found read_loop
  found_none k src out = (1, ap (λ r. some r) (λ i. (pos (count i), sym (append-nil out) i)))
    where
      count : n ≡ n - (0 - length src)
      count = omega arith

  found_end : (k nleft m : ℕ) (out : Bytes) → ev k ≡ moved m → Found k (suc nleft) [] out
  unfolding Found read_loop
  found_end k nleft m out e =
      (1, rw (e, read_loop) (ap (λ r. some r) (λ i. (pos (count i), sym (append-nil out) i))))
    where
      count : n - suc nleft ≡ n - (suc nleft - 0)
      count = omega arith

  found_again :
      (k nleft : ℕ) (src out : Bytes)
      → ev k ≡ interrupted
      → Found (k + 1) (suc nleft) src out
      → Found k (suc nleft) src out
  unfolding Found read_loop
  found_again k nleft [] out e (f, h) = (suc f, rw (e, read_loop) h)
  found_again k nleft (b ∷ src) out e (f, h) = (suc f, rw (e, read_loop) h)

  module _ (nleft m b : ℕ) (src out : Bytes) where
    got : Bytes
    got = take nleft (take m src)

    got-le : length got ≤ nleft
    unfolding got
    got-le = omega (arith, length-take nleft (take m src))

    got-le_src : length got ≤ length src
    unfolding got
    got-le_src = omega (arith, length-take nleft (take m src), length-take m src)

    found_some :
        (k : ℕ)
        → suc nleft ≤ n
        → ev k ≡ moved m
        → Found (k + 1) (nleft - length got) (drop (length got) src) (out ++ (b ∷ got))
        → Found k (suc nleft) (b ∷ src) out
    unfolding Found got read_loop
    found_some k le e (f, h) =
        (suc f, rw (e, read_loop) (h ∙ ap (λ r. some r) (λ i. (pos (count i), text i))))
      where
        count :
            n - ((nleft - length got) - length (drop (length got) src))
            ≡ n - (suc nleft - length (b ∷ src))
        count = omega (arith, got-le, got-le_src, length-drop (length got) src)

        text :
            (out ++ (b ∷ got)) ++ take (nleft - length got) (drop (length got) src)
            ≡ out ++ take (suc nleft) (b ∷ src)
        text =
            append_assoc out (b ∷ got) (take (nleft - length got) (drop (length got) src))
            ∙ ap (λ l. out ++ (b ∷ l))
                (ap (λ g. g ++ take (nleft - length got) (drop (length got) src))
                    (sym (take_got nleft m src))
                  ∙ take_split (length got) nleft src got-le)

  module _ (bound : ℕ)
      (shorter : (k nleft : ℕ) (src out : Bytes)
        → nleft ≤ bound
        → nleft ≤ n
        → Found k nleft src out) where
    one_read :
        (k nleft : ℕ) (src out : Bytes) (x : Event)
        → ev k ≡ x
        → nleft ≤ bound
        → suc nleft ≤ n
        → (((m : ℕ) → ev k ≢ moved m) → Found (k + 1) (suc nleft) src out)
        → Found k (suc nleft) src out
    one_read k nleft [] out (moved m) e le fits next = found_end k nleft m out e
    one_read k nleft (b ∷ src) out (moved m) e le fits next =
        found_some nleft m b src out k fits e (
          shorter (k + 1) (nleft - length (got nleft m b src out))
            (drop (length (got nleft m b src out)) src) (out ++ (b ∷ got nleft m b src out))
            (omega arith) (omega arith))
    one_read k nleft src out interrupted e le fits next =
        found_again k nleft src out e (next (λ m h. cc))
    one_read k nleft src out again e le fits next = absurd ((sound k).1 e)
    one_read k nleft src out failed e le fits next = absurd ((sound k).0 e)

    read_waits :
        (j k m nleft : ℕ) (src out : Bytes)
        → ev (k + j) ≡ moved m
        → nleft ≤ bound
        → suc nleft ≤ n
        → Found k (suc nleft) src out
    read_waits zero k m nleft src out e le fits =
        one_read k nleft src out (ev k) refl le fits (λ ne. absurd (ne m (ap ev (omega arith) ∙ e)))
    read_waits (suc j) k m nleft src out e le fits =
        one_read k nleft src out (ev k) refl le fits
          (λ ne. read_waits j (k + 1) m nleft src out (ap ev (omega arith) ∙ e) le fits)

  read_ends :
      (bound k nleft : ℕ) (src out : Bytes) → nleft ≤ bound → nleft ≤ n → Found k nleft src out
  read_ends bound k zero src out le fits = found_none k src out
  read_ends zero k (suc nleft) src out le fits = absurd (omega arith)
  read_ends (suc bound) k (suc nleft) src out le fits =
      let (j, m, e) = fair k in
      read_waits bound (read_ends bound) j k m nleft src out e (omega arith) fits

  -- util_read_all of `n` bytes returns after finitely many calls, if no call fails but for EINTR, and
  -- again and again one delivers something: the buffer has the first `n` bytes of the file, or all of
  -- them if it has less, and their number is returned.
  pub read_all-found :
      (fd : ℕ) (src : Bytes)
      → (f : ℕ) × (read_all f ev (pos fd) n src ≡ some (pos (length (take n src)), take n src))
  unfolding read_all Found
  read_all-found fd src =
      let (f, e) = read_ends n 0 n src [] (omega arith) (omega arith) in
      (f, e ∙ ap (λ c. some (pos c, take n src)) (omega (arith, length-take n src)))
