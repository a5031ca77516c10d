-- ===== src/Code/Members.antt =====
-- The clearing of a well-formed archive in src/code.c.
use audited_objects.Prelude.{
  ℕ, zero, suc, ◌+◌, ◌%◌, ◌≤◌, ◌≡◌, refl, sym, ap, ap₂, ◌∙◌, true, false, ltb, List, [], ◌∷◌, ◌++◌,
  some, Bytes, All, length, length-append, take, drop, replicate, arith, ok,
}
use mathlib.Core.List.{append_assoc, append-nil}
use audited_objects.Prelude.Int.{pos, +ℤ_pos}
use audited_objects.Prelude.Word.{rem}
use audited_objects.Radix.Scan.{strtoll}
use audited_objects.Code.{
  armag, blank_header, even_size, archive_advance, Cleared, archive_sized, archive_loop,
  clear_archive_file,
}

-- A member of an archive: the name, the fields up to the size, the size with the end of the header, and
-- the contents with the padding.
pub record Member : Type 0 where
  pub name : Bytes
  pub meta : Bytes
  pub size : Bytes
  pub body : Bytes

abbrev pub print_member : Member → Bytes
print_member m = m.name ++ (m.meta ++ (m.size ++ m.body))

abbrev pub print_members : List Member → Bytes
print_members [] = []
print_members (m ∷ ms) = print_member m ++ print_members ms

-- The member without what is not its name or its contents.
abbrev pub cleared_member : Member → Bytes
cleared_member m = m.name ++ (replicate 44 0 ++ m.body)

abbrev pub cleared_members : List Member → Bytes
cleared_members [] = []
cleared_members (m ∷ ms) = cleared_member m ++ cleared_members ms

-- The parts have their widths, and the size is that of the contents without the padding.
pub record IsMember (m : Member) : Type 0 where
  pub name_width : length m.name ≡ 16
  pub meta_width : length m.meta ≡ 32
  pub size_width : length m.size ≡ 12
  pub count : ℕ
  pub says : (rest : Bytes) → strtoll 10 (m.size ++ rest) ≡ pos (suc count)
  pub body_width : length m.body ≡ suc count + suc count % 2

drop-append : (n k : ℕ) (a b : Bytes) → length a ≡ n → drop (n + k) (a ++ b) ≡ drop k b
drop-append n k [] b e = ap (λ j. drop j b) (omega arith)
drop-append zero k (x ∷ a) b e = absurd (omega arith)
drop-append (suc n) k (x ∷ a) b e =
    ap (λ j. drop j (x ∷ a ++ b)) (suc_add n k) ∙ drop-append n k a b (omega arith)
  where
    suc_add : (n k : ℕ) → suc n + k ≡ suc (n + k)
    suc_add n k = omega arith

take-append : (n k : ℕ) (a b : Bytes) → length a ≡ n → take (n + k) (a ++ b) ≡ a ++ take k b
take-append n k [] b e = ap (λ j. take j b) (omega arith)
take-append zero k (x ∷ a) b e = absurd (omega arith)
take-append (suc n) k (x ∷ a) b e =
    ap (λ j. take j (x ∷ a ++ b)) (suc_add n k)
    ∙ ap (λ l. x ∷ l) (take-append n k a b (omega arith))
  where
    suc_add : (n k : ℕ) → suc n + k ≡ suc (n + k)
    suc_add n k = omega arith

drop-prefix : (n : ℕ) (a b : Bytes) → length a ≡ n → drop n (a ++ b) ≡ b
drop-prefix n a b e = ap (λ j. drop j (a ++ b)) (omega arith) ∙ drop-append n 0 a b e

take-prefix : (n : ℕ) (a b : Bytes) → length a ≡ n → take n (a ++ b) ≡ a
take-prefix n a b e =
    ap (λ j. take j (a ++ b)) (omega arith) ∙ (take-append n 0 a b e ∙ append-nil a)

regroup : (p n z b r : Bytes) → (p ++ n) ++ (z ++ (b ++ r)) ≡ (p ++ (n ++ (z ++ b))) ++ r
regroup p n z b r = simp append_assoc

flat : (n t s b r : Bytes) → (n ++ (t ++ (s ++ b))) ++ r ≡ n ++ (t ++ (s ++ (b ++ r)))
flat n t s b r = simp append_assoc

even_size-pos : (n : ℕ) → even_size (pos n) ≡ pos (n + n % 2)
unfolding even_size rem
even_size-pos n = +ℤ_pos n (n % 2)

sized_round :
    (next : Bytes → ℕ → Cleared) (buf : Bytes) (dot n : ℕ)
    → archive_sized next buf dot (pos (suc n))
      ≡ next (blank_header buf dot) (dot + 60 + (suc n + suc n % 2))
unfolding archive_sized archive_advance
sized_round next buf dot n =
    ap (archive_advance next (blank_header buf dot) dot) (even_size-pos (suc n))

module _ (pre rest : Bytes) (m : Member) (w : IsMember m) where
  flat_member : Bytes
  flat_member = m.name ++ (m.meta ++ (m.size ++ (m.body ++ rest)))

  at_member : (k : ℕ) → drop (length pre + k) (pre ++ (print_member m ++ rest)) ≡ drop k flat_member
  unfolding flat_member
  at_member k =
      drop-append (length pre) k pre (print_member m ++ rest) refl
      ∙ ap (drop k) (flat m.name m.meta m.size m.body rest)

  -- The size is read where it stands.
  size_at : drop (length pre + 48) (pre ++ (print_member m ++ rest)) ≡ m.size ++ (m.body ++ rest)
  unfolding flat_member
  size_at =
      at_member 48
      ∙ drop-append 16 32 m.name (m.meta ++ (m.size ++ (m.body ++ rest))) w.name_width
      ∙ drop-prefix 32 m.meta (m.size ++ (m.body ++ rest)) w.meta_width

  body_at : drop (length pre + 60) (pre ++ (print_member m ++ rest)) ≡ m.body ++ rest
  unfolding flat_member
  body_at =
      at_member 60
      ∙ drop-append 16 44 m.name (m.meta ++ (m.size ++ (m.body ++ rest))) w.name_width
      ∙ drop-append 32 12 m.meta (m.size ++ (m.body ++ rest)) w.meta_width
      ∙ drop-prefix 12 m.size (m.body ++ rest) w.size_width

  name_at : take (length pre + 16) (pre ++ (print_member m ++ rest)) ≡ pre ++ m.name
  name_at =
      take-append (length pre) 16 pre (print_member m ++ rest) refl
      ∙ ap (λ x. pre ++ take 16 x) (flat m.name m.meta m.size m.body rest)
      ∙ ap (λ x. pre ++ x) (take-prefix 16 m.name _ w.name_width)

  blank_at :
      blank_header (pre ++ (print_member m ++ rest)) (length pre)
      ≡ (pre ++ cleared_member m) ++ rest
  unfolding blank_header
  blank_at =
      ap (λ x. x ++ (replicate 44 0 ++ drop (length pre + 60) (pre ++ (print_member m ++ rest))))
        name_at
      ∙ ap (λ x. (pre ++ m.name) ++ (replicate 44 0 ++ x)) body_at
      ∙ regroup pre m.name (replicate 44 0) m.body rest

  length_at : length (pre ++ cleared_member m) ≡ length pre + 60 + length m.body
  length_at = omega (
    arith,
    w.name_width,
    length-append pre (cleared_member m),
    length-append m.name (replicate 44 0 ++ m.body),
  )

  long_at : length pre + 60 ≤ length (pre ++ (print_member m ++ rest))
  long_at = omega (
    arith,
    length-append pre (print_member m ++ rest),
    length-append (print_member m) rest,
    length-append m.name (m.meta ++ (m.size ++ m.body)),
    length-append m.meta (m.size ++ m.body),
    length-append m.size m.body,
    w.name_width,
    w.meta_width,
    w.size_width,
  )

  -- One round of the loop.
  member_round :
      (f : ℕ)
      → archive_loop (suc f) (pre ++ (print_member m ++ rest)) (length pre)
        ≡ archive_loop f ((pre ++ cleared_member m) ++ rest) (length (pre ++ cleared_member m))
  unfolding archive_loop
  member_round f =
      let buf : Bytes = pre ++ (print_member m ++ rest) in
      let inside : ltb (length pre) (length buf) ≡ true = ground (arith, long_at) in
      let whole : ltb (length buf) (length pre + 60) ≡ false = ground (arith, long_at) in
      rw inside (
        rw whole (
          ap (archive_sized (archive_loop f) buf (length pre))
            (ap (strtoll 10) size_at ∙ w.says (m.body ++ rest))
          ∙ (sized_round (archive_loop f) buf (length pre) w.count
              ∙ ap₂ (archive_loop f) blank_at (omega (arith, length_at, w.body_width)))))

loop_end : (f : ℕ) (buf : Bytes) → archive_loop (suc f) buf (length buf) ≡ some (ok (pos 0, buf))
unfolding archive_loop
loop_end f buf = let done : ltb (length buf) (length buf) ≡ false = ground arith in rw done refl

members_loop :
    (pre : Bytes) (ms : List Member)
    → All IsMember ms
    → archive_loop (suc (length ms)) (pre ++ print_members ms) (length pre)
      ≡ some (ok (pos 0, pre ++ cleared_members ms))
members_loop pre [] ws =
    ap (λ b. archive_loop 1 b (length pre)) (append-nil pre)
    ∙ (loop_end 0 pre ∙ ap (λ b. some (ok (pos 0, b))) (sym (append-nil pre)))
members_loop pre (m ∷ ms) ws =
    member_round pre (print_members ms) m ws.0 (suc (length ms))
    ∙ (members_loop (pre ++ cleared_member m) ms ws.1
        ∙ ap (λ b. some (ok (pos 0, b))) (append_assoc pre (cleared_member m) (cleared_members ms)))

-- _code_clear_archive_file of a well-formed archive ends, after one round for each member, with 0 and
-- without a byte changed but the fields of the headers behind the names, which are all 0.
pub clear_archive_file-cleared :
    (ms : List Member)
    → All IsMember ms
    → clear_archive_file (suc (length ms)) (armag ++ print_members ms)
      ≡ some (ok (pos 0, armag ++ cleared_members ms))
unfolding clear_archive_file
clear_archive_file-cleared ms ws = members_loop armag ms ws
