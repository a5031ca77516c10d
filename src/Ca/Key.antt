-- ===== src/Ca/Key.antt =====
-- The keys by which commands are found in a hash table: ck_new and ca_o_hash_cmp.
use audited_objects.Prelude.{
  ℕ, ◌+◌, ◌-◌, ◌%◌, ◌^◌, ◌<◌, ◌≡◌, ◌≢◌, ◌↔◌, ◌⊎◌, true, not, ◌||◌, [], ◌∷◌, ltb, ◌==◌,
  if◌then◌else◌, Bytes, arith,
}
use audited_objects.Prelude.Int.{ℤ, pos, negsuc}
use audited_objects.Ps.{get_str}
use audited_objects.Ps.Diff.{eq_ℤ}
use audited_objects.Pa.{csv_null_field}
use audited_objects.Pa.Cmp.{pathcmp}
use audited_objects.Ca.{Ca}

-- `struct cmd_key_s`
pub record Ck : Type 0 where
  pub ck_ccode : Bytes
  pub ck_depth : ℕ
  pub ck_cmdid : ℕ

unfoldable pub ck_new : Bytes → ℕ → ℕ → Ck
ck_new ccode depth cmdid = record { ck_ccode = ccode; ck_depth = depth; ck_cmdid = cmdid }

unfoldable pub ck_new_from_ca : Ca → Ck
unfolding ck_new get_str
ck_new_from_ca ca = ck_new (get_str csv_null_field ca.ca_ccode) ca.ca_depth ca.ca_cmdid

unfoldable pub ck_set_cmdid : Ck → ℕ → Ck
ck_set_cmdid ck cmdid = record ck { ck_cmdid = cmdid }

-- `a - b` of unsigned longs, as the int that is returned.
unfoldable pub int_minus : ℕ → ℕ → ℤ
int_minus a b =
    let u = (a + 2 ^ 64 - b) % 2 ^ 32 in if ltb u (2 ^ 31) then pos u else negsuc (2 ^ 32 - 1 - u)

-- The comparison of the command ids, where 0 stands for any.
unfoldable pub cmdid_cmp : ℕ → ℕ → ℤ
unfolding int_minus
cmdid_cmp id1 id2 =
    if id1 == 0 || id2 == 0 then pos 0 else if not (id1 == id2) then int_minus id1 id2 else pos 0

-- `ca_o_hash_cmp`, with strcmp for _ca_cmp_codes.
unfoldable pub ca_o_hash_cmp : Ck → Ck → ℤ
unfolding pathcmp eq_ℤ cmdid_cmp
ca_o_hash_cmp ck1 ck2 =
    if not (eq_ℤ (pathcmp ck1.ck_ccode ck2.ck_ccode) (pos 0))
    then pathcmp ck1.ck_ccode ck2.ck_ccode
    else if not (ck1.ck_depth == ck2.ck_depth)
    then int_minus ck1.ck_depth ck2.ck_depth
    else cmdid_cmp ck1.ck_cmdid ck2.ck_cmdid

pathcmp_zero : (a b : Bytes) → (pathcmp a b ≡ pos 0) ↔ (a ≡ b)
unfolding pathcmp
pathcmp_zero [] [] = ground arith
pathcmp_zero [] (y ∷ b) = ground arith
pathcmp_zero (x ∷ a) [] = ground arith
pathcmp_zero (x ∷ a) (y ∷ b) = ground (arith, pathcmp_zero a b)

int_minus-ne : (a b : ℕ) → a < 2 ^ 31 → b < 2 ^ 31 → a ≢ b → int_minus a b ≢ pos 0
unfolding int_minus
int_minus-ne a b h k ne = ground arith

-- The same command id, or none on one side.
abbrev pub SameCmdid : ℕ → ℕ → Type 0
SameCmdid id1 id2 = (id1 ≡ 0) ⊎ ((id2 ≡ 0) ⊎ (id1 ≡ id2))

cmdid_cmp_zero :
    (id1 id2 : ℕ) → id1 < 2 ^ 31 → id2 < 2 ^ 31 → (cmdid_cmp id1 id2 ≡ pos 0) ↔ SameCmdid id1 id2
unfolding cmdid_cmp
cmdid_cmp_zero id1 id2 h k = ground (arith, int_minus-ne id1 id2 h k)

eq_ℤ_zero : (x : ℤ) → (eq_ℤ x (pos 0) ≡ true) ↔ (x ≡ pos 0)
unfolding eq_ℤ
eq_ℤ_zero (pos n) = ground arith
eq_ℤ_zero (negsuc n) = ground arith

-- Two keys are the same to ca_o_hash_cmp exactly if they have the same command code, the same depth and
-- the same command id, where the id 0 is the same as any other; depths and ids are below 2^31.
pub ca_o_hash_cmp_zero :
    (ck1 ck2 : Ck)
    → ck1.ck_depth < 2 ^ 31
    → ck2.ck_depth < 2 ^ 31
    → ck1.ck_cmdid < 2 ^ 31
    → ck2.ck_cmdid < 2 ^ 31
    → (ca_o_hash_cmp ck1 ck2 ≡ pos 0) ↔ (
        (ck1.ck_ccode ≡ ck2.ck_ccode)
        × (ck1.ck_depth ≡ ck2.ck_depth)
        × SameCmdid ck1.ck_cmdid ck2.ck_cmdid)
unfolding ca_o_hash_cmp
ca_o_hash_cmp_zero ck1 ck2 d1 d2 i1 i2 =
    tests (ck1.ck_ccode) (ck2.ck_ccode) (ck1.ck_depth) (ck2.ck_depth)
      (int_minus-ne ck1.ck_depth ck2.ck_depth d1 d2) (cmdid_cmp ck1.ck_cmdid ck2.ck_cmdid)
      (cmdid_cmp_zero ck1.ck_cmdid ck2.ck_cmdid i1 i2)
  where
    tests :
        (a b : Bytes) (d e : ℕ)
        → (d ≢ e → int_minus d e ≢ pos 0)
        → (c : ℤ) {P : Type 0} → (c ≡ pos 0) ↔ P
        → ((if not (eq_ℤ (pathcmp a b) (pos 0))
              then pathcmp a b
              else if not (d == e)
              then int_minus d e
              else c)
            ≡ pos 0)
          ↔ ((a ≡ b) × (d ≡ e) × P)
    tests a b d e apart c h = ground (arith, pathcmp_zero a b, eq_ℤ_zero (pathcmp a b), h, apart)
