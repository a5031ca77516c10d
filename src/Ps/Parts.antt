-- ===== src/Ps/Parts.antt =====
-- The fields of a line of ps_toCSVString, and what ps_newFromCSVString makes of each.
use audited_objects.Prelude.{
  ℕ, ◌%◌, ◌^◌, ◌<◌, ◌≡◌, ◌≢◌, refl, sym, ◌∙◌, ap, false, Option, none, some, [], ◌∷◌, ◌==◌, Bytes,
  ok, arith, Lacks, All-imp,
}
use native.Mathlib.Nat.{mod-eq_of_lt}
use audited_objects.Prelude.Int.{ℤ, pos, negsuc}
use audited_objects.Prelude.Word.{to_u64, to_i64, to_i64-to_u64_pos, to_i64-to_u64_negsuc}
use audited_objects.Radix.RoundTrip.{
  radix_loop_total, IsNumeral, radix_loop-IsNumeral, format_to_radix_total,
}
use audited_objects.Encode.{encode_minimal, unescape}
use audited_objects.Encode.RoundTrip.{unescape-encode_minimal, encode_minimal-Lacks}
use audited_objects.Moment.{csv_radix}
use audited_objects.Pn.{Pn, pn_new, pn_get_rel, dot_if_empty}
use audited_objects.Pn.Member.{pn_new-pn_get_rel, IsStable}
use audited_objects.Ps.{ps_get_rel2, Ps, ps_symlink, csv_field_is_null, set_str, get_str}
use audited_objects.Ps.Csv.{
  target_text, link_text, format_lu, fsname_text, format_mode, c_string, set_link, known_fsname,
  modebuf_size,
}

-- An int64_t.
abbrev pub IsInt64 : ℤ → Type 0
IsInt64 (pos n) = n < 2 ^ 63
IsInt64 (negsuc n) = n < 2 ^ 63

pub to_i64-to_u64 : (x : ℤ) → IsInt64 x → to_i64 (to_u64 x) ≡ x
to_i64-to_u64 (pos n) h = to_i64-to_u64_pos n h
to_i64-to_u64 (negsuc n) h = to_i64-to_u64_negsuc n h

pub format_lu-IsNumeral : (n : ℕ) → n < 2 ^ 64 → IsNumeral 10 n (format_lu n)
unfolding format_lu
format_lu-IsNumeral n h =
    let small : n % 2 ^ 64 ≡ n = mod-eq_of_lt h in
    let (text, e) = radix_loop_total 10 (omega arith) (omega arith) 19 n [] (omega arith) in
    rw (small, format_lu) (rw e (radix_loop-IsNumeral 10 20 n text (omega arith, omega arith) e))

pub format_mode_total :
    (mode : ℕ)
    → mode < 2 ^ 32
    → (text : Bytes) × (format_mode mode ≡ ok text) × IsNumeral csv_radix mode text
unfolding format_mode
format_mode_total mode h =
    let (text, e, n) =
      format_to_radix_total csv_radix modebuf_size mode (omega arith) (omega arith) (omega arith) in
    (text, rw (e, format_mode), n)

-- A text that a setter stores and that can be a field.
abbrev pub IsField : Option Bytes → Type 0
IsField none = Unit
IsField (some s) = (csv_field_is_null s ≡ false) × Lacks b',' s

pub set_str-get_str : (o : Option Bytes) → IsField o → set_str (some (get_str [] o)) ≡ o
unfolding get_str set_str csv_field_is_null
set_str-get_str none h = refl
set_str-get_str (some s) h = rw (h.0) refl

pub get_str-Lacks : (o : Option Bytes) → IsField o → Lacks b',' (get_str [] o)
unfolding get_str
get_str-Lacks none h = tt
get_str-Lacks (some s) h = h.1

-- A file system's name is none that begins with '?'.
abbrev pub IsKnown : Option Bytes → Type 0
IsKnown none = Unit
IsKnown (some []) = Unit
IsKnown (some (c ∷ s)) = c ≢ b'?'

pub set_str-fsname :
    (o : Option Bytes) → IsField o → IsKnown o → set_str (known_fsname (fsname_text o)) ≡ o
unfolding known_fsname fsname_text set_str
set_str-fsname none h k = refl
set_str-fsname (some []) h k = absurd (unfold csv_field_is_null in ground (arith, h.0))
set_str-fsname (some (c ∷ s)) h k =
    let other : (c == b'?') ≡ false = ground (arith, k) in rw other (rw (h.0))

pub fsname_text-Lacks : (o : Option Bytes) → IsField o → Lacks b',' (fsname_text o)
unfolding fsname_text
fsname_text-Lacks none h = (omega arith, tt)
fsname_text-Lacks (some []) h = (omega arith, tt)
fsname_text-Lacks (some (c ∷ s)) h = h.1

encode_minimal-comma : (s : Bytes) → Lacks b',' (encode_minimal s)
encode_minimal-comma s =
    All-imp (λ c. (c ≢ b',') × (c ≢ b'\n')) (λ c. c ≢ b',') (λ c h. h.0) (encode_minimal s)
      (encode_minimal-Lacks s)

c_string_id : (s : Bytes) → Lacks 0 s → c_string s ≡ s
unfolding c_string
c_string_id [] h = refl
c_string_id (c ∷ s) h = ground (arith, c_string_id s h.1)

-- A text of a symbolic link: a string that a setter stores.
abbrev pub IsTarget : Option Bytes → Type 0
IsTarget none = Unit
IsTarget (some s) = (csv_field_is_null s ≡ false) × Lacks 0 s

encode_minimal-ne : (s : Bytes) → s ≢ [] → encode_minimal s ≢ []
encode_minimal-ne s ne e =
    let empty : unescape [] 0 ≡ [] = unfold unescape in refl in
    ne (sym (unescape-encode_minimal s) ∙ (ap (λ t. unescape t 0) e ∙ empty))

dot_if_empty-ne : (s : Bytes) → dot_if_empty s ≢ []
unfolding dot_if_empty
dot_if_empty-ne [] e = ground (arith, e)
dot_if_empty-ne (c ∷ s) e = ground (arith, e)

module _ (base : Bytes) (cwd : Option Bytes) where
  -- A second path name.
  abbrev pub IsSecond : Option Pn → Type 0
  IsSecond none = Unit
  IsSecond (some pn) = IsStable base pn × Lacks 0 (pn_get_rel pn)

  set_link_decoded :
      (letter : ℕ) (text s : Bytes) (ps : Ps)
      → text ≢ []
      → c_string (unescape text 0) ≡ s
      → (letter ≡ ps_symlink
          → set_link base cwd letter text ps ≡ ok (record ps { ps_target = set_str (some s) }))
        × ((pn : Pn)
            → letter ≢ ps_symlink
            → pn_new base cwd s false ≡ ok pn
            → set_link base cwd letter text ps ≡ ok (record ps { ps_pn2 = some pn }))
  unfolding set_link
  set_link_decoded letter [] s ps ne e = absurd (ne refl)
  set_link_decoded letter (t ∷ r) s ps ne e = (
    λ same. rw (e, same),
    λ pn other made.
        let no : (letter == ps_symlink) ≡ false = ground (arith, other) in
        rw (no) (rw (e) (rw made)),
  )

  -- What the encoded text of a string decodes to.
  decode : (s : Bytes) → Lacks 0 s → c_string (unescape (encode_minimal s) 0) ≡ s
  decode s l = rw (unescape-encode_minimal s) (c_string_id s l)

  -- A state without its link.
  abbrev pub unlinked : Ps → Ps
  unlinked ps = record ps { ps_pn2 = none; ps_target = none }

  -- The link of a state: a symbolic link has a text or none, any other a path name or none.
  pub data IsLink (ps : Ps) : Type 0 where
    target_of : ps.ps_datatype ≡ ps_symlink → ps.ps_pn2 ≡ none → IsTarget ps.ps_target → IsLink ps
    second_of : ps.ps_datatype ≢ ps_symlink → ps.ps_target ≡ none → IsSecond ps.ps_pn2 → IsLink ps

  set_link_target :
      (target : Option Bytes) (letter : ℕ) (ps : Ps)
      → letter ≡ ps_symlink
      → IsTarget target
      → set_link base cwd letter (link_text none target) (unlinked ps)
        ≡ ok (record (unlinked ps) { ps_target = target })
  unfolding link_text
  set_link_target none letter ps same h = unfold set_link in refl
  set_link_target (some s) letter ps same h =
      let full : s ≢ [] = λ e. unfold csv_field_is_null in ground (arith, h.0, e) in
      let stored : set_str (some s) ≡ some s = unfold set_str in rw (h.0) in
      (set_link_decoded letter (encode_minimal s) s (unlinked ps) (encode_minimal-ne s full)
          (decode s h.1)).0
        same
      ∙ ap (λ o. ok (record (unlinked ps) { ps_target = o })) stored

  set_link_second :
      (pn2 : Option Pn) (letter : ℕ) (ps : Ps)
      → letter ≢ ps_symlink
      → IsSecond pn2
      → set_link base cwd letter
          (link_text (elim pn2 [ none ↦ none | some pn ↦ some (pn_get_rel pn) ]) none)
          (unlinked ps)
        ≡ ok (record (unlinked ps) { ps_pn2 = pn2 })
  unfolding link_text
  set_link_second none letter ps other h = unfold set_link in refl
  set_link_second (some pn) letter ps other h =
      let rel = pn_get_rel pn in
      (set_link_decoded letter (encode_minimal rel) rel (unlinked ps)
          (encode_minimal-ne rel (unfold pn_get_rel in dot_if_empty-ne _)) (decode rel h.1)).1
        pn other (pn_new-pn_get_rel base cwd pn h.0)

  pub set_link-target_text :
      (ps ps' : Ps)
      → IsLink ps
      → set_link base cwd ps.ps_datatype (target_text ps) (unlinked ps')
        ≡ ok (record ps' { ps_pn2 = ps.ps_pn2; ps_target = ps.ps_target })
  unfolding target_text ps_get_rel2
  set_link-target_text ps ps' (target_of same none2 h) =
      rw none2 (set_link_target ps.ps_target ps.ps_datatype ps' same h)
  set_link-target_text ps ps' (second_of other none_target h) =
      rw none_target (set_link_second ps.ps_pn2 ps.ps_datatype ps' other h)

pub link_text-Lacks : (rel2 target : Option Bytes) → Lacks b',' (link_text rel2 target)
unfolding link_text
link_text-Lacks (some rel2) target = encode_minimal-comma rel2
link_text-Lacks none (some target) = encode_minimal-comma target
link_text-Lacks none none = tt
