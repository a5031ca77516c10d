-- ===== src/Prop/Lines.antt =====
-- What a well-formed line of a *.properties file sets (src/prop.c).
use audited_objects.Prelude.{
  ℕ, ◌≤◌, ◌≡◌, ◌≢◌, refl, ap, ◌∙◌, Bool, true, false, same_text, ◌==◌, [], ◌∷◌, ◌++◌, Option, none,
  some, Bytes, All, length, length-append, take_all, is_space, arith, ok, ◌>>=◌, Bool-cases, ◌⊎◌,
  inl, inr,
}
use mathlib.Core.Path.{◌≡⟨◌⟩◌, ◌∎}
use audited_objects.Radix.Scan.{skip_space}
use audited_objects.Prop.{PropE, number}
use audited_objects.Prop.Table.{prop_from_name, prop_to_name}
use audited_objects.Prop.Environment.{Environ, Props}
use audited_objects.Prop.Line.{
  strip_right, ends_key, scan_key, skip_delimiter, value_after, load_value, load_found, load_named,
  load_pair, load_text, load_stripped, process_buf, prop_process_line,
}
use audited_objects.Prop.Names.{IsProptab, prop_from_name-prop_to_name}

abbrev pub IsBlank : Bytes → Type 0
IsBlank s = All (λ c. is_space c ≡ true) s

-- A character of a key that stands for itself.
abbrev pub IsPlain : ℕ → Type 0
IsPlain c = (ends_key c ≡ false) × (c ≢ b'\\')

strip_right-blank :
    (s sp : Bytes) → strip_right s ≡ none → IsBlank sp → strip_right (s ++ sp) ≡ none
unfolding strip_right
strip_right-blank [] [] h b = refl
strip_right-blank [] (c ∷ sp) h b = rw (strip_right-blank [] sp refl b.1) (rw b.0 refl)
strip_right-blank (c ∷ s) sp h b = ground (arith, strip_right-blank s sp)

strip_right-append :
    (s sp t : Bytes) → strip_right s ≡ some t → IsBlank sp → strip_right (s ++ sp) ≡ some t
unfolding strip_right
strip_right-append [] sp t h b = cc
strip_right-append (c ∷ s) sp t h b =
    by_rest (strip_right s) refl (λ u e. strip_right-append s sp u e b)
  where
    by_rest :
        (o : Option Bytes)
        → strip_right s ≡ o
        → ((u : Bytes) → strip_right s ≡ some u → strip_right (s ++ sp) ≡ some u)
        → strip_right (c ∷ s ++ sp) ≡ some t
    by_rest none e ih = rw (strip_right-blank s sp e b) (rw e at h)
    by_rest (some u) e ih = rw (ih u e) (rw e at h)

append-strip_right : (x s t : Bytes) → strip_right s ≡ some t → strip_right (x ++ s) ≡ some (x ++ t)
unfolding strip_right
append-strip_right [] s t h = h
append-strip_right (c ∷ x) s t h = rw (append-strip_right x s t h) refl

skip_space-blank : (sp s : Bytes) → IsBlank sp → skip_space (sp ++ s) ≡ skip_space s
unfolding skip_space
skip_space-blank [] s b = refl
skip_space-blank (c ∷ sp) s b = rw b.0 (skip_space-blank sp s b.1)

scan_key-step :
    (k d : ℕ) (s : Bytes)
    → IsPlain k
    → scan_key (k ∷ d ∷ s) ≡ (k ∷ (scan_key (d ∷ s)).0, (scan_key (d ∷ s)).1)
unfolding scan_key
scan_key-step k d s p =
    let other : (k == b'\\') ≡ false = ground (arith, p.1) in rw p.0 (rw other refl)

scan_key-end : (c : ℕ) (rest : Bytes) → ends_key c ≡ true → scan_key (c ∷ rest) ≡ ([], c ∷ rest)
unfolding scan_key
scan_key-end c [] e = rw e refl
scan_key-end c (d ∷ rest) e = rw e refl

scan_key-plain :
    (key : Bytes) (c : ℕ) (rest : Bytes)
    → All IsPlain key
    → ends_key c ≡ true
    → scan_key (key ++ (c ∷ rest)) ≡ (key, c ∷ rest)
scan_key-plain [] c rest p e = scan_key-end c rest e
scan_key-plain (k ∷ []) c rest p e = scan_key-step k c rest p.0 ∙ rw (scan_key-end c rest e) refl
scan_key-plain (k ∷ l ∷ key) c rest p e =
    scan_key-step k l (key ++ (c ∷ rest)) p.0 ∙ rw (scan_key-plain (l ∷ key) c rest p.1 e) refl

abbrev pub IsDelimiter : ℕ → Type 0
IsDelimiter c = (c ≡ b'=') ⊎ (c ≡ b':')

delimiter_cases :
    (c : ℕ) (s : Bytes)
    → IsDelimiter c
    → (is_space c ≡ false)
      × (ends_key c ≡ true)
      × (skip_delimiter (c ∷ s) ≡ s)
      × (skip_space (c ∷ s) ≡ c ∷ s)
unfolding ends_key skip_delimiter skip_space is_space
delimiter_cases c s (inl e) = rw e (refl, refl, refl, refl)
delimiter_cases c s (inr e) = rw e (refl, refl, refl, refl)

-- The value behind a delimiter, with white space on both sides.
module _ (sp' val : Bytes) (eq : ℕ) (b' : IsBlank sp') (q : IsDelimiter eq)
    (v : skip_space val ≡ val) where
  value_after-close : value_after eq (sp' ++ val) ≡ val
  unfolding value_after
  value_after-close = rw ((delimiter_cases eq [] q).0) (skip_space-blank sp' val b' ∙ v)

  value_after-far :
      (c : ℕ) (sp : Bytes)
      → is_space c ≡ true
      → IsBlank sp
      → value_after c (sp ++ (eq ∷ sp' ++ val)) ≡ val
  unfolding value_after
  value_after-far c sp e b =
      let (_, _, d, k) = delimiter_cases eq (sp' ++ val) q in
      rw e (
        rw (skip_space-blank sp (eq ∷ sp' ++ val) b)
          (rw k (rw d (skip_space-blank sp' val b' ∙ v))))

  -- Key and value of a line without white space at its ends.
  pair_of :
      (env : Environ) (win : Bool) (key sp : Bytes) (s : Props env)
      → All IsPlain key
      → IsBlank sp
      → load_pair env win (scan_key (key ++ (sp ++ (eq ∷ sp' ++ val)))) s
        ≡ load_named env win key val s
  unfolding load_pair
  pair_of env win key [] s p b =
      let k = (delimiter_cases eq [] q).1 in
      rw (scan_key-plain key eq (sp' ++ val) p k) (rw value_after-close refl)
  pair_of env win key (c ∷ sp) s p b =
      let k : ends_key c ≡ true = unfold ends_key in (rw b.0 refl) in
      rw (scan_key-plain key c (sp ++ (eq ∷ sp' ++ val)) p k)
        (rw (value_after-far c sp b.0 b.1) refl)

-- A line of two characters at least, with something else than white space.
process_buf-text :
    (env : Environ) (win : Bool) (line text : Bytes) (s : Props env)
    → 2 ≤ length line
    → strip_right line ≡ some text
    → process_buf env win line s ≡ load_text env win (skip_space text) s
unfolding process_buf
process_buf-text env win [] text s h e = absurd (omega arith)
process_buf-text env win (c ∷ []) text s h e = absurd (omega arith)
process_buf-text env win (c ∷ d ∷ t) text s h e = ap (λ o. load_stripped env win o s) e

load_text-key :
    (env : Environ) (win : Bool) (k : ℕ) (t : Bytes) (s : Props env)
    → k ≢ b'#'
    → k ≢ b'!'
    → load_text env win (k ∷ t) s ≡ load_pair env win (scan_key (k ∷ t)) s
unfolding load_text
load_text-key env win k t s h h' =
    let a : (k == b'#') ≡ false = ground arith in
    let b : (k == b'!') ≡ false = ground arith in rw a (rw b refl)

skip_space-plain : (k : ℕ) (s : Bytes) → ends_key k ≡ false → skip_space (k ∷ s) ≡ k ∷ s
unfolding skip_space ends_key
skip_space-plain k s e = elim (Bool-cases (is_space k)) [
  | inl space ↦ cc (rw space at e)
  | inr other ↦ rw other refl
]

-- A line whose text is a key that the table has, a delimiter and a value.
module _ (before sp sp' val after key : Bytes) (k eq : ℕ) (w : strip_right val ≡ some val) where
  text_of : Bytes
  text_of = (k ∷ key) ++ (sp ++ (eq ∷ sp' ++ val))

  length-text_of : 2 ≤ length (before ++ (text_of ++ after))
  unfolding text_of
  length-text_of = omega (
    arith,
    length-append before (text_of ++ after),
    length-append text_of after,
    length-append key (sp ++ (eq ∷ sp' ++ val)),
    length-append sp (eq ∷ sp' ++ val),
  )

  strip_right-text_of :
      IsBlank after → strip_right (before ++ (text_of ++ after)) ≡ some (before ++ text_of)
  unfolding text_of
  strip_right-text_of b = append-strip_right before (text_of ++ after) text_of (
      strip_right-append text_of after text_of
        (append-strip_right (k ∷ key) (sp ++ (eq ∷ sp' ++ val)) (sp ++ (eq ∷ sp' ++ val)) (
          append-strip_right sp (eq ∷ sp' ++ val) (eq ∷ sp' ++ val)
            (append-strip_right (eq ∷ sp') val val w)))
        b)

named :
    (env : Environ) (s : Props env) (p : PropE) (win : Bool) (key val : Bytes)
    → prop_from_name key s.proptab 0 ≡ some (number p)
    → load_named env win key val s ≡ (do s' ← load_value env win (number p) val s; ok (0, s'))
unfolding load_named load_found
named env s p win key val e = ap (λ o. load_found env win o val s) e

-- The line comes to the loading of its value.
pub prop_process_line-load_value :
    (env : Environ) (s : Props env) (p : PropE) (win : Bool) (name : Bytes) (k : ℕ)
    (key before sp sp' val after line : Bytes) (eq : ℕ)
    → IsProptab s.proptab
    → prop_to_name s.proptab (number p) ≡ ok name
    → same_text (k ∷ key) name ≡ true
    → All IsPlain (k ∷ key)
    → k ≢ b'#'
    → k ≢ b'!'
    → IsBlank before × IsBlank sp × IsBlank sp' × IsBlank after
    → IsDelimiter eq
    → skip_space val ≡ val
    → strip_right val ≡ some val
    → line ≡ before ++ (((k ∷ key) ++ (sp ++ (eq ∷ sp' ++ val))) ++ after)
    → length line ≤ 1023
    → prop_process_line env line win s ≡ (do s' ← load_value env win (number p) val s; ok (0, s'))
unfolding prop_process_line text_of
prop_process_line-load_value env s p win name k key before sp sp' val after line eq h to same plain
      hash bang blank q v w e fits =
    let text : Bytes = text_of before sp sp' val after key k eq w in
    prop_process_line env line win s
    ≡⟨ ap (λ l. process_buf env win l s) (take_all 1023 line fits ∙ e) ⟩
      process_buf env win (before ++ (text ++ after)) s
    ≡⟨ process_buf-text env win (before ++ (text ++ after)) (before ++ text) s
        (length-text_of before sp sp' val after key k eq w)
        (strip_right-text_of before sp sp' val after key k eq w blank.3) ⟩
      load_text env win (skip_space (before ++ text)) s
    ≡⟨ ap (λ l. load_text env win l s)
        (skip_space-blank before text blank.0 ∙ skip_space-plain k _ plain.0.0) ⟩
      load_text env win text s
    ≡⟨ load_text-key env win k (key ++ (sp ++ (eq ∷ sp' ++ val))) s hash bang ⟩
      load_pair env win (scan_key text) s
    ≡⟨ pair_of sp' val eq blank.2 q v env win (k ∷ key) sp s plain blank.1 ⟩
      load_named env win (k ∷ key) val s
    ≡⟨ named env s p win (k ∷ key) val
        (prop_from_name-prop_to_name s.proptab p name (k ∷ key) h to same) ⟩
      (do s' ← load_value env win (number p) val s; ok (0, s')) ∎
