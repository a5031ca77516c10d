-- ===== src/Vb/State.antt =====
-- The operations on the verbosity in src/vb.c. The terms are the value of the property Verbosity of
-- src/prop.c; the static variable has the mask once it has been asked for.
use audited_objects.Prelude.{
  ℕ, zero, suc, Bool, true, false, not, ◌&&◌, ◌||◌, ◌==◌, ltb, if◌then◌else◌, [], ◌∷◌, ◌++◌, Option,
  none, some, Bytes, get_elem?, Outcome, ok, abort, ◌>>=◌,
}
use audited_objects.Prelude.Int.{ℤ, pos, negsuc}
use audited_objects.Prop.{number, p_verbosity}
use audited_objects.Prop.Table.{prop_get_str}
use audited_objects.Prop.Environment.{Environ, Props, prop_put_str, prop_override_str}
use audited_objects.Vb.{VbRow, vbtab}
use audited_objects.Vb.Mask.{Mask, vb_name2mask}

-- VBMASK_UNSET, which is -2: all bits but the first.
unfoldable pub vbmask_unset : Mask
vbmask_unset j = not (j == 0)

unfoldable same_bit : Bool → Bool → Bool
same_bit true b = b
same_bit false b = not b

-- Are the first bits of two masks the same?
unfoldable pub same_bits : ℕ → Mask → Mask → Bool
unfolding same_bit
same_bits zero m m' = true
same_bits (suc n) m m' = let rest = same_bits n m m' in same_bit (m n) (m' n) && rest

-- The help for "", "?" and "+" ends the process.
unfoldable unless_help : Bytes → Option Bytes
unless_help [] = none
unless_help (c ∷ s) = if c == b'?' || c == b'+' then none else some (c ∷ s)

-- The terms in the argument of vb_addstr, which may have a '=' in front.
unfoldable pub vb_argument : Option Bytes → Option Bytes
unfolding unless_help
vb_argument none = none
vb_argument (some []) = none
vb_argument (some (c ∷ s)) = if c == b'=' then unless_help s else unless_help (c ∷ s)

module _ (env : Environ) where
  -- The static mask, and the state of the settings.
  pub record Vb : Type 0 where
    pub mask : Mask
    pub props : Props env

  -- The value of the property with the new terms, by the one it has.
  unfoldable pub append_terms : Option Bytes → Bytes → Props env → Outcome (Props env)
  unfolding prop_put_str prop_override_str number
  append_terms none vbstr p = prop_put_str env (number p_verbosity) vbstr p
  append_terms (some []) vbstr p = prop_override_str env (number p_verbosity) vbstr p
  append_terms (some (c ∷ s)) vbstr p =
      prop_override_str env (number p_verbosity) ((c ∷ s) ++ (b',' ∷ vbstr)) p

  unfoldable pub add_terms : Option Bytes → Vb → Outcome Vb
  unfolding prop_get_str append_terms number
  add_terms none v = abort
  add_terms (some vbstr) v = do
    currval ← prop_get_str v.props.proptab (number p_verbosity)
    p ← append_terms currval vbstr v.props
    ok (record { mask = vbmask_unset; props = p })

  -- `vb_addstr`
  unfoldable pub vb_addstr : Option Bytes → Vb → Outcome Vb
  unfolding add_terms vb_argument
  vb_addstr vbstr v = add_terms (vb_argument vbstr) v

  unfoldable pub add_row : Option VbRow → Vb → Outcome Vb
  unfolding vb_addstr
  add_row none v = abort
  add_row (some r) v = vb_addstr (some r.vb_name) v

  -- `vb_addbit`; the index behind the last name asks for the help.
  unfoldable pub vb_addbit : ℕ → Vb → Outcome Vb
  unfolding add_row vbtab
  vb_addbit addbit v = add_row (get_elem? vbtab addbit) v

  -- The mask of the property's value; without one the format of a NULL is not defined.
  unfoldable pub known_mask : Option Bytes → Outcome Mask
  unfolding vb_name2mask
  known_mask none = abort
  known_mask (some list) = ok (vb_name2mask list)

  -- The mask, which is calculated if it is not known.
  unfoldable pub vb_mask : Vb → Outcome Vb
  unfolding prop_get_str known_mask same_bits vbmask_unset number
  vb_mask v =
      if same_bits 64 v.mask vbmask_unset
      then (do
        list ← prop_get_str v.props.proptab (number p_verbosity)
        mask ← known_mask list
        ok (record { mask = mask; props = v.props }))
      else ok v

  -- `vb_bitmatch`: VB_ON is -1, VB_OFF is -2. A shift of an `int` is defined for less than 31 bits.
  unfoldable pub vb_bitmatch : ℤ → Vb → Outcome (Bool × Vb)
  unfolding vb_mask
  vb_bitmatch (negsuc zero) v = ok (true, v)
  vb_bitmatch (negsuc (suc zero)) v = ok (false, v)
  vb_bitmatch (negsuc (suc (suc n))) v = abort
  vb_bitmatch (pos bit) v = if ltb bit 31 then (do v' ← vb_mask v; ok (v'.mask bit, v')) else abort
