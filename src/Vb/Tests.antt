-- ===== src/Vb/Tests.antt =====
-- Tests of the model of src/vb.c.
use audited_objects.Prelude.{
  ℕ, ◌<◌, ◌≡◌, refl, true, false, not, ◌&&◌, ◌||◌, ◌==◌, none, some, codes, cut_string, ok, ◌>>=◌,
  arith,
}
use audited_objects.Prelude.Int.{pos}
use audited_objects.Prop.{PropRow, number, p_verbosity}
use audited_objects.Prop.Rows.{proptab}
use audited_objects.Prop.Table.{prop_get_str}
use audited_objects.Prop.Environment.{prop_to_ev, public_name}
use audited_objects.Prop.Settings.{variable}
use audited_objects.Prop.Sample.{vars, start, start_IsProptab, getenv, putenv}
use audited_objects.Vb.{VbRow, vbtab, vbflag_public}
use audited_objects.Vb.Mask.{vb_term, term_bit, term_unknown, vb_name2mask}
use audited_objects.Vb.State.{Vb, vbmask_unset, vb_addbit, vb_addstr, vb_bitmatch}
use audited_objects.Vb.Bits.{vb_bitmatch-vb_addbit}

-- "C" stands for CA, and "U" for URL, not for UP; "-" takes all terms back.
vb_term_short : vb_term (codes "c") ≡ term_bit 3
unfolding vb_term vbtab
vb_term_short = refl

vb_term_url : vb_term (codes "U") ≡ term_bit 11
unfolding vb_term vbtab
vb_term_url = refl

vb_term_wrong : vb_term (codes "URLS") ≡ term_unknown
unfolding vb_term vbtab
vb_term_wrong = refl

vb_name2mask_reset : vb_name2mask (codes "shop,,-,why") 9 ≡ false
unfolding vb_name2mask vbtab
vb_name2mask_reset = refl

vb_name2mask_why : vb_name2mask (codes "shop,,-,why") 12 ≡ true
unfolding vb_name2mask vbtab
vb_name2mask_why = refl

unfoldable quiet : Vb vars
unfolding start
quiet = record { mask = vbmask_unset; props = start }

abbrev verbosity_row : PropRow
verbosity_row = record {
  pr_name = codes "Verbosity";
  pr_value = none;
  pr_desc = codes "Set verbosity flags";
  pr_dflt = some (codes "STD");
  pr_flags = 3;
  pr_pad = 0;
  pr_index = p_verbosity;
}

abbrev shop_row : VbRow
shop_row = record {
  vb_name = codes "SHOP";
  vb_flags = vbflag_public;
  vb_desc = codes "Show shopping activities";
}

off_then_shop :
    (do
      v ← vb_addstr vars (some (codes "=off")) quiet
      v' ← vb_addbit vars 9 v
      (std, v'') ← vb_bitmatch vars (pos 0) v'
      (shop, w) ← vb_bitmatch vars (pos 9) v''
      ok (not std && shop))
    ≡ ok true
unfolding quiet start vars number prop_get_str proptab vbtab vb_addstr vb_addbit vb_bitmatch getenv
    putenv cut_string
off_then_shop = refl

vb_bitmatch-vb_addbit_example :
    (v' : Vb vars) × (vb_addbit vars 9 quiet ≡ ok v')
    × ((j : ℕ)
        → j < 31
        → (v'' : Vb vars) × (vb_bitmatch vars (pos j) v'
            ≡ ok (j == 9 || vb_name2mask (codes "STD") j, v'')))
unfolding quiet start variable prop_to_ev public_name number prop_get_str proptab vbtab
vb_bitmatch-vb_addbit_example =
    vb_bitmatch-vb_addbit vars quiet verbosity_row shop_row 9 (codes "STD") start_IsProptab refl
      refl (omega arith) refl (omega arith) refl
