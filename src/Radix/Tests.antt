-- ===== src/Radix/Tests.antt =====
-- Numbers as text, on examples.
use audited_objects.Prelude.{◌≡◌, ◌^◌, ◌-◌, refl, some, none, Bytes, codes, arith}
use audited_objects.Prelude.Int.{pos, negsuc}
use audited_objects.Radix.{radix_loop, format_to_radix}
use audited_objects.Radix.Scan.{strtoul, strtoll, digit_val, scan, skip_space, sign}
use audited_objects.Radix.RoundTrip.{IsNumeral, format_to_radix_total, strtoul-format_to_radix}

formatted :
    (format_to_radix 36 32 123456 ≡ some (codes "2n9c"))
    × (format_to_radix 10 32 0 ≡ some (codes "0"))
    × (format_to_radix 36 32 (2 ^ 64 - 1) ≡ some (codes "3w5e11264sgsf"))
    × (format_to_radix 10 3 123 ≡ none)
    × (format_to_radix 63 32 1 ≡ none)
unfolding format_to_radix radix_loop
formatted = (refl, refl, refl, refl, refl)

read :
    (strtoul 10 (codes " +42x") ≡ 42)
    × (strtoul 36 (codes "2N9C") ≡ 123456)
    × (strtoul 10 (codes "-1") ≡ 2 ^ 64 - 1)
    × (strtoll 10 (codes "-8") ≡ negsuc 7)
    × (strtoll 36 (codes "3w5e11264sgsf") ≡ pos (2 ^ 63 - 1))
unfolding strtoul strtoll digit_val scan skip_space sign
read = (refl, refl, refl, refl, refl)

format_to_radix_total_example :
    (text : Bytes) × (format_to_radix 36 32 123456 ≡ some text) × IsNumeral 36 123456 text
format_to_radix_total_example =
    format_to_radix_total 36 32 123456 (omega arith, omega arith) (omega arith) (omega arith)

strtoul-format_to_radix_example : strtoul 36 (codes "2n9c") ≡ 123456
strtoul-format_to_radix_example =
    strtoul-format_to_radix 36 32 123456 (codes "2n9c") (omega arith, omega arith) (omega arith)
      (formatted.0)
