-- ===== src/Moment/Tests.antt =====
-- Moments, on examples.
use audited_objects.Prelude.{◌≡◌, refl, Bytes, codes, arith, ok}
use audited_objects.Prelude.Int.{pos, negsuc, ◌*ℤ◌, ◌+ℤ◌}
use audited_objects.Prelude.Word.{to_u64, to_i64}
use audited_objects.Radix.{radix_loop, format_to_radix}
use audited_objects.Radix.Scan.{digit_val, scan, skip_space, sign, strtoll}
use audited_objects.Moment.{
  Moment, moment_bufmax, nanos, minus64, sign_of, moment_cmp, moment_parse, cut_at, moment_format,
  format_csv,
}
use audited_objects.Moment.Order.{IsRecent}
use audited_objects.Moment.RoundTrip.{IsMoment, moment_parse-moment_format}

abbrev noon : Moment
noon = record { ntv_sec = pos 1000; ntv_nsec = pos 500000000 }

abbrev tick : Moment
tick = record { ntv_sec = pos 1000; ntv_nsec = pos 500000001 }

abbrev later : Moment
later = record { ntv_sec = pos 1002; ntv_nsec = pos 250000000 }

abbrev old : Moment
old = record { ntv_sec = negsuc 4; ntv_nsec = pos 0 }

abbrev noon-IsRecent : IsRecent noon
noon-IsRecent = record {
  sec = 1000;
  nsec = 500000000;
  is_sec = refl;
  is_nsec = refl;
  fits = omega arith;
}

abbrev tick-IsRecent : IsRecent tick
tick-IsRecent = record {
  sec = 1000;
  nsec = 500000001;
  is_sec = refl;
  is_nsec = refl;
  fits = omega arith;
}

abbrev later-IsRecent : IsRecent later
later-IsRecent = record {
  sec = 1002;
  nsec = 250000000;
  is_sec = refl;
  is_nsec = refl;
  fits = omega arith;
}

written :
    (moment_format noon moment_bufmax ≡ ok (codes "rs.89oqgw"))
    × (moment_parse (codes "rs.") ≡ ok (0, record { ntv_sec = pos 1000; ntv_nsec = pos 0 }))
    × (moment_parse (codes "rs") ≡ ok (1, record { ntv_sec = pos 0; ntv_nsec = pos 0 }))
unfolding moment_format format_csv format_to_radix radix_loop to_u64 moment_parse cut_at strtoll
    digit_val scan skip_space sign
written = (refl, refl, refl)

compared : (moment_cmp 1000 later noon ≡ pos 1) × (moment_cmp 1000 noon tick ≡ pos 0)
unfolding moment_cmp nanos minus64 sign_of to_u64 to_i64 ◌*ℤ◌ ◌+ℤ◌
compared = (refl, refl)

noon-IsMoment : IsMoment noon
noon-IsMoment = record {
  sec = 1000;
  nsec = 500000000;
  is_sec = refl;
  is_nsec = refl;
  small_sec = omega arith;
  small_nsec = omega arith;
}

moment_parse-moment_format_example :
    (text : Bytes) × (moment_format noon moment_bufmax ≡ ok text)
    × (moment_parse text ≡ ok (0, noon))
moment_parse-moment_format_example = moment_parse-moment_format noon noon-IsMoment
