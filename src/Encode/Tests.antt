-- ===== src/Encode/Tests.antt =====
-- Encoding and decoding, on examples.
use audited_objects.Prelude.{◌≡◌, ◌≢◌, refl, codes, All}
use audited_objects.Radix.Scan.{digit_val}
use audited_objects.Encode.{encode_minimal, is_special, unescape, unescape_loop, is_xdigit}
use audited_objects.Encode.RoundTrip.{unescape-encode_minimal, encode_minimal-Lacks}

encoded :
    (encode_minimal (codes "a,b%\n") ≡ codes "a%2Cb%25%0A")
    × (unescape (codes "a%2cb%") 0 ≡ codes "a,b%")
    × (unescape (codes "a%2cb%") 3 ≡ codes "a,")
unfolding encode_minimal is_special unescape unescape_loop is_xdigit digit_val
encoded = (refl, refl, refl)

unescape-encode_minimal_example : unescape (encode_minimal (codes "a,b%")) 0 ≡ codes "a,b%"
unescape-encode_minimal_example = unescape-encode_minimal (codes "a,b%")

encode_minimal-Lacks_example : All (λ c. (c ≢ b',') × (c ≢ b'\n')) (encode_minimal (codes "a,b%"))
encode_minimal-Lacks_example = encode_minimal-Lacks (codes "a,b%")
