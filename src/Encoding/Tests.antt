-- ===== src/Encoding/Tests.antt =====
-- Values of one, two and five bytes, and one that the table loses.
use dsyrup.Base.{◌≡◌, refl, some, [], ◌∷◌}
use dsyrup.Encoding.{vwe_encode_uint_tab, vwe_decode_uint_tab}
use dsyrup.Encoding.Read.{vwe_decode_uint_tab-vwe_encode_uint_tab}

vwe_decode_uint_tab-vwe_encode_uint_tab_example :
    vwe_decode_uint_tab 3 (vwe_encode_uint_tab (5 ∷ 300 ∷ 2147483647 ∷ []))
    ≡ some (5 ∷ 300 ∷ 2147483647 ∷ [])
vwe_decode_uint_tab-vwe_encode_uint_tab_example =
    vwe_decode_uint_tab-vwe_encode_uint_tab (5 ∷ 300 ∷ 2147483647 ∷ []) refl

-- From 2 ^ 31 on a value of a table keeps only its lowest seven bits.
lost_bits : vwe_encode_uint_tab (2147483653 ∷ []) ≡ 5 ∷ []
unfolding vwe_encode_uint_tab
lost_bits = refl
