-- ===== src/WebGet/Tests.antt =====
-- A body in two pieces, and a buffer that holds one of them.
use rigcontrol.Common.{◌<◌, ◌≡◌, arith, some, List, [], ◌∷◌, Bytes, codes, length, take}
use rigcontrol.WebGet.{held, string_in, performed, gm_web_get}
use rigcontrol.WebGet.Gathered.{body, gm_web_get-body}

abbrev pieces : List Bytes
pieces = codes "192.0." ∷ codes "2.1" ∷ []

gm_web_get-body_example :
    (string_in [] (gm_web_get (performed pieces (some 200)) 8).0 ≡ held [] (take 7 (body pieces)))
    × (length (gm_web_get (performed pieces (some 200)) 8).0.stored < 8)
    × ((gm_web_get (performed pieces (some 200)) 8).1 ≡ some 200)
gm_web_get-body_example = gm_web_get-body pieces (some 200) 8 [] (omega arith) (omega arith)
