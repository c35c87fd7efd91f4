-- ===== src/Order/Arguments.antt =====
-- order/src/order_generation_service.cpp: `parse_stations_argument`.
use p7_kode.Base.{
  ◌≡◌, refl, ap, ◌∙◌, List, [], ◌∷◌, ◌++◌, map, Result, ok, err, invalid_argument, All, arith,
  append_assoc, append-nil,
}
use p7_kode.Base.Int.{ℤ, InInt}
use p7_kode.Base.Text.{Bytes}
use p7_kode.Base.Decimal.{to_string, stoi, stoi-to_string, to_string-All}
use p7_kode.Util.Split.{split, join, split-join, Lacks}

-- What is pushed for one station; `go_on` is the rest of the loop.
abbrev parse_station : Result ℤ → List ℤ → (List ℤ → Result (List ℤ)) → Result (List ℤ)
parse_station (ok station) stations go_on = go_on (stations ++ station ∷ [])
parse_station (err invalid_argument) stations go_on = go_on stations
parse_station (err e) stations go_on = err e

unfoldable pub stations_loop : List Bytes → List ℤ → Result (List ℤ)
stations_loop [] stations = ok stations
stations_loop (station ∷ rest) stations = parse_station (stoi station) stations (stations_loop rest)

unfoldable pub parse_stations_argument : Bytes → Result (List ℤ)
parse_stations_argument argument = stations_loop (split argument b' ') []

to_string-Lacks : (z : ℤ) → Lacks b' ' (to_string z)
to_string-Lacks z = to_string-All z (ground arith) (λ c h. ground arith)

to_strings-Lacks : (zs : List ℤ) → All (Lacks b' ') (map to_string zs)
to_strings-Lacks [] = tt
to_strings-Lacks (z ∷ zs) = (to_string-Lacks z, to_strings-Lacks zs)

stations_loop-to_strings :
    (zs stations : List ℤ)
    → All InInt zs
    → stations_loop (map to_string zs) stations ≡ ok (stations ++ zs)
unfolding stations_loop
stations_loop-to_strings [] stations h = ap ok (rw (append-nil stations) refl)
stations_loop-to_strings (z ∷ zs) stations (h, hs) = rw (stoi-to_string z h) (
    stations_loop-to_strings zs (stations ++ z ∷ []) hs
    ∙ rw (append_assoc stations (z ∷ []) zs) refl)

-- The stations, one or more ints, are read back from their decimal texts with a space between each two.
pub parse_stations_argument-join :
    (z : ℤ) (zs : List ℤ)
    → All InInt (z ∷ zs)
    → parse_stations_argument (join b' ' (map to_string (z ∷ zs))) ≡ ok (z ∷ zs)
unfolding parse_stations_argument
parse_stations_argument-join z zs h =
    let pieces = split-join (map to_string (z ∷ zs)) b' ' (λ e. cc) (to_strings-Lacks (z ∷ zs)) in
    rw (parse_stations_argument, pieces) (stations_loop-to_strings (z ∷ zs) [] h)
