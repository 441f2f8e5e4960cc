-- ===== src/Client/Details.antt =====
-- The length of a trimmed diagnostic.
use native.Mathlib.Nat.{div-mul-le_self}
use zolexai.Prelude.{
  ℕ, ◌-◌, ◌*◌, ◌≤◌, ◌≡◌, List, ◌++◌, arith, leb, length, length-take, length-drop, length-append,
  take, drop, min, Bool-cases, inl, inr,
}
use zolexai.Client.{fit_detail, marker, room_for, head_for}

-- A diagnostic that the API's limit allows is sent whole, and a longer one is cut to exactly the
-- limit, whenever the limit has room for the marker.
length-fit_detail :
    (limit : ℕ) (detail : List ℕ)
    → length marker ≤ limit
    → length (fit_detail limit detail) ≡ min (length detail) limit
unfolding fit_detail
length-fit_detail limit detail h = elim (Bool-cases (leb (length detail) limit)) [
  | inl fits ↦ rw fits (ground arith)
  | inr long ↦
      let head = head_for limit in
      let cut = length detail - (room_for limit - head) in
      rw
        (
          long,
          length-append (take head detail ++ marker) (drop cut detail),
          length-append (take head detail) marker,
          length-take head detail,
          length-drop cut detail,
        )
        (ground (arith, div-mul-le_self (room_for limit * 2) 5))
]
