-- ===== src/GroupManager/Address.antt =====
-- The address of a peer: `parsePort` and `parseIP` of src/utils/groupManager/groupManager.cpp.
use tpst.Prelude.{
  ℕ, suc, ◌+◌, ◌≡◌, ap, Bool, true, false, [], ◌∷◌, ◌++◌, Option, none, some, Bytes, codes, Result,
  err, ok, ◌>>=◌, out_of_range, length, take, drop, ltb, ◌==◌, if◌then◌else◌, arith,
}
use tpst.Utils.StrParse.{find, or_fail}
use tpst.Utils.StrParse.RoundTrip.{Lacks, find-append, drop-suc-length, take-length}

unfoldable pub starts_with : Bytes → Bytes → Bool
starts_with [] s = true
starts_with (c ∷ p) [] = false
starts_with (c ∷ p) (d ∷ s) = if c == d then starts_with p s else false

-- `s.find(p)` of a text.
unfoldable pub find_text : Bytes → Bytes → Option ℕ
unfolding starts_with
find_text p [] = if starts_with p [] then some 0 else none
find_text p (c ∷ s) =
    if starts_with p (c ∷ s)
    then some 0
    else elim (find_text p s) [ none ↦ none | some i ↦ some (suc i) ]

-- `s.erase(from, n)`: a position behind the end throws, and that of -1 is behind every end.
unfoldable pub erase_from : Option ℕ → ℕ → Bytes → Result Bytes
erase_from none n s = err out_of_range
erase_from (some from) n s =
    if ltb (length s) from then err out_of_range else ok (take from s ++ drop (from + n) s)

abbrev scheme : Bytes
scheme = codes "ipv4:"

-- `peerURL.erase(0, endPosition + 1)`, where -1 erases nothing.
abbrev behind_colon : Option ℕ → Bytes → Bytes
behind_colon none url = url
behind_colon (some i) url = drop (suc i) url

-- `parsePort`.
unfoldable pub parse_port : Bytes → Result Bytes
unfolding find find_text erase_from
parse_port peer_url = do
  url ← erase_from (find_text scheme peer_url) 5 peer_url
  ok (behind_colon (find b':' url) url)

-- `parseIP`: the second erasure goes to the end.
unfoldable pub parse_ip : Bytes → Result Bytes
unfolding find find_text erase_from
parse_ip peer_url = do
  url ← erase_from (find_text scheme peer_url) 5 peer_url
  start ← or_fail (find b':' url) out_of_range
  ok (take start url)

abbrev pub peer_url : Bytes → Bytes → Bytes
peer_url ip port = codes "ipv4:" ++ ip ++ (b':' ∷ port)

erase-scheme :
    (url : Bytes)
    → erase_from (find_text scheme (codes "ipv4:" ++ url)) 5 (codes "ipv4:" ++ url) ≡ ok url
unfolding find_text erase_from
erase-scheme url = ground arith

-- The address and the port of a peer's URL, for an address with no colon.
pub parse-peer_url :
    (ip port : Bytes)
    → Lacks b':' ip
    → (parse_ip (peer_url ip port) ≡ ok ip) × (parse_port (peer_url ip port) ≡ ok port)
unfolding parse_ip parse_port
parse-peer_url ip port lacks = rw (erase-scheme (ip ++ (b':' ∷ port))) (
    rw (find-append b':' ip port lacks)
      (ap ok (take-length ip (b':' ∷ port)), ap ok (drop-suc-length ip b':' port)))
