-- ===== src/GetIp/Config.antt =====
-- What `recordIPPort` of src/utils/getip/getip.cpp writes is what `loadIPPort` reads.
use tpst.Prelude.{
  ℕ, zero, suc, ◌+◌, ◌≤◌, ◌≡◌, ◌≢◌, refl, ◌∙◌, ap, true, [], ◌∷◌, ◌++◌, Option, none, some, Bytes,
  ok, ◌>>=◌, length, take, length-append, arith, All-append,
}
use mathlib.Core.List.{append_assoc}
use tpst.Utils.StrParse.RoundTrip.{Lacks}
use tpst.GetIp.{
  fgets, c_string, cut_last, read_lines, skip_colons, until_colon, strtok, split_addr, load_ip_port,
  record_ip_config,
}

-- A text that the file can hold between its separators.
pub record IsPart (s : Bytes) : Type 0 where
  pub full : s ≢ []
  pub no_colon : Lacks b':' s
  pub one_line : Lacks b'\n' s
  pub no_nul : Lacks 0 s

-- A line that the buffer takes is read with its line feed.
fgets-line :
    (room : ℕ) (s t : Bytes)
    → Lacks b'\n' s
    → suc (length s) ≤ room
    → fgets room (s ++ b'\n' ∷ t) ≡ (s ++ b'\n' ∷ [], t)
unfolding fgets
fgets-line zero s t lacks fits = absurd (omega arith)
fgets-line (suc room) [] t lacks fits = refl
fgets-line (suc room) (c ∷ s) t lacks fits = ground (arith, fgets-line room s t)

c_string_self : (s : Bytes) → Lacks 0 s → c_string s ≡ s
unfolding c_string
c_string_self [] lacks = refl
c_string_self (c ∷ s) lacks = ground (arith, c_string_self s)

take-snoc : (d : ℕ) (s : Bytes) (c : ℕ) → take (length (s ++ c ∷ [])) (d ∷ (s ++ c ∷ [])) ≡ d ∷ s
take-snoc d [] c = refl
take-snoc d (e ∷ s) c = ap (λ t. d ∷ t) (take-snoc e s c)

cut_last-snoc : (s : Bytes) (c : ℕ) → cut_last (s ++ c ∷ []) ≡ ok s
unfolding cut_last
cut_last-snoc [] c = refl
cut_last-snoc (d ∷ s) c = ap ok (take-snoc d s c)

until_colon-append : (s t : Bytes) → Lacks b':' s → until_colon (s ++ b':' ∷ t) ≡ (s, t)
unfolding until_colon
until_colon-append [] t lacks = refl
until_colon-append (c ∷ s) t lacks = ground (arith, until_colon-append s t)

until_colon_self : (s : Bytes) → Lacks b':' s → until_colon s ≡ (s, [])
unfolding until_colon
until_colon_self [] lacks = refl
until_colon_self (c ∷ s) lacks = ground (arith, until_colon_self s)

strtok-first : (s t : Bytes) → s ≢ [] → Lacks b':' s → strtok (s ++ b':' ∷ t) ≡ some (s, t)
unfolding strtok skip_colons
strtok-first [] t full lacks = absurd (full refl)
strtok-first (c ∷ s) t full lacks = ground (arith, until_colon-append (c ∷ s) t lacks)

strtok-last : (s : Bytes) → s ≢ [] → Lacks b':' s → strtok s ≡ some (s, [])
unfolding strtok skip_colons
strtok-last [] full lacks = absurd (full refl)
strtok-last (c ∷ s) full lacks = ground (arith, until_colon_self (c ∷ s) lacks)

split_addr-parts :
    (ip port : Bytes)
    → IsPart ip
    → IsPart port
    → split_addr (some (ip ++ b':' ∷ port)) ≡ ok (ip, port)
unfolding split_addr
split_addr-parts ip port h k =
    rw (strtok-first ip port h.full h.no_colon, strtok-last port k.full k.no_colon) refl

-- The one line of the file.
abbrev pub addr_line : Bytes → Bytes → Bytes
addr_line ip port = ip ++ b':' ∷ port

record-addr_line :
    (ip port : Bytes) → ip ++ b':' ∷ (port ++ b'\n' ∷ []) ≡ addr_line ip port ++ b'\n' ∷ []
record-addr_line ip port = simp append_assoc

-- The bytes of a file that is one line, read from its first byte.
read_lines-step :
    (fuel : ℕ) (line : Bytes) (buf : Option Bytes)
    → read_lines (suc fuel) (line ++ b'\n' ∷ []) buf ≡ (
        cut_last (c_string (fgets 255 (line ++ b'\n' ∷ [])).0) >>= λ s.
        read_lines fuel (fgets 255 (line ++ b'\n' ∷ [])).1 (some s))
unfolding read_lines
read_lines-step fuel [] buf = refl
read_lines-step fuel (c ∷ s) buf = refl

read_lines-one :
    (fuel : ℕ) (line : Bytes) (buf : Option Bytes)
    → Lacks b'\n' line
    → Lacks 0 line
    → length line ≤ 254
    → 1 ≤ fuel
    → read_lines fuel (line ++ b'\n' ∷ []) buf ≡ ok (some line)
read_lines-one zero line buf one_line no_nul fits enough = absurd (omega arith)
read_lines-one (suc fuel) line buf one_line no_nul fits enough =
    read_lines-step fuel line buf
    ∙ rw
        (
          fgets-line 255 line [] one_line (omega arith),
          c_string_self (line ++ b'\n' ∷ [])
              (All-append _ line (b'\n' ∷ []) no_nul (omega arith, tt)),
          cut_last-snoc line b'\n',
        )
        (unfold read_lines in refl)

-- What recordIPPort writes to ./ipconfig, whatever the file held, loadIPPort reads back: it returns 0,
-- the address and the port. Both are not empty and have no colon, no line feed and no NUL, and together
-- they have at most 253 bytes, which is what a line of the buffer of 256 bytes has room for.
pub load_ip_port-record :
    (ip port ipstr old_ip old_port : Bytes) (old : Option Bytes)
    → IsPart ip
    → IsPart port
    → length ip + length port ≤ 253
    → load_ip_port (record_ip_config true ip port old ipstr).0 (old_ip, old_port) ≡ ok (0, ip, port)
unfolding load_ip_port record_ip_config
load_ip_port-record ip port ipstr old_ip old_port old h k fits =
    rw
      (
        record-addr_line ip port,
        read_lines-one (length (addr_line ip port ++ b'\n' ∷ [])) (addr_line ip port) none
            (All-append _ ip (b':' ∷ port) h.one_line (omega arith, k.one_line))
            (All-append _ ip (b':' ∷ port) h.no_nul (omega arith, k.no_nul))
            (omega (arith, length-append ip (b':' ∷ port)))
            (omega (arith, length-append (addr_line ip port) (b'\n' ∷ []))),
        split_addr-parts ip port h k,
      )
      refl
