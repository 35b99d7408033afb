-- ===== src/DnsMessage/Names.antt =====
-- crates/paws_vpn/src/dns.rs, `read_dns_name`: a name of a DNS message, with its compression
-- pointers. A string is the list of its UTF-8 bytes, and `str::from_utf8` is written out.
use paws.Base.{
  ℕ, zero, suc, ◌+◌, ◌*◌, ◌/◌, ◌%◌, ◌^◌, Bool, true, false, not, ◌&&◌, ◌||◌, List, [], ◌∷◌, ◌++◌,
  Option, none, some, ltb, leb, ◌==◌, nat_eq, if◌then◌else◌, length, is_empty,
}
use paws.Base.Bytes.{Bytes}
use paws.Base.Outcome.{Outcome, panics, rejects, returns, ◌>>=◌, get_byte, range}

-- The ranges of the bytes that must follow a first byte of a character.
abbrev pub continuations : ℕ → Option (List (ℕ × ℕ))
continuations b =
    if ltb b 0x80
    then some []
    else if leb 0xc2 b && leb b 0xdf
    then some ((0x80, 0xbf) ∷ [])
    else if b == 0xe0
    then some ((0xa0, 0xbf) ∷ (0x80, 0xbf) ∷ [])
    else if b == 0xed
    then some ((0x80, 0x9f) ∷ (0x80, 0xbf) ∷ [])
    else if leb 0xe1 b && leb b 0xef
    then some ((0x80, 0xbf) ∷ (0x80, 0xbf) ∷ [])
    else if b == 0xf0
    then some ((0x90, 0xbf) ∷ (0x80, 0xbf) ∷ (0x80, 0xbf) ∷ [])
    else if b == 0xf4
    then some ((0x80, 0x8f) ∷ (0x80, 0xbf) ∷ (0x80, 0xbf) ∷ [])
    else if leb 0xf1 b && leb b 0xf3
    then some ((0x80, 0xbf) ∷ (0x80, 0xbf) ∷ (0x80, 0xbf) ∷ [])
    else none

-- The bytes complete the ranges that are due and go on as UTF-8.
utf8_from : Option (List (ℕ × ℕ)) → Bytes → Bool
utf8_from none bs = false
utf8_from (some due) [] = is_empty due
utf8_from (some []) (b ∷ bs) = utf8_from (continuations b) bs
utf8_from (some ((lo, hi) ∷ due)) (b ∷ bs) = leb lo b && leb b hi && utf8_from (some due) bs

-- `str::from_utf8(..).is_ok()`
unfoldable pub is_utf8 : Bytes → Bool
unfolding utf8_from
is_utf8 = utf8_from (some [])

-- `labels.join(".")`
unfoldable pub join_labels : List Bytes → Bytes
join_labels [] = []
join_labels (label ∷ []) = label
join_labels (label ∷ labels) = label ++ 46 ∷ join_labels labels

-- The variables of the loop, with the labels in the order of reading.
pub record NameState : Type 0 where
  pub labels : List Bytes
  pub pos : ℕ
  pub next_offset : ℕ
  pub jumped : Bool
  pub jumps : ℕ

pub data Turn : Type 0 where
  again : NameState → Turn
  done : List Bytes → ℕ → Turn

-- The position that a pointer leads to.
abbrev pub follow : Bytes → NameState → ℕ → Outcome Turn
follow packet s ptr =
    if leb (length packet) ptr || ltb 8 (suc s.jumps)
    then rejects
    else returns (
        again (record {
          labels = s.labels;
          pos = ptr;
          next_offset = if s.jumped then s.next_offset else s.pos + 2;
          jumped = true;
          jumps = suc s.jumps;
        }))

-- A pointer, whose first byte is `len`.
unfoldable pub jump : Bytes → NameState → ℕ → Outcome Turn
jump packet s len = do
  second ← get_byte packet (s.pos + 1)
  follow packet s (len % 2 ^ 6 * 2 ^ 8 + second)

abbrev pub push_label : NameState → ℕ → Bytes → Outcome Turn
push_label s pos label =
    if is_utf8 label
    then returns (again (record s { labels = s.labels ++ label ∷ []; pos = pos }))
    else rejects

-- A label of `len` bytes, the last of which has none.
unfoldable pub read_label : Bytes → NameState → ℕ → Outcome Turn
read_label packet s len =
    let pos = s.pos + 1 in
    if len == 0
    then returns (done s.labels (if s.jumped then s.next_offset else pos))
    else if ltb (length packet) (pos + len)
    then rejects
    else do label ← range packet pos (pos + len); push_label s (pos + len) label

unfoldable pub read_part : Bytes → NameState → ℕ → Outcome Turn
read_part packet s len =
    if len / 2 ^ 6 % 4 == 3
    then jump packet s len
    else if not (len / 2 ^ 6 % 4 == 0)
    then rejects
    else read_label packet s len

-- One turn of the loop.
unfoldable pub turn : Bytes → NameState → Outcome Turn
turn packet s = do len ← get_byte packet s.pos; read_part packet s len

-- Running out of fuel counts as a panic, so that a proof of safety is one of termination.
unfoldable pub read_labels : ℕ → Bytes → NameState → Outcome (Bytes × ℕ)
read_labels zero packet s = panics
read_labels (suc fuel) packet s = elim (turn packet s) [
  | panics ↦ panics
  | rejects ↦ rejects
  | returns (again s') ↦ read_labels fuel packet s'
  | returns (done labels next_offset) ↦ returns (join_labels labels, next_offset)
]

-- Nine passes over the packet, one more than the pointers allowed.
abbrev pub name_fuel : Bytes → ℕ
name_fuel packet = 9 * (length packet + 1)

abbrev pub start_state : ℕ → NameState
start_state offset = record {
  labels = [];
  pos = offset;
  next_offset = offset;
  jumped = false;
  jumps = 0;
}

unfoldable pub read_dns_name : Bytes → ℕ → Outcome (Bytes × ℕ)
read_dns_name packet offset = read_labels (name_fuel packet) packet (start_state offset)
