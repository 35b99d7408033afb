-- ===== src/DnsMessage/Reading.antt =====
-- Reading a name: it ends, stays inside the packet and moves forward.
use paws.Base.{
  ℕ, zero, suc, ◌+◌, ◌-◌, ◌≤◌, ◌<◌, ◌≡◌, ap, ◌⊎◌, inl, inr, refl, nat_eq, if◌then◌else◌, length,
  arith,
}
use paws.Base.Bytes.{Bytes}
use paws.Base.Outcome.{
  Outcome, panics, rejects, returns, ◌>>=◌, Safe, Safe-bind, Returns-bind, get_byte, range,
  get_byte-Safe, range-Returns,
}
use paws.DnsMessage.Names.{
  NameState, Turn, again, done, jump, read_label, push_label, read_part, turn, read_labels,
  name_fuel, start_state, read_dns_name, join_labels,
}

-- The offset at which reading goes on after the name: once a pointer was followed it is fixed.
abbrev Forward : ℕ → Bytes → NameState → Type 0
Forward offset packet s =
    if s.jumped then offset < s.next_offset × s.next_offset ≤ length packet else offset ≤ s.pos

-- A turn moves on within the packet or follows one of the eight pointers.
abbrev Advances : Bytes → NameState → NameState → Type 0
Advances packet s s' =
    ((s'.jumps ≡ s.jumps) × (s.pos < s'.pos) × (s'.pos ≤ length packet))
    ⊎ ((s'.jumps ≡ suc s.jumps) × (s.jumps < 8))

abbrev TurnIsGood : ℕ → Bytes → NameState → Turn → Type 0
TurnIsGood offset packet s (again s') = Forward offset packet s' × Advances packet s s'
TurnIsGood offset packet s (done labels next) = (offset < next) × (next ≤ length packet)

jump-Safe :
    (offset : ℕ) (packet : Bytes) (s : NameState) (len : ℕ)
    → Forward offset packet s
    → Safe (TurnIsGood offset packet s) (jump packet s len)
unfolding jump
jump-Safe offset packet s len forward =
    Safe-bind _ _ (get_byte packet (s.pos + 1)) _ (get_byte-Safe packet (s.pos + 1))
      λ second there. ground arith

push_label-Safe :
    (offset : ℕ) (packet : Bytes) (s : NameState) (pos : ℕ) (label : Bytes)
    → Forward offset packet s
    → s.pos < pos
    → pos ≤ length packet
    → Safe (TurnIsGood offset packet s) (push_label s pos label)
push_label-Safe offset packet s pos label forward moved inside = ground arith

take_label-Safe :
    (offset : ℕ) (packet : Bytes) (s : NameState) (len : ℕ)
    → Forward offset packet s
    → s.pos + 1 + len ≤ length packet
    → Safe
        (TurnIsGood offset packet s)
        (range packet (s.pos + 1) (s.pos + 1 + len) >>= push_label s (s.pos + 1 + len))
take_label-Safe offset packet s len forward fits =
    Returns-bind _ _ (range packet (s.pos + 1) (s.pos + 1 + len)) (push_label s (s.pos + 1 + len))
      (range-Returns packet (s.pos + 1) (s.pos + 1 + len) (omega arith) fits)
      λ label same.
        push_label-Safe offset packet s (s.pos + 1 + len) label forward (omega arith) fits

read_label-Safe :
    (offset : ℕ) (packet : Bytes) (s : NameState) (len : ℕ)
    → Forward offset packet s
    → s.pos < length packet
    → Safe (TurnIsGood offset packet s) (read_label packet s len)
unfolding read_label
read_label-Safe offset packet s len forward inside =
    ground (arith, take_label-Safe offset packet s len forward)

turn-Safe :
    (offset : ℕ) (packet : Bytes) (s : NameState)
    → Forward offset packet s
    → Safe (TurnIsGood offset packet s) (turn packet s)
unfolding turn read_part
turn-Safe offset packet s forward =
    Safe-bind _ _ (get_byte packet s.pos) (read_part packet s) (get_byte-Safe packet s.pos)
      λ len inside.
        ground (
          arith,
          jump-Safe offset packet s len forward,
          read_label-Safe offset packet s len forward,
        )

-- `r` passes over `n` positions.
abbrev passes : ℕ → ℕ → ℕ
passes zero n = 0
passes (suc r) n = passes r n + n

passes-pred : (r n : ℕ) → 0 < r → passes r n ≡ passes (r - 1) n + n
passes-pred zero n h = absurd (omega arith)
passes-pred (suc r) n h = ap (λ q. passes q n + n) (omega arith)

read_labels-Safe :
    (fuel offset : ℕ) (packet : Bytes) (s : NameState) (r : ℕ)
    → Forward offset packet s
    → s.jumps + r ≡ 8
    → passes r (length packet + 1) + (length packet - s.pos) < fuel
    → Safe (λ (x : Bytes × ℕ). (offset < x.1) × (x.1 ≤ length packet)) (read_labels fuel packet s)
unfolding read_labels
read_labels-Safe zero offset packet s r forward left enough = absurd (omega arith)
read_labels-Safe (suc fuel) offset packet s r forward left enough =
    go (turn packet s) (turn-Safe offset packet s forward)
      (λ s'. read_labels-Safe fuel offset packet s')
  where
    go :
        (o : Outcome Turn)
        → Safe (TurnIsGood offset packet s) o
        → ((s' : NameState) (r' : ℕ)
            → Forward offset packet s'
            → s'.jumps + r' ≡ 8
            → passes r' (length packet + 1) + (length packet - s'.pos) < fuel
            → Safe
                (λ (x : Bytes × ℕ). (offset < x.1) × (x.1 ≤ length packet))
                (read_labels fuel packet s'))
        → Safe
            (λ (x : Bytes × ℕ). (offset < x.1) × (x.1 ≤ length packet))
            (elim o [
              | panics ↦ panics
              | rejects ↦ rejects
              | returns (again s') ↦ read_labels fuel packet s'
              | returns (done labels next_offset) ↦ returns (join_labels labels, next_offset)
            ])
    go panics good ih = good
    go rejects good ih = tt
    go (returns (done labels next)) good ih = good
    go (returns (again s')) (on, inl (same, moved, inside)) ih =
        ih s' r on (ground arith) (ground arith)
    go (returns (again s')) (on, inr (jumped, few)) ih =
        ih s' (r - 1) on (omega arith)
          (omega (arith, passes-pred r (length packet + 1) (omega arith)))

-- Reading a name always ends without a panic, also where pointers form a cycle; the offset of what
-- follows a name lies after its start and within the packet.
pub read_dns_name-Safe :
    (packet : Bytes) (offset : ℕ)
    → Safe (λ (x : Bytes × ℕ). (offset < x.1) × (x.1 ≤ length packet)) (read_dns_name packet offset)
unfolding read_dns_name
read_dns_name-Safe packet offset =
    read_labels-Safe (name_fuel packet) offset packet (start_state offset) 8 (ground arith) refl
      (omega arith)
