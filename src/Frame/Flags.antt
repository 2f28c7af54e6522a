-- ===== src/Frame/Flags.antt =====
-- `pack_flags` and `unpack_flags` of desktop/protocol/src/frame.rs: eight flags in one byte.
use Prim.Native.Nat.{bit_and, bit_or}
use bit_drive.Prelude.{
  ℕ, zero, suc, ◌<◌, ◌≡◌, refl, ap, ◌∙◌, Bool, true, false, not, ◌&&◌, ==_iff, arith, ◌==◌, ltb,
  ltb→lt, if◌then◌else◌,
}
use bit_drive.Pb.Header.{FrameFlags}

-- `if flag { byte |= mask; }`
set_if : Bool → ℕ → ℕ → ℕ
set_if flag mask byte = if flag then bit_or byte mask else byte

unfoldable pub pack_flags : FrameFlags → ℕ
unfolding set_if
pack_flags flags =
    let byte : ℕ = 0 in
    let byte = set_if flags.is_fragment 1 byte in
    let byte = set_if flags.is_last_fragment 2 byte in
    let byte = set_if flags.encrypted 4 byte in
    let byte = set_if flags.authenticated 8 byte in
    let byte = set_if flags.compressed 16 byte in
    let byte = set_if flags.priority 32 byte in
    let byte = set_if flags.ack_required 64 byte in set_if flags.reset_sequence 128 byte

-- `(byte & mask) != 0`
is_set : ℕ → ℕ → Bool
is_set byte mask = not (bit_and byte mask == 0)

unfoldable pub unpack_flags : ℕ → FrameFlags
unfolding is_set
unpack_flags byte = record {
  is_fragment = is_set byte 1;
  is_last_fragment = is_set byte 2;
  encrypted = is_set byte 4;
  authenticated = is_set byte 8;
  compressed = is_set byte 16;
  priority = is_set byte 32;
  ack_required = is_set byte 64;
  reset_sequence = is_set byte 128;
  retransmission = false;
}

-- What survives the wire: the ninth flag has no bit.
abbrev pub on_wire : FrameFlags → FrameFlags
on_wire flags = record flags { retransmission = false }

-- A test of all values of a flag.
for_all : (Bool → Bool) → Bool
for_all p = p true && p false

for_all_sound : (p : Bool → Bool) → for_all p ≡ true → (b : Bool) → p b ≡ true
unfolding for_all
for_all_sound p h true = ground arith
for_all_sound p h false = ground arith

abbrev flags_of : (a b c d e f g h : Bool) → FrameFlags
flags_of a b c d e f g h = record {
  is_fragment = a;
  is_last_fragment = b;
  encrypted = c;
  authenticated = d;
  compressed = e;
  priority = f;
  ack_required = g;
  reset_sequence = h;
  retransmission = false;
}

same : Bool → Bool → Bool
same true b = b
same false b = not b

beq_flags : FrameFlags → FrameFlags → Bool
unfolding same
beq_flags x y =
    same x.is_fragment y.is_fragment
    && same x.is_last_fragment y.is_last_fragment
    && same x.encrypted y.encrypted
    && same x.authenticated y.authenticated
    && same x.compressed y.compressed
    && same x.priority y.priority
    && same x.ack_required y.ack_required
    && same x.reset_sequence y.reset_sequence
    && same x.retransmission y.retransmission

beq_flags_sound : (x y : FrameFlags) → beq_flags x y ≡ true → x ≡ y
unfolding beq_flags
beq_flags_sound x y h = ground arith

round_trips : (a b c d e f g h : Bool) → Bool
round_trips a b c d e f g h =
    let x = flags_of a b c d e f g h in beq_flags (unpack_flags (pack_flags x)) x

table :
    for_all (λ a. for_all (λ b. for_all (λ c. for_all (λ d.
      for_all (λ e. for_all (λ f. for_all (λ g. for_all (λ h. round_trips a b c d e f g h))))))))
    ≡ true
unfolding for_all round_trips beq_flags pack_flags unpack_flags
table = refl

round_trips_all : (a b c d e f g h : Bool) → round_trips a b c d e f g h ≡ true
round_trips_all a b c d e f g h =
    let p = for_all_sound _ table a in
    let p = for_all_sound _ p b in
    let p = for_all_sound _ p c in
    let p = for_all_sound _ p d in
    let p = for_all_sound _ p e in
    let p = for_all_sound _ p f in let p = for_all_sound _ p g in for_all_sound _ p h

pack_flags-on_wire : (x : FrameFlags) → pack_flags x ≡ pack_flags (on_wire x)
unfolding pack_flags
pack_flags-on_wire x = refl

-- The byte of a set of flags gives them back, but for `retransmission`, which reads `false`.
pub unpack_flags-pack_flags : (x : FrameFlags) → unpack_flags (pack_flags x) ≡ on_wire x
unfolding round_trips
unpack_flags-pack_flags x = beq_flags_sound _ _ (
    ap (λ (n : ℕ). beq_flags (unpack_flags n) (on_wire x)) (pack_flags-on_wire x)
    ∙ round_trips_all x.is_fragment x.is_last_fragment x.encrypted x.authenticated x.compressed
        x.priority x.ack_required x.reset_sequence)

-- The bytes below a bound that come back from their flags.
is_kept : ℕ → Bool
is_kept b = pack_flags (unpack_flags b) == b

kept_below : ℕ → Bool
kept_below zero = true
kept_below (suc bound) = is_kept bound && kept_below bound

kept_at : (bound b : ℕ) → b < bound → kept_below bound ≡ true → is_kept b ≡ true
unfolding kept_below
kept_at zero b room all = absurd (omega arith)
kept_at (suc bound) b room all = ground (arith, kept_at bound b)

byte_table : kept_below 256 ≡ true
unfolding kept_below is_kept pack_flags unpack_flags
byte_table = refl

-- Every byte, read as flags and packed again, is the byte that it was.
pub pack_flags-unpack_flags : (b : ℕ) → b < 256 → pack_flags (unpack_flags b) ≡ b
unfolding is_kept
pack_flags-unpack_flags b h = (==_iff _ b).0 (kept_at 256 b h byte_table)

byte_bound : Bool → Bool → Bool → Bool → Bool → Bool → Bool → Bool → Bool
byte_bound a b c d e f g h = ltb (pack_flags (flags_of a b c d e f g h)) 256

bound_table :
    for_all (λ a. for_all (λ b. for_all (λ c. for_all (λ d.
      for_all (λ e. for_all (λ f. for_all (λ g. for_all (λ h. byte_bound a b c d e f g h))))))))
    ≡ true
unfolding for_all byte_bound pack_flags
bound_table = refl

pub pack_flags-lt : (x : FrameFlags) → pack_flags x < 256
unfolding byte_bound
pack_flags-lt x =
    let p = for_all_sound _ bound_table x.is_fragment in
    let p = for_all_sound _ p x.is_last_fragment in
    let p = for_all_sound _ p x.encrypted in
    let p = for_all_sound _ p x.authenticated in
    let p = for_all_sound _ p x.compressed in
    let p = for_all_sound _ p x.priority in
    let p = for_all_sound _ p x.ack_required in
    let p = for_all_sound _ p x.reset_sequence in ltb→lt _ _ (unfold pack_flags in p)
