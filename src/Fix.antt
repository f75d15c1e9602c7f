-- ===== src/Fix.antt =====
-- services/bot-fleet-manager/internal/bot/fix/generator.go: the FIX 4.2 messages of a bot. A text is
-- the list of its bytes. `%g` of a price is a parameter; quantities are not negative, and what
-- `Sscanf` reads is taken to be ASCII.
pub mod Trailer
pub mod Orders
pub mod Detection
pub mod Sessions
use iicpc.Prelude.{
  ℕ, zero, suc, ◌+◌, ◌-◌, ◌*◌, ◌%◌, Bool, true, false, not, ◌&&◌, ◌||◌, Option, none, some, List,
  [], ◌∷◌, ◌++◌, ltb, leb, ◌==◌, if◌then◌else◌, length, take, drop, replicate, sum,
}
use iicpc.Prelude.Decimal.{decimal, is_digit}
use iicpc.Artifact.{Text, same_text}

-- The delimiter of the fields, and "=".
abbrev pub soh : ℕ
soh = 1

unfoldable pub field : ℕ → Text → Text
field tag v = decimal tag ++ 61 ∷ v ++ soh ∷ []

abbrev pub fix_version : Text
fix_version = 70 ∷ 73 ∷ 88 ∷ 46 ∷ 52 ∷ 46 ∷ 50 ∷ []

-- `%03d`
unfoldable pub three_digits : ℕ → Text
three_digits n = let ds = decimal n in replicate (3 - length ds) 48 ++ ds

unfoldable pub body_of : Text → ℕ → ℕ → Text → Text → Text
unfolding field
body_of msg_type seq_num send_time_ns cl_ord_id body_tags =
    field 35 msg_type
    ++ field 34 (decimal seq_num)
    ++ field 52 (decimal send_time_ns)
    ++ field 11 cl_ord_id
    ++ body_tags

unfoldable pub with_trailer : Text → Text
unfolding field three_digits
with_trailer payload = payload ++ field 10 (three_digits (sum payload % 256))

unfoldable pub build_message : Text → ℕ → ℕ → Text → Text → Text
unfolding body_of with_trailer
build_message msg_type seq_num send_time_ns cl_ord_id body_tags =
    let body = body_of msg_type seq_num send_time_ns cl_ord_id body_tags in
    with_trailer (field 8 fix_version ++ field 9 (decimal (length body)) ++ body)

unfoldable pub is_prefix : Text → Text → Bool
is_prefix [] xs = true
is_prefix (p ∷ ps) [] = false
is_prefix (p ∷ ps) (x ∷ xs) = p == x && is_prefix ps xs

-- `strings.LastIndex`
unfoldable pub last_index : Text → Text → Option ℕ
unfolding is_prefix
last_index p [] = if is_prefix p [] then some 0 else none
last_index p (x ∷ xs) = elim (last_index p xs) [
  | some i ↦ some (suc i)
  | none ↦ if is_prefix p (x ∷ xs) then some 0 else none
]

unfoldable pub scan_digits : ℕ → Text → ℕ
scan_digits acc [] = acc
scan_digits acc (c ∷ cs) =
    let rest = scan_digits (acc * 10 + (c - 48)) cs in if is_digit c then rest else acc

unfoldable pub scan_unsigned : Text → Option ℕ
unfolding scan_digits
scan_unsigned [] = none
scan_unsigned (c ∷ cs) = if is_digit c then some (scan_digits 0 (c ∷ cs)) else none

-- The spaces that `Sscanf` skips; the end of a line is none.
abbrev is_blank : ℕ → Bool
is_blank c = c == 32 || c == 9 || leb 11 c && leb c 13

unfoldable pub skip_blanks : Text → Text
skip_blanks [] = []
skip_blanks (c ∷ cs) = let rest = skip_blanks cs in if is_blank c then rest else c ∷ cs

abbrev scan_sign : Text → Bool × Option ℕ
scan_sign [] = (false, none)
scan_sign (c ∷ cs) =
    if c == 45
    then (true, scan_unsigned cs)
    else if c == 43
    then (false, scan_unsigned cs)
    else (false, scan_unsigned (c ∷ cs))

-- `Sscanf` with `%d`: whether there is a minus, and the number.
unfoldable pub scan_int : Text → Bool × Option ℕ
unfolding scan_unsigned skip_blanks
scan_int cs = scan_sign (skip_blanks cs)

-- SOH, then "10=".
abbrev pub trailer_tag : Text
trailer_tag = 49 ∷ 48 ∷ 61 ∷ []

-- `verifyChecksum`, from the place of the trailer on.
unfoldable pub check_embedded : ℕ → ℕ → Text → Option ℕ × Bool
unfolding scan_int
check_embedded payload_end start raw =
    let expected = sum (take payload_end raw) % 256 in
    if ltb (length raw) (start + 3)
    then (some expected, false)
    else let (negative, number) = scan_int (take 3 (drop start raw)) in
      elim number [
        | none ↦ (some expected, false)
        | some n ↦ (some expected, expected == n && (not negative || n == 0))
      ]

-- `verifyChecksum`; the checksum is `none` for the -1 of a message without a trailer.
unfoldable pub verify_checksum : Text → Option ℕ × Bool
unfolding last_index check_embedded
verify_checksum raw = elim (last_index (soh ∷ trailer_tag) raw) [
  | some i ↦ check_embedded (i + 1) (i + 4) raw
  | none ↦ if is_prefix trailer_tag raw then check_embedded 0 3 raw else (none, false)
]

pub data Order {ℓ} (Price : Type ℓ) : Type ℓ where
  limit_order : Text → ℕ → Price → Order Price
  market_order : Text → ℕ → Order Price
  cancel_replace : Text → Text → ℕ → Price → Order Price

-- The generator of one session.
pub record Generator : Type 0 where
  pub benchmark_run_id : Text
  pub bot_id : Text
  pub seq_num : ℕ

pub record Message : Type 0 where
  pub raw : Text
  pub cl_ord_id : Text
  pub number : ℕ
  pub send_time_ns : ℕ

-- The atomic counter is an unsigned integer of 64 bits.
unfoldable pub next_seq_num : Generator → ℕ
next_seq_num g = (g.seq_num + 1) % 18_446_744_073_709_551_616

unfoldable pub cl_ord_id_of : Generator → ℕ → Text
cl_ord_id_of g seq = g.benchmark_run_id ++ 45 ∷ g.bot_id ++ 45 ∷ decimal seq

-- "AAPL"
abbrev symbol : Text
symbol = 65 ∷ 65 ∷ 80 ∷ 76 ∷ []

module _ {ℓ} {Price : Type ℓ} (format_g : Price → Text) where
  unfoldable pub msg_type_of : Order Price → Text
  msg_type_of (cancel_replace orig side qty price) = 71 ∷ []
  msg_type_of _ = 68 ∷ []

  unfoldable pub body_tags : Order Price → Text
  unfolding field
  body_tags (limit_order side qty price) =
      field 55 symbol
      ++ field 54 side
      ++ field 38 (decimal qty)
      ++ field 44 (format_g price)
      ++ field 40 (50 ∷ [])
      ++ field 59 (48 ∷ [])
  body_tags (market_order side qty) =
      field 55 symbol ++ field 54 side ++ field 38 (decimal qty) ++ field 40 (49 ∷ [])
  body_tags (cancel_replace orig side qty price) =
      field 41 orig
      ++ field 55 symbol
      ++ field 54 side
      ++ field 38 (decimal qty)
      ++ field 44 (format_g price)

  -- `LimitOrder`, `MarketOrder` and `CancelReplace`, at a time.
  unfoldable pub generate : ℕ → Order Price → Generator → Generator × Message
  unfolding next_seq_num cl_ord_id_of msg_type_of body_tags build_message
  generate now o g =
      let seq = next_seq_num g in
      let id = cl_ord_id_of g seq in
      (
        record g { seq_num = seq },
        record {
          raw = build_message (msg_type_of o) seq now id (body_tags o);
          cl_ord_id = id;
          number = seq;
          send_time_ns = now;
        },
      )

  -- The messages of a session, in their order.
  unfoldable pub generate_all : List (ℕ × Order Price) → Generator → List Message
  unfolding generate
  generate_all [] g = []
  generate_all ((now, o) ∷ os) g = let (next, m) = generate now o g in m ∷ generate_all os next
