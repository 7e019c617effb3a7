-- ===== src/Revisions/Numbers.antt =====
-- Revision numbers in names: `ExtractRevisionNum` of pkg/oam/util/helper.go, with `strconv.Atoi`.
use Prim.Native.Char.{code}
use rudr_x.Base.{
  Bool, Option, String, [], false, if◌then◌else◌, leb, none, refl, some, str_eq, suc, true, zero, ℕ,
  ◌&&◌, ◌*◌, ◌+◌, ◌-◌, ◌∷◌, ◌≡◌,
}
use rudr_x.Base.Int.{negsuc, pos, ℤ}
use rudr_x.Cluster.Names.{last_part, split}

-- The value of decimal digits after `acc`, and none where there is another character.
digits : ℕ → String → Option ℕ
digits acc String.[] = some acc
digits acc (String.◌∷◌ c s) =
    let rest = digits (acc * 10 + (code c - b'0')) s in
    if leb b'0' (code c) && leb (code c) b'9' then rest else none

-- At least one digit.
unsigned : String → Option ℕ
unfolding digits
unsigned String.[] = none
unsigned (String.◌∷◌ c s) = digits 0 (String.◌∷◌ c s)

abbrev max_int64 : ℕ
max_int64 = 9223372036854775807

-- The value that `strconv.Atoi` returns, on a 64-bit machine: 0 beside a syntax error, and the bound
-- beside an overflow.
signed : Bool → Option ℕ → ℤ
signed negative none = pos 0
signed false (some n) = if leb n max_int64 then pos n else pos max_int64
signed true (some zero) = pos 0
signed true (some (suc n)) = if leb n max_int64 then negsuc n else negsuc max_int64

unfoldable pub atoi : String → ℤ
unfolding unsigned signed
atoi String.[] = pos 0
atoi (String.◌∷◌ c s) =
    if str_eq (String.◌∷◌ c String.[]) "-"
    then signed true (unsigned s)
    else if str_eq (String.◌∷◌ c String.[]) "+"
    then signed false (unsigned s)
    else signed false (unsigned (String.◌∷◌ c s))

-- What follows a `v`, if the text starts with one.
after_v : String → Option String
after_v String.[] = none
after_v (String.◌∷◌ c s) = if str_eq (String.◌∷◌ c String.[]) "v" then some s else none

-- The number beside `ErrBadRevisionName`, which no caller of these definitions reads, is 0.
unfoldable pub extract_revision_num : String → ℤ
unfolding after_v
extract_revision_num app_revision = elim (split app_revision) [
  | [] ↦ pos 0
  | _ ∷ [] ↦ pos 0
  | part ∷ next ∷ parts ↦ elim (after_v (last_part (part ∷ next ∷ parts))) [
    | none ↦ pos 0
    | some number ↦ atoi number
  ]
]

extract_revision_num_test : extract_revision_num "my-app-v12" ≡ pos 12
unfolding extract_revision_num split last_part atoi
extract_revision_num_test = refl
