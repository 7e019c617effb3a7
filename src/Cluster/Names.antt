-- ===== src/Cluster/Names.antt =====
-- Texts cut at their dashes, as `strings.Split`, `strings.Join`, `HasSuffix` and `TrimSuffix` do it.
use Prim.Native.Char.{Char}
use Prim.Native.String.{count}
use text.Mathlib.TextLemmas.{length-append, length-cons, cons-append, nil-append}
use rudr_x.Base.{
  Bool, Bool-cases, List, String, [], ap, arith, eq_iff, false, if◌then◌else◌, inl, inr, refl,
  str_eq, sym, true, ◌++◌, ◌||◌, ◌∙◌, ◌∷◌, ◌≡◌, ◌≢◌,
}
use rudr_x.Base.Text.{◌+++◌}

is_dash : Char → Bool
is_dash c = str_eq (String.◌∷◌ c String.[]) "-"

push : Char → List String → List String
push c [] = String.◌∷◌ c String.[] ∷ []
push c (part ∷ parts) = String.◌∷◌ c part ∷ parts

-- `strings.Split(s, "-")`, which is never empty.
unfoldable pub split : String → List String
unfolding is_dash push
split String.[] = "" ∷ []
split (String.◌∷◌ c s) = let parts = split s in if is_dash c then "" ∷ parts else push c parts

-- `strings.Join(parts, "-")`.
unfoldable pub join : List String → String
join [] = ""
join (part ∷ []) = part
join (part ∷ next ∷ parts) = part +++ "-" +++ join (next ∷ parts)

-- `parts[0:len(parts)-1]` of a slice that is not empty.
unfoldable pub but_last : List String → List String
but_last [] = []
but_last (part ∷ []) = []
but_last (part ∷ next ∷ parts) = part ∷ but_last (next ∷ parts)

-- `parts[len(parts)-1]` of a slice that is not empty.
unfoldable pub last_part : List String → String
last_part [] = ""
last_part (part ∷ []) = part
last_part (part ∷ next ∷ parts) = last_part (next ∷ parts)

unfoldable pub has_suffix : String → String → Bool
has_suffix String.[] suffix = str_eq "" suffix
has_suffix (String.◌∷◌ c s) suffix = str_eq (String.◌∷◌ c s) suffix || has_suffix s suffix

unfoldable pub trim_suffix : String → String → String
trim_suffix String.[] suffix = ""
trim_suffix (String.◌∷◌ c s) suffix =
    if str_eq (String.◌∷◌ c s) suffix then "" else String.◌∷◌ c (trim_suffix s suffix)

-- A text with no dash.
unfoldable pub IsPlain : String → Type 0
unfolding is_dash
IsPlain String.[] = Unit
IsPlain (String.◌∷◌ c s) = (is_dash c ≡ false) × IsPlain s

dash-append : (c : Char) (s : String) → is_dash c ≡ true → "-" +++ s ≡ String.◌∷◌ c s
unfolding is_dash
dash-append c s h =
    rw (← (eq_iff (String.◌∷◌ c String.[]) "-").0 h)
      (cons-append c "" s ∙ ap (String.◌∷◌ c) (nil-append s))

split-dash : (s : String) → split ("-" +++ s) ≡ "" ∷ split s
unfolding split is_dash
split-dash s = rw (dash-append "-" s refl) refl

split-IsPlain : (s : String) → IsPlain s → split s ≡ s ∷ []
unfolding split IsPlain
split-IsPlain String.[] plain = refl
split-IsPlain (String.◌∷◌ c s) plain = simp (plain.0, split-IsPlain s plain.1) refl

split-cons : (s : String) → (part : String) × (parts : List String) × (split s ≡ part ∷ parts)
unfolding split
split-cons String.[] = ("", [], refl)
split-cons (String.◌∷◌ c s) =
    let (part, parts, e) = split-cons s in
    elim (Bool-cases (is_dash c)) [
      | inl dash ↦ ("", split s, rw dash refl)
      | inr other ↦ (String.◌∷◌ c part, parts, rw (other, e) refl)
    ]

-- A name and what hangs on it by a dash.
pub split-append : (s t : String) → IsPlain t → split (s +++ "-" +++ t) ≡ split s ++ (t ∷ [])
unfolding split
split-append String.[] t plain =
    rw nil-append (split-dash t ∙ ap (λ parts. "" ∷ parts) (split-IsPlain t plain))
split-append (String.◌∷◌ c s) t plain =
    let (part, parts, e) = split-cons s in
    rw (cons-append c s ("-" +++ t)) (elim (Bool-cases (is_dash c)) [
      | inl dash ↦ rw dash (ap (λ l. "" ∷ l) (split-append s t plain))
      | inr other ↦ rw (other, split-append s t plain, e) refl
    ])

pub but_last-append : (parts : List String) (t : String) → but_last (parts ++ (t ∷ [])) ≡ parts
unfolding but_last
but_last-append [] t = refl
but_last-append (part ∷ []) t = refl
but_last-append (part ∷ next ∷ parts) t = simp (but_last-append (next ∷ parts) t) refl

pub last_part-append : (parts : List String) (t : String) → last_part (parts ++ (t ∷ [])) ≡ t
unfolding last_part
last_part-append [] t = refl
last_part-append (part ∷ []) t = refl
last_part-append (part ∷ next ∷ parts) t = last_part-append (next ∷ parts) t

join-push :
    (c : Char) (part : String) (parts : List String)
    → join (String.◌∷◌ c part ∷ parts) ≡ String.◌∷◌ c (join (part ∷ parts))
unfolding join
join-push c part [] = refl
join-push c part (next ∷ parts) = cons-append c part _

pub join-split : (s : String) → join (split s) ≡ s
unfolding split join
join-split String.[] = refl
join-split (String.◌∷◌ c s) =
    let (part, parts, e) = split-cons s in
    let ih : join (part ∷ parts) ≡ s = ap join (sym e) ∙ join-split s in
    elim (Bool-cases (is_dash c)) [
      | inl dash ↦ rw (dash, e) (nil-append _ ∙ ap (λ x. "-" +++ x) ih ∙ dash-append c s dash)
      | inr other ↦ rw (other, e) (join-push c part parts ∙ ap (String.◌∷◌ c) ih)
    ]

longer-ne : (c : Char) (s suffix : String) → String.◌∷◌ c (s +++ suffix) ≢ suffix
longer-ne c s suffix h =
    absurd (omega (arith, ap count h, length-cons c (s +++ suffix), length-append s suffix))

trim_suffix_self : (suffix : String) → trim_suffix suffix suffix ≡ ""
unfolding trim_suffix
trim_suffix_self String.[] = refl
trim_suffix_self (String.◌∷◌ c s) = rw ((eq_iff (String.◌∷◌ c s) (String.◌∷◌ c s)).1 refl) refl

pub trim_suffix-append : (s suffix : String) → trim_suffix (s +++ suffix) suffix ≡ s
unfolding trim_suffix
trim_suffix-append String.[] suffix = rw nil-append (trim_suffix_self suffix)
trim_suffix-append (String.◌∷◌ c s) suffix =
    rw cons-append (elim (Bool-cases (str_eq (String.◌∷◌ c (s +++ suffix)) suffix)) [
      | inl same ↦ absurd (longer-ne c s suffix ((eq_iff _ suffix).0 same))
      | inr other ↦ rw other (ap (String.◌∷◌ c) (trim_suffix-append s suffix))
    ])

has_suffix_self : (suffix : String) → has_suffix suffix suffix ≡ true
unfolding has_suffix
has_suffix_self String.[] = (eq_iff "" "").1 refl
has_suffix_self (String.◌∷◌ c s) = rw ((eq_iff (String.◌∷◌ c s) (String.◌∷◌ c s)).1 refl) refl

pub has_suffix-append : (s suffix : String) → has_suffix (s +++ suffix) suffix ≡ true
unfolding has_suffix
has_suffix-append String.[] suffix = rw nil-append (has_suffix_self suffix)
has_suffix-append (String.◌∷◌ c s) suffix =
    rw cons-append (ground (arith, has_suffix-append s suffix))
