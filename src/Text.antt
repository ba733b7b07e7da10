-- ===== src/Text.antt =====
-- JavaScript strings as lists of UTF-16 code units, with the methods of `String` that the services
-- call. `to_lower_case` changes the ASCII letters only.
use Prim.Native.Char.{code}
use Prim.Native.String.{String}
use synapse_hub.Base.{
  List, ℕ, [], ◌∷◌, Bool, true, false, ◌==◌, ◌&&◌, ◌≡◌, refl, arith, ◌↔◌, Option, none, some, leb,
  ◌||◌, if◌then◌else◌, reverse, ◌+◌, map, zero, suc, ◌/◌, ltb, ◌++◌, ◌%◌, ◌<◌, Bool-cases, inl, inr,
  ◌≤◌,
}

abbrev pub Text : Type 0
Text = List ℕ

-- A literal.
abbrev pub codes : String → Text
codes String.[] = []
codes (String.◌∷◌ c s) = code c ∷ codes s

-- `a === b`
unfoldable pub text_eq : Text → Text → Bool
text_eq [] [] = true
text_eq [] (d ∷ t) = false
text_eq (c ∷ s) [] = false
text_eq (c ∷ s) (d ∷ t) = c == d && text_eq s t

pub text_eq_refl : (s : Text) → text_eq s s ≡ true
unfolding text_eq
text_eq_refl [] = refl
text_eq_refl (c ∷ s) = ground (arith, text_eq_refl s)

pub text_eq_sound : (s t : Text) → text_eq s t ≡ true → s ≡ t
unfolding text_eq
text_eq_sound [] [] h = refl
text_eq_sound [] (d ∷ t) h = cc
text_eq_sound (c ∷ s) [] h = cc
text_eq_sound (c ∷ s) (d ∷ t) h = ground (arith, text_eq_sound s t)

pub text_eq_iff : (s t : Text) → (text_eq s t ≡ true) ↔ (s ≡ t)
text_eq_iff s t = (text_eq_sound s t, λ e. rw e (text_eq_refl t))

pub text_eq_comm : (s t : Text) → text_eq s t ≡ text_eq t s
text_eq_comm s t = ground (arith, text_eq_iff s t, text_eq_iff t s)

-- Truthiness of a string: the empty string is falsy.
unfoldable pub truthy : Text → Bool
truthy [] = false
truthy (c ∷ s) = true

-- `o ?? t` and `o || t`
abbrev pub or_else : Option Text → Text → Text
or_else none t = t
or_else (some s) t = s

abbrev pub or_if_empty : Text → Text → Text
or_if_empty [] t = t
or_if_empty (c ∷ s) t = c ∷ s

-- A string that is given and not empty.
abbrev pub given : Option Text → Option Text
given none = none
given (some []) = none
given (some (c ∷ s)) = some (c ∷ s)

pub given-truthy : (t : Text) → truthy t ≡ true → given (some t) ≡ some t
unfolding truthy
given-truthy [] h = cc h
given-truthy (d ∷ t) h = refl

-- White space and line terminators, as `trim` and `\s` read them.
unfoldable pub is_space : ℕ → Bool
is_space c =
    (leb 9 c && leb c 13)
    || c == 32
    || c == 160
    || c == 5760
    || (leb 8192 c && leb c 8202)
    || c == 8232
    || c == 8233
    || c == 8239
    || c == 8287
    || c == 12288
    || c == 65279

unfoldable pub drop_space : Text → Text
unfolding is_space
drop_space [] = []
drop_space (c ∷ s) = if is_space c then drop_space s else c ∷ s

-- `s.trim()`
unfoldable pub trim : Text → Text
unfolding drop_space
trim s = reverse (drop_space (reverse (drop_space s)))

unfoldable pub lower_char : ℕ → ℕ
lower_char c = if leb 65 c && leb c 90 then c + 32 else c

-- `s.toLowerCase()`, on ASCII letters.
unfoldable pub to_lower_case : Text → Text
unfolding lower_char
to_lower_case s = map lower_char s

-- `o === t`, on an optional text
abbrev pub is_text : Option Text → Text → Bool
is_text none t = false
is_text (some s) t = text_eq s t

-- `String(n)` on a number. The digits are taken within a bound, and one more than the number is
-- bound enough.
unfoldable pub decimal_within : ℕ → ℕ → Text
decimal_within zero n = []
decimal_within (suc k) n =
    let rest = decimal_within k (n / 10) in
    if ltb n 10 then (48 + n) ∷ [] else rest ++ (48 + n % 10) ∷ []

unfoldable pub decimal : ℕ → Text
decimal n = decimal_within (suc n) n

decimal_within_enough : (k j n : ℕ) → n < k → n < j → decimal_within k n ≡ decimal_within j n
unfolding decimal_within
decimal_within_enough zero j n h i = let clash : zero ≡ suc zero = omega arith in cc clash
decimal_within_enough (suc k) zero n h i = let clash : zero ≡ suc zero = omega arith in cc clash
decimal_within_enough (suc k) (suc j) n h i = elim (Bool-cases (ltb n 10)) [
  | inl small ↦ rw small refl
  | inr big ↦
      let big_number : 10 ≤ n = ground (arith, big) in
      let same = decimal_within_enough k j (n / 10) (omega arith) (omega arith) in rw same refl
]

pub decimal-within : (k n : ℕ) → n < k → decimal_within k n ≡ decimal n
unfolding decimal
decimal-within k n h = decimal_within_enough k (suc n) n h (omega arith)
