-- ===== src/Messaging/Mentions/Handles.antt =====
-- Every handle, taken from a content or built for a user, is well formed.

-- [a-z0-9._-]{2,}
use synapse_hub.Base.{
  All, ◌≡◌, true, ◌≤◌, length, [], ◌∷◌, Bool-cases, inl, keep, inr, refl, arith, false, leb, ℕ,
  Option, none, some, suc, all, zero, ap, List, Bool, if◌then◌else◌, ◌&&◌, ◌==◌,
}
use synapse_hub.Messaging.Mentions.{
  is_plain, keep_plain, build_mention_handle, dash_spaces, local_part, is_handle_char, longer,
  boundary, greedy, match_handle, add, after_match, scan, matched_length, extract_mention_handles,
}
use synapse_hub.Messaging.Mentions.Matching.{greedy_of_match}
use synapse_hub.Text.{Text, codes, to_lower_case, trim, lower_char, text_eq, is_space}

abbrev pub IsHandle : Text → Type 0
IsHandle h = All (λ c. is_plain c ≡ true) h × (2 ≤ length h)

keep_plain-All : (s : Text) → All (λ c. is_plain c ≡ true) (keep_plain s)
unfolding keep_plain
keep_plain-All [] = tt
keep_plain-All (c ∷ s) = elim (Bool-cases (is_plain c)) [
  | inl plain ↦ rw (plain, keep) (plain, keep_plain-All s)
  | inr other ↦ rw (other, keep) (keep_plain-All s)
]

user-IsHandle : IsHandle (codes "user")
unfolding is_plain
user-IsHandle = ((refl, (refl, (refl, (refl, tt)))), omega arith)

-- Whatever the display name and the email of a user are, the handle that is built for them is two
-- or more characters of [a-z0-9._-].
pub build_mention_handle-IsHandle :
    (display_name email : Text) → IsHandle (build_mention_handle display_name email)
unfolding build_mention_handle
build_mention_handle-IsHandle display_name email =
    let name = keep_plain (dash_spaces false (to_lower_case (trim display_name))) in
    let local = keep_plain (to_lower_case (trim (local_part email))) in
    elim (Bool-cases (leb 2 (length name))) [
      | inl long ↦
          rw long
            (keep_plain-All (dash_spaces false (to_lower_case (trim display_name))), ground arith)
      | inr short ↦ elim (Bool-cases (leb 2 (length local))) [
        | inl long ↦
            rw (short, long)
              (keep_plain-All (to_lower_case (trim (local_part email))), ground arith)
        | inr none_left ↦ rw (short, none_left) user-IsHandle
      ]
    ]

-- What the matcher takes: characters of [a-zA-Z0-9._-], no more than it may.
abbrev Taken : ℕ → Option Text → Type 0
Taken most none = Unit
Taken most (some t) = All (λ c. is_handle_char c ≡ true) t × (length t ≤ most)

longer-Taken :
    (most c : ℕ) (s : Text) (o : Option Text)
    → is_handle_char c ≡ true
    → Taken most o
    → Taken (suc most) (longer c s o)
longer-Taken most c s none h k = elim (Bool-cases (boundary c s)) [
  | inl ends ↦ rw ends ((h, tt), omega arith)
  | inr goes_on ↦ rw goes_on tt
]
longer-Taken most c s (some t) h (all, short) = ((h, all), omega arith)

greedy-Taken : (most : ℕ) (s : Text) → Taken most (greedy most s)
unfolding greedy
greedy-Taken zero s = tt
greedy-Taken (suc most) [] = tt
greedy-Taken (suc most) (c ∷ s) = elim (Bool-cases (is_handle_char c)) [
  | inl fits ↦ rw fits (longer-Taken most c s (greedy most s) fits (greedy-Taken most s))
  | inr other ↦ rw other tt
]

lower-plain : (c : ℕ) → is_handle_char c ≡ true → is_plain (lower_char c) ≡ true
unfolding is_handle_char is_plain lower_char
lower-plain c h = ground arith

to_lower_case-All :
    (t : Text)
    → All (λ c. is_handle_char c ≡ true) t
    → All (λ c. is_plain c ≡ true) (to_lower_case t)
unfolding to_lower_case
to_lower_case-All [] h = tt
to_lower_case-All (c ∷ t) (h, hs) = (lower-plain c h, to_lower_case-All t hs)

length-to_lower_case : (t : Text) → length (to_lower_case t) ≡ length t
unfolding to_lower_case
length-to_lower_case [] = refl
length-to_lower_case (c ∷ t) = ap suc (length-to_lower_case t)

-- A handle of at most 64 characters.
abbrev pub IsMention : Text → Type 0
IsMention h = IsHandle h × (length h ≤ 64)

match_handle-long : (s t : Text) → match_handle s ≡ some t → 2 ≤ length t
unfolding match_handle
match_handle-long s t e = ground arith

pub All-add : (P : Text → Type 0) (x : Text) (l : List Text) → P x → All P l → All P (add x l)
unfolding add
All-add P x [] p h = (p, tt)
All-add P x (y ∷ l) p h = elim (Bool-cases (text_eq y x)) [
  | inl same ↦ rw same h
  | inr other ↦ rw other (h.0, All-add P x l p h.1)
]

after_match-IsMention :
    (o : Option Text) (s : Text) (found : List Text)
    → match_handle s ≡ o
    → All IsMention found
    → All IsMention (after_match o s found)
after_match-IsMention none s found e h = h
after_match-IsMention (some t) s found e h =
    let (chars, short) : Taken 64 (some t) = rw (greedy_of_match s t e) at (greedy-Taken 64 s) in
    let long = match_handle-long s t e in
    All-add IsMention (to_lower_case t) found
      (
        (to_lower_case-All t chars, rw (length-to_lower_case t) long),
        rw (length-to_lower_case t) short,
      )
      h

scan-IsMention :
    (skip : ℕ) (fresh : Bool) (s : Text) (found : List Text)
    → All IsMention found
    → All IsMention (scan skip fresh s found)
unfolding scan
scan-IsMention skip fresh [] found h = h
scan-IsMention (suc skip) fresh (c ∷ s) found h = scan-IsMention skip false s found h
scan-IsMention zero fresh (c ∷ s) found h =
    let here = if fresh && c == 64 then match_handle s else none in
    scan-IsMention (matched_length here) (is_space c) s (after_match here s found)
      (elim (Bool-cases (fresh && c == 64)) [
        | inl starts ↦ rw starts (after_match-IsMention (match_handle s) s found refl h)
        | inr plain ↦ rw plain h
      ])

-- Whatever a content is, each handle that is taken from it is 2 to 64 characters of [a-z0-9._-].
pub extract_mention_handles-IsMention :
    (content : Text) → All IsMention (extract_mention_handles content)
unfolding extract_mention_handles
extract_mention_handles-IsMention content = scan-IsMention 0 true content [] tt
