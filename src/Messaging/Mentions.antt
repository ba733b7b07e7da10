-- ===== src/Messaging/Mentions.antt =====
-- `extractMentionHandles` and `buildMentionHandle` of messaging.service.ts (apps/web/src/lib/
-- mentions.ts has the second, word for word). The matcher is /(^|\s)@([a-zA-Z0-9._-]{2,64})\b/g.
pub mod Handles
pub mod Matching
use synapse_hub.Base.{
  ℕ, Bool, leb, ◌&&◌, ◌||◌, ◌==◌, [], false, ◌∷◌, if◌then◌else◌, not, Option, some, none, zero, suc,
  ltb, length, List, true, keep,
}
use synapse_hub.Text.{Text, text_eq, to_lower_case, is_space, trim, codes}

abbrev pub is_digit : ℕ → Bool
is_digit c = leb 48 c && leb c 57

abbrev pub is_lower : ℕ → Bool
is_lower c = leb 97 c && leb c 122

abbrev pub is_upper : ℕ → Bool
is_upper c = leb 65 c && leb c 90

-- [a-z0-9._-]
unfoldable pub is_plain : ℕ → Bool
is_plain c = is_lower c || is_digit c || c == 46 || c == 95 || c == 45

-- [a-zA-Z0-9._-]
unfoldable pub is_handle_char : ℕ → Bool
is_handle_char c = is_plain c || is_upper c

-- \w, which `\b` looks at
unfoldable pub is_word : ℕ → Bool
is_word c = is_lower c || is_upper c || is_digit c || c == 95

-- The first character of a text is a word character.
abbrev pub starts_word : Text → Bool
starts_word [] = false
starts_word (c ∷ s) = is_word c

-- `\b` between a character and the text after it
abbrev pub boundary : ℕ → Text → Bool
boundary c s = if is_word c then not (starts_word s) else starts_word s

-- [a-zA-Z0-9._-]{0,most} at the front of a text, the last one before a boundary: as long as
-- possible, since the quantifier is greedy and gives back one character at a time.
abbrev pub longer : ℕ → Text → Option Text → Option Text
longer c s (some t) = some (c ∷ t)
longer c s none = if boundary c s then some (c ∷ []) else none

unfoldable pub greedy : ℕ → Text → Option Text
greedy zero s = none
greedy (suc most) [] = none
greedy (suc most) (c ∷ s) = if is_handle_char c then longer c s (greedy most s) else none

-- The group of the matcher: two characters at least.
unfoldable pub match_handle : Text → Option Text
match_handle s = elim (greedy 64 s) [
  | none ↦ none
  | some t ↦ if ltb (length t) 2 then none else some t
]

-- `handles.add(x)`
unfoldable pub add : Text → List Text → List Text
add x [] = x ∷ []
add x (y ∷ l) = if text_eq y x then y ∷ l else y ∷ add x l

-- The loop over the matches. `fresh` says that a match may begin at an `@` here: at the start of
-- the content, or after white space. `skip` counts the characters of the last match that are left.
abbrev pub after_match : Option Text → Text → List Text → List Text
after_match none s found = found
after_match (some t) s found = add (to_lower_case t) found

abbrev pub matched_length : Option Text → ℕ
matched_length none = 0
matched_length (some t) = length t

unfoldable pub scan : ℕ → Bool → Text → List Text → List Text
scan skip fresh [] found = found
scan (suc skip) fresh (c ∷ s) found = scan skip false s found
scan zero fresh (c ∷ s) found =
    let here = if fresh && c == 64 then match_handle s else none in
    scan (matched_length here) (is_space c) s (after_match here s found)

unfoldable pub extract_mention_handles : Text → List Text
extract_mention_handles content = scan 0 true content []

-- `.replace(/[^a-z0-9._-]/g, '')`
unfoldable pub keep_plain : Text → Text
keep_plain s = keep is_plain s

-- `.replace(/\s+/g, '-')`; the flag says that the character before was white space.
unfoldable pub dash_spaces : Bool → Text → Text
dash_spaces inside [] = []
dash_spaces inside (c ∷ s) =
    let rest = dash_spaces (is_space c) s in
    if is_space c then (if inside then rest else 45 ∷ rest) else c ∷ rest

-- `email.split('@')[0]`
unfoldable pub local_part : Text → Text
local_part [] = []
local_part (c ∷ s) = if c == 64 then [] else c ∷ local_part s

unfoldable pub build_mention_handle : Text → Text → Text
build_mention_handle display_name email =
    let name = keep_plain (dash_spaces false (to_lower_case (trim display_name))) in
    let local = keep_plain (to_lower_case (trim (local_part email))) in
    if leb 2 (length name) then name else if leb 2 (length local) then local else codes "user"
