-- ===== src/Messaging/Mentions/Matching.antt =====
-- A mention is found again: `@`, a handle and a space give back the handle.

-- The last character is a word character.
use synapse_hub.Base.{
  Bool, [], false, ◌∷◌, All, ◌≡◌, true, ℕ, none, zero, refl, suc, arith, if◌then◌else◌, some,
  length, ◌≤◌, ◌++◌, all, ◌≢◌, ◌↔◌, Bool-cases, inl, inr, List, Option, ◌&&◌, ◌==◌, ap,
}
use synapse_hub.Messaging.Mentions.{
  is_word, is_handle_char, is_plain, greedy, boundary, longer, match_handle, add, after_match, scan,
  matched_length, extract_mention_handles,
}
use synapse_hub.Messaging.Notify.{has}
use synapse_hub.Text.{Text, text_eq_refl, to_lower_case, is_space, lower_char}

abbrev pub ends_word : Text → Bool
ends_word [] = false
ends_word (c ∷ []) = is_word c
ends_word (c ∷ d ∷ s) = ends_word (d ∷ s)

abbrev pub AllHandleChars : Text → Type 0
AllHandleChars = All (λ c. is_handle_char c ≡ true)

abbrev pub AllPlain : Text → Type 0
AllPlain = All (λ c. is_plain c ≡ true)

greedy_space : (most : ℕ) (rest : Text) → greedy most (32 ∷ rest) ≡ none
unfolding greedy is_handle_char is_plain
greedy_space zero rest = refl
greedy_space (suc most) rest = refl

boundary_space : (c : ℕ) (rest : Text) → boundary c (32 ∷ rest) ≡ is_word c
unfolding is_word
boundary_space c rest = ground arith

greedy_last :
    (most c : ℕ) (rest : Text)
    → is_handle_char c ≡ true
    → greedy (suc most) (c ∷ 32 ∷ rest) ≡ (if is_word c then some (c ∷ []) else none)
greedy_last most c rest h =
    unfold greedy in (rw (h, greedy_space most rest) (rw (boundary_space c rest)))

greedy_more :
    (most c d : ℕ) (s : Text)
    → is_handle_char c ≡ true
    → greedy (suc most) (c ∷ d ∷ s) ≡ longer c (d ∷ s) (greedy most (d ∷ s))
greedy_more most c d s h = unfold greedy in (rw h)

-- The longest handle before a space is all of it, if it ends in a word character and is short
-- enough.
greedy_found :
    (most : ℕ) (h rest : Text)
    → AllHandleChars h
    → length h ≤ most
    → ends_word h ≡ true
    → greedy most (h ++ 32 ∷ rest) ≡ some h
greedy_found most [] rest all short ends = cc
greedy_found zero (c ∷ h) rest all short ends = absurd (omega arith)
greedy_found (suc most) (c ∷ []) rest all short ends = rw (greedy_last most c rest all.0) (rw ends)
greedy_found (suc most) (c ∷ d ∷ h) rest all short ends =
    let found = greedy_found most (d ∷ h) rest all.1 (omega arith) ends in
    rw (greedy_more most c d (h ++ 32 ∷ rest) all.0) (rw found)

-- It is not all of it, if it ends in another character.
greedy_cut :
    (most : ℕ) (h rest : Text)
    → AllHandleChars h
    → ends_word h ≡ false
    → greedy most (h ++ 32 ∷ rest) ≢ some h
greedy_cut zero h rest all ends e = unfold greedy in (cc e)
greedy_cut (suc most) [] rest all ends e = cc (greedy_space (suc most) rest, e)
greedy_cut (suc most) (c ∷ []) rest all ends e =
    let stuck = greedy_last most c rest all.0 in ground arith
greedy_cut (suc most) (c ∷ d ∷ h) rest all ends e =
    let step = greedy_more most c d (h ++ 32 ∷ rest) all.0 in
    ground (arith, greedy_cut most (d ∷ h) rest all.1 ends)

match_handle_long : (s t : Text) → greedy 64 s ≡ some t → 2 ≤ length t → match_handle s ≡ some t
unfolding match_handle
match_handle_long s t found long = ground arith

pub greedy_of_match : (s t : Text) → match_handle s ≡ some t → greedy 64 s ≡ some t
unfolding match_handle
greedy_of_match s t h = ground arith

-- A handle of 2 to 64 characters that stands before a space is matched exactly when it ends in a
-- letter, a digit or an underscore: the closing `\b` of the matcher cannot follow a full stop or a
-- dash there.
pub match_handle_iff :
    (h rest : Text)
    → AllHandleChars h
    → 2 ≤ length h
    → length h ≤ 64
    → (match_handle (h ++ 32 ∷ rest) ≡ some h) ↔ (ends_word h ≡ true)
match_handle_iff h rest all long short = (
  (λ e. elim (Bool-cases (ends_word h)) [
    | inl ends ↦ ends
    | inr cut ↦ absurd (greedy_cut 64 h rest all cut (greedy_of_match (h ++ 32 ∷ rest) h e))
  ]),
  (λ ends. match_handle_long (h ++ 32 ∷ rest) h (greedy_found 64 h rest all short ends) long),
)

has-add_self : (x : Text) (l : List Text) → has (add x l) x ≡ true
unfolding has add
has-add_self x [] = ground (arith, text_eq_refl x)
has-add_self x (y ∷ l) = ground (arith, has-add_self x l)

pub has-add : (x y : Text) (l : List Text) → has l y ≡ true → has (add x l) y ≡ true
unfolding has add
has-add x y [] h = cc
has-add x y (z ∷ l) h = ground (arith, has-add x y l)

has-after_match :
    (o : Option Text) (s y : Text) (found : List Text)
    → has found y ≡ true
    → has (after_match o s found) y ≡ true
has-after_match none s y found h = h
has-after_match (some t) s y found h = has-add (to_lower_case t) y found h

-- The scan only adds handles.
has-scan :
    (skip : ℕ) (fresh : Bool) (s y : Text) (found : List Text)
    → has found y ≡ true
    → has (scan skip fresh s found) y ≡ true
unfolding scan
has-scan skip fresh [] y found h = h
has-scan (suc skip) fresh (c ∷ s) y found h = has-scan skip false s y found h
has-scan zero fresh (c ∷ s) y found h =
    let here = if fresh && c == 64 then match_handle s else none in
    has-scan (matched_length here) (is_space c) s y (after_match here s found)
      (has-after_match here s y found h)

lower_plain : (c : ℕ) → is_plain c ≡ true → lower_char c ≡ c
unfolding is_plain lower_char
lower_plain c h = ground arith

to_lower_case_plain : (h : Text) → AllPlain h → to_lower_case h ≡ h
unfolding to_lower_case
to_lower_case_plain [] all = refl
to_lower_case_plain (c ∷ h) all = cc (lower_plain c all.0, to_lower_case_plain h all.1)

plain-AllHandleChars : (h : Text) → AllPlain h → AllHandleChars h
unfolding is_handle_char
plain-AllHandleChars [] all = tt
plain-AllHandleChars (c ∷ h) all = (ground arith, plain-AllHandleChars h all.1)

scan_first :
    (h rest : Text)
    → match_handle (h ++ 32 ∷ rest) ≡ some h
    → extract_mention_handles (64 ∷ h ++ 32 ∷ rest)
      ≡ scan (length h) false (h ++ 32 ∷ rest) (add (to_lower_case h) [])
unfolding extract_mention_handles scan is_space
scan_first h rest e =
    let s = h ++ 32 ∷ rest in ap (λ o. scan (matched_length o) false s (after_match o s [])) e

-- A message that begins with `@`, a lower-case handle of 2 to 64 characters that ends in a letter,
-- a digit or an underscore, and a space, mentions that handle, whatever follows.
pub extract_mention_found :
    (h rest : Text)
    → AllPlain h
    → 2 ≤ length h
    → length h ≤ 64
    → ends_word h ≡ true
    → has (extract_mention_handles (64 ∷ h ++ 32 ∷ rest)) h ≡ true
extract_mention_found h rest all long short ends =
    let matched = (match_handle_iff h rest (plain-AllHandleChars h all) long short).1 ends in
    rw (scan_first h rest matched) (
      has-scan (length h) false (h ++ 32 ∷ rest) h (add (to_lower_case h) [])
        (rw (to_lower_case_plain h all) (has-add_self h [])))
