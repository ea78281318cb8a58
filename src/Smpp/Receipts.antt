-- ===== src/Smpp/Receipts.antt =====
-- Delivery receipts, smpp/handler.go. The three regular expressions of Go's regexp are written out: a
-- match is the leftmost one, and `+` and `{5,7}` take as much as they can. Texts are ASCII, so a byte
-- is a character, also for TrimSpace and ToUpper.
pub mod Translate
use go_smsc.Prelude.{
  ℕ, suc, ◌+◌, ◌-◌, ◌/◌, ◌%◌, Bool, true, false, not, ◌&&◌, ◌||◌, List, [], ◌∷◌, ◌++◌, Option, none,
  some, leb, ltb, ◌==◌, if◌then◌else◌, length, take, drop,
}
use go_smsc.Prelude.Keys.{Key, has_prefix}

-- `\s`: tab, line feed, form feed, carriage return and space.
unfoldable pub is_space : ℕ → Bool
is_space b = b == 9 || (b == 10 || (b == 12 || (b == 13 || b == 32)))

-- What TrimSpace trims: the same and the vertical tab.
unfoldable pub is_trimmed : ℕ → Bool
unfolding is_space
is_trimmed b = is_space b || b == 11

unfoldable pub trim_left : Key → Key
unfolding is_trimmed
trim_left [] = []
trim_left (b ∷ s) = let rest = trim_left s in if is_trimmed b then rest else b ∷ s

-- A byte that only trimmed bytes follow goes with them.
unfoldable pub trim_right : Key → Key
unfolding is_trimmed
trim_right [] = []
trim_right (b ∷ s) = elim (trim_right s) [
  | [] ↦ if is_trimmed b then [] else b ∷ []
  | c ∷ t ↦ b ∷ c ∷ t
]

unfoldable pub trim_space : Key → Key
unfolding trim_left trim_right
trim_space s = trim_right (trim_left s)

-- The longest front with no space: `[^\s]+` at a place where it matches.
unfoldable pub word : Key → Key
unfolding is_space
word [] = []
word (b ∷ s) = let rest = word s in if is_space b then [] else b ∷ rest

-- Whether `id:[^\s]` matches at the front.
unfoldable pub opens_id : Key → Bool
unfolding is_space
opens_id (a ∷ b ∷ c ∷ d ∷ s) = a == 105 && (b == 100 && (c == 58 && not (is_space d)))
opens_id _ = false

-- The group of `id:([^\s]+)`.
unfoldable pub find_id : Key → Option Key
unfolding opens_id word
find_id [] = none
find_id (b ∷ s) =
    let later = find_id s in if opens_id (b ∷ s) then some (word (drop 3 (b ∷ s))) else later

unfoldable pub opens_err : Key → Bool
unfolding is_space
opens_err (a ∷ b ∷ c ∷ d ∷ e ∷ s) =
    a == 101 && (b == 114 && (c == 114 && (d == 58 && not (is_space e))))
opens_err _ = false

-- The group of `err:([^\s]+)`.
unfoldable pub find_err : Key → Option Key
unfolding opens_err word
find_err [] = none
find_err (b ∷ s) =
    let later = find_err s in if opens_err (b ∷ s) then some (word (drop 4 (b ∷ s))) else later

unfoldable pub upper : ℕ → ℕ
upper b = if leb 97 b && leb b 122 then b - 32 else b

unfoldable pub is_letter : ℕ → Bool
unfolding upper
is_letter b = leb 65 (upper b) && leb (upper b) 90

-- At most so many letters from the front, in upper case.
unfoldable pub letters : ℕ → Key → Key
unfolding is_letter upper
letters n [] = []
letters n (b ∷ s) =
    let rest = letters (n - 1) s in
    if n == 0 then [] else if is_letter b then upper b ∷ rest else []

-- Whether `(?i)stat:[A-Za-z]{5}` matches at the front.
unfoldable pub opens_stat : Key → Bool
unfolding letters upper
opens_stat (a ∷ b ∷ c ∷ d ∷ e ∷ s) =
    upper a == 83
    && (upper b == 84
        && (upper c == 65 && (upper d == 84 && (e == 58 && leb 5 (length (letters 7 s))))))
opens_stat _ = false

-- The group of `(?i)stat:([A-Za-z]{5,7})`, in upper case.
unfoldable pub find_stat : Key → Option Key
unfolding opens_stat letters
find_stat [] = none
find_stat (b ∷ s) =
    let later = find_stat s in
    if opens_stat (b ∷ s) then some (letters 7 (drop 5 (b ∷ s))) else later

-- An empty text for a field that is not there.
abbrev pub or_empty : Option Key → Key
or_empty none = []
or_empty (some t) = t

pub record DlrReceipt : Type 0 where
  pub message_id : Key
  pub status : Key
  pub error_code : Key

unfoldable pub parse_dlr_receipt : Key → Option DlrReceipt
unfolding trim_space find_id find_stat find_err
parse_dlr_receipt text =
    let trimmed = trim_space text in
    if length trimmed == 0 then none else elim (find_id trimmed) [
      | none ↦ none
      | some id ↦ some (record {
        message_id = id;
        status = or_empty (find_stat trimmed);
        error_code = or_empty (find_err trimmed);
      })
    ]

-- `strings.Replace(text, old, new, 1)`, for an old text that is not empty.
unfoldable pub replace_first : Key → Key → Key → Key
replace_first old new [] = []
replace_first old new (b ∷ s) =
    let rest = replace_first old new s in
    if has_prefix (b ∷ s) old then new ++ drop (length old) (b ∷ s) else b ∷ rest

-- "id:"
abbrev pub id_tag : Key
id_tag = 105 ∷ 100 ∷ 58 ∷ []

-- translateDLRMessageID of gateway/router.go
unfoldable pub translate_dlr_message_id : Key → Key → Key → Key
unfolding replace_first
translate_dlr_message_id receipt_text smsc_msg_id gw_msg_id =
    replace_first (id_tag ++ smsc_msg_id) (id_tag ++ gw_msg_id) receipt_text
