-- ===== src/RuntimeControl/DuplicateKeys.antt =====
-- runtime-control/duplicate-keys.js: a scan of the raw text for an object that repeats a key.
-- 34 is the quote, 92 the backslash; the stack has its top at the head, and a set is a list.
use frontend_observability.Base.{
  ℕ, zero, suc, Bool, true, false, ◌&&◌, List, [], ◌∷◌, ◌==◌, if◌then◌else◌, length,
}
use frontend_observability.Base.Text.{Text, has_text}

-- From behind the opening quote: the text up to the closing quote, and what follows that. An escape
-- keeps its backslash and drops the unit behind it.
unfoldable pub read_json_string : Text → Text × Text
read_json_string [] = ([], [])
read_json_string (c ∷ []) = if c == 34 then ([], []) else (c ∷ [], [])
read_json_string (c ∷ d ∷ rest) =
    let escaped = read_json_string rest in
    let plain = read_json_string (d ∷ rest) in
    if c == 92
    then (c ∷ escaped.0, escaped.1)
    else if c == 34
    then ([], d ∷ rest)
    else (c ∷ plain.0, plain.1)

abbrev pub is_open : List (List Text) → Bool
is_open [] = false
is_open (keys ∷ stack) = true

abbrev pub pop : List (List Text) → List (List Text)
pop [] = []
pop (keys ∷ stack) = stack

abbrev pub seen : List (List Text) → Text → Bool
seen [] key = false
seen (keys ∷ stack) key = has_text keys key

abbrev pub add_key : List (List Text) → Text → List (List Text)
add_key [] key = []
add_key (keys ∷ stack) key = (key ∷ keys) ∷ stack

-- The effect of a unit other than the quote: the new stack, and whether a key is expected.
unfoldable pub scan_unit : ℕ → List (List Text) → Bool → List (List Text) × Bool
scan_unit c stack expecting =
    if c == b'{'
    then ([] ∷ stack, true)
    else if c == b'}'
    then (pop stack, false)
    else if c == b','
    then (if is_open stack then (stack, true) else (stack, expecting))
    else if c == b':'
    then (stack, false)
    else (stack, expecting)

-- The loop, with the rounds left; each round moves on by a unit or more.
unfoldable pub scan : ℕ → List (List Text) → Bool → Text → Bool
unfolding scan_unit read_json_string
scan zero stack expecting text = false
scan (suc n) stack expecting [] = false
scan (suc n) stack expecting (c ∷ rest) =
    let (value, after) = read_json_string rest in
    let keyed = scan n (add_key stack value) false after in
    let unkeyed = scan n stack expecting after in
    let (stack', expecting') = scan_unit c stack expecting in
    let onward = scan n stack' expecting' rest in
    if c == 34
    then (if expecting && is_open stack
        then (if seen stack value then true else keyed)
        else unkeyed)
    else onward

unfoldable pub has_duplicate_object_keys : Text → Bool
unfolding scan
has_duplicate_object_keys text = scan (length text) [] false text
