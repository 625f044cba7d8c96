-- ===== src/Base/Regex.antt =====
-- Regular expressions as the source writes them, and their matching, test and replacement.
--
-- A match is searched for the way JavaScript does: at a place, the ends are tried in the order of the
-- alternatives, the longest repetition first. Patterns here look at characters of ASCII only, and
-- `[^...]` takes any other character, a pair of surrogates at once.
use Prim.Native.Nat.{ℕ, zero, suc, ◌+◌, ◌-◌}
use Prim.Native.Char.{code}
use Prim.Native.String.{String}
use Prim.Native.String
use mathlib.Core.Bool.{Bool, true, false, not, ◌&&◌, ◌||◌}
use mathlib.Core.Option.{Option, none, some}
use mathlib.Core.List.{List, [], ◌∷◌, ◌++◌}
use frontend_observability.Base.Tests.{ltb, leb, ◌==◌, if◌then◌else◌}

pub data Regex : Type 0 where
  one : (ℕ → Bool) → Regex
  then_also : Regex → Regex → Regex
  either : Regex → Regex → Regex
  many : Regex → Regex
  nothing : Regex
  word_boundary at_start at_end : Regex

-- A place in a text: the character before it, and what follows.
pub record Cursor : Type 0 where
  pub before : Option ℕ
  pub rest : String

abbrev pub at_the_start : String → Cursor
at_the_start s = record { before = none; rest = s }

abbrev pub chars : String → ℕ
chars String.[] = 0
chars (String.◌∷◌ c s) = suc (chars s)

abbrev pub is_word_unit : ℕ → Bool
is_word_unit c =
    (leb 48 c && leb c 57) || (leb 65 c && leb c 90) || c == 95 || (leb 97 c && leb c 122)

abbrev pub is_word_at : Option ℕ → Bool
is_word_at none = false
is_word_at (some c) = is_word_unit c

abbrev pub first_unit : String → Option ℕ
first_unit String.[] = none
first_unit (String.◌∷◌ c s) = some (code c)

abbrev pub differs : Bool → Bool → Bool
differs true b = not b
differs false b = b

abbrev pub one_at : (ℕ → Bool) → String → List Cursor
one_at p String.[] = []
one_at p (String.◌∷◌ c s) =
    if p (code c) then record { before = some (code c); rest = s } ∷ [] else []

abbrev pub each_from : (Cursor → List Cursor) → List Cursor → List Cursor
each_from m [] = []
each_from m (c ∷ cs) = m c ++ each_from m cs

-- Repetition, as often as there are characters left; a round that takes none is not tried again.
unfoldable pub many_from : ℕ → (Cursor → List Cursor) → Cursor → List Cursor
many_from zero m c = c ∷ []
many_from (suc n) m c =
    each_from (λ d. if ltb (chars d.rest) (chars c.rest) then many_from n m d else []) (m c)
    ++ c ∷ []

abbrev pub is_at_start : Option ℕ → Bool
is_at_start none = true
is_at_start (some c) = false

abbrev pub is_at_end : String → Bool
is_at_end String.[] = true
is_at_end (String.◌∷◌ c s) = false

-- The places at which a match that begins here may end, the preferred one first.
unfoldable pub ends : Regex → Cursor → List Cursor
unfolding many_from
ends (one p) c = one_at p c.rest
ends (then_also a b) c = each_from (ends b) (ends a c)
ends (either a b) c = ends a c ++ ends b c
ends (many a) c = many_from (chars c.rest) (ends a) c
ends nothing c = c ∷ []
ends word_boundary c =
    if differs (is_word_at c.before) (is_word_at (first_unit c.rest)) then c ∷ [] else []
ends at_start c = if is_at_start c.before then c ∷ [] else []
ends at_end c = if is_at_end c.rest then c ∷ [] else []

abbrev pub is_any : List Cursor → Bool
is_any [] = false
is_any (c ∷ cs) = true

unfoldable pub search_from : Regex → Option ℕ → String → Bool
search_from r before String.[] = is_any (ends r (record { before = before; rest = String.[] }))
search_from r before (String.◌∷◌ c s) =
    is_any (ends r (record { before = before; rest = String.◌∷◌ c s }))
    || search_from r (some (code c)) s

-- `pattern.test(text)`
abbrev pub test : Regex → String → Bool
test r s = search_from r none s

-- `list.some((pattern) => pattern.test(text))`
abbrev pub test_any : List Regex → String → Bool
test_any [] s = false
test_any (r ∷ rs) s = test r s || test_any rs s

abbrev pub take_chars : ℕ → String → String
take_chars zero s = String.[]
take_chars (suc n) String.[] = String.[]
take_chars (suc n) (String.◌∷◌ c s) = String.◌∷◌ c (take_chars n s)

-- The rounds of a replacement: a match is replaced whole, and no match may be empty.
unfoldable pub replace_from : ℕ → Regex → (String → String) → Cursor → String
replace_from zero r f c = c.rest
replace_from (suc n) r f c =
    let behind = λ (d : Cursor). replace_from n r f d in
    elim (ends r c) [
      | d ∷ ds ↦ String.◌++◌ (f (take_chars (chars c.rest - chars d.rest) c.rest)) (behind d)
      | [] ↦ elim c.rest [
        | String.[] ↦ String.[]
        | String.◌∷◌ x s ↦ String.◌∷◌ x (behind (record { before = some (code x); rest = s }))
      ]
    ]

-- `text.replace(pattern, f)` with the flag g.
abbrev pub replace_all : Regex → (String → String) → String → String
replace_all r f s = replace_from (suc (chars s)) r f (at_the_start s)

abbrev pub lit : String → Regex
lit String.[] = nothing
lit (String.◌∷◌ c s) = then_also (one (λ x. x == code c)) (lit s)

abbrev pub lower_unit : ℕ → ℕ
lower_unit c = if leb 65 c && leb c 90 then c + 32 else c

-- A literal under the flag i, written in lower case.
abbrev pub lit_i : String → Regex
lit_i String.[] = nothing
lit_i (String.◌∷◌ c s) = then_also (one (λ x. lower_unit x == code c)) (lit_i s)

abbrev pub option : Regex → Regex
option r = either r nothing

abbrev pub some_of : Regex → Regex
some_of r = then_also r (many r)

-- `r{n,}`, `r{0,n}` and `r{m,m+n}`
abbrev pub at_least : ℕ → Regex → Regex
at_least zero r = many r
at_least (suc n) r = then_also r (at_least n r)

-- That many units or more of a class, of which a character beyond the basic plane is two.
abbrev pub units_at_least : ℕ → (ℕ → Bool) → Regex
units_at_least zero p = many (one p)
units_at_least (suc zero) p = then_also (one p) (many (one p))
units_at_least (suc (suc n)) p =
    either (then_also (one (λ c. p c && ltb c 65536)) (units_at_least (suc n) p))
      (then_also (one (λ c. p c && leb 65536 c)) (units_at_least n p))

abbrev pub at_most : ℕ → Regex → Regex
at_most zero r = nothing
at_most (suc n) r = option (then_also r (at_most n r))

abbrev pub between : ℕ → ℕ → Regex → Regex
between zero n r = at_most n r
between (suc m) n r = then_also r (between m n r)

abbrev pub one_of_words : List String → Regex
one_of_words [] = one (λ c. false)
one_of_words (w ∷ []) = lit_i w
one_of_words (w ∷ v ∷ ws) = either (lit_i w) (one_of_words (v ∷ ws))

abbrev pub sequence : List Regex → Regex
sequence [] = nothing
sequence (r ∷ rs) = then_also r (sequence rs)

-- The units of a text's characters are all in a class.
abbrev pub all_chars : (ℕ → Bool) → String → Bool
all_chars p String.[] = true
all_chars p (String.◌∷◌ c s) = p (code c) && all_chars p s
