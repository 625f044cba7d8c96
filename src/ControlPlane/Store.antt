-- ===== src/ControlPlane/Store.antt =====
-- apps/observability-control-plane/src/state.js: the control documents on disk, for the whole platform
-- and for single scopes.
--
-- A file's content is what readJson makes of it, none where that throws. A directory is the list of its
-- files with the names before `.json`. What holds the delivery is modelled for files that do not hold
-- null, of which publishControl writes none; of null the source throws there.
use frontend_observability.Base.{
  ℕ, String, Bool, true, false, not, ◌&&◌, ◌||◌, Option, none, some, List, [], ◌∷◌, ◌++◌, ◌==◌, leb,
  length, if◌then◌else◌, is_some,
}
use frontend_observability.Base.Json.{
  Value, Num, nat, negative, fraction, not_a_number, infinite, num, bool, undefined, null, object,
  get, is_truthy,
}
use frontend_observability.Base.Text.{Text, text_eq}
use frontend_observability.ControlPlane.Documents.{
  Rejection, Whole, at, below_zero, whole_le, document_rejection, build_control_document,
}

abbrev pub is_scope_unit : ℕ → Bool
is_scope_unit c = (leb 48 c && leb c 57) || (leb 97 c && leb c 122)

abbrev pub all_scope_part_units : Text → Bool
all_scope_part_units [] = true
all_scope_part_units (c ∷ s) =
    (is_scope_unit c || c == b'.' || c == b'_' || c == b'-') && all_scope_part_units s

-- /^[a-z0-9][a-z0-9._-]{0,79}$/
abbrev pub is_scope_part : Text → Bool
is_scope_part [] = false
is_scope_part (c ∷ s) = is_scope_unit c && all_scope_part_units s && leb (length s) 79

pub record ControlScope : Type 0 where
  pub service : Text
  pub environment : Text

-- The scope's parts joined by two underscores.
abbrev pub scope_key : ControlScope → Text
scope_key s = s.service ++ b'_' ∷ b'_' ∷ s.environment

abbrev pub push_unit : ℕ → List Text → List Text
push_unit c [] = (c ∷ []) ∷ []
push_unit c (w ∷ ws) = (c ∷ w) ∷ ws

-- `key.split("__")`
abbrev pub split_key : Text → List Text
split_key [] = [] ∷ []
split_key (c ∷ []) = (c ∷ []) ∷ []
split_key (c ∷ d ∷ rest) =
    let behind = split_key rest in
    let onward = split_key (d ∷ rest) in
    if c == b'_' && d == b'_' then [] ∷ behind else push_unit c onward

abbrev pub scope_of_parts : List Text → Option ControlScope
scope_of_parts (service ∷ environment ∷ []) =
    if is_scope_part service && is_scope_part environment
    then some (record { service = service; environment = environment })
    else none
scope_of_parts _ = none

abbrev pub scope_from_key : Text → Option ControlScope
scope_from_key key = scope_of_parts (split_key key)

abbrev pub File : Type 0
File = Option Value

pub record ControlStore : Type 0 where
  -- none where the file does not exist.
  pub active_control : Option File
  pub scoped_controls : List (Text × File)

abbrev pub find_file : Text → List (Text × File) → Option File
find_file key [] = none
find_file key ((k, f) ∷ rest) = if text_eq k key then some f else find_file key rest

abbrev pub write_file : Text → File → List (Text × File) → List (Text × File)
write_file key f [] = (key, f) ∷ []
write_file key f ((k, g) ∷ rest) =
    if text_eq k key then (k, f) ∷ rest else (k, g) ∷ write_file key f rest

-- The revision of a file, if it is a whole number.
abbrev pub revision_of_value : Value → List Whole
revision_of_value (num (nat n)) = at n ∷ []
revision_of_value (num (negative n)) = below_zero n ∷ []
revision_of_value _ = []

abbrev pub revision_of_file : File → List Whole
revision_of_file none = []
revision_of_file (some document) = revision_of_value (get "revision" document)

abbrev pub revisions_of_files : List (Text × File) → List Whole
revisions_of_files [] = []
revisions_of_files ((k, f) ∷ rest) = revision_of_file f ++ revisions_of_files rest

abbrev pub revision_of_active : Option File → List Whole
revision_of_active none = []
revision_of_active (some f) = revision_of_file f

abbrev pub revisions : ControlStore → List Whole
revisions store =
    revision_of_active store.active_control ++ revisions_of_files store.scoped_controls

-- `Math.max(first, ...rest)`
abbrev pub max_of : Whole → List Whole → Whole
max_of first [] = first
max_of first (n ∷ rest) = max_of (if whole_le first n then n else first) rest

abbrev pub max_revision : List Whole → Whole
max_revision [] = below_zero 0
max_revision (n ∷ rest) = max_of n rest

abbrev pub is_active : Value → Bool
is_active document = elim (get "active" (get "killSwitch" document)) [ bool b ↦ b | _ ↦ false ]

abbrev pub write_control : ControlStore → Option ControlScope → Value → ControlStore
write_control store none document = record store { active_control = some (some document) }
write_control store (some scope) document = record store {
  scoped_controls = write_file (scope_key scope) (some document) store.scoped_controls;
}

pub data PublishResult : Type 0 where
  published : Value → PublishResult
  rejected : Rejection → PublishResult

pub record DeliveryControl : Type 0 where
  pub hold : Bool
  pub scoped_holds : List ControlScope

-- `document.killSwitch.active` under a test, none where it throws.
abbrev pub active_of_switch : Value → Option Bool
active_of_switch undefined = none
active_of_switch null = none
active_of_switch switch = some (is_truthy (get "active" switch))

abbrev pub active_of : Value → Option Bool
active_of document = active_of_switch (get "killSwitch" document)

-- `number >= n`
abbrev pub is_at_least : ℕ → Num → Bool
is_at_least n (nat a) = leb n a
is_at_least n (negative a) = false
is_at_least n (fraction below a p) = not below && leb n a
is_at_least n not_a_number = false
is_at_least n (infinite below) = not below

-- What a comparison makes a number of; of a text or an array, that is the parameter `coerce`.
abbrev pub number_of : (Value → Num) → Value → Num
number_of coerce undefined = not_a_number
number_of coerce null = nat 0
number_of coerce (bool b) = nat (if b then 1 else 0)
number_of coerce (num n) = n
number_of coerce (object fs) = not_a_number
number_of coerce v = coerce v

-- `scoped.revision >= global.revision`, where the global document is valid.
abbrev pub is_as_new : (Value → Num) → Value → Value → Bool
is_as_new coerce scoped (num (nat n)) = is_at_least n (number_of coerce scoped)
is_as_new coerce scoped _ = false

-- Of a scope whose file is there, the document that applies, none where that throws.
unfoldable pub prefer : (Value → Num) → Value → Value → Option Value
prefer coerce global scoped = elim (active_of global) [
  | none ↦ none
  | some true ↦ some global
  | some false ↦ elim (active_of scoped) [
    | none ↦ none
    | some true ↦ some scoped
    | some false ↦ some (
        if is_as_new coerce (get "revision" scoped) (get "revision" global) then scoped else global)
  ]
]

abbrev pub resolve_scoped : (Value → Num) → Value → Option File → Option Value
resolve_scoped coerce global none = some global
resolve_scoped coerce global (some none) = none
resolve_scoped coerce global (some (some scoped)) = prefer coerce global scoped

abbrev pub resolve_global : Option File → Option Value
resolve_global (some (some global)) = some global
resolve_global _ = none

-- `global.revision - 1` throws of null.
abbrev pub is_null : Value → Bool
is_null null = true
is_null _ = false

-- `none` where it throws.
unfoldable pub resolve_control_document :
    (Value → Option ℕ) → (Value → Num) → ControlStore → Option ControlScope → ℕ → Option Value
resolve_control_document parse_date coerce store none now = resolve_global store.active_control
resolve_control_document parse_date coerce store (some scope) now =
    elim (resolve_global store.active_control) [
      | none ↦ none
      | some global ↦
          if is_null global
          then none
          else if is_some (document_rejection parse_date global now none)
          then some global
          else resolve_scoped coerce global (find_file (scope_key scope) store.scoped_controls)
    ]

module _ (parse_date : Value → Option ℕ) (to_iso : ℕ → String) where
  unfoldable pub publish_control :
      ControlStore → Bool → String → Option ControlScope → ℕ → ControlStore × PublishResult
  publish_control store active reason_code scope now =
      let previous = max_revision (revisions store) in
      let document = build_control_document to_iso active reason_code previous now in
      elim (document_rejection parse_date document now (some previous)) [
        | some why ↦ (store, rejected why)
        | none ↦ (write_control store scope document, published document)
      ]

  -- readControlForDelivery: the document of a file, if it is valid.
  abbrev pub ready_document : File → ℕ → Option Value
  ready_document none now = none
  ready_document (some document) now = elim (document_rejection parse_date document now none) [
    | none ↦ some document
    | some why ↦ none
  ]

  abbrev pub hold_of_file : Text → Option Value → List ControlScope
  hold_of_file key none = []
  hold_of_file key (some document) =
      if is_active document
      then elim (scope_from_key key) [ none ↦ [] | some scope ↦ scope ∷ [] ]
      else []

  abbrev pub scoped_holds_of : List (Text × File) → ℕ → List ControlScope
  scoped_holds_of [] now = []
  scoped_holds_of ((key, f) ∷ rest) now =
      hold_of_file key (ready_document f now) ++ scoped_holds_of rest now

  abbrev pub global_hold : Option Value → Bool
  global_hold none = true
  global_hold (some document) = is_active document

  abbrev pub is_any : List ControlScope → Bool
  is_any [] = false
  is_any (s ∷ ss) = true

  abbrev pub global_document : Option File → ℕ → Option Value
  global_document none now = none
  global_document (some f) now = ready_document f now

  unfoldable pub delivery_control_document : ControlStore → ℕ → DeliveryControl
  delivery_control_document store now =
      let holds = scoped_holds_of store.scoped_controls now in
      record {
        hold = global_hold (global_document store.active_control now) || is_any holds;
        scoped_holds = holds;
      }
