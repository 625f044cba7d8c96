-- ===== src/ControlPlane/Tests.antt =====
-- Examples for the control plane.
use frontend_observability.Base.{
  ℕ, ◌≡◌, refl, String, Bool, true, false, Option, none, some, [], ◌∷◌, str_eq, ◌==◌, if◌then◌else◌,
  includes,
}
use frontend_observability.Base.Json.{Value, Num, not_a_number, str, num, any_not_included}
use frontend_observability.Base.Text.{text_eq}
use frontend_observability.Base.Json
use frontend_observability.ControlPlane.Documents.{
  Whole, at, number_of_whole, build_control_document, document_rejection, validate_lifetime,
}
use frontend_observability.ControlPlane.Store.{
  ControlScope, ControlStore, scope_key, active_of, prefer, write_control, publish_control,
  resolve_control_document, delivery_control_document,
}
use frontend_observability.ControlPlane.Revisions.{IsOlder, OnDisk, publish_control-IsOlder}
use frontend_observability.ControlPlane.Holds.{unsplit_scope_never_holds, resolve-inactive}

abbrev to_iso : ℕ → String
to_iso t = if t == 1000000 then "T1" else "T2"

abbrev parse_date : Value → Option ℕ
parse_date (str s) =
    if str_eq s "T1" then some 1000000 else if str_eq s "T2" then some 1600000 else none
parse_date _ = none

abbrev document : ℕ → Bool → Value
unfolding build_control_document
document previous active = build_control_document to_iso active "maintenance" (at previous) 1000000

-- A scope whose service has two underscores in a row, and one whose service has none.
abbrev odd : ControlScope
odd = record { service = b'a' ∷ b'_' ∷ b'_' ∷ b'b' ∷ []; environment = b'p' ∷ [] }

abbrev plain : ControlScope
plain = record { service = b'a' ∷ []; environment = b'p' ∷ [] }

abbrev store : ControlStore
store = record {
  active_control = some (some (document 6 false));
  scoped_controls = (scope_key plain, some (document 8 false)) ∷ [];
}

publish_control-IsOlder_example :
    (r : Whole) × (Json.get "revision" (document 9 true) ≡ num (number_of_whole r))
    × ((old : Value) (w : Whole)
        → OnDisk store old
        → Json.get "revision" old ≡ num (number_of_whole w)
        → IsOlder r w)
unfolding publish_control document document_rejection build_control_document validate_lifetime
    any_not_included includes
publish_control-IsOlder_example =
    publish_control-IsOlder parse_date to_iso store true "maintenance" (some plain) 1000000
      (document 9 true) refl

unsplit_scope_never_holds_example :
    delivery_control_document parse_date to_iso
      (write_control store (some odd) (document 9 true))
      1000100
    ≡ delivery_control_document parse_date to_iso store 1000100
unsplit_scope_never_holds_example =
    unsplit_scope_never_holds parse_date to_iso store odd (document 9 true) 1000100 refl

-- Of a text or an array.
abbrev coerce : Value → Num
coerce v = not_a_number

resolve-inactive_example :
    (active_of (document 6 false) ≡ some false) × (active_of (document 8 false) ≡ some false)
unfolding resolve_control_document prefer document document_rejection build_control_document
    validate_lifetime any_not_included includes text_eq
resolve-inactive_example =
    resolve-inactive parse_date coerce store plain 1000100 (document 6 false) (document 8 false)
      (document 8 false) refl refl refl refl refl
