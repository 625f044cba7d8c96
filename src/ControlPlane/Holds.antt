-- ===== src/ControlPlane/Holds.antt =====
-- Which control documents hold the delivery (apps/observability-control-plane/src/state.js).
use frontend_observability.Base.{
  ℕ, ◌≡◌, inl, inr, refl, String, Bool, true, false, Option, none, some, List, [], ◌∷◌, arith,
  Bool-cases, ap, ◌∙◌,
}
use frontend_observability.Base.Json.{Value, Num}
use frontend_observability.Base.Text.{Text, text_eq}
use frontend_observability.ControlPlane.Documents.{document_rejection}
use frontend_observability.ControlPlane.Store.{
  ControlScope, ControlStore, File, scope_key, scope_from_key, is_active, write_file, write_control,
  find_file, active_of, is_null, prefer, resolve_control_document, ready_document, hold_of_file,
  scoped_holds_of, delivery_control_document,
}

text_eq_sound : (s t : Text) → text_eq s t ≡ true → s ≡ t
unfolding text_eq
text_eq_sound [] [] h = refl
text_eq_sound [] (b ∷ t) h = cc
text_eq_sound (a ∷ s) [] h = cc
text_eq_sound (a ∷ s) (b ∷ t) h =
    let head : a ≡ b = ground arith in
    let tail : s ≡ t = text_eq_sound s t (ground arith) in cc (head, tail)

module _ (parse_date : Value → Option ℕ) (to_iso : ℕ → String) where
  no_hold :
      (key : Text) (o : Option Value)
      → scope_from_key key ≡ none
      → hold_of_file parse_date to_iso key o ≡ []
  no_hold key none h = refl
  no_hold key (some d) h = elim (Bool-cases (is_active d)) [
    | inl up ↦ rw (up, h) refl
    | inr down ↦ rw down refl
  ]

  write_file-holds :
      (key : Text) (f : File) (files : List (Text × File)) (now : ℕ)
      → scope_from_key key ≡ none
      → scoped_holds_of parse_date to_iso (write_file key f files) now
        ≡ scoped_holds_of parse_date to_iso files now
  write_file-holds key f [] now h = rw (no_hold key (ready_document parse_date to_iso f now) h) refl
  write_file-holds key f ((k, g) ∷ rest) now h = elim (Bool-cases (text_eq k key)) [
    | inl same ↦
        let unsplit : scope_from_key k ≡ none = ap scope_from_key (text_eq_sound k key same) ∙ h in
        rw
          (
            same,
            no_hold k (ready_document parse_date to_iso f now) unsplit,
            no_hold k (ready_document parse_date to_iso g now) unsplit,
          )
          refl
    | inr other ↦ rw (other, write_file-holds key f rest now h) refl
  ]

  -- Where the key of a scope does not split back into two parts, as for a service with two underscores
  -- in a row in its name, no control document that is published for the scope changes what holds the
  -- delivery, a kill switch included.
  pub unsplit_scope_never_holds :
      (store : ControlStore) (scope : ControlScope) (document : Value) (now : ℕ)
      → scope_from_key (scope_key scope) ≡ none
      → delivery_control_document parse_date to_iso (write_control store (some scope) document) now
        ≡ delivery_control_document parse_date to_iso store now
  unfolding delivery_control_document
  unsplit_scope_never_holds store scope document now h =
      rw (write_file-holds (scope_key scope) (some document) store.scoped_controls now h) refl

prefer-inactive :
    (coerce : Value → Num) (g s d : Value) (a b : Option Bool)
    → active_of g ≡ a
    → active_of s ≡ b
    → prefer coerce g s ≡ some d
    → active_of d ≡ some false
    → (active_of g ≡ some false) × (active_of s ≡ some false)
unfolding prefer
prefer-inactive coerce g s d none b ga sb h k = absurd (ground (arith, ga))
prefer-inactive coerce g s d (some true) b ga sb h k =
    let same : g ≡ d = ground (arith, ga) in absurd (cc (ga, ap active_of same, k))
prefer-inactive coerce g s d (some false) none ga sb h k = absurd (ground (arith, ga, sb))
prefer-inactive coerce g s d (some false) (some true) ga sb h k =
    let same : s ≡ d = ground (arith, ga, sb) in absurd (cc (sb, ap active_of same, k))
prefer-inactive coerce g s d (some false) (some false) ga sb h k = (ga, sb)

-- Where the platform's document is valid and the scope has a file of its own, the document that the scope
-- gets has an inactive kill switch only if both documents have, whatever the scope's file holds: neither
-- can undo the other's.
pub resolve-inactive :
    (parse_date : Value → Option ℕ) (coerce : Value → Num) (store : ControlStore)
    (scope : ControlScope) (now : ℕ) (global scoped document : Value)
    → store.active_control ≡ some (some global)
    → document_rejection parse_date global now none ≡ none
    → find_file (scope_key scope) store.scoped_controls ≡ some (some scoped)
    → resolve_control_document parse_date coerce store (some scope) now ≡ some document
    → active_of document ≡ some false
    → (active_of global ≡ some false) × (active_of scoped ≡ some false)
unfolding resolve_control_document
resolve-inactive parse_date coerce store scope now global scoped document on_file valid found
      resolved inactive =
    elim (Bool-cases (is_null global)) [
      | inl nothing ↦ absurd (ground (arith, on_file, nothing))
      | inr there ↦
          let chosen : prefer coerce global scoped ≡ some document =
            ground (arith, on_file, there, valid, found) in
          prefer-inactive coerce global scoped document _ _ refl refl chosen inactive
    ]
