-- ===== src/ControlPlane/Revisions.antt =====
-- Revisions only rise (apps/observability-control-plane/src/state.js, publishControl).
use frontend_observability.Base.{
  ℕ, zero, suc, ◌≡◌, inl, inr, refl, String, Bool, true, false, Option, some, List, [], ◌∷◌, arith,
  All, Option-cases, Bool-cases, ◌++◌, ◌⊎◌, subst,
}
use frontend_observability.Base.Text.{Text}
use frontend_observability.Base.Json.{Value, num, get}
use frontend_observability.ControlPlane.Documents.{
  Whole, at, below_zero, whole_le, next_whole, number_of_whole, document_rejection,
  build_control_document,
}
use frontend_observability.ControlPlane.Store.{
  ControlScope, ControlStore, File, revision_of_value, revision_of_file, revisions_of_files,
  revision_of_active, revisions, max_of, max_revision, publish_control, published,
}

whole_le_refl : (a : Whole) → whole_le a a ≡ true
whole_le_refl (at n) = ground arith
whole_le_refl (below_zero n) = ground arith

whole_le_trans : (a b c : Whole) → whole_le a b ≡ true → whole_le b c ≡ true → whole_le a c ≡ true
whole_le_trans (at a) (at b) (at c) h k = ground arith
whole_le_trans (at a) (at b) (below_zero c) h k = cc
whole_le_trans (at a) (below_zero b) c h k = cc
whole_le_trans (below_zero a) (at b) (at c) h k = refl
whole_le_trans (below_zero a) (at b) (below_zero c) h k = cc
whole_le_trans (below_zero a) (below_zero b) (at c) h k = refl
whole_le_trans (below_zero a) (below_zero b) (below_zero c) h k = ground arith

whole_le_flip : (a b : Whole) → whole_le a b ≡ false → whole_le b a ≡ true
whole_le_flip (at a) (at b) h = ground arith
whole_le_flip (at a) (below_zero b) h = refl
whole_le_flip (below_zero a) (at b) h = cc
whole_le_flip (below_zero a) (below_zero b) h = ground arith

-- A revision that is not below another.
abbrev pub IsOlder : Whole → Whole → Type 0
IsOlder new old = whole_le new old ≡ false

next-IsOlder : (a p : Whole) → whole_le a p ≡ true → IsOlder (next_whole p) a
next-IsOlder (at a) (at p) h = ground arith
next-IsOlder (at a) (below_zero p) h = cc
next-IsOlder (below_zero a) (at p) h = refl
next-IsOlder (below_zero a) (below_zero zero) h = refl
next-IsOlder (below_zero a) (below_zero (suc p)) h = ground arith

max_of_first : (a : Whole) (ws : List Whole) → whole_le a (max_of a ws) ≡ true
max_of_first a [] = whole_le_refl a
max_of_first a (w ∷ ws) = elim (Bool-cases (whole_le a w)) [
  | inl up ↦ rw up (whole_le_trans a w (max_of w ws) up (max_of_first w ws))
  | inr down ↦ rw down (max_of_first a ws)
]

max_of-IsOlder :
    (a : Whole) (ws : List Whole) (m : Whole) → max_of a ws ≡ m → All (IsOlder (next_whole m)) ws
max_of-IsOlder a [] m e = tt
max_of-IsOlder a (w ∷ ws) m e = elim (Bool-cases (whole_le a w)) [
  | inl up ↦
      let rest : max_of w ws ≡ m = ground (arith, e, up) in
      (next-IsOlder w m (rw⁻¹ rest (max_of_first w ws)), max_of-IsOlder w ws m rest)
  | inr down ↦
      let rest : max_of a ws ≡ m = ground (arith, e, down) in
      let above : whole_le a m ≡ true = rw⁻¹ rest (max_of_first a ws) in
      (
        next-IsOlder w m (whole_le_trans w a m (whole_le_flip a w down) above),
        max_of-IsOlder a ws m rest,
      )
]

max_revision-IsOlder : (ws : List Whole) → All (IsOlder (next_whole (max_revision ws))) ws
max_revision-IsOlder [] = tt
max_revision-IsOlder (w ∷ ws) =
    (next-IsOlder w (max_of w ws) (max_of_first w ws), max_of-IsOlder w ws (max_of w ws) refl)

-- One of the files holds the document.
abbrev pub InDirectory : Value → List (Text × File) → Type 0
InDirectory old [] = ⊥
InDirectory old ((key, f) ∷ rest) = (f ≡ some old) ⊎ InDirectory old rest

-- The platform's file holds the document, or one in the directory of the scopes.
abbrev pub OnDisk : ControlStore → Value → Type 0
OnDisk store old = (store.active_control ≡ some (some old)) ⊎ InDirectory old store.scoped_controls

both_parts :
    (r : Whole) (xs ys : List Whole)
    → All (IsOlder r) (xs ++ ys)
    → All (IsOlder r) xs × All (IsOlder r) ys
both_parts r [] ys h = (tt, h)
both_parts r (x ∷ xs) ys (a, h) = let (left, right) = both_parts r xs ys h in ((a, left), right)

file-IsOlder :
    (r w : Whole) (old : Value) (f : File)
    → f ≡ some old
    → get "revision" old ≡ num (number_of_whole w)
    → All (IsOlder r) (revision_of_file f)
    → IsOlder r w
file-IsOlder r w old f at_file e h = listed w (
    subst (λ v. All (IsOlder r) (revision_of_value v)) e
      (subst (λ x. All (IsOlder r) (revision_of_file x)) at_file h))
  where
    listed :
        (x : Whole) → All (IsOlder r) (revision_of_value (num (number_of_whole x))) → IsOlder r x
    listed (at n) k = k.0
    listed (below_zero n) k = k.0

directory-IsOlder :
    (r w : Whole) (old : Value) (files : List (Text × File))
    → InDirectory old files
    → get "revision" old ≡ num (number_of_whole w)
    → All (IsOlder r) (revisions_of_files files)
    → IsOlder r w
directory-IsOlder r w old [] there e h = absurd there
directory-IsOlder r w old ((key, f) ∷ rest) (inl here) e h =
    file-IsOlder r w old f here e (both_parts r (revision_of_file f) _ h).0
directory-IsOlder r w old ((key, f) ∷ rest) (inr there) e h =
    directory-IsOlder r w old rest there e (both_parts r (revision_of_file f) _ h).1

disk-IsOlder :
    (store : ControlStore) (r : Whole)
    → All (IsOlder r) (revisions store)
    → (old : Value) (w : Whole) → OnDisk store old
    → get "revision" old ≡ num (number_of_whole w)
    → IsOlder r w
disk-IsOlder store r h old w (inl here) e =
    let platform = (both_parts r (revision_of_active store.active_control) _ h).0 in
    file-IsOlder r w old (some old) refl e
      (subst (λ o. All (IsOlder r) (revision_of_active o)) here platform)
disk-IsOlder store r h old w (inr there) e =
    directory-IsOlder r w old store.scoped_controls there e
      (both_parts r (revision_of_active store.active_control) _ h).1

module _ (parse_date : Value → Option ℕ) (to_iso : ℕ → String) where
  -- A control document that is published, for the platform or for a scope, has a revision above that of
  -- every control document on disk that has a whole number as its revision, the platform's and those of
  -- whatever scopes.
  pub publish_control-IsOlder :
      (store : ControlStore) (active : Bool) (reason_code : String) (scope : Option ControlScope)
      (now : ℕ) (document : Value)
      → (publish_control parse_date to_iso store active reason_code scope now).1
        ≡ published document
      → (r : Whole) × (get "revision" document ≡ num (number_of_whole r))
        × ((old : Value) (w : Whole)
            → OnDisk store old
            → get "revision" old ≡ num (number_of_whole w)
            → IsOlder r w)
  unfolding publish_control build_control_document
  publish_control-IsOlder store active reason_code scope now document h =
      let previous = max_revision (revisions store) in
      let built = build_control_document to_iso active reason_code previous now in
      elim (Option-cases (document_rejection parse_date built now (some previous))) [
        | inr (why, bad) ↦ absurd (ground (arith, bad))
        | inl fine ↦
            let same : built ≡ document = ground (arith, fine) in
            (
              next_whole previous,
              rw⁻¹ same refl,
              disk-IsOlder store (next_whole previous) (max_revision-IsOlder (revisions store)),
            )
      ]
