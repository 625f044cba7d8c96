-- ===== src/Base/Fields.antt =====
-- Reading a field of an object behind a change of one.
use Prim.Native.String.{String}
use mathlib.Core.Path.{◌≡◌, refl, ap, ◌∙◌}
use mathlib.Core.Bool.{false}
use native.Mathlib.Omega.{arith}
use text.Mathlib.Text.{◌==◌ as str_eq}
use text.Mathlib.TextEquality.{eq_iff}
use frontend_observability.Base.Tests.{if◌then◌else◌, in_either}
use frontend_observability.Base.Json.{Value, Fields, end, field, get_field, set_field}

pub get_field-set_field :
    (k : String) (v : Value) (fs : Fields) → get_field k (set_field k v fs) ≡ v
get_field-set_field k v end = ground (arith, eq_iff k k)
get_field-set_field k v (field j w fs) =
    in_either (λ x. get_field k x ≡ v) (str_eq j k) (λ e. rw e refl)
      (λ e. rw e (get_field-set_field k v fs))

pub get_field-set_field_other :
    (k l : String) (v : Value) (fs : Fields)
    → str_eq l k ≡ false
    → get_field k (set_field l v fs) ≡ get_field k fs
get_field-set_field_other k l v end h = rw h refl
get_field-set_field_other k l v (field j w fs) h =
    in_either (λ x. get_field k x ≡ get_field k (field j w fs)) (str_eq j l)
      (λ e. let apart = ap (λ x. str_eq x k) ((eq_iff j l).0 e) ∙ h in rw apart refl)
      (λ e. ap (λ r. if str_eq j k then w else r) (get_field-set_field_other k l v fs h))
