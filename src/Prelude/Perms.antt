-- ===== src/Prelude/Perms.antt =====
-- What a list of texts keeps when it is permuted: its elements and that none occurs twice.
use mathlib.Core.List.{Perm, Permᴰ}
use mathlib.Core.Logic.{∥∥₁_elim}
use mathlib.Core.Bool.{Bool-set}
use mathlib.Core.HLevel.{×_prop}
use kubemirror.Prelude.Lists.{contains, IsDistinct, length}
use Prim.Native.String.{String}
use mathlib.Core.Path.{◌≡◌, refl, ap, ◌∙◌}
use mathlib.Core.List.{List, [], ◌∷◌}
use Prim.Native.Nat.{suc}
use native.Mathlib.Nat.{ℕ_set}
use native.Mathlib.Omega.{arith}
use text.Mathlib.TextEquality.{eq_iff}

contains-permᴰ : {xs ys : List String} (a : String) → Permᴰ xs ys → contains xs a ≡ contains ys a
contains-permᴰ a Permᴰ.nil = refl
contains-permᴰ a (Permᴰ.cons e d) = ground (arith, e, contains-permᴰ a d)
contains-permᴰ a (Permᴰ.swap e f) = ground (arith, e, f)
contains-permᴰ a (Permᴰ.trans d e) = contains-permᴰ a d ∙ contains-permᴰ a e

pub contains-perm : {xs ys : List String} (a : String) → Perm xs ys → contains xs a ≡ contains ys a
contains-perm a p = ∥∥₁_elim p (Bool-set _ _) (contains-permᴰ a)

IsDistinct-permᴰ : {xs ys : List String} → Permᴰ xs ys → IsDistinct xs → IsDistinct ys
IsDistinct-permᴰ Permᴰ.nil h = h
IsDistinct-permᴰ (Permᴰ.cons {b = b} e d) h =
    (ground (arith, e, contains-permᴰ b d), IsDistinct-permᴰ d h.1)
IsDistinct-permᴰ (Permᴰ.swap {a = a} {b = b} e f) h = ground (arith, e, f, eq_iff a b, eq_iff b a)
IsDistinct-permᴰ (Permᴰ.trans d e) h = IsDistinct-permᴰ e (IsDistinct-permᴰ d h)

IsDistinct-prop : (xs : List String) → IsProp (IsDistinct xs)
IsDistinct-prop [] = hlevel
IsDistinct-prop (x ∷ xs) = ×_prop (Bool-set _ _) (IsDistinct-prop xs)

pub IsDistinct-perm : {xs ys : List String} → Perm xs ys → IsDistinct xs → IsDistinct ys
IsDistinct-perm {ys} p h = ∥∥₁_elim p (IsDistinct-prop ys) (λ d. IsDistinct-permᴰ d h)

length-permᴰ : {xs ys : List String} → Permᴰ xs ys → length xs ≡ length ys
length-permᴰ Permᴰ.nil = refl
length-permᴰ (Permᴰ.cons e d) = ap suc (length-permᴰ d)
length-permᴰ (Permᴰ.swap e f) = refl
length-permᴰ (Permᴰ.trans d e) = length-permᴰ d ∙ length-permᴰ e

pub length-perm : {xs ys : List String} → Perm xs ys → length xs ≡ length ys
length-perm p = ∥∥₁_elim p (ℕ_set _ _) length-permᴰ
